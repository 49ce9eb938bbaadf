-- ===== src/Scripts/ReliableClient/Ledger.antt =====
-- The pending frames and the acknowledgements of the client of
-- examples/actioncable-demo/frontend/reliable.mjs.
use mathlib.Core.List.{Memᴰ}
use mathlib.Core.List.Memᴰ.{head, tail}
use y_ruby.Base.{
  ℕ, ◌<◌, Bool, true, false, ◌||◌, List, [], ◌∷◌, ◌++◌, Bytes, ◌≡◌, refl, sym, ap, subst, ◌∙◌, ◌⊎◌,
  inl, inr, arith, All, All-map, All-append, Bool-cases,
}
use y_ruby.Number.{Value, increment, exact_limit}
use y_ruby.Scripts.ReliableClient.{Reliability, put_pending, delete_pending, is_key}

-- What the acknowledgements change: the next number, the pending frames, the acknowledgements.
abbrev pub Ledger : Type 0
Ledger = ℕ × List (ℕ × Bytes) × List Value

abbrev pub ledger : Reliability → Ledger
ledger x = (x.next_id, x.pending, x.acked)

abbrev pub is_acked : ℕ → List Value → Bool
is_acked id [] = false
is_acked id (a ∷ acks) = is_key a id || is_acked id acks

-- The entry is pending, or its number was acknowledged.
abbrev pub IsSafe : ℕ × List (ℕ × Bytes) × List Value → ℕ × Bytes → Type 0
IsSafe l e = Memᴰ e l.1 ⊎ (is_acked e.0 l.2 ≡ true)

-- The numbers of the entries are below this one.
abbrev pub Below : ℕ → List (ℕ × Bytes) → Type 0
Below n entries = All (λ (e : ℕ × Bytes). e.0 < n) entries

is_acked-append :
    (id : ℕ) (acks more : List Value)
    → is_acked id (acks ++ more) ≡ (is_acked id acks || is_acked id more)
is_acked-append id [] more = refl
is_acked-append id (a ∷ acks) more = ground (arith, is_acked-append id acks more)

pub put_pending-fresh :
    (id : ℕ) (frame : Bytes) (entries : List (ℕ × Bytes))
    → Below id entries
    → put_pending id frame entries ≡ entries ++ (id, frame) ∷ []
unfolding put_pending
put_pending-fresh id frame [] h = refl
put_pending-fresh id frame ((k, f) ∷ entries) h =
    ground (arith, put_pending-fresh id frame entries h.1)

delete_pending-keeps :
    (ack : Value) (e : ℕ × Bytes) (entries : List (ℕ × Bytes))
    → Memᴰ e entries
    → Memᴰ e (delete_pending ack entries) ⊎ (is_key ack e.0 ≡ true)
unfolding delete_pending
delete_pending-keeps ack e [] m = elim m [ ]
delete_pending-keeps ack e ((k, f) ∷ entries) m = elim (Bool-cases (is_key ack k)) [
  | inl acked ↦ elim m [
    | head e ↦ inr (ap (λ x. is_key ack x.0) e ∙ acked)
    | tail n ↦ inl (rw acked n)
  ]
  | inr kept ↦ elim m [
    | head e ↦ inl (rw kept (head e))
    | tail n ↦ elim (delete_pending-keeps ack e entries n) [
      | inl o ↦ inl (rw kept (tail o))
      | inr a ↦ inr a
    ]
  ]
]

pub All-delete :
    (P : ℕ × Bytes → Type 0) (ack : Value) (entries : List (ℕ × Bytes))
    → All P entries
    → All P (delete_pending ack entries)
unfolding delete_pending
All-delete P ack [] h = tt
All-delete P ack ((k, f) ∷ entries) h = elim (Bool-cases (is_key ack k)) [
  | inl e ↦ rw e h.1
  | inr e ↦ rw e (h.0, All-delete P ack entries h.1)
]

pub Below-delete :
    (ack : Value) (n : ℕ) (entries : List (ℕ × Bytes))
    → Below n entries
    → Below n (delete_pending ack entries)
Below-delete ack n entries h = All-delete (λ (e : ℕ × Bytes). e.0 < n) ack entries h

Mem-front : {A : Type 0} {x : A} (xs ys : List A) → Memᴰ x xs → Memᴰ x (xs ++ ys)
Mem-front [] ys m = elim m [ ]
Mem-front (y ∷ xs) ys (head e) = head e
Mem-front (y ∷ xs) ys (tail m) = tail (Mem-front xs ys m)

Mem-behind : {A : Type 0} {x : A} (xs ys : List A) → Memᴰ x ys → Memᴰ x (xs ++ ys)
Mem-behind [] ys m = m
Mem-behind (y ∷ xs) ys m = tail (Mem-behind xs ys m)

-- A new entry: what is safe stays so, and the new entry is safe.
abbrev pub issue : Ledger → Bytes → Ledger
issue (n, entries, acks) frame = (increment n, put_pending n frame entries, acks)

abbrev pub settle : Ledger → Value → Ledger
settle (n, entries, acks) ack = (n, delete_pending ack entries, acks ++ ack ∷ [])

pub IsSafe-issue :
    (l : Ledger) (frame : Bytes) (e : ℕ × Bytes)
    → Below l.0 l.1
    → IsSafe l e
    → IsSafe (issue l frame) e
IsSafe-issue (n, entries, acks) frame e h (inl m) =
    inl (subst (Memᴰ e) (sym (put_pending-fresh n frame entries h)) (Mem-front entries _ m))
IsSafe-issue (n, entries, acks) frame e h (inr a) = inr a

pub IsSafe-new : (l : Ledger) (frame : Bytes) → Below l.0 l.1 → IsSafe (issue l frame) (l.0, frame)
IsSafe-new (n, entries, acks) frame h = inl (
    subst (Memᴰ (n, frame)) (sym (put_pending-fresh n frame entries h))
      (Mem-behind entries _ (head refl)))

pub IsSafe-settle :
    (l : Ledger) (ack : Value) (e : ℕ × Bytes) → IsSafe l e → IsSafe (settle l ack) e
IsSafe-settle (n, entries, acks) ack e (inl m) = elim (delete_pending-keeps ack e entries m) [
  | inl o ↦ inl o
  | inr k ↦ inr (ground (arith, is_acked-append e.0 acks (ack ∷ []), k))
]
IsSafe-settle (n, entries, acks) ack e (inr a) =
    inr (ground (arith, is_acked-append e.0 acks (ack ∷ []), a))

pub Below-issue :
    (l : Ledger) (frame : Bytes)
    → l.0 < exact_limit
    → Below l.0 l.1
    → Below (issue l frame).0 (issue l frame).1
Below-issue (n, entries, acks) frame b h =
    subst (Below (increment n)) (sym (put_pending-fresh n frame entries h)) (
      All-append (λ (e : ℕ × Bytes). e.0 < increment n) entries ((n, frame) ∷ [])
        (All-map (λ e k. ground arith) entries h) (ground arith, tt))
