-- ===== src/Scripts/Loadtest/Percentile.antt =====
-- The percentiles of examples/actioncable-demo/frontend/loadtest.mjs.
use mathlib.Core.List.{Memᴰ}
use mathlib.Core.List.Memᴰ.{head, tail}
use y_ruby.Base.{
  ℕ, zero, suc, ◌≤◌, ◌<◌, leb, true, false, List, [], ◌∷◌, ◌≡◌, refl, ap, ◌∙◌, ◌⊎◌, inl, inr, arith,
  All, All-map, All-at, length, Bool-cases, subst,
}
use y_ruby.Scripts.Loadtest.{insert, sorted, at_index, pct}

abbrev IsSorted : List ℕ → Type 0
IsSorted [] = Unit
IsSorted (x ∷ xs) = All (λ y. x ≤ y) xs × IsSorted xs

All-insert : (P : ℕ → Type 0) (x : ℕ) (ys : List ℕ) → P x → All P ys → All P (insert x ys)
unfolding insert
All-insert P x [] h k = (h, tt)
All-insert P x (y ∷ ys) h k = elim (Bool-cases (leb x y)) [
  | inl e ↦ rw e (h, k)
  | inr e ↦ rw e (k.0, All-insert P x ys h k.1)
]

insert-IsSorted : (x : ℕ) (ys : List ℕ) → IsSorted ys → IsSorted (insert x ys)
unfolding insert
insert-IsSorted x [] h = (tt, tt)
insert-IsSorted x (y ∷ ys) h = elim (Bool-cases (leb x y)) [
  | inl e ↦ let le : x ≤ y = ground arith in rw e ((le, All-map (λ z k. omega arith) ys h.0), h)
  | inr e ↦ rw e (All-insert (λ z. y ≤ z) x ys (ground arith) h.0, insert-IsSorted x ys h.1)
]

sorted-IsSorted : (xs : List ℕ) → IsSorted (sorted xs)
unfolding sorted
sorted-IsSorted [] = tt
sorted-IsSorted (x ∷ xs) = insert-IsSorted x (sorted xs) (sorted-IsSorted xs)

length-insert : (x : ℕ) (ys : List ℕ) → length (insert x ys) ≡ suc (length ys)
unfolding insert
length-insert x [] = refl
length-insert x (y ∷ ys) = ground (arith, length-insert x ys)

length-sorted : (xs : List ℕ) → length (sorted xs) ≡ length xs
unfolding sorted
length-sorted [] = refl
length-sorted (x ∷ xs) = length-insert x (sorted xs) ∙ ap suc (length-sorted xs)

insert-front : (x y : ℕ) (ys : List ℕ) → leb x y ≡ true → insert x (y ∷ ys) ≡ x ∷ y ∷ ys
unfolding insert
insert-front x y ys e = rw e refl

insert-behind : (x y : ℕ) (ys : List ℕ) → leb x y ≡ false → insert x (y ∷ ys) ≡ y ∷ insert x ys
unfolding insert
insert-behind x y ys e = rw e refl

Mem-insert : (z x : ℕ) (ys : List ℕ) → Memᴰ z (insert x ys) → Memᴰ z (x ∷ ys)
unfolding insert
Mem-insert z x [] m = m
Mem-insert z x (y ∷ ys) m = elim (Bool-cases (leb x y)) [
  | inl e ↦ subst (λ l. Memᴰ z l) (insert-front x y ys e) m
  | inr e ↦ elim (subst (λ l. Memᴰ z l) (insert-behind x y ys e) m) [
    | head a ↦ tail (head a)
    | tail n ↦ elim (Mem-insert z x ys n) [ head a ↦ head a | tail o ↦ tail (tail o) ]
  ]
]

Mem-sorted : (z : ℕ) (xs : List ℕ) → Memᴰ z (sorted xs) → Memᴰ z xs
unfolding sorted
Mem-sorted z [] m = m
Mem-sorted z (x ∷ xs) m = elim (Mem-insert z x (sorted xs) m) [
  | head e ↦ head e
  | tail n ↦ tail (Mem-sorted z xs n)
]

at_index-Mem : (xs : List ℕ) (i : ℕ) → i < length xs → Memᴰ (at_index xs i) xs
unfolding at_index
at_index-Mem [] i h = absurd (omega arith)
at_index-Mem (x ∷ xs) zero h = head refl
at_index-Mem (x ∷ xs) (suc i) h = tail (at_index-Mem xs i (omega arith))

at_index_mono :
    (xs : List ℕ) (i j : ℕ) → IsSorted xs → i ≤ j → j < length xs → at_index xs i ≤ at_index xs j
unfolding at_index
at_index_mono [] i j s h k = absurd (omega arith)
at_index_mono (x ∷ xs) zero zero s h k = omega arith
at_index_mono (x ∷ xs) zero (suc j) s h k =
    All-at (λ y. x ≤ y) xs (at_index-Mem xs j (omega arith)) s.0
at_index_mono (x ∷ xs) (suc i) zero s h k = absurd (omega arith)
at_index_mono (x ∷ xs) (suc i) (suc j) s h k = at_index_mono xs i j s.1 (omega arith) (omega arith)

-- Whatever the rounding of the position is: of samples, a percentile is one of them, and it is no more than
-- another one whose position is not before its own. Without samples every percentile is zero.
pub pct_bounds :
    (position : ℕ → ℕ → ℕ) (xs : List ℕ) (p q : ℕ)
    → position p (length xs) ≤ position q (length xs)
    → ((xs ≡ []) × (pct position xs p ≡ 0) ⊎ Memᴰ (pct position xs p) xs)
      × (pct position xs p ≤ pct position xs q)
unfolding pct
pct_bounds position [] p q h = (inl (refl, refl), omega arith)
pct_bounds position (x ∷ xs) p q h =
    let s = sorted (x ∷ xs) in
    let n = length-sorted (x ∷ xs) in
    let h' : position p (length s) ≤ position q (length s) = rw n h in
    (
      inr (Mem-sorted _ (x ∷ xs) (at_index-Mem s _ (ground (arith, n)))),
      at_index_mono s _ _ (sorted-IsSorted (x ∷ xs)) (ground (arith, n, h')) (ground (arith, n)),
    )
