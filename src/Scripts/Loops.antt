-- ===== src/Scripts/Loops.antt =====
-- The loops over a frame of the scripts in examples/actioncable-demo/frontend: they end, and what they keep.
use y_ruby.Base.{
  ℕ, zero, suc, ◌≤◌, ◌<◌, Bool, true, false, some, [], ◌∷◌, Bytes, length, ◌≡◌, ◌≢◌, refl, arith,
  Option-cases, ◌⊎◌, if◌then◌else◌, inl, inr, subst, Bool-cases, sym,
}
use y_ruby.External.{Packages, SyncRead}
use y_ruby.Scripts.{
  Turn, goes_on, breaks, throws, Ending, finished, starved, read_loop, receive_all, Member,
  read_type, read_sync, skip_block, skip_or_break, apply_block, when_update, from_value, is_truthy,
}
use y_ruby.Number.{Value, text, boolean, number, undefined, null, object}

-- What lib0 and y-protocols document of reading: it takes bytes from the front.
pub record ReadLaws (lib : Packages) : Type 0 where
  pub uint_shrinks :
      (bs rest : Bytes) (n : ℕ) → lib.read_var_uint bs ≡ some (n, rest) → length rest < length bs
  pub block_shrinks :
      (bs block rest : Bytes)
      → lib.read_var_uint8_array bs ≡ some (block, rest)
      → length rest ≤ length bs
  pub sync_shrinks :
      (bs : Bytes) (d : lib.Doc)
      → let r = lib.read_sync_message bs d in r.applied.threw ≡ false → length r.rest ≤ length bs

-- A round that goes on leaves fewer bytes than this.
abbrev pub Leaves : {S : Type 0} → ℕ → Turn S → Type 0
Leaves n (goes_on s rest) = length rest < n
Leaves n (breaks s) = Unit
Leaves n (throws s) = Unit

-- Each round reads something.
abbrev pub Shrinks : {S : Type 0} → (S → Bytes → Turn S) → Type 0
Shrinks {S = S} turn = (s : S) (bs : Bytes) → Leaves (length bs) (turn s bs)

Turn-cases :
    {S : Type 0} (t : Turn S)
    → ((s : S) × (rest : Bytes) × (t ≡ goes_on s rest))
      ⊎ (((s : S) × (t ≡ breaks s)) ⊎ ((s : S) × (t ≡ throws s)))
Turn-cases (goes_on s rest) = inl (s, rest, refl)
Turn-cases (breaks s) = inr (inl (s, refl))
Turn-cases (throws s) = inr (inr (s, refl))

read_loop-ends :
    {S : Type 0} (turn : S → Bytes → Turn S)
    → Shrinks turn
    → (fuel : ℕ) (s : S) (bs : Bytes) → length bs ≤ fuel
    → (read_loop turn fuel s bs).1 ≢ starved
unfolding read_loop
read_loop-ends turn shrinks zero s [] h = λ e. cc
read_loop-ends turn shrinks zero s (b ∷ bs) h = absurd (omega arith)
read_loop-ends turn shrinks (suc fuel) s [] h = λ e. cc
read_loop-ends turn shrinks (suc fuel) s (b ∷ bs) h = elim (Turn-cases (turn s (b ∷ bs))) [
  | inl (t, rest, e) ↦
      let less = subst (Leaves (length (b ∷ bs))) e (shrinks s (b ∷ bs)) in
      rw (e, read_loop) (read_loop-ends turn shrinks fuel t rest (omega (arith, less)))
  | inr (inl (t, e)) ↦ rw (e, read_loop) (λ e'. cc)
  | inr (inr (t, e)) ↦ rw (e, read_loop) (λ e'. cc)
]

-- What every round keeps, whether it goes on or not, the loop keeps.
abbrev pub After : {S : Type 0} → (S → Type 0) → Turn S → Type 0
After P (goes_on s rest) = P s
After P (breaks s) = P s
After P (throws s) = P s

read_loop-keeps :
    {S : Type 0} (P : S → Type 0) (turn : S → Bytes → Turn S)
    → ((s : S) (bs : Bytes) → P s → After P (turn s bs))
    → (fuel : ℕ) (s : S) (bs : Bytes) → P s
    → P (read_loop turn fuel s bs).0
unfolding read_loop
read_loop-keeps P turn keeps zero s [] h = h
read_loop-keeps P turn keeps zero s (b ∷ bs) h = h
read_loop-keeps P turn keeps (suc fuel) s [] h = h
read_loop-keeps P turn keeps (suc fuel) s (b ∷ bs) h = elim (Turn-cases (turn s (b ∷ bs))) [
  | inl (t, rest, e) ↦
      rw (e, read_loop)
        (read_loop-keeps P turn keeps fuel t rest (subst (After P) e (keeps s (b ∷ bs) h)))
  | inr (inl (t, e)) ↦ rw (e, read_loop) (subst (After P) e (keeps s (b ∷ bs) h))
  | inr (inr (t, e)) ↦ rw (e, read_loop) (subst (After P) e (keeps s (b ∷ bs) h))
]

pub receive_all-ends :
    {S : Type 0} (turn : S → Bytes → Turn S)
    → Shrinks turn
    → (s : S) (bs : Bytes) → (receive_all turn s bs).1 ≢ starved
unfolding receive_all
receive_all-ends turn shrinks s bs = read_loop-ends turn shrinks (length bs) s bs (omega arith)

pub receive_all-keeps :
    {S : Type 0} (P : S → Type 0) (turn : S → Bytes → Turn S)
    → ((s : S) (bs : Bytes) → P s → After P (turn s bs))
    → (s : S) (bs : Bytes) → P s
    → P (receive_all turn s bs).0
unfolding receive_all
receive_all-keeps P turn keeps s bs h = read_loop-keeps P turn keeps (length bs) s bs h

-- What the code behind the decoding does, it does behind the test of a value.
pub from_value-ends :
    {S : Type 0} (v : Value) (s : S) (use_bytes : Bytes → S × Ending)
    → ((bs : Bytes) → (use_bytes bs).1 ≢ starved)
    → (from_value v s use_bytes).1 ≢ starved
unfolding from_value
from_value-ends (text t) s use_bytes h = h _
from_value-ends undefined s use_bytes h = λ e. cc
from_value-ends null s use_bytes h = λ e. cc
from_value-ends (boolean b) s use_bytes h = λ e. cc
from_value-ends (number n) s use_bytes h = λ e. cc
from_value-ends object s use_bytes h = λ e. cc

pub from_value-keeps :
    {S : Type 0} (P : S → Type 0) (v : Value) (s : S) (use_bytes : Bytes → S × Ending)
    → P s
    → ((bs : Bytes) → P (use_bytes bs).0)
    → P (from_value v s use_bytes).0
unfolding from_value
from_value-keeps P (text t) s use_bytes hs h = h _
from_value-keeps P undefined s use_bytes hs h = hs
from_value-keeps P null s use_bytes hs h = hs
from_value-keeps P (boolean b) s use_bytes hs h = hs
from_value-keeps P (number n) s use_bytes hs h = hs
from_value-keeps P object s use_bytes hs h = hs

if-ends :
    {S : Type 0} (b : Bool) (x : S × Ending) (s : S)
    → x.1 ≢ starved
    → (if b then x else (s, finished)).1 ≢ starved
if-ends true x s h = h
if-ends false x s h = λ e. cc

pub when_update-ends :
    {S : Type 0} (v : Value) (s : S) (use_bytes : Bytes → S × Ending)
    → ((bs : Bytes) → (use_bytes bs).1 ≢ starved)
    → (when_update v s use_bytes).1 ≢ starved
unfolding when_update
when_update-ends v s use_bytes h = if-ends (is_truthy v) _ s (from_value-ends v s use_bytes h)

Leaves-mono : {S : Type 0} (t : Turn S) {m n : ℕ} → m ≤ n → Leaves m t → Leaves n t
Leaves-mono (goes_on s rest) le h = omega arith
Leaves-mono (breaks s) le h = tt
Leaves-mono (throws s) le h = tt

pub when_update-keeps :
    {S : Type 0} (P : S → Type 0) (v : Value) (s : S) (use_bytes : Bytes → S × Ending)
    → P s
    → ((bs : Bytes) → P (use_bytes bs).0)
    → P (when_update v s use_bytes).0
unfolding when_update
when_update-keeps P v s use_bytes hs h = elim (Bool-cases (is_truthy v)) [
  | inl e ↦ rw e (from_value-keeps P v s use_bytes hs h)
  | inr e ↦ rw e hs
]

pub finished-ne-starved : finished ≢ starved
finished-ne-starved e = cc

-- The pieces of a round.
module _ {lib : Packages} (laws : ReadLaws lib) {Extra : Type 0} where
  read_type-some :
      (m : Member lib Extra) (bs : Bytes) (body : ℕ → Bytes → Turn (Member lib Extra)) (type : ℕ)
      (rest : Bytes)
      → lib.read_var_uint bs ≡ some (type, rest)
      → read_type m bs body ≡ body type rest
  unfolding read_type
  read_type-some m bs body type rest e = rw (e, read_type) refl

  pub read_type-Leaves :
      (m : Member lib Extra) (bs : Bytes) (body : ℕ → Bytes → Turn (Member lib Extra))
      → ((type : ℕ) (rest : Bytes) → Leaves (suc (length rest)) (body type rest))
      → Leaves (length bs) (read_type m bs body)
  unfolding read_type
  read_type-Leaves m bs body h = elim (Option-cases (lib.read_var_uint bs)) [
    | inl e ↦ rw (e, Leaves) tt
    | inr (a, e) ↦
        subst (Leaves (length bs)) (sym (read_type-some m bs body a.0 a.1 e))
          (Leaves-mono (body a.0 a.1) (omega (arith, laws.uint_shrinks bs a.1 a.0 e)) (h a.0 a.1))
  ]

  pub skip_block-Leaves :
      (m : Member lib Extra) (rest : Bytes) → Leaves (suc (length rest)) (skip_block m rest)
  unfolding skip_block
  skip_block-Leaves m rest = elim (Option-cases (lib.read_var_uint8_array rest)) [
    | inl e ↦ rw (e, Leaves) tt
    | inr (a, e) ↦ rw (e, Leaves) (omega (arith, laws.block_shrinks rest a.0 a.1 e))
  ]

  pub skip_or_break-Leaves :
      (m : Member lib Extra) (rest : Bytes) → Leaves (suc (length rest)) (skip_or_break m rest)
  unfolding skip_or_break
  skip_or_break-Leaves m rest = elim (Option-cases (lib.read_var_uint8_array rest)) [
    | inl e ↦ rw (e, Leaves) tt
    | inr (a, e) ↦ rw (e, Leaves) (omega (arith, laws.block_shrinks rest a.0 a.1 e))
  ]

  pub apply_block-Leaves :
      (awareness : lib.Awareness) (m : Member lib Extra) (rest : Bytes)
      (put : lib.Awareness → Member lib Extra)
      → Leaves (suc (length rest)) (apply_block awareness m rest put)
  unfolding apply_block
  apply_block-Leaves awareness m rest put = elim (Option-cases (lib.read_var_uint8_array rest)) [
    | inl e ↦ rw (e, Leaves) tt
    | inr (a, e) ↦
        let less = laws.block_shrinks rest a.0 a.1 e in
        elim (Bool-cases (lib.apply_awareness_update awareness a.0).threw) [
          | inl t ↦ rw (e, t, Leaves) tt
          | inr t ↦ rw (e, t, Leaves) (omega (arith, less))
        ]
  ]

  pub read_sync-Leaves :
      (listener : Member lib Extra → Bool → Bytes → Member lib Extra) (m : Member lib Extra)
      (rest : Bytes) (finish : Member lib Extra → SyncRead lib.Doc → Member lib Extra)
      → Leaves (suc (length rest)) (read_sync listener m rest finish)
  unfolding read_sync
  read_sync-Leaves listener m rest finish =
      let r = lib.read_sync_message rest m.doc in
      elim (Bool-cases r.applied.threw) [
        | inl t ↦ rw (t, Leaves) tt
        | inr t ↦ rw (t, Leaves) (omega (arith, laws.sync_shrinks rest m.doc t))
      ]

pub if-Leaves :
    {S : Type 0} (n : ℕ) (b : Bool) (t u : Turn S)
    → Leaves n t
    → Leaves n u
    → Leaves n (if b then t else u)
if-Leaves n true t u h k = h
if-Leaves n false t u h k = k
