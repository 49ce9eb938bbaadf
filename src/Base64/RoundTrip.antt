-- ===== src/Base64/RoundTrip.antt =====
-- Encoding and then decoding by base64.ts.
use y_ruby.Base.{
  ℕ, ◌+◌, ◌*◌, ◌/◌, ◌%◌, ◌<◌, ◌≡◌, ◌≢◌, refl, List, [], ◌∷◌, some, Bytes, All, arith, ◌==◌, false,
  ap, ◌∙◌, map,
}
use y_ruby.Base64.{
  pad, digit, digit_value, btoa, without_spaces, values, unpadded, bytes_of, atob, to_base64,
  from_base64, is_space,
}

pub digit_value-digit : (v : ℕ) → v < 64 → digit_value (digit v) ≡ some v
unfolding digit_value digit
digit_value-digit v h = ground arith

digit-space : (v : ℕ) → v < 64 → is_space (digit v) ≡ false
unfolding digit
digit-space v h = ground arith

pub digit-pad : (v : ℕ) → v < 64 → (digit v == pad) ≡ false
unfolding digit
digit-pad v h = ground arith

-- The values of an encoding, without its padding.
unfoldable pub sextets : Bytes → List ℕ
sextets [] = []
sextets (a ∷ []) = (a / 4) ∷ (a % 4 * 16) ∷ []
sextets (a ∷ b ∷ []) = (a / 4) ∷ (a % 4 * 16 + b / 16) ∷ (b % 16 * 4) ∷ []
sextets (a ∷ b ∷ c ∷ rest) =
    (a / 4) ∷ (a % 4 * 16 + b / 16) ∷ (b % 16 * 4 + c / 64) ∷ (c % 64) ∷ sextets rest

abbrev pub IsByte : ℕ → Type 0
IsByte b = b < 256

pub sextets-lt : (bs : Bytes) → All IsByte bs → All (λ v. v < 64) (sextets bs)
unfolding sextets
sextets-lt [] h = tt
sextets-lt (a ∷ []) h = omega arith
sextets-lt (a ∷ b ∷ []) h = omega arith
sextets-lt (a ∷ b ∷ c ∷ rest) h =
    (omega arith, (omega arith, (omega arith, (omega arith, sextets-lt rest h.1.1.1))))

bytes_of-sextets : (bs : Bytes) → All IsByte bs → bytes_of (sextets bs) ≡ some bs
unfolding sextets bytes_of
bytes_of-sextets [] h = refl
bytes_of-sextets (a ∷ []) h = ground arith
bytes_of-sextets (a ∷ b ∷ []) h = ground arith
bytes_of-sextets (a ∷ b ∷ c ∷ rest) h = ground (arith, bytes_of-sextets rest h.1.1.1)

values-digits : (vs : List ℕ) → All (λ v. v < 64) vs → values (map digit vs) ≡ some vs
unfolding values
values-digits [] h = refl
values-digits (v ∷ vs) h = ground (arith, digit_value-digit v h.0, values-digits vs h.1)

without_spaces-btoa : (bs : Bytes) → All IsByte bs → without_spaces (btoa bs) ≡ btoa bs
unfolding without_spaces btoa
without_spaces-btoa [] h = refl
without_spaces-btoa (a ∷ []) h =
    ground (arith, digit-space (a / 4) (omega arith), digit-space (a % 4 * 16) (omega arith))
without_spaces-btoa (a ∷ b ∷ []) h = ground (
  arith,
  digit-space (a / 4) (omega arith),
  digit-space (a % 4 * 16 + b / 16) (omega arith),
  digit-space (b % 16 * 4) (omega arith),
)
without_spaces-btoa (a ∷ b ∷ c ∷ rest) h = rw (
  digit-space (a / 4) (omega arith),
  digit-space (a % 4 * 16 + b / 16) (omega arith),
  digit-space (b % 16 * 4 + c / 64) (omega arith),
  digit-space (c % 64) (omega arith),
  without_spaces-btoa rest h.1.1.1,
)

unpadded-longer :
    (p q r t : ℕ) (cs : List ℕ)
    → cs ≢ []
    → unpadded (p ∷ q ∷ r ∷ t ∷ cs) ≡ p ∷ q ∷ r ∷ t ∷ unpadded cs
unfolding unpadded
unpadded-longer p q r t [] n = absurd (n refl)
unpadded-longer p q r t (c ∷ cs) n = refl

pub btoa-ne-nil : (b : ℕ) (bs : Bytes) → btoa (b ∷ bs) ≢ []
unfolding btoa
btoa-ne-nil b [] e = cc
btoa-ne-nil b (c ∷ []) e = cc
btoa-ne-nil b (c ∷ d ∷ bs) e = cc

unpadded-btoa : (bs : Bytes) → All IsByte bs → unpadded (btoa bs) ≡ map digit (sextets bs)
unfolding unpadded btoa sextets
unpadded-btoa [] h = refl
unpadded-btoa (a ∷ []) h = ground arith
unpadded-btoa (a ∷ b ∷ []) h = ground (arith, digit-pad (b % 16 * 4) (omega arith))
unpadded-btoa (a ∷ b ∷ c ∷ []) h = ground (arith, digit-pad (c % 64) (omega arith))
unpadded-btoa (a ∷ b ∷ c ∷ d ∷ rest) h =
    unpadded-longer _ _ _ _ (btoa (d ∷ rest)) (btoa-ne-nil d rest)
    ∙ ap
        (λ cs.
          digit (a / 4)
          ∷ digit (a % 4 * 16 + b / 16)
          ∷ digit (b % 16 * 4 + c / 64)
          ∷ digit (c % 64)
          ∷ cs)
        (unpadded-btoa (d ∷ rest) h.1.1.1)

atob-of :
    (cs vs : List ℕ) (bs : Bytes)
    → values (unpadded (without_spaces cs)) ≡ some vs
    → bytes_of vs ≡ some bs
    → atob cs ≡ some bs
unfolding atob
atob-of cs vs bs e f = ground arith

-- Every list of bytes is decoded from its encoding.
pub from_base64-to_base64 : (bs : Bytes) → All IsByte bs → from_base64 (to_base64 bs) ≡ some bs
unfolding from_base64 to_base64
from_base64-to_base64 bs h =
    let digits = ap unpadded (without_spaces-btoa bs h) ∙ unpadded-btoa bs h in
    atob-of (btoa bs) (sextets bs) bs
      (ap values digits ∙ values-digits (sextets bs) (sextets-lt bs h)) (bytes_of-sextets bs h)
