-- ===== src/Scripts/Buffer.antt =====
-- Node's Buffer.from(text, "base64"), which the scripts of examples/actioncable-demo/frontend decode with:
-- both alphabets, up to the first `=`, without the units of neither alphabet and the bits left over.
use y_ruby.Base.{
  ℕ, ◌+◌, ◌*◌, ◌/◌, ◌%◌, ◌<◌, ◌==◌, if◌then◌else◌, Option, none, some, List, [], ◌∷◌, Bytes, All,
  ◌≡◌, refl, arith, ◌∙◌, ap,
}
use y_ruby.Base64.{digit, digit_value, pad, btoa, to_base64}
use y_ruby.Base64.RoundTrip.{IsByte, sextets, digit-pad}

unfoldable pub unit_value : ℕ → Option ℕ
unit_value c = if c == b'-' then some 62 else if c == b'_' then some 63 else digit_value c

unfoldable pub unit_values : List ℕ → List ℕ
unfolding unit_value
unit_values [] = []
unit_values (c ∷ cs) =
    let vs = unit_values cs in
    if c == pad then [] else elim (unit_value c) [ none ↦ vs | some v ↦ v ∷ vs ]

unfoldable pub whole_bytes : List ℕ → Bytes
whole_bytes [] = []
whole_bytes (a ∷ []) = []
whole_bytes (a ∷ b ∷ []) = (a * 4 + b / 16) ∷ []
whole_bytes (a ∷ b ∷ c ∷ []) = (a * 4 + b / 16) ∷ (b % 16 * 16 + c / 4) ∷ []
whole_bytes (a ∷ b ∷ c ∷ d ∷ rest) =
    (a * 4 + b / 16) ∷ (b % 16 * 16 + c / 4) ∷ (c % 4 * 64 + d) ∷ whole_bytes rest

unfoldable pub buffer_from : List ℕ → Bytes
unfolding unit_values whole_bytes
buffer_from t = whole_bytes (unit_values t)

unit_value-digit : (v : ℕ) → v < 64 → unit_value (digit v) ≡ some v
unfolding unit_value digit digit_value
unit_value-digit v h = ground arith

unit_values-digit : (v : ℕ) (cs : List ℕ) → v < 64 → unit_values (digit v ∷ cs) ≡ v ∷ unit_values cs
unfolding unit_values
unit_values-digit v cs h = ground (arith, digit-pad v h, unit_value-digit v h)

unit_values-pad : (cs : List ℕ) → unit_values (pad ∷ cs) ≡ []
unfolding unit_values
unit_values-pad cs = refl

unit_values-btoa : (bs : Bytes) → All IsByte bs → unit_values (btoa bs) ≡ sextets bs
unfolding btoa sextets
unit_values-btoa [] h = unfold unit_values in refl
unit_values-btoa (a ∷ []) h = rw (
  unit_values-digit (a / 4) _ (omega arith),
  unit_values-digit (a % 4 * 16) _ (omega arith),
  unit_values-pad,
)
unit_values-btoa (a ∷ b ∷ []) h = rw (
  unit_values-digit (a / 4) _ (omega arith),
  unit_values-digit (a % 4 * 16 + b / 16) _ (omega arith),
  unit_values-digit (b % 16 * 4) _ (omega arith),
  unit_values-pad,
)
unit_values-btoa (a ∷ b ∷ c ∷ rest) h = rw (
  unit_values-digit (a / 4) _ (omega arith),
  unit_values-digit (a % 4 * 16 + b / 16) _ (omega arith),
  unit_values-digit (b % 16 * 4 + c / 64) _ (omega arith),
  unit_values-digit (c % 64) _ (omega arith),
  unit_values-btoa rest h.1.1.1,
)

whole_bytes-sextets : (bs : Bytes) → All IsByte bs → whole_bytes (sextets bs) ≡ bs
unfolding whole_bytes sextets
whole_bytes-sextets [] h = refl
whole_bytes-sextets (a ∷ []) h = ground arith
whole_bytes-sextets (a ∷ b ∷ []) h = ground arith
whole_bytes-sextets (a ∷ b ∷ c ∷ rest) h = ground (arith, whole_bytes-sextets rest h.1.1.1)

-- Buffer.from decodes every list of bytes from its base64.
pub buffer_from-to_base64 : (bs : Bytes) → All IsByte bs → buffer_from (to_base64 bs) ≡ bs
unfolding buffer_from to_base64
buffer_from-to_base64 bs h = ap whole_bytes (unit_values-btoa bs h) ∙ whole_bytes-sextets bs h
