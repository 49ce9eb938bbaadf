-- ===== src/Scripts/Texts.antt =====
-- The texts of the scripts in examples/actioncable-demo/frontend: literals, numbers in templates, `includes`.
use Prim.Native.Char.{code}
use Prim.Native.String.{String}
use y_ruby.Base.{
  ℕ, zero, suc, ◌+◌, ◌/◌, ◌%◌, ltb, ◌==◌, Bool, true, false, ◌&&◌, ◌||◌, if◌then◌else◌, List, [],
  ◌∷◌, ◌++◌, ◌≡◌, refl, arith,
}

-- A string, as its UTF-16 code units.
abbrev pub Text : Type 0
Text = List ℕ

-- The code units of an ASCII literal.
abbrev pub codes : String → Text
codes String.[] = []
codes (String.◌∷◌ c s) = code c ∷ codes s

-- A number in a template, with fuel for its digits: there are no more than its value.
unfoldable pub digits : ℕ → ℕ → Text
digits zero n = (b'0' + n) ∷ []
digits (suc fuel) n =
    let front = digits fuel (n / 10) in
    if ltb n 10 then (b'0' + n) ∷ [] else front ++ (b'0' + n % 10) ∷ []

unfoldable pub decimal : ℕ → Text
unfolding digits
decimal n = digits n n

unfoldable pub starts_with : Text → Text → Bool
starts_with [] s = true
starts_with (c ∷ t) [] = false
starts_with (c ∷ t) (d ∷ s) = c == d && starts_with t s

-- `s.includes(t)`
unfoldable pub includes : Text → Text → Bool
unfolding starts_with
includes [] t = starts_with t []
includes (c ∷ s) t = starts_with t (c ∷ s) || includes s t

-- `===` on strings
abbrev pub same_text : Text → Text → Bool
same_text [] [] = true
same_text (a ∷ s) (b ∷ t) = a == b && same_text s t
same_text _ _ = false

pub same_text-path : (s t : Text) → same_text s t ≡ true → s ≡ t
same_text-path [] [] h = refl
same_text-path [] (b ∷ t) h = ground arith
same_text-path (a ∷ s) [] h = ground arith
same_text-path (a ∷ s) (b ∷ t) h = ground (arith, same_text-path s t)
