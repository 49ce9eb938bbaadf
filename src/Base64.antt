-- ===== src/Base64.antt =====
-- packages/client/src/base64.ts, with the host's `btoa` and `atob` (the forgiving decoding of the web
-- platform). A string is the list of its UTF-16 code units.
pub mod RoundTrip
use y_ruby.Base.{
  ℕ, zero, suc, ◌+◌, ◌-◌, ◌*◌, ◌/◌, ◌%◌, Bool, true, false, not, ◌&&◌, ◌||◌, ltb, leb, ◌==◌,
  if◌then◌else◌, Option, none, some, List, [], ◌∷◌, ◌++◌, Bytes, length,
}

-- `=`
abbrev pub pad : ℕ
pad = 0x3d

-- The digit of a value below 64: A-Z, a-z, 0-9, +, /
unfoldable pub digit : ℕ → ℕ
digit v =
    if ltb v 26
    then v + 65
    else if ltb v 52
    then v + 71
    else if ltb v 62
    then v - 4
    else if v == 62
    then b'+'
    else b'/'

-- The value of a digit.
unfoldable pub digit_value : ℕ → Option ℕ
digit_value c =
    if leb b'A' c && leb c b'Z'
    then some (c - 65)
    else if leb b'a' c && leb c b'z'
    then some (c - 71)
    else if leb b'0' c && leb c b'9'
    then some (c + 4)
    else if c == b'+'
    then some 62
    else if c == b'/'
    then some 63
    else none

-- Three bytes as four digits.
unfoldable pub group : ℕ → ℕ → ℕ → List ℕ → List ℕ
unfolding digit
group a b c rest =
    digit (a / 4)
    ∷ digit (a % 4 * 16 + b / 16)
    ∷ digit (b % 16 * 4 + c / 64)
    ∷ digit (c % 64)
    ∷ rest

unfoldable pub btoa : Bytes → List ℕ
unfolding group digit
btoa [] = []
btoa (a ∷ []) = digit (a / 4) ∷ digit (a % 4 * 16) ∷ pad ∷ pad ∷ []
btoa (a ∷ b ∷ []) = digit (a / 4) ∷ digit (a % 4 * 16 + b / 16) ∷ digit (b % 16 * 4) ∷ pad ∷ []
btoa (a ∷ b ∷ c ∷ rest) = group a b c (btoa rest)

-- The ASCII whitespace that the decoder takes out.
abbrev is_space : ℕ → Bool
is_space c = c == 0x20 || c == 0x09 || c == 0x0a || c == 0x0c || c == 0x0d

unfoldable pub without_spaces : List ℕ → List ℕ
without_spaces [] = []
without_spaces (c ∷ cs) = if is_space c then without_spaces cs else c ∷ without_spaces cs

-- The values of the digits; `none` on any other unit.
unfoldable pub values : List ℕ → Option (List ℕ)
unfolding digit_value
values [] = some []
values (c ∷ cs) = elim (digit_value c) [
  | none ↦ none
  | some v ↦ elim (values cs) [ none ↦ none | some vs ↦ some (v ∷ vs) ]
]

-- A text of whole groups may end in one or two `=`, which are taken off.
unfoldable pub unpadded : List ℕ → List ℕ
unpadded [] = []
unpadded (a ∷ b ∷ c ∷ d ∷ []) =
    if d == pad then (if c == pad then a ∷ b ∷ [] else a ∷ b ∷ c ∷ []) else a ∷ b ∷ c ∷ d ∷ []
unpadded (a ∷ b ∷ c ∷ d ∷ rest) = a ∷ b ∷ c ∷ d ∷ unpadded rest
unpadded cs = cs

-- The bytes of a list of values, without the bits left over; a single value left is an error.
unfoldable pub bytes_of : List ℕ → Option Bytes
bytes_of [] = some []
bytes_of (a ∷ []) = none
bytes_of (a ∷ b ∷ []) = some ((a * 4 + b / 16) ∷ [])
bytes_of (a ∷ b ∷ c ∷ []) = some ((a * 4 + b / 16) ∷ (b % 16 * 16 + c / 4) ∷ [])
bytes_of (a ∷ b ∷ c ∷ d ∷ rest) = elim (bytes_of rest) [
  | none ↦ none
  | some bs ↦ some ((a * 4 + b / 16) ∷ (b % 16 * 16 + c / 4) ∷ (c % 4 * 64 + d) ∷ bs)
]

-- `none` where it throws.
unfoldable pub atob : List ℕ → Option Bytes
atob str = elim (values (unpadded (without_spaces str))) [ none ↦ none | some vs ↦ bytes_of vs ]

-- Each byte as a code unit of its own, then `btoa`; which throws only above 255.
unfoldable pub to_base64 : Bytes → List ℕ
to_base64 bytes = btoa bytes

-- The code units of what `atob` gives are the bytes.
unfoldable pub from_base64 : List ℕ → Option Bytes
from_base64 str = atob str
