-- ===== src/Json.antt =====
-- Whether JSON.parse accepts a text, given by its UTF-16 code units: an automaton with a stack,
-- which reads one unit at a time.
use y_ruby.Base.{
  ℕ, ◌-◌, Bool, true, false, not, ◌&&◌, ◌||◌, leb, ltb, ◌==◌, if◌then◌else◌, List, [], ◌∷◌,
}

-- What encloses the position.
pub data Frame : Type 0 where
  in_array in_object : Frame

-- What may come next. `key` marks the string of an object's key.
pub data Mode : Type 0 where
  value first_item first_key next_key colon done failed : Mode
  chars escape : Bool → Mode
  hex : Bool → ℕ → Mode
  literal : List ℕ → Mode
  minus zero_digit int_digits point frac_digits exponent exp_sign exp_digits : Mode

abbrev is_space : ℕ → Bool
is_space c = c == 0x20 || c == 0x09 || c == 0x0a || c == 0x0d

abbrev is_digit : ℕ → Bool
is_digit c = leb b'0' c && leb c b'9'

abbrev is_hex : ℕ → Bool
is_hex c = is_digit c || (leb b'a' c && leb c b'f') || (leb b'A' c && leb c b'F')

-- \" \\ \/ \b \f \n \r \t
abbrev is_escape : ℕ → Bool
is_escape c =
    c == 0x22
    || c == 0x5c
    || c == b'/'
    || c == b'b'
    || c == b'f'
    || c == b'n'
    || c == b'r'
    || c == b't'

abbrev State : Type 0
State = Mode × List Frame

abbrev true_rest : List ℕ
true_rest = b'r' ∷ b'u' ∷ b'e' ∷ []

abbrev false_rest : List ℕ
false_rest = b'a' ∷ b'l' ∷ b's' ∷ b'e' ∷ []

abbrev null_rest : List ℕ
null_rest = b'u' ∷ b'l' ∷ b'l' ∷ []

-- The first unit of a value.
start_value : List Frame → ℕ → State
start_value stack c =
    if c == b'{'
    then (first_key, in_object ∷ stack)
    else if c == b'['
    then (first_item, in_array ∷ stack)
    else if c == 0x22
    then (chars false, stack)
    else if c == b'-'
    then (minus, stack)
    else if c == b'0'
    then (zero_digit, stack)
    else if is_digit c
    then (int_digits, stack)
    else if c == b't'
    then (literal true_rest, stack)
    else if c == b'f'
    then (literal false_rest, stack)
    else if c == b'n'
    then (literal null_rest, stack)
    else (failed, stack)

-- A unit behind a complete value.
after_value : List Frame → ℕ → State
after_value [] c = if is_space c then (done, []) else (failed, [])
after_value (in_array ∷ stack) c =
    if is_space c
    then (done, in_array ∷ stack)
    else if c == b','
    then (value, in_array ∷ stack)
    else if c == b']'
    then (done, stack)
    else (failed, stack)
after_value (in_object ∷ stack) c =
    if is_space c
    then (done, in_object ∷ stack)
    else if c == b','
    then (next_key, in_object ∷ stack)
    else if c == b'}'
    then (done, stack)
    else (failed, stack)

string_end : Bool → Mode
string_end true = colon
string_end false = done

pop : List Frame → List Frame
pop [] = []
pop (f ∷ stack) = stack

open_string : Bool → List Frame → ℕ → State
open_string key stack c = if c == 0x22 then (chars key, stack) else (failed, stack)

in_chars : Bool → List Frame → ℕ → State
unfolding string_end
in_chars key stack c =
    if c == 0x22
    then (string_end key, stack)
    else if c == 0x5c
    then (escape key, stack)
    else if ltb c 0x20
    then (failed, stack)
    else (chars key, stack)

-- Digits, the point or the exponent of a number, or what stands behind it.
digits_or : Mode → (ℕ → State) → List Frame → ℕ → State
digits_or mode other stack c = if is_digit c then (mode, stack) else other c

exponent_or : (ℕ → State) → List Frame → ℕ → State
exponent_or other stack c = if c == b'e' || c == b'E' then (exponent, stack) else other c

point_or : (ℕ → State) → List Frame → ℕ → State
point_or other stack c = if c == b'.' then (point, stack) else other c

-- One unit of the text.
unfoldable pub step : Mode → List Frame → ℕ → State
unfolding start_value after_value pop open_string in_chars digits_or exponent_or point_or
step value stack c = if is_space c then (value, stack) else start_value stack c
step first_item stack c =
    if is_space c
    then (first_item, stack)
    else if c == b']'
    then (done, pop stack)
    else start_value stack c
step first_key stack c =
    if is_space c
    then (first_key, stack)
    else if c == b'}'
    then (done, pop stack)
    else open_string true stack c
step next_key stack c = if is_space c then (next_key, stack) else open_string true stack c
step colon stack c =
    if is_space c then (colon, stack) else if c == b':' then (value, stack) else (failed, stack)
step done stack c = after_value stack c
step failed stack c = (failed, stack)
step (chars key) stack c = in_chars key stack c
step (escape key) stack c =
    if c == b'u'
    then (hex key 4, stack)
    else if is_escape c
    then (chars key, stack)
    else (failed, stack)
step (hex key n) stack c =
    if not (is_hex c)
    then (failed, stack)
    else if leb n 1
    then (chars key, stack)
    else (hex key (n - 1), stack)
step (literal []) stack c = (failed, stack)
step (literal (x ∷ [])) stack c = if c == x then (done, stack) else (failed, stack)
step (literal (x ∷ y ∷ rest)) stack c =
    if c == x then (literal (y ∷ rest), stack) else (failed, stack)
step minus stack c =
    if c == b'0' then (zero_digit, stack) else digits_or int_digits (λ _. (failed, stack)) stack c
step zero_digit stack c = point_or (exponent_or (after_value stack) stack) stack c
step int_digits stack c =
    digits_or int_digits (point_or (exponent_or (after_value stack) stack) stack) stack c
step point stack c = digits_or frac_digits (λ _. (failed, stack)) stack c
step frac_digits stack c = digits_or frac_digits (exponent_or (after_value stack) stack) stack c
step exponent stack c =
    if c == b'+' || c == b'-'
    then (exp_sign, stack)
    else digits_or exp_digits (λ _. (failed, stack)) stack c
step exp_sign stack c = digits_or exp_digits (λ _. (failed, stack)) stack c
step exp_digits stack c = digits_or exp_digits (after_value stack) stack c

-- The text may end here: one value is complete and nothing is open.
unfoldable pub accepts : Mode → List Frame → Bool
accepts done [] = true
accepts zero_digit [] = true
accepts int_digits [] = true
accepts frac_digits [] = true
accepts exp_digits [] = true
accepts _ _ = false

unfoldable pub scan : Mode → List Frame → List ℕ → Bool
unfolding step accepts
scan mode stack [] = accepts mode stack
scan mode stack (c ∷ cs) = let (mode', stack') = step mode stack c in scan mode' stack' cs

-- JSON.parse returns, and does not throw.
unfoldable pub parses : List ℕ → Bool
unfolding scan
parses cs = scan value [] cs
