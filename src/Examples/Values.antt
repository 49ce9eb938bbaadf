-- ===== src/Examples/Values.antt =====
-- Examples of base64.ts and of the validation of frames in y_protocol_session.ts.
use y_ruby.Base.{ℕ, true, false, some, [], ◌∷◌, refl, ◌≡◌, is_empty, arith, ◌&&◌}
use y_ruby.Base64.{btoa, to_base64, from_base64}
use y_ruby.Base64.RoundTrip.{from_base64-to_base64}
use y_ruby.Framing.{valid_payload}
use y_ruby.Framing.Entries.{Entry, EntryLaws, write_entries, all_parse, valid_payload-write}
use y_ruby.Json.{parses}
use y_ruby.Examples.Toy.{toy, write_block, read-write_block}

-- "Man", "Ma" and "M"
man_encoded : to_base64 (77 ∷ 97 ∷ 110 ∷ []) ≡ 84 ∷ 87 ∷ 70 ∷ 117 ∷ []
unfolding to_base64 btoa
man_encoded = refl

from_base64-to_base64_example :
    from_base64 (to_base64 (255 ∷ 0 ∷ 16 ∷ 128 ∷ [])) ≡ some (255 ∷ 0 ∷ 16 ∷ 128 ∷ [])
from_base64-to_base64_example = from_base64-to_base64 (255 ∷ 0 ∷ 16 ∷ 128 ∷ []) (omega arith)

abbrev toy_laws : EntryLaws toy write_block
toy_laws = record { uint_back = λ n rest. refl; string_back = read-write_block }

-- The states `{}` and `{"a":1`: the second is no JSON text.
abbrev closed : Entry
closed = record { client = 7; clock = 1; state = 123 ∷ 125 ∷ [] }

abbrev unclosed : Entry
unclosed = record { client = 8; clock = 1; state = 123 ∷ 34 ∷ 97 ∷ 34 ∷ 58 ∷ 49 ∷ [] }

json_texts : (parses closed.state ≡ true) × (parses unclosed.state ≡ false)
unfolding parses
json_texts = (refl, refl)

valid_payload-write_example :
    valid_payload toy (2 ∷ write_entries toy write_block (closed ∷ unclosed ∷ []) [])
    ≡ (all_parse toy write_block (closed ∷ unclosed ∷ []) && is_empty {A = ℕ} [])
valid_payload-write_example =
    valid_payload-write toy write_block toy_laws (closed ∷ unclosed ∷ []) []
