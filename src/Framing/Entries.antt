-- ===== src/Framing/Entries.antt =====
-- The dry run of an awareness payload (`#validateFrame` of y_protocol_session.ts) against the format of
-- the payload that y-protocols writes: a count, then for each client its id, its clock and its state as
-- a JSON text.
use y_ruby.Base.{
  ℕ, [], ◌∷◌, refl, List, Bytes, Bool, ◌++◌, ◌≡◌, true, length, ◌&&◌, if◌then◌else◌, some, none,
  is_empty, arith,
}
use y_ruby.External.{Packages}
use y_ruby.Framing.{valid_payload, read_entries}
use y_ruby.Json.{parses}

pub record Entry : Type 0 where
  pub client : ℕ
  pub clock : ℕ
  pub state : List ℕ

-- What lib0 documents of the reading calls, for the writers that go with them.
pub record EntryLaws (lib : Packages) (write_var_string : List ℕ → Bytes) : Type 0 where
  pub uint_back :
      (n : ℕ) (rest : Bytes) → lib.read_var_uint (lib.write_var_uint n ++ rest) ≡ some (n, rest)
  pub string_back :
      (t : List ℕ) (rest : Bytes)
      → lib.read_var_string (write_var_string t ++ rest) ≡ some (t, rest)

module _ (lib : Packages) (write_var_string : List ℕ → Bytes) where
  abbrev pub write_entries : List Entry → Bytes → Bytes
  write_entries [] rest = rest
  write_entries (e ∷ es) rest =
      lib.write_var_uint e.client
      ++ (lib.write_var_uint e.clock ++ (write_var_string e.state ++ write_entries es rest))

  abbrev pub all_parse : List Entry → Bool
  all_parse [] = true
  all_parse (e ∷ es) = parses e.state && all_parse es

  read_entries-write :
      EntryLaws lib write_var_string
      → (es : List Entry) (rest : Bytes)
      → read_entries lib (length es) (write_entries es rest)
        ≡ (if all_parse es then some rest else none)
  unfolding read_entries
  read_entries-write laws [] rest = refl
  read_entries-write laws (e ∷ es) rest =
      rw
        (
          laws.uint_back e.client
              (lib.write_var_uint e.clock ++ (write_var_string e.state ++ write_entries es rest)),
          laws.uint_back e.clock (write_var_string e.state ++ write_entries es rest),
          laws.string_back e.state (write_entries es rest),
        )
        (ground (arith, read_entries-write laws es rest))

  -- The payload that holds these entries, then some more bytes, passes exactly if the state of every
  -- entry is a JSON text and there are no more bytes.
  pub valid_payload-write :
      EntryLaws lib write_var_string
      → (es : List Entry) (extra : Bytes)
      → valid_payload lib (lib.write_var_uint (length es) ++ write_entries es extra)
        ≡ (all_parse es && is_empty extra)
  unfolding valid_payload
  valid_payload-write laws es extra =
      rw (laws.uint_back (length es) (write_entries es extra), read_entries-write laws es extra)
        (ground arith)
