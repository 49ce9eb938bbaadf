-- ===== src/Examples/Toy.antt =====
-- Small packages in the place of yjs, y-protocols and lib0, for the sessions of packages/client/src: a
-- document is the list of the updates applied to it, and every number takes one element.
use y_ruby.Base.{
  ℕ, zero, suc, true, false, Option, none, some, List, [], ◌∷◌, ◌++◌, Bytes, length, ◌≡◌, refl, ap,
}
use mathlib.Core.Path.{ap₂}
use y_ruby.External.{Packages, Applied, SyncRead}

abbrev pub joined : List Bytes → Bytes
joined [] = []
joined (u ∷ us) = u ++ joined us

abbrev pub front : ℕ → Bytes → Bytes
front zero bs = []
front (suc n) [] = []
front (suc n) (b ∷ bs) = b ∷ front n bs

abbrev pub behind : ℕ → Bytes → Bytes
behind zero bs = bs
behind (suc n) [] = []
behind (suc n) (b ∷ bs) = behind n bs

abbrev pub read_number : Bytes → Option (ℕ × Bytes)
read_number [] = none
read_number (n ∷ rest) = some (n, rest)

abbrev pub read_block : Bytes → Option (Bytes × Bytes)
read_block [] = none
read_block (n ∷ rest) = some (front n rest, behind n rest)

abbrev pub write_block : Bytes → Bytes
write_block bs = length bs ∷ bs

abbrev pub applied : List Bytes → Bytes → Applied (List Bytes)
applied d u = record { doc = d ++ u ∷ []; events = u ∷ []; threw = false }

abbrev pub read_message : Bytes → List Bytes → SyncRead (List Bytes)
read_message (zero ∷ rest) d = record {
  applied = record { doc = d; events = []; threw = false };
  sync_type = 0;
  reply = 1 ∷ joined d;
  rest = rest;
}
read_message (suc zero ∷ u) d = record {
  applied = applied d u;
  sync_type = 1;
  reply = [];
  rest = [];
}
read_message (suc (suc zero) ∷ u) d = record {
  applied = applied d u;
  sync_type = 2;
  reply = [];
  rest = [];
}
read_message _ d = record {
  applied = record { doc = d; events = []; threw = true };
  sync_type = 3;
  reply = [];
  rest = [];
}

-- The clients whose presence is known, and this client's own.
abbrev pub Shown : Type 0
Shown = List ℕ × Option ℕ

abbrev pub toy : Packages
toy = record {
  Doc = List Bytes;
  new_doc = [];
  client_id = λ d. 7;
  merge_updates = joined;
  apply_update = applied;
  read_sync_message = read_message;
  write_sync_step1 = λ d. 0 ∷ [];
  write_update = λ u. 2 ∷ u;
  Awareness = Shown;
  Presence = ℕ;
  new_awareness = λ d. ([], none);
  get_local_state = λ a. a.1;
  set_local_state = λ a o. record {
    awareness = (a.0, o);
    change = some (record { added = 7 ∷ []; updated = []; removed = [] });
    threw = false;
  };
  state_clients = λ a. a.0;
  remove_awareness_states = λ a cs. record {
    awareness = ([], a.1);
    change = some (record { added = []; updated = []; removed = cs });
    threw = false;
  };
  apply_awareness_update = λ a u. record { awareness = (u, a.1); change = none; threw = false };
  encode_awareness_update = λ a cs. cs;
  destroy_awareness = λ a. record { awareness = (a.0, none); change = none; threw = false };
  write_var_uint = λ n. n ∷ [];
  read_var_uint = read_number;
  write_var_uint8_array = write_block;
  read_var_uint8_array = read_block;
  read_var_string = read_block;
}

front-length : (t rest : Bytes) → front (length t) (t ++ rest) ≡ t
front-length [] rest = refl
front-length (b ∷ t) rest = ap (λ l. b ∷ l) (front-length t rest)

behind-length : (t rest : Bytes) → behind (length t) (t ++ rest) ≡ rest
behind-length [] rest = refl
behind-length (b ∷ t) rest = behind-length t rest

pub read-write_block : (t rest : Bytes) → read_block (write_block t ++ rest) ≡ some (t, rest)
read-write_block t rest = ap₂ (λ x y. some (x, y)) (front-length t rest) (behind-length t rest)
