-- ===== src/External.antt =====
-- The packages that packages/client/src calls: yjs, y-protocols and lib0. Their code is not in the
-- repository, so the client's definitions take it as an argument. A call that can fire an event, or
-- throw after it has changed something, returns what it fired and whether it threw.
use y_ruby.Base.{ℕ, Bool, Option, List, Bytes}

-- A document after a call, the updates of the "update" events that the call fired, in order, and
-- whether the call threw.
pub record Applied (Doc : Type 0) : Type 0 where
  pub doc : Doc
  pub events : List Bytes
  pub threw : Bool

-- The argument of an awareness "update" event.
pub record AwarenessChange : Type 0 where
  pub added : List ℕ
  pub updated : List ℕ
  pub removed : List ℕ

-- The same of a call on an awareness, which fires its "update" event once at most.
pub record Noted (Awareness : Type 0) : Type 0 where
  pub awareness : Awareness
  pub change : Option AwarenessChange
  pub threw : Bool

-- A sync message read and applied: its type, the bytes that answer it and the bytes after it, which
-- are looked at only if the call did not throw.
pub record SyncRead (Doc : Type 0) : Type 0 where
  pub applied : Applied Doc
  pub sync_type : ℕ
  pub reply : Bytes
  pub rest : Bytes

pub record Packages : Type 1 where
  -- yjs
  pub Doc : Type 0
  pub new_doc : Doc
  pub client_id : Doc → ℕ
  pub merge_updates : List Bytes → Bytes
  pub apply_update : Doc → Bytes → Applied Doc
  -- y-protocols/sync: the writers give the bytes that they append to an encoder
  pub read_sync_message : Bytes → Doc → SyncRead Doc
  pub write_sync_step1 : Doc → Bytes
  pub write_update : Bytes → Bytes
  -- y-protocols/awareness
  pub Awareness : Type 0
  pub Presence : Type 0
  pub new_awareness : Doc → Awareness
  pub get_local_state : Awareness → Option Presence
  pub set_local_state : Awareness → Option Presence → Noted Awareness
  pub state_clients : Awareness → List ℕ
  pub remove_awareness_states : Awareness → List ℕ → Noted Awareness
  pub apply_awareness_update : Awareness → Bytes → Noted Awareness
  pub encode_awareness_update : Awareness → List ℕ → Bytes
  pub destroy_awareness : Awareness → Noted Awareness
  -- lib0: a decoder is the bytes that it has left, and `none` is an exception; a string is its
  -- list of UTF-16 code units
  pub write_var_uint : ℕ → Bytes
  pub read_var_uint : Bytes → Option (ℕ × Bytes)
  pub write_var_uint8_array : Bytes → Bytes
  pub read_var_uint8_array : Bytes → Option (Bytes × Bytes)
  pub read_var_string : Bytes → Option (List ℕ × Bytes)
