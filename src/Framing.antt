-- ===== src/Framing.antt =====
-- The frames of packages/client/src/y_protocol_session.ts: how they are written, and the dry run that an
-- incoming frame has to pass.
pub mod Entries
use y_ruby.Base.{
  ℕ, zero, suc, ◌+◌, Bool, true, false, not, ◌&&◌, ◌||◌, ltb, ◌==◌, if◌then◌else◌, Option, none,
  some, List, [], ◌∷◌, ◌++◌, map, is_empty, length, Bytes,
}
use y_ruby.Json.{parses}
use y_ruby.External.{Packages}

-- MessageType
abbrev pub sync_message : ℕ
sync_message = 0

abbrev pub awareness_message : ℕ
awareness_message = 1

-- `messageYjsSyncStep2` of y-protocols.
abbrev pub sync_step2 : ℕ
sync_step2 = 1

-- `#validateFrame`: it returns null, returns the message type, or throws.
pub data Validation : Type 0 where
  ignored : Validation
  accepted : ℕ → Validation
  invalid : Validation

infixl 5 ◌>>=◌
abbrev pub ◌>>=◌ : {A B : Type 0} → Option A → (A → Option B) → Option B
none >>= f = none
some a >>= f = f a

-- Something was read, and nothing is left.
abbrev pub is_complete : Option Bytes → Bool
is_complete none = false
is_complete (some []) = true
is_complete (some (b ∷ rest)) = false

module _ (lib : Packages) where
  open lib use {Doc, Awareness}

  unfoldable pub frame_sync_step1 : Doc → Bytes
  frame_sync_step1 doc = lib.write_var_uint sync_message ++ lib.write_sync_step1 doc

  unfoldable pub frame_update : Bytes → Bytes
  frame_update update = lib.write_var_uint sync_message ++ lib.write_update update

  unfoldable pub frame_awareness : Awareness → List ℕ → Bytes
  frame_awareness a clients =
      lib.write_var_uint awareness_message
      ++ lib.write_var_uint8_array (lib.encode_awareness_update a clients)

  -- `count` entries of client, clock and state.
  unfoldable pub read_entries : ℕ → Bytes → Option Bytes
  read_entries zero inner = some inner
  read_entries (suc n) inner = do
    (client, inner₁) ← lib.read_var_uint inner
    (clock, inner₂) ← lib.read_var_uint inner₁
    (state, inner₃) ← lib.read_var_string inner₂
    if parses state then read_entries n inner₃ else none

  -- The blob of an awareness frame: `true` if every entry reads and nothing is left over.
  unfoldable pub valid_payload : Bytes → Bool
  unfolding read_entries
  valid_payload payload =
      is_complete do (count, inner) ← lib.read_var_uint payload; read_entries count inner

  -- What is left of the frame behind its one message.
  unfoldable pub whole : ℕ → Bytes → Validation
  whole type [] = accepted type
  whole type (b ∷ rest) = invalid

  unfoldable pub validate_frame : Bytes → Validation
  unfolding valid_payload whole
  validate_frame frame = elim (lib.read_var_uint frame) [
    | none ↦ invalid
    | some (type, rest) ↦
        if type == sync_message
        then (let r = lib.read_sync_message rest lib.new_doc in
            if r.applied.threw then invalid else whole type r.rest)
        else if type == awareness_message
        then elim (lib.read_var_uint8_array rest) [
          | none ↦ invalid
          | some (payload, rest') ↦ if valid_payload payload then whole type rest' else invalid
        ]
        else ignored
  ]

  -- `encoding.length(encoder) > 1 ? toUint8Array(encoder) : null`
  unfoldable pub reply_of : Bytes → Option Bytes
  reply_of encoder = if ltb 1 (length encoder) then some encoder else none
