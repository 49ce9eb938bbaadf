-- ===== src/Session/Frames.antt =====
-- Which frames a session takes (`#validateFrame` and `receive` of y_protocol_session.ts).
use y_ruby.Base.{
  ℕ, [], ◌∷◌, refl, Bytes, ◌≡◌, false, some, ◌≢◌, ◌⊎◌, none, arith, true, Option-cases, inl, inr,
  Bool-cases, ◌==◌, ◌||◌, not, ◌&&◌, Bool, ◌++◌, subst, sym, if◌then◌else◌,
}
use y_ruby.External.{Packages}
use y_ruby.Framing.{
  validate_frame, reply_of, sync_message, accepted, invalid, awareness_message, valid_payload,
  ignored, Validation, sync_step2,
}
use y_ruby.Session.{
  receive, Received, Session, reports, receive_sync, receive_awareness, on_disconnect,
}
use y_ruby.Session.Echo.{doc_events-this, note-this, Silent}

module _ (lib : Packages) where
  -- A frame that fails the dry run changes nothing: it is reported once, and not answered.
  pub receive-invalid :
      (s : Session lib) (frame : Bytes)
      → validate_frame lib frame ≡ invalid
      → receive lib s frame ≡ (s, reports ∷ [], none)
  unfolding receive
  receive-invalid s frame e = ground arith

  receive-ignored :
      (s : Session lib) (frame : Bytes)
      → validate_frame lib frame ≡ ignored
      → receive lib s frame ≡ (s, [], none)
  unfolding receive
  receive-ignored s frame e = ground arith

  -- An accepted frame reads whole: its type, and behind that one message with nothing left over.
  abbrev pub ReadsWhole : ℕ → Bytes → Type 0
  ReadsWhole type rest =
      ((type ≡ sync_message)
        × ((lib.read_sync_message rest lib.new_doc).applied.threw ≡ false)
        × ((lib.read_sync_message rest lib.new_doc).rest ≡ []))
      ⊎ ((type ≡ awareness_message)
          × ((payload : Bytes) × (lib.read_var_uint8_array rest ≡ some (payload, []))
              × (valid_payload lib payload ≡ true)))

  validate_frame-ReadsWhole :
      (frame : Bytes) (type : ℕ)
      → validate_frame lib frame ≡ accepted type
      → (rest : Bytes) × (lib.read_var_uint frame ≡ some (type, rest)) × ReadsWhole type rest
  unfolding validate_frame
  validate_frame-ReadsWhole frame type e = elim (Option-cases (lib.read_var_uint frame)) [
    | inl unread ↦ absurd (ground arith)
    | inr ((t, rest), read) ↦ elim (Option-cases (lib.read_var_uint8_array rest)) [
      | inl unread ↦ (rest, ground arith, ground arith)
      | inr ((payload, rest'), blob) ↦ elim (Bool-cases (type == sync_message)) [
        | inl sync ↦ (rest, ground arith, inl (ground arith, ground arith, ground arith))
        | inr not_sync ↦
            (rest, ground arith, inr (ground arith, (payload, ground arith, ground arith)))
      ]
    ]
  ]

  -- What readSyncMessage does with the message on the session's own document: the document is what the
  -- call leaves, an exception is reported once and answered with nothing, and otherwise a SyncStep2 marks
  -- the session as synced and the reply is the call's, if it wrote one.
  abbrev pub SyncEffect : Session lib → Bytes → Received lib → Type 0
  SyncEffect s rest (t, out, reply) =
      let r = lib.read_sync_message rest s.doc in
      (t ≡ record s {
        doc = r.applied.doc;
        synced = if r.applied.threw then s.synced else s.synced || r.sync_type == sync_step2;
      })
      × (out ≡ (if r.applied.threw then reports ∷ [] else []))
      × (reply ≡ (
          if r.applied.threw
          then none
          else reply_of lib (lib.write_var_uint sync_message ++ r.reply)))

  -- What applyAwarenessUpdate does with the payload; nothing without an awareness.
  abbrev pub AwarenessEffect : Session lib → Bytes → Received lib → Type 0
  AwarenessEffect s payload (t, out, reply) =
      ((s.awareness ≡ none) × (t ≡ s) × (out ≡ []) × (reply ≡ none))
      ⊎ ((a : lib.Awareness) × (s.awareness ≡ some a)
          × (t ≡ record s { awareness = some (lib.apply_awareness_update a payload).awareness })
          × (out ≡ (if (lib.apply_awareness_update a payload).threw then reports ∷ [] else []))
          × (reply ≡ none))

  -- One message, read whole, whose dry run on an empty document, or whose entries, passed, and which has
  -- its effect on the session.
  abbrev pub TakesEffect : Session lib → ℕ → Bytes → Received lib → Type 0
  TakesEffect s type rest received =
      ((type ≡ sync_message)
        × ((lib.read_sync_message rest lib.new_doc).applied.threw ≡ false)
        × ((lib.read_sync_message rest lib.new_doc).rest ≡ [])
        × SyncEffect s rest received)
      ⊎ ((type ≡ awareness_message)
          × ((payload : Bytes) × (lib.read_var_uint8_array rest ≡ some (payload, []))
              × (valid_payload lib payload ≡ true)
              × AwarenessEffect s payload received))

  receive_sync-SyncEffect :
      (s : Session lib) (rest : Bytes) → SyncEffect s rest (receive_sync lib s rest)
  unfolding receive_sync
  receive_sync-SyncEffect s rest =
      let r = lib.read_sync_message rest s.doc in
      let quiet = doc_events-this lib (record s { doc = r.applied.doc }) r.applied.events in
      ground (arith, quiet)

  receive_awareness-AwarenessEffect :
      (s : Session lib) (rest payload : Bytes)
      → lib.read_var_uint8_array rest ≡ some (payload, [])
      → AwarenessEffect s payload (receive_awareness lib s rest)
  unfolding receive_awareness
  receive_awareness-AwarenessEffect s rest payload e = elim (Option-cases s.awareness) [
    | inl n ↦ inl (n, ground arith, ground arith, ground arith)
    | inr (a, n) ↦
        let quiet = note-this lib s (lib.apply_awareness_update a payload) in
        inr (a, n, ground (arith, e, quiet), ground (arith, e, quiet), ground (arith, e, quiet))
  ]

  receive-sync :
      (s : Session lib) (frame : Bytes) (type : ℕ) (rest : Bytes)
      → validate_frame lib frame ≡ accepted type
      → lib.read_var_uint frame ≡ some (type, rest)
      → type ≡ sync_message
      → receive lib s frame ≡ receive_sync lib s rest
  unfolding receive
  receive-sync s frame type rest v e k = ground arith

  receive-awareness :
      (s : Session lib) (frame : Bytes) (type : ℕ) (rest : Bytes)
      → validate_frame lib frame ≡ accepted type
      → lib.read_var_uint frame ≡ some (type, rest)
      → type ≡ awareness_message
      → receive lib s frame ≡ receive_awareness lib s rest
  unfolding receive
  receive-awareness s frame type rest v e k = ground arith

  receive-accepted :
      (s : Session lib) (frame : Bytes) (type : ℕ) (rest : Bytes)
      → validate_frame lib frame ≡ accepted type
      → lib.read_var_uint frame ≡ some (type, rest)
      → ReadsWhole type rest
      → TakesEffect s type rest (receive lib s frame)
  receive-accepted s frame type rest v e (inl (sync, dry, whole)) =
      subst (TakesEffect s type rest) (sym (receive-sync s frame type rest v e sync))
        (inl (sync, dry, whole, receive_sync-SyncEffect s rest))
  receive-accepted s frame type rest v e (inr (aware, (payload, read, valid))) =
      subst (TakesEffect s type rest) (sym (receive-awareness s frame type rest v e aware))
        (inr (aware, (payload, read, valid, receive_awareness-AwarenessEffect s rest payload read)))

  -- The validation does not accept the frame; the session is as before, nothing is sent and nothing answered.
  abbrev pub Untouched : Session lib → Bytes → Received lib → Type 0
  Untouched s frame (t, out, reply) =
      ((type : ℕ) → validate_frame lib frame ≢ accepted type)
      × (t ≡ s)
      × Silent out
      × (reply ≡ none)

  -- The validation accepts it, and its message takes effect.
  abbrev pub Effective : Session lib → Bytes → Received lib → Type 0
  Effective s frame received =
      (type : ℕ) × (rest : Bytes) × (validate_frame lib frame ≡ accepted type)
      × (lib.read_var_uint frame ≡ some (type, rest))
      × TakesEffect s type rest received

  -- A frame takes effect exactly if it passes the dry run. Either the validation does not accept it, and
  -- the session is as before, with no reply and nothing sent; or it is one sync or awareness message, read
  -- whole with nothing behind it, whose dry run on an empty document, or whose entries, passed, and what
  -- happens is that message's one call on the session's own document or awareness, if it has one, of
  -- which an exception is reported once and not answered.
  pub receive-TakesEffect :
      (s : Session lib) (frame : Bytes)
      → Untouched s frame (receive lib s frame) ⊎ Effective s frame (receive lib s frame)
  receive-TakesEffect s frame = by_validation (validate_frame lib frame) refl
    where
      by_validation :
          (v : Validation)
          → validate_frame lib frame ≡ v
          → Untouched s frame (receive lib s frame) ⊎ Effective s frame (receive lib s frame)
      by_validation ignored e =
          inl (rw (receive-ignored s frame e) ((λ type a. cc (e, a)), refl, tt, refl))
      by_validation invalid e =
          inl (rw (receive-invalid s frame e) ((λ type a. cc (e, a)), refl, tt, refl))
      by_validation (accepted type) e =
          let (rest, read, reads) = validate_frame-ReadsWhole frame type e in
          inr (type, rest, e, read, receive-accepted s frame type rest e read reads)

  -- The frame passes the dry run, and the session's document reads it as a SyncStep2.
  abbrev pub is_step2 : Session lib → Bytes → Bool
  is_step2 s frame = elim (validate_frame lib frame) [
    | ignored ↦ false
    | invalid ↦ false
    | accepted _ ↦ elim (lib.read_var_uint frame) [
      | none ↦ false
      | some (type, rest) ↦
          let r = lib.read_sync_message rest s.doc in
          type == sync_message && (not r.applied.threw && r.sync_type == sync_step2)
    ]
  ]

  -- A session is synced after a frame exactly if it was before or the frame is a sync message that
  -- passes the dry run and that its document reads as a SyncStep2 with no exception. A dropped
  -- transport takes the mark away.
  pub receive-synced :
      (s : Session lib) (frame : Bytes)
      → ((receive lib s frame).0.synced ≡ (s.synced || is_step2 s frame))
        × ((on_disconnect lib s).0.synced ≡ false)
  unfolding receive receive_sync receive_awareness on_disconnect
  receive-synced s frame = elim (Option-cases (lib.read_var_uint frame)) [
    | inl e ↦ (ground arith, ground arith)
    | inr ((type, rest), e) ↦
        let r = lib.read_sync_message rest s.doc in
        let quiet = doc_events-this lib (record s { doc = r.applied.doc }) r.applied.events in
        (ground (arith, quiet), ground arith)
  ]
