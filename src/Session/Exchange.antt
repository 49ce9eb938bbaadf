-- ===== src/Session/Exchange.antt =====
-- Two sessions of y_protocol_session.ts that take each other's frames.
use y_ruby.Base.{[], ◌∷◌, ◌≡◌, Bytes, false, some, none, true, ◌++◌, ◌≢◌, arith, ap, ◌∙◌}
use y_ruby.External.{Packages}
use y_ruby.Framing.{
  sync_message, frame_update, validate_frame, frame_sync_step1, sync_step2, accepted,
}
use y_ruby.Session.{receive, receive_sync, Session}
use y_ruby.Session.Echo.{doc_events-this}

-- What lib0 and y-protocols document of the calls that write and read a sync message.
pub record SyncLaws (lib : Packages) : Type 0 where
  -- a number below 128 is one byte
  pub sync_byte : lib.write_var_uint sync_message ≡ sync_message ∷ []
  pub sync_byte_back :
      (rest : Bytes) → lib.read_var_uint (sync_message ∷ rest) ≡ some (sync_message, rest)
  -- an update is applied, and an exception of its application is caught
  pub update_read :
      (u : Bytes) (d : lib.Doc)
      → lib.read_sync_message (lib.write_update u) d ≡ record {
        applied = record (lib.apply_update d u) { threw = false };
        sync_type = 2;
        reply = [];
        rest = [];
      }
  -- a SyncStep1 leaves the document alone and is answered
  pub step1_read :
      (d d' : lib.Doc)
      → let r = lib.read_sync_message (lib.write_sync_step1 d') d in
        (r.applied ≡ record { doc = d; events = []; threw = false })
        × (r.sync_type ≡ 0)
        × (r.reply ≢ [])
        × (r.rest ≡ [])
  -- by a SyncStep2, which any document reads whole
  pub step2_read :
      (d d' e : lib.Doc)
      → let r = lib.read_sync_message (lib.read_sync_message (lib.write_sync_step1 d') d).reply e in
        (r.applied.threw ≡ false) × (r.sync_type ≡ sync_step2) × (r.reply ≡ []) × (r.rest ≡ [])

module _ {lib : Packages} (laws : SyncLaws lib) where
  -- A message behind the sync byte that reads whole passes the dry run.
  validate_sync :
      (message : Bytes)
      → let r = lib.read_sync_message message lib.new_doc in
        r.applied.threw ≡ false
        → r.rest ≡ []
        → validate_frame lib (lib.write_var_uint sync_message ++ message) ≡ accepted sync_message
  unfolding validate_frame
  validate_sync message t e = ground (arith, laws.sync_byte, laws.sync_byte_back message)

  receive-message :
      (s : Session lib) (message : Bytes)
      → let r = lib.read_sync_message message lib.new_doc in
        r.applied.threw ≡ false
        → r.rest ≡ []
        → receive lib s (lib.write_var_uint sync_message ++ message) ≡ receive_sync lib s message
  unfolding receive
  receive-message s message t e =
      ground (arith, validate_sync message t e, laws.sync_byte, laws.sync_byte_back message)

  receive_sync-update :
      (s : Session lib) (u : Bytes)
      → receive_sync lib s (lib.write_update u)
        ≡ (record s { doc = (lib.apply_update s.doc u).doc }, [], none)
  unfolding receive_sync
  receive_sync-update s u =
      let r = lib.apply_update s.doc u in
      ground (
        arith,
        laws.update_read u s.doc,
        laws.sync_byte,
        doc_events-this lib (record s { doc = r.doc }) r.events,
      )

  -- An update that one session frames is applied by any other to its document, and to nothing else:
  -- no reply, no report, nothing queued and nothing sent.
  pub receive-frame_update :
      (s : Session lib) (u : Bytes)
      → receive lib s (frame_update lib u)
        ≡ (record s { doc = (lib.apply_update s.doc u).doc }, [], none)
  unfolding frame_update
  receive-frame_update s u =
      let dry = laws.update_read u lib.new_doc in
      receive-message s (lib.write_update u) (ap (λ r. r.applied.threw) dry) (ap (λ r. r.rest) dry)
      ∙ receive_sync-update s u

  -- The answer to a SyncStep1.
  answer_of : lib.Doc → lib.Doc → Bytes
  answer_of d d' = (lib.read_sync_message (lib.write_sync_step1 d') d).reply

  receive_sync-step1 :
      (b : Session lib) (d : lib.Doc)
      → receive_sync lib b (lib.write_sync_step1 d)
        ≡ (b, [], some (lib.write_var_uint sync_message ++ answer_of b.doc d))
  unfolding receive_sync answer_of
  receive_sync-step1 b d =
      ground (arith, laws.step1_read b.doc d, laws.sync_byte, doc_events-this lib b [])

  receive_sync-step2 :
      (a : Session lib) (d d' : lib.Doc)
      → ((receive_sync lib a (answer_of d d')).0.synced ≡ true)
        × ((receive_sync lib a (answer_of d d')).2 ≡ none)
  unfolding receive_sync answer_of
  receive_sync-step2 a d d' = ground (arith, laws.step2_read d d' a.doc, laws.sync_byte)

  -- The handshake. A session answers the SyncStep1 of another and is as it was; the other takes the
  -- answer, counts as synced, and has nothing to answer.
  pub handshake :
      (a b : Session lib)
      → let r = receive lib b (frame_sync_step1 lib a.doc) in
        (r.0 ≡ b)
        × (r.1 ≡ [])
        × ((answer : Bytes) × (r.2 ≡ some answer)
            × ((receive lib a answer).0.synced ≡ true)
            × ((receive lib a answer).2 ≡ none))
  unfolding frame_sync_step1 answer_of
  handshake a b =
      let asks = laws.step1_read lib.new_doc a.doc in
      let replies = laws.step2_read b.doc a.doc lib.new_doc in
      let answer = answer_of b.doc a.doc in
      let asked =
        receive-message b (lib.write_sync_step1 a.doc) (ap (λ r. r.threw) asks.0) asks.3
        ∙ receive_sync-step1 b a.doc in
      let answered = receive-message a answer replies.0 replies.3 in
      let end = receive_sync-step2 a b.doc a.doc in
      (
        ap (λ r. r.0) asked,
        ap (λ r. r.1) asked,
        (
          lib.write_var_uint sync_message ++ answer,
          ap (λ r. r.2) asked,
          ap (λ r. r.0.synced) answered ∙ end.0,
          ap (λ r. r.2) answered ∙ end.1,
        ),
      )
