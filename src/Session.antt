-- ===== src/Session.antt =====
-- packages/client/src/y_protocol_session.ts: the protocol session over the reliable queue. A method
-- returns the new session and what it hands to the injected callbacks, in order.
pub mod Echo
pub mod Synced
pub mod Frames
pub mod Queue
pub mod Runs
pub mod Exchange
use y_ruby.Base.{
  ℕ, zero, suc, ◌+◌, Bool, true, false, not, ◌&&◌, ◌||◌, ltb, ◌==◌, if◌then◌else◌, Option, none,
  some, List, [], ◌∷◌, ◌++◌, map, is_empty, length, Bytes,
}
use y_ruby.Number.{Number, Value}
use y_ruby.Framing.{
  sync_message, awareness_message, sync_step2, Validation, ignored, accepted, invalid,
  frame_sync_step1, frame_update, frame_awareness, validate_frame, reply_of,
}
use y_ruby.External.{Packages, Applied, AwarenessChange, Noted, SyncRead}
use y_ruby.Reliable
use y_ruby.Reliable.{
  ReliableSync, ReliableSyncOptions, Sent, Constructed, ConstructError, built, thrown, construct,
  has_pending,
}

-- The origin of a change: the session itself, or anything else.
pub data Origin : Type 0 where
  this other : Origin

-- A call of `send(frame, id)`, or of `onError(error, "receive")`.
pub data Output : Type 0 where
  sends : Bytes → Option ℕ → Output
  reports : Output

-- The queue is followed by whether the "update" listeners are attached to document and awareness.
pub record Session (lib : Packages) : Type 0 where
  pub doc : lib.Doc
  pub awareness : Option lib.Awareness
  pub synced : Bool
  pub delivery : ReliableSync
  pub doc_listening : Bool
  pub awareness_listening : Bool

pub data SessionError : Type 0 where
  doc_missing send_missing : SessionError
  delivery_refused : ConstructError → SessionError

pub data SessionConstructed (lib : Packages) : Type 0 where
  opened : Session lib → SessionConstructed lib
  refused : SessionError → SessionConstructed lib

module _ (lib : Packages) where
  open lib use {Doc, Awareness}

  opened_with : Doc → Option Awareness → Constructed → SessionConstructed lib
  opened_with doc awareness (thrown e) = refused (delivery_refused e)
  opened_with doc awareness (built d) = opened (record {
    doc = doc;
    awareness = awareness;
    synced = false;
    delivery = d;
    doc_listening = true;
    awareness_listening = elim awareness [ none ↦ false | some a ↦ true ];
  })

  -- The constructor; `none` for a document that is missing. It hands the queue a `send` and a `merge`
  -- of its own.
  unfoldable pub new : Option Doc → Bool → Option Awareness → Option Number → SessionConstructed lib
  unfolding opened_with
  new none send_is_function awareness interval = refused doc_missing
  new (some doc) send_is_function awareness interval =
      if not send_is_function
      then refused send_missing
      else opened_with doc awareness (
          construct (record {
            send_is_function = true;
            merge_is_function = true;
            resend_interval = interval;
          }))

module _ {lib : Packages} where
  unfoldable pub has_pending_updates : Session lib → Bool
  has_pending_updates s = has_pending s.delivery

module _ (lib : Packages) where
  open lib use {Doc, Awareness}

  -- The `send` that the session gives to its queue.
  unfoldable pub framed : List Sent → List Output
  unfolding frame_update
  framed [] = []
  framed (m ∷ ms) = sends (frame_update lib m.update) (some m.id) ∷ framed ms

  -- A call on the queue, its sends framed.
  unfoldable pub deliver : Session lib → ReliableSync × List Sent → Session lib × List Output
  unfolding framed
  deliver s (d, sent) = (record s { delivery = d }, framed sent)

  -- `#onDocUpdate`
  unfoldable pub on_doc_update : Session lib → Bytes → Origin → Session lib × List Output
  unfolding deliver
  on_doc_update s update this = (s, [])
  on_doc_update s update other = deliver s (Reliable.enqueue lib.merge_updates s.delivery update)

  -- The "update" events of the document, while the listener is attached.
  unfoldable pub doc_events : Session lib → List Bytes → Origin → Session lib × List Output
  unfolding on_doc_update
  doc_events s [] origin = (s, [])
  doc_events s (u ∷ us) origin =
      let (t, out) = if s.doc_listening then on_doc_update s u origin else (s, []) in
      let (end, later) = doc_events t us origin in (end, out ++ later)

  -- `#onAwarenessUpdate`, with the awareness as it is after the change.
  unfoldable pub on_awareness_update : Awareness → AwarenessChange → Origin → List Output
  unfolding frame_awareness
  on_awareness_update a change this = []
  on_awareness_update a change other =
      sends (frame_awareness lib a (change.added ++ change.updated ++ change.removed)) none ∷ []

  -- What a call on the awareness does to the session.
  unfoldable pub note : Session lib → Noted Awareness → Origin → Session lib × List Output
  unfolding on_awareness_update
  note s n origin = (
    record s { awareness = some n.awareness },
    elim n.change [
      | none ↦ []
      | some c ↦ if s.awareness_listening then on_awareness_update n.awareness c origin else []
    ],
  )

  -- `getLocalState() !== null`
  abbrev pub has_local_state : Awareness → Bool
  has_local_state a = elim (lib.get_local_state a) [ none ↦ false | some p ↦ true ]

  -- The presence frame of the handshake.
  unfoldable pub greeting : Session lib → List Output
  unfolding frame_awareness
  greeting s = elim s.awareness [
    | none ↦ []
    | some a ↦
        if has_local_state a
        then sends (frame_awareness lib a (lib.client_id s.doc ∷ [])) none ∷ []
        else []
  ]

  unfoldable pub on_connect : Session lib → Session lib × List Output
  unfolding frame_sync_step1 greeting deliver
  on_connect s =
      let (t, tail) = deliver s (Reliable.on_connect lib.merge_updates s.delivery) in
      (t, sends (frame_sync_step1 lib s.doc) none ∷ greeting s ++ tail)

  -- The keys of the awareness' states but for our own.
  unfoldable pub others : ℕ → List ℕ → List ℕ
  others me [] = []
  others me (c ∷ cs) = if c == me then others me cs else c ∷ others me cs

  unfoldable pub on_disconnect : Session lib → Session lib × List Output
  unfolding others note
  on_disconnect s =
      let t = record s { synced = false; delivery = Reliable.on_disconnect s.delivery } in
      elim t.awareness [
        | none ↦ (t, [])
        | some a ↦
            let remote = others (lib.client_id t.doc) (lib.state_clients a) in
            if is_empty remote then (t, []) else note t (lib.remove_awareness_states a remote) this
      ]

  unfoldable pub remove_local_awareness : Session lib → Session lib × List Output
  unfolding note
  remove_local_awareness s = elim s.awareness [
    | none ↦ (s, [])
    | some a ↦ if has_local_state a then note s (lib.set_local_state a none) other else (s, [])
  ]

  unfoldable pub ack : Session lib → Value → Session lib
  ack s v = record s { delivery = Reliable.on_ack s.delivery v }

  -- The caller sees the exception, if `applyUpdate` throws one.
  unfoldable pub apply_remote_update : Session lib → Bytes → Session lib × List Output × Bool
  unfolding doc_events
  apply_remote_update s update =
      let r = lib.apply_update s.doc update in
      let (t, out) = doc_events (record s { doc = r.doc }) r.events this in (t, out, r.threw)

  -- A session, what it handed to its callbacks, and the reply to a frame.
  abbrev pub Received : Type 0
  Received = Session lib × List Output × Option Bytes

  -- The `catch` of `receive`.
  abbrev drop_frame : Session lib × List Output → Received
  drop_frame (s, out) = (s, out ++ reports ∷ [], none)

  unfoldable pub receive_sync : Session lib → Bytes → Received
  unfolding doc_events reply_of
  receive_sync s rest =
      let r = lib.read_sync_message rest s.doc in
      let (t, out) = doc_events (record s { doc = r.applied.doc }) r.applied.events this in
      if r.applied.threw then drop_frame (t, out) else (
        record t { synced = t.synced || r.sync_type == sync_step2 },
        out,
        reply_of lib (lib.write_var_uint sync_message ++ r.reply),
      )

  unfoldable pub receive_awareness : Session lib → Bytes → Received
  unfolding note
  receive_awareness s rest = elim s.awareness [
    | none ↦ (s, [], none)
    | some a ↦ elim (lib.read_var_uint8_array rest) [
      | none ↦ drop_frame (s, [])
      | some (payload, _) ↦
          let n = lib.apply_awareness_update a payload in
          let (t, out) = note s n this in if n.threw then drop_frame (t, out) else (t, out, none)
    ]
  ]

  unfoldable pub receive : Session lib → Bytes → Received
  receive s frame = elim (validate_frame lib frame) [
    | ignored ↦ (s, [], none)
    | invalid ↦ drop_frame (s, [])
    | accepted _ ↦ elim (lib.read_var_uint frame) [
      | none ↦ drop_frame (s, [])
      | some (type, rest) ↦
          if type == sync_message
          then receive_sync s rest
          else if type == awareness_message
          then receive_awareness s rest
          else (s, [], none)
    ]
  ]

  -- The awareness is left as it is.
  unfoldable pub destroy : Session lib → Session lib
  destroy s = record s {
    doc_listening = false;
    awareness_listening = false;
    delivery = Reliable.destroy s.delivery;
  }

  -- What comes from elsewhere: an edit of the document by the application, a change of its presence,
  -- and the queue's timer.
  unfoldable pub edit : Session lib → Applied Doc → Session lib × List Output
  unfolding doc_events
  edit s r = doc_events (record s { doc = r.doc }) r.events other

  unfoldable pub set_presence : Session lib → Option lib.Presence → Session lib × List Output
  unfolding note
  set_presence s p = elim s.awareness [
    | none ↦ (s, [])
    | some a ↦ note s (lib.set_local_state a p) other
  ]

  unfoldable pub tick : Session lib → Session lib × List Output
  unfolding deliver
  tick s = deliver s (Reliable.on_tick lib.merge_updates s.delivery)
