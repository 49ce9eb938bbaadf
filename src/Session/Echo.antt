-- ===== src/Session/Echo.antt =====
-- What comes from the server (the origin tests of y_protocol_session.ts).
use y_ruby.Base.{false, [], ◌∷◌, refl, List, Bytes, ◌≡◌, arith, some, Option-cases, inl, inr}
use y_ruby.External.{Packages, Noted}
use y_ruby.Reliable
use y_ruby.Reliable.{ReliableSync}
use y_ruby.Session.{
  doc_events, receive_sync, note, Output, receive_awareness, receive, Session, sends, reports, this,
  apply_remote_update, on_disconnect,
}

-- No call of `send`.
abbrev pub Silent : List Output → Type 0
Silent [] = Unit {0}
Silent (reports ∷ out) = Silent out
Silent (sends frame id ∷ out) = ⊥

module _ (lib : Packages) where
  pub doc_events-this : (s : Session lib) (us : List Bytes) → doc_events lib s us this ≡ (s, [])
  unfolding doc_events
  doc_events-this s [] = refl
  doc_events-this s (u ∷ us) = ground (arith, doc_events-this s us)

  pub note-this :
      (s : Session lib) (n : Noted lib.Awareness)
      → note lib s n this ≡ (record s { awareness = some n.awareness }, [])
  unfolding note
  note-this s n = ground arith

  receive_sync-quiet :
      (s : Session lib) (rest : Bytes)
      → ((receive_sync lib s rest).0.delivery ≡ s.delivery)
        × Silent (receive_sync lib s rest).1
        × ((receive_sync lib s rest).0.doc_listening ≡ s.doc_listening)
  unfolding receive_sync
  receive_sync-quiet s rest =
      let r = lib.read_sync_message rest s.doc in
      ground (arith, doc_events-this (record s { doc = r.applied.doc }) r.applied.events)

  receive_awareness-quiet :
      (s : Session lib) (rest : Bytes)
      → ((receive_awareness lib s rest).0.delivery ≡ s.delivery)
        × Silent (receive_awareness lib s rest).1
        × ((receive_awareness lib s rest).0.doc_listening ≡ s.doc_listening)
  unfolding receive_awareness
  receive_awareness-quiet s rest = ground arith

  pub receive-quiet :
      (s : Session lib) (frame : Bytes)
      → ((receive lib s frame).0.delivery ≡ s.delivery)
        × Silent (receive lib s frame).1
        × ((receive lib s frame).0.doc_listening ≡ s.doc_listening)
  unfolding receive
  receive-quiet s frame = elim (Option-cases (lib.read_var_uint frame)) [
    | inl e ↦ ground arith
    | inr ((type, rest), e) ↦
        ground (arith, receive_sync-quiet s rest, receive_awareness-quiet s rest)
  ]

  pub apply_remote_update-quiet :
      (s : Session lib) (update : Bytes)
      → let r = apply_remote_update lib s update in (r.0.delivery ≡ s.delivery) × (r.1 ≡ [])
  unfolding apply_remote_update
  apply_remote_update-quiet s update =
      let r = lib.apply_update s.doc update in
      ground (arith, doc_events-this (record s { doc = r.doc }) r.events)

  pub on_disconnect-quiet :
      (s : Session lib)
      → ((on_disconnect lib s).0.delivery ≡ Reliable.on_disconnect s.delivery)
        × ((on_disconnect lib s).1 ≡ [])
  unfolding on_disconnect
  on_disconnect-quiet s = ground arith

  queue-on_disconnect :
      (d : ReliableSync)
      → let e = Reliable.on_disconnect d in
        (e.pending ≡ d.pending) × (e.next_seq ≡ d.next_seq) × (e.connected ≡ false)
  unfolding Reliable.on_disconnect
  queue-on_disconnect d = ground arith

  -- What arrives from the server is not sent back. A received frame, of whatever content, and a
  -- bootstrap update leave the queue of unacknowledged updates as it is and send nothing. When the
  -- transport drops, the clearing of remote presence sends nothing, and the queue goes through its own
  -- `onDisconnect` and nothing else, which keeps its updates and the next number.
  pub remote_never_echoes :
      (s : Session lib) (frame update : Bytes)
      → let r = receive lib s frame in
        let a = apply_remote_update lib s update in
        (r.0.delivery ≡ s.delivery)
        × Silent r.1
        × (a.0.delivery ≡ s.delivery)
        × (a.1 ≡ [])
        × ((on_disconnect lib s).1 ≡ [])
        × ((on_disconnect lib s).0.delivery ≡ Reliable.on_disconnect s.delivery)
        × ((on_disconnect lib s).0.delivery.pending ≡ s.delivery.pending)
        × ((on_disconnect lib s).0.delivery.next_seq ≡ s.delivery.next_seq)
  remote_never_echoes s frame update = ground (
    arith,
    receive-quiet s frame,
    apply_remote_update-quiet s update,
    on_disconnect-quiet s,
    queue-on_disconnect s.delivery,
  )
