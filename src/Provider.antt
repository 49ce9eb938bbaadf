-- ===== src/Provider.antt =====
-- packages/client/src/actioncable_provider.ts: a session bound to a cable. A method returns the new
-- provider and its calls to the outside, in order; microtasks wait in `tasks` until `run_tasks`.
pub mod Calls
pub mod Status
pub mod Announced
pub mod Driven
pub mod Delivery
pub mod Quiet
pub mod Carried
pub mod Sends
pub mod Recorded
pub mod Effects
pub mod Silence
pub mod Teardown
pub mod Presence
use y_ruby.Base.{
  ℕ, Bool, true, false, not, ◌&&◌, ◌||◌, if◌then◌else◌, Option, none, some, List, [], ◌∷◌, ◌++◌,
  Bytes,
}
use y_ruby.Number.{Number, text, Value}
use y_ruby.Base64.{from_base64}
use y_ruby.External.{Packages, Applied}
use y_ruby.Cable.{
  ProviderStatus, CableMessage, CableSubscription, in_received, in_rejected, Effect, failed,
  unsubscribe, is_awareness_frame, is_undefined, awareness_payload, payload, ack_field,
  add_listener, run_all, drop_listener,
}
use y_ruby.Session
use y_ruby.Session.{
  Session, Output, sends, reports, SessionConstructed, opened, refused, has_local_state,
}
use y_ruby.Transport.{Provider, send_frame, apply, refresh_status, ◌then◌}

module _ (lib : Packages) where
  open lib use {Doc, Presence}

  abbrev pub Done : Type 0
  Done = Provider lib × List Effect

  wrapped : Bool → SessionConstructed lib → Option (Provider lib)
  wrapped window (refused e) = none
  wrapped window (opened s) = some (record {
    session = s;
    subscription = none;
    connected = false;
    status = ProviderStatus.disconnected;
    listeners = [];
    window_here = window;
    on_unload = false;
    on_restore = false;
    stashed_presence = none;
    tasks = [];
  })

  -- The constructor; `none` where it throws.
  unfoldable pub new : Option Doc → Option Number → Bool → Option (Provider lib)
  unfolding wrapped
  new none interval window = none
  new (some doc) interval window =
      wrapped window (Session.new lib (some doc) true (some (lib.new_awareness doc)) interval)

module _ {lib : Packages} where
  -- A reply of the session goes out without an id.
  answer : Option Bytes → Provider lib → Provider lib × List Effect
  answer none p = (p, [])
  answer (some reply) p = send_frame p reply none

  -- A message of the cable.
  received_frame : Provider lib → Bytes → Provider lib × List Effect
  unfolding answer
  received_frame p frame =
      let (s, outs, reply) = Session.receive lib p.session frame in
      apply p (s, outs) then answer reply then refresh_status

  received_text : Provider lib → Bool → List ℕ → Provider lib × List Effect
  unfolding received_frame
  received_text p awareness_only t = elim (from_base64 t) [
    | none ↦ (p, failed in_received ∷ [])
    | some frame ↦
        if awareness_only && not (is_awareness_frame frame)
        then (p, failed in_received ∷ [])
        else received_frame p frame
  ]

  received_payload : Provider lib → Bool → Value → Provider lib × List Effect
  unfolding received_text
  received_payload p awareness_only (text t) = received_text p awareness_only t
  received_payload p awareness_only _ = (p, [])

  unfoldable pub received : Provider lib → CableMessage → Provider lib × List Effect
  unfolding received_payload
  received p message =
      if not (is_undefined (ack_field message))
      then (record p { session = Session.ack lib p.session (ack_field message) }, [])
      else received_payload p (not (is_undefined (awareness_payload message))) (payload message)

  unfoldable pub on_connected : Provider lib → Provider lib × List Effect
  on_connected p =
      let q = record p { connected = true } in
      apply q (Session.on_connect lib q.session) then refresh_status

  unfoldable pub on_disconnected : Provider lib → Provider lib × List Effect
  on_disconnected p =
      let q = record p { connected = false } in
      apply q (Session.on_disconnect lib q.session) then refresh_status

  unfoldable pub install_unload_handler : Provider lib → Provider lib
  install_unload_handler p =
      if not p.window_here || p.on_unload
      then p
      else record p { on_unload = true; on_restore = true }

  unfoldable pub remove_unload_handler : Provider lib → Provider lib
  remove_unload_handler p =
      if not p.window_here then p else record p { on_unload = false; on_restore = false }

  -- `sub` is the subscription that the consumer creates.
  unfoldable pub connect : Provider lib → CableSubscription → Provider lib × List Effect
  unfolding install_unload_handler
  connect p sub = elim p.subscription [
    | some old ↦ (p, [])
    | none ↦ refresh_status (install_unload_handler (record p { subscription = some sub }))
  ]

  -- The session's part of a teardown, and the cable's.
  leave : Provider lib → Provider lib × List Effect
  leave p =
      apply p (Session.remove_local_awareness lib p.session)
      then (λ q. apply q (Session.on_disconnect lib q.session))

  detach : CableSubscription → Provider lib → Provider lib × List Effect
  unfolding remove_unload_handler
  detach sub p =
      let q = remove_unload_handler (record p { connected = false; subscription = none }) in
      refresh_status (record q { tasks = q.tasks ++ unsubscribe sub ∷ [] })

  unfoldable pub disconnect : Provider lib → Provider lib × List Effect
  unfolding leave detach
  disconnect p = elim p.subscription [ none ↦ (p, []) | some sub ↦ leave p then detach sub ]

  unfoldable pub on_rejected : Provider lib → Provider lib × List Effect
  unfolding disconnect
  on_rejected p = let (q, out) = disconnect p in (q, failed in_rejected ∷ out)

  unfoldable pub release_awareness : Provider lib → Provider lib × List Effect
  release_awareness p = elim p.session.awareness [
    | none ↦ (p, [])
    | some a ↦ apply p (Session.note lib p.session (lib.destroy_awareness a) Session.other)
  ]

  unfoldable pub destroy : Provider lib → Provider lib × List Effect
  unfolding disconnect release_awareness
  destroy p =
      disconnect p
      then (λ q. (record q { session = Session.destroy lib q.session }, []))
      then release_awareness
      then (λ q. (record q { listeners = [] }, []))

  -- The body of the `pagehide` handler.
  hide : Provider lib → Provider lib × List Effect
  hide p =
      let stashed : Option lib.Presence = elim p.session.awareness [
        | none ↦ none
        | some a ↦ lib.get_local_state a
      ] in
      apply (record p { stashed_presence = stashed }) (Session.remove_local_awareness lib p.session)

  -- The handlers on the window run while they are attached.
  unfoldable pub page_hidden : Provider lib → Provider lib × List Effect
  unfolding hide
  page_hidden p = if p.on_unload then hide p else (p, [])

  restore_presence : Provider lib → lib.Presence → Provider lib × List Effect
  restore_presence p state = elim p.session.awareness [
    | none ↦ (p, [])
    | some a ↦
        if has_local_state lib a
        then (p, [])
        else apply p (Session.set_presence lib p.session (some state))
  ]

  -- The rest of the `pageshow` handler, for a presence that was stashed.
  restore : Provider lib → lib.Presence → Provider lib × List Effect
  unfolding restore_presence
  restore p state = restore_presence p state then (λ q. (record q { stashed_presence = none }, []))

  unfoldable pub page_shown : Provider lib → Bool → Provider lib × List Effect
  unfolding restore
  page_shown p persisted =
      if not p.on_restore || not persisted
      then (p, [])
      else elim p.stashed_presence [ none ↦ (p, []) | some state ↦ restore p state ]

  -- `onStatusChange`, and the function that it returns.
  unfoldable pub on_status_change : Provider lib → ℕ → Provider lib
  unfolding add_listener
  on_status_change p l = record p { listeners = add_listener l p.listeners }

  unfoldable pub off_status_change : Provider lib → ℕ → Provider lib
  unfolding drop_listener
  off_status_change p l = record p { listeners = drop_listener l p.listeners }

  -- The end of a turn: the microtasks run in the order in which they were queued.
  unfoldable pub run_tasks : Provider lib → Provider lib × List Effect
  unfolding run_all
  run_tasks p = (record p { tasks = [] }, run_all p.tasks)

  -- What comes from elsewhere: an edit of the document or a change of presence by the application, a
  -- bootstrap update, and the retransmit timer.
  unfoldable pub edit : Provider lib → Applied lib.Doc → Provider lib × List Effect
  edit p r = apply p (Session.edit lib p.session r)

  unfoldable pub set_presence : Provider lib → Option lib.Presence → Provider lib × List Effect
  set_presence p state = apply p (Session.set_presence lib p.session state)

  unfoldable pub apply_remote_update : Provider lib → Bytes → Provider lib × List Effect
  apply_remote_update p update =
      let (s, outs, threw) = Session.apply_remote_update lib p.session update in apply p (s, outs)

  unfoldable pub tick : Provider lib → Provider lib × List Effect
  tick p = apply p (Session.tick lib p.session)
