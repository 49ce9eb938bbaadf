-- ===== src/Provider/Quiet.antt =====
-- The calls of a provider of actioncable_provider.ts that send no update of the queue.
use y_ruby.Base.{
  Bool, not, Bytes, Option, none, some, List, refl, ◌∙◌, ap, arith, Bool-cases, Option-cases, inl,
  inr, ℕ, false,
}
use y_ruby.Base64.{from_base64}
use y_ruby.Cable.{
  CableMessage, CableSubscription, is_undefined, ack_field, awareness_payload, payload,
}
use y_ruby.External.{Packages}
use y_ruby.Number.{Value}
use y_ruby.Provider
use y_ruby.Session
use y_ruby.Session.{Session, other}
use y_ruby.Session.Echo.{receive-quiet, on_disconnect-quiet, apply_remote_update-quiet}
use y_ruby.Session.Queue.{
  tagged, tagged-Silent, set_presence-Unnoticed, remove_local_awareness-Unnoticed,
}
use y_ruby.Transport.{Provider, apply, refresh_status, ◌then◌}
use y_ruby.Transport.Frames.{send_frame-unnumbered}
use y_ruby.Transport.Wire.{
  Unnumbered, apply-Unnumbered, refresh_status-Unnumbered, then-Unnumbered, numbered_sends-run_all,
}

module _ {lib : Packages} where
  answer-Unnumbered :
      (reply : Option Bytes) (p : Provider lib) → Unnumbered (Provider.answer reply p)
  unfolding Provider.answer
  answer-Unnumbered none p = refl
  answer-Unnumbered (some r) p = send_frame-unnumbered p r

  received_frame-Unnumbered :
      (p : Provider lib) (frame : Bytes) → Unnumbered (Provider.received_frame p frame)
  unfolding Provider.received_frame
  received_frame-Unnumbered p frame =
      let (s, outs, reply) = Session.receive lib p.session frame in
      let silent = tagged-Silent lib outs (receive-quiet lib p.session frame).1 in
      then-Unnumbered (apply p (s, outs) then Provider.answer reply) refresh_status
        refresh_status-Unnumbered
      ∙ then-Unnumbered (apply p (s, outs)) (Provider.answer reply) (answer-Unnumbered reply)
      ∙ apply-Unnumbered p (s, outs) silent

  received_text-Unnumbered :
      (p : Provider lib) (only : Bool) (t : List ℕ) → Unnumbered (Provider.received_text p only t)
  unfolding Provider.received_text
  received_text-Unnumbered p only t = elim (Option-cases (from_base64 t)) [
    | inl h ↦ ground arith
    | inr (frame, h) ↦ ground (arith, received_frame-Unnumbered p frame)
  ]

  received_payload-Unnumbered :
      (p : Provider lib) (only : Bool) (v : Value) → Unnumbered (Provider.received_payload p only v)
  unfolding Provider.received_payload
  received_payload-Unnumbered p only (Value.text t) = received_text-Unnumbered p only t
  received_payload-Unnumbered p only _ = refl

  pub received-Unnumbered :
      (p : Provider lib) (m : CableMessage) → Unnumbered (Provider.received p m)
  unfolding Provider.received
  received-Unnumbered p m = elim (Bool-cases (is_undefined (ack_field m))) [
    | inl h ↦
        rw h (received_payload-Unnumbered p (not (is_undefined (awareness_payload m))) (payload m))
    | inr h ↦ rw h refl
  ]

  apply_disconnect-Unnumbered :
      (p : Provider lib) → Unnumbered (apply p (Session.on_disconnect lib p.session))
  apply_disconnect-Unnumbered p =
      apply-Unnumbered p (Session.on_disconnect lib p.session)
        (ap tagged (on_disconnect-quiet lib p.session).1)

  leave-Unnumbered : (p : Provider lib) → Unnumbered (Provider.leave p)
  unfolding Provider.leave
  leave-Unnumbered p =
      then-Unnumbered _ _ (λ q. apply_disconnect-Unnumbered q)
      ∙ apply-Unnumbered p (Session.remove_local_awareness lib p.session)
          (remove_local_awareness-Unnoticed lib p.session).1

  detach-Unnumbered :
      (sub : CableSubscription) (p : Provider lib) → Unnumbered (Provider.detach sub p)
  unfolding Provider.detach
  detach-Unnumbered sub p = refresh_status-Unnumbered _

  pub disconnect-Unnumbered : (p : Provider lib) → Unnumbered (Provider.disconnect p)
  unfolding Provider.disconnect
  disconnect-Unnumbered p = elim (Option-cases p.subscription) [
    | inl e ↦ rw (e, Provider.disconnect) refl
    | inr (sub, e) ↦
        rw (e, Provider.disconnect)
          (then-Unnumbered (Provider.leave p) (Provider.detach sub) (detach-Unnumbered sub)
            ∙ leave-Unnumbered p)
  ]

  pub on_disconnected-Unnumbered : (p : Provider lib) → Unnumbered (Provider.on_disconnected p)
  unfolding Provider.on_disconnected
  on_disconnected-Unnumbered p =
      let q = record p { connected = false } in
      then-Unnumbered (apply q (Session.on_disconnect lib q.session)) refresh_status
        refresh_status-Unnumbered
      ∙ apply_disconnect-Unnumbered q

  pub connect-Unnumbered :
      (p : Provider lib) (sub : CableSubscription) → Unnumbered (Provider.connect p sub)
  unfolding Provider.connect
  connect-Unnumbered p sub = elim (Option-cases p.subscription) [
    | inl e ↦ rw (e, Provider.connect) (refresh_status-Unnumbered _)
    | inr (old, e) ↦ rw (e, Provider.connect) refl
  ]

  hide-Unnumbered : (p : Provider lib) → Unnumbered (Provider.hide p)
  unfolding Provider.hide
  hide-Unnumbered p =
      apply-Unnumbered _ (Session.remove_local_awareness lib p.session)
        (remove_local_awareness-Unnoticed lib p.session).1

  pub page_hidden-Unnumbered : (p : Provider lib) → Unnumbered (Provider.page_hidden p)
  page_hidden-Unnumbered p = unfold Provider.page_hidden in ground (arith, hide-Unnumbered p)

  pub set_presence-Unnumbered :
      (p : Provider lib) (o : Option lib.Presence) → Unnumbered (Provider.set_presence p o)
  unfolding Provider.set_presence
  set_presence-Unnumbered p o =
      apply-Unnumbered p (Session.set_presence lib p.session o)
        (set_presence-Unnoticed lib p.session o).1

  restore_presence-Unnumbered :
      (p : Provider lib) (state : lib.Presence) → Unnumbered (Provider.restore_presence p state)
  unfolding Provider.restore_presence Provider.set_presence
  restore_presence-Unnumbered p state = ground (arith, set_presence-Unnumbered p (some state))

  restore-Unnumbered :
      (p : Provider lib) (state : lib.Presence) → Unnumbered (Provider.restore p state)
  unfolding Provider.restore
  restore-Unnumbered p state =
      then-Unnumbered (Provider.restore_presence p state) _ (λ q. refl)
      ∙ restore_presence-Unnumbered p state

  pub page_shown-Unnumbered :
      (p : Provider lib) (persisted : Bool) → Unnumbered (Provider.page_shown p persisted)
  page_shown-Unnumbered p persisted = elim (Option-cases p.stashed_presence) [
    | inl h ↦ unfold Provider.page_shown in ground arith
    | inr (state, h) ↦ unfold Provider.page_shown in ground (arith, restore-Unnumbered p state)
  ]

  pub apply_remote_update-Unnumbered :
      (p : Provider lib) (u : Bytes) → Unnumbered (Provider.apply_remote_update p u)
  unfolding Provider.apply_remote_update
  apply_remote_update-Unnumbered p u =
      let r = Session.apply_remote_update lib p.session u in
      apply-Unnumbered p (r.0, r.1) (ap tagged (apply_remote_update-quiet lib p.session u).1)

  pub run_tasks-Unnumbered : (p : Provider lib) → Unnumbered (Provider.run_tasks p)
  unfolding Provider.run_tasks
  run_tasks-Unnumbered p = numbered_sends-run_all p.tasks
