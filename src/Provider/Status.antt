-- ===== src/Provider/Status.antt =====
-- The status of a provider (`#computeStatus`, `#refreshStatus` of actioncable_provider.ts).
use y_ruby.Base.{
  ℕ, [], Bool, Option, List, Bytes, arith, ◌≡◌, subst, sym, Option-cases, inl, inr, Bool-cases, not,
  none, some,
}
use y_ruby.Provider
use y_ruby.Session
use y_ruby.External.{Packages}
use y_ruby.Transport.{refresh_status, Provider, compute_status, ◌then◌, apply}
use y_ruby.Session.{Session, Output}
use y_ruby.Cable.{
  CableMessage, Effect, CableSubscription, is_undefined, ack_field, awareness_payload, payload,
}
use y_ruby.Transport.Frames.{apply-OnlyTasks}
use y_ruby.Base64.{from_base64}
use y_ruby.Number.{Value}
use y_ruby.Session.Synced.{note-synced, set_presence-synced, remove_local_awareness-synced}

module _ {lib : Packages} where
  -- The status that was last announced is that of the subscription, the transport and the session.
  abbrev pub IsFresh : Provider lib → Type 0
  IsFresh p = p.status ≡ compute_status p

  pub refresh_status-IsFresh : (p : Provider lib) → IsFresh (refresh_status p).0
  unfolding refresh_status
  refresh_status-IsFresh p = ground arith

  -- A call on the session that leaves `synced` alone leaves the status fresh.
  pub apply-IsFresh :
      (p : Provider lib) (r : Session lib × List Output)
      → r.0.synced ≡ p.session.synced
      → IsFresh p
      → IsFresh (apply p r).0
  unfolding compute_status
  apply-IsFresh p r e f = subst IsFresh (sym (apply-OnlyTasks p r)) (ground arith)

  then-IsFresh :
      (r : Provider lib × List Effect) (f : Provider lib → Provider lib × List Effect)
      → ((q : Provider lib) → IsFresh (f q).0)
      → IsFresh (r then f).0
  unfolding ◌then◌
  then-IsFresh r f h = h r.0

  received_frame-IsFresh :
      (p : Provider lib) (frame : Bytes) → IsFresh (Provider.received_frame p frame).0
  unfolding Provider.received_frame
  received_frame-IsFresh p frame = then-IsFresh _ refresh_status refresh_status-IsFresh

  received_text-IsFresh :
      (p : Provider lib) (only : Bool) (t : List ℕ)
      → IsFresh p
      → IsFresh (Provider.received_text p only t).0
  unfolding Provider.received_text
  received_text-IsFresh p only t f = elim (Option-cases (from_base64 t)) [
    | inl e ↦ rw (e, Provider.received_text) f
    | inr (frame, e) ↦ ground (arith, received_frame-IsFresh p frame)
  ]

  received_payload-IsFresh :
      (p : Provider lib) (only : Bool) (v : Value)
      → IsFresh p
      → IsFresh (Provider.received_payload p only v).0
  unfolding Provider.received_payload
  received_payload-IsFresh p only (Value.text t) f = received_text-IsFresh p only t f
  received_payload-IsFresh p only _ f = f

  -- An acknowledgement reaches the queue, and the status does not depend on that.
  ack-IsFresh :
      (p : Provider lib) (v : Value)
      → IsFresh p
      → IsFresh (record p { session = Session.ack lib p.session v })
  unfolding compute_status Session.ack
  ack-IsFresh p v f = f

  pub received-IsFresh :
      (p : Provider lib) (m : CableMessage) → IsFresh p → IsFresh (Provider.received p m).0
  unfolding Provider.received
  received-IsFresh p m f = elim (Bool-cases (is_undefined (ack_field m))) [
    | inl e ↦
        rw e (received_payload-IsFresh p (not (is_undefined (awareness_payload m))) (payload m) f)
    | inr e ↦ rw e (ack-IsFresh p (ack_field m) f)
  ]

  detach-IsFresh : (sub : CableSubscription) (p : Provider lib) → IsFresh (Provider.detach sub p).0
  unfolding Provider.detach
  detach-IsFresh sub p = refresh_status-IsFresh _

  pub disconnect-IsFresh : (p : Provider lib) → IsFresh p → IsFresh (Provider.disconnect p).0
  unfolding Provider.disconnect
  disconnect-IsFresh p f = elim (Option-cases p.subscription) [
    | inl e ↦ rw (e, Provider.disconnect) f
    | inr (sub, e) ↦
        rw (e, Provider.disconnect)
          (then-IsFresh (Provider.leave p) (Provider.detach sub) (detach-IsFresh sub))
  ]

  then-keeps :
      (r : Provider lib × List Effect) (f : Provider lib → Provider lib × List Effect)
      → IsFresh r.0
      → ((q : Provider lib) → IsFresh q → IsFresh (f q).0)
      → IsFresh (r then f).0
  unfolding ◌then◌
  then-keeps r f h k = k r.0 h

  pub connect-IsFresh :
      (p : Provider lib) (sub : CableSubscription) → IsFresh p → IsFresh (Provider.connect p sub).0
  unfolding Provider.connect
  connect-IsFresh p sub f = elim (Option-cases p.subscription) [
    | inl e ↦ rw (e, Provider.connect) (refresh_status-IsFresh _)
    | inr (old, e) ↦ rw (e, Provider.connect) f
  ]

  pub on_connected-IsFresh : (p : Provider lib) → IsFresh (Provider.on_connected p).0
  unfolding Provider.on_connected
  on_connected-IsFresh p = then-IsFresh _ refresh_status refresh_status-IsFresh

  pub on_disconnected-IsFresh : (p : Provider lib) → IsFresh (Provider.on_disconnected p).0
  unfolding Provider.on_disconnected
  on_disconnected-IsFresh p = then-IsFresh _ refresh_status refresh_status-IsFresh

  closed-IsFresh :
      (q : Provider lib)
      → IsFresh q
      → IsFresh (record q { session = Session.destroy lib q.session })
  unfolding compute_status Session.destroy
  closed-IsFresh q f = f

  muted-IsFresh :
      (q : Provider lib) (ls : List ℕ) → IsFresh q → IsFresh (record q { listeners = ls })
  unfolding compute_status
  muted-IsFresh q ls f = f

  release_awareness-IsFresh :
      (q : Provider lib) → IsFresh q → IsFresh (Provider.release_awareness q).0
  unfolding Provider.release_awareness
  release_awareness-IsFresh q f = elim (Option-cases q.session.awareness) [
    | inl e ↦ rw (e, Provider.release_awareness) f
    | inr (a, e) ↦
        rw (e, Provider.release_awareness)
          (apply-IsFresh q (Session.note lib q.session (lib.destroy_awareness a) Session.other)
            (note-synced lib q.session (lib.destroy_awareness a) Session.other) f)
  ]

  pub destroy-IsFresh : (p : Provider lib) → IsFresh p → IsFresh (Provider.destroy p).0
  unfolding Provider.destroy
  destroy-IsFresh p f =
      then-keeps _ _
        (then-keeps _ Provider.release_awareness
          (then-keeps (Provider.disconnect p) _ (disconnect-IsFresh p f) closed-IsFresh)
          release_awareness-IsFresh)
        (λ q. muted-IsFresh q [])

  hide-IsFresh : (p : Provider lib) → IsFresh p → IsFresh (Provider.hide p).0
  unfolding Provider.hide compute_status
  hide-IsFresh p f =
      apply-IsFresh _ (Session.remove_local_awareness lib p.session)
        (remove_local_awareness-synced lib p.session) f

  pub page_hidden-IsFresh : (p : Provider lib) → IsFresh p → IsFresh (Provider.page_hidden p).0
  page_hidden-IsFresh p f = unfold Provider.page_hidden in ground (arith, hide-IsFresh p f)

  stash-IsFresh :
      (p : Provider lib) (s : Option lib.Presence)
      → IsFresh p
      → IsFresh (record p { stashed_presence = s })
  unfolding compute_status
  stash-IsFresh p s f = f

  restore_presence-IsFresh :
      (p : Provider lib) (state : lib.Presence)
      → IsFresh p
      → IsFresh (Provider.restore_presence p state).0
  unfolding Provider.restore_presence
  restore_presence-IsFresh p state f =
      let set = Session.set_presence lib p.session (some state) in
      ground (arith, apply-IsFresh p set (set_presence-synced lib p.session (some state)) f)

  restore-IsFresh :
      (p : Provider lib) (state : lib.Presence) → IsFresh p → IsFresh (Provider.restore p state).0
  unfolding Provider.restore
  restore-IsFresh p state f =
      then-keeps (Provider.restore_presence p state) _ (restore_presence-IsFresh p state f)
        (λ q. stash-IsFresh q none)

  pub page_shown-IsFresh :
      (p : Provider lib) (persisted : Bool)
      → IsFresh p
      → IsFresh (Provider.page_shown p persisted).0
  unfolding Provider.page_shown
  page_shown-IsFresh p persisted f = elim (Option-cases p.stashed_presence) [
    | inl e ↦ ground arith
    | inr (state, e) ↦ ground (arith, restore-IsFresh p state f)
  ]
