-- ===== src/Provider/Driven.antt =====
-- What a call of the provider of actioncable_provider.ts is to its session.
use y_ruby.Base.{
  ℕ, [], ◌∷◌, ◌++◌, Bool, Option, List, Bytes, refl, ◌≡◌, some, if◌then◌else◌, ◌&&◌, arith, ap,
  none, not, ◌||◌, ◌∙◌, Bool-cases, Option-cases, inl, ◌≢◌, inr,
}
use y_ruby.Provider
use y_ruby.Session
use y_ruby.External.{Packages}
use y_ruby.Transport.{◌then◌, refresh_status, Provider, send_frame, apply}
use y_ruby.Session.{Session, Output, has_local_state}
use y_ruby.Cable.{
  CableMessage, CableSubscription, is_undefined, is_awareness_frame, ack_field, awareness_payload,
  payload,
}
use y_ruby.Session.Queue.{SessionCall, session_run, session_step}
use y_ruby.Number.{Value}
use y_ruby.Provider.Calls.{ProviderCall, provider_step}
use y_ruby.Base64.{from_base64}
use y_ruby.Transport.Frames.{send_frame-OnlyTasks, apply-OnlyTasks}

module _ {lib : Packages} where
  -- The frame that a message carries to the session.
  abbrev pub frame_calls : Bool → Option Bytes → List (SessionCall lib)
  frame_calls only none = []
  frame_calls only (some frame) =
      if only && not (is_awareness_frame frame) then [] else SessionCall.receives frame ∷ []

  abbrev pub payload_calls : Bool → Value → List (SessionCall lib)
  payload_calls only (Value.text t) = frame_calls only (from_base64 t)
  payload_calls only _ = []

  abbrev pub message_calls : CableMessage → List (SessionCall lib)
  message_calls m =
      if is_undefined (ack_field m)
      then payload_calls (not (is_undefined (awareness_payload m))) (payload m)
      else SessionCall.acks (ack_field m) ∷ []

  abbrev pub teardown_calls : Option CableSubscription → List (SessionCall lib)
  teardown_calls none = []
  teardown_calls (some sub) = SessionCall.leaves ∷ SessionCall.disconnects ∷ []

  -- A stashed presence comes back only where there is none.
  abbrev pub restore_calls : Session lib → Option lib.Presence → List (SessionCall lib)
  restore_calls s none = []
  restore_calls s (some state) = elim s.awareness [
    | none ↦ []
    | some a ↦ if has_local_state lib a then [] else SessionCall.presents (some state) ∷ []
  ]

  abbrev pub session_calls : Provider lib → ProviderCall lib → List (SessionCall lib)
  session_calls p (ProviderCall.connects sub) = []
  session_calls p ProviderCall.cable_connected = SessionCall.connects ∷ []
  session_calls p ProviderCall.cable_disconnected = SessionCall.disconnects ∷ []
  session_calls p ProviderCall.cable_rejected = teardown_calls p.subscription
  session_calls p (ProviderCall.cable_received m) = message_calls m
  session_calls p ProviderCall.disconnects = teardown_calls p.subscription
  session_calls p ProviderCall.destroys = teardown_calls p.subscription ++ SessionCall.destroys ∷ []
  session_calls p ProviderCall.page_hides = if p.on_unload then SessionCall.leaves ∷ [] else []
  session_calls p (ProviderCall.page_shows persisted) =
      if not p.on_restore || not persisted then [] else restore_calls p.session p.stashed_presence
  session_calls p ProviderCall.ticks = SessionCall.ticks ∷ []
  session_calls p ProviderCall.turn_ends = []
  session_calls p (ProviderCall.listens l) = []
  session_calls p (ProviderCall.unlistens l) = []
  session_calls p (ProviderCall.edits r) = SessionCall.edits r ∷ []
  session_calls p (ProviderCall.presents state) = SessionCall.presents state ∷ []
  session_calls p (ProviderCall.restores update) = SessionCall.restores update ∷ []

  -- The session after a call is the session after these.
  abbrev pub Follows : Provider lib → List (SessionCall lib) → Provider lib → Type 0
  Follows p cs q = q.session ≡ (session_run lib p.session cs).0

  pub apply-session :
      (p : Provider lib) (r : Session lib × List Output) → (apply p r).0.session ≡ r.0
  apply-session p r = ap Provider.session (apply-OnlyTasks p r)

  pub send_frame-session :
      (p : Provider lib) (frame : Bytes) (id : Option ℕ)
      → (send_frame p frame id).0.session ≡ p.session
  send_frame-session p frame id = ap Provider.session (send_frame-OnlyTasks p frame id)

  pub refresh_status-session : (p : Provider lib) → (refresh_status p).0.session ≡ p.session
  unfolding refresh_status
  refresh_status-session p = ground arith

  answer-session :
      (reply : Option Bytes) (p : Provider lib) → (Provider.answer reply p).0.session ≡ p.session
  unfolding Provider.answer
  answer-session none p = refl
  answer-session (some reply) p = send_frame-session p reply none

  received_frame-session :
      (p : Provider lib) (frame : Bytes)
      → (Provider.received_frame p frame).0.session ≡ (Session.receive lib p.session frame).0
  unfolding Provider.received_frame ◌then◌
  received_frame-session p frame =
      let (s, outs, reply) = Session.receive lib p.session frame in
      let q = (apply p (s, outs)).0 in
      refresh_status-session (Provider.answer reply q).0
      ∙ answer-session reply q
      ∙ apply-session p (s, outs)

  leave-session :
      (p : Provider lib)
      → Follows p (SessionCall.leaves ∷ SessionCall.disconnects ∷ []) (Provider.leave p).0
  unfolding Provider.leave ◌then◌ session_run session_step
  leave-session p =
      let q = (apply p (Session.remove_local_awareness lib p.session)).0 in
      apply-session q (Session.on_disconnect lib q.session)
      ∙ ap (λ s. (Session.on_disconnect lib s).0)
          (apply-session p (Session.remove_local_awareness lib p.session))

  detach-session :
      (sub : CableSubscription) (p : Provider lib) → (Provider.detach sub p).0.session ≡ p.session
  unfolding Provider.detach
  detach-session sub p = refresh_status-session _ ∙ ground arith

  disconnect-Follows :
      (p : Provider lib) → Follows p (teardown_calls p.subscription) (Provider.disconnect p).0
  unfolding Provider.disconnect ◌then◌
  disconnect-Follows p = by_subscription p.subscription refl
    where
      by_subscription :
          (o : Option CableSubscription)
          → p.subscription ≡ o
          → Follows p (teardown_calls o) (Provider.disconnect p).0
      by_subscription none e = unfold session_run in rw (e, Provider.disconnect) refl
      by_subscription (some sub) e =
          rw (e, Provider.disconnect) (detach-session sub (Provider.leave p).0 ∙ leave-session p)

  frame_calls-Follows :
      (p : Provider lib) (only : Bool) (frame : Option Bytes) (t : List ℕ)
      → from_base64 t ≡ frame
      → Follows p (frame_calls only frame) (Provider.received_text p only t).0
  unfolding Provider.received_text session_run session_step
  frame_calls-Follows p only none t e = ground arith
  frame_calls-Follows p only (some frame) t e = ground (arith, received_frame-session p frame)

  payload_calls-Follows :
      (p : Provider lib) (only : Bool) (v : Value)
      → Follows p (payload_calls only v) (Provider.received_payload p only v).0
  unfolding Provider.received_payload session_run
  payload_calls-Follows p only (Value.text t) = frame_calls-Follows p only (from_base64 t) t refl
  payload_calls-Follows p only _ = refl

  message_calls-Follows :
      (p : Provider lib) (m : CableMessage) → Follows p (message_calls m) (Provider.received p m).0
  unfolding Provider.received session_run session_step
  message_calls-Follows p m = elim (Bool-cases (is_undefined (ack_field m))) [
    | inl e ↦ rw e (payload_calls-Follows p (not (is_undefined (awareness_payload m))) (payload m))
    | inr e ↦ rw e refl
  ]

  installed-session : (p : Provider lib) → (Provider.install_unload_handler p).session ≡ p.session
  unfolding Provider.install_unload_handler
  installed-session p = ground arith

  connect-Follows :
      (p : Provider lib) (sub : CableSubscription) → Follows p [] (Provider.connect p sub).0
  unfolding Provider.connect session_run
  connect-Follows p sub = elim (Option-cases p.subscription) [
    | inl e ↦
        rw (e, Provider.connect)
          (refresh_status-session _ ∙ installed-session (record p { subscription = some sub }))
    | inr (old, e) ↦ rw (e, Provider.connect) refl
  ]

  on_connected-Follows :
      (p : Provider lib) → Follows p (SessionCall.connects ∷ []) (Provider.on_connected p).0
  unfolding Provider.on_connected ◌then◌ session_run session_step
  on_connected-Follows p =
      refresh_status-session _ ∙ apply-session _ (Session.on_connect lib p.session)

  on_disconnected-Follows :
      (p : Provider lib) → Follows p (SessionCall.disconnects ∷ []) (Provider.on_disconnected p).0
  unfolding Provider.on_disconnected ◌then◌ session_run session_step
  on_disconnected-Follows p =
      refresh_status-session _ ∙ apply-session _ (Session.on_disconnect lib p.session)

  hide-session :
      (p : Provider lib)
      → (Provider.hide p).0.session ≡ (Session.remove_local_awareness lib p.session).0
  unfolding Provider.hide
  hide-session p = apply-session _ (Session.remove_local_awareness lib p.session)

  page_hidden-Follows :
      (p : Provider lib)
      → Follows p (session_calls p ProviderCall.page_hides) (Provider.page_hidden p).0
  unfolding session_run session_step
  page_hidden-Follows p = unfold Provider.page_hidden in ground (arith, hide-session p)

  restore-Follows :
      (p : Provider lib) (state : lib.Presence)
      → Follows p (restore_calls p.session (some state)) (Provider.restore p state).0
  unfolding Provider.restore Provider.restore_presence ◌then◌ session_run session_step
  restore-Follows p state =
      ground (arith, apply-session p (Session.set_presence lib p.session (some state)))

  page_shown-Follows :
      (p : Provider lib) (persisted : Bool)
      → Follows p
          (session_calls p (ProviderCall.page_shows persisted))
          (Provider.page_shown p persisted).0
  unfolding session_run
  page_shown-Follows p persisted = elim (Option-cases p.stashed_presence) [
    | inl e ↦ unfold Provider.page_shown in ground arith
    | inr (state, e) ↦ unfold Provider.page_shown in ground (arith, restore-Follows p state)
  ]

  -- In any state, the session after a call of the provider, other than its destruction, is the session
  -- after the calls that it comes to.
  pub provider_step-Follows :
      (p : Provider lib) (c : ProviderCall lib)
      → c ≢ ProviderCall.destroys
      → Follows p (session_calls p c) (provider_step p c).0
  unfolding provider_step session_run session_step
  provider_step-Follows p (ProviderCall.connects sub) n = connect-Follows p sub
  provider_step-Follows p ProviderCall.cable_connected n = on_connected-Follows p
  provider_step-Follows p ProviderCall.cable_disconnected n = on_disconnected-Follows p
  provider_step-Follows p ProviderCall.cable_rejected n =
      unfold Provider.on_rejected in disconnect-Follows p
  provider_step-Follows p (ProviderCall.cable_received m) n = message_calls-Follows p m
  provider_step-Follows p ProviderCall.disconnects n = disconnect-Follows p
  provider_step-Follows p ProviderCall.destroys n = absurd (n refl)
  provider_step-Follows p ProviderCall.page_hides n = page_hidden-Follows p
  provider_step-Follows p (ProviderCall.page_shows persisted) n = page_shown-Follows p persisted
  provider_step-Follows p ProviderCall.ticks n =
      unfold Provider.tick in apply-session p (Session.tick lib p.session)
  provider_step-Follows p ProviderCall.turn_ends n = unfold Provider.run_tasks in refl
  provider_step-Follows p (ProviderCall.listens l) n = unfold Provider.on_status_change in refl
  provider_step-Follows p (ProviderCall.unlistens l) n = unfold Provider.off_status_change in refl
  provider_step-Follows p (ProviderCall.edits r) n =
      unfold Provider.edit in apply-session p (Session.edit lib p.session r)
  provider_step-Follows p (ProviderCall.presents state) n =
      unfold Provider.set_presence in apply-session p (Session.set_presence lib p.session state)
  provider_step-Follows p (ProviderCall.restores update) n =
      let r = Session.apply_remote_update lib p.session update in
      unfold Provider.apply_remote_update in apply-session p (r.0, r.1)
