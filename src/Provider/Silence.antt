-- ===== src/Provider/Silence.antt =====
-- A provider of actioncable_provider.ts without a subscription.
use y_ruby.Base.{
  ℕ, [], ◌∷◌, Bool, Option, List, Bytes, refl, arith, ◌≡◌, none, Option-cases, some, inl, ap, inr,
  ◌∙◌, Bool-cases, not, ◌≢◌, ◌++◌, append_assoc, append-nil,
}
use y_ruby.Provider
use y_ruby.Session
use y_ruby.Cable.{
  Effect, CableMessage, CableSubscription, is_undefined, ack_field, awareness_payload, payload,
}
use y_ruby.External.{Packages, Applied}
use y_ruby.Transport.{refresh_status, Provider, apply, emit, ◌then◌}
use y_ruby.Session.{Output, sends, reports, Session}
use y_ruby.Transport.Frames.{apply-OnlyTasks}
use y_ruby.Provider.Calls.{provider_step, ProviderCall, provider_run}
use y_ruby.Base64.{from_base64}
use y_ruby.Number.{Value}
use y_ruby.Provider.Effects.{
  OffCable, OffCable-append, released, waiting, released-append, emit-unsubscribed,
  refresh_status-tasks, run_all-OffCable, emit-OffCable, refresh_status-OffCable,
  send_frame-unsubscribed,
}

module _ {lib : Packages} where
  -- Still unsubscribed, no send and no whisper, and each `unsubscribe` that waited has been called or waits
  -- still.
  abbrev Mute : Provider lib → Provider lib × List Effect → Type 0
  Mute p r =
      (r.0.subscription ≡ none)
      × OffCable r.1
      × (released r.1 ++ waiting r.0.tasks ≡ waiting p.tasks)

  abbrev Muted : (Provider lib → Provider lib × List Effect) → Type 0
  Muted f = (q : Provider lib) → q.subscription ≡ none → Mute q (f q)

  append-Mute :
      (p q : Provider lib) (out : List Effect) (r : Provider lib × List Effect)
      → Mute p (q, out)
      → Mute q r
      → Mute p (r.0, out ++ r.1)
  append-Mute p q out r h k = (
    k.0,
    OffCable-append out r.1 h.1 k.1,
    ap (λ l. l ++ waiting r.0.tasks) (released-append out r.1)
        ∙ append_assoc (released out) (released r.1) (waiting r.0.tasks)
        ∙ ap (λ l. released out ++ l) k.2
        ∙ h.2,
  )

  then-Mute :
      (p : Provider lib) (r : Provider lib × List Effect)
      (f : Provider lib → Provider lib × List Effect)
      → Mute p r
      → Muted f
      → Mute p (r then f)
  unfolding ◌then◌
  then-Mute p r f h k = append-Mute p r.0 r.1 (f r.0) h (k r.0 h.0)

  -- Nothing is released, and the microtasks stay.
  settled-Mute :
      (p : Provider lib) (r : Provider lib × List Effect)
      → (r.0.subscription ≡ none)
      → OffCable r.1
      → (r.0.tasks ≡ p.tasks) × (released r.1 ≡ [])
      → Mute p r
  settled-Mute p r e o (t, n) = (e, o, ap (λ l. l ++ waiting r.0.tasks) n ∙ ap waiting t)

  apply-Mute : (r : Session lib × List Output) → Muted (λ p. apply p r)
  unfolding apply
  apply-Mute r p e =
      settled-Mute p (emit (record p { session = r.0 }) r.1)
        (ap Provider.subscription (apply-OnlyTasks p r) ∙ e)
        (emit-OffCable (record p { session = r.0 }) r.1 e)
        (emit-unsubscribed (record p { session = r.0 }) r.1 e)

  refresh_status-Mute : Muted refresh_status
  refresh_status-Mute p e =
      settled-Mute p (refresh_status p) (unfold refresh_status in ground arith)
        (refresh_status-OffCable p) (refresh_status-tasks p)

  answer-Mute : (reply : Option Bytes) → Muted (Provider.answer reply)
  unfolding Provider.answer
  answer-Mute none p e = (e, tt, refl)
  answer-Mute (some r) p e = rw (send_frame-unsubscribed p r none e) (e, tt, refl)

  received_frame-Mute : (frame : Bytes) → Muted (λ p. Provider.received_frame p frame)
  unfolding Provider.received_frame
  received_frame-Mute frame p e =
      let (s, outs, reply) = Session.receive lib p.session frame in
      then-Mute p (apply p (s, outs) then Provider.answer reply) refresh_status
        (then-Mute p (apply p (s, outs)) (Provider.answer reply) (apply-Mute (s, outs) p e)
          (answer-Mute reply))
        refresh_status-Mute

  received_text-Mute : (only : Bool) (t : List ℕ) → Muted (λ p. Provider.received_text p only t)
  unfolding Provider.received_text
  received_text-Mute only t p e = elim (Option-cases (from_base64 t)) [
    | inl h ↦ ground arith
    | inr (frame, h) ↦ ground (arith, received_frame-Mute frame p e)
  ]

  received_payload-Mute :
      (only : Bool) (v : Value) → Muted (λ p. Provider.received_payload p only v)
  unfolding Provider.received_payload
  received_payload-Mute only (Value.text t) p e = received_text-Mute only t p e
  received_payload-Mute only _ p e = (e, tt, refl)

  received-Mute : (m : CableMessage) → Muted (λ p. Provider.received p m)
  unfolding Provider.received
  received-Mute m p e = elim (Bool-cases (is_undefined (ack_field m))) [
    | inl h ↦
        rw h (received_payload-Mute (not (is_undefined (awareness_payload m))) (payload m) p e)
    | inr h ↦ rw h (e, tt, refl)
  ]

  disconnect-none : (p : Provider lib) → p.subscription ≡ none → Provider.disconnect p ≡ (p, [])
  unfolding Provider.disconnect
  disconnect-none p e = ground arith

  release_awareness-Mute : Muted Provider.release_awareness
  unfolding Provider.release_awareness
  release_awareness-Mute p e = elim (Option-cases p.session.awareness) [
    | inl h ↦ rw (h, Provider.release_awareness) (e, tt, refl)
    | inr (a, h) ↦ rw (h, Provider.release_awareness) (apply-Mute _ p e)
  ]

  destroy-Mute : Muted Provider.destroy
  unfolding Provider.destroy
  destroy-Mute p e =
      then-Mute p _ _
        (then-Mute p _ Provider.release_awareness
          (then-Mute p (Provider.disconnect p) _ (rw (disconnect-none p e) (e, tt, refl))
            (λ q h. (h, tt, refl)))
          release_awareness-Mute)
        (λ q h. (h, tt, refl))

  hide-Mute : Muted Provider.hide
  unfolding Provider.hide
  hide-Mute p e = apply-Mute (Session.remove_local_awareness lib p.session) _ e

  page_hidden-Mute : Muted Provider.page_hidden
  page_hidden-Mute p e = unfold Provider.page_hidden in ground (arith, hide-Mute p e)

  restore_presence-Mute : (state : lib.Presence) → Muted (λ p. Provider.restore_presence p state)
  unfolding Provider.restore_presence
  restore_presence-Mute state p e =
      ground (arith, apply-Mute (Session.set_presence lib p.session (some state)) p e)

  restore-Mute : (state : lib.Presence) → Muted (λ p. Provider.restore p state)
  unfolding Provider.restore
  restore-Mute state p e =
      then-Mute p (Provider.restore_presence p state) _ (restore_presence-Mute state p e)
        (λ q h. (h, tt, refl))

  page_shown-Mute : (persisted : Bool) → Muted (λ p. Provider.page_shown p persisted)
  page_shown-Mute persisted p e = elim (Option-cases p.stashed_presence) [
    | inl h ↦ unfold Provider.page_shown in ground arith
    | inr (state, h) ↦ unfold Provider.page_shown in ground (arith, restore-Mute state p e)
  ]

  connect-OffCable :
      (p : Provider lib) (sub : CableSubscription)
      → p.subscription ≡ none
      → OffCable (Provider.connect p sub).1
  unfolding Provider.connect
  connect-OffCable p sub e = rw (e, Provider.connect) (refresh_status-OffCable _)

  on_connected-Mute : Muted Provider.on_connected
  unfolding Provider.on_connected
  on_connected-Mute p e =
      then-Mute p _ refresh_status (apply-Mute (Session.on_connect lib p.session) _ e)
        refresh_status-Mute

  on_disconnected-Mute : Muted Provider.on_disconnected
  unfolding Provider.on_disconnected
  on_disconnected-Mute p e =
      then-Mute p _ refresh_status (apply-Mute (Session.on_disconnect lib p.session) _ e)
        refresh_status-Mute

  on_rejected-Mute : Muted Provider.on_rejected
  unfolding Provider.on_rejected
  on_rejected-Mute p e = rw (disconnect-none p e) (e, tt, refl)

  tick-Mute : Muted Provider.tick
  unfolding Provider.tick
  tick-Mute p e = apply-Mute (Session.tick lib p.session) p e

  edit-Mute : (r : Applied lib.Doc) → Muted (λ p. Provider.edit p r)
  unfolding Provider.edit
  edit-Mute r p e = apply-Mute (Session.edit lib p.session r) p e

  set_presence-Mute : (o : Option lib.Presence) → Muted (λ p. Provider.set_presence p o)
  unfolding Provider.set_presence
  set_presence-Mute o p e = apply-Mute (Session.set_presence lib p.session o) p e

  apply_remote_update-Mute : (u : Bytes) → Muted (λ p. Provider.apply_remote_update p u)
  unfolding Provider.apply_remote_update
  apply_remote_update-Mute u p e =
      let r = Session.apply_remote_update lib p.session u in apply-Mute (r.0, r.1) p e

  run_tasks-Mute : Muted Provider.run_tasks
  unfolding Provider.run_tasks
  run_tasks-Mute p e = (e, run_all-OffCable p.tasks, ground (arith, append-nil (waiting p.tasks)))

  step-Mute :
      (c : ProviderCall lib)
      → ((sub : CableSubscription) → c ≢ ProviderCall.connects sub)
      → Muted (λ p. provider_step p c)
  unfolding provider_step
  step-Mute (ProviderCall.connects sub) n p e = absurd (n sub refl)
  step-Mute ProviderCall.cable_connected n p e = on_connected-Mute p e
  step-Mute ProviderCall.cable_disconnected n p e = on_disconnected-Mute p e
  step-Mute ProviderCall.cable_rejected n p e = on_rejected-Mute p e
  step-Mute (ProviderCall.cable_received m) n p e = received-Mute m p e
  step-Mute ProviderCall.disconnects n p e = rw (disconnect-none p e) (e, tt, refl)
  step-Mute ProviderCall.destroys n p e = destroy-Mute p e
  step-Mute ProviderCall.page_hides n p e = page_hidden-Mute p e
  step-Mute (ProviderCall.page_shows persisted) n p e = page_shown-Mute persisted p e
  step-Mute ProviderCall.ticks n p e = tick-Mute p e
  step-Mute ProviderCall.turn_ends n p e = run_tasks-Mute p e
  step-Mute (ProviderCall.listens l) n p e = unfold Provider.on_status_change in (e, tt, refl)
  step-Mute (ProviderCall.unlistens l) n p e = unfold Provider.off_status_change in (e, tt, refl)
  step-Mute (ProviderCall.edits r) n p e = edit-Mute r p e
  step-Mute (ProviderCall.presents o) n p e = set_presence-Mute o p e
  step-Mute (ProviderCall.restores u) n p e = apply_remote_update-Mute u p e

  abbrev pub NeverConnects : List (ProviderCall lib) → Type 0
  NeverConnects [] = Unit {0}
  NeverConnects (c ∷ cs) =
      ((sub : CableSubscription) → c ≢ ProviderCall.connects sub) × NeverConnects cs

  -- A provider without a subscription stays without one and sends and whispers nothing, whatever happens
  -- to it but a call of `connect`: edits, presence, timer ticks, late callbacks of an old subscription
  -- and page events included. All that it still does on the cable is to unsubscribe: the calls of
  -- `unsubscribe` that waited at the start have been made, in order and once each, or wait still, and no
  -- other one is made.
  pub provider_run-OffCable :
      (p : Provider lib) (cs : List (ProviderCall lib))
      → p.subscription ≡ none
      → NeverConnects cs
      → let (q, out) = provider_run p cs in
        (q.subscription ≡ none) × OffCable out × (released out ++ waiting q.tasks ≡ waiting p.tasks)
  unfolding provider_run
  provider_run-OffCable p [] e n = (e, tt, refl)
  provider_run-OffCable p (c ∷ cs) e n =
      let (q, out) = provider_step p c in
      let one = step-Mute c n.0 p e in
      append-Mute p q out (provider_run q cs) one (provider_run-OffCable q cs one.0 n.1)
