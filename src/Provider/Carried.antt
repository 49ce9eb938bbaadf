-- ===== src/Provider/Carried.antt =====
-- What a call of a provider of actioncable_provider.ts puts on the cable under a number, exactly.
use y_ruby.Base.{
  Bool, true, false, not, ◌&&◌, ◌||◌, if◌then◌else◌, Option, none, some, List, [], ◌∷◌, ◌++◌, Bytes,
  All, refl, ap, ◌≡◌, ◌≢◌, ◌∙◌, append-nil, sym,
}
use y_ruby.External.{Packages}
use y_ruby.Provider
use y_ruby.Session
use y_ruby.Reliable.{Sent, run}
use y_ruby.Session.{
  Session, Output, has_local_state, receive, apply_remote_update, on_disconnect, destroy, ack,
}
use y_ruby.Session.Echo.{receive-quiet, apply_remote_update-quiet, on_disconnect-quiet}
use y_ruby.Session.Queue.{
  SessionCall, session_run, session_step, tagged, tagged-append, tagged-Silent, frames_of,
  set_presence-Unnoticed, remove_local_awareness-Unnoticed,
}
use y_ruby.Session.Runs.{session_run-Drives, history}
use y_ruby.Cable.{
  CableMessage, CableSubscription, Effect, is_undefined, is_awareness_frame, ack_field,
  awareness_payload, payload,
}
use y_ruby.Number.{Value}
use y_ruby.Base64.{from_base64}
use y_ruby.Transport.{Provider, apply, refresh_status}
use y_ruby.Transport.Frames.{numbered_sends, encoded}
use y_ruby.Transport.Wire.{
  Unnumbered, carried, apply-carried, then-Unnumbered, refresh_status-Unnumbered,
}
use y_ruby.Provider.Calls.{ProviderCall, provider_step}
use y_ruby.Provider.Driven.{
  session_calls, restore_calls, frame_calls, payload_calls, teardown_calls, message_calls,
}
use y_ruby.Provider.Quiet.{
  connect-Unnumbered, on_disconnected-Unnumbered, disconnect-Unnumbered, received-Unnumbered,
  page_hidden-Unnumbered, page_shown-Unnumbered, run_tasks-Unnumbered, set_presence-Unnumbered,
  apply_remote_update-Unnumbered,
}

module _ (lib : Packages) where
  -- No connection, tick or edit.
  abbrev IsQuiet : SessionCall lib → Type 0
  IsQuiet SessionCall.connects = ⊥
  IsQuiet SessionCall.ticks = ⊥
  IsQuiet (SessionCall.edits r) = ⊥
  IsQuiet _ = Unit {0}

  tagged-quiet_step :
      (s : Session lib) (c : SessionCall lib) → IsQuiet c → tagged (session_step lib s c).1 ≡ []
  unfolding session_step
  tagged-quiet_step s SessionCall.connects h = absurd h
  tagged-quiet_step s SessionCall.ticks h = absurd h
  tagged-quiet_step s (SessionCall.edits r) h = absurd h
  tagged-quiet_step s SessionCall.disconnects h = ap tagged (on_disconnect-quiet lib s).1
  tagged-quiet_step s SessionCall.leaves h = (remove_local_awareness-Unnoticed lib s).1
  tagged-quiet_step s SessionCall.destroys h = refl
  tagged-quiet_step s (SessionCall.acks v) h = refl
  tagged-quiet_step s (SessionCall.presents p) h = (set_presence-Unnoticed lib s p).1
  tagged-quiet_step s (SessionCall.receives frame) h =
      tagged-Silent lib (receive lib s frame).1 (receive-quiet lib s frame).1
  tagged-quiet_step s (SessionCall.restores update) h =
      ap tagged (apply_remote_update-quiet lib s update).1

  tagged-quiet :
      (s : Session lib) (cs : List (SessionCall lib))
      → All IsQuiet cs
      → tagged (session_run lib s cs).1 ≡ []
  unfolding session_run
  tagged-quiet s [] h = refl
  tagged-quiet s (c ∷ cs) h =
      let (t, out) = session_step lib s c in
      tagged-append lib out (session_run lib t cs).1
      ∙ ap (λ l. l ++ tagged (session_run lib t cs).1) (tagged-quiet_step s c h.0)
      ∙ tagged-quiet t cs h.1

  if-IsQuiet :
      (b : Bool) (xs ys : List (SessionCall lib))
      → All IsQuiet xs
      → All IsQuiet ys
      → All IsQuiet (if b then xs else ys)
  if-IsQuiet true xs ys h k = h
  if-IsQuiet false xs ys h k = k

  teardown-IsQuiet : (o : Option CableSubscription) → All IsQuiet (teardown_calls {lib = lib} o)
  teardown-IsQuiet none = tt
  teardown-IsQuiet (some sub) = (tt, (tt, tt))

  frame-IsQuiet :
      (only : Bool) (frame : Option Bytes) → All IsQuiet (frame_calls {lib = lib} only frame)
  frame-IsQuiet only none = tt
  frame-IsQuiet only (some frame) =
      if-IsQuiet (only && not (is_awareness_frame frame)) [] (SessionCall.receives frame ∷ []) tt
        (tt, tt)

  payload-IsQuiet : (only : Bool) (v : Value) → All IsQuiet (payload_calls {lib = lib} only v)
  payload-IsQuiet only (Value.text t) = frame-IsQuiet only (from_base64 t)
  payload-IsQuiet only _ = tt

  message-IsQuiet : (m : CableMessage) → All IsQuiet (message_calls {lib = lib} m)
  message-IsQuiet m =
      if-IsQuiet (is_undefined (ack_field m)) _ _
        (payload-IsQuiet (not (is_undefined (awareness_payload m))) (payload m)) (tt, tt)

  restore-IsQuiet : (s : Session lib) (o : Option lib.Presence) → All IsQuiet (restore_calls s o)
  restore-IsQuiet s none = tt
  restore-IsQuiet s (some state) = by_awareness s.awareness
    where
      by_awareness :
          (o : Option lib.Awareness)
          → All IsQuiet (elim o [
            | none ↦ []
            | some a ↦ if has_local_state lib a then [] else SessionCall.presents (some state) ∷ []
          ])
      by_awareness none = tt
      by_awareness (some a) = if-IsQuiet (has_local_state lib a) [] _ tt (tt, tt)

module _ {lib : Packages} where
  -- What the call makes the queue send.
  abbrev pub call_sends : Provider lib → ProviderCall lib → List Sent
  call_sends p c =
      (run lib.merge_updates p.session.delivery
        (history lib p.session.doc_listening (session_calls p c))).1

  abbrev Carries : Provider lib → List (SessionCall lib) → List Effect → Type 0
  Carries p cs out =
      numbered_sends out
      ≡ encoded (carried p.subscription (tagged (session_run lib p.session cs).1))

  -- One call of the session, whose output goes out as it is.
  Carries-one :
      (p q : Provider lib) (c : SessionCall lib) (out : List Effect)
      → q.subscription ≡ p.subscription
      → numbered_sends out ≡ numbered_sends (apply q (session_step lib p.session c)).1
      → Carries p (c ∷ []) out
  unfolding session_run
  Carries-one p q c out o e = rw (append-nil (session_step lib p.session c).1) (
      e
      ∙ apply-carried q (session_step lib p.session c)
      ∙ ap (λ s. encoded (carried s (tagged (session_step lib p.session c).1))) o)

  Carries-none :
      (p : Provider lib) (cs : List (SessionCall lib)) (out : List Effect)
      → numbered_sends out ≡ []
      → All (IsQuiet lib) cs
      → Carries p cs out
  Carries-none p cs out e h =
      e ∙ ap (λ ts. encoded (carried p.subscription ts)) (sym (tagged-quiet lib p.session cs h))

  on_connected-Carries :
      (p : Provider lib) → Carries p (SessionCall.connects ∷ []) (Provider.on_connected p).1
  unfolding Provider.on_connected session_step
  on_connected-Carries p =
      let q = record p { connected = true } in
      Carries-one p q SessionCall.connects (Provider.on_connected p).1 refl (
        then-Unnumbered (apply q (Session.on_connect lib q.session)) refresh_status
          refresh_status-Unnumbered)

  pub rejected-Unnumbered : (p : Provider lib) → Unnumbered (Provider.on_rejected p)
  unfolding Provider.on_rejected
  rejected-Unnumbered p = disconnect-Unnumbered p

  Unnumbered-Carries :
      (p : Provider lib) (c : ProviderCall lib)
      → Unnumbered (provider_step p c)
      → All (IsQuiet lib) (session_calls p c)
      → Carries p (session_calls p c) (provider_step p c).1
  Unnumbered-Carries p c e h = Carries-none p (session_calls p c) (provider_step p c).1 e h

  step-Carries :
      (p : Provider lib) (c : ProviderCall lib)
      → c ≢ ProviderCall.destroys
      → Carries p (session_calls p c) (provider_step p c).1
  unfolding provider_step
  step-Carries p ProviderCall.cable_connected n = on_connected-Carries p
  step-Carries p ProviderCall.ticks n =
      unfold Provider.tick session_step in
      Carries-one p p SessionCall.ticks (Provider.tick p).1 refl refl
  step-Carries p (ProviderCall.edits r) n =
      unfold Provider.edit session_step in
      Carries-one p p (SessionCall.edits r) (Provider.edit p r).1 refl refl
  step-Carries p ProviderCall.destroys n = absurd (n refl)
  step-Carries p (ProviderCall.connects sub) n =
      Unnumbered-Carries p (ProviderCall.connects sub) (connect-Unnumbered p sub) tt
  step-Carries p ProviderCall.cable_disconnected n =
      Unnumbered-Carries p ProviderCall.cable_disconnected (on_disconnected-Unnumbered p) (tt, tt)
  step-Carries p ProviderCall.cable_rejected n =
      Unnumbered-Carries p ProviderCall.cable_rejected (rejected-Unnumbered p)
        (teardown-IsQuiet lib p.subscription)
  step-Carries p (ProviderCall.cable_received m) n =
      Unnumbered-Carries p (ProviderCall.cable_received m) (received-Unnumbered p m)
        (message-IsQuiet lib m)
  step-Carries p ProviderCall.disconnects n =
      Unnumbered-Carries p ProviderCall.disconnects (disconnect-Unnumbered p)
        (teardown-IsQuiet lib p.subscription)
  step-Carries p ProviderCall.page_hides n =
      Unnumbered-Carries p ProviderCall.page_hides (page_hidden-Unnumbered p)
        (if-IsQuiet lib p.on_unload _ [] (tt, tt) tt)
  step-Carries p (ProviderCall.page_shows persisted) n =
      Unnumbered-Carries p (ProviderCall.page_shows persisted) (page_shown-Unnumbered p persisted) (
        if-IsQuiet lib (not p.on_restore || not persisted) [] _ tt
          (restore-IsQuiet lib p.session p.stashed_presence))
  step-Carries p ProviderCall.turn_ends n =
      Unnumbered-Carries p ProviderCall.turn_ends (run_tasks-Unnumbered p) tt
  step-Carries p (ProviderCall.listens l) n = Unnumbered-Carries p (ProviderCall.listens l) refl tt
  step-Carries p (ProviderCall.unlistens l) n =
      Unnumbered-Carries p (ProviderCall.unlistens l) refl tt
  step-Carries p (ProviderCall.presents state) n =
      Unnumbered-Carries p (ProviderCall.presents state) (set_presence-Unnumbered p state) (tt, tt)
  step-Carries p (ProviderCall.restores update) n =
      Unnumbered-Carries p (ProviderCall.restores update) (apply_remote_update-Unnumbered p update)
        (tt, tt)

  -- The numbered envelopes of a call are the framed deltas that the queue sends in it, as far as the
  -- subscription takes them.
  pub step-carried :
      (p : Provider lib) (c : ProviderCall lib)
      → c ≢ ProviderCall.destroys
      → numbered_sends (provider_step p c).1
        ≡ encoded (carried p.subscription (frames_of lib (call_sends p c)))
  step-carried p c n =
      step-Carries p c n
      ∙ ap (λ ts. encoded (carried p.subscription ts))
          (session_run-Drives lib p.session (session_calls p c)).1
