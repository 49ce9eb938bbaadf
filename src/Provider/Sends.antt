-- ===== src/Provider/Sends.antt =====
-- What a provider of actioncable_provider.ts puts on the cable under a number, over a history.
use mathlib.Core.Path.{ap₂}
use mathlib.Core.List.{Sublistᴰ}
use mathlib.Core.List.{map-append}
use y_ruby.Base.{
  ℕ, Bytes, List, [], ◌∷◌, ◌++◌, ◌≡◌, ◌≢◌, refl, ap, sym, subst, ◌∙◌, append-nil, true,
  append_assoc,
}
use y_ruby.External.{Packages}
use y_ruby.Provider
use y_ruby.Session
use y_ruby.Reliable.{Sent, run}
use y_ruby.Session.{Session, Output}
use y_ruby.Session.Queue.{SessionCall, session_run, session_step, tagged, tagged-append, frames_of}
use y_ruby.Session.Runs.{session_run-Drives, history}
use y_ruby.Transport.{Provider, apply, refresh_status}
use y_ruby.Transport.Frames.{numbered_sends, numbered_sends-append, encoded}
use y_ruby.Transport.Wire.{
  carried, Unnumbered, nil-Sublist, Sublist-append, apply-Sublist, then-Unnumbered,
  refresh_status-Unnumbered,
}
use y_ruby.Provider.Calls.{ProviderCall, provider_step, provider_run}
use y_ruby.Provider.Driven.{session_calls, provider_step-Follows}
use y_ruby.Provider.Carried.{call_sends, step-carried, rejected-Unnumbered}
use y_ruby.Provider.Delivery.{provider_history, Undestroyed}
use y_ruby.Provider.Quiet.{
  connect-Unnumbered, on_disconnected-Unnumbered, disconnect-Unnumbered, received-Unnumbered,
  page_hidden-Unnumbered, page_shown-Unnumbered, run_tasks-Unnumbered, set_presence-Unnumbered,
  apply_remote_update-Unnumbered,
}
use y_ruby.Cable.{Effect}

encoded-append :
    (lib : Packages) (xs ys : List Output)
    → encoded (tagged (xs ++ ys)) ≡ encoded (tagged xs) ++ encoded (tagged ys)
encoded-append lib xs ys =
    ap encoded (tagged-append lib xs ys) ∙ map-append _ (tagged xs) (tagged ys)

module _ {lib : Packages} where
  -- What goes on the cable under a number is part of what the session numbers, in order.
  abbrev Numbers : Session lib → List (SessionCall lib) → List Effect → Type 0
  Numbers s cs out = Sublistᴰ (numbered_sends out) (encoded (tagged (session_run lib s cs).1))

  Numbers-none :
      (s : Session lib) (cs : List (SessionCall lib)) (out : List Effect)
      → numbered_sends out ≡ []
      → Numbers s cs out
  Numbers-none s cs out e = rw e (nil-Sublist (encoded (tagged (session_run lib s cs).1)))

  -- One call of the session, whose output goes out as it is.
  Numbers-one :
      (s : Session lib) (c : SessionCall lib) (p : Provider lib) (out : List Effect)
      → numbered_sends out ≡ numbered_sends (apply p (session_step lib s c)).1
      → Numbers s (c ∷ []) out
  unfolding session_run
  Numbers-one s c p out e =
      rw (e, append-nil (session_step lib s c).1) (apply-Sublist p (session_step lib s c))

  on_connected-Numbers :
      (p : Provider lib) → Numbers p.session (SessionCall.connects ∷ []) (Provider.on_connected p).1
  unfolding Provider.on_connected session_step
  on_connected-Numbers p =
      let q = record p { connected = true } in
      Numbers-one p.session SessionCall.connects q (Provider.on_connected p).1 (
        then-Unnumbered (apply q (Session.on_connect lib q.session)) refresh_status
          refresh_status-Unnumbered)

  Unnumbered-Numbers :
      (p : Provider lib) (c : ProviderCall lib)
      → Unnumbered (provider_step p c)
      → Numbers p.session (session_calls p c) (provider_step p c).1
  Unnumbered-Numbers p c e = Numbers-none p.session (session_calls p c) (provider_step p c).1 e

  step-Numbers :
      (p : Provider lib) (c : ProviderCall lib)
      → c ≢ ProviderCall.destroys
      → Numbers p.session (session_calls p c) (provider_step p c).1
  unfolding provider_step
  step-Numbers p ProviderCall.cable_connected n = on_connected-Numbers p
  step-Numbers p ProviderCall.ticks n =
      unfold Provider.tick session_step in
      Numbers-one p.session SessionCall.ticks p (Provider.tick p).1 refl
  step-Numbers p (ProviderCall.edits r) n =
      unfold Provider.edit session_step in
      Numbers-one p.session (SessionCall.edits r) p (Provider.edit p r).1 refl
  step-Numbers p ProviderCall.destroys n = absurd (n refl)
  step-Numbers p (ProviderCall.connects sub) n =
      Unnumbered-Numbers p (ProviderCall.connects sub) (connect-Unnumbered p sub)
  step-Numbers p ProviderCall.cable_disconnected n =
      Unnumbered-Numbers p ProviderCall.cable_disconnected (on_disconnected-Unnumbered p)
  step-Numbers p ProviderCall.cable_rejected n =
      Unnumbered-Numbers p ProviderCall.cable_rejected (rejected-Unnumbered p)
  step-Numbers p (ProviderCall.cable_received m) n =
      Unnumbered-Numbers p (ProviderCall.cable_received m) (received-Unnumbered p m)
  step-Numbers p ProviderCall.disconnects n =
      Unnumbered-Numbers p ProviderCall.disconnects (disconnect-Unnumbered p)
  step-Numbers p ProviderCall.page_hides n =
      Unnumbered-Numbers p ProviderCall.page_hides (page_hidden-Unnumbered p)
  step-Numbers p (ProviderCall.page_shows persisted) n =
      Unnumbered-Numbers p (ProviderCall.page_shows persisted) (page_shown-Unnumbered p persisted)
  step-Numbers p ProviderCall.turn_ends n =
      Unnumbered-Numbers p ProviderCall.turn_ends (run_tasks-Unnumbered p)
  step-Numbers p (ProviderCall.listens l) n = Unnumbered-Numbers p (ProviderCall.listens l) refl
  step-Numbers p (ProviderCall.unlistens l) n = Unnumbered-Numbers p (ProviderCall.unlistens l) refl
  step-Numbers p (ProviderCall.presents state) n =
      Unnumbered-Numbers p (ProviderCall.presents state) (set_presence-Unnumbered p state)
  step-Numbers p (ProviderCall.restores update) n =
      Unnumbered-Numbers p (ProviderCall.restores update) (apply_remote_update-Unnumbered p update)

  outputs-append :
      (s : Session lib) (xs ys : List (SessionCall lib))
      → (session_run lib s (xs ++ ys)).1
        ≡ (session_run lib s xs).1 ++ (session_run lib (session_run lib s xs).0 ys).1
  unfolding session_run
  outputs-append s [] ys = refl
  outputs-append s (x ∷ xs) ys =
      let (t, out) = session_step lib s x in
      ap (λ l. out ++ l) (outputs-append t xs ys)
      ∙ sym (
          append_assoc out (session_run lib t xs).1 (session_run lib (session_run lib t xs).0 ys).1)

  Numbers-append :
      (s : Session lib) (xs ys : List (SessionCall lib)) (out later : List Effect)
      → Numbers s xs out
      → Numbers (session_run lib s xs).0 ys later
      → Numbers s (xs ++ ys) (out ++ later)
  Numbers-append s xs ys out later a b =
      let t = (session_run lib s xs).0 in
      rw
        (
          numbered_sends-append out later,
          outputs-append s xs ys,
          encoded-append lib (session_run lib s xs).1 (session_run lib t ys).1,
        )
        (Sublist-append a b)

  run-Numbers :
      (p : Provider lib) (cs : List (ProviderCall lib))
      → Undestroyed cs
      → Numbers p.session (provider_history p cs) (provider_run p cs).1
  unfolding provider_run
  run-Numbers p [] u = nil-Sublist _
  run-Numbers p (c ∷ cs) u =
      let (q, out) = provider_step p c in
      Numbers-append p.session (session_calls p c) (provider_history q cs) out (provider_run q cs).1
        (step-Numbers p c u.0)
        (subst (λ s. Numbers s (provider_history q cs) (provider_run q cs).1)
          (provider_step-Follows p c u.0) (run-Numbers q cs u.1))

  -- What the queue of a session sends over a history.
  abbrev pub queue_sends : Session lib → List (SessionCall lib) → List Sent
  queue_sends s cs = (run lib.merge_updates s.delivery (history lib true cs)).1

  -- The frames of a history that find a subscription which takes them, each with the number of its delta:
  -- call by call, those of the deltas that the queue sends, through the subscription of that moment.
  abbrev pub cable_frames : Provider lib → List (ProviderCall lib) → List (Bytes × ℕ)
  cable_frames p [] = []
  cable_frames p (c ∷ cs) =
      carried p.subscription (frames_of lib (call_sends p c))
      ++ cable_frames (provider_step p c).0 cs

  run-carried :
      (p : Provider lib) (cs : List (ProviderCall lib))
      → Undestroyed cs
      → numbered_sends (provider_run p cs).1 ≡ encoded (cable_frames p cs)
  unfolding provider_run
  run-carried p [] u = refl
  run-carried p (c ∷ cs) u =
      let (q, out) = provider_step p c in
      numbered_sends-append out (provider_run q cs).1
      ∙ ap₂ ◌++◌ (step-carried p c u.0) (run-carried q cs u.1)
      ∙ sym (
          map-append _ (carried p.subscription (frames_of lib (call_sends p c)))
            (cable_frames q cs))

  -- The numbered envelopes on the cable are deltas of the queue, and none is missing. Over any history
  -- of a listening provider without `destroy`, the numbered envelopes that it puts on the cable are
  -- exactly the encoded frames of the deltas that its queue sends while there is a subscription which
  -- takes them, each under its number and in order; a subscription takes all frames but the awareness
  -- frames that it can whisper. So they are a sublist of the frames of all that the queue sends.
  pub provider_run_sends :
      (p : Provider lib) (cs : List (ProviderCall lib))
      → p.session.doc_listening ≡ true
      → Undestroyed cs
      → (numbered_sends (provider_run p cs).1 ≡ encoded (cable_frames p cs))
        × Sublistᴰ
            (numbered_sends (provider_run p cs).1)
            (encoded (frames_of lib (queue_sends p.session (provider_history p cs))))
  provider_run_sends p cs l u =
      let frames =
        subst
          (λ listening.
            tagged (session_run lib p.session (provider_history p cs)).1
            ≡ frames_of lib
                (run lib.merge_updates p.session.delivery
                  (history lib listening (provider_history p cs))).1)
          l (session_run-Drives lib p.session (provider_history p cs)).1 in
      (
        run-carried p cs u,
        subst (λ t. Sublistᴰ (numbered_sends (provider_run p cs).1) (encoded t)) frames
            (run-Numbers p cs u),
      )
