-- ===== src/Provider/Delivery.antt =====
-- Whole histories of a provider of actioncable_provider.ts: what becomes of the application's edits.
use mathlib.Core.Path.{ap₂}
use y_ruby.Reliable.Delivery.{numbered, Kept}
use y_ruby.Base.{
  [], ◌∷◌, ◌++◌, Bool, Option, List, Bytes, refl, ◌≡◌, ◌≢◌, ap, ◌∙◌, sym, append_assoc, append-nil,
  if◌then◌else◌, true, not, false, some, ◌+◌, ◌||◌, ◌&&◌, none, length, ◌≤◌,
}
use y_ruby.Session.Queue.{session_run, SessionCall, session_step}
use y_ruby.External.{Packages}
use y_ruby.Provider.Calls.{provider_run, ProviderCall, provider_step}
use y_ruby.Transport.{Provider}
use y_ruby.Session.{Session, has_local_state}
use y_ruby.Provider.Driven.{
  session_calls, Follows, provider_step-Follows, restore_calls, frame_calls, payload_calls,
  teardown_calls, message_calls,
}
use y_ruby.Session.Runs.{Alive, local_updates, history, session_run-Kept}
use y_ruby.Cable.{
  CableMessage, CableSubscription, is_undefined, is_awareness_frame, ack_field, awareness_payload,
  payload,
}
use y_ruby.Number.{Value, exact_limit}
use y_ruby.Base64.{from_base64}
use y_ruby.Reliable.Order.{Ascending}

session_run-append :
    (lib : Packages) (s : Session lib) (xs ys : List (SessionCall lib))
    → (session_run lib s (xs ++ ys)).0 ≡ (session_run lib (session_run lib s xs).0 ys).0
unfolding session_run
session_run-append lib s [] ys = refl
session_run-append lib s (x ∷ xs) ys = session_run-append lib (session_step lib s x).0 xs ys

local_updates-append :
    (lib : Packages) (xs ys : List (SessionCall lib))
    → local_updates lib (xs ++ ys) ≡ local_updates lib xs ++ local_updates lib ys
local_updates-append lib [] ys = refl
local_updates-append lib (SessionCall.edits r ∷ xs) ys =
    ap (λ us. r.events ++ us) (local_updates-append lib xs ys)
    ∙ sym (append_assoc r.events (local_updates lib xs) (local_updates lib ys))
local_updates-append lib (SessionCall.connects ∷ xs) ys = local_updates-append lib xs ys
local_updates-append lib (_ ∷ xs) ys = local_updates-append lib xs ys

Alive-append :
    (lib : Packages) (xs ys : List (SessionCall lib))
    → Alive lib xs
    → Alive lib ys
    → Alive lib (xs ++ ys)
Alive-append lib [] ys a b = b
Alive-append lib (x ∷ xs) ys a b = (a.0, Alive-append lib xs ys a.1 b)

module _ (lib : Packages) where
  -- No edit and no teardown.
  abbrev Harmless : List (SessionCall lib) → Type 0
  Harmless cs = (local_updates lib cs ≡ []) × Alive lib cs

  if-Harmless :
      (b : Bool) (xs ys : List (SessionCall lib))
      → Harmless xs
      → Harmless ys
      → Harmless (if b then xs else ys)
  if-Harmless true xs ys h k = h
  if-Harmless false xs ys h k = k

  teardown_calls-Harmless : (o : Option CableSubscription) → Harmless (teardown_calls {lib = lib} o)
  teardown_calls-Harmless none = (refl, tt)
  teardown_calls-Harmless (some sub) = (refl, ((λ e. cc), ((λ e. cc), tt)))

  frame_calls-Harmless :
      (only : Bool) (frame : Option Bytes) → Harmless (frame_calls {lib = lib} only frame)
  frame_calls-Harmless only none = (refl, tt)
  frame_calls-Harmless only (some frame) =
      if-Harmless (only && not (is_awareness_frame frame)) [] (SessionCall.receives frame ∷ [])
        (refl, tt) (refl, ((λ e. cc), tt))

  payload_calls-Harmless : (only : Bool) (v : Value) → Harmless (payload_calls {lib = lib} only v)
  payload_calls-Harmless only (Value.text t) = frame_calls-Harmless only (from_base64 t)
  payload_calls-Harmless only _ = (refl, tt)

  message_calls-Harmless : (m : CableMessage) → Harmless (message_calls {lib = lib} m)
  message_calls-Harmless m =
      if-Harmless (is_undefined (ack_field m)) _ _
        (payload_calls-Harmless (not (is_undefined (awareness_payload m))) (payload m))
        (refl, ((λ e. cc), tt))

  restore_calls-Harmless :
      (s : Session lib) (o : Option lib.Presence) → Harmless (restore_calls s o)
  restore_calls-Harmless s none = (refl, tt)
  restore_calls-Harmless s (some state) = by_awareness s.awareness
    where
      by_awareness :
          (o : Option lib.Awareness)
          → Harmless (elim o [
            | none ↦ []
            | some a ↦ if has_local_state lib a then [] else SessionCall.presents (some state) ∷ []
          ])
      by_awareness none = (refl, tt)
      by_awareness (some a) =
          if-Harmless (has_local_state lib a) [] _ (refl, tt) (refl, ((λ e. cc), tt))

module _ {lib : Packages} where
  -- What a history of the provider is to its session.
  abbrev pub provider_history : Provider lib → List (ProviderCall lib) → List (SessionCall lib)
  provider_history p [] = []
  provider_history p (c ∷ cs) = session_calls p c ++ provider_history (provider_step p c).0 cs

  -- The updates that the application's edits put out.
  abbrev pub own_updates : ProviderCall lib → List Bytes
  own_updates (ProviderCall.edits r) = r.events
  own_updates _ = []

  abbrev pub application_updates : List (ProviderCall lib) → List Bytes
  application_updates [] = []
  application_updates (c ∷ cs) = own_updates c ++ application_updates cs

  abbrev pub Undestroyed : List (ProviderCall lib) → Type 0
  Undestroyed [] = Unit {0}
  Undestroyed (c ∷ cs) = (c ≢ ProviderCall.destroys) × Undestroyed cs

  -- A provider adds nothing of its own to its session and withholds nothing from it: over any history
  -- without `destroy`, the session goes through the calls that the history comes to.
  pub provider_run-Follows :
      (p : Provider lib) (cs : List (ProviderCall lib))
      → Undestroyed cs
      → Follows p (provider_history p cs) (provider_run p cs).0
  unfolding provider_run
  provider_run-Follows p [] u = unfold session_run in refl
  provider_run-Follows p (c ∷ cs) u =
      let q = (provider_step p c).0 in
      provider_run-Follows q cs u.1
      ∙ ap (λ s. (session_run lib s (provider_history q cs)).0) (provider_step-Follows p c u.0)
      ∙ sym (session_run-append lib p.session (session_calls p c) (provider_history q cs))

  -- The only edits of a call are the application's own, and only `destroy` tears down.
  step-own :
      (p : Provider lib) (c : ProviderCall lib)
      → c ≢ ProviderCall.destroys
      → (local_updates lib (session_calls p c) ≡ own_updates c) × Alive lib (session_calls p c)
  step-own p (ProviderCall.edits r) n = (append-nil r.events, ((λ e. cc), tt))
  step-own p (ProviderCall.connects sub) n = (refl, tt)
  step-own p ProviderCall.cable_connected n = (refl, ((λ e. cc), tt))
  step-own p ProviderCall.cable_disconnected n = (refl, ((λ e. cc), tt))
  step-own p ProviderCall.cable_rejected n = teardown_calls-Harmless lib p.subscription
  step-own p (ProviderCall.cable_received m) n = message_calls-Harmless lib m
  step-own p ProviderCall.disconnects n = teardown_calls-Harmless lib p.subscription
  step-own p ProviderCall.destroys n = absurd (n refl)
  step-own p ProviderCall.page_hides n =
      if-Harmless lib p.on_unload _ [] (refl, ((λ e. cc), tt)) (refl, tt)
  step-own p (ProviderCall.page_shows persisted) n =
      if-Harmless lib (not p.on_restore || not persisted) [] _ (refl, tt)
        (restore_calls-Harmless lib p.session p.stashed_presence)
  step-own p ProviderCall.ticks n = (refl, ((λ e. cc), tt))
  step-own p ProviderCall.turn_ends n = (refl, tt)
  step-own p (ProviderCall.listens l) n = (refl, tt)
  step-own p (ProviderCall.unlistens l) n = (refl, tt)
  step-own p (ProviderCall.presents state) n = (refl, ((λ e. cc), tt))
  step-own p (ProviderCall.restores update) n = (refl, ((λ e. cc), tt))

  pub history-own :
      (p : Provider lib) (cs : List (ProviderCall lib))
      → Undestroyed cs
      → (local_updates lib (provider_history p cs) ≡ application_updates cs)
        × Alive lib (provider_history p cs)
  history-own p [] u = (refl, tt)
  history-own p (c ∷ cs) u =
      let q = (provider_step p c).0 in
      let one = step-own p c u.0 in
      let rest = history-own q cs u.1 in
      (
        local_updates-append lib (session_calls p c) (provider_history q cs)
            ∙ ap₂ ◌++◌ one.0 rest.0,
        Alive-append lib (session_calls p c) (provider_history q cs) one.1 rest.1,
      )

  -- No edit of the application is lost on the way to the server. Over any history of a listening
  -- provider, of connections, drops, rejections, teardowns and page events, without `destroy` and
  -- within the exact integers, the queue at the start followed by the updates of the application's
  -- edits is some updates, each reached by an acknowledgement that arrived in the history, followed by
  -- the queue at the end.
  pub provider_run-Kept :
      (p : Provider lib) (cs : List (ProviderCall lib))
      → p.session.doc_listening ≡ true
      → Undestroyed cs
      → p.session.delivery.next_seq + length (history lib true (provider_history p cs))
        ≤ exact_limit
      → Ascending 1 p.session.delivery.pending p.session.delivery.next_seq
      → Kept
          (p.session.delivery.pending
            ++ numbered p.session.delivery.next_seq (application_updates cs))
          (provider_run p cs).0.session.delivery.pending
          (history lib true (provider_history p cs))
  provider_run-Kept p cs l u b a =
      let own = history-own p cs u in
      rw (provider_run-Follows p cs u, ← own.0)
        (session_run-Kept lib p.session (provider_history p cs) l own.1 b a)
