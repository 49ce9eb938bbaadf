-- ===== src/Transport/Wire.antt =====
-- The numbered envelopes that a provider of actioncable_provider.ts puts on the cable.
use mathlib.Core.Path.{ap₂}
use mathlib.Core.List.{Sublistᴰ}
use mathlib.Core.List.Sublistᴰ.{slnil, cons, cons-cons}
use y_ruby.Base.{
  ℕ, Bool, Option, true, false, not, sym, if◌then◌else◌, none, some, List, [], ◌∷◌, ◌++◌, Bytes,
  refl, ◌≡◌, ◌∙◌, arith, ap, subst, append-nil, Bool-cases, inl, inr, Option-cases,
}
use y_ruby.External.{Packages}
use y_ruby.Session.{Session, Output, sends, reports}
use y_ruby.Session.Queue.{tagged}
use y_ruby.Transport.{Provider, send_frame, emit, apply, refresh_status, compute_status, ◌then◌}
use y_ruby.Transport.Frames.{
  numbered_sends, encoded, numbered_sends-append, send_frame-unnumbered, send_frame-numbered,
  send_frame-OnlyTasks,
}
use y_ruby.Cable.{
  CableSubscription, Effect, Task, ProviderStatus, notify, run_all, unsubscribe, report_send,
  is_awareness_frame,
}

pub nil-Sublist : {A : Type 0} (xs : List A) → Sublistᴰ [] xs
nil-Sublist [] = slnil
nil-Sublist (x ∷ xs) = cons (nil-Sublist xs)

pub Sublist-append :
    {A : Type 0} {xs ys zs ws : List A}
    → Sublistᴰ xs ys
    → Sublistᴰ zs ws
    → Sublistᴰ (xs ++ zs) (ys ++ ws)
Sublist-append slnil t = t
Sublist-append (cons s) t = cons (Sublist-append s t)
Sublist-append (cons-cons e s) t = cons-cons e (Sublist-append s t)

-- A subscription takes a frame under its id, but for an awareness frame that it can whisper instead.
abbrev pub takes : Option CableSubscription → Bytes → Bool
takes none frame = false
takes (some sub) frame = elim sub.whisper [
  | none ↦ true
  | some whisper ↦ not (is_awareness_frame frame)
]

abbrev pub carried : Option CableSubscription → List (Bytes × ℕ) → List (Bytes × ℕ)
carried o [] = []
carried o ((frame, id) ∷ ts) = if takes o frame then (frame, id) ∷ carried o ts else carried o ts

carried-cons :
    (o : Option CableSubscription) (t : Bytes × ℕ) (ts : List (Bytes × ℕ))
    → encoded (carried o (t ∷ [])) ++ encoded (carried o ts) ≡ encoded (carried o (t ∷ ts))
carried-cons o (frame, id) ts = ground arith

carried-Sublist :
    (o : Option CableSubscription) (ts : List (Bytes × ℕ))
    → Sublistᴰ (encoded (carried o ts)) (encoded ts)
carried-Sublist o [] = slnil
carried-Sublist o ((frame, id) ∷ ts) = elim (Bool-cases (takes o frame)) [
  | inl e ↦ rw e (cons-cons refl (carried-Sublist o ts))
  | inr e ↦ rw e (cons (carried-Sublist o ts))
]

pub numbered_sends-notify :
    (ls : List ℕ) (status : ProviderStatus) → numbered_sends (notify ls status) ≡ []
unfolding notify
numbered_sends-notify [] status = refl
numbered_sends-notify (l ∷ ls) status = numbered_sends-notify ls status

pub numbered_sends-run_all : (ts : List Task) → numbered_sends (run_all ts) ≡ []
unfolding run_all
numbered_sends-run_all [] = refl
numbered_sends-run_all (report_send ∷ ts) = numbered_sends-run_all ts
numbered_sends-run_all (unsubscribe sub ∷ ts) = ground (arith, numbered_sends-run_all ts)

module _ {lib : Packages} where
  -- No numbered envelope among these effects.
  abbrev pub Unnumbered : Provider lib × List Effect → Type 0
  Unnumbered r = numbered_sends r.1 ≡ []

  send_frame-subscription :
      (p : Provider lib) (frame : Bytes) (id : Option ℕ)
      → (send_frame p frame id).0.subscription ≡ p.subscription
  send_frame-subscription p frame id = ap Provider.subscription (send_frame-OnlyTasks p frame id)

  send_frame-carried :
      (p : Provider lib) (frame : Bytes) (id : ℕ)
      → numbered_sends (send_frame p frame (some id)).1
        ≡ encoded (carried p.subscription ((frame, id) ∷ []))
  send_frame-carried p frame id = elim (Option-cases p.subscription) [
    | inl e ↦ unfold send_frame in ground arith
    | inr (sub, e) ↦ elim (Bool-cases (is_awareness_frame frame)) [
      | inl t ↦ elim (Option-cases sub.whisper) [
        | inl w ↦ unfold send_frame in ground arith
        | inr (whisper, w) ↦ unfold send_frame in ground arith
      ]
      | inr f ↦ ground (arith, send_frame-numbered p sub frame id e f)
    ]
  ]

  -- What goes out under an id is what the subscription carries of the output, in order.
  pub emit-carried :
      (p : Provider lib) (outs : List Output)
      → numbered_sends (emit p outs).1 ≡ encoded (carried p.subscription (tagged outs))
  unfolding emit
  emit-carried p [] = refl
  emit-carried p (reports ∷ outs) = emit-carried p outs
  emit-carried p (sends frame none ∷ outs) =
      let (q, out) = send_frame p frame none in
      numbered_sends-append out (emit q outs).1
      ∙ ap (λ l. l ++ numbered_sends (emit q outs).1) (send_frame-unnumbered p frame)
      ∙ emit-carried q outs
      ∙ ap (λ o. encoded (carried o (tagged outs))) (send_frame-subscription p frame none)
  emit-carried p (sends frame (some id) ∷ outs) =
      let (q, out) = send_frame p frame (some id) in
      numbered_sends-append out (emit q outs).1
      ∙ ap₂ ◌++◌ (send_frame-carried p frame id) (
          emit-carried q outs
          ∙ ap (λ o. encoded (carried o (tagged outs))) (send_frame-subscription p frame (some id)))
      ∙ carried-cons p.subscription (frame, id) (tagged outs)

  pub apply-carried :
      (p : Provider lib) (r : Session lib × List Output)
      → numbered_sends (apply p r).1 ≡ encoded (carried p.subscription (tagged r.1))
  unfolding apply
  apply-carried p r = emit-carried (record p { session = r.0 }) r.1

  pub apply-Sublist :
      (p : Provider lib) (r : Session lib × List Output)
      → Sublistᴰ (numbered_sends (apply p r).1) (encoded (tagged r.1))
  apply-Sublist p r =
      subst (λ l. Sublistᴰ l (encoded (tagged r.1))) (sym (apply-carried p r))
        (carried-Sublist p.subscription (tagged r.1))

  pub apply-Unnumbered :
      (p : Provider lib) (r : Session lib × List Output) → tagged r.1 ≡ [] → Unnumbered (apply p r)
  apply-Unnumbered p r e = apply-carried p r ∙ ap (λ ts. encoded (carried p.subscription ts)) e

  pub refresh_status-Unnumbered : (p : Provider lib) → Unnumbered (refresh_status p)
  unfolding refresh_status
  refresh_status-Unnumbered p = ground (arith, numbered_sends-notify p.listeners (compute_status p))

  pub then-Unnumbered :
      (r : Provider lib × List Effect) (f : Provider lib → Provider lib × List Effect)
      → ((q : Provider lib) → Unnumbered (f q))
      → numbered_sends (r then f).1 ≡ numbered_sends r.1
  unfolding ◌then◌
  then-Unnumbered r f h =
      numbered_sends-append r.1 (f r.0).1
      ∙ ap (λ l. numbered_sends r.1 ++ l) (h r.0)
      ∙ append-nil (numbered_sends r.1)
