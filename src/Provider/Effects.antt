-- ===== src/Provider/Effects.antt =====
-- The effects of a provider of actioncable_provider.ts that stay off the cable.
use y_ruby.Base.{ℕ, [], ◌∷◌, ◌++◌, Option, List, Bytes, arith, ◌≡◌, none, refl}
use y_ruby.Cable.{
  notify, Effect, run_all, ProviderStatus, sent, Task, unsubscribe, whispered, unsubscribed,
  notified, failed, report_send,
}
use y_ruby.External.{Packages}
use y_ruby.Transport.{emit, refresh_status, send_frame, Provider, compute_status}
use y_ruby.Session.{Output, sends, reports}

-- No call of `send` or `whisper`.
abbrev pub OffCable : List Effect → Type 0
OffCable [] = Unit {0}
OffCable (sent name e ∷ out) = ⊥
OffCable (whispered name e ∷ out) = ⊥
OffCable (unsubscribed name ∷ out) = OffCable out
OffCable (notified l status ∷ out) = OffCable out
OffCable (failed context ∷ out) = OffCable out

pub OffCable-append : (xs ys : List Effect) → OffCable xs → OffCable ys → OffCable (xs ++ ys)
OffCable-append [] ys h k = k
OffCable-append (sent name e ∷ xs) ys h k = absurd h
OffCable-append (whispered name e ∷ xs) ys h k = absurd h
OffCable-append (unsubscribed name ∷ xs) ys h k = OffCable-append xs ys h k
OffCable-append (notified l status ∷ xs) ys h k = OffCable-append xs ys h k
OffCable-append (failed context ∷ xs) ys h k = OffCable-append xs ys h k

pub notify-OffCable : (ls : List ℕ) (status : ProviderStatus) → OffCable (notify ls status)
unfolding notify
notify-OffCable [] status = tt
notify-OffCable (l ∷ ls) status = notify-OffCable ls status

pub run_all-OffCable : (ts : List Task) → OffCable (run_all ts)
unfolding run_all
run_all-OffCable [] = tt
run_all-OffCable (report_send ∷ ts) = run_all-OffCable ts
run_all-OffCable (unsubscribe sub ∷ ts) = ground (arith, run_all-OffCable ts)

-- The subscriptions whose `unsubscribe` was called, by their names.
abbrev pub released : List Effect → List ℕ
released [] = []
released (unsubscribed name ∷ out) = name ∷ released out
released (sent name e ∷ out) = released out
released (whispered name e ∷ out) = released out
released (notified l status ∷ out) = released out
released (failed context ∷ out) = released out

-- Those whose `unsubscribe` waits among the microtasks.
abbrev pub waiting : List Task → List ℕ
waiting ts = released (run_all ts)

pub released-append : (xs ys : List Effect) → released (xs ++ ys) ≡ released xs ++ released ys
released-append [] ys = refl
released-append (unsubscribed name ∷ xs) ys = rw (released-append xs ys)
released-append (sent name e ∷ xs) ys = released-append xs ys
released-append (whispered name e ∷ xs) ys = released-append xs ys
released-append (notified l status ∷ xs) ys = released-append xs ys
released-append (failed context ∷ xs) ys = released-append xs ys

pub released-notify : (ls : List ℕ) (status : ProviderStatus) → released (notify ls status) ≡ []
unfolding notify
released-notify [] status = refl
released-notify (l ∷ ls) status = released-notify ls status

module _ {lib : Packages} where
  pub send_frame-unsubscribed :
      (p : Provider lib) (frame : Bytes) (id : Option ℕ)
      → p.subscription ≡ none
      → send_frame p frame id ≡ (p, [])
  unfolding send_frame
  send_frame-unsubscribed p frame id e = ground arith

  pub emit-OffCable :
      (p : Provider lib) (outs : List Output) → p.subscription ≡ none → OffCable (emit p outs).1
  unfolding emit
  emit-OffCable p [] e = tt
  emit-OffCable p (reports ∷ outs) e = emit-OffCable p outs e
  emit-OffCable p (sends frame id ∷ outs) e =
      rw (send_frame-unsubscribed p frame id e) (emit-OffCable p outs e)

  pub refresh_status-OffCable : (p : Provider lib) → OffCable (refresh_status p).1
  unfolding refresh_status
  refresh_status-OffCable p = ground (arith, notify-OffCable p.listeners (compute_status p))

  -- Without a subscription nothing is released, and the microtasks stay.
  pub emit-unsubscribed :
      (p : Provider lib) (outs : List Output)
      → p.subscription ≡ none
      → ((emit p outs).0.tasks ≡ p.tasks) × (released (emit p outs).1 ≡ [])
  unfolding emit
  emit-unsubscribed p [] e = (refl, refl)
  emit-unsubscribed p (reports ∷ outs) e = emit-unsubscribed p outs e
  emit-unsubscribed p (sends frame id ∷ outs) e =
      rw (send_frame-unsubscribed p frame id e) (emit-unsubscribed p outs e)

  pub refresh_status-tasks :
      (p : Provider lib)
      → ((refresh_status p).0.tasks ≡ p.tasks) × (released (refresh_status p).1 ≡ [])
  unfolding refresh_status
  refresh_status-tasks p = ground (arith, released-notify p.listeners (compute_status p))
