-- ===== src/Provider/Teardown.antt =====
-- `disconnect` of actioncable_provider.ts.
use y_ruby.Base.{
  [], ◌∷◌, ◌++◌, List, refl, ◌≡◌, append-nil, ap, ◌≢◌, some, ◌∙◌, none, false, arith, subst, sym,
}
use y_ruby.Provider
use y_ruby.Session
use y_ruby.Reliable
use y_ruby.External.{Packages}
use y_ruby.Transport.{◌then◌, emit, Provider, apply, refresh_status, compute_status}
use y_ruby.Cable.{Effect, CableSubscription, ProviderStatus, unsubscribe, notify}
use y_ruby.Session.Echo.{on_disconnect-quiet}
use y_ruby.Session.{Session, Output, receive_sync}
use y_ruby.Provider.Driven.{apply-session}
use y_ruby.Provider.Status.{IsFresh}
use y_ruby.Transport.Frames.{apply-OnlyTasks}
use y_ruby.Session.Queue.{remove_local_awareness-Unnoticed}
use y_ruby.Session.Frames.{receive-synced}

module _ {lib : Packages} where
  -- The removal of the local presence, the first thing that a teardown does.
  abbrev pub farewell : Provider lib → Provider lib × List Effect
  farewell p = apply p (Session.remove_local_awareness lib p.session)

  emit-nothing : (p : Provider lib) → emit p [] ≡ (p, [])
  unfolding emit
  emit-nothing p = refl

  apply-nothing :
      (q : Provider lib) (r : Session lib × List Output)
      → r.1 ≡ []
      → apply q r ≡ (record q { session = r.0 }, [])
  unfolding apply
  apply-nothing q r e = ap (emit (record q { session = r.0 })) e ∙ emit-nothing _

  -- Clearing remote presence hands nothing out.
  leave-farewell :
      (p : Provider lib)
      → let q = (farewell p).0 in
        Provider.leave p
        ≡ (record q { session = (Session.on_disconnect lib q.session).0 }, (farewell p).1)
  unfolding Provider.leave ◌then◌
  leave-farewell p =
      let q = (farewell p).0 in
      let quiet = (on_disconnect-quiet lib q.session).1 in
      rw (apply-nothing q (Session.on_disconnect lib q.session) quiet, append-nil (farewell p).1)

  farewell-delivery : (p : Provider lib) → (farewell p).0.session.delivery ≡ p.session.delivery
  farewell-delivery p =
      ap Session.delivery (apply-session p (Session.remove_local_awareness lib p.session))
      ∙ (remove_local_awareness-Unnoticed lib p.session).0

  detach-lem :
      (sub : CableSubscription) (p : Provider lib)
      → p.status ≢ ProviderStatus.disconnected
      → let (q, out) = Provider.detach sub p in
        (q.subscription ≡ none)
        × (q.connected ≡ false)
        × (q.status ≡ ProviderStatus.disconnected)
        × (q.session ≡ p.session)
        × (q.tasks ≡ p.tasks ++ unsubscribe sub ∷ [])
        × (out ≡ notify p.listeners ProviderStatus.disconnected)
  unfolding Provider.detach refresh_status
  detach-lem sub p n = ground arith

  farewell-keeps :
      (p : Provider lib)
      → ((farewell p).0.status ≡ p.status) × ((farewell p).0.listeners ≡ p.listeners)
  farewell-keeps p =
      let only = apply-OnlyTasks p (Session.remove_local_awareness lib p.session) in
      (ap Provider.status only, ap Provider.listeners only)

  subscribed-status :
      (p : Provider lib) (sub : CableSubscription)
      → p.subscription ≡ some sub
      → IsFresh p
      → p.status ≢ ProviderStatus.disconnected
  unfolding compute_status
  subscribed-status p sub e f = ground arith

  disconnect-detach :
      (p : Provider lib) (sub : CableSubscription)
      → p.subscription ≡ some sub
      → Provider.disconnect p ≡ Provider.leave p then Provider.detach sub
  unfolding Provider.disconnect
  disconnect-detach p sub e = rw e

  -- Teardown of a subscribed provider whose announced status is right. The removal of the local presence
  -- goes out first, through the subscription that is still there; then every listener hears
  -- `disconnected`, and nothing else happens outside in this turn: `unsubscribe` waits as the last
  -- microtask. The provider is left unsubscribed and not synced, with all unacknowledged updates kept
  -- and the retransmit timer stopped.
  pub disconnect_lem :
      (p : Provider lib) (sub : CableSubscription)
      → p.subscription ≡ some sub
      → IsFresh p
      → let (q, out) = Provider.disconnect p in
        (q.subscription ≡ none)
        × (q.connected ≡ false)
        × (q.status ≡ ProviderStatus.disconnected)
        × (q.session.synced ≡ false)
        × (q.session.delivery ≡ Reliable.on_disconnect p.session.delivery)
        × (q.tasks ≡ (farewell p).0.tasks ++ unsubscribe sub ∷ [])
        × (out ≡ (farewell p).1 ++ notify p.listeners ProviderStatus.disconnected)
  unfolding ◌then◌
  disconnect_lem p sub e f =
      let q = (farewell p).0 in
      let s = (Session.on_disconnect lib q.session).0 in
      let kept = farewell-keeps p in
      let n =
        subst (λ x. x ≢ ProviderStatus.disconnected) (sym kept.0) (subscribed-status p sub e f) in
      let (none_left, cut, down, same, waits, says) = detach-lem sub (record q { session = s }) n in
      let delivery =
        (on_disconnect-quiet lib q.session).0 ∙ ap Reliable.on_disconnect (farewell-delivery p) in
      rw (disconnect-detach p sub e, leave-farewell p)
        (
          none_left,
          cut,
          down,
          ap Session.synced same ∙ (receive-synced lib q.session []).1,
          ap Session.delivery same ∙ delivery,
          waits,
          ap (λ l. (farewell p).1 ++ l)
              (says ∙ ap (λ l. notify l ProviderStatus.disconnected) kept.1),
        )
