-- ===== src/Provider/Calls.antt =====
-- Everything that can happen to a provider of actioncable_provider.ts: a method called, a callback of
-- the cable, an event of the page, the queue's timer, or the end of a turn.
use y_ruby.Base.{ℕ, [], ◌∷◌, ◌++◌, Bool, Option, List, Bytes}
use y_ruby.Provider
use y_ruby.External.{Packages, Applied}
use y_ruby.Transport.{Provider}
use y_ruby.Cable.{CableSubscription, CableMessage, Effect}

pub data ProviderCall (lib : Packages) : Type 0 where
  connects : CableSubscription → ProviderCall lib
  cable_connected cable_disconnected cable_rejected : ProviderCall lib
  cable_received : CableMessage → ProviderCall lib
  disconnects destroys page_hides ticks turn_ends : ProviderCall lib
  page_shows : Bool → ProviderCall lib
  listens unlistens : ℕ → ProviderCall lib
  edits : Applied lib.Doc → ProviderCall lib
  presents : Option lib.Presence → ProviderCall lib
  restores : Bytes → ProviderCall lib

module _ {lib : Packages} where
  unfoldable pub provider_step : Provider lib → ProviderCall lib → Provider lib × List Effect
  provider_step p (connects sub) = Provider.connect p sub
  provider_step p cable_connected = Provider.on_connected p
  provider_step p cable_disconnected = Provider.on_disconnected p
  provider_step p cable_rejected = Provider.on_rejected p
  provider_step p (cable_received m) = Provider.received p m
  provider_step p disconnects = Provider.disconnect p
  provider_step p destroys = Provider.destroy p
  provider_step p page_hides = Provider.page_hidden p
  provider_step p (page_shows persisted) = Provider.page_shown p persisted
  provider_step p ticks = Provider.tick p
  provider_step p turn_ends = Provider.run_tasks p
  provider_step p (listens l) = (Provider.on_status_change p l, [])
  provider_step p (unlistens l) = (Provider.off_status_change p l, [])
  provider_step p (edits r) = Provider.edit p r
  provider_step p (presents state) = Provider.set_presence p state
  provider_step p (restores update) = Provider.apply_remote_update p update

  unfoldable pub provider_run : Provider lib → List (ProviderCall lib) → Provider lib × List Effect
  provider_run p [] = (p, [])
  provider_run p (c ∷ cs) =
      let (q, out) = provider_step p c in
      let (end, later) = provider_run q cs in (end, out ++ later)
