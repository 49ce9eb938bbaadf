-- ===== src/Provider/Announced.antt =====
-- The status that a provider of actioncable_provider.ts has announced, over a history of calls.
use y_ruby.Base.{[], ◌∷◌}
use y_ruby.Provider
use y_ruby.Session
use y_ruby.External.{Packages}
use y_ruby.Base.{Option, Bool, List, ◌≡◌, some, arith, ◌∷◌, true, none}
use y_ruby.Provider.Calls.{provider_run, provider_step, ProviderCall}
use y_ruby.Transport.{compute_status, Provider}
use y_ruby.Number.{Number}
use y_ruby.Session.{SessionConstructed, refused, opened}
use y_ruby.Provider.Status.{
  IsFresh, connect-IsFresh, on_connected-IsFresh, on_disconnected-IsFresh, disconnect-IsFresh,
  received-IsFresh, destroy-IsFresh, page_hidden-IsFresh, page_shown-IsFresh, apply-IsFresh,
}
use y_ruby.Session.Synced.{
  tick-synced, edit-synced, set_presence-synced, apply_remote_update-synced,
}

module _ {lib : Packages} where
  provider_step-IsFresh :
      (p : Provider lib) (c : ProviderCall lib) → IsFresh p → IsFresh (provider_step p c).0
  unfolding provider_step
  provider_step-IsFresh p (ProviderCall.connects sub) f = connect-IsFresh p sub f
  provider_step-IsFresh p ProviderCall.cable_connected f = on_connected-IsFresh p
  provider_step-IsFresh p ProviderCall.cable_disconnected f = on_disconnected-IsFresh p
  provider_step-IsFresh p ProviderCall.cable_rejected f =
      unfold Provider.on_rejected in disconnect-IsFresh p f
  provider_step-IsFresh p (ProviderCall.cable_received m) f = received-IsFresh p m f
  provider_step-IsFresh p ProviderCall.disconnects f = disconnect-IsFresh p f
  provider_step-IsFresh p ProviderCall.destroys f = destroy-IsFresh p f
  provider_step-IsFresh p ProviderCall.page_hides f = page_hidden-IsFresh p f
  provider_step-IsFresh p (ProviderCall.page_shows persisted) f = page_shown-IsFresh p persisted f
  provider_step-IsFresh p ProviderCall.ticks f =
      unfold Provider.tick in
      apply-IsFresh p (Session.tick lib p.session) (tick-synced lib p.session) f
  provider_step-IsFresh p ProviderCall.turn_ends f = unfold Provider.run_tasks compute_status in f
  provider_step-IsFresh p (ProviderCall.listens l) f =
      unfold Provider.on_status_change compute_status in f
  provider_step-IsFresh p (ProviderCall.unlistens l) f =
      unfold Provider.off_status_change compute_status in f
  provider_step-IsFresh p (ProviderCall.edits r) f =
      unfold Provider.edit in
      apply-IsFresh p (Session.edit lib p.session r) (edit-synced lib p.session r) f
  provider_step-IsFresh p (ProviderCall.presents state) f =
      unfold Provider.set_presence in
      apply-IsFresh p (Session.set_presence lib p.session state)
        (set_presence-synced lib p.session state) f
  provider_step-IsFresh p (ProviderCall.restores update) f =
      let r = Session.apply_remote_update lib p.session update in
      unfold Provider.apply_remote_update in
      apply-IsFresh p (r.0, r.1) (apply_remote_update-synced lib p.session update) f

  provider_run-IsFresh :
      (p : Provider lib) (cs : List (ProviderCall lib)) → IsFresh p → IsFresh (provider_run p cs).0
  unfolding provider_run
  provider_run-IsFresh p [] f = f
  provider_run-IsFresh p (c ∷ cs) f =
      provider_run-IsFresh (provider_step p c).0 cs (provider_step-IsFresh p c f)

  wrapped-IsFresh :
      (window : Bool) (s : SessionConstructed lib) (p : Provider lib)
      → Provider.wrapped lib window s ≡ some p
      → IsFresh p
  unfolding Provider.wrapped compute_status
  wrapped-IsFresh window (refused e) p h = ground arith
  wrapped-IsFresh window (opened s) p h = ground arith

  new-IsFresh :
      (doc : Option lib.Doc) (interval : Option Number) (window : Bool) (p : Provider lib)
      → Provider.new lib doc interval window ≡ some p
      → IsFresh p
  unfolding Provider.new
  new-IsFresh none interval window p h = ground arith
  new-IsFresh (some doc) interval window p h =
      wrapped-IsFresh window
        (Session.new lib (some doc) true (some (lib.new_awareness doc)) interval) p h

  -- A provider that was built, after any history: the status that it announced last is the right one,
  -- which is disconnected without a subscription, connecting until the transport is up, and then
  -- connected until the session is synced.
  pub built_then_IsFresh :
      (doc : Option lib.Doc) (interval : Option Number) (window : Bool) (p : Provider lib)
      (cs : List (ProviderCall lib))
      → Provider.new lib doc interval window ≡ some p
      → (provider_run p cs).0.status ≡ compute_status (provider_run p cs).0
  built_then_IsFresh doc interval window p cs h =
      provider_run-IsFresh p cs (new-IsFresh doc interval window p h)
