-- ===== src/Examples/Providers.antt =====
-- Runs of providers of actioncable_provider.ts on small packages.
use mathlib.Core.List.Memᴰ.{head}
use y_ruby.Base.{true, false, some, none, [], ◌∷◌, ◌++◌, List, refl, ◌≡◌, arith, All, dec_lt, inl}
use y_ruby.Examples.Toy.{joined, toy}
use y_ruby.Examples.Sessions.{fresh_session, busy_session}
use y_ruby.Provider
use y_ruby.Transport.{
  Provider, compute_status, emit, send_frame, ◌then◌, apply, refresh_status, send_plainly, observe,
}
use y_ruby.Reliable
use y_ruby.Cable.{CableSubscription, Outcome, ProviderStatus, fields, unsubscribe, notify, run_all}
use y_ruby.Reliable.Delivery.{Kept, numbered}
use y_ruby.Provider.Presence.{PresenceLaws, shown, page_restored}
use y_ruby.Reliable.{initial, construct, ack_id}
use y_ruby.Provider.Calls.{ProviderCall, provider_run, provider_step}
use y_ruby.Provider.Driven.{Follows}
use y_ruby.Session
use y_ruby.Session.{sends}
use y_ruby.Provider.Effects.{OffCable, released, waiting}
use y_ruby.Provider.Delivery.{provider_history, provider_run-Follows, provider_run-Kept}
use y_ruby.Session.Runs.{history}
use y_ruby.Provider.Announced.{built_then_IsFresh}
use y_ruby.Transport.Frames.{numbered_sends, encoded, EncodesAwareness, whispers, emit-wire}
use y_ruby.Reliable.Drain.{ack_of}
use y_ruby.Provider.Silence.{provider_run-OffCable}
use y_ruby.Number.{undefined}
use y_ruby.Session.Queue.{tagged, frames_of}
use y_ruby.Provider.Teardown.{farewell, disconnect_lem}
use y_ruby.Reliable.Recorded.{Safe}
use y_ruby.Examples.Queues.{IsFirst}
use y_ruby.Provider.Recorded.{HonestServer, provider_recorded}
use y_ruby.Provider.Sends.{queue_sends, provider_run_sends}
use mathlib.Core.List.{Sublistᴰ}

abbrev channel : CableSubscription
channel = record {
  name = 1;
  send = λ e. Outcome.accepted;
  whisper = some (λ e. Outcome.accepted);
  can_unsubscribe = true;
}

abbrev idle : Provider toy
idle = record {
  session = fresh_session;
  subscription = none;
  connected = false;
  status = ProviderStatus.disconnected;
  listeners = 4 ∷ [];
  window_here = true;
  on_unload = false;
  on_restore = false;
  stashed_presence = none;
  tasks = [];
}

-- A subscribed provider on a transport that is up, with two updates that wait.
abbrev live : Provider toy
live = record idle {
  session = busy_session;
  subscription = some channel;
  connected = true;
  status = ProviderStatus.connected;
  on_unload = true;
  on_restore = true;
}

-- A connection, an edit, an acknowledgement, a hidden page, a teardown and the end of the turn.
abbrev visit : List (ProviderCall toy)
visit =
    ProviderCall.connects channel
    ∷ ProviderCall.cable_connected
    ∷ ProviderCall.edits (record { doc = (10 ∷ []) ∷ []; events = (10 ∷ []) ∷ []; threw = false })
    ∷ ProviderCall.cable_received (fields (ack_of 1) undefined undefined)
    ∷ ProviderCall.page_hides
    ∷ ProviderCall.disconnects
    ∷ ProviderCall.turn_ends
    ∷ []

abbrev offline : List (ProviderCall toy)
offline =
    ProviderCall.edits (record { doc = (10 ∷ []) ∷ []; events = (10 ∷ []) ∷ []; threw = false })
    ∷ ProviderCall.ticks
    ∷ ProviderCall.page_hides
    ∷ ProviderCall.turn_ends
    ∷ []

-- The end of the turn in which it gave up its subscription is still to come.
abbrev parting : Provider toy
parting = record idle { tasks = unsubscribe channel ∷ [] }

provider_run-Kept_example :
    Kept
      (numbered 1 ((10 ∷ []) ∷ []))
      (provider_run idle visit).0.session.delivery.pending
      (history toy true (provider_history idle visit))
unfolding initial provider_step Provider.connect Provider.on_connected Provider.edit
    Provider.received Provider.page_hidden ◌then◌ apply refresh_status emit send_frame send_plainly
    observe Session.on_connect Session.edit Session.ack Session.remove_local_awareness Session.note
provider_run-Kept_example =
    provider_run-Kept idle visit refl (ground arith) (grind arith) (omega arith)

provider_run-Follows_example :
    Follows idle (provider_history idle visit) (provider_run idle visit).0
provider_run-Follows_example = provider_run-Follows idle visit (ground arith)

disconnect_lem_example :
    let (q, out) = Provider.disconnect live in
    (q.subscription ≡ none)
    × (q.connected ≡ false)
    × (q.status ≡ ProviderStatus.disconnected)
    × (q.session.synced ≡ false)
    × (q.session.delivery ≡ Reliable.on_disconnect live.session.delivery)
    × (q.tasks ≡ (farewell live).0.tasks ++ unsubscribe channel ∷ [])
    × (out ≡ (farewell live).1 ++ notify live.listeners ProviderStatus.disconnected)
unfolding compute_status
disconnect_lem_example = disconnect_lem live channel refl refl

built_then_IsFresh_example :
    let p = record idle {
      session = record fresh_session { awareness = some ([], none) };
      listeners = [];
    } in
    (provider_run p visit).0.status ≡ compute_status (provider_run p visit).0
unfolding Provider.new Session.new construct initial
built_then_IsFresh_example =
    let p = record idle {
      session = record fresh_session { awareness = some ([], none) };
      listeners = [];
    } in
    built_then_IsFresh (some []) none true p visit refl

emit-wire_example :
    let outs = sends (0 ∷ 2 ∷ 10 ∷ []) (some 1) ∷ sends (1 ∷ 5 ∷ []) none ∷ [] in
    (numbered_sends (emit live outs).1 ≡ encoded (tagged outs))
    × All EncodesAwareness (whispers (emit live outs).1)
emit-wire_example =
    emit-wire live channel (sends (0 ∷ 2 ∷ 10 ∷ []) (some 1) ∷ sends (1 ∷ 5 ∷ []) none ∷ []) refl
      (refl, tt)

provider_run-OffCable_example :
    let (q, out) = provider_run parting offline in
    (q.subscription ≡ none) × OffCable out × (released out ++ waiting q.tasks ≡ 1 ∷ [])
unfolding run_all
provider_run-OffCable_example =
    provider_run-OffCable parting offline refl
      ((λ s e. cc), ((λ s e. cc), ((λ s e. cc), ((λ s e. cc), tt))))

toy_presence : PresenceLaws toy
toy_presence = record { get-set = λ a o. refl }

page_restored_example :
    let q = (Provider.page_hidden live).0 in
    let r = (Provider.page_shown q true).0 in
    (shown q.session ≡ none)
    × (q.stashed_presence ≡ some 5)
    × (shown r.session ≡ some 5)
    × (r.stashed_presence ≡ none)
page_restored_example = page_restored toy_presence live ((9 ∷ []), some 5) 5 refl refl refl refl

recorded_visit : HonestServer IsFirst fresh_session (provider_history idle visit)
unfolding initial provider_step Provider.connect Provider.on_connected Provider.edit
    Provider.received Provider.page_hidden ◌then◌ apply refresh_status emit send_frame send_plainly
    observe Session.on_connect Session.edit Session.ack Session.remove_local_awareness Session.note
    Reliable.step dec_lt ack_id
recorded_visit =
    (tt, (tt, ((λ id e. (record { update = 10 ∷ []; id = 1 }, head refl, refl, cc)), (tt, tt))))

provider_recorded_example :
    Safe joined IsFirst
      (queue_sends fresh_session (provider_history idle visit))
      (numbered 1 ((10 ∷ []) ∷ []))
      (provider_run idle visit).0.session.delivery.pending
unfolding initial provider_step Provider.connect Provider.on_connected Provider.edit
    Provider.received Provider.page_hidden ◌then◌ apply refresh_status emit send_frame send_plainly
    observe Session.on_connect Session.edit Session.ack Session.remove_local_awareness Session.note
provider_recorded_example =
    provider_recorded IsFirst idle visit refl (ground arith) (grind arith) (omega arith) (inl refl)
      recorded_visit

provider_run_sends_example :
    (numbered_sends (provider_run idle visit).1 ≡ encoded ((0 ∷ 2 ∷ 10 ∷ [], 1) ∷ []))
    × Sublistᴰ
        (numbered_sends (provider_run idle visit).1)
        (encoded (frames_of toy (queue_sends fresh_session (provider_history idle visit))))
unfolding initial provider_step Reliable.run Provider.connect refresh_status Provider.on_connected
    ◌then◌ apply Session.on_connect send_frame Provider.received Provider.edit Session.edit
    Provider.page_hidden Session.remove_local_awareness Session.ack
provider_run_sends_example = provider_run_sends idle visit refl (ground arith)
