-- ===== src/Examples/Consumers.antt =====
-- Runs of rawConsumer of examples/actioncable-demo/frontend/reliable_provider.mjs.
use y_ruby.Base.{true, false, List, [], ◌∷◌, ◌++◌, ◌≡◌, refl}
use y_ruby.Consumer.Commands.{subscribed, identifiers, each_subscribes_once}
use y_ruby.Consumer.{
  RawSubscription, RawConsumer, raw_run, RawCall, arrives, creates, confirm_subscription, welcome,
}

abbrev fresh_consumer : RawConsumer
fresh_consumer = record {
  subs = [];
  welcomed = false;
  blackhole = false;
  dropped = 0;
  open_socket = true;
}

abbrev first_sub : RawSubscription
first_sub = record { name = 1; identifier = 65 ∷ [] }

abbrev second_sub : RawSubscription
second_sub = record { name = 2; identifier = 66 ∷ [] }

abbrev early_calls : List RawCall
early_calls = creates first_sub ∷ []

abbrev late_calls : List RawCall
late_calls = arrives (confirm_subscription (65 ∷ [])) ∷ creates second_sub ∷ []

each_subscribes_once_example :
    let r = raw_run fresh_consumer (early_calls ++ arrives welcome ∷ late_calls) in
    (subscribed r.1 ≡ identifiers r.0.subs) × (r.0.subs ≡ first_sub ∷ second_sub ∷ [])
each_subscribes_once_example =
    each_subscribes_once fresh_consumer early_calls late_calls refl refl refl
      ((λ e. cc), (λ b e. cc), tt) ((λ e. cc), (λ b e. cc), ((λ e. cc), (λ b e. cc), tt))
