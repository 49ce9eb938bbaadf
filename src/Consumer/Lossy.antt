-- ===== src/Consumer/Lossy.antt =====
-- lossyConsumer of examples/actioncable-demo/frontend/reliable_stress.mjs: a cable over one WebSocket that
-- loses some of what is sent and some of the acknowledgements that arrive. The outcome of each test of
-- Math.random is an argument.
pub mod Losses
use y_ruby.Consumer.{
  RawSubscription, RawEffect, Command, find_sub, subscribe, posts, calls_connected, calls_received,
  message, unsubscribe_from,
}
use y_ruby.Base.{
  Bool, ℕ, [], List, false, ◌∷◌, ◌++◌, true, if◌then◌else◌, map, ◌&&◌, ◌||◌, ◌==◌, suc, none, some,
}

-- What arrives: a `welcome`, a `confirm_subscription`, a message for a subscription with whether it has
-- an `ack`, or something else.
pub data LossyMessage : Type 0 where
  greets other : LossyMessage
  confirms : List ℕ → LossyMessage
  delivers : List ℕ → (has_ack : Bool) → (body : List ℕ) → LossyMessage

pub record LossyConsumer : Type 0 where
  pub subs : List RawSubscription
  pub welcomed : Bool
  pub is_open : Bool
  pub blackhole : Bool
  pub dropped_out : ℕ
  pub dropped_ack : ℕ
  pub sent : ℕ

unfoldable pub new : LossyConsumer
new = record {
  subs = [];
  welcomed = false;
  is_open = false;
  blackhole = false;
  dropped_out = 0;
  dropped_ack = 0;
  sent = 0;
}

-- `subs.find(...)?.received?.(...)`
unfoldable pub hand_over : LossyConsumer → List ℕ → List ℕ → List RawEffect
hand_over c identifier body = elim (find_sub identifier c.subs) [
  | none ↦ []
  | some name ↦ calls_received name body ∷ []
]

-- `ws.onmessage`. `lost` is `Math.random() < state.ackLoss`.
unfoldable pub on_message : LossyConsumer → LossyMessage → Bool → LossyConsumer × List RawEffect
unfolding hand_over
on_message c greets lost = (record c { welcomed = true }, map subscribe c.subs)
on_message c (confirms identifier) lost = elim (find_sub identifier c.subs) [
  | none ↦ (c, [])
  | some name ↦ (c, calls_connected name ∷ [])
]
on_message c (delivers identifier has_ack body) lost =
    if has_ack && lost
    then (record c { dropped_ack = suc c.dropped_ack }, [])
    else (c, hand_over c identifier body)
on_message c other lost = (c, [])

-- `subscriptions.create`
unfoldable pub create : LossyConsumer → RawSubscription → LossyConsumer × List RawEffect
create c sub = (
  record c { subs = c.subs ++ sub ∷ [] },
  if c.welcomed && c.is_open then subscribe sub ∷ [] else [],
)

-- `send` of a subscription. `lost` is `Math.random() < state.loss`.
unfoldable pub send : LossyConsumer → List ℕ → List ℕ → Bool → LossyConsumer × List RawEffect
send c identifier body lost =
    if c.blackhole || lost
    then (record c { dropped_out = suc c.dropped_out }, [])
    else (record c { sent = suc c.sent }, posts (message identifier body) ∷ [])

-- `subs.indexOf(sub)` with `splice`: the subscription is known by its name.
unfoldable pub without : ℕ → List RawSubscription → List RawSubscription
without name [] = []
without name (s ∷ ss) = if s.name == name then ss else s ∷ without name ss

-- `unsubscribe` of a subscription.
unfoldable pub unsubscribe : List ℕ → List RawEffect
unsubscribe identifier = posts (unsubscribe_from identifier) ∷ []

-- `subscriptions.remove`
unfoldable pub remove : LossyConsumer → RawSubscription → LossyConsumer × List RawEffect
unfolding without unsubscribe
remove c sub = (record c { subs = without sub.name c.subs }, unsubscribe sub.identifier)

-- What can happen to it, with the outcomes of the tests.
pub data LossyCall : Type 0 where
  creates removes : RawSubscription → LossyCall
  transmits : List ℕ → List ℕ → Bool → LossyCall
  arrives : LossyMessage → Bool → LossyCall
  socket_is blackholes : Bool → LossyCall

unfoldable pub step : LossyConsumer → LossyCall → LossyConsumer × List RawEffect
unfolding on_message create send remove
step c (creates sub) = create c sub
step c (removes sub) = remove c sub
step c (transmits identifier body lost) = send c identifier body lost
step c (arrives m lost) = on_message c m lost
step c (socket_is b) = (record c { is_open = b }, [])
step c (blackholes b) = (record c { blackhole = b }, [])

unfoldable pub run : LossyConsumer → List LossyCall → LossyConsumer × List RawEffect
unfolding step
run c [] = (c, [])
run c (x ∷ xs) = let (d, out) = step c x in let (end, later) = run d xs in (end, out ++ later)
