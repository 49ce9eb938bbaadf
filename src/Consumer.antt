-- ===== src/Consumer.antt =====
-- rawConsumer of examples/actioncable-demo/frontend/reliable_provider.mjs: a cable over one WebSocket,
-- which can lose what is sent. A method returns the new consumer and its calls to the outside, in
-- order: of the socket's `send`, and of the callbacks of a subscription.
pub mod Commands
pub mod Messages
pub mod Lossy
use y_ruby.Base.{
  ℕ, suc, Bool, true, false, ◌&&◌, if◌then◌else◌, Option, none, some, List, [], ◌∷◌, ◌++◌, map,
  ◌==◌,
}

-- A subscription: which one it is, and its identifier, a JSON text.
pub record RawSubscription : Type 0 where
  pub name : ℕ
  pub identifier : List ℕ

-- `{ command: "subscribe" }`, "message" with its data, and "unsubscribe".
pub data Command : Type 0 where
  subscribe_to unsubscribe_from : List ℕ → Command
  message : List ℕ → List ℕ → Command

pub data RawEffect : Type 0 where
  posts : Command → RawEffect
  calls_connected : ℕ → RawEffect
  calls_received : ℕ → List ℕ → RawEffect

-- What arrives on the socket: a `welcome`, a `confirm_subscription`, a message for a subscription, or
-- something else.
pub data SocketMessage : Type 0 where
  welcome other_message : SocketMessage
  confirm_subscription : List ℕ → SocketMessage
  delivers : List ℕ → List ℕ → SocketMessage

pub record RawConsumer : Type 0 where
  pub subs : List RawSubscription
  pub welcomed : Bool
  pub blackhole : Bool
  pub dropped : ℕ
  pub open_socket : Bool

-- `===` on strings
abbrev pub same : List ℕ → List ℕ → Bool
same [] [] = true
same (a ∷ s) (b ∷ t) = a == b && same s t
same _ _ = false

-- `subs.find((s) => s.identifier === identifier)`
unfoldable pub find_sub : List ℕ → List RawSubscription → Option ℕ
find_sub identifier [] = none
find_sub identifier (s ∷ ss) =
    if same s.identifier identifier then some s.name else find_sub identifier ss

abbrev pub subscribe : RawSubscription → RawEffect
subscribe s = posts (subscribe_to s.identifier)

-- `ws.onmessage`
unfoldable pub on_message : RawConsumer → SocketMessage → RawConsumer × List RawEffect
on_message c welcome = (record c { welcomed = true }, map subscribe c.subs)
on_message c (confirm_subscription identifier) = elim (find_sub identifier c.subs) [
  | none ↦ (c, [])
  | some name ↦ (c, calls_connected name ∷ [])
]
on_message c (delivers identifier body) = elim (find_sub identifier c.subs) [
  | none ↦ (c, [])
  | some name ↦ (c, calls_received name body ∷ [])
]
on_message c other_message = (c, [])

-- `subscriptions.create`
unfoldable pub create : RawConsumer → RawSubscription → RawConsumer × List RawEffect
create c sub = (
  record c { subs = c.subs ++ sub ∷ [] },
  if c.welcomed && c.open_socket then subscribe sub ∷ [] else [],
)

-- `send` of a subscription
unfoldable pub raw_send : RawConsumer → List ℕ → List ℕ → RawConsumer × List RawEffect
raw_send c identifier body =
    if c.blackhole
    then (record c { dropped = suc c.dropped }, [])
    else (c, posts (message identifier body) ∷ [])

-- What can happen to it: a call of `create`, of a subscription's `send` or `unsubscribe` (which
-- `remove` is too), a message on the socket, the socket opening or closing, and the script setting
-- `blackhole`.
pub data RawCall : Type 0 where
  creates : RawSubscription → RawCall
  transmits : List ℕ → List ℕ → RawCall
  unsubscribes : List ℕ → RawCall
  arrives : SocketMessage → RawCall
  socket_is : Bool → RawCall
  blackholes : Bool → RawCall

unfoldable pub raw_step : RawConsumer → RawCall → RawConsumer × List RawEffect
raw_step c (creates sub) = create c sub
raw_step c (transmits identifier body) = raw_send c identifier body
raw_step c (unsubscribes identifier) = (c, posts (unsubscribe_from identifier) ∷ [])
raw_step c (arrives m) = on_message c m
raw_step c (socket_is b) = (record c { open_socket = b }, [])
raw_step c (blackholes b) = (record c { blackhole = b }, [])

unfoldable pub raw_run : RawConsumer → List RawCall → RawConsumer × List RawEffect
raw_run c [] = (c, [])
raw_run c (x ∷ xs) =
    let (d, out) = raw_step c x in let (end, later) = raw_run d xs in (end, out ++ later)
