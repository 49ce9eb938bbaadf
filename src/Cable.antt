-- ===== src/Cable.antt =====
-- The cable that packages/client/src/actioncable_provider.ts speaks over: envelopes, subscriptions and
-- what a provider does to the world around it.
use y_ruby.Base.{
  ℕ, Bool, true, false, ◌==◌, Option, none, some, List, [], ◌∷◌, Bytes, ◌++◌, ◌||◌, if◌then◌else◌,
}
use y_ruby.Number.{Value, undefined, null, text}
use y_ruby.Framing.{awareness_message}

-- ProviderStatus
pub data ProviderStatus : Type 0 where
  connecting connected synced disconnected : ProviderStatus

unfoldable pub same_status : ProviderStatus → ProviderStatus → Bool
same_status connecting connecting = true
same_status connected connected = true
same_status synced synced = true
same_status disconnected disconnected = true
same_status _ _ = false

-- What is put on the cable: `{ update }`, `{ update, id }` and `{ awareness }`.
pub data Envelope : Type 0 where
  plain : List ℕ → Envelope
  numbered : List ℕ → ℕ → Envelope
  presence : List ℕ → Envelope

-- What arrives: null or another falsy value, the empty string, or fields, each of which may be
-- undefined (CableMessage, and what else a server can send).
pub data CableMessage : Type 0 where
  nothing empty_string : CableMessage
  fields : (ack awareness update : Value) → CableMessage

-- A call of the transport returns, throws, or returns a promise that is rejected.
pub data Outcome : Type 0 where
  accepted thrown rejected : Outcome

-- CableSubscription. `whisper` is there with AnyCable only.
pub record CableSubscription : Type 0 where
  pub name : ℕ
  pub send : Envelope → Outcome
  pub whisper : Option (Envelope → Outcome)
  pub can_unsubscribe : Bool

-- Where an error is reported from.
pub data Context : Type 0 where
  in_receive in_received in_rejected in_send : Context

-- A call to the outside, in order: of the subscription, of a status listener, or of `onError`.
pub data Effect : Type 0 where
  sent whispered : ℕ → Envelope → Effect
  unsubscribed : ℕ → Effect
  notified : ℕ → ProviderStatus → Effect
  failed : Context → Effect

-- What waits for the end of the current turn.
pub data Task : Type 0 where
  unsubscribe : CableSubscription → Task
  report_send : Task

-- `frame[0] === MessageType.Awareness`
abbrev pub is_awareness_frame : Bytes → Bool
is_awareness_frame [] = false
is_awareness_frame (b ∷ rest) = b == awareness_message

-- `awareness ?? update`
abbrev pub or_else : Value → Value → Value
or_else undefined v = v
or_else null v = v
or_else u v = u

abbrev pub is_undefined : Value → Bool
is_undefined undefined = true
is_undefined _ = false

-- `message && message.awareness`, and `message && (awarenessPayload ?? message.update)`.
abbrev pub awareness_payload : CableMessage → Value
awareness_payload nothing = null
awareness_payload empty_string = text []
awareness_payload (fields ack awareness update) = awareness

abbrev pub payload : CableMessage → Value
payload nothing = null
payload empty_string = text []
payload (fields ack awareness update) = or_else awareness update

abbrev pub ack_field : CableMessage → Value
ack_field nothing = undefined
ack_field empty_string = undefined
ack_field (fields ack awareness update) = ack

-- `id === undefined ? { update } : { update, id }`
abbrev pub envelope : List ℕ → Option ℕ → Envelope
envelope update none = plain update
envelope update (some id) = numbered update id

-- The call of each status listener.
unfoldable pub notify : List ℕ → ProviderStatus → List Effect
notify [] status = []
notify (l ∷ ls) status = notified l status ∷ notify ls status

-- The set of listeners: one that is there is not added again.
unfoldable pub contains : ℕ → List ℕ → Bool
contains l [] = false
contains l (k ∷ ks) = k == l || contains l ks

unfoldable pub add_listener : ℕ → List ℕ → List ℕ
unfolding contains
add_listener l ks = if contains l ks then ks else ks ++ l ∷ []

unfoldable pub drop_listener : ℕ → List ℕ → List ℕ
drop_listener l [] = []
drop_listener l (k ∷ ks) = if k == l then drop_listener l ks else k ∷ drop_listener l ks

-- A microtask: the `unsubscribe` of a subscription that has one, or the handler of a rejection.
unfoldable pub run_task : Task → List Effect
run_task report_send = failed in_send ∷ []
run_task (unsubscribe sub) = if sub.can_unsubscribe then unsubscribed sub.name ∷ [] else []

unfoldable pub run_all : List Task → List Effect
unfolding run_task
run_all [] = []
run_all (t ∷ ts) = run_task t ++ run_all ts
