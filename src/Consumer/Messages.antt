-- ===== src/Consumer/Messages.antt =====
-- What rawConsumer of examples/actioncable-demo/frontend/reliable_provider.mjs sends and what it drops.

use y_ruby.Base.{ℕ, suc, ◌+◌, List, [], ◌∷◌, ◌++◌, map, ◌≡◌, refl, length, length-append, arith}
use y_ruby.Consumer.{
  raw_run, RawCall, RawSubscription, RawEffect, raw_step, RawConsumer, creates, transmits, posts,
  subscribe, raw_send, arrives, welcome, message, create, subscribe_to, unsubscribes,
  unsubscribe_from, on_message, socket_is, confirm_subscription, blackholes, calls_connected,
  delivers, calls_received, other_message,
}

-- The message commands, with their data, in order.
abbrev pub messages : List RawEffect → List (List ℕ × List ℕ)
messages [] = []
messages (posts (message identifier body) ∷ out) = (identifier, body) ∷ messages out
messages (posts (subscribe_to identifier) ∷ out) = messages out
messages (posts (unsubscribe_from identifier) ∷ out) = messages out
messages (calls_connected name ∷ out) = messages out
messages (calls_received name body ∷ out) = messages out

pub messages-append : (xs ys : List RawEffect) → messages (xs ++ ys) ≡ messages xs ++ messages ys
messages-append [] ys = refl
messages-append (posts (subscribe_to identifier) ∷ xs) ys = messages-append xs ys
messages-append (posts (unsubscribe_from identifier) ∷ xs) ys = messages-append xs ys
messages-append (posts (message identifier body) ∷ xs) ys = rw (messages-append xs ys)
messages-append (calls_connected name ∷ xs) ys = messages-append xs ys
messages-append (calls_received name body ∷ xs) ys = messages-append xs ys

pub messages-all : (ss : List RawSubscription) → messages (map subscribe ss) ≡ []
messages-all [] = refl
messages-all (s ∷ ss) = messages-all ss

-- The number of calls of `send` in a history.
abbrev pub transmissions : List RawCall → ℕ
transmissions [] = 0
transmissions (transmits identifier body ∷ xs) = suc (transmissions xs)
transmissions (creates sub ∷ xs) = transmissions xs
transmissions (unsubscribes identifier ∷ xs) = transmissions xs
transmissions (arrives m ∷ xs) = transmissions xs
transmissions (socket_is b ∷ xs) = transmissions xs
transmissions (blackholes b ∷ xs) = transmissions xs

step-messages :
    (c : RawConsumer) (x : RawCall)
    → (raw_step c x).0.dropped + length (messages (raw_step c x).1)
      ≡ c.dropped + transmissions (x ∷ [])
unfolding raw_step raw_send create on_message
step-messages c (creates sub) = ground arith
step-messages c (transmits identifier body) = ground arith
step-messages c (unsubscribes identifier) = ground arith
step-messages c (arrives welcome) = ground (arith, messages-all c.subs)
step-messages c (arrives other_message) = ground arith
step-messages c (arrives (confirm_subscription identifier)) = ground arith
step-messages c (arrives (delivers identifier body)) = ground arith
step-messages c (socket_is b) = ground arith
step-messages c (blackholes b) = ground arith

transmissions-cons :
    (x : RawCall) (xs : List RawCall)
    → transmissions (x ∷ xs) ≡ transmissions (x ∷ []) + transmissions xs
transmissions-cons (creates sub) xs = omega arith
transmissions-cons (transmits identifier body) xs = omega arith
transmissions-cons (unsubscribes identifier) xs = omega arith
transmissions-cons (arrives m) xs = omega arith
transmissions-cons (socket_is b) xs = omega arith
transmissions-cons (blackholes b) xs = omega arith

-- Over any history, each call of `send` is one message on the socket or is counted as dropped.
pub raw_run-messages :
    (c : RawConsumer) (xs : List RawCall)
    → (raw_run c xs).0.dropped + length (messages (raw_run c xs).1) ≡ c.dropped + transmissions xs
unfolding raw_run
raw_run-messages c [] = omega arith
raw_run-messages c (x ∷ xs) =
    let (d, out) = raw_step c x in
    let later = (raw_run d xs).1 in
    rw (messages-append out later, length-append (messages out) (messages later))
      (omega (arith, step-messages c x, raw_run-messages d xs, transmissions-cons x xs))
