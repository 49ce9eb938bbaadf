-- ===== src/Consumer/Lossy/Losses.antt =====
-- What lossyConsumer of examples/actioncable-demo/frontend/reliable_stress.mjs sends, drops and hands over.

use y_ruby.Base.{ℕ, suc, ◌+◌, List, [], ◌∷◌, ◌≡◌, length, length-append, arith}
use y_ruby.Consumer.{RawEffect}
use y_ruby.Consumer.Messages.{messages, messages-append, messages-all}
use y_ruby.Consumer.Lossy.{
  LossyConsumer, LossyCall, greets, other, confirms, delivers, creates, removes, transmits, arrives,
  socket_is, blackholes, on_message, hand_over, create, send, remove, unsubscribe, step, run,
}

-- The calls of `send`, and the acknowledgements that arrive.
abbrev pub sends : List LossyCall → ℕ
sends [] = 0
sends (transmits identifier body lost ∷ xs) = suc (sends xs)
sends (creates sub ∷ xs) = sends xs
sends (removes sub ∷ xs) = sends xs
sends (arrives m lost ∷ xs) = sends xs
sends (socket_is b ∷ xs) = sends xs
sends (blackholes b ∷ xs) = sends xs

-- One call: what it adds to the counters.
record Counts (c d : LossyConsumer) (out : List RawEffect) (more : ℕ) : Type 0 where
  attempts : d.sent + d.dropped_out ≡ c.sent + c.dropped_out + more
  on_socket : d.sent ≡ c.sent + length (messages out)

step-Counts :
    (c : LossyConsumer) (x : LossyCall) → Counts c (step c x).0 (step c x).1 (sends (x ∷ []))
unfolding step create send remove unsubscribe on_message hand_over
step-Counts c (creates sub) = record { attempts = ground arith; on_socket = ground arith }
step-Counts c (removes sub) = record { attempts = ground arith; on_socket = ground arith }
step-Counts c (transmits identifier body lost) = record {
  attempts = ground arith;
  on_socket = ground arith;
}
step-Counts c (arrives greets lost) = record {
  attempts = omega arith;
  on_socket = ground (arith, messages-all c.subs);
}
step-Counts c (arrives other lost) = record { attempts = omega arith; on_socket = omega arith }
step-Counts c (arrives (confirms identifier) lost) = record {
  attempts = ground arith;
  on_socket = ground arith;
}
step-Counts c (arrives (delivers identifier has_ack body) lost) = record {
  attempts = ground arith;
  on_socket = ground arith;
}
step-Counts c (socket_is b) = record { attempts = omega arith; on_socket = omega arith }
step-Counts c (blackholes b) = record { attempts = omega arith; on_socket = omega arith }

sends-cons : (x : LossyCall) (xs : List LossyCall) → sends (x ∷ xs) ≡ sends (x ∷ []) + sends xs
sends-cons (creates sub) xs = omega arith
sends-cons (removes sub) xs = omega arith
sends-cons (transmits identifier body lost) xs = omega arith
sends-cons (arrives m lost) xs = omega arith
sends-cons (socket_is b) xs = omega arith
sends-cons (blackholes b) xs = omega arith

run-Counts :
    (c : LossyConsumer) (xs : List LossyCall) → Counts c (run c xs).0 (run c xs).1 (sends xs)
unfolding run
run-Counts c [] = record { attempts = omega arith; on_socket = omega arith }
run-Counts c (x ∷ xs) =
    let (d, out) = step c x in
    let later = (run d xs).1 in
    let one = step-Counts c x in
    let rest = run-Counts d xs in
    record {
      attempts = omega (arith, one.attempts, rest.attempts, sends-cons x xs);
      on_socket =
          rw (messages-append out later, length-append (messages out) (messages later))
            (omega (arith, one.on_socket, rest.on_socket));
    }

-- Over any history and whatever the network loses, each call of `send` is counted once, as sent or as
-- dropped, and what is counted as sent is what was put on the socket.
pub run-sends :
    (c : LossyConsumer) (xs : List LossyCall)
    → ((run c xs).0.sent + (run c xs).0.dropped_out ≡ c.sent + c.dropped_out + sends xs)
      × ((run c xs).0.sent ≡ c.sent + length (messages (run c xs).1))
run-sends c xs = let h = run-Counts c xs in (h.attempts, h.on_socket)
