-- ===== src/Examples/Queues.antt =====
-- Runs of the queue of reliable_sync.ts.
use mathlib.Core.List.Memᴰ.{head}
use y_ruby.Base.{true, some, none, [], ◌∷◌, List, refl, ◌≡◌, map, arith, inl, dec_lt}
use y_ruby.Reliable.Delivery.{Kept, numbered, edits, run-Kept}
use y_ruby.Examples.Toy.{joined}
use y_ruby.Reliable.Acks.{AckSplit, on_ack-AckSplit}
use y_ruby.Reliable.{
  step, Call, on_tick, ReliableSync, on_ack, run, ReliableSyncOptions, Pending, initial,
  default_interval, enqueues, last_seq, construct, Sent, ack_id,
}
use y_ruby.Reliable.Outbox.{outbox, replay, run-replay}
use y_ruby.Reliable.Invariant.{IsSound, construct-IsSound}
use y_ruby.Reliable.Drain.{ack_of, on_ack-edits, tick_then_ack}
use y_ruby.Reliable.Recorded.{Safe, Honest, run_recorded}

abbrev options : ReliableSyncOptions
options = record { send_is_function = true; merge_is_function = true; resend_interval = none }

abbrev pub empty : ReliableSync
empty = initial default_interval

abbrev first_edit : Pending
first_edit = record { seq = 1; update = 10 ∷ [] }

abbrev second_edit : Pending
second_edit = record { seq = 2; update = 20 ∷ [] }

-- A connected client with two updates that wait for their acknowledgement.
abbrev pub waiting : ReliableSync
waiting = record empty {
  pending = first_edit ∷ second_edit ∷ [];
  next_seq = 3;
  connected = true;
  timer = some 0;
  intervals = record { handle = 0; ms = default_interval } ∷ [];
  next_handle = 1;
}

-- An edit offline, a second online, the acknowledgement of the first, a retransmission.
abbrev day : List Call
day =
    enqueues (10 ∷ []) ∷ Call.connects ∷ enqueues (20 ∷ []) ∷ Call.acks (ack_of 1) ∷ Call.ticks ∷ []

day_sent :
    (run joined empty day).1
    ≡ record { update = 10 ∷ []; id = 1 }
      ∷ record { update = 10 ∷ 20 ∷ []; id = 2 }
      ∷ record { update = 20 ∷ []; id = 2 }
      ∷ []
unfolding run step initial dec_lt
day_sent = refl

construct-IsSound_example : IsSound joined (run joined empty day).0
unfolding construct
construct-IsSound_example = construct-IsSound joined options empty day refl (omega arith)

run-replay_example :
    (outbox (run joined empty day).0 ≡ (replay joined (outbox empty) day).0)
    × ((run joined empty day).1 ≡ (replay joined (outbox empty) day).1)
unfolding initial
run-replay_example = run-replay joined empty day (inl refl)

on_ack-AckSplit_example : AckSplit (ack_of 1) waiting.pending (on_ack waiting (ack_of 1)).pending
on_ack-AckSplit_example = on_ack-AckSplit waiting (ack_of 1) (omega arith)

on_ack-edits_example :
    (on_ack
      (run joined waiting (map enqueues ((30 ∷ []) ∷ []))).0
      (ack_of (last_seq waiting.pending))).pending
    ≡ numbered 3 ((30 ∷ []) ∷ [])
on_ack-edits_example =
    on_ack-edits joined waiting ((30 ∷ []) ∷ []) (λ e. cc) (omega arith) (omega arith)

run-Kept_example : Kept (numbered 1 (edits day)) (run joined empty day).0.pending day
unfolding initial
run-Kept_example = run-Kept joined empty day (ground arith) (omega arith) (omega arith)

tick_then_ack_example :
    let (t, sent) = on_tick joined waiting in
    let u = on_ack t (ack_of (last_seq waiting.pending)) in
    (map (λ m. m.id) sent ≡ last_seq waiting.pending ∷ [])
    × (u.pending ≡ [])
    × (u.timer ≡ none)
    × (u.intervals ≡ [])
    × ((on_tick joined u).1 ≡ [])
unfolding initial
tick_then_ack_example =
    tick_then_ack joined waiting refl (λ e. cc) (omega arith) (omega arith)
      (record { running = refl; hosted = refl })

-- A server that has recorded the first delta of the day, and no other.
abbrev pub IsFirst : Sent → Type 0
IsFirst m = m.id ≡ 1

recorded_day : Honest joined IsFirst [] empty day
unfolding initial step dec_lt ack_id
recorded_day = (
  tt,
  (tt, (tt, ((λ id e. (record { update = 10 ∷ []; id = 1 }, head refl, refl, cc)), (tt, tt)))),
)

run_recorded_example :
    Safe joined IsFirst
      (run joined empty day).1
      (numbered 1 (edits day))
      (run joined empty day).0.pending
unfolding initial
run_recorded_example =
    run_recorded joined IsFirst empty day (ground arith) (omega arith) (omega arith) (inl refl)
      recorded_day
