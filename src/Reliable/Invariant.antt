-- ===== src/Reliable/Invariant.antt =====
-- What holds of a client of reliable_sync.ts between any two calls.

use y_ruby.Base.{
  [], ◌∷◌, List, Bytes, inl, ◌≤◌, ◌<◌, ◌+◌, ◌≡◌, length, arith, refl, ◌∷◌, ap, subst, sym,
}
use y_ruby.Reliable.{
  ReliableSync, construct, initial, run, Call, ReliableSyncOptions, built, step, enqueues, acks,
  flushes, connects, interval_of, disconnects, ticks, destroys,
}
use y_ruby.Reliable.Outbox.{Outbox, advance, outbox-step, outbox}
use y_ruby.Reliable.Cache.{IsCached, step-IsCached}
use y_ruby.Number.{Number, exact_limit}
use y_ruby.Reliable.Order.{Ascending, lo-le-hi}
use y_ruby.Reliable.Timer.{IsTimed, step-IsTimed}
use y_ruby.Reliable.Delivery.{increment-suc, enqueued-Ascending, remaining-Ascending}

abbrev pub InOrder : Outbox → Type 0
InOrder o = Ascending 1 o.unacked o.next

module _ (merge : List Bytes → Bytes) where
  pub record IsSound (s : ReliableSync) : Type 0 where
    pub cached : IsCached merge s
    pub timed : IsTimed s
    pub ordered : Ascending 1 s.pending s.next_seq

  -- The counter does not go back, and one call moves it by one at most.
  pub next_seq-step :
      (s : ReliableSync) (c : Call)
      → (s.next_seq ≤ (step merge s c).0.next_seq) × ((step merge s c).0.next_seq ≤ s.next_seq + 1)
  unfolding advance
  next_seq-step s (enqueues u) =
      rw (ap Outbox.next (outbox-step merge s (enqueues u))) (ground arith)
  next_seq-step s flushes = rw (ap Outbox.next (outbox-step merge s flushes)) (omega arith)
  next_seq-step s connects = rw (ap Outbox.next (outbox-step merge s connects)) (omega arith)
  next_seq-step s disconnects = rw (ap Outbox.next (outbox-step merge s disconnects)) (omega arith)
  next_seq-step s ticks = rw (ap Outbox.next (outbox-step merge s ticks)) (omega arith)
  next_seq-step s destroys = rw (ap Outbox.next (outbox-step merge s destroys)) (omega arith)
  next_seq-step s (acks v) = rw (ap Outbox.next (outbox-step merge s (acks v))) (omega arith)

  pub advance-InOrder :
      (o : Outbox) (c : Call) → o.next < exact_limit → InOrder o → InOrder (advance merge o c)
  unfolding advance
  advance-InOrder o (enqueues u) lt a = rw (increment-suc o.next lt) (enqueued-Ascending o u lt a)
  advance-InOrder o flushes lt a = a
  advance-InOrder o connects lt a = a
  advance-InOrder o disconnects lt a = a
  advance-InOrder o ticks lt a = a
  advance-InOrder o destroys lt a = lo-le-hi 1 o.next o.unacked a
  advance-InOrder o (acks v) lt a = remaining-Ascending v o.next o.unacked a

  pub step-IsSound :
      (s : ReliableSync) (c : Call)
      → s.next_seq < exact_limit
      → IsSound s
      → IsSound (step merge s c).0
  step-IsSound s c lt h = record {
    cached = step-IsCached merge s c h.cached;
    timed = step-IsTimed merge s c h.timed;
    ordered =
        subst InOrder (sym (outbox-step merge s c)) (advance-InOrder (outbox s) c lt h.ordered);
  }

  pub run-IsSound :
      (s : ReliableSync) (cs : List Call)
      → s.next_seq + length cs ≤ exact_limit
      → IsSound s
      → IsSound (run merge s cs).0
  unfolding run
  run-IsSound s [] b h = h
  run-IsSound s (c ∷ cs) b h =
      run-IsSound (step merge s c).0 cs (omega (arith, next_seq-step s c))
        (step-IsSound s c (omega arith) h)

  initial-IsSound : (ms : Number) → IsSound (initial ms)
  unfolding initial
  initial-IsSound ms = record {
    cached = inl refl;
    timed = record { running = refl; hosted = refl };
    ordered = omega arith;
  }

  built-initial :
      (opts : ReliableSyncOptions) (s : ReliableSync)
      → construct opts ≡ built s
      → s ≡ initial (interval_of opts.resend_interval)
  unfolding construct
  built-initial opts s e = ground arith

  first_seq : (ms : Number) → (initial ms).next_seq ≡ 1
  unfolding initial
  first_seq ms = refl

  -- A client that was built, after any history of fewer than 2 ^ 53 calls, teardown included: the
  -- memoised merge is that of the queue as it is, the numbers of the queue rise, and the timer runs
  -- exactly while a connected client has something unacknowledged, as the host's only interval.
  pub construct-IsSound :
      (opts : ReliableSyncOptions) (s : ReliableSync) (cs : List Call)
      → construct opts ≡ built s
      → length cs < exact_limit
      → IsSound (run merge s cs).0
  construct-IsSound opts s cs e b =
      let ms = interval_of opts.resend_interval in
      rw (built-initial opts s e)
        (run-IsSound (initial ms) cs (rw (first_seq ms) (omega arith)) (initial-IsSound ms))
