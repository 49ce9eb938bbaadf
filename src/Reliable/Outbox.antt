-- ===== src/Reliable/Outbox.antt =====
-- What reliable_sync.ts is to a provider: a plain queue with no memoised merge, no timer and no host,
-- next to the detailed class.
use y_ruby.Base.{
  ℕ, ◌≡◌, refl, Bool, true, false, not, ◌&&◌, ltb, if◌then◌else◌, none, some, List, [], ◌∷◌, ◌++◌,
  filter, is_empty, Bytes, dec_lt, arith,
}
use mathlib.Core.Path.{ap₂}
use y_ruby.Number.{increment, Value}
use y_ruby.Reliable.{
  ReliableSync, Pending, Sent, Call, enqueues, flushes, connects, disconnects, ticks, destroys,
  acks, updates, last_seq, ack_id, merge_tail, step, run,
}
use y_ruby.Reliable.Cache.{IsCached, step-IsCached}

pub record Outbox : Type 0 where
  pub unacked : List Pending
  pub next : ℕ
  pub online : Bool

-- An acknowledgement of `id` is believed of an empty queue and up to the newest update.
abbrev pub believed : ℕ → List Pending → Bool
believed id [] = true
believed id (p ∷ ps) = not (ltb (last_seq (p ∷ ps)) id)

abbrev pub unconfirmed : ℕ → List Pending → List Pending
unconfirmed id = filter λ p. dec_lt id p.seq

-- What is left of a queue after an acknowledgement.
unfoldable pub remaining : Value → List Pending → List Pending
unfolding ack_id
remaining v ps = elim (ack_id v) [
  | none ↦ ps
  | some id ↦ if believed id ps then unconfirmed id ps else ps
]

abbrev pub outbox : ReliableSync → Outbox
outbox s = record { unacked = s.pending; next = s.next_seq; online = s.connected }

module _ (merge : List Bytes → Bytes) where
  -- Online, the whole queue goes out as one delta under the number of its newest update.
  unfoldable pub offer : Outbox → List Sent
  unfolding last_seq
  offer o =
      if o.online && not (is_empty o.unacked)
      then record { update = merge_tail merge (updates o.unacked); id = last_seq o.unacked } ∷ []
      else []

  unfoldable pub advance : Outbox → Call → Outbox
  unfolding remaining
  advance o (enqueues u) = record o {
    unacked = o.unacked ++ record { seq = o.next; update = u } ∷ [];
    next = increment o.next;
  }
  advance o flushes = o
  advance o connects = record o { online = true }
  advance o disconnects = record o { online = false }
  advance o ticks = o
  advance o destroys = record o { unacked = []; online = false }
  advance o (acks v) = record o { unacked = remaining v o.unacked }

  -- Edits, connections and ticks offer the queue; the other calls send nothing.
  unfoldable pub offers : Call → Outbox → List Sent
  unfolding offer
  offers disconnects o = []
  offers destroys o = []
  offers (acks v) o = []
  offers (enqueues u) o = offer o
  offers flushes o = offer o
  offers connects o = offer o
  offers ticks o = offer o

  unfoldable pub replay : Outbox → List Call → Outbox × List Sent
  replay o [] = (o, [])
  replay o (c ∷ cs) =
      let p = advance o c in let (end, later) = replay p cs in (end, offers c p ++ later)

  -- The queue that a call leaves, whatever the cache holds.
  pub outbox-step : (s : ReliableSync) (c : Call) → outbox (step merge s c).0 ≡ advance (outbox s) c
  unfolding step advance
  outbox-step s (enqueues u) = ground arith
  outbox-step s flushes = ground arith
  outbox-step s connects = ground arith
  outbox-step s disconnects = ground arith
  outbox-step s ticks = ground arith
  outbox-step s destroys = ground arith
  outbox-step s (acks v) = ground arith

  pub sent-step :
      (s : ReliableSync) (c : Call)
      → IsCached merge s
      → (step merge s c).1 ≡ offers c (advance (outbox s) c)
  unfolding step advance offers
  sent-step s (enqueues u) h = ground arith
  sent-step s flushes h = ground arith
  sent-step s connects h = ground arith
  sent-step s disconnects h = ground arith
  sent-step s ticks h = ground arith
  sent-step s destroys h = ground arith
  sent-step s (acks v) h = ground arith

  pub outbox-run :
      (s : ReliableSync) (cs : List Call) → outbox (run merge s cs).0 ≡ (replay (outbox s) cs).0
  unfolding run replay
  outbox-run s [] = refl
  outbox-run s (c ∷ cs) = rw (← outbox-step s c) (outbox-run (step merge s c).0 cs)

  -- From a state whose cache is right, the class reaches over every history of calls the state of
  -- the plain queue, and makes the same calls of `send` in the same order.
  pub run-replay :
      (s : ReliableSync) (cs : List Call)
      → IsCached merge s
      → (outbox (run merge s cs).0 ≡ (replay (outbox s) cs).0)
        × ((run merge s cs).1 ≡ (replay (outbox s) cs).1)
  unfolding run replay
  run-replay s [] h = (refl, refl)
  run-replay s (c ∷ cs) h =
      let rest = run-replay (step merge s c).0 cs (step-IsCached merge s c h) in
      (outbox-run s (c ∷ cs), ap₂ ◌++◌ (sent-step s c h) (rw (← outbox-step s c) rest.1))
