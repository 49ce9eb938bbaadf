-- ===== src/Reliable.antt =====
-- packages/client/src/reliable_sync.ts: the queue of unacknowledged updates. A method returns the
-- new state and the calls of `send` that it makes, in order. `merge` is the injected function.
-- The interval timers of the host are part of the state.
pub mod Cache
pub mod Timer
pub mod Order
pub mod Outbox
pub mod Acks
pub mod Delivery
pub mod Drain
pub mod Invariant
pub mod Batches
pub mod Recorded
use y_ruby.Base.{
  ℕ, ◌+◌, Bool, true, false, not, ◌&&◌, ◌||◌, ltb, ◌==◌, if◌then◌else◌, Option, none, some, List,
  [], ◌∷◌, ◌++◌, map, filter, is_empty, Bytes, dec_lt,
}
use y_ruby.Number.{
  Number, integer, Value, number, increment, is_finite, le_zero, lt_zero, is_safe_integer,
  magnitude,
}

pub record Pending : Type 0 where
  pub seq : ℕ
  pub update : Bytes

-- One call of `send(update, id)`.
pub record Sent : Type 0 where
  pub update : Bytes
  pub id : ℕ

-- A running interval of the host.
pub record Interval : Type 0 where
  pub handle : ℕ
  pub ms : Number

pub record ReliableSync : Type 0 where
  pub pending : List Pending
  pub resend_interval : Number
  pub next_seq : ℕ
  pub connected : Bool
  pub timer : Option ℕ
  pub tail_cache : Option Bytes
  pub intervals : List Interval
  pub next_handle : ℕ

-- `opts`: whether `send` and `merge` are functions, and the interval, `none` where it is
-- undefined or null.
pub record ReliableSyncOptions : Type 0 where
  pub send_is_function : Bool
  pub merge_is_function : Bool
  pub resend_interval : Option Number

pub data ConstructError : Type 0 where
  send_missing merge_missing bad_interval : ConstructError

pub data Constructed : Type 0 where
  built : ReliableSync → Constructed
  thrown : ConstructError → Constructed

abbrev pub default_interval : Number
default_interval = integer false 1000

abbrev pub interval_of : Option Number → Number
interval_of none = default_interval
interval_of (some n) = n

-- The class's field initialisers, on a host with no interval of its own.
unfoldable pub initial : Number → ReliableSync
initial interval = record {
  pending = [];
  resend_interval = interval;
  next_seq = 1;
  connected = false;
  timer = none;
  tail_cache = none;
  intervals = [];
  next_handle = 1;
}

unfoldable pub construct : ReliableSyncOptions → Constructed
construct opts =
    let interval = interval_of opts.resend_interval in
    if not opts.send_is_function
    then thrown send_missing
    else if not opts.merge_is_function
    then thrown merge_missing
    else if not (is_finite interval) || le_zero interval
    then thrown bad_interval
    else built (initial interval)

pub has_pending : ReliableSync → Bool
has_pending s = not (is_empty s.pending)

-- `pending[pending.length - 1].seq`, which is read of a queue that is not empty.
unfoldable pub last_seq : List Pending → ℕ
last_seq [] = 0
last_seq (p ∷ []) = p.seq
last_seq (p ∷ q ∷ rest) = last_seq (q ∷ rest)

abbrev pub updates : List Pending → List Bytes
updates = map λ p. p.update

-- The host drops an interval; an unknown handle is ignored.
unfoldable pub clear_interval : ℕ → List Interval → List Interval
clear_interval h [] = []
clear_interval h (i ∷ rest) = if i.handle == h then rest else i ∷ clear_interval h rest

unfoldable pub start_timer : ReliableSync → ReliableSync
start_timer s = elim s.timer [
  | some h ↦ s
  | none ↦ record s {
    timer = some s.next_handle;
    intervals = record { handle = s.next_handle; ms = s.resend_interval } ∷ s.intervals;
    next_handle = s.next_handle + 1;
  }
]

unfoldable pub stop_timer : ReliableSync → ReliableSync
unfolding clear_interval
stop_timer s = elim s.timer [
  | some h ↦ record s { timer = none; intervals = clear_interval h s.intervals }
  | none ↦ record s { timer = none }
]

-- The prune of an accepted ack.
unfoldable pub prune : ReliableSync → ℕ → ReliableSync
unfolding stop_timer
prune s id =
    let kept = filter (λ p. dec_lt id p.seq) s.pending in
    let t = record s { pending = kept; tail_cache = none } in
    if is_empty kept then stop_timer t else t

-- The number that an ack carries, if the ack is well formed.
unfoldable pub ack_id : Value → Option ℕ
ack_id (number n) = if not (is_safe_integer n) || lt_zero n then none else some (magnitude n)
ack_id v = none

-- An ack beyond the newest update.
unfoldable pub is_future : ℕ → List Pending → Bool
unfolding last_seq
is_future id pending = not (is_empty pending) && ltb (last_seq pending) id

unfoldable pub on_ack : ReliableSync → Value → ReliableSync
unfolding ack_id is_future prune
on_ack s v = elim (ack_id v) [
  | none ↦ s
  | some id ↦ if is_future id s.pending then s else prune s id
]

unfoldable pub on_disconnect : ReliableSync → ReliableSync
unfolding stop_timer
on_disconnect s = stop_timer (record s { connected = false })

unfoldable pub destroy : ReliableSync → ReliableSync
unfolding stop_timer
destroy s = record (stop_timer (record s { connected = false })) { pending = []; tail_cache = none }

-- What a tail of updates is sent as: a single one as it is, several merged.
abbrev pub merge_tail : (List Bytes → Bytes) → List Bytes → Bytes
merge_tail merge (u ∷ []) = u
merge_tail merge us = merge us

module _ (merge : List Bytes → Bytes) where
  -- Fills the cache, and returns what it holds.
  unfoldable pub merged_tail : ReliableSync → ReliableSync × Bytes
  merged_tail s = elim s.tail_cache [
    | some tail ↦ (s, tail)
    | none ↦
        let tail = merge_tail merge (updates s.pending) in
        (record s { tail_cache = some tail }, tail)
  ]

  unfoldable pub flush : ReliableSync → ReliableSync × List Sent
  unfolding merged_tail last_seq
  flush s =
      if not s.connected || is_empty s.pending
      then (s, [])
      else let (t, tail) = merged_tail s in
        (t, record { update = tail; id = last_seq t.pending } ∷ [])

  unfoldable pub enqueue : ReliableSync → Bytes → ReliableSync × List Sent
  unfolding flush start_timer
  enqueue s update =
      let t = record s {
        pending = s.pending ++ record { seq = s.next_seq; update = update } ∷ [];
        next_seq = increment s.next_seq;
        tail_cache = none;
      } in
      flush (if t.connected then start_timer t else t)

  unfoldable pub on_connect : ReliableSync → ReliableSync × List Sent
  unfolding flush start_timer
  on_connect s =
      let (t, sent) = flush (record s { connected = true }) in
      (if is_empty t.pending then t else start_timer t, sent)

  unfoldable pub on_tick : ReliableSync → ReliableSync × List Sent
  unfolding flush
  on_tick s = if not s.connected || is_empty s.pending then (s, []) else flush s

-- A call from outside, and a history of them.
pub data Call : Type 0 where
  enqueues : Bytes → Call
  flushes connects disconnects ticks destroys : Call
  acks : Value → Call

module _ (merge : List Bytes → Bytes) where
  unfoldable pub step : ReliableSync → Call → ReliableSync × List Sent
  unfolding enqueue flush on_connect on_tick on_ack on_disconnect destroy
  step s (enqueues u) = enqueue merge s u
  step s flushes = flush merge s
  step s connects = on_connect merge s
  step s ticks = on_tick merge s
  step s disconnects = (on_disconnect s, [])
  step s destroys = (destroy s, [])
  step s (acks v) = (on_ack s v, [])

  -- All that a history sends, in order.
  unfoldable pub run : ReliableSync → List Call → ReliableSync × List Sent
  unfolding step
  run s [] = (s, [])
  run s (c ∷ cs) = let (t, sent) = step s c in let (end, later) = run t cs in (end, sent ++ later)
