-- ===== src/Reliable/Timer.antt =====
-- The retransmit timer (`#startTimer`, `#stopTimer` of reliable_sync.ts).
use y_ruby.Base.{
  ◌≡◌, List, [], ◌∷◌, Option, none, some, Bool, true, false, not, ◌&&◌, is_empty, Bytes, ℕ, arith,
}
use y_ruby.Number.{Number}
use y_ruby.Reliable.{
  ReliableSync, Interval, Call, enqueues, flushes, connects, disconnects, ticks, destroys, acks,
  step,
}

abbrev pub is_running : Option ℕ → Bool
is_running none = false
is_running (some h) = true

-- The intervals of the host that go with a timer field.
abbrev pub intervals_of : Option ℕ → Number → List Interval
intervals_of none ms = []
intervals_of (some h) ms = record { handle = h; ms = ms } ∷ []

-- A timer runs exactly while a connected client has unacked updates, and the host runs that
-- interval at the configured period, and no other.
pub record IsTimed (s : ReliableSync) : Type 0 where
  pub running : is_running s.timer ≡ (s.connected && not (is_empty s.pending))
  pub hosted : s.intervals ≡ intervals_of s.timer s.resend_interval

module _ (merge : List Bytes → Bytes) where
  pub step-IsTimed : (s : ReliableSync) (c : Call) → IsTimed s → IsTimed (step merge s c).0
  unfolding step
  step-IsTimed s (enqueues u) h = ground arith
  step-IsTimed s flushes h = ground arith
  step-IsTimed s connects h = ground arith
  step-IsTimed s disconnects h = ground arith
  step-IsTimed s ticks h = ground arith
  step-IsTimed s destroys h = ground arith
  step-IsTimed s (acks v) h = ground arith
