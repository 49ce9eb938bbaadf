-- ===== src/Reliable/Cache.antt =====
-- The memoised merge of the unacked tail (`#tailCache`, `#mergedTail` of reliable_sync.ts).
use y_ruby.Base.{◌≡◌, ◌⊎◌, List, none, some, Bytes, arith}
use y_ruby.Reliable.{
  ReliableSync, Call, enqueues, flushes, connects, disconnects, ticks, destroys, acks, updates,
  merge_tail, step,
}

module _ (merge : List Bytes → Bytes) where
  -- The cache is empty or holds the merge of the queue as it is now.
  abbrev pub IsCached : ReliableSync → Type 0
  IsCached s = (s.tail_cache ≡ none) ⊎ (s.tail_cache ≡ some (merge_tail merge (updates s.pending)))

  pub step-IsCached : (s : ReliableSync) (c : Call) → IsCached s → IsCached (step merge s c).0
  unfolding step
  step-IsCached s (enqueues u) h = ground arith
  step-IsCached s flushes h = ground arith
  step-IsCached s connects h = ground arith
  step-IsCached s disconnects h = ground arith
  step-IsCached s ticks h = ground arith
  step-IsCached s destroys h = ground arith
  step-IsCached s (acks v) h = ground arith
