-- ===== src/Reliable/Delivery.antt =====
-- The updates of reliable_sync.ts over a history of calls: those that wait and those that left.
use y_ruby.Base.{
  All-map, ℕ, suc, ◌+◌, ◌≤◌, ◌<◌, ◌≡◌, refl, List, [], ◌∷◌, ◌++◌, arith, All, Bytes, ◌≢◌, ◌⊎◌,
  All-append, inl, inr, ap, Option-cases, ◌∙◌, length, append_assoc, append-nil, sym, true, false,
  map,
}
use y_ruby.Reliable.Order.{Ascending, Ascending-append, filter-Ascending}
use y_ruby.Reliable.Outbox.{remaining, Outbox, replay, advance, outbox-run, outbox}
use y_ruby.Reliable.{
  Call, Pending, enqueues, acks, Value, destroys, flushes, connects, ack_id, disconnects, ticks,
  ReliableSync, run,
}
use y_ruby.Number.{Value, exact_limit, increment}
use y_ruby.Reliable.Acks.{AckSplit, Confirms, remaining-AckSplit}

-- The updates of a history's edits, oldest first.
abbrev pub edits : List Call → List Bytes
edits [] = []
edits (enqueues u ∷ cs) = u ∷ edits cs
edits (flushes ∷ cs) = edits cs
edits (connects ∷ cs) = edits cs
edits (disconnects ∷ cs) = edits cs
edits (ticks ∷ cs) = edits cs
edits (destroys ∷ cs) = edits cs
edits (acks v ∷ cs) = edits cs

-- Updates numbered from `n` on.
abbrev pub numbered : ℕ → List Bytes → List Pending
numbered n [] = []
numbered n (u ∷ us) = record { seq = n; update = u } ∷ numbered (suc n) us

-- Some acknowledgement of the history reaches this update.
abbrev pub AckedIn : List Call → Pending → Type 0
AckedIn [] p = ⊥
AckedIn (acks v ∷ cs) p = Confirms v p ⊎ AckedIn cs p
AckedIn (enqueues u ∷ cs) p = AckedIn cs p
AckedIn (flushes ∷ cs) p = AckedIn cs p
AckedIn (connects ∷ cs) p = AckedIn cs p
AckedIn (disconnects ∷ cs) p = AckedIn cs p
AckedIn (ticks ∷ cs) p = AckedIn cs p
AckedIn (destroys ∷ cs) p = AckedIn cs p

-- The client is not torn down in the course of the history.
abbrev pub Undestroyed : List Call → Type 0
Undestroyed [] = Unit {0}
Undestroyed (c ∷ cs) = (c ≢ destroys) × Undestroyed cs

-- What a history leaves of the queue that it starts with and of its own edits.
pub record Kept (ps left : List Pending) (cs : List Call) : Type 0 where
  pub gone : List Pending
  pub joined : ps ≡ gone ++ left
  pub acked : All (AckedIn cs) gone

pub remaining-Ascending :
    (v : Value) (hi : ℕ) (ps : List Pending) → Ascending 1 ps hi → Ascending 1 (remaining v ps) hi
unfolding remaining
remaining-Ascending v hi ps a = elim (Option-cases (ack_id v)) [
  | inl e ↦ rw (e, remaining) a
  | inr (id, e) ↦ rw (e, remaining) (ground (arith, filter-Ascending id 1 hi ps a))
]

-- Below 2 ^ 53 the counter moves on, so a new update has a number of its own.
pub enqueued-Ascending :
    (o : Outbox) (u : Bytes)
    → o.next < exact_limit
    → Ascending 1 o.unacked o.next
    → Ascending 1 (o.unacked ++ record { seq = o.next; update = u } ∷ []) (suc o.next)
enqueued-Ascending o u lt a = Ascending-append 1 o.next o.unacked u a

pub increment-suc : (n : ℕ) → n < exact_limit → increment n ≡ suc n
increment-suc n lt = ground arith

Kept-quiet :
    {ps left : List Pending} {cs : List Call} (c : Call)
    → ((p : Pending) → AckedIn cs p → AckedIn (c ∷ cs) p)
    → Kept ps left cs
    → Kept ps left (c ∷ cs)
Kept-quiet c f k = record { gone = k.gone; joined = k.joined; acked = All-map f k.gone k.acked }

Kept-acks :
    (ps qs : List Pending) {left : List Pending} {cs : List Call} (v : Value)
    → AckSplit v ps (remaining v ps)
    → Kept (remaining v ps ++ qs) left cs
    → Kept (ps ++ qs) left (acks v ∷ cs)
Kept-acks ps qs {left} {cs} v s k = record {
  gone = s.dropped ++ k.gone;
  joined =
      ap (λ x. x ++ qs) s.joined
      ∙ append_assoc s.dropped (remaining v ps) qs
      ∙ ap (◌++◌ s.dropped) k.joined
      ∙ sym (append_assoc s.dropped k.gone left);
  acked =
      All-append (AckedIn (acks v ∷ cs)) s.dropped k.gone
        (All-map (λ p h. inl h) s.dropped s.confirmed) (All-map (λ p h. inr h) k.gone k.acked);
}

module _ (merge : List Bytes → Bytes) where
  replay-Kept :
      (o : Outbox) (cs : List Call)
      → Undestroyed cs
      → o.next + length cs ≤ exact_limit
      → Ascending 1 o.unacked o.next
      → Kept (o.unacked ++ numbered o.next (edits cs)) (replay merge o cs).0.unacked cs
  unfolding replay advance
  replay-Kept o [] u b a = record { gone = []; joined = append-nil o.unacked; acked = tt }
  replay-Kept o (flushes ∷ cs) u b a =
      Kept-quiet flushes (λ p h. h) (replay-Kept o cs u.1 (omega arith) a)
  replay-Kept o (ticks ∷ cs) u b a =
      Kept-quiet ticks (λ p h. h) (replay-Kept o cs u.1 (omega arith) a)
  replay-Kept o (connects ∷ cs) u b a =
      Kept-quiet connects (λ p h. h)
        (replay-Kept (record o { online = true }) cs u.1 (omega arith) a)
  replay-Kept o (disconnects ∷ cs) u b a =
      Kept-quiet disconnects (λ p h. h)
        (replay-Kept (record o { online = false }) cs u.1 (omega arith) a)
  replay-Kept o (destroys ∷ cs) u b a = absurd (u.0 refl)
  replay-Kept o (acks v ∷ cs) u b a =
      Kept-acks o.unacked (numbered o.next (edits cs)) v (remaining-AckSplit v 1 o.next o.unacked a)
        (replay-Kept (record o { unacked = remaining v o.unacked }) cs u.1 (omega arith)
          (remaining-Ascending v o.next o.unacked a))
  replay-Kept o (enqueues x ∷ cs) u b a =
      let p : Pending = record { seq = o.next; update = x } in
      let q : Outbox = record o { unacked = o.unacked ++ p ∷ []; next = suc o.next } in
      rw
        (
          increment-suc o.next (omega arith),
          ← append_assoc o.unacked (p ∷ []) (numbered (suc o.next) (edits cs)),
        )
        (Kept-quiet (enqueues x) (λ p h. h)
          (replay-Kept q cs u.1 (omega arith) (enqueued-Ascending o x (omega arith) a)))

  -- Over a history without `destroy` and within the exact integers, the queue at the start followed
  -- by the edits of the history, numbered on from there, is some updates, each of which an
  -- acknowledgement of the history reaches, followed by the queue at the end.
  pub run-Kept :
      (s : ReliableSync) (cs : List Call)
      → Undestroyed cs
      → s.next_seq + length cs ≤ exact_limit
      → Ascending 1 s.pending s.next_seq
      → Kept (s.pending ++ numbered s.next_seq (edits cs)) (run merge s cs).0.pending cs
  run-Kept s cs u b a =
      rw (ap Outbox.unacked (outbox-run merge s cs)) (replay-Kept (outbox s) cs u b a)

  -- A run of edits numbers them on at the end of the queue.
  replay_edits :
      (o : Outbox) (us : List Bytes)
      → o.next + length us ≤ exact_limit
      → (replay merge o (map enqueues us)).0.unacked ≡ o.unacked ++ numbered o.next us
  unfolding replay advance
  replay_edits o [] b = sym (append-nil o.unacked)
  replay_edits o (u ∷ us) b =
      let p : Pending = record { seq = o.next; update = u } in
      let q : Outbox = record o { unacked = o.unacked ++ p ∷ []; next = suc o.next } in
      ap (λ n. (replay merge (record q { next = n }) (map enqueues us)).0.unacked)
        (increment-suc o.next (omega arith))
      ∙ replay_edits q us (omega arith)
      ∙ append_assoc o.unacked (p ∷ []) (numbered q.next us)

  pub run-edits :
      (s : ReliableSync) (us : List Bytes)
      → s.next_seq + length us ≤ exact_limit
      → (run merge s (map enqueues us)).0.pending ≡ s.pending ++ numbered s.next_seq us
  run-edits s us b =
      rw (ap Outbox.unacked (outbox-run merge s (map enqueues us))) (replay_edits (outbox s) us b)
