-- ===== src/Reliable/Batches.antt =====
-- What the deltas that reliable_sync.ts has sent hold of its queue.
use mathlib.Core.List.{Memᴰ}
use y_ruby.Base.{
  All-map, ℕ, suc, ◌≤◌, ◌<◌, ◌≡◌, refl, List, [], ◌∷◌, ◌++◌, arith, All, Bytes, ◌≢◌, All-append,
  Bool-cases, inl, inr, subst, All-behind, ◌&&◌, not, is_empty, All-members,
}
use y_ruby.Number.{Value, exact_limit}
use y_ruby.Reliable.{
  Call, Pending, Sent, enqueues, acks, destroys, flushes, connects, disconnects, ticks, merge_tail,
  updates, last_seq,
}
use y_ruby.Reliable.Order.{Ascending}
use y_ruby.Reliable.Outbox.{Outbox, offer, offers, remaining, advance}
use y_ruby.Reliable.Acks.{remaining-AckSplit}
use y_ruby.Reliable.Drain.{last_seq-lt}
use y_ruby.Reliable.Delivery.{increment-suc}

module _ (merge : List Bytes → Bytes) where
  -- The delta of these updates, in this order.
  pub record Carries (m : Sent) (batch : List Pending) : Type 0 where
    pub content : m.update ≡ merge_tail merge (updates batch)
    pub newest : m.id ≡ last_seq batch

  -- A delta that was sent, of a batch that holds each queued update up to its number.
  pub record Covers (ps : List Pending) (next : ℕ) (m : Sent) : Type 0 where
    pub batch : List Pending
    pub carries : Carries m batch
    pub below : m.id < next
    pub holds : All (λ p. p.seq ≤ m.id → Memᴰ p batch) ps

  offer-Covers :
      (o : Outbox) → Ascending 1 o.unacked o.next → All (Covers o.unacked o.next) (offer merge o)
  unfolding offer
  offer-Covers o a = elim (Bool-cases (o.online && not (is_empty o.unacked))) [
    | inl t ↦
        let n : o.unacked ≢ [] = λ e. ground arith in
        rw t (
          record {
            batch = o.unacked;
            carries = record { content = refl; newest = refl };
            below = last_seq-lt 1 o.next o.unacked n a;
            holds =
                All-members (λ p. p.seq ≤ last_seq o.unacked → Memᴰ p o.unacked) o.unacked
                  (λ p m le. m);
          },
          tt,
        )
    | inr f ↦ rw f tt
  ]

  pub offers-Covers :
      (o : Outbox) (c : Call)
      → Ascending 1 o.unacked o.next
      → All (Covers o.unacked o.next) (offers merge c o)
  unfolding offers
  offers-Covers o disconnects a = tt
  offers-Covers o destroys a = tt
  offers-Covers o (acks v) a = tt
  offers-Covers o (enqueues u) a = offer-Covers o a
  offers-Covers o flushes a = offer-Covers o a
  offers-Covers o connects a = offer-Covers o a
  offers-Covers o ticks a = offer-Covers o a

  Covers-acks :
      (o : Outbox) (v : Value) (m : Sent)
      → Ascending 1 o.unacked o.next
      → Covers o.unacked o.next m
      → Covers (remaining v o.unacked) o.next m
  Covers-acks o v m a h =
      let split = remaining-AckSplit v 1 o.next o.unacked a in
      record {
        batch = h.batch;
        carries = h.carries;
        below = h.below;
        holds =
            All-behind (λ p. p.seq ≤ m.id → Memᴰ p h.batch) split.dropped (remaining v o.unacked)
              (subst (All (λ p. p.seq ≤ m.id → Memᴰ p h.batch)) split.joined h.holds);
      }

  Covers-enqueues :
      (o : Outbox) (u : Bytes) (m : Sent)
      → Covers o.unacked o.next m
      → Covers (o.unacked ++ record { seq = o.next; update = u } ∷ []) (suc o.next) m
  Covers-enqueues o u m h = record {
    batch = h.batch;
    carries = h.carries;
    below = omega (arith, h.below);
    holds =
        All-append (λ p. p.seq ≤ m.id → Memᴰ p h.batch) o.unacked _ h.holds
          ((λ le. absurd (omega (arith, h.below))), tt);
  }

  pub advance-Covers :
      (sent : List Sent) (o : Outbox) (c : Call)
      → o.next < exact_limit
      → Ascending 1 o.unacked o.next
      → All (Covers o.unacked o.next) sent
      → All (Covers (advance merge o c).unacked (advance merge o c).next) sent
  unfolding advance
  advance-Covers sent o (enqueues u) lt a h =
      rw (increment-suc o.next lt) (All-map (λ m k. Covers-enqueues o u m k) sent h)
  advance-Covers sent o (acks v) lt a h = All-map (λ m k. Covers-acks o v m a k) sent h
  advance-Covers sent o destroys lt a h =
      All-map (λ m k. record { batch = k.batch; carries = k.carries; below = k.below; holds = tt })
        sent h
  advance-Covers sent o flushes lt a h = h
  advance-Covers sent o connects lt a h = h
  advance-Covers sent o disconnects lt a h = h
  advance-Covers sent o ticks lt a h = h
