-- ===== src/Reliable/Recorded.antt =====
-- The queue of reliable_sync.ts against a server that acknowledges only what it has recorded.
use mathlib.Core.List.{Memᴰ}
use mathlib.Core.List.Memᴰ
use y_ruby.Base.{
  ℕ, suc, ◌+◌, ◌≤◌, ◌<◌, ◌≡◌, refl, List, [], ◌∷◌, ◌++◌, arith, All, Bytes, ◌≢◌, All-append, ap,
  ◌∙◌, length, append_assoc, append-nil, sym, some, subst, All-at, All-members,
}
use y_ruby.Number.{Value, exact_limit}
use y_ruby.Reliable.{
  Call, Pending, Sent, enqueues, acks, destroys, flushes, connects, ack_id, disconnects, ticks,
  ReliableSync, run, step,
}
use y_ruby.Reliable.Order.{Ascending}
use y_ruby.Reliable.Outbox.{Outbox, remaining, advance, outbox-step, outbox, sent-step}
use y_ruby.Reliable.Acks.{Confirms, remaining-AckSplit}
use y_ruby.Reliable.Delivery.{Undestroyed, increment-suc, numbered, edits}
use y_ruby.Reliable.Cache.{IsCached, step-IsCached}
use y_ruby.Reliable.Invariant.{advance-InOrder, InOrder, next_seq-step}
use y_ruby.Reliable.Batches.{Carries, Covers, offers-Covers, advance-Covers}

module _ (merge : List Bytes → Bytes) where
  module _ (IsRecorded : Sent → Type 0) where
    -- An acknowledgement carries no number, or that of a recorded delta.
    abbrev pub Answers : List Sent → Call → Type 0
    Answers sent (acks v) =
        (id : ℕ) → ack_id v ≡ some id → (m : Sent) × Memᴰ m sent × IsRecorded m × (m.id ≡ id)
    Answers sent (enqueues u) = Unit {0}
    Answers sent flushes = Unit {0}
    Answers sent connects = Unit {0}
    Answers sent disconnects = Unit {0}
    Answers sent ticks = Unit {0}
    Answers sent destroys = Unit {0}

    -- Each acknowledgement of the history answers a delta that was sent before it, by the history or
    -- earlier.
    abbrev pub Honest : List Sent → ReliableSync → List Call → Type 0
    Honest sent s [] = Unit {0}
    Honest sent s (c ∷ cs) =
        Answers sent c × Honest (sent ++ (step merge s c).1) (step merge s c).0 cs

    -- The update is in a recorded delta.
    pub record InDelta (sent : List Sent) (p : Pending) : Type 0 where
      pub delta : Sent
      pub batch : List Pending
      pub was_sent : Memᴰ delta sent
      pub recorded : IsRecorded delta
      pub carries : Carries merge delta batch
      pub inside : Memᴰ p batch

    -- What a history leaves of a queue, and what became of the rest.
    pub record Safe (sent : List Sent) (ps left : List Pending) : Type 0 where
      pub gone : List Pending
      pub joined : ps ≡ gone ++ left
      pub recorded : All (InDelta sent) gone

    confirmed-InDelta :
        (sent later : List Sent) (o : Outbox) (v : Value) (p : Pending)
        → All (Covers merge o.unacked o.next) sent
        → Answers sent (acks v)
        → Memᴰ p o.unacked
        → Confirms v p
        → InDelta (sent ++ later) p
    confirmed-InDelta sent later o v p h r m (id, e, le) =
        let (d, was, rec, at) = r id e in
        let c = All-at (Covers merge o.unacked o.next) sent was h in
        record {
          delta = d;
          batch = c.batch;
          was_sent = Memᴰ.append_left later was;
          recorded = rec;
          carries = c.carries;
          inside = All-at (λ q. q.seq ≤ d.id → Memᴰ q c.batch) o.unacked m c.holds (omega arith);
        }

    Safe-acks :
        (sent later : List Sent) (o : Outbox) (v : Value) (qs left : List Pending)
        → Ascending 1 o.unacked o.next
        → All (Covers merge o.unacked o.next) sent
        → Answers sent (acks v)
        → Safe (sent ++ later) (remaining v o.unacked ++ qs) left
        → Safe (sent ++ later) (o.unacked ++ qs) left
    Safe-acks sent later o v qs left a h r k =
        let s = remaining-AckSplit v 1 o.next o.unacked a in
        let all_in : All (InDelta (sent ++ later)) s.dropped =
          All-members (InDelta (sent ++ later)) s.dropped (λ p m.
            confirmed-InDelta sent later o v p h r
              (subst (Memᴰ p) (sym s.joined) (Memᴰ.append_left (remaining v o.unacked) m))
              (All-at (Confirms v) s.dropped m s.confirmed)) in
        record {
          gone = s.dropped ++ k.gone;
          joined =
              ap (λ x. x ++ qs) s.joined
              ∙ append_assoc s.dropped (remaining v o.unacked) qs
              ∙ ap (◌++◌ s.dropped) k.joined
              ∙ sym (append_assoc s.dropped k.gone left);
          recorded = All-append (InDelta (sent ++ later)) s.dropped k.gone all_in k.recorded;
        }

    Safe-back :
        (sent later : List Sent) (o : Outbox) (c : Call) (cs : List Call) (left : List Pending)
        → c ≢ destroys
        → o.next < exact_limit
        → Ascending 1 o.unacked o.next
        → All (Covers merge o.unacked o.next) sent
        → Answers sent c
        → let p = advance merge o c in
          Safe (sent ++ later) (p.unacked ++ numbered p.next (edits cs)) left
          → Safe (sent ++ later) (o.unacked ++ numbered o.next (edits (c ∷ cs))) left
    unfolding advance
    Safe-back sent later o (acks v) cs left n lt a h r k =
        Safe-acks sent later o v (numbered o.next (edits cs)) left a h r k
    Safe-back sent later o (enqueues u) cs left n lt a h r k =
        let p : Pending = record { seq = o.next; update = u } in
        rw (← append_assoc o.unacked (p ∷ []) (numbered (suc o.next) (edits cs))) (
          subst (λ i. Safe (sent ++ later) ((o.unacked ++ p ∷ []) ++ numbered i (edits cs)) left)
            (increment-suc o.next lt) k)
    Safe-back sent later o destroys cs left n lt a h r k = absurd (n refl)
    Safe-back sent later o flushes cs left n lt a h r k = k
    Safe-back sent later o connects cs left n lt a h r k = k
    Safe-back sent later o disconnects cs left n lt a h r k = k
    Safe-back sent later o ticks cs left n lt a h r k = k

    run-Safe :
        (sent : List Sent) (s : ReliableSync) (cs : List Call)
        → Undestroyed cs
        → s.next_seq + length cs ≤ exact_limit
        → Ascending 1 s.pending s.next_seq
        → IsCached merge s
        → All (Covers merge s.pending s.next_seq) sent
        → Honest sent s cs
        → Safe
            (sent ++ (run merge s cs).1)
            (s.pending ++ numbered s.next_seq (edits cs))
            (run merge s cs).0.pending
    unfolding run
    run-Safe sent s [] u b a c h r = record {
      gone = [];
      joined = append-nil s.pending;
      recorded = tt;
    }
    run-Safe sent s (x ∷ cs) u b a c h r =
        let (t, sends) = step merge s x in
        let lt : s.next_seq < exact_limit = omega (arith, b) in
        let moved = outbox-step merge s x in
        let o = outbox s in
        let p = advance merge o x in
        let ahead = advance-InOrder merge o x lt a in
        let order = subst InOrder (sym moved) ahead in
        let fresh =
          subst (All (Covers merge p.unacked p.next)) (sym (sent-step merge s x c))
            (offers-Covers merge p x ahead) in
        let both =
          All-append (Covers merge p.unacked p.next) sent sends
            (advance-Covers merge sent o x lt a h) fresh in
        let covers =
          subst (λ q. All (Covers merge q.unacked q.next) (sent ++ sends)) (sym moved) both in
        let later = (run merge t cs).1 in
        let left = (run merge t cs).0.pending in
        let rest =
          run-Safe (sent ++ sends) t cs u.1 (omega (arith, next_seq-step merge s x)) order
            (step-IsCached merge s x c) covers r.1 in
        Safe-back sent (sends ++ (run merge t cs).1) o x cs (run merge t cs).0.pending u.0 lt a h
          r.0
          (subst (λ l. Safe l (p.unacked ++ numbered p.next (edits cs)) left)
            (append_assoc sent sends later)
            (subst
              (λ q. Safe ((sent ++ sends) ++ later) (q.unacked ++ numbered q.next (edits cs)) left)
              moved rest))

    -- What leaves the queue is recorded. If every acknowledgement of a history without `destroy` carries no
    -- number or that of a delta that the client has sent in it and that is recorded, then the queue at the
    -- start followed by the history's edits, numbered on, is some updates, each of which is in a recorded
    -- delta that the history sent, followed by the queue at the end. This is within the exact integers,
    -- from a queue whose numbers rise and whose memoised merge is right.
    pub run_recorded :
        (s : ReliableSync) (cs : List Call)
        → Undestroyed cs
        → s.next_seq + length cs ≤ exact_limit
        → Ascending 1 s.pending s.next_seq
        → IsCached merge s
        → Honest [] s cs
        → Safe
            (run merge s cs).1
            (s.pending ++ numbered s.next_seq (edits cs))
            (run merge s cs).0.pending
    run_recorded s cs u b a c r = run-Safe [] s cs u b a c tt r
