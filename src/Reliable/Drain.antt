-- ===== src/Reliable/Drain.antt =====
-- The acknowledgement of a flush of reliable_sync.ts, and the quiet that follows it.
use mathlib.Core.Path.{ap₂}
use mathlib.Core.List.{filter-append}
use y_ruby.Base.{
  ℕ, suc, ◌≡◌, List, [], ◌∷◌, ◌++◌, Bytes, ◌≢◌, All, ◌<◌, ◌+◌, ◌≤◌, false, length, arith, map, true,
  refl, ◌∙◌, ap, none, dec_lt,
}
use y_ruby.Reliable.Outbox.{remaining, unconfirmed}
use y_ruby.Reliable.{
  last_seq, Pending, ReliableSync, on_ack, run, enqueues, on_tick, step, acks, ticks,
}
use y_ruby.Number.{Value, number, integer, exact_limit}
use y_ruby.Reliable.Order.{Ascending}
use y_ruby.Reliable.Delivery.{numbered, run-edits}
use y_ruby.Reliable.Acks.{on_ack-remaining, last_seq-top}
use y_ruby.Reliable.Timer.{IsTimed, step-IsTimed}

unconfirmed-reached :
    (id : ℕ) (ps : List Pending) → All (λ p. p.seq ≤ id) ps → unconfirmed id ps ≡ []
unconfirmed-reached id [] h = refl
unconfirmed-reached id (p ∷ ps) h = ground (arith, unconfirmed-reached id ps h.1)

unconfirmed-numbered :
    (id n : ℕ) (us : List Bytes) → id < n → unconfirmed id (numbered n us) ≡ numbered n us
unconfirmed-numbered id n [] h = refl
unconfirmed-numbered id n (u ∷ us) h = ground (arith, unconfirmed-numbered id (suc n) us)

pub last_seq-lt : (lo hi : ℕ) (ps : List Pending) → ps ≢ [] → Ascending lo ps hi → last_seq ps < hi
unfolding last_seq
last_seq-lt lo hi [] n a = absurd (n refl)
last_seq-lt lo hi (p ∷ []) n a = omega arith
last_seq-lt lo hi (p ∷ q ∷ ps) n a = last_seq-lt (suc p.seq) hi (q ∷ ps) (λ e. cc) a.1

last_seq-numbered :
    (id n : ℕ) (p : Pending) (us : List Bytes)
    → id < n
    → id ≤ p.seq
    → id ≤ last_seq (p ∷ numbered n us)
unfolding last_seq
last_seq-numbered id n p [] h k = k
last_seq-numbered id n p (u ∷ us) h k =
    last_seq-numbered id (suc n) (record { seq = n; update = u }) us (omega arith) (omega arith)

last_seq-append :
    (n : ℕ) (ps : List Pending) (us : List Bytes)
    → ps ≢ []
    → last_seq ps < n
    → last_seq ps ≤ last_seq (ps ++ numbered n us)
unfolding last_seq
last_seq-append n [] us e h = absurd (e refl)
last_seq-append n (p ∷ []) us e h = last_seq-numbered p.seq n p us h (omega arith)
last_seq-append n (p ∷ q ∷ ps) us e h = last_seq-append n (q ∷ ps) us (λ k. cc) h

-- The acknowledgement of a number as the server sends it back.
abbrev pub ack_of : ℕ → Value
ack_of id = number (integer false id)

remaining-believed :
    (id : ℕ) (ps : List Pending)
    → id < exact_limit
    → ((ps ≢ []) → id ≤ last_seq ps)
    → remaining (ack_of id) ps ≡ unconfirmed id ps
unfolding remaining
remaining-believed id [] h k = ground arith
remaining-believed id (p ∷ ps) h k = ground (arith, k (λ e. cc))

module _ (merge : List Bytes → Bytes) where
  -- The acknowledgement of a flush, under the number of the newest update of a queue that is not
  -- empty and rises, takes out exactly that queue: the edits made after the flush stay, in order
  -- and numbered on, as long as the numbers stay within the exact integers.
  pub on_ack-edits :
      (s : ReliableSync) (us : List Bytes)
      → s.pending ≢ []
      → s.next_seq + length us ≤ exact_limit
      → Ascending 1 s.pending s.next_seq
      → (on_ack (run merge s (map enqueues us)).0 (ack_of (last_seq s.pending))).pending
        ≡ numbered s.next_seq us
  on_ack-edits s us n b a =
      let ps = s.pending in
      let later = numbered s.next_seq us in
      let top = last_seq ps in
      let below = last_seq-lt 1 s.next_seq ps n a in
      let t = (run merge s (map enqueues us)).0 in
      on_ack-remaining t (ack_of top)
      ∙ ap (remaining (ack_of top)) (run-edits merge s us b)
      ∙ remaining-believed top (ps ++ later) (omega arith)
          (λ _. last_seq-append s.next_seq ps us n below)
      ∙ filter-append (λ p. dec_lt top p.seq) ps later
      ∙ ap₂ ◌++◌ (unconfirmed-reached top ps (last_seq-top 1 s.next_seq ps a))
          (unconfirmed-numbered top s.next_seq us below)

  tick_keeps : (s : ReliableSync) → (on_tick merge s).0.pending ≡ s.pending
  unfolding on_tick
  tick_keeps s = ground arith

  tick_next : (s : ReliableSync) → (on_tick merge s).0.next_seq ≡ s.next_seq
  unfolding on_tick
  tick_next s = ground arith

  tick-Ascending :
      (s : ReliableSync)
      → Ascending 1 s.pending s.next_seq
      → Ascending 1 (on_tick merge s).0.pending (on_tick merge s).0.next_seq
  unfolding on_tick
  tick-Ascending s a = ground arith

  tick_sends :
      (s : ReliableSync)
      → s.connected ≡ true
      → s.pending ≢ []
      → map (λ m. m.id) (on_tick merge s).1 ≡ last_seq s.pending ∷ []
  unfolding on_tick
  tick_sends s c n = ground arith

  idle_quiet :
      (s : ReliableSync)
      → IsTimed s
      → s.pending ≡ []
      → (s.pending ≡ []) × (s.timer ≡ none) × (s.intervals ≡ []) × ((on_tick merge s).1 ≡ [])
  unfolding on_tick
  idle_quiet s t e = ground arith

  acked_empty :
      (s : ReliableSync)
      → s.pending ≢ []
      → s.next_seq ≤ exact_limit
      → Ascending 1 s.pending s.next_seq
      → (on_ack s (ack_of (last_seq s.pending))).pending ≡ []
  unfolding run
  acked_empty s n b a = on_ack-edits s [] n (omega arith) a

  -- One retransmission and its acknowledgement end it: from a queue that is not empty, rises within
  -- the exact integers and has its timer in order, the tick of a connected client sends one delta
  -- under the newest number, and once that number is acknowledged nothing is queued, no timer runs,
  -- and a further tick sends nothing.
  pub tick_then_ack :
      (s : ReliableSync)
      → s.connected ≡ true
      → s.pending ≢ []
      → s.next_seq ≤ exact_limit
      → Ascending 1 s.pending s.next_seq
      → IsTimed s
      → let (t, sent) = on_tick merge s in
        let u = on_ack t (ack_of (last_seq s.pending)) in
        (map (λ m. m.id) sent ≡ last_seq s.pending ∷ [])
        × (u.pending ≡ [])
        × (u.timer ≡ none)
        × (u.intervals ≡ [])
        × ((on_tick merge u).1 ≡ [])
  unfolding step
  tick_then_ack s c n b a t =
      let v = ack_of (last_seq s.pending) in
      let s' = (on_tick merge s).0 in
      let drained =
        rw tick_keeps at (acked_empty s' (rw tick_keeps n) (rw tick_next b) (tick-Ascending s a)) in
      let timed = step-IsTimed merge s' (acks v) (step-IsTimed merge s ticks t) in
      let (e₀, e₁, e₂, e₃) = idle_quiet (on_ack s' v) timed drained in
      (tick_sends s c n, e₀, e₁, e₂, e₃)
