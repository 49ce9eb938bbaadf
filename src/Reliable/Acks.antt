-- ===== src/Reliable/Acks.antt =====
-- What `onAck` of reliable_sync.ts does to the queue.
use mathlib.Core.List.{Memᴰ}
use mathlib.Core.List.Memᴰ.{head, tail}
use y_ruby.Base.{
  true, All-map, ℕ, suc, ◌≤◌, ◌<◌, ◌≡◌, refl, some, List, [], ◌∷◌, ◌++◌, All, dec_lt, arith, none,
  inr, inl, ◌⊎◌, ◌≢◌, false, Option-cases, Bool-cases,
}
use y_ruby.Number.{Value}
use y_ruby.Reliable.{ReliableSync, Pending, ack_id, on_ack, last_seq}
use y_ruby.Reliable.Order.{Ascending}
use y_ruby.Reliable.Outbox.{remaining, unconfirmed, believed}

-- The acknowledgement reaches this update.
abbrev pub Confirms : Value → Pending → Type 0
Confirms v p = (id : ℕ) × (ack_id v ≡ some id) × (p.seq ≤ id)

-- It names a number below this update.
abbrev pub FallsShort : Value → Pending → Type 0
FallsShort v p = (id : ℕ) × (ack_id v ≡ some id) × (id < p.seq)

pub on_ack-remaining : (s : ReliableSync) (v : Value) → (on_ack s v).pending ≡ remaining v s.pending
unfolding on_ack remaining
on_ack-remaining s v = ground arith

-- Above the acknowledged number everything is kept.
pub unconfirmed-above :
    (id lo hi : ℕ) (ps : List Pending)
    → id < lo
    → Ascending lo ps hi
    → (unconfirmed id ps ≡ ps) × All (λ p. id < p.seq) ps
unconfirmed-above id lo hi [] h a = (refl, tt)
unconfirmed-above id lo hi (p ∷ ps) h a =
    let rest = unconfirmed-above id (suc p.seq) hi ps (omega arith) a.1 in ground (arith, rest)

pub record Split (id : ℕ) (ps : List Pending) : Type 0 where
  pub dropped : List Pending
  pub joined : ps ≡ dropped ++ unconfirmed id ps
  pub reached : All (λ p. p.seq ≤ id) dropped
  pub beyond : All (λ p. id < p.seq) (unconfirmed id ps)

pub unconfirmed-Split : (id lo hi : ℕ) (ps : List Pending) → Ascending lo ps hi → Split id ps
unconfirmed-Split id lo hi [] a = record { dropped = []; joined = refl; reached = tt; beyond = tt }
unconfirmed-Split id lo hi (p ∷ ps) a = elim (dec_lt id p.seq) [
  | yes above ↦
      let kept = unconfirmed-above id p.seq hi (p ∷ ps) above (omega arith, a.1) in
      record {
        dropped = [];
        joined = ground (arith, kept);
        reached = tt;
        beyond = ground (arith, kept);
      }
  | no below ↦
      let rest = unconfirmed-Split id (suc p.seq) hi ps a.1 in
      record {
        dropped = p ∷ rest.dropped;
        joined = ground (arith, rest.joined);
        reached = (omega arith, rest.reached);
        beyond = ground (arith, rest.beyond);
      }
]

-- It carries no number that could be one, or a number above all that is queued.
abbrev pub Refused : Value → List Pending → Type 0
Refused v ps =
    (ack_id v ≡ none) ⊎ ((id : ℕ) × (ack_id v ≡ some id) × (ps ≢ []) × All (λ p. p.seq < id) ps)

pub last_seq-top :
    (lo hi : ℕ) (ps : List Pending) → Ascending lo ps hi → All (λ p. p.seq ≤ last_seq ps) ps
unfolding last_seq
last_seq-top lo hi [] a = tt
last_seq-top lo hi (p ∷ []) a = (omega arith, tt)
last_seq-top lo hi (p ∷ q ∷ ps) a =
    let rest = last_seq-top (suc p.seq) hi (q ∷ ps) a.1 in (omega arith, rest)

doubted-Refused :
    (v : Value) (id lo hi : ℕ) (ps : List Pending)
    → Ascending lo ps hi
    → ack_id v ≡ some id
    → believed id ps ≡ false
    → Refused v ps
doubted-Refused v id lo hi [] a e b = cc
doubted-Refused v id lo hi (p ∷ ps) a e b =
    inr (id, e, (λ n. cc), All-map (λ q h. ground arith) (p ∷ ps) (last_seq-top lo hi (p ∷ ps) a))

-- It carries a number that is queued or below one that is, or any number while nothing is queued.
abbrev pub Accepted : Value → List Pending → Type 0
Accepted v ps =
    (id : ℕ) × (ack_id v ≡ some id) × ((ps ≡ []) ⊎ ((p : Pending) × Memᴰ p ps × (id ≤ p.seq)))

last_seq-Mem :
    (p : Pending) (ps : List Pending)
    → (q : Pending) × Memᴰ q (p ∷ ps) × (q.seq ≡ last_seq (p ∷ ps))
unfolding last_seq
last_seq-Mem p [] = (p, head refl, refl)
last_seq-Mem p (q ∷ ps) = let (r, m, e) = last_seq-Mem q ps in (r, tail m, e)

believed-Accepted :
    (v : Value) (id : ℕ) (ps : List Pending)
    → ack_id v ≡ some id
    → believed id ps ≡ true
    → Accepted v ps
believed-Accepted v id [] e b = (id, e, inl refl)
believed-Accepted v id (p ∷ ps) e b =
    let (q, m, top) = last_seq-Mem p ps in (id, e, inr (q, m, ground (arith, b, top)))

-- What an acknowledgement leaves alone, and what it drops, of a queue in order.
pub record AckSplit (v : Value) (ps left : List Pending) : Type 0 where
  pub dropped : List Pending
  pub joined : ps ≡ dropped ++ left
  pub confirmed : All (Confirms v) dropped
  pub kept : (Refused v ps × (left ≡ ps)) ⊎ (Accepted v ps × All (FallsShort v) left)

unconfirmed-AckSplit :
    (v : Value) (id : ℕ) (ps : List Pending)
    → ack_id v ≡ some id
    → believed id ps ≡ true
    → Split id ps
    → AckSplit v ps (unconfirmed id ps)
unconfirmed-AckSplit v id ps e b s = record {
  dropped = s.dropped;
  joined = s.joined;
  confirmed = All-map (λ p h. (id, e, h)) s.dropped s.reached;
  kept =
      inr (believed-Accepted v id ps e b, All-map (λ p h. (id, e, h)) (unconfirmed id ps) s.beyond);
}

pub remaining-AckSplit :
    (v : Value) (lo hi : ℕ) (ps : List Pending)
    → Ascending lo ps hi
    → AckSplit v ps (remaining v ps)
unfolding remaining
remaining-AckSplit v lo hi ps a = elim (Option-cases (ack_id v)) [
  | inl e ↦ rw (e, remaining) (unchanged (inl e))
  | inr (id, e) ↦ elim (Bool-cases (believed id ps)) [
    | inl b ↦
        rw (e, remaining)
          (rw b (unconfirmed-AckSplit v id ps e b (unconfirmed-Split id lo hi ps a)))
    | inr b ↦ rw (e, remaining) (rw b (unchanged (doubted-Refused v id lo hi ps a e b)))
  ]
]
  where
    unchanged : Refused v ps → AckSplit v ps ps
    unchanged r = record { dropped = []; joined = refl; confirmed = tt; kept = inl (r, refl) }

-- Whatever value arrives as an acknowledgement, a queue whose numbers rise loses a front part, each
-- update of which has a number up to the acknowledged one. Either the number is up to one that is
-- queued, or nothing is queued, and all that is left has a higher number; or the queue is as before and
-- the value was refused: it is no safe non-negative integer, or is above every number of a queue that
-- is not empty.
pub on_ack-AckSplit :
    (s : ReliableSync) (v : Value)
    → Ascending 1 s.pending s.next_seq
    → AckSplit v s.pending (on_ack s v).pending
on_ack-AckSplit s v a = rw (on_ack-remaining s v) (remaining-AckSplit v 1 s.next_seq s.pending a)
