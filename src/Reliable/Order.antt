-- ===== src/Reliable/Order.antt =====
-- The sequence numbers of the queue.
use y_ruby.Base.{ℕ, suc, ◌≤◌, List, [], ◌∷◌, ◌++◌, filter, Bytes, dec_lt, arith}
use y_ruby.Reliable.{Pending}

-- The numbers of the queue rise strictly from `lo` and stay below `hi`.
abbrev pub Ascending : ℕ → List Pending → ℕ → Type 0
Ascending lo [] hi = lo ≤ hi
Ascending lo (p ∷ ps) hi = (lo ≤ p.seq) × Ascending (suc p.seq) ps hi

pub Ascending-mono :
    (lo lo' hi : ℕ) (ps : List Pending) → lo' ≤ lo → Ascending lo ps hi → Ascending lo' ps hi
Ascending-mono lo lo' hi [] h a = omega arith
Ascending-mono lo lo' hi (p ∷ ps) h a = (omega arith, a.1)

pub Ascending-append :
    (lo hi : ℕ) (ps : List Pending) (u : Bytes)
    → Ascending lo ps hi
    → Ascending lo (ps ++ record { seq = hi; update = u } ∷ []) (suc hi)
Ascending-append lo hi [] u a = (a, omega arith)
Ascending-append lo hi (p ∷ ps) u a = (a.0, Ascending-append (suc p.seq) hi ps u a.1)

pub filter-Ascending :
    (id lo hi : ℕ) (ps : List Pending)
    → Ascending lo ps hi
    → Ascending lo (filter (λ p. dec_lt id p.seq) ps) hi
filter-Ascending id lo hi [] a = a
filter-Ascending id lo hi (p ∷ ps) a =
    let rest = filter-Ascending id (suc p.seq) hi ps a.1 in
    ground (arith, rest, Ascending-mono (suc p.seq) lo hi (filter (λ q. dec_lt id q.seq) ps))

pub lo-le-hi : (lo hi : ℕ) (ps : List Pending) → Ascending lo ps hi → lo ≤ hi
lo-le-hi lo hi [] a = a
lo-le-hi lo hi (p ∷ ps) a = omega (arith, lo-le-hi (suc p.seq) hi ps a.1)
