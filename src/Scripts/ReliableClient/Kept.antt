-- ===== src/Scripts/ReliableClient/Kept.antt =====
-- What a history keeps of the updates that the client of examples/actioncable-demo/frontend/reliable.mjs has
-- numbered.
use y_ruby.Base.{
  ℕ, List, [], ◌∷◌, ◌++◌, Bytes, ◌≡◌, refl, ◌∙◌, inl, inr, arith, length, suc, subst, ◌+◌, ◌<◌, sym,
  ap, ◌≤◌, All, length-append,
}
use y_ruby.External.{Packages}
use y_ruby.Framing.{frame_update}
use y_ruby.Scripts.ReliableClient.{Client, retransmit}
use y_ruby.Scripts.ReliableClient.Ledger.{
  Ledger, ledger, issue, settle, Below, IsSafe, Below-delete, Below-issue, IsSafe-issue,
  IsSafe-settle, IsSafe-new,
}
use y_ruby.Number.{Value, exact_limit}
use y_ruby.Scripts.ReliableClient.History.{
  ReliableCall, updates, arrives, ticks, blackholes, reliable_step, reliable_run, ledger-update,
  ledger-message, ledger-transmit_all,
}

-- The updates of a history, in order.
abbrev pub updates_of : List ReliableCall → List Bytes
updates_of [] = []
updates_of (updates u ∷ xs) = u ∷ updates_of xs
updates_of (arrives msg ∷ xs) = updates_of xs
updates_of (ticks ∷ xs) = updates_of xs
updates_of (blackholes b ∷ xs) = updates_of xs

updates_of-cons :
    (x : ReliableCall) (xs : List ReliableCall)
    → updates_of (x ∷ xs) ≡ updates_of (x ∷ []) ++ updates_of xs
updates_of-cons (updates u) xs = refl
updates_of-cons (arrives msg) xs = refl
updates_of-cons ticks xs = refl
updates_of-cons (blackholes b) xs = refl

length-updates_of :
    (x : ReliableCall) (xs : List ReliableCall)
    → length (updates_of (x ∷ xs)) ≡ length (updates_of (x ∷ [])) + length (updates_of xs)
length-updates_of x xs =
    ap length (updates_of-cons x xs) ∙ length-append (updates_of (x ∷ [])) (updates_of xs)

-- Their frames, under the numbers from this one on.
abbrev pub number_from : (lib : Packages) → ℕ → List Bytes → List (ℕ × Bytes)
number_from lib n [] = []
number_from lib n (u ∷ us) = (n, frame_update lib u) ∷ number_from lib (suc n) us

-- What a step does to a ledger.
record Follows (l m : Ledger) (more : ℕ) : Type 0 where
  below : Below m.0 m.1
  safe : (e : ℕ × Bytes) → IsSafe l e → IsSafe m e
  count : m.0 ≡ l.0 + more

Follows-same : (l m : Ledger) → Below l.0 l.1 → m ≡ l → Follows l m 0
Follows-same l m h e = record {
  below = subst (λ x. Below x.0 x.1) (sym e) h;
  safe = λ x k. subst (λ y. IsSafe y x) (sym e) k;
  count = ap (λ x. x.0) e ∙ (omega arith);
}

Follows-settle : (l m : Ledger) (ack : Value) → Below l.0 l.1 → m ≡ settle l ack → Follows l m 0
Follows-settle l m ack h e = record {
  below = subst (λ x. Below x.0 x.1) (sym e) (Below-delete ack l.0 l.1 h);
  safe = λ x k. subst (λ y. IsSafe y x) (sym e) (IsSafe-settle l ack x k);
  count = ap (λ x. x.0) e ∙ (omega arith);
}

Follows-issue :
    (l m : Ledger) (frame : Bytes)
    → Below l.0 l.1
    → l.0 < exact_limit
    → m ≡ issue l frame
    → Follows l m 1
Follows-issue l m frame h b e = record {
  below = subst (λ x. Below x.0 x.1) (sym e) (Below-issue l frame b h);
  safe = λ x k. subst (λ y. IsSafe y x) (sym e) (IsSafe-issue l frame x h k);
  count = ap (λ x. x.0) e ∙ (ground arith);
}

module _ {lib : Packages} where
  step-Follows :
      (c : Client lib) (x : ReliableCall)
      → Below c.extra.next_id c.extra.pending
      → c.extra.next_id + length (updates_of (x ∷ [])) ≤ exact_limit
      → Follows (ledger c.extra) (ledger (reliable_step c x).extra) (length (updates_of (x ∷ [])))
  unfolding reliable_step retransmit
  step-Follows c (updates u) h b =
      Follows-issue _ _ (frame_update lib u) h (omega arith) (ledger-update c u)
  step-Follows c (arrives msg) h b = elim (ledger-message c msg) [
    | inl e ↦ Follows-same _ _ h e
    | inr e ↦ Follows-settle _ _ msg.ack h e
  ]
  step-Follows c ticks h b = Follows-same _ _ h (ledger-transmit_all c c.extra.pending)
  step-Follows c (blackholes b') h b = Follows-same _ _ h refl

  run-IsSafe :
      (c : Client lib) (xs : List ReliableCall)
      → Below c.extra.next_id c.extra.pending
      → c.extra.next_id + length (updates_of xs) ≤ exact_limit
      → (e : ℕ × Bytes) → IsSafe (ledger c.extra) e
      → IsSafe (ledger (reliable_run c xs).extra) e
  unfolding reliable_run
  run-IsSafe c [] h b e k = k
  run-IsSafe c (x ∷ xs) h b e k =
      let f = step-Follows c x h (omega (arith, length-updates_of x xs)) in
      run-IsSafe (reliable_step c x) xs f.below (omega (arith, f.count, length-updates_of x xs)) e
        (f.safe e k)

  -- No update of the document is lost: over any history of local updates, messages, timer ticks and outages
  -- in which the numbers stay within the exact integers, each local update's frame is pending under its
  -- number at the end, or an acknowledgement of that number has arrived. At the start the pending numbers
  -- are below the next.
  pub reliable_run-IsSafe :
      (c : Client lib) (xs : List ReliableCall)
      → Below c.extra.next_id c.extra.pending
      → c.extra.next_id + length (updates_of xs) ≤ exact_limit
      → All
          (IsSafe (ledger (reliable_run c xs).extra))
          (number_from lib c.extra.next_id (updates_of xs))
  unfolding reliable_run
  reliable_run-IsSafe c [] h b = tt
  reliable_run-IsSafe c (updates u ∷ xs) h b =
      let d = reliable_step c (updates u) in
      let l = ledger c.extra in
      let f = step-Follows c (updates u) h (omega arith) in
      let fresh =
        subst (λ m. IsSafe m (l.0, frame_update lib u)) (sym (ledger-update c u))
          (IsSafe-new l (frame_update lib u) h) in
      let rest = reliable_run-IsSafe d xs f.below (omega (arith, f.count)) in
      let number : d.extra.next_id ≡ suc c.extra.next_id = f.count ∙ (omega arith) in
      (
        run-IsSafe d xs f.below (omega (arith, f.count)) (l.0, frame_update lib u) fresh,
        subst
            (λ n.
              All (IsSafe (ledger (reliable_run d xs).extra)) (number_from lib n (updates_of xs)))
            number rest,
      )
  reliable_run-IsSafe c (arrives msg ∷ xs) h b =
      let d = reliable_step c (arrives msg) in
      let f = step-Follows c (arrives msg) h (omega arith) in
      let number : d.extra.next_id ≡ c.extra.next_id = f.count ∙ (omega arith) in
      subst
        (λ n. All (IsSafe (ledger (reliable_run d xs).extra)) (number_from lib n (updates_of xs)))
        number (reliable_run-IsSafe d xs f.below (omega (arith, f.count)))
  reliable_run-IsSafe c (ticks ∷ xs) h b =
      let d = reliable_step c ticks in
      let f = step-Follows c ticks h (omega arith) in
      let number : d.extra.next_id ≡ c.extra.next_id = f.count ∙ (omega arith) in
      subst
        (λ n. All (IsSafe (ledger (reliable_run d xs).extra)) (number_from lib n (updates_of xs)))
        number (reliable_run-IsSafe d xs f.below (omega (arith, f.count)))
  reliable_run-IsSafe c (blackholes b' ∷ xs) h b =
      let d = reliable_step c (blackholes b') in
      let f = step-Follows c (blackholes b') h (omega arith) in
      let number : d.extra.next_id ≡ c.extra.next_id = f.count ∙ (omega arith) in
      subst
        (λ n. All (IsSafe (ledger (reliable_run d xs).extra)) (number_from lib n (updates_of xs)))
        number (reliable_run-IsSafe d xs f.below (omega (arith, f.count)))
