-- ===== src/Scripts/Stress/Rounds.antt =====
-- How often a client of examples/actioncable-demo/frontend/stress.mjs drops its socket and reconnects in its
-- storm.
use mathlib.Core.Path.{ap₂}
use y_ruby.Base.{
  ℕ, zero, suc, ◌+◌, ◌/◌, ltb, leb, ◌==◌, Bool, true, false, ◌&&◌, if◌then◌else◌, Option, none,
  some, List, [], ◌∷◌, ◌++◌, ◌≡◌, refl, ap, ◌∙◌, arith,
}
use y_ruby.Scripts.Stress.Storm.{
  StormStep, closes_socket, reconnects, flushes, edits_in, shows_in, offline_at, is_at, storm_round,
  storm_rounds, storm_steps,
}

abbrev pub closings : List StormStep → ℕ
closings [] = 0
closings (closes_socket ∷ xs) = suc (closings xs)
closings (reconnects ∷ xs) = closings xs
closings (flushes ∷ xs) = closings xs
closings (edits_in round ∷ xs) = closings xs
closings (shows_in round ∷ xs) = closings xs

abbrev pub reconnections : List StormStep → ℕ
reconnections [] = 0
reconnections (closes_socket ∷ xs) = reconnections xs
reconnections (reconnects ∷ xs) = suc (reconnections xs)
reconnections (flushes ∷ xs) = reconnections xs
reconnections (edits_in round ∷ xs) = reconnections xs
reconnections (shows_in round ∷ xs) = reconnections xs

closings-append : (xs ys : List StormStep) → closings (xs ++ ys) ≡ closings xs + closings ys
closings-append [] ys = omega arith
closings-append (closes_socket ∷ xs) ys = omega (arith, closings-append xs ys)
closings-append (reconnects ∷ xs) ys = closings-append xs ys
closings-append (flushes ∷ xs) ys = closings-append xs ys
closings-append (edits_in round ∷ xs) ys = closings-append xs ys
closings-append (shows_in round ∷ xs) ys = closings-append xs ys

reconnections-append :
    (xs ys : List StormStep) → reconnections (xs ++ ys) ≡ reconnections xs + reconnections ys
reconnections-append [] ys = omega arith
reconnections-append (closes_socket ∷ xs) ys = reconnections-append xs ys
reconnections-append (reconnects ∷ xs) ys = omega (arith, reconnections-append xs ys)
reconnections-append (flushes ∷ xs) ys = reconnections-append xs ys
reconnections-append (edits_in round ∷ xs) ys = reconnections-append xs ys
reconnections-append (shows_in round ∷ xs) ys = reconnections-append xs ys

storm_round-counts :
    (offline : Option ℕ) (round : ℕ)
    → (closings (storm_round offline round) ≡ (if is_at offline 0 round then 1 else 0))
      × (reconnections (storm_round offline round) ≡ (if is_at offline 10 round then 1 else 0))
unfolding storm_round
storm_round-counts offline round = ground arith

-- The round that the counter meets in a range of rounds.
abbrev met : ℕ → ℕ → ℕ → ℕ
met target count round = if leb round target && ltb target (round + count) then 1 else 0

met-step :
    (target count round : ℕ)
    → (if round == target then 1 else 0) + met target count (suc round)
      ≡ met target (suc count) round
met-step target count round = ground arith

storm_rounds-reconnections :
    (offline : Option ℕ) (target : ℕ)
    → ((round : ℕ) → is_at offline 10 round ≡ (round == target))
    → (count round : ℕ) → reconnections (storm_rounds offline count round) ≡ met target count round
unfolding storm_rounds
storm_rounds-reconnections offline target h zero round = ground arith
storm_rounds-reconnections offline target h (suc count) round =
    reconnections-append (storm_round offline round) (storm_rounds offline count (suc round))
    ∙ ap₂ ◌+◌
        ((storm_round-counts offline round).1 ∙ ap (λ (b : Bool). if b then 1 else 0) (h round))
        (storm_rounds-reconnections offline target h count (suc round))
    ∙ met-step target count round

storm_rounds-closings :
    (churned : ℕ) (count round : ℕ)
    → closings (storm_rounds (some churned) count round) ≡ met churned count round
unfolding storm_rounds is_at
storm_rounds-closings churned zero round = ground arith
storm_rounds-closings churned (suc count) round =
    closings-append (storm_round (some churned) round)
      (storm_rounds (some churned) count (suc round))
    ∙ ap₂ ◌+◌ ((storm_round-counts (some churned) round).0 ∙ ground arith)
        (storm_rounds-closings churned count (suc round))
    ∙ met-step churned count round

never_closes : (count round : ℕ) → closings (storm_rounds none count round) ≡ 0
unfolding storm_rounds is_at
never_closes zero round = refl
never_closes (suc count) round =
    closings-append (storm_round none round) (storm_rounds none count (suc round))
    ∙ ap₂ ◌+◌ (storm_round-counts none round).0 (never_closes count (suc round))
    ∙ ground arith

-- A client that does not churn never closes its socket in the storm, but from ten edits on it reconnects once.
-- One that churns closes its socket once, if there is an edit at all, and reconnects only if there are more
-- than twenty.
pub storm_reconnects :
    (edits : ℕ)
    → (closings (storm_steps false edits) ≡ 0)
      × (reconnections (storm_steps false edits) ≡ (if ltb 9 edits then 1 else 0))
      × (closings (storm_steps true edits) ≡ (if ltb 0 edits then 1 else 0))
      × (reconnections (storm_steps true edits) ≡ (if ltb 20 edits then 1 else 0))
unfolding storm_steps offline_at
storm_reconnects edits = (
  closings-append (storm_rounds none edits 0) [] ∙ ap₂ ◌+◌ (never_closes edits 0) refl,
  reconnections-append (storm_rounds none edits 0) []
      ∙ ap₂ ◌+◌ (storm_rounds-reconnections none 9 (λ round. unfold is_at in ground arith) edits 0)
          refl
      ∙ ground arith,
  closings-append (storm_rounds (some (edits / 2)) edits 0) (flushes ∷ [])
      ∙ ap₂ ◌+◌ (storm_rounds-closings (edits / 2) edits 0) refl
      ∙ ground arith,
  reconnections-append (storm_rounds (some (edits / 2)) edits 0) (flushes ∷ [])
      ∙ ap₂ ◌+◌
          (storm_rounds-reconnections (some (edits / 2)) (edits / 2 + 10)
            (λ round. unfold is_at in refl) edits 0)
          refl
      ∙ ground arith,
)
