-- ===== src/Scripts/Stress/Storm.antt =====
-- The storm of examples/actioncable-demo/frontend/stress.mjs: what a client does in which round.
use y_ruby.Scripts.Texts.{Text}
use y_ruby.Scripts.Stress.{
  Client, SharedText, edit, set_presence, reconnect, reconnect_ends, flush_offline,
}
use y_ruby.Base.{
  ℕ, zero, suc, Bool, Option, ◌==◌, if◌then◌else◌, List, [], ◌++◌, some, ◌∷◌, ◌/◌, ◌+◌, ◌%◌, none,
  false,
}
use y_ruby.External.{Packages}
use y_ruby.Scripts.{Documents}

pub data StormStep : Type 0 where
  closes_socket reconnects flushes : StormStep
  edits_in shows_in : ℕ → StormStep

-- `offlineAt`; `none` is -1.
unfoldable pub offline_at : Bool → ℕ → Option ℕ
offline_at churn edits = if churn then some (edits / 2) else none

-- `round === offlineAt + n`
unfoldable pub is_at : Option ℕ → ℕ → ℕ → Bool
is_at none n round = suc round == n
is_at (some k) n round = round == k + n

unfoldable pub storm_round : Option ℕ → ℕ → List StormStep
unfolding is_at
storm_round offline round =
    (if is_at offline 0 round then closes_socket ∷ [] else [])
    ++ ((if is_at offline 10 round then reconnects ∷ [] else [])
        ++ (edits_in round ∷ (if round % 5 == 0 then shows_in round ∷ [] else [])))

-- `count` rounds, from one on.
unfoldable pub storm_rounds : Option ℕ → ℕ → ℕ → List StormStep
unfolding storm_round
storm_rounds offline zero round = []
storm_rounds offline (suc count) round =
    storm_round offline round ++ storm_rounds offline count (suc round)

unfoldable pub storm_steps : Bool → ℕ → List StormStep
unfolding offline_at storm_rounds
storm_steps churn edits =
    storm_rounds (offline_at churn edits) edits 0 ++ (if churn then flushes ∷ [] else [])

-- `meanwhile` is what the client does between two rounds and while it waits for its subscription.
module _ {lib : Packages} (docs : Documents lib) (shared : SharedText lib) (draw : ℕ → ℕ → ℕ)
    (presence : Text → ℕ → lib.Presence) (meanwhile : Client lib → Client lib) where
  unfoldable pub perform : Client lib → StormStep → Client lib
  unfolding edit set_presence reconnect reconnect_ends flush_offline
  perform c closes_socket = record c { is_open = false }
  perform c reconnects = reconnect_ends (meanwhile (reconnect c))
  perform c flushes = flush_offline c
  perform c (edits_in round) = edit docs shared (draw round) c round
  perform c (shows_in round) = set_presence presence c round

  unfoldable pub perform_all : Client lib → List StormStep → Client lib
  unfolding perform
  perform_all c [] = c
  perform_all c (x ∷ xs) = perform_all (meanwhile (perform c x)) xs

  unfoldable pub storm : Bool → ℕ → Client lib → Client lib
  unfolding storm_steps perform_all
  storm churn edits c = perform_all c (storm_steps churn edits)
