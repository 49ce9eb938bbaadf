-- ===== src/Scripts/Turns/Anycable.antt =====
-- The rounds in which the AnyCable clients of examples/actioncable-demo/frontend read an update.
use y_ruby.Base.{◌≡◌, ◌∙◌, [], Bytes}
use y_ruby.External.{Packages}
use y_ruby.Session.Exchange.{SyncLaws}
use y_ruby.Scripts.Turns.{updated, guarantee-Deaf, concurrent-Deaf, loadtest-Deaf, probe-Deaf}
use y_ruby.Scripts.{goes_on}
use y_ruby.Scripts.Rounds.Sync.{frame_of, read_type-sync, read_sync-update}
use y_ruby.Scripts.AnycableGuarantee
use y_ruby.Scripts.AnycableConcurrent
use y_ruby.Scripts.Loadtest
use y_ruby.Scripts.AnycableProbe

module _ {lib : Packages} (laws : SyncLaws lib) where
  pub guarantee_turn-update :
      (c : AnycableGuarantee.Client lib) (u : Bytes)
      → AnycableGuarantee.turn c (frame_of (lib.write_update u)) ≡ goes_on (updated c u) []
  unfolding AnycableGuarantee.turn
  guarantee_turn-update c u =
      read_type-sync laws c (lib.write_update u) _
      ∙ read_sync-update laws AnycableGuarantee.on_update guarantee-Deaf (λ d r. d) c u

  pub concurrent_turn-update :
      (c : AnycableConcurrent.Client lib) (u : Bytes)
      → AnycableConcurrent.turn c (frame_of (lib.write_update u)) ≡ goes_on (updated c u) []
  unfolding AnycableConcurrent.turn
  concurrent_turn-update c u =
      read_type-sync laws c (lib.write_update u) _
      ∙ read_sync-update laws AnycableConcurrent.on_update concurrent-Deaf (λ d r. d) c u

  pub loadtest_turn-update :
      (c : Loadtest.Client lib) (u : Bytes)
      → Loadtest.turn c (frame_of (lib.write_update u))
        ≡ goes_on (Loadtest.observe c.doc (updated c u)) []
  unfolding Loadtest.turn
  loadtest_turn-update c u =
      read_type-sync laws c (lib.write_update u) _
      ∙ read_sync-update laws Loadtest.on_update loadtest-Deaf (λ d r. Loadtest.observe c.doc d) c u

  pub probe_turn-update :
      (c : AnycableProbe.Client lib) (u : Bytes)
      → AnycableProbe.turn c (frame_of (lib.write_update u)) ≡ goes_on (updated c u) []
  unfolding AnycableProbe.turn
  probe_turn-update c u =
      read_type-sync laws c (lib.write_update u) _
      ∙ read_sync-update laws AnycableProbe.on_update probe-Deaf (λ d r. d) c u
