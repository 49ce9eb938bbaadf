-- ===== src/Scripts/Ends/Rounds.antt =====
-- Each round of the loops over a frame in examples/actioncable-demo/frontend reads something.
use y_ruby.Base.{◌==◌, arith}
use y_ruby.External.{Packages}
use y_ruby.Framing.{sync_message, awareness_message}
use y_ruby.Scripts.Loops.{
  ReadLaws, Shrinks, read_type-Leaves, skip_block-Leaves, skip_or_break-Leaves, apply_block-Leaves,
  read_sync-Leaves, if-Leaves,
}
use y_ruby.Scripts.Audit
use y_ruby.Scripts.Chaos
use y_ruby.Scripts.CrashRecovery
use y_ruby.Scripts.AuditScenarios
use y_ruby.Scripts.Multiprocess
use y_ruby.Scripts.AnycableGuarantee
use y_ruby.Scripts.AnycableConcurrent
use y_ruby.Scripts.Loadtest
use y_ruby.Scripts.AnycableProbe
use y_ruby.Scripts.EndToEnd
use y_ruby.Scripts.Stress
use y_ruby.Scripts.ReliableClient

module _ {lib : Packages} (laws : ReadLaws lib) where
  pub audit_turn-Shrinks : Shrinks (Audit.turn {lib = lib})
  unfolding Audit.turn
  audit_turn-Shrinks c bs = read_type-Leaves laws c bs _ λ type rest.
      if-Leaves _ (type == sync_message) _ _ (read_sync-Leaves laws _ c rest _)
        (skip_block-Leaves laws c rest)

  pub chaos_turn-Shrinks : Shrinks (Chaos.turn {lib = lib})
  unfolding Chaos.turn
  chaos_turn-Shrinks c bs = read_type-Leaves laws c bs _ λ type rest.
      if-Leaves _ (type == sync_message) _ _ (read_sync-Leaves laws _ c rest _)
        (skip_block-Leaves laws c rest)

  pub crash_recovery_turn-Shrinks : Shrinks (CrashRecovery.turn {lib = lib})
  unfolding CrashRecovery.turn
  crash_recovery_turn-Shrinks c bs = read_type-Leaves laws c bs _ λ type rest.
      if-Leaves _ (type == sync_message) _ _ (read_sync-Leaves laws _ c rest _)
        (skip_block-Leaves laws c rest)

  pub audit_scenarios_turn-Shrinks : Shrinks (AuditScenarios.turn {lib = lib})
  unfolding AuditScenarios.turn
  audit_scenarios_turn-Shrinks c bs = read_type-Leaves laws c bs _ λ type rest.
      if-Leaves _ (type == sync_message) _ _ (read_sync-Leaves laws _ c rest _)
        (skip_block-Leaves laws c rest)

  pub multiprocess_turn-Shrinks : Shrinks (Multiprocess.turn {lib = lib})
  unfolding Multiprocess.turn
  multiprocess_turn-Shrinks c bs = read_type-Leaves laws c bs _ λ type rest.
      if-Leaves _ (type == sync_message) _ _ (read_sync-Leaves laws _ c rest _) (
        if-Leaves _ (type == awareness_message) _ _ (apply_block-Leaves laws _ c rest _)
          (omega arith))

  pub anycable_guarantee_turn-Shrinks : Shrinks (AnycableGuarantee.turn {lib = lib})
  unfolding AnycableGuarantee.turn
  anycable_guarantee_turn-Shrinks c bs = read_type-Leaves laws c bs _ λ type rest.
      if-Leaves _ (type == sync_message) _ _ (read_sync-Leaves laws _ c rest _)
        (skip_or_break-Leaves laws c rest)

  pub anycable_concurrent_turn-Shrinks : Shrinks (AnycableConcurrent.turn {lib = lib})
  unfolding AnycableConcurrent.turn
  anycable_concurrent_turn-Shrinks c bs = read_type-Leaves laws c bs _ λ type rest.
      if-Leaves _ (type == sync_message) _ _ (read_sync-Leaves laws _ c rest _)
        (skip_or_break-Leaves laws c rest)

  pub loadtest_turn-Shrinks : Shrinks (Loadtest.turn {lib = lib})
  unfolding Loadtest.turn
  loadtest_turn-Shrinks c bs = read_type-Leaves laws c bs _ λ type rest.
      if-Leaves _ (type == sync_message) _ _ (read_sync-Leaves laws _ c rest _)
        (skip_or_break-Leaves laws c rest)

  pub anycable_probe_turn-Shrinks : Shrinks (AnycableProbe.turn {lib = lib})
  unfolding AnycableProbe.turn
  anycable_probe_turn-Shrinks c bs = read_type-Leaves laws c bs _ λ type rest.
      if-Leaves _ (type == sync_message) _ _ (read_sync-Leaves laws _ c rest _)
        (skip_or_break-Leaves laws c rest)

  pub end_to_end_turn-Shrinks : Shrinks (EndToEnd.turn {lib = lib})
  unfolding EndToEnd.turn
  end_to_end_turn-Shrinks c bs = read_type-Leaves laws c bs _ λ type rest.
      if-Leaves _ (type == sync_message) _ _ (read_sync-Leaves laws _ c rest _)
        (if-Leaves _ (type == awareness_message) _ _ (apply_block-Leaves laws _ c rest _) tt)

  pub stress_turn-Shrinks : Shrinks (Stress.turn {lib = lib})
  unfolding Stress.turn
  stress_turn-Shrinks c bs = read_type-Leaves laws c bs _ λ type rest.
      if-Leaves _ (type == sync_message) _ _ (read_sync-Leaves laws _ c rest _)
        (if-Leaves _ (type == awareness_message) _ _ (apply_block-Leaves laws _ c rest _) tt)

  pub reliable_client_turn-Shrinks : Shrinks (ReliableClient.turn {lib = lib})
  unfolding ReliableClient.turn
  reliable_client_turn-Shrinks c bs = read_type-Leaves laws c bs _ λ type rest.
      if-Leaves _ (type == sync_message) _ _ (read_sync-Leaves laws _ c rest _)
        (if-Leaves _ (type == awareness_message) _ _ (skip_block-Leaves laws c rest) tt)
