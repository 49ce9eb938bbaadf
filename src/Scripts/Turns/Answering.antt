-- ===== src/Scripts/Turns/Answering.antt =====
-- The rounds in which the clients that answer read an update or a SyncStep1, in the scripts of
-- examples/actioncable-demo/frontend.
use y_ruby.Base.{◌≡◌, ap, ◌∙◌, [], Bytes, arith}
use y_ruby.External.{Packages}
use y_ruby.Session.Exchange.{SyncLaws}
use y_ruby.Scripts.Turns.{
  updated, reply_frame, audit-Deaf, chaos-Deaf, crash-Deaf, scenarios-Deaf, multiprocess-Deaf,
}
use y_ruby.Scripts.{goes_on, answer}
use y_ruby.Scripts.Rounds.Sync.{
  frame_of, read_type-sync, read_sync-update, read_sync-step1, answer-update, answer-step1,
}
use y_ruby.Scripts.Audit
use y_ruby.Scripts.Chaos
use y_ruby.Scripts.CrashRecovery
use y_ruby.Scripts.AuditScenarios
use y_ruby.Scripts.Multiprocess

module _ {lib : Packages} (laws : SyncLaws lib) where
  pub audit_turn-update :
      (c : Audit.Client lib) (u : Bytes)
      → Audit.turn c (frame_of (lib.write_update u)) ≡ goes_on (updated c u) []
  unfolding Audit.turn
  audit_turn-update c u =
      read_type-sync laws c (lib.write_update u) _
      ∙ read_sync-update laws Audit.on_update audit-Deaf (answer Audit.send) c u
      ∙ ap (λ s. goes_on s []) (answer-update laws Audit.send (updated c u) c.doc u)

  pub audit_turn-step1 :
      (c : Audit.Client lib) (d : lib.Doc)
      → Audit.turn c (frame_of (lib.write_sync_step1 d))
        ≡ goes_on (Audit.send c (reply_frame lib c.doc d)) []
  unfolding Audit.turn
  audit_turn-step1 c d =
      read_type-sync laws c (lib.write_sync_step1 d) _
      ∙ read_sync-step1 laws Audit.on_update audit-Deaf (answer Audit.send) c d
      ∙ ap (λ s. goes_on s []) (answer-step1 laws Audit.send c c.doc d)

  pub chaos_turn-update :
      (c : Chaos.Client lib) (u : Bytes)
      → Chaos.turn c (frame_of (lib.write_update u)) ≡ goes_on (updated c u) []
  unfolding Chaos.turn
  chaos_turn-update c u =
      read_type-sync laws c (lib.write_update u) _
      ∙ read_sync-update laws Chaos.on_update chaos-Deaf (answer Chaos.send) c u
      ∙ ap (λ s. goes_on s []) (answer-update laws Chaos.send (updated c u) c.doc u)

  pub chaos_turn-step1 :
      (c : Chaos.Client lib) (d : lib.Doc)
      → Chaos.turn c (frame_of (lib.write_sync_step1 d))
        ≡ goes_on (Chaos.send c (reply_frame lib c.doc d)) []
  unfolding Chaos.turn
  chaos_turn-step1 c d =
      read_type-sync laws c (lib.write_sync_step1 d) _
      ∙ read_sync-step1 laws Chaos.on_update chaos-Deaf (answer Chaos.send) c d
      ∙ ap (λ s. goes_on s []) (answer-step1 laws Chaos.send c c.doc d)

  crash_note-update :
      (c : CrashRecovery.Client lib) (u : Bytes) (d : lib.Doc)
      → CrashRecovery.note_step2 c (lib.read_sync_message (lib.write_update u) d) ≡ c
  unfolding CrashRecovery.note_step2
  crash_note-update c u d = ground (arith, ap (λ x. x.sync_type) (laws.update_read u d))

  crash_note-step1 :
      (c : CrashRecovery.Client lib) (d d' : lib.Doc)
      → CrashRecovery.note_step2 c (lib.read_sync_message (lib.write_sync_step1 d') d) ≡ c
  unfolding CrashRecovery.note_step2
  crash_note-step1 c d d' = ground (arith, laws.step1_read d d')

  pub crash_turn-update :
      (c : CrashRecovery.Client lib) (u : Bytes)
      → CrashRecovery.turn c (frame_of (lib.write_update u)) ≡ goes_on (updated c u) []
  unfolding CrashRecovery.turn
  crash_turn-update c u =
      read_type-sync laws c (lib.write_update u) _
      ∙ read_sync-update laws CrashRecovery.on_update crash-Deaf
          (λ d r. CrashRecovery.note_step2 (answer CrashRecovery.send d r) r) c u
      ∙ ap (λ s. goes_on s [])
          (crash_note-update _ u c.doc
            ∙ answer-update laws CrashRecovery.send (updated c u) c.doc u)

  pub crash_turn-step1 :
      (c : CrashRecovery.Client lib) (d : lib.Doc)
      → CrashRecovery.turn c (frame_of (lib.write_sync_step1 d))
        ≡ goes_on (CrashRecovery.send c (reply_frame lib c.doc d)) []
  unfolding CrashRecovery.turn
  crash_turn-step1 c d =
      read_type-sync laws c (lib.write_sync_step1 d) _
      ∙ read_sync-step1 laws CrashRecovery.on_update crash-Deaf
          (λ d r. CrashRecovery.note_step2 (answer CrashRecovery.send d r) r) c d
      ∙ ap (λ s. goes_on s [])
          (crash_note-step1 _ c.doc d ∙ answer-step1 laws CrashRecovery.send c c.doc d)

  scenarios_note-update :
      (c : AuditScenarios.Client lib) (u : Bytes) (d : lib.Doc)
      → AuditScenarios.note_step2 c (lib.read_sync_message (lib.write_update u) d) ≡ c
  unfolding AuditScenarios.note_step2
  scenarios_note-update c u d = ground (arith, ap (λ x. x.sync_type) (laws.update_read u d))

  scenarios_note-step1 :
      (c : AuditScenarios.Client lib) (d d' : lib.Doc)
      → AuditScenarios.note_step2 c (lib.read_sync_message (lib.write_sync_step1 d') d) ≡ c
  unfolding AuditScenarios.note_step2
  scenarios_note-step1 c d d' = ground (arith, laws.step1_read d d')

  pub scenarios_turn-update :
      (c : AuditScenarios.Client lib) (u : Bytes)
      → AuditScenarios.turn c (frame_of (lib.write_update u)) ≡ goes_on (updated c u) []
  unfolding AuditScenarios.turn
  scenarios_turn-update c u =
      read_type-sync laws c (lib.write_update u) _
      ∙ read_sync-update laws AuditScenarios.heard scenarios-Deaf
          (λ d r. AuditScenarios.note_step2 (answer AuditScenarios.send d r) r) c u
      ∙ ap (λ s. goes_on s [])
          (scenarios_note-update _ u c.doc
            ∙ answer-update laws AuditScenarios.send (updated c u) c.doc u)

  pub scenarios_turn-step1 :
      (c : AuditScenarios.Client lib) (d : lib.Doc)
      → AuditScenarios.turn c (frame_of (lib.write_sync_step1 d))
        ≡ goes_on (AuditScenarios.send c (reply_frame lib c.doc d)) []
  unfolding AuditScenarios.turn
  scenarios_turn-step1 c d =
      read_type-sync laws c (lib.write_sync_step1 d) _
      ∙ read_sync-step1 laws AuditScenarios.heard scenarios-Deaf
          (λ d r. AuditScenarios.note_step2 (answer AuditScenarios.send d r) r) c d
      ∙ ap (λ s. goes_on s [])
          (scenarios_note-step1 _ c.doc d ∙ answer-step1 laws AuditScenarios.send c c.doc d)

  multiprocess_note-update :
      (c : Multiprocess.Client lib) (u : Bytes) (d : lib.Doc)
      → Multiprocess.note_step2 c (lib.read_sync_message (lib.write_update u) d) ≡ c
  unfolding Multiprocess.note_step2
  multiprocess_note-update c u d = ground (arith, ap (λ x. x.sync_type) (laws.update_read u d))

  multiprocess_note-step1 :
      (c : Multiprocess.Client lib) (d d' : lib.Doc)
      → Multiprocess.note_step2 c (lib.read_sync_message (lib.write_sync_step1 d') d) ≡ c
  unfolding Multiprocess.note_step2
  multiprocess_note-step1 c d d' = ground (arith, laws.step1_read d d')

  pub multiprocess_turn-update :
      (c : Multiprocess.Client lib) (u : Bytes)
      → Multiprocess.turn c (frame_of (lib.write_update u)) ≡ goes_on (updated c u) []
  unfolding Multiprocess.turn
  multiprocess_turn-update c u =
      read_type-sync laws c (lib.write_update u) _
      ∙ read_sync-update laws Multiprocess.on_update multiprocess-Deaf
          (λ d r. Multiprocess.note_step2 (answer Multiprocess.send d r) r) c u
      ∙ ap (λ s. goes_on s [])
          (multiprocess_note-update _ u c.doc
            ∙ answer-update laws Multiprocess.send (updated c u) c.doc u)

  pub multiprocess_turn-step1 :
      (c : Multiprocess.Client lib) (d : lib.Doc)
      → Multiprocess.turn c (frame_of (lib.write_sync_step1 d))
        ≡ goes_on (Multiprocess.send c (reply_frame lib c.doc d)) []
  unfolding Multiprocess.turn
  multiprocess_turn-step1 c d =
      read_type-sync laws c (lib.write_sync_step1 d) _
      ∙ read_sync-step1 laws Multiprocess.on_update multiprocess-Deaf
          (λ d r. Multiprocess.note_step2 (answer Multiprocess.send d r) r) c d
      ∙ ap (λ s. goes_on s [])
          (multiprocess_note-step1 _ c.doc d ∙ answer-step1 laws Multiprocess.send c c.doc d)
