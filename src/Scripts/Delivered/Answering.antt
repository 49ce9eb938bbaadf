-- ===== src/Scripts/Delivered/Answering.antt =====
-- The clients that answer, in the scripts of examples/actioncable-demo/frontend: an update and a SyncStep1.
use y_ruby.Base.{refl, Bytes, All, true, arith}
use y_ruby.External.{Packages}
use y_ruby.Session.Exchange.{SyncLaws}
use y_ruby.Base64.RoundTrip.{IsByte}
use y_ruby.Scripts.{finished, carry, carry_if_open, post}
use y_ruby.Scripts.Rounds.{when_update-one}
use y_ruby.Scripts.Rounds.Sync.{frame_of}
use y_ruby.Scripts.Turns.{frame_message, updated, reply_frame}
use y_ruby.Scripts.Audit
use y_ruby.Scripts.Chaos
use y_ruby.Scripts.CrashRecovery
use y_ruby.Scripts.AuditScenarios
use y_ruby.Scripts.Multiprocess
use y_ruby.Scripts.Delivered.{Takes, Answers, Takes-result, Answers-result}
use y_ruby.Scripts.Turns.Answering.{
  scenarios_turn-step1, audit_turn-step1, multiprocess_turn-update, scenarios_turn-update,
  crash_turn-update, chaos_turn-update, crash_turn-step1, multiprocess_turn-step1, chaos_turn-step1,
  audit_turn-update,
}

module _ {lib : Packages} (laws : SyncLaws lib) where
  pub audit-Takes :
      (c : Audit.Client lib) (u : Bytes)
      → All IsByte (frame_of (lib.write_update u))
      → Takes c u (Audit.on_message c (frame_message (frame_of (lib.write_update u))))
  unfolding Audit.on_message
  audit-Takes c u h =
      Takes-result c (updated c u) u _
        (when_update-one Audit.turn c _ (frame_of (lib.write_update u)) (λ e. cc) h
          (audit_turn-update laws c u))
        refl refl

  audit_send-Answers :
      (c : Audit.Client lib) (frame : Bytes) → Answers true c frame (Audit.send c frame, finished)
  unfolding Audit.send carry carry_if_open post
  audit_send-Answers c frame = ground arith

  pub audit-Answers :
      (c : Audit.Client lib) (d : lib.Doc)
      → All IsByte (frame_of (lib.write_sync_step1 d))
      → Answers true c
          (reply_frame lib c.doc d)
          (Audit.on_message c (frame_message (frame_of (lib.write_sync_step1 d))))
  unfolding Audit.on_message
  audit-Answers c d h =
      Answers-result true c (Audit.send c (reply_frame lib c.doc d)) _ _
        (when_update-one Audit.turn c _ (frame_of (lib.write_sync_step1 d)) (λ e. cc) h
          (audit_turn-step1 laws c d))
        (audit_send-Answers c _)

  pub chaos-Takes :
      (c : Chaos.Client lib) (u : Bytes)
      → All IsByte (frame_of (lib.write_update u))
      → Takes c u (Chaos.on_message c (frame_message (frame_of (lib.write_update u))))
  unfolding Chaos.on_message
  chaos-Takes c u h =
      Takes-result c (updated c u) u _
        (when_update-one Chaos.turn c _ (frame_of (lib.write_update u)) (λ e. cc) h
          (chaos_turn-update laws c u))
        refl refl

  chaos_send-Answers :
      (c : Chaos.Client lib) (frame : Bytes)
      → Answers c.is_open c frame (Chaos.send c frame, finished)
  unfolding Chaos.send carry carry_if_open post
  chaos_send-Answers c frame = ground arith

  pub chaos-Answers :
      (c : Chaos.Client lib) (d : lib.Doc)
      → All IsByte (frame_of (lib.write_sync_step1 d))
      → Answers c.is_open c
          (reply_frame lib c.doc d)
          (Chaos.on_message c (frame_message (frame_of (lib.write_sync_step1 d))))
  unfolding Chaos.on_message
  chaos-Answers c d h =
      Answers-result c.is_open c (Chaos.send c (reply_frame lib c.doc d)) _ _
        (when_update-one Chaos.turn c _ (frame_of (lib.write_sync_step1 d)) (λ e. cc) h
          (chaos_turn-step1 laws c d))
        (chaos_send-Answers c _)

  pub crash-Takes :
      (c : CrashRecovery.Client lib) (u : Bytes)
      → All IsByte (frame_of (lib.write_update u))
      → Takes c u (CrashRecovery.on_message c (frame_message (frame_of (lib.write_update u))))
  unfolding CrashRecovery.on_message
  crash-Takes c u h =
      Takes-result c (updated c u) u _
        (when_update-one CrashRecovery.turn c _ (frame_of (lib.write_update u)) (λ e. cc) h
          (crash_turn-update laws c u))
        refl refl

  crash_send-Answers :
      (c : CrashRecovery.Client lib) (frame : Bytes)
      → Answers c.is_open c frame (CrashRecovery.send c frame, finished)
  unfolding CrashRecovery.send carry carry_if_open post
  crash_send-Answers c frame = ground arith

  pub crash-Answers :
      (c : CrashRecovery.Client lib) (d : lib.Doc)
      → All IsByte (frame_of (lib.write_sync_step1 d))
      → Answers c.is_open c
          (reply_frame lib c.doc d)
          (CrashRecovery.on_message c (frame_message (frame_of (lib.write_sync_step1 d))))
  unfolding CrashRecovery.on_message
  crash-Answers c d h =
      Answers-result c.is_open c (CrashRecovery.send c (reply_frame lib c.doc d)) _ _
        (when_update-one CrashRecovery.turn c _ (frame_of (lib.write_sync_step1 d)) (λ e. cc) h
          (crash_turn-step1 laws c d))
        (crash_send-Answers c _)

  pub scenarios-Takes :
      (c : AuditScenarios.Client lib) (u : Bytes)
      → All IsByte (frame_of (lib.write_update u))
      → Takes c u (AuditScenarios.on_message c (frame_message (frame_of (lib.write_update u))))
  unfolding AuditScenarios.on_message
  scenarios-Takes c u h =
      Takes-result c (updated c u) u _
        (when_update-one AuditScenarios.turn c _ (frame_of (lib.write_update u)) (λ e. cc) h
          (scenarios_turn-update laws c u))
        refl refl

  scenarios_send-Answers :
      (c : AuditScenarios.Client lib) (frame : Bytes)
      → Answers c.is_open c frame (AuditScenarios.send c frame, finished)
  unfolding AuditScenarios.send carry carry_if_open post
  scenarios_send-Answers c frame = ground arith

  pub scenarios-Answers :
      (c : AuditScenarios.Client lib) (d : lib.Doc)
      → All IsByte (frame_of (lib.write_sync_step1 d))
      → Answers c.is_open c
          (reply_frame lib c.doc d)
          (AuditScenarios.on_message c (frame_message (frame_of (lib.write_sync_step1 d))))
  unfolding AuditScenarios.on_message
  scenarios-Answers c d h =
      Answers-result c.is_open c (AuditScenarios.send c (reply_frame lib c.doc d)) _ _
        (when_update-one AuditScenarios.turn c _ (frame_of (lib.write_sync_step1 d)) (λ e. cc) h
          (scenarios_turn-step1 laws c d))
        (scenarios_send-Answers c _)

  pub multiprocess-Takes :
      (c : Multiprocess.Client lib) (u : Bytes)
      → All IsByte (frame_of (lib.write_update u))
      → Takes c u (Multiprocess.on_message c (frame_message (frame_of (lib.write_update u))))
  unfolding Multiprocess.on_message
  multiprocess-Takes c u h =
      Takes-result c (updated c u) u _
        (when_update-one Multiprocess.turn c _ (frame_of (lib.write_update u)) (λ e. cc) h
          (multiprocess_turn-update laws c u))
        refl refl

  multiprocess_send-Answers :
      (c : Multiprocess.Client lib) (frame : Bytes)
      → Answers c.is_open c frame (Multiprocess.send c frame, finished)
  unfolding Multiprocess.send carry carry_if_open post
  multiprocess_send-Answers c frame = ground arith

  pub multiprocess-Answers :
      (c : Multiprocess.Client lib) (d : lib.Doc)
      → All IsByte (frame_of (lib.write_sync_step1 d))
      → Answers c.is_open c
          (reply_frame lib c.doc d)
          (Multiprocess.on_message c (frame_message (frame_of (lib.write_sync_step1 d))))
  unfolding Multiprocess.on_message
  multiprocess-Answers c d h =
      Answers-result c.is_open c (Multiprocess.send c (reply_frame lib c.doc d)) _ _
        (when_update-one Multiprocess.turn c _ (frame_of (lib.write_sync_step1 d)) (λ e. cc) h
          (multiprocess_turn-step1 laws c d))
        (multiprocess_send-Answers c _)
