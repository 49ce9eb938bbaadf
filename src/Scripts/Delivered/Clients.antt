-- ===== src/Scripts/Delivered/Clients.antt =====
-- The update of another client, and a SyncStep1, in the scripts of examples/actioncable-demo/frontend.
use y_ruby.Scripts.Cast.{Cast}
use y_ruby.Base.{sym, subst, Bytes, All, true, not, ◌&&◌}
use y_ruby.External.{Packages}
use y_ruby.Framing.{frame_update, frame_sync_step1}
use y_ruby.Session.Exchange.{SyncLaws}
use y_ruby.Base64.RoundTrip.{IsByte}
use y_ruby.Scripts.Rounds.Sync.{frame_update-bytes, frame_sync_step1-bytes}
use y_ruby.Scripts.Turns.{frame_message, reply_frame}
use y_ruby.Scripts.Delivered.{Takes, Answers}
use y_ruby.Scripts.Delivered.Answering.{
  audit-Takes, audit-Answers, chaos-Takes, chaos-Answers, crash-Takes, crash-Answers,
  scenarios-Takes, scenarios-Answers, multiprocess-Takes, multiprocess-Answers,
}
use y_ruby.Scripts.Delivered.Typed.{
  end_to_end-Takes, end_to_end-Answers, stress-Takes, stress-Answers, reliable-Takes,
  reliable-Answers,
}
use y_ruby.Scripts.Delivered.Anycable.{
  guarantee-Takes, concurrent-Takes, loadtest-Takes, probe-Takes,
}
use y_ruby.Scripts.Audit
use y_ruby.Scripts.Chaos
use y_ruby.Scripts.CrashRecovery
use y_ruby.Scripts.AuditScenarios
use y_ruby.Scripts.Multiprocess
use y_ruby.Scripts.EndToEnd
use y_ruby.Scripts.Stress
use y_ruby.Scripts.ReliableClient
use y_ruby.Scripts.AnycableGuarantee
use y_ruby.Scripts.AnycableConcurrent
use y_ruby.Scripts.Loadtest
use y_ruby.Scripts.AnycableProbe

module _ {lib : Packages} (laws : SyncLaws lib) where
  -- Each script's client takes the update that another one has put on the cable, in base64 and framed by
  -- `frame_update`: it applies the update, sends nothing and returns, if the frame is of bytes and y-protocols
  -- reads a sync message as it writes it.
  pub updates_arrive :
      (cast : Cast lib) (u : Bytes)
      → All IsByte (frame_update lib u)
      → Takes cast.audit u (Audit.on_message cast.audit (frame_message (frame_update lib u)))
        × Takes cast.chaos u (Chaos.on_message cast.chaos (frame_message (frame_update lib u)))
        × Takes cast.crash_recovery u
            (CrashRecovery.on_message cast.crash_recovery (frame_message (frame_update lib u)))
        × Takes cast.audit_scenarios u
            (AuditScenarios.on_message cast.audit_scenarios (frame_message (frame_update lib u)))
        × Takes cast.multiprocess u
            (Multiprocess.on_message cast.multiprocess (frame_message (frame_update lib u)))
        × Takes cast.end_to_end u
            (EndToEnd.on_message cast.end_to_end (frame_message (frame_update lib u)))
        × Takes cast.stress u (Stress.on_message cast.stress (frame_message (frame_update lib u)))
        × Takes cast.reliable u
            (ReliableClient.on_message cast.reliable (frame_message (frame_update lib u)))
        × Takes cast.guarantee u
            (AnycableGuarantee.on_message cast.guarantee (frame_message (frame_update lib u)))
        × Takes cast.concurrent u
            (AnycableConcurrent.on_message cast.concurrent (frame_message (frame_update lib u)))
        × Takes cast.loadtest u
            (Loadtest.on_message cast.loadtest (frame_message (frame_update lib u)))
        × Takes cast.probe u
            (AnycableProbe.on_message cast.probe (frame_message (frame_update lib u)))
  updates_arrive cast u =
      subst
        (λ bs.
          All IsByte bs
          → Takes cast.audit u (Audit.on_message cast.audit (frame_message bs))
            × Takes cast.chaos u (Chaos.on_message cast.chaos (frame_message bs))
            × Takes cast.crash_recovery u
                (CrashRecovery.on_message cast.crash_recovery (frame_message bs))
            × Takes cast.audit_scenarios u
                (AuditScenarios.on_message cast.audit_scenarios (frame_message bs))
            × Takes cast.multiprocess u
                (Multiprocess.on_message cast.multiprocess (frame_message bs))
            × Takes cast.end_to_end u (EndToEnd.on_message cast.end_to_end (frame_message bs))
            × Takes cast.stress u (Stress.on_message cast.stress (frame_message bs))
            × Takes cast.reliable u (ReliableClient.on_message cast.reliable (frame_message bs))
            × Takes cast.guarantee u
                (AnycableGuarantee.on_message cast.guarantee (frame_message bs))
            × Takes cast.concurrent u
                (AnycableConcurrent.on_message cast.concurrent (frame_message bs))
            × Takes cast.loadtest u (Loadtest.on_message cast.loadtest (frame_message bs))
            × Takes cast.probe u (AnycableProbe.on_message cast.probe (frame_message bs)))
        (sym (frame_update-bytes laws u))
        (λ h. (
          audit-Takes laws cast.audit u h,
          chaos-Takes laws cast.chaos u h,
          crash-Takes laws cast.crash_recovery u h,
          scenarios-Takes laws cast.audit_scenarios u h,
          multiprocess-Takes laws cast.multiprocess u h,
          end_to_end-Takes laws cast.end_to_end u h,
          stress-Takes laws cast.stress u h,
          reliable-Takes laws cast.reliable u h,
          guarantee-Takes laws cast.guarantee u h,
          concurrent-Takes laws cast.concurrent u h,
          loadtest-Takes laws cast.loadtest u h,
          probe-Takes laws cast.probe u h,
        ))

  -- On a SyncStep1 the clients that speak to ActionCable send one frame, the sync byte and what y-protocols
  -- answers, if their `send` does not hold it back; the document stays as it is. The frame that arrives is of
  -- bytes, and y-protocols reads a sync message as it writes it.
  pub step1_answered :
      (cast : Cast lib) (d : lib.Doc)
      → All IsByte (frame_sync_step1 lib d)
      → Answers true cast.audit
          (reply_frame lib cast.audit.doc d)
          (Audit.on_message cast.audit (frame_message (frame_sync_step1 lib d)))
        × Answers cast.chaos.is_open cast.chaos
            (reply_frame lib cast.chaos.doc d)
            (Chaos.on_message cast.chaos (frame_message (frame_sync_step1 lib d)))
        × Answers cast.crash_recovery.is_open cast.crash_recovery
            (reply_frame lib cast.crash_recovery.doc d)
            (CrashRecovery.on_message cast.crash_recovery (frame_message (frame_sync_step1 lib d)))
        × Answers cast.audit_scenarios.is_open cast.audit_scenarios
            (reply_frame lib cast.audit_scenarios.doc d)
            (AuditScenarios.on_message cast.audit_scenarios
              (frame_message (frame_sync_step1 lib d)))
        × Answers cast.multiprocess.is_open cast.multiprocess
            (reply_frame lib cast.multiprocess.doc d)
            (Multiprocess.on_message cast.multiprocess (frame_message (frame_sync_step1 lib d)))
        × Answers true cast.end_to_end
            (reply_frame lib cast.end_to_end.doc d)
            (EndToEnd.on_message cast.end_to_end (frame_message (frame_sync_step1 lib d)))
        × Answers
            (not cast.stress.extra.closed && cast.stress.is_open)
            cast.stress
            (reply_frame lib cast.stress.doc d)
            (Stress.on_message cast.stress (frame_message (frame_sync_step1 lib d)))
        × Answers true cast.reliable
            (reply_frame lib cast.reliable.doc d)
            (ReliableClient.on_message cast.reliable (frame_message (frame_sync_step1 lib d)))
  step1_answered cast d =
      subst
        (λ bs.
          All IsByte bs
          → Answers true cast.audit (reply_frame lib cast.audit.doc d)
              (Audit.on_message cast.audit (frame_message bs))
            × Answers cast.chaos.is_open cast.chaos (reply_frame lib cast.chaos.doc d)
                (Chaos.on_message cast.chaos (frame_message bs))
            × Answers cast.crash_recovery.is_open cast.crash_recovery
                (reply_frame lib cast.crash_recovery.doc d)
                (CrashRecovery.on_message cast.crash_recovery (frame_message bs))
            × Answers cast.audit_scenarios.is_open cast.audit_scenarios
                (reply_frame lib cast.audit_scenarios.doc d)
                (AuditScenarios.on_message cast.audit_scenarios (frame_message bs))
            × Answers cast.multiprocess.is_open cast.multiprocess
                (reply_frame lib cast.multiprocess.doc d)
                (Multiprocess.on_message cast.multiprocess (frame_message bs))
            × Answers true cast.end_to_end (reply_frame lib cast.end_to_end.doc d)
                (EndToEnd.on_message cast.end_to_end (frame_message bs))
            × Answers (not cast.stress.extra.closed && cast.stress.is_open) cast.stress
                (reply_frame lib cast.stress.doc d)
                (Stress.on_message cast.stress (frame_message bs))
            × Answers true cast.reliable (reply_frame lib cast.reliable.doc d)
                (ReliableClient.on_message cast.reliable (frame_message bs)))
        (sym (frame_sync_step1-bytes laws d))
        (λ h. (
          audit-Answers laws cast.audit d h,
          chaos-Answers laws cast.chaos d h,
          crash-Answers laws cast.crash_recovery d h,
          scenarios-Answers laws cast.audit_scenarios d h,
          multiprocess-Answers laws cast.multiprocess d h,
          end_to_end-Answers laws cast.end_to_end d h,
          stress-Answers laws cast.stress d h,
          reliable-Answers laws cast.reliable d h,
        ))
