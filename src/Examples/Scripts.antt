-- ===== src/Examples/Scripts.antt =====
-- Runs of the clients of the scripts in examples/actioncable-demo/frontend.
use y_ruby.Base.{true, false, [], ◌∷◌, ◌≡◌, ◌≢◌, arith}
use y_ruby.Framing.{frame_update, frame_sync_step1}
use y_ruby.Examples.Toy.{toy}
use y_ruby.Examples.Sessions.{toy_sync}
use y_ruby.Examples.Cast.{toy_documents, toy_cast, toy_read, odd_message}
use y_ruby.Scripts.{starved}
use y_ruby.Scripts.Texts.{codes, decimal}
use y_ruby.Scripts.Audit
use y_ruby.Scripts.Chaos
use y_ruby.Scripts.CrashRecovery
use y_ruby.Scripts.AuditScenarios
use y_ruby.Scripts.Multiprocess
use y_ruby.Scripts.EndToEnd
use y_ruby.Scripts.Stress
use y_ruby.Scripts.ReliableClient
use y_ruby.Scripts.AnycableGuarantee
use y_ruby.Scripts.AnycableConcurrent
use y_ruby.Scripts.Loadtest
use y_ruby.Scripts.AnycableProbe
use y_ruby.Scripts.Edits.{Appends, paragraph}
use y_ruby.Scripts.Delivered.{Answers, Takes}
use y_ruby.Scripts.Ends.Messages.{messages_end}
use y_ruby.Scripts.AnycableProbe.{take}
use y_ruby.Scripts.Silent.{anycable_clients_silent}
use y_ruby.Scripts.Turns.{frame_message, reply_frame}
use y_ruby.Scripts.Edits.Numbered.{AppendsPending}
use y_ruby.Scripts.Edits.Clients.{edits_are_sent}
use y_ruby.Scripts.Delivered.Clients.{step1_answered, updates_arrive}

messages_end_example :
    ((Audit.on_message toy_cast.audit odd_message).1 ≢ starved)
    × ((Chaos.on_message toy_cast.chaos odd_message).1 ≢ starved)
    × ((CrashRecovery.on_message toy_cast.crash_recovery odd_message).1 ≢ starved)
    × ((AuditScenarios.on_message toy_cast.audit_scenarios odd_message).1 ≢ starved)
    × ((Multiprocess.on_message toy_cast.multiprocess odd_message).1 ≢ starved)
    × ((EndToEnd.on_message toy_cast.end_to_end odd_message).1 ≢ starved)
    × ((Stress.on_message toy_cast.stress odd_message).1 ≢ starved)
    × ((ReliableClient.on_message toy_cast.reliable odd_message).1 ≢ starved)
    × ((AnycableGuarantee.on_message toy_cast.guarantee odd_message).1 ≢ starved)
    × ((AnycableConcurrent.on_message toy_cast.concurrent odd_message).1 ≢ starved)
    × ((Loadtest.on_message toy_cast.loadtest odd_message).1 ≢ starved)
    × ((AnycableProbe.on_message toy_cast.probe odd_message).1 ≢ starved)
messages_end_example = messages_end toy_read toy_cast odd_message

anycable_clients_silent_example :
    ((AnycableGuarantee.on_message toy_cast.guarantee odd_message).0.posts ≡ [])
    × ((AnycableConcurrent.on_message toy_cast.concurrent odd_message).0.posts ≡ [])
    × ((Loadtest.on_message toy_cast.loadtest odd_message).0.posts ≡ [])
    × ((AnycableProbe.on_message toy_cast.probe odd_message).0.posts ≡ [])
anycable_clients_silent_example =
    anycable_clients_silent toy_cast odd_message ((λ e. cc), (λ e. cc))

-- The update is one byte.
updates_arrive_example :
    Takes toy_cast.audit
      (30 ∷ [])
      (Audit.on_message toy_cast.audit (frame_message (frame_update toy (30 ∷ []))))
    × Takes toy_cast.chaos
        (30 ∷ [])
        (Chaos.on_message toy_cast.chaos (frame_message (frame_update toy (30 ∷ []))))
    × Takes toy_cast.crash_recovery (30 ∷ []) (
        CrashRecovery.on_message toy_cast.crash_recovery
          (frame_message (frame_update toy (30 ∷ []))))
    × Takes toy_cast.audit_scenarios (30 ∷ []) (
        AuditScenarios.on_message toy_cast.audit_scenarios
          (frame_message (frame_update toy (30 ∷ []))))
    × Takes toy_cast.multiprocess
        (30 ∷ [])
        (Multiprocess.on_message toy_cast.multiprocess (frame_message (frame_update toy (30 ∷ []))))
    × Takes toy_cast.end_to_end
        (30 ∷ [])
        (EndToEnd.on_message toy_cast.end_to_end (frame_message (frame_update toy (30 ∷ []))))
    × Takes toy_cast.stress
        (30 ∷ [])
        (Stress.on_message toy_cast.stress (frame_message (frame_update toy (30 ∷ []))))
    × Takes toy_cast.reliable
        (30 ∷ [])
        (ReliableClient.on_message toy_cast.reliable (frame_message (frame_update toy (30 ∷ []))))
    × Takes toy_cast.guarantee (30 ∷ []) (
        AnycableGuarantee.on_message toy_cast.guarantee
          (frame_message (frame_update toy (30 ∷ []))))
    × Takes toy_cast.concurrent (30 ∷ []) (
        AnycableConcurrent.on_message toy_cast.concurrent
          (frame_message (frame_update toy (30 ∷ []))))
    × Takes toy_cast.loadtest
        (30 ∷ [])
        (Loadtest.on_message toy_cast.loadtest (frame_message (frame_update toy (30 ∷ []))))
    × Takes toy_cast.probe
        (30 ∷ [])
        (AnycableProbe.on_message toy_cast.probe (frame_message (frame_update toy (30 ∷ []))))
unfolding frame_update
updates_arrive_example = updates_arrive toy_sync toy_cast (30 ∷ []) (omega arith)

step1_answered_example :
    Answers true toy_cast.audit
      (reply_frame toy toy_cast.audit.doc [])
      (Audit.on_message toy_cast.audit (frame_message (frame_sync_step1 toy [])))
    × Answers toy_cast.chaos.is_open toy_cast.chaos
        (reply_frame toy toy_cast.chaos.doc [])
        (Chaos.on_message toy_cast.chaos (frame_message (frame_sync_step1 toy [])))
    × Answers toy_cast.crash_recovery.is_open toy_cast.crash_recovery
        (reply_frame toy toy_cast.crash_recovery.doc [])
        (CrashRecovery.on_message toy_cast.crash_recovery (frame_message (frame_sync_step1 toy [])))
    × Answers toy_cast.audit_scenarios.is_open toy_cast.audit_scenarios
        (reply_frame toy toy_cast.audit_scenarios.doc [])
        (AuditScenarios.on_message toy_cast.audit_scenarios
          (frame_message (frame_sync_step1 toy [])))
    × Answers toy_cast.multiprocess.is_open toy_cast.multiprocess
        (reply_frame toy toy_cast.multiprocess.doc [])
        (Multiprocess.on_message toy_cast.multiprocess (frame_message (frame_sync_step1 toy [])))
    × Answers true toy_cast.end_to_end
        (reply_frame toy toy_cast.end_to_end.doc [])
        (EndToEnd.on_message toy_cast.end_to_end (frame_message (frame_sync_step1 toy [])))
    × Answers true toy_cast.stress
        (reply_frame toy toy_cast.stress.doc [])
        (Stress.on_message toy_cast.stress (frame_message (frame_sync_step1 toy [])))
    × Answers true toy_cast.reliable
        (reply_frame toy toy_cast.reliable.doc [])
        (ReliableClient.on_message toy_cast.reliable (frame_message (frame_sync_step1 toy [])))
unfolding frame_sync_step1
step1_answered_example = step1_answered toy_sync toy_cast [] (omega arith)

edits_are_sent_example :
    Appends true toy_cast.audit
      (paragraph toy_documents toy_cast.audit.doc (codes "change number 4"))
      (Audit.edit toy_documents toy_cast.audit 4)
    × Appends true toy_cast.chaos
        (paragraph toy_documents toy_cast.chaos.doc (codes "x"))
        (Chaos.edit toy_documents toy_cast.chaos (codes "x"))
    × Appends true toy_cast.crash_recovery
        (paragraph toy_documents toy_cast.crash_recovery.doc (codes "x"))
        (CrashRecovery.edit toy_documents toy_cast.crash_recovery (codes "x"))
    × Appends false toy_cast.audit_scenarios
        (paragraph toy_documents toy_cast.audit_scenarios.doc (codes "x"))
        (AuditScenarios.edit toy_documents toy_cast.audit_scenarios (codes "x"))
    × Appends true toy_cast.multiprocess
        (paragraph toy_documents toy_cast.multiprocess.doc (codes "x"))
        (Multiprocess.edit toy_documents toy_cast.multiprocess (codes "x"))
    × Appends true toy_cast.end_to_end
        (paragraph toy_documents toy_cast.end_to_end.doc (codes "x"))
        (EndToEnd.insert_paragraph toy_documents toy_cast.end_to_end (codes "x"))
    × Appends true toy_cast.guarantee
        (paragraph toy_documents toy_cast.guarantee.doc (codes "x"))
        (AnycableGuarantee.edit toy_documents toy_cast.guarantee (codes "x"))
    × Appends true toy_cast.concurrent
        (paragraph toy_documents toy_cast.concurrent.doc (codes "x"))
        (AnycableConcurrent.add_paragraph toy_documents toy_cast.concurrent (codes "x"))
    × Appends true toy_cast.loadtest
        (paragraph toy_documents toy_cast.loadtest.doc (codes "x"))
        (Loadtest.edit toy_documents toy_cast.loadtest (codes "x"))
    × Appends true toy_cast.probe
        (paragraph toy_documents toy_cast.probe.doc (codes "x"))
        (AnycableProbe.edit toy_documents toy_cast.probe (codes "x"))
    × AppendsPending toy_cast.reliable
        (paragraph toy_documents toy_cast.reliable.doc (codes "x"))
        (ReliableClient.insert_paragraph toy_documents toy_cast.reliable (codes "x"))
unfolding decimal
edits_are_sent_example =
    edits_are_sent toy_documents toy_cast 4 (codes "x") (omega arith) (omega arith)
