-- ===== src/Scripts/Ends/Messages.antt =====
-- The loops over a frame end, whatever the frame holds, in each script of
-- examples/actioncable-demo/frontend.
use y_ruby.Scripts.Cast.{Cast}
use y_ruby.Base.{◌≢◌, arith, suc}
use y_ruby.External.{Packages}
use y_ruby.Scripts.{Arrival, starved, receive_all, Ending, finished, threw}
use y_ruby.Scripts.Loops.{
  ReadLaws, receive_all-ends, when_update-ends, from_value-ends, finished-ne-starved,
}
use y_ruby.Scripts.Audit
use y_ruby.Scripts.Chaos
use y_ruby.Scripts.CrashRecovery
use y_ruby.Scripts.AuditScenarios
use y_ruby.Scripts.Multiprocess
use y_ruby.Scripts.AnycableGuarantee
use y_ruby.Scripts.AnycableConcurrent
use y_ruby.Scripts.Loadtest
use y_ruby.Scripts.AnycableProbe
use y_ruby.Scripts.EndToEnd
use y_ruby.Scripts.Stress
use y_ruby.Scripts.ReliableClient
use y_ruby.Number.{Value, text, boolean, number, undefined, null, object}
use y_ruby.Scripts.Texts.{Text}
use y_ruby.Scripts.Buffer.{buffer_from}
use y_ruby.Scripts.Ends.Rounds.{
  audit_turn-Shrinks, chaos_turn-Shrinks, crash_recovery_turn-Shrinks, audit_scenarios_turn-Shrinks,
  multiprocess_turn-Shrinks, anycable_guarantee_turn-Shrinks, anycable_concurrent_turn-Shrinks,
  loadtest_turn-Shrinks, anycable_probe_turn-Shrinks, end_to_end_turn-Shrinks, stress_turn-Shrinks,
  reliable_client_turn-Shrinks,
}

module _ {lib : Packages} (laws : ReadLaws lib) where
  audit-ends : (c : Audit.Client lib) (msg : Arrival) → (Audit.on_message c msg).1 ≢ starved
  unfolding Audit.on_message
  audit-ends c msg = ground (
    arith,
    finished-ne-starved,
    when_update-ends msg.update c (receive_all Audit.turn c)
        (receive_all-ends Audit.turn (audit_turn-Shrinks laws) c),
  )

  chaos-ends : (c : Chaos.Client lib) (msg : Arrival) → (Chaos.on_message c msg).1 ≢ starved
  unfolding Chaos.on_message
  chaos-ends c msg = ground (
    arith,
    finished-ne-starved,
    when_update-ends msg.update c (receive_all Chaos.turn c)
        (receive_all-ends Chaos.turn (chaos_turn-Shrinks laws) c),
  )

  crash_recovery-ends :
      (c : CrashRecovery.Client lib) (msg : Arrival) → (CrashRecovery.on_message c msg).1 ≢ starved
  unfolding CrashRecovery.on_message
  crash_recovery-ends c msg = ground (
    arith,
    finished-ne-starved,
    when_update-ends msg.update c (receive_all CrashRecovery.turn c)
        (receive_all-ends CrashRecovery.turn (crash_recovery_turn-Shrinks laws) c),
  )

  audit_scenarios-ends :
      (c : AuditScenarios.Client lib) (msg : Arrival)
      → (AuditScenarios.on_message c msg).1 ≢ starved
  unfolding AuditScenarios.on_message
  audit_scenarios-ends c msg = ground (
    arith,
    finished-ne-starved,
    when_update-ends msg.update c (receive_all AuditScenarios.turn c)
        (receive_all-ends AuditScenarios.turn (audit_scenarios_turn-Shrinks laws) c),
  )

  multiprocess-ends :
      (c : Multiprocess.Client lib) (msg : Arrival) → (Multiprocess.on_message c msg).1 ≢ starved
  unfolding Multiprocess.on_message
  multiprocess-ends c msg = ground (
    arith,
    finished-ne-starved,
    when_update-ends msg.update c (receive_all Multiprocess.turn c)
        (receive_all-ends Multiprocess.turn (multiprocess_turn-Shrinks laws) c),
  )

  anycable_guarantee-ends :
      (c : AnycableGuarantee.Client lib) (msg : Arrival)
      → (AnycableGuarantee.on_message c msg).1 ≢ starved
  unfolding AnycableGuarantee.on_message
  anycable_guarantee-ends c msg = ground (
    arith,
    finished-ne-starved,
    when_update-ends msg.update c (receive_all AnycableGuarantee.turn c)
        (receive_all-ends AnycableGuarantee.turn (anycable_guarantee_turn-Shrinks laws) c),
  )

  anycable_concurrent-ends :
      (c : AnycableConcurrent.Client lib) (msg : Arrival)
      → (AnycableConcurrent.on_message c msg).1 ≢ starved
  unfolding AnycableConcurrent.on_message
  anycable_concurrent-ends c msg = ground (
    arith,
    finished-ne-starved,
    when_update-ends msg.update c (receive_all AnycableConcurrent.turn c)
        (receive_all-ends AnycableConcurrent.turn (anycable_concurrent_turn-Shrinks laws) c),
  )

  loadtest-ends :
      (c : Loadtest.Client lib) (msg : Arrival) → (Loadtest.on_message c msg).1 ≢ starved
  unfolding Loadtest.on_message
  loadtest-ends c msg =
      let d = Loadtest.count c (λ k. record k { recv = suc k.recv }) in
      ground (
        arith,
        finished-ne-starved,
        from_value-ends msg.update d (receive_all Loadtest.turn d)
            (receive_all-ends Loadtest.turn (loadtest_turn-Shrinks laws) d),
      )

  note_echo-ends :
      (raw : Text) (r : AnycableProbe.Client lib × Ending)
      → r.1 ≢ starved
      → (AnycableProbe.note_echo raw r).1 ≢ starved
  unfolding AnycableProbe.note_echo
  note_echo-ends raw (c, finished) h = finished-ne-starved
  note_echo-ends raw (c, threw) h = h
  note_echo-ends raw (c, starved) h = h

  probe_receive-ends :
      (c : AnycableProbe.Client lib) (v : Value) → (AnycableProbe.receive c v).1 ≢ starved
  unfolding AnycableProbe.receive
  probe_receive-ends c (text raw) =
      note_echo-ends raw (receive_all AnycableProbe.turn c (buffer_from raw))
        (receive_all-ends AnycableProbe.turn (anycable_probe_turn-Shrinks laws) c (buffer_from raw))
  probe_receive-ends c undefined = λ e. cc
  probe_receive-ends c null = λ e. cc
  probe_receive-ends c (boolean b) = λ e. cc
  probe_receive-ends c (number n) = λ e. cc
  probe_receive-ends c object = λ e. cc

  anycable_probe-ends :
      (c : AnycableProbe.Client lib) (msg : Arrival) → (AnycableProbe.on_message c msg).1 ≢ starved
  unfolding AnycableProbe.on_message
  anycable_probe-ends c msg = ground (arith, finished-ne-starved, probe_receive-ends c msg.update)

  end_to_end-ends :
      (c : EndToEnd.Client lib) (msg : Arrival) → (EndToEnd.on_message c msg).1 ≢ starved
  unfolding EndToEnd.on_message
  end_to_end-ends c msg = ground (
    arith,
    finished-ne-starved,
    when_update-ends msg.update c (receive_all EndToEnd.turn c)
        (receive_all-ends EndToEnd.turn (end_to_end_turn-Shrinks laws) c),
  )

  stress-ends : (c : Stress.Client lib) (msg : Arrival) → (Stress.on_message c msg).1 ≢ starved
  unfolding Stress.on_message
  stress-ends c msg =
      let d = Stress.counted c in
      ground (
        arith,
        finished-ne-starved,
        from_value-ends msg.update d (receive_all Stress.turn d)
            (receive_all-ends Stress.turn (stress_turn-Shrinks laws) d),
      )

  reliable_client-ends :
      (c : ReliableClient.Client lib) (msg : Arrival)
      → (ReliableClient.on_message c msg).1 ≢ starved
  unfolding ReliableClient.on_message
  reliable_client-ends c msg = ground (
    arith,
    finished-ne-starved,
    when_update-ends msg.update c (receive_all ReliableClient.turn c)
        (receive_all-ends ReliableClient.turn (reliable_client_turn-Shrinks laws) c),
  )

  -- Whatever message arrives, the handler of each script's client comes to its end, by a return or an
  -- exception, within as many rounds of its loop as the frame has bytes, if lib0 and y-protocols read a
  -- frame from the front.
  pub messages_end :
      (cast : Cast lib) (msg : Arrival)
      → ((Audit.on_message cast.audit msg).1 ≢ starved)
        × ((Chaos.on_message cast.chaos msg).1 ≢ starved)
        × ((CrashRecovery.on_message cast.crash_recovery msg).1 ≢ starved)
        × ((AuditScenarios.on_message cast.audit_scenarios msg).1 ≢ starved)
        × ((Multiprocess.on_message cast.multiprocess msg).1 ≢ starved)
        × ((EndToEnd.on_message cast.end_to_end msg).1 ≢ starved)
        × ((Stress.on_message cast.stress msg).1 ≢ starved)
        × ((ReliableClient.on_message cast.reliable msg).1 ≢ starved)
        × ((AnycableGuarantee.on_message cast.guarantee msg).1 ≢ starved)
        × ((AnycableConcurrent.on_message cast.concurrent msg).1 ≢ starved)
        × ((Loadtest.on_message cast.loadtest msg).1 ≢ starved)
        × ((AnycableProbe.on_message cast.probe msg).1 ≢ starved)
  messages_end cast msg = (
    audit-ends cast.audit msg,
    chaos-ends cast.chaos msg,
    crash_recovery-ends cast.crash_recovery msg,
    audit_scenarios-ends cast.audit_scenarios msg,
    multiprocess-ends cast.multiprocess msg,
    end_to_end-ends cast.end_to_end msg,
    stress-ends cast.stress msg,
    reliable_client-ends cast.reliable msg,
    anycable_guarantee-ends cast.guarantee msg,
    anycable_concurrent-ends cast.concurrent msg,
    loadtest-ends cast.loadtest msg,
    anycable_probe-ends cast.probe msg,
  )
