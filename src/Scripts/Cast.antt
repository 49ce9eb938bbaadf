-- ===== src/Scripts/Cast.antt =====
-- One client of each script in examples/actioncable-demo/frontend.
use y_ruby.External.{Packages}
use y_ruby.Scripts.Audit
use y_ruby.Scripts.Chaos
use y_ruby.Scripts.CrashRecovery
use y_ruby.Scripts.AuditScenarios
use y_ruby.Scripts.Multiprocess
use y_ruby.Scripts.EndToEnd
use y_ruby.Scripts.Stress
use y_ruby.Scripts.ReliableClient
use y_ruby.Scripts.AnycableGuarantee
use y_ruby.Scripts.AnycableConcurrent
use y_ruby.Scripts.Loadtest
use y_ruby.Scripts.AnycableProbe

pub record Cast (lib : Packages) : Type 0 where
  pub audit : Audit.Client lib
  pub chaos : Chaos.Client lib
  pub crash_recovery : CrashRecovery.Client lib
  pub audit_scenarios : AuditScenarios.Client lib
  pub multiprocess : Multiprocess.Client lib
  pub end_to_end : EndToEnd.Client lib
  pub stress : Stress.Client lib
  pub reliable : ReliableClient.Client lib
  pub guarantee : AnycableGuarantee.Client lib
  pub concurrent : AnycableConcurrent.Client lib
  pub loadtest : Loadtest.Client lib
  pub probe : AnycableProbe.Client lib
