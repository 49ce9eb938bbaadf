-- ===== src/Scripts/Turns.antt =====
-- The listeners of the scripts in examples/actioncable-demo/frontend take no notice of remote updates, and a
-- frame with one sync message is one round of their loops.
pub mod Answering
pub mod Typed
pub mod Anycable
use y_ruby.Base.{
  ◌==◌, ◌≡◌, ◌≢◌, refl, sym, ap, subst, ◌∙◌, List, [], ◌∷◌, ◌++◌, Bytes, All, true, false,
  if◌then◌else◌, arith,
}
use y_ruby.External.{Packages}
use y_ruby.Framing.{sync_message, sync_step2}
use y_ruby.Session.Exchange.{SyncLaws}
use y_ruby.Number.{text, undefined}
use y_ruby.Cable.{plain}
use y_ruby.Base64.{to_base64}
use y_ruby.Base64.RoundTrip.{IsByte}
use y_ruby.Scripts.{
  Arrival, Ending, finished, Member, Post, carries, untyped, goes_on, receive_all, carry,
  carry_if_open, post, send_update, answer,
}
use y_ruby.Scripts.Rounds.{Deaf}
use y_ruby.Scripts.Rounds.Sync.{
  frame_of, read_type-sync, read_sync-update, read_sync-step1, answer-update, answer-step1,
}
use y_ruby.Scripts.Audit
use y_ruby.Scripts.Chaos
use y_ruby.Scripts.CrashRecovery
use y_ruby.Scripts.AuditScenarios
use y_ruby.Scripts.Multiprocess
use y_ruby.Scripts.EndToEnd
use y_ruby.Scripts.Stress
use y_ruby.Scripts.ReliableClient
use y_ruby.Scripts.AnycableGuarantee
use y_ruby.Scripts.AnycableConcurrent
use y_ruby.Scripts.Loadtest
use y_ruby.Scripts.AnycableProbe

-- The message that brings a frame.
abbrev pub frame_message : Bytes → Arrival
frame_message bs = record { kind = untyped; ack = undefined; update = text (to_base64 bs) }

module _ {lib : Packages} where
  pub audit-Deaf : Deaf (Audit.on_update {lib = lib})
  unfolding Audit.on_update send_update
  audit-Deaf c u = refl

  pub chaos-Deaf : Deaf (Chaos.on_update {lib = lib})
  unfolding Chaos.on_update send_update
  chaos-Deaf c u = refl

  pub crash-Deaf : Deaf (CrashRecovery.on_update {lib = lib})
  unfolding CrashRecovery.on_update send_update
  crash-Deaf c u = refl

  pub scenarios-Deaf : Deaf (AuditScenarios.heard {lib = lib})
  unfolding AuditScenarios.heard AuditScenarios.on_update send_update
  scenarios-Deaf c u = ground arith

  pub multiprocess-Deaf : Deaf (Multiprocess.on_update {lib = lib})
  unfolding Multiprocess.on_update send_update
  multiprocess-Deaf c u = refl

  pub end_to_end-Deaf : Deaf (EndToEnd.on_update {lib = lib})
  unfolding EndToEnd.on_update send_update
  end_to_end-Deaf c u = refl

  pub stress-Deaf : Deaf (Stress.on_update {lib = lib})
  unfolding Stress.on_update send_update
  stress-Deaf c u = refl

  pub reliable-Deaf : Deaf (ReliableClient.on_update {lib = lib})
  unfolding ReliableClient.on_update send_update
  reliable-Deaf c u = refl

  pub guarantee-Deaf : Deaf (AnycableGuarantee.on_update {lib = lib})
  unfolding AnycableGuarantee.on_update send_update
  guarantee-Deaf c u = refl

  pub concurrent-Deaf : Deaf (AnycableConcurrent.on_update {lib = lib})
  unfolding AnycableConcurrent.on_update send_update
  concurrent-Deaf c u = refl

  pub loadtest-Deaf : Deaf (Loadtest.on_update {lib = lib})
  unfolding Loadtest.on_update send_update
  loadtest-Deaf c u = refl

  pub probe-Deaf : Deaf (AnycableProbe.on_update {lib = lib})
  unfolding AnycableProbe.on_update send_update
  probe-Deaf c u = refl

-- The document after an update.
abbrev pub updated : {lib : Packages} {Extra : Type 0} → Member lib Extra → Bytes → Member lib Extra
updated {lib = lib} m u = record m { doc = (lib.apply_update m.doc u).doc }

-- The answer to a SyncStep1.
abbrev pub reply_frame : (lib : Packages) → lib.Doc → lib.Doc → Bytes
reply_frame lib doc d = frame_of (lib.read_sync_message (lib.write_sync_step1 d) doc).reply
