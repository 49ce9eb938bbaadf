-- ===== src/Scripts/Edits/Clients.antt =====
-- Each client of the scripts in examples/actioncable-demo/frontend that appends paragraphs.
use y_ruby.Scripts.Cast.{Cast}
use y_ruby.Base.{ℕ, ◌+◌, ◌≤◌, length, true, ◌&&◌, ◌++◌, refl, append-nil, arith, ◌∙◌}
use y_ruby.External.{Packages}
use y_ruby.Scripts.{Documents, send_update, carry, carry_if_open, post, append_paragraph}
use y_ruby.Scripts.Texts.{Text, codes, decimal}
use y_ruby.Scripts.Audit
use y_ruby.Scripts.Chaos
use y_ruby.Scripts.CrashRecovery
use y_ruby.Scripts.AuditScenarios
use y_ruby.Scripts.Multiprocess
use y_ruby.Scripts.AnycableGuarantee
use y_ruby.Scripts.AnycableConcurrent
use y_ruby.Scripts.Loadtest
use y_ruby.Scripts.AnycableProbe
use y_ruby.Scripts.EndToEnd
use y_ruby.Scripts.Edits.{Sends, Appends, paragraph, append_paragraph-Appends}
use y_ruby.Number.{exact_limit}
use y_ruby.Scripts.ReliableClient
use y_ruby.Scripts.ReliableClient.Ledger.{Below}
use y_ruby.Scripts.Edits.Numbered.{AppendsPending, insert_paragraph-pending}
use y_ruby.Scripts.Loadtest.Observer.{observe-posts}

module _ {lib : Packages} where
  audit-Sends : Sends (λ (c : Audit.Client lib). true) Audit.on_update
  unfolding Audit.on_update Audit.send send_update carry post
  audit-Sends c u = ground (arith, append-nil c.posts)

  audit-Appends :
      (docs : Documents lib) (c : Audit.Client lib) (i : ℕ)
      → Appends true c
          (paragraph docs c.doc (codes "change number " ++ decimal i))
          (Audit.edit docs c i)
  unfolding Audit.edit
  audit-Appends docs c i =
      append_paragraph-Appends (λ c. true) Audit.on_update audit-Sends (λ m doc. refl) docs c
        (codes "change number " ++ decimal i)

  chaos-Sends : Sends (λ (c : Chaos.Client lib). c.is_open) Chaos.on_update
  unfolding Chaos.on_update Chaos.send send_update carry_if_open carry post
  chaos-Sends c u = ground (arith, append-nil c.posts)

  chaos-Appends :
      (docs : Documents lib) (c : Chaos.Client lib) (t : Text)
      → Appends c.is_open c (paragraph docs c.doc t) (Chaos.edit docs c t)
  unfolding Chaos.edit
  chaos-Appends docs c t =
      append_paragraph-Appends (λ c. c.is_open) Chaos.on_update chaos-Sends (λ m doc. refl) docs c t

  crash-Sends : Sends (λ (c : CrashRecovery.Client lib). c.is_open) CrashRecovery.on_update
  unfolding CrashRecovery.on_update CrashRecovery.send send_update carry_if_open carry post
  crash-Sends c u = ground (arith, append-nil c.posts)

  crash-Appends :
      (docs : Documents lib) (c : CrashRecovery.Client lib) (t : Text)
      → Appends c.is_open c (paragraph docs c.doc t) (CrashRecovery.edit docs c t)
  unfolding CrashRecovery.edit
  crash-Appends docs c t =
      append_paragraph-Appends (λ c. c.is_open) CrashRecovery.on_update crash-Sends (λ m doc. refl)
        docs c t

  scenarios-Sends :
      Sends
        (λ (c : AuditScenarios.Client lib). (c.extra.listening && c.is_open))
        AuditScenarios.heard
  unfolding AuditScenarios.heard AuditScenarios.on_update AuditScenarios.send send_update
      carry_if_open carry post
  scenarios-Sends c u = ground (arith, append-nil c.posts)

  scenarios-Appends :
      (docs : Documents lib) (c : AuditScenarios.Client lib) (t : Text)
      → Appends
          (c.extra.listening && c.is_open)
          c
          (paragraph docs c.doc t)
          (AuditScenarios.edit docs c t)
  unfolding AuditScenarios.edit
  scenarios-Appends docs c t =
      append_paragraph-Appends (λ c. (c.extra.listening && c.is_open)) AuditScenarios.heard
        scenarios-Sends (λ m doc. refl) docs c t

  multiprocess-Sends : Sends (λ (c : Multiprocess.Client lib). c.is_open) Multiprocess.on_update
  unfolding Multiprocess.on_update Multiprocess.send send_update carry_if_open carry post
  multiprocess-Sends c u = ground (arith, append-nil c.posts)

  multiprocess-Appends :
      (docs : Documents lib) (c : Multiprocess.Client lib) (t : Text)
      → Appends c.is_open c (paragraph docs c.doc t) (Multiprocess.edit docs c t)
  unfolding Multiprocess.edit
  multiprocess-Appends docs c t =
      append_paragraph-Appends (λ c. c.is_open) Multiprocess.on_update multiprocess-Sends
        (λ m doc. refl) docs c t

  guarantee-Sends :
      Sends (λ (c : AnycableGuarantee.Client lib). c.is_open) AnycableGuarantee.on_update
  unfolding AnycableGuarantee.on_update AnycableGuarantee.send send_update carry_if_open carry post
  guarantee-Sends c u = ground (arith, append-nil c.posts)

  guarantee-Appends :
      (docs : Documents lib) (c : AnycableGuarantee.Client lib) (t : Text)
      → Appends c.is_open c (paragraph docs c.doc t) (AnycableGuarantee.edit docs c t)
  unfolding AnycableGuarantee.edit
  guarantee-Appends docs c t =
      append_paragraph-Appends (λ c. c.is_open) AnycableGuarantee.on_update guarantee-Sends
        (λ m doc. refl) docs c t

  concurrent-Sends :
      Sends (λ (c : AnycableConcurrent.Client lib). c.is_open) AnycableConcurrent.on_update
  unfolding AnycableConcurrent.on_update AnycableConcurrent.send send_update carry_if_open carry
      post
  concurrent-Sends c u = ground (arith, append-nil c.posts)

  concurrent-Appends :
      (docs : Documents lib) (c : AnycableConcurrent.Client lib) (t : Text)
      → Appends c.is_open c (paragraph docs c.doc t) (AnycableConcurrent.add_paragraph docs c t)
  unfolding AnycableConcurrent.add_paragraph
  concurrent-Appends docs c t =
      append_paragraph-Appends (λ c. c.is_open) AnycableConcurrent.on_update concurrent-Sends
        (λ m doc. refl) docs c t

  loadtest-Sends : Sends (λ (c : Loadtest.Client lib). c.is_open) Loadtest.on_update
  unfolding Loadtest.on_update Loadtest.send send_update carry post
  loadtest-Sends c u = ground (arith, append-nil c.posts)

  loadtest-Appends :
      (docs : Documents lib) (c : Loadtest.Client lib) (t : Text)
      → Appends c.is_open c (paragraph docs c.doc t) (Loadtest.edit docs c t)
  unfolding Loadtest.edit
  loadtest-Appends docs c t =
      let (p, d) = observe-posts c.doc (append_paragraph Loadtest.on_update docs c t) in
      let (q, e) =
        append_paragraph-Appends (λ c. c.is_open) Loadtest.on_update loadtest-Sends (λ m doc. refl)
          docs c t in
      (p ∙ q, d ∙ e)

  probe-Sends : Sends (λ (c : AnycableProbe.Client lib). c.is_open) AnycableProbe.on_update
  unfolding AnycableProbe.on_update AnycableProbe.send send_update carry_if_open carry post
  probe-Sends c u = ground (arith, append-nil c.posts)

  probe-Appends :
      (docs : Documents lib) (c : AnycableProbe.Client lib) (t : Text)
      → Appends c.is_open c (paragraph docs c.doc t) (AnycableProbe.edit docs c t)
  unfolding AnycableProbe.edit
  probe-Appends docs c t =
      append_paragraph-Appends (λ c. c.is_open) AnycableProbe.on_update probe-Sends (λ m doc. refl)
        docs c t

  end_to_end-Sends : Sends (λ (c : EndToEnd.Client lib). true) EndToEnd.on_update
  unfolding EndToEnd.on_update EndToEnd.send send_update carry post
  end_to_end-Sends c u = ground (arith, append-nil c.posts)

  end_to_end-Appends :
      (docs : Documents lib) (c : EndToEnd.Client lib) (t : Text)
      → Appends true c (paragraph docs c.doc t) (EndToEnd.insert_paragraph docs c t)
  unfolding EndToEnd.insert_paragraph
  end_to_end-Appends docs c t =
      append_paragraph-Appends (λ c. true) EndToEnd.on_update end_to_end-Sends (λ m doc. refl) docs
        c t

  -- A paragraph that a script's client appends changes the document by one transaction. In the ten
  -- clients that do not wait for acknowledgements, each update of it is sent, framed and in base64, in
  -- order, if the client's `send` does not hold it back, as it does where the client is offline or does
  -- not listen; nothing else is sent then. In the client of reliable.mjs, which waits for them, the
  -- updates' frames are pending behind the others under the next numbers, and are sent under these, in
  -- order, but for an outage, in which nothing is sent; at the start its pending numbers are below the
  -- next, and the updates' numbers are within the exact integers.
  pub edits_are_sent :
      (docs : Documents lib) (cast : Cast lib) (i : ℕ) (t : Text)
      → Below cast.reliable.extra.next_id cast.reliable.extra.pending
      → cast.reliable.extra.next_id + length (paragraph docs cast.reliable.doc t).events
        ≤ exact_limit
      → Appends true cast.audit
          (paragraph docs cast.audit.doc (codes "change number " ++ decimal i))
          (Audit.edit docs cast.audit i)
        × Appends cast.chaos.is_open cast.chaos
            (paragraph docs cast.chaos.doc t)
            (Chaos.edit docs cast.chaos t)
        × Appends cast.crash_recovery.is_open cast.crash_recovery
            (paragraph docs cast.crash_recovery.doc t)
            (CrashRecovery.edit docs cast.crash_recovery t)
        × Appends
            (cast.audit_scenarios.extra.listening && cast.audit_scenarios.is_open)
            cast.audit_scenarios
            (paragraph docs cast.audit_scenarios.doc t)
            (AuditScenarios.edit docs cast.audit_scenarios t)
        × Appends cast.multiprocess.is_open cast.multiprocess
            (paragraph docs cast.multiprocess.doc t)
            (Multiprocess.edit docs cast.multiprocess t)
        × Appends true cast.end_to_end
            (paragraph docs cast.end_to_end.doc t)
            (EndToEnd.insert_paragraph docs cast.end_to_end t)
        × Appends cast.guarantee.is_open cast.guarantee
            (paragraph docs cast.guarantee.doc t)
            (AnycableGuarantee.edit docs cast.guarantee t)
        × Appends cast.concurrent.is_open cast.concurrent
            (paragraph docs cast.concurrent.doc t)
            (AnycableConcurrent.add_paragraph docs cast.concurrent t)
        × Appends cast.loadtest.is_open cast.loadtest
            (paragraph docs cast.loadtest.doc t)
            (Loadtest.edit docs cast.loadtest t)
        × Appends cast.probe.is_open cast.probe
            (paragraph docs cast.probe.doc t)
            (AnycableProbe.edit docs cast.probe t)
        × AppendsPending cast.reliable
            (paragraph docs cast.reliable.doc t)
            (ReliableClient.insert_paragraph docs cast.reliable t)
  edits_are_sent docs cast i t below bound = (
    audit-Appends docs cast.audit i,
    chaos-Appends docs cast.chaos t,
    crash-Appends docs cast.crash_recovery t,
    scenarios-Appends docs cast.audit_scenarios t,
    multiprocess-Appends docs cast.multiprocess t,
    end_to_end-Appends docs cast.end_to_end t,
    guarantee-Appends docs cast.guarantee t,
    concurrent-Appends docs cast.concurrent t,
    loadtest-Appends docs cast.loadtest t,
    probe-Appends docs cast.probe t,
    insert_paragraph-pending docs cast.reliable t below bound,
  )
