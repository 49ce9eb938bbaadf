-- ===== src/Provider/Recorded.antt =====
-- A provider of actioncable_provider.ts against a server that acknowledges only what it has recorded.
use y_ruby.Base.{List, [], ◌++◌, ◌≡◌, true, length, ◌+◌, ◌≤◌, subst}
use y_ruby.External.{Packages}
use y_ruby.Number.{exact_limit}
use y_ruby.Reliable.{run, Sent}
use y_ruby.Reliable.Cache.{IsCached}
use y_ruby.Reliable.Order.{Ascending}
use y_ruby.Reliable.Delivery.{numbered}
use y_ruby.Reliable.Recorded.{Honest, Safe, run_recorded}
use y_ruby.Session.{Session}
use y_ruby.Session.Queue.{SessionCall, session_run}
use y_ruby.Session.Runs.{history, history-Traced, session_run-Drives, Alive, local_updates}
use y_ruby.Provider.Sends.{queue_sends}
use y_ruby.Transport.{Provider}
use y_ruby.Provider.Calls.{ProviderCall, provider_run}
use y_ruby.Provider.Delivery.{
  provider_history, application_updates, Undestroyed, history-own, provider_run-Follows,
}

module _ {lib : Packages} (IsRecorded : Sent → Type 0) where
  abbrev pub HonestServer : Session lib → List (SessionCall lib) → Type 0
  HonestServer s cs = Honest lib.merge_updates IsRecorded [] s.delivery (history lib true cs)

  session_recorded :
      (s : Session lib) (cs : List (SessionCall lib))
      → s.doc_listening ≡ true
      → Alive lib cs
      → s.delivery.next_seq + length (history lib true cs) ≤ exact_limit
      → Ascending 1 s.delivery.pending s.delivery.next_seq
      → IsCached lib.merge_updates s.delivery
      → HonestServer s cs
      → Safe lib.merge_updates IsRecorded
          (queue_sends s cs)
          (s.delivery.pending ++ numbered s.delivery.next_seq (local_updates lib cs))
          (session_run lib s cs).0.delivery.pending
  session_recorded s cs l a b o c r =
      let trace = history-Traced lib cs a in
      let drives =
        subst
          (λ listening.
            (session_run lib s cs).0.delivery
            ≡ (run lib.merge_updates s.delivery (history lib listening cs)).0)
          l (session_run-Drives lib s cs).0 in
      rw (drives, ← trace.0)
        (run_recorded lib.merge_updates IsRecorded s.delivery (history lib true cs) trace.1 b o c r)

  -- No edit of the application is lost to a server that acknowledges a delta only once it has recorded it.
  -- Over any history of a listening provider, of connections, drops, rejections, teardowns and page
  -- events, without `destroy` and within the exact integers, the queue at the start followed by the
  -- updates of the application's edits is some updates, each inside a recorded delta that the queue
  -- sent, followed by the queue at the end. The queue at the start has rising numbers and a right
  -- memoised merge.
  pub provider_recorded :
      (p : Provider lib) (cs : List (ProviderCall lib))
      → p.session.doc_listening ≡ true
      → Undestroyed cs
      → p.session.delivery.next_seq + length (history lib true (provider_history p cs))
        ≤ exact_limit
      → Ascending 1 p.session.delivery.pending p.session.delivery.next_seq
      → IsCached lib.merge_updates p.session.delivery
      → HonestServer p.session (provider_history p cs)
      → Safe lib.merge_updates IsRecorded
          (queue_sends p.session (provider_history p cs))
          (p.session.delivery.pending
            ++ numbered p.session.delivery.next_seq (application_updates cs))
          (provider_run p cs).0.session.delivery.pending
  provider_recorded p cs l u b a c r =
      let own = history-own p cs u in
      rw (provider_run-Follows p cs u, ← own.0)
        (session_recorded p.session (provider_history p cs) l own.1 b a c r)
