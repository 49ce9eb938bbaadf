-- ===== src/Scripts/Turns/Typed.antt =====
-- The rounds in which the clients of e2e.mjs, stress.mjs and reliable.mjs in
-- examples/actioncable-demo/frontend read an update or a SyncStep1.
use y_ruby.Base.{◌≡◌, ap, ◌∙◌, [], Bytes}
use y_ruby.External.{Packages}
use y_ruby.Session.Exchange.{SyncLaws}
use y_ruby.Scripts.Turns.{updated, reply_frame, end_to_end-Deaf, stress-Deaf, reliable-Deaf}
use y_ruby.Scripts.{goes_on, answer}
use y_ruby.Scripts.Rounds.Sync.{
  frame_of, read_type-sync, read_sync-update, read_sync-step1, answer-update, answer-step1,
}
use y_ruby.Scripts.EndToEnd
use y_ruby.Scripts.Stress
use y_ruby.Scripts.ReliableClient

module _ {lib : Packages} (laws : SyncLaws lib) where
  pub end_to_end_turn-update :
      (c : EndToEnd.Client lib) (u : Bytes)
      → EndToEnd.turn c (frame_of (lib.write_update u)) ≡ goes_on (updated c u) []
  unfolding EndToEnd.turn
  end_to_end_turn-update c u =
      read_type-sync laws c (lib.write_update u) _
      ∙ read_sync-update laws EndToEnd.on_update end_to_end-Deaf (answer EndToEnd.send) c u
      ∙ ap (λ s. goes_on s []) (answer-update laws EndToEnd.send (updated c u) c.doc u)

  pub end_to_end_turn-step1 :
      (c : EndToEnd.Client lib) (d : lib.Doc)
      → EndToEnd.turn c (frame_of (lib.write_sync_step1 d))
        ≡ goes_on (EndToEnd.send c (reply_frame lib c.doc d)) []
  unfolding EndToEnd.turn
  end_to_end_turn-step1 c d =
      read_type-sync laws c (lib.write_sync_step1 d) _
      ∙ read_sync-step1 laws EndToEnd.on_update end_to_end-Deaf (answer EndToEnd.send) c d
      ∙ ap (λ s. goes_on s []) (answer-step1 laws EndToEnd.send c c.doc d)

  pub stress_turn-update :
      (c : Stress.Client lib) (u : Bytes)
      → Stress.turn c (frame_of (lib.write_update u)) ≡ goes_on (updated c u) []
  unfolding Stress.turn
  stress_turn-update c u =
      read_type-sync laws c (lib.write_update u) _
      ∙ read_sync-update laws Stress.on_update stress-Deaf (answer Stress.send) c u
      ∙ ap (λ s. goes_on s []) (answer-update laws Stress.send (updated c u) c.doc u)

  pub stress_turn-step1 :
      (c : Stress.Client lib) (d : lib.Doc)
      → Stress.turn c (frame_of (lib.write_sync_step1 d))
        ≡ goes_on (Stress.send c (reply_frame lib c.doc d)) []
  unfolding Stress.turn
  stress_turn-step1 c d =
      read_type-sync laws c (lib.write_sync_step1 d) _
      ∙ read_sync-step1 laws Stress.on_update stress-Deaf (answer Stress.send) c d
      ∙ ap (λ s. goes_on s []) (answer-step1 laws Stress.send c c.doc d)

  pub reliable_turn-update :
      (c : ReliableClient.Client lib) (u : Bytes)
      → ReliableClient.turn c (frame_of (lib.write_update u)) ≡ goes_on (updated c u) []
  unfolding ReliableClient.turn
  reliable_turn-update c u =
      read_type-sync laws c (lib.write_update u) _
      ∙ read_sync-update laws ReliableClient.on_update reliable-Deaf
          (answer ReliableClient.send_raw) c u
      ∙ ap (λ s. goes_on s []) (answer-update laws ReliableClient.send_raw (updated c u) c.doc u)

  pub reliable_turn-step1 :
      (c : ReliableClient.Client lib) (d : lib.Doc)
      → ReliableClient.turn c (frame_of (lib.write_sync_step1 d))
        ≡ goes_on (ReliableClient.send_raw c (reply_frame lib c.doc d)) []
  unfolding ReliableClient.turn
  reliable_turn-step1 c d =
      read_type-sync laws c (lib.write_sync_step1 d) _
      ∙ read_sync-step1 laws ReliableClient.on_update reliable-Deaf (answer ReliableClient.send_raw)
          c d
      ∙ ap (λ s. goes_on s []) (answer-step1 laws ReliableClient.send_raw c c.doc d)
