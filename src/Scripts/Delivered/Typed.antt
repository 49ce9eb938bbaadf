-- ===== src/Scripts/Delivered/Typed.antt =====
-- The clients of e2e.mjs, stress.mjs and reliable.mjs in examples/actioncable-demo/frontend, which know
-- all types of messages: an update and a SyncStep1.
use y_ruby.Base.{refl, ◌∙◌, Bytes, All, true, not, ◌&&◌, arith}
use y_ruby.External.{Packages}
use y_ruby.Session.Exchange.{SyncLaws}
use y_ruby.Base64.RoundTrip.{IsByte}
use y_ruby.Scripts.{finished, carry, carry_if_open, post}
use y_ruby.Scripts.Rounds.{when_update-one, from_value-one, truthy-frame}
use y_ruby.Scripts.Rounds.Sync.{frame_of}
use y_ruby.Scripts.Turns.{frame_message, updated, reply_frame}
use y_ruby.Scripts.EndToEnd
use y_ruby.Scripts.Stress
use y_ruby.Scripts.ReliableClient
use y_ruby.Scripts.Delivered.{Takes, Answers, Takes-result, Answers-result}
use y_ruby.Scripts.Turns.Typed.{
  reliable_turn-step1, end_to_end_turn-step1, end_to_end_turn-update, reliable_turn-update,
  stress_turn-step1, stress_turn-update,
}

module _ {lib : Packages} (laws : SyncLaws lib) where
  pub end_to_end-Takes :
      (c : EndToEnd.Client lib) (u : Bytes)
      → All IsByte (frame_of (lib.write_update u))
      → Takes c u (EndToEnd.on_message c (frame_message (frame_of (lib.write_update u))))
  unfolding EndToEnd.on_message EndToEnd.receive_binary
  end_to_end-Takes c u h =
      Takes-result c (updated c u) u _
        (when_update-one EndToEnd.turn c _ (frame_of (lib.write_update u)) (λ e. cc) h
          (end_to_end_turn-update laws c u))
        refl refl

  end_to_end_send-Answers :
      (c : EndToEnd.Client lib) (frame : Bytes)
      → Answers true c frame (EndToEnd.send c frame, finished)
  unfolding EndToEnd.send carry carry_if_open post
  end_to_end_send-Answers c frame = ground arith

  pub end_to_end-Answers :
      (c : EndToEnd.Client lib) (d : lib.Doc)
      → All IsByte (frame_of (lib.write_sync_step1 d))
      → Answers true c
          (reply_frame lib c.doc d)
          (EndToEnd.on_message c (frame_message (frame_of (lib.write_sync_step1 d))))
  unfolding EndToEnd.on_message EndToEnd.receive_binary
  end_to_end-Answers c d h =
      Answers-result true c (EndToEnd.send c (reply_frame lib c.doc d)) _ _
        (when_update-one EndToEnd.turn c _ (frame_of (lib.write_sync_step1 d)) (λ e. cc) h
          (end_to_end_turn-step1 laws c d))
        (end_to_end_send-Answers c _)

  pub stress-Takes :
      (c : Stress.Client lib) (u : Bytes)
      → All IsByte (frame_of (lib.write_update u))
      → Takes c u (Stress.on_message c (frame_message (frame_of (lib.write_update u))))
  unfolding Stress.on_message Stress.receive_binary
  stress-Takes c u h =
      let d = Stress.counted c in
      Takes-result c (updated d u) u _
        (truthy-frame (frame_of (lib.write_update u)) _ (c, finished) (λ e. cc)
          ∙ from_value-one Stress.turn d _ (frame_of (lib.write_update u)) (λ e. cc) h
              (stress_turn-update laws d u))
        refl refl

  stress_send-Answers :
      (c : Stress.Client lib) (frame : Bytes)
      → Answers (not c.extra.closed && c.is_open) c frame (Stress.send c frame, finished)
  unfolding Stress.send carry carry_if_open post
  stress_send-Answers c frame = ground arith

  pub stress-Answers :
      (c : Stress.Client lib) (d : lib.Doc)
      → All IsByte (frame_of (lib.write_sync_step1 d))
      → Answers
          (not c.extra.closed && c.is_open)
          c
          (reply_frame lib c.doc d)
          (Stress.on_message c (frame_message (frame_of (lib.write_sync_step1 d))))
  unfolding Stress.on_message Stress.receive_binary
  stress-Answers c d h =
      let n = Stress.counted c in
      Answers-result (not c.extra.closed && c.is_open) c (Stress.send n (reply_frame lib c.doc d)) _
        _
        (truthy-frame (frame_of (lib.write_sync_step1 d)) _ (c, finished) (λ e. cc)
          ∙ from_value-one Stress.turn n _ (frame_of (lib.write_sync_step1 d)) (λ e. cc) h
              (stress_turn-step1 laws n d))
        (stress_send-Answers n _)

  pub reliable-Takes :
      (c : ReliableClient.Client lib) (u : Bytes)
      → All IsByte (frame_of (lib.write_update u))
      → Takes c u (ReliableClient.on_message c (frame_message (frame_of (lib.write_update u))))
  unfolding ReliableClient.on_message ReliableClient.receive_binary
  reliable-Takes c u h =
      Takes-result c (updated c u) u _
        (when_update-one ReliableClient.turn c _ (frame_of (lib.write_update u)) (λ e. cc) h
          (reliable_turn-update laws c u))
        refl refl

  reliable_send-Answers :
      (c : ReliableClient.Client lib) (frame : Bytes)
      → Answers true c frame (ReliableClient.send_raw c frame, finished)
  unfolding ReliableClient.send_raw carry carry_if_open post
  reliable_send-Answers c frame = ground arith

  pub reliable-Answers :
      (c : ReliableClient.Client lib) (d : lib.Doc)
      → All IsByte (frame_of (lib.write_sync_step1 d))
      → Answers true c
          (reply_frame lib c.doc d)
          (ReliableClient.on_message c (frame_message (frame_of (lib.write_sync_step1 d))))
  unfolding ReliableClient.on_message ReliableClient.receive_binary
  reliable-Answers c d h =
      Answers-result true c (ReliableClient.send_raw c (reply_frame lib c.doc d)) _ _
        (when_update-one ReliableClient.turn c _ (frame_of (lib.write_sync_step1 d)) (λ e. cc) h
          (reliable_turn-step1 laws c d))
        (reliable_send-Answers c _)
