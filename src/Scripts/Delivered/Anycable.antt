-- ===== src/Scripts/Delivered/Anycable.antt =====
-- The AnyCable clients of examples/actioncable-demo/frontend: an update.
use y_ruby.Base.{refl, sym, ap, subst, ◌∙◌, Bytes, All, arith, suc}
use y_ruby.External.{Packages}
use y_ruby.Session.Exchange.{SyncLaws}
use y_ruby.Base64.{to_base64}
use y_ruby.Base64.RoundTrip.{IsByte}
use y_ruby.Scripts.{finished, receive_all}
use y_ruby.Scripts.Rounds.{when_update-one, from_value-one, truthy-frame, receive_all-one}
use y_ruby.Scripts.Rounds.Sync.{frame_of}
use y_ruby.Scripts.Turns.{frame_message, updated}
use y_ruby.Scripts.AnycableGuarantee
use y_ruby.Scripts.AnycableConcurrent
use y_ruby.Scripts.Loadtest
use y_ruby.Scripts.AnycableProbe
use y_ruby.Scripts.Texts.{Text}
use y_ruby.Scripts.Buffer.{buffer_from-to_base64}
use y_ruby.Scripts.Delivered.{Takes, Takes-result}
use y_ruby.Scripts.Turns.Anycable.{
  concurrent_turn-update, probe_turn-update, guarantee_turn-update, loadtest_turn-update,
}
use y_ruby.Scripts.Loadtest.Observer.{observe-posts}

module _ {lib : Packages} (laws : SyncLaws lib) where
  pub guarantee-Takes :
      (c : AnycableGuarantee.Client lib) (u : Bytes)
      → All IsByte (frame_of (lib.write_update u))
      → Takes c u (AnycableGuarantee.on_message c (frame_message (frame_of (lib.write_update u))))
  unfolding AnycableGuarantee.on_message
  guarantee-Takes c u h =
      Takes-result c (updated c u) u _
        (when_update-one AnycableGuarantee.turn c _ (frame_of (lib.write_update u)) (λ e. cc) h
          (guarantee_turn-update laws c u))
        refl refl

  pub concurrent-Takes :
      (c : AnycableConcurrent.Client lib) (u : Bytes)
      → All IsByte (frame_of (lib.write_update u))
      → Takes c u (AnycableConcurrent.on_message c (frame_message (frame_of (lib.write_update u))))
  unfolding AnycableConcurrent.on_message
  concurrent-Takes c u h =
      Takes-result c (updated c u) u _
        (when_update-one AnycableConcurrent.turn c _ (frame_of (lib.write_update u)) (λ e. cc) h
          (concurrent_turn-update laws c u))
        refl refl

  pub loadtest-Takes :
      (c : Loadtest.Client lib) (u : Bytes)
      → All IsByte (frame_of (lib.write_update u))
      → Takes c u (Loadtest.on_message c (frame_message (frame_of (lib.write_update u))))
  unfolding Loadtest.on_message
  loadtest-Takes c u h =
      let d = Loadtest.count c (λ k. record k { recv = suc k.recv }) in
      let (p, e) = observe-posts c.doc (updated d u) in
      Takes-result c (Loadtest.observe c.doc (updated d u)) u _
        (truthy-frame (frame_of (lib.write_update u)) _ (c, finished) (λ e. cc)
          ∙ from_value-one Loadtest.turn d _ (frame_of (lib.write_update u)) (λ e. cc) h
              (loadtest_turn-update laws d u))
        e p

  note_echo-Takes :
      (c : AnycableProbe.Client lib) (u : Bytes) (raw : Text)
      → Takes c u (AnycableProbe.note_echo raw (updated c u, finished))
  unfolding AnycableProbe.note_echo
  note_echo-Takes c u raw = ground arith

  pub probe-Takes :
      (c : AnycableProbe.Client lib) (u : Bytes)
      → All IsByte (frame_of (lib.write_update u))
      → Takes c u (AnycableProbe.on_message c (frame_message (frame_of (lib.write_update u))))
  unfolding AnycableProbe.on_message AnycableProbe.receive
  probe-Takes c u h =
      let bs = frame_of (lib.write_update u) in
      subst (Takes c u)
        (sym (
          truthy-frame bs _ (c, finished) (λ e. cc)
          ∙ ap (AnycableProbe.note_echo (to_base64 bs)) (
              ap (receive_all AnycableProbe.turn c) (buffer_from-to_base64 bs h)
              ∙ receive_all-one AnycableProbe.turn c _ bs (λ e. cc) (probe_turn-update laws c u))))
        (note_echo-Takes c u (to_base64 bs))
