-- ===== src/Scripts/Silent.antt =====
-- The clients of the AnyCable scripts in examples/actioncable-demo/frontend send nothing for what they receive.
use y_ruby.Scripts.Cast.{Cast}
use y_ruby.Base.{◌==◌, ◌≡◌, ◌≢◌, refl, List, Bytes, arith, suc, ◌∙◌}
use y_ruby.External.{Packages}
use y_ruby.Framing.{sync_message}
use y_ruby.Number.{Value, text, undefined, null, boolean, number, object}
use y_ruby.Scripts.{
  Arrival, Ending, finished, threw, starved, Post, Member, welcomes, confirms, send_update,
  receive_all,
}
use y_ruby.Scripts.Loops.{receive_all-keeps, when_update-keeps, from_value-keeps}
use y_ruby.Scripts.Rounds.{Deaf, read_type-After, read_sync-After, skip_or_break-After, if-After}
use y_ruby.Scripts.AnycableGuarantee
use y_ruby.Scripts.AnycableConcurrent
use y_ruby.Scripts.Loadtest
use y_ruby.Scripts.AnycableProbe
use y_ruby.Scripts.Buffer.{buffer_from}
use y_ruby.Scripts.Texts.{Text}
use y_ruby.Scripts.Loadtest.Observer.{observe-posts}

-- The posts of a member are these.
abbrev Posted : {lib : Packages} {Extra : Type 0} → List Post → Member lib Extra → Type 0
Posted ps m = m.posts ≡ ps

-- A message that is neither a welcome nor a confirmation.
abbrev pub IsContent : Arrival → Type 0
IsContent msg = (msg.kind ≢ welcomes) × (msg.kind ≢ confirms)

module _ {lib : Packages} where
  guarantee-Deaf : Deaf (AnycableGuarantee.on_update {lib = lib})
  unfolding AnycableGuarantee.on_update send_update
  guarantee-Deaf c u = refl

  guarantee-receives :
      (ps : List Post) (c : AnycableGuarantee.Client lib) (bs : Bytes)
      → c.posts ≡ ps
      → (receive_all AnycableGuarantee.turn c bs).0.posts ≡ ps
  unfolding AnycableGuarantee.turn
  guarantee-receives ps c bs h =
      receive_all-keeps (Posted ps) AnycableGuarantee.turn
        (λ s bytes k. read_type-After (Posted ps) s bytes _ k λ type rest.
          if-After (Posted ps) (type == sync_message) _ _
            (read_sync-After (Posted ps) AnycableGuarantee.on_update s rest (λ d r. d)
              guarantee-Deaf (λ doc. k) (λ doc r. k))
            (skip_or_break-After (Posted ps) s rest k))
        c bs h

  guarantee-silent :
      (c : AnycableGuarantee.Client lib) (msg : Arrival)
      → msg.kind ≢ welcomes
      → msg.kind ≢ confirms
      → (AnycableGuarantee.on_message c msg).0.posts ≡ c.posts
  unfolding AnycableGuarantee.on_message
  guarantee-silent c msg h k = ground (
    arith,
    when_update-keeps (Posted c.posts) msg.update c (receive_all AnycableGuarantee.turn c) refl
        (λ bs. guarantee-receives c.posts c bs refl),
  )

  concurrent-Deaf : Deaf (AnycableConcurrent.on_update {lib = lib})
  unfolding AnycableConcurrent.on_update send_update
  concurrent-Deaf c u = refl

  concurrent-receives :
      (ps : List Post) (c : AnycableConcurrent.Client lib) (bs : Bytes)
      → c.posts ≡ ps
      → (receive_all AnycableConcurrent.turn c bs).0.posts ≡ ps
  unfolding AnycableConcurrent.turn
  concurrent-receives ps c bs h =
      receive_all-keeps (Posted ps) AnycableConcurrent.turn
        (λ s bytes k. read_type-After (Posted ps) s bytes _ k λ type rest.
          if-After (Posted ps) (type == sync_message) _ _
            (read_sync-After (Posted ps) AnycableConcurrent.on_update s rest (λ d r. d)
              concurrent-Deaf (λ doc. k) (λ doc r. k))
            (skip_or_break-After (Posted ps) s rest k))
        c bs h

  concurrent-silent :
      (c : AnycableConcurrent.Client lib) (msg : Arrival)
      → msg.kind ≢ welcomes
      → msg.kind ≢ confirms
      → (AnycableConcurrent.on_message c msg).0.posts ≡ c.posts
  unfolding AnycableConcurrent.on_message
  concurrent-silent c msg h k = ground (
    arith,
    when_update-keeps (Posted c.posts) msg.update c (receive_all AnycableConcurrent.turn c) refl
        (λ bs. concurrent-receives c.posts c bs refl),
  )

  loadtest-Deaf : Deaf (Loadtest.on_update {lib = lib})
  unfolding Loadtest.on_update send_update
  loadtest-Deaf c u = refl

  loadtest-receives :
      (ps : List Post) (c : Loadtest.Client lib) (bs : Bytes)
      → c.posts ≡ ps
      → (receive_all Loadtest.turn c bs).0.posts ≡ ps
  unfolding Loadtest.turn
  loadtest-receives ps c bs h =
      receive_all-keeps (Posted ps) Loadtest.turn
        (λ s bytes k. read_type-After (Posted ps) s bytes _ k λ type rest.
          if-After (Posted ps) (type == sync_message) _ _
            (read_sync-After (Posted ps) Loadtest.on_update s rest (λ d r. Loadtest.observe s.doc d)
              loadtest-Deaf (λ doc. k)
              (λ doc r. (observe-posts s.doc (record s { doc = doc })).0 ∙ k))
            (skip_or_break-After (Posted ps) s rest k))
        c bs h

  loadtest-silent :
      (c : Loadtest.Client lib) (msg : Arrival)
      → msg.kind ≢ welcomes
      → msg.kind ≢ confirms
      → (Loadtest.on_message c msg).0.posts ≡ c.posts
  unfolding Loadtest.on_message
  loadtest-silent c msg h k =
      let d = Loadtest.count c (λ k. record k { recv = suc k.recv }) in
      ground (
        arith,
        from_value-keeps (Posted c.posts) msg.update d (receive_all Loadtest.turn d) refl
            (λ bs. loadtest-receives c.posts d bs refl),
      )

  probe-Deaf : Deaf (AnycableProbe.on_update {lib = lib})
  unfolding AnycableProbe.on_update send_update
  probe-Deaf c u = refl

  probe-receives :
      (ps : List Post) (c : AnycableProbe.Client lib) (bs : Bytes)
      → c.posts ≡ ps
      → (receive_all AnycableProbe.turn c bs).0.posts ≡ ps
  unfolding AnycableProbe.turn
  probe-receives ps c bs h =
      receive_all-keeps (Posted ps) AnycableProbe.turn
        (λ s bytes k. read_type-After (Posted ps) s bytes _ k λ type rest.
          if-After (Posted ps) (type == sync_message) _ _
            (read_sync-After (Posted ps) AnycableProbe.on_update s rest (λ d r. d) probe-Deaf
              (λ doc. k) (λ doc r. k))
            (skip_or_break-After (Posted ps) s rest k))
        c bs h

  note_echo-posts :
      (raw : Text) (r : AnycableProbe.Client lib × Ending)
      → (AnycableProbe.note_echo raw r).0.posts ≡ r.0.posts
  unfolding AnycableProbe.note_echo
  note_echo-posts raw (c, finished) = ground arith
  note_echo-posts raw (c, threw) = refl
  note_echo-posts raw (c, starved) = refl

  probe-receive :
      (c : AnycableProbe.Client lib) (v : Value) → (AnycableProbe.receive c v).0.posts ≡ c.posts
  unfolding AnycableProbe.receive
  probe-receive c (text raw) =
      note_echo-posts raw (receive_all AnycableProbe.turn c (buffer_from raw))
      ∙ probe-receives c.posts c (buffer_from raw) refl
  probe-receive c undefined = refl
  probe-receive c null = refl
  probe-receive c (boolean b) = refl
  probe-receive c (number n) = refl
  probe-receive c object = refl

  probe-silent :
      (c : AnycableProbe.Client lib) (msg : Arrival)
      → msg.kind ≢ welcomes
      → msg.kind ≢ confirms
      → (AnycableProbe.on_message c msg).0.posts ≡ c.posts
  unfolding AnycableProbe.on_message
  probe-silent c msg h k = ground (arith, probe-receive c msg.update)

  -- For a message that is neither a welcome nor a confirmation the client of an AnyCable script sends
  -- nothing, whatever the message holds and however its handling ends.
  pub anycable_clients_silent :
      (cast : Cast lib) (msg : Arrival)
      → IsContent msg
      → ((AnycableGuarantee.on_message cast.guarantee msg).0.posts ≡ cast.guarantee.posts)
        × ((AnycableConcurrent.on_message cast.concurrent msg).0.posts ≡ cast.concurrent.posts)
        × ((Loadtest.on_message cast.loadtest msg).0.posts ≡ cast.loadtest.posts)
        × ((AnycableProbe.on_message cast.probe msg).0.posts ≡ cast.probe.posts)
  anycable_clients_silent cast msg h = (
    guarantee-silent cast.guarantee msg h.0 h.1,
    concurrent-silent cast.concurrent msg h.0 h.1,
    loadtest-silent cast.loadtest msg h.0 h.1,
    probe-silent cast.probe msg h.0 h.1,
  )
