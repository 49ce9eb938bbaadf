-- ===== src/Scripts/Multiprocess.antt =====
-- The client of examples/actioncable-demo/frontend/multiprocess.mjs, one of several that speak to different
-- server processes.
use y_ruby.External.{Packages, SyncRead}
use y_ruby.Base.{ℕ, Option, Bytes, Bool, if◌then◌else◌, ◌∷◌, ◌==◌, false, [], true}
use y_ruby.Scripts.{
  Arrival, Member, Documents, send_update, carry_if_open, Turn, Ending, append_paragraph, read_type,
  new_member, read_sync, answer, apply_block, goes_on, welcomes, confirms, join, finished, greet,
  when_update, receive_all,
}
use y_ruby.Framing.{frame_awareness, sync_message, sync_step2, awareness_message}
use y_ruby.Scripts.Texts.{Text}

module _ (lib : Packages) where
  pub record Process : Type 0 where
    pub port : ℕ
    pub awareness : lib.Awareness
    pub synced : Bool

abbrev pub Client : Packages → Type 0
Client lib = Member lib (Process lib)

module _ {lib : Packages} where
  unfoldable pub new : ℕ → Text → Client lib
  new port room =
      new_member room
        (record { port = port; awareness = lib.new_awareness lib.new_doc; synced = false })

  unfoldable pub send : Client lib → Bytes → Client lib
  send c frame = carry_if_open c frame

  -- The "update" listener.
  unfoldable pub on_update : Client lib → Bool → Bytes → Client lib
  unfolding send
  on_update c remote update = send_update send c remote update

  -- `if (t === messageYjsSyncStep2) this._syn()`
  unfoldable pub note_step2 : Client lib → SyncRead lib.Doc → Client lib
  note_step2 c r =
      if r.sync_type == sync_step2 then record c { extra = record c.extra { synced = true } } else c

  unfoldable pub put_awareness : Client lib → lib.Awareness → Client lib
  put_awareness c a = record c { extra = record c.extra { awareness = a } }

  -- One round of the loop over a frame.
  unfoldable pub turn : Client lib → Bytes → Turn (Client lib)
  unfolding send on_update note_step2 put_awareness
  turn c bytes = read_type c bytes λ type rest.
      if type == sync_message
      then read_sync on_update c rest (λ d r. note_step2 (answer send d r) r)
      else if type == awareness_message
      then apply_block c.extra.awareness c rest (put_awareness c)
      else goes_on c rest

  unfoldable pub on_message : Client lib → Arrival → Client lib × Ending
  unfolding send turn
  on_message c msg = elim msg.kind [
    | welcomes ↦ (join c, finished)
    | confirms ↦ (greet send c, finished)
    | _ ↦ when_update msg.update c (receive_all turn c)
  ]

  unfoldable pub edit : Documents lib → Client lib → Text → Client lib
  unfolding on_update
  edit docs c t = append_paragraph on_update docs c t

  unfoldable pub set_presence : Client lib → Option lib.Presence → Client lib
  unfolding put_awareness send
  set_presence c state =
      let d = put_awareness c (lib.set_local_state c.extra.awareness state).awareness in
      send d (frame_awareness lib d.extra.awareness (lib.client_id d.doc ∷ []))

  unfoldable pub text_of : Documents lib → Client lib → Text
  text_of docs c = docs.to_string c.doc
