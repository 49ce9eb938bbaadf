-- ===== src/Scripts/CrashRecovery.antt =====
-- The client of examples/actioncable-demo/frontend/crash_recovery.mjs, which writes before the server is
-- killed and reads back after.
-- `synced` is resolved.
use y_ruby.Base.{Bool, Bytes, if◌then◌else◌, false, ◌==◌, true}
use y_ruby.External.{Packages, SyncRead}
use y_ruby.Scripts.{
  Member, Arrival, Documents, new_member, send_update, append_paragraph, carry_if_open, Ending,
  Turn, read_type, read_sync, answer, skip_block, welcomes, confirms, join, finished, greet,
  when_update, receive_all,
}
use y_ruby.Scripts.Texts.{Text}
use y_ruby.Framing.{sync_message, sync_step2}

pub record Sync : Type 0 where
  pub synced : Bool

abbrev pub Client : Packages → Type 0
Client lib = Member lib (Sync)

module _ {lib : Packages} where
  unfoldable pub new : Text → Client lib
  new room = new_member room (record { synced = false })

  unfoldable pub send : Client lib → Bytes → Client lib
  send c frame = carry_if_open c frame

  -- The "update" listener.
  unfoldable pub on_update : Client lib → Bool → Bytes → Client lib
  unfolding send
  on_update c remote update = send_update send c remote update

  -- `if (t === messageYjsSyncStep2) this._syn()`
  unfoldable pub note_step2 : Client lib → SyncRead lib.Doc → Client lib
  note_step2 c r =
      if r.sync_type == sync_step2 then record c { extra = record c.extra { synced = true } } else c

  -- One round of the loop over a frame.
  unfoldable pub turn : Client lib → Bytes → Turn (Client lib)
  unfolding send on_update note_step2
  turn c bytes = read_type c bytes λ type rest.
      if type == sync_message
      then read_sync on_update c rest (λ d r. note_step2 (answer send d r) r)
      else skip_block c rest

  unfoldable pub on_message : Client lib → Arrival → Client lib × Ending
  unfolding send turn
  on_message c msg = elim msg.kind [
    | welcomes ↦ (join c, finished)
    | confirms ↦ (greet send c, finished)
    | _ ↦ when_update msg.update c (receive_all turn c)
  ]

  unfoldable pub edit : Documents lib → Client lib → Text → Client lib
  unfolding on_update
  edit docs c t = append_paragraph on_update docs c t

  unfoldable pub text_of : Documents lib → Client lib → Text
  text_of docs c = docs.to_string c.doc
