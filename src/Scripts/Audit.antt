-- ===== src/Scripts/Audit.antt =====
-- The client of examples/actioncable-demo/frontend/audit.mjs, which edits against a server with an audit
-- log. It sends on its socket whatever the socket's state is.
use y_ruby.External.{Packages}
use y_ruby.Base.{Bytes, Bool, ℕ, if◌then◌else◌, ◌==◌, ◌++◌}
use y_ruby.Scripts.{
  Arrival, Member, send_update, Turn, Documents, new_member, Ending, carry, read_type,
  append_paragraph, read_sync, answer, skip_block, welcomes, confirms, join, finished, greet,
  when_update, receive_all,
}
use y_ruby.Scripts.Texts.{Text, decimal, codes}
use y_ruby.Framing.{sync_message}

abbrev pub Client : Packages → Type 0
Client lib = Member lib (Unit {0})

module _ {lib : Packages} where
  unfoldable pub new : Text → Client lib
  new room = new_member room tt

  unfoldable pub send : Client lib → Bytes → Client lib
  send c frame = carry c frame

  -- The "update" listener.
  unfoldable pub on_update : Client lib → Bool → Bytes → Client lib
  unfolding send
  on_update c remote update = send_update send c remote update

  -- One round of the loop over a frame.
  unfoldable pub turn : Client lib → Bytes → Turn (Client lib)
  unfolding send on_update
  turn c bytes = read_type c bytes λ type rest.
      if type == sync_message then read_sync on_update c rest (answer send) else skip_block c rest

  unfoldable pub on_message : Client lib → Arrival → Client lib × Ending
  unfolding send turn
  on_message c msg = elim msg.kind [
    | welcomes ↦ (join c, finished)
    | confirms ↦ (greet send c, finished)
    | _ ↦ when_update msg.update c (receive_all turn c)
  ]

  unfoldable pub edit : Documents lib → Client lib → ℕ → Client lib
  unfolding on_update decimal
  edit docs c i = append_paragraph on_update docs c (codes "change number " ++ decimal i)
