-- ===== src/Scripts/AnycableGuarantee.antt =====
-- The client of examples/actioncable-demo/frontend/anycable_guarantee.mjs, on AnyCable: it never answers a
-- sync message.
use y_ruby.External.{Packages}
use y_ruby.Base.{Bool, Bytes, if◌then◌else◌, ◌==◌}
use y_ruby.Scripts.{
  Documents, Member, Arrival, Ending, send_update, Turn, append_paragraph, carry_if_open,
  new_member, read_type, read_sync, skip_or_break, welcomes, confirms, join, finished, greet,
  when_update, receive_all,
}
use y_ruby.Scripts.Texts.{includes, Text}
use y_ruby.Framing.{sync_message}

abbrev pub Client : Packages → Type 0
Client lib = Member lib (Unit {0})

module _ {lib : Packages} where
  unfoldable pub new : Text → Client lib
  new room = new_member room tt

  unfoldable pub send : Client lib → Bytes → Client lib
  send c frame = carry_if_open c frame

  -- The "update" listener.
  unfoldable pub on_update : Client lib → Bool → Bytes → Client lib
  unfolding send
  on_update c remote update = send_update send c remote update

  -- One round of the loop over a frame.
  unfoldable pub turn : Client lib → Bytes → Turn (Client lib)
  unfolding send on_update
  turn c bytes = read_type c bytes λ type rest.
      if type == sync_message then read_sync on_update c rest (λ d r. d) else skip_or_break c rest

  unfoldable pub on_message : Client lib → Arrival → Client lib × Ending
  unfolding send turn
  on_message c msg = elim msg.kind [
    | welcomes ↦ (join c, finished)
    | confirms ↦ (greet send c, finished)
    | _ ↦ when_update msg.update c (receive_all turn c)
  ]

  unfoldable pub edit : Documents lib → Client lib → Text → Client lib
  unfolding on_update
  edit docs c t = append_paragraph on_update docs c t

  unfoldable pub has : Documents lib → Client lib → Text → Bool
  unfolding includes
  has docs c t = includes (docs.to_string c.doc) t
