-- ===== src/Scripts/AnycableConcurrent.antt =====
-- The client of examples/actioncable-demo/frontend/anycable_concurrent.mjs, many of which edit at once.
-- `this.i`
use y_ruby.External.{Packages}
use y_ruby.Base.{ℕ, Bool, Bytes, if◌then◌else◌, ◌==◌}
use y_ruby.Scripts.{
  Member, Documents, Arrival, append_paragraph, Turn, new_member, send_update, carry_if_open,
  Ending, read_type, read_sync, skip_or_break, welcomes, confirms, join, finished, greet,
  when_update, receive_all,
}
use y_ruby.Scripts.Texts.{Text}
use y_ruby.Framing.{sync_message}

pub record Numbered : Type 0 where
  pub index : ℕ

abbrev pub Client : Packages → Type 0
Client lib = Member lib (Numbered)

module _ {lib : Packages} where
  unfoldable pub new : ℕ → Text → Client lib
  new i room = new_member room (record { index = i })

  unfoldable pub send : Client lib → Bytes → Client lib
  send c frame = carry_if_open c frame

  -- The "update" listener.
  unfoldable pub on_update : Client lib → Bool → Bytes → Client lib
  unfolding send
  on_update c remote update = send_update send c remote update

  -- One round of the loop over a frame.
  unfoldable pub turn : Client lib → Bytes → Turn (Client lib)
  unfolding send on_update
  turn c bytes = read_type c bytes λ type rest.
      if type == sync_message then read_sync on_update c rest (λ d r. d) else skip_or_break c rest

  unfoldable pub on_message : Client lib → Arrival → Client lib × Ending
  unfolding send turn
  on_message c msg = elim msg.kind [
    | welcomes ↦ (join c, finished)
    | confirms ↦ (greet send c, finished)
    | _ ↦ when_update msg.update c (receive_all turn c)
  ]

  unfoldable pub add_paragraph : Documents lib → Client lib → Text → Client lib
  unfolding on_update
  add_paragraph docs c t = append_paragraph on_update docs c t

  unfoldable pub text_of : Documents lib → Client lib → Text
  text_of docs c = docs.to_string c.doc
