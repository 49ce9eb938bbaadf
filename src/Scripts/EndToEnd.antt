-- ===== src/Scripts/EndToEnd.antt =====
-- The client of examples/actioncable-demo/frontend/e2e.mjs, which also shows its presence.
use y_ruby.Scripts.{
  welcomes, confirms, pings, disconnects, Documents, Member, Arrival, Ending, new_member,
  append_paragraph, send_update, Turn, carry, receive_all, read_type, join, finished, greet,
  when_update, read_sync, answer, apply_block, throws,
}
use y_ruby.External.{Packages}
use y_ruby.Scripts.Texts.{Text}
use y_ruby.Base.{Bytes, Bool, none, List, Option, false, ◌∷◌, ℕ, ◌-◌, [], suc, if◌then◌else◌, ◌==◌}
use y_ruby.Framing.{frame_awareness, sync_message, awareness_message}

module _ (lib : Packages) where
  pub record Tester : Type 0 where
    pub name : Text
    pub awareness : lib.Awareness
    -- how often the timer that closes the socket is set
    pub closing : ℕ

abbrev pub Client : Packages → Type 0
Client lib = Member lib (Tester lib)

module _ {lib : Packages} where
  unfoldable pub new : Text → Text → Client lib
  new name room =
      new_member room
        (record { name = name; awareness = lib.new_awareness lib.new_doc; closing = 0 })

  unfoldable pub send : Client lib → Bytes → Client lib
  send c frame = carry c frame

  -- The "update" listener.
  unfoldable pub on_update : Client lib → Bool → Bytes → Client lib
  unfolding send
  on_update c remote update = send_update send c remote update

  unfoldable pub put_awareness : Client lib → lib.Awareness → Client lib
  put_awareness c a = record c { extra = record c.extra { awareness = a } }

  -- One round of the loop over a frame: it throws on a type that it does not know.
  unfoldable pub turn : Client lib → Bytes → Turn (Client lib)
  unfolding send on_update put_awareness
  turn c bytes = read_type c bytes λ type rest.
      if type == sync_message
      then read_sync on_update c rest (answer send)
      else if type == awareness_message
      then apply_block c.extra.awareness c rest (put_awareness c)
      else throws c

  unfoldable pub receive_binary : Client lib → Bytes → Client lib × Ending
  unfolding turn
  receive_binary c bytes = receive_all turn c bytes

  unfoldable pub on_message : Client lib → Arrival → Client lib × Ending
  unfolding send receive_binary
  on_message c msg = elim msg.kind [
    | welcomes ↦ (join c, finished)
    | confirms ↦ (greet send c, finished)
    | pings ↦ (c, finished)
    | disconnects ↦ (c, finished)
    | _ ↦ when_update msg.update c (receive_binary c)
  ]

  unfoldable pub send_presence_for : Client lib → List ℕ → Client lib
  unfolding send
  send_presence_for c client_ids = send c (frame_awareness lib c.extra.awareness client_ids)

  unfoldable pub set_presence : Client lib → Option lib.Presence → Client lib
  unfolding put_awareness send_presence_for
  set_presence c state =
      send_presence_for (put_awareness c (lib.set_local_state c.extra.awareness state).awareness)
        (lib.client_id c.doc ∷ [])

  unfoldable pub insert_paragraph : Documents lib → Client lib → Text → Client lib
  unfolding on_update
  insert_paragraph docs c t = append_paragraph on_update docs c t

  unfoldable pub text_content : Documents lib → Client lib → Text
  text_content docs c = docs.to_string c.doc

  -- The removal of its presence goes out at once, the socket is closed by a timer.
  unfoldable pub close : Client lib → Client lib
  unfolding put_awareness send_presence_for
  close c =
      let d =
        send_presence_for (put_awareness c (lib.set_local_state c.extra.awareness none).awareness)
          (lib.client_id c.doc ∷ []) in
      record d { extra = record d.extra { closing = suc d.extra.closing } }

  -- That timer.
  unfoldable pub close_socket : Client lib → Client lib
  close_socket c = record c {
    is_open = false;
    extra = record c.extra { closing = c.extra.closing - 1 };
  }
