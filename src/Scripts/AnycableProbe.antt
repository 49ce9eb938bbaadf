-- ===== src/Scripts/AnycableProbe.antt =====
-- The client of examples/actioncable-demo/frontend/anycable_probe.mjs, which counts the frames that bring its
-- own updates back.
use y_ruby.Scripts.{
  welcomes, confirms, rejects, Member, new_member, Documents, Ending, Arrival, join,
  append_paragraph, carry_if_open, Turn, read_type, receive_all, finished, greet, threw, read_sync,
  is_truthy, skip_or_break,
}
use y_ruby.Scripts.Texts.{includes, Text}
use y_ruby.Base.{
  ℕ, Bytes, [], Bool, List, false, if◌then◌else◌, suc, ◌∷◌, ◌++◌, ◌||◌, zero, ◌==◌, true,
}
use y_ruby.External.{Packages}
use y_ruby.Number.{Value, text}
use y_ruby.Base64.{to_base64}
use y_ruby.Scripts.Buffer.{buffer_from}
use y_ruby.Framing.{frame_update, sync_message}

pub record Probe : Type 0 where
  pub name : Text
  pub confirmed : Bool
  pub echoed : ℕ
  pub local_updates : List Text

abbrev pub Client : Packages → Type 0
Client lib = Member lib Probe

-- `u.slice(0, n)`
unfoldable pub take : ℕ → Text → Text
take zero t = []
take (suc n) [] = []
take (suc n) (c ∷ t) = c ∷ take n t

-- `this.localUpdates.some((u) => raw.includes(u.slice(0, 12)))`
unfoldable pub carries_own : Text → List Text → Bool
unfolding take includes
carries_own raw [] = false
carries_own raw (u ∷ us) = includes raw (take 12 u) || carries_own raw us

module _ {lib : Packages} where
  unfoldable pub new : Text → Text → Client lib
  new name room =
      new_member room (record { name = name; confirmed = false; echoed = 0; local_updates = [] })

  unfoldable pub send : Client lib → Bytes → Client lib
  send c frame = carry_if_open c frame

  -- The "update" listener.
  unfoldable pub on_update : Client lib → Bool → Bytes → Client lib
  unfolding send
  on_update c remote update =
      if remote
      then c
      else send
          (record c {
            extra = record c.extra {
              local_updates = c.extra.local_updates ++ to_base64 update ∷ [];
            };
          })
          (frame_update lib update)

  -- One round of the loop over a frame.
  unfoldable pub turn : Client lib → Bytes → Turn (Client lib)
  unfolding send on_update
  turn c bytes = read_type c bytes λ type rest.
      if type == sync_message then read_sync on_update c rest (λ d r. d) else skip_or_break c rest

  -- What follows the loop, if it does not throw.
  unfoldable pub note_echo : Text → Client lib × Ending → Client lib × Ending
  unfolding carries_own
  note_echo raw (c, finished) = (
    if carries_own raw c.extra.local_updates
        then record c { extra = record c.extra { echoed = suc c.extra.echoed } }
        else c,
    finished,
  )
  note_echo raw (c, e) = (c, e)

  unfoldable pub receive : Client lib → Value → Client lib × Ending
  unfolding turn note_echo
  receive c (text raw) = note_echo raw (receive_all turn c (buffer_from raw))
  receive c _ = (c, threw)

  unfoldable pub on_message : Client lib → Arrival → Client lib × Ending
  unfolding send receive
  on_message c msg = elim msg.kind [
    | welcomes ↦ (join c, finished)
    | confirms ↦ (greet send (record c { extra = record c.extra { confirmed = true } }), finished)
    | rejects ↦ (record c { subscribed = true }, finished)
    | _ ↦ if is_truthy msg.update then receive c msg.update else (c, finished)
  ]

  unfoldable pub edit : Documents lib → Client lib → Text → Client lib
  unfolding on_update
  edit docs c t = append_paragraph on_update docs c t

  unfoldable pub text_of : Documents lib → Client lib → Text
  text_of docs c = docs.to_string c.doc
