-- ===== src/Scripts/AuditScenarios.antt =====
-- The client of examples/actioncable-demo/frontend/audit_scenarios.mjs, which can go offline and come back
-- with its document.
-- `synced` is resolved, and the listener is on the document.
use y_ruby.External.{Packages, SyncRead}
use y_ruby.Base.{Bool, Bytes, false, true, if◌then◌else◌, ◌==◌}
use y_ruby.Scripts.{
  Arrival, Member, Documents, append_paragraph, carry_if_open, Turn, Ending, new_member,
  send_update, read_type, read_sync, answer, skip_block, welcomes, confirms, join, finished, greet,
  when_update, receive_all,
}
use y_ruby.Scripts.Texts.{includes, Text}
use y_ruby.Framing.{sync_step2, sync_message}

pub record Scenario : Type 0 where
  pub synced : Bool
  pub listening : Bool

abbrev pub Client : Packages → Type 0
Client lib = Member lib (Scenario)

module _ {lib : Packages} where
  unfoldable pub new : Text → Client lib
  new room = new_member room (record { synced = false; listening = true })

  unfoldable pub send : Client lib → Bytes → Client lib
  send c frame = carry_if_open c frame

  -- The "update" listener.
  unfoldable pub on_update : Client lib → Bool → Bytes → Client lib
  unfolding send
  on_update c remote update = send_update send c remote update

  -- The calls that the document makes for an event: none while the listener is off.
  unfoldable pub heard : Client lib → Bool → Bytes → Client lib
  unfolding on_update
  heard c remote update = if c.extra.listening then on_update c remote update else c

  -- `if (t === messageYjsSyncStep2) this._syn()`
  unfoldable pub note_step2 : Client lib → SyncRead lib.Doc → Client lib
  note_step2 c r =
      if r.sync_type == sync_step2 then record c { extra = record c.extra { synced = true } } else c

  -- One round of the loop over a frame.
  unfoldable pub turn : Client lib → Bytes → Turn (Client lib)
  unfolding send heard note_step2
  turn c bytes = read_type c bytes λ type rest.
      if type == sync_message
      then read_sync heard c rest (λ d r. note_step2 (answer send d r) r)
      else skip_block c rest

  unfoldable pub on_message : Client lib → Arrival → Client lib × Ending
  unfolding send turn
  on_message c msg = elim msg.kind [
    | welcomes ↦ (join c, finished)
    | confirms ↦ (greet send c, finished)
    | _ ↦ when_update msg.update c (receive_all turn c)
  ]

  unfoldable pub edit : Documents lib → Client lib → Text → Client lib
  unfolding heard
  edit docs c t = append_paragraph heard docs c t

  unfoldable pub has : Documents lib → Client lib → Text → Bool
  unfolding includes
  has docs c t = includes (docs.to_string c.doc) t

  unfoldable pub go_offline : Client lib → Client lib
  go_offline c = record c { is_open = false; extra = record c.extra { listening = false } }

  -- The listener, and a new socket, which is not open yet.
  unfoldable pub connect : Client lib → Client lib
  connect c = record c { is_open = false; extra = record c.extra { listening = true } }

  unfoldable pub reconnect : Client lib → Client lib
  unfolding connect
  reconnect c = connect (record c { subscribed = false; extra = record c.extra { synced = false } })

  unfoldable pub close : Client lib → Client lib
  close c = record c { is_open = false }
