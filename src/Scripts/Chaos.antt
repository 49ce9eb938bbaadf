-- ===== src/Scripts/Chaos.antt =====
-- The clients of examples/actioncable-demo/frontend/chaos.mjs: one that edits, and a vandal that subscribes
-- and then sends garbage.
use y_ruby.Base.{Bytes, ◌∷◌, Bool, List, if◌then◌else◌, ◌++◌, ◌==◌, [], true}
use y_ruby.Scripts.Texts.{Text, codes}
use y_ruby.External.{Packages}
use y_ruby.Scripts.{
  Arrival, carry_if_open, Member, Documents, Turn, new_member, post, read_type, Ending, send_update,
  append_paragraph, garbles, read_sync, answer, skip_block, welcomes, confirms, join, finished,
  greet, when_update, receive_all,
}
use y_ruby.Framing.{frame_sync_step1, sync_message}
use y_ruby.Base64.{to_base64}

abbrev pub Client : Packages → Type 0
Client lib = Member lib (Unit {0})

module _ {lib : Packages} where
  unfoldable pub new : Text → Client lib
  new room = new_member room tt

  unfoldable pub send : Client lib → Bytes → Client lib
  send c frame = carry_if_open c frame

  -- The "update" listener.
  unfoldable pub on_update : Client lib → Bool → Bytes → Client lib
  unfolding send
  on_update c remote update = send_update send c remote update

  -- One round of the loop over a frame.
  unfoldable pub turn : Client lib → Bytes → Turn (Client lib)
  unfolding send on_update
  turn c bytes = read_type c bytes λ type rest.
      if type == sync_message then read_sync on_update c rest (answer send) else skip_block c rest

  unfoldable pub on_message : Client lib → Arrival → Client lib × Ending
  unfolding send turn
  on_message c msg = elim msg.kind [
    | welcomes ↦ (join c, finished)
    | confirms ↦ (greet send c, finished)
    | _ ↦ when_update msg.update c (receive_all turn c)
  ]

  unfoldable pub edit : Documents lib → Client lib → Text → Client lib
  unfolding on_update
  edit docs c t = append_paragraph on_update docs c t

  unfoldable pub text_of : Documents lib → Client lib → Text
  text_of docs c = docs.to_string c.doc

abbrev pub Vandal : Packages → Type 0
Vandal lib = Member lib (Unit {0})

-- `JSON.stringify({ update })` of a string, for the `data` of a command.
abbrev pub update_json : Text → Text
update_json update = codes "{\"update\":\"" ++ (update ++ codes "\"}")

-- `bytes.slice(0, bytes.length - 1)`
unfoldable pub without_last : Bytes → Bytes
without_last [] = []
without_last (b ∷ []) = []
without_last (b ∷ c ∷ bs) = b ∷ without_last (c ∷ bs)

-- The arguments are the random bytes that it draws, 4, 64, 4096 and 200000 of them.
unfoldable pub payloads : Packages → Bytes → Bytes → Bytes → Bytes → List Text
unfolding without_last
payloads lib four more many oversized =
    let valid = frame_sync_step1 lib lib.new_doc in
    codes "not json at all {{{"
    ∷ codes "{\"x\":1}"
    ∷ codes "{\"update\":12345}"
    ∷ update_json (codes "!!!not-base64!!!")
    ∷ update_json (to_base64 four)
    ∷ update_json (to_base64 more)
    ∷ update_json (to_base64 many)
    ∷ update_json (to_base64 oversized)
    ∷ update_json (to_base64 (0x63 ∷ 0x63 ∷ 0x63 ∷ []))
    ∷ update_json (to_base64 (0x00 ∷ 0x01 ∷ 0xff ∷ 0xff ∷ 0xff ∷ 0xff ∷ 0x0f ∷ []))
    ∷ update_json (to_base64 (0x01 ∷ 0xff ∷ 0xff ∷ 0xff ∷ 0xff ∷ 0x0f ∷ []))
    ∷ update_json (to_base64 (without_last valid))
    ∷ []

module _ {lib : Packages} where
  unfoldable pub vandal : Text → Vandal lib
  vandal room = new_member room tt

  -- `ws.onmessage`: `ready` resolves on the confirmation.
  unfoldable pub vandal_on_message : Vandal lib → Arrival → Vandal lib
  vandal_on_message v msg = elim msg.kind [
    | welcomes ↦ join v
    | confirms ↦ record v { subscribed = true }
    | _ ↦ v
  ]

  unfoldable pub raw : Vandal lib → Text → Vandal lib
  raw v data_string = if v.is_open then post v (garbles v.identifier data_string) else v

  -- `for (const p of payloads) this.raw(p)`
  unfoldable pub send_all : Vandal lib → List Text → Vandal lib
  unfolding raw
  send_all v [] = v
  send_all v (p ∷ ps) = send_all (raw v p) ps

  -- Between two rounds the socket may open or close: one Boolean for each round.
  unfoldable pub barrage : Vandal lib → List Text → List Bool → Vandal lib
  unfolding send_all
  barrage v ps [] = v
  barrage v ps (b ∷ rounds) = barrage (send_all (record v { is_open = b }) ps) ps rounds
