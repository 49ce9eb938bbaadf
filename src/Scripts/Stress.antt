-- ===== src/Scripts/Stress.antt =====
-- The client of examples/actioncable-demo/frontend/stress.mjs, with the script's two counters.
pub mod Storm
pub mod Rounds
pub mod Counters
use y_ruby.Scripts.{
  welcomes, confirms, pings, disconnects, Arrival, Member, Documents, Ending, changed, new_member,
  receive_all, join, Turn, send_update, read_type, finished, threw, greet, read_sync, is_truthy,
  carry, answer, from_value, apply_block, throws,
}
use y_ruby.External.{Packages}
use y_ruby.Framing.{frame_sync_step1, frame_awareness, sync_message, awareness_message}
use y_ruby.Base.{
  suc, ℕ, Bytes, Bool, true, false, if◌then◌else◌, some, ◌||◌, ◌==◌, ◌++◌, ◌+◌, ◌∷◌, not, [],
}
use y_ruby.Scripts.Texts.{decimal, Text, codes}

module _ (lib : Packages) where
  -- The client's own fields, and the script's two counters, which are handed from call to call.
  pub record Stressed : Type 0 where
    pub room : Text
    pub name : Text
    pub awareness : lib.Awareness
    pub closed : Bool
    pub reconnected : Bool
    -- the WebSockets that it has made
    pub sockets : ℕ
    pub messages_sent : ℕ
    pub messages_received : ℕ

  -- What `edit` calls of the shared paragraph: its length and its first child, a text.
  pub record SharedText : Type 0 where
    pub paragraph_length : lib.Doc → ℕ
    pub add_text : lib.Doc → lib.Doc
    pub text_length : lib.Doc → ℕ
    pub insert_in_text : lib.Doc → ℕ → Text → lib.Doc

abbrev pub Client : Packages → Type 0
Client lib = Member lib (Stressed lib)

module _ {lib : Packages} where
  unfoldable pub new : Text → Text → ℕ → ℕ → Client lib
  new room name sent received = new_member room (record {
    room = room;
    name = name;
    awareness = lib.new_awareness lib.new_doc;
    closed = false;
    reconnected = false;
    sockets = 1;
    messages_sent = sent;
    messages_received = received;
  })

  unfoldable pub send : Client lib → Bytes → Client lib
  send c frame =
      if c.extra.closed || not c.is_open
      then c
      else carry (record c { extra = record c.extra { messages_sent = suc c.extra.messages_sent } })
          frame

  -- The "update" listener.
  unfoldable pub on_update : Client lib → Bool → Bytes → Client lib
  unfolding send
  on_update c remote update = send_update send c remote update

  unfoldable pub put_awareness : Client lib → lib.Awareness → Client lib
  put_awareness c a = record c { extra = record c.extra { awareness = a } }

  -- It throws unless the client is closed.
  unfoldable pub on_error : Client lib → Ending
  on_error c = if c.extra.closed then finished else threw

  -- One round of the loop over a frame: it throws on a type that it does not know.
  unfoldable pub turn : Client lib → Bytes → Turn (Client lib)
  unfolding send on_update put_awareness
  turn c bytes = read_type c bytes λ type rest.
      if type == sync_message
      then read_sync on_update c rest (answer send)
      else if type == awareness_message
      then apply_block c.extra.awareness c rest (put_awareness c)
      else throws c

  unfoldable pub receive_binary : Client lib → Bytes → Client lib × Ending
  unfolding turn
  receive_binary c bytes = receive_all turn c bytes

  abbrev pub counted : Client lib → Client lib
  counted c = record c {
    extra = record c.extra { messages_received = suc c.extra.messages_received };
  }

  unfoldable pub on_message : Client lib → Arrival → Client lib × Ending
  unfolding send receive_binary
  on_message c msg = elim msg.kind [
    | welcomes ↦ (join c, finished)
    | confirms ↦ (greet send c, finished)
    | pings ↦ (c, finished)
    | disconnects ↦ (c, finished)
    | _ ↦
        if is_truthy msg.update
        then from_value msg.update (counted c) (receive_binary (counted c))
        else (c, finished)
  ]

  unfoldable pub text_of : Documents lib → Client lib → Text
  text_of docs c = docs.to_string c.doc

  -- `[${this.name}.${round}]`
  unfoldable pub token : Client lib → ℕ → Text
  unfolding decimal
  token c round = codes "[" ++ (c.extra.name ++ (codes "." ++ (decimal round ++ codes "]")))

  -- The changes of `edit` in its transaction. `draw n` is `Math.floor(Math.random() * n)`.
  unfoldable pub insert_token : Documents lib → SharedText lib → (ℕ → ℕ) → Text → lib.Doc → lib.Doc
  insert_token docs shared draw t doc =
      let d =
        if docs.fragment_length doc == 0
        then docs.insert_element doc 0 (docs.new_element (codes "paragraph"))
        else doc in
      let e = if shared.paragraph_length d == 0 then shared.add_text d else d in
      shared.insert_in_text e (draw (shared.text_length e + 1)) t

  unfoldable pub edit : Documents lib → SharedText lib → (ℕ → ℕ) → Client lib → ℕ → Client lib
  unfolding on_update token insert_token
  edit docs shared draw c round =
      changed on_update c false
        (docs.transact c.doc (insert_token docs shared draw (token c round)))

  -- `presence name round` is `{ user: { name }, round }`.
  unfoldable pub set_presence : (Text → ℕ → lib.Presence) → Client lib → ℕ → Client lib
  unfolding put_awareness send
  set_presence presence c round =
      let d =
        put_awareness c
          (lib.set_local_state c.extra.awareness (some (presence c.extra.name round))).awareness in
      send d (frame_awareness lib d.extra.awareness (lib.client_id d.doc ∷ []))

  -- Up to the `await`: a new socket, which is not open yet.
  unfoldable pub reconnect : Client lib → Client lib
  reconnect c = record c {
    subscribed = false;
    is_open = false;
    extra = record c.extra { sockets = suc c.extra.sockets };
  }

  -- Behind it, when the subscription is confirmed.
  unfoldable pub reconnect_ends : Client lib → Client lib
  reconnect_ends c = record c { extra = record c.extra { reconnected = true } }

  unfoldable pub flush_offline : Client lib → Client lib
  unfolding send
  flush_offline c = send c (frame_sync_step1 lib c.doc)

  unfoldable pub close : Client lib → Client lib
  close c = record c { is_open = false; extra = record c.extra { closed = true } }
