-- ===== src/Scripts.antt =====
-- The small WebSocket clients of the test scripts in examples/actioncable-demo/frontend: what the
-- scripts share. A member is a client's document and socket; `posts` are the calls of the socket's
-- `send` so far, in order.
pub mod Buffer
pub mod Texts
pub mod Audit
pub mod Chaos
pub mod CrashRecovery
pub mod AuditScenarios
pub mod Multiprocess
pub mod AnycableGuarantee
pub mod AnycableConcurrent
pub mod Loadtest
pub mod AnycableProbe
pub mod EndToEnd
pub mod Stress
pub mod ReliableClient
pub mod ServerRead
pub mod Loops
pub mod Cast
pub mod Ends
pub mod Rounds
pub mod Turns
pub mod Delivered
pub mod Silent
pub mod Edits
use y_ruby.Base.{
  ℕ, zero, suc, Bool, true, false, if◌then◌else◌, ◌==◌, not, Option, none, some, List, [], ◌∷◌,
  ◌++◌, Bytes, length,
}
use y_ruby.Number.{Value, Number, undefined, null, boolean, number, text, nan, integer, object}
use y_ruby.External.{Packages, Applied, SyncRead}
use y_ruby.Framing.{sync_message, frame_update, frame_sync_step1, reply_of}
use y_ruby.Cable.{Envelope, plain}
use y_ruby.Base64.{to_base64}
use y_ruby.Scripts.Buffer.{buffer_from}
use y_ruby.Scripts.Texts.{Text, codes}

-- The rest of yjs that the scripts call: elements, the document's fragment "default", a transaction
-- with the events that it fires, the fragment as a string.
pub record Documents (lib : Packages) : Type 1 where
  pub Element : Type 0
  pub new_element : Text → Element
  pub insert_text : Element → ℕ → Text → Element
  pub fragment_length : lib.Doc → ℕ
  pub insert_element : lib.Doc → ℕ → Element → lib.Doc
  pub transact : lib.Doc → (lib.Doc → lib.Doc) → Applied lib.Doc
  pub to_string : lib.Doc → Text

-- `JSON.stringify({ channel: "DocumentChannel", id: room })`, by what it is made of.
pub data Identifier : Type 0 where
  document_channel : Text → Identifier

-- What a script gives to `ws.send`, by what JSON.stringify is called on: a "subscribe" command, a
-- "message" command, and a "message" command with any text for its data.
pub data Post : Type 0 where
  joins : Identifier → Post
  carries : Identifier → Envelope → Post
  garbles : Identifier → Text → Post

-- `msg.type` of a message that arrives.
pub data Kind : Type 0 where
  welcomes confirms rejects pings disconnects untyped : Kind

-- A message that arrives: its type, and the fields `ack` and `update` of its `message`, undefined
-- where there is none.
pub record Arrival : Type 0 where
  pub kind : Kind
  pub ack : Value
  pub update : Value

-- How a handler ends: it returns, or it throws. `starved` is a loop that has used up its fuel.
pub data Ending : Type 0 where
  finished threw starved : Ending

-- One round of a loop: on to the next with the bytes that the decoder has left, `break`, or `throw`.
pub data Turn (S : Type 0) : Type 0 where
  goes_on : S → Bytes → Turn S
  breaks throws : S → Turn S

-- `while (decoding.hasContent(decoder))`. The fuel bounds the rounds.
unfoldable pub read_loop : {S : Type 0} → (S → Bytes → Turn S) → ℕ → S → Bytes → S × Ending
read_loop turn zero s [] = (s, finished)
read_loop turn zero s (b ∷ bs) = (s, starved)
read_loop turn (suc fuel) s [] = (s, finished)
read_loop turn (suc fuel) s (b ∷ bs) = elim (turn s (b ∷ bs)) [
  | goes_on t rest ↦ read_loop turn fuel t rest
  | breaks t ↦ (t, finished)
  | throws t ↦ (t, threw)
]

-- Each round reads a byte, so as many rounds as there are bytes are enough.
unfoldable pub receive_all : {S : Type 0} → (S → Bytes → Turn S) → S → Bytes → S × Ending
receive_all turn s bytes = read_loop turn (length bytes) s bytes

-- JavaScript's test of a value.
unfoldable pub is_truthy : Value → Bool
is_truthy undefined = false
is_truthy null = false
is_truthy (boolean b) = b
is_truthy (number nan) = false
is_truthy (number (integer neg n)) = not (n == 0)
is_truthy (number _) = true
is_truthy object = true
is_truthy (text []) = false
is_truthy (text (c ∷ cs)) = true

-- `fromBase64` of a value that is truthy, for the code behind it: Buffer.from takes a string, and
-- throws on a number, a Boolean or an object. (It takes an array, which no server sends here.)
unfoldable pub from_value : {S : Type 0} → Value → S → (Bytes → S × Ending) → S × Ending
from_value (text t) s use_bytes = use_bytes (buffer_from t)
from_value _ s use_bytes = (s, threw)

-- `if (msg.message?.update)`, with the decoding that follows.
unfoldable pub when_update : {S : Type 0} → Value → S → (Bytes → S × Ending) → S × Ending
unfolding from_value is_truthy
when_update v s use_bytes = if is_truthy v then from_value v s use_bytes else (s, finished)

module _ (lib : Packages) where
  pub record Member (Extra : Type 0) : Type 0 where
    pub doc : lib.Doc
    pub identifier : Identifier
    -- `readyState === WebSocket.OPEN`
    pub is_open : Bool
    -- `subscribed` is resolved
    pub subscribed : Bool
    pub posts : List Post
    -- what the script's client has besides
    pub extra : Extra

module _ {lib : Packages} {Extra : Type 0} where
  unfoldable pub new_member : Text → Extra → Member lib Extra
  new_member room extra = record {
    doc = lib.new_doc;
    identifier = document_channel room;
    is_open = false;
    subscribed = false;
    posts = [];
    extra = extra;
  }

  unfoldable pub post : Member lib Extra → Post → Member lib Extra
  post m p = record m { posts = m.posts ++ p ∷ [] }

  -- The answer to a "welcome".
  unfoldable pub join : Member lib Extra → Member lib Extra
  unfolding post
  join m = post m (joins m.identifier)

  -- `ws.send` of a "message" command with the frame.
  unfoldable pub carry : Member lib Extra → Bytes → Member lib Extra
  unfolding post
  carry m frame = post m (carries m.identifier (plain (to_base64 frame)))

  unfoldable pub carry_if_open : Member lib Extra → Bytes → Member lib Extra
  unfolding carry
  carry_if_open m frame = if m.is_open then carry m frame else m

  module _ (send : Member lib Extra → Bytes → Member lib Extra) where
    -- The "update" listener of a script; `true` if the origin is "remote".
    unfoldable pub send_update : Member lib Extra → Bool → Bytes → Member lib Extra
    send_update m remote update = if remote then m else send m (frame_update lib update)

    -- On "confirm_subscription": SyncStep1, and `subscribed` resolves.
    unfoldable pub greet : Member lib Extra → Member lib Extra
    greet m = record (send m (frame_sync_step1 lib m.doc)) { subscribed = true }

    -- `if (encoding.length(enc) > 1) this.send(enc)`
    unfoldable pub answer : Member lib Extra → SyncRead lib.Doc → Member lib Extra
    answer m r = elim (reply_of lib (lib.write_var_uint sync_message ++ r.reply)) [
      | none ↦ m
      | some frame ↦ send m frame
    ]

  module _ (listener : Member lib Extra → Bool → Bytes → Member lib Extra) where
    -- The calls of the listener for the events of a call on the document.
    unfoldable pub fire_updates : Member lib Extra → Bool → List Bytes → Member lib Extra
    fire_updates m remote [] = m
    fire_updates m remote (u ∷ us) = fire_updates (listener m remote u) remote us

    unfoldable pub changed : Member lib Extra → Bool → Applied lib.Doc → Member lib Extra
    unfolding fire_updates
    changed m remote r = fire_updates (record m { doc = r.doc }) remote r.events

    -- `readSyncMessage(decoder, enc, this.doc, "remote")` and what follows it in the round.
    unfoldable pub read_sync :
        Member lib Extra
        → Bytes
        → (Member lib Extra → SyncRead lib.Doc → Member lib Extra)
        → Turn (Member lib Extra)
    unfolding changed
    read_sync m rest finish =
        let r = lib.read_sync_message rest m.doc in
        let d = changed m true r.applied in
        if r.applied.threw then throws d else goes_on (finish d r) r.rest

    -- The paragraph that a script appends to the fragment, in one transaction.
    unfoldable pub append_paragraph : Documents lib → Member lib Extra → Text → Member lib Extra
    unfolding changed
    append_paragraph docs m t =
        let paragraph = docs.insert_text (docs.new_element (codes "paragraph")) 0 t in
        changed m false
          (docs.transact m.doc λ doc. docs.insert_element doc (docs.fragment_length doc) paragraph)

  -- `decoding.readVarUint(decoder)` and what follows it in the round.
  unfoldable pub read_type :
      Member lib Extra → Bytes → (ℕ → Bytes → Turn (Member lib Extra)) → Turn (Member lib Extra)
  read_type m bytes body = elim (lib.read_var_uint bytes) [
    | none ↦ throws m
    | some (type, rest) ↦ body type rest
  ]

  -- `decoding.readVarUint8Array(decoder)`, alone and with `catch { break }`.
  unfoldable pub skip_block : Member lib Extra → Bytes → Turn (Member lib Extra)
  skip_block m rest = elim (lib.read_var_uint8_array rest) [
    | none ↦ throws m
    | some (block, rest') ↦ goes_on m rest'
  ]

  -- `applyAwarenessUpdate(this.awareness, decoding.readVarUint8Array(decoder), "remote")`
  unfoldable pub apply_block :
      lib.Awareness
      → Member lib Extra
      → Bytes
      → (lib.Awareness → Member lib Extra)
      → Turn (Member lib Extra)
  apply_block awareness m rest put = elim (lib.read_var_uint8_array rest) [
    | none ↦ throws m
    | some (block, rest') ↦
        let n = lib.apply_awareness_update awareness block in
        if n.threw then throws (put n.awareness) else goes_on (put n.awareness) rest'
  ]

  unfoldable pub skip_or_break : Member lib Extra → Bytes → Turn (Member lib Extra)
  skip_or_break m rest = elim (lib.read_var_uint8_array rest) [
    | none ↦ breaks m
    | some (block, rest') ↦ goes_on m rest'
  ]
