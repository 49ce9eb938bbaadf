-- ===== src/Scripts/ReliableClient.antt =====
-- The client of examples/actioncable-demo/frontend/reliable.mjs, which keeps each update until the server has
-- acknowledged it.
pub mod Ledger
pub mod History
pub mod Kept
pub mod Resend
pub mod Drained
use y_ruby.Scripts.{
  welcomes, confirms, pings, disconnects, Documents, new_member, Member, Arrival, append_paragraph,
  carry, Ending, send_update, Turn, read_type, receive_all, join, finished, post, read_sync, greet,
  carries, answer, when_update, skip_block, throws,
}
use y_ruby.Number.{Value, increment, number, integer, undefined}
use y_ruby.Base.{ℕ, ◌++◌, Bytes, Bool, List, false, if◌then◌else◌, ◌∷◌, [], suc, true, ◌==◌, ◌&&◌}
use y_ruby.Scripts.Texts.{Text}
use y_ruby.External.{Packages}
use y_ruby.Framing.{sync_message, awareness_message}
use y_ruby.Cable.{numbered, is_undefined}
use y_ruby.Base64.{to_base64}

-- `blackhole` drops what the client sends, `timing` is a running timer.
pub record Reliability : Type 0 where
  pub name : Text
  pub next_id : ℕ
  pub pending : List (ℕ × Bytes)
  pub acked : List Value
  pub blackhole : Bool
  pub dropped : ℕ
  pub timing : Bool

abbrev pub Client : Packages → Type 0
Client lib = Member lib Reliability

-- `pending.set(id, frameBytes)`: a new key goes to the end.
unfoldable pub put_pending : ℕ → Bytes → List (ℕ × Bytes) → List (ℕ × Bytes)
put_pending id frame [] = (id, frame) ∷ []
put_pending id frame ((k, f) ∷ entries) =
    if id == k then (id, frame) ∷ entries else (k, f) ∷ put_pending id frame entries

-- The key that a value names: zero and its negative are one key, and only an integer is a key here.
abbrev pub is_key : Value → ℕ → Bool
is_key (number (integer true n)) id = n == 0 && id == 0
is_key (number (integer false n)) id = n == id
is_key _ id = false

-- `pending.delete(ack)`
unfoldable pub delete_pending : Value → List (ℕ × Bytes) → List (ℕ × Bytes)
delete_pending ack [] = []
delete_pending ack ((k, f) ∷ entries) =
    if is_key ack k then entries else (k, f) ∷ delete_pending ack entries

module _ {lib : Packages} where
  unfoldable pub new : Text → Text → Client lib
  new name room = new_member room (record {
    name = name;
    next_id = 1;
    pending = [];
    acked = [];
    blackhole = false;
    dropped = 0;
    timing = true;
  })

  unfoldable pub transmit : Client lib → ℕ → Bytes → Client lib
  transmit c id frame =
      if c.extra.blackhole
      then record c { extra = record c.extra { dropped = suc c.extra.dropped } }
      else post c (carries c.identifier (numbered (to_base64 frame) id))

  unfoldable pub send_reliable : Client lib → Bytes → Client lib
  unfolding transmit put_pending
  send_reliable c frame =
      let id = c.extra.next_id in
      let d = record c {
        extra = record c.extra {
          next_id = increment id;
          pending = put_pending id frame c.extra.pending;
        };
      } in
      transmit d id frame

  -- `for (const [id, frameBytes] of this.pending) this.transmit(id, frameBytes)`
  unfoldable pub transmit_all : Client lib → List (ℕ × Bytes) → Client lib
  unfolding transmit
  transmit_all c [] = c
  transmit_all c ((id, frame) ∷ entries) = transmit_all (transmit c id frame) entries

  unfoldable pub retransmit : Client lib → Client lib
  unfolding transmit_all
  retransmit c = transmit_all c c.extra.pending

  unfoldable pub send_raw : Client lib → Bytes → Client lib
  send_raw c frame = carry c frame

  -- The "update" listener.
  unfoldable pub on_update : Client lib → Bool → Bytes → Client lib
  unfolding send_reliable
  on_update c remote update = send_update send_reliable c remote update

  -- One round of the loop over a frame: it throws on a type that it does not know.
  unfoldable pub turn : Client lib → Bytes → Turn (Client lib)
  unfolding send_raw on_update
  turn c bytes = read_type c bytes λ type rest.
      if type == sync_message
      then read_sync on_update c rest (answer send_raw)
      else if type == awareness_message
      then skip_block c rest
      else throws c

  unfoldable pub receive_binary : Client lib → Bytes → Client lib × Ending
  unfolding turn
  receive_binary c bytes = receive_all turn c bytes

  unfoldable pub on_ack : Client lib → Value → Client lib
  unfolding delete_pending
  on_ack c ack = record c {
    extra = record c.extra {
      pending = delete_pending ack c.extra.pending;
      acked = c.extra.acked ++ ack ∷ [];
    };
  }

  unfoldable pub on_message : Client lib → Arrival → Client lib × Ending
  unfolding send_raw receive_binary on_ack
  on_message c msg = elim msg.kind [
    | welcomes ↦ (join c, finished)
    | confirms ↦ (greet send_raw c, finished)
    | pings ↦ (c, finished)
    | disconnects ↦ (c, finished)
    | _ ↦
        if is_undefined msg.ack
        then when_update msg.update c (receive_binary c)
        else (on_ack c msg.ack, finished)
  ]

  unfoldable pub insert_paragraph : Documents lib → Client lib → Text → Client lib
  unfolding on_update
  insert_paragraph docs c t = append_paragraph on_update docs c t

  unfoldable pub text_content : Documents lib → Client lib → Text
  text_content docs c = docs.to_string c.doc

  unfoldable pub close : Client lib → Client lib
  close c = record c { is_open = false; extra = record c.extra { timing = false } }
