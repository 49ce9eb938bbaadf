-- ===== src/Scripts/ReliableClient/History.antt =====
-- Histories of the client of examples/actioncable-demo/frontend/reliable.mjs, and what a call does to its
-- ledger.
use y_ruby.Base.{
  ℕ, ◌==◌, Bool, false, List, [], ◌∷◌, ◌++◌, Bytes, ◌≡◌, refl, ◌∙◌, ◌⊎◌, inl, inr, arith,
  Option-cases,
}
use y_ruby.External.{Packages, SyncRead}
use y_ruby.Framing.{frame_update, sync_message, awareness_message, reply_of}
use y_ruby.Scripts.{Arrival, send_update, answer, carry, post, greet, join}
use y_ruby.Scripts.Loops.{receive_all-keeps, when_update-keeps}
use y_ruby.Scripts.Rounds.{read_type-After, read_sync-After, skip_block-After, if-After}
use y_ruby.Scripts.Turns.{reliable-Deaf}
use y_ruby.Scripts.ReliableClient.{
  Client, on_update, on_message, retransmit, transmit, transmit_all, send_reliable, send_raw,
  on_ack, turn, receive_binary,
}
use y_ruby.Scripts.ReliableClient.Ledger.{Ledger, ledger, issue, settle}

-- An update of the document with a local origin, a message, the retransmit timer, and the script
-- setting `blackhole`.
pub data ReliableCall : Type 0 where
  updates : Bytes → ReliableCall
  arrives : Arrival → ReliableCall
  ticks : ReliableCall
  blackholes : Bool → ReliableCall

module _ {lib : Packages} where
  unfoldable pub reliable_step : Client lib → ReliableCall → Client lib
  unfolding on_update on_message retransmit
  reliable_step c (updates u) = on_update c false u
  reliable_step c (arrives msg) = (on_message c msg).0
  reliable_step c ticks = retransmit c
  reliable_step c (blackholes b) = record c { extra = record c.extra { blackhole = b } }

  unfoldable pub reliable_run : Client lib → List ReliableCall → Client lib
  unfolding reliable_step
  reliable_run c [] = c
  reliable_run c (x ∷ xs) = reliable_run (reliable_step c x) xs

  ledger-transmit :
      (c : Client lib) (id : ℕ) (frame : Bytes)
      → ledger (transmit c id frame).extra ≡ ledger c.extra
  unfolding transmit post
  ledger-transmit c id frame = ground arith

  pub ledger-transmit_all :
      (c : Client lib) (entries : List (ℕ × Bytes))
      → ledger (transmit_all c entries).extra ≡ ledger c.extra
  unfolding transmit_all
  ledger-transmit_all c [] = refl
  ledger-transmit_all c ((id, frame) ∷ entries) =
      ledger-transmit_all (transmit c id frame) entries ∙ ledger-transmit c id frame

  pub ledger-update :
      (c : Client lib) (u : Bytes)
      → ledger (on_update c false u).extra ≡ issue (ledger c.extra) (frame_update lib u)
  unfolding on_update send_update send_reliable
  ledger-update c u = ledger-transmit _ c.extra.next_id (frame_update lib u)

  -- What arrives in a frame leaves the ledger alone.
  abbrev Accounts : Ledger → Client lib → Type 0
  Accounts l c = ledger c.extra ≡ l

  answer-Accounts :
      (l : Ledger) (c : Client lib) (r : SyncRead lib.Doc)
      → Accounts l c
      → Accounts l (answer send_raw c r)
  unfolding answer send_raw carry post
  answer-Accounts l c r h =
      elim (Option-cases (reply_of lib (lib.write_var_uint sync_message ++ r.reply))) [
        | inl e ↦ rw (e, answer) h
        | inr (frame, e) ↦ rw (e, answer) h
      ]

  receive-Accounts :
      (l : Ledger) (c : Client lib) (bs : Bytes) → Accounts l c → Accounts l (receive_binary c bs).0
  unfolding receive_binary turn
  receive-Accounts l c bs h =
      receive_all-keeps (Accounts l) turn
        (λ s bytes k. read_type-After (Accounts l) s bytes _ k λ type rest.
          if-After (Accounts l) (type == sync_message) _ _
            (read_sync-After (Accounts l) on_update s rest (answer send_raw) reliable-Deaf
              (λ doc. k) (λ doc r. answer-Accounts l _ r k))
            (if-After (Accounts l) (type == awareness_message) _ _
              (skip_block-After (Accounts l) s rest k) k))
        c bs h

  pub ledger-message :
      (c : Client lib) (msg : Arrival)
      → (ledger (on_message c msg).0.extra ≡ ledger c.extra)
        ⊎ (ledger (on_message c msg).0.extra ≡ settle (ledger c.extra) msg.ack)
  unfolding on_message join greet send_raw carry post on_ack
  ledger-message c msg =
      let l = ledger c.extra in
      ground (
        arith,
        when_update-keeps (Accounts l) msg.update c (receive_binary c) refl
            (λ bs. receive-Accounts l c bs refl),
      )
