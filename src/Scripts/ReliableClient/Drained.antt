-- ===== src/Scripts/ReliableClient/Drained.antt =====
-- Acknowledgements end what the client of examples/actioncable-demo/frontend/reliable.mjs has pending.
use y_ruby.Base.{
  ℕ, ◌==◌, Bool, true, false, ◌||◌, List, [], ◌∷◌, ◌++◌, Bytes, ◌≡◌, ◌∙◌, refl, ap, arith, map, All,
  All-map, Bool-cases, inl, inr,
}
use y_ruby.External.{Packages}
use y_ruby.Number.{Value, number, integer, undefined}
use y_ruby.Scripts.{untyped}
use y_ruby.Scripts.ReliableClient.{Client, retransmit, on_message, on_ack, delete_pending}
use y_ruby.Scripts.ReliableClient.Ledger.{All-delete}
use y_ruby.Scripts.ReliableClient.History.{ReliableCall, reliable_run, ledger-transmit_all}
use y_ruby.Scripts.ReliableClient.Resend.{entry_post, retransmit-pending}

abbrev pub positive : ℕ → Value
positive n = number (integer false n)

-- The arrival of the acknowledgement of a number.
abbrev pub acknowledges : ℕ → ReliableCall
acknowledges n =
    ReliableCall.arrives (record { kind = untyped; ack = positive n; update = undefined })

-- The number is among these.
abbrev pub is_among : ℕ → List ℕ → Bool
is_among k [] = false
is_among k (n ∷ ns) = n == k || is_among k ns

-- No number is pending twice.
abbrev pub Distinct : List (ℕ × Bytes) → Type 0
Distinct [] = Unit
Distinct ((k, f) ∷ entries) = All (λ (e : ℕ × Bytes). k == e.0 ≡ false) entries × Distinct entries

abbrev pub Acknowledged : List ℕ → List (ℕ × Bytes) → Type 0
Acknowledged acks entries = All (λ (e : ℕ × Bytes). is_among e.0 acks ≡ true) entries

abbrev delete_each : List ℕ → List (ℕ × Bytes) → List (ℕ × Bytes)
delete_each [] entries = entries
delete_each (n ∷ ns) entries = delete_each ns (delete_pending (positive n) entries)

-- Behind the entry of the number itself.
Acknowledged-other :
    (n : ℕ) (ns : List ℕ) (entries : List (ℕ × Bytes))
    → All (λ (e : ℕ × Bytes). n == e.0 ≡ false) entries
    → Acknowledged (n ∷ ns) entries
    → Acknowledged ns entries
Acknowledged-other n ns [] o h = tt
Acknowledged-other n ns (e ∷ entries) o h =
    (ground (arith, o.0, h.0), Acknowledged-other n ns entries o.1 h.1)

Distinct-delete :
    (n : ℕ) (entries : List (ℕ × Bytes))
    → Distinct entries
    → Distinct (delete_pending (positive n) entries)
unfolding delete_pending
Distinct-delete n [] d = tt
Distinct-delete n ((k, f) ∷ entries) d = elim (Bool-cases (n == k)) [
  | inl e ↦ rw e d.1
  | inr e ↦ rw e (
    All-delete (λ (x : ℕ × Bytes). k == x.0 ≡ false) (positive n) entries d.0,
    Distinct-delete n entries d.1,
  )
]

Acknowledged-delete :
    (n : ℕ) (ns : List ℕ) (entries : List (ℕ × Bytes))
    → Distinct entries
    → Acknowledged (n ∷ ns) entries
    → Acknowledged ns (delete_pending (positive n) entries)
unfolding delete_pending
Acknowledged-delete n ns [] d h = tt
Acknowledged-delete n ns ((k, f) ∷ entries) d h = elim (Bool-cases (n == k)) [
  | inl e ↦
      rw e (Acknowledged-other n ns entries (All-map (λ x o. ground (arith, o, e)) entries d.0) h.1)
  | inr e ↦ rw e (ground (arith, e, h.0), Acknowledged-delete n ns entries d.1 h.1)
]

delete_each-empties :
    (ns : List ℕ) (entries : List (ℕ × Bytes))
    → Distinct entries
    → Acknowledged ns entries
    → delete_each ns entries ≡ []
delete_each-empties [] [] d h = refl
delete_each-empties [] (e ∷ entries) d h = ground (arith, h.0)
delete_each-empties (n ∷ ns) entries d h =
    delete_each-empties ns (delete_pending (positive n) entries) (Distinct-delete n entries d)
      (Acknowledged-delete n ns entries d h)

module _ {lib : Packages} where
  reliable_run-deletes :
      (c : Client lib) (ns : List ℕ)
      → (reliable_run c (map acknowledges ns)).extra.pending ≡ delete_each ns c.extra.pending
  unfolding reliable_run on_message on_ack
  reliable_run-deletes c [] = refl
  reliable_run-deletes c (n ∷ ns) = reliable_run-deletes (on_ack c (positive n)) ns

  -- A retransmission outside of an outage sends every pending frame under its number, in order; and once these
  -- numbers have been acknowledged, in whatever order, often and among what others, nothing is
  -- pending any more, if no number is pending twice.
  pub retransmit_drains :
      (c : Client lib) (acks : List ℕ)
      → c.extra.blackhole ≡ false
      → Distinct c.extra.pending
      → Acknowledged acks c.extra.pending
      → ((retransmit c).posts ≡ c.posts ++ map (entry_post c.identifier) c.extra.pending)
        × ((reliable_run (retransmit c) (map acknowledges acks)).extra.pending ≡ [])
  unfolding retransmit
  retransmit_drains c acks b d h = (
    ground (arith, b, (retransmit-pending c).0),
    reliable_run-deletes (retransmit c) acks
        ∙ ap (λ l. delete_each acks l.1) (ledger-transmit_all c c.extra.pending)
        ∙ delete_each-empties acks c.extra.pending d h,
  )
