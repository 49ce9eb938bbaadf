-- ===== src/Scripts/ReliableClient/Resend.antt =====
-- The retransmission of the client of examples/actioncable-demo/frontend/reliable.mjs.
use y_ruby.Base.{
  ℕ, suc, ◌+◌, true, false, if◌then◌else◌, List, [], ◌∷◌, ◌++◌, Bytes, ◌≡◌, refl, sym, arith,
  length, map, append_assoc, append-nil, Bool-cases, inl, inr,
}
use y_ruby.External.{Packages}
use y_ruby.Base64.{to_base64}
use y_ruby.Cable.{numbered}
use y_ruby.Scripts.{Post, Identifier, carries, post}
use y_ruby.Scripts.ReliableClient.{Client, retransmit, transmit, transmit_all}

-- The command that sends an entry.
abbrev pub entry_post : Identifier → ℕ × Bytes → Post
entry_post identifier (id, frame) = carries identifier (numbered (to_base64 frame) id)

module _ {lib : Packages} where
  -- While everything sent is dropped.
  transmit_all-dropped :
      (c : Client lib) (entries : List (ℕ × Bytes))
      → c.extra.blackhole ≡ true
      → ((transmit_all c entries).posts ≡ c.posts)
        × ((transmit_all c entries).extra.dropped ≡ c.extra.dropped + length entries)
  unfolding transmit_all transmit
  transmit_all-dropped c [] h = (refl, omega arith)
  transmit_all-dropped c ((id, frame) ∷ entries) h =
      let d = record c { extra = record c.extra { dropped = suc c.extra.dropped } } in
      ground (arith, h, transmit_all-dropped d entries h)

  transmit_all-sent :
      (c : Client lib) (entries : List (ℕ × Bytes))
      → c.extra.blackhole ≡ false
      → ((transmit_all c entries).posts ≡ c.posts ++ map (entry_post c.identifier) entries)
        × ((transmit_all c entries).extra.dropped ≡ c.extra.dropped)
  unfolding transmit_all transmit post
  transmit_all-sent c [] h = (sym (append-nil c.posts), refl)
  transmit_all-sent c ((id, frame) ∷ entries) h =
      let p = entry_post c.identifier (id, frame) in
      let d = record c { posts = c.posts ++ p ∷ [] } in
      ground (
        arith,
        h,
        transmit_all-sent d entries h,
        append_assoc c.posts (p ∷ []) (map (entry_post c.identifier) entries),
      )

  -- A retransmission sends every pending frame under its number, in order, and drops nothing; in an
  -- outage it sends nothing and counts each of them as dropped.
  pub retransmit-pending :
      (c : Client lib)
      → ((retransmit c).posts ≡ (
          if c.extra.blackhole
          then c.posts
          else c.posts ++ map (entry_post c.identifier) c.extra.pending))
        × ((retransmit c).extra.dropped ≡ (
            if c.extra.blackhole
            then c.extra.dropped + length c.extra.pending
            else c.extra.dropped))
  unfolding retransmit
  retransmit-pending c = elim (Bool-cases c.extra.blackhole) [
    | inl h ↦ let (p, d) = transmit_all-dropped c c.extra.pending h in ground (arith, h, p, d)
    | inr h ↦ let (p, d) = transmit_all-sent c c.extra.pending h in ground (arith, h, p, d)
  ]
