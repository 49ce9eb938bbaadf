-- ===== src/Scripts/Edits/Numbered.antt =====
-- The paragraphs that the client of examples/actioncable-demo/frontend/reliable.mjs inserts.
use y_ruby.Base.{
  ℕ, suc, ◌+◌, ◌≤◌, ◌<◌, All-append, All-map, length, map, refl, Bool, true, false, if◌then◌else◌,
  List, [], ◌∷◌, ◌++◌, Bytes, ◌≡◌, ap, ◌∙◌, append_assoc, append-nil, arith,
}
use y_ruby.External.{Packages, Applied}
use y_ruby.Framing.{frame_update}
use y_ruby.Cable.{numbered}
use y_ruby.Base64.{to_base64}
use y_ruby.Number.{Value, increment, exact_limit}
use y_ruby.Scripts.ReliableClient.Resend.{entry_post}
use y_ruby.Scripts.{
  Post, Identifier, Documents, carries, fire_updates, changed, append_paragraph, send_update, post,
}
use y_ruby.Scripts.Texts.{Text}
use y_ruby.Scripts.ReliableClient.{Client, on_update, send_reliable, transmit, insert_paragraph}
use y_ruby.Scripts.ReliableClient.Ledger.{Ledger, ledger, issue, Below, put_pending-fresh}
use y_ruby.Scripts.ReliableClient.History.{ledger-update}
use y_ruby.Scripts.Edits.{paragraph}

module _ (lib : Packages) where
  -- The posts that carry updates, each under its number.
  abbrev numbered_posts : Identifier → ℕ → List Bytes → List Post
  numbered_posts identifier id [] = []
  numbered_posts identifier id (u ∷ us) =
      carries identifier (numbered (to_base64 (frame_update lib u)) id)
      ∷ numbered_posts identifier (increment id) us

  -- Each update takes the next number, under which its frame is pending.
  abbrev issue_all : Ledger → List Bytes → Ledger
  issue_all l [] = l
  issue_all l (u ∷ us) = issue_all (issue l (frame_update lib u)) us

  -- None in an outage.
  abbrev posted : Bool → Identifier → ℕ → List Bytes → List Post
  posted blackhole identifier id us = if blackhole then [] else numbered_posts identifier id us

  posted-cons :
      (b : Bool) (identifier : Identifier) (id : ℕ) (ps : List Post) (u : Bytes) (us : List Bytes)
      → (ps ++ posted b identifier id (u ∷ [])) ++ posted b identifier (increment id) us
        ≡ ps ++ posted b identifier id (u ∷ us)
  posted-cons true identifier id ps u us = append_assoc ps [] []
  posted-cons false identifier id ps u us =
      append_assoc ps (numbered_posts identifier id (u ∷ [])) _

  -- The frames of updates under consecutive numbers.
  abbrev pub entries_from : ℕ → List Bytes → List (ℕ × Bytes)
  entries_from n [] = []
  entries_from n (u ∷ us) = (n, frame_update lib u) ∷ entries_from (suc n) us

  posts-entries :
      (identifier : Identifier) (n : ℕ) (us : List Bytes)
      → n + length us ≤ exact_limit
      → numbered_posts identifier n us ≡ map (entry_post identifier) (entries_from n us)
  posts-entries identifier n [] b = refl
  posts-entries identifier n (u ∷ us) b =
      ground (arith, posts-entries identifier (suc n) us (omega (arith, b)))

  issue-fresh :
      (n : ℕ) (entries : List (ℕ × Bytes)) (acks : List Value) (f : Bytes)
      → n < exact_limit
      → Below n entries
      → issue (n, entries, acks) f ≡ (suc n, entries ++ (n, f) ∷ [], acks)
  issue-fresh n entries acks f b h = ground (arith, put_pending-fresh n f entries h)

  issue_all-entries :
      (n : ℕ) (entries : List (ℕ × Bytes)) (acks : List Value) (us : List Bytes)
      → n + length us ≤ exact_limit
      → Below n entries
      → issue_all (n, entries, acks) us ≡ (n + length us, entries ++ entries_from n us, acks)
  issue_all-entries n entries acks [] b h = ground (arith, append-nil entries)
  issue_all-entries n entries acks (u ∷ us) b h =
      let f = frame_update lib u in
      let later = entries ++ (n, f) ∷ [] in
      let one = issue-fresh n entries acks f (omega (arith, b)) h in
      let below =
        All-append (λ (e : ℕ × Bytes). e.0 < suc n) entries ((n, f) ∷ [])
          (All-map (λ e k. omega (arith, k)) entries h) (omega arith, tt) in
      ap (λ l. issue_all l us) one
      ∙ issue_all-entries (suc n) later acks us (omega (arith, b)) below
      ∙ ground (arith, append_assoc entries ((n, f) ∷ []) (entries_from (suc n) us))

module _ {lib : Packages} where
  -- The same by the steps of the numbers.
  abbrev Issues : Client lib → Applied lib.Doc → Client lib → Type 0
  Issues c r d =
      (d.posts ≡ c.posts ++ posted lib c.extra.blackhole c.identifier c.extra.next_id r.events)
      × (ledger d.extra ≡ issue_all lib (ledger c.extra) r.events)
      × (d.doc ≡ r.doc)

  on_update-same :
      (c : Client lib) (u : Bytes)
      → let d = on_update c false u in
        (d.posts ≡ c.posts ++ posted lib c.extra.blackhole c.identifier c.extra.next_id (u ∷ []))
        × (d.extra.blackhole ≡ c.extra.blackhole)
        × (d.identifier ≡ c.identifier)
        × (d.doc ≡ c.doc)
  unfolding on_update send_update send_reliable transmit post
  on_update-same c u = ground (arith, append-nil c.posts)

  fire_updates-pending :
      (c : Client lib) (us : List Bytes)
      → Issues c
          (record { doc = c.doc; events = us; threw = false })
          (fire_updates on_update c false us)
  unfolding fire_updates
  fire_updates-pending c [] = ground (arith, append-nil c.posts)
  fire_updates-pending c (u ∷ us) =
      let d = on_update c false u in
      let (p, b, i, doc) = on_update-same c u in
      let l = ledger-update c u in
      let (posts, account, same) = fire_updates-pending d us in
      (
        posts
            ∙ cc (
              p,
              b,
              i,
              ap (λ x. x.0) l,
              posted-cons lib c.extra.blackhole c.identifier c.extra.next_id c.posts u us,
            ),
        account ∙ ap (λ x. issue_all lib x us) l,
        same ∙ doc,
      )

  -- The document is that of the transaction; the frames of its updates are pending behind the others under
  -- the next numbers, and have been sent so, in order, but for an outage.
  abbrev pub AppendsPending : Client lib → Applied lib.Doc → Client lib → Type 0
  AppendsPending c r d =
      let entries = entries_from lib c.extra.next_id r.events in
      (d.posts
        ≡ c.posts ++ (if c.extra.blackhole then [] else map (entry_post c.identifier) entries))
      × (d.extra.pending ≡ c.extra.pending ++ entries)
      × (d.extra.next_id ≡ c.extra.next_id + length r.events)
      × (d.doc ≡ r.doc)

  insert_paragraph-Issues :
      (docs : Documents lib) (c : Client lib) (t : Text)
      → Issues c (paragraph docs c.doc t) (insert_paragraph docs c t)
  unfolding insert_paragraph append_paragraph changed
  insert_paragraph-Issues docs c t =
      let r = paragraph docs c.doc t in fire_updates-pending (record c { doc = r.doc }) r.events

  pub insert_paragraph-pending :
      (docs : Documents lib) (c : Client lib) (t : Text)
      → Below c.extra.next_id c.extra.pending
      → c.extra.next_id + length (paragraph docs c.doc t).events ≤ exact_limit
      → AppendsPending c (paragraph docs c.doc t) (insert_paragraph docs c t)
  insert_paragraph-pending docs c t h b =
      let us = (paragraph docs c.doc t).events in
      let (posts, account, doc) = insert_paragraph-Issues docs c t in
      let l =
        account ∙ issue_all-entries lib c.extra.next_id c.extra.pending c.extra.acked us b h in
      (
        ground (arith, posts, posts-entries lib c.identifier c.extra.next_id us b),
        ap (λ x. x.1) l,
        ap (λ x. x.0) l,
        doc,
      )
