-- ===== src/Scripts/Edits.antt =====
-- The paragraphs that the clients of the scripts in examples/actioncable-demo/frontend append.
pub mod Numbered
pub mod Clients
use y_ruby.Base.{
  ℕ, Bool, true, false, ◌&&◌, if◌then◌else◌, List, [], ◌∷◌, ◌++◌, map, Bytes, ◌≡◌, refl, ap, ◌∙◌,
  append_assoc, append-nil, arith,
}
use y_ruby.External.{Packages, Applied}
use y_ruby.Framing.{frame_update}
use y_ruby.Cable.{plain}
use y_ruby.Base64.{to_base64}
use y_ruby.Scripts.{
  Post, Identifier, Documents, carries, Member, fire_updates, changed, append_paragraph,
  send_update, carry, carry_if_open, post,
}
use y_ruby.Scripts.Texts.{Text, codes}

-- The post that carries an update.
abbrev pub update_post : Packages → Identifier → Bytes → Post
update_post lib identifier u = carries identifier (plain (to_base64 (frame_update lib u)))

abbrev pub posts_of : Packages → Bool → Identifier → List Bytes → List Post
posts_of lib may_send identifier us = if may_send then map (update_post lib identifier) us else []

posts_of-cons :
    (lib : Packages) (b : Bool) (identifier : Identifier) (ps : List Post) (u : Bytes)
    (us : List Bytes)
    → (ps ++ posts_of lib b identifier (u ∷ [])) ++ posts_of lib b identifier us
      ≡ ps ++ posts_of lib b identifier (u ∷ us)
posts_of-cons lib true identifier ps u us = append_assoc ps (update_post lib identifier u ∷ []) _
posts_of-cons lib false identifier ps u us = append_assoc ps [] []

-- The transaction of a paragraph.
abbrev pub paragraph : {lib : Packages} → Documents lib → lib.Doc → Text → Applied lib.Doc
paragraph docs doc t = docs.transact doc λ d.
    docs.insert_element d (docs.fragment_length d)
      (docs.insert_text (docs.new_element (codes "paragraph")) 0 t)

module _ {lib : Packages} {Extra : Type 0} where
  -- A listener that sends a local update if the member may send.
  abbrev pub Sends :
      (Member lib Extra → Bool) → (Member lib Extra → Bool → Bytes → Member lib Extra) → Type 0
  Sends may_send listener =
      (m : Member lib Extra) (u : Bytes)
      → let n = listener m false u in
        (n.posts ≡ m.posts ++ posts_of lib (may_send m) m.identifier (u ∷ []))
        × (may_send n ≡ may_send m)
        × (n.identifier ≡ m.identifier)
        × (n.doc ≡ m.doc)

  -- What the calls of the listener leave.
  abbrev Sent : Bool → Member lib Extra → List Bytes → Member lib Extra → Type 0
  Sent may_send m us n =
      (n.posts ≡ m.posts ++ posts_of lib may_send m.identifier us) × (n.doc ≡ m.doc)

  fire_updates-Sent :
      (may_send : Member lib Extra → Bool)
      (listener : Member lib Extra → Bool → Bytes → Member lib Extra)
      → Sends may_send listener
      → (m : Member lib Extra) (us : List Bytes)
      → Sent (may_send m) m us (fire_updates listener m false us)
  unfolding fire_updates
  fire_updates-Sent may_send listener sends m [] = (ground (arith, append-nil m.posts), refl)
  fire_updates-Sent may_send listener sends m (u ∷ us) =
      let n = listener m false u in
      let (p, b, i, d) = sends m u in
      let rest = fire_updates-Sent may_send listener sends n us in
      (
        rest.0
            ∙ ap (λ l. l ++ posts_of lib (may_send n) n.identifier us) p
            ∙ ap
                (λ c.
                  (m.posts ++ posts_of lib (may_send m) m.identifier (u ∷ []))
                  ++ posts_of lib c n.identifier us)
                b
            ∙ ap
                (λ k.
                  (m.posts ++ posts_of lib (may_send m) m.identifier (u ∷ []))
                  ++ posts_of lib (may_send m) k us)
                i
            ∙ posts_of-cons lib (may_send m) m.identifier m.posts u us,
        rest.1 ∙ d,
      )

  -- The document is that of the transaction, and its updates are sent in order if the member may send.
  abbrev pub Appends : Bool → Member lib Extra → Applied lib.Doc → Member lib Extra → Type 0
  Appends may_send m r n =
      (n.posts ≡ m.posts ++ posts_of lib may_send m.identifier r.events) × (n.doc ≡ r.doc)

  pub append_paragraph-Appends :
      (may_send : Member lib Extra → Bool)
      (listener : Member lib Extra → Bool → Bytes → Member lib Extra)
      → Sends may_send listener
      → ((m : Member lib Extra) (doc : lib.Doc) → may_send (record m { doc = doc }) ≡ may_send m)
      → (docs : Documents lib) (m : Member lib Extra) (t : Text)
      → Appends (may_send m) m (paragraph docs m.doc t) (append_paragraph listener docs m t)
  unfolding append_paragraph changed
  append_paragraph-Appends may_send listener sends same docs m t =
      let r = paragraph docs m.doc t in
      let h = fire_updates-Sent may_send listener sends (record m { doc = r.doc }) r.events in
      (h.0 ∙ ap (λ b. m.posts ++ posts_of lib b m.identifier r.events) (same m r.doc), h.1)
