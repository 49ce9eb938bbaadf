-- ===== src/Scripts/Delivered.antt =====
-- What the clients of the scripts in examples/actioncable-demo/frontend do with a frame.
pub mod Answering
pub mod Typed
pub mod Anycable
pub mod Clients
use y_ruby.Base.{
  ◌≡◌, ◌≢◌, refl, sym, ap, subst, ◌∙◌, List, [], ◌∷◌, ◌++◌, Bytes, All, true, false, not, ◌&&◌,
  if◌then◌else◌, arith, Bool, suc,
}
use y_ruby.External.{Packages}
use y_ruby.Framing.{frame_update, frame_sync_step1}
use y_ruby.Session.Exchange.{SyncLaws}
use y_ruby.Cable.{plain}
use y_ruby.Base64.{to_base64}
use y_ruby.Base64.RoundTrip.{IsByte}
use y_ruby.Scripts.{
  Ending, finished, Member, Post, carries, carry, carry_if_open, post, receive_all,
}

module _ {lib : Packages} where
  -- The update is applied, nothing is sent, and the handler returns.
  abbrev pub Takes :
      {Extra : Type 0} → Member lib Extra → Bytes → Member lib Extra × Ending → Type 0
  Takes c u r =
      (r.0.doc ≡ (lib.apply_update c.doc u).doc) × (r.0.posts ≡ c.posts) × (r.1 ≡ finished)

  -- The document stays, one frame is sent if the client may send, and the handler returns.
  abbrev pub Answers :
      {Extra : Type 0} → Bool → Member lib Extra → Bytes → Member lib Extra × Ending → Type 0
  Answers may_send c frame r =
      (r.0.doc ≡ c.doc)
      × (r.0.posts ≡ (
          if may_send
          then c.posts ++ carries c.identifier (plain (to_base64 frame)) ∷ []
          else c.posts))
      × (r.1 ≡ finished)

  pub Takes-result :
      {Extra : Type 0} (c t : Member lib Extra) (u : Bytes) (r : Member lib Extra × Ending)
      → r ≡ (t, finished)
      → t.doc ≡ (lib.apply_update c.doc u).doc
      → t.posts ≡ c.posts
      → Takes c u r
  Takes-result c t u r e d p = (ap (λ x. x.0.doc) e ∙ d, ap (λ x. x.0.posts) e ∙ p, ap (λ x. x.1) e)

  pub Answers-result :
      {Extra : Type 0} (may_send : Bool) (c t : Member lib Extra) (frame : Bytes)
      (r : Member lib Extra × Ending)
      → r ≡ (t, finished)
      → Answers may_send c frame (t, finished)
      → Answers may_send c frame r
  Answers-result may_send c t frame r e h = subst (Answers may_send c frame) (sym e) h
