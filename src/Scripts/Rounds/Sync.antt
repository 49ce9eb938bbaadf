-- ===== src/Scripts/Rounds/Sync.antt =====
-- The rounds that read a sync message which is the whole of a frame, in the scripts of
-- examples/actioncable-demo/frontend.
use y_ruby.Base.{
  ℕ, Bool, true, false, if◌then◌else◌, [], ◌∷◌, ◌++◌, Bytes, ◌≡◌, ◌≢◌, refl, ap, ◌∙◌, arith,
}
use mathlib.Core.Path.{ap₂}
use y_ruby.External.{Packages, SyncRead}
use y_ruby.Framing.{sync_message, frame_update, frame_sync_step1, reply_of}
use y_ruby.Session.Exchange.{SyncLaws}
use y_ruby.Scripts.{Turn, goes_on, throws, Member, read_type, read_sync, changed, answer}
use y_ruby.Scripts.Rounds.{Deaf, changed-Deaf}

-- A frame with one sync message.
abbrev pub frame_of : Bytes → Bytes
frame_of message = sync_message ∷ message

module _ {lib : Packages} (laws : SyncLaws lib) where
  pub frame_update-bytes : (u : Bytes) → frame_update lib u ≡ frame_of (lib.write_update u)
  unfolding frame_update
  frame_update-bytes u = ap (λ bs. bs ++ lib.write_update u) laws.sync_byte

  pub frame_sync_step1-bytes :
      (d : lib.Doc) → frame_sync_step1 lib d ≡ frame_of (lib.write_sync_step1 d)
  unfolding frame_sync_step1
  frame_sync_step1-bytes d = ap (λ bs. bs ++ lib.write_sync_step1 d) laws.sync_byte

-- The rounds that read such a frame.
module _ {lib : Packages} (laws : SyncLaws lib) {Extra : Type 0} where
  pub read_type-sync :
      (m : Member lib Extra) (message : Bytes) (body : ℕ → Bytes → Turn (Member lib Extra))
      → read_type m (frame_of message) body ≡ body sync_message message
  unfolding read_type
  read_type-sync m message body = rw (laws.sync_byte_back message, read_type) refl

  module _ (listener : Member lib Extra → Bool → Bytes → Member lib Extra) (deaf : Deaf listener)
      (finish : Member lib Extra → SyncRead lib.Doc → Member lib Extra) (m : Member lib Extra) where
    read_sync-whole :
        (message : Bytes)
        → let r = lib.read_sync_message message m.doc in
          r.applied.threw ≡ false
          → r.rest ≡ []
          → read_sync listener m message finish
            ≡ goes_on (finish (record m { doc = r.applied.doc }) r) []
    unfolding read_sync
    read_sync-whole message t e =
        let r = lib.read_sync_message message m.doc in
        let d = changed listener m true r.applied in
        ap (λ b. if b then throws d else goes_on (finish d r) r.rest) t
        ∙ ap₂ (λ n rest. goes_on (finish n r) rest) (changed-Deaf listener deaf m r.applied) e

    pub read_sync-update :
        (u : Bytes)
        → let d = (lib.apply_update m.doc u).doc in
          read_sync listener m (lib.write_update u) finish
          ≡ goes_on
              (finish (record m { doc = d }) (lib.read_sync_message (lib.write_update u) m.doc))
              []
    read_sync-update u =
        let e = laws.update_read u m.doc in
        let r = lib.read_sync_message (lib.write_update u) m.doc in
        read_sync-whole (lib.write_update u) (ap (λ x. x.applied.threw) e) (ap (λ x. x.rest) e)
        ∙ ap (λ d. goes_on (finish (record m { doc = d }) r) []) (ap (λ x. x.applied.doc) e)

    pub read_sync-step1 :
        (d : lib.Doc)
        → read_sync listener m (lib.write_sync_step1 d) finish
          ≡ goes_on (finish m (lib.read_sync_message (lib.write_sync_step1 d) m.doc)) []
    read_sync-step1 d =
        let (e, _, _, rest) = laws.step1_read m.doc d in
        let r = lib.read_sync_message (lib.write_sync_step1 d) m.doc in
        read_sync-whole (lib.write_sync_step1 d) (ap (λ x. x.threw) e) rest
        ∙ ap (λ x. goes_on (finish (record m { doc = x }) r) []) (ap (λ x. x.doc) e)

  module _ (send : Member lib Extra → Bytes → Member lib Extra) (m : Member lib Extra) where
    answer-nothing : (r : SyncRead lib.Doc) → r.reply ≡ [] → answer send m r ≡ m
    unfolding answer reply_of
    answer-nothing r e = ground (arith, laws.sync_byte, e)

    answer-something :
        (r : SyncRead lib.Doc) → r.reply ≢ [] → answer send m r ≡ send m (frame_of r.reply)
    unfolding answer reply_of
    answer-something r n = ground (arith, laws.sync_byte, n)

    -- No reply to an update, one to a SyncStep1.
    pub answer-update :
        (d : lib.Doc) (u : Bytes) → answer send m (lib.read_sync_message (lib.write_update u) d) ≡ m
    answer-update d u = answer-nothing _ (ap (λ x. x.reply) (laws.update_read u d))

    pub answer-step1 :
        (d d' : lib.Doc)
        → let r = lib.read_sync_message (lib.write_sync_step1 d') d in
          answer send m r ≡ send m (frame_of r.reply)
    answer-step1 d d' =
        let (_, _, n, _) = laws.step1_read d d' in
        answer-something (lib.read_sync_message (lib.write_sync_step1 d') d) n
