-- ===== src/Scripts/Rounds.antt =====
-- Single rounds of the loops over a frame of the scripts in examples/actioncable-demo/frontend: what a round
-- leaves of a member, and handlers of one round.
pub mod Sync
use y_ruby.Base.{
  ℕ, Bool, true, false, if◌then◌else◌, List, [], ◌∷◌, ◌++◌, Bytes, ◌≡◌, ◌≢◌, refl, sym, ap, subst,
  ◌∙◌, arith, All, Option-cases, inl, inr,
}
use mathlib.Core.Path.{ap₂}
use y_ruby.External.{Packages, SyncRead, Applied}
use y_ruby.Framing.{sync_message, frame_update, frame_sync_step1, reply_of}
use y_ruby.Session.Exchange.{SyncLaws}
use y_ruby.Number.{text}
use y_ruby.Base64.{to_base64, btoa}
use y_ruby.Base64.RoundTrip.{IsByte, btoa-ne-nil}
use y_ruby.Scripts.Buffer.{buffer_from-to_base64}
use y_ruby.Scripts.{
  Turn, goes_on, throws, Ending, finished, read_loop, receive_all, Member, read_type, read_sync,
  skip_block, skip_or_break, apply_block, when_update, from_value, is_truthy, fire_updates, changed,
  answer,
}
use y_ruby.Scripts.Loops.{After}

pub receive_all-one :
    {S : Type 0} (turn : S → Bytes → Turn S) (s t : S) (bs : Bytes)
    → bs ≢ []
    → turn s bs ≡ goes_on t []
    → receive_all turn s bs ≡ (t, finished)
unfolding receive_all read_loop
receive_all-one turn s t [] n e = absurd (n refl)
receive_all-one turn s t (b ∷ []) n e = rw (e, read_loop) refl
receive_all-one turn s t (b ∷ c ∷ bs) n e = rw (e, read_loop) refl

is_truthy-text : (t : List ℕ) → t ≢ [] → is_truthy (text t) ≡ true
unfolding is_truthy
is_truthy-text [] n = absurd (n refl)
is_truthy-text (c ∷ cs) n = refl

is_truthy-to_base64 : (bs : Bytes) → bs ≢ [] → is_truthy (text (to_base64 bs)) ≡ true
unfolding to_base64
is_truthy-to_base64 [] n = absurd (n refl)
is_truthy-to_base64 (b ∷ bs) n = is_truthy-text (btoa (b ∷ bs)) (btoa-ne-nil b bs)

-- The encoding of a frame is decoded to the frame.
from_value-frame :
    {S : Type 0} (s : S) (bs : Bytes) (use_bytes : Bytes → S × Ending)
    → All IsByte bs
    → from_value (text (to_base64 bs)) s use_bytes ≡ use_bytes bs
unfolding from_value
from_value-frame s bs use_bytes h = ap use_bytes (buffer_from-to_base64 bs h)

when_update-frame :
    {S : Type 0} (s : S) (bs : Bytes) (use_bytes : Bytes → S × Ending)
    → bs ≢ []
    → All IsByte bs
    → when_update (text (to_base64 bs)) s use_bytes ≡ use_bytes bs
unfolding when_update
when_update-frame s bs use_bytes n h =
    ap (λ b. if b then from_value (text (to_base64 bs)) s use_bytes else (s, finished))
      (is_truthy-to_base64 bs n)
    ∙ from_value-frame s bs use_bytes h

-- A member whose listener does not look at remote updates.
module _ {lib : Packages} {Extra : Type 0} where
  abbrev pub Deaf : (Member lib Extra → Bool → Bytes → Member lib Extra) → Type 0
  Deaf listener = (m : Member lib Extra) (u : Bytes) → listener m true u ≡ m

  fire_updates-Deaf :
      (listener : Member lib Extra → Bool → Bytes → Member lib Extra)
      → Deaf listener
      → (m : Member lib Extra) (us : List Bytes) → fire_updates listener m true us ≡ m
  unfolding fire_updates
  fire_updates-Deaf listener deaf m [] = refl
  fire_updates-Deaf listener deaf m (u ∷ us) =
      ap (λ n. fire_updates listener n true us) (deaf m u) ∙ fire_updates-Deaf listener deaf m us

  pub changed-Deaf :
      (listener : Member lib Extra → Bool → Bytes → Member lib Extra)
      → Deaf listener
      → (m : Member lib Extra) (r : Applied lib.Doc)
      → changed listener m true r ≡ record m { doc = r.doc }
  unfolding changed
  changed-Deaf listener deaf m r =
      fire_updates-Deaf listener deaf (record m { doc = r.doc }) r.events

  -- Predicates over a round.
  module _ (P : Member lib Extra → Type 0) where
    pub read_type-After :
        (m : Member lib Extra) (bs : Bytes) (body : ℕ → Bytes → Turn (Member lib Extra))
        → P m
        → ((type : ℕ) (rest : Bytes) → After P (body type rest))
        → After P (read_type m bs body)
    unfolding read_type
    read_type-After m bs body h k = elim (Option-cases (lib.read_var_uint bs)) [
      | inl e ↦ rw (e, After) h
      | inr (a, e) ↦ rw (e, After) (k a.0 a.1)
    ]

    pub skip_block-After : (m : Member lib Extra) (rest : Bytes) → P m → After P (skip_block m rest)
    unfolding skip_block
    skip_block-After m rest h = elim (Option-cases (lib.read_var_uint8_array rest)) [
      | inl e ↦ rw (e, After) h
      | inr (a, e) ↦ rw (e, After) h
    ]

    pub skip_or_break-After :
        (m : Member lib Extra) (rest : Bytes) → P m → After P (skip_or_break m rest)
    unfolding skip_or_break
    skip_or_break-After m rest h = elim (Option-cases (lib.read_var_uint8_array rest)) [
      | inl e ↦ rw (e, After) h
      | inr (a, e) ↦ rw (e, After) h
    ]

    pub if-After :
        (b : Bool) (t u : Turn (Member lib Extra))
        → After P t
        → After P u
        → After P (if b then t else u)
    if-After true t u h k = h
    if-After false t u h k = k

    pub apply_block-After :
        (awareness : lib.Awareness) (m : Member lib Extra) (rest : Bytes)
        (put : lib.Awareness → Member lib Extra)
        → P m
        → ((a : lib.Awareness) → P (put a))
        → After P (apply_block awareness m rest put)
    unfolding apply_block
    apply_block-After awareness m rest put h k =
        elim (Option-cases (lib.read_var_uint8_array rest)) [
          | inl e ↦ rw (e, After) h
          | inr (a, e) ↦
              let n = lib.apply_awareness_update awareness a.0 in
              rw (e, After) (if-After n.threw _ _ (k n.awareness) (k n.awareness))
        ]

    pub read_sync-After :
        (listener : Member lib Extra → Bool → Bytes → Member lib Extra) (m : Member lib Extra)
        (rest : Bytes) (finish : Member lib Extra → SyncRead lib.Doc → Member lib Extra)
        → Deaf listener
        → ((doc : lib.Doc) → P (record m { doc = doc }))
        → ((doc : lib.Doc) (r : SyncRead lib.Doc) → P (finish (record m { doc = doc }) r))
        → After P (read_sync listener m rest finish)
    unfolding read_sync
    read_sync-After listener m rest finish deaf h k =
        let r = lib.read_sync_message rest m.doc in
        let e = changed-Deaf listener deaf m r.applied in
        if-After r.applied.threw _ _ (subst P (sym e) (h r.applied.doc))
          (subst (λ d. P (finish d r)) (sym e) (k r.applied.doc r))

pub truthy-frame :
    {A : Type 0} (bs : Bytes) (x y : A)
    → bs ≢ []
    → (if is_truthy (text (to_base64 bs)) then x else y) ≡ x
truthy-frame bs x y n = ap (λ b. if b then x else y) (is_truthy-to_base64 bs n)

-- A handler whose loop has one round.
pub from_value-one :
    {S : Type 0} (turn : S → Bytes → Turn S) (s t : S) (bs : Bytes)
    → bs ≢ []
    → All IsByte bs
    → turn s bs ≡ goes_on t []
    → from_value (text (to_base64 bs)) s (receive_all turn s) ≡ (t, finished)
from_value-one turn s t bs n h e =
    from_value-frame s bs (receive_all turn s) h ∙ receive_all-one turn s t bs n e

pub when_update-one :
    {S : Type 0} (turn : S → Bytes → Turn S) (s t : S) (bs : Bytes)
    → bs ≢ []
    → All IsByte bs
    → turn s bs ≡ goes_on t []
    → when_update (text (to_base64 bs)) s (receive_all turn s) ≡ (t, finished)
when_update-one turn s t bs n h e =
    when_update-frame s bs (receive_all turn s) n h ∙ receive_all-one turn s t bs n e
