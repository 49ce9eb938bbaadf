-- ===== src/Scripts/ServerRead/Tags.antt =====
-- What the expressions of examples/actioncable-demo/frontend/server_read.mjs and stress.mjs leave of a text
-- with tags.
use y_ruby.Base.{
  ℕ, Bool, true, false, ◌==◌, if◌then◌else◌, not, ◌&&◌, ◌≡◌, ◌∙◌, refl, ap, arith, List, [], ◌∷◌,
  ◌++◌, some, none, All, length, append_assoc, Option, append-nil,
}
use y_ruby.Scripts.Texts.{Text, codes}
use y_ruby.Scripts.ServerRead.{lt_sign, gt_sign, replace_tags, strip_tags, visible_chars}

abbrev pub lacks : ℕ → Text → Bool
lacks c [] = true
lacks c (d ∷ s) = not (d == c) && lacks c s

-- No `>` comes behind a `<`.
abbrev clean : Text → Bool
clean [] = true
clean (c ∷ cs) = if c == lt_sign then lacks gt_sign cs else clean cs

pub lacks-append : (c : ℕ) (s t : Text) → lacks c (s ++ t) ≡ (lacks c s && lacks c t)
lacks-append c [] t = refl
lacks-append c (d ∷ s) t = ground (arith, lacks-append c s t)

-- What is held has no `>`.
abbrev IsHeld : Option Text → Type 0
IsHeld none = Unit
IsHeld (some held) = lacks gt_sign held ≡ true

clean-replace_tags :
    (state : Option Text) (s : Text) → IsHeld state → clean (replace_tags false state s) ≡ true
unfolding replace_tags
clean-replace_tags none [] h = refl
clean-replace_tags none (c ∷ cs) h =
    ground (arith, clean-replace_tags none cs tt, clean-replace_tags (some []) cs refl)
clean-replace_tags (some held) [] h = h
clean-replace_tags (some []) (c ∷ cs) h =
    ground (arith, clean-replace_tags none cs tt, clean-replace_tags (some (c ∷ [])) cs)
clean-replace_tags (some (d ∷ held)) (c ∷ cs) h = ground (
  arith,
  clean-replace_tags none cs tt,
  clean-replace_tags (some (d ∷ (held ++ c ∷ []))) cs,
  lacks-append gt_sign held (c ∷ []),
)

replace_tags-held :
    (held s : Text)
    → lacks gt_sign s ≡ true
    → replace_tags false (some held) s ≡ lt_sign ∷ (held ++ s)
unfolding replace_tags
replace_tags-held held [] h = rw append-nil
replace_tags-held [] (c ∷ cs) h = ground (arith, replace_tags-held (c ∷ []) cs)
replace_tags-held (d ∷ held) (c ∷ cs) h =
    ground (arith, replace_tags-held (d ∷ (held ++ c ∷ [])) cs, append_assoc held (c ∷ []) cs)

replace_tags-clean : (s : Text) → clean s ≡ true → replace_tags false none s ≡ s
unfolding replace_tags
replace_tags-clean [] h = refl
replace_tags-clean (c ∷ cs) h = ground (arith, replace_tags-clean cs, replace_tags-held [] cs)

-- Stripping the tags of any text leaves nothing to strip.
pub strip_tags_idem : (s : Text) → strip_tags (strip_tags s) ≡ strip_tags s
unfolding strip_tags
strip_tags_idem s = replace_tags-clean _ (clean-replace_tags none s tt)

replace_tags-words :
    (plus : Bool) (t rest : Text)
    → lacks lt_sign t ≡ true
    → replace_tags plus none (t ++ rest) ≡ t ++ replace_tags plus none rest
unfolding replace_tags
replace_tags-words plus [] rest h = refl
replace_tags-words plus (c ∷ t) rest h = ground (arith, replace_tags-words plus t rest)

-- The document's string: its paragraphs in order.
abbrev pub markup : List Text → Text
markup [] = []
markup (t ∷ ts) = codes "<paragraph>" ++ (t ++ (codes "</paragraph>" ++ markup ts))

abbrev pub joined : List Text → Text
joined [] = []
joined (t ∷ ts) = t ++ joined ts

replace_tags-opening :
    (plus : Bool) (rest : Text)
    → replace_tags plus none (codes "<paragraph>" ++ rest) ≡ replace_tags plus none rest
unfolding replace_tags
replace_tags-opening plus rest = ground arith

replace_tags-closing :
    (plus : Bool) (rest : Text)
    → replace_tags plus none (codes "</paragraph>" ++ rest) ≡ replace_tags plus none rest
unfolding replace_tags
replace_tags-closing plus rest = ground arith

replace_tags-markup :
    (plus : Bool) (ts : List Text)
    → All (λ t. lacks lt_sign t ≡ true) ts
    → replace_tags plus none (markup ts) ≡ joined ts
replace_tags-markup plus [] h = unfold replace_tags in refl
replace_tags-markup plus (t ∷ ts) h =
    replace_tags-opening plus _
    ∙ replace_tags-words plus t _ h.0
    ∙ ap (λ s. t ++ s) (replace_tags-closing plus _ ∙ replace_tags-markup plus ts h.1)

-- Of the string of a document of paragraphs whose texts hold no `<`, the server's text is the texts one
-- after the other, and the visible characters are theirs.
pub strip_tags-markup :
    (ts : List Text)
    → All (λ t. lacks lt_sign t ≡ true) ts
    → (strip_tags (markup ts) ≡ joined ts) × (visible_chars (markup ts) ≡ length (joined ts))
unfolding strip_tags visible_chars
strip_tags-markup ts h = (replace_tags-markup false ts h, ap length (replace_tags-markup true ts h))
