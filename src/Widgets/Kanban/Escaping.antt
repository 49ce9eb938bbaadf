-- ===== src/Widgets/Kanban/Escaping.antt =====
-- What a browser shows of the cards' texts that examples/actioncable-demo/frontend/src/kanban.js escapes.
use y_ruby.Base.{
  ℕ, zero, suc, ◌==◌, true, ◌&&◌, if◌then◌else◌, [], ◌∷◌, ◌++◌, ◌≡◌, ◌∙◌, ap, refl, arith,
}
use y_ruby.Scripts.Texts.{Text, codes, starts_with}
use y_ruby.Scripts.ServerRead.{lt_sign, gt_sign}
use y_ruby.Scripts.ServerRead.Tags.{lacks, lacks-append}
use y_ruby.Widgets.Kanban.{esc, escape}

-- How a browser reads the three references, after the first `n` units; everything else stands for itself.
unfoldable pub read_from : ℕ → Text → Text
unfolding starts_with
read_from n [] = []
read_from (suc n) (c ∷ t) = read_from n t
read_from zero (c ∷ t) =
    let plain = read_from 0 t in
    let after3 = read_from 3 t in
    let after4 = read_from 4 t in
    if c == b'&' && starts_with (codes "amp;") t
    then b'&' ∷ after4
    else if c == b'&' && starts_with (codes "lt;") t
    then lt_sign ∷ after3
    else if c == b'&' && starts_with (codes "gt;") t
    then gt_sign ∷ after3
    else c ∷ plain

read_from-escape : (c : ℕ) (t : Text) → read_from 0 (escape c ++ t) ≡ c ∷ read_from 0 t
unfolding read_from starts_with
read_from-escape c t = ground arith

escape-lacks_lt : (c : ℕ) → lacks lt_sign (escape c) ≡ true
escape-lacks_lt c = ground arith

escape-lacks_gt : (c : ℕ) → lacks gt_sign (escape c) ≡ true
escape-lacks_gt c = ground arith

-- The escaped text holds neither of the signs that open and close a tag, and a browser reads it as the text.
pub read_from-esc :
    (s : Text)
    → (lacks lt_sign (esc s) ≡ true) × (lacks gt_sign (esc s) ≡ true) × (read_from 0 (esc s) ≡ s)
unfolding esc read_from
read_from-esc [] = (refl, refl, refl)
read_from-esc (c ∷ s) =
    let h = read_from-esc s in
    (
      ground (arith, h.0, escape-lacks_lt c, lacks-append lt_sign (escape c) (esc s)),
      ground (arith, h.1, escape-lacks_gt c, lacks-append gt_sign (escape c) (esc s)),
      read_from-escape c (esc s) ∙ ap (λ x. c ∷ x) h.2,
    )
