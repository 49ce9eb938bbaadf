-- ===== src/Scripts/ServerRead.antt =====
-- examples/actioncable-demo/frontend/server_read.mjs, the server's view of a document, and what the scripts do
-- with its text.
pub mod Tags
use y_ruby.Scripts.{Documents}
use y_ruby.Scripts.Texts.{Text}
use y_ruby.Base.{
  ℕ, Option, if◌then◌else◌, false, length, Bool, none, true, ◌==◌, some, ◌∷◌, [], ◌++◌, ◌&&◌,
}
use y_ruby.External.{Packages}
use y_ruby.Scripts.Buffer.{buffer_from}

-- The answer of `fetch`: the status and the `state` of its JSON.
pub record Response : Type 0 where
  pub status : ℕ
  pub state : Text

-- `{ status, doc }`, where `none` is null, or a rejected promise.
pub data Fetched (Doc : Type 0) : Type 0 where
  returns : ℕ → Option Doc → Fetched Doc
  fails : Fetched Doc

-- `"<"` and `">"`
abbrev pub lt_sign : ℕ
lt_sign = 0x3c

abbrev pub gt_sign : ℕ
gt_sign = 0x3e

-- `.replace(/<[^>]*>/g, "")`, or with `+` for `*`. Behind a `<`, `held` is what came since, which is put out
-- with the `<` when there is no `>`.
abbrev pub put_out : Bool → Option Text → ℕ → Text
put_out plus none c = if c == lt_sign then [] else c ∷ []
put_out plus (some []) c = if plus && c == gt_sign then lt_sign ∷ gt_sign ∷ [] else []
put_out plus (some (h ∷ hs)) c = []

abbrev pub hold : Option Text → ℕ → Option Text
hold none c = if c == lt_sign then some [] else none
hold (some held) c = if c == gt_sign then none else some (held ++ c ∷ [])

unfoldable pub replace_tags : Bool → Option Text → Text → Text
replace_tags plus none [] = []
replace_tags plus (some held) [] = lt_sign ∷ held
replace_tags plus state (c ∷ cs) = put_out plus state c ++ replace_tags plus (hold state c) cs

unfoldable pub strip_tags : Text → Text
unfolding replace_tags
strip_tags s = replace_tags false none s

-- `visibleChars` of stress.mjs.
unfoldable pub visible_chars : Text → ℕ
unfolding replace_tags
visible_chars s = length (replace_tags true none s)

module _ (lib : Packages) where
  unfoldable pub server_doc : Response → Fetched lib.Doc
  server_doc res =
      if res.status == 200
      then (let r = lib.apply_update lib.new_doc (buffer_from res.state) in
          if r.threw then fails else returns res.status (some r.doc))
      else returns res.status none

  -- `none` is a rejected promise.
  unfoldable pub server_text : Documents lib → Response → Option Text
  unfolding server_doc strip_tags
  server_text docs res = elim (server_doc res) [
    | fails ↦ none
    | returns status none ↦ some []
    | returns status (some doc) ↦ some (strip_tags (docs.to_string doc))
  ]
