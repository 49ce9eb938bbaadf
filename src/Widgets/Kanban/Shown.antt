-- ===== src/Widgets/Kanban/Shown.antt =====
-- The lists of examples/actioncable-demo/frontend/src/kanban.js hold every card of the board.
use y_ruby.Base.{
  ◌+◌, true, false, if◌then◌else◌, List, [], ◌∷◌, ◌++◌, length, All, append_assoc, append-nil, ◌≡◌,
  ◌∙◌, ap, refl, arith,
}
use y_ruby.Scripts.Texts.{Text, same_text, same_text-path}
use y_ruby.Widgets.Kanban.{
  Card, todo, doing, done_column, esc, Lists, append_to, render_from, render,
}
use y_ruby.Widgets.Kanban.Board.{BoardCall, board_run, IsKnown, board_run-IsKnown}

-- The escaped texts of the cards of a column, in the board's order.
abbrev pub texts_in : Text → List Card → List Text
texts_in t [] = []
texts_in t (m ∷ ms) = if same_text m.column t then esc m.text ∷ texts_in t ms else texts_in t ms

same_text-one :
    (s t u : Text) → same_text t u ≡ false → same_text s t ≡ true → same_text s u ≡ false
same_text-one s t u h g = ap (λ x. same_text x u) (same_text-path s t g) ∙ h

abbrev lists_with : Lists → List Card → Lists
lists_with l cards = record {
  in_todo = l.in_todo ++ texts_in todo cards;
  in_doing = l.in_doing ++ texts_in doing cards;
  in_done = l.in_done ++ texts_in done_column cards;
}

render_from-lists : (l : Lists) (cards : List Card) → render_from l cards ≡ lists_with l cards
unfolding render_from append_to
render_from-lists l [] = simp append-nil
render_from-lists l (m ∷ ms) = ground (
  arith,
  render_from-lists (append_to l m.column (esc m.text)) ms,
  append_assoc l.in_todo (esc m.text ∷ []) (texts_in todo ms),
  append_assoc l.in_doing (esc m.text ∷ []) (texts_in doing ms),
  append_assoc l.in_done (esc m.text ∷ []) (texts_in done_column ms),
  same_text-one m.column todo doing refl,
  same_text-one m.column todo done_column refl,
  same_text-one m.column doing done_column refl,
)

length-texts :
    (cards : List Card)
    → All IsKnown cards
    → length (texts_in todo cards)
        + length (texts_in doing cards)
        + length (texts_in done_column cards)
      ≡ length cards
length-texts [] h = refl
length-texts (m ∷ ms) h = ground (
  arith,
  length-texts ms h.1,
  h.0,
  same_text-one m.column todo doing refl,
  same_text-one m.column todo done_column refl,
  same_text-one m.column doing done_column refl,
)

-- The page shows every card: over any history of a board whose cards are in its columns, each list holds the
-- escaped texts of its column's cards, in the board's order, and together they are as many as the cards.
pub board_run-shown :
    (xs : List BoardCall) (cards : List Card)
    → All IsKnown cards
    → let after = board_run xs cards in
      (render after ≡ record {
        in_todo = texts_in todo after;
        in_doing = texts_in doing after;
        in_done = texts_in done_column after;
      })
      × (length (render after).in_todo
            + length (render after).in_doing
            + length (render after).in_done
          ≡ length after)
unfolding render
board_run-shown xs cards h =
    let lists =
      render_from-lists (record { in_todo = []; in_doing = []; in_done = [] })
        (board_run xs cards) in
    (
      lists,
      ap (λ l. length l.in_todo + length l.in_doing + length l.in_done) lists
          ∙ length-texts (board_run xs cards) (board_run-IsKnown xs cards h),
    )
