-- ===== src/Examples/Widgets.antt =====
-- Runs of the widgets of examples/actioncable-demo/frontend/src.
use y_ruby.Base.{true, List, [], ◌∷◌, length, ◌+◌, ◌-◌, ℕ, not, some, none, ◌≡◌}
use y_ruby.Scripts.Texts.{Text, codes}
use y_ruby.Scripts.ServerRead.{lt_sign, gt_sign}
use y_ruby.Scripts.ServerRead.Tags.{lacks}
use y_ruby.Widgets.Kanban.{esc, render, Direction}
use y_ruby.Widgets.Kanban.Shown.{board_run-shown}
use y_ruby.Widgets.Kanban.Board.{BoardCall, Column, board_run}
use y_ruby.Widgets.Whiteboard
use y_ruby.Widgets.Whiteboard.{Page, get, in_focus}
use y_ruby.Widgets.Whiteboard.Drawn.{Shows}
use y_ruby.Widgets.Whiteboard.History.{PageCall, IsPlaced, page_run, page_run-shown}
use y_ruby.Widgets.Kanban.Escaping.{read_from, read_from-esc}

-- The first cards, a card more, one moved and one deleted.
abbrev calls : List BoardCall
calls =
    BoardCall.seeds (codes "a") (codes "b") (codes "c")
    ∷ BoardCall.adds Column.to_do (codes "d") (codes "  1 < 2 ")
    ∷ BoardCall.moves Direction.rightwards (codes "a")
    ∷ BoardCall.deletes (codes "c")
    ∷ []

board_run-shown_example :
    (render (board_run calls []) ≡ record {
      in_todo = codes "1 &lt; 2" ∷ [];
      in_doing = codes "Design the API" ∷ codes "Write the gem" ∷ [];
      in_done = [];
    })
    × (length (render (board_run calls [])).in_todo
          + length (render (board_run calls [])).in_doing
          + length (render (board_run calls [])).in_done
        ≡ 3)
unfolding board_run esc
board_run-shown_example = board_run-shown calls [] tt

read_from-esc_example :
    (lacks lt_sign (codes "a &lt; &amp;") ≡ true)
    × (lacks gt_sign (codes "a &lt; &amp;") ≡ true)
    × (read_from 0 (codes "a &lt; &amp;") ≡ codes "a < &")
unfolding esc
read_from-esc_example = read_from-esc (codes "a < &")

-- A note is added and dragged, another arrives while the user types in the first one.
abbrev page_calls : List (PageCall ℕ)
page_calls =
    PageCall.starts (codes "x") (codes "y") (codes "#f87171")
    ∷ PageCall.clicks (codes "z") (10, 10) (200, 200) (codes "#f87171")
    ∷ PageCall.adds (codes "a") 40 40 (codes "note") (codes "#f87171")
    ∷ PageCall.drags (codes "a") (40, 40) (50, 50) (60, 55)
    ∷ PageCall.focuses (codes "a")
    ∷ PageCall.types (codes "mine")
    ∷ PageCall.receives
        ((codes "b", some (record { x = 1; y = 2; text = codes "yours"; color = [] })) ∷ [])
    ∷ []

abbrev empty_page : Page ℕ
empty_page = record { shapes = []; els = []; focus = none }

abbrev after_calls : Page ℕ
after_calls = page_run (λ a b. a + b) (λ a b. a - b) (λ a. a) (λ n. n) page_calls empty_page

page_run-shown_example :
    IsPlaced after_calls
    × ((id : Text)
        → Shows
            (not (in_focus id after_calls.focus))
            (get id after_calls.shapes)
            (get id (Whiteboard.render after_calls).els))
unfolding get
page_run-shown_example =
    page_run-shown (λ a b. a + b) (λ a b. a - b) (λ a. a) (λ n. n) page_calls empty_page
      (tt, λ id. tt)
