-- ===== src/Widgets/Kanban/Board.antt =====
-- What happens to the board of examples/actioncable-demo/frontend/src/kanban.js, and that its cards stay in their
-- columns.
use y_ruby.Base.{
  ℕ, zero, suc, Bool, true, false, ◌||◌, if◌then◌else◌, List, [], ◌∷◌, All, All-append, ◌≡◌, refl,
  Option, none, some, is_empty,
}
use y_ruby.Scripts.Texts.{Text, same_text}
use y_ruby.Widgets.Kanban.{
  Card, todo, doing, done_column, order, trim, add_card, Direction, index_of, column_at, neighbour,
  move, move_card, delete_card, seed,
}

-- The column of a form.
pub data Column : Type 0 where
  to_do in_progress finished : Column

abbrev pub name : Column → Text
name Column.to_do = todo
name Column.in_progress = doing
name Column.finished = done_column

-- What a user does, and the page's own first cards.
pub data BoardCall : Type 0 where
  adds : Column → Text → Text → BoardCall
  moves : Direction → Text → BoardCall
  deletes : Text → BoardCall
  seeds : Text → Text → Text → BoardCall

unfoldable pub board_step : BoardCall → List Card → List Card
unfolding add_card move_card delete_card seed
board_step (BoardCall.adds column uuid value) cards = add_card (name column) uuid value cards
board_step (BoardCall.moves dir id) cards = move_card dir id cards
board_step (BoardCall.deletes id) cards = delete_card id cards
board_step (BoardCall.seeds a b c) cards = seed a b c cards

unfoldable pub board_run : List BoardCall → List Card → List Card
unfolding board_step
board_run [] cards = cards
board_run (x ∷ xs) cards = board_run xs (board_step x cards)

abbrev pub is_known : Text → Bool
is_known t = same_text t todo || same_text t doing || same_text t done_column

-- The column of the card is one of the three.
abbrev pub IsKnown : Card → Type 0
IsKnown m = is_known m.column ≡ true

abbrev IsColumn : Option Text → Type 0
IsColumn none = Unit
IsColumn (some t) = is_known t ≡ true

column_at-IsColumn : (i : ℕ) → IsColumn (column_at order i)
unfolding column_at
column_at-IsColumn zero = refl
column_at-IsColumn (suc zero) = refl
column_at-IsColumn (suc (suc zero)) = refl
column_at-IsColumn (suc (suc (suc i))) = tt

neighbour-IsColumn : (i : Option ℕ) (dir : Direction) → IsColumn (neighbour i dir)
unfolding neighbour
neighbour-IsColumn none Direction.leftwards = tt
neighbour-IsColumn none Direction.rightwards = column_at-IsColumn 0
neighbour-IsColumn (some zero) Direction.leftwards = tt
neighbour-IsColumn (some (suc i)) Direction.leftwards = column_at-IsColumn i
neighbour-IsColumn (some i) Direction.rightwards = column_at-IsColumn (suc i)

column-IsKnown :
    (n : Option Text) (m : Card)
    → IsColumn n
    → IsKnown m
    → IsKnown (elim n [ none ↦ m | some t ↦ record m { column = t } ])
column-IsKnown none m g h = h
column-IsKnown (some t) m g h = g

move-IsKnown : (dir : Direction) (m : Card) → IsKnown m → IsKnown (move dir m)
unfolding move
move-IsKnown dir m h =
    column-IsKnown (neighbour (index_of m.column order) dir) m
      (neighbour-IsColumn (index_of m.column order) dir) h

both-IsKnown :
    (b : Bool) (xs ys : List Card)
    → All IsKnown xs
    → All IsKnown ys
    → All IsKnown (if b then xs else ys)
both-IsKnown true xs ys hx hy = hx
both-IsKnown false xs ys hx hy = hy

move_card-IsKnown :
    (dir : Direction) (id : Text) (cards : List Card)
    → All IsKnown cards
    → All IsKnown (move_card dir id cards)
unfolding move_card
move_card-IsKnown dir id [] h = tt
move_card-IsKnown dir id (m ∷ ms) h =
    both-IsKnown (same_text m.id id) _ _ (move-IsKnown dir m h.0, h.1)
      (h.0, move_card-IsKnown dir id ms h.1)

delete_card-IsKnown :
    (id : Text) (cards : List Card) → All IsKnown cards → All IsKnown (delete_card id cards)
unfolding delete_card
delete_card-IsKnown id [] h = tt
delete_card-IsKnown id (m ∷ ms) h =
    both-IsKnown (same_text m.id id) _ _ h.1 (h.0, delete_card-IsKnown id ms h.1)

name-known : (c : Column) → is_known (name c) ≡ true
name-known Column.to_do = refl
name-known Column.in_progress = refl
name-known Column.finished = refl

add_card-IsKnown :
    (c : Column) (uuid value : Text) (cards : List Card)
    → All IsKnown cards
    → All IsKnown (add_card (name c) uuid value cards)
unfolding add_card
add_card-IsKnown c uuid value cards h =
    both-IsKnown (is_empty (trim value)) _ _ h (All-append IsKnown cards _ h (name-known c, tt))

seed-IsKnown :
    (a b c : Text) (cards : List Card) → All IsKnown cards → All IsKnown (seed a b c cards)
unfolding seed
seed-IsKnown a b c [] h = (refl, (refl, (refl, tt)))
seed-IsKnown a b c (m ∷ ms) h = h

board_step-IsKnown :
    (x : BoardCall) (cards : List Card) → All IsKnown cards → All IsKnown (board_step x cards)
unfolding board_step
board_step-IsKnown (BoardCall.adds column uuid value) cards h =
    add_card-IsKnown column uuid value cards h
board_step-IsKnown (BoardCall.moves dir id) cards h = move_card-IsKnown dir id cards h
board_step-IsKnown (BoardCall.deletes id) cards h = delete_card-IsKnown id cards h
board_step-IsKnown (BoardCall.seeds a b c) cards h = seed-IsKnown a b c cards h

pub board_run-IsKnown :
    (xs : List BoardCall) (cards : List Card) → All IsKnown cards → All IsKnown (board_run xs cards)
unfolding board_run
board_run-IsKnown [] cards h = h
board_run-IsKnown (x ∷ xs) cards h =
    board_run-IsKnown xs (board_step x cards) (board_step-IsKnown x cards h)
