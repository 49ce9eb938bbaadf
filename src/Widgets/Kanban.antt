-- ===== src/Widgets/Kanban.antt =====
-- examples/actioncable-demo/frontend/src/kanban.js: the cards of the board, what a user does with them, and
-- what is shown of them. The Y.Array of cards is a list, and the Y.Map of a card is known by its `id`.
pub mod Escaping
pub mod Board
pub mod Shown
use y_ruby.Base.{
  ℕ, zero, suc, ◌==◌, leb, Bool, true, false, not, ◌&&◌, ◌||◌, if◌then◌else◌, Option, none, some,
  List, [], ◌∷◌, ◌++◌, is_empty,
}
use y_ruby.Scripts.Texts.{Text, codes, same_text}

pub record Card : Type 0 where
  pub id : Text
  pub text : Text
  pub column : Text

abbrev pub todo : Text
todo = codes "todo"

abbrev pub doing : Text
doing = codes "doing"

abbrev pub done_column : Text
done_column = codes "done"

-- `ORDER`
abbrev pub order : List Text
order = todo ∷ doing ∷ done_column ∷ []

-- The units that `trim` takes off: white space and line terminators.
abbrev pub is_white : ℕ → Bool
is_white c =
    leb 0x09 c && leb c 0x0d
    || c == 0x20
    || c == 0xa0
    || c == 0x1680
    || leb 0x2000 c && leb c 0x200a
    || c == 0x2028
    || c == 0x2029
    || c == 0x202f
    || c == 0x205f
    || c == 0x3000
    || c == 0xfeff

unfoldable pub trim_start : Text → Text
trim_start [] = []
trim_start (c ∷ cs) = if is_white c then trim_start cs else c ∷ cs

unfoldable pub trim_end : Text → Text
trim_end [] = []
trim_end (c ∷ cs) = let rest = trim_end cs in if is_white c && is_empty rest then [] else c ∷ rest

unfoldable pub trim : Text → Text
unfolding trim_start trim_end
trim t = trim_end (trim_start t)

-- The "submit" of a column's form: `uuid` is what crypto.randomUUID gives, `value` the text in the input.
unfoldable pub add_card : Text → Text → Text → List Card → List Card
unfolding trim
add_card column uuid value cards =
    let t = trim value in
    if is_empty t then cards else cards ++ record { id = uuid; text = t; column = column } ∷ []

-- `move(m, -1)` and `move(m, 1)`
pub data Direction : Type 0 where
  leftwards rightwards : Direction

-- `ORDER.indexOf`; `none` is -1.
unfoldable pub index_of : Text → List Text → Option ℕ
index_of t [] = none
index_of t (u ∷ us) =
    if same_text t u then some 0 else elim (index_of t us) [ none ↦ none | some i ↦ some (suc i) ]

unfoldable pub column_at : List Text → ℕ → Option Text
column_at [] i = none
column_at (t ∷ ts) zero = some t
column_at (t ∷ ts) (suc i) = column_at ts i

-- `ORDER[ORDER.indexOf(column) + dir]`; `none` is undefined.
unfoldable pub neighbour : Option ℕ → Direction → Option Text
unfolding column_at
neighbour none leftwards = none
neighbour none rightwards = column_at order 0
neighbour (some zero) leftwards = none
neighbour (some (suc i)) leftwards = column_at order i
neighbour (some i) rightwards = column_at order (suc i)

unfoldable pub move : Direction → Card → Card
unfolding index_of neighbour
move dir m = elim (neighbour (index_of m.column order) dir) [
  | none ↦ m
  | some n ↦ record m { column = n }
]

-- The same on the card of this id, by its buttons.
unfoldable pub move_card : Direction → Text → List Card → List Card
unfolding move
move_card dir id [] = []
move_card dir id (m ∷ ms) = if same_text m.id id then move dir m ∷ ms else m ∷ move_card dir id ms

-- `cards.delete(i, 1)` at the index of the card, if there is one.
unfoldable pub delete_card : Text → List Card → List Card
delete_card id [] = []
delete_card id (m ∷ ms) = if same_text m.id id then ms else m ∷ delete_card id ms

-- The first cards, if the board is empty 200 ms after the document is synced; the ids are random.
unfoldable pub seed : Text → Text → Text → List Card → List Card
seed a b c [] =
    record { id = a; text = codes "Design the API"; column = todo }
    ∷ record { id = b; text = codes "Write the gem"; column = doing }
    ∷ record { id = c; text = codes "Ship it " ++ 0xd83d ∷ 0xde80 ∷ []; column = done_column }
    ∷ []
seed a b c (m ∷ ms) = m ∷ ms

-- `esc`
abbrev pub escape : ℕ → Text
escape c =
    if c == b'&'
    then codes "&amp;"
    else if c == b'<'
    then codes "&lt;"
    else if c == b'>'
    then codes "&gt;"
    else c ∷ []

unfoldable pub esc : Text → Text
esc [] = []
esc (c ∷ cs) = escape c ++ esc cs

-- The texts in the three lists of the page.
pub record Lists : Type 0 where
  pub in_todo : List Text
  pub in_doing : List Text
  pub in_done : List Text

-- `lists[column]`, if there is one, gets the element with this text. A column that is no list of the page but a
-- name that every JavaScript object has does not come from this program.
unfoldable pub append_to : Lists → Text → Text → Lists
append_to l column t =
    if same_text column todo
    then record l { in_todo = l.in_todo ++ t ∷ [] }
    else if same_text column doing
    then record l { in_doing = l.in_doing ++ t ∷ [] }
    else if same_text column done_column
    then record l { in_done = l.in_done ++ t ∷ [] }
    else l

unfoldable pub render_from : Lists → List Card → Lists
unfolding append_to esc
render_from l [] = l
render_from l (m ∷ ms) = render_from (append_to l m.column (esc m.text)) ms

-- `render`: the lists are emptied, then filled.
unfoldable pub render : List Card → Lists
unfolding render_from
render cards = render_from (record { in_todo = []; in_doing = []; in_done = [] }) cards
