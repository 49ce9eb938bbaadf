-- ===== src/Widgets/Whiteboard.antt =====
-- examples/actioncable-demo/frontend/src/whiteboard.js: the Y.Map of notes, the elements that show them, and
-- what a user does. `C` is the type of coordinates, with JavaScript's numbers, sum, difference and
-- rounding of them as arguments.
pub mod Drawn
pub mod History
use y_ruby.Base.{
  ℕ, Bool, true, false, not, ◌&&◌, ◌||◌, if◌then◌else◌, Option, none, some, List, [], ◌∷◌, is_empty,
}
use y_ruby.Scripts.Texts.{Text, codes, same_text}

-- A Y.Map or a Map with strings as keys: its entries, one for a key, in the order of insertion.
module _ {V : Type 0} where
  unfoldable pub get : Text → List (Text × V) → Option V
  get k [] = none
  get k ((k', v) ∷ entries) = if same_text k k' then some v else get k entries

  unfoldable pub set : Text → V → List (Text × V) → List (Text × V)
  set k v [] = (k, v) ∷ []
  set k v ((k', w) ∷ entries) =
      if same_text k k' then (k', v) ∷ entries else (k', w) ∷ set k v entries

  unfoldable pub without : Text → List (Text × V) → List (Text × V)
  without k [] = []
  without k ((k', v) ∷ entries) = if same_text k k' then entries else (k', v) ∷ without k entries

  unfoldable pub has : Text → List (Text × V) → Bool
  has k [] = false
  has k ((k', v) ∷ entries) = same_text k k' || has k entries

module _ (C : Type 0) where
  pub record Note : Type 0 where
    pub x : C
    pub y : C
    pub text : Text
    pub color : Text

  -- The note's div: its style, and `_ta.value`.
  pub record Element : Type 0 where
    pub left : C
    pub top : C
    pub background : Text
    pub value : Text

  -- `focus` is the note whose textarea is document.activeElement.
  pub record Page : Type 0 where
    pub shapes : List (Text × Note)
    pub els : List (Text × Element)
    pub focus : Option Text

abbrev pub in_focus : Text → Option Text → Bool
in_focus id none = false
in_focus id (some id') = same_text id id'

abbrev pub background_of : Text → Text
background_of color = if is_empty color then codes "#fde68a" else color

module _ {C : Type 0} where
  -- `if (!shapes.has(id)) { el.remove(); els.delete(id) }`
  unfoldable pub sweep : List (Text × Note C) → List (Text × Element C) → List (Text × Element C)
  unfolding has
  sweep shapes [] = []
  sweep shapes ((id, el) ∷ els) =
      if has id shapes then (id, el) ∷ sweep shapes els else sweep shapes els

  -- A textarea that is removed from the page loses the focus.
  unfoldable pub keep_focus : List (Text × Note C) → Option Text → Option Text
  unfolding has
  keep_focus shapes none = none
  keep_focus shapes (some id) = if has id shapes then some id else none

  unfoldable pub dress : Bool → Note C → Element C → Element C
  dress focused m el = record {
    left = m.x;
    top = m.y;
    background = background_of m.color;
    value = if not (same_text el.value m.text) && not focused then m.text else el.value;
  }

  -- The element that the note has, or a new one, which nobody has focused yet.
  unfoldable pub shown_as : Option Text → Text → Note C → Option (Element C) → Element C
  unfolding dress
  shown_as focus id m none =
      dress false m (record { left = m.x; top = m.y; background = []; value = [] })
  shown_as focus id m (some el) = dress (in_focus id focus) m el

  -- `shapes.forEach`
  unfoldable pub draw :
      Option Text → List (Text × Note C) → List (Text × Element C) → List (Text × Element C)
  unfolding get set shown_as
  draw focus [] els = els
  draw focus ((id, m) ∷ shapes) els =
      draw focus shapes (set id (shown_as focus id m (get id els)) els)

  unfoldable pub render : Page C → Page C
  unfolding sweep keep_focus draw
  render p = record p {
    els = draw p.focus p.shapes (sweep p.shapes p.els);
    focus = keep_focus p.shapes p.focus;
  }

  -- Changes of other clients arrive, in one transaction: notes that are new or changed, and notes to delete.
  unfoldable pub change :
      List (Text × Option (Note C)) → List (Text × Note C) → List (Text × Note C)
  unfolding set without
  change [] shapes = shapes
  change ((id, none) ∷ changes) shapes = change changes (without id shapes)
  change ((id, some m) ∷ changes) shapes = change changes (set id m shapes)

  unfoldable pub receive : List (Text × Option (Note C)) → Page C → Page C
  unfolding change render
  receive changes p = render (record p { shapes = change changes p.shapes })

  -- A click into the textarea of a note, and one outside of all.
  unfoldable pub focus_on : Text → Page C → Page C
  unfolding has
  focus_on id p = if has id p.els then record p { focus = some id } else p

  unfoldable pub blur : Page C → Page C
  blur p = record p { focus = none }

  -- `addNote`, under the random id
  unfoldable pub add_note : Text → C → C → Text → Text → Page C → Page C
  unfolding set render
  add_note uuid x y text color p =
      let m : Note C = record { x = x; y = y; text = text; color = color } in
      render (record p { shapes = set uuid m p.shapes })

  -- A double click at a place of the window, on the canvas whose corner is at another.
  unfoldable pub double_click :
      (C → C → C) → (C → C) → (ℕ → C) → Text → C × C → C × C → Text → Page C → Page C
  unfolding add_note
  double_click minus round at uuid (left, top) (x, y) color p =
      add_note uuid (round (minus (minus x left) (at 60))) (round (minus (minus y top) (at 24)))
        (codes "note") color p

  -- The first notes, if there is none 200 ms after the document is synced.
  unfoldable pub first_notes : (ℕ → C) → Text → Text → Text → Page C → Page C
  unfolding add_note
  first_notes at a b color p =
      let q = add_note a (at 40) (at 40) (codes "drag me") color p in
      if is_empty p.shapes
      then add_note b (at 240) (at 120) (codes "double-click to add") color q
      else p

  unfoldable pub alter : Text → (Note C → Note C) → List (Text × Note C) → List (Text × Note C)
  alter id f [] = []
  alter id f ((id', m) ∷ shapes) =
      if same_text id id' then (id', f m) ∷ shapes else (id', m) ∷ alter id f shapes

  -- `onMove`, of a drag that began with the note at (`ox`, `oy`) and the pointer at (`sx`, `sy`).
  unfoldable pub drag : (C → C → C) → (C → C → C) → Text → C × C → C × C → C × C → Page C → Page C
  unfolding alter render
  drag plus minus id (ox, oy) (sx, sy) (cx, cy) p = render (record p {
    shapes =
        alter id (λ m. record m { x = minus (plus ox cx) sx; y = minus (plus oy cy) sy }) p.shapes;
  })

  unfoldable pub write_value : Text → Text → List (Text × Element C) → List (Text × Element C)
  write_value id t [] = []
  write_value id t ((id', el) ∷ els) =
      if same_text id id'
      then (id', record el { value = t }) ∷ els
      else (id', el) ∷ write_value id t els

  -- The user types in the textarea that has the focus: the "input" listener.
  unfoldable pub type_text : Text → Page C → Page C
  unfolding write_value alter render
  type_text t p = elim p.focus [
    | none ↦ p
    | some id ↦ render (record p {
      els = write_value id t p.els;
      shapes = alter id (λ m. record m { text = t }) p.shapes;
    })
  ]
