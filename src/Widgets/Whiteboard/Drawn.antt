-- ===== src/Widgets/Whiteboard/Drawn.antt =====
-- What render of examples/actioncable-demo/frontend/src/whiteboard.js puts on the page.
use y_ruby.Base.{
  Bool, true, false, not, if◌then◌else◌, Option, none, some, List, [], ◌∷◌, ◌≡◌, subst, sym, refl,
  arith,
}
use y_ruby.Scripts.Texts.{Text, same_text, same_text-path}
use y_ruby.Widgets.Whiteboard.{
  Note, Element, Page, get, set, has, sweep, draw, dress, shown_as, render, in_focus, background_of,
}

same_text_refl : (t : Text) → same_text t t ≡ true
same_text_refl [] = refl
same_text_refl (c ∷ t) = ground (arith, same_text_refl t)

module _ {V : Type 0} where
  -- No key is there twice.
  abbrev pub Unique : List (Text × V) → Type 0
  Unique [] = Unit
  Unique ((k, v) ∷ entries) = (has k entries ≡ false) × Unique entries

  get-set : (k : Text) (v : V) (entries : List (Text × V)) → get k (set k v entries) ≡ some v
  unfolding get set
  get-set k v [] = ground (arith, same_text_refl k)
  get-set k v ((k', w) ∷ entries) = ground (arith, get-set k v entries, same_text_refl k)

  get-set_other :
      (k k' : Text) (v : V) (entries : List (Text × V))
      → same_text k k' ≡ false
      → get k (set k' v entries) ≡ get k entries
  unfolding get set
  get-set_other k k' v [] h = ground (arith, h)
  get-set_other k k' v ((l, w) ∷ entries) h =
      ground (arith, get-set_other k k' v entries h, same_text-path k' l)

  get-absent : (k : Text) (entries : List (Text × V)) → has k entries ≡ false → get k entries ≡ none
  unfolding get has
  get-absent k [] h = refl
  get-absent k ((l, w) ∷ entries) h = ground (arith, get-absent k entries)

  has-absent : (k : Text) (entries : List (Text × V)) → get k entries ≡ none → has k entries ≡ false
  unfolding get has
  has-absent k [] h = refl
  has-absent k ((l, w) ∷ entries) h = ground (arith, has-absent k entries)

module _ {C : Type 0} where
  get-sweep :
      (id : Text) (shapes : List (Text × Note C)) (els : List (Text × Element C))
      → get id (sweep shapes els) ≡ (if has id shapes then get id els else none)
  unfolding get sweep
  get-sweep id shapes [] = ground arith
  get-sweep id shapes ((id', el) ∷ els) =
      ground (arith, get-sweep id shapes els, same_text-path id id')

  get-draw :
      (focus : Option Text) (id : Text) (shapes : List (Text × Note C))
      (els : List (Text × Element C))
      → Unique shapes
      → get id (draw focus shapes els) ≡ elim (get id shapes) [
        | none ↦ get id els
        | some m ↦ some (shown_as focus id m (get id els))
      ]
  unfolding draw
  get-draw focus id [] els u = refl
  get-draw focus id ((id', m) ∷ shapes) els u = ground (
    arith,
    u.0,
    get-draw focus id shapes (set id' (shown_as focus id' m (get id' els)) els) u.1,
    get-set id' (shown_as focus id' m (get id' els)) els,
    get-set_other id id' (shown_as focus id' m (get id' els)) els,
    get-absent id' shapes,
    same_text-path id id',
  )

  -- The element of a note stands where the note is, in its colour; without a note there is none. With `same`,
  -- it has the note's text.
  abbrev pub Shows : (same : Bool) → Option (Note C) → Option (Element C) → Type 0
  Shows same none none = Unit
  Shows same none (some el) = ⊥
  Shows same (some m) none = ⊥
  Shows same (some m) (some el) =
      (el.left ≡ m.x)
      × (el.top ≡ m.y)
      × (el.background ≡ background_of m.color)
      × (same ≡ true → el.value ≡ m.text)

  dress-value :
      (focused : Bool) (m : Note C) (el : Element C)
      → not focused ≡ true
      → (dress focused m el).value ≡ m.text
  unfolding dress
  dress-value focused m el h = ground (arith, h, same_text-path el.value m.text)

  shown_as-Shows :
      (focus : Option Text) (id : Text) (m : Note C) (el : Option (Element C))
      → Shows (not (in_focus id focus)) (some m) (some (shown_as focus id m el))
  unfolding shown_as dress
  shown_as-Shows focus id m none = (
    refl,
    refl,
    refl,
    λ h. dress-value false m (record { left = m.x; top = m.y; background = []; value = [] }) refl,
  )
  shown_as-Shows focus id m (some el) =
      (refl, refl, refl, λ h. dress-value (in_focus id focus) m el h)

  picked-Shows :
      (focus : Option Text) (id : Text) (m : Option (Note C)) (el : Option (Element C))
      → (m ≡ none → el ≡ none)
      → Shows
          (not (in_focus id focus))
          m
          (elim m [ none ↦ el | some n ↦ some (shown_as focus id n el) ])
  picked-Shows focus id none el h = subst (Shows (not (in_focus id focus)) none) (sym (h refl)) tt
  picked-Shows focus id (some m) el h = shown_as-Shows focus id m el

  pub render-Shows :
      (p : Page C)
      → Unique p.shapes
      → (id : Text) → Shows (not (in_focus id p.focus)) (get id p.shapes) (get id (render p).els)
  unfolding render
  render-Shows p u id =
      subst (Shows (not (in_focus id p.focus)) (get id p.shapes))
        (sym (get-draw p.focus id p.shapes (sweep p.shapes p.els) u))
        (picked-Shows p.focus id (get id p.shapes) (get id (sweep p.shapes p.els))
          (λ h. ground (arith, get-sweep id p.shapes p.els, has-absent id p.shapes h)))
