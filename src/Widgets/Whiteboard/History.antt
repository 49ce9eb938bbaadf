-- ===== src/Widgets/Whiteboard/History.antt =====
-- Histories of a page of examples/actioncable-demo/frontend/src/whiteboard.js.
use y_ruby.Base.{
  Bool, true, false, not, if◌then◌else◌, Option, none, some, List, [], ◌∷◌, ◌≡◌, ◌∙◌, refl, arith,
  ℕ, is_empty,
}
use y_ruby.Scripts.Texts.{Text, same_text, same_text-path}
use y_ruby.Widgets.Whiteboard.{
  Note, Element, Page, get, set, has, without, alter, change, receive, focus_on, blur, add_note,
  drag, type_text, write_value, render, in_focus, double_click, first_notes,
}
use y_ruby.Widgets.Whiteboard.Drawn.{Unique, Shows, render-Shows}

module _ {V : Type 0} where
  has-set :
      (k k' : Text) (v : V) (entries : List (Text × V))
      → same_text k k' ≡ false
      → has k entries ≡ false
      → has k (set k' v entries) ≡ false
  unfolding has set
  has-set k k' v [] h g = ground (arith, h)
  has-set k k' v ((l, w) ∷ entries) h g = ground (arith, has-set k k' v entries h)

  has-without :
      (k k' : Text) (entries : List (Text × V))
      → has k entries ≡ false
      → has k (without k' entries) ≡ false
  unfolding has without
  has-without k k' [] g = refl
  has-without k k' ((l, w) ∷ entries) g = ground (arith, has-without k k' entries)

  if-Unique :
      (b : Bool) (xs ys : List (Text × V))
      → (b ≡ true → Unique xs)
      → (b ≡ false → Unique ys)
      → Unique (if b then xs else ys)
  if-Unique true xs ys f g = f refl
  if-Unique false xs ys f g = g refl

  set-Unique :
      (k : Text) (v : V) (entries : List (Text × V)) → Unique entries → Unique (set k v entries)
  unfolding set has
  set-Unique k v [] u = (refl, tt)
  set-Unique k v ((l, w) ∷ entries) u =
      if-Unique (same_text k l) _ _ (λ h. u)
        (λ h. (
          has-set l k v entries (ground (arith, h, same_text-path l k)) u.0,
          set-Unique k v entries u.1,
        ))

  without-Unique :
      (k : Text) (entries : List (Text × V)) → Unique entries → Unique (without k entries)
  unfolding without
  without-Unique k [] u = tt
  without-Unique k ((l, w) ∷ entries) u =
      if-Unique (same_text k l) _ _ (λ h. u.1)
        (λ h. (has-without l k entries u.0, without-Unique k entries u.1))

module _ {C : Type 0} where
  has-alter :
      (k id : Text) (f : Note C → Note C) (shapes : List (Text × Note C))
      → has k (alter id f shapes) ≡ has k shapes
  unfolding has alter
  has-alter k id f [] = refl
  has-alter k id f ((l, m) ∷ shapes) = ground (arith, has-alter k id f shapes)

  alter-Unique :
      (id : Text) (f : Note C → Note C) (shapes : List (Text × Note C))
      → Unique shapes
      → Unique (alter id f shapes)
  unfolding alter
  alter-Unique id f [] u = tt
  alter-Unique id f ((l, m) ∷ shapes) u =
      if-Unique (same_text id l) _ _ (λ h. u)
        (λ h. (has-alter l id f shapes ∙ u.0, alter-Unique id f shapes u.1))

  change-Unique :
      (changes : List (Text × Option (Note C))) (shapes : List (Text × Note C))
      → Unique shapes
      → Unique (change changes shapes)
  unfolding change
  change-Unique [] shapes u = u
  change-Unique ((id, none) ∷ changes) shapes u =
      change-Unique changes _ (without-Unique id shapes u)
  change-Unique ((id, some m) ∷ changes) shapes u =
      change-Unique changes _ (set-Unique id m shapes u)

module _ (C : Type 0) where
  pub data PageCall : Type 0 where
    adds : Text → C → C → Text → Text → PageCall
    clicks : Text → C × C → C × C → Text → PageCall
    starts : Text → Text → Text → PageCall
    drags : Text → C × C → C × C → C × C → PageCall
    types : Text → PageCall
    receives : List (Text × Option (Note C)) → PageCall
    focuses : Text → PageCall
    blurs : PageCall

module _ {C : Type 0} where
  module _ (plus minus : C → C → C) (round : C → C) (at : ℕ → C) where
    unfoldable pub page_step : PageCall C → Page C → Page C
    unfolding add_note double_click first_notes drag type_text receive focus_on blur
    page_step (PageCall.adds uuid x y text color) p = add_note uuid x y text color p
    page_step (PageCall.clicks uuid corner place color) p =
        double_click minus round at uuid corner place color p
    page_step (PageCall.starts a b color) p = first_notes at a b color p
    page_step (PageCall.drags id origin from to) p = drag plus minus id origin from to p
    page_step (PageCall.types t) p = type_text t p
    page_step (PageCall.receives changes) p = receive changes p
    page_step (PageCall.focuses id) p = focus_on id p
    page_step PageCall.blurs p = blur p

    unfoldable pub page_run : List (PageCall C) → Page C → Page C
    unfolding page_step
    page_run [] p = p
    page_run (x ∷ xs) p = page_run xs (page_step x p)

  -- Each note is where it belongs and nothing else is on the page; no two notes have one id.
  abbrev pub IsPlaced : Page C → Type 0
  IsPlaced p = Unique p.shapes × ((id : Text) → Shows false (get id p.shapes) (get id p.els))

  Shows-Shows :
      (same : Bool) (m : Option (Note C)) (el : Option (Element C))
      → Shows same m el
      → Shows false m el
  Shows-Shows same none none h = tt
  Shows-Shows same none (some el) h = h
  Shows-Shows same (some m) none h = h
  Shows-Shows same (some m) (some el) h = (h.0, h.1, h.2, λ e. ground (arith, e))

  render-IsPlaced : (p : Page C) → Unique p.shapes → IsPlaced (render p)
  unfolding render
  render-IsPlaced p u = (u, λ id. Shows-Shows _ _ _ (render-Shows p u id))

  either-IsPlaced :
      (b : Bool) (p q : Page C) → IsPlaced p → IsPlaced q → IsPlaced (if b then p else q)
  either-IsPlaced true p q hp hq = hp
  either-IsPlaced false p q hp hq = hq

  type_text-IsPlaced : (t : Text) (p : Page C) → IsPlaced p → IsPlaced (type_text t p)
  unfolding type_text
  type_text-IsPlaced t p h = from_focus p.focus
    where
      from_focus :
          (f : Option Text)
          → IsPlaced (elim f [
            | none ↦ p
            | some id ↦ render (record p {
              els = write_value id t p.els;
              shapes = alter id (λ m. record m { text = t }) p.shapes;
            })
          ])
      from_focus none = h
      from_focus (some id) = render-IsPlaced _ (alter-Unique id _ p.shapes h.0)

  module _ (plus minus : C → C → C) (round : C → C) (at : ℕ → C) where
    page_step-IsPlaced :
        (x : PageCall C) (p : Page C) → IsPlaced p → IsPlaced (page_step plus minus round at x p)
    unfolding page_step add_note double_click first_notes drag type_text receive focus_on blur
    page_step-IsPlaced (PageCall.adds uuid x y text color) p h =
        render-IsPlaced _ (set-Unique uuid _ p.shapes h.0)
    page_step-IsPlaced (PageCall.clicks uuid corner place color) p h =
        render-IsPlaced _ (set-Unique uuid _ p.shapes h.0)
    page_step-IsPlaced (PageCall.starts a b color) p h =
        either-IsPlaced (is_empty p.shapes) _ p
          (render-IsPlaced _ (set-Unique b _ _ (set-Unique a _ p.shapes h.0))) h
    page_step-IsPlaced (PageCall.drags id origin from to) p h =
        render-IsPlaced _ (alter-Unique id _ p.shapes h.0)
    page_step-IsPlaced (PageCall.types t) p h = type_text-IsPlaced t p h
    page_step-IsPlaced (PageCall.receives changes) p h =
        render-IsPlaced _ (change-Unique changes p.shapes h.0)
    page_step-IsPlaced (PageCall.focuses id) p h = either-IsPlaced (has id p.els) _ p h h
    page_step-IsPlaced PageCall.blurs p h = h

    page_run-IsPlaced :
        (xs : List (PageCall C)) (p : Page C)
        → IsPlaced p
        → IsPlaced (page_run plus minus round at xs p)
    unfolding page_run
    page_run-IsPlaced [] p h = h
    page_run-IsPlaced (x ∷ xs) p h =
        page_run-IsPlaced xs (page_step plus minus round at x p) (page_step-IsPlaced x p h)

    -- Over any history of a whiteboard whose page shows its notes, each note has one element, at its place and in
    -- its colour, and there is no other element. The next render gives each textarea its note's text, but for the one that has
    -- the focus.
    pub page_run-shown :
        (xs : List (PageCall C)) (p : Page C)
        → IsPlaced p
        → let after = page_run plus minus round at xs p in
          IsPlaced after
          × ((id : Text)
              → Shows
                  (not (in_focus id after.focus))
                  (get id after.shapes)
                  (get id (render after).els))
    page_run-shown xs p h =
        let placed = page_run-IsPlaced xs p h in (placed, λ id. render-Shows _ placed.0 id)
