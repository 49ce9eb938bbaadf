-- ===== src/Provider/Presence.antt =====
-- The handlers of `pagehide` and `pageshow` in actioncable_provider.ts: the presence across the page
-- cache.
use y_ruby.Base.{
  Bool, true, false, Option, none, some, ◌≡◌, ap, ◌∙◌, sym, List, arith, Option-cases, inl, inr,
  if◌then◌else◌, [], not, ◌||◌,
}
use mathlib.Core.Path.{ap₂}
use y_ruby.External.{Packages}
use y_ruby.Session
use y_ruby.Session.{Session, Output, Origin, has_local_state}
use y_ruby.Transport.{Provider, apply, ◌then◌}
use y_ruby.Provider
use y_ruby.Transport.Frames.{apply-OnlyTasks}
use y_ruby.Cable.{Effect}
use y_ruby.Provider.Driven.{apply-session}

-- What the awareness package is relied on for: the local state that was set last is the one that is read.
pub record PresenceLaws (lib : Packages) : Type 0 where
  pub get-set :
      (a : lib.Awareness) (o : Option lib.Presence)
      → lib.get_local_state (lib.set_local_state a o).awareness ≡ o

module _ {lib : Packages} where
  -- The presence that this client shows.
  abbrev pub shown : Session lib → Option lib.Presence
  shown s = elim s.awareness [ none ↦ none | some a ↦ lib.get_local_state a ]

  module _ (laws : PresenceLaws lib) where
    left-shown : (s : Session lib) → shown (Session.remove_local_awareness lib s).0 ≡ none
    unfolding Session.remove_local_awareness Session.note
    left-shown s = elim (Option-cases s.awareness) [
      | inl e ↦ ground arith
      | inr (a, e) ↦ elim (Option-cases (lib.get_local_state a)) [
        | inl n ↦ ground arith
        | inr (st, n) ↦ ground (arith, laws.get-set a none)
      ]
    ]

    left-awareness :
        (s : Session lib) (a : lib.Awareness)
        → s.awareness ≡ some a
        → (b : lib.Awareness) × ((Session.remove_local_awareness lib s).0.awareness ≡ some b)
    unfolding Session.remove_local_awareness Session.note
    left-awareness s a e = elim (Option-cases (lib.get_local_state a)) [
      | inl n ↦ (a, ground arith)
      | inr (st, n) ↦ ((lib.set_local_state a none).awareness, ground arith)
    ]

    set-shown :
        (s : Session lib) (a : lib.Awareness) (o : Option lib.Presence)
        → s.awareness ≡ some a
        → shown (Session.set_presence lib s o).0 ≡ o
    unfolding Session.set_presence Session.note
    set-shown s a o e = ground (arith, laws.get-set a o)

    page_hidden-hide :
        (p : Provider lib) → p.on_unload ≡ true → Provider.page_hidden p ≡ Provider.hide p
    unfolding Provider.page_hidden
    page_hidden-hide p u = ap (λ b. if b then Provider.hide p else (p, [])) u

    page_shown-restore :
        (p : Provider lib) (st : lib.Presence)
        → p.on_restore ≡ true
        → p.stashed_presence ≡ some st
        → Provider.page_shown p true ≡ Provider.restore p st
    unfolding Provider.page_shown
    page_shown-restore p st r h =
        ap₂
          (λ (b : Bool) (o : Option lib.Presence).
            if not b || not true
            then (p, [])
            else elim o [ none ↦ (p, []) | some state ↦ Provider.restore p state ])
          r h

    hide-lem :
        (p : Provider lib)
        → p.on_unload ≡ true
        → let q = (Provider.page_hidden p).0 in
          (q.session ≡ (Session.remove_local_awareness lib p.session).0)
          × (q.stashed_presence ≡ shown p.session)
          × (q.on_restore ≡ p.on_restore)
    unfolding Provider.hide
    hide-lem p u =
        let r = Session.remove_local_awareness lib p.session in
        let hidden = record p { stashed_presence = shown p.session } in
        let only = apply-OnlyTasks hidden r in
        let runs = page_hidden-hide p u in
        (
          ap (λ r. r.0.session) runs ∙ ap Provider.session only,
          ap (λ r. r.0.stashed_presence) runs ∙ ap Provider.stashed_presence only,
          ap (λ r. r.0.on_restore) runs ∙ ap Provider.on_restore only,
        )

    -- Presence that is gone is set again.
    restore_presence-absent :
        (p : Provider lib) (a : lib.Awareness) (st : lib.Presence)
        → p.session.awareness ≡ some a
        → lib.get_local_state a ≡ none
        → Provider.restore_presence p st ≡ apply p (Session.set_presence lib p.session (some st))
    unfolding Provider.restore_presence
    restore_presence-absent p a st e n =
        let again = apply p (Session.set_presence lib p.session (some st)) in
        ap
          (λ (o : Option lib.Awareness). elim o as (λ _. Provider lib × List Effect) [
            | none ↦ (p, [])
            | some b ↦ if has_local_state lib b then (p, []) else again
          ])
          e
        ∙ ap
            (λ (o : Option lib.Presence).
              if (elim o as (λ _. Bool) [ none ↦ false | some _ ↦ true ]) then (p, []) else again)
            n

    show-lem :
        (p : Provider lib) (a : lib.Awareness) (st : lib.Presence)
        → p.on_restore ≡ true
        → p.stashed_presence ≡ some st
        → p.session.awareness ≡ some a
        → lib.get_local_state a ≡ none
        → let q = (Provider.page_shown p true).0 in
          (q.session ≡ (Session.set_presence lib p.session (some st)).0)
          × (q.stashed_presence ≡ none)
    unfolding Provider.restore ◌then◌
    show-lem p a st r h e n =
        let runs = page_shown-restore p st r h in
        let again = restore_presence-absent p a st e n in
        (
          ap (λ x. x.0.session) runs
              ∙ ap (λ x. x.0.session) again
              ∙ apply-session p (Session.set_presence lib p.session (some st)),
          ap (λ x. x.0.stashed_presence) runs,
        )

    -- A page that goes into the page cache and comes back: while it is hidden the client shows no
    -- presence and what it showed is stashed, and when it comes back the same presence is shown and the
    -- stash is empty. This is for a client that shows one, with the handlers on the window attached.
    pub page_restored :
        (p : Provider lib) (a : lib.Awareness) (st : lib.Presence)
        → p.on_unload ≡ true
        → p.on_restore ≡ true
        → p.session.awareness ≡ some a
        → lib.get_local_state a ≡ some st
        → let q = (Provider.page_hidden p).0 in
          let r = (Provider.page_shown q true).0 in
          (shown q.session ≡ none)
          × (q.stashed_presence ≡ some st)
          × (shown r.session ≡ some st)
          × (r.stashed_presence ≡ none)
    page_restored p a st u o e h =
        let (hs, hstash, hres) = hide-lem p u in
        let q = (Provider.page_hidden p).0 in
        let gone = ap shown hs ∙ left-shown p.session in
        let stash = hstash ∙ ground arith in
        let (b, eb) = left-awareness p.session a e in
        let eq = ap Session.awareness hs ∙ eb in
        let ab =
          sym (
            ap
              (λ (o : Option lib.Awareness). elim o as (λ _. Option lib.Presence) [
                | none ↦ none
                | some a ↦ lib.get_local_state a
              ])
              eq)
          ∙ gone in
        let (rs, rstash) = show-lem q b st (hres ∙ o) stash eq ab in
        (gone, stash, ap shown rs ∙ set-shown q.session b (some st) eq, rstash)
