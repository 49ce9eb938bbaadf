-- ===== src/Transport/Frames.antt =====
-- Which frames go where (`#send` of actioncable_provider.ts).
use mathlib.Core.Path.{ap₂}
use y_ruby.Base.{
  ℕ, [], ◌∷◌, refl, List, Bytes, ◌≡◌, Option, arith, map, some, false, All, true, none, ◌++◌, inl,
  ◌∙◌, ap, ◌⊎◌, inr,
}
use y_ruby.External.{Packages}
use y_ruby.Transport.{send_frame, emit, Provider, apply, observe}
use y_ruby.Cable.{
  Effect, sent, numbered, plain, presence, whispered, unsubscribed, notified, failed,
  CableSubscription, Outcome, is_awareness_frame, envelope,
}
use y_ruby.Session.{Session, Output, sends, reports}
use y_ruby.Base64.{to_base64}
use y_ruby.Session.Queue.{tagged}

-- The envelopes that carry an id, with the subscription's name left out, and those whispered.
abbrev pub numbered_sends : List Effect → List (List ℕ × ℕ)
numbered_sends [] = []
numbered_sends (sent name (numbered update id) ∷ out) = (update, id) ∷ numbered_sends out
numbered_sends (sent name (plain update) ∷ out) = numbered_sends out
numbered_sends (sent name (presence update) ∷ out) = numbered_sends out
numbered_sends (whispered name e ∷ out) = numbered_sends out
numbered_sends (unsubscribed name ∷ out) = numbered_sends out
numbered_sends (notified l status ∷ out) = numbered_sends out
numbered_sends (failed context ∷ out) = numbered_sends out

-- The frames under `presence` envelopes, with the ways by which they went.
abbrev pub whispers : List Effect → List (List ℕ)
whispers [] = []
whispers (whispered name (presence update) ∷ out) = update ∷ whispers out
whispers (whispered name (plain update) ∷ out) = update ∷ whispers out
whispers (whispered name (numbered update id) ∷ out) = update ∷ whispers out
whispers (sent name e ∷ out) = whispers out
whispers (unsubscribed name ∷ out) = whispers out
whispers (notified l status ∷ out) = whispers out
whispers (failed context ∷ out) = whispers out

-- What a subscribed provider puts on the cable of a session's output: the frames under an id in order,
-- and the whispered ones, which are the awareness frames if the cable can whisper.
abbrev pub encoded : List (Bytes × ℕ) → List (List ℕ × ℕ)
encoded = map λ t. (to_base64 t.0, t.1)

pub numbered_sends-append :
    (xs ys : List Effect) → numbered_sends (xs ++ ys) ≡ numbered_sends xs ++ numbered_sends ys
numbered_sends-append [] ys = refl
numbered_sends-append (sent name (numbered update id) ∷ xs) ys = rw (numbered_sends-append xs ys)
numbered_sends-append (sent name (plain update) ∷ xs) ys = numbered_sends-append xs ys
numbered_sends-append (sent name (presence update) ∷ xs) ys = numbered_sends-append xs ys
numbered_sends-append (whispered name e ∷ xs) ys = numbered_sends-append xs ys
numbered_sends-append (unsubscribed name ∷ xs) ys = numbered_sends-append xs ys
numbered_sends-append (notified l status ∷ xs) ys = numbered_sends-append xs ys
numbered_sends-append (failed context ∷ xs) ys = numbered_sends-append xs ys

All-whispers-append :
    (P : List ℕ → Type 0) (xs ys : List Effect)
    → All P (whispers xs)
    → All P (whispers ys)
    → All P (whispers (xs ++ ys))
All-whispers-append P [] ys hx hy = hy
All-whispers-append P (sent name e ∷ xs) ys hx hy = All-whispers-append P xs ys hx hy
All-whispers-append P (whispered name (presence update) ∷ xs) ys hx hy =
    (hx.0, All-whispers-append P xs ys hx.1 hy)
All-whispers-append P (whispered name (plain update) ∷ xs) ys hx hy =
    (hx.0, All-whispers-append P xs ys hx.1 hy)
All-whispers-append P (whispered name (numbered update id) ∷ xs) ys hx hy =
    (hx.0, All-whispers-append P xs ys hx.1 hy)
All-whispers-append P (unsubscribed name ∷ xs) ys hx hy = All-whispers-append P xs ys hx hy
All-whispers-append P (notified l status ∷ xs) ys hx hy = All-whispers-append P xs ys hx hy
All-whispers-append P (failed context ∷ xs) ys hx hy = All-whispers-append P xs ys hx hy

-- The encoding of an awareness frame.
abbrev pub EncodesAwareness : List ℕ → Type 0
EncodesAwareness t = (frame : Bytes) × (is_awareness_frame frame ≡ true) × (t ≡ to_base64 frame)

module _ {lib : Packages} where
  -- Sending changes nothing of the provider but the microtasks that wait.
  abbrev pub OnlyTasks : Provider lib → Provider lib → Type 0
  OnlyTasks p q = q ≡ record p { tasks = q.tasks }

  pub send_frame-OnlyTasks :
      (p : Provider lib) (frame : Bytes) (id : Option ℕ) → OnlyTasks p (send_frame p frame id).0
  unfolding send_frame
  send_frame-OnlyTasks p frame id = ground arith

  pub emit-OnlyTasks : (p : Provider lib) (outs : List Output) → OnlyTasks p (emit p outs).0
  unfolding emit
  emit-OnlyTasks p [] = refl
  emit-OnlyTasks p (reports ∷ outs) = emit-OnlyTasks p outs
  emit-OnlyTasks p (sends frame id ∷ outs) =
      let q = (send_frame p frame id).0 in
      cc (emit-OnlyTasks q outs, send_frame-OnlyTasks p frame id)

  -- A call on the session replaces the session and changes nothing else but the microtasks.
  pub apply-OnlyTasks :
      (p : Provider lib) (r : Session lib × List Output)
      → OnlyTasks (record p { session = r.0 }) (apply p r).0
  unfolding apply
  apply-OnlyTasks p r = emit-OnlyTasks (record p { session = r.0 }) r.1

  -- A frame that is not an awareness frame is sent once, whether or not the cable can whisper, under
  -- its id if it has one.
  pub send_frame-document :
      (p : Provider lib) (sub : CableSubscription) (frame : Bytes) (id : Option ℕ)
      → p.subscription ≡ some sub
      → is_awareness_frame frame ≡ false
      → (send_frame p frame id).1
        ≡ sent sub.name (envelope (to_base64 frame) id)
          ∷ (observe p (sub.send (envelope (to_base64 frame) id))).1
  unfolding send_frame
  send_frame-document p sub frame id e f = ground arith

  pub observe-quiet :
      (p : Provider lib) (o : Outcome)
      → (numbered_sends (observe p o).1 ≡ []) × (whispers (observe p o).1 ≡ [])
  unfolding observe
  observe-quiet p o = ground arith

  pub send_frame-numbered :
      (p : Provider lib) (sub : CableSubscription) (frame : Bytes) (id : ℕ)
      → p.subscription ≡ some sub
      → is_awareness_frame frame ≡ false
      → numbered_sends (send_frame p frame (some id)).1 ≡ (to_base64 frame, id) ∷ []
  unfolding send_frame
  send_frame-numbered p sub frame id e f = ground arith

  pub send_frame-unnumbered :
      (p : Provider lib) (frame : Bytes) → numbered_sends (send_frame p frame none).1 ≡ []
  unfolding send_frame
  send_frame-unnumbered p frame = ground arith

  send_frame-whispered :
      (p : Provider lib) (frame : Bytes) (id : Option ℕ)
      → (whispers (send_frame p frame id).1 ≡ [])
        ⊎ ((is_awareness_frame frame ≡ true)
            × (whispers (send_frame p frame id).1 ≡ to_base64 frame ∷ []))
  unfolding send_frame
  send_frame-whispered p frame id = ground arith

  send_frame-whispers :
      (p : Provider lib) (frame : Bytes) (id : Option ℕ)
      → All EncodesAwareness (whispers (send_frame p frame id).1)
  send_frame-whispers p frame id = elim (send_frame-whispered p frame id) [
    | inl none_sent ↦ rw none_sent tt
    | inr (kind, one_sent) ↦ rw one_sent ((frame, kind, refl), tt)
  ]

  still_subscribed :
      (p : Provider lib) (sub : CableSubscription) (frame : Bytes) (id : Option ℕ)
      → p.subscription ≡ some sub
      → (send_frame p frame id).0.subscription ≡ some sub
  still_subscribed p sub frame id e = ap Provider.subscription (send_frame-OnlyTasks p frame id) ∙ e

  -- All frames that a session hands out under an id go out by `send`, under that id and in order, if
  -- the provider is subscribed and they are no awareness frames; and what is whispered is the encoding
  -- of awareness frames only.
  pub emit-wire :
      (p : Provider lib) (sub : CableSubscription) (outs : List Output)
      → p.subscription ≡ some sub
      → All (λ t. is_awareness_frame t.0 ≡ false) (tagged outs)
      → (numbered_sends (emit p outs).1 ≡ encoded (tagged outs))
        × All EncodesAwareness (whispers (emit p outs).1)
  unfolding emit
  emit-wire p sub [] e h = (refl, tt)
  emit-wire p sub (reports ∷ outs) e h = emit-wire p sub outs e h
  emit-wire p sub (sends frame none ∷ outs) e h =
      let (q, out) = send_frame p frame none in
      let rest = emit-wire q sub outs (still_subscribed p sub frame none e) h in
      (
        numbered_sends-append out (emit q outs).1
            ∙ ap (λ l. l ++ numbered_sends (emit q outs).1) (send_frame-unnumbered p frame)
            ∙ rest.0,
        All-whispers-append EncodesAwareness out (emit q outs).1 (send_frame-whispers p frame none)
            rest.1,
      )
  emit-wire p sub (sends frame (some id) ∷ outs) e h =
      let (q, out) = send_frame p frame (some id) in
      let rest = emit-wire q sub outs (still_subscribed p sub frame (some id) e) h.1 in
      (
        numbered_sends-append out (emit q outs).1
            ∙ ap₂ ◌++◌ (send_frame-numbered p sub frame id e h.0) rest.0,
        All-whispers-append EncodesAwareness out (emit q outs).1
            (send_frame-whispers p frame (some id)) rest.1,
      )
