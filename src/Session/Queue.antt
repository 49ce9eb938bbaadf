-- ===== src/Session/Queue.antt =====
-- The calls of y_protocol_session.ts as lists of calls of reliable_sync.ts, and the frames that carry an
-- id next to that queue's sends.
use y_ruby.Base.{
  ℕ, [], ◌∷◌, refl, List, Bool, ◌≡◌, Bytes, ◌++◌, map, Option, some, true, none, false,
  if◌then◌else◌, ◌∙◌, arith, ap, sym, append-nil, inl, inr, Option-cases,
}
use y_ruby.External.{Packages, Applied, Noted}
use y_ruby.Framing.{frame_update}
use y_ruby.Session.{
  framed, doc_events, Output, Session, on_connect, sends, on_disconnect, tick, reports,
  remove_local_awareness, destroy, other, ack, edit, set_presence, receive, apply_remote_update,
  greeting, deliver, note, Origin,
}
use y_ruby.Number.{Value}
use mathlib.Core.Path.{ap₂}
use mathlib.Core.List.{map-append}
use y_ruby.Reliable
use y_ruby.Reliable.{Sent, Call, run, enqueues}
use y_ruby.Session.Echo.{Silent, on_disconnect-quiet, receive-quiet, apply_remote_update-quiet}

-- A call from outside: by the transport, the application, the server or the queue's timer.
pub data SessionCall (lib : Packages) : Type 0 where
  connects disconnects ticks leaves destroys : SessionCall lib
  acks : Value → SessionCall lib
  edits : Applied lib.Doc → SessionCall lib
  presents : Option lib.Presence → SessionCall lib
  receives restores : Bytes → SessionCall lib

-- The frames that go out under an id, with their ids.
abbrev pub tagged : List Output → List (Bytes × ℕ)
tagged [] = []
tagged (reports ∷ out) = tagged out
tagged (sends frame none ∷ out) = tagged out
tagged (sends frame (some id) ∷ out) = (frame, id) ∷ tagged out

module _ (lib : Packages) where
  unfoldable pub session_step : Session lib → SessionCall lib → Session lib × List Output
  session_step s connects = on_connect lib s
  session_step s disconnects = on_disconnect lib s
  session_step s ticks = tick lib s
  session_step s leaves = remove_local_awareness lib s
  session_step s destroys = (destroy lib s, [])
  session_step s (acks v) = (ack lib s v, [])
  session_step s (edits r) = edit lib s r
  session_step s (presents p) = set_presence lib s p
  session_step s (receives frame) = let (t, out, reply) = receive lib s frame in (t, out)
  session_step s (restores update) =
      let (t, out, threw) = apply_remote_update lib s update in (t, out)

  unfoldable pub session_run : Session lib → List (SessionCall lib) → Session lib × List Output
  session_run s [] = (s, [])
  session_run s (c ∷ cs) =
      let (t, out) = session_step s c in let (end, later) = session_run t cs in (end, out ++ later)

  -- What a call is to the queue. An edit of the document enqueues each of its updates, until the
  -- session is destroyed; what comes from the server, and presence, do not reach the queue.
  abbrev pub queue_calls : Bool → SessionCall lib → List Call
  queue_calls listening connects = Call.connects ∷ []
  queue_calls listening disconnects = Call.disconnects ∷ []
  queue_calls listening ticks = Call.ticks ∷ []
  queue_calls listening leaves = []
  queue_calls listening destroys = Call.destroys ∷ []
  queue_calls listening (acks v) = Call.acks v ∷ []
  queue_calls listening (edits r) = if listening then map enqueues r.events else []
  queue_calls listening (presents p) = []
  queue_calls listening (receives frame) = []
  queue_calls listening (restores update) = []

  -- The frames of a list of sends.
  abbrev pub frames_of : List Sent → List (Bytes × ℕ)
  frames_of = map λ m. (frame_update lib m.update, m.id)

  tagged-framed : (sent : List Sent) → tagged (framed lib sent) ≡ frames_of sent
  unfolding framed
  tagged-framed [] = refl
  tagged-framed (m ∷ ms) = rw (tagged-framed ms)

  abbrev Drives : Session lib → List Call → Session lib × List Output → Type 0
  Drives s calls r =
      (r.0.delivery ≡ (run lib.merge_updates s.delivery calls).0)
      × (tagged r.1 ≡ frames_of (run lib.merge_updates s.delivery calls).1)

  pub tagged-append : (xs ys : List Output) → tagged (xs ++ ys) ≡ tagged xs ++ tagged ys
  tagged-append [] ys = refl
  tagged-append (reports ∷ xs) ys = tagged-append xs ys
  tagged-append (sends frame none ∷ xs) ys = tagged-append xs ys
  tagged-append (sends frame (some id) ∷ xs) ys = rw (tagged-append xs ys)

  pub tagged-Silent : (out : List Output) → Silent out → tagged out ≡ []
  tagged-Silent [] h = refl
  tagged-Silent (reports ∷ out) h = tagged-Silent out h
  tagged-Silent (sends frame id ∷ out) h = absurd h

  tagged-greeting : (s : Session lib) → tagged (greeting lib s) ≡ []
  unfolding greeting
  tagged-greeting s = ground arith

  pub tagged-note :
      (s : Session lib) (n : Noted lib.Awareness) (origin : Origin)
      → ((note lib s n origin).0.delivery ≡ s.delivery) × (tagged (note lib s n origin).1 ≡ [])
  unfolding note
  tagged-note s n origin = ground arith

  -- One call of the queue, its sends framed.
  deliver-Drives :
      (s : Session lib) (c : Call)
      → Drives s (c ∷ []) (deliver lib s (Reliable.step lib.merge_updates s.delivery c))
  unfolding deliver run
  deliver-Drives s c =
      let sent = (Reliable.step lib.merge_updates s.delivery c).1 in
      (refl, tagged-framed sent ∙ ap frames_of (sym (append-nil sent)))

  no_event : (s : Session lib) (origin : Origin) → doc_events lib s [] origin ≡ (s, [])
  unfolding doc_events
  no_event s origin = refl

  attached_event :
      (s : Session lib) (u : Bytes) (us : List Bytes)
      → s.doc_listening ≡ true
      → let r = Reliable.enqueue lib.merge_updates s.delivery u in
        let rest = doc_events lib (record s { delivery = r.0 }) us other in
        doc_events lib s (u ∷ us) other ≡ (rest.0, framed lib r.1 ++ rest.1)
  unfolding doc_events deliver
  attached_event s u us l = rw (l, doc_events)

  doc_events-Drives :
      (s : Session lib) (us : List Bytes)
      → s.doc_listening ≡ true
      → Drives s (map enqueues us) (doc_events lib s us other)
  unfolding run Reliable.step
  doc_events-Drives s [] l = rw (no_event s other) (refl, refl)
  doc_events-Drives s (u ∷ us) l =
      let r = Reliable.enqueue lib.merge_updates s.delivery u in
      let t = record s { delivery = r.0 } in
      let rest = doc_events-Drives t us l in
      rw (attached_event s u us l) (
        rest.0,
        tagged-append (framed lib r.1) (doc_events lib t us other).1
            ∙ ap₂ ◌++◌ (tagged-framed r.1) rest.1
            ∙ sym (map-append _ r.1 _),
      )

  detached_events :
      (s : Session lib) (us : List Bytes)
      → s.doc_listening ≡ false
      → doc_events lib s us other ≡ (s, [])
  unfolding doc_events
  detached_events s [] l = refl
  detached_events s (u ∷ us) l = ground (arith, detached_events s us l)

  events-Drives :
      (s : Session lib) (us : List Bytes) (listening : Bool)
      → s.doc_listening ≡ listening
      → Drives s (if listening then map enqueues us else []) (doc_events lib s us other)
  unfolding run
  events-Drives s us true l = doc_events-Drives s us l
  events-Drives s us false l = rw (detached_events s us l) (refl, refl)

  on_connect-Drives : (s : Session lib) → Drives s (Call.connects ∷ []) (on_connect lib s)
  unfolding on_connect Reliable.step
  on_connect-Drives s =
      let d = deliver-Drives s Call.connects in
      (d.0, tagged-append (greeting lib s) _ ∙ ap₂ ◌++◌ (tagged-greeting s) d.1)

  tick-Drives : (s : Session lib) → Drives s (Call.ticks ∷ []) (tick lib s)
  unfolding tick Reliable.step
  tick-Drives s = deliver-Drives s Call.ticks

  -- A call that the queue does not notice.
  abbrev pub Unnoticed : Session lib → Session lib × List Output → Type 0
  Unnoticed s r = (r.0.delivery ≡ s.delivery) × (tagged r.1 ≡ [])

  Unnoticed-Drives :
      (s : Session lib) (r : Session lib × List Output) → Unnoticed s r → Drives s [] r
  unfolding run
  Unnoticed-Drives s r h = h

  pub remove_local_awareness-Unnoticed :
      (s : Session lib) → Unnoticed s (remove_local_awareness lib s)
  unfolding remove_local_awareness
  remove_local_awareness-Unnoticed s = elim (Option-cases s.awareness) [
    | inl e ↦ ground arith
    | inr (a, e) ↦ ground (arith, tagged-note s (lib.set_local_state a none) other)
  ]

  pub set_presence-Unnoticed :
      (s : Session lib) (p : Option lib.Presence) → Unnoticed s (set_presence lib s p)
  unfolding set_presence
  set_presence-Unnoticed s p = elim (Option-cases s.awareness) [
    | inl e ↦ ground arith
    | inr (a, e) ↦ ground (arith, tagged-note s (lib.set_local_state a p) other)
  ]

  -- In any state, the queue after a call of the session is the queue after the calls that it comes to,
  -- and the frames that go out under an id are the framed sends of those.
  pub session_step-Drives :
      (s : Session lib) (c : SessionCall lib)
      → Drives s (queue_calls s.doc_listening c) (session_step s c)
  unfolding session_step run Reliable.step
  session_step-Drives s connects = on_connect-Drives s
  session_step-Drives s disconnects = let q = on_disconnect-quiet lib s in (q.0, ap tagged q.1)
  session_step-Drives s ticks = tick-Drives s
  session_step-Drives s leaves =
      Unnoticed-Drives s (remove_local_awareness lib s) (remove_local_awareness-Unnoticed s)
  session_step-Drives s destroys = unfold destroy in (refl, refl)
  session_step-Drives s (acks v) = unfold ack in (refl, refl)
  session_step-Drives s (edits r) =
      unfold edit in events-Drives (record s { doc = r.doc }) r.events s.doc_listening refl
  session_step-Drives s (presents p) =
      Unnoticed-Drives s (set_presence lib s p) (set_presence-Unnoticed s p)
  session_step-Drives s (receives frame) =
      let q = receive-quiet lib s frame in (q.0, tagged-Silent (receive lib s frame).1 q.1)
  session_step-Drives s (restores update) =
      let q = apply_remote_update-quiet lib s update in (q.0, ap tagged q.1)
