-- ===== src/Session/Runs.antt =====
-- Whole histories of a session of y_protocol_session.ts: what holds of its queue over any sequence of
-- calls.
use mathlib.Core.Path.{ap₂}
use mathlib.Core.List.{map-append}
use y_ruby.Base.{
  [], ◌∷◌, ◌++◌, refl, Bool, List, Bytes, false, ◌≡◌, arith, if◌then◌else◌, ◌∙◌, sym, map, true,
  ◌≢◌, ◌+◌, length, ◌≤◌, subst, append_assoc,
}
use y_ruby.External.{Packages}
use y_ruby.Reliable.Delivery
use y_ruby.Reliable.Delivery.{Undestroyed, numbered, Kept, run-Kept}
use y_ruby.Reliable.{step, run, ReliableSync, Call, enqueues}
use y_ruby.Session.Queue.{
  session_step, SessionCall, queue_calls, session_run, tagged, frames_of, session_step-Drives,
  tagged-append,
}
use y_ruby.Session.{
  doc_events, Session, Origin, on_connect, on_disconnect, tick, remove_local_awareness, destroy,
  ack, edit, other, on_doc_update, set_presence, apply_remote_update, this,
}
use y_ruby.Session.Echo.{receive-quiet}
use y_ruby.Number.{exact_limit}
use y_ruby.Reliable.Order.{Ascending}

run-append :
    (merge : List Bytes → Bytes) (s : ReliableSync) (xs ys : List Call)
    → let (t, sent) = run merge s xs in
      let (u, later) = run merge t ys in run merge s (xs ++ ys) ≡ (u, sent ++ later)
unfolding run
run-append merge s [] ys = refl
run-append merge s (x ∷ xs) ys =
    let (t, sent) = step merge s x in
    rw (
      run-append merge t xs ys,
      append_assoc sent (run merge t xs).1 (run merge (run merge t xs).0 ys).1,
    )

module _ (lib : Packages) where
  -- The document listener after a call.
  abbrev pub listens_after : Bool → SessionCall lib → Bool
  listens_after listening SessionCall.destroys = false
  listens_after listening SessionCall.connects = listening
  listens_after listening SessionCall.disconnects = listening
  listens_after listening SessionCall.ticks = listening
  listens_after listening SessionCall.leaves = listening
  listens_after listening (SessionCall.acks v) = listening
  listens_after listening (SessionCall.edits r) = listening
  listens_after listening (SessionCall.presents p) = listening
  listens_after listening (SessionCall.receives frame) = listening
  listens_after listening (SessionCall.restores update) = listening

  -- What a history of the session is to its queue.
  abbrev pub history : Bool → List (SessionCall lib) → List Call
  history listening [] = []
  history listening (c ∷ cs) = queue_calls lib listening c ++ history (listens_after listening c) cs

  event-listening :
      (s : Session lib) (u : Bytes) (origin : Origin)
      → (if s.doc_listening then on_doc_update lib s u origin else (s, [])).0.doc_listening
        ≡ s.doc_listening
  unfolding on_doc_update
  event-listening s u origin = ground arith

  doc_listening-events :
      (s : Session lib) (us : List Bytes) (origin : Origin)
      → (doc_events lib s us origin).0.doc_listening ≡ s.doc_listening
  unfolding doc_events
  doc_listening-events s [] origin = refl
  doc_listening-events s (u ∷ us) origin =
      doc_listening-events (if s.doc_listening then on_doc_update lib s u origin else (s, [])).0 us
        origin
      ∙ event-listening s u origin

  session_step-listening :
      (s : Session lib) (c : SessionCall lib)
      → (session_step lib s c).0.doc_listening ≡ listens_after s.doc_listening c
  unfolding session_step
  session_step-listening s SessionCall.connects = unfold on_connect in ground arith
  session_step-listening s SessionCall.disconnects = unfold on_disconnect in ground arith
  session_step-listening s SessionCall.ticks = unfold tick in ground arith
  session_step-listening s SessionCall.leaves = unfold remove_local_awareness in ground arith
  session_step-listening s SessionCall.destroys = unfold destroy in refl
  session_step-listening s (SessionCall.acks v) = unfold ack in refl
  session_step-listening s (SessionCall.edits r) =
      unfold edit in doc_listening-events (record s { doc = r.doc }) r.events other
  session_step-listening s (SessionCall.presents p) = unfold set_presence in ground arith
  session_step-listening s (SessionCall.receives frame) = (receive-quiet lib s frame).2
  session_step-listening s (SessionCall.restores update) =
      unfold apply_remote_update in
      doc_listening-events (record s { doc = (lib.apply_update s.doc update).doc })
        (lib.apply_update s.doc update).events this

  -- Over a history of a session, its queue goes through the calls that the history comes to, and the
  -- frames that carry an id are the framed sends of those, in order.
  pub session_run-Drives :
      (s : Session lib) (cs : List (SessionCall lib))
      → let r = run lib.merge_updates s.delivery (history s.doc_listening cs) in
        ((session_run lib s cs).0.delivery ≡ r.0)
        × (tagged (session_run lib s cs).1 ≡ frames_of lib r.1)
  unfolding session_run run
  session_run-Drives s [] = (refl, refl)
  session_run-Drives s (c ∷ cs) =
      let merge = lib.merge_updates in
      let calls = queue_calls lib s.doc_listening c in
      let t = (session_step lib s c).0 in
      let one = session_step-Drives lib s c in
      let rest = session_run-Drives t cs in
      rw
        (
          run-append merge s.delivery calls (history (listens_after s.doc_listening c) cs),
          ← one.0,
          ← session_step-listening s c,
        )
        (
          rest.0,
          tagged-append lib (session_step lib s c).1 (session_run lib t cs).1
              ∙ ap₂ ◌++◌ one.1 rest.1
              ∙ sym (map-append _ (run merge s.delivery calls).1 _),
        )

edits-append :
    (xs ys : List Call) → Delivery.edits (xs ++ ys) ≡ Delivery.edits xs ++ Delivery.edits ys
edits-append [] ys = refl
edits-append (Call.enqueues u ∷ xs) ys = rw (edits-append xs ys)
edits-append (Call.flushes ∷ xs) ys = edits-append xs ys
edits-append (Call.connects ∷ xs) ys = edits-append xs ys
edits-append (Call.disconnects ∷ xs) ys = edits-append xs ys
edits-append (Call.ticks ∷ xs) ys = edits-append xs ys
edits-append (Call.destroys ∷ xs) ys = edits-append xs ys
edits-append (Call.acks v ∷ xs) ys = edits-append xs ys

edits-enqueues : (us : List Bytes) → Delivery.edits (map enqueues us) ≡ us
edits-enqueues [] = refl
edits-enqueues (u ∷ us) = rw (edits-enqueues us)

Undestroyed-append : (xs ys : List Call) → Undestroyed xs → Undestroyed ys → Undestroyed (xs ++ ys)
Undestroyed-append [] ys hx hy = hy
Undestroyed-append (x ∷ xs) ys hx hy = (hx.0, Undestroyed-append xs ys hx.1 hy)

Undestroyed-enqueues : (us : List Bytes) → Undestroyed (map enqueues us)
Undestroyed-enqueues [] = tt
Undestroyed-enqueues (u ∷ us) = ((λ e. cc), Undestroyed-enqueues us)

module _ (lib : Packages) where
  -- What the application's edits of the document put out as updates, in order.
  abbrev pub local_updates : List (SessionCall lib) → List Bytes
  local_updates [] = []
  local_updates (SessionCall.edits r ∷ cs) = r.events ++ local_updates cs
  local_updates (SessionCall.connects ∷ cs) = local_updates cs
  local_updates (SessionCall.disconnects ∷ cs) = local_updates cs
  local_updates (SessionCall.ticks ∷ cs) = local_updates cs
  local_updates (SessionCall.leaves ∷ cs) = local_updates cs
  local_updates (SessionCall.destroys ∷ cs) = local_updates cs
  local_updates (SessionCall.acks v ∷ cs) = local_updates cs
  local_updates (SessionCall.presents p ∷ cs) = local_updates cs
  local_updates (SessionCall.receives frame ∷ cs) = local_updates cs
  local_updates (SessionCall.restores update ∷ cs) = local_updates cs

  abbrev pub Alive : List (SessionCall lib) → Type 0
  Alive [] = Unit {0}
  Alive (c ∷ cs) = (c ≢ SessionCall.destroys) × Alive cs

  -- A live session's history holds its local updates as edits, and no teardown.
  abbrev pub Traced : List (SessionCall lib) → Type 0
  Traced cs =
      (Delivery.edits (history lib true cs) ≡ local_updates cs) × Undestroyed (history lib true cs)

  pub history-Traced : (cs : List (SessionCall lib)) → Alive cs → Traced cs
  history-Traced [] a = (refl, tt)
  history-Traced (SessionCall.edits r ∷ cs) a =
      let rest = history-Traced cs a.1 in
      (
        edits-append (map enqueues r.events) (history lib true cs)
            ∙ ap₂ ◌++◌ (edits-enqueues r.events) rest.0,
        Undestroyed-append (map enqueues r.events) (history lib true cs)
            (Undestroyed-enqueues r.events) rest.1,
      )
  history-Traced (SessionCall.connects ∷ cs) a =
      let rest = history-Traced cs a.1 in (rest.0, ((λ e. cc), rest.1))
  history-Traced (SessionCall.disconnects ∷ cs) a =
      let rest = history-Traced cs a.1 in (rest.0, ((λ e. cc), rest.1))
  history-Traced (SessionCall.ticks ∷ cs) a =
      let rest = history-Traced cs a.1 in (rest.0, ((λ e. cc), rest.1))
  history-Traced (SessionCall.acks v ∷ cs) a =
      let rest = history-Traced cs a.1 in (rest.0, ((λ e. cc), rest.1))
  history-Traced (SessionCall.destroys ∷ cs) a = absurd (a.0 refl)
  history-Traced (SessionCall.leaves ∷ cs) a = history-Traced cs a.1
  history-Traced (SessionCall.presents p ∷ cs) a = history-Traced cs a.1
  history-Traced (SessionCall.receives frame ∷ cs) a = history-Traced cs a.1
  history-Traced (SessionCall.restores update ∷ cs) a = history-Traced cs a.1

  -- No edit is lost. Over a history of a listening session without `destroy`, within the exact
  -- integers, the queue at the start followed by the updates that the application's edits put out is
  -- some updates, each reached by an acknowledgement of the history, followed by the queue at the end.
  pub session_run-Kept :
      (s : Session lib) (cs : List (SessionCall lib))
      → s.doc_listening ≡ true
      → Alive cs
      → s.delivery.next_seq + length (history lib true cs) ≤ exact_limit
      → Ascending 1 s.delivery.pending s.delivery.next_seq
      → Kept
          (s.delivery.pending ++ numbered s.delivery.next_seq (local_updates cs))
          (session_run lib s cs).0.delivery.pending
          (history lib true cs)
  session_run-Kept s cs l a b o =
      let trace = history-Traced cs a in
      let drives =
        subst
          (λ listening.
            (session_run lib s cs).0.delivery
            ≡ (run lib.merge_updates s.delivery (history lib listening cs)).0)
          l (session_run-Drives lib s cs).0 in
      rw (drives, ← trace.0)
        (run-Kept lib.merge_updates s.delivery (history lib true cs) trace.1 b o)
