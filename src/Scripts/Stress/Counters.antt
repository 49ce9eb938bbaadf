-- ===== src/Scripts/Stress/Counters.antt =====
-- The counter of what a client of examples/actioncable-demo/frontend/stress.mjs has sent.
use y_ruby.Base.{
  ℕ, suc, ◌+◌, ◌==◌, Bool, false, List, [], ◌∷◌, ◌++◌, Bytes, ◌≡◌, some, arith, Option-cases, inl,
  inr,
}
use y_ruby.Cable.{plain}
use y_ruby.Base64.{to_base64}
use y_ruby.External.{Packages, SyncRead}
use y_ruby.Framing.{
  frame_sync_step1, frame_awareness, frame_update, sync_message, awareness_message, reply_of,
  frame_sync_step1,
}
use y_ruby.Scripts.{
  Post, joins, carries, garbles, Arrival, Documents, send_update, answer, carry, post, greet, join,
  fire_updates, changed,
}
use y_ruby.Scripts.Texts.{Text}
use y_ruby.Scripts.Loops.{receive_all-keeps, from_value-keeps}
use y_ruby.Scripts.Rounds.{read_type-After, read_sync-After, apply_block-After, if-After}
use y_ruby.Scripts.Turns.{stress-Deaf}
use y_ruby.Scripts.Stress.{
  Client, SharedText, send, on_update, put_awareness, turn, receive_binary, counted, on_message,
  edit, set_presence, reconnect, reconnect_ends, flush_offline, close, insert_token, token,
}

-- The "message" commands among the posts.
abbrev pub carried : List Post → ℕ
carried [] = 0
carried (joins identifier ∷ ps) = carried ps
carried (carries identifier e ∷ ps) = suc (carried ps)
carried (garbles identifier t ∷ ps) = carried ps

carried-append : (ps qs : List Post) → carried (ps ++ qs) ≡ carried ps + carried qs
carried-append [] qs = omega arith
carried-append (joins identifier ∷ ps) qs = carried-append ps qs
carried-append (carries identifier e ∷ ps) qs = omega (arith, carried-append ps qs)
carried-append (garbles identifier t ∷ ps) qs = carried-append ps qs

-- What can happen to a client: its own calls, a message, and the socket opening or closing.
pub data StressCall : Type 0 where
  edits shows : ℕ → StressCall
  arrives : Arrival → StressCall
  reconnects reconnected flushes closes : StressCall
  socket_is : Bool → StressCall

module _ {lib : Packages} where
  -- The counter is this many and the messages on the sockets.
  abbrev pub Tallies : ℕ → Client lib → Type 0
  Tallies before c = c.extra.messages_sent ≡ before + carried c.posts

  send-Tallies : (n : ℕ) (c : Client lib) (frame : Bytes) → Tallies n c → Tallies n (send c frame)
  unfolding send carry post
  send-Tallies n c frame h =
      ground
        (arith, carried-append c.posts (carries c.identifier (plain (to_base64 frame)) ∷ []), h)

  fire_updates-Tallies :
      (n : ℕ) (c : Client lib) (us : List Bytes)
      → Tallies n c
      → Tallies n (fire_updates on_update c false us)
  unfolding fire_updates on_update send_update
  fire_updates-Tallies n c [] h = h
  fire_updates-Tallies n c (u ∷ us) h =
      fire_updates-Tallies n (send c (frame_update lib u)) us (send-Tallies n c _ h)

  answer-Tallies :
      (n : ℕ) (c : Client lib) (r : SyncRead lib.Doc) → Tallies n c → Tallies n (answer send c r)
  unfolding answer
  answer-Tallies n c r h =
      elim (Option-cases (reply_of lib (lib.write_var_uint sync_message ++ r.reply))) [
        | inl e ↦ rw (e, answer) h
        | inr (frame, e) ↦ rw (e, answer) (send-Tallies n c frame h)
      ]

  receive-Tallies :
      (n : ℕ) (c : Client lib) (bs : Bytes) → Tallies n c → Tallies n (receive_binary c bs).0
  unfolding receive_binary turn put_awareness
  receive-Tallies n c bs h =
      receive_all-keeps (Tallies n) turn
        (λ s bytes k. read_type-After (Tallies n) s bytes _ k λ type rest.
          if-After (Tallies n) (type == sync_message) _ _
            (read_sync-After (Tallies n) on_update s rest (answer send) stress-Deaf (λ doc. k)
              (λ doc r. answer-Tallies n _ r k))
            (if-After (Tallies n) (type == awareness_message) _ _
              (apply_block-After (Tallies n) s.extra.awareness s rest (put_awareness s) k (λ a. k))
              k))
        c bs h

  on_message-Tallies :
      (n : ℕ) (c : Client lib) (msg : Arrival) → Tallies n c → Tallies n (on_message c msg).0
  unfolding on_message join greet post
  on_message-Tallies n c msg h = ground (
    arith,
    h,
    carried-append c.posts (joins c.identifier ∷ []),
    send-Tallies n c (frame_sync_step1 lib c.doc) h,
    from_value-keeps (Tallies n) msg.update (counted c) (receive_binary (counted c)) h
        (λ bs. receive-Tallies n (counted c) bs h),
  )

  module _ (docs : Documents lib) (shared : SharedText lib) (draw : ℕ → ℕ)
      (presence : Text → ℕ → lib.Presence) where
    unfoldable pub stress_step : Client lib → StressCall → Client lib
    unfolding edit set_presence on_message reconnect reconnect_ends flush_offline close
    stress_step c (edits round) = edit docs shared draw c round
    stress_step c (shows round) = set_presence presence c round
    stress_step c (arrives msg) = (on_message c msg).0
    stress_step c reconnects = reconnect c
    stress_step c reconnected = reconnect_ends c
    stress_step c flushes = flush_offline c
    stress_step c closes = close c
    stress_step c (socket_is b) = record c { is_open = b }

    unfoldable pub stress_run : Client lib → List StressCall → Client lib
    unfolding stress_step
    stress_run c [] = c
    stress_run c (x ∷ xs) = stress_run (stress_step c x) xs

    step-Tallies :
        (n : ℕ) (c : Client lib) (x : StressCall) → Tallies n c → Tallies n (stress_step c x)
    unfolding stress_step edit changed set_presence put_awareness reconnect reconnect_ends
        flush_offline close
    step-Tallies n c (edits round) h =
        let r = docs.transact c.doc (insert_token docs shared draw (token c round)) in
        fire_updates-Tallies n (record c { doc = r.doc }) r.events h
    step-Tallies n c (shows round) h =
        let state = some (presence c.extra.name round) in
        let d = put_awareness c (lib.set_local_state c.extra.awareness state).awareness in
        send-Tallies n d (frame_awareness lib d.extra.awareness (lib.client_id d.doc ∷ [])) h
    step-Tallies n c (arrives msg) h = on_message-Tallies n c msg h
    step-Tallies n c reconnects h = h
    step-Tallies n c reconnected h = h
    step-Tallies n c flushes h = send-Tallies n c (frame_sync_step1 lib c.doc) h
    step-Tallies n c closes h = h
    step-Tallies n c (socket_is b) h = h

    -- Whatever a client does and receives, the script's counter of sent messages goes up by one for each
    -- "message" command on the client's sockets: with what was counted before, it stays their number.
    pub stress_run-Tallies :
        (n : ℕ) (c : Client lib) (xs : List StressCall) → Tallies n c → Tallies n (stress_run c xs)
    unfolding stress_run
    stress_run-Tallies n c [] h = h
    stress_run-Tallies n c (x ∷ xs) h =
        stress_run-Tallies n (stress_step c x) xs (step-Tallies n c x h)
