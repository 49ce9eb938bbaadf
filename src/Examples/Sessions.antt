-- ===== src/Examples/Sessions.antt =====
-- Runs of sessions of y_protocol_session.ts on small packages.
use y_ruby.Base.{true, false, some, none, [], ◌∷◌, Bytes, List, refl, ◌≡◌, ◌⊎◌, arith}
use y_ruby.Examples.Toy.{toy, joined}
use y_ruby.Examples.Queues.{empty, waiting}
use y_ruby.Reliable.Delivery.{Kept, numbered}
use y_ruby.Session.{Session, receive, apply_remote_update, on_disconnect}
use y_ruby.Reliable
use y_ruby.Reliable.{run, initial}
use y_ruby.Session.Exchange.{SyncLaws, handshake, receive-frame_update}
use y_ruby.Session.Frames.{Untouched, Effective, receive-TakesEffect, receive-synced}
use y_ruby.Session.Queue.{SessionCall, session_run, tagged, frames_of}
use y_ruby.Framing.{frame_sync_step1, frame_update, validate_frame}
use y_ruby.Reliable.Drain.{ack_of}
use y_ruby.Session.Runs.{history, session_run-Kept, session_run-Drives}
use y_ruby.Session.Echo.{Silent, remote_never_echoes}

abbrev pub fresh_session : Session toy
fresh_session = record {
  doc = [];
  awareness = some ((9 ∷ []), some 5);
  synced = false;
  delivery = empty;
  doc_listening = true;
  awareness_listening = true;
}

-- A session with two updates that wait.
abbrev pub busy_session : Session toy
busy_session = record fresh_session { doc = (10 ∷ []) ∷ (20 ∷ []) ∷ []; delivery = waiting }

pub toy_sync : SyncLaws toy
toy_sync = record {
  sync_byte = refl;
  sync_byte_back = λ rest. refl;
  update_read = λ u d. refl;
  step1_read = λ d d'. (refl, refl, (λ e. cc), refl);
  step2_read = λ d d' e. (refl, refl, refl, refl);
}

-- An edit offline, the connection, a second edit, a frame of the server, an acknowledgement.
abbrev meeting : List (SessionCall toy)
meeting =
    SessionCall.edits (record { doc = (10 ∷ []) ∷ []; events = (10 ∷ []) ∷ []; threw = false })
    ∷ SessionCall.connects
    ∷ SessionCall.edits
        (record { doc = (10 ∷ []) ∷ (20 ∷ []) ∷ []; events = (20 ∷ []) ∷ []; threw = false })
    ∷ SessionCall.receives (0 ∷ 2 ∷ 30 ∷ [])
    ∷ SessionCall.acks (ack_of 1)
    ∷ []

session_run-Drives_example :
    let r = run joined empty (history toy true meeting) in
    ((session_run toy fresh_session meeting).0.delivery ≡ r.0)
    × (tagged (session_run toy fresh_session meeting).1 ≡ frames_of toy r.1)
session_run-Drives_example = session_run-Drives toy fresh_session meeting

session_run-Kept_example :
    Kept
      (numbered 1 ((10 ∷ []) ∷ (20 ∷ []) ∷ []))
      (session_run toy fresh_session meeting).0.delivery.pending
      (history toy true meeting)
unfolding initial
session_run-Kept_example =
    session_run-Kept toy fresh_session meeting refl (ground arith) (omega arith) (omega arith)

-- An update that arrives, and one that is bootstrapped.
remote_never_echoes_example :
    let r = receive toy busy_session (0 ∷ 2 ∷ 30 ∷ []) in
    let a = apply_remote_update toy busy_session (40 ∷ []) in
    (r.0.delivery ≡ waiting)
    × Silent r.1
    × (a.0.delivery ≡ waiting)
    × (a.1 ≡ [])
    × ((on_disconnect toy busy_session).1 ≡ [])
    × ((on_disconnect toy busy_session).0.delivery ≡ Reliable.on_disconnect waiting)
    × ((on_disconnect toy busy_session).0.delivery.pending ≡ waiting.pending)
    × ((on_disconnect toy busy_session).0.delivery.next_seq ≡ 3)
remote_never_echoes_example = remote_never_echoes toy busy_session (0 ∷ 2 ∷ 30 ∷ []) (40 ∷ [])

receive-TakesEffect_example :
    let frame : Bytes = 0 ∷ 2 ∷ 30 ∷ [] in
    Untouched toy busy_session frame (receive toy busy_session frame)
    ⊎ Effective toy busy_session frame (receive toy busy_session frame)
receive-TakesEffect_example = receive-TakesEffect toy busy_session (0 ∷ 2 ∷ 30 ∷ [])

receive-synced_example :
    ((receive toy busy_session (0 ∷ 1 ∷ 30 ∷ [])).0.synced ≡ true)
    × ((on_disconnect toy busy_session).0.synced ≡ false)
unfolding validate_frame
receive-synced_example = receive-synced toy busy_session (0 ∷ 1 ∷ 30 ∷ [])

receive-frame_update_example :
    receive toy busy_session (frame_update toy (30 ∷ []))
    ≡ (record busy_session { doc = (10 ∷ []) ∷ (20 ∷ []) ∷ (30 ∷ []) ∷ [] }, [], none)
receive-frame_update_example = receive-frame_update toy_sync busy_session (30 ∷ [])

handshake_example :
    let r = receive toy busy_session (frame_sync_step1 toy []) in
    (r.0 ≡ busy_session)
    × (r.1 ≡ [])
    × ((answer : Bytes) × (r.2 ≡ some answer)
        × ((receive toy fresh_session answer).0.synced ≡ true)
        × ((receive toy fresh_session answer).2 ≡ none))
handshake_example = handshake toy_sync fresh_session busy_session
