-- ===== src/Session/Synced.antt =====
-- The mark `synced` of a session of y_protocol_session.ts, under all that is no frame of the server and
-- no dropped transport.
use y_ruby.Base.{[], ◌∷◌, Option, List, Bytes, refl, ◌≡◌, arith, if◌then◌else◌, ◌∙◌}
use y_ruby.External.{Packages, Applied, Noted}
use y_ruby.Session.{
  apply_remote_update, on_doc_update, set_presence, on_connect, tick, edit, doc_events,
  remove_local_awareness, note, Session, Origin, this, other,
}

module _ (lib : Packages) where
  event-synced :
      (s : Session lib) (u : Bytes) (origin : Origin)
      → (if s.doc_listening then on_doc_update lib s u origin else (s, [])).0.synced ≡ s.synced
  unfolding on_doc_update
  event-synced s u origin = ground arith

  pub doc_events-synced :
      (s : Session lib) (us : List Bytes) (origin : Origin)
      → (doc_events lib s us origin).0.synced ≡ s.synced
  unfolding doc_events
  doc_events-synced s [] origin = refl
  doc_events-synced s (u ∷ us) origin =
      doc_events-synced (if s.doc_listening then on_doc_update lib s u origin else (s, [])).0 us
        origin
      ∙ event-synced s u origin

  pub edit-synced : (s : Session lib) (r : Applied lib.Doc) → (edit lib s r).0.synced ≡ s.synced
  unfolding edit
  edit-synced s r = doc_events-synced (record s { doc = r.doc }) r.events other

  pub apply_remote_update-synced :
      (s : Session lib) (u : Bytes) → (apply_remote_update lib s u).0.synced ≡ s.synced
  unfolding apply_remote_update
  apply_remote_update-synced s u =
      let r = lib.apply_update s.doc u in doc_events-synced (record s { doc = r.doc }) r.events this

  pub set_presence-synced :
      (s : Session lib) (state : Option lib.Presence)
      → (set_presence lib s state).0.synced ≡ s.synced
  unfolding set_presence
  set_presence-synced s state = ground arith

  pub remove_local_awareness-synced :
      (s : Session lib) → (remove_local_awareness lib s).0.synced ≡ s.synced
  unfolding remove_local_awareness
  remove_local_awareness-synced s = ground arith

  pub on_connect-synced : (s : Session lib) → (on_connect lib s).0.synced ≡ s.synced
  unfolding on_connect
  on_connect-synced s = ground arith

  pub tick-synced : (s : Session lib) → (tick lib s).0.synced ≡ s.synced
  unfolding tick
  tick-synced s = ground arith

  pub note-synced :
      (s : Session lib) (n : Noted lib.Awareness) (origin : Origin)
      → (note lib s n origin).0.synced ≡ s.synced
  unfolding note
  note-synced s n origin = refl
