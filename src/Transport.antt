-- ===== src/Transport.antt =====
-- The lower half of packages/client/src/actioncable_provider.ts: the provider's state, the sending of
-- frames over the cable, and the status. A method returns the new provider and its calls to the
-- outside, in order.
pub mod Frames
pub mod Wire
use y_ruby.Base.{ℕ, Bool, not, if◌then◌else◌, Option, none, some, List, [], ◌∷◌, ◌++◌, Bytes}
use y_ruby.Base64.{to_base64}
use y_ruby.External.{Packages}
use y_ruby.Cable.{
  ProviderStatus, same_status, Envelope, presence, Outcome, CableSubscription, in_receive, in_send,
  Effect, sent, whispered, failed, Task, report_send, is_awareness_frame, envelope, notify,
}
use y_ruby.Session
use y_ruby.Session.{Session, Output, sends, reports}

-- `window_here`: there is a window. The handlers on it are attached while `on_unload` and `on_restore`
-- are set.
pub record Provider (lib : Packages) : Type 0 where
  pub session : Session lib
  pub subscription : Option CableSubscription
  pub connected : Bool
  pub status : ProviderStatus
  pub listeners : List ℕ
  pub window_here : Bool
  pub on_unload : Bool
  pub on_restore : Bool
  pub stashed_presence : Option lib.Presence
  pub tasks : List Task

module _ {lib : Packages} where
  -- `#observe`, and the `catch` around a call of the transport.
  unfoldable pub observe : Provider lib → Outcome → Provider lib × List Effect
  observe p Outcome.accepted = (p, [])
  observe p Outcome.thrown = (p, failed in_send ∷ [])
  observe p Outcome.rejected = (record p { tasks = p.tasks ++ report_send ∷ [] }, [])

  unfoldable pub send_plainly :
      Provider lib → CableSubscription → Envelope → Provider lib × List Effect
  unfolding observe
  send_plainly p sub e = let (q, out) = observe p (sub.send e) in (q, sent sub.name e ∷ out)

  -- `#send`
  unfoldable pub send_frame : Provider lib → Bytes → Option ℕ → Provider lib × List Effect
  unfolding send_plainly observe
  send_frame p frame id = elim p.subscription [
    | none ↦ (p, [])
    | some sub ↦
        let update = to_base64 frame in
        elim sub.whisper [
          | none ↦ send_plainly p sub (envelope update id)
          | some whisper ↦
              if is_awareness_frame frame
              then (let (q, out) = observe p (whisper (presence update)) in
                  (q, whispered sub.name (presence update) ∷ out))
              else send_plainly p sub (envelope update id)
        ]
  ]

  -- What the session hands to its callbacks.
  unfoldable pub emit : Provider lib → List Output → Provider lib × List Effect
  emit p [] = (p, [])
  emit p (reports ∷ outs) = let (q, out) = emit p outs in (q, failed in_receive ∷ out)
  emit p (sends frame id ∷ outs) =
      let (q, out) = send_frame p frame id in let (r, later) = emit q outs in (r, out ++ later)

  -- A call on the session, and what it hands out.
  unfoldable pub apply : Provider lib → Session lib × List Output → Provider lib × List Effect
  unfolding emit
  apply p (s, outs) = emit (record p { session = s }) outs

  unfoldable pub compute_status : Provider lib → ProviderStatus
  compute_status p = elim p.subscription [
    | none ↦ ProviderStatus.disconnected
    | some sub ↦
        if not p.connected
        then ProviderStatus.connecting
        else if p.session.synced
        then ProviderStatus.synced
        else ProviderStatus.connected
  ]

  unfoldable pub refresh_status : Provider lib → Provider lib × List Effect
  unfolding compute_status same_status
  refresh_status p =
      let next = compute_status p in
      if same_status next p.status
      then (p, [])
      else (record p { status = next }, notify p.listeners next)

  -- One call after another.
  infixl 5 ◌then◌
  unfoldable pub ◌then◌ :
      Provider lib × List Effect
      → (Provider lib → Provider lib × List Effect)
      → Provider lib × List Effect
  (p, out) then f = let (q, later) = f p in (q, out ++ later)
