-- ===== src/Consumer/Commands.antt =====
-- The commands that rawConsumer of examples/actioncable-demo/frontend/reliable_provider.mjs sends.
use mathlib.Core.Path.{ap₂}
use mathlib.Core.List.{map-append}
use y_ruby.Base.{
  ℕ, Bool, true, false, List, [], ◌∷◌, ◌++◌, map, ◌≡◌, ◌≢◌, refl, ap, sym, ◌∙◌, append_assoc,
  append-nil, arith, if◌then◌else◌,
}
use y_ruby.Consumer.{
  raw_run, RawCall, RawSubscription, RawEffect, raw_step, RawConsumer, creates, transmits, posts,
  subscribe, raw_send, arrives, welcome, message, create, subscribe_to, unsubscribes,
  unsubscribe_from, on_message, socket_is, confirm_subscription, blackholes, calls_connected,
  delivers, calls_received, other_message,
}

-- The identifiers of the subscribe commands, in order.
abbrev pub subscribed : List RawEffect → List (List ℕ)
subscribed [] = []
subscribed (posts (subscribe_to identifier) ∷ out) = identifier ∷ subscribed out
subscribed (posts (unsubscribe_from identifier) ∷ out) = subscribed out
subscribed (posts (message identifier body) ∷ out) = subscribed out
subscribed (calls_connected name ∷ out) = subscribed out
subscribed (calls_received name body ∷ out) = subscribed out

subscribed-append :
    (xs ys : List RawEffect) → subscribed (xs ++ ys) ≡ subscribed xs ++ subscribed ys
subscribed-append [] ys = refl
subscribed-append (posts (subscribe_to identifier) ∷ xs) ys = rw (subscribed-append xs ys)
subscribed-append (posts (unsubscribe_from identifier) ∷ xs) ys = subscribed-append xs ys
subscribed-append (posts (message identifier body) ∷ xs) ys = subscribed-append xs ys
subscribed-append (calls_connected name ∷ xs) ys = subscribed-append xs ys
subscribed-append (calls_received name body ∷ xs) ys = subscribed-append xs ys

abbrev pub identifiers : List RawSubscription → List (List ℕ)
identifiers = map λ s. s.identifier

subscribed-all : (ss : List RawSubscription) → subscribed (map subscribe ss) ≡ identifiers ss
subscribed-all [] = refl
subscribed-all (s ∷ ss) = rw (subscribed-all ss)

-- No `welcome` arrives, and the socket stays as it is.
abbrev pub Settled : List RawCall → Type 0
Settled [] = Unit {0}
Settled (x ∷ xs) = (x ≢ arrives welcome) × ((b : Bool) → x ≢ socket_is b) × Settled xs

-- The subscriptions that a history creates.
abbrev pub created : List RawCall → List RawSubscription
created [] = []
created (creates sub ∷ xs) = sub ∷ created xs
created (transmits identifier body ∷ xs) = created xs
created (unsubscribes identifier ∷ xs) = created xs
created (arrives m ∷ xs) = created xs
created (socket_is b ∷ xs) = created xs
created (blackholes b ∷ xs) = created xs

step-created :
    (c : RawConsumer) (x : RawCall)
    → Settled (x ∷ [])
    → c.open_socket ≡ true
    → let d = (raw_step c x).0 in
      (d.subs ≡ c.subs ++ created (x ∷ []))
      × (d.welcomed ≡ c.welcomed)
      × (d.open_socket ≡ true)
      × (subscribed (raw_step c x).1 ≡ (if c.welcomed then identifiers (created (x ∷ [])) else []))
unfolding raw_step raw_send create on_message
step-created c (creates sub) h o = ground arith
step-created c (transmits identifier body) h o = ground (arith, append-nil c.subs)
step-created c (unsubscribes identifier) h o = ground (arith, append-nil c.subs)
step-created c (arrives welcome) h o = absurd (h.0 refl)
step-created c (arrives other_message) h o = ground (arith, append-nil c.subs)
step-created c (arrives (confirm_subscription identifier)) h o = ground (arith, append-nil c.subs)
step-created c (arrives (delivers identifier body)) h o = ground (arith, append-nil c.subs)
step-created c (socket_is b) h o = absurd (h.1 b refl)
step-created c (blackholes b) h o = ground (arith, append-nil c.subs)

created-cons : (x : RawCall) (xs : List RawCall) → created (x ∷ xs) ≡ created (x ∷ []) ++ created xs
created-cons (creates sub) xs = refl
created-cons (transmits identifier body) xs = refl
created-cons (unsubscribes identifier) xs = refl
created-cons (arrives m) xs = refl
created-cons (socket_is b) xs = refl
created-cons (blackholes b) xs = refl

commands-cons :
    (b : Bool) (x : RawCall) (xs : List RawCall)
    → (if b then identifiers (created (x ∷ [])) else [])
        ++ (if b then identifiers (created xs) else [])
      ≡ (if b then identifiers (created (x ∷ xs)) else [])
commands-cons true x xs =
    sym (ap identifiers (created-cons x xs) ∙ map-append _ (created (x ∷ [])) (created xs))
commands-cons false x xs = refl

created-append : (xs ys : List RawCall) → created (xs ++ ys) ≡ created xs ++ created ys
created-append [] ys = refl
created-append (x ∷ xs) ys =
    created-cons x (xs ++ ys)
    ∙ ap (λ l. created (x ∷ []) ++ l) (created-append xs ys)
    ∙ sym (append_assoc (created (x ∷ [])) (created xs) (created ys))
    ∙ ap (λ l. l ++ created ys) (sym (created-cons x xs))

-- While it is settled and the socket is open, a consumer that was welcomed subscribes what is created,
-- and one that was not subscribes nothing.
record Settles (c : RawConsumer) (xs : List RawCall) : Type 0 where
  all_kept : (raw_run c xs).0.subs ≡ c.subs ++ created xs
  welcome_kept : (raw_run c xs).0.welcomed ≡ c.welcomed
  open_kept : (raw_run c xs).0.open_socket ≡ true
  commands : subscribed (raw_run c xs).1 ≡ (if c.welcomed then identifiers (created xs) else [])

run-Settles :
    (c : RawConsumer) (xs : List RawCall) → Settled xs → c.open_socket ≡ true → Settles c xs
unfolding raw_run
run-Settles c [] h o = record {
  all_kept = sym (append-nil c.subs);
  welcome_kept = refl;
  open_kept = o;
  commands = ground arith;
}
run-Settles c (x ∷ xs) h o =
    let (d, out) = raw_step c x in
    let (one_subs, one_welcome, one_open, one_commands) = step-created c x (h.0, h.1, tt) o in
    let rest = run-Settles d xs h.2 one_open in
    record {
      all_kept =
          rest.all_kept
          ∙ ap (λ l. l ++ created xs) one_subs
          ∙ append_assoc c.subs (created (x ∷ [])) (created xs)
          ∙ ap (λ l. c.subs ++ l) (sym (created-cons x xs));
      welcome_kept = rest.welcome_kept ∙ one_welcome;
      open_kept = rest.open_kept;
      commands =
          subscribed-append out (raw_run d xs).1
          ∙ ap₂ ◌++◌ one_commands (
              rest.commands
              ∙ ap (λ (b : Bool). if b then identifiers (created xs) else []) one_welcome)
          ∙ commands-cons c.welcomed x xs;
    }

raw_run-append :
    (c : RawConsumer) (xs ys : List RawCall)
    → let (d, out) = raw_run c xs in
      raw_run c (xs ++ ys) ≡ ((raw_run d ys).0, out ++ (raw_run d ys).1)
unfolding raw_run
raw_run-append c [] ys = refl
raw_run-append c (x ∷ xs) ys =
    let (d, out) = raw_step c x in
    let (e, mid) = raw_run d xs in
    ap (λ r. (r.0, out ++ r.1)) (raw_run-append d xs ys)
    ∙ ap (λ l. ((raw_run e ys).0, l)) (sym (append_assoc out mid (raw_run e ys).1))

welcomed-subs :
    (d : RawConsumer) (late : List RawCall)
    → Settled late
    → d.open_socket ≡ true
    → let r = raw_run d (arrives welcome ∷ late) in
      (r.0.subs ≡ d.subs ++ created late) × (subscribed r.1 ≡ identifiers (d.subs ++ created late))
unfolding raw_run raw_step on_message
welcomed-subs d late k o =
    let rest = run-Settles (record d { welcomed = true }) late k o in
    (
      rest.all_kept,
      subscribed-append (map subscribe d.subs) _
          ∙ ap₂ ◌++◌ (subscribed-all d.subs) rest.commands
          ∙ sym (map-append _ d.subs (created late)),
    )

-- However the calls of `create` fall around the one `welcome` of the socket, each subscription that a
-- new consumer has created is subscribed exactly once, in the order of creation. The socket is open
-- throughout.
pub each_subscribes_once :
    (c : RawConsumer) (early late : List RawCall)
    → c.welcomed ≡ false
    → c.subs ≡ []
    → c.open_socket ≡ true
    → Settled early
    → Settled late
    → let r = raw_run c (early ++ arrives welcome ∷ late) in
      (subscribed r.1 ≡ identifiers r.0.subs) × (r.0.subs ≡ created (early ++ late))
each_subscribes_once c early late w e o h k =
    let before = run-Settles c early h o in
    let d = (raw_run c early).0 in
    let after = welcomed-subs d late k before.open_kept in
    let whole = raw_run-append c early (arrives welcome ∷ late) in
    let quiet =
      before.commands ∙ ap (λ (b : Bool). if b then identifiers (created early) else []) w in
    let subs = ap (λ r. r.0.subs) whole ∙ after.0 in
    (
      ap (λ r. subscribed r.1) whole
          ∙ subscribed-append (raw_run c early).1 _
          ∙ ap₂ ◌++◌ quiet after.1
          ∙ ap identifiers (sym subs),
      subs
          ∙ ap (λ l. l ++ created late) (before.all_kept ∙ ap (λ l. l ++ created early) e)
          ∙ sym (created-append early late),
    )
