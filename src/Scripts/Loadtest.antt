-- ===== src/Scripts/Loadtest.antt =====
-- The client of examples/actioncable-demo/frontend/loadtest.mjs, with the script's `metrics` and `pingSent`,
-- and its percentile.
pub mod Percentile
pub mod Observer
use y_ruby.Scripts.{
  welcomes, confirms, Documents, Arrival, Member, carry, send_update, new_member, Ending,
  append_paragraph, Turn, changed, read_type, join, finished, read_sync, greet, is_truthy,
  skip_or_break, from_value, receive_all,
}
use y_ruby.Base.{
  List, ℕ, Bool, ◌∷◌, Option, if◌then◌else◌, Bytes, suc, ◌&&◌, length, leb, none, ◌-◌, some, ◌==◌,
  false, ◌++◌, ◌*◌, [], ◌/◌, zero, true,
}
use y_ruby.Scripts.Texts.{Text, same_text}
use y_ruby.External.{Packages, Applied}
use y_ruby.Framing.{sync_message}

-- `metrics`. Times are whole units of `performance.now()`.
pub record Metrics : Type 0 where
  pub sent : ℕ
  pub recv : ℕ
  pub edits : ℕ
  pub errors : ℕ
  pub latencies : List ℕ

module _ (lib : Packages) where
  -- The client's own fields, the script's two variables, which are handed from call to call, and its clock.
  -- `lat` is the document's map, by what its observer sees: the `seq` after a call on the document that has
  -- changed the map.
  pub record Load : Type 0 where
    pub room : Text
    pub probe : Bool
    pub lat : lib.Doc → lib.Doc → Option ℕ
    pub metrics : Metrics
    pub ping_sent : List ((Text × ℕ) × ℕ)
    pub now : ℕ

abbrev pub Client : Packages → Type 0
Client lib = Member lib (Load lib)

abbrev pub same_key : Text × ℕ → Text × ℕ → Bool
same_key (room, seq) (room', seq') = same_text room room' && seq == seq'

-- `pingSent.get`, `pingSent.delete` and `pingSent.set`, by the parts of a key
unfoldable pub sent_at : Text × ℕ → List ((Text × ℕ) × ℕ) → Option ℕ
sent_at k [] = none
sent_at k ((k', t) ∷ entries) = if same_key k k' then some t else sent_at k entries

unfoldable pub forget : Text × ℕ → List ((Text × ℕ) × ℕ) → List ((Text × ℕ) × ℕ)
forget k [] = []
forget k ((k', t) ∷ entries) =
    if same_key k k' then forget k entries else (k', t) ∷ forget k entries

unfoldable pub put_ping : Text × ℕ → ℕ → List ((Text × ℕ) × ℕ) → List ((Text × ℕ) × ℕ)
put_ping k t [] = (k, t) ∷ []
put_ping k t ((k', t') ∷ entries) =
    if same_key k k' then (k, t) ∷ entries else (k', t') ∷ put_ping k t entries

module _ {lib : Packages} where
  -- The observer of the map, for the value that it reads.
  unfoldable pub on_lat : Client lib → ℕ → Client lib
  unfolding sent_at forget
  on_lat c seq = if c.extra.probe then c else elim (sent_at (c.extra.room, seq) c.extra.ping_sent) [
    | none ↦ c
    | some t ↦ record c {
      extra = record c.extra {
        metrics = record c.extra.metrics {
          latencies = c.extra.metrics.latencies ++ (c.extra.now - t) ∷ [];
        };
        ping_sent = forget (c.extra.room, seq) c.extra.ping_sent;
      };
    }
  ]

  -- Its call, if the document that was before is one whose map was another.
  unfoldable pub observe : lib.Doc → Client lib → Client lib
  unfolding on_lat
  observe before c = elim (c.extra.lat before c.doc) [ none ↦ c | some seq ↦ on_lat c seq ]

  unfoldable pub new :
      Text
      → Bool
      → (lib.Doc → lib.Doc → Option ℕ)
      → Metrics
      → List ((Text × ℕ) × ℕ)
      → ℕ
      → Client lib
  new room probe lat metrics ping_sent now = new_member room (record {
    room = room;
    probe = probe;
    lat = lat;
    metrics = metrics;
    ping_sent = ping_sent;
    now = now;
  })

  abbrev pub count : Client lib → (Metrics → Metrics) → Client lib
  count c f = record c { extra = record c.extra { metrics = f c.extra.metrics } }

  unfoldable pub send : Client lib → Bytes → Client lib
  send c frame =
      if c.is_open then count (carry c frame) (λ k. record k { sent = suc k.sent }) else c

  -- The "update" listener.
  unfoldable pub on_update : Client lib → Bool → Bytes → Client lib
  unfolding send
  on_update c remote update = send_update send c remote update

  unfoldable pub on_error : Client lib → Client lib
  on_error c = count c (λ k. record k { errors = suc k.errors })

  -- One round of the loop over a frame.
  unfoldable pub turn : Client lib → Bytes → Turn (Client lib)
  unfolding send on_update observe
  turn c bytes = read_type c bytes λ type rest.
      if type == sync_message
      then read_sync on_update c rest (λ d r. observe c.doc d)
      else skip_or_break c rest

  unfoldable pub on_message : Client lib → Arrival → Client lib × Ending
  unfolding send turn
  on_message c msg = elim msg.kind [
    | welcomes ↦ (join c, finished)
    | confirms ↦ (greet send c, finished)
    | _ ↦
        if is_truthy msg.update
        then from_value msg.update (count c (λ k. record k { recv = suc k.recv }))
            (receive_all turn (count c (λ k. record k { recv = suc k.recv })))
        else (c, finished)
  ]

  unfoldable pub edit : Documents lib → Client lib → Text → Client lib
  unfolding on_update observe
  edit docs c t =
      count (observe c.doc (append_paragraph on_update docs c t))
        (λ k. record k { edits = suc k.edits })

  -- `set_seq` is `this.lat.set("seq", seq)`, with the events that it fires.
  unfoldable pub ping : (lib.Doc → ℕ → Applied lib.Doc) → Client lib → ℕ → Client lib
  unfolding on_update put_ping observe
  ping set_seq c seq =
      let d = record c {
        extra = record c.extra {
          ping_sent = put_ping (c.extra.room, seq) c.extra.now c.extra.ping_sent;
        };
      } in
      observe c.doc (changed on_update d false (set_seq d.doc seq))

-- `[...arr].sort((a, b) => a - b)`, by insertion.
unfoldable pub insert : ℕ → List ℕ → List ℕ
insert x [] = x ∷ []
insert x (y ∷ ys) = if leb x y then x ∷ y ∷ ys else y ∷ insert x ys

unfoldable pub sorted : List ℕ → List ℕ
unfolding insert
sorted [] = []
sorted (x ∷ xs) = insert x (sorted xs)

-- An element by its index; zero stands for undefined.
unfoldable pub at_index : List ℕ → ℕ → ℕ
at_index [] i = 0
at_index (x ∷ xs) zero = x
at_index (x ∷ xs) (suc i) = at_index xs i

abbrev lesser : ℕ → ℕ → ℕ
lesser a b = if leb a b then a else b

-- `pct`. `position` is `Math.floor((p / 100) * n)` in floating point, for a `p` that is not negative.
unfoldable pub pct : (ℕ → ℕ → ℕ) → List ℕ → ℕ → ℕ
unfolding sorted at_index
pct position [] p = 0
pct position (x ∷ xs) p =
    let s = sorted (x ∷ xs) in at_index s (lesser (length s - 1) (position p (length s)))
