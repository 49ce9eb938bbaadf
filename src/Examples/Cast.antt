-- ===== src/Examples/Cast.antt =====
-- One client of each script of examples/actioncable-demo/frontend, on small packages.
use y_ruby.Base.{
  ℕ, suc, ◌≤◌, true, false, Option, none, some, List, [], ◌∷◌, ◌++◌, Bytes, length, ◌≡◌, arith, ◌<◌,
  ap, zero,
}
use y_ruby.Base64.{to_base64}
use y_ruby.Number.{undefined, text}
use y_ruby.Examples.Toy.{toy}
use y_ruby.Scripts.{Documents, Arrival, Member, untyped, document_channel}
use y_ruby.Scripts.Texts.{codes}
use y_ruby.Scripts.Stress
use y_ruby.Scripts.ReliableClient
use y_ruby.Scripts.Cast.{Cast}
use y_ruby.Scripts.Loops.{ReadLaws}
use y_ruby.Examples.Toy.{behind}

-- Fragments of one paragraph each: an element is its texts, and the document's updates are the texts.
abbrev pub toy_documents : Documents toy
toy_documents = record {
  Element = Bytes;
  new_element = λ tag. [];
  insert_text = λ e i t. t ++ e;
  fragment_length = λ d. length d;
  insert_element = λ d i e. d ++ e ∷ [];
  transact = λ d f. record { doc = f d; events = (5 ∷ []) ∷ []; threw = false };
  to_string = λ d. codes "<paragraph>a</paragraph>";
}

abbrev pub toy_member : {Extra : Type 0} → Extra → Member toy Extra
toy_member extra = record {
  doc = (10 ∷ []) ∷ [];
  identifier = document_channel (codes "demo");
  is_open = true;
  subscribed = true;
  posts = [];
  extra = extra;
}

abbrev pub toy_stress : Stress.Client toy
toy_stress = toy_member (record {
  room = codes "r";
  name = codes "c1";
  awareness = ([], none);
  closed = false;
  reconnected = false;
  sockets = 1;
  messages_sent = 0;
  messages_received = 0;
})

-- Two frames wait for their acknowledgements.
abbrev pub toy_reliable : ReliableClient.Client toy
toy_reliable = toy_member (record {
  name = codes "A";
  next_id = 3;
  pending = (1, 0 ∷ 2 ∷ 7 ∷ []) ∷ (2, 0 ∷ 2 ∷ 8 ∷ []) ∷ [];
  acked = [];
  blackhole = false;
  dropped = 0;
  timing = true;
})

abbrev pub toy_cast : Cast toy
toy_cast = record {
  audit = toy_member tt;
  chaos = toy_member tt;
  crash_recovery = toy_member (record { synced = false });
  audit_scenarios = toy_member (record { synced = false; listening = false });
  multiprocess = toy_member (record { port = 3777; awareness = ([], none); synced = false });
  end_to_end = toy_member (record { name = codes "a"; awareness = ([], none); closing = 0 });
  stress = toy_stress;
  reliable = toy_reliable;
  guarantee = toy_member tt;
  concurrent = toy_member (record { index = 1 });
  loadtest = toy_member (record {
    room = codes "r";
    probe = false;
    lat = λ before after. none;
    now = 0;
    metrics = record { sent = 0; recv = 0; edits = 0; errors = 0; latencies = [] };
    ping_sent = [];
  });
  probe =
      toy_member (record { name = codes "A"; confirmed = true; echoed = 0; local_updates = [] });
}

-- What the front of a reading leaves.
abbrev left_of : {A : Type 0} → Option (A × Bytes) → Bytes
left_of none = []
left_of (some (a, rest)) = rest

behind-le : (n : ℕ) (bs : Bytes) → length (behind n bs) ≤ length bs
behind-le zero bs = omega arith
behind-le (suc n) [] = omega arith
behind-le (suc n) (b ∷ bs) = omega (arith, behind-le n bs)

toy_uint_shrinks :
    (bs rest : Bytes) (n : ℕ) → toy.read_var_uint bs ≡ some (n, rest) → length rest < length bs
toy_uint_shrinks [] rest n e = absurd (cc)
toy_uint_shrinks (b ∷ bs) rest n e = omega (arith, ap (λ o. length (left_of o)) e)

toy_block_shrinks :
    (bs block rest : Bytes)
    → toy.read_var_uint8_array bs ≡ some (block, rest)
    → length rest ≤ length bs
toy_block_shrinks [] block rest e = absurd (cc)
toy_block_shrinks (b ∷ bs) block rest e =
    omega (arith, ap (λ o. length (left_of o)) e, behind-le b bs)

toy_sync_shrinks :
    (bs : Bytes) (d : List Bytes)
    → let r = toy.read_sync_message bs d in r.applied.threw ≡ false → length r.rest ≤ length bs
toy_sync_shrinks [] d h = omega arith
toy_sync_shrinks (zero ∷ bs) d h = omega arith
toy_sync_shrinks (suc zero ∷ bs) d h = omega arith
toy_sync_shrinks (suc (suc zero) ∷ bs) d h = omega arith
toy_sync_shrinks (suc (suc (suc n)) ∷ bs) d h = omega arith

pub toy_read : ReadLaws toy
toy_read = record {
  uint_shrinks = toy_uint_shrinks;
  block_shrinks = toy_block_shrinks;
  sync_shrinks = toy_sync_shrinks;
}

-- An unknown message type, behind an update of presence.
abbrev pub odd_message : Arrival
odd_message = record {
  kind = untyped;
  ack = undefined;
  update = text (to_base64 (1 ∷ 1 ∷ 9 ∷ 99 ∷ []));
}
