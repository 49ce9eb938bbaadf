-- ===== src/Examples/Histories.antt =====
-- Histories of the clients of the scripts in examples/actioncable-demo/frontend, and what their figures come to.
use y_ruby.Base.{
  ℕ, ◌+◌, ◌≤◌, true, false, List, [], ◌∷◌, ◌++◌, length, ◌≡◌, refl, arith, All, ◌⊎◌, ◌*◌, ◌/◌, map,
}
use y_ruby.Number.{undefined, number, integer}
use y_ruby.Framing.{frame_update}
use y_ruby.Examples.Toy.{toy}
use y_ruby.Examples.Cast.{toy_documents, toy_stress, toy_reliable}
use y_ruby.Scripts.{untyped}
use mathlib.Core.List.{Memᴰ}
use y_ruby.Scripts.ServerRead
use y_ruby.Consumer.Lossy
use y_ruby.Consumer.Lossy.{LossyConsumer, LossyCall}
use y_ruby.Scripts.Stress.Counters.{StressCall, Tallies, stress_run, stress_run-Tallies}
use y_ruby.Scripts.Texts.{codes}
use y_ruby.Scripts.Stress
use y_ruby.Scripts.ReliableClient
use y_ruby.Scripts.Loadtest
use y_ruby.Scripts.ReliableClient.Ledger.{IsSafe, ledger}
use y_ruby.Scripts.Stress.Rounds.{closings, reconnections, storm_reconnects}
use y_ruby.Scripts.ReliableClient.History.{ReliableCall, reliable_run}
use y_ruby.Scripts.ReliableClient.Resend.{entry_post}
use y_ruby.Scripts.ReliableClient.Drained.{acknowledges, retransmit_drains}
use y_ruby.Scripts.ReliableClient.Kept.{reliable_run-IsSafe}
use y_ruby.Scripts.Stress.Storm.{storm_steps}
use y_ruby.Scripts.ServerRead.Tags.{markup, strip_tags-markup}
use y_ruby.Scripts.Loadtest.Percentile.{pct_bounds}
use y_ruby.Consumer.Messages.{messages}
use y_ruby.Consumer.Lossy.Losses.{run-sends}

-- An edit, an acknowledgement of an older number, a timer tick in an outage.
abbrev reliable_history : List ReliableCall
reliable_history =
    ReliableCall.updates (9 ∷ [])
    ∷ ReliableCall.arrives
        (record { kind = untyped; ack = number (integer false 1); update = undefined })
    ∷ ReliableCall.blackholes true
    ∷ ReliableCall.ticks
    ∷ []

reliable_run-IsSafe_example :
    All
      (IsSafe (ledger (reliable_run toy_reliable reliable_history).extra))
      ((3, frame_update toy (9 ∷ [])) ∷ [])
reliable_run-IsSafe_example =
    reliable_run-IsSafe toy_reliable reliable_history (omega arith) (omega arith)

abbrev toy_shared : Stress.SharedText toy
toy_shared = record {
  paragraph_length = λ d. 1;
  add_text = λ d. d;
  text_length = λ d. length d;
  insert_in_text = λ d offset t. d ++ t ∷ [];
}

stress_run-Tallies_example :
    let xs =
      StressCall.edits 0 ∷ StressCall.shows 0 ∷ StressCall.closes ∷ StressCall.edits 1 ∷ [] in
    Tallies 0 (stress_run toy_documents toy_shared (λ n. 0) (λ name round. round) toy_stress xs)
stress_run-Tallies_example =
    stress_run-Tallies toy_documents toy_shared (λ n. 0) (λ name round. round) 0 toy_stress
      (StressCall.edits 0 ∷ StressCall.shows 0 ∷ StressCall.closes ∷ StressCall.edits 1 ∷ []) refl

storm_reconnects_example :
    (closings (storm_steps false 30) ≡ 0)
    × (reconnections (storm_steps false 30) ≡ 1)
    × (closings (storm_steps true 30) ≡ 1)
    × (reconnections (storm_steps true 30) ≡ 1)
storm_reconnects_example = storm_reconnects 30

strip_tags-markup_example :
    (ServerRead.strip_tags (markup (codes "one" ∷ codes "two" ∷ [])) ≡ codes "onetwo")
    × (ServerRead.visible_chars (markup (codes "one" ∷ codes "two" ∷ [])) ≡ 6)
strip_tags-markup_example = strip_tags-markup (codes "one" ∷ codes "two" ∷ []) (refl, (refl, tt))

-- The median and the greatest of three samples.
abbrev samples : List ℕ
samples = 30 ∷ 10 ∷ 20 ∷ []

abbrev place : ℕ → ℕ → ℕ
place p n = p * n / 100

pct_bounds_example :
    ((samples ≡ []) × (Loadtest.pct place samples 50 ≡ 0)
      ⊎ Memᴰ (Loadtest.pct place samples 50) samples)
    × (Loadtest.pct place samples 50 ≤ Loadtest.pct place samples 100)
pct_bounds_example = pct_bounds place samples 50 100 (omega arith)

-- One message arrives, one is lost.
abbrev lossy : LossyConsumer
lossy = record {
  subs = [];
  welcomed = true;
  is_open = true;
  blackhole = false;
  dropped_out = 0;
  dropped_ack = 0;
  sent = 0;
}

abbrev lossy_history : List LossyCall
lossy_history =
    LossyCall.transmits (65 ∷ []) (1 ∷ []) false ∷ LossyCall.transmits (65 ∷ []) (2 ∷ []) true ∷ []

run-sends_example :
    ((Lossy.run lossy lossy_history).0.sent + (Lossy.run lossy lossy_history).0.dropped_out ≡ 2)
    × ((Lossy.run lossy lossy_history).0.sent
        ≡ 0 + length (messages (Lossy.run lossy lossy_history).1))
run-sends_example = run-sends lossy lossy_history

retransmit_drains_example :
    ((ReliableClient.retransmit toy_reliable).posts
      ≡ map (entry_post toy_reliable.identifier) toy_reliable.extra.pending)
    × ((reliable_run
          (ReliableClient.retransmit toy_reliable)
          (map acknowledges (2 ∷ 9 ∷ 2 ∷ 1 ∷ []))).extra.pending
        ≡ [])
retransmit_drains_example =
    retransmit_drains toy_reliable (2 ∷ 9 ∷ 2 ∷ 1 ∷ []) refl ((refl, tt), (tt, tt))
      (refl, (refl, tt))
