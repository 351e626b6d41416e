-- ===== src/Traffic/Aggregator/Tests.antt =====
-- Probes of one edge, and two replicas that try one cell.
use geocoder_fwd.Prelude.{◌≡◌, refl, true, false, none, some, List, [], ◌∷◌, arith, Bool}
use geocoder_fwd.Traffic.Aggregator.{
  Store, update_edge, ewma, publish_edge, Cell, Schedule, schedule_window, try_cell,
}
use geocoder_fwd.Traffic.Aggregator.Folds.{Steps, steps-IsSound, IsSound}
use geocoder_fwd.Traffic.Aggregator.Calls.{IsCall, update_edge-IsCall}
use geocoder_fwd.Traffic.Aggregator.Windows.{try_cells, IsOnce, try_cells-IsOnce}

abbrev no_edges : Store
no_edges = record { edges = λ g. record { kph = none; n = 0; ts = 0 }; index = λ g. none }

no_edges-IsSound : IsSound 250 2 (no_edges, [])
no_edges-IsSound = ((λ g. (tt, tt)), tt)

abbrev after_probe : Store
after_probe = update_edge 250 2 7 50000000 1000 60 no_edges

update_edge-IsCall_example :
    Steps 250 2 (no_edges, []) (after_probe, [])
    × IsCall 250 2 7 50000000 1000 60 no_edges after_probe
update_edge-IsCall_example = update_edge-IsCall 250 2 7 50000000 1000 60 no_edges

steps-IsSound_example : IsSound 250 2 (after_probe, [])
steps-IsSound_example =
    steps-IsSound 250 2 (no_edges, []) (after_probe, [])
      (update_edge-IsCall 250 2 7 50000000 1000 60 no_edges).0 no_edges-IsSound

-- A quarter of the way from 50 to 70 km/h, in the index after the second sample.
abbrev after_two : Store
after_two = update_edge 250 2 7 70000000 1000 61 after_probe

second_sample : ((after_two.edges 7).kph ≡ some 5500) × (after_two.index 7 ≡ some 61)
unfolding update_edge ewma publish_edge
second_sample = (refl, refl)

abbrev nothing : Schedule
nothing = record { keys = []; queue = [] }

abbrev tries : List (Bool × Cell)
tries = (true, (3, 9)) ∷ (true, (3, 9)) ∷ (false, (4, 9)) ∷ (true, (4, 9)) ∷ []

try_cells-IsOnce_example : IsOnce (3, 9) (try_cells tries nothing)
try_cells-IsOnce_example = try_cells-IsOnce (3, 9) tries nothing (omega arith, omega arith)

-- The message that fails is lost: no replica enqueues the cell again in its window.
lost_message : (try_cells tries nothing).queue ≡ (3, 9) ∷ []
unfolding try_cells try_cell
lost_message = refl

one_replica : (schedule_window (λ c. true) 9 0 2 nothing).0 ≡ some 2
unfolding schedule_window try_cell
one_replica = refl
