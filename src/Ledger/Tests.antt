-- ===== src/Ledger/Tests.antt =====
-- shared/processed.py: the results at a few workers and files.
use geocoder_fwd.Prelude.{◌≤◌, ◌≡◌, refl, true, List, [], ◌∷◌, String, arith}
use geocoder_fwd.Ledger.Rows.{pg_claim, pg_mark_done}
use geocoder_fwd.Ledger.Rows.Claims.{
  Op, claim_op, done_op, wins, step, winners, winners_le_one, winners-pg_mark_done,
}
use geocoder_fwd.Ledger.Files.{Os, World, pg, record_processed}

-- Two replicas claim one file, and one of them another file.
abbrev race : List Op
race =
    claim_op 100 "a" "/data" "x.csv"
    ∷ claim_op 101 "b" "/data" "x.csv"
    ∷ done_op 150 "a" "/data" "x.csv"
    ∷ claim_op 160 "b" "/data" "y.csv"
    ∷ []

one_winner : winners 21600 "/data" "x.csv" race [] ≡ 1
unfolding winners wins step pg_claim pg_mark_done
one_winner = refl

winners_le_one_example : winners 21600 "/data" "x.csv" race [] ≤ 1
winners_le_one_example = winners_le_one 21600 100 "/data" "x.csv" race [] (
  (omega arith, omega arith),
  ((omega arith, omega arith), ((omega arith, omega arith), ((omega arith, omega arith), tt))),
)

winners-pg_mark_done_example :
    winners 21600 "/data" "x.csv" race (pg_mark_done 90 "c" "/data" "x.csv" []) ≡ 0
winners-pg_mark_done_example = winners-pg_mark_done 21600 90 "c" "/data" "x.csv" race []

abbrev plain : Os
plain = record {
  source = λ dir. dir;
  key = λ path dir. path;
  strip = λ line. line;
  legacy = λ path. "marker";
  can_append = λ dir. true;
  can_remove = λ path. true;
  worker_id = "a";
}

abbrev new_world : World
new_world = record { rows = []; pg_ready = true; ledgers = []; markers = [] }

abbrev recorded : List String × World
recorded = record_processed plain pg 200 "/data" "x.csv" [] new_world
