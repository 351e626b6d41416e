-- ===== src/Traffic/Aggregator.antt =====
-- services/traffic_aggregator.py: the fold of one observation into the speed of an edge, and the cells
-- that the replicas enqueue in a window. A speed that arrives is a natural number of millionths of a
-- km/h, one that is stored of hundredths; the smoothing factor counts in thousandths. Decimal
-- arithmetic stands in place of that of floats.
pub mod Folds
pub mod Calls
pub mod Windows
mod Tests
use geocoder_fwd.Prelude.{
  ℕ, zero, suc, ◌+◌, ◌-◌, ◌*◌, ◌/◌, ◌≤◌, ◌<◌, min, Bool, true, false, not, ◌&&◌, ◌||◌, Option, none,
  some, List, [], ◌∷◌, ◌++◌, ◌==◌, leb, ltb, if◌then◌else◌, any,
}

-- The hash `tf:e:{gid}`, without its time to live.
pub record Edge : Type 0 where
  pub kph : Option ℕ
  pub n : ℕ
  pub ts : ℕ

-- The hashes, where one that is missing has no speed and no samples, and the scores of `tf:idx`.
pub record Store : Type 0 where
  pub edges : ℕ → Edge
  pub index : ℕ → Option ℕ

abbrev pub blend : ℕ → ℕ → Option ℕ → ℕ
blend alpha kph none = (kph + 5000) / 10000
blend alpha kph (some prev) = ((1000 - alpha) * (prev * 10000) + alpha * kph + 5000000) / 10000000

abbrev pub folded : ℕ → ℕ → ℕ → Edge → Edge
folded alpha kph now e = record { kph = some (blend alpha kph e.kph); n = suc e.n; ts = now }

-- `_EWMA_LUA`: one step of the server, which answers with the number of samples.
unfoldable pub ewma : ℕ → ℕ → ℕ → ℕ → Store → ℕ × Store
ewma gid alpha kph now store =
    let e : Edge = folded alpha kph now (store.edges gid) in
    (e.n, record store { edges = λ g. if g == gid then e else store.edges g })

-- `ZADD tf:idx`
unfoldable pub publish_edge : ℕ → ℕ → Store → Store
publish_edge gid now store = record store {
  index = λ g. if g == gid then some now else store.index g;
}

abbrev pub plausible : ℕ → Bool
plausible kph = ltb 0 kph && leb kph 300000000

-- The settings: `TRAFFIC_EWMA_ALPHA` in thousandths and `TRAFFIC_MIN_SAMPLES`; a weight is in
-- thousandths too.
module _ (ewma_alpha min_samples : ℕ) where
  abbrev pub alpha_of : ℕ → ℕ
  alpha_of weight = min 1000 (ewma_alpha * weight / 1000)

  abbrev pub published : ℕ → ℕ → ℕ × Store → Store
  published gid now (n, store) = if leb min_samples n then publish_edge gid now store else store

  unfoldable pub update_edge : ℕ → ℕ → ℕ → ℕ → Store → Store
  update_edge gid kph weight now store =
      if not (plausible kph)
      then store
      else published gid now (ewma gid (alpha_of weight) kph now store)

  -- The last step of `_process_batch`: every edge of the match, in order.
  unfoldable pub update_all : List (ℕ × ℕ) → ℕ → Store → Store
  unfolding update_edge
  update_all [] now store = store
  update_all ((gid, kph) ∷ edge_kph) now store =
      update_all edge_kph now (update_edge gid kph 1000 now store)

-- A cell of a window, and what Redis and the stream hold: the keys `tfc:sched:{cell}:{window}`, and the
-- messages that were published.
abbrev pub Cell : Type 0
Cell = ℕ × ℕ

pub record Schedule : Type 0 where
  pub keys : List Cell
  pub queue : List Cell

abbrev pub cell_eq : Cell → Cell → Bool
cell_eq a b = (a.0 == b.0) && (a.1 == b.1)

-- SET NX, and then the message; where `publishes` is false, the call raises an error.
unfoldable pub try_cell : Bool → Cell → Schedule → Schedule
try_cell publishes cell s =
    if any (cell_eq cell) s.keys
    then s
    else if publishes
    then record { keys = cell ∷ s.keys; queue = cell ∷ s.queue }
    else record s { keys = cell ∷ s.keys }

-- `_schedule_window` of one replica, over the cells from one on: an error ends it. The number of cells
-- that it enqueued, `none` where it raised.
unfoldable pub schedule_window : (Cell → Bool) → ℕ → ℕ → ℕ → Schedule → Option ℕ × Schedule
unfolding try_cell
schedule_window publishes window cell zero s = (some 0, s)
schedule_window publishes window cell (suc n) s =
    let here : Cell = (cell, window) in
    let lost = schedule_window publishes window (suc cell) n s in
    let won = schedule_window publishes window (suc cell) n (try_cell true here s) in
    if any (cell_eq here) s.keys
    then lost
    else if publishes here
    then (counted won.0, won.1)
    else (none, try_cell false here s)
  where
    counted : Option ℕ → Option ℕ
    counted none = none
    counted (some enqueued) = some (suc enqueued)

-- The cell of a message is stale two intervals after the start of its window.
unfoldable pub is_stale : ℕ → ℕ → ℕ → Bool
is_stale now window interval = ltb (2 * interval) (now - window * interval)
