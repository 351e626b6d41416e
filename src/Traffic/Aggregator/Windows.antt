-- ===== src/Traffic/Aggregator/Windows.antt =====
-- services/traffic_aggregator.py: the replicas' attempts at the cells of a window, in any order.
use geocoder_fwd.Prelude.{
  ◌≤◌, ◌≡◌, refl, sym, ap, ◌∙◌, Bool, true, false, List, [], ◌∷◌, any, count_where, arith,
  Bool-cases, inl, inr,
}
use geocoder_fwd.Traffic.Aggregator.{Cell, Schedule, cell_eq, try_cell}

-- Attempts of all replicas, in the order in which Redis serves them, each with whether the message of
-- its winner is published.
unfoldable pub try_cells : List (Bool × Cell) → Schedule → Schedule
try_cells [] s = s
try_cells ((publishes, cell) ∷ tries) s = try_cells tries (try_cell publishes cell s)

-- No cell was enqueued without its key, and none twice.
abbrev pub IsOnce : Cell → Schedule → Type 0
IsOnce cell s =
    (count_where (cell_eq cell) s.queue ≤ count_where (cell_eq cell) s.keys)
    × (count_where (cell_eq cell) s.keys ≤ 1)

no_key :
    (cell : Cell) (keys : List Cell)
    → any (cell_eq cell) keys ≡ false
    → count_where (cell_eq cell) keys ≡ 0
no_key cell [] h = refl
no_key cell (k ∷ keys) h = elim (Bool-cases (cell_eq cell k)) [
  | inl e ↦ let no : true ≡ false = rw e at h in cc
  | inr e ↦ rw e (omega (arith, no_key cell keys (rw e at h)))
]

same_cell : (a b : Cell) → cell_eq a b ≡ true → a ≡ b
same_cell (a, v) (b, w) h =
    let first : a ≡ b = ground (arith, h) in let second : v ≡ w = ground (arith, h) in cc

-- A key that was free is counted once.
new_key :
    (cell other : Cell) (keys : List Cell)
    → any (cell_eq other) keys ≡ false
    → count_where (cell_eq cell) keys ≤ 1
    → count_where (cell_eq cell) (other ∷ keys) ≤ 1
new_key cell other keys free once = elim (Bool-cases (cell_eq cell other)) [
  | inl e ↦
      let same : other ≡ cell = sym (same_cell cell other e) in
      let unused : any (cell_eq cell) keys ≡ false =
        ap (λ c. any (cell_eq c) keys) (sym same) ∙ free in
      rw e (omega (arith, no_key cell keys unused))
  | inr e ↦ rw e (omega (arith, once))
]

try_cell-IsOnce :
    (cell : Cell) (publishes : Bool) (other : Cell) (s : Schedule)
    → IsOnce cell s
    → IsOnce cell (try_cell publishes other s)
unfolding try_cell
try_cell-IsOnce cell publishes other s (le, once) = elim (Bool-cases (any (cell_eq other) s.keys)) [
  | inl e ↦ rw e (le, once)
  | inr e ↦ elim (Bool-cases publishes) [
    | inl f ↦ rw (e, f) (omega (arith, le), new_key cell other s.keys e once)
    | inr f ↦ rw (e, f) (omega (arith, le), new_key cell other s.keys e once)
  ]
]

-- Whatever replicas try whatever cells in whatever order, and whichever messages fail, each cell of a
-- window is enqueued at most once, if it was so before.
pub try_cells-IsOnce :
    (cell : Cell) (tries : List (Bool × Cell)) (s : Schedule)
    → IsOnce cell s
    → IsOnce cell (try_cells tries s)
unfolding try_cells
try_cells-IsOnce cell [] s h = h
try_cells-IsOnce cell ((publishes, other) ∷ tries) s h =
    try_cells-IsOnce cell tries (try_cell publishes other s)
      (try_cell-IsOnce cell publishes other s h)
