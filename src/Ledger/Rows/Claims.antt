-- ===== src/Ledger/Rows/Claims.antt =====
-- shared/processed.py: which replica wins a claim, over any sequence of statements by any workers.
use geocoder_fwd.Prelude.{
  ℕ, ◌+◌, ◌≤◌, ◌≡◌, ◌⊎◌, refl, Bool, true, false, ◌&&◌, Option, none, some, List, [], ◌∷◌, String,
  str_eq, eq_iff, All, All-map, max, arith, if◌then◌else◌, Bool-cases, inl, inr,
}
use geocoder_fwd.Ledger.Rows.{
  Row, is_row, find_row, put_row, find_row-put_row, is_open, claim_wins, pg_claim, marked,
  pg_mark_done,
}

-- A statement of a worker at a time, on the row of a source and a key.
pub data Op : Type 0 where
  claim_op : ℕ → String → String → String → Op
  done_op : ℕ → String → String → String → Op

abbrev pub time_of : Op → ℕ
time_of (claim_op now worker source key) = now
time_of (done_op now worker source key) = now

unfoldable pub step : ℕ → Op → List Row → List Row
step claim_ttl (claim_op now worker source key) rows =
    (pg_claim claim_ttl now worker source key rows).1
step claim_ttl (done_op now worker source key) rows = pg_mark_done now worker source key rows

-- Whether a statement is a claim of the key that wins.
unfoldable pub wins : ℕ → String → String → Op → List Row → Bool
wins claim_ttl source key (claim_op now worker s k) rows =
    (str_eq s source && str_eq k key) && (pg_claim claim_ttl now worker s k rows).0
wins claim_ttl source key (done_op now worker s k) rows = false

-- How many statements of a sequence are claims of the key that win.
unfoldable pub winners : ℕ → String → String → List Op → List Row → ℕ
winners claim_ttl source key [] rows = 0
winners claim_ttl source key (op ∷ ops) rows =
    (if wins claim_ttl source key op rows then 1 else 0)
    + winners claim_ttl source key ops (step claim_ttl op rows)

-- The row was completed, or claimed so lately that it is not given up at the time `until`.
abbrev pub IsHeld : ℕ → ℕ → Option Row → Type 0
IsHeld claim_ttl until none = ⊥
IsHeld claim_ttl until (some r) = (is_open r ≡ false) ⊎ (until ≤ r.claimed_at + claim_ttl)

held_refuses :
    (claim_ttl until now : ℕ) (row : Option Row)
    → now ≤ until
    → IsHeld claim_ttl until row
    → claim_wins claim_ttl now row ≡ false
unfolding claim_wins
held_refuses claim_ttl until now none h held = absurd held
held_refuses claim_ttl until now (some r) h (inl closed) = ground (arith, closed)
held_refuses claim_ttl until now (some r) h (inr recent) = ground (arith, h, recent)

claimed : ℕ → String → String → String → Row
claimed now worker s k = record {
  source = s;
  key = k;
  claimed_by = worker;
  claimed_at = now;
  processed_at = none;
}

pg_claim-won :
    (claim_ttl now : ℕ) (worker s k : String) (rows : List Row)
    → claim_wins claim_ttl now (find_row s k rows) ≡ true
    → pg_claim claim_ttl now worker s k rows ≡ (true, put_row (claimed now worker s k) rows)
unfolding pg_claim claimed
pg_claim-won claim_ttl now worker s k rows h = rw h refl

pub pg_claim-lost :
    (claim_ttl now : ℕ) (worker s k : String) (rows : List Row)
    → claim_wins claim_ttl now (find_row s k rows) ≡ false
    → pg_claim claim_ttl now worker s k rows ≡ (false, rows)
unfolding pg_claim
pg_claim-lost claim_ttl now worker s k rows h = rw h refl

marked_closed :
    (now : ℕ) (worker s k : String) (row : Option Row) → is_open (marked now worker s k row) ≡ false
unfolding is_open marked
marked_closed now worker s k none = refl
marked_closed now worker s k (some r) = refl

claimed_row :
    (now : ℕ) (worker s k source key : String)
    → is_row source key (claimed now worker s k) ≡ (str_eq s source && str_eq k key)
unfolding is_row claimed
claimed_row now worker s k source key = refl

marked_row :
    (now : ℕ) (worker s k source key : String) (row : Option Row)
    → is_row source key (marked now worker s k row) ≡ (str_eq s source && str_eq k key)
unfolding is_row marked
marked_row now worker s k source key none = refl
marked_row now worker s k source key (some r) = refl

-- The latest of the times of a sequence.
latest : List Op → ℕ
latest [] = 0
latest (op ∷ ops) = max (time_of op) (latest ops)

latest-All : (ops : List Op) → All (λ op. time_of op ≤ latest ops) ops
unfolding latest
latest-All [] = tt
latest-All (op ∷ ops) = (
  omega arith,
  All-map (λ o. time_of o ≤ latest ops) (λ o. time_of o ≤ max (time_of op) (latest ops))
      (λ o h. omega (arith, h)) ops (latest-All ops),
)

same_names : (source key : String) → (str_eq source source && str_eq key key) ≡ true
same_names source key = ground (arith, eq_iff source source, eq_iff key key)

done-IsHeld :
    (claim_ttl until now : ℕ) (worker source key : String) (rows : List Row)
    → IsHeld claim_ttl until (find_row source key (pg_mark_done now worker source key rows))
unfolding pg_mark_done
done-IsHeld claim_ttl until now worker source key rows =
    let old = find_row source key rows in
    rw (find_row-put_row source key (marked now worker source key old) rows) (
      rw (marked_row now worker source key source key old)
        (rw (same_names source key) (inl (marked_closed now worker source key old))))

module _ (claim_ttl until : ℕ) (source key : String) where
  same_file :
      (s k : String) (rows : List Row)
      → (str_eq s source && str_eq k key) ≡ true
      → find_row s k rows ≡ find_row source key rows
  same_file s k rows h =
      let at_source : s ≡ source = ground (arith, eq_iff s source, h) in
      let at_key : k ≡ key = ground (arith, eq_iff k key, h) in cc

  claimed-IsHeld :
      (s k worker : String) (now : ℕ)
      → until ≤ now + claim_ttl
      → IsHeld claim_ttl until (some (claimed now worker s k))
  unfolding claimed
  claimed-IsHeld s k worker now h = inr h

  step-Held :
      (op : Op) (rows : List Row)
      → time_of op ≤ until
      → IsHeld claim_ttl until (find_row source key rows)
      → IsHeld claim_ttl until (find_row source key (step claim_ttl op rows))
  unfolding step pg_mark_done
  step-Held (claim_op now worker s k) rows h held =
      elim (Bool-cases (claim_wins claim_ttl now (find_row s k rows))) [
        | inr lost ↦ rw (pg_claim-lost claim_ttl now worker s k rows lost, step) held
        | inl won ↦ elim (Bool-cases (str_eq s source && str_eq k key)) [
          | inl same ↦
              let refused = held_refuses claim_ttl until now (find_row source key rows) h held in
              let one_file = same_file s k rows same in
              let lost : claim_wins claim_ttl now (find_row s k rows) ≡ false =
                rw one_file refused in
              rw (pg_claim-lost claim_ttl now worker s k rows lost, step) held
          | inr other ↦
              rw (pg_claim-won claim_ttl now worker s k rows won, step)
                (rw (find_row-put_row source key (claimed now worker s k) rows)
                  (rw (claimed_row now worker s k source key) (rw other held)))
        ]
      ]
  step-Held (done_op now worker s k) rows h held =
      let row = marked now worker s k (find_row s k rows) in
      rw (find_row-put_row source key row rows) (
        rw (marked_row now worker s k source key (find_row s k rows))
          (elim (Bool-cases (str_eq s source && str_eq k key)) [
            | inl same ↦ rw same (inl (marked_closed now worker s k (find_row s k rows)))
            | inr other ↦ rw other held
          ]))

  held_no_win :
      (op : Op) (rows : List Row)
      → time_of op ≤ until
      → IsHeld claim_ttl until (find_row source key rows)
      → wins claim_ttl source key op rows ≡ false
  unfolding wins
  held_no_win (claim_op now worker s k) rows h held =
      elim (Bool-cases (str_eq s source && str_eq k key)) [
        | inr other ↦ rw other refl
        | inl same ↦
            let refused = held_refuses claim_ttl until now (find_row source key rows) h held in
            let one_file = same_file s k rows same in
            let lost : claim_wins claim_ttl now (find_row s k rows) ≡ false = rw one_file refused in
            rw same (rw (pg_claim-lost claim_ttl now worker s k rows lost) refl)
      ]
  held_no_win (done_op now worker s k) rows h held = refl

  held_no_winners :
      (ops : List Op) (rows : List Row)
      → All (λ op. time_of op ≤ until) ops
      → IsHeld claim_ttl until (find_row source key rows)
      → winners claim_ttl source key ops rows ≡ 0
  unfolding winners
  held_no_winners [] rows h held = refl
  held_no_winners (op ∷ ops) rows (now, h) held =
      rw (held_no_win op rows now held)
        (omega (arith, held_no_winners ops (step claim_ttl op rows) h (step-Held op rows now held)))

  won-IsHeld :
      (op : Op) (rows : List Row)
      → until ≤ time_of op + claim_ttl
      → wins claim_ttl source key op rows ≡ true
      → IsHeld claim_ttl until (find_row source key (step claim_ttl op rows))
  unfolding wins step
  won-IsHeld (done_op now worker s k) rows h e = ground (arith, e)
  won-IsHeld (claim_op now worker s k) rows h e =
      let same : (str_eq s source && str_eq k key) ≡ true = ground (arith, e) in
      elim (Bool-cases (claim_wins claim_ttl now (find_row s k rows))) [
        | inr lost ↦
            let refused = pg_claim-lost claim_ttl now worker s k rows lost in
            let no : false ≡ true = rw same at (rw refused at e) in ground (arith, no)
        | inl won ↦
            rw (pg_claim-won claim_ttl now worker s k rows won, step)
              (rw (find_row-put_row source key (claimed now worker s k) rows) (
                rw (claimed_row now worker s k source key)
                  (rw same (claimed-IsHeld s k worker now h))))
      ]

-- Within the time limit of a claim, a file is claimed by one worker at most: in every sequence of
-- claims and completions, by any workers and of any files, whose times lie between `start` and
-- `start + claim_ttl`, at most one claim of the file wins, whatever the table held before.
pub winners_le_one :
    (claim_ttl start : ℕ) (source key : String) (ops : List Op) (rows : List Row)
    → All (λ op. (start ≤ time_of op) × (time_of op ≤ start + claim_ttl)) ops
    → winners claim_ttl source key ops rows ≤ 1
unfolding winners
winners_le_one claim_ttl start source key [] rows h = omega arith
winners_le_one claim_ttl start source key (op ∷ ops) rows ((lo, hi), h) =
    elim (Bool-cases (wins claim_ttl source key op rows)) [
      | inr lost ↦
          rw lost (
            omega (arith, winners_le_one claim_ttl start source key ops (step claim_ttl op rows) h))
      | inl won ↦
          let held =
            won-IsHeld claim_ttl (start + claim_ttl) source key op rows (omega (arith, lo)) won in
          let others =
            All-map (λ o. (start ≤ time_of o) × (time_of o ≤ start + claim_ttl))
              (λ o. time_of o ≤ start + claim_ttl) (λ o times. times.1) ops h in
          rw won (
            omega (
              arith,
              held_no_winners claim_ttl (start + claim_ttl) source key ops (step claim_ttl op rows)
                  others held,
            ))
    ]

-- A completed file is never claimed again: after its completion, no claim of it wins in any
-- sequence of claims and completions, at any times.
pub winners-pg_mark_done :
    (claim_ttl now : ℕ) (worker source key : String) (ops : List Op) (rows : List Row)
    → winners claim_ttl source key ops (pg_mark_done now worker source key rows) ≡ 0
winners-pg_mark_done claim_ttl now worker source key ops rows =
    let until = latest ops in
    let row = marked now worker source key (find_row source key rows) in
    held_no_winners claim_ttl until source key ops (pg_mark_done now worker source key rows)
      (latest-All ops) (done-IsHeld claim_ttl until now worker source key rows)
