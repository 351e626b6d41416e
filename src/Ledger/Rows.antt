-- ===== src/Ledger/Rows.antt =====
-- shared/processed.py, the table `processed_files` and the statements on it. A statement is atomic,
-- the table has one row for a primary key, and a time is a number of seconds.
pub mod Claims
use geocoder_fwd.Prelude.{
  ℕ, ◌+◌, ◌≡◌, refl, Bool, true, false, not, ◌&&◌, Option, none, some, List, [], ◌∷◌, String,
  str_eq, get_or, eq_iff, ltb, arith, if◌then◌else◌,
}

pub record Row : Type 0 where
  pub source : String
  pub key : String
  pub claimed_by : String
  pub claimed_at : ℕ
  pub processed_at : Option ℕ

-- Whether a row has the primary key (source, key).
unfoldable pub is_row : String → String → Row → Bool
is_row source key r = str_eq r.source source && str_eq r.key key

unfoldable pub find_row : String → String → List Row → Option Row
unfolding is_row
find_row source key [] = none
find_row source key (r ∷ rows) =
    let rest = find_row source key rows in if is_row source key r then some r else rest

-- The row takes the place of the one with its primary key, or is added.
unfoldable pub put_row : Row → List Row → List Row
unfolding is_row
put_row new [] = new ∷ []
put_row new (r ∷ rows) =
    let rest = put_row new rows in if is_row new.source new.key r then new ∷ rows else r ∷ rest

-- processed_files.processed_at IS NULL
unfoldable pub is_open : Row → Bool
is_open r = elim r.processed_at [ none ↦ true | some t ↦ false ]

-- INSERT ... ON CONFLICT DO UPDATE ... WHERE: a new row, or one whose claim is open and older than
-- the limit, is returned.
unfoldable pub claim_wins : ℕ → ℕ → Option Row → Bool
unfolding is_open
claim_wins claim_ttl now none = true
claim_wins claim_ttl now (some r) = is_open r && ltb (r.claimed_at + claim_ttl) now

unfoldable pub pg_claim : ℕ → ℕ → String → String → String → List Row → Bool × List Row
unfolding claim_wins find_row put_row
pg_claim claim_ttl now worker source key rows =
    if claim_wins claim_ttl now (find_row source key rows)
    then (
      true,
      put_row
          (record {
            source = source;
            key = key;
            claimed_by = worker;
            claimed_at = now;
            processed_at = none;
          })
          rows,
    )
    else (false, rows)

-- INSERT ... ON CONFLICT DO UPDATE SET processed_at = COALESCE(processed_files.processed_at, now())
unfoldable pub marked : ℕ → String → String → String → Option Row → Row
marked now worker source key none = record {
  source = source;
  key = key;
  claimed_by = worker;
  claimed_at = now;
  processed_at = some now;
}
marked now worker source key (some r) = record {
  source = source;
  key = key;
  claimed_by = r.claimed_by;
  claimed_at = r.claimed_at;
  processed_at = some (get_or now r.processed_at);
}

unfoldable pub pg_mark_done : ℕ → String → String → String → List Row → List Row
unfolding marked find_row put_row
pg_mark_done now worker source key rows =
    put_row (marked now worker source key (find_row source key rows)) rows

-- SELECT key FROM processed_files WHERE source=$1 AND processed_at IS NOT NULL
unfoldable pub pg_load : String → List Row → List String
unfolding is_open
pg_load source [] = []
pg_load source (r ∷ rows) =
    let rest = pg_load source rows in
    if str_eq r.source source && not (is_open r) then r.key ∷ rest else rest

pub find_row-put_row :
    (source key : String) (new : Row) (rows : List Row)
    → find_row source key (put_row new rows)
      ≡ (if is_row source key new then some new else find_row source key rows)
unfolding find_row put_row
find_row-put_row source key new [] = refl
find_row-put_row source key new (r ∷ rows) = ground (
  arith,
  eq_iff new.source source,
  eq_iff new.key key,
  eq_iff r.source source,
  eq_iff r.key key,
  eq_iff r.source new.source,
  eq_iff r.key new.key,
  find_row-put_row source key new rows,
)
