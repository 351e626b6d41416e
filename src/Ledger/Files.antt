-- ===== src/Ledger/Files.antt =====
-- shared/processed.py, the public functions: the ledger file, the table, and the set `done` of a
-- watcher's pass. What the functions read of the file system is the state `World`: the lines of the
-- ledger file of a data directory and the legacy marker files. Path functions of the operating
-- system, its clock and the name of the worker are those of `Os`.
pub mod Laws
use geocoder_fwd.Prelude.{
  ℕ, ◌+◌, Bool, true, false, not, ◌&&◌, Option, none, some, List, [], ◌∷◌, ◌++◌, String, str_eq,
  contains, get_or, lookup, insert, Dict, if◌then◌else◌,
}
use geocoder_fwd.Ledger.Rows.{Row, find_row, put_row, pg_claim, pg_mark_done, pg_load}

pub record Os : Type 0 where
  -- `os.path.normpath(os.path.abspath(data_dir))`
  pub source : String → String
  -- `os.path.relpath(filepath, data_dir)`
  pub key : String → String → String
  -- `line.strip()`
  pub strip : String → String
  -- `f"{filepath}.processed"`
  pub legacy : String → String
  -- Whether the ledger file of a directory can be appended to, and whether a file can be removed.
  pub can_append : String → Bool
  pub can_remove : String → Bool
  pub worker_id : String

pub record World : Type 0 where
  pub rows : List Row
  pub pg_ready : Bool
  pub ledgers : Dict (List String)
  pub markers : List String

abbrev pub with_rows : World → List Row → World
with_rows w rows = record {
  rows = rows;
  pg_ready = w.pg_ready;
  ledgers = w.ledgers;
  markers = w.markers;
}

-- LEDGER_MODE: whether it is "pg".
pub data Mode : Type 0 where
  file : Mode
  pg : Mode

module _ (os : Os) where
  -- {line.strip() for line in f if line.strip()}
  unfoldable pub stripped : List String → List String
  stripped [] = []
  stripped (line ∷ lines) =
      let rest = stripped lines in if str_eq (os.strip line) "" then rest else os.strip line ∷ rest

  unfoldable pub file_load : World → String → List String
  unfolding lookup stripped
  file_load w data_dir = stripped (get_or [] (lookup data_dir w.ledgers))

  -- An `OSError` is logged only.
  unfoldable pub file_append : String → String → World → World
  unfolding lookup insert
  file_append data_dir key w =
      if os.can_append data_dir
      then record {
        rows = w.rows;
        pg_ready = w.pg_ready;
        ledgers = insert data_dir (get_or [] (lookup data_dir w.ledgers) ++ (key ∷ [])) w.ledgers;
        markers = w.markers;
      }
      else w

  -- One INSERT ... ON CONFLICT DO NOTHING for each key of the ledger file: their order is of no
  -- effect.
  unfoldable pub import_keys : ℕ → String → List String → List Row → List Row
  unfolding find_row put_row
  import_keys now source [] rows = rows
  import_keys now source (key ∷ keys) rows =
      import_keys now source keys (elim (find_row source key rows) [
        | some r ↦ rows
        | none ↦
            put_row
              (record {
                source = source;
                key = key;
                claimed_by = "file-ledger-import";
                claimed_at = now;
                processed_at = some now;
              })
              rows
      ])

  unfoldable pub pg_init : ℕ → String → World → World
  unfolding import_keys file_load
  pg_init now data_dir w = if w.pg_ready then w else record {
    rows = import_keys now (os.source data_dir) (file_load w data_dir) w.rows;
    pg_ready = true;
    ledgers = w.ledgers;
    markers = w.markers;
  }

  unfoldable pub load_processed : Mode → ℕ → String → World → List String × World
  unfolding pg_init file_load pg_load
  load_processed file now data_dir w = (file_load w data_dir, w)
  load_processed pg now data_dir w =
      let w' = pg_init now data_dir w in (pg_load (os.source data_dir) w'.rows, w')

  unfoldable pub mark_done : Mode → ℕ → String → String → World → World
  mark_done file now data_dir key w = w
  mark_done pg now data_dir key w =
      with_rows w (pg_mark_done now os.worker_id (os.source data_dir) key w.rows)

  -- The set `done` of the pass is changed in place: it is returned.
  unfoldable pub record_processed :
      Mode → ℕ → String → String → List String → World → List String × World
  unfolding mark_done file_append
  record_processed mode now data_dir filepath done w =
      let key = os.key filepath data_dir in
      if contains key done
      then (done, w)
      else (key ∷ done, file_append data_dir key (mark_done mode now data_dir key w))

  unfoldable pub remove : String → List String → List String
  remove path [] = []
  remove path (m ∷ markers) =
      let rest = remove path markers in if str_eq m path then rest else m ∷ rest

  -- `os.remove(legacy)`, whose `OSError` is passed over.
  unfoldable pub remove_marker : String → World → World
  unfolding remove
  remove_marker path w =
      if os.can_remove path
      then record {
        rows = w.rows;
        pg_ready = w.pg_ready;
        ledgers = w.ledgers;
        markers = remove path w.markers;
      }
      else w

  unfoldable pub is_processed :
      Mode → ℕ → String → String → List String → World → Bool × (List String × World)
  unfolding remove_marker record_processed
  is_processed mode now data_dir filepath done w =
      if contains (os.key filepath data_dir) done
      then (true, (done, w))
      else if contains (os.legacy filepath) w.markers
      then (let (done', w') = record_processed mode now data_dir filepath done w in
          (true, (done', remove_marker (os.legacy filepath) w')))
      else (false, (done, w))

  unfoldable pub claim_in : Mode → ℕ → ℕ → String → String → World → Bool × World
  claim_in file claim_ttl now data_dir key w = (true, w)
  claim_in pg claim_ttl now data_dir key w =
      let (won, rows) = pg_claim claim_ttl now os.worker_id (os.source data_dir) key w.rows in
      (won, with_rows w rows)

  unfoldable pub claim : Mode → ℕ → ℕ → String → String → List String → World → Bool × World
  unfolding claim_in
  claim mode claim_ttl now data_dir filepath done w =
      let key = os.key filepath data_dir in
      if contains key done then (false, w) else claim_in mode claim_ttl now data_dir key w
