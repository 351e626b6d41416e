-- ===== src/Ledger/Files/Laws.antt =====
-- shared/processed.py: recording a file, and what is asked of it later.
use geocoder_fwd.Prelude.{
  ℕ, ◌≡◌, refl, true, false, List, [], ◌∷◌, ◌++◌, String, str_eq, eq_iff, contains, get_or, lookup,
  lookup-insert, arith, Bool-cases, inl, inr,
}
use geocoder_fwd.Ledger.Files.{
  Os, World, Mode, file, stripped, file_load, file_append, mark_done, load_processed,
  record_processed, is_processed, claim,
}

same : (s : String) → str_eq s s ≡ true
same s = ground (arith, eq_iff s s)

module _ (os : Os) where
  record_processed_done :
      (mode : Mode) (now : ℕ) (data_dir filepath : String) (done : List String) (w : World)
      → contains
          (os.key filepath data_dir)
          (record_processed os mode now data_dir filepath done w).0
        ≡ true
  unfolding record_processed
  record_processed_done mode now data_dir filepath done w =
      elim (Bool-cases (contains (os.key filepath data_dir) done)) [
        | inl e ↦ rw e e
        | inr e ↦ rw e (rw (same (os.key filepath data_dir)) refl)
      ]

known_once :
    (os : Os) (mode : Mode) (later claim_ttl : ℕ) (data_dir filepath : String) (done : List String)
    (w : World)
    → contains (os.key filepath data_dir) done ≡ true
    → (is_processed os mode later data_dir filepath done w ≡ (true, (done, w)))
      × (claim os mode claim_ttl later data_dir filepath done w ≡ (false, w))
      × (record_processed os mode later data_dir filepath done w ≡ (done, w))
unfolding is_processed claim record_processed
known_once os mode later claim_ttl data_dir filepath done w known =
    (rw known refl, rw known refl, rw known refl)

-- Recording a file has its effect within the pass, in both modes: afterwards the file counts as
-- processed, no claim of it wins, and recording it again changes neither the set nor the world.
record_processed_once :
    (os : Os) (mode : Mode) (now later claim_ttl : ℕ) (data_dir filepath : String)
    (done done' : List String) (w w' : World)
    → record_processed os mode now data_dir filepath done w ≡ (done', w')
    → (is_processed os mode later data_dir filepath done' w' ≡ (true, (done', w')))
      × (claim os mode claim_ttl later data_dir filepath done' w' ≡ (false, w'))
      × (record_processed os mode later data_dir filepath done' w' ≡ (done', w'))
record_processed_once os mode now later claim_ttl data_dir filepath done done' w w' e =
    let recorded = record_processed_done os mode now data_dir filepath done w in
    let known : contains (os.key filepath data_dir) done' ≡ true = rw e at recorded in
    known_once os mode later claim_ttl data_dir filepath done' w' known

stripped-append :
    (os : Os) (key : String) (lines : List String)
    → os.strip key ≡ key
    → str_eq key "" ≡ false
    → contains key (stripped os (lines ++ (key ∷ []))) ≡ true
unfolding stripped
stripped-append os key [] strip filled = rw strip (rw filled (rw (same key) refl))
stripped-append os key (line ∷ lines) strip filled =
    let later = stripped-append os key lines strip filled in ground (arith, later)

-- What one process records, the next one loads: in file mode, if the ledger file can be appended to
-- and the name of the file is neither empty nor changed by stripping, a new load of the ledger holds
-- a file that was recorded and had not been in the set.
load-record_processed_file :
    (os : Os) (now later : ℕ) (data_dir filepath : String) (done : List String) (w : World)
    → os.can_append data_dir ≡ true
    → os.strip (os.key filepath data_dir) ≡ os.key filepath data_dir
    → str_eq (os.key filepath data_dir) "" ≡ false
    → contains (os.key filepath data_dir) done ≡ false
    → contains
        (os.key filepath data_dir)
        (load_processed os file later data_dir
          (record_processed os file now data_dir filepath done w).1).0
      ≡ true
unfolding load_processed record_processed file_append file_load mark_done
load-record_processed_file os now later data_dir filepath done w append strip filled new =
    let key = os.key filepath data_dir in
    let lines = get_or [] (lookup data_dir w.ledgers) in
    rw new (
      rw append (
        rw (lookup-insert data_dir data_dir (lines ++ (key ∷ [])) w.ledgers)
          (rw (same data_dir) (stripped-append os key lines strip filled))))
