-- ===== src/Billing/Invoices/Laws.antt =====
-- One statement on an invoice after another: upserts and payments.
use geocoder_fwd.Prelude.{
  ◌≡◌, ◌≢◌, refl, ap, sym, ◌∙◌, true, false, some, [], ◌∷◌, String, str_eq, eq_iff, if◌then◌else◌,
  arith, Bool-cases, inl, inr, ◌⊎◌,
}
use geocoder_fwd.Billing.Invoices.{
  Invoice, Table, has_key, find_invoice, refreshed, upsert_invoice, marked, not_found, already_paid,
  mark_invoice_paid,
}

module _ (new i : Invoice) (table : Table) where
  upsert_later :
      has_key new.tenant_id new.period i ≡ false
      → upsert_invoice new (i ∷ table)
        ≡ ((upsert_invoice new table).0, i ∷ (upsert_invoice new table).1)
  unfolding upsert_invoice
  upsert_later e = rw (e, upsert_invoice)

  upsert_paid :
      has_key new.tenant_id new.period i ≡ true
      → i.paid ≡ true
      → upsert_invoice new (i ∷ table) ≡ (i, i ∷ table)
  unfolding upsert_invoice
  upsert_paid e p = ground arith

  upsert_pending :
      has_key new.tenant_id new.period i ≡ true
      → i.paid ≡ false
      → upsert_invoice new (i ∷ table) ≡ (refreshed new i, refreshed new i ∷ table)
  unfolding upsert_invoice
  upsert_pending e p = ground arith

-- A paid invoice is answered as it stands, and the table is not touched.
upsert_invoice_paid :
    (new : Invoice) (table : Table) {i : Invoice}
    → find_invoice new.tenant_id new.period table ≡ some i
    → i.paid ≡ true
    → upsert_invoice new table ≡ (i, table)
unfolding find_invoice
upsert_invoice_paid new [] e p = cc
upsert_invoice_paid new (j ∷ table) {i} e p =
    elim (Bool-cases (has_key new.tenant_id new.period j)) [
      | inl here ↦
          let same : j ≡ i = cc (rw here at e) in
          rw same (upsert_paid new i table (rw same at here) p)
      | inr later ↦
          let found : find_invoice new.tenant_id new.period table ≡ some i = rw later at e in
          upsert_later new j table later
          ∙ ap (λ r. (r.0, j ∷ r.1)) (upsert_invoice_paid new table found p)
    ]

-- After an upsert its row is the one found under the key of the invoice, and other keys are as before.
find_invoice-upsert_invoice :
    (new : Invoice) (table : Table) (tenant_id period : String)
    → find_invoice tenant_id period (upsert_invoice new table).1 ≡ (
        if has_key tenant_id period new
        then some (upsert_invoice new table).0
        else find_invoice tenant_id period table)
unfolding find_invoice upsert_invoice
find_invoice-upsert_invoice new [] tenant_id period = refl
find_invoice-upsert_invoice new (i ∷ table) tenant_id period = ground (
  arith,
  eq_iff i.tenant_id new.tenant_id,
  eq_iff i.period new.period,
  eq_iff i.tenant_id tenant_id,
  eq_iff i.period period,
  eq_iff new.tenant_id tenant_id,
  eq_iff new.period period,
  find_invoice-upsert_invoice new table tenant_id period,
)

module _ (id : String) (i : Invoice) (table : Table) where
  mark_later :
      str_eq i.id id ≡ false
      → mark_invoice_paid id (i ∷ table)
        ≡ ((mark_invoice_paid id table).0, i ∷ (mark_invoice_paid id table).1)
  unfolding mark_invoice_paid
  mark_later e = rw (e, mark_invoice_paid)

  mark_paid :
      str_eq i.id id ≡ true
      → i.paid ≡ true
      → mark_invoice_paid id (i ∷ table) ≡ (already_paid, i ∷ table)
  unfolding mark_invoice_paid
  mark_paid e p = ground arith

  mark_pending :
      str_eq i.id id ≡ true
      → i.paid ≡ false
      → mark_invoice_paid id (i ∷ table)
        ≡ (marked (record i { paid = true }), record i { paid = true } ∷ table)
  unfolding mark_invoice_paid
  mark_pending e p = ground arith

unknown_id : (id : String) → (mark_invoice_paid id []).0 ≡ not_found
unfolding mark_invoice_paid
unknown_id id = refl

-- Once an invoice was found under its id, paid or not, paying it again is refused, and the table stays
-- as the first call left it.
mark_invoice_paid_twice :
    (id : String) (table : Table)
    → (mark_invoice_paid id table).0 ≢ not_found
    → mark_invoice_paid id (mark_invoice_paid id table).1
      ≡ (already_paid, (mark_invoice_paid id table).1)
mark_invoice_paid_twice id [] known = absurd (known (unknown_id id))
mark_invoice_paid_twice id (i ∷ table) known = elim (Bool-cases (str_eq i.id id)) [
  | inl here ↦ elim (Bool-cases i.paid) [
    | inl paid ↦ rw (mark_paid id i table here paid) (mark_paid id i table here paid)
    | inr pending ↦
        rw (mark_pending id i table here pending)
          (mark_paid id (record i { paid = true }) table here refl)
  ]
  | inr later ↦
      let step = mark_later id i table later in
      rw step (
        mark_later id i (mark_invoice_paid id table).1 later
        ∙ ap (λ r. (r.0, i ∷ r.1))
            (mark_invoice_paid_twice id table (λ e. known (ap (λ r. r.0) step ∙ e))))
]

-- The row under the key of `new` stands as an upsert of `new` leaves it.
abbrev pub IsKept : Invoice → Invoice → Type 0
IsKept new row = (row.paid ≡ true) ⊎ (refreshed new row ≡ row)

abbrev pub IsSettled : Invoice → Table → Invoice → Type 0
IsSettled new table row = (find_invoice new.tenant_id new.period table ≡ some row) × IsKept new row

upsert_empty : (new : Invoice) → upsert_invoice new [] ≡ (new, new ∷ [])
unfolding upsert_invoice
upsert_empty new = refl

own_key : (new : Invoice) → has_key new.tenant_id new.period new ≡ true
own_key new = ground (arith, eq_iff new.tenant_id new.tenant_id, eq_iff new.period new.period)

-- Of a settled table an upsert answers the row and writes nothing new.
pub upsert_settled :
    (new : Invoice) (table : Table) (row : Invoice)
    → find_invoice new.tenant_id new.period table ≡ some row
    → IsKept new row
    → upsert_invoice new table ≡ (row, table)
unfolding find_invoice
upsert_settled new [] row e k = cc
upsert_settled new (j ∷ table) row e k = elim (Bool-cases (has_key new.tenant_id new.period j)) [
  | inl here ↦
      let same : j ≡ row = cc (rw here at e) in
      let here' : has_key new.tenant_id new.period row ≡ true = rw same at here in
      rw same (elim (Bool-cases row.paid) [
        | inl paid ↦ upsert_paid new row table here' paid
        | inr pending ↦ elim k [
          | inl paid ↦ cc (paid, pending)
          | inr kept ↦ upsert_pending new row table here' pending ∙ ap (λ r. (r, r ∷ table)) kept
        ]
      ])
  | inr later ↦
      let found : find_invoice new.tenant_id new.period table ≡ some row = rw later at e in
      upsert_later new j table later
      ∙ ap (λ r. (r.0, j ∷ r.1)) (upsert_settled new table row found k)
]

upsert-IsKept :
    (new : Invoice) → new.paid ≡ false → (table : Table) → IsKept new (upsert_invoice new table).0
upsert-IsKept new p [] = rw (upsert_empty new) (inr (ap (λ b. record new { paid = b }) (sym p)))
upsert-IsKept new p (i ∷ table) = elim (Bool-cases (has_key new.tenant_id new.period i)) [
  | inl here ↦ elim (Bool-cases i.paid) [
    | inl paid ↦ rw (upsert_paid new i table here paid) (inl paid)
    | inr pending ↦ rw (upsert_pending new i table here pending) (inr refl)
  ]
  | inr later ↦ rw (upsert_later new i table later) (upsert-IsKept new p table)
]

pub upsert-IsSettled :
    (new : Invoice)
    → new.paid ≡ false
    → (table : Table) → IsSettled new (upsert_invoice new table).1 (upsert_invoice new table).0
upsert-IsSettled new p table = (
  find_invoice-upsert_invoice new table new.tenant_id new.period ∙ rw (own_key new),
  upsert-IsKept new p table,
)

-- Rows of other tenants do not unsettle one.
pub IsSettled-upsert :
    (new other : Invoice) (table : Table) (row : Invoice)
    → other.tenant_id ≢ new.tenant_id
    → IsSettled new table row
    → IsSettled new (upsert_invoice other table).1 row
IsSettled-upsert new other table row apart (found, k) =
    let differs : has_key new.tenant_id new.period other ≡ false =
      ground (arith, eq_iff other.tenant_id new.tenant_id) in
    (find_invoice-upsert_invoice other table new.tenant_id new.period ∙ rw differs found, k)
