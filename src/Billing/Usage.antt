-- ===== src/Billing/Usage.antt =====
-- `flush_events` of billing/usage.py, and `usage_totals_for_period` of billing/repo.py. The events
-- come from Redis as the replies of `LPOP`, decoded; the rollups are a table of Postgres, and the
-- SQL statement one function on it.
pub mod Totals
pub mod ByKey
use geocoder_fwd.Prelude.{
  ℕ, ◌+◌, Bool, true, false, ◌&&◌, Option, none, some, List, [], ◌∷◌, String, str_eq, get_or, take,
  length, if◌then◌else◌,
}

-- One metered request. Old events lack the weight.
pub record Event : Type 0 where
  pub tenant_id : String
  pub key_id : String
  pub period : String
  pub day : String
  pub endpoint : Option String
  pub milli : Option ℕ

-- An entry of `agg`: the key of the dict, and the list of its two counts.
pub record Entry : Type 0 where
  pub tenant_id : String
  pub key_id : String
  pub period : String
  pub day : String
  pub endpoint : String
  pub milli : ℕ
  pub requests : ℕ

abbrev pub entry_of : Event → Entry
entry_of e = record {
  tenant_id = e.tenant_id;
  key_id = e.key_id;
  period = e.period;
  day = e.day;
  endpoint = get_or "" e.endpoint;
  milli = get_or 1000 e.milli;
  requests = 1;
}

abbrev pub same_key : Entry → Entry → Bool
same_key a b =
    str_eq a.tenant_id b.tenant_id
    && str_eq a.key_id b.key_id
    && str_eq a.period b.period
    && str_eq a.day b.day
    && str_eq a.endpoint b.endpoint

-- `entry = agg[...]; entry[0] += ...; entry[1] += 1`
unfoldable pub add_event : Entry → List Entry → List Entry
add_event e [] = e ∷ []
add_event e (a ∷ agg) =
    if same_key a e
    then record a { milli = a.milli + e.milli; requests = a.requests + e.requests } ∷ agg
    else a ∷ add_event e agg

unfoldable pub aggregate : List Event → List Entry → List Entry
aggregate [] agg = agg
aggregate (e ∷ events) agg = aggregate events (add_event (entry_of e) agg)

-- A row of `usage_rollups`; `count` is in milli-credits.
pub record Row : Type 0 where
  pub tenant_id : String
  pub key_id : String
  pub period : String
  pub day : String
  pub endpoint : String
  pub count : ℕ
  pub requests : ℕ

-- The primary key `(tenant_id, key_id, day, endpoint)`.
abbrev pub conflicts : Row → Entry → Bool
conflicts r a =
    str_eq r.tenant_id a.tenant_id
    && str_eq r.key_id a.key_id
    && str_eq r.day a.day
    && str_eq r.endpoint a.endpoint

-- `INSERT ... ON CONFLICT (tenant_id, key_id, day, endpoint) DO UPDATE SET count = count + ...`
unfoldable pub upsert_rollup : Entry → List Row → List Row
upsert_rollup a [] =
    record {
      tenant_id = a.tenant_id;
      key_id = a.key_id;
      period = a.period;
      day = a.day;
      endpoint = a.endpoint;
      count = a.milli;
      requests = a.requests;
    }
    ∷ []
upsert_rollup a (r ∷ rows) =
    if conflicts r a
    then record r { count = r.count + a.milli; requests = r.requests + a.requests } ∷ rows
    else r ∷ upsert_rollup a rows

unfoldable pub upsert_all : List Entry → List Row → List Row
upsert_all [] rows = rows
upsert_all (a ∷ agg) rows = upsert_all agg (upsert_rollup a rows)

-- `replies` is what `LPOP` answers in turn before it answers nothing; `batch` of them are taken. The
-- answer is the number of events, with the table after the transaction.
unfoldable pub flush_events : ℕ → List Event → List Row → ℕ × List Row
flush_events batch replies rows =
    let events = take batch replies in (length events, upsert_all (aggregate events []) rows)

-- `SUM(count)` and `SUM(requests)` over the rows of a tenant and a period.
unfoldable pub usage_totals_for_period : String → String → List Row → ℕ × ℕ
usage_totals_for_period tenant_id period [] = (0, 0)
usage_totals_for_period tenant_id period (r ∷ rows) =
    let (milli, requests) = usage_totals_for_period tenant_id period rows in
    if str_eq r.tenant_id tenant_id && str_eq r.period period
    then (milli + r.count, requests + r.requests)
    else (milli, requests)
