-- ===== src/Billing/Usage/Totals.antt =====
-- What a flush adds to the totals that are billed.
use geocoder_fwd.Prelude.{
  ℕ, ◌+◌, ◌≡◌, refl, ap, ◌∙◌, sym, Bool, true, ◌&&◌, List, [], ◌∷◌, String, str_eq, eq_iff, get_or,
  take, All, if◌then◌else◌, arith, Bool-cases, inl, inr,
}
use geocoder_fwd.Billing.Usage.{
  Event, Entry, entry_of, same_key, add_event, aggregate, Row, conflicts, upsert_rollup, upsert_all,
  flush_events, usage_totals_for_period,
}

module _ (tenant_id period : String) where
  abbrev pub billed_to : Entry → Bool
  billed_to a = str_eq a.tenant_id tenant_id && str_eq a.period period

  -- The milli-credits and the requests of the events of a tenant and a period.
  unfoldable pub event_totals : List Event → ℕ × ℕ
  event_totals [] = (0, 0)
  event_totals (e ∷ events) =
      let (milli, requests) = event_totals events in
      if billed_to (entry_of e)
      then (milli + get_or 1000 e.milli, requests + 1)
      else (milli, requests)

  unfoldable entry_totals : List Entry → ℕ × ℕ
  entry_totals [] = (0, 0)
  entry_totals (a ∷ agg) =
      let (milli, requests) = entry_totals agg in
      if billed_to a then (milli + a.milli, requests + a.requests) else (milli, requests)

  no_entries : ((entry_totals []).0 ≡ 0) × ((entry_totals []).1 ≡ 0)
  unfolding entry_totals
  no_entries = (refl, refl)

  abbrev Adds : ℕ × ℕ → ℕ × ℕ → Entry → Type 0
  Adds before after a =
      (after.0 ≡ before.0 + (if billed_to a then a.milli else 0))
      × (after.1 ≡ before.1 + (if billed_to a then a.requests else 0))

  same_key-billed_to : (a b : Entry) → same_key a b ≡ true → billed_to a ≡ billed_to b
  same_key-billed_to a b e =
      let p : a.tenant_id ≡ b.tenant_id = (eq_iff a.tenant_id b.tenant_id).0 (ground arith) in
      let q : a.period ≡ b.period = (eq_iff a.period b.period).0 (ground arith) in
      λ i. str_eq (p i) tenant_id && str_eq (q i) period

  add_event-Adds :
      (e : Entry) (agg : List Entry) → Adds (entry_totals agg) (entry_totals (add_event e agg)) e
  unfolding add_event entry_totals
  add_event-Adds e [] = (ground arith, ground arith)
  add_event-Adds e (a ∷ agg) = elim (Bool-cases (same_key a e)) [
    | inl same ↦
        rw (same, add_event)
          (let both = same_key-billed_to a e same in (ground (arith, both), ground (arith, both)))
    | inr other ↦
        rw (other, add_event)
          (let rest = add_event-Adds e agg in (ground (arith, rest), ground (arith, rest)))
  ]

  aggregate-event_totals :
      (events : List Event) (agg : List Entry)
      → ((entry_totals (aggregate events agg)).0 ≡ (entry_totals agg).0 + (event_totals events).0)
        × ((entry_totals (aggregate events agg)).1 ≡ (entry_totals agg).1 + (event_totals events).1)
  unfolding aggregate event_totals
  aggregate-event_totals [] agg = (omega arith, omega arith)
  aggregate-event_totals (e ∷ events) agg =
      let rest = aggregate-event_totals events (add_event (entry_of e) agg) in
      let first = add_event-Adds (entry_of e) agg in
      (ground (arith, rest, first), ground (arith, rest, first))

  module _ (month : String → String) where
    -- The period of a row or an entry is the month of its day.
    abbrev pub IsDated : List Row → Type 0
    IsDated = All (λ r. r.period ≡ month r.day)

    abbrev EntriesDated : List Entry → Type 0
    EntriesDated = All (λ a. a.period ≡ month a.day)

    abbrev row_billed : Row → Bool
    row_billed r = str_eq r.tenant_id tenant_id && str_eq r.period period

    conflicts-billed :
        (r : Row) (a : Entry)
        → r.period ≡ month r.day
        → a.period ≡ month a.day
        → conflicts r a ≡ true
        → row_billed r ≡ billed_to a
    conflicts-billed r a p q e =
        let tenants : r.tenant_id ≡ a.tenant_id =
          (eq_iff r.tenant_id a.tenant_id).0 (ground arith) in
        let days : r.day ≡ a.day = (eq_iff r.day a.day).0 (ground arith) in
        let periods : r.period ≡ a.period = p ∙ ap month days ∙ sym q in
        λ i. str_eq (tenants i) tenant_id && str_eq (periods i) period

    upsert_rollup-Adds :
        (a : Entry) (rows : List Row)
        → a.period ≡ month a.day
        → IsDated rows
        → Adds
            (usage_totals_for_period tenant_id period rows)
            (usage_totals_for_period tenant_id period (upsert_rollup a rows))
            a
    unfolding upsert_rollup usage_totals_for_period
    upsert_rollup-Adds a [] q h = (ground arith, ground arith)
    upsert_rollup-Adds a (r ∷ rows) q (p, h) = elim (Bool-cases (conflicts r a)) [
      | inl same ↦
          rw (same, upsert_rollup)
            (let both = conflicts-billed r a p q same in
              (ground (arith, both), ground (arith, both)))
      | inr other ↦
          rw (other, upsert_rollup)
            (let rest = upsert_rollup-Adds a rows q h in
              (ground (arith, rest), ground (arith, rest)))
    ]

    upsert_rollup-IsDated :
        (a : Entry) (rows : List Row)
        → a.period ≡ month a.day
        → IsDated rows
        → IsDated (upsert_rollup a rows)
    unfolding upsert_rollup
    upsert_rollup-IsDated a [] q h = (q, tt)
    upsert_rollup-IsDated a (r ∷ rows) q (p, h) = elim (Bool-cases (conflicts r a)) [
      | inl same ↦ rw (same, upsert_rollup) (p, h)
      | inr other ↦ rw (other, upsert_rollup) (p, upsert_rollup-IsDated a rows q h)
    ]

    upsert_all-entry_totals :
        (agg : List Entry) (rows : List Row)
        → EntriesDated agg
        → IsDated rows
        → ((usage_totals_for_period tenant_id period (upsert_all agg rows)).0
            ≡ (usage_totals_for_period tenant_id period rows).0 + (entry_totals agg).0)
          × ((usage_totals_for_period tenant_id period (upsert_all agg rows)).1
              ≡ (usage_totals_for_period tenant_id period rows).1 + (entry_totals agg).1)
    unfolding upsert_all entry_totals
    upsert_all-entry_totals [] rows q h = (omega arith, omega arith)
    upsert_all-entry_totals (a ∷ agg) rows (q, qs) h =
        let rest =
          upsert_all-entry_totals agg (upsert_rollup a rows) qs
            (upsert_rollup-IsDated a rows q h) in
        let first = upsert_rollup-Adds a rows q h in
        (ground (arith, rest, first), ground (arith, rest, first))

    add_event-EntriesDated :
        (e : Entry) (agg : List Entry)
        → e.period ≡ month e.day
        → EntriesDated agg
        → EntriesDated (add_event e agg)
    unfolding add_event
    add_event-EntriesDated e [] q h = (q, tt)
    add_event-EntriesDated e (a ∷ agg) q (p, h) = elim (Bool-cases (same_key a e)) [
      | inl same ↦ rw (same, add_event) (p, h)
      | inr other ↦ rw (other, add_event) (p, add_event-EntriesDated e agg q h)
    ]

    aggregate-EntriesDated :
        (events : List Event) (agg : List Entry)
        → All (λ e. e.period ≡ month e.day) events
        → EntriesDated agg
        → EntriesDated (aggregate events agg)
    unfolding aggregate
    aggregate-EntriesDated [] agg q h = h
    aggregate-EntriesDated (e ∷ events) agg (q, qs) h =
        aggregate-EntriesDated events (add_event (entry_of e) agg) qs
          (add_event-EntriesDated (entry_of e) agg q h)

-- A flush raises what a tenant is billed for a period by the weights, and its number of requests by the
-- number, of the drained events of that tenant and period, if the period of every event and of every
-- row is the month of its day. Nothing is lost or counted twice by the grouping and the upsert.
pub flush_events_totals :
    (month : String → String) (tenant_id period : String) (batch : ℕ) (replies : List Event)
    (rows : List Row)
    → All (λ e. e.period ≡ month e.day) (take batch replies)
    → IsDated tenant_id period month rows
    → let before = usage_totals_for_period tenant_id period rows in
      let after = usage_totals_for_period tenant_id period (flush_events batch replies rows).1 in
      let drained = event_totals tenant_id period (take batch replies) in
      (after.0 ≡ before.0 + drained.0) × (after.1 ≡ before.1 + drained.1)
unfolding flush_events
flush_events_totals month tenant_id period batch replies rows q h =
    let events = take batch replies in
    let grouped = aggregate-event_totals tenant_id period events [] in
    let dated = aggregate-EntriesDated tenant_id period month events [] q tt in
    let stored =
      upsert_all-entry_totals tenant_id period month (aggregate events []) rows dated h in
    let empty = no_entries tenant_id period in
    (omega (arith, grouped, stored, empty), omega (arith, grouped, stored, empty))
