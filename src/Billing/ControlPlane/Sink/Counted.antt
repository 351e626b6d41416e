-- ===== src/Billing/ControlPlane/Sink/Counted.antt =====
-- billing/control_plane.py, `usage_sink`: the counters, the events and the number that it answers.
use geocoder_fwd.Prelude.{
  ℕ, ◌+◌, suc, ◌≡◌, refl, ap, ◌&&◌, Option, none, some, List, [], ◌∷◌, ◌++◌, String, str_eq, get_or,
  if◌then◌else◌, Bool-cases, inl, inr, arith, length,
}
use geocoder_fwd.Billing.Usage.{Event}
use geocoder_fwd.Billing.Weights.Matrix.{non_empty}
use geocoder_fwd.Billing.ControlPlane.Names.{key_id_from_consumer}
use geocoder_fwd.Billing.ControlPlane.Sink.{
  LogEntry, Sink, SinkState, record_usage, counted, milli_for, tenant_for_key, recorded_for,
  sink_key, sink_counted, usage_sink, first_part, cut_query,
}

-- What the events of a tenant in a period weigh.
unfoldable pub weight_of : String → String → List Event → ℕ
weight_of tenant_id period [] = 0
weight_of tenant_id period (e ∷ events) =
    (if str_eq tenant_id e.tenant_id && str_eq period e.period then get_or 0 e.milli else 0)
    + weight_of tenant_id period events

weight_of-append :
    (tenant_id period : String) (events more : List Event)
    → weight_of tenant_id period (events ++ more)
      ≡ weight_of tenant_id period events + weight_of tenant_id period more
unfolding weight_of
weight_of-append tenant_id period [] more = omega arith
weight_of-append tenant_id period (e ∷ events) more =
    omega (arith, weight_of-append tenant_id period events more)

length-snoc : {A : Type 0} (xs : List A) (x : A) → length (xs ++ (x ∷ [])) ≡ suc (length xs)
length-snoc [] x = refl
length-snoc (y ∷ xs) x = ap suc (length-snoc xs x)

-- The counter of each tenant and the answer have grown by what the events have.
abbrev pub IsCounted : SinkState → SinkState → Type 0
IsCounted before after =
    ((tenant_id period : String)
      → after.live.tenant_live tenant_id period + weight_of tenant_id period before.live.events
        ≡ before.live.tenant_live tenant_id period + weight_of tenant_id period after.live.events)
    × (after.recorded + length before.live.events ≡ before.recorded + length after.live.events)

IsCounted-trans : (a b c : SinkState) → IsCounted a b → IsCounted b c → IsCounted a c
IsCounted-trans a b c (h, k) (i, l) = (λ t p. omega (arith, h t p, i t p), omega (arith, k, l))

module _ (sink : Sink) where
  recorded_for-IsCounted :
      (key_id uri : String) (tenant_id : Option String) (s : SinkState)
      → IsCounted s (recorded_for sink key_id uri tenant_id s)
  unfolding record_usage weight_of
  recorded_for-IsCounted key_id uri none s = ((λ t p. refl), refl)
  recorded_for-IsCounted key_id uri (some tenant_id) s =
      let event : Event = record {
        tenant_id = tenant_id;
        key_id = key_id;
        period = sink.now.period;
        day = sink.now.day;
        endpoint = some (first_part (cut_query uri).0);
        milli = some (milli_for sink uri);
      } in
      (
        (λ t p. elim (Bool-cases (str_eq t tenant_id && str_eq p sink.now.period)) [
          | inl e ↦ rw e (
              let more = weight_of-append t p s.live.events (event ∷ []) in
              rw more (rw e (omega arith)))
          | inr e ↦ rw e (
              let more = weight_of-append t p s.live.events (event ∷ []) in
              rw more (rw e (omega arith)))
        ]),
        omega (arith, length-snoc s.live.events event),
      )

  sink_key-IsCounted :
      (key_id : Option String) (uri : String) (s : SinkState)
      → IsCounted s (sink_key sink key_id uri s)
  sink_key-IsCounted none uri s = ((λ t p. refl), refl)
  sink_key-IsCounted (some key_id) uri s =
      let (tenant_id, cache) = tenant_for_key sink key_id s.cache in
      recorded_for-IsCounted key_id uri tenant_id (record s { cache = cache })

  sink_counted-IsCounted :
      (c : Option (String × String)) (s : SinkState) → IsCounted s (sink_counted sink c s)
  sink_counted-IsCounted none s = ((λ t p. refl), refl)
  sink_counted-IsCounted (some (consumer, uri)) s =
      sink_key-IsCounted (non_empty (key_id_from_consumer consumer)) uri s

  -- Whatever batch comes in, the counter of each tenant and period grows by what the new events of that
  -- tenant and period weigh, and the answer by their number.
  pub usage_sink-IsCounted :
      (entries : List LogEntry) (s : SinkState) → IsCounted s (usage_sink sink entries s)
  unfolding usage_sink
  usage_sink-IsCounted [] s = ((λ t p. refl), refl)
  usage_sink-IsCounted (e ∷ entries) s =
      let s' = sink_counted sink (counted sink e) s in
      IsCounted-trans s s' (usage_sink sink entries s') (sink_counted-IsCounted (counted sink e) s)
        (usage_sink-IsCounted entries s')
