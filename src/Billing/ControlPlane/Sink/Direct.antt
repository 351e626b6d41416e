-- ===== src/Billing/ControlPlane/Sink/Direct.antt =====
-- billing/control_plane.py, `_tenant_for_key`: the cache of the process, which only saves queries.
use geocoder_fwd.Prelude.{
  suc, ◌≡◌, refl, sym, ap, ◌∙◌, Option, none, some, List, [], ◌∷◌, String, str_eq, eq_iff, Dict,
  lookup, lookup-insert, Bool-cases, Option-cases, inl, inr, arith,
}
use mathlib.Core.Path.{subst}
use geocoder_fwd.Billing.Gateway.{Live}
use geocoder_fwd.Billing.Weights.Matrix.{non_empty}
use geocoder_fwd.Billing.ControlPlane.Names.{key_id_from_consumer}
use geocoder_fwd.Billing.ControlPlane.Sink.{
  LogEntry, Sink, SinkState, counted, remembered, tenant_for_key, recorded_for, record_usage,
  first_part, cut_query, milli_for, sink_key, sink_counted, usage_sink,
}

-- Each key's tenant, asked of the database every time.
abbrev direct_key : Sink → Option String → String → SinkState → SinkState
direct_key sink none uri s = s
direct_key sink (some key_id) uri s =
    recorded_for sink key_id uri (non_empty (sink.tenant_id_for_key key_id)) s

abbrev direct_counted : Sink → Option (String × String) → SinkState → SinkState
direct_counted sink none s = s
direct_counted sink (some (consumer, uri)) s =
    direct_key sink (non_empty (key_id_from_consumer consumer)) uri s

unfoldable pub direct_sink : Sink → List LogEntry → SinkState → SinkState
unfolding counted
direct_sink sink [] s = s
direct_sink sink (e ∷ entries) s = direct_sink sink entries (direct_counted sink (counted sink e) s)

-- A key keeps its tenant, so what is cached is what the database says.
abbrev pub IsCoherent : Sink → Dict String → Type 0
IsCoherent sink cache =
    (key_id tenant_id : String)
    → lookup key_id cache ≡ some tenant_id
    → non_empty (sink.tenant_id_for_key key_id) ≡ some tenant_id

-- All but the cache.
abbrev IsSame : SinkState → SinkState → Type 0
IsSame s t = (s.live ≡ t.live) × (s.recorded ≡ t.recorded)

module _ (sink : Sink) where
  tenant_for_key-IsCoherent :
      (key_id : String) (cache : Dict String)
      → IsCoherent sink cache
      → ((tenant_for_key sink key_id cache).0 ≡ non_empty (sink.tenant_id_for_key key_id))
        × IsCoherent sink (tenant_for_key sink key_id cache).1
  unfolding tenant_for_key
  tenant_for_key-IsCoherent key_id cache good = elim (Option-cases (lookup key_id cache)) [
    | inr (tenant_id, e) ↦ rw (e, remembered) (sym (good key_id tenant_id e), good)
    | inl e ↦ elim (Option-cases (non_empty (sink.tenant_id_for_key key_id))) [
      | inl f ↦ rw (e, f, remembered) (refl, good)
      | inr (tenant_id, f) ↦
          rw (e, f, remembered)
            (
              refl,
              λ j t h. elim (Bool-cases (str_eq key_id j)) [
                | inr apart ↦ good j t (rw (lookup-insert key_id j tenant_id cache, apart) at h)
                | inl same ↦
                    let here : some tenant_id ≡ some t =
                      rw (lookup-insert key_id j tenant_id cache, same) at h in
                    let eq : key_id ≡ j = ground (arith, eq_iff key_id j, same) in
                    ap (λ k. non_empty (sink.tenant_id_for_key k)) (sym eq) ∙ f ∙ here
              ],
            )
    ]
  ]

  recorded_for-IsSame :
      (key_id uri : String) (tenant_id : Option String) (s t : SinkState)
      → IsSame s t
      → IsSame (recorded_for sink key_id uri tenant_id s) (recorded_for sink key_id uri tenant_id t)
  recorded_for-IsSame key_id uri none s t h = h
  recorded_for-IsSame key_id uri (some tenant_id) s t (live, recorded) = (
    ap
        (λ (l : Live).
          record_usage sink.now tenant_id key_id (first_part (cut_query uri).0) (milli_for sink uri)
            l)
        live,
    ap suc recorded,
  )

  recorded_for-cache :
      (key_id uri : String) (tenant_id : Option String) (s : SinkState)
      → (recorded_for sink key_id uri tenant_id s).cache ≡ s.cache
  recorded_for-cache key_id uri none s = refl
  recorded_for-cache key_id uri (some tenant_id) s = refl

  -- The two ways, side by side.
  abbrev IsBeside : SinkState → SinkState → Type 0
  IsBeside s t = IsSame s t × IsCoherent sink s.cache

  sink_key-IsBeside :
      (key_id : Option String) (uri : String) (s t : SinkState)
      → IsBeside s t
      → IsBeside (sink_key sink key_id uri s) (direct_key sink key_id uri t)
  sink_key-IsBeside none uri s t h = h
  sink_key-IsBeside (some key_id) uri s t (same, good) =
      let (found, good') = tenant_for_key-IsCoherent key_id s.cache good in
      let s' : SinkState = record s { cache = (tenant_for_key sink key_id s.cache).1 } in
      (
        subst
            (λ (o : Option String).
              IsSame (recorded_for sink key_id uri (tenant_for_key sink key_id s.cache).0 s')
                (recorded_for sink key_id uri o t))
            found (recorded_for-IsSame key_id uri (tenant_for_key sink key_id s.cache).0 s' t same),
        subst (IsCoherent sink)
            (sym (recorded_for-cache key_id uri (tenant_for_key sink key_id s.cache).0 s')) good',
      )

  sink_counted-IsBeside :
      (c : Option (String × String)) (s t : SinkState)
      → IsBeside s t
      → IsBeside (sink_counted sink c s) (direct_counted sink c t)
  sink_counted-IsBeside none s t h = h
  sink_counted-IsBeside (some (consumer, uri)) s t h =
      sink_key-IsBeside (non_empty (key_id_from_consumer consumer)) uri s t h

  sink-IsBeside :
      (entries : List LogEntry) (s t : SinkState)
      → IsBeside s t
      → IsBeside (usage_sink sink entries s) (direct_sink sink entries t)
  unfolding usage_sink direct_sink
  sink-IsBeside [] s t h = h
  sink-IsBeside (e ∷ entries) s t h =
      sink-IsBeside entries (sink_counted sink (counted sink e) s)
        (direct_counted sink (counted sink e) t) (sink_counted-IsBeside (counted sink e) s t h)

  -- From a cache that agrees with the database, `usage_sink` records a batch as it would if it asked the
  -- database for the tenant of every key, and its cache agrees with the database afterwards.
  pub usage_sink-direct_sink :
      (entries : List LogEntry) (s : SinkState)
      → IsCoherent sink s.cache
      → ((usage_sink sink entries s).live ≡ (direct_sink sink entries s).live)
        × ((usage_sink sink entries s).recorded ≡ (direct_sink sink entries s).recorded)
        × IsCoherent sink (usage_sink sink entries s).cache
  usage_sink-direct_sink entries s good =
      let ((live, recorded), good') = sink-IsBeside entries s s ((refl, refl), good) in
      (live, recorded, good')
