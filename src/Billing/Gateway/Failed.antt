-- ===== src/Billing/Gateway/Failed.antt =====
-- billing/gateway.py: what a request that fails leaves in the counters and in the list of usage events.
use geocoder_fwd.Prelude.{
  ℕ, suc, ◌+◌, ◌-◌, ◌≡◌, ◌⊎◌, refl, true, none, some, String, ◌==◌, leb, arith, Bool-cases,
  Option-cases, inl, inr,
}
use geocoder_fwd.Billing.Weights.Matrix.{non_empty}
use geocoder_fwd.Billing.Gateway.{
  Info, Counters, bump, Live, Now, Call, Env, Answer, raised, endpoint_of, refusal, allow_rps,
  decr_tenant, forward, HttpOutcome, response, http_error, other_error, status_from, milli_of,
  serve, charge, limited, authorized, resolved, proxy,
}
use geocoder_fwd.Billing.Gateway.Metering.{status_of, over, taken, charge-over, charge_within}

-- The counters of credits and the events are as before.
abbrev pub IsUnmetered : Live → Live → Type 0
IsUnmetered live live' =
    ((t p : String) → live'.tenant_live t p ≡ live.tenant_live t p)
    × ((k p : String) → live'.key_live k p ≡ live.key_live k p)
    × (live'.events ≡ live.events)

unmetered : (live : Live) → IsUnmetered live live
unmetered live = (λ t p. refl, λ k p. refl, refl)

refund :
    (counters : Counters) (name period : String) (milli : ℕ) (t p : String)
    → bump name period (λ n. n - milli) (bump name period (λ n. n + milli) counters) t p
      ≡ counters t p
refund counters name period milli t p = ground arith

-- The credits of the request are taken from the tenant of the key and not given back, and nothing else
-- is counted.
abbrev pub IsLost : Env → Now → Call → Info → Live → Live → Type 0
IsLost env now call info live live' =
    ((t p : String)
      → live'.tenant_live t p
        ≡ bump info.tenant_id now.period (λ n. n + milli_of env call) live.tenant_live t p)
    × ((k p : String) → live'.key_live k p ≡ live.key_live k p)
    × (live'.events ≡ live.events)

module _ (env : Env) (now : Now) (info : Info) (call : Call) where
  -- How a request of the tenant ends that is not served.
  abbrev IsFailed : Live → Answer × Live → Type 0
  IsFailed live (answer, live') =
      IsUnmetered live live'
      ⊎ ((answer ≡ raised) × (forward env call ≡ none) × IsLost env now call info live live')

  serve-IsFailed :
      (live : Live)
      → leb 400 (status_of (serve env now info call (taken env now info call live)).0) ≡ true
      → IsFailed live (serve env now info call (taken env now info call live))
  unfolding serve decr_tenant
  serve-IsFailed live h = elim (Option-cases (forward env call)) [
    | inl e ↦ rw (e, serve) (inr (refl, refl, (λ t p. refl, λ k p. refl, refl)))
    | inr (status, e) ↦ elim (Bool-cases (leb 400 status)) [
      | inr f ↦ let no : leb 400 status ≡ true = rw f at (rw (e, serve) at h) in cc
      | inl f ↦
          rw (e, serve)
            (rw f (
              inl (
                refund live.tenant_live info.tenant_id now.period (milli_of env call),
                λ k p. refl,
                refl,
              )))
    ]
  ]

  charge-IsFailed :
      (live : Live)
      → leb 400 (status_of (charge env now info call live).0) ≡ true
      → IsFailed live (charge env now info call live)
  charge-IsFailed live h = elim (Bool-cases (over env now info call live)) [
    | inl e ↦ rw (charge-over env now info call live e) (inl (unmetered live))
    | inr e ↦
        rw (charge_within env now info call live e)
          (serve-IsFailed live (rw (charge_within env now info call live e) at h))
  ]

  -- A request takes its place in the second without a trace in the credits.
  limited-IsFailed :
      (live : Live)
      → leb 400 (status_of (limited env now info call live).0) ≡ true
      → IsFailed live (limited env now info call live)
  unfolding limited allow_rps
  limited-IsFailed live h =
      let counted : Live = (allow_rps now info.tenant_id info.rps live).1 in
      elim (Bool-cases (info.rps == 0)) [
        | inl e ↦ rw e (charge-IsFailed live (rw e at h))
        | inr e ↦ elim (Bool-cases (leb (suc (live.rps_hits info.tenant_id now.second)) info.rps)) [
          | inl f ↦ rw e (rw f (charge-IsFailed counted (rw f at (rw e at h))))
          | inr f ↦ rw e (rw f (inl (unmetered live)))
        ]
      ]

  authorized-IsFailed :
      (live : Live)
      → leb 400 (status_of (authorized env now info call live).0) ≡ true
      → IsFailed live (authorized env now info call live)
  unfolding authorized
  authorized-IsFailed live h = elim (Option-cases (refusal info (endpoint_of call.path))) [
    | inr (status, e) ↦ rw (e, authorized) (inl (unmetered live))
    | inl e ↦ elim (Bool-cases (env.is_free_path call.path)) [
      | inl f ↦ rw (e, authorized) (rw f (inl (unmetered live)))
      | inr f ↦
          let failed : leb 400 (status_of (limited env now info call live).0) ≡ true =
            rw f at (rw (e, authorized) at h) in
          rw (e, authorized) (rw f (limited-IsFailed live failed))
    ]
  ]

status_from→error : (o : HttpOutcome) → status_from o ≡ none → o ≡ other_error
status_from→error (response status) h = cc
status_from→error http_error h = cc
status_from→error other_error h = refl

-- Where the credits of a request are lost: its key is known, and forwarding it raised an error.
abbrev pub IsLostOf : Env → Now → Call → Live → Answer × Live → Type 0
IsLostOf env now call live (answer, live') =
    (api_key : String) × (info : Info) × (non_empty call.api_key ≡ some api_key)
    × (env.resolve_key api_key ≡ some info)
    × (env.request call ≡ other_error)
    × (answer ≡ raised)
    × IsLost env now call info live live'

-- A request that is answered with a status of 400 or more, by the gateway or by the upstream, costs
-- nothing: the credits of every tenant and key and the list of usage events are as before. The one
-- exception is a request whose forwarding raised an error other than `httpx.HTTPError`, answered with
-- 500: its credits may stay taken from the tenant of its key, and then nothing else is counted.
pub proxy-IsFailed :
    (env : Env) (now : Now) (call : Call) (live : Live)
    → leb 400 (status_of (proxy env now call live).0) ≡ true
    → IsUnmetered live (proxy env now call live).1
      ⊎ IsLostOf env now call live (proxy env now call live)
unfolding proxy resolved forward
proxy-IsFailed env now call live h = elim (Option-cases (non_empty call.api_key)) [
  | inl e ↦ rw (e, proxy) (inl (unmetered live))
  | inr (api_key, e) ↦ elim (Option-cases (env.resolve_key api_key)) [
    | inl f ↦ rw (e, proxy) (rw (f, resolved) (inl (unmetered live)))
    | inr (info, f) ↦
        let failed =
          authorized-IsFailed env now info call live (rw (f, resolved) at (rw (e, proxy) at h)) in
        rw (e, proxy)
          (rw (f, resolved)
            (elim failed [
              | inl kept ↦ inl kept
              | inr (why, error, lost) ↦
                  inr
                    (api_key, info, refl, f, status_from→error (env.request call) error, why, lost)
            ]))
  ]
]
