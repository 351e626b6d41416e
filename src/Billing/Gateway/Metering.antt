-- ===== src/Billing/Gateway/Metering.antt =====
-- billing/gateway.py: what a served request leaves in the counters and in the list of usage events.
use geocoder_fwd.Prelude.{
  ℕ, suc, ◌+◌, ◌≤◌, ◌≡◌, ◌⊎◌, refl, Bool, true, false, Option, none, some, [], ◌∷◌, ◌++◌, String,
  eq_iff, ◌==◌, leb, arith, Bool-cases, Option-cases, inl, inr,
}
use geocoder_fwd.Billing.Weights.Matrix.{non_empty}
use geocoder_fwd.Billing.Gateway.{
  Info, Counters, bump, Live, Now, Call, Env, Answer, err, forwarded, raised, endpoint_of, refusal,
  allow_rps, with_tenant, incr_tenant_if_allowed, forward, milli_of, cap_of, exceeds, serve, charge,
  limited, authorized, resolved, proxy,
}

abbrev pub status_of : Answer → ℕ
status_of (err status) = status
status_of (forwarded status) = status
status_of raised = 500

module _ (env : Env) (now : Now) (info : Info) (call : Call) where
  abbrev pub over : Live → Bool
  over live = exceeds (cap_of info) (milli_of env call) (live.tenant_live info.tenant_id now.period)

  -- The state with the credits taken.
  abbrev pub taken : Live → Live
  taken live =
      with_tenant (bump info.tenant_id now.period (λ n. n + milli_of env call) live.tenant_live)
        live

  abbrev pub increment : Live → Option Live
  increment live =
      incr_tenant_if_allowed info.tenant_id now.period (cap_of info) (milli_of env call) live

  incr_over : (live : Live) → over live ≡ true → increment live ≡ none
  unfolding incr_tenant_if_allowed
  incr_over live h = rw h refl

  incr_within : (live : Live) → over live ≡ false → increment live ≡ some (taken live)
  unfolding incr_tenant_if_allowed
  incr_within live h = rw h refl

  pub charge-over :
      (live : Live) → over live ≡ true → charge env now info call live ≡ (err 429, live)
  unfolding charge
  charge-over live h = rw (incr_over live h, charge) refl

  pub charge_within :
      (live : Live)
      → over live ≡ false
      → charge env now info call live ≡ serve env now info call (taken live)
  unfolding charge
  charge_within live h = rw (incr_within live h, charge) refl

  -- A request takes its place in the second without a trace in the credits.
  counted : Live → Live
  unfolding allow_rps
  counted live = (allow_rps now info.tenant_id info.rps live).1

  -- What a served request adds: its weight to the tenant's and to the key's counter, and its event.
  abbrev pub IsMetered : Live → Live → Type 0
  IsMetered live live' =
      (live'.tenant_live info.tenant_id now.period
        ≡ live.tenant_live info.tenant_id now.period + milli_of env call)
      × (live'.key_live info.key_id now.period
          ≡ live.key_live info.key_id now.period + milli_of env call)
      × (live'.events
          ≡ live.events
            ++ (record {
              tenant_id = info.tenant_id;
              key_id = info.key_id;
              period = now.period;
              day = now.day;
              endpoint = some (endpoint_of call.path);
              milli = some (milli_of env call);
            }
                ∷ []))
      × ((cap_of info ≡ 0) ⊎ (live'.tenant_live info.tenant_id now.period ≤ cap_of info))

  bumped :
      (counters : Counters) (name period : String) (m : ℕ)
      → bump name period (λ n. n + m) counters name period ≡ counters name period + m
  bumped counters name period m = ground (arith, eq_iff name name, eq_iff period period)

  fits : (cap milli count : ℕ) → exceeds cap milli count ≡ false → (cap ≡ 0) ⊎ (count + milli ≤ cap)
  unfolding exceeds
  fits cap milli count h = ground (arith, h)

  serve-IsMetered :
      (live : Live)
      → leb 400 (status_of (serve env now info call (taken live)).0) ≡ false
      → over live ≡ false
      → IsMetered live (serve env now info call (taken live)).1
  unfolding serve
  serve-IsMetered live h room =
      let tenant = bumped live.tenant_live info.tenant_id now.period (milli_of env call) in
      elim (Option-cases (forward env call)) [
        | inl e ↦ let no : leb 400 500 ≡ false = rw (e, serve) at h in cc
        | inr (status, e) ↦ elim (Bool-cases (leb 400 status)) [
          | inl f ↦ let no : leb 400 status ≡ false = rw f at (rw (e, serve) at h) in cc
          | inr f ↦
              rw (e, serve)
                (rw f (
                  tenant,
                  bumped live.key_live info.key_id now.period (milli_of env call),
                  refl,
                  rw tenant (
                      fits (cap_of info) (milli_of env call)
                        (live.tenant_live info.tenant_id now.period) room),
                ))
        ]
      ]

  charge-IsMetered :
      (live : Live)
      → leb 400 (status_of (charge env now info call live).0) ≡ false
      → IsMetered live (charge env now info call live).1
  charge-IsMetered live h = elim (Bool-cases (over live)) [
    | inl e ↦ let no : leb 400 429 ≡ false = rw (charge-over live e) at h in cc
    | inr e ↦ rw (charge_within live e) (serve-IsMetered live (rw (charge_within live e) at h) e)
  ]

  limited-IsMetered :
      (live : Live)
      → leb 400 (status_of (limited env now info call live).0) ≡ false
      → IsMetered live (limited env now info call live).1
  unfolding limited allow_rps counted
  limited-IsMetered live h = elim (Bool-cases (info.rps == 0)) [
    | inl e ↦ rw e (charge-IsMetered live (rw e at h))
    | inr e ↦ elim (Bool-cases (leb (suc (live.rps_hits info.tenant_id now.second)) info.rps)) [
      | inl f ↦ rw e (rw f (charge-IsMetered (counted live) (rw f at (rw e at h))))
      | inr f ↦ let no : leb 400 429 ≡ false = rw f at (rw e at h) in cc
    ]
  ]

  authorized-IsMetered :
      (live : Live)
      → refusal info (endpoint_of call.path) ≡ none
      → env.is_free_path call.path ≡ false
      → leb 400 (status_of (authorized env now info call live).0) ≡ false
      → IsMetered live (authorized env now info call live).1
  unfolding authorized
  authorized-IsMetered live e f h =
      let served : leb 400 (status_of (limited env now info call live).0) ≡ false =
        rw f at (rw (e, authorized) at h) in
      rw (e, authorized) (rw f (limited-IsMetered live served))

-- A request with an authorized key, of a path that is not free, that is answered with a status below
-- 400 is charged once: its weight is added to the counters of its tenant and key and one event of
-- that weight is queued; and the tenant's counter is within the cap, if there is a hard one above 0.
pub proxy-IsMetered :
    (env : Env) (now : Now) (call : Call) (live : Live) (api_key : String) (info : Info)
    → non_empty call.api_key ≡ some api_key
    → env.resolve_key api_key ≡ some info
    → refusal info (endpoint_of call.path) ≡ none
    → env.is_free_path call.path ≡ false
    → leb 400 (status_of (proxy env now call live).0) ≡ false
    → IsMetered env now info call live (proxy env now call live).1
unfolding proxy resolved
proxy-IsMetered env now call live api_key info key found allowed paid h =
    let served = rw (found, resolved) at (rw (key, proxy) at h) in
    rw (key, proxy)
      (rw (found, resolved) (authorized-IsMetered env now info call live allowed paid served))
