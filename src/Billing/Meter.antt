-- ===== src/Billing/Meter.antt =====
-- billing/usage.py and billing/gateway.py: the shared counter of a tenant's month, in milli-credits,
-- under requests that run at once. One turn of a request is one command to Redis, so an interleaving
-- is a list that says whose turn it is. All requests are of one tenant, with the one cap of its plan.
pub mod Turns
use geocoder_fwd.Prelude.{
  ℕ, zero, suc, ◌+◌, ◌-◌, Bool, true, false, Option, none, some, List, [], ◌∷◌, ◌==◌, ltb,
  if◌then◌else◌,
}

-- The key in Redis: its value, and the number of writes to it, by which EXEC knows whether the key
-- was written since WATCH.
pub record Counter : Type 0 where
  pub count : ℕ
  pub writes : ℕ

-- Where a request stands: before WATCH, before GET, before EXEC, with the credits taken and the
-- upstream asked, and the ends: without credits (429), served and counted, refunded.
pub data Phase : Type 0 where
  starting : Phase
  watching : ℕ → Phase
  queued : ℕ → Phase
  allowed : ℕ → Phase
  refused : Phase
  served : Phase
  refunded : Phase

-- `upstream_ok`: the upstream answers with a status below 400.
pub record Request : Type 0 where
  pub milli : ℕ
  pub upstream_ok : Bool
  pub phase : Phase

-- INCRBY, and DECRBY.
unfoldable pub incr_tenant : ℕ → Counter → Counter
incr_tenant milli c = record { count = c.count + milli; writes = suc c.writes }

unfoldable pub decr_tenant : ℕ → Counter → Counter
decr_tenant milli c = record { count = c.count - milli; writes = suc c.writes }

abbrev pub enter : Request → Phase → Request
enter r phase = record { milli = r.milli; upstream_ok = r.upstream_ok; phase = phase }

-- The next command of `incr_tenant_if_allowed`, and after it the refund of the gateway.
unfoldable pub turn_from : ℕ → Request → Phase → Counter → Request × Counter
unfolding incr_tenant decr_tenant
turn_from cap_milli r starting c =
    if cap_milli == 0
    then (enter r (allowed (c.count + r.milli)), incr_tenant r.milli c)
    else (enter r (watching c.writes), c)
turn_from cap_milli r (watching seen) c =
    if ltb cap_milli (c.count + r.milli) then (enter r refused, c) else (enter r (queued seen), c)
turn_from cap_milli r (queued seen) c =
    if seen == c.writes
    then (enter r (allowed (c.count + r.milli)), incr_tenant r.milli c)
    else (enter r starting, c)
turn_from cap_milli r (allowed count) c =
    if r.upstream_ok then (enter r served, c) else (enter r refunded, decr_tenant r.milli c)
turn_from cap_milli r refused c = (r, c)
turn_from cap_milli r served c = (r, c)
turn_from cap_milli r refunded c = (r, c)

unfoldable pub turn : ℕ → Request → Counter → Request × Counter
unfolding turn_from
turn cap_milli r c = turn_from cap_milli r r.phase c

-- A turn of the request at a position.
unfoldable pub turn_at : ℕ → ℕ → List Request → Counter → List Request × Counter
unfolding turn
turn_at cap_milli i [] c = ([], c)
turn_at cap_milli zero (r ∷ rs) c = let (r', c') = turn cap_milli r c in (r' ∷ rs, c')
turn_at cap_milli (suc i) (r ∷ rs) c = let (rs', c') = turn_at cap_milli i rs c in (r ∷ rs', c')

-- The turns of an interleaving, in order.
unfoldable pub turns : ℕ → List ℕ → List Request → Counter → List Request × Counter
unfolding turn_at
turns cap_milli [] rs c = (rs, c)
turns cap_milli (i ∷ schedule) rs c =
    let (rs', c') = turn_at cap_milli i rs c in turns cap_milli schedule rs' c'
