-- ===== src/Ranking/Rank/Order.antt =====
-- shared/ranking.py: ranks of areas by their admin levels.
use geocoder_fwd.Prelude.{
  ℕ, ◌+◌, ◌*◌, ◌/◌, ◌%◌, ◌≤◌, ◌<◌, ◌≡◌, refl, ap, ◌⊎◌, Bool, true, false, some, String, Dict, ◌==◌,
  ltb, if◌then◌else◌, arith, Bool-cases, inl, inr,
}
use geocoder_fwd.Prelude.Int.{pos}
use geocoder_fwd.Traffic.Speed.{round_half_even}
use geocoder_fwd.Ranking.Signals.{Builtins, one, admin_score}
use geocoder_fwd.Ranking.Rank.{raw, w_total, compute_offline_rank, is_boundary}
use geocoder_fwd.Ranking.Rank.Bounds.{product_pos, w_total_pos}
use native.Mathlib.Nat.{mod-lt, div-add-mod}

both : (e : Bool) {x y : ℕ} → x ≤ y → (if e then 0 else x) ≤ (if e then 0 else y)
both true h = omega arith
both false h = h

product-le : (r q d : ℕ) → q < r → d * q + d ≤ d * r
product-le r q d h = grind arith

-- The quotient and the remainder, in the order of the numerators.
div_order : (n m d : ℕ) → 0 < d → n ≤ m → (n / d < m / d) ⊎ ((n / d ≡ m / d) × (n % d ≤ m % d))
div_order n m d hd h = elim (Bool-cases (ltb (n / d) (m / d))) [
  | inl e ↦ inl (ground (arith, e))
  | inr e ↦ elim (Bool-cases (n / d == m / d)) [
    | inl f ↦
        let same : n / d ≡ m / d = ground (arith, f) in
        inr (same, omega (arith, h, div-add-mod n d, div-add-mod m d, ap (λ q. d * q) same))
    | inr f ↦
        let less : m / d < n / d = ground (arith, e, f) in
        omega (
          arith,
          h,
          div-add-mod n d,
          div-add-mod m d,
          mod-lt m hd,
          product-le (n / d) (m / d) d less,
        )
  ]
]

-- Rounding keeps the order.
round_half_even_mono : (n m d : ℕ) → 0 < d → n ≤ m → round_half_even n d ≤ round_half_even m d
unfolding round_half_even
round_half_even_mono n m d hd h = elim (div_order n m d hd h) [
  | inl less ↦ ground (arith, less)
  | inr (same, rests) ↦ rw same (ground (arith, rests))
]

admin_score_mono :
    (a c : ℕ) → 0 < a → a ≤ c → admin_score (some (pos c)) ≤ admin_score (some (pos a))
unfolding admin_score
admin_score_mono a c ha h = ground arith

scaled_mono : (p s t : ℕ) → s ≤ t → 42 * p * s ≤ 42 * p * t
scaled_mono p s t h = grind arith

boundary : (a : ℕ) → 0 < a → is_boundary (some (pos a)) ≡ true
unfolding is_boundary
boundary a h = ground arith

module _ (b : Builtins) (tags : Dict String) (a c : ℕ) (area_km2 : b.Float) where
  raw_mono : 0 < a → a ≤ c → raw b tags (some (pos c)) area_km2 ≤ raw b tags (some (pos a)) area_km2
  unfolding raw
  raw_mono ha h = rw (boundary a ha) (
      rw (boundary c (omega (arith, ha, h))) (
        omega (
          arith,
          scaled_mono b.precision (admin_score (some (pos c))) (admin_score (some (pos a)))
              (admin_score_mono a c ha h),
        )))

  w_total_same :
      0 < a
      → a ≤ c
      → w_total b tags (some (pos c)) area_km2 ≡ w_total b tags (some (pos a)) area_km2
  unfolding w_total
  w_total_same ha h = rw (boundary a ha) (rw (boundary c (omega (arith, ha, h))) refl)

-- Of two administrative areas with the same tags and area, the one with the lower admin level
-- (above 0) ranks at least as high, if logarithms are given with some precision.
compute_offline_rank_mono :
    (b : Builtins) (tags : Dict String) (a c : ℕ) (area_km2 : b.Float)
    → 0 < b.precision
    → 0 < a
    → a ≤ c
    → compute_offline_rank b tags (some (pos c)) area_km2
      ≤ compute_offline_rank b tags (some (pos a)) area_km2
unfolding compute_offline_rank
compute_offline_rank_mono b tags a c area_km2 hp ha h =
    let low = raw b tags (some (pos c)) area_km2 in
    let high = raw b tags (some (pos a)) area_km2 in
    let total = w_total b tags (some (pos a)) area_km2 in
    let order = raw_mono b tags a c area_km2 ha h in
    let positive = product_pos total b.precision (w_total_pos b tags (some (pos a)) area_km2) hp in
    let rounded =
      round_half_even_mono (100000 * low) (100000 * high) (total * one b) positive
        (omega (arith, order)) in
    rw (w_total_same b tags a c area_km2 ha h) (both (total == 0) rounded)
