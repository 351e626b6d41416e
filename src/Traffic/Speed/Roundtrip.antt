-- ===== src/Traffic/Speed/Roundtrip.antt =====
-- Packing and unpacking a speed record, both ways.
use geocoder_fwd.Prelude.{
  ℕ, ◌+◌, ◌*◌, ◌/◌, ◌%◌, ◌^◌, ◌<◌, ◌≡◌, refl, ap, ◌∙◌, some, map, [], ◌∷◌, Dict, lookup, arith,
}
use geocoder_fwd.Prelude.Bits.{pow-add}
use geocoder_fwd.Traffic.Speed.{Table, speed_fields, assemble_speed, unpack_speed}
use geocoder_fwd.Traffic.Speed.Layout.{
  field_part, packed, fields_of, width, pow_pos, assemble_speed-packed, unpack_speed-fields_of,
}
use native.Mathlib.Nat.{
  mod-lt, mod-eq_of_lt, mod-mod, div-add-mod, div-eq_of_lt, add-mul-mod_self_left, add-mul-div_left,
  mul-add-mod_self_left,
}

-- The lowest field and the rest of a sum.
low_part : (x m q : ℕ) → x < m → (x + m * q) % m ≡ x
low_part x m q h = add-mul-mod_self_left x m q ∙ mod-eq_of_lt h

high_part : (x m q : ℕ) → x < m → (x + m * q) / m ≡ q
high_part x m q h = omega (arith, add-mul-div_left x q {y = m} (omega arith), div-eq_of_lt h)

-- A remainder by a product, digit by digit.
mod_split : (v m k : ℕ) → 0 < m → 0 < k → v % (m * k) ≡ v % m + m * (v / m % k)
mod_split v m k hm hk =
    let q : ℕ = v / m / k in
    let r : ℕ = v % m + m * (v / m % k) in
    let split : v ≡ m * k * q + r =
      omega (arith, div-add-mod v m, ap (λ t. m * t) (div-add-mod (v / m) k)) in
    let below : r < m * k = grind (arith, mod-lt v hm, mod-lt (v / m) hk) in
    ap (λ t. t % (m * k)) split ∙ mul-add-mod_self_left (m * k) q r ∙ mod-eq_of_lt below

fields_of-packed :
    (table : Table) (fields : Dict ℕ)
    → fields_of table (packed table fields) ≡ map (λ f. (f.0, field_part f.1 f.0 fields)) table
unfolding fields_of packed
fields_of-packed [] fields = refl
fields_of-packed ((name, bits) ∷ table) fields =
    let part : ℕ = field_part bits name fields in
    let fits : part < 2 ^ bits = mod-lt _ (pow_pos bits) in
    rw (low_part part (2 ^ bits) (packed table fields) fits) (
      rw (high_part part (2 ^ bits) (packed table fields) fits)
        (ap (λ t. (name, part) ∷ t) (fields_of-packed table fields)))

-- `fields` holds what each field of `table` reads in `value`.
abbrev Reads : Table → ℕ → Dict ℕ → Type 0
Reads [] value fields = Unit
Reads ((name, bits) ∷ table) value fields =
    (lookup name fields ≡ some (value % 2 ^ bits)) × Reads table (value / 2 ^ bits) fields

packed-Reads :
    (table : Table) (value : ℕ) (fields : Dict ℕ)
    → Reads table value fields
    → packed table fields ≡ value % 2 ^ width table
unfolding packed width
packed-Reads [] value fields h = omega arith
packed-Reads ((name, bits) ∷ table) value fields (found, h) = rw found (
    rw (pow-add 2 bits (width table)) (
      omega (
        arith,
        mod-mod value (2 ^ bits),
        ap (λ t. 2 ^ bits * t) (packed-Reads table (value / 2 ^ bits) fields h),
        mod_split value (2 ^ bits) (2 ^ width table) (pow_pos bits) (pow_pos (width table)),
      )))

-- The eleven names differ, so each is found.
speed_fields-Reads : (value : ℕ) → Reads speed_fields value (fields_of speed_fields value)
unfolding fields_of lookup
speed_fields-Reads value =
    (refl, (refl, (refl, (refl, (refl, (refl, (refl, (refl, (refl, (refl, (refl, tt)))))))))))

-- Unpacking an assembled record gives the eleven fields in order, each reduced to its width, and 0
-- for a field that was not given.
pub unpack_speed-assemble_speed :
    (fields : Dict ℕ)
    → unpack_speed (assemble_speed fields)
      ≡ map (λ f. (f.0, field_part f.1 f.0 fields)) speed_fields
unpack_speed-assemble_speed fields =
    unpack_speed-fields_of (assemble_speed fields)
    ∙ ap (fields_of speed_fields) (assemble_speed-packed fields)
    ∙ fields_of-packed speed_fields fields

-- Assembling the unpacked fields of a value gives its low 64 bits: every record of a tile survives.
assemble_speed-unpack_speed : (value : ℕ) → assemble_speed (unpack_speed value) ≡ value % 2 ^ 64
unfolding width
assemble_speed-unpack_speed value =
    ap assemble_speed (unpack_speed-fields_of value)
    ∙ assemble_speed-packed (fields_of speed_fields value)
    ∙ packed-Reads speed_fields value (fields_of speed_fields value) (speed_fields-Reads value)
