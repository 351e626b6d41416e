-- ===== src/Traffic/Speed/Layout.antt =====
-- A record is the sum of its fields, each at the weight of the bits below it.
use geocoder_fwd.Prelude.{
  ℕ, ◌+◌, ◌*◌, ◌/◌, ◌%◌, ◌^◌, ◌<◌, ◌≡◌, refl, ap, sym, ◌∙◌, [], ◌∷◌, String, Dict, lookup, get_or,
  arith,
}
use geocoder_fwd.Prelude.Bits.{bit_and-low_mask, bit_or-shl, pow-add}
use geocoder_fwd.Traffic.Speed.{
  Table, speed_fields, assemble_from, assemble_speed, unpack_from, unpack_speed,
}
use native.Mathlib.Nat.{one-le-pow, mod-lt, div-div-eq-div-mul}

abbrev pub field_part : ℕ → String → Dict ℕ → ℕ
field_part bits name fields = get_or 0 (lookup name fields) % 2 ^ bits

-- The value of a record, by recursion on the table.
unfoldable pub packed : Table → Dict ℕ → ℕ
packed [] fields = 0
packed ((name, bits) ∷ table) fields = field_part bits name fields + 2 ^ bits * packed table fields

-- The fields of a value, by recursion on the table.
unfoldable pub fields_of : Table → ℕ → Dict ℕ
fields_of [] value = []
fields_of ((name, bits) ∷ table) value =
    (name, value % 2 ^ bits) ∷ fields_of table (value / 2 ^ bits)

unfoldable pub width : Table → ℕ
width [] = 0
width ((name, bits) ∷ table) = bits + width table

pub pow_pos : (k : ℕ) → 0 < 2 ^ k
pow_pos k = one-le-pow k 2 (omega arith)

-- A field above `v` stays below the sum of the widths.
field_fits : (v p a b : ℕ) → v < a → p < b → v + p * a < a * b
field_fits v p a b h k = grind arith

regroup : (v p a b q : ℕ) → v + p * a + a * b * q ≡ v + a * (p + b * q)
regroup v p a b q = omega arith

assemble_from-packed :
    (table : Table) (fields : Dict ℕ) (value shift : ℕ)
    → value < 2 ^ shift
    → assemble_from table fields value shift ≡ value + 2 ^ shift * packed table fields
unfolding assemble_from packed
assemble_from-packed [] fields value shift h = omega arith
assemble_from-packed ((name, bits) ∷ table) fields value shift h =
    let part : ℕ = field_part bits name fields in
    let fits : value + part * 2 ^ shift < 2 ^ (shift + bits) = rw (pow-add 2 shift bits) (
      field_fits value part (2 ^ shift) (2 ^ bits) h
        (mod-lt (get_or 0 (lookup name fields)) (pow_pos bits))) in
    rw (bit_and-low_mask bits (get_or 0 (lookup name fields))) (
      rw (bit_or-shl shift value part h) (
        assemble_from-packed table fields (value + part * 2 ^ shift) (shift + bits) fits
        ∙ ap (λ t. value + part * 2 ^ shift + t * packed table fields) (pow-add 2 shift bits)
        ∙ regroup value part (2 ^ shift) (2 ^ bits) (packed table fields)))

unpack_from-fields_of :
    (table : Table) (value shift : ℕ)
    → unpack_from table value shift ≡ fields_of table (value / 2 ^ shift)
unfolding unpack_from fields_of
unpack_from-fields_of [] value shift = refl
unpack_from-fields_of ((name, bits) ∷ table) value shift =
    let shifted : value / 2 ^ (shift + bits) ≡ value / 2 ^ shift / 2 ^ bits =
      ap (λ t. value / t) (pow-add 2 shift bits)
      ∙ sym (div-div-eq-div-mul value (2 ^ shift) (2 ^ bits)) in
    rw (bit_and-low_mask bits (value / 2 ^ shift)) (
      ap (λ t. (name, value / 2 ^ shift % 2 ^ bits) ∷ t)
        (unpack_from-fields_of table value (shift + bits) ∙ ap (fields_of table) shifted))

pub assemble_speed-packed : (fields : Dict ℕ) → assemble_speed fields ≡ packed speed_fields fields
unfolding assemble_speed
assemble_speed-packed fields =
    omega (arith, assemble_from-packed speed_fields fields 0 0 (omega arith))

pub unpack_speed-fields_of : (value : ℕ) → unpack_speed value ≡ fields_of speed_fields value
unfolding unpack_speed
unpack_speed-fields_of value =
    unpack_from-fields_of speed_fields value 0 ∙ ap (fields_of speed_fields) (omega arith)

-- A record fits the width of its table.
pub packed-lt : (table : Table) (fields : Dict ℕ) → packed table fields < 2 ^ width table
unfolding packed width
packed-lt [] fields = omega arith
packed-lt ((name, bits) ∷ table) fields = rw (pow-add 2 bits (width table)) (
    omega (
      arith,
      field_fits (field_part bits name fields) (packed table fields) (2 ^ bits) (2 ^ width table)
          (mod-lt (get_or 0 (lookup name fields)) (pow_pos bits)) (packed-lt table fields),
    ))
