-- ===== src/Billing/ControlPlane/Names.antt =====
-- billing/apisix_admin.py: the names of consumers.
use Prim.Native.Char.{Char, char, code, IsScalar}
use mathlib.Core.Path.{subst}
use geocoder_fwd.Prelude.{
  ℕ, ◌≡◌, refl, sym, ap, Bool, true, false, not, ◌&&◌, Option, none, some, String, ◌==◌,
  if◌then◌else◌, Bool-cases, inl, inr, arith,
}

-- `s.replace(old, new)`, for characters.
abbrev pub replaced : Char → Char → String → String
replaced old new String.[] = String.[]
replaced old new (String.◌∷◌ c s) =
    let rest = replaced old new s in
    if code c == code old then String.◌∷◌ new rest else String.◌∷◌ c rest

abbrev pub dash : Char
dash = char 45 tt

abbrev pub underscore : Char
underscore = char 95 tt

unfoldable pub consumer_name : String → String
consumer_name key_id =
    String.◌∷◌ (char 107 tt) (String.◌∷◌ underscore (replaced dash underscore key_id))

abbrev pub after_underscore : Char → Char → String → Option String
after_underscore k c s =
    if code k == 107 && (code c == 95) then some (replaced underscore dash s) else none

unfoldable pub key_id_from_consumer : String → Option String
key_id_from_consumer String.[] = none
key_id_from_consumer (String.◌∷◌ k String.[]) = none
key_id_from_consumer (String.◌∷◌ k (String.◌∷◌ c s)) = after_underscore k c s

unfoldable pub lacks : Char → String → Bool
lacks c String.[] = true
lacks c (String.◌∷◌ d s) = not (code d == code c) && lacks c s

is_dash : (c : Char) → (code c == 45) ≡ true → c ≡ dash
is_dash (char n p) h =
    let same : n ≡ 45 = ground arith in
    subst (λ (m : ℕ). (q : IsScalar m) → char m q ≡ dash) (sym same) (λ q. refl) p

replaced_back :
    (s : String)
    → lacks underscore s ≡ true
    → replaced underscore dash (replaced dash underscore s) ≡ s
unfolding lacks
replaced_back String.[] h = refl
replaced_back (String.◌∷◌ c s) h = elim (Bool-cases (code c == 95)) [
  | inl u ↦ let no : false ≡ true = rw u at h in cc
  | inr u ↦
      let rest = replaced_back s (rw u at h) in
      elim (Bool-cases (code c == 45)) [
        | inl d ↦ rw d (rw rest (ap (λ x. String.◌∷◌ x s) (sym (is_dash c d))))
        | inr d ↦ rw d (rw u (ap (λ r. String.◌∷◌ c r) rest))
      ]
]

-- The name of a key's consumer gives back the key's id, if that has no underscore, as a UUID has none.
key_id_from_consumer-consumer_name :
    (key_id : String)
    → lacks underscore key_id ≡ true
    → key_id_from_consumer (consumer_name key_id) ≡ some key_id
unfolding key_id_from_consumer consumer_name
key_id_from_consumer-consumer_name key_id h = ap some (replaced_back key_id h)
