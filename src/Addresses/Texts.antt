-- ===== src/Addresses/Texts.antt =====
-- shared/address.py: the operations of Python on texts, and the simplest patterns of its regular
-- expressions.
use geocoder_fwd.Prelude.{
  ℕ, ◌-◌, Bool, true, false, not, ◌&&◌, ◌||◌, Option, none, some, List, [], ◌∷◌, ◌==◌,
  if◌then◌else◌, map, length, take,
}
use geocoder_fwd.Addresses.{Text, is_empty, is_space, lstrip, strip}

abbrev pub equal : Text → Text → Bool
equal [] [] = true
equal [] (d ∷ t) = false
equal (c ∷ s) [] = false
equal (c ∷ s) (d ∷ t) = (c == d) && equal s t

-- `s.split(",")`
abbrev pub commas : Text → Text × List Text
commas [] = ([], [])
commas (c ∷ s) = let (p, ps) = commas s in if c == 44 then ([], p ∷ ps) else (c ∷ p, ps)

unfoldable pub parts : Text → List Text
unfolding strip
parts q = map strip ((commas q).0 ∷ (commas q).1)

abbrev pub every : (ℕ → Bool) → Text → Bool
every f [] = true
every f (c ∷ s) = f c && every f s

-- `p` at the start of the text, and what follows.
abbrev pub after_prefix : (ℕ → ℕ → Bool) → Text → Text → Option Text
after_prefix same [] s = some s
after_prefix same (c ∷ p) [] = none
after_prefix same (c ∷ p) (d ∷ s) = if same c d then after_prefix same p s else none

-- `\s+(.+)`: white space, and then something.
abbrev pub after_space : Text → Option Text
after_space [] = none
after_space (c ∷ s) =
    let rest = lstrip s in if is_space c && not (is_empty rest) then some rest else none

-- A run, and what follows it.
abbrev pub span : (ℕ → Bool) → Text → Text × Text
span f [] = ([], [])
span f (c ∷ s) = let (run, rest) = span f s in if f c then (c ∷ run, rest) else ([], c ∷ s)

-- `s.endswith(t)`, and what `s[:-len(t)]` leaves.
abbrev pub ends_with : Text → Text → Bool
ends_with t [] = is_empty t
ends_with t (c ∷ s) = let rest = ends_with t s in equal t (c ∷ s) || rest

abbrev pub without_end : Text → Text → Text
without_end t s = take (length s - length t) s
