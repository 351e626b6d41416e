-- ===== src/Interpolation.antt =====
-- shared/interpolation.py: house numbers, street names and the floats of positions. A text is the list
-- of its code points.
pub mod Brackets
pub mod Line
pub mod Estimate
pub mod Reverse
mod Tests
use geocoder_fwd.Prelude.{
  ℕ, ◌+◌, ◌*◌, ◌%◌, Bool, true, false, not, ◌&&◌, ◌||◌, Option, none, some, List, [], ◌∷◌, ◌++◌,
  map, ◌==◌, leb, ltb, if◌then◌else◌, filter, any,
}

abbrev pub Text : Type 0
Text = List ℕ

-- A row of `osm_addresses`; `F` is the type of the floats.
pub record Row (F : Type 0) : Type 0 where
  pub osm_id : ℕ
  pub housenumber : Text
  pub street : Text
  pub city : Text
  pub postcode : Text
  pub country : Text
  pub lat : F
  pub lon : F

abbrev pub Address : Type 0 → Type 0
Address F = ℕ × Row F

-- What `isdigit` and `int` say of a character: no digit, a digit that `int` refuses, or its value.
module _ (digit : ℕ → Option (Option ℕ)) where
  abbrev pub digit_run : Text → List (Option ℕ)
  digit_run [] = []
  digit_run (ch ∷ hn) = let rest = digit_run hn in elim (digit ch) [ none ↦ [] | some d ↦ d ∷ rest ]

  abbrev pub digits_of : Text → List (Option ℕ)
  digits_of [] = []
  digits_of (ch ∷ hn) =
      let rest = digits_of hn in elim (digit ch) [ none ↦ rest | some d ↦ d ∷ digit_run hn ]

  -- `int(digits)`
  abbrev pub int_of : ℕ → List (Option ℕ) → Option ℕ
  int_of n [] = some n
  int_of n (none ∷ ds) = none
  int_of n (some d ∷ ds) = int_of (10 * n + d) ds

  abbrev parsed_digits : List (Option ℕ) → Option ℕ
  parsed_digits [] = none
  parsed_digits (d ∷ ds) = int_of 0 (d ∷ ds)

  unfoldable pub parse_housenumber : Text → Option ℕ
  parse_housenumber hn = parsed_digits (digits_of hn)

  abbrev with_number : {F : Type 0} → Option ℕ → Row F → List (Address F) → List (Address F)
  with_number none row rest = rest
  with_number (some n) row rest = (n, row) ∷ rest

  -- Step 2: the rows whose number can be read.
  unfoldable pub parse_rows : {F : Type 0} → List (Row F) → List (Address F)
  parse_rows [] = []
  parse_rows (row ∷ rows) = with_number (parse_housenumber row.housenumber) row (parse_rows rows)

-- The side of the street.
pub data Parity : Type 0 where
  odd : Parity
  even : Parity

abbrev pub parity : ℕ → Parity
parity n = if n % 2 == 0 then even else odd

abbrev pub parity_eq : Parity → Parity → Bool
parity_eq odd odd = true
parity_eq even even = true
parity_eq odd even = false
parity_eq even odd = false

-- In hundredths.
unfoldable pub interpolation_confidence : ℕ → ℕ
interpolation_confidence gap =
    if leb gap 2
    then 95
    else if leb gap 6
    then 85
    else if leb gap 10
    then 75
    else if leb gap 20
    then 65
    else if leb gap 50
    then 50
    else 30

-- `_AR_DELETE`
abbrev pub ar_delete : ℕ → Bool
ar_delete ch = (leb 1611 ch && ltb ch 1619) || (ch == 1600) || (ch == 1648)

-- `_AR_MAP`: the forms of alef, ta marbuta and alef maqsura.
abbrev pub ar_map : ℕ → ℕ
ar_map ch =
    if (ch == 1571) || (ch == 1573) || (ch == 1570)
    then 1575
    else if ch == 1577
    then 1607
    else if ch == 1609
    then 1610
    else ch

abbrev pub text_eq : Text → Text → Bool
text_eq [] [] = true
text_eq [] (b ∷ t) = false
text_eq (a ∷ s) [] = false
text_eq (a ∷ s) (b ∷ t) = (a == b) && text_eq s t

-- `str.lower`, the spaces of `\s`, and `_STREET_PREFIXES`.
module _ (lower : Text → Text) (is_space : ℕ → Bool) (prefixes : List Text) where
  -- `re.sub(r"\s+", " ", s).strip()`: a space stands before a word that is not the first.
  abbrev pub collapse : Bool → Bool → Text → Text
  collapse started pending [] = []
  collapse started pending (ch ∷ s) =
      let spaced = collapse started started s in
      let word = collapse true false s in
      if is_space ch then spaced else if pending then 32 ∷ ch ∷ word else ch ∷ word

  -- `s.partition(" ")`
  abbrev pub head_of : Text → Text
  head_of [] = []
  head_of (ch ∷ s) = let rest = head_of s in if ch == 32 then [] else ch ∷ rest

  abbrev pub tail_of : Text → Text
  tail_of [] = []
  tail_of (ch ∷ s) = let rest = tail_of s in if ch == 32 then s else rest

  abbrev is_empty : Text → Bool
  is_empty [] = true
  is_empty (ch ∷ s) = false

  abbrev pub strip_prefix : Text → Text
  strip_prefix s =
      if not (is_empty (tail_of s)) && any (text_eq (head_of s)) prefixes then tail_of s else s

  unfoldable pub norm_street : Text → Text
  norm_street s =
      strip_prefix (collapse false false (map ar_map (filter (λ ch. not (ar_delete ch)) (lower s))))

  abbrev member : Text → List Text → Bool
  member s names = any (text_eq s) names

  -- `list(dict.fromkeys(...))`: each name once, in the order of its first place, the empty one left out.
  abbrev pub unique_names : List Text → List Text → List Text
  unique_names seen [] = []
  unique_names seen (n ∷ names) =
      let first = unique_names (n ∷ seen) names in
      let again = unique_names seen names in
      if is_empty n || member n seen then again else n ∷ first

  -- The names that `_gather_addresses` asks the database for; none, and it asks for nothing.
  unfoldable pub gather_names : List Text → List Text
  unfolding norm_street
  gather_names street_names = unique_names [] (map norm_street street_names)
