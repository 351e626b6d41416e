-- ===== src/Traffic/Writer/Chunks.antt =====
-- `_chunks` of services/traffic_writer.py. `range(0, len(seq), size)` makes no more rounds than
-- `seq` has items, so its length is fuel enough.
use geocoder_fwd.Prelude.{
  ℕ, zero, suc, ◌≤◌, ◌<◌, ◌≡◌, refl, ap, ◌∙◌, List, [], ◌∷◌, ◌++◌, length, take, drop, flatten, All,
  take-append-drop, length-take_le, length-drop_le, arith,
}

module _ {A : Type 0} where
  chunks_from : ℕ → ℕ → List A → List (List A)
  chunks_from zero size seq = []
  chunks_from (suc fuel) size [] = []
  chunks_from (suc fuel) size (x ∷ seq) =
      take size (x ∷ seq) ∷ chunks_from fuel size (drop size (x ∷ seq))

  unfoldable pub chunks : List A → ℕ → List (List A)
  unfolding chunks_from
  chunks seq size = chunks_from (length seq) size seq

  chunks_from-flatten :
      (fuel size : ℕ) (seq : List A)
      → 0 < size
      → length seq ≤ fuel
      → flatten (chunks_from fuel size seq) ≡ seq
  unfolding chunks_from
  chunks_from-flatten zero size [] h k = refl
  chunks_from-flatten zero size (x ∷ seq) h k = absurd (omega arith)
  chunks_from-flatten (suc fuel) size [] h k = refl
  chunks_from-flatten (suc fuel) zero (x ∷ seq) h k = absurd (omega arith)
  chunks_from-flatten (suc fuel) (suc size) (x ∷ seq) h k =
      ap (λ t. x ∷ (take size seq ++ t))
        (chunks_from-flatten fuel (suc size) (drop size seq) h
          (omega (arith, length-drop_le size seq)))
      ∙ ap (λ t. x ∷ t) (take-append-drop size seq)

  chunks_from-length :
      (fuel size : ℕ) (seq : List A) → All (λ c. length c ≤ size) (chunks_from fuel size seq)
  unfolding chunks_from
  chunks_from-length zero size seq = tt
  chunks_from-length (suc fuel) size [] = tt
  chunks_from-length (suc fuel) size (x ∷ seq) =
      (length-take_le size (x ∷ seq), chunks_from-length fuel size (drop size (x ∷ seq)))

  -- The batches, one after the other, are the whole sequence in order, and none is longer than the
  -- batch size.
  pub flatten-chunks :
      (seq : List A) (size : ℕ)
      → 0 < size
      → (flatten (chunks seq size) ≡ seq) × All (λ c. length c ≤ size) (chunks seq size)
  unfolding chunks
  flatten-chunks seq size h = (
    chunks_from-flatten (length seq) size seq h (omega arith),
    chunks_from-length (length seq) size seq,
  )
