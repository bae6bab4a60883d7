-- ===== src/AddressTable/Fields/Laws.antt =====
-- `split` of src/utils.cpp on words that a delimiter joins.
use ctp7_modules.Prelude.{ℕ, [], ◌∷◌, ◌++◌, append_assoc, append-nil, ◌≡◌, ◌≢◌, refl, arith, All}
use ctp7_modules.Effect.{Bytes}
use ctp7_modules.AddressTable.Fields.{cut, split}

abbrev pub Lacks : ℕ → Bytes → Type 0
Lacks b = All (λ c. c ≢ b)

module _ (delim : ℕ) where
  cut_word :
      (p rest item : Bytes)
      → Lacks delim p
      → cut delim (p ++ delim ∷ rest) item ≡ (item ++ p) ∷ cut delim rest []
  unfolding cut
  cut_word [] rest item h = ground (arith, append-nil item)
  cut_word (c ∷ p) rest item h =
      ground (arith, cut_word p rest (item ++ c ∷ []) h.1, append_assoc item (c ∷ []) p)

  cut_last : (p item : Bytes) → Lacks delim p → item ++ p ≢ [] → cut delim p item ≡ (item ++ p) ∷ []
  unfolding cut
  cut_last [] [] h ne = absurd (ne refl)
  cut_last [] (c ∷ item) h ne = ground (arith, append-nil item)
  cut_last (c ∷ p) item h ne =
      ground (arith, cut_last p (item ++ c ∷ []) h.1, append_assoc item (c ∷ []) p)

  pub split_word :
      (p rest : Bytes) → Lacks delim p → split (p ++ delim ∷ rest) delim ≡ p ∷ split rest delim
  unfolding split
  split_word p rest h = cut_word p rest [] h

  pub split_last : (p : Bytes) → Lacks delim p → p ≢ [] → split p delim ≡ p ∷ []
  unfolding split
  split_last p h ne = cut_last p [] h ne
