-- ===== src/BlasterRam/Laws.antt =====
-- What the transfers of blobs guarantee.
use ctp7_modules.Prelude.{
  ℕ, zero, suc, ◌+◌, ◌*◌, ◌%◌, ◌^◌, ◌<◌, String, List, ◌++◌, Option, none, some, if◌then◌else◌,
  length, take, drop, ◌≡◌, arith, ap, sym, ◌∙◌, Bool-cases, inl, inr, length-append, length-take,
  length-drop, lt→ltb, le→ltb_false, lt_or_le,
}
use ctp7_modules.Effect.{Card, World, Bytes, ok, continue-eq-ok, ok-injective, fault-ne-ok}
use ctp7_modules.Names.{decimal, ◌◇◌}
use ctp7_modules.Register.{read_block, target_of, check_block}
use ctp7_modules.Register.Block.{read_granted}
use ctp7_modules.BlasterRam.Size.{is_selected}
use ctp7_modules.BlasterRam.Read.{store, read_into, read_links}

store-length :
    {S : Type 0} (blob : List ℕ) (at : ℕ) (block : Option (List ℕ)) (w w' : World S)
    (blob' : List ℕ)
    → store blob at block w ≡ (ok blob', w')
    → length blob' ≡ length blob
unfolding store
store-length blob at none w w' blob' = λ e. ap length (sym (ok-injective (ap (λ x. x.0) e)))
store-length blob at (some block) w w' blob' = elim (lt_or_le (length blob) (at + length block)) [
  | inl lt ↦
      rw (lt→ltb (length blob) (at + length block) lt) λ e. absurd (fault-ne-ok (ap (λ x. x.0) e))
  | inr le ↦ rw (le→ltb_false (length blob) (at + length block) le) λ e.
      ap length (sym (ok-injective (ap (λ x. x.0) e)))
      ∙ omega (
        arith,
        length-append (take at blob ++ block) (drop (at + length block) blob),
        length-append (take at blob) block,
        length-take at blob (omega arith),
        length-drop (at + length block) blob le,
      )
]

-- How many of the links from `oh` on are in the mask.
abbrev pub selected : ℕ → ℕ → ℕ → ℕ
selected ohMask oh zero = 0
selected ohMask oh (suc left) =
    (if is_selected ohMask oh then 1 else 0) + selected ohMask (oh + 1) left

module _ {S : Type 0} (card : Card S) where
  read_block-count :
      (name : String) (size : ℕ) (v : Bytes) (w w' : World S) (r : ℕ × Option (List ℕ))
      → card.dbi name ≡ some v
      → read_block card name size 0 w ≡ (ok r, w')
      → r.0 ≡ size
  unfolding read_block
  read_block-count name size v w w' r found =
      rw (found, read_block)
        λ e.
          let (t, w1, e1, e2) = continue-eq-ok (target_of card v w) _ e in
          let (buf, w2, e3, end) =
            continue-eq-ok (read_granted card (check_block t size 0) t size 0 w1) _ e2 in
          ap (λ x. x.0) (sym (ok-injective (ap (λ x. x.0) end)))

  read_into_lem :
      (reg : String) (blob : List ℕ) (at size : ℕ) (v : Bytes) (w w' : World S) (r : ℕ × List ℕ)
      → card.dbi reg ≡ some v
      → read_into card reg blob at size w ≡ (ok r, w')
      → (r.0 ≡ size) × (length r.1 ≡ length blob)
  unfolding read_into
  read_into_lem reg blob at size v w w' r found e =
      let (b, w1, e1, e2) = continue-eq-ok (read_block card reg size 0 w) _ e in
      let (blob', w2, e3, end) = continue-eq-ok (store blob at b.1 w1) _ e2 in
      let same = sym (ok-injective (ap (λ x. x.0) end)) in
      (
        ap (λ x. x.0) same ∙ read_block-count reg size v w w1 b found e1,
        ap (λ x. length x.1) same ∙ store-length blob at b.1 w1 w2 blob' e3,
      )

  -- A loop of the BLASTER RAM reads over a mask of links that returns has kept the length of the
  -- blob, and counts one block of words for each link in the mask, whatever the outcome of each
  -- block, if every register of the links is in the table.
  pub read_links_lem :
      (name : String) (perblk ohMask oh left at nwords : ℕ) (blob : List ℕ) (w w' : World S)
      (r : ℕ × List ℕ)
      → nwords < 2 ^ 32
      → ((i : ℕ) → (v : Bytes) × (card.dbi (name ◇ decimal i) ≡ some v))
      → read_links card name perblk ohMask oh left at nwords blob w ≡ (ok r, w')
      → (r.0 ≡ (nwords + perblk * selected ohMask oh left) % 2 ^ 32) × (length r.1 ≡ length blob)
  unfolding read_links
  read_links_lem name perblk ohMask oh zero at nwords blob w w' r small found = λ e.
      let same = sym (ok-injective (ap (λ x. x.0) e)) in
      (ap (λ x. x.0) same ∙ omega arith, ap (λ x. length x.1) same)
  read_links_lem name perblk ohMask oh (suc left) at nwords blob w w' r small found =
      elim (Bool-cases (is_selected ohMask oh)) [
        | inl t ↦
            rw (t, read_links)
              λ e.
                let (b, w1, e1, e2) =
                  continue-eq-ok (read_into card (name ◇ decimal oh) blob at perblk w) _ e in
                let (count, same) =
                  read_into_lem (name ◇ decimal oh) blob at perblk (found oh).0 w w1 b (found oh).1
                    e1 in
                let (n, len) =
                  read_links_lem name perblk ohMask (oh + 1) left (at + perblk)
                    ((nwords + b.0) % 2 ^ 32) b.1 w1 w' r (omega arith) found e2 in
                (n ∙ grind (arith, count), len ∙ same)
        | inr f ↦
            rw (f, read_links)
              λ e.
                let (n, len) =
                  read_links_lem name perblk ohMask (oh + 1) left at nwords blob w w' r small found
                    e in
                (n ∙ grind arith, len)
      ]
