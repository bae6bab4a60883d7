-- ===== src/RawMemory/Laws.antt =====
-- The loops over addresses of src/extras.cpp.
use native.Mathlib.Nat.{add-zero, mod-eq_of_lt}
use mathlib.Core.Path.{subst}
use ctp7_modules.Prelude.{
  ℕ, ◌+◌, ◌%◌, ◌^◌, ◌<◌, List, [], ◌∷◌, ◌++◌, none, some, All, length, true, ◌≡◌, ◌≢◌, refl, arith,
  ◌∙◌,
}
use ctp7_modules.Effect.{Card, idle, Reply, ok, set_string, memsvc_error, ◌>>◌}
use ctp7_modules.Memhub.{memhub_read-idle, memhub_write-idle}
use ctp7_modules.Register.Ram.{Ram}
use ctp7_modules.RawMemory.{read_each, write_each}

module _ {S : Type 0} (card : Card S) where
  -- Single reads at `l`, one after another, that all went through and gave `vs`.
  pub data Reads : S → List ℕ → List ℕ → S → Type 0 where
    reads_nil : {h : S} → Reads h [] [] h
    reads_cons :
        {h h1 h' : S} {a : ℕ} {l vs : List ℕ} {buf : ℕ → ℕ}
        → card.memsvc_read h a 1 ≡ (some buf, h1)
        → Reads h1 l vs h'
        → Reads h (a ∷ l) (buf 0 % 2 ^ 32 ∷ vs) h'

  -- If every read goes through, the loop gives the words in the order of the addresses.
  pub read_each-all :
      {h h' : S} {l vs : List ℕ} (r : List Reply)
      → Reads h l vs h'
      → read_each card l (idle h r) ≡ (ok (some vs), idle h' r)
  unfolding read_each
  read_each-all r reads_nil = refl
  read_each-all {h = h} r (reads_cons {a = a} e rest) =
      rw (memhub_read-idle card a 1 h r, e, read_each-all r rest)

  -- The first read that fails ends the loop of mlistread and mfiforead: no address behind it is
  -- read, the error is set and no words come back.
  pub read_each-failure :
      {h h' h'' : S} {pre vs : List ℕ} (a : ℕ) (post : List ℕ) (r : List Reply)
      → Reads h pre vs h'
      → card.memsvc_read h' a 1 ≡ (none, h'')
      → read_each card (pre ++ a ∷ post) (idle h r)
        ≡ (ok none, idle h'' (set_string "error" (memsvc_error "") ∷ r))
  unfolding read_each
  read_each-failure {h = h} a post r reads_nil fails = rw (memhub_read-idle card a 1 h r, fails)
  read_each-failure {h = h} a post r (reads_cons {a = b} e rest) fails =
      rw (memhub_read-idle card b 1 h r, e, read_each-failure a post r rest fails)

-- No address twice.
abbrev pub Distinct : List ℕ → Type 0
Distinct [] = Unit
Distinct (a ∷ l) = All (λ b. a ≢ b) l × Distinct l

module _ {S : Type 0} (card : Card S) (ram : Ram card) where
  open ram use {peek, poke, read_words, write_word, peek-poke}

  -- The memory behind writes of `vs` to `l`.
  abbrev poke_each : S → List ℕ → List ℕ → S
  poke_each h [] vs = h
  poke_each h (a ∷ l) [] = h
  poke_each h (a ∷ l) (v ∷ vs) = poke_each (poke h a v) l vs

  write_each-idle :
      (l vs : List ℕ) (h : S) (r : List Reply)
      → write_each card l vs (idle h r) ≡ (ok true, idle (poke_each h l vs) r)
  unfolding write_each
  write_each-idle [] vs h r = refl
  write_each-idle (a ∷ l) [] h r = refl
  write_each-idle (a ∷ l) (v ∷ vs) h r =
      rw (
        memhub_write-idle card a (v ∷ []) h r,
        write_word h a v,
        write_each-idle l vs (poke h a v) r,
      )

  peek-poke_each :
      (l vs : List ℕ) (h : S) (b : ℕ) → All (λ a. b ≢ a) l → peek (poke_each h l vs) b ≡ peek h b
  peek-poke_each [] vs h b apart = refl
  peek-poke_each (a ∷ l) [] h b apart = refl
  peek-poke_each (a ∷ l) (v ∷ vs) h b (ne, apart) =
      peek-poke_each l vs (poke h a v) b apart ∙ peek-poke h a v b ∙ ground (arith, ne)

  -- The words `vs` stand at `l`.
  abbrev Stored : S → List ℕ → List ℕ → Type 0
  Stored h [] [] = Unit
  Stored h [] (v ∷ vs) = ⊥
  Stored h (a ∷ l) [] = ⊥
  Stored h (a ∷ l) (v ∷ vs) = (peek h a ≡ v) × ((v < 2 ^ 32) × Stored h l vs)

  poke_each-Stored :
      (l vs : List ℕ) (h : S)
      → length l ≡ length vs
      → Distinct l
      → All (λ v. v < 2 ^ 32) vs
      → Stored (poke_each h l vs) l vs
  poke_each-Stored [] [] h n apart small = tt
  poke_each-Stored [] (v ∷ vs) h n apart small = omega arith
  poke_each-Stored (a ∷ l) [] h n apart small = omega arith
  poke_each-Stored (a ∷ l) (v ∷ vs) h n (ne, apart) (lt, small) = (
    peek-poke_each l vs (poke h a v) a ne ∙ peek-poke h a v a ∙ ground arith,
    (lt, poke_each-Stored l vs (poke h a v) (omega arith) apart small),
  )

  Stored-Reads : (l vs : List ℕ) (h : S) → Stored h l vs → Reads card h l vs h
  Stored-Reads [] [] h st = reads_nil
  Stored-Reads [] (v ∷ vs) h st = absurd st
  Stored-Reads (a ∷ l) [] h st = absurd st
  Stored-Reads (a ∷ l) (v ∷ vs) h (e, (lt, st)) =
      let same : peek h (a + 0) % 2 ^ 32 ≡ v = rw (add-zero a, e) (mod-eq_of_lt lt) in
      subst (λ u. Reads card h (a ∷ l) (u ∷ vs) h) same
        (reads_cons (read_words h a 1) (Stored-Reads l vs h st))

  -- On a board whose address space behaves like memory, 32-bit words that are written to a list of
  -- distinct addresses, one for each, come back when the list is read.
  pub read_each-write_each :
      (l vs : List ℕ) (h : S) (r : List Reply)
      → length l ≡ length vs
      → Distinct l
      → All (λ v. v < 2 ^ 32) vs
      → (write_each card l vs >> read_each card l) (idle h r)
        ≡ (ok (some vs), idle (poke_each h l vs) r)
  read_each-write_each l vs h r n apart small = rw (write_each-idle l vs h r) (
      read_each-all card r
        (Stored-Reads l vs (poke_each h l vs) (poke_each-Stored l vs h n apart small)))
