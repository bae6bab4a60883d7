-- ===== src/Register/Retry.antt =====
-- The ten tries of `readAddress`.
use ctp7_modules.Prelude.{
  ℕ, suc, zero, ◌%◌, ◌^◌, ◌<◌, ◌≤◌, List, ◌∷◌, Option, none, some, ◌≡◌, arith,
}
use ctp7_modules.Effect.{Card, idle, Reply, ok, set_string, memsvc_error}
use ctp7_modules.Memhub.{memhub_read-idle}
use ctp7_modules.Register.Mask.{dead}
use ctp7_modules.Register.Access.{read_tries}

module _ {S : Type 0} (card : Card S) (a : ℕ) where
  -- The hardware behind `i` attempts to read the word, and what one more attempt brings.
  abbrev pub after : S → ℕ → S
  after h zero = h
  after h (suc i) = after (card.memsvc_read h a 1).1 i

  abbrev pub attempt : S → ℕ → Option (ℕ → ℕ)
  attempt h i = (card.memsvc_read (after h i) a 1).0

  -- readAddress, with tries left, returns the word of the first attempt that succeeds, sets no
  -- error and makes no further attempt.
  pub read_tries_success :
      (left j : ℕ) (h : S) (r : List Reply) {buf : ℕ → ℕ}
      → j ≤ left
      → ((i : ℕ) → i < j → attempt h i ≡ none)
      → attempt h j ≡ some buf
      → read_tries card left a (idle h r) ≡ (ok (buf 0 % 2 ^ 32), idle (after h (suc j)) r)
  unfolding read_tries
  read_tries_success zero zero h r le fails works = rw (memhub_read-idle card a 1 h r, works)
  read_tries_success zero (suc j) h r le fails works = absurd (omega arith)
  read_tries_success (suc left) zero h r le fails works = rw (memhub_read-idle card a 1 h r, works)
  read_tries_success (suc left) (suc j) h r le fails works =
      rw (memhub_read-idle card a 1 h r, fails 0 (omega arith))
        (read_tries_success left j (after h 1) r (omega arith) (λ i lt. fails (suc i) (omega arith))
          works)

  -- If each of its tries fails, readAddress has made exactly one more attempt than tries were
  -- left, returns the sentinel and sets one error.
  pub read_tries_failure :
      (left : ℕ) (h : S) (r : List Reply)
      → ((i : ℕ) → i ≤ left → attempt h i ≡ none)
      → read_tries card left a (idle h r) ≡ (
        ok dead,
        idle (after h (suc left)) (set_string "error" (memsvc_error "memsvc error: ") ∷ r),
      )
  unfolding read_tries
  read_tries_failure zero h r fails = rw (memhub_read-idle card a 1 h r, fails 0 (omega arith))
  read_tries_failure (suc left) h r fails =
      rw (memhub_read-idle card a 1 h r, fails 0 (omega arith))
        (read_tries_failure left (after h 1) r (λ i le. fails (suc i) (omega arith)))
