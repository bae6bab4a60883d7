-- ===== src/RawMemory.antt =====
-- src/memory.cpp and src/extras.cpp: RPC methods on raw addresses, without the address table.
pub mod Laws
use ctp7_modules.Prelude.{
  ℕ, zero, suc, ◌+◌, ◌%◌, ◌^◌, String, List, [], ◌∷◌, Bool, true, false, Option, none, some, ltb,
  if◌then◌else◌, length, tabulate,
}
use ctp7_modules.Effect.{
  Card, M, Request, get_word, memsvc_error, fault, set_word_array, pure, stop, ◌>>=◌, ◌>>◌, respond,
  set_error,
}
use ctp7_modules.Memhub.{memhub_read, memhub_write}

-- The words of a filled buffer of `n` words.
abbrev pub words : ℕ → (ℕ → ℕ) → List ℕ
words n buf = tabulate 0 n (λ i. buf i % 2 ^ 32)

-- `request->get_word_array("addresses", addr)` into an array of `count` words, and `addr[i]` for the
-- first `count` of them: undefined if there are more words than that, or fewer.
unfoldable pub addresses : {S : Type 0} → ℕ → List ℕ → M S (List ℕ)
addresses zero [] = pure []
addresses zero (a ∷ rest) = stop fault
addresses (suc count) [] = stop fault
addresses (suc count) (a ∷ rest) = addresses count rest >>= (λ l. pure (a % 2 ^ 32 ∷ l))

module _ {S : Type 0} (card : Card S) where
  -- One transaction for all words: `mread` of memory.cpp, `mblockread` of extras.cpp.
  abbrev answer_read : String → ℕ → Option (ℕ → ℕ) → M S (Unit {0})
  answer_read t n none = set_error (memsvc_error t)
  answer_read t n (some buf) = respond (set_word_array "data" (words n buf))

  unfoldable pub mread : Request → M S (Unit {0})
  mread q = do
    ret ← memhub_read card (get_word q "address") (get_word q "count")
    answer_read "" (get_word q "count") ret

  unfoldable pub mwrite : Request → M S (Unit {0})
  mwrite q = do
    done ← memhub_write card (get_word q "address") (q.word_array "data")
    if done then pure tt else set_error (memsvc_error "memsvc error: ")

  unfoldable pub mblockread : Request → M S (Unit {0})
  mblockread q = do
    ret ← memhub_read card (get_word q "address") (get_word q "count")
    answer_read "" (get_word q "count") ret

  unfoldable pub mblockwrite : Request → M S (Unit {0})
  mblockwrite q = do
    done ← memhub_write card (get_word q "address") (q.word_array "data")
    if done
        then respond (set_word_array "data" (q.word_array "data"))
        else set_error (memsvc_error "")

  -- One transaction for each address. `none`: one failed, the error is set, nothing follows.
  unfoldable pub read_each : List ℕ → M S (Option (List ℕ))
  read_each [] = pure (some [])
  read_each (a ∷ rest) = memhub_read card a 1 >>= (λ ret. elim ret [
    | none ↦ set_error (memsvc_error "") >> pure none
    | some buf ↦
        read_each rest
        >>= (λ got. elim got [ none ↦ pure none | some vs ↦ pure (some (buf 0 % 2 ^ 32 ∷ vs)) ])
  ])

  abbrev answer_each : Option (List ℕ) → M S (Unit {0})
  answer_each none = pure tt
  answer_each (some vs) = respond (set_word_array "data" vs)

  -- The same address `n` times.
  unfoldable pub fifo : ℕ → ℕ → List ℕ
  fifo addr zero = []
  fifo addr (suc n) = addr ∷ fifo addr n

  unfoldable pub mfiforead : Request → M S (Unit {0})
  mfiforead q = read_each (fifo (get_word q "address") (get_word q "count")) >>= answer_each

  unfoldable pub mlistread : Request → M S (Unit {0})
  mlistread q =
      addresses (get_word q "count") (q.word_array "addresses")
      >>= (λ l. read_each l >>= answer_each)

  -- Each value to its address, in order; `false` if one failed.
  unfoldable pub write_each : List ℕ → List ℕ → M S Bool
  write_each [] values = pure true
  write_each (a ∷ rest) [] = pure true
  write_each (a ∷ rest) (v ∷ values) = memhub_write card a (v ∷ []) >>= (λ done. elim done [
    | false ↦ set_error (memsvc_error "") >> pure false
    | true ↦ write_each rest values
  ])

  abbrev answer_write : List ℕ → Bool → M S (Unit {0})
  answer_write values false = pure tt
  answer_write values true = respond (set_word_array "data" values)

  unfoldable pub mfifowrite : Request → M S (Unit {0})
  mfifowrite q =
      let values = q.word_array "data" in
      write_each (fifo (get_word q "address") (length values)) values >>= answer_write values

  unfoldable pub mlistwrite : Request → M S (Unit {0})
  mlistwrite q =
      let values = q.word_array "data" in
      addresses (length values) (q.word_array "addresses")
      >>= (λ l. write_each l values >>= answer_write values)
