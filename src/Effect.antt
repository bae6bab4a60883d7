-- ===== src/Effect.antt =====
-- What one RPC process can do: the state that a handler sees, the ways in which a call ends, and
-- the board that the handlers drive. The board is code outside the repository (libmemsvc, LMDB,
-- the kernel's clock), so it is a value of `Card`, which every handler takes.
pub mod Ends
use ctp7_modules.Prelude.{
  ℕ, String, List, ◌∷◌, Bool, true, false, Option, some, ◌%◌, ◌^◌, ◌≡◌, ◌≢◌, refl, not, ◌==◌,
}

abbrev pub Bytes : Type 0
Bytes = List ℕ

-- The C++ exception classes that the modules throw or let through.
pub data Exn : Type 0 where
  invalid_argument out_of_range range_error runtime_error : Exn

-- A text that is put into a reply, with the values that it is formatted from.
pub data Message : Type 0 where
  text : String → Message
  fmt : String → List ℕ → Message  -- `stdsprintf` or `<<` of numbers
  naming : String → String → Message  -- a text with a register's name in it
  memsvc_error : String → Message  -- a text that ends in `memsvc_get_last_error`
  caught : String → Message → Message  -- a text that ends in `e.what()`

-- `ok` returns. `blocked` waits for ever on the semaphore, `exited` is `exit(1)`, `fault` is
-- behaviour that C++ leaves undefined, and `spinning` is a loop that used up its fuel.
pub data Outcome (A : Type 0) : Type 0 where
  ok : A → Outcome A
  throw : Exn → Message → Outcome A
  blocked exited fault spinning : Outcome A

-- The calls `response->set_…(key, value)`.
pub data Reply : Type 0 where
  set_string : String → Message → Reply
  set_bytes : String → Bytes → Reply  -- a `std::string` that came from the address table
  set_word : String → ℕ → Reply
  set_word_array : String → List ℕ → Reply
  set_binarydata : String → List ℕ → Reply

-- The static pointer `semaphore` of memhub.cpp.
pub data Handle : Type 0 where
  unopened live closed : Handle

-- `sem` is the kernel's semaphore "/memhub" (`none`: not created yet), `busy` the flag of
-- memhub.cpp, and `reply` the calls on the response, the newest first.
pub record World (S : Type 0) : Type 0 where
  pub hw : S
  pub sem : Option ℕ
  pub handle : Handle
  pub busy : Bool
  pub reply : List Reply

-- Between two calls of memhub: the semaphore is free and this process holds nothing.
abbrev pub idle : {S : Type 0} → S → List Reply → World S
idle h r = record { hw = h; sem = some 1; handle = Handle.live; busy = false; reply = r }

-- `memsvc_read` fills the buffer word by word, or fails; `memsvc_write` tells if it went through.
-- `sleep` is what the hardware does while the process sleeps for so many nanoseconds, and `dbi` the
-- address table as the read transaction sees it.
pub record Card (S : Type 0) : Type 0 where
  pub memsvc_open : S → Bool × S
  pub memsvc_close : S → Bool × S
  pub memsvc_read : S → ℕ → ℕ → Option (ℕ → ℕ) × S
  pub memsvc_write : S → ℕ → List ℕ → Bool × S
  pub sleep : ℕ → S → S
  pub dbi : String → Option Bytes

-- A request of the RPC client, by its typed keys. The words are `uint32_t`.
pub record Request : Type 0 where
  pub word : String → ℕ
  pub string : String → String
  pub word_array : String → List ℕ
  pub binarydata : String → List ℕ
  pub key_exists : String → Bool

abbrev pub get_word : Request → String → ℕ
get_word q key = q.word key % 2 ^ 32

-- `bool x = request->get_word(key)`
abbrev pub flag : Request → String → Bool
flag request key = not (get_word request key == 0)

abbrev pub M : Type 0 → Type 0 → Type 0
M S A = World S → Outcome A × World S

-- `catch (std::runtime_error& e)`: `std::range_error` is one, `std::logic_error` is not.
abbrev pub is_runtime_error : Exn → Bool
is_runtime_error Exn.range_error = true
is_runtime_error Exn.runtime_error = true
is_runtime_error _ = false

module _ {S : Type 0} where
  abbrev pub pure : {A : Type 0} → A → M S A
  pure a w = (ok a, w)

  abbrev pub stop : {A : Type 0} → Outcome A → M S A
  stop o w = (o, w)

  -- How a call goes on behind a step that ended so.
  abbrev pub continue : {A B : Type 0} → Outcome A × World S → (A → M S B) → Outcome B × World S
  continue (ok a, w) f = f a w
  continue (throw e t, w) f = (throw e t, w)
  continue (blocked, w) f = (blocked, w)
  continue (exited, w) f = (exited, w)
  continue (fault, w) f = (fault, w)
  continue (spinning, w) f = (spinning, w)

  infixl 5 ◌>>=◌ ◌>>◌
  abbrev pub ◌>>=◌ : {A B : Type 0} → M S A → (A → M S B) → M S B
  ◌>>=◌ m f w = continue (m w) f

  abbrev pub ◌>>◌ : {A B : Type 0} → M S A → M S B → M S B
  m >> k = m >>= λ _. k

  abbrev pub respond : Reply → M S (Unit {0})
  respond c w = (ok tt, record w { reply = c ∷ w.reply })

  -- `response->set_string("error", …)`
  abbrev pub set_error : Message → M S (Unit {0})
  set_error t = respond (set_string "error" t)

  -- The process sleeps for so many nanoseconds.
  abbrev pub sleep_for : Card S → ℕ → M S (Unit {0})
  sleep_for card t w = (ok tt, record w { hw = card.sleep t w.hw })

  abbrev pub modify_hw : {A : Type 0} → (S → A × S) → M S A
  modify_hw f w = let (a, h) = f w.hw in (ok a, record w { hw = h })

-- Two steps behind one another are one step.
module _ {S A B C : Type 0} where
  pub continue_assoc :
      (x : Outcome A × World S) (f : A → M S B) (g : B → M S C)
      → continue (continue x f) g ≡ continue x (λ a w. continue (f a w) g)
  continue_assoc (ok a, w) f g = refl
  continue_assoc (throw e t, w) f g = refl
  continue_assoc (blocked, w) f g = refl
  continue_assoc (exited, w) f g = refl
  continue_assoc (fault, w) f g = refl
  continue_assoc (spinning, w) f g = refl

-- A call whose last step never returns `b` never returns `b`.
module _ {S A B : Type 0} where
  pub continue-ne-ok :
      (x : Outcome A × World S) (f : A → M S B) (b : B)
      → ((a : A) (w : World S) → (f a w).0 ≢ ok b)
      → (continue x f).0 ≢ ok b
  continue-ne-ok (ok a, w) f b h = h a w
  continue-ne-ok (throw e t, w) f b h = λ p. cc
  continue-ne-ok (blocked, w) f b h = λ p. cc
  continue-ne-ok (exited, w) f b h = λ p. cc
  continue-ne-ok (fault, w) f b h = λ p. cc
  continue-ne-ok (spinning, w) f b h = λ p. cc

-- Nor does one whose first step never returns.
module _ {S A B : Type 0} where
  pub continue-ne-ok_first :
      (x : Outcome A × World S) (f : A → M S B) (b : B)
      → ((a : A) → x.0 ≢ ok a)
      → (continue x f).0 ≢ ok b
  continue-ne-ok_first (ok a, w) f b h = absurd (h a refl)
  continue-ne-ok_first (throw e t, w) f b h = λ p. cc
  continue-ne-ok_first (blocked, w) f b h = λ p. cc
  continue-ne-ok_first (exited, w) f b h = λ p. cc
  continue-ne-ok_first (fault, w) f b h = λ p. cc
  continue-ne-ok_first (spinning, w) f b h = λ p. cc

-- Inversion of a call that returned.
module _ {S A B : Type 0} where
  pub continue-eq-ok :
      (x : Outcome A × World S) (f : A → M S B) {b : B} {w' : World S}
      → continue x f ≡ (ok b, w')
      → (a : A) × (w : World S) × (x ≡ (ok a, w)) × (f a w ≡ (ok b, w'))
  continue-eq-ok (ok a, w) f h = (a, w, refl, h)
  continue-eq-ok (throw e t, w) f h = cc
  continue-eq-ok (blocked, w) f h = cc
  continue-eq-ok (exited, w) f h = cc
  continue-eq-ok (fault, w) f h = cc
  continue-eq-ok (spinning, w) f h = cc

module _ {A : Type 0} where
  pub ok-injective : {a b : A} → ok a ≡ ok b → a ≡ b
  ok-injective e = cc

  pub spinning-ne-ok : {a : A} → spinning ≢ ok a
  spinning-ne-ok e = cc

  pub fault-ne-ok : {a : A} → fault ≢ ok a
  fault-ne-ok e = cc
