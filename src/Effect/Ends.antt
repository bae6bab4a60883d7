-- ===== src/Effect/Ends.antt =====
-- A step that never uses up fuel, and the rules by which a whole function is seen to be one.
use ctp7_modules.Prelude.{Bool, true, false, if◌then◌else◌, Option, none, some, ◌≢◌, refl}
use ctp7_modules.Effect.{
  World, M, Outcome, ok, throw, blocked, exited, fault, spinning, pure, stop, continue, ◌>>=◌,
  respond, Reply, Exn, Message,
}

pub record NotSpinning {A : Type 0} (o : Outcome A) : Type 0 where
  pub not_spinning : o ≢ spinning

pub record Ends {S A : Type 0} (m : M S A) : Type 0 where
  pub ends : (w : World S) → NotSpinning (m w).0

module _ {A : Type 0} where
  pub ok-NotSpinning : (a : A) → NotSpinning (ok a)
  ok-NotSpinning a = record { not_spinning = λ e. cc }

  pub throw-NotSpinning : (e : Exn) (t : Message) → NotSpinning {A = A} (throw e t)
  throw-NotSpinning e t = record { not_spinning = λ p. cc }

  pub if-NotSpinning :
      (b : Bool) (x y : Outcome A)
      → NotSpinning x
      → NotSpinning y
      → NotSpinning (if b then x else y)
  if-NotSpinning true x y h k = h
  if-NotSpinning false x y h k = k

module _ {S A : Type 0} where
  -- A function that only says what it returns in each world.
  pub returns-Ends : (f : World S → A) (g : World S → World S) → Ends (λ w. (ok (f w), g w))
  returns-Ends f g = record { ends = λ w. ok-NotSpinning (f w) }

  pub stop-Ends : (o : Outcome A) → NotSpinning o → Ends (stop {S = S} o)
  stop-Ends o h = record { ends = λ w. h }

  pub pure-Ends : (a : A) → Ends (pure {S = S} a)
  pure-Ends a = record { ends = λ w. ok-NotSpinning a }

  pub if-Ends : (b : Bool) (m n : M S A) → Ends m → Ends n → Ends (if b then m else n)
  if-Ends true m n h k = h
  if-Ends false m n h k = k

  pub bool-Ends :
      (b : Bool) (m n : M S A) → Ends m → Ends n → Ends (elim b [ true ↦ m | false ↦ n ])
  bool-Ends true m n h k = h
  bool-Ends false m n h k = k

module _ {S A B : Type 0} where
  continue-NotSpinning :
      (x : Outcome A × World S) (f : A → M S B)
      → NotSpinning x.0
      → ((a : A) → Ends (f a))
      → NotSpinning (continue x f).0
  continue-NotSpinning (ok a, w) f h k = (k a).ends w
  continue-NotSpinning (throw e t, w) f h k = record { not_spinning = λ p. cc }
  continue-NotSpinning (blocked, w) f h k = record { not_spinning = λ p. cc }
  continue-NotSpinning (exited, w) f h k = record { not_spinning = λ p. cc }
  continue-NotSpinning (fault, w) f h k = record { not_spinning = λ p. cc }
  continue-NotSpinning (spinning, w) f h k = absurd (h.not_spinning refl)

  pub bind-Ends : (m : M S A) (f : A → M S B) → Ends m → ((a : A) → Ends (f a)) → Ends (m >>= f)
  bind-Ends m f h k = record { ends = λ w. continue-NotSpinning (m w) f (h.ends w) k }

  pub option-Ends :
      (o : Option B) (n : M S A) (f : B → M S A)
      → Ends n
      → ((b : B) → Ends (f b))
      → Ends (elim o [ none ↦ n | some b ↦ f b ])
  option-Ends none n f h k = h
  option-Ends (some b) n f h k = k b

module _ {S : Type 0} where
  pub respond-Ends : (r : Reply) → Ends (respond {S = S} r)
  respond-Ends r = record { ends = λ w. ok-NotSpinning tt }
