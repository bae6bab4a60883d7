-- ===== src/Memhub/Ends.antt =====
-- The transactions of src/memhub.cpp as steps that end.
use ctp7_modules.Prelude.{ℕ, zero, suc, List, Option, none, some, Bool}
use ctp7_modules.Effect.{Card, Handle, M, modify_hw}
use ctp7_modules.Effect.Ends.{Ends, ok-NotSpinning, bind-Ends, pure-Ends}
use ctp7_modules.Memhub.{
  sem_wait, sem_post, wait_at, post_at, with_handle, set_busy, memhub_read, memhub_write,
}

module _ {S : Type 0} where
  wait_at-Ends : (v : Option ℕ) → Ends (wait_at {S = S} v)
  wait_at-Ends none = record { ends = λ w. record { not_spinning = λ p. cc } }
  wait_at-Ends (some zero) = record { ends = λ w. record { not_spinning = λ p. cc } }
  wait_at-Ends (some (suc n)) = record { ends = λ w. ok-NotSpinning tt }

  post_at-Ends : (v : Option ℕ) → Ends (post_at {S = S} v)
  post_at-Ends none = record { ends = λ w. record { not_spinning = λ p. cc } }
  post_at-Ends (some n) = record { ends = λ w. ok-NotSpinning tt }

  with_handle-Ends : (k : Handle) (m : M S (Unit {0})) → Ends m → Ends (with_handle k m)
  with_handle-Ends Handle.live m h = h
  with_handle-Ends Handle.unopened m h = record { ends = λ w. record { not_spinning = λ p. cc } }
  with_handle-Ends Handle.closed m h = record { ends = λ w. record { not_spinning = λ p. cc } }

  sem_wait-Ends : Ends (sem_wait {S = S})
  unfolding sem_wait
  sem_wait-Ends = record {
    ends = λ w. (with_handle-Ends w.handle (wait_at w.sem) (wait_at-Ends w.sem)).ends w;
  }

  sem_post-Ends : Ends (sem_post {S = S})
  unfolding sem_post
  sem_post-Ends = record {
    ends = λ w. (with_handle-Ends w.handle (post_at w.sem) (post_at-Ends w.sem)).ends w;
  }

  set_busy-Ends : (b : Bool) → Ends (set_busy {S = S} b)
  set_busy-Ends b = record { ends = λ w. ok-NotSpinning tt }

  modify_hw-Ends : {A : Type 0} (f : S → A × S) → Ends (modify_hw f)
  modify_hw-Ends f = record { ends = λ w. ok-NotSpinning (f w.hw).0 }

module _ {S : Type 0} (card : Card S) where
  pub memhub_read-Ends : (a n : ℕ) → Ends (memhub_read card a n)
  unfolding memhub_read
  memhub_read-Ends a n =
      search (bind-Ends, sem_wait-Ends, set_busy-Ends, modify_hw-Ends, sem_post-Ends, pure-Ends)
        depth 12

  pub memhub_write-Ends : (a : ℕ) (vs : List ℕ) → Ends (memhub_write card a vs)
  unfolding memhub_write
  memhub_write-Ends a vs =
      search (bind-Ends, sem_wait-Ends, set_busy-Ends, modify_hw-Ends, sem_post-Ends, pure-Ends)
        depth 12
