-- ===== src/Memhub.antt =====
-- src/memhub.cpp, as one process runs it: the semaphore round each transaction with libmemsvc, and
-- the handler of fatal signals. `Memhub/Lock.antt` has the processes side by side.
pub mod Ends
pub mod Lock
use ctp7_modules.Prelude.{
  ℕ, suc, zero, ◌+◌, ◌==◌, ltb, if◌then◌else◌, Bool, true, false, ◌&&◌, Option, none, some, List,
  ◌≡◌, refl,
}
use ctp7_modules.Effect.{
  idle, Card, M, ok, blocked, exited, fault, Handle, Reply, pure, stop, ◌>>=◌, ◌>>◌, modify_hw,
}

-- The value of the semaphore behind `sem_open` with O_CREAT and SEM_INIT.
abbrev created : Option ℕ → ℕ
created none = 1
created (some n) = n

-- What `sem_getvalue` stores; the caller has set 0 before.
semval : Option ℕ → ℕ
semval none = 0
semval (some n) = n

module _ {S : Type 0} where
  -- What `sem_wait` and `sem_post` do at a value of the semaphore.
  abbrev wait_at : Option ℕ → M S (Unit {0})
  wait_at none w = (fault, w)
  wait_at (some zero) w = (blocked, w)
  wait_at (some (suc n)) w = (ok tt, record w { sem = some n })

  abbrev post_at : Option ℕ → M S (Unit {0})
  post_at none w = (fault, w)
  post_at (some n) w = (ok tt, record w { sem = some (n + 1) })

  -- A call on a semaphore pointer that is not open is undefined.
  abbrev with_handle : Handle → M S (Unit {0}) → M S (Unit {0})
  with_handle Handle.live m = m
  with_handle _ m = stop fault

  unfoldable pub sem_wait : M S (Unit {0})
  sem_wait w = with_handle w.handle (wait_at w.sem) w

  unfoldable pub sem_post : M S (Unit {0})
  sem_post w = with_handle w.handle (post_at w.sem) w

  abbrev pub set_busy : Bool → M S (Unit {0})
  set_busy b w = (ok tt, record w { busy = b })

  -- `sem_open` with O_CREAT and SEM_INIT, on the first call, and the check of the value.
  abbrev attach : Handle → M S (Unit {0})
  attach Handle.unopened w =
      let n = created w.sem in
      let w' = record w { sem = some n; handle = Handle.live } in
      if ltb 1 n then (exited, w') else (ok tt, w')
  attach _ w = (ok tt, w)

  -- `die`, the handler of the fatal signals.
  unfoldable pub die : M S (Unit {0})
  unfolding sem_post semval
  die w = (do (if w.busy && semval w.sem == 0 then sem_post else pure tt); stop exited) w

module _ {S : Type 0} (card : Card S) where
  unfoldable pub memhub_open : M S Bool
  memhub_open = do (λ w. attach w.handle w); modify_hw card.memsvc_open

  unfoldable pub memhub_close : M S Bool
  memhub_close = do (λ w. (ok tt, record w { handle = Handle.closed })); modify_hw card.memsvc_close

  -- `none` is a return value that is not 0, and then the buffer holds nothing.
  unfoldable pub memhub_read : ℕ → ℕ → M S (Option (ℕ → ℕ))
  memhub_read addr words = do
    sem_wait
    set_busy true
    ret ← modify_hw (λ h. card.memsvc_read h addr words)
    sem_post
    set_busy false
    pure ret

  unfoldable pub memhub_write : ℕ → List ℕ → M S Bool
  memhub_write addr values = do
    sem_wait
    set_busy true
    ret ← modify_hw (λ h. card.memsvc_write h addr values)
    sem_post
    set_busy false
    pure ret

  -- From an idle world a transaction leaves an idle one: the semaphore is free again.
  pub memhub_read-idle :
      (addr words : ℕ) (h : S) (r : List Reply)
      → memhub_read addr words (idle h r)
        ≡ (ok (card.memsvc_read h addr words).0, idle (card.memsvc_read h addr words).1 r)
  unfolding memhub_read sem_wait sem_post
  memhub_read-idle addr words h r = refl

  pub memhub_write-idle :
      (addr : ℕ) (values : List ℕ) (h : S) (r : List Reply)
      → memhub_write addr values (idle h r)
        ≡ (ok (card.memsvc_write h addr values).0, idle (card.memsvc_write h addr values).1 r)
  unfolding memhub_write sem_wait sem_post
  memhub_write-idle addr values h r = refl
