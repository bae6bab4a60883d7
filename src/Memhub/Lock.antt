-- ===== src/Memhub/Lock.antt =====
-- The processes that share the semaphore of src/memhub.cpp, as a step relation: each process stands
-- at a line of `memhub_read` or `memhub_write`, and any of them may be hit by a signal at any time.
pub mod Laws
use ctp7_modules.Prelude.{
  ℕ, zero, suc, ◌+◌, ◌<◌, List, [], ◌∷◌, Bool, true, false, ◌&&◌, ◌==◌, if◌then◌else◌,
}

-- `outside`: in no transaction. `entered`: behind `sem_wait`, in front of `busy = true`. `inside`:
-- up to `sem_post`. `posted`: behind `sem_post`, in front of `busy = false`. `dead`: behind `exit`.
pub data Pc : Type 0 where
  outside entered inside posted dead : Pc

-- The flag `busy` of a process.
abbrev pub is_busy : Pc → Bool
is_busy Pc.inside = true
is_busy Pc.posted = true
is_busy _ = false

-- How many units of the semaphore a process has taken and not given back.
abbrev pub held : Pc → ℕ
held Pc.entered = 1
held Pc.inside = 1
held _ = 0

abbrev pub holders : List Pc → ℕ
holders [] = 0
holders (p ∷ l) = held p + holders l

pub record System : Type 0 where
  pub sem : ℕ
  pub procs : List Pc

-- One process goes from `a` to `b`, the others stay.
pub data Moves (a b : Pc) : List Pc → List Pc → Type 0 where
  here : {l : List Pc} → Moves a b (a ∷ l) (b ∷ l)
  there : {p : Pc} {l l' : List Pc} → Moves a b l l' → Moves a b (p ∷ l) (p ∷ l')

-- The semaphore behind `die` of a process at `p`.
unfoldable pub after_die : Pc → ℕ → ℕ
after_die p sem = if is_busy p && sem == 0 then sem + 1 else sem

-- The moments at which a signal may come, given the line of the process and the semaphore: any, or
-- only those where the handler can tell what to do. That is not between `sem_wait` and
-- `busy = true`, and not between `sem_post` and `busy = false` while the semaphore is taken again.
abbrev pub Moments : Type 1
Moments = Pc → ℕ → Type 0

abbrev pub AnyTime : Moments
AnyTime p n = Unit

abbrev pub Timely : Moments
Timely Pc.entered n = ⊥
Timely Pc.posted n = 0 < n
Timely _ n = Unit

-- The steps. `die` is the signal handler of a process that stands at `p`.
pub data Step (G : Moments) : System → System → Type 0 where
  wait :
      {n : ℕ} {l l' : List Pc}
      → Moves Pc.outside Pc.entered l l'
      → Step G (record { sem = suc n; procs = l }) (record { sem = n; procs = l' })
  mark :
      {n : ℕ} {l l' : List Pc}
      → Moves Pc.entered Pc.inside l l'
      → Step G (record { sem = n; procs = l }) (record { sem = n; procs = l' })
  post :
      {n : ℕ} {l l' : List Pc}
      → Moves Pc.inside Pc.posted l l'
      → Step G (record { sem = n; procs = l }) (record { sem = n + 1; procs = l' })
  unmark :
      {n : ℕ} {l l' : List Pc}
      → Moves Pc.posted Pc.outside l l'
      → Step G (record { sem = n; procs = l }) (record { sem = n; procs = l' })
  killed :
      {n : ℕ} {l l' : List Pc} (p : Pc)
      → G p n
      → Moves p Pc.dead l l'
      → Step G (record { sem = n; procs = l }) (record { sem = after_die p n; procs = l' })

pub data Reaches (G : Moments) : System → System → Type 0 where
  stay : {s : System} → Reaches G s s
  step : {s t u : System} → Step G s t → Reaches G t u → Reaches G s u
