-- ===== src/Memhub/Lock/Laws.antt =====
-- The steps of Memhub/Lock.antt together: the processes in a transaction, and the signals.
use ctp7_modules.Prelude.{
  ℕ, zero, suc, ◌+◌, ◌≤◌, List, [], ◌∷◌, ◌≡◌, refl, arith, All, some, ◌∙◌, ne→==_false,
}
use ctp7_modules.Effect.{Handle, Reply, exited}
use ctp7_modules.Memhub.{die, sem_post}
use ctp7_modules.Memhub.Lock.{
  Pc, is_busy, held, holders, System, Moves, here, there, after_die, AnyTime, Timely, Step, Reaches,
}

-- The system's `killed` is what `die` does in the process.
pub die-killed :
    {S : Type 0} (h : S) (r : List Reply) (p : Pc) (n : ℕ)
    → die (record { hw = h; sem = some n; handle = Handle.live; busy = is_busy p; reply = r }) ≡ (
      exited,
      record {
        hw = h;
        sem = some (after_die p n);
        handle = Handle.live;
        busy = is_busy p;
        reply = r;
      },
    )
unfolding die after_die sem_post
die-killed h r Pc.outside n = refl
die-killed h r Pc.entered n = refl
die-killed h r Pc.inside zero = refl
die-killed h r Pc.inside (suc n) = rw (ne→==_false (suc n) 0 (omega arith), die, after_die) refl
die-killed h r Pc.posted zero = refl
die-killed h r Pc.posted (suc n) = rw (ne→==_false (suc n) 0 (omega arith), die, after_die) refl
die-killed h r Pc.dead n = refl

Moves-holders :
    {a b : Pc} {l l' : List Pc} → Moves a b l l' → holders l' + held a ≡ holders l + held b
Moves-holders {a = a} {b = b} here = omega arith
Moves-holders (there m) = omega (arith, Moves-holders m)

-- The semaphore's value and the processes that hold it make 1.
abbrev pub IsSound : System → Type 0
IsSound s = s.sem + holders s.procs ≡ 1

-- A killed process gives back what it holds, and nothing else.
after_die-held : (p : Pc) (n k : ℕ) → Timely p n → n + (held p + k) ≡ 1 → after_die p n + k ≡ 1
unfolding after_die
after_die-held Pc.outside n k g inv = omega arith
after_die-held Pc.entered n k g inv = absurd g
after_die-held Pc.inside zero k g inv = omega arith
after_die-held Pc.inside (suc n) k g inv = absurd (omega arith)
after_die-held Pc.posted zero k g inv = absurd (omega arith)
after_die-held Pc.posted (suc n) k g inv =
    rw (ne→==_false (suc n) 0 (omega arith), after_die) (omega arith)
after_die-held Pc.dead n k g inv = omega arith

Step-IsSound : {s t : System} → Step Timely s t → IsSound s → IsSound t
Step-IsSound (Step.wait m) inv = omega (arith, Moves-holders m)
Step-IsSound (Step.mark m) inv = omega (arith, Moves-holders m)
Step-IsSound (Step.post m) inv = omega (arith, Moves-holders m)
Step-IsSound (Step.unmark m) inv = omega (arith, Moves-holders m)
Step-IsSound (Step.killed {n = n} {l' = l'} p g m) inv =
    after_die-held p n (holders l') g (omega (arith, Moves-holders m))

-- However the processes interleave, and die at timely moments: the semaphore and its holders make 1.
pub Reaches-IsSound : {s t : System} → Reaches Timely s t → IsSound s → IsSound t
Reaches-IsSound Reaches.stay inv = inv
Reaches-IsSound (Reaches.step st rest) inv = Reaches-IsSound rest (Step-IsSound st inv)

-- How many processes are in the middle of a transaction.
abbrev pub in_transaction : Pc → ℕ
in_transaction Pc.inside = 1
in_transaction _ = 0

abbrev pub inside : List Pc → ℕ
inside [] = 0
inside (p ∷ l) = in_transaction p + inside l

in_transaction-le : (p : Pc) → in_transaction p ≤ held p
in_transaction-le Pc.outside = omega arith
in_transaction-le Pc.entered = omega arith
in_transaction-le Pc.inside = omega arith
in_transaction-le Pc.posted = omega arith
in_transaction-le Pc.dead = omega arith

inside-le : (l : List Pc) → inside l ≤ holders l
inside-le [] = omega arith
inside-le (p ∷ l) = omega (arith, in_transaction-le p, inside-le l)

-- However processes interleave on the semaphore of memhub, starting from a free semaphore that
-- nobody holds, at most one is in a transaction at a time, as long as no signal comes between
-- sem_wait and busy = true, nor between sem_post and busy = false while the semaphore is 0.
pub mutual_exclusion :
    {s t : System} → s.sem ≡ 1 → holders s.procs ≡ 0 → Reaches Timely s t → inside t.procs ≤ 1
mutual_exclusion {t = t} free none path =
    omega (arith, Reaches-IsSound path (omega arith), inside-le t.procs)

-- Where a signal may come at any time, a system of at least three processes outside a transaction,
-- with the semaphore free, can reach a state in which two more processes are in a transaction than
-- there were among the other ones, so that mutual exclusion is lost.
pub killed_posted :
    (l : List Pc)
    → (t : System) × Reaches AnyTime
        (record { sem = 1; procs = Pc.outside ∷ Pc.outside ∷ Pc.outside ∷ l })
        t
      × (inside t.procs ≡ 2 + inside l)
unfolding after_die
killed_posted l = (
  record { sem = 0; procs = Pc.dead ∷ Pc.inside ∷ Pc.inside ∷ l },
  Reaches.step (Step.wait Moves.here) (
      Reaches.step (Step.mark Moves.here) (
        Reaches.step (Step.post Moves.here) (
          Reaches.step (Step.wait (Moves.there Moves.here)) (
            Reaches.step (Step.mark (Moves.there Moves.here)) (
              Reaches.step (Step.killed Pc.posted tt Moves.here) (
                Reaches.step (Step.wait (Moves.there (Moves.there Moves.here))) (
                  Reaches.step (Step.mark (Moves.there (Moves.there Moves.here)))
                    Reaches.stay))))))),
  omega arith,
)

-- A process that has nothing of the semaphore, and no `busy`.
abbrev pub IsResting : Pc → Type 0
IsResting Pc.outside = Unit
IsResting Pc.dead = Unit
IsResting _ = ⊥

Moves-IsResting :
    {a b : Pc} {l l' : List Pc}
    → Moves a b l l'
    → All IsResting l
    → IsResting a × (IsResting b → All IsResting l')
Moves-IsResting here (r, rest) = (r, λ r'. (r', rest))
Moves-IsResting (there m) (r, rest) =
    let (now, then') = Moves-IsResting m rest in (now, λ r'. (r, then' r'))

IsStuck : System → Type 0
IsStuck s = (s.sem ≡ 0) × All IsResting s.procs

after_die-IsResting : (p : Pc) (n : ℕ) → IsResting p → after_die p n ≡ n
unfolding after_die
after_die-IsResting Pc.outside n r = refl
after_die-IsResting Pc.entered n r = refl
after_die-IsResting Pc.inside n r = absurd r
after_die-IsResting Pc.posted n r = absurd r
after_die-IsResting Pc.dead n r = refl

Step-IsStuck : {s t : System} → Step AnyTime s t → IsStuck s → IsStuck t
unfolding IsStuck
Step-IsStuck (Step.wait m) (z, rest) = absurd (omega arith)
Step-IsStuck (Step.mark m) (z, rest) = absurd (Moves-IsResting m rest).0
Step-IsStuck (Step.post m) (z, rest) = absurd (Moves-IsResting m rest).0
Step-IsStuck (Step.unmark m) (z, rest) = absurd (Moves-IsResting m rest).0
Step-IsStuck (Step.killed {n = n} p g m) (z, rest) =
    (after_die-IsResting p n (Moves-IsResting m rest).0 ∙ z, (Moves-IsResting m rest).1 tt)

Reaches-IsStuck : {s t : System} → Reaches AnyTime s t → IsStuck s → IsStuck t
Reaches-IsStuck Reaches.stay inv = inv
Reaches-IsStuck (Reaches.step st rest) inv = Reaches-IsStuck rest (Step-IsStuck st inv)

-- If a process is killed between sem_wait and busy = true while all others rest, the semaphore
-- stays 0 and no process ever enters a transaction.
pub killed_entered :
    {l l' : List Pc} {t : System}
    → Moves Pc.entered Pc.dead l l'
    → All IsResting l'
    → Reaches AnyTime (record { sem = after_die Pc.entered 0; procs = l' }) t
    → (t.sem ≡ 0) × All IsResting t.procs
unfolding IsStuck after_die
killed_entered m rest path = Reaches-IsStuck path (refl, rest)
