-- ===== src/Monitor/Jobs.antt =====
-- What the monitor and the workers of src/MissionParallelCatchup may do to one job: a machine that
-- counts where its copies are.
pub mod Copies
pub mod Workers
pub mod Calls
pub mod Moves
pub mod Refines
pub mod Loop
mod Tests
use supercluster.Prelude.{
  ℕ, suc, ◌+◌, ◌-◌, ◌≤◌, ◌≡◌, refl, arith, Bool, true, ◌⊎◌, inl, inr, List, [], ◌∷◌, if◌then◌else◌,
}
use supercluster.Prelude.Text.{Str, str_eq}
use supercluster.Monitor.Redis.Keys.{View}
use supercluster.Monitor.Worker.Started.{ended}

-- How often a text stands in a list.
unfoldable pub copies : Str → List Str → ℕ
copies j [] = 0
copies j (x ∷ l) = (if str_eq j x then 1 else 0) + copies j l

-- The copies of a job in the job queue, in the progress queue, and in the hands of the monitor, which
-- has taken them out of one queue to put them into the other; how many were added, as a command that
-- was carried out was sent again; and whether the job has ended.
pub record JobState : Type 0 where
  pub waiting : ℕ
  pub running : ℕ
  pub held : ℕ
  pub extra : ℕ
  pub done : Bool

-- What may happen to a job. A finish of a copy that is not in progress any more removes nothing.
pub data Step (s t : JobState) : Type 0 where
  claim :
      (n : ℕ) → s.waiting ≡ suc n → t ≡ record s { waiting = n; running = s.running + 1 } → Step s t
  finish : t ≡ record s { running = s.running - 1; done = true } → Step s t
  take : (n : ℕ) → s.running ≡ suc n → t ≡ record s { running = n; held = s.held + 1 } → Step s t
  again : t ≡ record s { waiting = s.waiting + 1; extra = s.extra + 1 } → Step s t
  put : (n : ℕ) → s.held ≡ suc n → t ≡ record s { held = n; waiting = s.waiting + 1 } → Step s t

-- Any number of steps.
pub data Reach (s : JobState) : JobState → Type 0 where
  here : Reach s s
  next : {t u : JobState} → Reach s t → Step t u → Reach s u

pub Reach-trans : {s t u : JobState} → Reach s t → Reach t u → Reach s u
Reach-trans p here = p
Reach-trans p (next q st) = next (Reach-trans p q) st

pub Reach-eq : {s t : JobState} → s ≡ t → Reach s t
Reach-eq {s} e = rw (← e) here

-- The state of a job, for a store, the copies in the monitor's hands and the ones that were added.
abbrev pub state_of : Str → View → ℕ → ℕ → JobState
state_of j v h a = record {
  waiting = copies j v.jobs;
  running = copies j v.progress;
  held = h;
  extra = a;
  done = ended j v;
}

abbrev pub all_copies : JobState → ℕ
all_copies s = s.waiting + (s.running + s.held)

-- A job that has ended stays so; the copies that are added are counted, and one is taken away only as
-- the job ends.
abbrev pub Grows : JobState → JobState → Type 0
Grows s t =
    (all_copies t + s.extra ≤ all_copies s + t.extra)
    × ((t.done ≡ true) ⊎ ((all_copies t + s.extra ≡ all_copies s + t.extra) × (t.done ≡ s.done)))

Step-Grows : (s t u : JobState) → Grows s t → Step t u → Grows s u
Step-Grows s t u g (claim n e q) = ground arith
Step-Grows s t u g (finish q) = ground arith
Step-Grows s t u g (take n e q) = ground arith
Step-Grows s t u g (again q) = ground arith
Step-Grows s t u g (put n e q) = ground arith

pub Reach-Grows : {s t : JobState} → Reach s t → Grows s t
Reach-Grows here = (omega arith, inr (refl, refl))
Reach-Grows {s} (next {t} {u} p st) = Step-Grows s t u (Reach-Grows p) st
