-- ===== src/Monitor/Jobs/Calls.antt =====
-- The commands of the monitor as steps of the machine, failures included.
use mathlib.Core.Path.{subst}
use supercluster.Prelude.{ℕ, suc, ◌+◌, ◌≤◌, ◌≡◌, refl, ap, arith, List, [], ◌∷◌}
use supercluster.Prelude.Text.{Str}
use supercluster.Prelude.Lists.{length}
use supercluster.Monitor.Redis.{Redis}
use supercluster.Monitor.Worker.{WorkerStep, worker_steps}
use supercluster.Monitor.World.{
  World, Slot, Outcome, answered, refused, unheard, Reply, ok, raised, unfinished, Action, next,
  ◌>>=◌, call, carried, end_call,
}
use supercluster.Monitor.Jobs.{JobState, Reach, Reach-trans, state_of}
use supercluster.Monitor.Jobs.Workers.{worker_steps-Follows}

abbrev pub failure : Outcome → ℕ
failure answered = 0
failure refused = 1
failure unheard = 1

-- The commands that will fail.
abbrev pub failures : List Slot → ℕ
failures [] = 0
failures (s ∷ l) = failure s.outcome + failures l

-- The commands that will fail, and the attempts whose answers will be lost.
abbrev pub losses : List Slot → ℕ
losses [] = 0
losses (s ∷ l) = length s.resent + (failure s.outcome + losses l)

-- The attempts whose answers will be lost, and that are repeated.
abbrev pub repeats : List Slot → ℕ
repeats [] = 0
repeats (s ∷ l) = length s.resent + repeats l

module _ (r : Redis) (j : Str) where
  open r use {Db, view}

  -- A command that was carried out is sent again, with the same copies in hand: at most one copy is
  -- lost or added.
  abbrev pub Resends : {A : Type 0} → (Db → A × Db) → ℕ → Type 0
  Resends op g =
      (db : Db) (h a : ℕ)
      → (h' : ℕ) × (a' : ℕ) × Reach (state_of j (view db) (h + g) a)
          (state_of j (view (op db).1) (h' + g) a')
        × (h' + a' ≤ suc (h + a))
        × (a' ≤ suc a)

-- From the state `s`, with at most `k.0` losses and `k.1` repeats in all.
module _ (r : Redis) (j : Str) (s : JobState) (k : ℕ × ℕ) where
  open r use {Db, view}

  -- The machine has come to the state of the store, with `g` copies in hand; `h` copies were lost and
  -- `a` were added so far.
  abbrev pub Stands : ℕ → World Db → Type 0
  Stands g w =
      (h : ℕ) × (a : ℕ) × Reach s (state_of j (view w.db) (h + g) a)
      × (h + a + losses w.slots ≤ k.0)
      × (a + repeats w.slots ≤ k.1)

  -- After a value `Q` holds; otherwise what was in hand is lost.
  abbrev pub Leads : {A : Type 0} → (A → World Db → Type 0) → Reply A × World Db → Type 0
  Leads Q (ok a, w) = Q a w
  Leads Q (raised, w) = Stands 0 w
  Leads Q (unfinished, w) = Stands 0 w

  pub Leads-bind :
      {A B : Type 0} (P : A → World Db → Type 0) (Q : B → World Db → Type 0) (m : Action Db A)
      (f : A → Action Db B) (w : World Db)
      → Leads P (m w)
      → ((a : A) (w' : World Db) → P a w' → Leads Q (f a w'))
      → Leads Q ((m >>= f) w)
  Leads-bind {A} {B} P Q m f w = go (m w)
    where
      go :
          (x : Reply A × World Db)
          → Leads P x
          → ((a : A) (w' : World Db) → P a w' → Leads Q (f a w'))
          → Leads Q (next f x)
      go (ok a, w') h n = n a w' h
      go (raised, w') h n = h
      go (unfinished, w') h n = h

  lost :
      (g h a : ℕ) (w : World Db)
      → g ≤ 1
      → Reach s (state_of j (view w.db) (h + g) a)
      → suc (h + a + losses w.slots) ≤ k.0
      → a + repeats w.slots ≤ k.1
      → Stands 0 w
  lost g h a w l p b c =
      let e : h + g ≡ h + g + 0 = omega arith in
      (h + g, a, subst (λ n. Reach s (state_of j (view w.db) n a)) e p, omega arith, c)

  carried-Reach :
      {A : Type 0} (op : Db → A × Db) (g : ℕ)
      → Resends r j op g
      → (l : List (List WorkerStep)) (m m' : ℕ) (db : Db) (h a : ℕ)
      → Reach s (state_of j (view db) (h + g) a)
      → h + a + (length l + m) ≤ k.0
      → a + (length l + m') ≤ k.1
      → (h' : ℕ) × (a' : ℕ) × Reach s (state_of j (view (carried r op l db)) (h' + g) a')
        × (h' + a' + m ≤ k.0)
        × (a' + m' ≤ k.1)
  unfolding carried
  carried-Reach op g resend [] m m' db h a p b c = (h, a, p, omega arith, omega arith)
  carried-Reach op g resend (ss ∷ l) m m' db h a p b c =
      let (h', a', q, d, f) = resend db h a in
      carried-Reach op g resend l m m' (worker_steps r ss (op db).1) h' a'
        (Reach-trans (Reach-trans p q) (worker_steps-Follows r j ss (op db).1 (h' + g) a'))
        (omega arith) (omega arith)

  -- One command, that takes the copies in hand from `g` to `g'`, as its value says.
  pub call-Leads :
      {A : Type 0} (op : Db → A × Db) (g : ℕ) (g' : A → ℕ) (w : World Db)
      → g ≤ 1
      → ((db : Db) → g' (op db).0 ≤ 1)
      → ((db : Db) (h a : ℕ)
          → Reach
              (state_of j (view db) (h + g) a)
              (state_of j (view (op db).1) (h + g' (op db).0) a))
      → Resends r j op g
      → Stands g w
      → Leads (λ a w'. Stands (g' a) w') (call r op w)
  unfolding call
  call-Leads {A} op g g' w l l' step resend (h, a, p, b, c) = go w.slots refl
    where
      ends :
          (o : Outcome) (db : Db) (rest : List Slot) (h a : ℕ)
          → Reach s (state_of j (view db) (h + g) a)
          → h + a + (failure o + losses rest) ≤ k.0
          → a + repeats rest ≤ k.1
          → Leads (λ a w'. Stands (g' a) w') (end_call o op (record w { db = db; slots = rest }))
      ends answered db rest h a q e f = (h, a, Reach-trans q (step db h a), omega arith, f)
      ends refused db rest h a q e f =
          lost g h a (record w { db = db; slots = rest }) l q (omega arith) f
      ends unheard db rest h a q e f =
          lost (g' (op db).0) h a (record w { db = (op db).1; slots = rest }) (l' db)
            (Reach-trans q (step db h a)) (omega arith) f

      go :
          (t : List Slot)
          → w.slots ≡ t
          → Leads
              (λ a w'. Stands (g' a) w')
              (elim t as (λ _. Reply A × World Db) [
                | [] ↦ end_call answered op w
                | s ∷ rest ↦ end_call s.outcome op (record w {
                  db = carried r op s.resent (worker_steps r s.steps w.db);
                  slots = rest;
                })
              ])
      go [] e = ends answered w.db w.slots h a p (omega arith) c
      go (t ∷ rest) e =
          let (h', a', q, d, f) =
            carried-Reach op g resend t.resent (failure t.outcome + losses rest) (repeats rest)
              (worker_steps r t.steps w.db) h a
              (Reach-trans p (worker_steps-Follows r j t.steps w.db (h + g) a))
              (omega (arith, ap losses e)) (omega (arith, ap repeats e)) in
          ends t.outcome (carried r op t.resent (worker_steps r t.steps w.db)) rest h' a' q d f
