-- ===== src/Eks/World/Stops.antt =====
-- Rules for actions that stop at the first command that fails.
use supercluster.Prelude.{
  ℕ, ◌+◌, ◌≡◌, refl, arith, Bool, true, false, ◌⊎◌, inl, inr, List, [], ◌∷◌, ◌++◌, Option, none,
  some, ◌==◌, if◌then◌else◌, Bool-cases,
}
use supercluster.Prelude.Text.{Str, codes}
use supercluster.Prelude.Lists.{All, All-append}
use supercluster.Python.Json.{Json, Result}
use supercluster.Python.Json as Json
use supercluster.Eks.World.{
  Machine, Output, text, failed, absent, Event, ran, captured, asked, slept, World, Reply, ok,
  exited, raised, unfinished, Action, next, pure, ◌>>=◌, lift, required, sleep, read_line,
  prompt_with_default, prompt_yes_no, prompt_ssh_public_key, run, run_capture_output,
}

-- The event is no failed command.
abbrev pub Succeeded : Event → Type 0
Succeeded (ran _ code) = code ≡ 0
Succeeded (captured _ done) = done ≡ true
Succeeded (asked _) = Unit
Succeeded (slept _) = Unit

abbrev pub IsClean : List Event → Type 0
IsClean log = All Succeeded log

-- No command but perhaps the last has failed.
abbrev pub IsCleanButLast : List Event → Type 0
IsCleanButLast log =
    IsClean log ⊎ ((before : List Event) × (e : Event) × (log ≡ before ++ e ∷ []) × IsClean before)

abbrev pub StopsInTime : {A : Type 0} → Reply A × World → Type 0
StopsInTime (ok a, w) = IsClean w.log
StopsInTime (exited code, w) = (code ≡ 1) × IsCleanButLast w.log
StopsInTime (raised, w) = IsCleanButLast w.log
StopsInTime (unfinished, w) = IsClean w.log

abbrev pub Stops : {A : Type 0} → Action A → Type 0
Stops m = (w : World) → IsClean w.log → StopsInTime (m w)

StopsInTime-next :
    {A B : Type 0} (f : A → Action B) (x : Reply A × World)
    → StopsInTime x
    → ((a : A) → Stops (f a))
    → StopsInTime (next f x)
StopsInTime-next f (ok a, w) h k = k a w h
StopsInTime-next f (exited c, w) h k = h
StopsInTime-next f (raised, w) h k = h
StopsInTime-next f (unfinished, w) h k = h

pub bind :
    {A B : Type 0} (m : Action A) (f : A → Action B)
    → Stops m
    → ((a : A) → Stops (f a))
    → Stops (m >>= f)
bind m f hm hf w h = StopsInTime-next f (m w) (hm w h) hf

pub return : {A : Type 0} (a : A) → Stops (pure a)
return a w h = h

pub lift-Stops : {A : Type 0} (m : Result A) → Stops (lift m)
lift-Stops (Json.ok a) w h = h
lift-Stops (Json.raised e) w h = inl h

pub required-Stops : {A : Type 0} (m : Option A) → Stops (required m)
required-Stops none w h = inl h
required-Stops (some a) w h = h

noted : (log : List Event) (e : Event) → IsClean log → Succeeded e → IsClean (log ++ e ∷ [])
noted log e h s = All-append Succeeded log (e ∷ []) h (s, tt)

pub sleep-Stops : (n : ℕ) → Stops (sleep n)
unfolding sleep
sleep-Stops n w h = noted w.log (slept n) h tt

pub read_line-Stops : (prompt : Str) → Stops (read_line prompt)
unfolding read_line
read_line-Stops prompt w h = go w.input
  where
    go :
        (l : List Str)
        → StopsInTime {A = Str} (elim l [
          | [] ↦ (raised, record w { log = w.log ++ asked prompt ∷ [] })
          | line ∷ rest ↦ (ok line, record w { input = rest; log = w.log ++ asked prompt ∷ [] })
        ])
    go [] = inl (noted w.log (asked prompt) h tt)
    go (line ∷ rest) = noted w.log (asked prompt) h tt

pub prompt_with_default-Stops : (p d : Str) → Stops (prompt_with_default p d)
unfolding prompt_with_default
prompt_with_default-Stops p d = bind (read_line _) _ (read_line-Stops _) (λ _ w h. h)

pub Stops-if :
    {A : Type 0} (b : Bool) (x y : Action A) → Stops x → Stops y → Stops (if b then x else y)
Stops-if true x y hx hy = hx
Stops-if false x y hx hy = hy

module _ {F : Type 0} (m : Machine F) where
  pub prompt_yes_no-Stops : (p : Str) (d : Bool) → Stops (prompt_yes_no m p d)
  unfolding prompt_yes_no
  prompt_yes_no-Stops p d = bind (read_line _) _ (read_line-Stops _) (λ _ w h. h)

  pub prompt_ssh_public_key-Stops : Stops (prompt_ssh_public_key m)
  unfolding prompt_ssh_public_key
  prompt_ssh_public_key-Stops = go m.keys
    where
      go :
          (l : List Str)
          → Stops (elim l as (λ _. Action Str) [
            | [] ↦ read_line (codes "SSH public key: ")
            | key ∷ _ ↦ prompt_with_default (codes "SSH public key") key
          ])
      go [] = read_line-Stops (codes "SSH public key: ")
      go (key ∷ _) = prompt_with_default-Stops (codes "SSH public key") key

  pub run-Stops : (command : Str) → Stops (run m command)
  unfolding run
  run-Stops command w h = elim (Bool-cases (m.system w.calls command == 0)) [
    | inl e ↦ rw e (noted w.log (ran command (m.system w.calls command)) h (ground arith))
    | inr e ↦ rw e ((refl, inr (w.log, ran command (m.system w.calls command), refl, h)))
  ]

  pub capture-Stops : (command : List Str) → Stops (run_capture_output m command)
  unfolding run_capture_output
  capture-Stops command w h = go (m.output w.calls command)
    where
      go :
          (o : Output)
          → StopsInTime {A = Str} (elim o [
            | text s ↦
                (ok s, record w { calls = w.calls + 1; log = w.log ++ captured command true ∷ [] })
            | failed _ ↦ (
              exited 1,
              record w { calls = w.calls + 1; log = w.log ++ captured command false ∷ [] },
            )
            | absent ↦ (
              raised,
              record w { calls = w.calls + 1; log = w.log ++ captured command false ∷ [] },
            )
          ])
      go (text s) = noted w.log (captured command true) h refl
      go (failed _) = (refl, inr (w.log, captured command false, refl, h))
      go absent = inr (w.log, captured command false, refl, h)
