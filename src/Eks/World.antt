-- ===== src/Eks/World.antt =====
-- What scripts/eks-init.py finds around it, and its `run`, `run_capture_output` and prompts. What it
-- prints is left out.
pub mod Stops
use supercluster.Prelude.{
  ℕ, ◌+◌, Bool, true, false, List, [], ◌∷◌, ◌++◌, Option, none, some, ◌==◌, if◌then◌else◌,
}
use supercluster.Prelude.Text.{Str, codes}
use supercluster.Prelude.Sets.{elem}
use supercluster.Python.Number.{Number}
use supercluster.Python.Json.{Json, Result}
use supercluster.Python.Json as Json

-- What `subprocess.check_output` does: it gives the output, raises `CalledProcessError` with an
-- exit code, or raises because the program is not there.
pub data Output : Type 0 where
  text : Str → Output
  failed : ℕ → Output
  absent : Output

-- The machine, which is not in the repository. A command is known by how many have run before it.
-- `keys` is what `glob` finds, `int` is Python's on a text, and `show` its `str` on a JSON value.
pub record Machine (F : Type 0) : Type 0 where
  pub system : ℕ → Str → ℕ
  pub output : ℕ → List Str → Output
  pub keys : List Str
  pub loads : Str → Option (Json F)
  pub int : Str → Option F
  pub lower : Str → Str
  pub show : Json F → Str

-- What the script has done that others can see.
pub data Event : Type 0 where
  ran : Str → ℕ → Event
  captured : List Str → Bool → Event
  asked : Str → Event
  slept : ℕ → Event

-- The lines that the user will type, the number of commands so far, and the events so far.
pub record World : Type 0 where
  pub input : List Str
  pub calls : ℕ
  pub log : List Event

-- A value, `exit` with a code, an exception that ends the script, or nothing yet when the fuel of
-- the loop has run out.
pub data Reply (A : Type 0) : Type 0 where
  ok : A → Reply A
  exited : ℕ → Reply A
  raised : Reply A
  unfinished : Reply A

abbrev pub Action : Type 0 → Type 0
Action A = World → Reply A × World

abbrev pub pure : {A : Type 0} → A → Action A
pure a w = (ok a, w)

-- What follows a value.
abbrev pub next : {A B : Type 0} → (A → Action B) → Reply A × World → Reply B × World
next f (ok a, w) = f a w
next f (exited c, w) = (exited c, w)
next f (raised, w) = (raised, w)
next f (unfinished, w) = (unfinished, w)

infixl 5 ◌>>=◌ ◌>>◌
abbrev pub ◌>>=◌ : {A B : Type 0} → Action A → (A → Action B) → Action B
◌>>=◌ m f w = next f (m w)

abbrev pub ◌>>◌ : {B : Type 0} → Action (Unit {0}) → Action B → Action B
m >> k = m >>= λ _. k

-- An expression that may raise.
abbrev pub lift : {A : Type 0} → Result A → Action A
lift (Json.ok a) w = (ok a, w)
lift (Json.raised _) w = (raised, w)

-- A value that is missing is an exception.
abbrev pub required : {A : Type 0} → Option A → Action A
required none w = (raised, w)
required (some a) w = (ok a, w)

abbrev pub note : Event → World → World
note e w = record w { log = w.log ++ e ∷ [] }

-- `time.sleep(seconds)`
unfoldable pub sleep : ℕ → Action (Unit {0})
sleep seconds w = (ok tt, note (slept seconds) w)

-- `input(prompt)`, which raises at the end of the input
unfoldable pub read_line : Str → Action Str
read_line prompt w = elim w.input [
  | [] ↦ (raised, note (asked prompt) w)
  | line ∷ rest ↦ (ok line, note (asked prompt) (record w { input = rest }))
]

-- `res if res else default`
unfoldable pub or_default : Str → Str → Str
or_default default [] = default
or_default default (c ∷ s) = c ∷ s

unfoldable pub prompt_with_default : Str → Str → Action Str
unfolding read_line or_default
prompt_with_default prompt default = do
  res ← read_line (prompt ++ codes " [" ++ default ++ codes "]: ")
  pure (or_default default res)

module _ {F : Type 0} (m : Machine F) where
  unfoldable pub is_yes : Bool → Str → Bool
  is_yes default [] = default
  is_yes default (c ∷ s) = elem (m.lower (c ∷ s)) (codes "y" ∷ codes "yes" ∷ [])

  unfoldable pub prompt_yes_no : Str → Bool → Action Bool
  unfolding read_line is_yes
  prompt_yes_no prompt default = do
    res ← read_line (prompt ++ (if default then codes " [Y/n]: " else codes " [y/N]: "))
    pure (is_yes default res)

  unfoldable pub prompt_ssh_public_key : Action Str
  unfolding read_line prompt_with_default
  prompt_ssh_public_key = elim m.keys [
    | [] ↦ read_line (codes "SSH public key: ")
    | key ∷ _ ↦ prompt_with_default (codes "SSH public key") key
  ]

  abbrev called : Event → World → World
  called e w = note e (record w { calls = w.calls + 1 })

  -- The script exits unless the exit code is 0.
  unfoldable pub run : Str → Action (Unit {0})
  run command w =
      let code = m.system w.calls command in
      (if code == 0 then ok tt else exited 1, called (ran command code) w)

  unfoldable pub run_capture_output : List Str → Action Str
  run_capture_output command w = elim (m.output w.calls command) [
    | text s ↦ (ok s, called (captured command true) w)
    | failed _ ↦ (exited 1, called (captured command false) w)
    | absent ↦ (raised, called (captured command false) w)
  ]
