-- ===== src/Bench/Names/Sound.antt =====
-- A name that is found stands in the log, in the line that the pattern asks for.
use mathlib.Core.Path.{subst}
use supercluster.Prelude.{
  ℕ, ◌≡◌, ◌≢◌, refl, ap, sym, ◌∙◌, arith, Bool, true, [], ◌∷◌, ◌++◌, Option, some, Option-cases,
  Bool-cases, List-cases, inl, inr,
}
use supercluster.Prelude.Text.{Str, codes, starts_with}
use supercluster.Prelude.Lists.{drop}
use supercluster.Bench.Names.{word, after_word, match_word, match_here, search}
use supercluster.Bench.Names.Laws.{IsWord}

starts_with_split : (p s : Str) → starts_with p s ≡ true → (t : Str) × (s ≡ p ++ t)
unfolding starts_with
starts_with_split [] s e = (s, refl)
starts_with_split (c ∷ p) [] e = absurd cc
starts_with_split (c ∷ p) (d ∷ s) e =
    let (t, q) = starts_with_split p s (ground arith) in (t, ground (arith, q))

module _ (is_space : ℕ → Bool) where
  word-after_word : (s : Str) → s ≡ word is_space s ++ after_word is_space s
  unfolding word after_word
  word-after_word [] = refl
  word-after_word (c ∷ s) = ground (arith, word-after_word s)

  word-IsWord : (s : Str) → IsWord is_space (word is_space s)
  unfolding word
  word-IsWord [] = tt
  word-IsWord (c ∷ s) = elim (Bool-cases (is_space c)) [
    | inl e ↦ rw e tt
    | inr e ↦ rw e (e, word-IsWord s)
  ]

  -- The text is a word that is not empty, " running", and something more.
  abbrev pub IsNamed : Str → Str → Type 0
  IsNamed s w = (post : Str) × (s ≡ w ++ (codes " running" ++ post)) × IsWord is_space w × (w ≢ [])

  -- What `match_word` finds is the first word, and " running" follows it.
  match_word_cases :
      (s w : Str)
      → match_word is_space s ≡ some w
      → (w ≡ word is_space s)
        × (w ≢ [])
        × (starts_with (codes " running") (after_word is_space s) ≡ true)
  unfolding match_word
  match_word_cases s w e = elim (List-cases (word is_space s)) [
    | inl q ↦ absurd (ground arith)
    | inr (c, v, q) ↦ elim (Bool-cases (starts_with (codes " running") (after_word is_space s))) [
      | inl b ↦ (ground arith, ground arith, b)
      | inr b ↦ absurd (ground arith)
    ]
  ]

  match_word_inv : (s w : Str) → match_word is_space s ≡ some w → IsNamed s w
  match_word_inv s w e =
      let (q, n, b) = match_word_cases s w e in
      let (post, a) = starts_with_split (codes " running") (after_word is_space s) b in
      (
        post,
        word-after_word s ∙ ap (λ t. t ++ after_word is_space s) (sym q) ∙ ap (λ t. w ++ t) a,
        subst (IsWord is_space) (sym q) (word-IsWord s),
        n,
      )

  match_here_inv :
      (s w : Str)
      → match_here is_space s ≡ some w
      → (t : Str) × (s ≡ codes "Node " ++ t) × IsNamed t w
  unfolding match_here drop
  match_here_inv s w e = elim (Bool-cases (starts_with (codes "Node ") s)) [
    | inl b ↦
        let (t, q) = starts_with_split (codes "Node ") s b in
        (t, q, match_word_inv t w (ap match_rest (sym q) ∙ (ground arith)))
    | inr b ↦ absurd (ground arith)
  ]
    where
      match_rest : Str → Option Str
      match_rest u = match_word is_space (drop 5 u)

  -- A name that is found stands in the log between "Node " and " running", has no white space and is
  -- not empty.
  pub search_inv :
      (s w : Str)
      → search is_space s ≡ some w
      → (pre : Str) × (post : Str) × (s
          ≡ pre ++ (codes "Node " ++ (w ++ (codes " running" ++ post))))
        × IsWord is_space w
        × (w ≢ [])
  unfolding search
  search_inv [] w e = absurd cc
  search_inv (c ∷ s) w e = elim (Option-cases (match_here is_space (c ∷ s))) [
    | inl q ↦
        let (pre, post, p, h, n) = search_inv s w (ground arith) in
        (c ∷ pre, post, ap (λ t. c ∷ t) p, h, n)
    | inr (v, q) ↦
        let (t, p, (post, r, h, n)) = match_here_inv (c ∷ s) w (ground arith) in
        ([], post, p ∙ ap (λ u. codes "Node " ++ u) r, h, n)
  ]
