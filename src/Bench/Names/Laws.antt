-- ===== src/Bench/Names/Laws.antt =====
-- The name of a node is read back from the line of the log that has it.
use supercluster.Prelude.{
  ℕ, ◌≡◌, ap, ◌∙◌, arith, Bool, true, false, [], ◌∷◌, ◌++◌, ◌==◌, none, some,
}
use supercluster.Prelude.Text.{Str, codes, starts_with}
use supercluster.Prelude.Lists.{All, drop}
use supercluster.Bench.Names.{word, after_word, match_word, match_here, search}

module _ (is_space : ℕ → Bool) where
  -- No white space in the text.
  abbrev pub IsWord : Str → Type 0
  IsWord s = All (λ c. is_space c ≡ false) s

  word-append :
      (s : Str) (c : ℕ) (t : Str) → IsWord s → is_space c ≡ true → word is_space (s ++ c ∷ t) ≡ s
  unfolding word
  word-append [] c t h e = ground arith
  word-append (d ∷ s) c t (n, h) e = ground (arith, word-append s c t h e)

  after_word-append :
      (s : Str) (c : ℕ) (t : Str)
      → IsWord s
      → is_space c ≡ true
      → after_word is_space (s ++ c ∷ t) ≡ c ∷ t
  unfolding after_word
  after_word-append [] c t h e = ground arith
  after_word-append (d ∷ s) c t (n, h) e = ground (arith, after_word-append s c t h e)

  match_word_found :
      (c : ℕ) (s t : Str)
      → word is_space t ≡ c ∷ s
      → starts_with (codes " running") (after_word is_space t) ≡ true
      → match_word is_space t ≡ some (c ∷ s)
  unfolding match_word
  match_word_found c s t w a = ground arith

  match_word-append :
      (c : ℕ) (s post : Str)
      → IsWord (c ∷ s)
      → is_space b' ' ≡ true
      → match_word is_space ((c ∷ s) ++ (codes " running" ++ post)) ≡ some (c ∷ s)
  unfolding starts_with
  match_word-append c s post h e =
      match_word_found c s ((c ∷ s) ++ (codes " running" ++ post))
        (word-append (c ∷ s) b' ' (codes "running" ++ post) h e)
        (ap (starts_with (codes " running"))
          (after_word-append (c ∷ s) b' ' (codes "running" ++ post) h e))

  match_here-append :
      (c : ℕ) (s post : Str)
      → IsWord (c ∷ s)
      → is_space b' ' ≡ true
      → match_here is_space (codes "Node " ++ ((c ∷ s) ++ (codes " running" ++ post)))
        ≡ some (c ∷ s)
  unfolding match_here starts_with drop
  match_here-append c s post h e = match_word-append c s post h e

  no_match : (c : ℕ) (s : Str) → (c == b'N') ≡ false → match_here is_space (c ∷ s) ≡ none
  unfolding match_here starts_with
  no_match c s e = ground arith

  search_found :
      (d : ℕ) (t name : Str)
      → match_here is_space (d ∷ t) ≡ some name
      → search is_space (d ∷ t) ≡ some name
  unfolding search
  search_found d t name e = ground arith

  search_later :
      (d : ℕ) (t : Str)
      → match_here is_space (d ∷ t) ≡ none
      → search is_space (d ∷ t) ≡ search is_space t
  unfolding search
  search_later d t e = ground arith

  -- A log that has the line for a name, with no capital N before it, gives this name, if the name is
  -- not empty and has no white space. A space counts as white space.
  pub search-append :
      (pre : Str) (c : ℕ) (s post : Str)
      → All (λ d. (d == b'N') ≡ false) pre
      → IsWord (c ∷ s)
      → is_space b' ' ≡ true
      → search is_space (pre ++ (codes "Node " ++ ((c ∷ s) ++ (codes " running" ++ post))))
        ≡ some (c ∷ s)
  search-append [] c s post p h e =
      search_found b'N' (codes "ode " ++ ((c ∷ s) ++ (codes " running" ++ post))) (c ∷ s)
        (match_here-append c s post h e)
  search-append (d ∷ pre) c s post (q, p) h e =
      search_later d _ (no_match d _ q) ∙ search-append pre c s post p h e
