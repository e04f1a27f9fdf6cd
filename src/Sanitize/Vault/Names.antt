-- ===== src/Sanitize/Vault/Names.antt =====
-- `normalize_name` of vault.rs against the words of a text.
use mcp_data_gateway.Prelude.{
  ℕ, ◌≡◌, refl, sym, ap, ◌∙◌, ◌↔◌, Bool, true, false, inl, inr, List, [], ◌∷◌, ◌++◌, if◌then◌else◌,
  Bool-cases,
}
use mcp_data_gateway.Prelude.Text.{
  Text, is_whitespace, trim, trim_start, trim_end, end_with, is_empty,
}
use mcp_data_gateway.Sanitize.Vault.{VaultEnv, collapse, normalize_name}
use mcp_data_gateway.Sanitize.Vault.Words.{
  cut, words, with_spaces, spaced, with_spaces-cons, cut-space, cut-letter, words-space,
  words-letter, words-AreWords, words-with_spaces,
}

end_with-letter : (c : ℕ) (t : Text) → is_whitespace c ≡ false → end_with c t ≡ c ∷ t
end_with-letter c [] h = rw h refl
end_with-letter c (d ∷ t) h = refl

end_with-space :
    (c : ℕ) (t : Text) → is_whitespace c ≡ true → end_with c t ≡ (if is_empty t then [] else c ∷ t)
end_with-space c [] h = rw h refl
end_with-space c (d ∷ t) h = refl

trim_end-letter : (c : ℕ) (s : Text) → is_whitespace c ≡ false → trim_end (c ∷ s) ≡ c ∷ trim_end s
unfolding trim_end
trim_end-letter c s h = end_with-letter c (trim_end s) h

trim_end-space :
    (c : ℕ) (s : Text)
    → is_whitespace c ≡ true
    → trim_end (c ∷ s) ≡ (if is_empty (trim_end s) then [] else c ∷ trim_end s)
unfolding trim_end
trim_end-space c s h = end_with-space c (trim_end s) h

collapse-letter :
    (p : Bool) (c : ℕ) (s : Text)
    → is_whitespace c ≡ false
    → collapse p (c ∷ s) ≡ c ∷ collapse false s
unfolding collapse
collapse-letter p c s h = rw h refl

collapse-space :
    (p : Bool) (c : ℕ) (s : Text)
    → is_whitespace c ≡ true
    → collapse p (c ∷ s) ≡ (if p then collapse true s else 32 ∷ collapse true s)
unfolding collapse
collapse-space p c s h = rw h refl

collapse-nil : (p : Bool) → collapse p [] ≡ []
unfolding collapse
collapse-nil p = refl

abbrev no_words : List Text → Bool
no_words [] = true
no_words (w ∷ ws) = false

is_empty_if : (t : Text) (c : ℕ) → is_empty (if is_empty t then [] else c ∷ t) ≡ is_empty t
is_empty_if [] c = refl
is_empty_if (d ∷ t) c = refl

-- Nothing is left of a text without words.
is_empty-trim_end : (s : Text) → is_empty (trim_end s) ≡ no_words (words s)
unfolding trim_end words cut
is_empty-trim_end [] = refl
is_empty-trim_end (c ∷ s) = elim (Bool-cases (is_whitespace c)) [
  | inl h ↦
      ap is_empty (trim_end-space c s h)
      ∙ is_empty_if (trim_end s) c
      ∙ is_empty-trim_end s
      ∙ ap no_words (sym (words-space c s h))
  | inr h ↦ ap is_empty (trim_end-letter c s h) ∙ ap no_words (sym (words-letter c s h))
]

-- whitespace in front of a text, where some was met already and where not
collapse_if_true :
    (t : Text) (c : ℕ)
    → is_whitespace c ≡ true
    → collapse true (if is_empty t then [] else c ∷ t) ≡ collapse true t
collapse_if_true [] c h = refl
collapse_if_true (d ∷ t) c h = collapse-space true c (d ∷ t) h

collapse_if_false :
    (t : Text) (c : ℕ) (ws : List Text)
    → is_whitespace c ≡ true
    → is_empty t ≡ no_words ws
    → collapse true t ≡ with_spaces ws
    → collapse false (if is_empty t then [] else c ∷ t) ≡ spaced ws
collapse_if_false [] c [] h e j = collapse-nil false
collapse_if_false [] c (w ∷ ws) h e j = cc
collapse_if_false (d ∷ t) c [] h e j = cc
collapse_if_false (d ∷ t) c (w ∷ ws) h e j = collapse-space false c (d ∷ t) h ∙ ap (◌∷◌ 32) j

-- The loop on a text without whitespace at its end.
collapse-words :
    (s : Text)
    → (collapse true (trim_end s) ≡ with_spaces (words s))
      × (collapse false (trim_end s) ≡ (cut s).0 ++ spaced (cut s).1)
unfolding trim_end words cut
collapse-words [] = (collapse-nil true, collapse-nil false)
collapse-words (c ∷ s) = elim (Bool-cases (is_whitespace c)) [
  | inl h ↦
      let (skips, keeps) = collapse-words s in
      (
        ap (collapse true) (trim_end-space c s h)
            ∙ collapse_if_true (trim_end s) c h
            ∙ skips
            ∙ ap with_spaces (sym (words-space c s h)),
        ap (collapse false) (trim_end-space c s h)
            ∙ collapse_if_false (trim_end s) c (words s) h (is_empty-trim_end s) skips
            ∙ ap (λ p. p.0 ++ spaced p.1) (sym (cut-space c s h)),
      )
  | inr h ↦
      let (skips, keeps) = collapse-words s in
      let runs : (p : Bool) → collapse p (trim_end (c ∷ s)) ≡ c ∷ ((cut s).0 ++ spaced (cut s).1) =
        λ p.
          ap (collapse p) (trim_end-letter c s h)
          ∙ collapse-letter p c (trim_end s) h
          ∙ ap (◌∷◌ c) keeps in
      (
        runs true
            ∙ sym (with_spaces-cons (c ∷ (cut s).0) (cut s).1)
            ∙ ap with_spaces (sym (words-letter c s h)),
        runs false ∙ ap (λ p. p.0 ++ spaced p.1) (sym (cut-letter c s h)),
      )
]

trim_start-space : (c : ℕ) (s : Text) → is_whitespace c ≡ true → trim_start (c ∷ s) ≡ trim_start s
unfolding trim_start
trim_start-space c s h = rw h refl

trim_start-letter : (c : ℕ) (s : Text) → is_whitespace c ≡ false → trim_start (c ∷ s) ≡ c ∷ s
unfolding trim_start
trim_start-letter c s h = rw h refl

nothing_left : collapse false (trim_end (trim_start [])) ≡ with_spaces (words [])
unfolding trim_end trim_start words cut collapse
nothing_left = refl

collapse_trimmed : (s : Text) → collapse false (trim_end (trim_start s)) ≡ with_spaces (words s)
collapse_trimmed [] = nothing_left
collapse_trimmed (c ∷ s) = elim (Bool-cases (is_whitespace c)) [
  | inl h ↦
      ap (λ t. collapse false (trim_end t)) (trim_start-space c s h)
      ∙ collapse_trimmed s
      ∙ ap with_spaces (sym (words-space c s h))
  | inr h ↦
      ap (λ t. collapse false (trim_end t)) (trim_start-letter c s h)
      ∙ (collapse-words (c ∷ s)).1
      ∙ ap (λ p. p.0 ++ spaced p.1) (cut-letter c s h)
      ∙ sym (with_spaces-cons (c ∷ (cut s).0) (cut s).1)
      ∙ ap with_spaces (sym (words-letter c s h))
]

collapse-trim : (s : Text) → collapse false (trim s) ≡ with_spaces (words s)
unfolding trim
collapse-trim s = collapse_trimmed s

-- The key text of a person or an organisation is the words of its text, in the form NFKC, with one space
-- between two of them, in small letters. Two texts have the same words exactly where they have the same
-- text with these spaces.
pub normalize_name-words :
    (env : VaultEnv) (a b : Text)
    → (normalize_name env a ≡ env.to_lowercase (with_spaces (words (env.nfkc a))))
      × ((with_spaces (words (env.nfkc a)) ≡ with_spaces (words (env.nfkc b)))
          ↔ (words (env.nfkc a) ≡ words (env.nfkc b)))
unfolding normalize_name
normalize_name-words env a b = (
  ap env.to_lowercase (collapse-trim (env.nfkc a)),
  (
    λ e.
        sym (words-with_spaces (words (env.nfkc a)) (words-AreWords (env.nfkc a)))
        ∙ ap words e
        ∙ words-with_spaces (words (env.nfkc b)) (words-AreWords (env.nfkc b)),
    λ e. ap with_spaces e,
  ),
)
