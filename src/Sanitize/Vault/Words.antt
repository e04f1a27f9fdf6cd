-- ===== src/Sanitize/Vault/Words.antt =====
-- The words of a text, and the text that has them with one space between two.
use mcp_data_gateway.Prelude.{
  ℕ, ◌≡◌, refl, sym, ap, ◌∙◌, true, false, inl, inr, List, [], ◌∷◌, ◌++◌, append-nil, if◌then◌else◌,
  Bool-cases, All,
}
use mcp_data_gateway.Prelude.Text.{Text, is_whitespace}

-- a word in front of others, if it has a character
abbrev pub cons_word : Text → List Text → List Text
cons_word [] ws = ws
cons_word (c ∷ w) ws = (c ∷ w) ∷ ws

-- the characters in front of the first whitespace, and the words behind it
unfoldable pub cut : Text → Text × List Text
cut [] = ([], [])
cut (c ∷ s) =
    let later = cut s in
    if is_whitespace c then ([], cons_word later.0 later.1) else (c ∷ later.0, later.1)

-- The words of a text: the runs of characters that are not whitespace.
unfoldable pub words : Text → List Text
unfolding cut
words s = cons_word (cut s).0 (cut s).1

-- The words with a space between two of them.
abbrev pub with_spaces : List Text → Text
with_spaces [] = []
with_spaces (w ∷ []) = w
with_spaces (w ∷ v ∷ ws) = w ++ (32 ∷ with_spaces (v ∷ ws))

-- each with a space in front
abbrev pub spaced : List Text → Text
spaced [] = []
spaced (w ∷ ws) = 32 ∷ with_spaces (w ∷ ws)

pub with_spaces-cons : (w : Text) (ws : List Text) → with_spaces (w ∷ ws) ≡ w ++ spaced ws
with_spaces-cons w [] = sym (append-nil w)
with_spaces-cons w (v ∷ ws) = refl

pub cut-space : (c : ℕ) (s : Text) → is_whitespace c ≡ true → cut (c ∷ s) ≡ ([], words s)
unfolding cut words
cut-space c s h = rw h refl

pub cut-letter :
    (c : ℕ) (s : Text) → is_whitespace c ≡ false → cut (c ∷ s) ≡ (c ∷ (cut s).0, (cut s).1)
unfolding cut
cut-letter c s h = rw h refl

pub words-space : (c : ℕ) (s : Text) → is_whitespace c ≡ true → words (c ∷ s) ≡ words s
unfolding words
words-space c s h = ap (λ p. cons_word p.0 p.1) (cut-space c s h)

pub words-letter :
    (c : ℕ) (s : Text) → is_whitespace c ≡ false → words (c ∷ s) ≡ (c ∷ (cut s).0) ∷ (cut s).1
unfolding words
words-letter c s h = ap (λ p. cons_word p.0 p.1) (cut-letter c s h)

-- characters that are not whitespace
abbrev IsRun : Text → Type 0
IsRun w = All (λ c. is_whitespace c ≡ false) w

abbrev AreWords : List Text → Type 0
AreWords [] = Unit
AreWords ([] ∷ ws) = ⊥
AreWords ((c ∷ w) ∷ ws) = IsRun (c ∷ w) × AreWords ws

cons_word-AreWords : (w : Text) (ws : List Text) → IsRun w → AreWords ws → AreWords (cons_word w ws)
cons_word-AreWords [] ws r h = h
cons_word-AreWords (c ∷ w) ws r h = (r, h)

cut-AreWords : (s : Text) → IsRun (cut s).0 × AreWords (cut s).1
unfolding cut
cut-AreWords [] = (tt, tt)
cut-AreWords (c ∷ s) =
    let (r, h) = cut-AreWords s in
    elim (Bool-cases (is_whitespace c)) [
      | inl e ↦ rw e (tt, cons_word-AreWords (cut s).0 (cut s).1 r h)
      | inr e ↦ rw e ((e, r), h)
    ]

pub words-AreWords : (s : Text) → AreWords (words s)
unfolding words
words-AreWords s = let (r, h) = cut-AreWords s in cons_word-AreWords (cut s).0 (cut s).1 r h

cut-IsRun : (w rest : Text) → IsRun w → cut (w ++ rest) ≡ (w ++ (cut rest).0, (cut rest).1)
cut-IsRun [] rest r = refl
cut-IsRun (c ∷ w) rest (e, r) =
    cut-letter c (w ++ rest) e ∙ ap (λ p. (c ∷ p.0, p.1)) (cut-IsRun w rest r)

cut-spaced : (ws : List Text) → words (with_spaces ws) ≡ ws → cut (spaced ws) ≡ ([], ws)
unfolding cut is_whitespace
cut-spaced [] e = refl
cut-spaced (v ∷ vs) e = cut-space 32 (with_spaces (v ∷ vs)) refl ∙ ap (λ u. ([], u)) e

words_nil : words [] ≡ []
unfolding words cut
words_nil = refl

words-run :
    (c : ℕ) (w rest : Text)
    → IsRun (c ∷ w)
    → words ((c ∷ w) ++ rest) ≡ ((c ∷ w) ++ (cut rest).0) ∷ (cut rest).1
unfolding words
words-run c w rest r = ap (λ p. cons_word p.0 p.1) (cut-IsRun (c ∷ w) rest r)

pub words-with_spaces : (ws : List Text) → AreWords ws → words (with_spaces ws) ≡ ws
words-with_spaces [] h = words_nil
words-with_spaces ([] ∷ ws) h = absurd h
words-with_spaces ((c ∷ w) ∷ ws) (r, h) =
    ap words (with_spaces-cons (c ∷ w) ws)
    ∙ words-run c w (spaced ws) r
    ∙ ap (λ p. ((c ∷ w) ++ p.0) ∷ p.1) (cut-spaced ws (words-with_spaces ws h))
    ∙ ap (λ u. (c ∷ u) ∷ ws) (append-nil w)
