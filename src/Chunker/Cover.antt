-- ===== src/Chunker/Cover.antt =====
-- What the chunks of chunker.rs hold: no chunk is blank or too long, and none of the text is lost.
use mcp_data_gateway.Prelude.{
  ℕ, zero, suc, ◌+◌, ◌-◌, ◌*◌, ◌/◌, ◌≤◌, ◌<◌, ◌≡◌, refl, ap, sym, ◌∙◌, subst, true, false, inl, inr,
  List, [], some, ℕ_discrete, some-injective, arith, Bool-cases, length, drop, length-take,
  get_elem?, get_elem?-take, get_elem?-drop, get_elem?-lt, Elem, All, All-take, All-drop,
  Elem-of_get_elem?,
}
use mcp_data_gateway.Prelude.Text.{
  Text, is_blank, is_whitespace, is_blank_of_Elem, is_blank_of_all, all_of_is_blank,
}
use mcp_data_gateway.Chunker.{chunk}
use mcp_data_gateway.Chunker.Windows.{window, windows, window_count, chunk_by_chars-windows}

module _ (text : Text) where
  window-blank : (k : ℕ) → is_blank text ≡ true → is_blank (window text k) ≡ true
  window-blank k h =
      is_blank_of_all (window text k) (
        All-take _ 2048 (drop (k * 1848) text)
          (All-drop _ (k * 1848) text (all_of_is_blank text h)))

  windows-blank : (n k : ℕ) → is_blank text ≡ true → windows text n k ≡ []
  windows-blank zero k h = refl
  windows-blank (suc n) k h = rw (window-blank k h) (windows-blank n (k + 1) h)

  -- Chunking never fails. For every text it returns the windows of 2048 characters that start at
  -- the multiples of 1848, up to the first that reaches the end, those of whitespace left out.
  pub chunk-windows : chunk text ≡ some (windows text (window_count (length text)) 0)
  unfolding chunk
  chunk-windows = elim (Bool-cases (is_blank text)) [
    | inl b ↦ rw b (ap some (sym (windows-blank (window_count (length text)) 0 b)))
    | inr b ↦ rw b (chunk_by_chars-windows text)
  ]

  windows-sized : (n k : ℕ) → All (λ c. (length c ≤ 2048) × (is_blank c ≡ false)) (windows text n k)
  windows-sized zero k = tt
  windows-sized (suc n) k = elim (Bool-cases (is_blank (window text k))) [
    | inl b ↦ rw b (windows-sized n (k + 1))
    | inr b ↦
        rw b ((omega (arith, length-take 2048 (drop (k * 1848) text)), b), windows-sized n (k + 1))
  ]

  windows_rest :
      (n k : ℕ) (c : Text) → Elem c (windows text n (k + 1)) → Elem c (windows text (suc n) k)
  windows_rest n k c h = elim (Bool-cases (is_blank (window text k))) [
    | inl b ↦ rw b h
    | inr b ↦ rw b (inr h)
  ]

  windows_head :
      (n k : ℕ) → is_blank (window text k) ≡ false → Elem (window text k) (windows text (suc n) k)
  windows_head n k b = rw b (inl refl)

  windows-Elem :
      (n k j : ℕ)
      → k ≤ j
      → j < k + n
      → is_blank (window text j) ≡ false
      → Elem (window text j) (windows text n k)
  windows-Elem zero k j l u b = absurd (omega arith)
  windows-Elem (suc n) k j l u b = elim (ℕ_discrete k j) [
    | yes e ↦
        subst (λ m. Elem (window text m) (windows text (suc n) k)) e (windows_head n k (rw e b))
    | no ne ↦
        windows_rest n k (window text j) (windows-Elem n (k + 1) j (omega arith) (omega arith) b)
  ]

  -- every position lies in one of the windows
  in_window :
      (i : ℕ)
      → i < length text
      → (k : ℕ) × (k * 1848 ≤ i) × (i < k * 1848 + 2048) × (k < window_count (length text))
  in_window i h = ((i - 200) / 1848, omega arith, omega arith, omega arith)

  get_elem?-window :
      (k i : ℕ)
      → k * 1848 ≤ i
      → i < k * 1848 + 2048
      → get_elem? (window text k) (i - k * 1848) ≡ get_elem? text i
  get_elem?-window k i l u =
      get_elem?-take 2048 (i - k * 1848) (drop (k * 1848) text) (omega arith)
      ∙ get_elem?-drop (k * 1848) (i - k * 1848) i text (omega arith)

-- Every chunk has at most 2048 characters and is not blank.
pub chunk-sized :
    (text : Text) (chunks : List Text)
    → chunk text ≡ some chunks
    → All (λ c. (length c ≤ 2048) × (is_blank c ≡ false)) chunks
chunk-sized text chunks h =
    subst (All (λ c. (length c ≤ 2048) × (is_blank c ≡ false)))
      (some-injective _ _ (sym (chunk-windows text) ∙ h))
      (windows-sized text (window_count (length text)) 0)

-- Nothing but whitespace is lost: each other character of the text stands in a chunk that
-- is returned, and its place there tells its place in the text.
pub chunk_covers :
    (text : Text) (i c : ℕ)
    → get_elem? text i ≡ some c
    → is_whitespace c ≡ false
    → (chunks : List Text) × (k : ℕ) × (chunk text ≡ some chunks)
      × Elem (window text k) chunks
      × (k * 1848 ≤ i)
      × (get_elem? (window text k) (i - k * 1848) ≡ some c)
chunk_covers text i c e w =
    let (k, l, u, lt) = in_window text i (get_elem?-lt text i e) in
    let here : get_elem? (window text k) (i - k * 1848) ≡ some c =
      get_elem?-window text k i l u ∙ e in
    (
      windows text (window_count (length text)) 0,
      k,
      chunk-windows text,
      windows-Elem text (window_count (length text)) 0 k (omega arith) (omega arith)
          (is_blank_of_Elem c (window text k) (Elem-of_get_elem? _ _ c here) w),
      l,
      here,
    )
