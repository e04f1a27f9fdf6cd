-- ===== src/Chunker/Windows.antt =====
-- The loop of chunker.rs against a closed description: the windows that start at the multiples of
-- the stride, those of whitespace left out.
use Prim.Native.Nat.{min}
use mcp_data_gateway.Prelude.{
  ℕ, zero, suc, ◌+◌, ◌-◌, ◌*◌, ◌/◌, ◌≤◌, ◌<◌, ◌≡◌, refl, ap, sym, ◌∙◌, inl, inr, List, [], ◌∷◌,
  ◌++◌, append-nil, append_assoc, some, arith, Bool-cases, ◌==◌, if◌then◌else◌, length, take, drop,
  length-drop, le→leb, ==-of_eq, ==-of_ne, ◌≢◌, take-min, drop-drop, drop-take, take-take_of_le,
}
use mcp_data_gateway.Prelude.Text.{Text, is_blank}
use mcp_data_gateway.Chunker.{
  chunk_chars, overlap_chars, stride_chars, slice, push_chunk, chunk_round, chunk_loop,
  chunk_by_chars,
}

-- The k-th window.
abbrev pub window : Text → ℕ → Text
window text k = take chunk_chars (drop (k * stride_chars) text)

-- How many windows it takes to reach the end of the text.
abbrev pub window_count : ℕ → ℕ
window_count n = (n - chunk_chars + (stride_chars - 1)) / stride_chars + 1

-- The windows k, k + 1, …, n in number, that are not blank.
abbrev pub windows : Text → ℕ → ℕ → List Text
windows text zero k = []
windows text (suc n) k =
    let rest = windows text n (k + 1) in
    if is_blank (window text k) then rest else window text k ∷ rest

slice-window :
    (text : Text) (start : ℕ)
    → start ≤ length text
    → slice text start (min (start + 2048) (length text)) ≡ some (take 2048 (drop start text))
unfolding slice
slice-window text start h = rw (le→leb start (min (start + 2048) (length text)) (omega arith)) (
    rw (le→leb (min (start + 2048) (length text)) (length text) (omega arith))
      (rw (span_eq) (ap some (take-min 2048 (drop start text)))))
  where
    span_eq : min (start + 2048) (length text) - start ≡ min 2048 (length (drop start text))
    span_eq = omega (arith, length-drop start text)

push_chunk-append :
    (text : Text) (k n : ℕ) (acc : List Text)
    → push_chunk (window text k) acc ++ windows text n (k + 1) ≡ acc ++ windows text (suc n) k
unfolding push_chunk
push_chunk-append text k n acc = elim (Bool-cases (is_blank (window text k))) [
  | inl b ↦ rw b
  | inr b ↦ rw b (append_assoc acc (window text k ∷ []) (windows text n (k + 1)))
]

-- The test of the loop: the window that ends with the text is the last one.
last_window :
    (k n len : ℕ)
    → k + suc n ≡ window_count len
    → (k * 1848 ≤ len) × (n ≡ 0 → min (k * 1848 + 2048) len ≡ len)
last_window k n len c = (omega arith, λ e. omega arith)

inner_window : (k n len : ℕ) → k + suc (suc n) ≡ window_count len → min (k * 1848 + 2048) len ≢ len
inner_window k n len c = omega arith

module _ (text : Text) where
  chunk_loop_step :
      (fuel start : ℕ) (chunks : List Text)
      → start ≤ length text
      → chunk_loop (suc fuel) text start chunks
        ≡ chunk_round
            (min (start + 2048) (length text) == length text)
            (push_chunk (take 2048 (drop start text)) chunks)
            (λ cs. chunk_loop fuel text (start + 1848) cs)
  unfolding chunk_loop
  chunk_loop_step fuel start chunks h = rw (slice-window text start h, chunk_loop)

  chunk_loop-windows :
      (fuel k n start : ℕ) (acc : List Text)
      → start ≡ k * 1848
      → k + suc n ≡ window_count (length text)
      → length text < start + fuel
      → chunk_loop fuel text start acc ≡ some (acc ++ windows text (suc n) k)
  unfolding chunk_round
  chunk_loop-windows zero k n start acc s c f =
      absurd (omega (arith, last_window k n (length text) c))
  chunk_loop-windows (suc fuel) k zero start acc s c f = rw s (
      rw (chunk_loop_step fuel (k * 1848) acc (last_window k 0 (length text) c).0) (
        rw
          (==-of_eq (min (k * 1848 + 2048) (length text)) (length text)
            ((last_window k 0 (length text) c).1 refl))
          (ap some
            (sym (append-nil (push_chunk (window text k) acc)) ∙ push_chunk-append text k 0 acc))))
  chunk_loop-windows (suc fuel) k (suc n) start acc s c f = rw s (
      rw (chunk_loop_step fuel (k * 1848) acc (last_window k (suc n) (length text) c).0) (
        rw
          (==-of_ne (min (k * 1848 + 2048) (length text)) (length text)
            (inner_window k n (length text) c))
          (chunk_loop-windows fuel (k + 1) n (k * 1848 + 1848) (push_chunk (window text k) acc)
              (omega arith) (omega arith) (omega arith)
            ∙ ap some (push_chunk-append text k (suc n) acc))))

-- Splitting never fails: it returns the windows that start at the multiples of the stride up to the
-- first that reaches the end of the text, in order, those of whitespace left out.
pub chunk_by_chars-windows :
    (text : Text) → chunk_by_chars text ≡ some (windows text (window_count (length text)) 0)
unfolding chunk_by_chars
chunk_by_chars-windows text =
    let n = window_count (length text) - 1 in
    let e : window_count (length text) ≡ suc n = omega arith in
    chunk_loop-windows text (suc (length text)) 0 n 0 [] refl (omega arith) (omega arith)
    ∙ ap (λ m. some (windows text m 0)) (sym e)

-- A window and the one behind it share 200 characters, where the first is full.
pub window_overlap :
    (text : Text) (k : ℕ)
    → drop stride_chars (window text k) ≡ take overlap_chars (window text (k + 1))
window_overlap text k =
    drop-take stride_chars chunk_chars overlap_chars (drop (k * 1848) text) refl
    ∙ ap (take 200) (drop-drop 1848 (k * 1848) ((k + 1) * 1848) text (omega arith))
    ∙ sym (take-take_of_le 200 2048 (drop ((k + 1) * 1848) text) (omega arith))
