-- ===== src/Prelude/Text.antt =====
-- `&str` and `String` as the lists of their code points.
use Prim.Native.Char.{code}
use mcp_data_gateway.Prelude.{
  ℕ, String, ◌≡◌, refl, Bool, true, false, ◌&&◌, ◌||◌, List, [], ◌∷◌, arith, leb, ◌==◌,
  if◌then◌else◌, Elem, All, inl, inr, Bool-cases, sym, ◌∙◌,
}

abbrev pub Text : Type 0
Text = List ℕ

-- The code points of a literal.
abbrev pub codes : String → Text
codes String.[] = []
codes (String.◌∷◌ c s) = code c ∷ codes s

-- `char::is_whitespace`: the code points with the property White_Space.
unfoldable pub is_whitespace : ℕ → Bool
is_whitespace c =
    (leb 9 c && leb c 13)
    || c == 32
    || c == 0x85
    || c == 0xa0
    || c == 0x1680
    || (leb 0x2000 c && leb c 0x200a)
    || c == 0x2028
    || c == 0x2029
    || c == 0x202f
    || c == 0x205f
    || c == 0x3000

unfoldable pub trim_start : Text → Text
unfolding is_whitespace
trim_start [] = []
trim_start (c ∷ s) = if is_whitespace c then trim_start s else c ∷ s

-- `c` goes if nothing but whitespace follows it, and it is whitespace itself
abbrev pub end_with : ℕ → Text → Text
end_with c [] = if is_whitespace c then [] else c ∷ []
end_with c (d ∷ s) = c ∷ d ∷ s

unfoldable pub trim_end : Text → Text
unfolding is_whitespace
trim_end [] = []
trim_end (c ∷ s) = end_with c (trim_end s)

-- `str::trim`
unfoldable pub trim : Text → Text
unfolding trim_start trim_end
trim s = trim_end (trim_start s)

abbrev pub is_empty : Text → Bool
is_empty [] = true
is_empty (_ ∷ _) = false

-- Text is blank if nothing is left of it after `trim`.
unfoldable pub is_blank : Text → Bool
unfolding trim
is_blank s = is_empty (trim s)

end_with_kept : (c : ℕ) (s : Text) → is_whitespace c ≡ false → is_empty (end_with c s) ≡ false
end_with_kept c [] h = rw h
end_with_kept c (d ∷ s) h = refl

trim_end-cons : (c : ℕ) (s : Text) → is_whitespace c ≡ false → is_empty (trim_end (c ∷ s)) ≡ false
unfolding trim_end
trim_end-cons c s h = ground (arith, end_with_kept c (trim_end s) h)

-- A text with a character that is not whitespace is not blank.
pub is_blank_of_Elem : (c : ℕ) (s : Text) → Elem c s → is_whitespace c ≡ false → is_blank s ≡ false
unfolding is_blank trim trim_start
is_blank_of_Elem c [] h w = elim h [ ]
is_blank_of_Elem c (d ∷ s) (inl e) w = elim (Bool-cases (is_whitespace d)) [
  | inl t ↦ cc
  | inr f ↦ rw f (trim_end-cons d s f)
]
is_blank_of_Elem c (d ∷ s) (inr h) w = elim (Bool-cases (is_whitespace d)) [
  | inl t ↦ rw t (is_blank_of_Elem c s h w)
  | inr f ↦ rw f (trim_end-cons d s f)
]

abbrev pub AllWhitespace : Text → Type 0
AllWhitespace = All (λ c. is_whitespace c ≡ true)

pub is_blank_of_all : (s : Text) → AllWhitespace s → is_blank s ≡ true
unfolding is_blank trim trim_start trim_end
is_blank_of_all [] h = refl
is_blank_of_all (c ∷ s) h = rw h.0 (is_blank_of_all s h.1)

is_blank-tail : (c : ℕ) (s : Text) → is_whitespace c ≡ true → is_blank (c ∷ s) ≡ is_blank s
unfolding is_blank trim trim_start
is_blank-tail c s h = rw h

pub all_of_is_blank : (s : Text) → is_blank s ≡ true → AllWhitespace s
all_of_is_blank [] h = tt
all_of_is_blank (c ∷ s) h = elim (Bool-cases (is_whitespace c)) [
  | inl w ↦ (w, all_of_is_blank s (sym (is_blank-tail c s w) ∙ h))
  | inr f ↦ cc (is_blank_of_Elem c (c ∷ s) (inl refl) f)
]
