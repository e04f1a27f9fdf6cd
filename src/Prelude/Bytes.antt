-- ===== src/Prelude/Bytes.antt =====
-- `&str` as its UTF-8 bytes, where the program works with byte offsets.
use mcp_data_gateway.Prelude.{
  ℕ, zero, suc, ◌+◌, ◌-◌, ◌*◌, ◌^◌, ◌/◌, ◌%◌, ◌≤◌, ◌<◌, ◌≡◌, refl, ap₂, ==_iff, Bool, true, false,
  not, ◌&&◌, ◌||◌, List, [], ◌∷◌, ◌++◌, Option, none, some, arith, ltb, leb, ◌==◌, if◌then◌else◌,
  length, take, drop, get_elem?, dec_lt,
}
use mcp_data_gateway.Prelude.Text.{Text}

abbrev pub Bytes : Type 0
Bytes = List ℕ

-- The encoding of one code point.
unfoldable pub utf8_char : ℕ → Bytes
utf8_char c =
    if ltb c 0x80
    then c ∷ []
    else if ltb c 0x800
    then (0xc0 + c / 64) ∷ (0x80 + c % 64) ∷ []
    else if ltb c 0x10000
    then (0xe0 + c / 4096) ∷ (0x80 + c / 64 % 64) ∷ (0x80 + c % 64) ∷ []
    else (0xf0 + c / 262144) ∷ (0x80 + c / 4096 % 64) ∷ (0x80 + c / 64 % 64) ∷ (0x80 + c % 64) ∷ []

unfoldable pub utf8 : Text → Bytes
unfolding utf8_char
utf8 [] = []
utf8 (c ∷ s) = utf8_char c ++ utf8 s

-- a byte that continues a character
abbrev is_continuation : ℕ → Bool
is_continuation b = leb 0x80 b && ltb b 0xc0

abbrev starts_char : Option ℕ → Bool
starts_char none = false
starts_char (some b) = not (is_continuation b)

-- `str::is_char_boundary`
unfoldable pub is_char_boundary : Bytes → ℕ → Bool
is_char_boundary s i = i == 0 || i == length s || starts_char (get_elem? s i)

-- `&s[start..end]`, which panics out of range and off a boundary
unfoldable pub str_slice : Bytes → ℕ → ℕ → Option Bytes
str_slice s start end =
    if leb start end && leb end (length s) && is_char_boundary s start && is_char_boundary s end
    then some (take (end - start) (drop start s))
    else none

abbrev pub AllAscii : Text → Type 0
AllAscii [] = Unit
AllAscii (c ∷ s) = (c < 128) × AllAscii s

pub utf8-ascii : (s : Text) → AllAscii s → utf8 s ≡ s
unfolding utf8
utf8-ascii [] h = refl
utf8-ascii (c ∷ s) h = ground (arith, utf8-ascii s h.1)

ascii_starts : (s : Bytes) (i : ℕ) → AllAscii s → i < length s → starts_char (get_elem? s i) ≡ true
ascii_starts [] i h l = elim l [ ]
ascii_starts (c ∷ s) zero h l = ground arith
ascii_starts (c ∷ s) (suc i) h l = ascii_starts s i h.1 (omega arith)

ascii_boundary : (s : Bytes) (i : ℕ) → AllAscii s → i ≤ length s → is_char_boundary s i ≡ true
unfolding is_char_boundary
ascii_boundary s i h l = elim (dec_lt i (length s)) [
  | yes lt ↦ ground (arith, ascii_starts s i h lt)
  | no ge ↦ ground arith
]

-- An ASCII text may be cut anywhere.
pub str_slice-ascii :
    (s : Bytes) (start end : ℕ)
    → AllAscii s
    → start ≤ end
    → end ≤ length s
    → str_slice s start end ≡ some (take (end - start) (drop start s))
unfolding str_slice
str_slice-ascii s start end h l u = ground (arith, ascii_boundary s start h, ascii_boundary s end h)

-- A cut between two boundaries in range succeeds.
pub str_slice_lem :
    (s : Bytes) (start end : ℕ)
    → start ≤ end
    → end ≤ length s
    → is_char_boundary s start ≡ true
    → is_char_boundary s end ≡ true
    → str_slice s start end ≡ some (take (end - start) (drop start s))
unfolding str_slice
str_slice_lem s start end l u a b = ground arith

-- `str::chars`: `need` bytes of the character that began with the bits `bits` are still to come
chars_from : Bytes → ℕ → ℕ → Text
chars_from [] need bits = []
chars_from (b ∷ s) zero bits =
    let one = b ∷ chars_from s 0 0 in
    let two = chars_from s 1 (b - 0xc0) in
    let three = chars_from s 2 (b - 0xe0) in
    let four = chars_from s 3 (b - 0xf0) in
    if ltb b 0x80 then one else if ltb b 0xe0 then two else if ltb b 0xf0 then three else four
chars_from (b ∷ s) (suc need) bits =
    let last = (bits * 64 + (b - 0x80)) ∷ chars_from s 0 0 in
    let more = chars_from s need (bits * 64 + (b - 0x80)) in if need == 0 then last else more

unfoldable pub chars : Bytes → Text
unfolding chars_from
chars s = chars_from s 0 0

chars_from-ascii : (s : Bytes) → AllAscii s → chars_from s 0 0 ≡ s
unfolding chars_from
chars_from-ascii [] h = refl
chars_from-ascii (b ∷ s) h = ground (arith, chars_from-ascii s h.1)

pub chars-ascii : (s : Bytes) → AllAscii s → chars s ≡ s
unfolding chars
chars-ascii s h = chars_from-ascii s h

abbrev pub is_ascii_digit : ℕ → Bool
is_ascii_digit b = leb 48 b && leb b 57

abbrev pub is_ascii_uppercase : ℕ → Bool
is_ascii_uppercase b = leb 65 b && leb b 90

abbrev pub all : (ℕ → Bool) → Bytes → Bool
all p [] = true
all p (b ∷ s) = p b && all p s

-- the value of a row of digits, after `acc`
unfoldable pub digits_value : ℕ → Bytes → ℕ
digits_value acc [] = acc
digits_value acc (b ∷ s) = digits_value (acc * 10 + (b - 48)) s

-- `str::parse::<u64>` on a text of digits: it fails on the empty text, on another character and
-- on a value of 2 ^ 64 or more. (A leading `+`, which it takes too, does not reach it here.)
unfoldable pub parse_u64 : Bytes → Option ℕ
unfolding digits_value
parse_u64 [] = none
parse_u64 (b ∷ s) =
    if all is_ascii_digit (b ∷ s) && ltb (digits_value 0 (b ∷ s)) (2 ^ 64)
    then some (digits_value 0 (b ∷ s))
    else none

abbrev pub bytes_eq : Bytes → Bytes → Bool
bytes_eq [] [] = true
bytes_eq (a ∷ s) (b ∷ t) = (a == b) && bytes_eq s t
bytes_eq _ _ = false

abbrev pub reverse_onto : Bytes → Bytes → Bytes
reverse_onto [] t = t
reverse_onto (b ∷ s) t = reverse_onto s (b ∷ t)

abbrev pub reverse : Bytes → Bytes
reverse s = reverse_onto s []

abbrev pub starts_with : Bytes → Bytes → Bool
starts_with s [] = true
starts_with [] (c ∷ t) = false
starts_with (b ∷ s) (c ∷ t) = (b == c) && starts_with s t

abbrev pub ends_with : Bytes → Bytes → Bool
ends_with s t = starts_with (reverse s) (reverse t)

pub bytes_eq_refl : (s : Bytes) → bytes_eq s s ≡ true
bytes_eq_refl [] = refl
bytes_eq_refl (b ∷ s) = rw ((==_iff b b).1 refl, bytes_eq_refl s) refl

pub and_true : (a b : Bool) → (a && b) ≡ true → (a ≡ true) × (b ≡ true)
and_true true b h = (refl, h)
and_true false b h = cc

pub eq_of_bytes_eq : (s t : Bytes) → bytes_eq s t ≡ true → s ≡ t
eq_of_bytes_eq [] [] h = refl
eq_of_bytes_eq [] (b ∷ t) h = cc
eq_of_bytes_eq (a ∷ s) [] h = cc
eq_of_bytes_eq (a ∷ s) (b ∷ t) h =
    let (e, r) = and_true (a == b) (bytes_eq s t) h in
    ap₂ (◌∷◌) ((==_iff a b).0 e) (eq_of_bytes_eq s t r)
