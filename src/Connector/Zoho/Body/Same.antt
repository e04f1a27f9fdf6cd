-- ===== src/Connector/Zoho/Body/Same.antt =====
-- A body that is spilled to the file comes back as one that is not.
use mcp_data_gateway.Prelude.{
  ℕ, zero, suc, ◌+◌, ◌≤◌, ◌≡◌, refl, ap, ap₂, sym, ◌∙◌, true, inl, inr, List, [], ◌∷◌, ◌++◌, Option,
  none, some, append-nil, append_assoc, Bool-cases, Option-cases, arith, length, take, drop,
  length-append,
}
use mcp_data_gateway.Prelude.Bytes.{Bytes}
use mcp_data_gateway.Prelude.Result.{ok, err, ◌>>=◌}
use mcp_data_gateway.Connector.{Outcome, other}
use mcp_data_gateway.Connector.Zoho.Body.{
  Response, Disk, File, write_at, write_chunks, read_back, spills, stream_body,
}

-- the chunks of a stream joined, if none of them is an error
abbrev pub joined : List (Option Bytes) → Option Bytes
joined [] = some []
joined (none ∷ chunks) = none
joined (some chunk ∷ chunks) = elim (joined chunks) [
  | none ↦ none
  | some rest ↦ some (chunk ++ rest)
]

-- Every operation on the file succeeds.
pub record IsWorking (disk : Disk) : Type 0 where
  pub creates : disk.creates ≡ true
  pub writes : (i : ℕ) → disk.writes i ≡ true
  pub seeks : disk.seeks ≡ true
  pub reads : disk.reads ≡ true

abbrev full : Bytes → File
full s = record { content = s; position = length s }

take_all : (s : Bytes) → take (length s) s ≡ s
take_all [] = refl
take_all (b ∷ s) = ap (◌∷◌ b) (take_all s)

drop_all : (n : ℕ) (s : Bytes) → length s ≤ n → drop n s ≡ []
drop_all zero [] l = refl
drop_all zero (b ∷ s) l = absurd (omega arith)
drop_all (suc n) [] l = refl
drop_all (suc n) (b ∷ s) l = drop_all n s (omega arith)

-- A write at the end appends.
write_at-full : (chunk s : Bytes) → write_at chunk (full s) ≡ full (s ++ chunk)
unfolding write_at
write_at-full chunk s =
    ap₂ (λ c p. record { content = c; position = p })
      (ap₂ (◌++◌) (take_all s) (
        ap (λ t. chunk ++ t) (drop_all (length s + length chunk) s (omega arith))
        ∙ append-nil chunk))
      (sym (length-append s chunk))

-- the outcome of a body behind the bytes `s`
abbrev pub body_from : Bytes → Option Bytes → Outcome Bytes
body_from s none = err other
body_from s (some rest) = ok (s ++ rest)

joined_more :
    (s chunk : Bytes) (o : Option Bytes)
    → body_from (s ++ chunk) o
      ≡ body_from s (elim o [ none ↦ none | some rest ↦ some (chunk ++ rest) ])
joined_more s chunk none = refl
joined_more s chunk (some rest) = ap ok (append_assoc s chunk rest)

spilled_body :
    (disk : Disk) (i : ℕ) (chunks : List (Option Bytes)) (s : Bytes)
    → IsWorking disk
    → (write_chunks disk i chunks (full s) >>= read_back disk) ≡ body_from s (joined chunks)
unfolding write_chunks read_back
spilled_body disk i [] s w = rw (w.seeks, w.reads) (ap ok (sym (append-nil s)))
spilled_body disk i (none ∷ chunks) s w = refl
spilled_body disk i (some chunk ∷ chunks) s w = rw (w.writes i) (
    ap (λ f. write_chunks disk (i + 1) chunks f >>= read_back disk) (write_at-full chunk s)
    ∙ spilled_body disk (i + 1) chunks (s ++ chunk) w
    ∙ joined_more s chunk (joined chunks))

-- Where every operation on the file succeeds and the client reads a whole body as the chunks of its
-- stream, stream_body returns the chunks joined, or an error if one of them is an error, whatever
-- length the header gives.
pub stream_body-joined :
    (disk : Disk) (resp : Response)
    → IsWorking disk
    → resp.whole ≡ joined resp.stream
    → stream_body disk resp ≡ body_from [] (joined resp.stream)
unfolding stream_body
stream_body-joined disk resp w same = elim (Bool-cases (spills resp.content_length)) [
  | inl e ↦ rw (e, w.creates) (spilled_body disk 0 resp.stream [] w)
  | inr f ↦ elim (Option-cases (joined resp.stream)) [
    | inl n ↦ rw (f, same, n) refl
    | inr (bytes, j) ↦ rw (f, same, j) refl
  ]
]
