-- ===== src/Sanitize/Ner/Model/Spans.antt =====
-- The spans of the model are fit for the pipeline, where the tokenizer gives ordered offsets.
use mcp_data_gateway.Prelude.{
  ℕ, ◌≡◌, refl, subst, String, inl, inr, List, [], ◌∷◌, ◌++◌, Option, none, some, arith, All,
  append-nil, Option-cases,
}
use mcp_data_gateway.Prelude.Bytes.{Bytes}
use mcp_data_gateway.Prelude.Result.{Result, ok, err}
use mcp_data_gateway.Sanitize.{Span}
use mcp_data_gateway.Sanitize.Merge.{merge_and_dedup}
use mcp_data_gateway.Sanitize.Substitute.{SanitizeCtx}
use mcp_data_gateway.Sanitize.Substitute.Segments.{IsWellFormed}
use mcp_data_gateway.Sanitize.Pipeline.{Regexes, IsEngine, Cow, ner_hits, sanitize_full}
use mcp_data_gateway.Sanitize.Pipeline as Pipeline
use mcp_data_gateway.Sanitize.Pipeline.Laws.{IsRebuilt, sanitize_full_lem}
use mcp_data_gateway.Sanitize.Ner.{flush, bio_from, bio_merge}
use mcp_data_gateway.Sanitize.Ner.Steps.{token_cases}
use mcp_data_gateway.Sanitize.Ner.Cover.{IsOrdered, OpenIn, special_step}
use mcp_data_gateway.Sanitize.Ner.Model.{
  NerError, NerModel, Hub, Cell, get_or_init, run_network, run_model, scan,
}

flush-IsWellFormed :
    (p q : ℕ) (prev : Option Span) (rest : List Span)
    → OpenIn p q prev
    → All IsWellFormed rest
    → All IsWellFormed (flush prev ++ rest)
flush-IsWellFormed p q none rest o h = h
flush-IsWellFormed p q (some s) rest (a, b, c) h = (b, h)

module _ (labels : List String) where
  bio_from-IsWellFormed :
      (lids : List ℕ) (offsets : List (ℕ × ℕ)) (prev : Option Span) (p q : ℕ)
      → IsOrdered q offsets
      → OpenIn p q prev
      → All IsWellFormed (bio_from offsets lids labels prev)
  unfolding bio_from
  bio_from-IsWellFormed [] offsets prev p q h o =
      subst (All IsWellFormed) (append-nil (flush prev)) (flush-IsWellFormed p q prev [] o tt)
  bio_from-IsWellFormed (lid ∷ lids) [] prev p q h o =
      rw (special_step labels 0 0 lid prev (refl, refl))
        (flush-IsWellFormed p q prev _ o (bio_from-IsWellFormed lids [] none q q tt tt))
  bio_from-IsWellFormed (lid ∷ lids) ((s, e) ∷ os) prev p q (inl (sp, h)) o =
      rw (special_step labels s e lid prev sp)
        (flush-IsWellFormed p q prev _ o (bio_from-IsWellFormed lids os none q q h tt))
  bio_from-IsWellFormed (lid ∷ lids) ((s, e) ∷ os) prev p q (inr (a, b, h)) o =
      elim (token_cases labels s e lid prev) [
        | inl r ↦
            rw r (flush-IsWellFormed p q prev _ o (bio_from-IsWellFormed lids os none e e h tt))
        | inr (inl (k, r)) ↦ rw r (
            flush-IsWellFormed p q prev _ o (
              bio_from-IsWellFormed lids os (some (record { start = s; end = e; kind = k })) q e h
                (a, omega arith, omega arith)))
        | inr (inr (u, eu, r)) ↦
            let (o₁, o₂, o₃) = subst (OpenIn p q) eu o in
            rw r (
              bio_from-IsWellFormed lids os (some (record u { end = e })) p e h
                (o₁, omega arith, omega arith))
      ]

-- What the tokenizer documents: the offsets of a text are ordered.
abbrev pub Tokenizes : NerModel → Type 0
Tokenizes model =
    (text : Bytes) (ids : List ℕ) (offsets : List (ℕ × ℕ))
    → model.encode text ≡ some (ids, offsets)
    → IsOrdered 0 offsets

-- The pass as `sanitize` calls it: an error is any error.
abbrev pub pass_of : Result NerError (List Span) → Result (Unit {0}) (List Span)
pass_of (ok spans) = ok spans
pass_of (err e) = err tt

abbrev pub ner_pass : Hub → Cell → Bytes → Result (Unit {0}) (List Span)
ner_pass hub cell text = pass_of (scan hub cell text).0

network-IsWellFormed :
    (model : NerModel) (o : Option (List ℕ × List (ℕ × ℕ)))
    → ((ids : List ℕ) (offsets : List (ℕ × ℕ)) → o ≡ some (ids, offsets) → IsOrdered 0 offsets)
    → All IsWellFormed (ner_hits (pass_of (run_network model o)))
unfolding run_network bio_merge
network-IsWellFormed model none h = tt
network-IsWellFormed model (some (ids, offsets)) h = elim (Option-cases (model.infer ids)) [
  | inl n ↦ rw (n, run_network) tt
  | inr (lids, e) ↦
      rw (e, run_network)
        (bio_from-IsWellFormed model.labels lids offsets none 0 0 (h ids offsets refl) tt)
]

run_model-IsWellFormed :
    (o : Option NerModel) (text : Bytes)
    → ((model : NerModel) → o ≡ some model → Tokenizes model)
    → All IsWellFormed (ner_hits (pass_of (run_model o text)))
unfolding run_model
run_model-IsWellFormed none text h = tt
run_model-IsWellFormed (some model) text h =
    network-IsWellFormed model (model.encode text) (h model refl text)

scan-IsWellFormed :
    (hub : Hub) (cell : Cell) (text : Bytes)
    → ((model : NerModel) → get_or_init hub cell ≡ some model → Tokenizes model)
    → All IsWellFormed (ner_hits (ner_pass hub cell text))
unfolding scan
scan-IsWellFormed hub cell [] h = tt
scan-IsWellFormed hub cell (c ∷ text) h = run_model-IsWellFormed (get_or_init hub cell) (c ∷ text) h

-- With a regex engine that keeps its contract and a model, if one loads, whose tokenizer gives ordered
-- offsets, sanitize with both scanners never panics: its result is the text with exactly the merged
-- hits of both in range replaced by their tokens; where the model does not load, or fails, those of
-- the regex scanner.
pub sanitize-scan :
    (re : Regexes) (text : Bytes) (ctx : SanitizeCtx) (hub : Hub) (cell : Cell)
    → IsEngine re
    → ((model : NerModel) → get_or_init hub cell ≡ some model → Tokenizes model)
    → (spans : List Span) × (c : Cow) × (Pipeline.scan re text ≡ some spans)
      × (sanitize_full re (ner_pass hub cell) text ctx ≡ some c)
      × IsRebuilt text ctx (merge_and_dedup (spans ++ ner_hits (ner_pass hub cell text))) c
sanitize-scan re text ctx hub cell en h =
    sanitize_full_lem re en text ctx (ner_pass hub cell) (scan-IsWellFormed hub cell text h)
