-- ===== src/Sanitize/Ner/Model/Tests.antt =====
-- A tokenizer that takes a text for one token, and a table of two labels.
use mcp_data_gateway.Prelude.{
  ℕ, ◌≡◌, refl, ap, subst, String, inr, List, [], ◌∷◌, ◌++◌, Option, none, some, some-injective,
  arith, length,
}
use mcp_data_gateway.Prelude.Bytes.{Bytes, parse_u64, digits_value}
use mcp_data_gateway.Prelude.Text.{codes}
use mcp_data_gateway.Prelude.Result.{ok, err}
use mcp_data_gateway.Sanitize.{Span, person}
use mcp_data_gateway.Sanitize.Merge.{merge_and_dedup}
use mcp_data_gateway.Sanitize.Substitute.{placeholder_only}
use mcp_data_gateway.Sanitize.Pipeline.{Cow, ner_hits, sanitize_full}
use mcp_data_gateway.Sanitize.Pipeline as Pipeline
use mcp_data_gateway.Sanitize.Pipeline.Laws.{IsRebuilt}
use mcp_data_gateway.Sanitize.Pipeline.Tests.{greedy, greedy-IsEngine, note}
use mcp_data_gateway.Sanitize.Ner.{bio_merge}
use mcp_data_gateway.Sanitize.Ner.Cover.{IsOrdered}
use mcp_data_gateway.Sanitize.Ner.Model.{
  Entry, NerModel, Hub, model_load, parse_usize, resize, grow, set_label, fill_labels, load_labels,
  get_or_init, run_model, scan,
}
use mcp_data_gateway.Sanitize.Ner.Model.Spans.{Tokenizes, ner_pass, sanitize-scan}

abbrev entries : List Entry
entries = (codes "1", some "B-PER") ∷ (codes "0", some "O") ∷ []

abbrev table : List String
table = "O" ∷ "B-PER" ∷ []

loads : load_labels entries ≡ some table
unfolding load_labels fill_labels parse_usize parse_u64 digits_value resize grow set_label
loads = refl

-- A text is one token that is a person; an empty one has no token.
abbrev one_token : Bytes → Option (List ℕ × List (ℕ × ℕ))
one_token [] = some ([], [])
one_token (c ∷ s) = some (1 ∷ [], (0, length (c ∷ s)) ∷ [])

abbrev hub : Hub
hub = record {
  tokenizer = some one_token;
  id2label = some entries;
  network = some (λ ids. some ids);
}

abbrev model : NerModel
model = record { encode = one_token; infer = λ ids. some ids; labels = table }

finds_person :
    (scan hub (some (some model)) (codes "ann")).0
    ≡ ok (record { start = 0; end = 3; kind = person } ∷ [])
unfolding scan get_or_init run_model bio_merge
finds_person = refl

-- A model that failed to load is not loaded again.
stays_failed : (scan hub (some none) (codes "ann")).0 ≡ err model_load
unfolding scan get_or_init run_model
stays_failed = refl

one_token-Tokenizes : Tokenizes model
one_token-Tokenizes [] ids offsets e = subst (IsOrdered 0) (ap (λ p. p.1) (some-injective _ _ e)) tt
one_token-Tokenizes (c ∷ s) ids offsets e =
    subst (IsOrdered 0) (ap (λ p. p.1) (some-injective _ _ e)) (inr (omega arith, omega arith, tt))

sanitize-scan_example :
    (spans : List Span) × (c : Cow) × (Pipeline.scan greedy note ≡ some spans)
    × (sanitize_full greedy (ner_pass hub (some (some model))) note (placeholder_only 1) ≡ some c)
    × IsRebuilt note
        (placeholder_only 1)
        (merge_and_dedup (spans ++ ner_hits (ner_pass hub (some (some model)) note)))
        c
unfolding get_or_init
sanitize-scan_example =
    sanitize-scan greedy note (placeholder_only 1) hub (some (some model)) greedy-IsEngine
      (λ m e. subst Tokenizes (some-injective _ _ e) one_token-Tokenizes)
