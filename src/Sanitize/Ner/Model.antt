-- ===== src/Sanitize/Ner/Model.antt =====
-- `scan`, `load_model` and the table of labels of ingestion/src/sanitize/ner.rs. The files of the model, its
-- tokenizer and its network are parameters.
pub mod Labels
pub mod Spans
mod Tests
use mcp_data_gateway.Prelude.{
  ℕ, zero, suc, ◌+◌, ◌==◌, String, Bool, List, [], ◌∷◌, Option, none, some, if◌then◌else◌, leb,
  length,
}
use mcp_data_gateway.Prelude.Bytes.{Bytes, parse_u64}
use mcp_data_gateway.Prelude.Result.{Result, ok, err}
use mcp_data_gateway.Sanitize.{Span}
use mcp_data_gateway.Sanitize.Ner.{bio_merge}

pub data NerError : Type 0 where
  model_load tokenize inference : NerError

-- The tokenizer gives the ids and the offsets of the tokens of a text, the network the label of each token.
pub record NerModel : Type 0 where
  pub encode : Bytes → Option (List ℕ × List (ℕ × ℕ))
  pub infer : List ℕ → Option (List ℕ)
  pub labels : List String

-- `parse::<usize>`
unfoldable pub parse_usize : Bytes → Option ℕ
parse_usize [] = none
parse_usize (c ∷ s) = if c == b'+' then parse_u64 s else parse_u64 (c ∷ s)

-- `resize` to a length that is not below the one at hand
unfoldable pub resize : ℕ → List String → List String
resize zero labels = labels
resize (suc n) [] = "O" ∷ resize n []
resize (suc n) (l ∷ labels) = l ∷ resize n labels

pub grow : ℕ → List String → List String
grow idx labels = if leb (length labels) idx then resize (idx + 1) labels else labels

-- `labels[idx] = lbl`, with `idx` in range
unfoldable pub set_label : ℕ → String → List String → List String
set_label i lbl [] = []
set_label zero lbl (l ∷ labels) = lbl ∷ labels
set_label (suc i) lbl (l ∷ labels) = l ∷ set_label i lbl labels

-- an entry of `id2label`: its key, and its value if that is a text
abbrev pub Entry : Type 0
Entry = Bytes × Option String

-- the loop over `id2label`
pub put_label : Option ℕ → Option String → List String → Option (List String)
unfolding grow
put_label none lbl labels = none
put_label (some idx) none labels = none
put_label (some idx) (some lbl) labels = some (set_label idx lbl (grow idx labels))

pub fill_labels : List Entry → List String → Option (List String)
unfolding put_label
fill_labels [] labels = some labels
fill_labels (e ∷ entries) labels = elim (put_label (parse_usize e.0) e.1 labels) [
  | none ↦ none
  | some next ↦ fill_labels entries next
]

unfoldable pub load_labels : List Entry → Option (List String)
unfolding fill_labels
load_labels id2label = fill_labels id2label (resize (length id2label) [])

-- What the hub has: a part is `none` where it cannot be fetched, read or decoded.
pub record Hub : Type 0 where
  pub tokenizer : Option (Bytes → Option (List ℕ × List (ℕ × ℕ)))
  pub id2label : Option (List Entry)
  pub network : Option (List ℕ → Option (List ℕ))

model_of :
    Option (Bytes → Option (List ℕ × List (ℕ × ℕ)))
    → Option (List String)
    → Option (List ℕ → Option (List ℕ))
    → Option NerModel
model_of (some encode) (some labels) (some infer) =
    some (record { encode = encode; infer = infer; labels = labels })
model_of _ _ _ = none

unfoldable pub load_model : Hub → Option NerModel
unfolding model_of
load_model hub =
    model_of hub.tokenizer (elim hub.id2label [ none ↦ none | some entries ↦ load_labels entries ])
      hub.network

-- `MODEL`: the model, or that it failed to load, once that was tried
abbrev pub Cell : Type 0
Cell = Option (Option NerModel)

unfoldable pub get_or_init : Hub → Cell → Option NerModel
get_or_init hub none = load_model hub
get_or_init hub (some m) = m

pub run_network : NerModel → Option (List ℕ × List (ℕ × ℕ)) → Result NerError (List Span)
run_network model none = err tokenize
run_network model (some (ids, offsets)) = elim (model.infer ids) [
  | none ↦ err inference
  | some label_ids ↦ ok (bio_merge offsets label_ids model.labels)
]

pub run_model : Option NerModel → Bytes → Result NerError (List Span)
unfolding run_network
run_model none text = err model_load
run_model (some model) text = run_network model (model.encode text)

-- The result, and the cell behind the call.
unfoldable pub scan : Hub → Cell → Bytes → Result NerError (List Span) × Cell
unfolding get_or_init run_model
scan hub cell [] = (ok [], cell)
scan hub cell (c ∷ text) =
    let model = get_or_init hub cell in (run_model model (c ∷ text), some model)
