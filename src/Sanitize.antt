-- ===== src/Sanitize.antt =====
-- ingestion/src/sanitize/mod.rs: the kinds of entity and the spans, and below them the scanners, the
-- merge of their hits, the substitution and the vault.
pub mod Merge
pub mod Substitute
pub mod Checks
pub mod Pipeline
pub mod Ner
pub mod Vault
use mcp_data_gateway.Prelude.{ℕ, ◌-◌, Bool, leb, ◌==◌}
use mcp_data_gateway.Prelude.Text.{Text, codes}

pub data EntityKind : Type 0 where
  nir iban phone email uuid person org loc : EntityKind

unfoldable pub as_label : EntityKind → Text
as_label nir = codes "NIR"
as_label iban = codes "IBAN"
as_label phone = codes "PHONE"
as_label email = codes "EMAIL"
as_label uuid = codes "UUID"
as_label person = codes "PERSON"
as_label org = codes "ORG"
as_label loc = codes "LOC"

-- Byte offsets into the text.
pub record Span : Type 0 where
  pub start : ℕ
  pub end : ℕ
  pub kind : EntityKind

-- `saturating_sub`
abbrev pub len : Span → ℕ
len s = s.end - s.start

abbrev pub is_empty : Span → Bool
is_empty s = leb s.end s.start

-- the derived `PartialEq`
abbrev pub kind_code : EntityKind → ℕ
kind_code nir = 0
kind_code iban = 1
kind_code phone = 2
kind_code email = 3
kind_code uuid = 4
kind_code person = 5
kind_code org = 6
kind_code loc = 7

abbrev pub kind_eq : EntityKind → EntityKind → Bool
kind_eq a b = kind_code a == kind_code b
