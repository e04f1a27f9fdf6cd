-- ===== src/Sanitize/Ner/Tests.antt =====
-- `bio_merge` on the examples of ner.rs, and the theorems at them.
use mcp_data_gateway.Prelude.{ℕ, ◌≡◌, refl, String, inl, inr, List, [], ◌∷◌, arith}
use mcp_data_gateway.Sanitize.{person, org}
use mcp_data_gateway.Sanitize.Ner.{bio_merge, map_label}
use mcp_data_gateway.Sanitize.Ner.Tokens.{IsOrdered, Within, bio_merge_covers}

abbrev labels : List String
labels = "O" ∷ "B-PER" ∷ "I-PER" ∷ "B-ORG" ∷ "I-ORG" ∷ "B-LOC" ∷ "I-LOC" ∷ "B-MISC" ∷ "I-MISC" ∷ []

abbrev offsets : List (ℕ × ℕ)
offsets = (0, 0) ∷ (0, 5) ∷ (6, 12) ∷ (13, 18) ∷ (22, 26) ∷ (0, 0) ∷ []

abbrev label_ids : List ℕ
label_ids = 0 ∷ 1 ∷ 2 ∷ 0 ∷ 3 ∷ 0 ∷ []

alice_at_acme :
    bio_merge offsets label_ids labels
    ≡ record { start = 0; end = 12; kind = person }
      ∷ record { start = 22; end = 26; kind = org }
      ∷ []
unfolding bio_merge
alice_at_acme = refl

drops_misc : bio_merge ((0, 5) ∷ []) (7 ∷ []) labels ≡ []
unfolding bio_merge
drops_misc = refl

offsets-IsOrdered : IsOrdered 0 offsets
offsets-IsOrdered = inl (
  (refl, refl),
  inr (
    omega arith,
    omega arith,
    inr (
      omega arith,
      omega arith,
      inr (omega arith, omega arith, inr (omega arith, omega arith, inl ((refl, refl), tt))),
    ),
  ),
)

bio_merge_covers_example : Within 6 12 person (bio_merge offsets label_ids labels)
unfolding map_label
bio_merge_covers_example =
    bio_merge_covers labels offsets label_ids 2 6 12 2 person offsets-IsOrdered refl (omega arith)
      refl refl
