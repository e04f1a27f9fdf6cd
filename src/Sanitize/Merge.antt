-- ===== src/Sanitize/Merge.antt =====
-- `merge_and_dedup` of ingestion/src/sanitize/mod.rs: the leftmost span is kept, the longest on a tie.
mod Sorted
pub mod Order
use mcp_data_gateway.Prelude.{
  ℕ, ◌≡◌, Bool, ◌&&◌, ◌||◌, List, [], ◌∷◌, ltb, leb, ◌==◌, if◌then◌else◌,
}
use mcp_data_gateway.Sanitize.{Span, len}

-- the comparison of the sort: by start, and on a tie the longer one first
pub before : Span → Span → Bool
before a b = ltb a.start b.start || (a.start == b.start && leb (len b) (len a))

-- `sort_by` is stable: a span stays in front of those that it ties with.
pub insert : Span → List Span → List Span
insert s [] = s ∷ []
insert s (t ∷ ts) = if before s t then s ∷ t ∷ ts else t ∷ insert s ts

pub sort : List Span → List Span
sort [] = []
sort (s ∷ ss) = insert s (sort ss)

-- the loop over the sorted spans: one that starts before `cursor` is skipped
pub dedup : List Span → ℕ → List Span
dedup [] cursor = []
dedup (s ∷ ss) cursor =
    let skipped = dedup ss cursor in
    let kept = s ∷ dedup ss s.end in if ltb s.start cursor then skipped else kept

unfoldable pub merge_and_dedup : List Span → List Span
unfolding before insert sort dedup
merge_and_dedup [] = []
merge_and_dedup (s ∷ ss) = dedup (sort (s ∷ ss)) 0
