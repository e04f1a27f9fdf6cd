-- ===== src/Sanitize/Pipeline/Laws.antt =====
-- What `sanitize` returns: the text with exactly the merged spans replaced, and no panic.
use mcp_data_gateway.Prelude.{
  ◌<◌, ◌≡◌, refl, ap, sym, ◌∙◌, Bool, true, false, inl, inr, List, [], ◌∷◌, ◌++◌, map, some,
  append-nil, Bool-cases, arith, drop, All, All-elem, All_of_elem, All-append,
}
use mcp_data_gateway.Prelude.Bytes.{Bytes, is_char_boundary}
use mcp_data_gateway.Prelude.Result.{Result}
use mcp_data_gateway.Sanitize.{EntityKind, nir, phone, email, uuid, Span}
use mcp_data_gateway.Sanitize.Checks.{is_valid_nir, is_valid_iban}
use mcp_data_gateway.Sanitize.Checks.Nir.{is_valid_nir_fifteen}
use mcp_data_gateway.Sanitize.Merge.{merge_and_dedup}
use mcp_data_gateway.Sanitize.Merge.Order.{Elem-merge_and_dedup, merge_and_dedup-Disjoint}
use mcp_data_gateway.Sanitize.Substitute.{SanitizeCtx, substitute, render_token}
use mcp_data_gateway.Sanitize.Substitute.Segments.{
  Piece, verbatim, original, rendered, entities, fits, cut, segments, fitting, IsWellFormed,
  substitute_from-segments, original-segments, entities-segments, cut-drop, fits_facts,
}
use mcp_data_gateway.Sanitize.Pipeline.{
  Regexes, IsEngine, Match, span_of, Cow, borrowed, owned, into_text, rebuild, sanitize_regex,
  sanitize_full, ner_hits, scan, IsMatch, IsNirMatch, as_str, nir_hits, iban_hits,
}

merge_pair :
    (a b : Span) → a.start < b.start → b.start < a.end → merge_and_dedup (a ∷ b ∷ []) ≡ a ∷ []
unfolding merge_and_dedup
merge_pair a b l₁ l₂ = ground arith

boundary_zero : (text : Bytes) → is_char_boundary text 0 ≡ true
unfolding is_char_boundary
boundary_zero text = refl

module _ (text : Bytes) (ctx : SanitizeCtx) (spans : List Span) (wf : All IsWellFormed spans) where
  abbrev merged : List Span
  merged = merge_and_dedup spans

  merged-IsWellFormed : All IsWellFormed merged
  merged-IsWellFormed =
      All_of_elem IsWellFormed merged
        (λ x e. All-elem IsWellFormed x spans wf (Elem-merge_and_dedup spans x e))

  -- Substitution on the merged spans never panics. The text falls into pieces that spell it out, the
  -- result is these pieces with each detected entity rendered as its token, and the entities are the
  -- merged spans that are in range and on character boundaries.
  pub substitute-merged :
      (ps : List Piece) × (substitute text (merge_and_dedup spans) ctx ≡ some (rendered ctx ps))
      × (original ps ≡ text)
      × (entities ps ≡ fitting text (merge_and_dedup spans))
  unfolding substitute
  substitute-merged = (
    segments text merged 0,
    substitute_from-segments text ctx merged 0 merged-IsWellFormed (merge_and_dedup-Disjoint spans)
        (omega arith) (boundary_zero text),
    original-segments text ctx merged 0 merged-IsWellFormed (merge_and_dedup-Disjoint spans)
        (omega arith),
    entities-segments text ctx merged 0,
  )

-- The hits of the scanner are well formed.
span_of-All :
    (kind : EntityKind) (text : Bytes) (ms : List Match)
    → All (IsMatch text) ms
    → All IsWellFormed (map (span_of kind) ms)
span_of-All kind text [] h = tt
span_of-All kind text (m ∷ ms) h = (h.0.0, span_of-All kind text ms h.1)

iban_hits-All :
    (text : Bytes) (ms : List Match) → All (IsMatch text) ms → All IsWellFormed (iban_hits text ms)
unfolding iban_hits
iban_hits-All text [] h = tt
iban_hits-All text (m ∷ ms) h = elim (Bool-cases (is_valid_iban (as_str text m))) [
  | inl v ↦ rw v (h.0.0, iban_hits-All text ms h.1)
  | inr v ↦ rw v (iban_hits-All text ms h.1)
]

nir_hits_total :
    (text : Bytes) (ms : List Match)
    → All (IsMatch text) ms
    → All (IsNirMatch text) ms
    → (hits : List Span) × (nir_hits text ms ≡ some hits) × All IsWellFormed hits
unfolding nir_hits
nir_hits_total text [] h n = ([], refl, tt)
nir_hits_total text (m ∷ ms) h n =
    let (hits, e, w) = nir_hits_total text ms h.1 n.1 in
    nir_hit (is_valid_nir_fifteen (as_str text m) n.0) hits e w
  where
    nir_hit :
        (b : Bool) × (is_valid_nir (as_str text m) ≡ some b)
        → (hits : List Span) → nir_hits text ms ≡ some hits
        → All IsWellFormed hits
        → (hits' : List Span) × (nir_hits text (m ∷ ms) ≡ some hits') × All IsWellFormed hits'
    nir_hit (true, v) hits e w = (span_of nir m ∷ hits, rw v (rw e), (h.0.0, w))
    nir_hit (false, v) hits e w = (hits, rw v e, w)

-- The scanner never panics, and each hit begins no later than it ends.
pub scan_total :
    (re : Regexes) (text : Bytes)
    → IsEngine re
    → (spans : List Span) × (scan re text ≡ some spans) × All IsWellFormed spans
unfolding scan
scan_total re text en =
    let (hits, e, w) = nir_hits_total text (re.re_fr_nir text) (en.of_nir text) (en.fifteen text) in
    (
      _,
      rw (e, scan),
      All-append IsWellFormed hits _ w (
          All-append IsWellFormed (iban_hits text (re.re_iban text)) _
            (iban_hits-All text (re.re_iban text) (en.of_iban text))
            (All-append IsWellFormed (map (span_of phone) (re.re_e164 text)) _
              (span_of-All phone text (re.re_e164 text) (en.of_e164 text))
              (All-append IsWellFormed (map (span_of email) (re.re_email text)) _
                (span_of-All email text (re.re_email text) (en.of_email text))
                (span_of-All uuid text (re.re_uuid text) (en.of_uuid text))))),
    )

-- The result `c` is the text cut into pieces, with the entities among them rendered.
pub record IsRebuilt (text : Bytes) (ctx : SanitizeCtx) (merged : List Span) (c : Cow)
    : Type 0 where
  pub pieces : List Piece
  pub spells : original pieces ≡ text
  pub renders : into_text c ≡ rendered ctx pieces
  pub replaced : entities pieces ≡ fitting text merged
  pub untouched : merged ≡ [] → c ≡ borrowed text

rebuild_lem :
    (text : Bytes) (ctx : SanitizeCtx) (merged : List Span)
    → ((ps : List Piece) × (substitute text merged ctx ≡ some (rendered ctx ps))
        × (original ps ≡ text)
        × (entities ps ≡ fitting text merged))
    → (c : Cow) × (rebuild text ctx merged ≡ some c) × IsRebuilt text ctx merged c
unfolding rebuild
rebuild_lem text ctx [] h = (
  borrowed text,
  refl,
  record {
    pieces = verbatim text ∷ [];
    spells = append-nil text;
    renders = sym (append-nil text);
    replaced = refl;
    untouched = λ _. refl;
  },
)
rebuild_lem text ctx (s ∷ ss) (ps, e, o, r) = (
  owned (rendered ctx ps),
  rw (e, rebuild),
  record { pieces = ps; spells = o; renders = refl; replaced = r; untouched = λ u. cc },
)

module _ (re : Regexes) (en : IsEngine re) (text : Bytes) (ctx : SanitizeCtx) where
  -- With a regex engine that keeps its contract, `sanitize` with the regex scanner never panics: it
  -- scans, and its result is the text with exactly the merged hits that fit replaced by their tokens,
  -- the text itself if there is no hit.
  pub sanitize_regex_lem :
      (spans : List Span) × (c : Cow) × (scan re text ≡ some spans)
      × (sanitize_regex re text ctx ≡ some c)
      × IsRebuilt text ctx (merge_and_dedup spans) c
  unfolding sanitize_regex
  sanitize_regex_lem =
      let (spans, e, w) = scan_total re text en in
      let (c, r, b) =
        rebuild_lem text ctx (merge_and_dedup spans) (substitute-merged text ctx spans w) in
      (spans, c, e, rw (e, sanitize_regex) r, b)

  -- With such an engine the same holds with the model's hits among the others, where the model answers
  -- with spans that begin no later than they end. A model that fails leaves the regex scanner's hits.
  pub sanitize_full_lem :
      (ner : Bytes → Result (Unit {0}) (List Span))
      → All IsWellFormed (ner_hits (ner text))
      → (spans : List Span) × (c : Cow) × (scan re text ≡ some spans)
        × (sanitize_full re ner text ctx ≡ some c)
        × IsRebuilt text ctx (merge_and_dedup (spans ++ ner_hits (ner text))) c
  unfolding sanitize_full
  sanitize_full_lem ner n =
      let (spans, e, w) = scan_total re text en in
      let (c, r, b) = rebuild_lem text ctx (merge_and_dedup (spans ++ ner_hits (ner text))) (
        substitute-merged text ctx (spans ++ ner_hits (ner text))
          (All-append IsWellFormed spans (ner_hits (ner text)) w n)) in
      (spans, c, e, rw (e, sanitize_full) r, b)

-- Two hits that overlap in part: the later one is dropped whole, so the text behind the end of the
-- earlier one, which the later one had marked, comes out as it was.
pub substitute_leaks_tail :
    (text : Bytes) (ctx : SanitizeCtx) (a b : Span)
    → a.start < b.start
    → b.start < a.end
    → a.end < b.end
    → fits text a ≡ true
    → fits text b ≡ true
    → substitute text (merge_and_dedup (a ∷ b ∷ [])) ctx
      ≡ some (
          cut text 0 a.start
          ++ (render_token (cut text a.start a.end) a.kind ctx
              ++ (cut text a.end b.end ++ drop b.end text)))
unfolding substitute
substitute_leaks_tail text ctx a b l₁ l₂ l₃ fa fb = rw (merge_pair a b l₁ l₂) (
    substitute_from-segments text ctx (a ∷ []) 0 (omega arith, tt) (omega arith, tt) (omega arith)
      (boundary_zero text)
    ∙ rw fa (
        ap
          (λ t.
            some (cut text 0 a.start ++ (render_token (cut text a.start a.end) a.kind ctx ++ t)))
          (original-segments text ctx [] a.end tt tt (fits_facts text a fa).1
            ∙ sym (cut-drop text a.end b.end (omega arith)))))
