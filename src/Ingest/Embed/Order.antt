-- ===== src/Ingest/Embed/Order.antt =====
-- The embeddings come back in the order of the texts, one for each.
use mathlib.Core.List.{Permᴰ}
use mcp_data_gateway.Prelude.{
  ℕ, zero, suc, ◌+◌, ◌≤◌, ◌≡◌, refl, ap, ap₂, sym, ◌∙◌, true, inl, inr, List, [], ◌∷◌, ◌++◌, map,
  Option, none, some, some-injective, Bool-cases, ◌==◌, ==_iff, ==-of_eq, length, take, drop, arith,
  take-append-drop, length-append, length-drop,
}
use mcp_data_gateway.Prelude.Bytes.{utf8}
use mcp_data_gateway.Prelude.Text.{Text, codes}
use mcp_data_gateway.Prelude.Result.{ok, ok_same, both_ok, Result-cases}
use mcp_data_gateway.Ingest.Embed.{
  EmbedClient, EmbedData, insert, sort_by_index, collect, embed_one_batch, embed_chunks,
  embed_batch, new_client, literals, embedder, format_vector, IsEmbedder,
}
use mcp_data_gateway.Ingest.Embed.Sort.{
  numbered, sort-perm, length-perm, numbered-AreDistinct, length-numbered, embeddings-numbered,
  sort-numbered,
}

map-append {ℓ} :
    {A B : Type ℓ} (f : A → B) (xs ys : List A) → map f (xs ++ ys) ≡ map f xs ++ map f ys
map-append f [] ys = refl
map-append f (x ∷ xs) ys = ap (◌∷◌ (f x)) (map-append f xs ys)

pub length-map {ℓ} : {A B : Type ℓ} (f : A → B) (xs : List A) → length (map f xs) ≡ length xs
length-map f [] = refl
length-map f (x ∷ xs) = ap suc (length-map f xs)

module _ {V : Type 0} where
  length-insert :
      (d : EmbedData V) (ds : List (EmbedData V)) → length (insert d ds) ≡ suc (length ds)
  unfolding insert
  length-insert d [] = refl
  length-insert d (e ∷ ds) = ground (arith, length-insert d ds)

  length-sort : (ds : List (EmbedData V)) → length (sort_by_index ds) ≡ length ds
  unfolding sort_by_index
  length-sort [] = refl
  length-sort (d ∷ ds) = length-insert d (sort_by_index ds) ∙ ap suc (length-sort ds)

  -- what a reply is collected to
  collect_reply :
      (vec : Text → V) (texts : List Text) (ds : List (EmbedData V))
      → Permᴰ ds (numbered vec 0 texts)
      → collect (length texts) (some ds) ≡ ok (map vec texts)
  unfolding collect
  collect_reply vec texts ds p =
      let counted : (length ds == length texts) ≡ true =
        ==-of_eq (length ds) (length texts)
          (length-perm ds (numbered vec 0 texts) p ∙ length-numbered vec 0 texts) in
      rw counted (
        ap (λ es. ok (map (λ d. d.embedding) es))
          (sort-perm ds (numbered vec 0 texts) p (numbered-AreDistinct vec 0 texts)
            ∙ sort-numbered vec 0 texts)
        ∙ ap ok (embeddings-numbered vec 0 texts))

  collect-length :
      (n : ℕ) (reply : Option (List (EmbedData V))) (vs : List V)
      → collect n reply ≡ ok vs
      → length vs ≡ n
  unfolding collect
  collect-length n none vs h = cc
  collect-length n (some ds) vs h = elim (Bool-cases (length ds == n)) [
    | inl e ↦
        sym (ap length (ok_same _ vs refl (rw e at h)))
        ∙ length-map (λ d. d.embedding) (sort_by_index ds)
        ∙ length-sort ds
        ∙ (==_iff (length ds) n).0 e
    | inr f ↦ let g = rw f at h in cc
  ]

module _ {V : Type 0} (post : ℕ → Text → List Text → Option (List (EmbedData V)))
    (client : EmbedClient) where
  -- A service that has one embedding for a text, and names its place in the request.
  abbrev pub Serves : (Text → V) → Type 0
  Serves vec =
      (i : ℕ) (batch : List Text)
      → (ds : List (EmbedData V)) × (post i (client.base_url ++ codes "/v1/embeddings") batch
          ≡ some ds)
        × Permᴰ ds (numbered vec 0 batch)

  one_batch_reply :
      (vec : Text → V) (i : ℕ) (batch : List Text)
      → Serves vec
      → embed_one_batch post client i batch ≡ ok (map vec batch)
  unfolding embed_one_batch
  one_batch_reply vec i batch serves =
      let (ds, e, p) = serves i batch in
      ap (collect (length batch)) e ∙ collect_reply vec batch ds p

  all_batches :
      (vec : Text → V) (fuel i : ℕ) (texts : List Text)
      → Serves vec
      → 1 ≤ client.batch_size
      → length texts ≤ fuel
      → embed_chunks post client fuel i texts ≡ ok (map vec texts)
  unfolding embed_chunks
  all_batches vec zero i [] serves b h = refl
  all_batches vec zero i (t ∷ texts) serves b h = absurd (omega arith)
  all_batches vec (suc fuel) i [] serves b h = refl
  all_batches vec (suc fuel) i (t ∷ texts) serves b h =
      let n = client.batch_size in
      let here = one_batch_reply vec i (take n (t ∷ texts)) serves in
      let there =
        all_batches vec fuel (i + 1) (drop n (t ∷ texts)) serves b
          (omega (arith, length-drop n (t ∷ texts))) in
      rw (here, there)
        (ap ok (
          sym (map-append vec (take n (t ∷ texts)) (drop n (t ∷ texts)))
          ∙ ap (map vec) (take-append-drop n (t ∷ texts))))

  chunks_counted :
      (fuel i : ℕ) (texts : List Text) (vs : List V)
      → 1 ≤ client.batch_size
      → length texts ≤ fuel
      → embed_chunks post client fuel i texts ≡ ok vs
      → length vs ≡ length texts
  unfolding embed_chunks embed_one_batch
  chunks_counted zero i [] vs b h e = sym (ap length (ok_same [] vs refl e))
  chunks_counted zero i (t ∷ texts) vs b h e = absurd (omega arith)
  chunks_counted (suc fuel) i [] vs b h e = sym (ap length (ok_same [] vs refl e))
  chunks_counted (suc fuel) i (t ∷ texts) vs b h e =
      let n = client.batch_size in
      let (first, o, more) = both_ok (embed_one_batch post client i (take n (t ∷ texts))) _ e in
      let (rest, p, end) =
        both_ok (embed_chunks post client fuel (i + 1) (drop n (t ∷ texts))) _ more in
      let here : length first ≡ length (take n (t ∷ texts)) =
        collect-length _ (post i (client.base_url ++ codes "/v1/embeddings") (take n (t ∷ texts)))
          first o in
      let there : length rest ≡ length (drop n (t ∷ texts)) =
        chunks_counted fuel (i + 1) (drop n (t ∷ texts)) rest b
          (omega (arith, length-drop n (t ∷ texts))) p in
      sym (ap length (ok_same (first ++ rest) vs refl end))
      ∙ length-append first rest
      ∙ ap₂ ◌+◌ here there
      ∙ sym (length-append (take n (t ∷ texts)) (drop n (t ∷ texts)))
      ∙ ap length (take-append-drop n (t ∷ texts))

module _ {V : Type 0} (post : ℕ → Text → List Text → Option (List (EmbedData V))) (base_url : Text)
    (n : ℕ) where
  positive : 1 ≤ (new_client base_url n).batch_size
  unfolding new_client
  positive = ground arith

  -- With a service that has one embedding for each text, in whatever order it lists them, and any batch
  -- size, embed_batch returns the embeddings of the texts in the order of the texts.
  pub embed_batch-Serves :
      (vec : Text → V) (texts : List Text)
      → Serves post (new_client base_url n) vec
      → embed_batch post (new_client base_url n) texts ≡ ok (map vec texts)
  unfolding embed_batch
  embed_batch-Serves vec texts serves =
      all_batches post (new_client base_url n) vec (length texts) 0 texts serves positive
        (omega arith)

  -- Whatever the service replies, and for any batch size, a result of embed_batch has as many embeddings
  -- as there are texts.
  pub embed_batch_counted :
      (texts : List Text) (vs : List V)
      → embed_batch post (new_client base_url n) texts ≡ ok vs
      → length vs ≡ length texts
  unfolding embed_batch
  embed_batch_counted texts vs e =
      chunks_counted post (new_client base_url n) (length texts) 0 texts vs positive (omega arith) e

-- The client does what the cycle relies on.
pub embedder-IsEmbedder :
    {F : Type 0} (to_string : F → Text)
    (post : ℕ → Text → List Text → Option (List (EmbedData (List F)))) (base_url : Text) (n : ℕ)
    → IsEmbedder (embedder to_string post (new_client base_url n))
unfolding embedder literals
embedder-IsEmbedder to_string post base_url n = record {
  counted = λ texts vs e. elim (Result-cases (embed_batch post (new_client base_url n) texts)) [
    | inr (f, h) ↦ cc (rw (h, embedder) at e)
    | inl (es, h) ↦
        sym (ap length (some-injective _ _ (rw (h, embedder) at e)))
        ∙ length-map (λ v. utf8 (format_vector to_string v)) es
        ∙ embed_batch_counted post base_url n texts es h
  ];
}
