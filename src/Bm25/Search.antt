-- ===== src/Bm25/Search.antt =====
-- The ranking of include/nanovllm/bm25.hpp.
use nano_v_llm_cpp.Base.{
  ℕ, suc, ◌+◌, ◌≤◌, ◌<◌, ◌≡◌, ◌∙◌, sym, ap, get_or, map, inl, inr, refl, true, false, List, [], ◌∷◌,
  arith, ltb, leb, if◌then◌else◌, Bool-cases, length, take, min, is_empty, hit, count,
}
use nano_v_llm_cpp.Text.{Bytes}
use nano_v_llm_cpp.Bm25.Score.{reference_score, doc_score-reference_score}
use nano_v_llm_cpp.Bm25.{
  Doubles, Hit, toks, Index, scores_from, ahead, insert_sorted, sorted, hits_of, search,
}

-- What the sort relies on in the comparisons of scores.
pub record IsOrdered (f : Doubles) : Type 0 where
  pub lt_asym : (x y : f.D) → f.lt x y ≡ true → f.lt y x ≡ false
  pub ne_comm : (x y : f.D) → f.ne x y ≡ f.ne y x
  pub lt_ne : (x y : f.D) → f.ne x y ≡ false → f.lt x y ≡ false

module _ (f : Doubles) where
  abbrev pub numbers : List (f.D × ℕ) → List ℕ
  numbers [] = []
  numbers ((x, i) ∷ r) = i ∷ numbers r

  -- No entry should stand before its neighbour.
  abbrev Sorted : List (f.D × ℕ) → Type 0
  Sorted [] = Unit
  Sorted (a ∷ []) = Unit
  Sorted (a ∷ b ∷ r) = (ahead f b a ≡ false) × Sorted (b ∷ r)

  -- From entry to entry the score does not rise, and where it stays, the number rises.
  abbrev pub Descending : List (f.D × ℕ) → Type 0
  Descending [] = Unit
  Descending (a ∷ []) = Unit
  Descending (a ∷ b ∷ r) =
      ((f.lt a.0 b.0 ≡ false) × (f.ne a.0 b.0 ≡ false → a.1 ≤ b.1)) × Descending (b ∷ r)

  -- Each entry has the score of the document that it numbers.
  abbrev pub Scored : Index f → List Bytes → List (f.D × ℕ) → Type 0
  Scored ix qs [] = Unit
  Scored ix qs ((x, i) ∷ r) =
      (x ≡ reference_score f ix qs (get_or ix.doc_tokens i [])) × Scored ix qs r

  insert_sorted-Scored :
      (ix : Index f) (qs : List Bytes) (a : f.D × ℕ) (r : List (f.D × ℕ))
      → a.0 ≡ reference_score f ix qs (get_or ix.doc_tokens a.1 [])
      → Scored ix qs r
      → Scored ix qs (insert_sorted f a r)
  unfolding insert_sorted
  insert_sorted-Scored ix qs a [] h v = (h, tt)
  insert_sorted-Scored ix qs a (b ∷ r) h v = elim (Bool-cases (ahead f b a)) [
    | inl e ↦ rw e (v.0, insert_sorted-Scored ix qs a r h v.1)
    | inr e ↦ rw e (h, v)
  ]

  sorted-Scored :
      (ix : Index f) (qs : List Bytes) (r : List (f.D × ℕ))
      → Scored ix qs r
      → Scored ix qs (sorted f r)
  unfolding sorted
  sorted-Scored ix qs [] v = tt
  sorted-Scored ix qs (a ∷ r) v =
      insert_sorted-Scored ix qs a (sorted f r) v.0 (sorted-Scored ix qs r v.1)

  scores_from-Scored :
      (ix : Index f) (qs : List Bytes) (k : ℕ) (ts : List (List Bytes))
      → ((j : ℕ) → get_or ix.doc_tokens (k + j) [] ≡ get_or ts j [])
      → Scored ix qs (scores_from f ix qs k ts)
  unfolding scores_from
  scores_from-Scored ix qs k [] at = tt
  scores_from-Scored ix qs k (t ∷ ts) at = (
    doc_score-reference_score f ix qs t
        ∙ ap (reference_score f ix qs)
            (sym (at 0) ∙ ap (λ i. get_or ix.doc_tokens i []) {x = k + 0} {y = k} (omega arith)),
    scores_from-Scored ix qs (k + 1) ts (λ j.
        ap (λ i. get_or ix.doc_tokens i []) {x = k + 1 + j} {y = k + suc j} (omega arith)
        ∙ at (suc j)),
  )

  count-insert_sorted :
      (i : ℕ) (a : f.D × ℕ) (r : List (f.D × ℕ))
      → count i (numbers (insert_sorted f a r)) ≡ hit i a.1 + count i (numbers r)
  unfolding insert_sorted
  count-insert_sorted i a [] = refl
  count-insert_sorted i a (b ∷ r) = elim (Bool-cases (ahead f b a)) [
    | inl e ↦ rw e (omega (arith, count-insert_sorted i a r))
    | inr e ↦ rw e refl
  ]

  count-sorted : (i : ℕ) (r : List (f.D × ℕ)) → count i (numbers (sorted f r)) ≡ count i (numbers r)
  unfolding sorted
  count-sorted i [] = refl
  count-sorted i (a ∷ r) = omega (arith, count-insert_sorted i a (sorted f r), count-sorted i r)

  -- The documents are numbered from `k` on.
  count-scores_from :
      (ix : Index f) (qs : List Bytes) (i k : ℕ) (ts : List (List Bytes))
      → count i (numbers (scores_from f ix qs k ts))
        ≡ (if leb k i then (if ltb i (k + length ts) then 1 else 0) else 0)
  unfolding scores_from
  count-scores_from ix qs i k [] = ground arith
  count-scores_from ix qs i k (t ∷ ts) = ground (arith, count-scores_from ix qs i (k + 1) ts)

  -- A score with the id of the document that the entry numbers.
  abbrev pub hit_at : Index f → f.D × ℕ → Hit f.D
  hit_at ix e = record { id = (get_or ix.docs e.1 (record { id = []; text = [] })).id; score = e.0 }

  hits_of-map : (ix : Index f) (r : List (f.D × ℕ)) → hits_of f ix.docs r ≡ map (hit_at ix) r
  unfolding hits_of
  hits_of-map ix [] = refl
  hits_of-map ix (e ∷ r) = ap (λ hs. hit_at ix e ∷ hs) (hits_of-map ix r)

  -- The hits are the first of a ranking of all documents: each document stands in it once, with its
  -- score, and the scores descend.
  pub record Ranked (ix : Index f) (qs : List Bytes) (top_k : ℕ) (hits : List (Hit f.D))
      : Type 0 where
    pub ranking : List (f.D × ℕ)
    pub scored : Scored ix qs ranking
    pub descending : Descending ranking
    pub complete :
        (i : ℕ) → count i (numbers ranking) ≡ (if ltb i (length ix.doc_tokens) then 1 else 0)
    pub first : hits ≡ map (hit_at ix) (take (min top_k (length ranking)) ranking)

  module _ (o : IsOrdered f) where
    ahead-asym : (a b : f.D × ℕ) → ahead f b a ≡ true → ahead f a b ≡ false
    unfolding ahead
    ahead-asym a b e = elim (Bool-cases (f.ne a.0 b.0)) [
      | inl d ↦ ground (arith, e, d, o.ne_comm a.0 b.0, o.lt_asym a.0 b.0)
      | inr d ↦ ground (arith, e, d, o.ne_comm a.0 b.0)
    ]

    insert_sorted-Sorted :
        (a : f.D × ℕ) (r : List (f.D × ℕ)) → Sorted r → Sorted (insert_sorted f a r)
    unfolding insert_sorted
    insert_sorted-Sorted a [] h = tt
    insert_sorted-Sorted a (b ∷ []) h = elim (Bool-cases (ahead f b a)) [
      | inl e ↦ rw e (ahead-asym a b e, tt)
      | inr e ↦ rw e (e, tt)
    ]
    insert_sorted-Sorted a (b ∷ d ∷ r) h =
        let ih = insert_sorted-Sorted a (d ∷ r) h.1 in
        elim (Bool-cases (ahead f b a)) [
          | inl e ↦ rw e (elim (Bool-cases (ahead f d a)) [
            | inl k ↦ rw k (h.0, rw k at ih)
            | inr k ↦ rw k (ahead-asym a b e, rw k at ih)
          ])
          | inr e ↦ rw e (e, h)
        ]

    sorted-Sorted : (r : List (f.D × ℕ)) → Sorted (sorted f r)
    unfolding sorted
    sorted-Sorted [] = tt
    sorted-Sorted (a ∷ r) = insert_sorted-Sorted a (sorted f r) (sorted-Sorted r)

    Sorted-Descending : (r : List (f.D × ℕ)) → Sorted r → Descending r
    unfolding ahead
    Sorted-Descending [] h = tt
    Sorted-Descending (a ∷ []) h = tt
    Sorted-Descending (a ∷ b ∷ r) h = (
      (
        ground (arith, h.0, o.ne_comm a.0 b.0, o.lt_ne a.0 b.0),
        λ e. ground (arith, h.0, e, o.ne_comm a.0 b.0),
      ),
      Sorted-Descending (b ∷ r) h.1,
    )

    -- A query with a token and a `top_k` above 0, on an index that is not empty, gives the first
    -- `top_k` entries of a ranking in which each document of the last `build` stands once, with the
    -- BM25 score that it has for the terms of the query by the index's inverse frequencies (a term
    -- whose denominator is not positive adds nothing). From entry to entry the score does not rise,
    -- and where two neighbours' scores do not differ the earlier document stands first. The
    -- operations on doubles are parameters, with `lt` asymmetric, `ne` symmetric, and no `lt` where
    -- there is no `ne`.
    pub search-Ranked :
        (ix : Index f) (query : Bytes) (top_k : ℕ)
        → 0 < top_k
        → is_empty ix.docs ≡ false
        → is_empty query ≡ false
        → is_empty (toks query) ≡ false
        → Ranked ix (toks query) top_k (search f ix query top_k)
    unfolding search
    search-Ranked ix query top_k k d q t =
        let scores = scores_from f ix (toks query) 0 ix.doc_tokens in
        record {
          ranking = sorted f scores;
          scored = sorted-Scored ix (toks query) scores (
              scores_from-Scored ix (toks query) 0 ix.doc_tokens
                (λ j. ap (λ i. get_or ix.doc_tokens i []) {x = 0 + j} (omega arith)));
          descending = Sorted-Descending (sorted f scores) (sorted-Sorted scores);
          complete = λ i.
              ground
                (arith, count-sorted i scores, count-scores_from ix (toks query) i 0 ix.doc_tokens);
          first = ground (
            arith,
            d,
            q,
            t,
            hits_of-map ix (take (min top_k (length (sorted f scores))) (sorted f scores)),
          );
        }
