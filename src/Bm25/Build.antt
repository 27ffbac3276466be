-- ===== src/Bm25/Build.antt =====
-- What `build` of include/nanovllm/bm25.hpp makes of the documents.
use nano_v_llm_cpp.Base.{
  ℕ, ◌+◌, ◌≡◌, ap, inl, inr, refl, not, List, [], ◌∷◌, ◌++◌, none, some, arith, ◌==◌, if◌then◌else◌,
  Bool-cases, length,
}
use nano_v_llm_cpp.Text.{Bytes, same}
use nano_v_llm_cpp.Text.Find.{same_iff}
use nano_v_llm_cpp.Bm25.{
  Doubles, Doc, Index, toks, lookup, bump_all, has_key, distinct, document_frequencies, idf_of,
  idfs, build,
}
use nano_v_llm_cpp.Bm25.Score.{occurrences, more, lookup-bump_all}

-- In how many documents the term stands.
abbrev pub containing : Bytes → List Doc → ℕ
containing q [] = 0
containing q (d ∷ ds) = (if occurrences q (toks d.text) == 0 then 0 else 1) + containing q ds

has_key-occurrences : (t : Bytes) (us : List Bytes) → has_key t us ≡ not (occurrences t us == 0)
has_key-occurrences t [] = refl
has_key-occurrences t (u ∷ us) = ground (arith, has_key-occurrences t us)

occurrences-append :
    (q : Bytes) (us vs : List Bytes)
    → occurrences q (us ++ vs) ≡ occurrences q us + occurrences q vs
occurrences-append q [] vs = omega arith
occurrences-append q (u ∷ us) vs = omega (arith, occurrences-append q us vs)

-- Each term once, those of `seen` as often as there.
occurrences-distinct :
    (q : Bytes) (seen ts : List Bytes)
    → occurrences q (distinct seen ts) ≡ (
        if occurrences q seen == 0
        then (if occurrences q ts == 0 then 0 else 1)
        else occurrences q seen)
unfolding distinct
occurrences-distinct q seen [] = ground arith
occurrences-distinct q seen (t ∷ ts) = elim (Bool-cases (same q t)) [
  | inl y ↦
      let e : q ≡ t = (same_iff q t).0 y in
      ground (
        arith,
        y,
        has_key-occurrences t seen,
        ap (λ x. occurrences x seen) e,
        occurrences-append q seen (t ∷ []),
        occurrences-distinct q seen ts,
        occurrences-distinct q (seen ++ (t ∷ [])) ts,
      )
  | inr n ↦ ground (
    arith,
    n,
    occurrences-append q seen (t ∷ []),
    occurrences-distinct q seen ts,
    occurrences-distinct q (seen ++ (t ∷ [])) ts,
  )
]

lookup-document_frequencies :
    (q : Bytes) (ds : List Doc) (df : List (Bytes × ℕ))
    → lookup q (document_frequencies ds df) ≡ more (containing q ds) (lookup q df)
unfolding document_frequencies
lookup-document_frequencies q [] df = refl
lookup-document_frequencies q (d ∷ ds) df = ground (
  arith,
  lookup-document_frequencies q ds (bump_all (distinct [] (toks d.text)) df),
  lookup-bump_all q (distinct [] (toks d.text)) df,
  occurrences-distinct q [] (toks d.text),
)

module _ (f : Doubles) where
  -- log(1 + (N - n + 0.5) / (n + 0.5))
  abbrev pub reference_idf : ℕ → ℕ → f.D
  reference_idf docs n = f.log (
      f.add (f.of_nat 1) (
        f.div (f.add (f.sub (f.of_nat docs) (f.of_nat n)) (f.decimal 5 1))
          (f.add (f.of_nat n) (f.decimal 5 1))))

  lookup-idfs :
      (docs : ℕ) (q : Bytes) (df : List (Bytes × ℕ))
      → lookup q (idfs f docs df)
        ≡ (elim (lookup q df) [ none ↦ none | some n ↦ some (reference_idf docs n) ])
  unfolding lookup idfs idf_of
  lookup-idfs docs q [] = refl
  lookup-idfs docs q ((t, n) ∷ df) = ground (arith, lookup-idfs docs q df)

  -- After `build`, a term has an inverse frequency if and only if it stands in a document, however
  -- often, and the inverse frequency is that of BM25 for the number of those documents among all.
  pub build-idf :
      (ix : Index f) (q : Bytes)
      → lookup q (build f ix).idf ≡ (
          if containing q ix.docs == 0
          then none
          else some (reference_idf (length ix.docs) (containing q ix.docs)))
  unfolding build lookup
  build-idf ix q = ground (
    arith,
    lookup-idfs (length ix.docs) q (document_frequencies ix.docs []),
    lookup-document_frequencies q ix.docs [],
  )
