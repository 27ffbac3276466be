-- ===== src/Bm25/Score.antt =====
-- The score that include/nanovllm/bm25.hpp gives a document, against the formula of BM25 on the
-- number of times that each term of the query stands in the document.
use nano_v_llm_cpp.Base.{
  ℕ, ◌+◌, ◌≡◌, ap, inl, inr, refl, true, false, List, [], ◌∷◌, Option, none, some, arith, ◌==◌,
  if◌then◌else◌, Bool-cases, length,
}
use nano_v_llm_cpp.Text.{Bytes, same}
use nano_v_llm_cpp.Text.Find.{same_iff}
use nano_v_llm_cpp.Bm25.{Doubles, Index, lookup, bump, bump_all, term_score, score_from, doc_score}

-- How often the term stands in the list.
abbrev pub occurrences : Bytes → List Bytes → ℕ
occurrences q [] = 0
occurrences q (t ∷ ts) = (if same q t then 1 else 0) + occurrences q ts

abbrev pub counted : Option ℕ → ℕ
counted none = 0
counted (some n) = n

-- An entry after `n` more of its term.
abbrev pub more : ℕ → Option ℕ → Option ℕ
more n o = if n == 0 then o else some (counted o + n)

lookup-bump :
    (q t : Bytes) (m : List (Bytes × ℕ))
    → lookup q (bump t m) ≡ more (if same q t then 1 else 0) (lookup q m)
unfolding lookup bump
lookup-bump q t [] = ground arith
lookup-bump q t ((j, n) ∷ m) = elim (Bool-cases (same t j)) [
  | inl y ↦ rw y (ground (arith, ap (same q) ((same_iff t j).0 y)))
  | inr y ↦
      rw y (elim (Bool-cases (same q j)) [
        | inl k ↦ rw k (other k y)
        | inr k ↦ rw k (lookup-bump q t m)
      ])
]
  where
    other : same q j ≡ true → same t j ≡ false → some n ≡ more (if same q t then 1 else 0) (some n)
    other k y = elim (Bool-cases (same q t)) [
      | inl e ↦ absurd (ground (arith, y, k, ap (λ x. same x j) ((same_iff q t).0 e)))
      | inr e ↦ rw e refl
    ]

pub lookup-bump_all :
    (q : Bytes) (ts : List Bytes) (m : List (Bytes × ℕ))
    → lookup q (bump_all ts m) ≡ more (occurrences q ts) (lookup q m)
unfolding bump_all
lookup-bump_all q [] m = refl
lookup-bump_all q (t ∷ ts) m = ground (arith, lookup-bump_all q ts (bump t m), lookup-bump q t m)

lookup-counts :
    (q : Bytes) (ts : List Bytes)
    → lookup q (bump_all ts []) ≡ (if occurrences q ts == 0 then none else some (occurrences q ts))
unfolding lookup
lookup-counts q ts = ground (arith, lookup-bump_all q ts [])

module _ (f : Doubles) (ix : Index f) (tokens : List Bytes) where
  -- idf(q) * (tf * (k1 + 1)) / (tf + k1 * (1 - b + b * |D| / avgdl)), where the denominator is
  -- positive; k1 is 1.2 and b is 0.75.
  abbrev gained : Bytes → f.D → f.D
  gained q score =
      let tf = f.of_nat (occurrences q tokens) in
      let idf : f.D = elim (lookup q ix.idf) [ none ↦ f.of_nat 0 | some v ↦ v ] in
      let len = f.div (f.mul (f.decimal 75 2) (f.of_nat (length tokens))) ix.avgdl in
      let denom =
        f.add tf (f.mul (f.decimal 12 1) (f.add (f.sub (f.of_nat 1) (f.decimal 75 2)) len)) in
      if f.lt (f.of_nat 0) denom
      then f.add score (f.mul idf (f.div (f.mul tf (f.add (f.decimal 12 1) (f.of_nat 1))) denom))
      else score

  -- The sum over the terms of the query that the document has.
  abbrev sum : List Bytes → f.D → f.D
  sum [] score = score
  sum (q ∷ qs) score = sum qs (if occurrences q tokens == 0 then score else gained q score)

  score_from-sum :
      (qs : List Bytes) (score : f.D)
      → score_from f ix (bump_all tokens []) (f.of_nat (length tokens)) qs score ≡ sum qs score
  unfolding score_from term_score
  score_from-sum [] score = refl
  score_from-sum (q ∷ qs) score = elim (Bool-cases (occurrences q tokens == 0)) [
    | inl y ↦ rw (lookup-counts q tokens, score_from, y) (score_from-sum qs score)
    | inr n ↦ rw (lookup-counts q tokens, score_from, n) (score_from-sum qs (gained q score))
  ]

abbrev pub reference_score : (f : Doubles) → Index f → List Bytes → List Bytes → f.D
reference_score f ix qs tokens = sum f ix tokens qs (f.of_nat 0)

pub doc_score-reference_score :
    (f : Doubles) (ix : Index f) (qs tokens : List Bytes)
    → doc_score f ix qs tokens ≡ reference_score f ix qs tokens
unfolding doc_score
doc_score-reference_score f ix qs tokens = score_from-sum f ix tokens qs (f.of_nat 0)
