-- ===== src/Tokenizer/Least.antt =====
-- Which pair the loop of `encode_piece` in src/tokenizer.cpp merges.
use nano_v_llm_cpp.Base.{
  ℕ, zero, suc, ◌+◌, ◌≤◌, ◌<◌, ◌≡◌, ◌⊎◌, inr, refl, true, false, List, [], ◌∷◌, Option, none, some,
  arith, ltb, if◌then◌else◌, Bool, subst,
}
use nano_v_llm_cpp.Text.{Bytes}
use nano_v_llm_cpp.Tokenizer.{Tokenizer, merge_key, better_pair, best_from}
use nano_v_llm_cpp.Tokenizer.Merge.{rank_at, best_from-rank_at}

-- A rank and a place against another's: the rank is smaller, or the same and no later.
abbrev pub Before : ℕ → ℕ → ℕ → ℕ → Type 0
Before rank j other k = (rank < other) ⊎ ((rank ≡ other) × (j ≤ k))

abbrev BeforeAll : ℕ → ℕ → Option (ℕ × ℕ) → Type 0
BeforeAll rank j none = Unit {0}
BeforeAll rank j (some (other, k)) = Before rank j other k

abbrev BeforeRank : ℕ → ℕ → Option ℕ → ℕ → Type 0
BeforeRank rank j none k = Unit {0}
BeforeRank rank j (some other) k = Before rank j other k

-- The place of the best pair so far was passed.
abbrev Passed : ℕ → Option (ℕ × ℕ) → Type 0
Passed i none = Unit {0}
Passed i (some (rank, k)) = k < i

better_pair-Before :
    (o : Option ℕ) (i : ℕ) (best : Option (ℕ × ℕ)) (rank j : ℕ)
    → Passed i best
    → BeforeAll rank j (better_pair o i best)
    → BeforeAll rank j best × BeforeRank rank j o i
better_pair-Before none i none rank j p h = (tt, tt)
better_pair-Before none i (some (r, k)) rank j p h = (h, tt)
better_pair-Before (some r') i none rank j p h = (tt, h)
better_pair-Before (some r') i (some (r, k)) rank j p h = picked (ltb r' r) refl h
  where
    picked :
        (b : Bool)
        → ltb r' r ≡ b
        → BeforeAll rank j (if b then some (r', i) else some (r, k))
        → BeforeAll rank j (some (r, k)) × BeforeRank rank j (some r') i
    picked true e f = (ground (arith, e, f), f)
    picked false e f = (f, ground (arith, e, f, p))

better_pair-Passed :
    (o : Option ℕ) (i : ℕ) (best : Option (ℕ × ℕ))
    → Passed i best
    → Passed (suc i) (better_pair o i best)
better_pair-Passed none i none p = tt
better_pair-Passed none i (some (r, k)) p = omega (arith, p)
better_pair-Passed (some r') i none p = omega arith
better_pair-Passed (some r') i (some (r, k)) p = picked (ltb r' r)
  where
    picked : (b : Bool) → Passed (suc i) (if b then some (r', i) else some (r, k))
    picked true = omega arith
    picked false = omega (arith, p)

itself : (best : Option (ℕ × ℕ)) (rank j : ℕ) → best ≡ some (rank, j) → BeforeAll rank j best
itself none rank j e = tt
itself (some (r, k)) rank j e = inr (ground (arith, e), ground (arith, e))

best_from-Before :
    (t : Tokenizer) (i : ℕ) (best : Option (ℕ × ℕ)) (parts : List Bytes) (rank j : ℕ)
    → Passed i best
    → best_from t i best parts ≡ some (rank, j)
    → BeforeAll rank j best × ((k : ℕ) → BeforeRank rank j (rank_at t k parts) (i + k))
unfolding best_from rank_at
best_from-Before t i best [] rank j p e = (itself best rank j e, λ k. tt)
best_from-Before t i best (x ∷ []) rank j p e = (itself best rank j e, λ k. tt)
best_from-Before t i best (x ∷ (y ∷ parts)) rank j p e =
    let o = t.merge_rank (merge_key x y) in
    let rest =
      best_from-Before t (suc i) (better_pair o i best) (y ∷ parts) rank j
        (better_pair-Passed o i best p) e in
    let here = better_pair-Before o i best rank j p rest.0 in (here.0, place here.1 rest.1)
  where
    place :
        BeforeRank rank j (t.merge_rank (merge_key x y)) i
        → ((k : ℕ) → BeforeRank rank j (rank_at t k (y ∷ parts)) (suc i + k))
        → (k : ℕ) → BeforeRank rank j (rank_at t k (x ∷ (y ∷ parts))) (i + k)
    place h hs zero = subst (BeforeRank rank j (t.merge_rank (merge_key x y))) (omega arith) h
    place h hs (suc k) = subst (BeforeRank rank j (rank_at t k (y ∷ parts))) (omega arith) (hs k)

-- The pair that a round merges has a rank, and no pair has a smaller one; of the pairs with that rank
-- it is the first.
pub best_from-Least :
    (t : Tokenizer) (parts : List Bytes) (rank j : ℕ)
    → best_from t 0 none parts ≡ some (rank, j)
    → (rank_at t j parts ≡ some rank)
      × ((k other : ℕ) → rank_at t k parts ≡ some other → Before rank j other k)
best_from-Least t parts rank j e =
    let all = (best_from-Before t 0 none parts rank j tt e).1 in
    (
      best_from-rank_at t parts rank j e,
      λ k other h.
          subst (λ o. BeforeRank rank j o k) h
            (subst (BeforeRank rank j (rank_at t k parts)) (omega arith) (all k)),
    )
