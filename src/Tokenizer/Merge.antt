-- ===== src/Tokenizer/Merge.antt =====
-- The merges of `encode_piece` in src/tokenizer.cpp.
use nano_v_llm_cpp.Base.{
  ℕ, zero, suc, ◌+◌, ◌≤◌, ◌≡◌, ◌⊎◌, inl, inr, refl, subst, List, [], ◌∷◌, Option, none, some, arith,
  ltb, length, Bool-cases,
}
use nano_v_llm_cpp.Text.{Bytes}
use nano_v_llm_cpp.Tokenizer.{Tokenizer, merge_key, better_pair, best_from, merge_at, merge_parts}

-- The rank of the pair at a place.
unfoldable pub rank_at : Tokenizer → ℕ → List Bytes → Option ℕ
rank_at t i [] = none
rank_at t i (p ∷ []) = none
rank_at t zero (p ∷ (q ∷ parts)) = t.merge_rank (merge_key p q)
rank_at t (suc i) (p ∷ (q ∷ parts)) = rank_at t i (q ∷ parts)

-- The pair that the loop finds is the one it started with, or one of the list.
abbrev FoundPair : Tokenizer → ℕ → Option (ℕ × ℕ) → List Bytes → ℕ → ℕ → Type 0
FoundPair t i best parts rank j =
    (best ≡ some (rank, j)) ⊎ ((k : ℕ) × (j ≡ i + k) × (rank_at t k parts ≡ some rank))

better_pair-FoundPair :
    (o : Option ℕ) (i : ℕ) (best : Option (ℕ × ℕ)) (rank j : ℕ)
    → better_pair o i best ≡ some (rank, j)
    → (best ≡ some (rank, j)) ⊎ ((o ≡ some rank) × (j ≡ i))
better_pair-FoundPair none i best rank j e = inl e
better_pair-FoundPair (some r) i none rank j e = inr (ground (arith, e), ground (arith, e))
better_pair-FoundPair (some r) i (some (r', i')) rank j e = elim (Bool-cases (ltb r r')) [
  | inl less ↦ inr (ground (arith, e, less), ground (arith, e, less))
  | inr more ↦ inl (ground (arith, e, more))
]

best_from-FoundPair :
    (t : Tokenizer) (i : ℕ) (best : Option (ℕ × ℕ)) (parts : List Bytes) (rank j : ℕ)
    → best_from t i best parts ≡ some (rank, j)
    → FoundPair t i best parts rank j
unfolding best_from rank_at
best_from-FoundPair t i best [] rank j e = inl e
best_from-FoundPair t i best (p ∷ []) rank j e = inl e
best_from-FoundPair t i best (p ∷ (q ∷ parts)) rank j e =
    elim (best_from-FoundPair t (suc i) (better_pair (t.merge_rank (merge_key p q)) i best)
      (q ∷ parts) rank j e) [
        | inl b ↦ elim (better_pair-FoundPair (t.merge_rank (merge_key p q)) i best rank j b) [
          | inl c ↦ inl c
          | inr (r, at_i) ↦ inr (zero, omega (arith, at_i), r)
        ]
        | inr (k, at_k, r) ↦ inr (suc k, omega (arith, at_k), r)
      ]

pub best_from-rank_at :
    (t : Tokenizer) (parts : List Bytes) (rank j : ℕ)
    → best_from t 0 none parts ≡ some (rank, j)
    → rank_at t j parts ≡ some rank
best_from-rank_at t parts rank j e = elim (best_from-FoundPair t 0 none parts rank j e) [
  | inl none_some ↦ ground (arith, none_some)
  | inr (k, at_k, r) ↦
      let same : k ≡ j = omega (arith, at_k) in subst (λ x. rank_at t x parts ≡ some rank) same r
]

length-merge_at :
    (t : Tokenizer) (i : ℕ) (parts : List Bytes) (rank : ℕ)
    → rank_at t i parts ≡ some rank
    → length (merge_at i parts) + 1 ≡ length parts
unfolding rank_at merge_at
length-merge_at t i [] rank e = ground (arith, e)
length-merge_at t i (p ∷ []) rank e = ground (arith, e)
length-merge_at t zero (p ∷ (q ∷ parts)) rank e = omega arith
length-merge_at t (suc i) (p ∷ (q ∷ parts)) rank e =
    ground (arith, length-merge_at t i (q ∷ parts) rank e)

better_pair-none :
    (o : Option ℕ) (i : ℕ) (best : Option (ℕ × ℕ))
    → better_pair o i best ≡ none
    → (o ≡ none) × (best ≡ none)
better_pair-none none i best e = (refl, e)
better_pair-none (some r) i none e = ground (arith, e)
better_pair-none (some r) i (some (r', i')) e = ground (arith, e)

rank_at-none :
    (t : Tokenizer) (p q : Bytes) (parts : List Bytes)
    → t.merge_rank (merge_key p q) ≡ none
    → ((k : ℕ) → rank_at t k (q ∷ parts) ≡ none)
    → (k : ℕ) → rank_at t k (p ∷ (q ∷ parts)) ≡ none
unfolding rank_at
rank_at-none t p q parts here rest zero = here
rank_at-none t p q parts here rest (suc k) = rest k

pub best_from-none :
    (t : Tokenizer) (i : ℕ) (best : Option (ℕ × ℕ)) (parts : List Bytes)
    → best_from t i best parts ≡ none
    → (best ≡ none) × ((k : ℕ) → rank_at t k parts ≡ none)
unfolding best_from rank_at
best_from-none t i best [] e = (e, λ k. refl)
best_from-none t i best (p ∷ []) e = (e, λ k. refl)
best_from-none t i best (p ∷ (q ∷ parts)) e =
    let rest =
      best_from-none t (suc i) (better_pair (t.merge_rank (merge_key p q)) i best) (q ∷ parts) e in
    let here = better_pair-none (t.merge_rank (merge_key p q)) i best rest.0 in
    (here.1, rank_at-none t p q parts here.0 rest.1)

module _ (t : Tokenizer) where
  -- What holds after every merge of a pair with a rank holds at the end.
  pub merge_parts-keeps :
      (P : List Bytes → Type 0)
      → ((parts : List Bytes) (i rank : ℕ)
          → rank_at t i parts ≡ some rank
          → P parts
          → P (merge_at i parts))
      → (n : ℕ) (parts : List Bytes) → P parts
      → P (merge_parts t n parts)
  unfolding merge_parts
  merge_parts-keeps P step zero parts h = h
  merge_parts-keeps P step (suc n) parts h =
      merged (best_from t 0 none parts) refl (merge_parts-keeps P step n)
    where
      merged :
          (o : Option (ℕ × ℕ))
          → best_from t 0 none parts ≡ o
          → ((ps : List Bytes) → P ps → P (merge_parts t n ps))
          → P (merge_parts t (suc n) parts)
      merged none e rest = rw (merge_parts, e) h
      merged (some (rank, i)) e rest =
          rw (merge_parts, e)
            (rest (merge_at i parts) (step parts i rank (best_from-rank_at t parts rank i e) h))

  pub merge_parts-done :
      (n : ℕ) (parts : List Bytes)
      → length parts ≤ n
      → best_from t 0 none (merge_parts t n parts) ≡ none
  unfolding merge_parts best_from
  merge_parts-done zero [] h = refl
  merge_parts-done zero (p ∷ parts) h = absurd (omega (arith, h))
  merge_parts-done (suc n) parts h = merged (best_from t 0 none parts) refl (merge_parts-done n)
    where
      merged :
          (o : Option (ℕ × ℕ))
          → best_from t 0 none parts ≡ o
          → ((ps : List Bytes) → length ps ≤ n → best_from t 0 none (merge_parts t n ps) ≡ none)
          → best_from t 0 none (merge_parts t (suc n) parts) ≡ none
      merged none e rest = rw (merge_parts, e) e
      merged (some (rank, i)) e rest =
          rw (merge_parts, e)
            (rest (merge_at i parts) (
              omega
                (arith, h, length-merge_at t i parts rank (best_from-rank_at t parts rank i e))))

  -- The loop of `encode_piece` needs no more rounds than there are parts: no two parts beside each
  -- other that are left have a rank.
  pub merge_parts-Merged :
      (parts : List Bytes) (k : ℕ) → rank_at t k (merge_parts t (length parts) parts) ≡ none
  merge_parts-Merged parts =
      (best_from-none t 0 none (merge_parts t (length parts) parts)
        (merge_parts-done (length parts) parts (omega arith))).1
