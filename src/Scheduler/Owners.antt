-- ===== src/Scheduler/Owners.antt =====
-- The block tables of the sequences that a list of pointers names, strung together: the owners
-- against which src/block_manager.cpp keeps its counts.
use nano_v_llm_cpp.Base.{
  ℕ, ◌+◌, ◌<◌, ◌≡◌, refl, ap, inl, inr, List, [], ◌∷◌, ◌++◌, arith, ◌==◌, Bool-cases, ==_iff, count,
  erase, count-append, count-erase,
}
use nano_v_llm_cpp.Sequence.{Sequence}
use nano_v_llm_cpp.BlockManager.{put}

abbrev pub owners : (ℕ → Sequence) → List ℕ → List ℕ
owners store [] = []
owners store (p ∷ ps) = (store p).block_table ++ owners store ps

-- One pointer's table comes out of the sum.
pub owners-focus :
    (store : ℕ → Sequence) (p id : ℕ) (ps : List ℕ)
    → 0 < count p ps
    → count id (owners store ps)
      ≡ count id (store p).block_table + count id (owners store (erase p ps))
owners-focus store p id [] h = absurd (omega arith)
owners-focus store p id (q ∷ ps) h = elim (Bool-cases (q == p)) [
  | inl same ↦
      rw (same, erase)
        (rw ((==_iff q p).0 same) (count-append id (store p).block_table (owners store ps)))
  | inr other ↦
      rw (other, erase)
        (omega (
          arith,
          count-append id (store q).block_table (owners store ps),
          count-append id (store q).block_table (owners store (erase p ps)),
          owners-focus store p id ps (ground arith),
        ))
]

-- Only how often a pointer stands in the list matters.
pub owners-perm :
    (store : ℕ → Sequence) (id : ℕ) (ps qs : List ℕ)
    → ((p : ℕ) → count p ps ≡ count p qs)
    → count id (owners store ps) ≡ count id (owners store qs)
owners-perm store id [] [] h = refl
owners-perm store id [] (q ∷ qs) h = absurd (ground (arith, h q))
owners-perm store id (p ∷ ps) qs h = omega (
  arith,
  count-append id (store p).block_table (owners store ps),
  owners-focus store p id qs (ground (arith, h p)),
  owners-perm store id ps (erase p qs) (λ q. ground (arith, h q, count-erase q p qs)),
)

-- A write to a sequence that the list does not name changes none of its tables.
pub owners-put :
    (store : ℕ → Sequence) (p : ℕ) (seq : Sequence) (ps : List ℕ)
    → count p ps ≡ 0
    → owners (put p seq store) ps ≡ owners store ps
owners-put store p seq [] h = refl
owners-put store p seq (q ∷ ps) h = elim (Bool-cases (p == q)) [
  | inl same ↦ absurd (ground arith)
  | inr other ↦
      rw other (ap (◌++◌ (store q).block_table) (owners-put store p seq ps (ground arith)))
]
