-- ===== src/BlockManager/Growth.antt =====
-- How the loops of `BlockManager::allocate` of src/block_manager.cpp make a block table grow.
use nano_v_llm_cpp.Base.{
  ℕ, zero, suc, ◌+◌, ◌≤◌, ◌≡◌, refl, ◌∙◌, true, List, [], ◌∷◌, ◌++◌, arith, if◌then◌else◌, length,
  count, length-append, length-erase, count-append,
}
use nano_v_llm_cpp.BlockManager.Invariant.{Invariant, Invariant-owners, allocate_block-Allocated}
use nano_v_llm_cpp.Result.{ok}
use nano_v_llm_cpp.BlockManager.{BlockManager, claim_block, take_fresh}

-- A block pushed on the table is owned once more.
pub push_table :
    {m : BlockManager} (id : ℕ) (table owners : List ℕ)
    → Invariant m (id ∷ (table ++ owners))
    → Invariant m ((table ++ (id ∷ [])) ++ owners)
push_table id table owners v = Invariant-owners _ _ (λ a. moved a) v
  where
    moved : (a : ℕ) → count a (id ∷ (table ++ owners)) ≡ count a ((table ++ (id ∷ [])) ++ owners)
    moved a = omega (
      arith,
      count-append a table owners,
      count-append a (table ++ (id ∷ [])) owners,
      count-append a table (id ∷ []),
    )

-- What a loop that pushes `k` blocks on the table leaves.
pub record Grown (m : BlockManager) (table owners : List ℕ) (k : ℕ) (m' : BlockManager)
    (table' : List ℕ) : Type 0 where
  pub valid : Invariant m' (table' ++ owners)
  pub grown : length table' ≡ length table + k
  pub same_size : m'.block_size ≡ m.block_size
  pub same_blocks : length m'.blocks ≡ length m.blocks

-- The second loop runs to its end when enough blocks are free.
pub take_fresh-Grown :
    (rounds : ℕ) (m : BlockManager) (table owners : List ℕ)
    → Invariant m (table ++ owners)
    → rounds ≤ length m.free_block_ids
    → (m' : BlockManager) × (table' : List ℕ) × (take_fresh rounds m table ≡ ok (m', table'))
      × Grown m table owners rounds m' table'
      × (length m.free_block_ids ≡ rounds + length m'.free_block_ids)
unfolding take_fresh
take_fresh-Grown zero m table owners v h = (
  m,
  table,
  refl,
  record { valid = v; grown = omega arith; same_size = refl; same_blocks = refl },
  omega arith,
)
take_fresh-Grown (suc rounds) m table owners v h =
    let a = allocate_block-Allocated m (table ++ owners) m.free_block_ids refl v (omega arith) in
    let (m', table', runs, g, free) =
      take_fresh-Grown rounds a.after (table ++ (a.id ∷ [])) owners
        (push_table a.id table owners a.valid) (omega (arith, a.free_falls)) in
    (
      m',
      table',
      rw (a.runs, take_fresh) runs,
      record {
        valid = g.valid;
        grown = omega (arith, g.grown, length-append table (a.id ∷ []));
        same_size = g.same_size ∙ a.same_size;
        same_blocks = g.same_blocks ∙ a.same_blocks;
      },
      omega (arith, a.free_falls, free),
    )

pub claim_block-free :
    (m : BlockManager) (id : ℕ)
    → length m.free_block_ids
      ≤ length (claim_block m id).free_block_ids + (if m.used_block_ids id then 0 else 1)
unfolding claim_block
claim_block-free m id = ground (arith, length-erase id m.free_block_ids)

pub claim_block-keeps_used :
    (m : BlockManager) (id j : ℕ)
    → m.used_block_ids j ≡ true
    → (claim_block m id).used_block_ids j ≡ true
unfolding claim_block
claim_block-keeps_used m id j h = ground arith
