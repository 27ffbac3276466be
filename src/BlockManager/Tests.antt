-- ===== src/BlockManager/Tests.antt =====
-- Runs of src/block_manager.cpp on small caches, and its theorems at them.
use nano_v_llm_cpp.Base.{◌≡◌, refl, true, false, [], ◌∷◌, ◌++◌, none, some, arith, length}
use nano_v_llm_cpp.Sequence.{Status, Sequence}
use nano_v_llm_cpp.BlockManager.{
  BlockManager, new_manager, scan, can_allocate, deallocate, can_append, hash_blocks,
}
use nano_v_llm_cpp.BlockManager.Invariant.{Invariant}
use nano_v_llm_cpp.BlockManager.Allocate.{AllocatedTable, allocate-can_allocate}
use nano_v_llm_cpp.BlockManager.Steps.{
  Appended, new_manager-Invariant, deallocate-Invariant, may_append-can_append,
}
use nano_v_llm_cpp.BlockManager.Hashes.{Hashed, Chained, start_block, end_block, hash_blocks-Hashed}

-- Three tokens of prompt.
abbrev pub three : Sequence
three = record {
  seq_id = 0;
  status = Status.waiting;
  token_ids = 5 ∷ 6 ∷ 7 ∷ [];
  last_token = 7;
  num_tokens = 3;
  num_prompt_tokens = 3;
  num_cached_tokens = 0;
  num_scheduled_tokens = 0;
  is_prefill = true;
  block_table = [];
  temperature = 0;
  max_tokens = 4;
  ignore_eos = false;
}

abbrev eight_blocks : BlockManager
eight_blocks = new_manager 8 2

three_allocates : can_allocate 2 eight_blocks three ≡ some 0
unfolding can_allocate scan new_manager
three_allocates = refl

-- In a cache of one block it does not fit.
pub one_block_too_few : can_allocate 2 (new_manager 1 2) three ≡ none
unfolding can_allocate scan new_manager
one_block_too_few = refl

allocated : AllocatedTable 2 eight_blocks three 0 []
allocated =
    allocate-can_allocate 2 eight_blocks three [] 0 (new_manager-Invariant 8 2) refl (omega arith)
      three_allocates

allocate-can_allocate_example : AllocatedTable 2 eight_blocks three 0 []
allocate-can_allocate_example =
    allocate-can_allocate 2 eight_blocks three [] 0 (new_manager-Invariant 8 2) refl (omega arith)
      three_allocates

-- With its two blocks, all three tokens scheduled.
abbrev placed : Sequence
placed = record three { block_table = allocated.table; num_scheduled_tokens = 3 }

deallocate-Invariant_example :
    Invariant (deallocate allocated.after placed).0 []
    × ((deallocate allocated.after placed).1
        ≡ record placed { num_cached_tokens = 0; block_table = [] })
    × ((deallocate allocated.after placed).0.block_size ≡ allocated.after.block_size)
    × (length (deallocate allocated.after placed).0.blocks ≡ length allocated.after.blocks)
deallocate-Invariant_example = deallocate-Invariant allocated.after placed [] (allocated.valid)

eight_can_append : can_append eight_blocks three ≡ true
unfolding can_append new_manager
eight_can_append = refl

may_append-can_append_example : Appended eight_blocks three []
may_append-can_append_example =
    may_append-can_append eight_blocks three [] (new_manager-Invariant 8 2) eight_can_append

hash_blocks-Hashed_example :
    Hashed 2 allocated.after
      (hash_blocks 2 allocated.after placed)
      placed
      (start_block allocated.after placed)
      (end_block allocated.after placed)
    × Chained 2 (hash_blocks 2 allocated.after placed) placed (end_block allocated.after placed)
    × Invariant (hash_blocks 2 allocated.after placed) (allocated.table ++ [])
unfolding new_manager
hash_blocks-Hashed_example =
    hash_blocks-Hashed 2 allocated.after placed []
      (rw (allocated.same_size, allocated.covers) (omega arith)) (allocated.valid)
      (λ h. absurd (omega (arith, h)))
