-- ===== src/BlockManager/Invariant.antt =====
-- The allocator's invariant against `owners`, the block tables of all live sequences strung
-- together, and its preservation by the steps on one block.
use nano_v_llm_cpp.Base.{
  ℕ, suc, ◌<◌, ◌≡◌, refl, sym, ◌∙◌, ap, true, false, List, [], ◌∷◌, some, arith, ltb, if◌then◌else◌,
  length, length-set, get_or-set, count, count-append, count-erase,
}
use nano_v_llm_cpp.Result.{ok}
use nano_v_llm_cpp.BlockManager.{
  pos, incr, decr, BlockManager, new_block, block_at, reset_block, forget_hash, take_block,
  allocate_block, claim_block, release_block,
}

-- What holds of the block `id`: it is free exactly once or used, and a used block counts its owners.
pub record At (m : BlockManager) (owners : List ℕ) (id : ℕ) : Type 0 where
  pub used_in : m.used_block_ids id ≡ true → id < length m.blocks
  pub free_once :
      count id m.free_block_ids
      ≡ (if m.used_block_ids id then 0 else (if ltb id (length m.blocks) then 1 else 0))
  pub counted : m.used_block_ids id ≡ true → (block_at m id).ref_count ≡ pos (count id owners)
  pub owned : m.used_block_ids id ≡ true → 0 < count id owners
  pub unowned : m.used_block_ids id ≡ false → count id owners ≡ 0
  pub named : id < length m.blocks → (block_at m id).block_id ≡ id

pub record Invariant (m : BlockManager) (owners : List ℕ) : Type 0 where
  pub at : (id : ℕ) → At m owners id
  pub mapped : (h id : ℕ) → m.hash_to_block_id h ≡ some id → id < length m.blocks

-- Only the counts of the owners matter.
pub Invariant-owners :
    {m : BlockManager} (xs ys : List ℕ)
    → ((id : ℕ) → count id xs ≡ count id ys)
    → Invariant m xs
    → Invariant m ys
Invariant-owners {m} xs ys e v = record { at = λ id. same id (e id) (v.at id); mapped = v.mapped }
  where
    same : (id : ℕ) → count id xs ≡ count id ys → At m xs id → At m ys id
    same id e a = ground arith

pub forget_hash-frame :
    (m : BlockManager) (id : ℕ)
    → ((forget_hash m id).blocks ≡ m.blocks)
      × ((forget_hash m id).free_block_ids ≡ m.free_block_ids)
      × ((forget_hash m id).used_block_ids ≡ m.used_block_ids)
      × ((forget_hash m id).block_size ≡ m.block_size)
unfolding forget_hash
forget_hash-frame m id = ground arith

forget_hash-mapped :
    (m : BlockManager) (id h j : ℕ)
    → (forget_hash m id).hash_to_block_id h ≡ some j
    → m.hash_to_block_id h ≡ some j
unfolding forget_hash
forget_hash-mapped m id h j e = ground arith

module _ (m : BlockManager) (id : ℕ) (rest owners : List ℕ)
    (front : m.free_block_ids ≡ id ∷ rest) where
  take_block-At :
      (j : ℕ) → At m owners id → At m owners j → At (take_block m id rest) (id ∷ owners) j
  unfolding take_block
  take_block-At j a b = ground (
    arith,
    forget_hash-frame (record m { free_block_ids = rest }) id,
    get_or-set m.blocks id j (reset_block (block_at m id)) (new_block 0),
    length-set m.blocks id (reset_block (block_at m id)),
    ap (count id) front,
    ap (count j) front,
  )

  take_block-mapped :
      (h j : ℕ)
      → ((h j : ℕ) → m.hash_to_block_id h ≡ some j → j < length m.blocks)
      → (take_block m id rest).hash_to_block_id h ≡ some j
      → j < length (take_block m id rest).blocks
  unfolding take_block
  take_block-mapped h j mapped e = ground (
    arith,
    mapped h j (forget_hash-mapped (record m { free_block_ids = rest }) id h j e),
    forget_hash-frame (record m { free_block_ids = rest }) id,
    length-set m.blocks id (reset_block (block_at m id)),
  )

  take_block-Invariant : Invariant m owners → Invariant (take_block m id rest) (id ∷ owners)
  take_block-Invariant v = record {
    at = λ j. take_block-At j (v.at id) (v.at j);
    mapped = λ h j. take_block-mapped h j v.mapped;
  }

module _ (m : BlockManager) (id : ℕ) (owners : List ℕ) where
  claim_block-At :
      (j : ℕ)
      → id < length m.blocks
      → At m owners id
      → At m owners j
      → At (claim_block m id) (id ∷ owners) j
  unfolding claim_block
  claim_block-At j within a b = ground (
    arith,
    get_or-set m.blocks id j (record (block_at m id) { ref_count = incr (block_at m id).ref_count })
        (new_block 0),
    get_or-set m.blocks id j (record (block_at m id) { ref_count = pos 1 }) (new_block 0),
    length-set m.blocks id (record (block_at m id) { ref_count = incr (block_at m id).ref_count }),
    length-set m.blocks id (record (block_at m id) { ref_count = pos 1 }),
    count-erase j id m.free_block_ids,
  )

  release_block-At :
      (j : ℕ) → At m (id ∷ owners) id → At m (id ∷ owners) j → At (release_block m id) owners j
  unfolding release_block
  release_block-At j a b = ground (
    arith,
    get_or-set m.blocks id j (record (block_at m id) { ref_count = decr (block_at m id).ref_count })
        (new_block 0),
    length-set m.blocks id (record (block_at m id) { ref_count = decr (block_at m id).ref_count }),
    count-append j m.free_block_ids (id ∷ []),
  )

take_block-frame :
    (m : BlockManager) (id : ℕ) (rest : List ℕ)
    → ((take_block m id rest).block_size ≡ m.block_size)
      × (length (take_block m id rest).blocks ≡ length m.blocks)
      × ((take_block m id rest).free_block_ids ≡ rest)
unfolding take_block
take_block-frame m id rest = ground (
  arith,
  forget_hash-frame (record m { free_block_ids = rest }) id,
  length-set m.blocks id (reset_block (block_at m id)),
)

front_unowned :
    (m : BlockManager) (id : ℕ) (rest owners : List ℕ)
    → m.free_block_ids ≡ id ∷ rest
    → At m owners id
    → count id owners ≡ 0
front_unowned m id rest owners e a = ground (arith, ap (count id) e)

pub claim_block-frame :
    (m : BlockManager) (id : ℕ)
    → ((claim_block m id).hash_to_block_id ≡ m.hash_to_block_id)
      × (length (claim_block m id).blocks ≡ length m.blocks)
      × ((claim_block m id).block_size ≡ m.block_size)
unfolding claim_block
claim_block-frame m id = ground (
  arith,
  length-set m.blocks id (record (block_at m id) { ref_count = incr (block_at m id).ref_count }),
  length-set m.blocks id (record (block_at m id) { ref_count = pos 1 }),
)

pub release_block-frame :
    (m : BlockManager) (id : ℕ)
    → ((release_block m id).hash_to_block_id ≡ m.hash_to_block_id)
      × (length (release_block m id).blocks ≡ length m.blocks)
      × ((release_block m id).block_size ≡ m.block_size)
unfolding release_block
release_block-frame m id = ground (
  arith,
  length-set m.blocks id (record (block_at m id) { ref_count = decr (block_at m id).ref_count }),
)

pub claim_block-Invariant :
    (m : BlockManager) (id : ℕ) (owners : List ℕ)
    → id < length m.blocks
    → Invariant m owners
    → Invariant (claim_block m id) (id ∷ owners)
claim_block-Invariant m id owners within v = record {
  at = λ j. claim_block-At m id owners j within (v.at id) (v.at j);
  mapped = λ h j e.
      rw ((claim_block-frame m id).1) (v.mapped h j (rw ((claim_block-frame m id).0) at e));
}

pub release_block-Invariant :
    (m : BlockManager) (id : ℕ) (owners : List ℕ)
    → Invariant m (id ∷ owners)
    → Invariant (release_block m id) owners
release_block-Invariant m id owners v = record {
  at = λ j. release_block-At m id owners j (v.at id) (v.at j);
  mapped = λ h j e.
      rw ((release_block-frame m id).1) (v.mapped h j (rw ((release_block-frame m id).0) at e));
}

-- What handing out one free block does.
pub record Allocated (m : BlockManager) (owners : List ℕ) : Type 0 where
  pub after : BlockManager
  pub id : ℕ
  pub runs : allocate_block m ≡ ok (after, id)
  pub valid : Invariant after (id ∷ owners)
  pub free_falls : length m.free_block_ids ≡ suc (length after.free_block_ids)
  pub same_size : after.block_size ≡ m.block_size
  pub same_blocks : length after.blocks ≡ length m.blocks
  pub fresh : count id owners ≡ 0

-- `_allocate_block` succeeds while a block is free, and hands out a block that nobody owns.
pub allocate_block-Allocated :
    (m : BlockManager) (owners free : List ℕ)
    → m.free_block_ids ≡ free
    → Invariant m owners
    → 0 < length free
    → Allocated m owners
unfolding allocate_block take_block
allocate_block-Allocated m owners [] e v h = absurd (omega arith)
allocate_block-Allocated m owners (id ∷ rest) e v h = record {
  after = take_block m id rest;
  id = id;
  runs = rw (e, allocate_block) refl;
  valid = take_block-Invariant m id rest owners e v;
  free_falls = ap length e ∙ ap suc (sym (ap length (take_block-frame m id rest).2));
  same_size = (take_block-frame m id rest).0;
  same_blocks = (take_block-frame m id rest).1;
  fresh = front_unowned m id rest owners e (v.at id);
}
