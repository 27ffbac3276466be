-- ===== src/BlockManager/Steps.antt =====
-- The constructor, `deallocate`, `may_append` and `hash_blocks` of src/block_manager.cpp against the
-- allocator's invariant.
use nano_v_llm_cpp.Base.{
  ℕ, zero, suc, ◌+◌, ◌/◌, ◌≤◌, ◌<◌, ◌≡◌, refl, ◌∙◌, ap, inl, inr, true, List, [], ◌∷◌, ◌++◌,
  reverse, some, arith, ltb, if◌then◌else◌, Bool-cases, length, get_or, set, count, length-append,
  length-set, get_or-set, count-append, count-reverse, count-get_or,
}
use nano_v_llm_cpp.Sequence.{Sequence, block}
use nano_v_llm_cpp.BlockManager.Hash.{compute_hash}
use nano_v_llm_cpp.BlockManager.Invariant.{
  At, Invariant, Invariant-owners, allocate_block-Allocated, release_block-Invariant,
  release_block-frame,
}
use nano_v_llm_cpp.BlockManager.Growth.{push_table}
use nano_v_llm_cpp.Result.{ok}
use nano_v_llm_cpp.BlockManager.{
  BlockManager, new_block, update_block, block_at, put, needs_block, can_append, may_append,
  release_all, deallocate, hash_from, hash_blocks, new_manager, build_blocks, build_ids,
}

length-build_blocks : (n i : ℕ) → length (build_blocks n i) ≡ n
unfolding build_blocks
length-build_blocks zero i = refl
length-build_blocks (suc n) i = ap suc (length-build_blocks n (i + 1))

count-build_ids :
    (n i j : ℕ)
    → count j (build_ids n i) ≡ (if ltb j i then 0 else (if ltb j (i + n) then 1 else 0))
unfolding build_ids
count-build_ids zero i j = ground arith
count-build_ids (suc n) i j = ground (arith, count-build_ids n (i + 1) j)

named-build_blocks :
    (n i j : ℕ) → j < n → (get_or (build_blocks n i) j (new_block 0)).block_id ≡ i + j
unfolding build_blocks
named-build_blocks zero i j h = absurd (omega arith)
named-build_blocks (suc n) i zero h = omega arith
named-build_blocks (suc n) i (suc j) h = omega (arith, named-build_blocks n (i + 1) j (omega arith))

-- A new manager has every block free and none owned.
pub new_manager-Invariant : (n bs : ℕ) → Invariant (new_manager n bs) []
unfolding new_manager
new_manager-Invariant n bs = record { at = λ id. at_id id; mapped = λ h id e. absurd (cc) }
  where
    at_id : (id : ℕ) → At (new_manager n bs) [] id
    at_id id =
        ground (arith, count-build_ids n 0 id, length-build_blocks n 0, named-build_blocks n 0 id)

release_all-Invariant :
    (ids owners : List ℕ) (m : BlockManager)
    → Invariant m (ids ++ owners)
    → Invariant (release_all m ids) owners
unfolding release_all
release_all-Invariant [] owners m v = v
release_all-Invariant (id ∷ ids) owners m v =
    release_all-Invariant ids owners _ (release_block-Invariant m id (ids ++ owners) v)

pub release_all-frame :
    (ids : List ℕ) (m : BlockManager)
    → ((release_all m ids).block_size ≡ m.block_size)
      × (length (release_all m ids).blocks ≡ length m.blocks)
unfolding release_all
release_all-frame [] m = (refl, refl)
release_all-frame (id ∷ ids) m =
    let (p, q) = release_all-frame ids _ in
    (p ∙ (release_block-frame m id).2, q ∙ (release_block-frame m id).1)

-- Under the invariant, freeing a sequence takes its references away and no others: a block that
-- only it owned is on the free list, once, and one that others share stays used. The sequence ends
-- with no block and no cached token, and the cache keeps its size.
pub deallocate-Invariant :
    (m : BlockManager) (seq : Sequence) (owners : List ℕ)
    → Invariant m (seq.block_table ++ owners)
    → Invariant (deallocate m seq).0 owners
      × ((deallocate m seq).1 ≡ record seq { num_cached_tokens = 0; block_table = [] })
      × ((deallocate m seq).0.block_size ≡ m.block_size)
      × (length (deallocate m seq).0.blocks ≡ length m.blocks)
unfolding deallocate
deallocate-Invariant m seq owners v = (
  release_all-Invariant (reverse seq.block_table) owners m
      (Invariant-owners _ _ (λ id. turned id) v),
  refl,
  (release_all-frame (reverse seq.block_table) m).0,
  (release_all-frame (reverse seq.block_table) m).1,
)
  where
    turned :
        (id : ℕ)
        → count id (seq.block_table ++ owners) ≡ count id (reverse seq.block_table ++ owners)
    turned id = omega (
      arith,
      count-append id seq.block_table owners,
      count-append id (reverse seq.block_table) owners,
      count-reverse id seq.block_table,
    )

-- What `may_append` leaves: a table longer by one block if one was needed, the sequence otherwise
-- as it was.
pub record Appended (m : BlockManager) (seq : Sequence) (owners : List ℕ) : Type 0 where
  pub after : BlockManager
  pub table : List ℕ
  pub runs : may_append m seq ≡ ok (after, record seq { block_table = table })
  pub valid : Invariant after (table ++ owners)
  pub grown : length table ≡ length seq.block_table + (if needs_block m seq then 1 else 0)
  pub same_size : after.block_size ≡ m.block_size
  pub same_blocks : length after.blocks ≡ length m.blocks

-- Under the invariant, where `can_append` says yes, `may_append` throws nothing, adds a block to
-- the table exactly where the last token begins one, and keeps the invariant.
pub may_append-can_append :
    (m : BlockManager) (seq : Sequence) (owners : List ℕ)
    → Invariant m (seq.block_table ++ owners)
    → can_append m seq ≡ true
    → Appended m seq owners
unfolding can_append may_append
may_append-can_append m seq owners v e = elim (Bool-cases (needs_block m seq)) [
  | inr n ↦ record {
    after = m;
    table = seq.block_table;
    runs = ground arith;
    valid = v;
    grown = ground arith;
    same_size = refl;
    same_blocks = refl;
  }
  | inl y ↦
      let a =
        allocate_block-Allocated m (seq.block_table ++ owners) m.free_block_ids refl v
          (ground arith) in
      record {
        after = a.after;
        table = seq.block_table ++ (a.id ∷ []);
        runs = ground (arith, a.runs);
        valid = push_table a.id seq.block_table owners a.valid;
        grown = ground (arith, length-append seq.block_table (a.id ∷ []));
        same_size = a.same_size;
        same_blocks = a.same_blocks;
      }
]

module _ (m : BlockManager) (id h : ℕ) (toks : List ℕ) (owners : List ℕ) where
  -- One round of the loop of `hash_blocks`.
  abbrev hashed : BlockManager
  hashed = record m {
    blocks = set m.blocks id (update_block (block_at m id) h toks);
    hash_to_block_id = put h (some (block_at m id).block_id) m.hash_to_block_id;
  }

  hashed-At : (j : ℕ) → At m owners j → At hashed owners j
  hashed-At j a = ground (
    arith,
    get_or-set m.blocks id j (update_block (block_at m id) h toks) (new_block 0),
    length-set m.blocks id (update_block (block_at m id) h toks),
  )

  hashed-mapped :
      (k j : ℕ)
      → id < length m.blocks
      → At m owners id
      → (m.hash_to_block_id k ≡ some j → j < length m.blocks)
      → hashed.hash_to_block_id k ≡ some j
      → j < length hashed.blocks
  hashed-mapped k j within a old e =
      ground (arith, length-set m.blocks id (update_block (block_at m id) h toks))

  hashed-Invariant : id < length m.blocks → Invariant m owners → Invariant hashed owners
  hashed-Invariant within v = record {
    at = λ j. hashed-At j (v.at j);
    mapped = λ k j. hashed-mapped k j within (v.at id) (v.mapped k j);
  }

-- A block that stands in an owner's table is in range.
pub owned_in_range :
    {m : BlockManager} {owners : List ℕ} (id : ℕ)
    → At m owners id
    → 0 < count id owners
    → id < length m.blocks
owned_in_range {m} id a h = elim (Bool-cases (m.used_block_ids id)) [
  | inl y ↦ a.used_in y
  | inr n ↦ absurd (omega (arith, a.unowned n))
]

hash_from-Invariant :
    (bs : ℕ) (seq : Sequence) (rounds i h : ℕ) (m : BlockManager) (owners : List ℕ)
    → i + rounds ≤ length seq.block_table
    → Invariant m (seq.block_table ++ owners)
    → Invariant (hash_from bs seq rounds i h m) (seq.block_table ++ owners)
      × ((hash_from bs seq rounds i h m).block_size ≡ m.block_size)
      × (length (hash_from bs seq rounds i h m).blocks ≡ length m.blocks)
unfolding hash_from
hash_from-Invariant bs seq zero i h m owners c v = (v, refl, refl)
hash_from-Invariant bs seq (suc rounds) i h m owners c v =
    let id = get_or seq.block_table i 0 in
    let within : id < length m.blocks = owned_in_range id (v.at id) (
      omega (
        arith,
        count-append id seq.block_table owners,
        count-get_or seq.block_table i 0 (omega arith),
      )) in
    let uh = compute_hash (block bs seq i) h in
    let (p, q, r) =
      hash_from-Invariant bs seq rounds (i + 1) uh (hashed m id uh (block bs seq i) owners) owners
        (omega arith)
        (hashed-Invariant m id uh (block bs seq i) (seq.block_table ++ owners) within v) in
    (p, q, r ∙ length-set m.blocks id (update_block (block_at m id) uh (block bs seq i)))

-- Where the table covers the blocks that the cached and scheduled tokens fill, publishing their
-- hashes keeps the invariant and the size of the cache.
pub hash_blocks-Invariant :
    (bs : ℕ) (m : BlockManager) (seq : Sequence) (owners : List ℕ)
    → (seq.num_cached_tokens + seq.num_scheduled_tokens) / m.block_size ≤ length seq.block_table
    → Invariant m (seq.block_table ++ owners)
    → Invariant (hash_blocks bs m seq) (seq.block_table ++ owners)
      × ((hash_blocks bs m seq).block_size ≡ m.block_size)
      × (length (hash_blocks bs m seq).blocks ≡ length m.blocks)
unfolding hash_blocks
hash_blocks-Invariant bs m seq owners c v =
    hash_from-Invariant bs seq _ _ _ m owners (grind arith) v

pub new_manager-block_size : (n bs : ℕ) → (new_manager n bs).block_size ≡ bs
unfolding new_manager
new_manager-block_size n bs = refl

pub new_manager-block_count : (n bs : ℕ) → length (new_manager n bs).blocks ≡ n
unfolding new_manager
new_manager-block_count n bs = length-build_blocks n 0
