-- ===== src/BlockManager.antt =====
-- src/block_manager.cpp and include/nanovllm/block_manager.hpp: the paged KV cache's allocator.
-- A `uint64_t` is a number below 2^64, with its wrap-around written out; `int64_t prefix == -1` is
-- the pattern 2^64 - 1. The hash map is a function into Option, the set of used ids its
-- characteristic function, the deque of free ids a list from front to back. A call that throws
-- returns `err`; what it changed before is not part of the result.
pub mod Hash
pub mod Invariant
pub mod Growth
pub mod Allocate
pub mod Steps
pub mod Hashes
pub mod Tests
use Hash.{compute_hash, no_prefix}
use nano_v_llm_cpp.Base.{
  ℕ, zero, suc, ◌+◌, ◌-◌, ◌*◌, ◌/◌, ◌%◌, Bool, true, false, not, ◌&&◌, ◌||◌, List, [], ◌∷◌, ◌++◌,
  reverse, Option, none, some, ◌==◌, ltb, leb, if◌then◌else◌, length, get_or, set, is_empty, erase,
}
use nano_v_llm_cpp.Result.{Result, ok, err, ◌>>=◌, no_free_blocks, table_not_empty, missing_hash}
use nano_v_llm_cpp.Sequence.{Sequence, num_blocks, block}

-- `int`, where it may fall below zero; `negsuc n` is -(n + 1).
pub data ℤ : Type 0 where
  pos : ℕ → ℤ
  negsuc : ℕ → ℤ

abbrev pub incr : ℤ → ℤ
incr (pos n) = pos (suc n)
incr (negsuc zero) = pos 0
incr (negsuc (suc n)) = negsuc n

abbrev pub decr : ℤ → ℤ
decr (pos zero) = negsuc 0
decr (pos (suc n)) = pos n
decr (negsuc n) = negsuc (suc n)

abbrev pub is_zero : ℤ → Bool
is_zero (pos zero) = true
is_zero _ = false

pub record Block : Type 0 where
  pub block_id : ℕ
  pub ref_count : ℤ
  pub hash : ℕ
  pub has_hash : Bool
  pub token_ids : List ℕ

abbrev pub update_block : Block → ℕ → List ℕ → Block
update_block b h ids = record b { hash = h; has_hash = true; token_ids = ids }

abbrev pub reset_block : Block → Block
reset_block b = record b { ref_count = pos 1; has_hash = false; hash = 0; token_ids = [] }

abbrev pub new_block : ℕ → Block
new_block i = record { block_id = i; ref_count = pos 0; hash = 0; has_hash = false; token_ids = [] }

pub record BlockManager : Type 0 where
  pub block_size : ℕ
  pub blocks : List Block
  pub hash_to_block_id : ℕ → Option ℕ
  pub free_block_ids : List ℕ
  pub used_block_ids : ℕ → Bool

-- `blocks_[id]`. Out of range is undefined in the source; `Invariant` rules it out.
abbrev pub block_at : BlockManager → ℕ → Block
block_at m id = get_or m.blocks id (new_block 0)

abbrev pub write_block : BlockManager → ℕ → Block → BlockManager
write_block m id b = record m { blocks = set m.blocks id b }

-- One entry of a map or of a set given anew.
abbrev pub put {ℓ} : {A : Type ℓ} → ℕ → A → (ℕ → A) → ℕ → A
put k v f j = if k == j then v else f j

abbrev pub same_tokens : List ℕ → List ℕ → Bool
same_tokens [] [] = true
same_tokens [] (y ∷ ys) = false
same_tokens (x ∷ xs) [] = false
same_tokens (x ∷ xs) (y ∷ ys) = x == y && same_tokens xs ys

-- `for (i = 0; i < num_blocks; ++i)` of the constructor: `rounds` are left, `i` is next.
build_blocks : ℕ → ℕ → List Block
build_blocks zero i = []
build_blocks (suc rounds) i = new_block i ∷ build_blocks rounds (i + 1)

build_ids : ℕ → ℕ → List ℕ
build_ids zero i = []
build_ids (suc rounds) i = i ∷ build_ids rounds (i + 1)

pub new_manager : ℕ → ℕ → BlockManager
unfolding build_blocks build_ids
new_manager num_blocks block_size = record {
  block_size = block_size;
  blocks = build_blocks num_blocks 0;
  hash_to_block_id = λ h. none;
  free_block_ids = build_ids num_blocks 0;
  used_block_ids = λ id. false;
}

abbrev pub free_count : BlockManager → ℕ
free_count m = length m.free_block_ids

-- The entry of a block that is about to be reused goes, if it still points to that block.
pub forget_hash : BlockManager → ℕ → BlockManager
forget_hash m id =
    let b = block_at m id in
    if not (b.hash == 0) || b.has_hash
    then elim (m.hash_to_block_id b.hash) [
      | none ↦ m
      | some j ↦
          if j == id then record m { hash_to_block_id = put b.hash none m.hash_to_block_id } else m
    ]
    else m

pub take_block : BlockManager → ℕ → List ℕ → BlockManager
take_block m id rest =
    let m' = forget_hash (record m { free_block_ids = rest }) id in
    record m' {
      blocks = set m'.blocks id (reset_block (block_at m' id));
      used_block_ids = put id true m'.used_block_ids;
    }

-- `_allocate_block`
pub allocate_block : BlockManager → Result (BlockManager × ℕ)
allocate_block m = elim m.free_block_ids [
  | [] ↦ err no_free_blocks
  | id ∷ rest ↦ ok (take_block m id rest, id)
]

-- `_deallocate_block`
pub deallocate_block : BlockManager → ℕ → BlockManager
deallocate_block m id = record m {
  used_block_ids = put id false m.used_block_ids;
  free_block_ids = m.free_block_ids ++ (id ∷ []);
}

-- The loop of `can_allocate` from block `i`, with `rounds` left, the hash of the blocks before, and
-- the counts of cached blocks and of blocks to be found. It breaks at the first block not cached.
pub scan : ℕ → BlockManager → Sequence → ℕ → ℕ → ℕ → ℕ → ℕ → ℕ × ℕ
scan bs m seq zero i h cached fresh = (cached, fresh)
scan bs m seq (suc rounds) i h cached fresh =
    let toks = block bs seq i in
    let uh = compute_hash toks h in
    elim (m.hash_to_block_id uh) [
      | none ↦ (cached, fresh)
      | some id ↦ elim (same_tokens (block_at m id).token_ids toks) [
        | false ↦ (cached, fresh)
        | true ↦
            scan bs m seq rounds (i + 1) uh (cached + 1)
              (if m.used_block_ids id then fresh - 1 else fresh)
      ]
    ]

-- `none` is the -1 of the source. The loop runs while `i + 1 < num_blocks`.
pub can_allocate : ℕ → BlockManager → Sequence → Option ℕ
unfolding scan
can_allocate bs m seq =
    let (cached, fresh) = scan bs m seq (num_blocks bs seq - 1) 0 no_prefix 0 (num_blocks bs seq) in
    if ltb (free_count m) fresh then none else some cached

-- A cached block gets one more owner, or leaves the free list for its first.
pub claim_block : BlockManager → ℕ → BlockManager
claim_block m id =
    let b = block_at m id in
    if m.used_block_ids id
    then record m { blocks = set m.blocks id (record b { ref_count = incr b.ref_count }) }
    else record m {
      blocks = set m.blocks id (record b { ref_count = pos 1 });
      free_block_ids = erase id m.free_block_ids;
      used_block_ids = put id true m.used_block_ids;
    }

-- The first loop of `allocate`: `hash_to_block_id_.at` throws where no entry is.
pub claim_cached : ℕ → Sequence → ℕ → ℕ → ℕ → BlockManager → List ℕ → Result (BlockManager × List ℕ)
claim_cached bs seq zero i h m table = ok (m, table)
claim_cached bs seq (suc rounds) i h m table =
    let uh = compute_hash (block bs seq i) h in
    elim (m.hash_to_block_id uh) [
      | none ↦ err missing_hash
      | some id ↦ claim_cached bs seq rounds (i + 1) uh (claim_block m id) (table ++ (id ∷ []))
    ]

-- The second loop of `allocate`.
pub take_fresh : ℕ → BlockManager → List ℕ → Result (BlockManager × List ℕ)
take_fresh zero m table = ok (m, table)
take_fresh (suc rounds) m table = elim (allocate_block m) [
  | err e ↦ err e
  | ok (m', id) ↦ take_fresh rounds m' (table ++ (id ∷ []))
]

pub allocate : ℕ → BlockManager → Sequence → ℕ → Result (BlockManager × Sequence)
allocate bs m seq num_cached_blocks =
    if not (is_empty seq.block_table) then err table_not_empty else do
      (m1, table1) ← claim_cached bs seq num_cached_blocks 0 no_prefix m seq.block_table
      (m2, table2) ← take_fresh (num_blocks bs seq - num_cached_blocks) m1 table1
      ok (
        m2,
        record seq { block_table = table2; num_cached_tokens = num_cached_blocks * m.block_size },
      )

-- One round of `deallocate`.
pub release_block : BlockManager → ℕ → BlockManager
unfolding deallocate_block
release_block m id =
    let b = block_at m id in
    let m' = write_block m id (record b { ref_count = decr b.ref_count }) in
    if is_zero (decr b.ref_count) then deallocate_block m' id else m'

pub release_all : BlockManager → List ℕ → BlockManager
release_all m [] = m
release_all m (id ∷ ids) = release_all (release_block m id) ids

unfoldable pub deallocate : BlockManager → Sequence → BlockManager × Sequence
deallocate m seq = (
  release_all m (reverse seq.block_table),
  record seq { num_cached_tokens = 0; block_table = [] },
)

-- A sequence whose last token begins a block needs one more.
abbrev pub needs_block : BlockManager → Sequence → Bool
needs_block m seq = seq.num_tokens % m.block_size == 1

unfoldable pub can_append : BlockManager → Sequence → Bool
can_append m seq = leb (if needs_block m seq then 1 else 0) (free_count m)

pub may_append : BlockManager → Sequence → Result (BlockManager × Sequence)
may_append m seq =
    if needs_block m seq
    then (do
      (m', id) ← allocate_block m
      ok (m', record seq { block_table = seq.block_table ++ (id ∷ []) }))
    else ok (m, seq)

-- The loop of `hash_blocks` over blocks `i` and on. The index into the table is in range where
-- the table covers the tokens.
pub hash_from : ℕ → Sequence → ℕ → ℕ → ℕ → BlockManager → BlockManager
hash_from bs seq zero i h m = m
hash_from bs seq (suc rounds) i h m =
    let id = get_or seq.block_table i 0 in
    let toks = block bs seq i in
    let uh = compute_hash toks h in
    let b = update_block (block_at m id) uh toks in
    hash_from bs seq rounds (i + 1) uh (record m {
      blocks = set m.blocks id b;
      hash_to_block_id = put uh (some b.block_id) m.hash_to_block_id;
    })

pub hash_blocks : ℕ → BlockManager → Sequence → BlockManager
hash_blocks bs m seq =
    let start = seq.num_cached_tokens / m.block_size in
    let end = (seq.num_cached_tokens + seq.num_scheduled_tokens) / m.block_size in
    let h =
      if ltb 0 start then (block_at m (get_or seq.block_table (start - 1) 0)).hash else no_prefix in
    hash_from bs seq (end - start) start h m
