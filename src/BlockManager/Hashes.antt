-- ===== src/BlockManager/Hashes.antt =====
-- What `BlockManager::hash_blocks` of src/block_manager.cpp writes, against the chain of hashes of a
-- sequence's blocks.
use nano_v_llm_cpp.Base.{
  ℕ, zero, suc, ◌+◌, ◌-◌, ◌/◌, ◌≤◌, ◌<◌, ◌≡◌, ◌≢◌, refl, sym, ◌∙◌, ap, subst, inl, inr, List, [],
  ◌++◌, some, arith, ltb, ◌==◌, ==_iff, Bool-cases, length, length-set, set, get_or, get_or-set,
  count-append, count-get_or,
}
use nano_v_llm_cpp.Sequence.{Sequence, block}
use nano_v_llm_cpp.BlockManager.{
  BlockManager, new_block, block_at, update_block, put, hash_from, hash_blocks,
}
use nano_v_llm_cpp.BlockManager.Hash.{compute_hash, no_prefix}
use nano_v_llm_cpp.BlockManager.Invariant.{Invariant}
use nano_v_llm_cpp.BlockManager.Steps.{owned_in_range, hash_blocks-Invariant}

-- The hash of the first blocks of a sequence, each chained to the one before.
abbrev pub prefix_hash : ℕ → Sequence → ℕ → ℕ
prefix_hash bs seq zero = no_prefix
prefix_hash bs seq (suc i) = compute_hash (block bs seq i) (prefix_hash bs seq i)

abbrev pub entry : Sequence → ℕ → ℕ
entry seq i = get_or seq.block_table i 0

-- The first block that is not cached, and the first that the scheduled tokens do not fill.
abbrev pub start_block : BlockManager → Sequence → ℕ
start_block m seq = seq.num_cached_tokens / m.block_size

abbrev pub end_block : BlockManager → Sequence → ℕ
end_block m seq = (seq.num_cached_tokens + seq.num_scheduled_tokens) / m.block_size

-- From `m`, `after` differs by the blocks `start` and on, before `end`, of the sequence's table: each
-- has its tokens and the hash of the prefix that it ends, unless a later one of them is the same
-- block, and the map finds it by that hash, unless a later one of them has the same hash.
pub record Hashed (bs : ℕ) (m after : BlockManager) (seq : Sequence) (start end : ℕ) : Type 0 where
  pub published :
      (i : ℕ)
      → start ≤ i
      → i < end
      → ((k : ℕ) → i < k → k < end → entry seq k ≢ entry seq i)
      → block_at after (entry seq i)
        ≡ update_block (block_at m (entry seq i)) (prefix_hash bs seq (suc i)) (block bs seq i)
  pub mapped :
      (i : ℕ)
      → start ≤ i
      → i < end
      → ((k : ℕ) → i < k → k < end → prefix_hash bs seq (suc k) ≢ prefix_hash bs seq (suc i))
      → after.hash_to_block_id (prefix_hash bs seq (suc i)) ≡ some (entry seq i)
  pub other_blocks :
      (id : ℕ)
      → ((k : ℕ) → start ≤ k → k < end → entry seq k ≢ id)
      → block_at after id ≡ block_at m id
  pub other_hashes :
      (h : ℕ)
      → ((k : ℕ) → start ≤ k → k < end → prefix_hash bs seq (suc k) ≢ h)
      → after.hash_to_block_id h ≡ m.hash_to_block_id h

-- The blocks of the table are in range and know their number.
abbrev Numbered : BlockManager → Sequence → ℕ → Type 0
Numbered m seq end =
    (k : ℕ)
    → k < end
    → (entry seq k < length m.blocks) × ((block_at m (entry seq k)).block_id ≡ entry seq k)

-- What one round of the loop leaves.
module _ (bs : ℕ) (seq : Sequence) (i : ℕ) (m : BlockManager) where
  abbrev one : BlockManager
  one = record m {
    blocks =
        set m.blocks (entry seq i)
          (update_block (block_at m (entry seq i)) (prefix_hash bs seq (suc i)) (block bs seq i));
    hash_to_block_id =
        put (prefix_hash bs seq (suc i)) (some (block_at m (entry seq i)).block_id)
          m.hash_to_block_id;
  }

  one-same :
      entry seq i < length m.blocks
      → block_at one (entry seq i)
        ≡ update_block (block_at m (entry seq i)) (prefix_hash bs seq (suc i)) (block bs seq i)
  one-same h = ground (
    arith,
    get_or-set m.blocks (entry seq i) (entry seq i)
        (update_block (block_at m (entry seq i)) (prefix_hash bs seq (suc i)) (block bs seq i))
        (new_block 0),
  )

  one-other : (id : ℕ) → entry seq i ≢ id → block_at one id ≡ block_at m id
  one-other id n = ground (
    arith,
    n,
    get_or-set m.blocks (entry seq i) id
        (update_block (block_at m (entry seq i)) (prefix_hash bs seq (suc i)) (block bs seq i))
        (new_block 0),
  )

  -- The update hides what an earlier round wrote to the block.
  one-updated :
      (id h : ℕ) (toks : List ℕ)
      → entry seq i < length m.blocks
      → update_block (block_at one id) h toks ≡ update_block (block_at m id) h toks
  one-updated id h toks w = elim (Bool-cases (entry seq i == id)) [
    | inl y ↦
        let e = (==_iff (entry seq i) id).0 y in
        ap (λ j. update_block (block_at one j) h toks) (sym e)
        ∙ ap (λ b. update_block b h toks) (one-same w)
        ∙ ap (λ j. update_block (block_at m j) h toks) e
    | inr n ↦ ap (λ b. update_block b h toks) (one-other id (λ e. absurd (ground (arith, n, e))))
  ]

  one-Numbered : (end : ℕ) → i < end → Numbered m seq end → Numbered one seq end
  one-Numbered end g v k h = (
    omega (
      arith,
      (v k h).0,
      length-set m.blocks (entry seq i)
          (update_block (block_at m (entry seq i)) (prefix_hash bs seq (suc i)) (block bs seq i)),
    ),
    ap (λ b. b.block_id) (one-updated (entry seq k) 0 [] (v i g).0) ∙ (v k h).1,
  )

module _ (bs : ℕ) (seq : Sequence) where
  hash_from-Hashed :
      (rounds i : ℕ) (m : BlockManager)
      → Numbered m seq (i + rounds)
      → Hashed bs m (hash_from bs seq rounds i (prefix_hash bs seq i) m) seq i (i + rounds)
  unfolding hash_from
  hash_from-Hashed zero i m v = record {
    published = λ k g h. absurd (omega arith);
    mapped = λ k g h. absurd (omega arith);
    other_blocks = λ id n. refl;
    other_hashes = λ h n. refl;
  }
  hash_from-Hashed (suc rounds) i m v =
      let here = v i (omega arith) in
      let ih : Hashed bs (one bs seq i m)
          (hash_from bs seq rounds (i + 1) (prefix_hash bs seq (suc i)) (one bs seq i m)) seq
          (i + 1) (i + 1 + rounds) =
        subst
          (λ h.
            Hashed bs (one bs seq i m) (hash_from bs seq rounds (i + 1) h (one bs seq i m)) seq
              (i + 1) (i + 1 + rounds))
          (ap (prefix_hash bs seq) {x = i + 1} {y = suc i} (omega arith))
          (hash_from-Hashed rounds (i + 1) (one bs seq i m)
            (λ k h. one-Numbered bs seq i m (i + suc rounds) (omega arith) v k (omega arith))) in
      record {
        published = λ k g h later. elim (Bool-cases (i == k)) [
          | inl y ↦
              let e = (==_iff i k).0 y in
              ih.other_blocks (entry seq k) (λ j a b. later j (omega arith) (omega arith))
              ∙ ap (λ n. block_at (one bs seq i m) (entry seq n)) (sym e)
              ∙ one-same bs seq i m here.0
              ∙ ap
                  (λ n.
                    update_block (block_at m (entry seq n)) (prefix_hash bs seq (suc n))
                      (block bs seq n))
                  e
          | inr n ↦
              ih.published k (ground (arith, n)) (omega arith) (λ j a b. later j a (omega arith))
              ∙ one-updated bs seq i m (entry seq k) (prefix_hash bs seq (suc k)) (block bs seq k)
                  here.0
        ];
        mapped = λ k g h later. elim (Bool-cases (i == k)) [
          | inl y ↦
              let e = (==_iff i k).0 y in
              ih.other_hashes (prefix_hash bs seq (suc k))
                (λ j a b. later j (omega arith) (omega arith))
              ∙ ap (λ n. (one bs seq i m).hash_to_block_id (prefix_hash bs seq (suc n))) (sym e)
              ∙ ground (arith, here.1)
              ∙ ap (λ n. some (entry seq n)) e
          | inr n ↦ ih.mapped k (ground (arith, n)) (omega arith) (λ j a b. later j a (omega arith))
        ];
        other_blocks = λ id n.
            ih.other_blocks id (λ j a b. n j (omega arith) (omega arith))
            ∙ one-other bs seq i m id (n i (omega arith) (omega arith));
        other_hashes = λ h n.
            ih.other_hashes h (λ j a b. n j (omega arith) (omega arith))
            ∙ ground (arith, n i (omega arith) (omega arith));
      }

prefix_hash-no_prefix : (bs : ℕ) (seq : Sequence) (i : ℕ) → i ≡ 0 → no_prefix ≡ prefix_hash bs seq i
prefix_hash-no_prefix bs seq i e = ap (prefix_hash bs seq) {x = 0} (sym e)

-- The last of the first `i` blocks of the sequence has the hash of the prefix that it ends.
abbrev pub Chained : ℕ → BlockManager → Sequence → ℕ → Type 0
Chained bs m seq i = 0 < i → (block_at m (entry seq (i - 1))).hash ≡ prefix_hash bs seq i

-- What one call leaves, the next finds.
Hashed-Chained :
    (bs : ℕ) (m after : BlockManager) (seq : Sequence) (start end : ℕ)
    → start ≤ end
    → Hashed bs m after seq start end
    → Chained bs m seq start
    → Chained bs after seq end
Hashed-Chained bs m after seq start end le v before h = elim (Bool-cases (ltb start end)) [
  | inl y ↦
      ap (λ b. b.hash)
        (v.published (end - 1) (ground (arith, y)) (omega arith) (λ k g l. absurd (omega arith)))
      ∙ ap (prefix_hash bs seq) {x = suc (end - 1)} {y = end} (omega arith)
  | inr n ↦
      let same : start ≡ end = ground (arith, n, le) in
      ap (λ b. b.hash) (v.other_blocks (entry seq (end - 1)) (λ k g l. absurd (omega arith)))
      ∙ subst (Chained bs m seq) same before h
]

-- Where the table covers the blocks that the cached and scheduled tokens fill, and the block before
-- the first uncached one, if any, has the hash of the prefix that it ends, publishing writes to the
-- blocks from there up to the last one filled their tokens and the hashes of their prefixes, each
-- chained to the one before, and points the map at them. If a later one of them is the same block, or
-- has the same hash, that one counts. All other blocks and entries of the map, and the allocator's
-- invariant, are kept, and the last block filled, if any, has the hash of the prefix that it ends.
pub hash_blocks-Hashed :
    (bs : ℕ) (m : BlockManager) (seq : Sequence) (owners : List ℕ)
    → end_block m seq ≤ length seq.block_table
    → Invariant m (seq.block_table ++ owners)
    → Chained bs m seq (start_block m seq)
    → Hashed bs m (hash_blocks bs m seq) seq (start_block m seq) (end_block m seq)
      × Chained bs (hash_blocks bs m seq) seq (end_block m seq)
      × Invariant (hash_blocks bs m seq) (seq.block_table ++ owners)
unfolding hash_blocks
hash_blocks-Hashed bs m seq owners c v before =
    let start : ℕ = start_block m seq in
    let end : ℕ = end_block m seq in
    let ahead : start + (end - start) ≡ end = grind arith in
    let hashed : Hashed bs m (hash_blocks bs m seq) seq start end =
      subst (Hashed bs m (hash_blocks bs m seq) seq start) ahead (elim (Bool-cases (ltb 0 start)) [
        | inl y ↦
            rw (y, before (ground (arith, y)))
              (hash_from-Hashed bs seq (end - start) start m (numbered start end ahead c))
        | inr n ↦
            rw (n, prefix_hash-no_prefix bs seq start (ground (arith, n)))
              (hash_from-Hashed bs seq (end - start) start m (numbered start end ahead c))
      ]) in
    (
      hashed,
      Hashed-Chained bs m (hash_blocks bs m seq) seq start end (omega (arith, ahead)) hashed before,
      (hash_blocks-Invariant bs m seq owners c v).0,
    )
  where
    numbered :
        (start end : ℕ)
        → start + (end - start) ≡ end
        → end ≤ length seq.block_table
        → Numbered m seq (start + (end - start))
    numbered start end ahead c' k h =
        let id : ℕ = entry seq k in
        let within : id < length m.blocks = owned_in_range id (v.at id) (
          omega (
            arith,
            count-append id seq.block_table owners,
            count-get_or seq.block_table k 0 (omega arith),
          )) in
        (within, (v.at id).named within)
