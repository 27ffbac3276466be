-- ===== src/BlockManager/Allocate.antt =====
-- `can_allocate` against `allocate` of src/block_manager.cpp.
use nano_v_llm_cpp.Base.{
  ℕ, zero, suc, ◌+◌, ◌-◌, ◌*◌, ◌≤◌, ◌<◌, ◌≡◌, ◌≢◌, refl, ◌∙◌, inl, inr, true, List, [], ◌∷◌, ◌++◌,
  none, some, arith, if◌then◌else◌, Bool-cases, Option-cases, length, length-append,
}
use nano_v_llm_cpp.Sequence.{Sequence, num_blocks, block}
use nano_v_llm_cpp.BlockManager.Hash.{compute_hash, no_prefix}
use nano_v_llm_cpp.BlockManager.Invariant.{Invariant, claim_block-Invariant, claim_block-frame}
use nano_v_llm_cpp.Result.{ok}
use nano_v_llm_cpp.BlockManager.{
  BlockManager, block_at, same_tokens, scan, can_allocate, claim_block, claim_cached, take_fresh,
  allocate, free_count,
}
use nano_v_llm_cpp.BlockManager.Growth.{
  Grown, claim_block-free, claim_block-keeps_used, push_table, take_fresh-Grown,
}

-- `m` stands between the manager that was scanned, `m0`, and the end of the first loop.
record Between (m0 m : BlockManager) : Type 0 where
  same_map : m.hash_to_block_id ≡ m0.hash_to_block_id
  keeps_used : (id : ℕ) → m0.used_block_ids id ≡ true → m.used_block_ids id ≡ true

Between-claim : (m0 m : BlockManager) (id : ℕ) → Between m0 m → Between m0 (claim_block m id)
Between-claim m0 m id b = record {
  same_map = (claim_block-frame m id).0 ∙ b.same_map;
  keeps_used = λ j h. claim_block-keeps_used m id j (b.keeps_used j h);
}

-- The claims that a scan from block `i` promises: `k` of them succeed, and leave `room`.
record Claims (bs : ℕ) (seq : Sequence) (i h : ℕ) (m : BlockManager) (table owners : List ℕ)
    (cached fresh rounds : ℕ) (out : ℕ × ℕ) : Type 0 where
  k : ℕ
  after : BlockManager
  table' : List ℕ
  found : out.0 ≡ cached + k
  within : k ≤ rounds
  runs : claim_cached bs seq k i h m table ≡ ok (after, table')
  grown : Grown m table owners k after table'
  room : length m.free_block_ids + fresh + cached ≤ length after.free_block_ids + out.0 + out.1

module _ (bs : ℕ) (seq : Sequence) (m0 : BlockManager) (owners : List ℕ) where
  Claims-stop :
      (i h : ℕ) (m : BlockManager) (table : List ℕ) (cached fresh rounds : ℕ)
      → Invariant m (table ++ owners)
      → Claims bs seq i h m table owners cached fresh rounds (cached, fresh)
  unfolding claim_cached
  Claims-stop i h m table cached fresh rounds v = record {
    k = 0;
    after = m;
    table' = table;
    found = omega arith;
    within = omega arith;
    runs = refl;
    grown = record { valid = v; grown = omega arith; same_size = refl; same_blocks = refl };
    room = omega arith;
  }

  Claims-step :
      (i h : ℕ) (m : BlockManager) (table : List ℕ) (cached fresh rounds id : ℕ) (out : ℕ × ℕ)
      → Between m0 m
      → m0.hash_to_block_id (compute_hash (block bs seq i) h) ≡ some id
      → suc rounds ≤ fresh
      → Claims bs seq
          (i + 1)
          (compute_hash (block bs seq i) h)
          (claim_block m id)
          (table ++ (id ∷ []))
          owners
          (cached + 1)
          (if m0.used_block_ids id then fresh - 1 else fresh)
          rounds
          out
      → Claims bs seq i h m table owners cached fresh (suc rounds) out
  unfolding claim_cached
  Claims-step i h m table cached fresh rounds id out b e some_fresh c = record {
    k = suc c.k;
    after = c.after;
    table' = c.table';
    found = omega (arith, c.found);
    within = omega (arith, c.within);
    runs = rw (b.same_map, e, claim_cached) c.runs;
    grown = record {
      valid = c.grown.valid;
      grown = omega (arith, c.grown.grown, length-append table (id ∷ []));
      same_size = c.grown.same_size ∙ (claim_block-frame m id).2;
      same_blocks = c.grown.same_blocks ∙ (claim_block-frame m id).1;
    };
    room = ground (arith, c.room, claim_block-free m id, b.keeps_used id);
  }

  -- The first loop follows the scan.
  scan-Claims :
      (rounds i h : ℕ) (m : BlockManager) (table : List ℕ) (cached fresh : ℕ)
      → Between m0 m
      → Invariant m (table ++ owners)
      → rounds ≤ fresh
      → Claims bs seq i h m table owners cached fresh rounds
          (scan bs m0 seq rounds i h cached fresh)
  unfolding scan
  scan-Claims zero i h m table cached fresh b v f = Claims-stop i h m table cached fresh 0 v
  scan-Claims (suc rounds) i h m table cached fresh b v f =
      elim (Option-cases (m0.hash_to_block_id (compute_hash (block bs seq i) h))) [
        | inl e ↦ rw (e, scan) (Claims-stop i h m table cached fresh (suc rounds) v)
        | inr (id, e) ↦
            elim (Bool-cases (same_tokens (block_at m0 id).token_ids (block bs seq i))) [
              | inl s ↦
                  rw (e, scan, s)
                    (Claims-step i h m table cached fresh rounds id _ b e f (
                      scan-Claims rounds (i + 1) (compute_hash (block bs seq i) h)
                        (claim_block m id) (table ++ (id ∷ [])) (cached + 1)
                        (if m0.used_block_ids id then fresh - 1 else fresh)
                        (Between-claim m0 m id b)
                        (push_table id table owners (
                          claim_block-Invariant m id (table ++ owners)
                            (v.mapped (compute_hash (block bs seq i) h) id (rw (b.same_map) e)) v))
                        (ground arith)))
              | inr n ↦ rw (e, scan, n) (Claims-stop i h m table cached fresh (suc rounds) v)
            ]
      ]

-- The whole of `allocate`, as a caller sees it.
pub record AllocatedTable (bs : ℕ) (m : BlockManager) (seq : Sequence) (n : ℕ) (owners : List ℕ)
    : Type 0 where
  pub after : BlockManager
  pub table : List ℕ
  pub runs :
      allocate bs m seq n
      ≡ ok (after, record seq { block_table = table; num_cached_tokens = n * m.block_size })
  pub valid : Invariant after (table ++ owners)
  pub covers : length table ≡ num_blocks bs seq
  pub few_cached : suc n ≤ num_blocks bs seq
  pub same_size : after.block_size ≡ m.block_size
  pub same_blocks : length after.blocks ≡ length m.blocks

can_allocate-some :
    (bs : ℕ) (m : BlockManager) (seq : Sequence) (n : ℕ)
    → can_allocate bs m seq ≡ some n
    → let out = scan bs m seq (num_blocks bs seq - 1) 0 no_prefix 0 (num_blocks bs seq) in
      (out.0 ≡ n) × (out.1 ≤ length m.free_block_ids)
unfolding can_allocate
can_allocate-some bs m seq n e = ground arith

allocate_runs :
    (bs : ℕ) (m m1 m2 : BlockManager) (seq : Sequence) (n k : ℕ) (table1 table2 : List ℕ)
    → seq.block_table ≡ []
    → k ≡ n
    → claim_cached bs seq k 0 no_prefix m [] ≡ ok (m1, table1)
    → take_fresh (num_blocks bs seq - k) m1 table1 ≡ ok (m2, table2)
    → allocate bs m seq n
      ≡ ok (m2, record seq { block_table = table2; num_cached_tokens = n * m.block_size })
unfolding allocate
allocate_runs bs m m1 m2 seq n k table1 table2 e same c t = rw (← same) (ground (arith, c, t))

-- If the invariant holds and `can_allocate` returns `n` for a sequence that has a token and no
-- block, then `allocate` with that `n` throws nothing: it gives the sequence a table of as many
-- blocks as its tokens take, fewer than all of them from the cache, and every block still counts
-- its owners.
pub allocate-can_allocate :
    (bs : ℕ) (m : BlockManager) (seq : Sequence) (owners : List ℕ) (n : ℕ)
    → Invariant m owners
    → seq.block_table ≡ []
    → 0 < num_blocks bs seq
    → can_allocate bs m seq ≡ some n
    → AllocatedTable bs m seq n owners
allocate-can_allocate bs m seq owners n v empty_table some_blocks e =
    let (found, enough) = can_allocate-some bs m seq n e in
    let c =
      scan-Claims bs seq m owners (num_blocks bs seq - 1) 0 no_prefix m [] 0 (num_blocks bs seq)
        (record { same_map = refl; keeps_used = λ id h. h }) v (omega arith) in
    let (m', table, runs, g, _) =
      take_fresh-Grown (num_blocks bs seq - c.k) c.after c.table' owners c.grown.valid
        (omega (arith, c.room, enough, c.found)) in
    record {
      after = m';
      table = table;
      runs =
          allocate_runs bs m c.after m' seq n c.k c.table' table empty_table
            (omega (arith, c.found, found)) c.runs runs;
      valid = g.valid;
      covers = omega (arith, g.grown, c.grown.grown, c.within);
      few_cached = omega (arith, c.within, c.found, found);
      same_size = g.same_size ∙ c.grown.same_size;
      same_blocks = g.same_blocks ∙ c.grown.same_blocks;
    }

scan-le :
    (bs rounds i h cached fresh : ℕ) (m : BlockManager) (seq : Sequence)
    → (scan bs m seq rounds i h cached fresh).1 ≤ fresh
unfolding scan
scan-le bs zero i h cached fresh m seq = omega arith
scan-le bs (suc rounds) i h cached fresh m seq = ground (
  arith,
  scan-le bs rounds (i + 1) (compute_hash (block bs seq i) h) (cached + 1) fresh m seq,
  scan-le bs rounds (i + 1) (compute_hash (block bs seq i) h) (cached + 1) (fresh - 1) m seq,
)

-- A sequence can be allocated where as many blocks are free as it takes, cached or not.
pub can_allocate-fits :
    (bs : ℕ) (m : BlockManager) (seq : Sequence)
    → num_blocks bs seq ≤ free_count m
    → can_allocate bs m seq ≢ none
unfolding can_allocate
can_allocate-fits bs m seq h e =
    ground (arith, scan-le bs (num_blocks bs seq - 1) 0 no_prefix 0 (num_blocks bs seq) m seq)
