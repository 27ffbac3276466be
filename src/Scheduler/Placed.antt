-- ===== src/Scheduler/Placed.antt =====
-- The middle of a prefill round of `Scheduler::schedule` of src/scheduler.cpp: the table of a sequence
-- that is admitted.
use nano_v_llm_cpp.Base.{
  ℕ, suc, ◌+◌, ◌-◌, ◌*◌, ◌/◌, ◌≤◌, ◌<◌, ◌≡◌, ap, subst, ◌⊎◌, inl, inr, refl, List, [], ◌∷◌, ◌++◌,
  true, false, some, arith, is_empty, length,
}
use nano_v_llm_cpp.Result.{ok}
use nano_v_llm_cpp.Sequence.{Sequence, num_blocks}
use nano_v_llm_cpp.BlockManager.{BlockManager, can_allocate}
use nano_v_llm_cpp.BlockManager.Invariant.{Invariant}
use nano_v_llm_cpp.BlockManager.Allocate.{allocate-can_allocate}
use nano_v_llm_cpp.Scheduler.{Scheduler, admit, place}
use nano_v_llm_cpp.Scheduler.Shapes.{IsWaiting}
use native.Mathlib.Nat.{div-mul-le_self, le-div_iff_mul-le}

-- Some token is left when not all of the blocks come from the cache.
cached-lt-tokens : (bs n k : ℕ) → 0 < bs → suc k ≤ (n + bs - 1) / bs → 0 < n → k * bs < n
cached-lt-tokens bs n k pos h hn = grind (arith, div-mul-le_self (n + bs - 1) bs)

pub record Placed (bs : ℕ) (s : Scheduler) (seq : Sequence) (owners : List ℕ) (n todo : ℕ)
    : Type 0 where
  pub after : BlockManager
  pub table : List ℕ
  pub cached : ℕ
  pub runs :
      place bs s.block_manager seq n
      ≡ ok (after, record seq { block_table = table; num_cached_tokens = cached })
  pub valid : Invariant after (table ++ owners)
  pub covers : length table ≡ num_blocks bs seq
  pub left : cached + todo ≡ seq.num_tokens
  pub some_left : 0 < todo
  pub same_size : after.block_size ≡ s.block_manager.block_size
  pub same_blocks : length after.blocks ≡ length s.block_manager.blocks

empty_cases :
    (xs : List ℕ) → ((xs ≡ []) × (is_empty xs ≡ true)) ⊎ ((is_empty xs ≡ false) × (0 < length xs))
empty_cases [] = inl (refl, refl)
empty_cases (x ∷ xs) = inr (refl, omega arith)

blocks-pos : (bs n : ℕ) → 0 < bs → 0 < n → 0 < (n + bs - 1) / bs
blocks-pos bs n pos h = (le-div_iff_mul-le pos).1 (omega arith)

pub admit-Placed :
    (bs : ℕ) (s : Scheduler) (seq : Sequence) (owners : List ℕ) (n todo : ℕ)
    → 1 < bs
    → s.block_size ≡ bs
    → s.block_manager.block_size ≡ bs
    → IsWaiting bs seq
    → Invariant s.block_manager (seq.block_table ++ owners)
    → admit bs s seq ≡ some (n, todo)
    → Placed bs s seq owners n todo
unfolding admit
admit-Placed bs s seq owners n todo pos e1 e2 w v e = elim (empty_cases seq.block_table) [
  | inl (none_yet, t) ↦
      let parts : (can_allocate bs s.block_manager seq ≡ some n)
          × (todo ≡ seq.num_tokens - n * s.block_size) =
        ground arith in
      let v' : Invariant s.block_manager owners =
        subst (λ xs. Invariant s.block_manager (xs ++ owners)) none_yet v in
      let a =
        allocate-can_allocate bs s.block_manager seq owners n v' none_yet
          (blocks-pos bs seq.num_tokens (omega arith) w.live.nonempty) parts.0 in
      let few = cached-lt-tokens bs seq.num_tokens n (omega arith) a.few_cached w.live.nonempty in
      record {
        after = a.after;
        table = a.table;
        cached = n * s.block_manager.block_size;
        runs = rw t a.runs;
        valid = a.valid;
        covers = a.covers;
        left = rw e2 (omega (arith, parts.1, few, ap (λ k. n * k) e1));
        some_left = omega (arith, parts.1, few, ap (λ k. n * k) e1);
        same_size = a.same_size;
        same_blocks = a.same_blocks;
      }
  | inr (t, some_blocks) ↦
      let parts : (n ≡ 0) × (todo ≡ seq.num_tokens - seq.num_cached_tokens) = ground arith in
      record {
        after = s.block_manager;
        table = seq.block_table;
        cached = seq.num_cached_tokens;
        runs = rw t refl;
        valid = v;
        covers = ground arith;
        left = omega (arith, parts.1);
        some_left = omega (arith, parts.1);
        same_size = refl;
        same_blocks = refl;
      }
]
