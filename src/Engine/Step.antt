-- ===== src/Engine/Step.antt =====
-- `LLMEngine::step` of src/llm_engine.cpp: schedule, run, postprocess, as one step from rest to rest.
use nano_v_llm_cpp.Base.{
  ℕ, suc, ◌*◌, ◌≤◌, ◌<◌, ◌≡◌, ◌∙◌, sym, ap, inl, inr, refl, List, [], ◌∷◌, ◌++◌, Bool, true, false,
  map, some, arith, Bool-cases, length, get_or, is_empty, hit_eq, count, count-get_or,
}
use nano_v_llm_cpp.Result.{ok, ◌>>=◌}
use nano_v_llm_cpp.Sequence.{Sequence, num_blocks}
use nano_v_llm_cpp.BlockManager.{BlockManager}
use nano_v_llm_cpp.BlockManager.Invariant.{Invariant}
use nano_v_llm_cpp.Scheduler.{Scheduler}
use nano_v_llm_cpp.Scheduler.Owners.{owners, owners-focus}
use nano_v_llm_cpp.Scheduler.Shapes.{IsFull, Phase, full-runs}
use nano_v_llm_cpp.Scheduler.Total.{schedule-Returned}
use nano_v_llm_cpp.Scheduler.Postprocess.{postprocess-Phase}
use nano_v_llm_cpp.Runner.{Context}
use nano_v_llm_cpp.Runner.Positions.{InRange}
use nano_v_llm_cpp.Runner.Batch.{IsPrepared}
use nano_v_llm_cpp.Runner.Prepare.{IsDecodable}
use nano_v_llm_cpp.Runner.Run.{AllReady, run-one_token_each}
use nano_v_llm_cpp.Engine.{LlmEngine, Outputs, report, run_batch, step}

-- An owned block is a block of the cache.
owned-in_range :
    (m : BlockManager) (owners : List ℕ) (id : ℕ)
    → Invariant m owners
    → 0 < count id owners
    → id < length m.blocks
owned-in_range m owners id v h = elim (Bool-cases (m.used_block_ids id)) [
  | inl u ↦ (v.at id).used_in u
  | inr n ↦ absurd (omega (arith, (v.at id).unowned n))
]

module _ (bs : ℕ) (batch : List ℕ) (s : Scheduler) (v : Phase bs batch s) where
  table-InRange :
      (p : ℕ) → 0 < count p batch → InRange (length s.block_manager.blocks) (s.store p).block_table
  table-InRange p h i g =
      owned-in_range s.block_manager _ (get_or (s.store p).block_table i 0) v.queues.allocator (
        omega (
          arith,
          owners-focus s.store p (get_or (s.store p).block_table i 0) (s.waiting ++ s.running)
              (v.queued p h),
          count-get_or (s.store p).block_table i 0 g,
        ))

  prepared : (p : ℕ) → 0 < count p batch → IsPrepared bs (length s.block_manager.blocks) (s.store p)
  prepared p h = record {
    big = v.queues.positive;
    some_scheduled = (v.ready p h).some_scheduled;
    within = (v.ready p h).within;
    table = (v.ready p h).table;
    in_range = table-InRange p h;
  }

  decodable :
      (p : ℕ) → 0 < count p batch → IsDecodable bs (length s.block_manager.blocks) (s.store p)
  decodable p h = record {
    big = v.queues.positive;
    some_tokens = (v.ready p h).live.nonempty;
    table = (v.ready p h).table;
    in_range = table-InRange p h;
  }

  all_ready :
      (is_prefill : Bool) (ps : List ℕ)
      → ((p : ℕ) → 0 < count p ps → 0 < count p batch)
      → AllReady is_prefill bs (length s.block_manager.blocks) (map s.store ps)
  all_ready true [] h = _
  all_ready false [] h = _
  all_ready true (p ∷ ps) h = (
    prepared p (h p (omega (arith, hit_eq p p refl))),
    all_ready true ps (λ q g. h q (omega arith)),
  )
  all_ready false (p ∷ ps) h = (
    decodable p (h p (omega (arith, hit_eq p p refl))),
    all_ready false ps (λ q g. h q (omega arith)),
  )

length-map : (f : ℕ → Sequence) (xs : List ℕ) → length (map f xs) ≡ length xs
length-map f [] = refl
length-map f (x ∷ xs) = ap suc (length-map f xs)

-- A batch from `schedule` runs and comes back.
run_batch-Phase :
    {L : Type 0} (bs : ℕ) (e : LlmEngine L) (s : Scheduler) (batch : List ℕ) (is_prefill : Bool)
    → Phase bs batch s
    → 0 < length batch
    → 0 < e.vocab_size
    → e.num_kvcache_blocks ≡ length s.block_manager.blocks
    → ((ctx : Context) → ctx.num_seqs * e.vocab_size ≤ length (e.model.forward_logits ctx))
    → (is_prefill ≡ false → (p : ℕ) → 0 < count p batch → IsFull bs (s.store p))
    → (e' : LlmEngine L) × (out : Outputs) × (run_batch bs e s batch is_prefill ≡ ok (e', out))
      × Phase bs [] e'.scheduler
unfolding run_batch
run_batch-Phase bs e s batch is_prefill v some_seqs vocab same rows full =
    let ready : AllReady is_prefill bs e.num_kvcache_blocks (map s.store batch) =
      rw (same) (all_ready bs batch s v is_prefill batch (λ p h. h)) in
    let (tokens, runs, count_tokens) =
      run-one_token_each e.model bs e.num_kvcache_blocks e.vocab_size (map s.store batch) is_prefill
        (omega (arith, length-map s.store batch)) vocab rows ready in
    let (s', posts, rest) =
      postprocess-Phase bs batch tokens s is_prefill v
        (omega (arith, count_tokens, length-map s.store batch))
        (λ x p h. full-runs v p h (full x p h)) in
    (
      record e { scheduler = s' },
      report s s' batch is_prefill tokens,
      rw (runs, ◌>>=◌) (rw (posts) refl),
      rest,
    )

-- From rest, with some sequence queued, every queued sequence small enough for the cache, room for
-- one sequence and one token in a batch, and the runner's cache as large as the block manager's, a
-- step throws nothing when the vocabulary is not empty and the model gives a row of logits for
-- each sequence: it ends at rest again, and `schedule` has called itself at most once.
pub step-Phase :
    {L : Type 0} (bs : ℕ) (e : LlmEngine L)
    → Phase bs [] e.scheduler
    → 0 < length (e.scheduler.waiting ++ e.scheduler.running)
    → 0 < e.scheduler.max_num_batched_tokens
    → 0 < e.scheduler.max_num_seqs
    → ((p : ℕ)
        → 0 < count p (e.scheduler.waiting ++ e.scheduler.running)
        → num_blocks bs (e.scheduler.store p) ≤ length e.scheduler.block_manager.blocks)
    → 0 < e.vocab_size
    → e.num_kvcache_blocks ≡ length e.scheduler.block_manager.blocks
    → ((ctx : Context) → ctx.num_seqs * e.vocab_size ≤ length (e.model.forward_logits ctx))
    → (e' : LlmEngine L) × (out : Outputs) × (step 2 bs e ≡ some (ok (e', out)))
      × Phase bs [] e'.scheduler
unfolding step
step-Phase bs e v queued tokens seqs fit vocab same rows =
    let r = schedule-Returned bs e.scheduler v queued tokens seqs fit in
    let (e', out, runs, rest) =
      run_batch-Phase bs e r.after r.batch r.is_prefill r.phase r.nonempty vocab
        (same ∙ sym (r.same_blocks)) rows r.decodes in
    (e', out, rw (r.runs, step) (rw (some_batch r.batch r.nonempty) (ap some runs)), rest)
  where
    some_batch : (xs : List ℕ) → 0 < length xs → is_empty xs ≡ false
    some_batch [] h = absurd (omega arith)
    some_batch (x ∷ xs) h = refl
