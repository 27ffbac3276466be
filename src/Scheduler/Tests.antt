-- ===== src/Scheduler/Tests.antt =====
-- src/scheduler.cpp on one request, and its theorems at it.
use nano_v_llm_cpp.Base.{
  ℕ, suc, ◌≤◌, ◌<◌, ◌≡◌, refl, ap, false, List, [], ◌∷◌, ◌++◌, none, some, arith, length, count,
}
use nano_v_llm_cpp.Result.{ok}
use nano_v_llm_cpp.Sequence.{SamplingParams, Sequence, num_blocks, new_sequence}
use nano_v_llm_cpp.BlockManager.Steps.{new_manager-block_count}
use nano_v_llm_cpp.BlockManager.Tests.{three, one_block_too_few}
use nano_v_llm_cpp.Scheduler.{Config, Scheduler, new_scheduler, add, schedule, postprocess}
use nano_v_llm_cpp.Scheduler.Shapes.{IsWaiting, Phase, full-runs}
use nano_v_llm_cpp.Scheduler.Progress.{Outcome, schedule-Outcome}
use nano_v_llm_cpp.Scheduler.Total.{Returned, schedule-Returned, schedule-diverges}
use nano_v_llm_cpp.Scheduler.Postprocess.{postprocess-Phase}
use nano_v_llm_cpp.Scheduler.Add.{new_scheduler-Phase, new_sequence-IsWaiting, add-Phase}

abbrev pub config : ℕ → Config
config blocks = record {
  max_num_seqs = 4;
  max_num_batched_tokens = 16;
  eos = 2;
  kvcache_block_size = 2;
  num_kvcache_blocks = blocks;
}

abbrev pub store : ℕ → Sequence
store p = three

abbrev pub params : SamplingParams
params = record { temperature = 0; max_tokens = 4; ignore_eos = false }

abbrev pub three_tokens : List ℕ
three_tokens = 5 ∷ 6 ∷ 7 ∷ []

three_is_new : new_sequence 0 three_tokens params ≡ some three
unfolding new_sequence
three_is_new = refl

three_waits : IsWaiting 2 three
three_waits =
    (new_sequence-IsWaiting 2 0 three_tokens params {seq = three} (omega arith) three_is_new).0

-- One request is queued.
abbrev pub queued : ℕ → Scheduler
queued blocks = add (new_scheduler (config blocks) store) 0

pub queued_Phase : Phase 2 [] (queued 8)
unfolding new_scheduler
queued_Phase =
    add-Phase 2 0 (new_scheduler (config 8) store)
      (new_scheduler-Phase (config 8) store (omega arith)) refl three_waits refl

schedule-Outcome_example : Outcome 2 (queued 8) (schedule 0 2) (schedule 1 2 (queued 8))
unfolding new_scheduler add
schedule-Outcome_example = schedule-Outcome 2 0 (queued 8) queued_Phase (omega arith) (omega arith)

pub queued_fits :
    (p : ℕ)
    → 0 < count p ((queued 8).waiting ++ (queued 8).running)
    → num_blocks 2 ((queued 8).store p) ≤ length (queued 8).block_manager.blocks
unfolding new_scheduler add
queued_fits p h = rw (new_manager-block_count 8 2) (omega arith)

schedule-Returned_example : Returned 2 (queued 8) 2
unfolding new_scheduler add
schedule-Returned_example =
    schedule-Returned 2 (queued 8) queued_Phase (omega arith) (omega arith) (omega arith)
      queued_fits

schedule-diverges_example : schedule 5 2 (queued 1) ≡ none
unfolding new_scheduler add
schedule-diverges_example = schedule-diverges 5 2 0 [] (queued 1) refl refl refl one_block_too_few

-- The batch that the scheduler makes of it.
returned : Returned 2 (queued 8) 2
unfolding new_scheduler add
returned =
    schedule-Returned 2 (queued 8) queued_Phase (omega arith) (omega arith) (omega arith)
      queued_fits

-- The model answers 9 for each sequence.
abbrev nines : List ℕ → List ℕ
nines [] = []
nines (p ∷ ps) = 9 ∷ nines ps

length-nines : (ps : List ℕ) → length (nines ps) ≡ length ps
length-nines [] = refl
length-nines (p ∷ ps) = ap suc (length-nines ps)

postprocess-Phase_example :
    (s' : Scheduler) × (postprocess 2 returned.after returned.batch
        (nines returned.batch)
        returned.is_prefill
      ≡ ok s')
    × Phase 2 [] s'
postprocess-Phase_example =
    postprocess-Phase 2 returned.batch (nines returned.batch) returned.after returned.is_prefill
      returned.phase (length-nines returned.batch)
      (λ x p h. full-runs returned.phase p h (returned.decodes x p h))
