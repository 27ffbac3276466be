-- ===== src/Engine/Tests.antt =====
-- An engine with one request, and the theorems on src/llm_engine.cpp at it.
use nano_v_llm_cpp.Base.{
  ℕ, ◌+◌, ◌≡◌, refl, sym, ◌∙◌, List, ◌∷◌, Option, ◌≤◌, [], some, arith, length,
}
use nano_v_llm_cpp.Result.{ok}
use nano_v_llm_cpp.BlockManager.Steps.{new_manager-block_count}
use nano_v_llm_cpp.Scheduler.{Scheduler, new_scheduler, add}
use nano_v_llm_cpp.Scheduler.Shapes.{Phase}
use nano_v_llm_cpp.Scheduler.Add.{new_scheduler-Phase}
use nano_v_llm_cpp.Scheduler.Tests.{
  config, store, queued, queued_Phase, queued_fits, params, three_tokens,
}
use nano_v_llm_cpp.Runner.Tests.{one_word, one_word_rows}
use nano_v_llm_cpp.Engine.{LlmEngine, Outputs, is_negative, step}
use nano_v_llm_cpp.Engine.Requests.{Requested, add_request-Requested}
use nano_v_llm_cpp.Text.{bytes}
use nano_v_llm_cpp.Tokenizer.Tests.{
  small, small-ByteLevel, bos_silent, ab-IsUtf8, ab-Absent, ab_ids,
}
use nano_v_llm_cpp.Engine.Prompts.{Prompted, add_text_request-Prompted}
use nano_v_llm_cpp.Engine.Step.{step-Phase}

abbrev engine : Scheduler → LlmEngine ℕ
engine s = record {
  scheduler = s;
  model = one_word;
  max_model_len = 64;
  vocab_size = 1;
  num_kvcache_blocks = 8;
  counter = 0;
}

abbrev idle : LlmEngine ℕ
idle = engine (new_scheduler (config 8) store)

add_request-Requested_example : Requested 2 idle three_tokens params
unfolding new_scheduler is_negative
add_request-Requested_example =
    add_request-Requested 2 idle three_tokens params
      (new_scheduler-Phase (config 8) store (omega arith)) (λ p h. absurd (omega arith)) refl
      (omega arith) (omega arith) (omega arith)

step-Phase_example :
    (e' : LlmEngine ℕ) × (out : Outputs) × (step 2 2 (engine (queued 8)) ≡ some (ok (e', out)))
    × Phase 2 [] e'.scheduler
unfolding new_scheduler add
step-Phase_example =
    step-Phase 2 (engine (queued 8)) queued_Phase (omega arith) (omega arith) (omega arith)
      queued_fits (omega arith) (sym (new_manager-block_count 8 2)) one_word_rows

ab_fits :
    (ids : List ℕ)
    → ◌≡◌ {A = Option (List ℕ)} (some (300 ∷ 0 ∷ [])) (some ids)
    → length ids + 4 ≤ 64
ab_fits ids e = ground (arith, e)

add_text_request-Prompted_example : Prompted 2 small idle (bytes "ab") params
unfolding new_scheduler is_negative
add_text_request-Prompted_example =
    add_text_request-Prompted 2 small idle 97 (98 ∷ []) params
      (new_scheduler-Phase (config 8) store (omega arith)) (λ p h. absurd (omega arith)) refl
      (omega arith) small-ByteLevel ab-IsUtf8 (omega arith, (omega arith, tt)) ab-Absent bos_silent
      (λ ids found. ab_fits ids (sym ab_ids ∙ found))
