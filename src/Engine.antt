-- ===== src/Engine.antt =====
-- src/llm_engine.cpp: the requests by token ids, and `step`. The model files and the
-- neural network are left open; the static `Sequence::block_size` is the first argument.
pub mod Requests
pub mod Prompts
pub mod Step
pub mod Tests
use nano_v_llm_cpp.Base.{
  ℕ, zero, suc, ◌+◌, ◌%◌, ◌^◌, Bool, true, false, not, ◌&&◌, ◌||◌, List, [], ◌∷◌, Option, none,
  some, map, ◌==◌, ltb, leb, if◌then◌else◌, length, is_empty,
}
use nano_v_llm_cpp.Result.{
  Error, Result, ok, err, ◌>>=◌, negative_temperature, no_max_tokens, invalid_argument,
}
use nano_v_llm_cpp.Sequence.{SamplingParams, Sequence, new_sequence, completion_token_ids}
use nano_v_llm_cpp.Sequence
use nano_v_llm_cpp.BlockManager.{ℤ, pos, negsuc, put}
use nano_v_llm_cpp.Scheduler.{Scheduler, Scheduled, add, schedule, postprocess, zip}
use nano_v_llm_cpp.Scheduler
use nano_v_llm_cpp.Runner.{Model, throw_if, run}

-- `counter` is the static `Sequence::counter`; the sequence that it numbers is also stored there.
pub record LlmEngine (L : Type 0) : Type 0 where
  pub scheduler : Scheduler
  pub model : Model L
  pub max_model_len : ℕ
  pub vocab_size : ℕ
  pub num_kvcache_blocks : ℕ
  pub counter : ℕ

-- `t < 0` for the `double` with the bits `t`: below minus zero and not a NaN.
unfoldable pub is_negative : ℕ → Bool
is_negative t = ltb 9223372036854775808 t && leb t 18442240474082181120

-- `SamplingParams::validate`; a `max_tokens` below 1 is 0 here.
pub validate {ℓ} : {A : Type ℓ} → SamplingParams → Result A → Result A
validate sp rest =
    throw_if (is_negative sp.temperature) (err negative_temperature)
      (throw_if (ltb sp.max_tokens 1) (err no_max_tokens) rest)

-- `static_cast<int>(n) + max_tokens > max_model_len`, on 32 bits: a sum that overflows is taken to wrap
-- around, to a negative number.
abbrev pub too_long : ℕ → ℕ → ℕ → Bool
too_long n max_tokens max_model_len =
    let sum = (n + max_tokens) % 2 ^ 32 in ltb max_model_len sum && ltb sum (2 ^ 31)

pub add_request : {L : Type 0} → LlmEngine L → List ℕ → SamplingParams → Result (LlmEngine L)
add_request e prompt sp = validate sp (
    throw_if (is_empty prompt) (err invalid_argument) (
      throw_if (too_long (length prompt) sp.max_tokens e.max_model_len) (err invalid_argument)
        (elim (new_sequence e.counter prompt sp) [
          | none ↦ err invalid_argument
          | some seq ↦
              let s = record (e.scheduler) { store = put e.counter seq e.scheduler.store } in
              ok (record e { scheduler = add s e.counter; counter = suc e.counter })
        ])))

abbrev pub is_finished : {L : Type 0} → LlmEngine L → Bool
is_finished e = Scheduler.is_finished e.scheduler

-- What `step` returns: the finished completions by sequence id, the number of prompt tokens or
-- minus that of decoded sequences, and the new token of each decoded sequence.
pub record Outputs : Type 0 where
  pub outputs : List (ℕ × List ℕ)
  pub num_tokens : ℤ
  pub new_tokens : List (ℕ × ℕ)

abbrev no_outputs : Outputs
no_outputs = record { outputs = []; num_tokens = pos 0; new_tokens = [] }

pub scheduled_of : List Sequence → ℕ
scheduled_of [] = 0
scheduled_of (seq ∷ seqs) = seq.num_scheduled_tokens + scheduled_of seqs

abbrev minus : ℕ → ℤ
minus zero = pos 0
minus (suc n) = negsuc n

pub finished_outputs : List Sequence → List (ℕ × List ℕ)
finished_outputs [] = []
finished_outputs (seq ∷ seqs) =
    let rest = finished_outputs seqs in
    if Sequence.is_finished seq then (seq.seq_id, completion_token_ids seq) ∷ rest else rest

-- What a step reports: `s` is the scheduler before the run, and `s'` after `postprocess`.
abbrev pub report : Scheduler → Scheduler → List ℕ → Bool → List ℕ → Outputs
report s s' batch is_prefill token_ids =
    let seqs = map s.store batch in
    record {
      outputs = finished_outputs (map s'.store batch);
      num_tokens = if is_prefill then pos (scheduled_of seqs) else minus (length seqs);
      new_tokens = if is_prefill then [] else zip (map (λ seq. seq.seq_id) seqs) token_ids;
    }

-- After the schedule: run the batch, put the tokens back, collect what finished.
pub run_batch :
    {L : Type 0} → ℕ → LlmEngine L → Scheduler → List ℕ → Bool → Result (LlmEngine L × Outputs)
run_batch bs e s batch is_prefill = do
  token_ids ← run e.model bs e.num_kvcache_blocks e.vocab_size (map s.store batch) is_prefill
  s' ← postprocess bs s batch token_ids is_prefill
  ok (record e { scheduler = s' }, report s s' batch is_prefill token_ids)

-- `none` is more calls of `schedule` by itself than `depth`.
pub step : {L : Type 0} → ℕ → ℕ → LlmEngine L → Option (Result (LlmEngine L × Outputs))
step depth bs e = elim (schedule depth bs e.scheduler) [
  | none ↦ none
  | some (err x) ↦ some (err x)
  | some (ok (s, batch, is_prefill)) ↦
      if is_empty batch
      then some (ok (record e { scheduler = s }, no_outputs))
      else some (run_batch bs e s batch is_prefill)
]
