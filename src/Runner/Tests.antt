-- ===== src/Runner/Tests.antt =====
-- src/model_runner.cpp on a batch of one sequence, and its theorems at it.
use nano_v_llm_cpp.Base.{
  ℕ, zero, suc, ◌*◌, ◌≤◌, ◌<◌, max, ◌≡◌, refl, true, false, List, [], ◌∷◌, arith, length,
}
use nano_v_llm_cpp.Result.{ok}
use nano_v_llm_cpp.Sequence.{Status, Sequence}
use nano_v_llm_cpp.Runner.{Context, Model, longest_table, prepare_prefill, prepare_decode, run}
use nano_v_llm_cpp.Runner.Positions.{InRange}
use nano_v_llm_cpp.Runner.Batch.{
  AllPrepared, batch_tokens, batch_positions, batch_slots, filled_rows,
}
use nano_v_llm_cpp.Runner.Prepare.{
  AllDecodable, last_tokens, last_positions, last_slots, prepare_prefill-Added,
  prepare_decode-Added,
}
use nano_v_llm_cpp.Runner.Run.{run-one_token_each}

-- Three tokens in the blocks 4 and 1 of two slots each.
abbrev three : Sequence
three = record {
  seq_id = 0;
  status = Status.running;
  token_ids = 5 ∷ 6 ∷ 7 ∷ [];
  last_token = 7;
  num_tokens = 3;
  num_prompt_tokens = 3;
  num_cached_tokens = 0;
  num_scheduled_tokens = 3;
  is_prefill = true;
  block_table = 4 ∷ 1 ∷ [];
  temperature = 0;
  max_tokens = 4;
  ignore_eos = false;
}

slots_of_three : batch_slots 2 (three ∷ []) ≡ 8 ∷ 9 ∷ 2 ∷ []
slots_of_three = refl

in_cache : InRange 8 (4 ∷ 1 ∷ [])
in_cache zero h = omega arith
in_cache (suc zero) h = omega arith
in_cache (suc (suc i)) h = absurd (omega arith)

prepared : AllPrepared 2 8 (three ∷ [])
prepared = (
  record {
    big = omega arith;
    some_scheduled = omega arith;
    within = omega arith;
    table = refl;
    in_range = in_cache;
  },
  _,
)

decodable : AllDecodable 2 8 (three ∷ [])
decodable =
    (record { big = omega arith; some_tokens = omega arith; table = refl; in_range = in_cache }, _)

prepare_prefill-Added_example :
    (ctx : Context) × (prepare_prefill 2 8 (three ∷ []) ≡ ok ctx)
    × (ctx.input_ids ≡ batch_tokens (three ∷ []))
    × (ctx.positions ≡ batch_positions (three ∷ []))
    × (ctx.slot_mapping ≡ batch_slots 2 (three ∷ []))
    × (ctx.block_tables ≡ filled_rows (max (longest_table (three ∷ [])) 1) (three ∷ []))
    × (ctx.num_seqs ≡ 1)
    × (ctx.num_tokens ≡ length (batch_tokens (three ∷ [])))
    × (0 < ctx.max_blocks)
prepare_prefill-Added_example = prepare_prefill-Added 2 8 (three ∷ []) prepared

prepare_decode-Added_example :
    (ctx : Context) × (prepare_decode 2 8 (three ∷ []) ≡ ok ctx)
    × (ctx.input_ids ≡ last_tokens (three ∷ []))
    × (ctx.positions ≡ last_positions (three ∷ []))
    × (ctx.slot_mapping ≡ last_slots 2 (three ∷ []))
    × (ctx.block_tables ≡ filled_rows (max (longest_table (three ∷ [])) 1) (three ∷ []))
    × (ctx.num_seqs ≡ 1)
    × (ctx.num_tokens ≡ length (last_tokens (three ∷ [])))
    × (0 < ctx.max_blocks)
prepare_decode-Added_example = prepare_decode-Added 2 8 (three ∷ []) decodable

-- A model of a vocabulary of one token, with logits 0 and the token 0.
abbrev zeros : ℕ → List ℕ
zeros zero = []
zeros (suc n) = 0 ∷ zeros n

abbrev pub one_word : Model ℕ
one_word = record {
  forward_logits = λ ctx. zeros ctx.num_seqs;
  sample = λ i logits vocab temperature. 0;
}

length-zeros : (n : ℕ) → length (zeros n) ≡ n
length-zeros zero = refl
length-zeros (suc n) = omega (arith, length-zeros n)

pub one_word_rows : (ctx : Context) → ctx.num_seqs * 1 ≤ length (one_word.forward_logits ctx)
one_word_rows ctx = omega (arith, length-zeros ctx.num_seqs)

run-one_token_each_example :
    (tokens : List ℕ) × (run one_word 2 8 1 (three ∷ []) true ≡ ok tokens) × (length tokens ≡ 1)
run-one_token_each_example =
    run-one_token_each one_word 2 8 1 (three ∷ []) true (omega arith) (omega arith) one_word_rows
      prepared
