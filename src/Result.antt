-- ===== src/Result.antt =====
-- A call that may throw: `err` names the exception that `src/block_manager.cpp`,
-- `src/scheduler.cpp`, `src/model_runner.cpp` and `src/llm_engine.cpp` raise.
pub data Error : Type 0 where
  no_free_blocks table_not_empty missing_hash : Error
  no_progress size_mismatch : Error
  zero_tokens slice_out_of_range no_block_table table_too_small : Error
  cache_not_allocated block_out_of_range slot_out_of_range empty_sequence : Error
  empty_batch no_block_tables invalid_vocab few_logits : Error
  negative_temperature no_max_tokens invalid_argument : Error

pub data Result {ℓ} (A : Type ℓ) : Type ℓ where
  ok : A → Result A
  err : Error → Result A

infixl 5 ◌>>=◌
abbrev pub ◌>>=◌ {ℓ κ} : {A : Type ℓ} {B : Type κ} → Result A → (A → Result B) → Result B
ok a >>= f = f a
err e >>= f = err e
