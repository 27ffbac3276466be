-- ===== src/Sequence.antt =====
-- include/nanovllm/sequence.hpp. The static `Sequence::block_size` is the first argument of the
-- methods that read it. A token id is the 32-bit pattern of its `int`, and the temperature the
-- 64-bit pattern of its `double`: the scheduler compares the one and only carries the other.
use nano_v_llm_cpp.Base.{
  ℕ, ◌+◌, ◌-◌, ◌*◌, ◌/◌, min, Bool, true, false, List, [], ◌∷◌, ◌++◌, Option, none, some,
  if◌then◌else◌, length, take, drop, is_empty,
}

pub data Status : Type 0 where
  waiting running finished : Status

pub record SamplingParams : Type 0 where
  pub temperature : ℕ
  pub max_tokens : ℕ
  pub ignore_eos : Bool

pub record Sequence : Type 0 where
  pub seq_id : ℕ
  pub status : Status
  pub token_ids : List ℕ
  pub last_token : ℕ
  pub num_tokens : ℕ
  pub num_prompt_tokens : ℕ
  pub num_cached_tokens : ℕ
  pub num_scheduled_tokens : ℕ
  pub is_prefill : Bool
  pub block_table : List ℕ
  pub temperature : ℕ
  pub max_tokens : ℕ
  pub ignore_eos : Bool

-- `ids.back()`, 0 for the empty vector.
abbrev pub back_or : ℕ → List ℕ → ℕ
back_or d [] = d
back_or d (x ∷ xs) = back_or x xs

-- The constructor from `ids`; `counter` is the static's value, and the caller increments it.
-- `none` is `invalid_argument`.
unfoldable pub new_sequence : ℕ → List ℕ → SamplingParams → Option Sequence
new_sequence counter ids sp =
    if is_empty ids
    then none
    else some (record {
      seq_id = counter;
      status = waiting;
      token_ids = ids;
      last_token = back_or 0 ids;
      num_tokens = length ids;
      num_prompt_tokens = length ids;
      num_cached_tokens = 0;
      num_scheduled_tokens = 0;
      is_prefill = true;
      block_table = [];
      temperature = sp.temperature;
      max_tokens = sp.max_tokens;
      ignore_eos = sp.ignore_eos;
    })

abbrev pub is_finished : Sequence → Bool
is_finished s = elim s.status [ finished ↦ true | _ ↦ false ]

abbrev pub num_completion_tokens : Sequence → ℕ
num_completion_tokens s = s.num_tokens - s.num_prompt_tokens

abbrev pub num_blocks : ℕ → Sequence → ℕ
num_blocks bs s = (s.num_tokens + bs - 1) / bs

abbrev pub last_block_num_tokens : ℕ → Sequence → ℕ
last_block_num_tokens bs s = s.num_tokens - (num_blocks bs s - 1) * bs

-- The tokens of logical block `i`.
unfoldable pub block : ℕ → Sequence → ℕ → List ℕ
block bs s i =
    let start = i * bs in
    let end = min (start + bs) s.num_tokens in take (end - start) (drop start s.token_ids)

unfoldable pub append_token : Sequence → ℕ → Sequence
append_token s t = record s {
  token_ids = s.token_ids ++ (t ∷ []);
  last_token = t;
  num_tokens = s.num_tokens + 1;
}

unfoldable pub prompt_token_ids : Sequence → List ℕ
prompt_token_ids s = take s.num_prompt_tokens s.token_ids

unfoldable pub completion_token_ids : Sequence → List ℕ
completion_token_ids s = drop s.num_prompt_tokens s.token_ids
