-- ===== src/Runner.antt =====
-- src/model_runner.cpp and the host half of include/nanovllm/context.hpp: the index arrays that the
-- attention kernels read. The model and the sampler are parameters of `run`.
pub mod Positions
pub mod Slots
pub mod Batch
pub mod Prepare
pub mod Run
pub mod Tests
use nano_v_llm_cpp.Base.{
  ℕ, zero, suc, ◌+◌, ◌-◌, ◌*◌, ◌/◌, ◌%◌, max, Bool, true, false, not, ◌&&◌, ◌||◌, List, [], ◌∷◌,
  ◌++◌, map, ◌==◌, ltb, leb, if◌then◌else◌, length, get_or, drop, is_empty,
}
use nano_v_llm_cpp.Result.{
  Result, ok, err, ◌>>=◌, zero_tokens, slice_out_of_range, no_block_table, table_too_small,
  cache_not_allocated, block_out_of_range, slot_out_of_range, empty_sequence, empty_batch,
  no_block_tables, invalid_vocab, few_logits,
}
use nano_v_llm_cpp.Sequence.{Sequence, back_or, last_block_num_tokens}
use nano_v_llm_cpp.BlockManager.{ℤ, pos, negsuc}

pub record Context : Type 0 where
  pub is_prefill : Bool
  pub input_ids : List ℕ
  pub positions : List ℕ
  pub cu_seqlens_q : List ℕ
  pub cu_seqlens_k : List ℕ
  pub slot_mapping : List ℕ
  pub context_lens : List ℕ
  pub block_tables : List ℤ
  pub query_seq : List ℕ
  pub query_key_len : List ℕ
  pub last_indices : List ℕ
  pub max_seqlen_q : ℕ
  pub max_seqlen_k : ℕ
  pub max_blocks : ℕ
  pub num_tokens : ℕ
  pub num_seqs : ℕ

abbrev pub empty_context : Context
empty_context = record {
  is_prefill = false;
  input_ids = [];
  positions = [];
  cu_seqlens_q = [];
  cu_seqlens_k = [];
  slot_mapping = [];
  context_lens = [];
  block_tables = [];
  query_seq = [];
  query_key_len = [];
  last_indices = [];
  max_seqlen_q = 0;
  max_seqlen_k = 0;
  max_blocks = 0;
  num_tokens = 0;
  num_seqs = 0;
}

abbrev pub throw_if {ℓ} : {A : Type ℓ} → Bool → Result A → Result A → Result A
throw_if true e r = e
throw_if false e r = r

-- A block id is never negative here.
pub check_block {ℓ} : {A : Type ℓ} → ℕ → ℕ → Result A → Result A
check_block num_blocks block rest =
    throw_if (num_blocks == 0) (err cache_not_allocated)
      (throw_if (leb num_blocks block) (err block_out_of_range) rest)

-- One round of the loop over the tokens of the sequence `s` of the batch.
abbrev pub push_token : ℕ → ℕ → Sequence → Context → Context
push_token i s seq ctx =
    let start = seq.num_cached_tokens in
    record ctx {
      input_ids = ctx.input_ids ++ (get_or seq.token_ids (start + i) 0 ∷ []);
      positions = ctx.positions ++ ((start + i) ∷ []);
      query_seq = ctx.query_seq ++ (s ∷ []);
      query_key_len = ctx.query_key_len ++ ((start + i + 1) ∷ []);
    }

-- That loop, with `rounds` left.
pub push_tokens : ℕ → ℕ → ℕ → Sequence → Context → Context
push_tokens zero i s seq ctx = ctx
push_tokens (suc rounds) i s seq ctx = push_tokens rounds (i + 1) s seq (push_token i s seq ctx)

-- `for (slot = slot_start; slot < slot_end; ++slot)`, with `rounds` left.
pub push_slots : ℕ → ℕ → ℕ → List ℕ → Result (List ℕ)
push_slots max_slot zero slot slots = ok slots
push_slots max_slot (suc rounds) slot slots =
    throw_if (leb max_slot slot) (err slot_out_of_range)
      (push_slots max_slot rounds (slot + 1) (slots ++ (slot ∷ [])))

-- The loop over the blocks from `bi` on, with `rounds` left, for the tokens [start, end).
pub push_blocks : ℕ → ℕ → ℕ → ℕ → List ℕ → ℕ → ℕ → List ℕ → Result (List ℕ)
push_blocks bs num_blocks start end table zero bi slots = ok slots
push_blocks bs num_blocks start end table (suc rounds) bi slots =
    let block = get_or table bi 0 in
    let slot_start = if bi == start / bs then block * bs + start % bs else block * bs in
    let slot_end =
      if not (bi == (end + bs - 1) / bs - 1) then block * bs + bs else block * bs + end - bi * bs in
    check_block num_blocks block (do
      slots' ← push_slots (num_blocks * bs) (slot_end - slot_start) slot_start slots
      push_blocks bs num_blocks start end table rounds (bi + 1) slots')

-- One sequence of a prefill batch.
pub prefill_seq : ℕ → ℕ → ℕ → Sequence → Context → Result Context
prefill_seq bs num_blocks s seq ctx =
    let start = seq.num_cached_tokens in
    let seqlen_q = seq.num_scheduled_tokens in
    let end = start + seqlen_q in
    let need_blocks = (end + bs - 1) / bs in
    let ctx' = push_tokens seqlen_q 0 s seq ctx in
    throw_if (seqlen_q == 0) (err zero_tokens) (
      throw_if (ltb seq.num_tokens end) (err slice_out_of_range) (
        throw_if (is_empty seq.block_table) (err no_block_table) (
          throw_if (ltb (length seq.block_table) need_blocks) (err table_too_small) (do
            slots ←
                push_blocks bs num_blocks start end seq.block_table (need_blocks - start / bs)
                  (start / bs) ctx'.slot_mapping
            ok (record ctx' {
              slot_mapping = slots;
              max_seqlen_q = max ctx'.max_seqlen_q seqlen_q;
              max_seqlen_k = max ctx'.max_seqlen_k end;
              cu_seqlens_q = ctx'.cu_seqlens_q ++ ((back_or 0 ctx'.cu_seqlens_q + seqlen_q) ∷ []);
              cu_seqlens_k = ctx'.cu_seqlens_k ++ ((back_or 0 ctx'.cu_seqlens_k + end) ∷ []);
            })))))

pub prefill_seqs : ℕ → ℕ → ℕ → List Sequence → Context → Result Context
prefill_seqs bs num_blocks s [] ctx = ok ctx
prefill_seqs bs num_blocks s (seq ∷ seqs) ctx = do
  ctx' ← prefill_seq bs num_blocks s seq ctx
  prefill_seqs bs num_blocks (s + 1) seqs ctx'

-- `cu_seqlens_q[i] - 1` for each i from 1.
abbrev pub last_of_each : List ℕ → List ℕ
last_of_each [] = []
last_of_each (c ∷ cs) = map (λ x. x - 1) cs

pub longest_table : List Sequence → ℕ
longest_table [] = 0
longest_table (seq ∷ seqs) = max (length seq.block_table) (longest_table seqs)

-- One row of the block tables: the sequence's blocks, then -1 up to `width`.
pub table_row : ℕ → ℕ → List ℕ → Result (List ℤ)
table_row num_blocks zero table = ok []
table_row num_blocks (suc width) [] = do rest ← table_row num_blocks width []; ok (negsuc 0 ∷ rest)
table_row num_blocks (suc width) (block ∷ table) =
    check_block num_blocks block (do rest ← table_row num_blocks width table; ok (pos block ∷ rest))

pub table_rows : ℕ → ℕ → List Sequence → Result (List ℤ)
table_rows num_blocks width [] = ok []
table_rows num_blocks width (seq ∷ seqs) = do
  row ← table_row num_blocks width seq.block_table
  rest ← table_rows num_blocks width seqs
  ok (row ++ rest)

-- The array is filled with -1 and then row by row, so that a row is its blocks and -1 behind them.
pub prepare_block_tables : ℕ → List Sequence → Context → Result Context
prepare_block_tables num_blocks seqs ctx =
    let width = max (longest_table seqs) 1 in
    do
      rows ← table_rows num_blocks width seqs
      ok (record ctx { max_blocks = width; block_tables = rows })

pub prepare_prefill : ℕ → ℕ → List Sequence → Result Context
prepare_prefill bs num_blocks seqs = do
  ctx ← prefill_seqs bs num_blocks 0 seqs (record empty_context {
    is_prefill = true;
    cu_seqlens_q = 0 ∷ [];
    cu_seqlens_k = 0 ∷ [];
    num_seqs = length seqs;
  })
  prepare_block_tables num_blocks seqs (record ctx {
    last_indices = ctx.last_indices ++ last_of_each ctx.cu_seqlens_q;
    num_tokens = length ctx.input_ids;
  })

-- The slot of the last token, in the block at the back of the table.
pub decode_slot : ℕ → Sequence → ℕ
decode_slot bs seq = back_or 0 seq.block_table * bs + last_block_num_tokens bs seq - 1

pub decode_seq : ℕ → ℕ → ℕ → Sequence → Context → Result Context
decode_seq bs num_blocks s seq ctx =
    let len = seq.num_tokens in
    let slot = decode_slot bs seq in
    throw_if (len == 0) (err empty_sequence) (
      throw_if (is_empty seq.block_table) (err no_block_table) (
        throw_if (ltb (length seq.block_table) ((len + bs - 1) / bs)) (err table_too_small) (
          check_block num_blocks (back_or 0 seq.block_table) (
            throw_if (leb (num_blocks * bs) slot) (err slot_out_of_range) (
              ok (record ctx {
                input_ids = ctx.input_ids ++ (seq.last_token ∷ []);
                positions = ctx.positions ++ ((len - 1) ∷ []);
                context_lens = ctx.context_lens ++ (len ∷ []);
                query_seq = ctx.query_seq ++ (s ∷ []);
                query_key_len = ctx.query_key_len ++ (len ∷ []);
                slot_mapping = ctx.slot_mapping ++ (slot ∷ []);
                last_indices = ctx.last_indices ++ (s ∷ []);
              }))))))

pub decode_seqs : ℕ → ℕ → ℕ → List Sequence → Context → Result Context
decode_seqs bs num_blocks s [] ctx = ok ctx
decode_seqs bs num_blocks s (seq ∷ seqs) ctx = do
  ctx' ← decode_seq bs num_blocks s seq ctx
  decode_seqs bs num_blocks (s + 1) seqs ctx'

pub prepare_decode : ℕ → ℕ → List Sequence → Result Context
prepare_decode bs num_blocks seqs = do
  ctx ← decode_seqs bs num_blocks 0 seqs (record empty_context { num_seqs = length seqs })
  prepare_block_tables num_blocks seqs (record ctx { num_tokens = length ctx.input_ids })

-- One forward pass of the neural network, and the sampler's draw for row `i` of the logits, by the
-- vocabulary's size and the temperature. Both compute with floats and are left open here.
pub record Model (Logits : Type 0) : Type 0 where
  pub forward_logits : Context → List Logits
  pub sample : ℕ → List Logits → ℕ → ℕ → ℕ

-- The loop over the rows from `i` on; `logits` begins with row `i`.
pub sample_rows : {L : Type 0} → Model L → ℕ → ℕ → List L → List Sequence → List ℕ
sample_rows m vocab i logits [] = []
sample_rows m vocab i logits (seq ∷ seqs) =
    m.sample i logits vocab seq.temperature ∷ sample_rows m vocab (i + 1) (drop vocab logits) seqs

pub run : {L : Type 0} → Model L → ℕ → ℕ → ℕ → List Sequence → Bool → Result (List ℕ)
run m bs num_blocks vocab seqs is_prefill = if is_empty seqs then ok [] else do
  ctx ←
      (if is_prefill then prepare_prefill bs num_blocks seqs else prepare_decode bs num_blocks seqs)
  (let logits = m.forward_logits ctx in
      throw_if (ctx.num_tokens == 0) (err empty_batch) (
        throw_if (ctx.max_blocks == 0) (err no_block_tables) (
          throw_if (vocab == 0) (err invalid_vocab) (
            throw_if (ltb (length logits) (ctx.num_seqs * vocab)) (err few_logits)
              (ok (sample_rows m vocab 0 logits seqs))))))
