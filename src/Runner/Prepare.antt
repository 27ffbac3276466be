-- ===== src/Runner/Prepare.antt =====
-- `prepare_prefill` and `prepare_decode` of src/model_runner.cpp on a batch whose block tables are
-- those that the block manager gives out.
use nano_v_llm_cpp.Base.{
  ℕ, suc, ◌+◌, ◌-◌, ◌*◌, ◌/◌, ◌%◌, ◌<◌, max, ◌≡◌, ◌∙◌, sym, ap, refl, true, false, List, [], ◌∷◌,
  ◌++◌, arith, ◌==◌, ltb, leb, length, get_or, is_empty,
}
use mathlib.Core.List.{append-nil}
use native.Mathlib.Nat.{div-add-mod', mod-lt}
use nano_v_llm_cpp.Result.{ok}
use nano_v_llm_cpp.Sequence.{Sequence, back_or, num_blocks}
use nano_v_llm_cpp.Runner.{
  Context, empty_context, decode_seq, decode_seqs, longest_table, prepare_block_tables,
  prepare_prefill, prepare_decode, decode_slot, last_of_each,
}
use nano_v_llm_cpp.Runner.Positions.{
  InRange, slot_end_fits, slot_of, need_bounds, check_block-in_range,
}
use nano_v_llm_cpp.Runner.Slots.{back_or-get_or, decode_slot-slot_of}
use nano_v_llm_cpp.Runner.Batch.{
  AllPrepared, AllInRange, AllPrepared-AllInRange, batch_tokens, batch_positions, batch_slots,
  filled_rows, table_rows-filled, Added, Added-trans, is_empty-false, prefill_seqs-Added,
}

abbrev with_tables : List Sequence → Context → Context
with_tables seqs ctx = record ctx {
  max_blocks = max (longest_table seqs) 1;
  block_tables = filled_rows (max (longest_table seqs) 1) seqs;
}

prepare_block_tables-filled :
    (cache : ℕ) (seqs : List Sequence) (ctx : Context)
    → AllInRange cache seqs
    → prepare_block_tables cache seqs ctx ≡ ok (with_tables seqs ctx)
unfolding prepare_block_tables
prepare_block_tables-filled cache seqs ctx v = rw (table_rows-filled cache _ seqs v) refl

abbrev prefill_start : List Sequence → Context
prefill_start seqs = record empty_context {
  is_prefill = true;
  cu_seqlens_q = 0 ∷ [];
  cu_seqlens_k = 0 ∷ [];
  num_seqs = length seqs;
}

abbrev prefill_end : Context → Context
prefill_end ctx = record ctx {
  last_indices = ctx.last_indices ++ last_of_each ctx.cu_seqlens_q;
  num_tokens = length ctx.input_ids;
}

-- On a batch whose tables cover the scheduled tokens, `prepare_prefill` throws nothing. It
-- lays out the scheduled tokens of each sequence, their positions and the slot of each position by
-- the sequence's block table, and the tables filled up with -1 to the longest.
pub prepare_prefill-Added :
    (bs cache : ℕ) (seqs : List Sequence)
    → AllPrepared bs cache seqs
    → (ctx : Context) × (prepare_prefill bs cache seqs ≡ ok ctx)
      × (ctx.input_ids ≡ batch_tokens seqs)
      × (ctx.positions ≡ batch_positions seqs)
      × (ctx.slot_mapping ≡ batch_slots bs seqs)
      × (ctx.block_tables ≡ filled_rows (max (longest_table seqs) 1) seqs)
      × (ctx.num_seqs ≡ length seqs)
      × (ctx.num_tokens ≡ length (batch_tokens seqs))
      × (0 < ctx.max_blocks)
unfolding prepare_prefill
prepare_prefill-Added bs cache seqs v =
    let p = prefill_seqs-Added bs cache 0 seqs (prefill_start seqs) v in
    (
      with_tables seqs (prefill_end (p.0)),
      rw
          (
            p.1,
            prepare_block_tables-filled cache seqs (prefill_end (p.0))
                (AllPrepared-AllInRange bs cache seqs v),
          )
          refl,
      p.2.input,
      p.2.place,
      p.2.slot,
      refl,
      p.2.seqs,
      ap length p.2.input,
      omega arith,
    )

-- What the runner relies on in a sequence that decodes.
pub record IsDecodable (bs cache : ℕ) (seq : Sequence) : Type 0 where
  pub big : 1 < bs
  pub some_tokens : 0 < seq.num_tokens
  pub table : length seq.block_table ≡ num_blocks bs seq
  pub in_range : InRange cache seq.block_table

abbrev pub AllDecodable : ℕ → ℕ → List Sequence → Type 0
AllDecodable bs cache [] = Unit {0}
AllDecodable bs cache (seq ∷ seqs) = IsDecodable bs cache seq × AllDecodable bs cache seqs

AllDecodable-AllInRange :
    (bs cache : ℕ) (seqs : List Sequence) → AllDecodable bs cache seqs → AllInRange cache seqs
AllDecodable-AllInRange bs cache [] v = v
AllDecodable-AllInRange bs cache (seq ∷ seqs) v =
    (v.0.in_range, AllDecodable-AllInRange bs cache seqs v.1)

abbrev pub last_tokens : List Sequence → List ℕ
last_tokens [] = []
last_tokens (seq ∷ seqs) = seq.last_token ∷ last_tokens seqs

abbrev pub last_positions : List Sequence → List ℕ
last_positions [] = []
last_positions (seq ∷ seqs) = (seq.num_tokens - 1) ∷ last_positions seqs

abbrev pub last_slots : ℕ → List Sequence → List ℕ
last_slots bs [] = []
last_slots bs (seq ∷ seqs) = slot_of bs seq.block_table (seq.num_tokens - 1) ∷ last_slots bs seqs

back-InRange :
    (cache m : ℕ) (table : List ℕ)
    → InRange cache table
    → length table ≡ suc m
    → back_or 0 table < cache
back-InRange cache m table range e = rw (back_or-get_or table m 0 e) (range m (omega arith))

-- The slot of a decode step lies in the cache.
decode_slot-in_range :
    (bs cache : ℕ) (seq : Sequence) → IsDecodable bs cache seq → decode_slot bs seq < cache * bs
decode_slot-in_range bs cache seq v =
    let t : ℕ = seq.num_tokens - 1 in
    let inside : t / bs < length seq.block_table =
      rw (v.table)
        (grind (arith, v.some_tokens, need_bounds bs seq.num_tokens v.big, div-add-mod' t bs)) in
    rw (decode_slot-slot_of bs seq v.big v.some_tokens v.table) (
      omega (
        arith,
        mod-lt t {m = bs} (omega (arith, v.big)),
        slot_end_fits bs cache (get_or seq.block_table (t / bs) 0) (t % bs + 1)
            (v.in_range _ inside) (omega (arith, mod-lt t {m = bs} (omega (arith, v.big)))),
      ))

abbrev decode_next : ℕ → ℕ → Sequence → Context → Context
decode_next bs s seq ctx = record ctx {
  input_ids = ctx.input_ids ++ (seq.last_token ∷ []);
  positions = ctx.positions ++ ((seq.num_tokens - 1) ∷ []);
  context_lens = ctx.context_lens ++ (seq.num_tokens ∷ []);
  query_seq = ctx.query_seq ++ (s ∷ []);
  query_key_len = ctx.query_key_len ++ (seq.num_tokens ∷ []);
  slot_mapping = ctx.slot_mapping ++ (decode_slot bs seq ∷ []);
  last_indices = ctx.last_indices ++ (s ∷ []);
}

decode_seq-next :
    (bs cache s : ℕ) (seq : Sequence) (ctx : Context)
    → IsDecodable bs cache seq
    → decode_seq bs cache s seq ctx ≡ ok (decode_next bs s seq ctx)
unfolding decode_seq
decode_seq-next bs cache s seq ctx v =
    let f1 : (seq.num_tokens == 0) ≡ false = ground (arith, v.some_tokens) in
    let f2 : is_empty seq.block_table ≡ false =
      is_empty-false seq.block_table
        (grind (arith, v.table, v.some_tokens, need_bounds bs seq.num_tokens v.big)) in
    let f3 : ltb (length seq.block_table) (num_blocks bs seq) ≡ false = ground (arith, v.table) in
    let f4 : leb (cache * bs) (decode_slot bs seq) ≡ false =
      ground (arith, decode_slot-in_range bs cache seq v) in
    rw (f1, f2, f3)
      (check_block-in_range cache (back_or 0 seq.block_table) _ (
          back-InRange cache (num_blocks bs seq - 1) seq.block_table v.in_range
            (grind (arith, v.table, v.some_tokens, need_bounds bs seq.num_tokens v.big)))
        ∙ rw f4 refl)

decode_seq-Added :
    (bs cache s : ℕ) (seq : Sequence) (ctx : Context)
    → IsDecodable bs cache seq
    → Added ctx
        (decode_next bs s seq ctx)
        (seq.last_token ∷ [])
        ((seq.num_tokens - 1) ∷ [])
        (slot_of bs seq.block_table (seq.num_tokens - 1) ∷ [])
decode_seq-Added bs cache s seq ctx v = record {
  input = refl;
  place = refl;
  slot =
      ap (λ d. ctx.slot_mapping ++ (d ∷ []))
        (decode_slot-slot_of bs seq v.big v.some_tokens v.table);
  seqs = refl;
}

decode_seqs-Added :
    (bs cache s : ℕ) (seqs : List Sequence) (ctx : Context)
    → AllDecodable bs cache seqs
    → (ctx' : Context) × (decode_seqs bs cache s seqs ctx ≡ ok ctx')
      × Added ctx ctx' (last_tokens seqs) (last_positions seqs) (last_slots bs seqs)
unfolding decode_seqs
decode_seqs-Added bs cache s [] ctx v = (
  ctx,
  refl,
  record {
    input = sym (append-nil ctx.input_ids);
    place = sym (append-nil ctx.positions);
    slot = sym (append-nil ctx.slot_mapping);
    seqs = refl;
  },
)
decode_seqs-Added bs cache s (seq ∷ seqs) ctx v =
    let rest = decode_seqs-Added bs cache (s + 1) seqs (decode_next bs s seq ctx) v.1 in
    (
      rest.0,
      rw (decode_seq-next bs cache s seq ctx v.0) (rest.1),
      Added-trans (seq.last_token ∷ []) ((seq.num_tokens - 1) ∷ [])
          (slot_of bs seq.block_table (seq.num_tokens - 1) ∷ []) (last_tokens seqs)
          (last_positions seqs) (last_slots bs seqs) (decode_seq-Added bs cache s seq ctx v.0)
          rest.2,
    )

-- On a batch of sequences with at least one token and tables that cover them, `prepare_decode`
-- throws nothing. It lays out each sequence's last token, its position and the slot of that position
-- by the block table, and the tables filled up with -1 to the longest.
pub prepare_decode-Added :
    (bs cache : ℕ) (seqs : List Sequence)
    → AllDecodable bs cache seqs
    → (ctx : Context) × (prepare_decode bs cache seqs ≡ ok ctx)
      × (ctx.input_ids ≡ last_tokens seqs)
      × (ctx.positions ≡ last_positions seqs)
      × (ctx.slot_mapping ≡ last_slots bs seqs)
      × (ctx.block_tables ≡ filled_rows (max (longest_table seqs) 1) seqs)
      × (ctx.num_seqs ≡ length seqs)
      × (ctx.num_tokens ≡ length (last_tokens seqs))
      × (0 < ctx.max_blocks)
unfolding prepare_decode
prepare_decode-Added bs cache seqs v =
    let p = decode_seqs-Added bs cache 0 seqs (record empty_context { num_seqs = length seqs }) v in
    let end : Context = record (p.0) { num_tokens = length (p.0).input_ids } in
    (
      with_tables seqs end,
      rw (p.1, prepare_block_tables-filled cache seqs end (AllDecodable-AllInRange bs cache seqs v))
          refl,
      p.2.input,
      p.2.place,
      p.2.slot,
      refl,
      p.2.seqs,
      ap length p.2.input,
      omega arith,
    )
