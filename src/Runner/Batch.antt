-- ===== src/Runner/Batch.antt =====
-- What the rounds of `prepare_prefill` and `prepare_block_tables` of src/model_runner.cpp add to the
-- arrays, for a sequence whose block table covers it.
use nano_v_llm_cpp.Base.{
  ℕ, zero, suc, ◌+◌, ◌-◌, ◌/◌, ◌≤◌, ◌<◌, max, ◌≡◌, ◌∙◌, sym, ap, refl, false, List, [], ◌∷◌, ◌++◌,
  arith, ◌==◌, ltb, length, get_or, is_empty,
}
use mathlib.Core.List.{append_assoc, append-nil}
use nano_v_llm_cpp.Result.{ok}
use nano_v_llm_cpp.Sequence.{Sequence, back_or, num_blocks}
use nano_v_llm_cpp.BlockManager.{ℤ, pos, negsuc}
use nano_v_llm_cpp.Runner.{
  Context, push_token, push_tokens, prefill_seq, prefill_seqs, table_row, table_rows,
}
use nano_v_llm_cpp.Runner.Positions.{
  InRange, slots_from, consecutive, check_block-in_range, need_bounds,
}
use nano_v_llm_cpp.Runner.Slots.{push_blocks-slots}

-- What the runner relies on in a scheduled sequence.
pub record IsPrepared (bs cache : ℕ) (seq : Sequence) : Type 0 where
  pub big : 1 < bs
  pub some_scheduled : 0 < seq.num_scheduled_tokens
  pub within : seq.num_cached_tokens + seq.num_scheduled_tokens ≤ seq.num_tokens
  pub table : length seq.block_table ≡ num_blocks bs seq
  pub in_range : InRange cache seq.block_table

abbrev pub AllPrepared : ℕ → ℕ → List Sequence → Type 0
AllPrepared bs cache [] = Unit {0}
AllPrepared bs cache (seq ∷ seqs) = IsPrepared bs cache seq × AllPrepared bs cache seqs

-- The tokens, positions and slots that a batch computes.
abbrev pub tokens_from : List ℕ → ℕ → ℕ → List ℕ
tokens_from ids t zero = []
tokens_from ids t (suc n) = get_or ids t 0 ∷ tokens_from ids (t + 1) n

abbrev pub batch_tokens : List Sequence → List ℕ
batch_tokens [] = []
batch_tokens (seq ∷ seqs) =
    tokens_from seq.token_ids seq.num_cached_tokens seq.num_scheduled_tokens ++ batch_tokens seqs

abbrev pub batch_positions : List Sequence → List ℕ
batch_positions [] = []
batch_positions (seq ∷ seqs) =
    consecutive seq.num_cached_tokens seq.num_scheduled_tokens ++ batch_positions seqs

abbrev pub batch_slots : ℕ → List Sequence → List ℕ
batch_slots bs [] = []
batch_slots bs (seq ∷ seqs) =
    slots_from bs seq.block_table seq.num_cached_tokens seq.num_scheduled_tokens
    ++ batch_slots bs seqs

push_tokens_lem :
    (rounds i s : ℕ) (seq : Sequence) (ctx : Context)
    → let out = push_tokens rounds i s seq ctx in
      (out.input_ids
        ≡ ctx.input_ids ++ tokens_from seq.token_ids (seq.num_cached_tokens + i) rounds)
      × (out.positions ≡ ctx.positions ++ consecutive (seq.num_cached_tokens + i) rounds)
      × (out.slot_mapping ≡ ctx.slot_mapping)
      × (out.num_seqs ≡ ctx.num_seqs)
unfolding push_tokens
push_tokens_lem zero i s seq ctx =
    (sym (append-nil ctx.input_ids), sym (append-nil ctx.positions), refl, refl)
push_tokens_lem (suc rounds) i s seq ctx =
    let ih = push_tokens_lem rounds (i + 1) s seq (push_token i s seq ctx) in
    let t : ℕ = seq.num_cached_tokens + i in
    let x : ℕ = get_or seq.token_ids t 0 in
    let next : seq.num_cached_tokens + (i + 1) ≡ t + 1 = omega arith in
    (
      ih.0
          ∙ append_assoc ctx.input_ids (x ∷ []) _
          ∙ ap (λ u. ctx.input_ids ++ (x ∷ tokens_from seq.token_ids u rounds)) next,
      ih.1
          ∙ append_assoc ctx.positions (t ∷ []) _
          ∙ ap (λ u. ctx.positions ++ (t ∷ consecutive u rounds)) next,
      ih.2,
      ih.3,
    )

need-le-table :
    (bs cache : ℕ) (seq : Sequence)
    → IsPrepared bs cache seq
    → (seq.num_cached_tokens + seq.num_scheduled_tokens + bs - 1) / bs ≤ length seq.block_table
need-le-table bs cache seq v = rw (v.table) (grind (arith, v.within))

-- One sequence adds its tokens, positions and slots to the arrays.
pub record Added (ctx ctx' : Context) (tokens positions slots : List ℕ) : Type 0 where
  pub input : ctx'.input_ids ≡ ctx.input_ids ++ tokens
  pub place : ctx'.positions ≡ ctx.positions ++ positions
  pub slot : ctx'.slot_mapping ≡ ctx.slot_mapping ++ slots
  pub seqs : ctx'.num_seqs ≡ ctx.num_seqs

pub Added-trans :
    {a b c : Context} (t1 p1 s1 t2 p2 s2 : List ℕ)
    → Added a b t1 p1 s1
    → Added b c t2 p2 s2
    → Added a c (t1 ++ t2) (p1 ++ p2) (s1 ++ s2)
Added-trans {a} t1 p1 s1 t2 p2 s2 x y = record {
  input = y.input ∙ ap (λ l. l ++ t2) x.input ∙ append_assoc a.input_ids t1 t2;
  place = y.place ∙ ap (λ l. l ++ p2) x.place ∙ append_assoc a.positions p1 p2;
  slot = y.slot ∙ ap (λ l. l ++ s2) x.slot ∙ append_assoc a.slot_mapping s1 s2;
  seqs = y.seqs ∙ x.seqs;
}

abbrev closed : ℕ → Sequence → List ℕ → Context → Context
closed s seq slots ctx =
    let end = seq.num_cached_tokens + seq.num_scheduled_tokens in
    record ctx {
      slot_mapping = slots;
      max_seqlen_q = max ctx.max_seqlen_q seq.num_scheduled_tokens;
      max_seqlen_k = max ctx.max_seqlen_k end;
      cu_seqlens_q =
          ctx.cu_seqlens_q ++ ((back_or 0 ctx.cu_seqlens_q + seq.num_scheduled_tokens) ∷ []);
      cu_seqlens_k = ctx.cu_seqlens_k ++ ((back_or 0 ctx.cu_seqlens_k + end) ∷ []);
    }

pub is_empty-false : (xs : List ℕ) → 0 < length xs → is_empty xs ≡ false
is_empty-false [] h = absurd (omega arith)
is_empty-false (x ∷ xs) h = refl

prefill_seq-closed :
    (bs cache s : ℕ) (seq : Sequence) (ctx : Context)
    → IsPrepared bs cache seq
    → prefill_seq bs cache s seq ctx
      ≡ ok (
          closed s seq
            (ctx.slot_mapping
              ++ slots_from bs seq.block_table seq.num_cached_tokens seq.num_scheduled_tokens)
            (push_tokens seq.num_scheduled_tokens 0 s seq ctx))
unfolding prefill_seq
prefill_seq-closed bs cache s seq ctx v =
    let end = seq.num_cached_tokens + seq.num_scheduled_tokens in
    let f1 : (seq.num_scheduled_tokens == 0) ≡ false = ground (arith, v.some_scheduled) in
    let f2 : ltb seq.num_tokens end ≡ false = ground (arith, v.within) in
    let f3 : is_empty seq.block_table ≡ false =
      is_empty-false seq.block_table
        (grind (arith, v.some_scheduled, need-le-table bs cache seq v, need_bounds bs end v.big)) in
    let f4 : ltb (length seq.block_table) ((end + bs - 1) / bs) ≡ false =
      ground (arith, need-le-table bs cache seq v) in
    let p = push_tokens_lem seq.num_scheduled_tokens 0 s seq ctx in
    rw
      (
        f1,
        f2,
        f3,
        f4,
        p.2,
        push_blocks-slots bs cache seq.num_cached_tokens end seq.block_table ctx.slot_mapping
            v.in_range v.big (omega (arith, v.some_scheduled)) (need-le-table bs cache seq v),
      )
      (ap
        (λ n. ok (
          closed s seq (ctx.slot_mapping ++ slots_from bs seq.block_table seq.num_cached_tokens n)
            (push_tokens seq.num_scheduled_tokens 0 s seq ctx)))
        {x = end - seq.num_cached_tokens} (omega arith))

prefill_seq-Added :
    (bs cache s : ℕ) (seq : Sequence) (ctx : Context)
    → IsPrepared bs cache seq
    → (ctx' : Context) × (prefill_seq bs cache s seq ctx ≡ ok ctx')
      × Added ctx ctx'
          (tokens_from seq.token_ids seq.num_cached_tokens seq.num_scheduled_tokens)
          (consecutive seq.num_cached_tokens seq.num_scheduled_tokens)
          (slots_from bs seq.block_table seq.num_cached_tokens seq.num_scheduled_tokens)
prefill_seq-Added bs cache s seq ctx v =
    let p = push_tokens_lem seq.num_scheduled_tokens 0 s seq ctx in
    (
      _,
      prefill_seq-closed bs cache s seq ctx v,
      record {
        input =
            p.0
            ∙ ap (λ t. ctx.input_ids ++ tokens_from seq.token_ids t seq.num_scheduled_tokens)
                (omega arith);
        place =
            p.1 ∙ ap (λ t. ctx.positions ++ consecutive t seq.num_scheduled_tokens) (omega arith);
        slot = refl;
        seqs = p.3;
      },
    )

pub prefill_seqs-Added :
    (bs cache s : ℕ) (seqs : List Sequence) (ctx : Context)
    → AllPrepared bs cache seqs
    → (ctx' : Context) × (prefill_seqs bs cache s seqs ctx ≡ ok ctx')
      × Added ctx ctx' (batch_tokens seqs) (batch_positions seqs) (batch_slots bs seqs)
unfolding prefill_seqs
prefill_seqs-Added bs cache s [] ctx v = (
  ctx,
  refl,
  record {
    input = sym (append-nil ctx.input_ids);
    place = sym (append-nil ctx.positions);
    slot = sym (append-nil ctx.slot_mapping);
    seqs = refl;
  },
)
prefill_seqs-Added bs cache s (seq ∷ seqs) ctx v =
    let first = prefill_seq-Added bs cache s seq ctx v.0 in
    let rest = prefill_seqs-Added bs cache (s + 1) seqs first.0 v.1 in
    (
      rest.0,
      rw (first.1) (rest.1),
      Added-trans (tokens_from seq.token_ids seq.num_cached_tokens seq.num_scheduled_tokens)
          (consecutive seq.num_cached_tokens seq.num_scheduled_tokens)
          (slots_from bs seq.block_table seq.num_cached_tokens seq.num_scheduled_tokens)
          (batch_tokens seqs) (batch_positions seqs) (batch_slots bs seqs) first.2 rest.2,
    )

-- A row of the block tables: the sequence's blocks, then the filler -1.
abbrev pub filled_row : ℕ → List ℕ → List ℤ
filled_row zero table = []
filled_row (suc width) [] = negsuc 0 ∷ filled_row width []
filled_row (suc width) (block ∷ table) = pos block ∷ filled_row width table

abbrev pub filled_rows : ℕ → List Sequence → List ℤ
filled_rows width [] = []
filled_rows width (seq ∷ seqs) = filled_row width seq.block_table ++ filled_rows width seqs

table_row-filled :
    (cache width : ℕ) (table : List ℕ)
    → InRange cache table
    → table_row cache width table ≡ ok (filled_row width table)
unfolding table_row
table_row-filled cache zero table range = refl
table_row-filled cache (suc width) [] range = rw (table_row-filled cache width [] range) refl
table_row-filled cache (suc width) (block ∷ table) range =
    check_block-in_range cache block _ (range 0 (omega arith))
    ∙ rw (table_row-filled cache width table (λ i h. range (suc i) (omega arith))) refl

abbrev pub AllInRange : ℕ → List Sequence → Type 0
AllInRange cache [] = Unit {0}
AllInRange cache (seq ∷ seqs) = InRange cache seq.block_table × AllInRange cache seqs

pub AllPrepared-AllInRange :
    (bs cache : ℕ) (seqs : List Sequence) → AllPrepared bs cache seqs → AllInRange cache seqs
AllPrepared-AllInRange bs cache [] v = v
AllPrepared-AllInRange bs cache (seq ∷ seqs) v =
    (v.0.in_range, AllPrepared-AllInRange bs cache seqs v.1)

pub table_rows-filled :
    (cache width : ℕ) (seqs : List Sequence)
    → AllInRange cache seqs
    → table_rows cache width seqs ≡ ok (filled_rows width seqs)
unfolding table_rows
table_rows-filled cache width [] v = refl
table_rows-filled cache width (seq ∷ seqs) v =
    rw (table_row-filled cache width seq.block_table v.0, table_rows-filled cache width seqs v.1)
      refl
