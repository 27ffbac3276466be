-- ===== src/Runner/Slots.antt =====
-- The slots that `prepare_prefill` and `prepare_decode` of src/model_runner.cpp compute, block by
-- block, against the slot of a token position read off the block table.
use nano_v_llm_cpp.Base.{
  ℕ, zero, suc, ◌+◌, ◌-◌, ◌*◌, ◌/◌, ◌%◌, ◌≤◌, ◌<◌, ◌≡◌, ◌∙◌, sym, ap, inl, inr, refl, not, List, [],
  ◌∷◌, ◌++◌, arith, ◌==◌, if◌then◌else◌, Bool-cases, ==_iff, length, get_or,
}
use mathlib.Core.List.{append_assoc, append-nil}
use native.Mathlib.Nat.{div-eq_of_lt-le, div-add-mod', mod-lt}
use nano_v_llm_cpp.Result.{ok}
use nano_v_llm_cpp.Sequence.{Sequence, back_or, num_blocks}
use nano_v_llm_cpp.Runner.{push_blocks, decode_slot}
use nano_v_llm_cpp.Runner.Positions.{
  InRange, check_block-in_range, need_bounds, push_slots-block, slot_of, slots_from, slots_join,
}

module _ (bs num_blocks start end : ℕ) (table : List ℕ) (range : InRange num_blocks table)
    (big : 1 < bs) (some_tokens : start < end) (covers : (end + bs - 1) / bs ≤ length table) where
  -- Where the loop starts in block `q`.
  abbrev offset : ℕ → ℕ
  offset q = if q == start / bs then start % bs else 0

  abbrev slot_end : ℕ → ℕ
  slot_end q =
      if not (q == (end + bs - 1) / bs - 1)
      then get_or table q 0 * bs + bs
      else get_or table q 0 * bs + end - q * bs

  block_step :
      (rounds q k : ℕ) (slots out : List ℕ)
      → slot_end q ≡ get_or table q 0 * bs + offset q + k
      → offset q + k ≤ bs
      → q < length table
      → push_blocks bs num_blocks start end table rounds
          (q + 1)
          (slots ++ slots_from bs table (q * bs + offset q) k)
        ≡ ok out
      → push_blocks bs num_blocks start end table (suc rounds) q slots ≡ ok out
  unfolding push_blocks
  block_step rounds q k slots out e1 e2 h rest =
      check_block-in_range num_blocks (get_or table q 0) _ (range q h)
      ∙ rw (width) (
          rw (begin)
            (rw (push_slots-block bs num_blocks q (offset q) k table slots range h e2) rest))
    where
      begin :
          (if q == start / bs then get_or table q 0 * bs + start % bs else get_or table q 0 * bs)
          ≡ get_or table q 0 * bs + offset q
      begin = ground arith

      width :
          slot_end q
            - (if q == start / bs
                then get_or table q 0 * bs + start % bs
                else get_or table q 0 * bs)
          ≡ k
      width = omega (arith, e1, begin)

  -- In a block that the loop visits, it starts before the end.
  offset_bounds :
      (q rounds : ℕ)
      → start / bs ≤ q
      → q + suc rounds ≡ (end + bs - 1) / bs
      → (q * bs + offset q < end) × (offset q < bs) × (q < length table)
  offset_bounds q rounds above e = elim (Bool-cases (q == start / bs)) [
    | inl same ↦ rw same (
        omega (
          arith,
          div-add-mod' start bs,
          mod-lt start {m = bs} (omega arith),
          ap (λ k. k * bs) ((==_iff _ _).0 same),
          covers,
        ))
    | inr other ↦ rw other (omega (arith, need_bounds bs end big, ap (λ k. k * bs) e, covers))
  ]

  -- The blocks from `q` on give the slots of the positions from there to the end.
  blocks_from :
      (rounds q : ℕ) (slots : List ℕ)
      → start / bs ≤ q
      → q + rounds ≡ (end + bs - 1) / bs
      → push_blocks bs num_blocks start end table rounds q slots
        ≡ ok (slots ++ slots_from bs table (q * bs + offset q) (end - (q * bs + offset q)))
  unfolding push_blocks
  blocks_from zero q slots above e =
      ap ok (sym (append-nil slots))
      ∙ ap (λ n. ok (slots ++ slots_from bs table (q * bs + offset q) n)) {x = 0}
          (omega (arith, need_bounds bs end big, ap (λ k. k * bs) e))
  blocks_from (suc zero) q slots above e =
      let b = offset_bounds q 0 above e in
      block_step 0 q (end - (q * bs + offset q)) slots _ (ground (arith, b, e))
        (omega (arith, b, need_bounds bs end big, ap (λ k. k * bs) e)) b.2 refl
  blocks_from (suc (suc rounds)) q slots above e =
      let b = offset_bounds q (suc rounds) above e in
      block_step (suc rounds) q (bs - offset q) slots _ (ground (arith, b, e)) (omega (arith, b))
        b.2
        (blocks_from (suc rounds) (q + 1) _ (omega arith) (omega arith)
          ∙ ap ok (
              append_assoc slots (slots_from bs table (q * bs + offset q) (bs - offset q)) _
              ∙ ap (◌++◌ slots) (
                  slots_join bs table (q * bs + offset q) (bs - offset q) _ end (next b.1)
                    (fits (need_bounds bs end big) (next b.1) b.1))))
    where
      next : offset q < bs → (q + 1) * bs + offset (q + 1) ≡ q * bs + offset q + (bs - offset q)
      next h = ground (arith, above)

      fits :
          (end ≤ (end + bs - 1) / bs * bs) × ((end + bs - 1) / bs * bs < end + bs)
          → (q + 1) * bs + offset (q + 1) ≡ q * bs + offset q + (bs - offset q)
          → offset q < bs
          → (q + 1) * bs + offset (q + 1) ≤ end
      fits n x h = omega (arith, ap (λ k. k * bs) e)

-- Where the blocks of the table lie in the cache and cover the tokens up to `end`, and the block
-- size is above 1, the loop over the blocks of one sequence throws nothing and pushes exactly the
-- slot of each position from `start` up to `end`, in order.
pub push_blocks-slots :
    (bs num_blocks start end : ℕ) (table slots : List ℕ)
    → InRange num_blocks table
    → 1 < bs
    → start < end
    → (end + bs - 1) / bs ≤ length table
    → push_blocks bs num_blocks start end table
        ((end + bs - 1) / bs - start / bs)
        (start / bs)
        slots
      ≡ ok (slots ++ slots_from bs table start (end - start))
push_blocks-slots bs num_blocks start end table slots range big some_tokens covers =
    blocks_from bs num_blocks start end table range big some_tokens covers _ (start / bs) slots
      (omega arith) (omega (arith, inside))
    ∙ ap (λ u. ok (slots ++ slots_from bs table u (end - u)))
        (ground (arith, div-add-mod' start bs))
  where
    inside : start / bs ≤ (end + bs - 1) / bs
    inside =
        grind (
          arith,
          need_bounds bs end big,
          div-add-mod' start bs,
          mod-lt start {m = bs} (omega arith),
        )

back_or_lem : (x d : ℕ) (xs : List ℕ) → back_or x xs ≡ get_or (x ∷ xs) (length xs) d
back_or_lem x d [] = refl
back_or_lem x d (y ∷ ys) = back_or_lem y d ys

pub back_or-get_or : (xs : List ℕ) (m d : ℕ) → length xs ≡ suc m → back_or d xs ≡ get_or xs m d
back_or-get_or [] m d e = absurd (omega arith)
back_or-get_or (x ∷ xs) m d e =
    back_or_lem x d xs ∙ ap (λ k. get_or (x ∷ xs) k d) {x = length xs} (omega arith)

-- The last position, by block and offset.
last_position :
    (bs n m : ℕ)
    → 1 < bs
    → 0 < n
    → (n + bs - 1) / bs ≡ suc m
    → ((n - 1) / bs ≡ m) × (m * bs + (n - 1) % bs ≡ n - 1)
last_position bs n m big h e =
    let b = need_bounds bs n big in
    let q : (n - 1) / bs ≡ m =
      div-eq_of_lt-le bs (omega (arith, b, ap (λ k. k * bs) e))
        (omega (arith, b, ap (λ k. k * bs) e)) in
    (q, omega (arith, div-add-mod' (n - 1) bs, ap (λ k. k * bs) q))

-- For a sequence with a token and a table of exactly the blocks that its tokens take, of a size
-- above 1, the slot that a decode step writes is that of the sequence's last position.
pub decode_slot-slot_of :
    (bs : ℕ) (seq : Sequence)
    → 1 < bs
    → 0 < seq.num_tokens
    → length seq.block_table ≡ num_blocks bs seq
    → decode_slot bs seq ≡ slot_of bs seq.block_table (seq.num_tokens - 1)
unfolding decode_slot
decode_slot-slot_of bs seq big some_tokens covers =
    slot (num_blocks bs seq - 1) (grind (arith, need_bounds bs seq.num_tokens big))
  where
    pred_suc : (m : ℕ) → suc m - 1 ≡ m
    pred_suc m = omega arith

    slot :
        (m : ℕ)
        → num_blocks bs seq ≡ suc m
        → decode_slot bs seq ≡ slot_of bs seq.block_table (seq.num_tokens - 1)
    slot m e =
        let l = last_position bs seq.num_tokens m big some_tokens e in
        rw (l.0, back_or-get_or seq.block_table m 0 (covers ∙ e), e)
          (omega (arith, l.1, ap (λ k. k * bs) (pred_suc m)))
