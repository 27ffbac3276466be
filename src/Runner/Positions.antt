-- ===== src/Runner/Positions.antt =====
-- The slots of token positions by the block table, and the inner loop of `prepare_prefill` of
-- src/model_runner.cpp.
use nano_v_llm_cpp.Base.{
  ℕ, zero, suc, ◌+◌, ◌-◌, ◌*◌, ◌/◌, ◌%◌, ◌≤◌, ◌<◌, ◌≡◌, ◌∙◌, sym, ap, refl, List, [], ◌∷◌, ◌++◌,
  arith, length, get_or,
}
use mathlib.Core.List.{append_assoc, append-nil}
use mathlib.Core.Path.{ap₂}
use nano_v_llm_cpp.Base.Division.{div-of_parts, mod-of_parts}
use native.Mathlib.Nat.{div-add-mod', mod-lt, add_assoc}
use nano_v_llm_cpp.Result.{Result, ok}
use nano_v_llm_cpp.Sequence.{num_blocks}
use nano_v_llm_cpp.Runner.{check_block, push_slots}

-- Where the keys and values of the token at position `t` are stored.
abbrev pub slot_of : ℕ → List ℕ → ℕ → ℕ
slot_of bs table t = get_or table (t / bs) 0 * bs + t % bs

-- The slots of `n` positions from `t` on.
abbrev pub slots_from : ℕ → List ℕ → ℕ → ℕ → List ℕ
slots_from bs table t zero = []
slots_from bs table t (suc n) = slot_of bs table t ∷ slots_from bs table (t + 1) n

abbrev pub consecutive : ℕ → ℕ → List ℕ
consecutive i zero = []
consecutive i (suc n) = i ∷ consecutive (i + 1) n

slots_from-add :
    (bs : ℕ) (table : List ℕ) (t a b : ℕ)
    → slots_from bs table t (a + b) ≡ slots_from bs table t a ++ slots_from bs table (t + a) b
slots_from-add bs table t zero b =
    ap (slots_from bs table t) (omega arith) ∙ ap (λ u. slots_from bs table u b) (omega arith)
slots_from-add bs table t (suc a) b =
    ap (slots_from bs table t) {y = suc (a + b)} (omega arith)
    ∙ ap (◌∷◌ (slot_of bs table t)) (
        slots_from-add bs table (t + 1) a b
        ∙ ap (λ u. slots_from bs table (t + 1) a ++ slots_from bs table u b) (omega arith))

pub slots_join :
    (bs : ℕ) (table : List ℕ) (u a w end : ℕ)
    → w ≡ u + a
    → w ≤ end
    → slots_from bs table u a ++ slots_from bs table w (end - w) ≡ slots_from bs table u (end - u)
slots_join bs table u a w end e h =
    rw (e) (sym (slots_from-add bs table u a (end - (u + a))))
    ∙ ap (slots_from bs table u) {x = a + (end - (u + a))} (omega arith)

-- Within one block the slots are consecutive.
slots_from-block :
    (bs : ℕ) (table : List ℕ) (q r n : ℕ)
    → r + n ≤ bs
    → slots_from bs table (q * bs + r) n ≡ consecutive (get_or table q 0 * bs + r) n
slots_from-block bs table q r zero h = refl
slots_from-block bs table q r (suc n) h =
    ap₂ ◌∷◌ (rw (div-of_parts bs q r (omega arith), mod-of_parts bs q r (omega arith))) (
      ap (λ u. slots_from bs table u n) (omega arith)
      ∙ slots_from-block bs table q (r + 1) n (omega arith)
      ∙ ap (λ u. consecutive u n) (omega arith))

push_slots-consecutive :
    (max_slot n slot : ℕ) (slots : List ℕ)
    → slot + n ≤ max_slot
    → push_slots max_slot n slot slots ≡ ok (slots ++ consecutive slot n)
unfolding push_slots
push_slots-consecutive max_slot zero slot slots h = ap ok (sym (append-nil slots))
push_slots-consecutive max_slot (suc n) slot slots h = ground (
  arith,
  push_slots-consecutive max_slot n (slot + 1) (slots ++ (slot ∷ [])) (omega arith),
  append_assoc slots (slot ∷ []) (consecutive (slot + 1) n),
)

-- All blocks of the table from index `bi` on are blocks of the cache.
abbrev pub InRange : ℕ → List ℕ → Type 0
InRange num_blocks table = (i : ℕ) → i < length table → get_or table i 0 < num_blocks

pub slot_end_fits : (bs n b k : ℕ) → b < n → k ≤ bs → b * bs + k ≤ n * bs
slot_end_fits bs n b k h g = grind arith

pub check_block-in_range :
    {A : Type 0} (num_blocks block : ℕ) (rest : Result A)
    → block < num_blocks
    → check_block num_blocks block rest ≡ rest
unfolding check_block
check_block-in_range num_blocks block rest h = ground arith

-- From the position `q * bs + r` the inner loop pushes the slots of `k` positions.
pub push_slots-block :
    (bs num_blocks q r k : ℕ) (table slots : List ℕ)
    → InRange num_blocks table
    → q < length table
    → r + k ≤ bs
    → push_slots (num_blocks * bs) k (get_or table q 0 * bs + r) slots
      ≡ ok (slots ++ slots_from bs table (q * bs + r) k)
push_slots-block bs num_blocks q r k table slots range h g =
    push_slots-consecutive (num_blocks * bs) k (get_or table q 0 * bs + r) slots
      (rw (add_assoc) (slot_end_fits bs num_blocks (get_or table q 0) (r + k) (range q h) g))
    ∙ ap (λ l. ok (slots ++ l)) (sym (slots_from-block bs table q r k g))

pub need_bounds :
    (bs end : ℕ) → 1 < bs → (end ≤ (end + bs - 1) / bs * bs) × ((end + bs - 1) / bs * bs < end + bs)
need_bounds bs end h =
    omega (arith, div-add-mod' (end + bs - 1) bs, mod-lt (end + bs - 1) {m = bs} (omega arith))
