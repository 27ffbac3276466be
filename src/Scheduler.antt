-- ===== src/Scheduler.antt =====
-- src/scheduler.cpp and include/nanovllm/scheduler.hpp. A `shared_ptr<Sequence>` is a number, and
-- `store` gives the sequence that it points to: the queues, the scheduled batch and the engine
-- share it. The deques are lists from front to back.
pub mod Owners
pub mod Queues
pub mod Shapes
pub mod Placed
pub mod Filling
pub mod Prefill
pub mod Decode
pub mod Preemption
pub mod DecodeLoop
pub mod Progress
pub mod Total
pub mod Postprocess
pub mod Add
pub mod Tests
use nano_v_llm_cpp.Base.{
  ℕ, zero, suc, ◌+◌, ◌-◌, ◌*◌, min, Bool, true, false, not, ◌&&◌, ◌||◌, List, [], ◌∷◌, ◌++◌,
  reverse, Option, none, some, ◌==◌, ltb, if◌then◌else◌, length, is_empty, erase,
}
use nano_v_llm_cpp.Result.{Error, Result, ok, err, no_progress, size_mismatch}
use nano_v_llm_cpp.Sequence.{Status, Sequence, append_token, num_completion_tokens}
use nano_v_llm_cpp.Sequence
use nano_v_llm_cpp.BlockManager.{
  BlockManager, put, can_allocate, allocate, deallocate, can_append, may_append, hash_blocks,
  new_manager,
}

pub record Config : Type 0 where
  pub max_num_seqs : ℕ
  pub max_num_batched_tokens : ℕ
  pub eos : ℕ
  pub kvcache_block_size : ℕ
  pub num_kvcache_blocks : ℕ

pub record Scheduler : Type 0 where
  pub max_num_seqs : ℕ
  pub max_num_batched_tokens : ℕ
  pub eos : ℕ
  pub block_size : ℕ
  pub block_manager : BlockManager
  pub waiting : List ℕ
  pub running : List ℕ
  pub store : ℕ → Sequence

unfoldable pub new_scheduler : Config → (ℕ → Sequence) → Scheduler
new_scheduler c store = record {
  max_num_seqs = c.max_num_seqs;
  max_num_batched_tokens = c.max_num_batched_tokens;
  eos = c.eos;
  block_size = c.kvcache_block_size;
  block_manager = new_manager c.num_kvcache_blocks c.kvcache_block_size;
  waiting = [];
  running = [];
  store = store;
}

unfoldable pub is_finished : Scheduler → Bool
is_finished s = is_empty s.waiting && is_empty s.running

unfoldable pub add : Scheduler → ℕ → Scheduler
add s p = record s { waiting = s.waiting ++ (p ∷ []) }

pub preempt : Scheduler → ℕ → Scheduler
preempt s p =
    let seq = record (s.store p) { status = Status.waiting; is_prefill = true } in
    let (m, seq') = deallocate s.block_manager seq in
    record s { store = put p seq' s.store; block_manager = m; waiting = p ∷ s.waiting }

-- What one round of a loop does: break, throw, or go on with so many more tokens in the batch.
pub data Round : Type 0 where
  stops : Scheduler → Round
  throws : Error → Round
  goes : Scheduler → ℕ → Round

-- The blocks found in the cache, and the tokens still to be computed; `none` is the `break` when
-- nothing can be allocated.
pub admit : ℕ → Scheduler → Sequence → Option (ℕ × ℕ)
admit bs s seq =
    if is_empty seq.block_table
    then elim (can_allocate bs s.block_manager seq) [
      | none ↦ none
      | some n ↦ some (n, seq.num_tokens - n * s.block_size)
    ]
    else some (0, seq.num_tokens - seq.num_cached_tokens)

abbrev pub place : ℕ → BlockManager → Sequence → ℕ → Result (BlockManager × Sequence)
place bs m seq n = if is_empty seq.block_table then allocate bs m seq n else ok (m, seq)

-- The end of a prefill round: `sched` tokens of the sequence at the front are scheduled. Once its
-- last token is among them it moves to the running queue.
pub enlist : Scheduler → ℕ → List ℕ → BlockManager → Sequence → ℕ → Scheduler
enlist s p rest m seq sched =
    if seq.num_cached_tokens + sched == seq.num_tokens
    then record s {
      block_manager = m;
      store = put p (record seq { num_scheduled_tokens = sched; status = Status.running }) s.store;
      waiting = rest;
      running = s.running ++ (p ∷ []);
    }
    else record s {
      block_manager = m;
      store = put p (record seq { num_scheduled_tokens = sched }) s.store;
    }

-- One round of the prefill loop, for the sequence `p` at the front of the waiting queue.
pub prefill_round : ℕ → Scheduler → ℕ → List ℕ → Bool → ℕ → Round
prefill_round bs s p rest first batched =
    let seq = s.store p in
    let remaining = s.max_num_batched_tokens - batched in
    if remaining == 0 then stops s else elim (admit bs s seq) [
      | none ↦ stops s
      | some (cached_blocks, num_tokens) ↦
          if ltb remaining num_tokens && not first
          then stops s
          else elim (place bs s.block_manager seq cached_blocks) [
            | err e ↦ throws e
            | ok (m, seq') ↦
                goes (enlist s p rest m seq' (min num_tokens remaining))
                  (batched + min num_tokens remaining)
          ]
    ]

-- The prefill loop. Each round that goes on adds to the batch, so `max_num_seqs` bounds them.
pub prefill : ℕ → ℕ → Scheduler → List ℕ → ℕ → Result (Scheduler × List ℕ × ℕ)
prefill bs zero s scheduled batched = ok (s, scheduled, batched)
prefill bs (suc slots) s scheduled batched = elim s.waiting [
  | [] ↦ ok (s, scheduled, batched)
  | p ∷ rest ↦ elim (prefill_round bs s p rest (is_empty scheduled) batched) [
    | stops s' ↦ ok (s', scheduled, batched)
    | throws e ↦ err e
    | goes s' batched' ↦ prefill bs slots s' (scheduled ++ (p ∷ [])) batched'
  ]
]

-- `while (!can_append(*seq))`: the victims are the running queue from the back.
pub make_room : List ℕ → Scheduler → ℕ → Scheduler × Bool
make_room [] s p =
    if can_append s.block_manager (s.store p) then (s, true) else (preempt s p, false)
make_room (victim ∷ victims) s p = elim (can_append s.block_manager (s.store p)) [
  | true ↦ (s, true)
  | false ↦ make_room victims (preempt (record s { running = reverse victims }) victim) p
]

-- A decode round for the sequence `p`, which has left the running queue.
pub decode_round : Scheduler → ℕ → Round
decode_round s p =
    let (s', fits) = make_room (reverse s.running) s p in
    if not fits
    then stops s'
    else elim (may_append s'.block_manager
        (record (s'.store p) { num_scheduled_tokens = 1; is_prefill = false })) [
          | err e ↦ throws e
          | ok (m, seq) ↦ goes (record s' { block_manager = m; store = put p seq s'.store }) 1
        ]

-- The decode loop; a round that schedules nothing breaks it.
pub decode : ℕ → Scheduler → List ℕ → Result (Scheduler × List ℕ)
decode zero s scheduled = ok (s, scheduled)
decode (suc slots) s scheduled = elim s.running [
  | [] ↦ ok (s, scheduled)
  | p ∷ rest ↦ elim (decode_round (record s { running = rest }) p) [
    | stops s' ↦ ok (s', scheduled)
    | throws e ↦ err e
    | goes s' _ ↦ decode slots s' (scheduled ++ (p ∷ []))
  ]
]

-- What `schedule` returns: the batch and whether it is a prefill.
abbrev pub Scheduled : Type 0
Scheduled = Result (Scheduler × List ℕ × Bool)

-- The end of `schedule`, after the decode loop: the batch goes back to the front of the running
-- queue. With no batch it starts over (`again`) if something waits.
pub conclude : (Scheduler → Option Scheduled) → Scheduler → List ℕ → Option Scheduled
conclude again s [] = elim (is_empty s.waiting) [ true ↦ some (err no_progress) | false ↦ again s ]
conclude again s (p ∷ ps) = some (ok (record s { running = (p ∷ ps) ++ s.running }, p ∷ ps, false))

-- `depth` bounds the calls that `schedule` makes of itself; `none` says that there were more.
pub schedule : ℕ → ℕ → Scheduler → Option Scheduled
unfolding conclude
schedule zero bs s = none
schedule (suc depth) bs s = elim (prefill bs s.max_num_seqs s [] 0) [
  | err e ↦ some (err e)
  | ok (s1, scheduled, batched) ↦
      if not (is_empty scheduled)
      then some (ok (s1, scheduled, true))
      else elim (decode s1.max_num_seqs s1 []) [
        | err e ↦ some (err e)
        | ok (s2, batch) ↦ conclude (schedule depth bs) s2 batch
      ]
]

abbrev pub finishes : Scheduler → Sequence → ℕ → Bool
finishes s seq token =
    (not seq.ignore_eos && token == s.eos) || num_completion_tokens seq == seq.max_tokens

-- One round of `postprocess`.
pub postprocess_one : ℕ → Scheduler → ℕ → ℕ → Bool → Scheduler
postprocess_one bs s p token is_prefill =
    let seq = s.store p in
    let m = hash_blocks bs s.block_manager seq in
    let seq1 = record seq {
      num_cached_tokens = seq.num_cached_tokens + seq.num_scheduled_tokens;
      num_scheduled_tokens = 0;
    } in
    if is_prefill && ltb seq1.num_cached_tokens seq1.num_tokens
    then record s { block_manager = m; store = put p seq1 s.store }
    else (let seq2 = append_token seq1 token in
        if finishes s seq2 token
        then (let (m', seq3) = deallocate m (record seq2 { status = Status.finished }) in
            record s {
              block_manager = m';
              store = put p seq3 s.store;
              running = erase p s.running;
            })
        else record s { block_manager = m; store = put p seq2 s.store })

pub postprocess_all : ℕ → Scheduler → List (ℕ × ℕ) → Bool → Scheduler
postprocess_all bs s [] is_prefill = s
postprocess_all bs s ((p, token) ∷ rest) is_prefill =
    postprocess_all bs (postprocess_one bs s p token is_prefill) rest is_prefill

abbrev pub zip : List ℕ → List ℕ → List (ℕ × ℕ)
zip [] ys = []
zip (x ∷ xs) [] = []
zip (x ∷ xs) (y ∷ ys) = (x, y) ∷ zip xs ys

pub postprocess : ℕ → Scheduler → List ℕ → List ℕ → Bool → Result Scheduler
postprocess bs s seqs token_ids is_prefill =
    if not (length token_ids == length seqs)
    then err size_mismatch
    else ok (postprocess_all bs s (zip seqs token_ids) is_prefill)
