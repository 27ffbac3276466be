-- ===== src/Scheduler/Total.antt =====
-- Whether `Scheduler::schedule` of src/scheduler.cpp returns, over the calls that it makes of itself.
use nano_v_llm_cpp.Base.{
  ℕ, zero, suc, ◌≤◌, ◌<◌, ◌≡◌, ◌≢◌, ◌∙◌, ap, subst, refl, List, [], ◌∷◌, ◌++◌, Bool, true, false,
  Option, none, some, arith, if◌then◌else◌, length, hit_eq, ltb, count, count-append, length-append,
  length-each_once,
}
use nano_v_llm_cpp.Result.{ok}
use nano_v_llm_cpp.Sequence.{Sequence, num_blocks}
use nano_v_llm_cpp.BlockManager.{BlockManager, can_allocate}
use nano_v_llm_cpp.BlockManager.Invariant.{Invariant}
use nano_v_llm_cpp.BlockManager.Allocate.{can_allocate-fits}
use nano_v_llm_cpp.Scheduler.{Scheduler, Scheduled, prefill_round, admit, prefill, decode, schedule}
use nano_v_llm_cpp.Scheduler.Owners.{owners}
use nano_v_llm_cpp.Scheduler.Shapes.{IsFull, Phase}
use nano_v_llm_cpp.Scheduler.Decode.{Decoding}
use nano_v_llm_cpp.Scheduler.Progress.{
  Outcome, prefills, decodes, idle, restarts, schedule-Outcome, Phase-of-Decoding,
}

-- With no owner every block is free.
free_count-unowned : (m : BlockManager) → Invariant m [] → length m.free_block_ids ≡ length m.blocks
free_count-unowned m v = length-each_once _ _ (λ id. one id)
  where
    one : (id : ℕ) → count id m.free_block_ids ≡ (if ltb id (length m.blocks) then 1 else 0)
    one id = ground (arith, v.at id)

owners_empty :
    (store : ℕ → Sequence) (ps : List ℕ)
    → ((p : ℕ) → 0 < count p ps → (store p).block_table ≡ [])
    → owners store ps ≡ []
owners_empty store [] h = refl
owners_empty store (p ∷ ps) h =
    rw (h p (omega (arith, hit_eq p p refl))) (owners_empty store ps (λ q g. h q (omega arith)))

module _ (bs : ℕ) (s : Scheduler) (d : Decoding bs [] [] s) (r : s.running ≡ []) where
  drained_free : length s.block_manager.free_block_ids ≡ length s.block_manager.blocks
  drained_free =
      free_count-unowned s.block_manager
        (subst (Invariant s.block_manager) none_owned d.queues.allocator)
    where
      none_owned : owners s.store (s.waiting ++ s.running) ≡ []
      none_owned =
          owners_empty s.store (s.waiting ++ s.running) (λ p h.
            d.no_blocks p (omega (arith, count-append p s.waiting s.running, ap (count p) r)))

  drained_Phase : Phase bs [] s
  drained_Phase = Phase-of-Decoding bs [] s d

  -- The front of the queue is admitted, where it fits the cache.
  front_allocates :
      (p : ℕ)
      → num_blocks bs (s.store p) ≤ length s.block_manager.blocks
      → can_allocate bs s.block_manager (s.store p) ≢ none
  front_allocates p h =
      can_allocate-fits bs s.block_manager (s.store p) (omega (arith, drained_free))

-- A batch came back.
pub record Returned (bs : ℕ) (s : Scheduler) (depth : ℕ) : Type 0 where
  pub after : Scheduler
  pub batch : List ℕ
  pub is_prefill : Bool
  pub runs : schedule depth bs s ≡ some (ok (after, batch, is_prefill))
  pub phase : Phase bs batch after
  pub nonempty : 0 < length batch
  pub decodes : is_prefill ≡ false → (p : ℕ) → 0 < count p batch → IsFull bs (after.store p)
  pub same_blocks : length after.block_manager.blocks ≡ length s.block_manager.blocks

second_call :
    (bs : ℕ) (s : Scheduler)
    → Decoding bs [] [] s
    → s.running ≡ []
    → 0 < length s.waiting
    → 0 < s.max_num_batched_tokens
    → 0 < s.max_num_seqs
    → ((p : ℕ) → 0 < count p s.waiting → num_blocks bs (s.store p) ≤ length s.block_manager.blocks)
    → Returned bs s 1
second_call bs s d r n h1 h2 fit =
    came (schedule 1 bs s) refl (schedule-Outcome bs 0 s (drained_Phase bs s d r) h1 h2)
  where
    front :
        (ws : List ℕ)
        → s.waiting ≡ ws
        → ((p : ℕ) (rest : List ℕ)
            → s.waiting ≡ p ∷ rest
            → can_allocate bs s.block_manager (s.store p) ≡ none)
        → ⊥
    front [] w st = omega (arith, ap length w)
    front (p ∷ rest) w st =
        front_allocates bs s d r p (fit p (omega (arith, ap (count p) w, hit_eq p p refl)))
          (st p rest w)

    came :
        (out : Option Scheduled)
        → schedule 1 bs s ≡ out
        → Outcome bs s (schedule 0 bs) out
        → Returned bs s 1
    came _ e (prefills s' batch v k _ _ b) = record {
      after = s';
      batch = batch;
      is_prefill = true;
      runs = e;
      phase = v;
      nonempty = k;
      decodes = λ x. absurd (cc);
      same_blocks = b;
    }
    came _ e (decodes s' batch v k _ full b) = record {
      after = s';
      batch = batch;
      is_prefill = false;
      runs = e;
      phase = v;
      nonempty = k;
      decodes = λ x. full;
      same_blocks = b;
    }
    came _ e (idle w _) = absurd (omega (arith, ap length w))
    came _ e (restarts s' _ _ _ _ st) = absurd (front s.waiting refl st)

-- From rest, with room for one sequence and one token in a batch, if some sequence is queued and
-- every queued sequence fits the whole cache, `schedule` returns a batch that is not empty and in
-- order, and calls itself at most once on the way.
pub schedule-Returned :
    (bs : ℕ) (s : Scheduler)
    → Phase bs [] s
    → 0 < length (s.waiting ++ s.running)
    → 0 < s.max_num_batched_tokens
    → 0 < s.max_num_seqs
    → ((p : ℕ)
        → 0 < count p (s.waiting ++ s.running)
        → num_blocks bs (s.store p) ≤ length s.block_manager.blocks)
    → Returned bs s 2
schedule-Returned bs s v n h1 h2 fit = came (schedule 2 bs s) refl (schedule-Outcome bs 1 s v h1 h2)
  where
    came :
        (out : Option Scheduled)
        → schedule 2 bs s ≡ out
        → Outcome bs s (schedule 1 bs) out
        → Returned bs s 2
    came _ e (prefills s' batch v' k _ _ b) = record {
      after = s';
      batch = batch;
      is_prefill = true;
      runs = e;
      phase = v';
      nonempty = k;
      decodes = λ x. absurd (cc);
      same_blocks = b;
    }
    came _ e (decodes s' batch v' k _ full b) = record {
      after = s';
      batch = batch;
      is_prefill = false;
      runs = e;
      phase = v';
      nonempty = k;
      decodes = λ x. full;
      same_blocks = b;
    }
    came _ e (idle w r) =
        absurd (omega (arith, length-append s.waiting s.running, ap length w, ap length r))
    came _ e (restarts s' d r k m _) =
        let g : Returned bs s' 1 =
          second_call bs s' d r k (rw (m.tokens) h1) (rw (m.seqs) h2) (λ p h.
            rw (m.blocks, m.sizes p)
              (fit p (
                omega (arith, m.members p, count-append p s.waiting s.running, ap (count p) r)))) in
        record {
          after = g.after;
          batch = g.batch;
          is_prefill = g.is_prefill;
          runs = e ∙ g.runs;
          phase = g.phase;
          nonempty = g.nonempty;
          decodes = g.decodes;
          same_blocks = g.same_blocks ∙ m.blocks;
        }

stuck_prefill :
    (bs slots p : ℕ) (rest : List ℕ) (s : Scheduler)
    → s.waiting ≡ p ∷ rest
    → (s.store p).block_table ≡ []
    → can_allocate bs s.block_manager (s.store p) ≡ none
    → prefill bs slots s [] 0 ≡ ok (s, [], 0)
unfolding prefill prefill_round admit
stuck_prefill bs zero p rest s w t c = refl
stuck_prefill bs (suc slots) p rest s w t c = ground (arith, w, t, c)

stuck_decode : (slots : ℕ) (s : Scheduler) → s.running ≡ [] → decode slots s [] ≡ ok (s, [])
unfolding decode
stuck_decode zero s r = refl
stuck_decode (suc slots) s r = ground (arith, r)

-- Where nothing runs and the sequence at the front has no blocks and cannot be allocated,
-- `schedule` calls itself without end: no number of calls is enough, and it never throws.
pub schedule-diverges :
    (depth bs p : ℕ) (rest : List ℕ) (s : Scheduler)
    → s.running ≡ []
    → s.waiting ≡ p ∷ rest
    → (s.store p).block_table ≡ []
    → can_allocate bs s.block_manager (s.store p) ≡ none
    → schedule depth bs s ≡ none
unfolding schedule
schedule-diverges zero bs p rest s r w t c = refl
schedule-diverges (suc depth) bs p rest s r w t c =
    rw (stuck_prefill bs s.max_num_seqs p rest s w t c, schedule)
      (rw (stuck_decode s.max_num_seqs s r)
        (ground (arith, w, schedule-diverges depth bs p rest s r w t c)))
