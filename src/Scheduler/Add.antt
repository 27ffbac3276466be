-- ===== src/Scheduler/Add.antt =====
-- A new scheduler, and `Scheduler::add` of a new sequence.
use nano_v_llm_cpp.Base.{
  ℕ, ◌+◌, ◌≤◌, ◌<◌, ◌≡◌, ap, subst, inl, inr, refl, List, [], ◌∷◌, ◌++◌, some, arith, ◌==◌,
  Bool-cases, ==_iff, hit, hit_eq, hit_ne, count, erase, count-append, count-erase,
}
use nano_v_llm_cpp.Sequence.{Sequence, SamplingParams, new_sequence}
use nano_v_llm_cpp.BlockManager.Invariant.{Invariant-owners}
use nano_v_llm_cpp.BlockManager.Steps.{new_manager-Invariant, new_manager-block_size}
use nano_v_llm_cpp.Scheduler.{Scheduler, Config, add, new_scheduler}
use nano_v_llm_cpp.Scheduler.Owners.{owners, owners-focus, owners-perm}
use nano_v_llm_cpp.Scheduler.Shapes.{IsWaiting, Phase, rest_of}

-- A new scheduler is at rest, for a block size above 1.
pub new_scheduler-Phase :
    (c : Config) (store : ℕ → Sequence)
    → 1 < c.kvcache_block_size
    → Phase c.kvcache_block_size [] (new_scheduler c store)
unfolding new_scheduler
new_scheduler-Phase c store h = record {
  queues = record {
    positive = h;
    own_size = refl;
    size = new_manager-block_size c.num_kvcache_blocks c.kvcache_block_size;
    distinct = λ p. omega arith;
    allocator = new_manager-Invariant c.num_kvcache_blocks c.kvcache_block_size;
  };
  once = λ p. omega arith;
  waits = λ p g. absurd (omega arith);
  tail_empty = λ p g. absurd (omega arith);
  runs = λ p g k. absurd (omega arith);
  full = λ p g k. absurd (omega arith);
  part = λ p g k. absurd (omega arith);
  ready = λ p g. absurd (omega arith);
  queued = λ p g. absurd (omega arith);
}

-- What the constructor of a sequence makes, for a positive `max_tokens`, may wait in the queue; it
-- has no block, and its tokens are the prompt.
pub new_sequence-IsWaiting :
    (bs counter : ℕ) (ids : List ℕ) (sp : SamplingParams) {seq : Sequence}
    → 0 < sp.max_tokens
    → new_sequence counter ids sp ≡ some seq
    → IsWaiting bs seq × (seq.block_table ≡ []) × (seq.token_ids ≡ ids)
unfolding new_sequence
new_sequence-IsWaiting bs counter [] sp h e = cc
new_sequence-IsWaiting bs counter (t ∷ ts) sp {seq} h e = ground arith

count-rest_of-snoc :
    (q p : ℕ) (xs : List ℕ) → count q (rest_of (xs ++ (p ∷ []))) ≤ count q (rest_of xs) + hit q p
count-rest_of-snoc q p [] = omega arith
count-rest_of-snoc q p (x ∷ xs) = omega (arith, count-append q xs (p ∷ []))

-- A waiting sequence without blocks that is not queued yet may be added at rest: the scheduler
-- stays at rest.
pub add-Phase :
    (bs p : ℕ) (s : Scheduler)
    → Phase bs [] s
    → count p (s.waiting ++ s.running) ≡ 0
    → IsWaiting bs (s.store p)
    → (s.store p).block_table ≡ []
    → Phase bs [] (add s p)
unfolding add
add-Phase bs p s v new w t = record {
  queues = record {
    positive = v.queues.positive;
    own_size = v.queues.own_size;
    size = v.queues.size;
    distinct = λ q. elim (Bool-cases (p == q)) [
      | inl e ↦ omega (
        arith,
        counts q,
        hit_eq q p ((==_iff p q).0 e),
        subst (λ x. count x (s.waiting ++ s.running) ≡ 0) ((==_iff p q).0 e) new,
      )
      | inr n ↦ omega (arith, counts q, hit_ne q p n, v.queues.distinct q)
    ];
    allocator = Invariant-owners _ _ (λ id. same id) v.queues.allocator;
  };
  once = v.once;
  waits = λ q h. elim (Bool-cases (p == q)) [
    | inl e ↦ subst (λ x. IsWaiting bs (s.store x)) ((==_iff p q).0 e) w
    | inr n ↦ v.waits q (omega (arith, count-append q s.waiting (p ∷ []), hit_ne q p n))
  ];
  tail_empty = λ q h. elim (Bool-cases (p == q)) [
    | inl e ↦ subst (λ x. (s.store x).block_table ≡ []) ((==_iff p q).0 e) t
    | inr n ↦ v.tail_empty q (omega (arith, count-rest_of-snoc q p s.waiting, hit_ne q p n))
  ];
  runs = v.runs;
  full = v.full;
  part = λ q h g. absurd (omega arith);
  ready = v.ready;
  queued = λ q h. absurd (omega arith);
}
  where
    counts :
        (q : ℕ)
        → (count q ((s.waiting ++ (p ∷ [])) ++ s.running)
            ≡ hit q p + count q (s.waiting ++ s.running))
    counts q = omega (
      arith,
      count-append q (s.waiting ++ (p ∷ [])) s.running,
      count-append q s.waiting (p ∷ []),
      count-append q s.waiting s.running,
    )

    same :
        (id : ℕ)
        → count id (owners s.store (s.waiting ++ s.running))
          ≡ count id (owners s.store ((s.waiting ++ (p ∷ [])) ++ s.running))
    same id = ground (
      arith,
      owners-focus s.store p id ((s.waiting ++ (p ∷ [])) ++ s.running)
          (omega (arith, counts p, hit_eq p p refl)),
      ap (count id) t,
      owners-perm s.store id (s.waiting ++ s.running)
          (erase p ((s.waiting ++ (p ∷ [])) ++ s.running))
          (λ q. ground (arith, counts q, count-erase q p ((s.waiting ++ (p ∷ [])) ++ s.running))),
    )
