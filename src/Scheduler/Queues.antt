-- ===== src/Scheduler/Queues.antt =====
-- Who owns which block across the queues of src/scheduler.cpp, and how a change to one sequence
-- keeps that.
use nano_v_llm_cpp.Base.{
  ℕ, ◌≤◌, ◌<◌, ◌≡◌, sym, ◌∙◌, ap, subst, inl, inr, false, List, ◌++◌, arith, ◌==◌, Bool-cases,
  ==_iff, count, erase, count-append, count-erase,
}
use nano_v_llm_cpp.Sequence.{Sequence}
use nano_v_llm_cpp.BlockManager.{put}
use nano_v_llm_cpp.BlockManager.Invariant.{Invariant, Invariant-owners}
use nano_v_llm_cpp.Scheduler.{Scheduler}
use nano_v_llm_cpp.Scheduler.Owners.{owners, owners-focus, owners-perm, owners-put}

-- Every sequence that holds blocks: those in a queue, and those taken out of a queue for a while.
abbrev pub holders : List ℕ → Scheduler → List ℕ
holders held s = held ++ (s.waiting ++ s.running)

-- No sequence stands twice, and the allocator counts exactly their tables.
pub record Queues (bs : ℕ) (held : List ℕ) (s : Scheduler) : Type 0 where
  pub positive : 1 < bs
  pub own_size : s.block_size ≡ bs
  pub size : s.block_manager.block_size ≡ bs
  pub distinct : (p : ℕ) → count p (holders held s) ≤ 1
  pub allocator : Invariant s.block_manager (owners s.store (holders held s))

-- A property of what a write leaves at `q`.
pub put_elim :
    (P : Sequence → Type 0) (p q : ℕ) (seq : Sequence) (store : ℕ → Sequence)
    → (p ≡ q → P seq)
    → ((p == q) ≡ false → P (store q))
    → P (put p seq store q)
put_elim P p q seq store same other = elim (Bool-cases (p == q)) [
  | inl e ↦ rw e (same ((==_iff p q).0 e))
  | inr n ↦ rw n (other n)
]

module _ (bs : ℕ) (held : List ℕ) (s : Scheduler) (p : ℕ) where
  -- The allocator's invariant, with the table of `p` in front.
  pub Queues-focus :
      Queues bs held s
      → 0 < count p (holders held s)
      → Invariant s.block_manager
          ((s.store p).block_table ++ owners s.store (erase p (holders held s)))
  Queues-focus q h = Invariant-owners _ _ (λ id. split id) q.allocator
    where
      split :
          (id : ℕ)
          → count id (owners s.store (holders held s))
            ≡ count id ((s.store p).block_table ++ owners s.store (erase p (holders held s)))
      split id = omega (
        arith,
        owners-focus s.store p id (holders held s) h,
        count-append id (s.store p).block_table (owners s.store (erase p (holders held s))),
      )

  -- The sequence `p` and the allocator change, and the queues name the same sequences as before.
  pub Queues-change :
      (s' : Scheduler) (held' : List ℕ) (seq : Sequence)
      → Queues bs held s
      → 0 < count p (holders held s)
      → s'.block_size ≡ s.block_size
      → s'.block_manager.block_size ≡ s.block_manager.block_size
      → s'.store ≡ put p seq s.store
      → ((q : ℕ) → count q (holders held' s') ≡ count q (holders held s))
      → Invariant s'.block_manager (seq.block_table ++ owners s.store (erase p (holders held s)))
      → Queues bs held' s'
  Queues-change s' held' seq q h e1 e2 e3 same v = record {
    positive = q.positive;
    own_size = e1 ∙ q.own_size;
    size = e2 ∙ q.size;
    distinct = λ j. omega (arith, q.distinct j, same j);
    allocator = Invariant-owners _ _ (λ id. joined id) v;
  }
    where
      gone : count p (erase p (holders held s)) ≡ 0
      gone = ground (arith, count-erase p p (holders held s), q.distinct p)

      joined :
          (id : ℕ)
          → count id (seq.block_table ++ owners s.store (erase p (holders held s)))
            ≡ count id (owners s'.store (holders held' s'))
      joined id = rw (e3) (
          ground (
            arith,
            count-append id seq.block_table (owners s.store (erase p (holders held s))),
            owners-put s.store p seq (erase p (holders held s)) gone,
            owners-focus (put p seq s.store) p id (holders held s) h,
            owners-perm (put p seq s.store) id (holders held' s') (holders held s) same,
            ==_iff p p,
          ))

-- The queues are regrouped and nothing else changes.
pub Queues-regroup :
    (bs : ℕ) (held held' : List ℕ) (s s' : Scheduler)
    → Queues bs held s
    → s'.block_size ≡ s.block_size
    → s'.block_manager ≡ s.block_manager
    → s'.store ≡ s.store
    → ((q : ℕ) → count q (holders held' s') ≡ count q (holders held s))
    → Queues bs held' s'
Queues-regroup bs held held' s s' q e1 e2 e3 same = record {
  positive = q.positive;
  own_size = e1 ∙ q.own_size;
  size = ap (λ m. m.block_size) e2 ∙ q.size;
  distinct = λ p. omega (arith, q.distinct p, same p);
  allocator =
      subst (λ m. Invariant m (owners s'.store (holders held' s'))) (sym e2)
        (Invariant-owners _ _ (λ id. moved id) q.allocator);
}
  where
    moved :
        (id : ℕ)
        → count id (owners s.store (holders held s)) ≡ count id (owners s'.store (holders held' s'))
    moved id = rw (e3) (sym (owners-perm s.store id (holders held' s') (holders held s) same))

-- The sequence `p` leaves the queues with its blocks given back.
pub Queues-remove :
    (bs : ℕ) (held : List ℕ) (s : Scheduler) (p : ℕ) (held' : List ℕ) (s' : Scheduler)
    (seq : Sequence)
    → Queues bs held s
    → s'.block_size ≡ s.block_size
    → s'.block_manager.block_size ≡ s.block_manager.block_size
    → s'.store ≡ put p seq s.store
    → ((q : ℕ) → count q (holders held' s') ≡ count q (erase p (holders held s)))
    → Invariant s'.block_manager (owners s.store (erase p (holders held s)))
    → Queues bs held' s'
Queues-remove bs held s p held' s' seq q e1 e2 e3 same v = record {
  positive = q.positive;
  own_size = e1 ∙ q.own_size;
  size = e2 ∙ q.size;
  distinct = λ j. ground (arith, q.distinct j, same j, count-erase j p (holders held s));
  allocator = Invariant-owners _ _ (λ id. left id) v;
}
  where
    gone : count p (erase p (holders held s)) ≡ 0
    gone = ground (arith, count-erase p p (holders held s), q.distinct p)

    left :
        (id : ℕ)
        → count id (owners s.store (erase p (holders held s)))
          ≡ count id (owners s'.store (holders held' s'))
    left id = rw (e3) (
        ground (
          arith,
          owners-put s.store p seq (erase p (holders held s)) gone,
          owners-perm (put p seq s.store) id (holders held' s') (erase p (holders held s)) same,
        ))
