-- ===== src/Scheduler/Filling.antt =====
-- One prefill round of `Scheduler::schedule`: what holds while a batch fills, and that scheduling
-- the sequence at the front of the waiting queue keeps it.
use nano_v_llm_cpp.Base.{
  ℕ, ◌+◌, ◌-◌, ◌≤◌, ◌<◌, min, ◌≡◌, ap, subst, inl, inr, refl, List, [], ◌∷◌, ◌++◌, arith, ◌==◌,
  Bool-cases, ==_iff, hit, hit_eq, hit_ne, count, erase, count-append,
}
use nano_v_llm_cpp.Sequence.{Status, Sequence}
use nano_v_llm_cpp.BlockManager.{BlockManager, put}
use nano_v_llm_cpp.BlockManager.Invariant.{Invariant}
use nano_v_llm_cpp.Scheduler.{Scheduler, enlist}
use nano_v_llm_cpp.Scheduler.Owners.{owners}
use nano_v_llm_cpp.Scheduler.Queues.{Queues-change, put_elim, holders}
use nano_v_llm_cpp.Scheduler.Shapes.{
  IsWaiting, IsRunning, IsReady, IsFull, Phase, rest_of, count-rest_of,
}

-- The tokens that a batch schedules.
abbrev pub scheduled_tokens : (ℕ → Sequence) → List ℕ → ℕ
scheduled_tokens store [] = 0
scheduled_tokens store (p ∷ ps) = (store p).num_scheduled_tokens + scheduled_tokens store ps

scheduled_tokens-append :
    (store : ℕ → Sequence) (ps qs : List ℕ)
    → scheduled_tokens store (ps ++ qs) ≡ scheduled_tokens store ps + scheduled_tokens store qs
scheduled_tokens-append store [] qs = omega arith
scheduled_tokens-append store (p ∷ ps) qs = omega (arith, scheduled_tokens-append store ps qs)

scheduled_tokens-put :
    (store : ℕ → Sequence) (p : ℕ) (seq : Sequence) (ps : List ℕ)
    → count p ps ≡ 0
    → scheduled_tokens (put p seq store) ps ≡ scheduled_tokens store ps
scheduled_tokens-put store p seq [] h = refl
scheduled_tokens-put store p seq (q ∷ ps) h =
    ground (arith, ==_iff p q, ==_iff q p, scheduled_tokens-put store p seq ps)

-- The loop's invariant: a sequence that stays in the waiting queue with tokens scheduled has used
-- the batch up.
pub record Filling (bs : ℕ) (batch : List ℕ) (batched : ℕ) (s : Scheduler) : Type 0 where
  pub phase : Phase bs batch s
  pub within : batched ≤ s.max_num_batched_tokens
  pub partial :
      (p : ℕ) → 0 < count p s.waiting → 0 < count p batch → batched ≡ s.max_num_batched_tokens
  pub total : scheduled_tokens s.store batch ≡ batched

module _ (bs : ℕ) (batch : List ℕ) (batched : ℕ) (s : Scheduler) (p : ℕ) (rest : List ℕ) where
  -- The record that a full round leaves, and the one that a partial round leaves.
  abbrev seq_full : Sequence → ℕ → Sequence
  seq_full seq k = record seq { num_scheduled_tokens = k; status = Status.running }

  abbrev after_full : BlockManager → Sequence → ℕ → Scheduler
  after_full m seq k = record s {
    block_manager = m;
    store = put p (seq_full seq k) s.store;
    waiting = rest;
    running = s.running ++ (p ∷ []);
  }

  abbrev after_partial : BlockManager → Sequence → ℕ → Scheduler
  after_partial m seq k = record s {
    block_manager = m;
    store = put p (record seq { num_scheduled_tokens = k }) s.store;
  }

  module _ (f : Filling bs batch batched s) (w : s.waiting ≡ p ∷ rest)
      (room : batched < s.max_num_batched_tokens) where
    -- How often `q` stands in each list.
    counts :
        (q : ℕ)
        → (count q s.waiting ≡ hit q p + count q rest)
          × (hit q p + count q rest + count q s.running ≤ 1)
          × (count q (batch ++ (p ∷ [])) ≡ count q batch + hit q p)
          × (count q (s.running ++ (p ∷ [])) ≡ count q s.running + hit q p)
          × (count q (rest_of rest) ≤ count q rest)
          × (count q (s.waiting ++ s.running) ≡ hit q p + count q rest + count q s.running)
          × (count q (rest ++ (s.running ++ (p ∷ []))) ≡ hit q p + count q rest + count q s.running)
    counts q = omega (
      arith,
      f.phase.queues.distinct q,
      ap (count q) w,
      count-append q s.waiting s.running,
      count-append q batch (p ∷ []),
      count-append q s.running (p ∷ []),
      count-append q rest (s.running ++ (p ∷ [])),
      count-rest_of q rest,
    )

    not_scheduled : count p batch ≡ 0
    not_scheduled = ground (arith, f.partial p, counts p, hit_eq p p refl)

    pub in_front : 0 < count p (holders [] s)
    in_front = omega (arith, counts p, hit_eq p p refl)

    module _ (m : BlockManager) (seq : Sequence) (k : ℕ)
        (valid : Invariant m (seq.block_table ++ owners s.store (erase p (holders [] s))))
        (size : m.block_size ≡ s.block_manager.block_size)
        (r : (st : Status) → IsReady bs (record seq { num_scheduled_tokens = k; status = st }))
        (fits : k ≤ s.max_num_batched_tokens - batched) where
      full_Phase :
          seq.num_cached_tokens + k ≡ seq.num_tokens
          → Phase bs (batch ++ (p ∷ [])) (after_full m seq k)
      full_Phase all = record {
        queues =
            Queues-change bs [] s p (after_full m seq k) [] (seq_full seq k) f.phase.queues in_front
              refl size refl (λ q. omega (arith, counts q)) valid;
        once = λ q. elim (Bool-cases (p == q)) [
          | inl e ↦ omega (
            arith,
            counts q,
            hit_eq q p ((==_iff p q).0 e),
            subst (λ x. count x batch ≡ 0) ((==_iff p q).0 e) not_scheduled,
          )
          | inr n ↦ omega (arith, counts q, hit_ne q p n, f.phase.once q)
        ];
        waits = λ q h.
            put_elim (IsWaiting bs) p q (seq_full seq k) s.store
              (λ e. absurd (omega (arith, counts q, hit_eq q p e)))
              (λ n. f.phase.waits q (omega (arith, counts q)));
        tail_empty = λ q h.
            put_elim (λ x. x.block_table ≡ []) p q (seq_full seq k) s.store
              (λ e. absurd (omega (arith, counts q, hit_eq q p e)))
              (λ n. f.phase.tail_empty q (rw w (omega (arith, counts q))));
        runs = λ q h g.
            put_elim (IsRunning bs) p q (seq_full seq k) s.store
              (λ e. absurd (omega (arith, counts q, hit_eq q p e)))
              (λ n.
                f.phase.runs q (omega (arith, counts q, hit_ne q p n)) (omega (arith, counts q)));
        full = λ q h g.
            put_elim (IsFull bs) p q (seq_full seq k) s.store
              (λ e. record { status = refl; all = all })
              (λ n.
                f.phase.full q (omega (arith, counts q, hit_ne q p n))
                  (omega (arith, counts q, hit_ne q p n)));
        part = λ q h g.
            put_elim (λ x. x.num_cached_tokens + x.num_scheduled_tokens < x.num_tokens) p q
              (seq_full seq k) s.store (λ e. absurd (omega (arith, counts q, hit_eq q p e)))
              (λ n.
                f.phase.part q (omega (arith, counts q)) (omega (arith, counts q, hit_ne q p n)));
        ready = λ q h.
            put_elim (IsReady bs) p q (seq_full seq k) s.store (λ e. r Status.running)
              (λ n. f.phase.ready q (omega (arith, counts q, hit_ne q p n)));
        queued = λ q h. elim (Bool-cases (p == q)) [
          | inl e ↦ omega (arith, counts q, hit_eq q p ((==_iff p q).0 e))
          | inr n ↦ omega (
            arith,
            counts q,
            hit_ne q p n,
            f.phase.queued q (omega (arith, counts q, hit_ne q p n)),
          )
        ];
      }

      partial_Phase :
          seq.num_cached_tokens + k < seq.num_tokens
          → seq.status ≡ Status.waiting
          → Phase bs (batch ++ (p ∷ [])) (after_partial m seq k)
      partial_Phase some_left st = record {
        queues =
            Queues-change bs [] s p (after_partial m seq k) [] _ f.phase.queues in_front refl size
              refl (λ q. refl) valid;
        once = λ q. elim (Bool-cases (p == q)) [
          | inl e ↦ omega (
            arith,
            counts q,
            hit_eq q p ((==_iff p q).0 e),
            subst (λ x. count x batch ≡ 0) ((==_iff p q).0 e) not_scheduled,
          )
          | inr n ↦ omega (arith, counts q, hit_ne q p n, f.phase.once q)
        ];
        waits = λ q h.
            put_elim (IsWaiting bs) p q _ s.store
              (λ e. record {
                live = (r seq.status).live;
                status = st;
                behind = omega arith;
                table = inr (r seq.status).table;
              })
              (λ n. f.phase.waits q h);
        tail_empty = λ q h.
            put_elim (λ x. x.block_table ≡ []) p q _ s.store
              (λ e.
                absurd
                  (omega (arith, counts q, hit_eq q p e, subst (λ x. 0 < count q (rest_of x)) w h)))
              (λ n. f.phase.tail_empty q h);
        runs = λ q h g.
            put_elim (IsRunning bs) p q _ s.store
              (λ e. absurd (omega (arith, counts q, hit_eq q p e)))
              (λ n. f.phase.runs q h (omega (arith, counts q)));
        full = λ q h g.
            put_elim (IsFull bs) p q _ s.store (λ e. absurd (omega (arith, counts q, hit_eq q p e)))
              (λ n. f.phase.full q h (omega (arith, counts q, hit_ne q p n)));
        part = λ q h g.
            put_elim (λ x. x.num_cached_tokens + x.num_scheduled_tokens < x.num_tokens) p q _
              s.store (λ e. some_left)
              (λ n. f.phase.part q h (omega (arith, counts q, hit_ne q p n)));
        ready = λ q h.
            put_elim (IsReady bs) p q _ s.store (λ e. r seq.status)
              (λ n. f.phase.ready q (omega (arith, counts q, hit_ne q p n)));
        queued = λ q h. elim (Bool-cases (p == q)) [
          | inl e ↦ omega (arith, counts q, hit_eq q p ((==_iff p q).0 e))
          | inr n ↦ f.phase.queued q (omega (arith, counts q, hit_ne q p n))
        ];
      }

      scheduled_after :
          (seq' : Sequence)
          → seq'.num_scheduled_tokens ≡ k
          → scheduled_tokens (put p seq' s.store) (batch ++ (p ∷ [])) ≡ batched + k
      scheduled_after seq' e = ground (
        arith,
        scheduled_tokens-append (put p seq' s.store) batch (p ∷ []),
        scheduled_tokens-put s.store p seq' batch not_scheduled,
        f.total,
        ==_iff p p,
      )

      pub enlist-Filling :
          seq.status ≡ Status.waiting
          → k ≡ min (seq.num_tokens - seq.num_cached_tokens) (s.max_num_batched_tokens - batched)
          → Filling bs (batch ++ (p ∷ [])) (batched + k) (enlist s p rest m seq k)
      unfolding enlist
      enlist-Filling st e = elim (Bool-cases (seq.num_cached_tokens + k == seq.num_tokens)) [
        | inl all ↦
            rw (all, enlist)
              (record {
                phase = full_Phase ((==_iff _ _).0 all);
                within = omega arith;
                partial = λ q h g. absurd (lost q h g);
                total = scheduled_after (seq_full seq k) refl;
              })
        | inr part ↦
            let short : seq.num_cached_tokens + k < seq.num_tokens =
              ground (arith, (r seq.status).within) in
            rw (part, enlist)
              (record {
                phase = partial_Phase short st;
                within = omega arith;
                partial = λ q h g. omega arith;
                total = scheduled_after (record seq { num_scheduled_tokens = k }) refl;
              })
      ]
        where
          lost : (q : ℕ) → 0 < count q rest → 0 < count q (batch ++ (p ∷ [])) → ⊥
          lost q h g = elim (Bool-cases (p == q)) [
            | inl e ↦ omega (arith, counts q, hit_eq q p ((==_iff p q).0 e))
            | inr n ↦ omega (
              arith,
              counts q,
              hit_ne q p n,
              f.partial q (omega (arith, counts q)) (omega (arith, counts q, hit_ne q p n)),
            )
          ]
