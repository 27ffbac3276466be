-- ===== src/Scheduler/Decode.antt =====
-- The steps of the decode loop of `Scheduler::schedule`: a sequence leaves the running queue, is
-- preempted, or joins the batch.
use nano_v_llm_cpp.Base.{
  ℕ, ◌+◌, ◌≤◌, ◌<◌, ◌≡◌, ◌∙◌, inl, inr, refl, List, [], ◌∷◌, ◌++◌, true, false, arith, ◌==◌,
  Bool-cases, ==_iff, length, hit, hit_eq, hit_ne, count, erase, count-append,
}
use nano_v_llm_cpp.Result.{ok}
use nano_v_llm_cpp.Sequence.{Status, Sequence}
use nano_v_llm_cpp.BlockManager.{BlockManager, put, deallocate, can_append, may_append}
use nano_v_llm_cpp.BlockManager.Invariant.{Invariant}
use nano_v_llm_cpp.BlockManager.Steps.{deallocate-Invariant, Appended, may_append-can_append}
use nano_v_llm_cpp.Scheduler.{Scheduler, preempt}
use nano_v_llm_cpp.Scheduler.Owners.{owners}
use nano_v_llm_cpp.Scheduler.Queues.{
  Queues, Queues-focus, Queues-change, Queues-regroup, put_elim, holders,
}
use nano_v_llm_cpp.Scheduler.Shapes.{
  IsWaiting, IsRunning, IsReady, IsFull, blocks_for, blocks_for-needed,
}

-- During the decode loop nothing that waits has blocks. `held` has left the running queue, and
-- `batch` is scheduled.
pub record Decoding (bs : ℕ) (held batch : List ℕ) (s : Scheduler) : Type 0 where
  pub queues : Queues bs (held ++ batch) s
  pub waits : (p : ℕ) → 0 < count p s.waiting → IsWaiting bs (s.store p)
  pub no_blocks : (p : ℕ) → 0 < count p s.waiting → (s.store p).block_table ≡ []
  pub runs : (p : ℕ) → 0 < count p s.running → IsRunning bs (s.store p)
  pub taken : (p : ℕ) → 0 < count p held → IsRunning bs (s.store p)
  pub ready : (p : ℕ) → 0 < count p batch → IsReady bs (s.store p)
  pub full : (p : ℕ) → 0 < count p batch → IsFull bs (s.store p)

-- How often `q` stands among the holders.
pub count-holders :
    (q : ℕ) (held batch : List ℕ) (s : Scheduler)
    → count q (holders (held ++ batch) s)
      ≡ count q held + count q batch + count q s.waiting + count q s.running
count-holders q held batch s = omega (
  arith,
  count-append q (held ++ batch) (s.waiting ++ s.running),
  count-append q held batch,
  count-append q s.waiting s.running,
)

-- A sequence taken from the running queue, from either end.
pub Decoding-take :
    (bs p : ℕ) (held batch running' : List ℕ) (s : Scheduler)
    → ((q : ℕ) → count q s.running ≡ hit q p + count q running')
    → Decoding bs held batch s
    → Decoding bs (p ∷ held) batch (record s { running = running' })
Decoding-take bs p held batch running' s split d = record {
  queues = Queues-regroup bs (held ++ batch) ((p ∷ held) ++ batch) s _ d.queues refl refl refl same;
  waits = d.waits;
  no_blocks = d.no_blocks;
  runs = λ q h. d.runs q (omega (arith, split q));
  taken = λ q h. elim (Bool-cases (p == q)) [
    | inl e ↦ d.runs q (omega (arith, split q, hit_eq q p ((==_iff p q).0 e)))
    | inr n ↦ d.taken q (omega (arith, hit_ne q p n))
  ];
  ready = d.ready;
  full = d.full;
}
  where
    same :
        (q : ℕ)
        → count q (holders (p ∷ (held ++ batch)) (record s { running = running' }))
          ≡ count q (holders (held ++ batch) s)
    same q = omega (
      arith,
      split q,
      count-holders q held batch s,
      count-holders q (p ∷ held) batch (record s { running = running' }),
    )

module _ (bs v : ℕ) (held batch : List ℕ) (s : Scheduler) (d : Decoding bs (v ∷ held) batch s) where
  abbrev preempted : Sequence
  preempted = record (s.store v) {
    status = Status.waiting;
    is_prefill = true;
    num_cached_tokens = 0;
    block_table = [];
  }

  counts :
      (q : ℕ) → hit q v + count q held + count q batch + count q s.waiting + count q s.running ≤ 1
  counts q = omega (arith, d.queues.distinct q, count-holders q (v ∷ held) batch s)

  held_in : 0 < count v (holders ((v ∷ held) ++ batch) s)
  held_in = omega (arith, count-holders v (v ∷ held) batch s, hit_eq v v refl)

  freed :
      Invariant
        (deallocate s.block_manager
          (record (s.store v) { status = Status.waiting; is_prefill = true })).0
        (owners s.store (erase v (holders ((v ∷ held) ++ batch) s)))
      × ((deallocate s.block_manager
            (record (s.store v) { status = Status.waiting; is_prefill = true })).0.block_size
          ≡ s.block_manager.block_size)
  freed =
      let f =
        deallocate-Invariant s.block_manager
          (record (s.store v) { status = Status.waiting; is_prefill = true })
          (owners s.store (erase v (holders ((v ∷ held) ++ batch) s)))
          (Queues-focus bs ((v ∷ held) ++ batch) s v d.queues held_in) in
      (f.0, f.2)

  -- Preempting it frees its blocks and puts it at the front of the waiting queue.
  pub Decoding-preempt : Decoding bs held batch (preempt s v)
  unfolding preempt deallocate
  Decoding-preempt = record {
    queues =
        Queues-change bs ((v ∷ held) ++ batch) s v (preempt s v) (held ++ batch) preempted d.queues
          held_in refl freed.1 refl
          (λ q.
            omega
              (arith, count-holders q (v ∷ held) batch s, count-holders q held batch (preempt s v)))
          freed.0;
    waits = λ q h.
        put_elim (IsWaiting bs) v q preempted s.store
          (λ e. record {
            live = record {
              nonempty = (d.taken v (omega (arith, hit_eq v v refl))).live.nonempty;
              counted = (d.taken v (omega (arith, hit_eq v v refl))).live.counted;
              prompt = (d.taken v (omega (arith, hit_eq v v refl))).live.prompt;
              budget = (d.taken v (omega (arith, hit_eq v v refl))).live.budget;
            };
            status = refl;
            behind = (d.taken v (omega (arith, hit_eq v v refl))).live.nonempty;
            table = inl (refl, refl);
          })
          (λ n. d.waits q (omega (arith, hit_ne q v n)));
    no_blocks = λ q h.
        put_elim (λ x. x.block_table ≡ []) v q preempted s.store (λ e. refl)
          (λ n. d.no_blocks q (omega (arith, hit_ne q v n)));
    runs = λ q h.
        put_elim (IsRunning bs) v q preempted s.store
          (λ e. absurd (omega (arith, counts q, hit_eq q v e))) (λ n. d.runs q h);
    taken = λ q h.
        put_elim (IsRunning bs) v q preempted s.store
          (λ e. absurd (omega (arith, counts q, hit_eq q v e))) (λ n. d.taken q (omega arith));
    ready = λ q h.
        put_elim (IsReady bs) v q preempted s.store
          (λ e. absurd (omega (arith, counts q, hit_eq q v e))) (λ n. d.ready q h);
    full = λ q h.
        put_elim (IsFull bs) v q preempted s.store
          (λ e. absurd (omega (arith, counts q, hit_eq q v e))) (λ n. d.full q h);
  }

-- The record that a decode round hands to `may_append`.
abbrev pub one_token : Sequence → Sequence
one_token seq = record seq { num_scheduled_tokens = 1; is_prefill = false }

-- A running sequence with room gets the block that its last token needs, and joins the batch.
pub record Joined (bs p : ℕ) (batch : List ℕ) (s : Scheduler) : Type 0 where
  pub manager : BlockManager
  pub seq : Sequence
  pub runs : may_append s.block_manager (one_token (s.store p)) ≡ ok (manager, seq)
  pub same_blocks : length manager.blocks ≡ length s.block_manager.blocks
  pub same_tokens : seq.num_tokens ≡ (s.store p).num_tokens
  pub decoding :
      Decoding bs []
        (batch ++ (p ∷ []))
        (record s { block_manager = manager; store = put p seq s.store })

module _ (bs p : ℕ) (batch : List ℕ) (s : Scheduler) (d : Decoding bs (p ∷ []) batch s) where
  held_now : 0 < count p (holders ((p ∷ []) ++ batch) s)
  held_now = omega (arith, count-holders p (p ∷ []) batch s, hit_eq p p refl)

  IsRunning-now : IsRunning bs (s.store p)
  IsRunning-now = d.taken p (omega (arith, hit_eq p p refl))

  batch_counts :
      (q : ℕ)
      → (hit q p + count q batch + count q s.waiting + count q s.running ≤ 1)
        × (count q (batch ++ (p ∷ [])) ≡ count q batch + hit q p)
  batch_counts q =
      omega (
        arith,
        d.queues.distinct q,
        count-holders q (p ∷ []) batch s,
        count-append q batch (p ∷ []),
      )

  join :
      (m : BlockManager) (table : List ℕ)
      → Invariant m (table ++ owners s.store (erase p (holders ((p ∷ []) ++ batch) s)))
      → m.block_size ≡ s.block_manager.block_size
      → length table ≡ blocks_for bs (s.store p).num_tokens
      → Decoding bs [] (batch ++ (p ∷ [])) (record s {
        block_manager = m;
        store = put p (record (one_token (s.store p)) { block_table = table }) s.store;
      })
  join m table valid size covers = record {
    queues =
        Queues-change bs ((p ∷ []) ++ batch) s p s' (batch ++ (p ∷ [])) seq d.queues held_now refl
          size refl
          (λ q. omega (
            arith,
            count-holders q (p ∷ []) batch s,
            count-holders q [] (batch ++ (p ∷ [])) s',
            batch_counts q,
          ))
          valid;
    waits = λ q h.
        put_elim (IsWaiting bs) p q seq s.store
          (λ e. absurd (omega (arith, batch_counts q, hit_eq q p e))) (λ n. d.waits q h);
    no_blocks = λ q h.
        put_elim (λ x. x.block_table ≡ []) p q seq s.store
          (λ e. absurd (omega (arith, batch_counts q, hit_eq q p e))) (λ n. d.no_blocks q h);
    runs = λ q h.
        put_elim (IsRunning bs) p q seq s.store
          (λ e. absurd (omega (arith, batch_counts q, hit_eq q p e))) (λ n. d.runs q h);
    taken = λ q h. absurd (omega arith);
    ready = λ q h.
        put_elim (IsReady bs) p q seq s.store
          (λ e. record {
            live = record {
              nonempty = IsRunning-now.live.nonempty;
              counted = IsRunning-now.live.counted;
              prompt = IsRunning-now.live.prompt;
              budget = IsRunning-now.live.budget;
            };
            some_scheduled = omega arith;
            within = omega (arith, IsRunning-now.behind);
            table = covers;
          })
          (λ n. d.ready q (omega (arith, batch_counts q, hit_ne q p n)));
    full = λ q h.
        put_elim (IsFull bs) p q seq s.store
          (λ e. record { status = IsRunning-now.status; all = omega (arith, IsRunning-now.behind) })
          (λ n. d.full q (omega (arith, batch_counts q, hit_ne q p n)));
  }
    where
      seq : Sequence
      seq = record (one_token (s.store p)) { block_table = table }

      s' : Scheduler
      s' = record s { block_manager = m; store = put p seq s.store }

  pub Decoding-join : can_append s.block_manager (s.store p) ≡ true → Joined bs p batch s
  unfolding can_append
  Decoding-join fits =
      let a : Appended s.block_manager (one_token (s.store p))
          (owners s.store (erase p (holders ((p ∷ []) ++ batch) s))) =
        may_append-can_append s.block_manager (one_token (s.store p)) _
          (Queues-focus bs ((p ∷ []) ++ batch) s p d.queues held_now) fits in
      record {
        manager = a.after;
        seq = record (one_token (s.store p)) { block_table = a.table };
        runs = a.runs;
        same_blocks = a.same_blocks;
        same_tokens = refl;
        decoding = join a.after a.table a.valid a.same_size (
            a.grown
            ∙ blocks_for-needed bs _ (s.store p).num_cached_tokens _ _ d.queues.positive
                d.queues.size IsRunning-now.behind IsRunning-now.table);
      }
