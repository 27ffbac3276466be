-- ===== src/Scheduler/Postprocess.antt =====
-- `Scheduler::postprocess` of src/scheduler.cpp: the batch's sequences take their tokens one by one.
use nano_v_llm_cpp.Base.{
  ℕ, ◌+◌, ◌/◌, ◌≤◌, ◌<◌, ◌≡◌, ◌∙◌, sym, ap, subst, inl, inr, refl, List, [], ◌∷◌, ◌++◌, Bool, true,
  false, ◌&&◌, arith, ◌==◌, ltb, Bool-cases, ==_iff, length, hit, hit_eq, hit_ne, count, erase,
  count-append, count-erase, length-append,
}
use native.Mathlib.Decide.{dec_lt}
use nano_v_llm_cpp.Result.{ok}
use nano_v_llm_cpp.Sequence.{Status, Sequence, append_token}
use nano_v_llm_cpp.BlockManager.{BlockManager, put, hash_blocks, deallocate}
use nano_v_llm_cpp.BlockManager.Invariant.{Invariant}
use nano_v_llm_cpp.BlockManager.Steps.{hash_blocks-Invariant, deallocate-Invariant}
use nano_v_llm_cpp.Scheduler.{
  Scheduler, postprocess_one, postprocess_all, postprocess, finishes, zip,
}
use nano_v_llm_cpp.Scheduler.Owners.{owners}
use nano_v_llm_cpp.Scheduler.Queues.{Queues-focus, Queues-change, Queues-remove, holders, put_elim}
use nano_v_llm_cpp.Scheduler.Shapes.{
  IsWaiting, IsRunning, IsReady, IsFull, Phase, rest_of, count-rest_of, blocks_for,
}

-- A full block of computed tokens lies within the table.
hashed-le-table : (bs done n len : ℕ) → 1 < bs → done ≤ n → len ≡ blocks_for bs n → done / bs ≤ len
hashed-le-table bs done n len h le e = rw e (grind arith)

module _ (bs p : ℕ) (batch : List ℕ) (s : Scheduler) (v : Phase bs (p ∷ batch) s) where
  ready : IsReady bs (s.store p)
  ready = v.ready p (omega (arith, hit_eq p p refl))

  -- How often `q` is queued or scheduled.
  counts :
      (q : ℕ)
      → (count q s.waiting + count q s.running ≤ 1)
        × (hit q p + count q batch ≤ 1)
        × (count q (s.waiting ++ s.running) ≡ count q s.waiting + count q s.running)
  counts q = omega (arith, v.queues.distinct q, v.once q, count-append q s.waiting s.running)

  here : 0 < count p (holders [] s)
  here = v.queued p (omega (arith, hit_eq p p refl))

  hashed : BlockManager
  hashed = hash_blocks bs s.block_manager (s.store p)

  hashed_valid :
      Invariant hashed ((s.store p).block_table ++ owners s.store (erase p (holders [] s)))
      × (hashed.block_size ≡ s.block_manager.block_size)
  unfolding hashed
  hashed_valid =
      let r =
        hash_blocks-Invariant bs s.block_manager (s.store p)
          (owners s.store (erase p (holders [] s)))
          (rw (v.queues.size) (hashed-le-table bs _ _ _ v.queues.positive ready.within ready.table))
          (Queues-focus bs [] s p v.queues here) in
      (r.0, r.1)

  -- The next phase, where only the sequence `p` and the allocator change and `p` is at rest again.
  settle :
      (m : BlockManager) (seq : Sequence)
      → Invariant m (seq.block_table ++ owners s.store (erase p (holders [] s)))
      → m.block_size ≡ s.block_manager.block_size
      → (0 < count p s.waiting → IsWaiting bs seq × (seq.block_table ≡ (s.store p).block_table))
      → (0 < count p s.running → IsRunning bs seq)
      → Phase bs batch (record s { block_manager = m; store = put p seq s.store })
  settle m seq valid size waits runs = record {
    queues =
        Queues-change bs [] s p (record s { block_manager = m; store = put p seq s.store }) [] seq
          v.queues here refl size refl (λ q. refl) valid;
    once = λ q. omega (arith, counts q);
    waits = λ q h.
        put_elim (IsWaiting bs) p q seq s.store
          (λ e. (waits (subst (λ x. 0 < count x s.waiting) (sym e) h)).0) (λ n. v.waits q h);
    tail_empty = λ q h.
        put_elim (λ x. x.block_table ≡ []) p q seq s.store
          (λ e.
            (waits (
              subst (λ x. 0 < count x s.waiting) (sym e)
                (omega (arith, count-rest_of q s.waiting)))).1
            ∙ v.tail_empty p (subst (λ x. 0 < count x (rest_of s.waiting)) (sym e) h))
          (λ n. v.tail_empty q h);
    runs = λ q h g.
        put_elim (IsRunning bs) p q seq s.store
          (λ e. runs (subst (λ x. 0 < count x s.running) (sym e) h))
          (λ n. v.runs q h (omega (arith, hit_ne q p n)));
    full = λ q h g.
        put_elim (IsFull bs) p q seq s.store (λ e. absurd (omega (arith, counts q, hit_eq q p e)))
          (λ n. v.full q h (omega arith));
    part = λ q h g.
        put_elim (λ x. x.num_cached_tokens + x.num_scheduled_tokens < x.num_tokens) p q seq s.store
          (λ e. absurd (omega (arith, counts q, hit_eq q p e))) (λ n. v.part q h (omega arith));
    ready = λ q h.
        put_elim (IsReady bs) p q seq s.store (λ e. absurd (omega (arith, counts q, hit_eq q p e)))
          (λ n. v.ready q (omega arith));
    queued = λ q h. v.queued q (omega arith);
  }

  -- Part of a prefill is done, and the sequence waits for the rest.
  rested : Sequence
  rested = record (s.store p) {
    num_cached_tokens = (s.store p).num_cached_tokens + (s.store p).num_scheduled_tokens;
    num_scheduled_tokens = 0;
  }

  rested-Phase :
      (s.store p).num_cached_tokens + (s.store p).num_scheduled_tokens < (s.store p).num_tokens
      → Phase bs batch (record s { block_manager = hashed; store = put p rested s.store })
  unfolding rested
  rested-Phase short =
      settle hashed rested hashed_valid.0 hashed_valid.1
        (λ h. (
          record {
            live = record {
              nonempty = ready.live.nonempty;
              counted = ready.live.counted;
              prompt = ready.live.prompt;
              budget = ready.live.budget;
            };
            status = (v.waits p h).status;
            behind = short;
            table = inr ready.table;
          },
          refl,
        ))
        (λ h. absurd (omega (arith, (v.full p h (omega (arith, hit_eq p p refl))).all)))

  -- All tokens are computed, and the new one is appended.
  module _ (token : ℕ) (runs : 0 < count p s.running)
      (all : (s.store p).num_cached_tokens + (s.store p).num_scheduled_tokens
        ≡ (s.store p).num_tokens) where
    grown : Sequence
    unfolding rested
    grown = append_token rested token

    grown-Phase :
        finishes s grown token ≡ false
        → Phase bs batch (record s { block_manager = hashed; store = put p grown s.store })
    unfolding grown append_token
    grown-Phase f =
        settle hashed grown hashed_valid.0 hashed_valid.1 (λ h. absurd (omega (arith, counts p)))
          (λ h. record {
            live = record {
              nonempty = omega arith;
              counted =
                  omega
                    (arith, ready.live.counted, length-append (s.store p).token_ids (token ∷ []));
              prompt = omega (arith, ready.live.prompt);
              budget = ground (arith, ready.live.budget, ready.live.prompt);
            };
            status = (v.full p h (omega (arith, hit_eq p p refl))).status;
            behind = omega (arith, all);
            table = ready.table ∙ ap (blocks_for bs) (sym all);
          })

    -- A finished sequence gives its blocks back and leaves the running queue.
    finished : Sequence
    unfolding grown
    finished = record grown { status = Status.finished }

    finished-Phase : Phase bs batch (record s {
      block_manager = (deallocate hashed finished).0;
      store = put p (deallocate hashed finished).1 s.store;
      running = erase p s.running;
    })
    unfolding finished append_token
    finished-Phase = record {
      queues =
          Queues-remove bs [] s p [] _ (deallocate hashed finished).1 v.queues refl
            (freed.2 ∙ hashed_valid.1) refl (λ q. left q) freed.0;
      once = λ q. omega (arith, counts q);
      waits = λ q h.
          put_elim (IsWaiting bs) p q _ s.store (λ e. absurd (omega (arith, no_more q e)))
            (λ n. v.waits q h);
      tail_empty = λ q h.
          put_elim (λ x. x.block_table ≡ []) p q _ s.store
            (λ e. absurd (omega (arith, no_more q e, count-rest_of q s.waiting)))
            (λ n. v.tail_empty q h);
      runs = λ q h g.
          put_elim (IsRunning bs) p q _ s.store (λ e. absurd (omega (arith, no_more q e)))
            (λ n. v.runs q (omega (arith, others q n)) (omega (arith, hit_ne q p n)));
      full = λ q h g.
          put_elim (IsFull bs) p q _ s.store (λ e. absurd (omega (arith, no_more q e)))
            (λ n. v.full q (omega (arith, others q n)) (omega arith));
      part = λ q h g.
          put_elim (λ x. x.num_cached_tokens + x.num_scheduled_tokens < x.num_tokens) p q _ s.store
            (λ e. absurd (omega (arith, no_more q e))) (λ n. v.part q h (omega arith));
      ready = λ q h.
          put_elim (IsReady bs) p q _ s.store (λ e. absurd (omega (arith, no_more q e)))
            (λ n. v.ready q (omega arith));
      queued = λ q h. elim (Bool-cases (p == q)) [
        | inl e ↦ absurd (omega (arith, no_more q ((==_iff p q).0 e)))
        | inr n ↦ omega (
          arith,
          v.queued q (omega arith),
          others q n,
          counts q,
          count-append q s.waiting (erase p s.running),
        )
      ];
    }
      where
        freed :
            Invariant (deallocate hashed finished).0 (owners s.store (erase p (holders [] s)))
            × ((deallocate hashed finished).1
                ≡ record finished { num_cached_tokens = 0; block_table = [] })
            × ((deallocate hashed finished).0.block_size ≡ hashed.block_size)
        freed =
            let d =
              deallocate-Invariant hashed finished (owners s.store (erase p (holders [] s)))
                hashed_valid.0 in
            (d.0, d.1, d.2)

        no_more :
            (q : ℕ)
            → p ≡ q
            → (count q s.waiting ≡ 0) × (count q batch ≡ 0) × (count q (erase p s.running) ≡ 0)
        no_more q e =
            subst
              (λ x.
                (count x s.waiting ≡ 0) × (count x batch ≡ 0) × (count x (erase p s.running) ≡ 0))
              e
              (
                omega (arith, counts p),
                omega (arith, counts p, hit_eq p p refl),
                ground (arith, counts p, count-erase p p s.running),
              )

        others : (q : ℕ) → (p == q) ≡ false → count q (erase p s.running) ≡ count q s.running
        others q n = ground (arith, count-erase q p s.running)

        left : (q : ℕ) → count q (s.waiting ++ erase p s.running) ≡ count q (erase p (holders [] s))
        left q = ground (
          arith,
          count-append q s.waiting (erase p s.running),
          count-erase q p s.running,
          count-erase q p (s.waiting ++ s.running),
          count-append q s.waiting s.running,
          counts p,
          counts q,
        )

  -- Where the round does not put the sequence back to wait, all its tokens are computed and it runs.
  complete :
      (is_prefill : Bool)
      → (is_prefill ≡ false → 0 < count p s.running)
      → (is_prefill
          && ltb
              ((s.store p).num_cached_tokens + (s.store p).num_scheduled_tokens)
              (s.store p).num_tokens)
        ≡ false
      → ((s.store p).num_cached_tokens + (s.store p).num_scheduled_tokens ≡ (s.store p).num_tokens)
        × (0 < count p s.running)
  complete false decoding t =
      ((v.full p (decoding refl) (omega (arith, hit_eq p p refl))).all, decoding refl)
  complete true decoding t =
      let all : (s.store p).num_cached_tokens + (s.store p).num_scheduled_tokens
          ≡ (s.store p).num_tokens =
        ground (arith, ready.within) in
      (
        all,
        elim (dec_lt 0 (count p s.running)) [
          | yes h ↦ h
          | no n ↦ absurd (
              omega (
                arith,
                all,
                here,
                counts p,
                v.part p (omega (arith, counts p, here)) (omega (arith, hit_eq p p refl)),
              ))
        ],
      )

  -- One round keeps the queues in order, whichever way it goes.
  postprocess_one-Phase :
      (token : ℕ) (is_prefill : Bool)
      → (is_prefill ≡ false → 0 < count p s.running)
      → Phase bs batch (postprocess_one bs s p token is_prefill)
  unfolding postprocess_one hashed rested grown finished
  postprocess_one-Phase token is_prefill decoding =
      elim (Bool-cases (
        is_prefill
        && ltb ((s.store p).num_cached_tokens + (s.store p).num_scheduled_tokens)
            (s.store p).num_tokens)) [
              | inl t ↦ rw (t, postprocess_one) (rested-Phase (ground arith))
              | inr t ↦
                  let (all, runs) = complete is_prefill decoding t in
                  elim (Bool-cases (finishes s (grown token runs all) token)) [
                    | inl f ↦ rw (t, postprocess_one, f) (finished-Phase token runs all)
                    | inr f ↦ rw (t, postprocess_one, f) (grown-Phase token runs all f)
                  ]
            ]

-- The other sequences keep their place in the running queue.
postprocess_one-running :
    (bs p q token : ℕ) (s : Scheduler) (is_prefill : Bool)
    → (p == q) ≡ false
    → count q (postprocess_one bs s p token is_prefill).running ≡ count q s.running
unfolding postprocess_one
postprocess_one-running bs p q token s is_prefill n = ground (arith, count-erase q p s.running)

postprocess_all-Phase :
    (bs : ℕ) (batch token_ids : List ℕ) (s : Scheduler) (is_prefill : Bool)
    → length token_ids ≡ length batch
    → Phase bs batch s
    → (is_prefill ≡ false → (p : ℕ) → 0 < count p batch → 0 < count p s.running)
    → Phase bs [] (postprocess_all bs s (zip batch token_ids) is_prefill)
unfolding postprocess_all
postprocess_all-Phase bs [] ts s is_prefill e v d = v
postprocess_all-Phase bs (p ∷ batch) [] s is_prefill e v d = absurd (omega arith)
postprocess_all-Phase bs (p ∷ batch) (t ∷ ts) s is_prefill e v d =
    postprocess_all-Phase bs batch ts _ is_prefill (omega arith)
      (postprocess_one-Phase bs p batch s v t is_prefill
        (λ x. d x p (omega (arith, hit_eq p p refl))))
      (λ x q h. elim (Bool-cases (p == q)) [
        | inl same ↦ absurd (omega (arith, v.once q, hit_eq q p ((==_iff p q).0 same)))
        | inr n ↦ rw (postprocess_one-running bs p q t s is_prefill n) (d x q (omega arith))
      ])

-- For a batch in order, of which a decode's sequences are running, `postprocess` with one token
-- for each sequence throws nothing and brings the scheduler back to rest: what waits and what runs
-- is in order, only queued sequences own blocks, and each of them has generated fewer tokens than
-- its `max_tokens`.
pub postprocess-Phase :
    (bs : ℕ) (batch token_ids : List ℕ) (s : Scheduler) (is_prefill : Bool)
    → Phase bs batch s
    → length token_ids ≡ length batch
    → (is_prefill ≡ false → (p : ℕ) → 0 < count p batch → 0 < count p s.running)
    → (s' : Scheduler) × (postprocess bs s batch token_ids is_prefill ≡ ok s') × Phase bs [] s'
unfolding postprocess
postprocess-Phase bs batch token_ids s is_prefill v e d = (
  postprocess_all bs s (zip batch token_ids) is_prefill,
  ground arith,
  postprocess_all-Phase bs batch token_ids s is_prefill e v d,
)
