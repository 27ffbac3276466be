-- ===== src/Scheduler/Prefill.antt =====
-- The prefill loop of `Scheduler::schedule` of src/scheduler.cpp, from one round to all.
use nano_v_llm_cpp.Base.{
  ℕ, zero, suc, ◌+◌, ◌-◌, ◌≤◌, ◌<◌, min, ltb, not, ◌&&◌, ◌≡◌, ◌∙◌, ap, ◌⊎◌, inl, inr, refl, List,
  [], ◌∷◌, ◌++◌, Bool, true, some, arith, ◌==◌, Bool-cases, Option-cases, ==_iff, is_empty, length,
  count, erase, length-append,
}
use nano_v_llm_cpp.Result.{ok}
use nano_v_llm_cpp.Sequence.{Sequence}
use nano_v_llm_cpp.BlockManager.{BlockManager}
use nano_v_llm_cpp.Scheduler.{
  Scheduler, Round, stops, goes, admit, place, enlist, prefill_round, prefill,
}
use nano_v_llm_cpp.Scheduler.Owners.{owners}
use nano_v_llm_cpp.Scheduler.Queues.{Queues-focus, holders}
use nano_v_llm_cpp.Scheduler.Shapes.{IsWaiting}
use nano_v_llm_cpp.Scheduler.Placed.{Placed, admit-Placed}
use nano_v_llm_cpp.Scheduler.Filling.{Filling, in_front, enlist-Filling}

-- What a prefill round that does not break comes to.
pub record Entered (bs : ℕ) (batch : List ℕ) (batched : ℕ) (s : Scheduler) (p : ℕ) (round : Round)
    : Type 0 where
  pub after : Scheduler
  pub k : ℕ
  pub goes_on : round ≡ goes after (batched + k)
  pub some_tokens : 0 < k
  pub filling : Filling bs (batch ++ (p ∷ [])) (batched + k) after
  pub same_limits :
      (after.max_num_batched_tokens ≡ s.max_num_batched_tokens)
      × (after.max_num_seqs ≡ s.max_num_seqs)
  pub same_blocks : length after.block_manager.blocks ≡ length s.block_manager.blocks

enlist-limits :
    (s : Scheduler) (p : ℕ) (rest : List ℕ) (m : BlockManager) (seq : Sequence) (k : ℕ)
    → ((enlist s p rest m seq k).max_num_batched_tokens ≡ s.max_num_batched_tokens)
      × ((enlist s p rest m seq k).max_num_seqs ≡ s.max_num_seqs)
      × ((enlist s p rest m seq k).block_manager ≡ m)
unfolding enlist
enlist-limits s p rest m seq k = ground arith

prefill_round-breaks :
    (bs : ℕ) (s : Scheduler) (p : ℕ) (rest : List ℕ) (first : Bool) (batched : ℕ)
    → (prefill_round bs s p rest first batched ≡ stops s)
      ⊎ ((batched < s.max_num_batched_tokens)
          × (n : ℕ) × (todo : ℕ) × (admit bs s (s.store p) ≡ some (n, todo))
          × ((m : BlockManager) (seq : Sequence)
              → place bs s.block_manager (s.store p) n ≡ ok (m, seq)
              → prefill_round bs s p rest first batched
                ≡ goes
                    (enlist s p rest m seq (min todo (s.max_num_batched_tokens - batched)))
                    (batched + min todo (s.max_num_batched_tokens - batched))))
unfolding prefill_round
prefill_round-breaks bs s p rest first batched = elim (Option-cases (admit bs s (s.store p))) [
  | inl e ↦ inl (ground arith)
  | inr ((n, todo), e) ↦ elim (Bool-cases (s.max_num_batched_tokens - batched == 0)) [
    | inl z ↦ inl (ground arith)
    | inr z ↦ elim (Bool-cases (ltb (s.max_num_batched_tokens - batched) todo && not first)) [
      | inl b ↦ inl (ground arith)
      | inr g ↦ inr (ground arith, n, todo, e, λ m seq pl. ground arith)
    ]
  ]
]

pub prefill_round-Entered :
    (bs : ℕ) (batch : List ℕ) (batched : ℕ) (s : Scheduler) (p : ℕ) (rest : List ℕ) (first : Bool)
    → Filling bs batch batched s
    → s.waiting ≡ p ∷ rest
    → (prefill_round bs s p rest first batched ≡ stops s)
      ⊎ Entered bs batch batched s p (prefill_round bs s p rest first batched)
prefill_round-Entered bs batch batched s p rest first f w =
    elim (prefill_round-breaks bs s p rest first batched) [
      | inl e ↦ inl e
      | inr (room, n, todo, e, go) ↦
          let q = f.phase.queues in
          let wait : IsWaiting bs (s.store p) =
            f.phase.waits p (ground (arith, ap (count p) w, ==_iff p p)) in
          let pl : Placed bs s (s.store p) (owners s.store (erase p (holders [] s))) n todo =
            admit-Placed bs s (s.store p) _ n todo q.positive q.own_size q.size wait
              (Queues-focus bs [] s p q (in_front bs batch batched s p rest f w room)) e in
          let k : ℕ = min todo (s.max_num_batched_tokens - batched) in
          let seq : Sequence = record (s.store p) {
            block_table = pl.table;
            num_cached_tokens = pl.cached;
          } in
          inr (record {
            after = enlist s p rest pl.after seq k;
            k = k;
            goes_on = go pl.after seq pl.runs;
            some_tokens = omega (arith, pl.some_left);
            filling =
                enlist-Filling bs batch batched s p rest f w room pl.after seq k pl.valid
                  pl.same_size
                  (λ st. record {
                    live = record {
                      nonempty = wait.live.nonempty;
                      counted = wait.live.counted;
                      prompt = wait.live.prompt;
                      budget = wait.live.budget;
                    };
                    some_scheduled = omega (arith, pl.some_left);
                    within = omega (arith, pl.left);
                    table = pl.covers;
                  })
                  (omega arith) wait.status (omega (arith, pl.left));
            same_limits = (
              (enlist-limits s p rest pl.after seq k).0,
              (enlist-limits s p rest pl.after seq k).1,
            );
            same_blocks =
                ap (λ m. length m.blocks) (enlist-limits s p rest pl.after seq k).2
                ∙ pl.same_blocks;
          })
    ]

-- What the prefill loop comes to.
pub record Filled (bs slots : ℕ) (batch : List ℕ) (batched : ℕ) (s : Scheduler) : Type 0 where
  pub after : Scheduler
  pub batch' : List ℕ
  pub batched' : ℕ
  pub runs : prefill bs slots s batch batched ≡ ok (after, batch', batched')
  pub filling : Filling bs batch' batched' after
  pub few : length batch' ≤ length batch + slots
  pub same_limits :
      (after.max_num_batched_tokens ≡ s.max_num_batched_tokens)
      × (after.max_num_seqs ≡ s.max_num_seqs)
  pub same_blocks : length after.block_manager.blocks ≡ length s.block_manager.blocks
  pub longer : length batch ≤ length batch'
  pub unchanged : length batch' ≤ length batch → (after ≡ s) × (batched' ≡ batched)

module _ (bs batched : ℕ) (batch : List ℕ) (s : Scheduler) (f : Filling bs batch batched s) where
  Filled-stop :
      (slots : ℕ)
      → prefill bs slots s batch batched ≡ ok (s, batch, batched)
      → Filled bs slots batch batched s
  Filled-stop slots e = record {
    after = s;
    batch' = batch;
    batched' = batched;
    runs = e;
    filling = f;
    few = omega arith;
    same_limits = (refl, refl);
    same_blocks = refl;
    longer = omega arith;
    unchanged = λ h. (refl, refl);
  }

  Filled-step :
      (slots p : ℕ) (rest : List ℕ)
      → s.waiting ≡ p ∷ rest
      → (n : Entered bs batch batched s p (prefill_round bs s p rest (is_empty batch) batched))
      → Filled bs slots (batch ++ (p ∷ [])) (batched + n.k) n.after
      → Filled bs (suc slots) batch batched s
  unfolding prefill
  Filled-step slots p rest w n g = record {
    after = g.after;
    batch' = g.batch';
    batched' = g.batched';
    runs = ground (arith, w, n.goes_on, g.runs);
    filling = g.filling;
    few = omega (arith, g.few, length-append batch (p ∷ []));
    same_blocks = g.same_blocks ∙ n.same_blocks;
    same_limits = (g.same_limits.0 ∙ n.same_limits.0, g.same_limits.1 ∙ n.same_limits.1);
    longer = omega (arith, g.longer, length-append batch (p ∷ []));
    unchanged = λ h. absurd (omega (arith, g.longer, length-append batch (p ∷ [])));
  }

-- From a state that satisfies the loop's invariant (Filling), the loop that fills a prefill batch
-- runs to its end without an exception and keeps the invariant. It adds at most one sequence for
-- each slot, changes neither the limits nor the number of blocks, and leaves the state as it was
-- when it adds no sequence.
pub prefill-Filled :
    (bs slots batched : ℕ) (batch : List ℕ) (s : Scheduler)
    → Filling bs batch batched s
    → Filled bs slots batch batched s
unfolding prefill
prefill-Filled bs zero batched batch s f = Filled-stop bs batched batch s f zero refl
prefill-Filled bs (suc slots) batched batch s f =
    front (λ b bt t g. prefill-Filled bs slots b bt t g) s.waiting refl
  where
    front :
        ((b : ℕ) (bt : List ℕ) (t : Scheduler) → Filling bs bt b t → Filled bs slots bt b t)
        → (ws : List ℕ) → s.waiting ≡ ws
        → Filled bs (suc slots) batch batched s
    front again [] w = Filled-stop bs batched batch s f (suc slots) (ground (arith, w))
    front again (p ∷ rest) w =
        elim (prefill_round-Entered bs batch batched s p rest (is_empty batch) f w) [
          | inl e ↦ Filled-stop bs batched batch s f (suc slots) (ground (arith, w, e))
          | inr n ↦
              Filled-step bs batched batch s f slots p rest w n
                (again (batched + n.k) (batch ++ (p ∷ [])) n.after n.filling)
        ]

-- A loop whose first round goes on leaves a batch.
pub Filled-first :
    (bs slots p : ℕ) (rest : List ℕ) (s : Scheduler)
    → Filling bs [] 0 s
    → s.waiting ≡ p ∷ rest
    → Entered bs [] 0 s p (prefill_round bs s p rest true 0)
    → (g : Filled bs (suc slots) [] 0 s) × (0 < length g.batch')
unfolding Filled-step
Filled-first bs slots p rest s f w n =
    let g : Filled bs slots (p ∷ []) (0 + n.k) n.after =
      prefill-Filled bs slots (0 + n.k) (p ∷ []) n.after n.filling in
    (Filled-step bs 0 [] s f slots p rest w n g, g.longer)
