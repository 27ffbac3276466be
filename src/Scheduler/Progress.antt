-- ===== src/Scheduler/Progress.antt =====
-- One call of `Scheduler::schedule` of src/scheduler.cpp as a whole.
use nano_v_llm_cpp.Base.{
  ℕ, suc, ◌+◌, ◌-◌, ◌≤◌, ◌<◌, ◌≡◌, ◌∙◌, sym, ap, subst, ◌⊎◌, inl, inr, refl, List, [], ◌∷◌, ◌++◌,
  true, false, Option, none, some, arith, ◌==◌, Bool-cases, ==_iff, length, is_empty, hit_ne, count,
  count-append,
}
use nano_v_llm_cpp.Result.{ok, err, no_progress}
use nano_v_llm_cpp.BlockManager.{can_allocate}
use nano_v_llm_cpp.Scheduler.{
  Scheduler, stops, admit, prefill_round, prefill, decode, conclude, schedule, Scheduled,
}
use nano_v_llm_cpp.Scheduler.Queues.{Queues-regroup}
use nano_v_llm_cpp.Scheduler.Shapes.{IsFull, Phase, count-rest_of}
use nano_v_llm_cpp.Scheduler.Filling.{scheduled_tokens, Filling}
use nano_v_llm_cpp.Scheduler.Prefill.{Filled, Filled-first, prefill_round-Entered}
use nano_v_llm_cpp.Scheduler.Decode.{Decoding, count-holders}
use nano_v_llm_cpp.Scheduler.Preemption.{Moves}
use nano_v_llm_cpp.Scheduler.DecodeLoop.{Decoded, decode-Decoded}

-- A first round breaks only for a sequence without blocks that cannot be allocated.
stops-can_allocate :
    (bs : ℕ) (s : Scheduler) (p : ℕ) (rest : List ℕ)
    → 0 < s.max_num_batched_tokens
    → prefill_round bs s p rest true 0 ≡ stops s
    → (is_empty (s.store p).block_table ≡ true)
      × (can_allocate bs s.block_manager (s.store p) ≡ none)
unfolding prefill_round admit
stops-can_allocate bs s p rest h e = ground arith

pub Filling-start : (bs : ℕ) (s : Scheduler) → Phase bs [] s → Filling bs [] 0 s
Filling-start bs s v = record {
  phase = v;
  within = omega arith;
  partial = λ p h g. absurd (omega arith);
  total = refl;
}

empty_of_test : (xs : List ℕ) → is_empty xs ≡ true → xs ≡ []
empty_of_test [] h = refl
empty_of_test (x ∷ xs) h = cc

some_of_test : (xs : List ℕ) → is_empty xs ≡ false → 0 < length xs
some_of_test [] h = cc
some_of_test (x ∷ xs) h = omega arith

-- Nothing was prefilled, and the decode loop starts.
record Unfilled (bs : ℕ) (s : Scheduler) : Type 0 where
  runs : prefill bs s.max_num_seqs s [] 0 ≡ ok (s, [], 0)
  decoding : Decoding bs [] [] s
  stuck :
      (p : ℕ) (rest : List ℕ)
      → s.waiting ≡ p ∷ rest
      → can_allocate bs s.block_manager (s.store p) ≡ none

Unfilled-Decoding :
    (bs : ℕ) (s : Scheduler)
    → Phase bs [] s
    → ((p : ℕ) → 0 < count p s.waiting → (s.store p).block_table ≡ [])
    → Decoding bs [] [] s
Unfilled-Decoding bs s v e = record {
  queues = v.queues;
  waits = v.waits;
  no_blocks = e;
  runs = λ p h. v.runs p h refl;
  taken = λ p h. absurd (omega arith);
  ready = λ p h. absurd (omega arith);
  full = λ p h. absurd (omega arith);
}

first_pass :
    (bs slots : ℕ) (s : Scheduler) (ws : List ℕ)
    → Phase bs [] s
    → 0 < s.max_num_batched_tokens
    → s.max_num_seqs ≡ suc slots
    → s.waiting ≡ ws
    → Unfilled bs s ⊎ ((g : Filled bs s.max_num_seqs [] 0 s) × (0 < length g.batch'))
unfolding prefill
first_pass bs slots s [] v h e w = inl (record {
  runs = rw e (ground (arith, w));
  decoding = Unfilled-Decoding bs s v (λ p g. absurd (omega (arith, ap (count p) w)));
  stuck = λ p rest x. absurd (cc);
})
first_pass bs slots s (p ∷ rest) v h e w =
    elim (prefill_round-Entered bs [] 0 s p rest true (Filling-start bs s v) w) [
      | inl broke ↦
          let c = stops-can_allocate bs s p rest h broke in
          inl (record {
            runs = rw e (ground (arith, w, broke));
            decoding = Unfilled-Decoding bs s v (λ q g. no_blocks c.0 q g);
            stuck =
                λ q qs x. subst (λ y. can_allocate bs s.block_manager (s.store y) ≡ none) (cc) c.1;
          })
      | inr n ↦ inr (
          subst (λ k. (f : Filled bs k [] 0 s) × (0 < length f.batch')) (sym e)
            (Filled-first bs slots p rest s (Filling-start bs s v) w n))
    ]
  where
    no_blocks :
        is_empty (s.store p).block_table ≡ true
        → (q : ℕ) → 0 < count q s.waiting
        → (s.store q).block_table ≡ []
    no_blocks t q g = elim (Bool-cases (p == q)) [
      | inl same ↦
          subst (λ y. (s.store y).block_table ≡ []) ((==_iff p q).0 same) (empty_of_test _ t)
      | inr other ↦ v.tail_empty q (rw w (omega (arith, ap (count q) w, hit_ne q p other)))
    ]

-- What one call of `schedule` comes to, where `again` is what it returns if it calls itself.
pub data Outcome (bs : ℕ) (s : Scheduler) (again : Scheduler → Option Scheduled)
    : Option Scheduled → Type 0 where
  prefills :
      (s' : Scheduler) (batch : List ℕ)
      → Phase bs batch s'
      → 0 < length batch
      → length batch ≤ s.max_num_seqs
      → scheduled_tokens s'.store batch ≤ s.max_num_batched_tokens
      → length s'.block_manager.blocks ≡ length s.block_manager.blocks
      → Outcome bs s again (some (ok (s', batch, true)))
  decodes :
      (s' : Scheduler) (batch : List ℕ)
      → Phase bs batch s'
      → 0 < length batch
      → length batch ≤ s.max_num_seqs
      → ((p : ℕ) → 0 < count p batch → IsFull bs (s'.store p))
      → length s'.block_manager.blocks ≡ length s.block_manager.blocks
      → Outcome bs s again (some (ok (s', batch, false)))
  idle : s.waiting ≡ [] → s.running ≡ [] → Outcome bs s again (some (err no_progress))
  restarts :
      (s' : Scheduler)
      → Decoding bs [] [] s'
      → s'.running ≡ []
      → 0 < length s'.waiting
      → Moves [] [] s [] [] s'
      → ((p : ℕ) (rest : List ℕ)
          → s.waiting ≡ p ∷ rest
          → can_allocate bs s.block_manager (s.store p) ≡ none)
      → Outcome bs s again (again s')

-- After the decode loop the batch goes back to the front of the running queue.
pub Phase-of-Decoding :
    (bs : ℕ) (batch : List ℕ) (s : Scheduler)
    → Decoding bs [] batch s
    → Phase bs batch (record s { running = batch ++ s.running })
Phase-of-Decoding bs batch s d = record {
  queues = Queues-regroup bs batch [] s _ d.queues refl refl refl (λ q. omega (
    arith,
    count-holders q [] batch s,
    count-append q s.waiting (batch ++ s.running),
    count-append q batch s.running,
  ));
  once = λ p. omega (arith, counts p);
  waits = d.waits;
  tail_empty = λ p h. d.no_blocks p (omega (arith, count-rest_of p s.waiting));
  runs = λ p h g. d.runs p (omega (arith, count-append p batch s.running));
  full = λ p h g. d.full p g;
  part = λ p h g. absurd (omega (arith, counts p));
  ready = d.ready;
  queued = λ p h.
      omega (arith, count-append p s.waiting (batch ++ s.running), count-append p batch s.running);
}
  where
    counts : (q : ℕ) → count q batch + count q s.waiting + count q s.running ≤ 1
    counts q = omega (arith, d.queues.distinct q, count-holders q [] batch s)

schedule-prefilled :
    (bs depth : ℕ) (s s' : Scheduler) (batch : List ℕ) (batched : ℕ)
    → prefill bs s.max_num_seqs s [] 0 ≡ ok (s', batch, batched)
    → 0 < length batch
    → schedule (suc depth) bs s ≡ some (ok (s', batch, true))
unfolding schedule
schedule-prefilled bs depth s s' [] batched e h = absurd (omega arith)
schedule-prefilled bs depth s s' (p ∷ ps) batched e h = rw (e, schedule)

schedule-decoded :
    (bs depth : ℕ) (s s' : Scheduler) (batch : List ℕ)
    → prefill bs s.max_num_seqs s [] 0 ≡ ok (s, [], 0)
    → decode s.max_num_seqs s [] ≡ ok (s', batch)
    → schedule (suc depth) bs s ≡ conclude (schedule depth bs) s' batch
unfolding schedule
schedule-decoded bs depth s s' batch e d = rw (e, schedule) (rw d)

conclude-Outcome :
    (bs : ℕ) (s : Scheduler) (again : Scheduler → Option Scheduled) (s' : Scheduler)
    (batch : List ℕ)
    → 0 < s.max_num_seqs
    → ((p : ℕ) (rest : List ℕ)
        → s.waiting ≡ p ∷ rest
        → can_allocate bs s.block_manager (s.store p) ≡ none)
    → (g : Decoded bs s.max_num_seqs [] s) → g.after ≡ s'
    → g.batch' ≡ batch
    → Outcome bs s again (conclude again s' batch)
unfolding conclude
conclude-Outcome bs s again s' (p ∷ ps) h st g e b =
    let d : Decoding bs [] (p ∷ ps) s' =
      subst (λ x. Decoding bs [] x s') b (subst (λ x. Decoding bs [] g.batch' x) e g.decoding) in
    decodes _ (p ∷ ps) (Phase-of-Decoding bs (p ∷ ps) s' d) (omega arith)
      (omega (arith, g.few, ap length b)) d.full
      (ap (λ x. length x.block_manager.blocks) (sym e) ∙ g.moves.blocks)
conclude-Outcome bs s again s' [] h st g e b = elim (Bool-cases (is_empty s'.waiting)) [
  | inl t ↦ rw (t, conclude) (still (drained.1) (empty_of_test _ t))
  | inr t ↦
      rw (t, conclude)
        (restarts s'
          (subst (λ x. Decoding bs [] x s') b (subst (λ x. Decoding bs [] g.batch' x) e g.decoding))
          drained.0 (some_of_test _ t)
          (subst (λ x. Moves [] [] s [] x s') b
            (subst (λ x. Moves [] [] s [] g.batch' x) e g.moves))
          st)
]
  where
    drained : (s'.running ≡ []) × ((s.running ≡ []) ⊎ (0 < length s'.waiting))
    drained =
        subst (λ x. (x.running ≡ []) × ((s.running ≡ []) ⊎ (0 < length x.waiting))) e
          (g.drained h (omega (arith, ap length b)))

    still :
        (s.running ≡ []) ⊎ (0 < length s'.waiting)
        → s'.waiting ≡ []
        → Outcome bs s again (some (err no_progress))
    still (inl r) w = idle (ap (λ x. x.waiting) (sym ((g.waits_still (ap length r)).0) ∙ e) ∙ w) r
    still (inr n) w = absurd (omega (arith, ap length w))

-- From rest, and with room for one sequence and one token, one call of `schedule` throws only
-- where no sequence is queued at all; it returns a batch that is not empty, has at most
-- `max_num_seqs` sequences and, as a prefill, at most `max_num_batched_tokens` tokens, and whose
-- sequences own the blocks that their tokens take; or it calls itself with nothing running and no
-- block in use.
pub schedule-Outcome :
    (bs depth : ℕ) (s : Scheduler)
    → Phase bs [] s
    → 0 < s.max_num_batched_tokens
    → 0 < s.max_num_seqs
    → Outcome bs s (schedule depth bs) (schedule (suc depth) bs s)
schedule-Outcome bs depth s v h1 h2 =
    elim (first_pass bs (s.max_num_seqs - 1) s s.waiting v h1 (omega arith) refl) [
      | inr (g, l) ↦
          subst (Outcome bs s (schedule depth bs))
            (sym (schedule-prefilled bs depth s g.after g.batch' g.batched' g.runs l))
            (prefills g.after g.batch' g.filling.phase l (omega (arith, g.few))
              (omega (arith, g.filling.total, g.filling.within, g.same_limits.0)) g.same_blocks)
      | inl u ↦
          let g : Decoded bs s.max_num_seqs [] s =
            decode-Decoded bs s.max_num_seqs [] s u.decoding in
          subst (Outcome bs s (schedule depth bs))
            (sym (schedule-decoded bs depth s g.after g.batch' u.runs g.runs))
            (conclude-Outcome bs s (schedule depth bs) g.after g.batch' h2 u.stuck g refl refl)
    ]
