-- ===== src/Scheduler/Preemption.antt =====
-- What the decode loop of `Scheduler::schedule` of src/scheduler.cpp changes from step to step.
use nano_v_llm_cpp.Base.{ℕ, ◌+◌, ◌≡◌, ◌∙◌, ap, refl, List, ◌∷◌, reverse, arith, length, hit, count}
use nano_v_llm_cpp.BlockManager.{deallocate}
use nano_v_llm_cpp.BlockManager.Steps.{release_all-frame}
use nano_v_llm_cpp.Scheduler.Queues.{put_elim}
use nano_v_llm_cpp.Scheduler.{Scheduler, preempt}

-- From `s` to `s'` only the queues, the batch and the tables change: the limits, the number of
-- blocks, the sequences' sizes and which of them are about stay.
pub record Moves (held batch : List ℕ) (s : Scheduler) (held' batch' : List ℕ) (s' : Scheduler)
    : Type 0 where
  pub seqs : s'.max_num_seqs ≡ s.max_num_seqs
  pub tokens : s'.max_num_batched_tokens ≡ s.max_num_batched_tokens
  pub blocks : length s'.block_manager.blocks ≡ length s.block_manager.blocks
  pub sizes : (p : ℕ) → (s'.store p).num_tokens ≡ (s.store p).num_tokens
  pub members :
      (p : ℕ)
      → count p held' + count p batch' + count p s'.waiting + count p s'.running
        ≡ count p held + count p batch + count p s.waiting + count p s.running

pub Moves-refl : (held batch : List ℕ) (s : Scheduler) → Moves held batch s held batch s
Moves-refl held batch s = record {
  seqs = refl;
  tokens = refl;
  blocks = refl;
  sizes = λ p. refl;
  members = λ p. refl;
}

pub Moves-trans :
    {h1 h2 h3 b1 b2 b3 : List ℕ} {s t u : Scheduler}
    → Moves h1 b1 s h2 b2 t
    → Moves h2 b2 t h3 b3 u
    → Moves h1 b1 s h3 b3 u
Moves-trans a b = record {
  seqs = b.seqs ∙ a.seqs;
  tokens = b.tokens ∙ a.tokens;
  blocks = b.blocks ∙ a.blocks;
  sizes = λ p. b.sizes p ∙ a.sizes p;
  members = λ p. b.members p ∙ a.members p;
}

pub waiting-preempt : (s : Scheduler) (p : ℕ) → (preempt s p).waiting ≡ p ∷ s.waiting
unfolding preempt
waiting-preempt s p = refl

pub running-preempt : (s : Scheduler) (p : ℕ) → (preempt s p).running ≡ s.running
unfolding preempt
running-preempt s p = refl

pub preempt-Moves :
    (v : ℕ) (held batch : List ℕ) (s : Scheduler)
    → Moves (v ∷ held) batch s held batch (preempt s v)
unfolding preempt deallocate
preempt-Moves v held batch s = record {
  seqs = refl;
  tokens = refl;
  blocks = (release_all-frame (reverse (s.store v).block_table) s.block_manager).1;
  sizes = λ p.
      put_elim (λ x. x.num_tokens ≡ (s.store p).num_tokens) v p _ s.store
        (λ e. ap (λ q. (s.store q).num_tokens) e) (λ n. refl);
  members = λ p. omega arith;
}

pub take-Moves :
    (v : ℕ) (held batch running' : List ℕ) (s : Scheduler)
    → ((q : ℕ) → count q s.running ≡ hit q v + count q running')
    → Moves held batch s (v ∷ held) batch (record s { running = running' })
take-Moves v held batch running' s split = record {
  seqs = refl;
  tokens = refl;
  blocks = refl;
  sizes = λ p. refl;
  members = λ p. omega (arith, split p);
}
