-- ===== src/Scheduler/Shapes.antt =====
-- What a sequence of src/scheduler.cpp looks like while it waits, while it runs, and while a batch
-- holds it.
use nano_v_llm_cpp.Base.{
  ℕ, suc, ◌+◌, ◌-◌, ◌/◌, ◌%◌, ◌≤◌, ◌<◌, ◌≡◌, ◌∙◌, sym, ap, ◌⊎◌, inl, inr, List, [], ◌∷◌, ◌++◌,
  arith, ◌==◌, if◌then◌else◌, Bool-cases, ==_iff, length, count, count-append,
}
use native.Mathlib.Nat.{
  div-eq_of_lt-le, div-add-mod', mod-lt, mod-add-mod, mod-eq_of_lt, mod_self, add-div_right,
}
use native.Mathlib.Decide.{dec_lt}
use nano_v_llm_cpp.Sequence.{Status, Sequence, num_blocks}
use nano_v_llm_cpp.Scheduler.{Scheduler}
use nano_v_llm_cpp.Scheduler.Queues.{Queues}

-- The blocks that `n` tokens take.
abbrev pub blocks_for : ℕ → ℕ → ℕ
blocks_for bs n = (n + bs - 1) / bs

-- The counters of a sequence that is not finished.
pub record IsLive (seq : Sequence) : Type 0 where
  pub nonempty : 0 < seq.num_tokens
  pub counted : length seq.token_ids ≡ seq.num_tokens
  pub prompt : seq.num_prompt_tokens ≤ seq.num_tokens
  pub budget : seq.num_tokens < seq.num_prompt_tokens + seq.max_tokens

pub record IsWaiting (bs : ℕ) (seq : Sequence) : Type 0 where
  pub live : IsLive seq
  pub status : seq.status ≡ Status.waiting
  pub behind : seq.num_cached_tokens < seq.num_tokens
  pub table :
      ((seq.block_table ≡ []) × (seq.num_cached_tokens ≡ 0))
      ⊎ (length seq.block_table ≡ num_blocks bs seq)

-- All tokens but the last one are cached.
pub record IsRunning (bs : ℕ) (seq : Sequence) : Type 0 where
  pub live : IsLive seq
  pub status : seq.status ≡ Status.running
  pub behind : suc seq.num_cached_tokens ≡ seq.num_tokens
  pub table : length seq.block_table ≡ blocks_for bs seq.num_cached_tokens

-- A batch holds it: its table covers all its tokens, and some of them are scheduled.
pub record IsReady (bs : ℕ) (seq : Sequence) : Type 0 where
  pub live : IsLive seq
  pub some_scheduled : 0 < seq.num_scheduled_tokens
  pub within : seq.num_cached_tokens + seq.num_scheduled_tokens ≤ seq.num_tokens
  pub table : length seq.block_table ≡ num_blocks bs seq

-- And with this batch its last token is computed.
pub record IsFull (bs : ℕ) (seq : Sequence) : Type 0 where
  pub status : seq.status ≡ Status.running
  pub all : seq.num_cached_tokens + seq.num_scheduled_tokens ≡ seq.num_tokens

abbrev pub rest_of : List ℕ → List ℕ
rest_of [] = []
rest_of (p ∷ ps) = ps

-- The queues while the sequences of `batch` are scheduled; at rest `batch` is empty. At most the
-- sequence at the front of the waiting queue has blocks.
pub record Phase (bs : ℕ) (batch : List ℕ) (s : Scheduler) : Type 0 where
  pub queues : Queues bs [] s
  pub once : (p : ℕ) → count p batch ≤ 1
  pub waits : (p : ℕ) → 0 < count p s.waiting → IsWaiting bs (s.store p)
  pub tail_empty : (p : ℕ) → 0 < count p (rest_of s.waiting) → (s.store p).block_table ≡ []
  pub runs : (p : ℕ) → 0 < count p s.running → count p batch ≡ 0 → IsRunning bs (s.store p)
  pub full : (p : ℕ) → 0 < count p s.running → 0 < count p batch → IsFull bs (s.store p)
  pub part :
      (p : ℕ)
      → 0 < count p s.waiting
      → 0 < count p batch
      → (s.store p).num_cached_tokens + (s.store p).num_scheduled_tokens < (s.store p).num_tokens
  pub ready : (p : ℕ) → 0 < count p batch → IsReady bs (s.store p)
  pub queued : (p : ℕ) → 0 < count p batch → 0 < count p (s.waiting ++ s.running)

pub count-rest_of : (q : ℕ) (xs : List ℕ) → count q (rest_of xs) ≤ count q xs
count-rest_of q [] = omega arith
count-rest_of q (x ∷ xs) = omega arith

-- `blocks_for` by quotient and remainder.
blocks_for-div : (bs c : ℕ) → 1 < bs → blocks_for bs c ≡ c / bs + (if c % bs == 0 then 0 else 1)
blocks_for-div bs c h = elim (Bool-cases (c % bs == 0)) [
  | inl e ↦ rw e (
      div-eq_of_lt-le bs (omega (arith, div-add-mod' c bs, (==_iff _ _).0 e))
        (omega (arith, div-add-mod' c bs, (==_iff _ _).0 e)))
  | inr n ↦ rw n (
      div-eq_of_lt-le bs (ground (arith, div-add-mod' c bs))
        (ground (arith, div-add-mod' c bs, mod-lt c {m = bs})))
]

-- One more token takes one more block when it begins one.
pub blocks_for-suc :
    (bs c : ℕ)
    → 1 < bs
    → blocks_for bs (suc c) ≡ blocks_for bs c + (if suc c % bs == 1 then 1 else 0)
blocks_for-suc bs c h = elim (dec_lt (c % bs + 1) bs) [
  | yes small ↦ rw (up, blocks_for-div bs c h, wrap, mod-eq_of_lt small) (ground arith)
  | no large ↦ rw (up, blocks_for-div bs c h, wrap, exact large, mod_self) (ground arith)
]
  where
    up : blocks_for bs (suc c) ≡ c / bs + 1
    up = ap (λ k. k / bs) (omega arith) ∙ add-div_right c (omega arith)

    wrap : suc c % bs ≡ (c % bs + 1) % bs
    wrap = ap (λ k. k % bs) (omega arith) ∙ sym (mod-add-mod c bs 1)

    exact : ¬ (c % bs + 1 < bs) → c % bs + 1 ≡ bs
    exact large = omega (arith, mod-lt c {m = bs} (omega arith))

-- The same, for a table of the allocator's own block size.
pub blocks_for-needed :
    (bs bs' c n len : ℕ)
    → 1 < bs
    → bs' ≡ bs
    → suc c ≡ n
    → len ≡ blocks_for bs c
    → len + (if n % bs' == 1 then 1 else 0) ≡ blocks_for bs n
blocks_for-needed bs bs' c n len h e1 e2 e3 = rw (e1, ← e2, e3) (sym (blocks_for-suc bs c h))

-- A sequence that the batch completes has moved to the running queue.
pub full-runs :
    {bs : ℕ} {batch : List ℕ} {s : Scheduler}
    → Phase bs batch s
    → (p : ℕ) → 0 < count p batch
    → IsFull bs (s.store p)
    → 0 < count p s.running
full-runs {bs} {batch} {s} v p h f = elim (Bool-cases (count p s.running == 0)) [
  | inl e ↦ absurd (
      omega (
        arith,
        f.all,
        v.part p (ground (arith, v.queued p h, count-append p s.waiting s.running)) h,
      ))
  | inr n ↦ ground arith
]
