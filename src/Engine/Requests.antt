-- ===== src/Engine/Requests.antt =====
-- `LLMEngine::add_request` of src/llm_engine.cpp, for a prompt of token ids.
use nano_v_llm_cpp.Base.{
  ℕ, suc, ◌+◌, ◌≤◌, ◌<◌, ◌≡◌, ◌∙◌, sym, ap, subst, inl, inr, refl, List, [], ◌∷◌, ◌++◌, false, some,
  arith, ◌==◌, ltb, Bool-cases, ==_iff, length, is_empty, hit_ne, count, count-append, ◌%◌, ◌^◌,
}
use nano_v_llm_cpp.Result.{ok}
use nano_v_llm_cpp.Sequence.{SamplingParams, Sequence, new_sequence}
use nano_v_llm_cpp.BlockManager.{put}
use nano_v_llm_cpp.BlockManager.Invariant.{Invariant}
use nano_v_llm_cpp.Scheduler.{Scheduler, add}
use nano_v_llm_cpp.Scheduler.Owners.{owners-put}
use nano_v_llm_cpp.Scheduler.Queues.{put_elim}
use nano_v_llm_cpp.Scheduler.Shapes.{IsWaiting, IsRunning, Phase, count-rest_of}
use nano_v_llm_cpp.Scheduler.Add.{add-Phase, new_sequence-IsWaiting}
use nano_v_llm_cpp.Engine.{LlmEngine, is_negative, validate, too_long, add_request}

-- A sequence that no queue names may change.
Phase-put :
    (bs p : ℕ) (seq : Sequence) (s : Scheduler)
    → Phase bs [] s
    → count p (s.waiting ++ s.running) ≡ 0
    → Phase bs [] (record s { store = put p seq s.store })
Phase-put bs p seq s v new = record {
  queues = record {
    positive = v.queues.positive;
    own_size = v.queues.own_size;
    size = v.queues.size;
    distinct = v.queues.distinct;
    allocator =
        subst (Invariant s.block_manager)
          (sym (owners-put s.store p seq (s.waiting ++ s.running) new)) v.queues.allocator;
  };
  once = v.once;
  waits = λ q h.
      put_elim (IsWaiting bs) p q seq s.store
        (λ e. absurd (named q e (omega (arith, count-append q s.waiting s.running))))
        (λ n. v.waits q h);
  tail_empty = λ q h.
      put_elim (λ x. x.block_table ≡ []) p q seq s.store
        (λ e. absurd (
          named q e (omega (arith, count-append q s.waiting s.running, count-rest_of q s.waiting))))
        (λ n. v.tail_empty q h);
  runs = λ q h g.
      put_elim (IsRunning bs) p q seq s.store
        (λ e. absurd (named q e (omega (arith, count-append q s.waiting s.running))))
        (λ n. v.runs q h g);
  full = λ q h g. absurd (omega arith);
  part = λ q h g. absurd (omega arith);
  ready = λ q h. absurd (omega arith);
  queued = λ q h. absurd (omega arith);
}
  where
    named : (q : ℕ) → p ≡ q → 0 < count q (s.waiting ++ s.running) → ⊥
    named q e h = omega (arith, ap (λ x. count x (s.waiting ++ s.running)) e)

-- Every queued sequence was numbered before.
abbrev pub Numbered : {L : Type 0} → LlmEngine L → Type 0
Numbered e = (p : ℕ) → 0 < count p (e.scheduler.waiting ++ e.scheduler.running) → p < e.counter

-- What a request comes to.
pub record Requested {L : Type 0} (bs : ℕ) (e : LlmEngine L) (prompt : List ℕ) (sp : SamplingParams)
    : Type 0 where
  pub after : LlmEngine L
  pub runs : add_request e prompt sp ≡ ok after
  pub phase : Phase bs [] after.scheduler
  pub numbered : Numbered after
  pub last : after.scheduler.waiting ≡ e.scheduler.waiting ++ (e.counter ∷ [])
  pub prompt_stored : (after.scheduler.store e.counter).token_ids ≡ prompt

abbrev requested : {L : Type 0} → LlmEngine L → Sequence → LlmEngine L
requested e seq = record e {
  scheduler = add (record (e.scheduler) { store = put e.counter seq e.scheduler.store }) e.counter;
  counter = suc e.counter;
}

-- A sum that the limit allows does not overflow into one that is refused.
fits : (n max_tokens limit : ℕ) → n + max_tokens ≤ limit → too_long n max_tokens limit ≡ false
fits n max_tokens limit h =
    let remainder : (n + max_tokens) % 2 ^ 32 ≤ n + max_tokens = omega arith in ground arith

add_request-accepts :
    {L : Type 0} (e : LlmEngine L) (prompt : List ℕ) (sp : SamplingParams) (seq : Sequence)
    → is_negative sp.temperature ≡ false
    → 0 < sp.max_tokens
    → is_empty prompt ≡ false
    → length prompt + sp.max_tokens ≤ e.max_model_len
    → new_sequence e.counter prompt sp ≡ some seq
    → add_request e prompt sp ≡ ok (requested e seq)
unfolding add_request validate
add_request-accepts e prompt sp seq t m some_tokens len made =
    let f1 : ltb sp.max_tokens 1 ≡ false = ground arith in
    let f2 : too_long (length prompt) sp.max_tokens e.max_model_len ≡ false =
      fits (length prompt) sp.max_tokens e.max_model_len len in
    rw (t, f1, some_tokens, f2, made) refl

new_sequence-some :
    (counter x : ℕ) (xs : List ℕ) (sp : SamplingParams)
    → (seq : Sequence) × (new_sequence counter (x ∷ xs) sp ≡ some seq)
unfolding new_sequence
new_sequence-some counter x xs sp = (_, refl)

-- At rest, where every queued sequence was numbered before, a request that passes the four tests
-- is queued behind the others as the next sequence, with its prompt, and the engine stays at rest.
pub add_request-Requested :
    {L : Type 0} (bs : ℕ) (e : LlmEngine L) (prompt : List ℕ) (sp : SamplingParams)
    → Phase bs [] e.scheduler
    → Numbered e
    → is_negative sp.temperature ≡ false
    → 0 < sp.max_tokens
    → 0 < length prompt
    → length prompt + sp.max_tokens ≤ e.max_model_len
    → Requested bs e prompt sp
unfolding add
add_request-Requested bs e [] sp v n t m some_tokens len = absurd (omega arith)
add_request-Requested bs e (x ∷ xs) sp v n t m some_tokens len =
    let (seq, made) = new_sequence-some e.counter x xs sp in
    let w = new_sequence-IsWaiting bs e.counter (x ∷ xs) sp m made in
    let here : put e.counter seq e.scheduler.store e.counter ≡ seq =
      rw ((==_iff e.counter e.counter).1 refl) refl in
    record {
      after = requested e seq;
      runs = add_request-accepts e (x ∷ xs) sp seq t m refl len made;
      phase =
          add-Phase bs e.counter
            (record (e.scheduler) { store = put e.counter seq e.scheduler.store })
            (Phase-put bs e.counter seq e.scheduler v fresh) fresh
            (subst (IsWaiting bs) (sym here) w.0) (ap (λ y. y.block_table) here ∙ w.1);
      numbered = numbered;
      last = refl;
      prompt_stored = ap (λ y. y.token_ids) here ∙ w.2;
    }
  where
    fresh : count e.counter (e.scheduler.waiting ++ e.scheduler.running) ≡ 0
    fresh = elim (Bool-cases (count e.counter (e.scheduler.waiting ++ e.scheduler.running) == 0)) [
      | inl z ↦ (==_iff _ _).0 z
      | inr z ↦ absurd (omega (arith, n e.counter (ground arith)))
    ]

    numbered :
        (p : ℕ)
        → 0 < count p ((e.scheduler.waiting ++ (e.counter ∷ [])) ++ e.scheduler.running)
        → p < suc e.counter
    numbered p h = elim (Bool-cases (e.counter == p)) [
      | inl same ↦ omega (arith, (==_iff e.counter p).0 same)
      | inr other ↦ omega (
        arith,
        n p (
            omega (
              arith,
              hit_ne p e.counter other,
              count-append p (e.scheduler.waiting ++ (e.counter ∷ [])) e.scheduler.running,
              count-append p e.scheduler.waiting (e.counter ∷ []),
              count-append p e.scheduler.waiting e.scheduler.running,
            )),
      )
    ]
