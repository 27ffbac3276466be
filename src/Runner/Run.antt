-- ===== src/Runner/Run.antt =====
-- `prepare_prefill`, `prepare_decode` and `run` of src/model_runner.cpp on a batch whose block tables
-- are those that the block manager gives out.
use nano_v_llm_cpp.Base.{
  ℕ, zero, suc, ◌+◌, ◌*◌, ◌≤◌, ◌<◌, ◌≡◌, ap, refl, Bool, true, false, List, [], ◌∷◌, arith, ◌==◌,
  ltb, if◌then◌else◌, length, length-append, is_empty, drop,
}
use nano_v_llm_cpp.Result.{ok}
use nano_v_llm_cpp.Sequence.{Sequence}
use nano_v_llm_cpp.Runner.{Context, prepare_prefill, prepare_decode, Model, sample_rows, run}
use nano_v_llm_cpp.Runner.Batch.{AllPrepared, batch_tokens, tokens_from}
use nano_v_llm_cpp.Runner.Prepare.{
  AllDecodable, last_tokens, prepare_decode-Added, prepare_prefill-Added,
}

sample_rows-length :
    {L : Type 0} (m : Model L) (vocab i : ℕ) (logits : List L) (seqs : List Sequence)
    → length (sample_rows m vocab i logits seqs) ≡ length seqs
unfolding sample_rows
sample_rows-length m vocab i logits [] = refl
sample_rows-length m vocab i logits (seq ∷ seqs) =
    ap suc (sample_rows-length m vocab (i + 1) (drop vocab logits) seqs)

length-batch_tokens :
    (bs cache : ℕ) (seqs : List Sequence)
    → 0 < length seqs
    → AllPrepared bs cache seqs
    → 0 < length (batch_tokens seqs)
length-batch_tokens bs cache [] h v = absurd (omega arith)
length-batch_tokens bs cache (seq ∷ seqs) h v =
    rw
      (length-append (tokens_from seq.token_ids seq.num_cached_tokens seq.num_scheduled_tokens)
        (batch_tokens seqs))
      (some_tokens seq.num_scheduled_tokens seq.num_cached_tokens (v.0.some_scheduled))
  where
    some_tokens :
        (n t : ℕ) → 0 < n → 0 < length (tokens_from seq.token_ids t n) + length (batch_tokens seqs)
    some_tokens zero t g = absurd (omega arith)
    some_tokens (suc n) t g = omega arith

length-last_tokens : (seqs : List Sequence) → length (last_tokens seqs) ≡ length seqs
length-last_tokens [] = refl
length-last_tokens (seq ∷ seqs) = ap suc (length-last_tokens seqs)

is_empty-batch : (seqs : List Sequence) → 0 < length seqs → is_empty seqs ≡ false
is_empty-batch [] h = absurd (omega arith)
is_empty-batch (seq ∷ seqs) h = refl

-- What a run on a batch relies on, by its phase.
abbrev pub AllReady : Bool → ℕ → ℕ → List Sequence → Type 0
AllReady true bs cache seqs = AllPrepared bs cache seqs
AllReady false bs cache seqs = AllDecodable bs cache seqs

prepare-ready :
    (is_prefill : Bool) (bs cache : ℕ) (seqs : List Sequence)
    → 0 < length seqs
    → AllReady is_prefill bs cache seqs
    → (ctx : Context) × ((if is_prefill
          then prepare_prefill bs cache seqs
          else prepare_decode bs cache seqs)
        ≡ ok ctx)
      × (0 < ctx.num_tokens)
      × (0 < ctx.max_blocks)
prepare-ready true bs cache seqs h v =
    let p = prepare_prefill-Added bs cache seqs v in
    (p.0, p.1, omega (arith, p.7, length-batch_tokens bs cache seqs h v), p.8)
prepare-ready false bs cache seqs h v =
    let p = prepare_decode-Added bs cache seqs v in
    (p.0, p.1, omega (arith, p.7, length-last_tokens seqs), p.8)

-- When the vocabulary is not empty and the model gives a row of logits for each sequence, a run on
-- a batch that is not empty and ready for its phase throws nothing and returns exactly one token
-- for each sequence.
pub run-one_token_each :
    {L : Type 0} (m : Model L) (bs cache vocab : ℕ) (seqs : List Sequence) (is_prefill : Bool)
    → 0 < length seqs
    → 0 < vocab
    → ((ctx : Context) → ctx.num_seqs * vocab ≤ length (m.forward_logits ctx))
    → AllReady is_prefill bs cache seqs
    → (tokens : List ℕ) × (run m bs cache vocab seqs is_prefill ≡ ok tokens)
      × (length tokens ≡ length seqs)
unfolding run
run-one_token_each m bs cache vocab seqs is_prefill some_seqs v rows ready =
    let p = prepare-ready is_prefill bs cache seqs some_seqs ready in
    let f1 : is_empty seqs ≡ false = is_empty-batch seqs some_seqs in
    let f2 : ((p.0).num_tokens == 0) ≡ false = ground (arith, p.2) in
    let f5 : ((p.0).max_blocks == 0) ≡ false = ground (arith, p.3) in
    let f3 : (vocab == 0) ≡ false = ground arith in
    let f4 : ltb (length (m.forward_logits (p.0))) ((p.0).num_seqs * vocab) ≡ false =
      ground (arith, rows (p.0)) in
    (
      sample_rows m vocab 0 (m.forward_logits (p.0)) seqs,
      rw (f1, p.1, f2, f5, f3, f4) refl,
      sample_rows-length m vocab 0 (m.forward_logits (p.0)) seqs,
    )
