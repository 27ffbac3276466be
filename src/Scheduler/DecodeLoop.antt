-- ===== src/Scheduler/DecodeLoop.antt =====
-- The decode loop of `Scheduler::schedule`: what it leaves, with preemption on the way.
use nano_v_llm_cpp.Base.{
  ℕ, zero, suc, ◌+◌, ◌≤◌, ◌<◌, ◌≡◌, ◌∙◌, sym, ap, ◌⊎◌, inl, inr, refl, List, [], ◌∷◌, ◌++◌, reverse,
  Bool, true, false, arith, Bool-cases, length, hit, count, count-append, count-reverse,
  length-append,
}
use mathlib.Core.List.{reverse-reverse}
use nano_v_llm_cpp.Result.{ok}
use nano_v_llm_cpp.BlockManager.{can_append, put}
use nano_v_llm_cpp.Scheduler.Queues.{put_elim}
use nano_v_llm_cpp.Scheduler.{
  Scheduler, Round, stops, goes, preempt, make_room, decode_round, decode,
}
use nano_v_llm_cpp.Scheduler.Decode.{
  Decoding, Decoding-take, Decoding-preempt, Joined, Decoding-join,
}
use nano_v_llm_cpp.Scheduler.Preemption.{
  Moves, Moves-refl, Moves-trans, preempt-Moves, running-preempt, take-Moves, waiting-preempt,
}

-- Either the sequence fits after some preemptions, or all of them, itself included, wait again.
pub data Room (bs p : ℕ) (batch : List ℕ) (s : Scheduler) (out : Scheduler × Bool) : Type 0 where
  fits :
      out.1 ≡ true
      → can_append out.0.block_manager (out.0.store p) ≡ true
      → Decoding bs (p ∷ []) batch out.0
      → Moves (p ∷ []) batch s (p ∷ []) batch out.0
      → Room bs p batch s out
  fails :
      out.1 ≡ false
      → Decoding bs [] batch out.0
      → out.0.running ≡ []
      → 0 < length out.0.waiting
      → Moves (p ∷ []) batch s [] batch out.0
      → Room bs p batch s out

Room-Moves :
    {bs p : ℕ} {batch : List ℕ} {s t : Scheduler} {out : Scheduler × Bool}
    → Moves (p ∷ []) batch s (p ∷ []) batch t
    → Room bs p batch t out
    → Room bs p batch s out
Room-Moves l (fits a b c m) = fits a b c (Moves-trans l m)
Room-Moves l (fails a b c w m) = fails a b c w (Moves-trans l m)

make_room-Room :
    (bs p : ℕ) (batch victims : List ℕ) (s : Scheduler)
    → s.running ≡ reverse victims
    → Decoding bs (p ∷ []) batch s
    → Room bs p batch s (make_room victims s p)
unfolding make_room
make_room-Room bs p batch [] s e d = elim (Bool-cases (can_append s.block_manager (s.store p))) [
  | inl c ↦ rw (c, make_room) (fits refl c d (Moves-refl (p ∷ []) batch s))
  | inr c ↦
      rw (c, make_room)
        (fails refl (Decoding-preempt bs p [] batch s d) (running-preempt s p ∙ e)
          (rw (waiting-preempt s p) (omega arith)) (preempt-Moves p [] batch s))
]
make_room-Room bs p batch (v ∷ vs) s e d =
    elim (Bool-cases (can_append s.block_manager (s.store p))) [
      | inl c ↦ rw (c, make_room) (fits refl c d (Moves-refl (p ∷ []) batch s))
      | inr c ↦
          rw (c, make_room)
            (Room-Moves
              (Moves-trans (take-Moves v (p ∷ []) batch (reverse vs) s (λ q. split q))
                (preempt-Moves v (p ∷ []) batch s'))
              (make_room-Room bs p batch vs (preempt s' v) (running-preempt s' v) (
                Decoding-preempt bs v (p ∷ []) batch s'
                  (Decoding-take bs v (p ∷ []) batch (reverse vs) s (λ q. split q) d))))
    ]
  where
    s' : Scheduler
    s' = record s { running = reverse vs }

    split : (q : ℕ) → count q s.running ≡ hit q v + count q (reverse vs)
    split q = omega (arith, ap (count q) e, count-reverse q (v ∷ vs), count-reverse q vs)

join-Moves :
    (bs p : ℕ) (batch : List ℕ) (s : Scheduler) (j : Joined bs p batch s)
    → Moves
        (p ∷ [])
        batch
        s
        []
        (batch ++ (p ∷ []))
        (record s { block_manager = j.manager; store = put p j.seq s.store })
join-Moves bs p batch s j = record {
  seqs = refl;
  tokens = refl;
  blocks = j.same_blocks;
  sizes = λ q.
      put_elim (λ x. x.num_tokens ≡ (s.store q).num_tokens) p q j.seq s.store
        (λ e. j.same_tokens ∙ ap (λ k. (s.store k).num_tokens) e) (λ n. refl);
  members = λ q. omega (arith, count-append q batch (p ∷ []));
}

-- A decode round schedules the sequence, or ends the loop with nothing left in the running queue.
data Turn (bs p : ℕ) (batch : List ℕ) (s : Scheduler) (round : Round) : Type 0 where
  scheduled :
      (s' : Scheduler)
      → round ≡ goes s' 1
      → Decoding bs [] (batch ++ (p ∷ [])) s'
      → Moves (p ∷ []) batch s [] (batch ++ (p ∷ [])) s'
      → Turn bs p batch s round
  evicted :
      (s' : Scheduler)
      → round ≡ stops s'
      → Decoding bs [] batch s'
      → s'.running ≡ []
      → 0 < length s'.waiting
      → Moves (p ∷ []) batch s [] batch s'
      → Turn bs p batch s round

decode_round-Turn :
    (bs p : ℕ) (batch : List ℕ) (s : Scheduler)
    → Decoding bs (p ∷ []) batch s
    → Turn bs p batch s (decode_round s p)
unfolding decode_round
decode_round-Turn bs p batch s d =
    turn (make_room-Room bs p batch (reverse s.running) s (sym (reverse-reverse s.running)) d)
  where
    turn :
        Room bs p batch s (make_room (reverse s.running) s p) → Turn bs p batch s (decode_round s p)
    turn (fits a b c l) =
        let s' : Scheduler = (make_room (reverse s.running) s p).0 in
        let j : Joined bs p batch s' = Decoding-join bs p batch s' c b in
        scheduled (record s' { block_manager = j.manager; store = put p j.seq s'.store })
          (ground (arith, a, j.runs)) j.decoding (Moves-trans l (join-Moves bs p batch s' j))
    turn (fails a b c w l) =
        evicted (make_room (reverse s.running) s p).0 (ground (arith, a)) b c w l

-- What the decode loop comes to.
pub record Decoded (bs slots : ℕ) (batch : List ℕ) (s : Scheduler) : Type 0 where
  pub after : Scheduler
  pub batch' : List ℕ
  pub runs : decode slots s batch ≡ ok (after, batch')
  pub decoding : Decoding bs [] batch' after
  pub few : length batch' ≤ length batch + slots
  pub longer : length batch ≤ length batch'
  pub moves : Moves [] batch s [] batch' after
  -- Where the loop could run and scheduled nothing, nothing runs any more.
  pub drained :
      0 < slots
      → length batch' ≤ length batch
      → (after.running ≡ []) × ((s.running ≡ []) ⊎ (0 < length after.waiting))
  pub waits_still : length s.running ≡ 0 → (after ≡ s) × (batch' ≡ batch)

pub decode-Decoded :
    (bs slots : ℕ) (batch : List ℕ) (s : Scheduler)
    → Decoding bs [] batch s
    → Decoded bs slots batch s
unfolding decode
decode-Decoded bs zero batch s d = record {
  after = s;
  batch' = batch;
  runs = refl;
  decoding = d;
  few = omega arith;
  longer = omega arith;
  moves = Moves-refl [] batch s;
  drained = λ h g. absurd (omega arith);
  waits_still = λ h. (refl, refl);
}
decode-Decoded bs (suc slots) batch s d =
    front (λ bt t g. decode-Decoded bs slots bt t g) s.running refl
  where
    stop :
        (s' : Scheduler)
        → decode (suc slots) s batch ≡ ok (s', batch)
        → Decoding bs [] batch s'
        → s'.running ≡ []
        → Moves [] batch s [] batch s'
        → (length s.running ≡ 0 → s' ≡ s)
        → (s.running ≡ []) ⊎ (0 < length s'.waiting)
        → Decoded bs (suc slots) batch s
    stop s' e d' r l w n = record {
      after = s';
      batch' = batch;
      runs = e;
      decoding = d';
      few = omega arith;
      longer = omega arith;
      moves = l;
      drained = λ h g. (r, n);
      waits_still = λ h. (w h, refl);
    }

    front :
        ((bt : List ℕ) (t : Scheduler) → Decoding bs [] bt t → Decoded bs slots bt t)
        → (ws : List ℕ) → s.running ≡ ws
        → Decoded bs (suc slots) batch s
    front again [] w = stop s (ground (arith, w)) d w (Moves-refl [] batch s) (λ h. refl) (inl w)
    front again (p ∷ rest) w = turned (
        decode_round-Turn bs p batch (record s { running = rest })
          (Decoding-take bs p [] batch rest s (λ q. ap (count q) w) d))
      where
        taken : Moves [] batch s (p ∷ []) batch (record s { running = rest })
        taken = take-Moves p [] batch rest s (λ q. ap (count q) w)

        turned :
            Turn bs p batch
              (record s { running = rest })
              (decode_round (record s { running = rest }) p)
            → Decoded bs (suc slots) batch s
        turned (evicted s' e d' r n l) =
            stop s' (ground (arith, w, e)) d' r (Moves-trans taken l)
              (λ h. absurd (ground (arith, ap length w))) (inr n)
        turned (scheduled s' e d' l) =
            let g : Decoded bs slots (batch ++ (p ∷ [])) s' = again (batch ++ (p ∷ [])) s' d' in
            record {
              after = g.after;
              batch' = g.batch';
              runs = ground (arith, w, e, g.runs);
              decoding = g.decoding;
              few = omega (arith, g.few, length-append batch (p ∷ []));
              longer = omega (arith, g.longer, length-append batch (p ∷ []));
              moves = Moves-trans (Moves-trans taken l) g.moves;
              drained = λ h k. absurd (omega (arith, k, g.longer, length-append batch (p ∷ [])));
              waits_still = λ h. absurd (omega (arith, ap length w));
            }
