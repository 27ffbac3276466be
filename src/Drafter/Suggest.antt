-- ===== src/Drafter/Suggest.antt =====
-- What `NgramIndex::suggest` of include/nanovllm/drafter.hpp finds in the sequence the index was
-- built from.
use nano_v_llm_cpp.Base.{
  ℕ, zero, suc, ◌+◌, ◌-◌, ◌≤◌, ◌<◌, ◌≡◌, ◌∙◌, sym, ap, subst, ◌⊎◌, inl, inr, refl, true, List, [],
  ◌∷◌, ◌++◌, some, arith, ltb, if◌then◌else◌, Bool-cases, Option-cases, length, take, drop, get_or,
  length-take, length-drop,
}
use nano_v_llm_cpp.BlockManager.{same_tokens}
use nano_v_llm_cpp.JsonShape.Shape.{same_tokens-eq}
use nano_v_llm_cpp.Drafter.{NgramIndex, find, record_grams, build, Match, last_of, shrink, suggest}

-- The n-gram `key` is followed by `next` somewhere in the tokens.
pub record Occurs (tokens : List ℕ) (n : ℕ) (key : List ℕ) (next : ℕ) : Type 0 where
  pub i : ℕ
  pub inside : i + n ≤ length tokens
  pub gram : take (n - 1) (drop i tokens) ≡ key
  pub follows : get_or tokens (i + n - 1) 0 ≡ next

abbrev Sound : List ℕ → ℕ → List (List ℕ × ℕ) → Type 0
Sound tokens n succ =
    (key : List ℕ) (next : ℕ) → find key succ ≡ some next → Occurs tokens n key next

find-append :
    (key gram : List ℕ) (next : ℕ) (succ : List (List ℕ × ℕ)) {found : ℕ}
    → find key (succ ++ ((gram, next) ∷ [])) ≡ some found
    → (find key succ ≡ some found) ⊎ ((gram ≡ key) × (next ≡ found))
unfolding find
find-append key gram next [] {found} e = elim (Bool-cases (same_tokens gram key)) [
  | inl s ↦ inr (same_tokens-eq gram key s, ground (arith, e))
  | inr n ↦ absurd (ground (arith, e))
]
find-append key gram next ((g, x) ∷ succ) {found} e = elim (Bool-cases (same_tokens g key)) [
  | inl s ↦ inl (ground (arith, e))
  | inr n ↦ elim (find-append key gram next succ {found = found} (ground (arith, e))) [
    | inl old ↦ inl (ground (arith, old))
    | inr new ↦ inr new
  ]
]

record_grams-Sound :
    (tokens : List ℕ) (n rounds i : ℕ) (succ : List (List ℕ × ℕ))
    → 1 < n
    → (0 < rounds → i + rounds + n ≤ length tokens + 1)
    → Sound tokens n succ
    → Sound tokens n (record_grams tokens n rounds i succ)
unfolding record_grams
record_grams-Sound tokens n zero i succ h b v = v
record_grams-Sound tokens n (suc rounds) i succ h b v =
    record_grams-Sound tokens n rounds (i + 1) _ h (λ r. omega (arith, b (omega arith)))
      (λ key next e. elim (Option-cases (find (take (n - 1) (drop i tokens)) succ)) [
        | inr (old, f) ↦ v key next (rw f at e)
        | inl f ↦
            elim (find-append key (take (n - 1) (drop i tokens)) (get_or tokens (i + n - 1) 0) succ
              {found = next} (rw f at e)) [
                | inl old ↦ v key next old
                | inr (same, follows) ↦ record {
                  i = i;
                  inside = omega (arith, b (omega arith));
                  gram = same;
                  follows = follows;
                }
              ]
      ])

build-Sound : (tokens : List ℕ) (n : ℕ) → Sound tokens n (build tokens n).succ
unfolding build find
build-Sound tokens n key next = elim (Bool-cases (ltb n 2)) [
  | inl small ↦ rw (small) (λ e. absurd (cc))
  | inr large ↦ elim (Bool-cases (ltb (length tokens) n)) [
    | inl short ↦ rw (large, short) (λ e. absurd (cc))
    | inr long ↦
        rw (large, long)
          (record_grams-Sound tokens n (length tokens + 1 - n) 0 [] (ground arith)
            (λ r. ground arith) (λ k x e. absurd (cc)) key next)
  ]
]

-- What a match of the shrinking loop is.
record Shrunk (succ : List (List ℕ × ℕ)) (tail : List ℕ) (rounds : ℕ) (m : Match) : Type 0 where
  k : ℕ
  at_most : k ≤ rounds
  enough : k ≤ length tail
  hit_key : find (last_of k tail) succ ≡ some m.token
  drafted : m.draft ≡ last_of k tail ++ (m.token ∷ [])

shrink-Shrunk :
    (succ : List (List ℕ × ℕ)) (tail : List ℕ) (rounds : ℕ)
    → (shrink succ tail rounds).found ≡ true
    → Shrunk succ tail rounds (shrink succ tail rounds)
unfolding shrink
shrink-Shrunk succ tail zero h = absurd (cc)
shrink-Shrunk succ tail (suc rounds) h = elim (Bool-cases (ltb (length tail) (suc rounds))) [
  | inl short ↦ longer (shrink-Shrunk succ tail rounds) (ground arith)
  | inr long ↦ elim (Option-cases (find (last_of (suc rounds) tail) succ)) [
    | inl f ↦ longer (shrink-Shrunk succ tail rounds) (ground (arith, f))
    | inr (next, f) ↦ here next f (ground arith)
  ]
]
  where
    longer :
        ((shrink succ tail rounds).found ≡ true → Shrunk succ tail rounds (shrink succ tail rounds))
        → shrink succ tail (suc rounds) ≡ shrink succ tail rounds
        → Shrunk succ tail (suc rounds) (shrink succ tail (suc rounds))
    longer again e =
        let g : Shrunk succ tail rounds (shrink succ tail rounds) =
          again (subst (λ m. m.found ≡ true) e h) in
        subst (Shrunk succ tail (suc rounds)) (sym e) (record {
          k = g.k;
          at_most = omega (arith, g.at_most);
          enough = g.enough;
          hit_key = g.hit_key;
          drafted = g.drafted;
        })

    here :
        (next : ℕ)
        → find (last_of (suc rounds) tail) succ ≡ some next
        → suc rounds ≤ length tail
        → Shrunk succ tail (suc rounds) (shrink succ tail (suc rounds))
    here next f enough =
        let e : shrink succ tail (suc rounds) ≡ record {
          found = true;
          token = next;
          draft = last_of (suc rounds) tail ++ (next ∷ []);
        } =
          ground (arith, f) in
        subst (Shrunk succ tail (suc rounds)) (sym e) (record {
          k = suc rounds;
          at_most = omega arith;
          enough = enough;
          hit_key = f;
          drafted = refl;
        })

build-n : (tokens : List ℕ) (n : ℕ) → (build tokens n).n ≡ (if ltb n 2 then 0 else n)
unfolding build
build-n tokens n = ground arith

suggest-shrink :
    (idx : NgramIndex) (tail : List ℕ)
    → (suggest idx tail).found ≡ true
    → (1 < idx.n) × (suggest idx tail ≡ shrink idx.succ tail (idx.n - 1))
unfolding suggest
suggest-shrink idx tail h = ground (arith, h)

-- A match drafts the last `n - 1` tokens of the tail, never fewer, and a token that follows them
-- somewhere in the sequence that the index was built from.
pub suggest-Occurs :
    (tokens recent_tail : List ℕ) (n : ℕ)
    → (suggest (build tokens n) recent_tail).found ≡ true
    → let m = suggest (build tokens n) recent_tail in
      (m.draft ≡ last_of (n - 1) recent_tail ++ (m.token ∷ []))
      × (n ≤ length recent_tail + 1)
      × Occurs tokens n (last_of (n - 1) recent_tail) m.token
suggest-Occurs tokens recent_tail n h =
    let (large, e) = suggest-shrink (build tokens n) recent_tail h in
    let same : (build tokens n).n ≡ n = ground (arith, large, build-n tokens n) in
    let g : Shrunk (build tokens n).succ recent_tail ((build tokens n).n - 1)
        (suggest (build tokens n) recent_tail) =
      subst (Shrunk (build tokens n).succ recent_tail ((build tokens n).n - 1)) (sym e) (
        shrink-Shrunk (build tokens n).succ recent_tail ((build tokens n).n - 1)
          (subst (λ m. m.found ≡ true) e h)) in
    let o = build-Sound tokens n _ _ g.hit_key in
    let full : g.k ≡ n - 1 = omega (
      arith,
      same,
      large,
      g.enough,
      o.inside,
      ap length o.gram,
      length-take (n - 1) (drop o.i tokens),
      length-drop o.i tokens,
      length-drop (length recent_tail - g.k) recent_tail,
    ) in
    (
      g.drafted
          ∙ ap (λ k. last_of k recent_tail ++ ((suggest (build tokens n) recent_tail).token ∷ []))
              full,
      omega (arith, g.enough, full),
      subst
          (λ k.
            Occurs tokens n (last_of k recent_tail) (suggest (build tokens n) recent_tail).token)
          full o,
    )
