-- ===== src/Text/Find.antt =====
-- What a search finds, and string equality.
use nano_v_llm_cpp.Base.{
  ℕ, zero, suc, ◌+◌, ◌-◌, ◌≤◌, ◌<◌, ◌≡◌, ◌∙◌, sym, ap, none, Option-cases, ◌↔◌, inl, inr, true,
  false, List, [], ◌∷◌, some, arith, ltb, Bool-cases, length, drop, refl, length-drop,
}
use nano_v_llm_cpp.Text.{Bytes, same, starts_with, find_in, find}

pub same_iff : (xs ys : Bytes) → (same xs ys ≡ true) ↔ (xs ≡ ys)
unfolding same
same_iff [] [] = ground arith
same_iff [] (y ∷ ys) = ground arith
same_iff (x ∷ xs) [] = ground arith
same_iff (x ∷ xs) (y ∷ ys) = ground (arith, same_iff xs ys)

pub starts_with-length :
    (needle text : List ℕ) → starts_with needle text ≡ true → length needle ≤ length text
unfolding starts_with
starts_with-length [] text h = omega arith
starts_with-length (n ∷ needle) [] h = absurd (cc)
starts_with-length (n ∷ needle) (c ∷ text) h = ground (arith, h, starts_with-length needle text)

find_in-within :
    (needle : List ℕ) (i : ℕ) (text : List ℕ) (j : ℕ)
    → find_in needle i text ≡ some j
    → (i ≤ j) × (j + length needle ≤ i + length text)
unfolding find_in
find_in-within [] i [] j h = ground (arith, h)
find_in-within (n ∷ needle) i [] j h = absurd (cc)
find_in-within needle i (c ∷ text) j h = elim (Bool-cases (starts_with needle (c ∷ text))) [
  | inl s ↦ ground (arith, h, starts_with-length needle (c ∷ text) s)
  | inr n ↦ ground (arith, h, find_in-within needle (i + 1) text j)
]

pub find-within :
    (needle : List ℕ) (from : ℕ) (text : List ℕ) (j : ℕ)
    → find needle from text ≡ some j
    → (from ≤ j) × (j + length needle ≤ length text)
unfolding find
find-within needle from text j h = elim (Bool-cases (ltb (length text) from)) [
  | inl s ↦ absurd (ground (arith, h, s))
  | inr n ↦ ground (
    arith,
    find_in-within needle from (drop from text) j (ground (arith, h, n)),
    length-drop from text,
  )
]

-- `needle` stands at position `i` of `text`.
abbrev pub StandsAt : List ℕ → List ℕ → ℕ → Type 0
StandsAt needle text i = starts_with needle (drop i text) ≡ true

-- `i` is the first position from `from` on where `needle` stands.
pub record First (needle : List ℕ) (from : ℕ) (text : List ℕ) (i : ℕ) : Type 0 where
  pub behind : from ≤ i
  pub here : StandsAt needle text i
  pub earliest : (k : ℕ) → from ≤ k → k < i → starts_with needle (drop k text) ≡ false

-- The first place is `k` characters on.
abbrev FirstIn : List ℕ → List ℕ → ℕ → Type 0
FirstIn needle s k = StandsAt needle s k × ((l : ℕ) → l < k → starts_with needle (drop l s) ≡ false)

find_in-FirstIn :
    (needle : List ℕ) (i : ℕ) (s : List ℕ) (j : ℕ)
    → find_in needle i s ≡ some j
    → (k : ℕ) × (j ≡ i + k) × FirstIn needle s k
unfolding find_in starts_with
find_in-FirstIn [] i [] j h = (0, ground (arith, h), (refl, λ l g. absurd (omega arith)))
find_in-FirstIn (n ∷ needle) i [] j h = absurd (cc)
find_in-FirstIn needle i (c ∷ s) j h = elim (Bool-cases (starts_with needle (c ∷ s))) [
  | inl y ↦ (0, ground (arith, h, y), (y, λ l g. absurd (omega arith)))
  | inr n ↦
      let (k, e, (here, before)) = find_in-FirstIn needle (i + 1) s j (ground (arith, h, n)) in
      (
        suc k,
        omega (arith, e),
        (here, λ l g. shifted n l (λ m e'. before m (omega (arith, g, e')))),
      )
]
  where
    shifted :
        starts_with needle (c ∷ s) ≡ false
        → (l : ℕ) → ((m : ℕ) → l ≡ suc m → starts_with needle (drop m s) ≡ false)
        → starts_with needle (drop l (c ∷ s)) ≡ false
    shifted n zero f = n
    shifted n (suc m) f = f m refl

find_in-none :
    (n : ℕ) (needle : List ℕ) (i : ℕ) (s : List ℕ)
    → find_in (n ∷ needle) i s ≡ none
    → (l : ℕ) → starts_with (n ∷ needle) (drop l s) ≡ false
unfolding find_in starts_with
find_in-none n needle i [] h zero = refl
find_in-none n needle i [] h (suc l) = refl
find_in-none n needle i (c ∷ s) h zero = ground (arith, h)
find_in-none n needle i (c ∷ s) h (suc l) = find_in-none n needle (i + 1) s (ground (arith, h)) l

drop-all : (l : ℕ) (s : List ℕ) → length s < l → drop l s ≡ []
drop-all zero s h = absurd (omega arith)
drop-all (suc l) [] h = refl
drop-all (suc l) (c ∷ s) h = drop-all l s (omega arith)

drop-empty : (l : ℕ) → drop {A = ℕ} l [] ≡ []
drop-empty zero = refl
drop-empty (suc l) = refl

drop-drop : (k i : ℕ) (s : List ℕ) → drop k (drop i s) ≡ drop (i + k) s
drop-drop k zero s = ap (λ j. drop j s) {x = k} {y = 0 + k} (omega arith)
drop-drop k (suc i) [] = drop-empty k ∙ sym (drop-empty (suc i + k))
drop-drop k (suc i) (c ∷ s) =
    drop-drop k i s ∙ ap (λ j. drop j (c ∷ s)) {x = suc (i + k)} {y = suc i + k} (omega arith)

pub find-First :
    (needle : List ℕ) (from : ℕ) (text : List ℕ) (i : ℕ)
    → find needle from text ≡ some i
    → First needle from text i
unfolding find
find-First needle from text i h = elim (Bool-cases (ltb (length text) from)) [
  | inl y ↦ absurd (ground (arith, h, y))
  | inr n ↦
      let (k, e, (here, before)) =
        find_in-FirstIn needle from (drop from text) i (ground (arith, h, n)) in
      record {
        behind = omega (arith, e);
        here =
            ap (starts_with needle) (
              ap (λ j. drop j text) {y = from + k} (omega (arith, e)) ∙ sym (drop-drop k from text))
            ∙ here;
        earliest = λ l g b.
            ap (starts_with needle) (
              ap (λ j. drop j text) {x = l} {y = from + (l - from)} (omega (arith, g))
              ∙ sym (drop-drop (l - from) from text))
            ∙ before (l - from) (omega (arith, e));
      }
]

pub find-none :
    (n : ℕ) (needle : List ℕ) (from : ℕ) (text : List ℕ)
    → find (n ∷ needle) from text ≡ none
    → (l : ℕ) → from ≤ l
    → starts_with (n ∷ needle) (drop l text) ≡ false
unfolding find starts_with
find-none n needle from text h l g = elim (Bool-cases (ltb (length text) from)) [
  | inl y ↦ ap (starts_with (n ∷ needle)) (drop-all l text (ground (arith, y)))
  | inr m ↦
      ap (starts_with (n ∷ needle)) (
        ap (λ j. drop j text) {x = l} {y = from + (l - from)} (omega (arith, g))
        ∙ sym (drop-drop (l - from) from text))
      ∙ find_in-none n needle from (drop from text) (ground (arith, h, m)) (l - from)
]

-- The search finds the first place, where there is one.
pub First-find :
    (n : ℕ) (needle : List ℕ) (from : ℕ) (text : List ℕ) (i : ℕ)
    → First (n ∷ needle) from text i
    → find (n ∷ needle) from text ≡ some i
First-find n needle from text i f = elim (Option-cases (find (n ∷ needle) from text)) [
  | inl none' ↦ absurd (ground (arith, f.here, find-none n needle from text none' i f.behind))
  | inr (j, e) ↦
      let g = find-First (n ∷ needle) from text j e in
      elim (Bool-cases (ltb i j)) [
        | inl y ↦ absurd (ground (arith, f.here, g.earliest i f.behind (ground (arith, y))))
        | inr n ↦ elim (Bool-cases (ltb j i)) [
          | inl y ↦ absurd (ground (arith, g.here, f.earliest j g.behind (ground (arith, y))))
          | inr m ↦ e ∙ ap (λ k. some k) {x = j} {y = i} (ground (arith, n, m))
        ]
      ]
]
