-- ===== src/Base/Counts.antt =====
-- How often a number stands in a list, and what removals do to it.
use Prim.Native.Nat.{ℕ, zero, suc, ◌+◌, ◌-◌, ◌≤◌, ◌<◌}
use mathlib.Core.Path.{◌≡◌, refl, ap, ◌∙◌}
use mathlib.Core.Bool.{false}
use mathlib.Core.List.{List, [], ◌∷◌, ◌++◌, reverse, reverse-cons}
use native.Mathlib.Omega.{arith}
use nano_v_llm_cpp.Base.Tests.{◌==◌, ltb, if◌then◌else◌}
use nano_v_llm_cpp.Base.Lists.{length, get_or}

-- One if the two are equal.
abbrev pub hit : ℕ → ℕ → ℕ
hit a x = if x == a then 1 else 0

abbrev pub count : ℕ → List ℕ → ℕ
count a [] = 0
count a (x ∷ xs) = hit a x + count a xs

-- `it = find(x); if (it != end) erase(it)`: the first occurrence goes.
abbrev pub erase : ℕ → List ℕ → List ℕ
erase a [] = []
erase a (x ∷ xs) = if x == a then xs else x ∷ erase a xs

pub count-append : (a : ℕ) (xs ys : List ℕ) → count a (xs ++ ys) ≡ count a xs + count a ys
count-append a [] ys = omega arith
count-append a (x ∷ xs) ys = ground (arith, count-append a xs ys)

pub count-erase :
    (a b : ℕ) (xs : List ℕ) → count a (erase b xs) ≡ (if b == a then count a xs - 1 else count a xs)
count-erase a b [] = ground arith
count-erase a b (x ∷ xs) = ground (arith, count-erase a b xs)

pub length-erase : (a : ℕ) (xs : List ℕ) → length xs ≤ length (erase a xs) + 1
length-erase a [] = omega arith
length-erase a (x ∷ xs) = ground (arith, length-erase a xs)

pub count-reverse : (a : ℕ) (xs : List ℕ) → count a (reverse xs) ≡ count a xs
count-reverse a [] = refl
count-reverse a (x ∷ xs) = ground (
  arith,
  ap (count a) (reverse-cons x xs),
  count-append a (reverse xs) (x ∷ []),
  count-reverse a xs,
)

pub count-get_or : (xs : List ℕ) (i d : ℕ) → i < length xs → 0 < count (get_or xs i d) xs
count-get_or [] i d h = absurd (omega arith)
count-get_or (x ∷ xs) zero d h = ground arith
count-get_or (x ∷ xs) (suc i) d h = omega (arith, count-get_or xs i d (omega arith))

pub hit_eq : (a x : ℕ) → x ≡ a → hit a x ≡ 1
hit_eq a x e = ground arith

pub hit_ne : (a x : ℕ) → (x == a) ≡ false → hit a x ≡ 0
hit_ne a x e = ground arith

length-erase_mem : (a : ℕ) (xs : List ℕ) → 0 < count a xs → length xs ≡ suc (length (erase a xs))
length-erase_mem a [] h = absurd (omega arith)
length-erase_mem a (x ∷ xs) h = ground (arith, length-erase_mem a xs)

-- A list that holds each number below `n` once, and no other, has `n` elements.
pub length-each_once :
    (n : ℕ) (xs : List ℕ) → ((a : ℕ) → count a xs ≡ (if ltb a n then 1 else 0)) → length xs ≡ n
length-each_once zero [] h = refl
length-each_once zero (x ∷ xs) h = absurd (ground (arith, h x))
length-each_once (suc n) xs h =
    length-erase_mem n xs (ground (arith, h n))
    ∙ ap suc (length-each_once n (erase n xs) (λ a. ground (arith, h a, count-erase a n xs)))
