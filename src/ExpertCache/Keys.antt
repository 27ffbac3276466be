-- ===== src/ExpertCache/Keys.antt =====
-- The keys of the association lists of include/nanovllm/edge0/stream.h, and the oldest entry.
use nano_v_llm_cpp.Base.{
  ℕ, ◌+◌, ◌≤◌, ◌<◌, ◌≡◌, ap, inl, inr, refl, List, [], ◌∷◌, ◌++◌, some, arith, ◌==◌, ltb,
  if◌then◌else◌, Bool-cases, ==_iff, length, hit_eq, count,
}
use nano_v_llm_cpp.ExpertCache.{Entries, remove_key, oldest}

abbrev pub keys : Entries → List ℕ
keys [] = []
keys ((k, v) ∷ rest) = k ∷ keys rest

-- No clock is after `clk`.
abbrev pub AllBefore : ℕ → Entries → Type 0
AllBefore clk [] = Unit {0}
AllBefore clk ((k, v) ∷ rest) = (v ≤ clk) × AllBefore clk rest

pub keys-append : (xs ys : Entries) → keys (xs ++ ys) ≡ keys xs ++ keys ys
keys-append [] ys = refl
keys-append ((k, v) ∷ xs) ys = ap (◌∷◌ k) (keys-append xs ys)

pub length-remove_key :
    (key : ℕ) (xs : Entries) → length (remove_key key xs) + count key (keys xs) ≡ length xs
unfolding remove_key
length-remove_key key [] = omega arith
length-remove_key key ((k, v) ∷ xs) = ground (arith, length-remove_key key xs)

pub count-remove_key :
    (key q : ℕ) (xs : Entries)
    → count q (keys (remove_key key xs)) ≡ (if key == q then 0 else count q (keys xs))
unfolding remove_key
count-remove_key key q [] = ground arith
count-remove_key key q ((k, v) ∷ xs) =
    ground (arith, count-remove_key key q xs, ==_iff k key, ==_iff key q)

pub AllBefore-remove_key :
    (clk key : ℕ) (xs : Entries) → AllBefore clk xs → AllBefore clk (remove_key key xs)
unfolding remove_key
AllBefore-remove_key clk key [] h = h
AllBefore-remove_key clk key ((k, v) ∷ xs) h = elim (Bool-cases (k == key)) [
  | inl e ↦ rw (e, remove_key) (AllBefore-remove_key clk key xs h.1)
  | inr n ↦ rw (n, remove_key) (h.0, AllBefore-remove_key clk key xs h.1)
]

pub AllBefore-append :
    (clk : ℕ) (xs ys : Entries) → AllBefore clk xs → AllBefore clk ys → AllBefore clk (xs ++ ys)
AllBefore-append clk [] ys h g = g
AllBefore-append clk ((k, v) ∷ xs) ys h g = (h.0, AllBefore-append clk xs ys h.1 g)

-- The oldest entry is not the one just put at the back, if another is no newer.
pub oldest-append :
    (key clk : ℕ) (xs : Entries)
    → 0 < length xs
    → AllBefore clk xs
    → (k : ℕ) × (v : ℕ) × (oldest (xs ++ ((key, clk) ∷ [])) ≡ some (k, v))
      × (0 < count k (keys xs))
      × (v ≤ clk)
unfolding oldest
oldest-append key clk [] h b = absurd (omega arith)
oldest-append key clk ((k, v) ∷ []) h b =
    (k, v, ground (arith, b), omega (arith, hit_eq k k refl), b.0)
oldest-append key clk ((k, v) ∷ ((k', v') ∷ xs)) h b =
    let (m, u, e, inside, le) = oldest-append key clk ((k', v') ∷ xs) (omega arith) b.1 in
    elim (Bool-cases (ltb u v)) [
      | inl lt ↦ (m, u, rw (e, oldest, lt) refl, omega arith, le)
      | inr ge ↦ (k, v, rw (e, oldest, ge) refl, omega (arith, hit_eq k k refl), b.0)
    ]
