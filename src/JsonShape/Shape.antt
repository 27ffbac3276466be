-- ===== src/JsonShape/Shape.antt =====
-- The state machine of include/nanovllm/gen.hpp: `allow` against `feed`, and the keys it has seen.
use nano_v_llm_cpp.Base.{
  ℕ, ◌≡◌, ◌≢◌, sym, subst, ◌⊎◌, inl, inr, refl, Bool, true, false, not, ◌||◌, List, [], ◌∷◌, some,
  arith, ◌==◌, Bool-cases, Option-cases, ==_iff, is_empty,
}
use mathlib.Core.Path.{ap₂}
use nano_v_llm_cpp.BlockManager.{same_tokens}
use nano_v_llm_cpp.Text.{is_space}
use nano_v_llm_cpp.JsonShape.{
  State, JsonShapeConstraint, contains, quote, allow, end_value, feed, split_keys, all_unique,
  json_shape, expect_object_start, expect_key_or_end, in_key, expect_colon, expect_value_start,
  in_value, expect_comma_or_end,
}

-- The characters of keys and values are free.
abbrev pub is_text : State → Bool
is_text in_key = true
is_text in_value = true
is_text expect_object_start = false
is_text expect_key_or_end = false
is_text expect_colon = false
is_text expect_value_start = false
is_text expect_comma_or_end = false

-- What has been seen are keys of the list, each once.
pub record Seen (m : JsonShapeConstraint) : Type 0 where
  pub known : (k : List ℕ) → contains m.seen_keys k ≡ true → contains m.keys k ≡ true
  pub once : all_unique m.seen_keys ≡ true

abbrev pub feed_all : JsonShapeConstraint → List ℕ → JsonShapeConstraint
feed_all m [] = m
feed_all m (ch ∷ chs) = feed_all (feed m ch) chs

-- Between the quoted texts and before the object is closed, a character that is not white space
-- and not allowed changes nothing when it is fed, and one that is allowed changes the state or
-- closes the object.
pub allow-feed :
    (m : JsonShapeConstraint) (ch : ℕ)
    → m.done ≡ false
    → is_space ch ≡ false
    → is_text m.state ≡ false
    → (allow m ch ≡ false → feed m ch ≡ m)
      × (allow m ch ≡ true → ((feed m ch).state ≢ m.state) ⊎ ((feed m ch).done ≡ true))
unfolding allow feed
allow-feed m ch d s t = states m.state refl t
  where
    states :
        (st : State)
        → m.state ≡ st
        → is_text st ≡ false
        → (allow m ch ≡ false → feed m ch ≡ m)
          × (allow m ch ≡ true → ((feed m ch).state ≢ m.state) ⊎ ((feed m ch).done ≡ true))
    states expect_object_start e f =
        (λ a. ground (arith, d, s, e), λ a. inl (λ x. ground (arith, d, s, e)))
    states expect_key_or_end e f = (λ a. ground (arith, d, s, e), λ a. ground (arith, d, s, e))
    states in_key e f = absurd (cc)
    states expect_colon e f =
        (λ a. ground (arith, d, s, e), λ a. inl (λ x. ground (arith, d, s, e)))
    states expect_value_start e f =
        (λ a. ground (arith, d, s, e), λ a. inl (λ x. ground (arith, d, s, e)))
    states in_value e f = absurd (cc)
    states expect_comma_or_end e f = (λ a. ground (arith, d, s, e), λ a. ground (arith, d, s, e))

pub same_tokens-eq : (xs ys : List ℕ) → same_tokens xs ys ≡ true → xs ≡ ys
same_tokens-eq [] [] h = refl
same_tokens-eq [] (y ∷ ys) h = cc
same_tokens-eq (x ∷ xs) [] h = cc
same_tokens-eq (x ∷ xs) (y ∷ ys) h = elim (Bool-cases (x == y)) [
  | inl e ↦ ap₂ ◌∷◌ ((==_iff x y).0 e) (same_tokens-eq xs ys (ground arith))
  | inr n ↦ absurd (ground arith)
]

end_value-Seen : (m : JsonShapeConstraint) → Seen m → Seen (end_value m)
unfolding end_value all_unique
end_value-Seen m v = elim (Bool-cases (contains m.keys m.current_key)) [
  | inr n ↦ rw (n, end_value) (record { known = v.known; once = v.once })
  | inl listed ↦ elim (Bool-cases (contains m.seen_keys m.current_key)) [
    | inl twice ↦ rw (listed, end_value, twice) (record { known = v.known; once = v.once })
    | inr first ↦
        rw (listed, end_value, first)
          (record {
            known = λ k h. elim (Bool-cases (same_tokens m.current_key k)) [
              | inl same ↦
                  subst (λ x. contains m.keys x ≡ true) (same_tokens-eq m.current_key k same) listed
              | inr other ↦ v.known k (ground arith)
            ];
            once = ground (arith, v.once);
          })
  ]
]

-- A character leaves the keys that are seen as they are, unless it ends a value.
feed-keeps :
    (m : JsonShapeConstraint) (ch : ℕ)
    → (((feed m ch).keys ≡ m.keys) × ((feed m ch).seen_keys ≡ m.seen_keys))
      ⊎ (feed m ch ≡ end_value m)
unfolding feed
feed-keeps m ch = elim (Bool-cases (m.done || is_space ch)) [
  | inl still ↦ inl (rw (still, feed) (refl, refl))
  | inr goes ↦ states m.state refl goes
]
  where
    states :
        (st : State)
        → m.state ≡ st
        → (m.done || is_space ch) ≡ false
        → (((feed m ch).keys ≡ m.keys) × ((feed m ch).seen_keys ≡ m.seen_keys))
          ⊎ (feed m ch ≡ end_value m)
    states expect_object_start e g = inl (ground (arith, e))
    states expect_key_or_end e g = inl (ground (arith, e))
    states in_key e g = inl (ground (arith, e))
    states expect_colon e g = inl (ground (arith, e))
    states expect_value_start e g = inl (ground (arith, e))
    states in_value e g = elim (Bool-cases (ch == quote)) [
      | inl q ↦ inr (ground (arith, e))
      | inr n ↦ inl (ground (arith, e))
    ]
    states expect_comma_or_end e g = inl (ground (arith, e))

feed-Seen : (m : JsonShapeConstraint) (ch : ℕ) → Seen m → Seen (feed m ch)
feed-Seen m ch v = elim (feed-keeps m ch) [
  | inl (k, s) ↦ record { known = λ key h. rw k (v.known key (rw (sym s) h)); once = rw s v.once }
  | inr e ↦ subst Seen (sym e) (end_value-Seen m v)
]

feed_all-Seen : (chs : List ℕ) (m : JsonShapeConstraint) → Seen m → Seen (feed_all m chs)
feed_all-Seen [] m v = v
feed_all-Seen (ch ∷ chs) m v = feed_all-Seen chs (feed m ch) (feed-Seen m ch v)

feed-closed : (m : JsonShapeConstraint) (ch : ℕ) → m.done ≡ true → feed m ch ≡ m
unfolding feed
feed-closed m ch d = rw (d, feed) refl

json_shape-start :
    (keys : List ℕ) {m : JsonShapeConstraint}
    → json_shape keys ≡ some m
    → (is_empty m.keys ≡ false) × (all_unique m.keys ≡ true) × (m.seen_keys ≡ [])
unfolding json_shape
json_shape-start keys {m} e = elim (Bool-cases (is_empty keys)) [
  | inl t ↦ absurd (ground (arith, e))
  | inr n ↦ elim (Option-cases (split_keys keys [] [])) [
    | inl s ↦ absurd (ground (arith, e))
    | inr (ks, s) ↦ elim (Bool-cases (is_empty ks || not (all_unique ks))) [
      | inl b ↦ absurd (ground (arith, e))
      | inr g ↦ made ks g (ground (arith, e))
    ]
  ]
]
  where
    made :
        (ks : List (List ℕ))
        → (is_empty ks || not (all_unique ks)) ≡ false
        → m ≡ record {
          keys = ks;
          state = expect_object_start;
          done = false;
          current_key = [];
          seen_keys = [];
        }
        → (is_empty m.keys ≡ false) × (all_unique m.keys ≡ true) × (m.seen_keys ≡ [])
    made ks g q = rw q (ground (arith, g), ground (arith, g), refl)

Seen-none : (m : JsonShapeConstraint) → m.seen_keys ≡ [] → Seen m
unfolding all_unique
Seen-none m e = record { known = λ k h. absurd (ground (arith, h, e)); once = rw e refl }

-- A constraint that `json_shape` makes has at least one key and each key once. Whatever characters
-- it is then fed, the keys that it has seen are among these, each once; and once the object is closed
-- no character changes it.
pub json_shape-Seen :
    (keys chs : List ℕ) {m : JsonShapeConstraint}
    → json_shape keys ≡ some m
    → (is_empty m.keys ≡ false)
      × (all_unique m.keys ≡ true)
      × Seen (feed_all m chs)
      × ((ch : ℕ) → (feed_all m chs).done ≡ true → feed (feed_all m chs) ch ≡ feed_all m chs)
json_shape-Seen keys chs {m} e =
    let (some_keys, unique, none_seen) = json_shape-start keys e in
    (
      some_keys,
      unique,
      feed_all-Seen chs m (Seen-none m none_seen),
      λ ch d. feed-closed (feed_all m chs) ch d,
    )
