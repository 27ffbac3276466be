-- ===== src/RadixCache/Lookup.antt =====
-- `RadixCache::insert` of include/nanovllm/cache.hpp against `lookup` and `size`.
use nano_v_llm_cpp.Base.{
  ℕ, suc, ◌+◌, ◌≡◌, ◌∙◌, sym, ap, subst, inl, inr, refl, true, false, List, [], ◌∷◌, ◌++◌, Option,
  none, some, arith, ◌==◌, if◌then◌else◌, Bool-cases, Option-cases, ==_iff, length,
}
use mathlib.Core.Path.{ap₂}
use mathlib.Core.List.{append-nil}
use nano_v_llm_cpp.RadixCache.{
  Block, Node, Children, node, none_left, child, block_of, children, find, put_child, RadixCache,
  new_node, insert_from, root_or_new, insert, lookup_from, lookup, count_nodes, count_children,
  size,
}

find-put_child : (tok : ℕ) (n : Node) (cs : Children) → find tok (put_child tok n cs) ≡ some n
unfolding find put_child
find-put_child tok n none_left = ground (arith, ==_iff tok tok)
find-put_child tok n (child t m cs) = ground (arith, find-put_child tok n cs)

find-put_child_other :
    (tok other : ℕ) (n : Node) (cs : Children)
    → (tok == other) ≡ false
    → find other (put_child tok n cs) ≡ find other cs
unfolding find put_child
find-put_child_other tok other n none_left h = ground arith
find-put_child_other tok other n (child t m cs) h =
    ground (arith, find-put_child_other tok other n cs h, ==_iff t tok, ==_iff t other)

-- A new child adds its nodes.
put_absent :
    (tok : ℕ) (n : Node) (cs : Children)
    → find tok cs ≡ none
    → count_children (put_child tok n cs) ≡ count_nodes n + count_children cs
unfolding find put_child count_children
put_absent tok n none_left e = omega arith
put_absent tok n (child t m cs) e = elim (Bool-cases (t == tok)) [
  | inl same ↦ absurd (ground arith)
  | inr other ↦ ground (arith, put_absent tok n cs)
]

-- A child that is replaced takes its nodes away.
put_present :
    (tok : ℕ) (n m : Node) (cs : Children)
    → find tok cs ≡ some m
    → count_children (put_child tok n cs) + count_nodes m ≡ count_nodes n + count_children cs
unfolding find put_child count_children
put_present tok n m none_left e = absurd (cc)
put_present tok n m (child t k cs) e = elim (Bool-cases (t == tok)) [
  | inl same ↦ rw (same) (omega (arith, ap count_nodes (same_node e same)))
  | inr other ↦ rw (other) (omega (arith, put_present tok n m cs (ground arith)))
]
  where
    same_node : find tok (child t k cs) ≡ some m → (t == tok) ≡ true → k ≡ m
    same_node e same = ground arith

count_nodes-children : (n : Node) → count_nodes n ≡ suc (count_children (children n))
unfolding count_nodes
count_nodes-children (node b cs) = refl

insert_from-block :
    (toks : List ℕ) (cur : Node) (next : ℕ) → block_of (insert_from toks cur next).0 ≡ block_of cur
unfolding insert_from
insert_from-block [] cur next = refl
insert_from-block (tok ∷ toks) cur next = elim (Option-cases (find tok (children cur))) [
  | inl e ↦ rw (e, insert_from) refl
  | inr (n, e) ↦ rw (e, insert_from) refl
]

abbrev pub slots : List Block → List ℕ
slots [] = []
slots (b ∷ bs) = b.slot ∷ slots bs

abbrev pub fresh : List Block → ℕ
fresh [] = 0
fresh (b ∷ bs) = (if b.shared then 0 else 1) + fresh bs

found_after :
    (toks : List ℕ) (cur : Node) (next : ℕ)
    → slots (lookup_from toks (insert_from toks cur next).0) ≡ slots (insert_from toks cur next).2
unfolding insert_from lookup_from
found_after [] cur next = refl
found_after (tok ∷ toks) cur next = elim (Option-cases (find tok (children cur))) [
  | inl e ↦
      rw (e, insert_from, lookup_from)
        (rw (find-put_child tok (insert_from toks (new_node next) (suc next)).0 (children cur)) (
          ap₂ ◌∷◌ (ap (λ b. b.slot) (insert_from-block toks (new_node next) (suc next)))
            (found_after toks (new_node next) (suc next))))
  | inr (n, e) ↦
      rw (e, insert_from, lookup_from)
        (rw (find-put_child tok (insert_from toks n next).0 (children cur))
          (ap₂ ◌∷◌ (ap (λ b. b.slot) (insert_from-block toks n next)) (found_after toks n next)))
]

grows :
    (toks : List ℕ) (cur : Node) (next : ℕ)
    → (count_nodes (insert_from toks cur next).0
        ≡ count_nodes cur + fresh (insert_from toks cur next).2)
      × ((insert_from toks cur next).1 ≡ next + fresh (insert_from toks cur next).2)
      × (length (insert_from toks cur next).2 ≡ length toks)
unfolding insert_from count_nodes
grows [] cur next = omega arith
grows (tok ∷ toks) cur next = elim (Option-cases (find tok (children cur))) [
  | inl e ↦
      rw (e, insert_from)
        (omega (
          arith,
          grows toks (new_node next) (suc next),
          count_nodes-children cur,
          put_absent tok (insert_from toks (new_node next) (suc next)).0 (children cur) e,
        ))
  | inr (n, e) ↦
      rw (e, insert_from)
        (omega (
          arith,
          grows toks n next,
          count_nodes-children cur,
          put_present tok (insert_from toks n next).0 n (children cur) e,
        ))
]

-- What was found before an insertion is found after it, perhaps with more behind it.
extends :
    (toks xs : List ℕ) (cur : Node) (next : ℕ)
    → (rest : List Block) × (lookup_from xs (insert_from toks cur next).0
        ≡ lookup_from xs cur ++ rest)
unfolding insert_from lookup_from
extends [] xs cur next = ([], sym (append-nil (lookup_from xs cur)))
extends (tok ∷ toks) [] cur next = ([], refl)
extends (tok ∷ toks) (x ∷ xs) cur next = elim (Bool-cases (tok == x)) [
  | inr other ↦ elim (Option-cases (find tok (children cur))) [
    | inl e ↦ (
      [],
      rw (e, insert_from)
          (rw
            (
              find-put_child_other tok x (insert_from toks (new_node next) (suc next)).0
                  (children cur) other,
              lookup_from,
            )
            (sym (append-nil (lookup_from (x ∷ xs) cur)))),
    )
    | inr (n, e) ↦ (
      [],
      rw (e, insert_from)
          (rw
            (
              find-put_child_other tok x (insert_from toks n next).0 (children cur) other,
              lookup_from,
            )
            (sym (append-nil (lookup_from (x ∷ xs) cur)))),
    )
  ]
  | inl same ↦ elim (Option-cases (find tok (children cur))) [
    | inl e ↦ (
      lookup_from (x ∷ xs) (insert_from (tok ∷ toks) cur next).0,
      ap (λ l. l ++ lookup_from (x ∷ xs) (insert_from (tok ∷ toks) cur next).0)
          (sym (
            nothing x xs cur
              (subst (λ t. find t (children cur) ≡ none) ((==_iff tok x).0 same) e))),
    )
    | inr (n, e) ↦
        let (rest, ih) = extends toks xs n next in
        (
          rest,
          something x xs (insert_from (tok ∷ toks) cur next).0 (insert_from toks n next).0 (
                rw (e, insert_from)
                  (rw (sym ((==_iff tok x).0 same))
                    (find-put_child tok (insert_from toks n next).0 (children cur))))
              ∙ ap₂ ◌∷◌ (insert_from-block toks n next) ih
              ∙ ap (λ l. l ++ rest)
                  (sym (
                    something x xs cur n
                      (subst (λ t. find t (children cur) ≡ some n) ((==_iff tok x).0 same) e))),
        )
  ]
]
  where
    nothing :
        (y : ℕ) (ys : List ℕ) (at : Node)
        → find y (children at) ≡ none
        → lookup_from (y ∷ ys) at ≡ []
    nothing y ys at e = rw (e, lookup_from) refl

    something :
        (y : ℕ) (ys : List ℕ) (at n : Node)
        → find y (children at) ≡ some n
        → lookup_from (y ∷ ys) at ≡ block_of n ∷ lookup_from ys n
    something y ys at n e = rw (e, lookup_from) refl

-- An insertion gives one block for each token. The same tokens are then found in full, in the same
-- slots; every other lookup finds what it found before, perhaps with more behind it. The counter of
-- slots grows by one for each block that is not shared, and so does the tree, counted with the root
-- node that the first insertion adds.
pub insert-lookup :
    (c : RadixCache) (tokens : List ℕ)
    → (length (insert c tokens).1 ≡ length tokens)
      × ((found : List Block) × (lookup (insert c tokens).0 tokens ≡ some found)
          × (slots found ≡ slots (insert c tokens).1))
      × ((xs : List ℕ) (found : List Block)
          → lookup c xs ≡ some found
          → (rest : List Block) × (lookup (insert c tokens).0 xs ≡ some (found ++ rest)))
      × (size (insert c tokens).0 ≡ count_nodes (root_or_new c) + fresh (insert c tokens).1)
      × ((insert c tokens).0.next_slot ≡ c.next_slot + fresh (insert c tokens).1)
unfolding insert lookup size insert_from
insert-lookup c tokens = (
  (grows tokens (root_or_new c) c.next_slot).2,
  again tokens,
  λ xs found e. kept xs found c.root refl e,
  (grows tokens (root_or_new c) c.next_slot).0,
  (grows tokens (root_or_new c) c.next_slot).1,
)
  where
    again :
        (toks : List ℕ)
        → (found : List Block) × (lookup (insert c toks).0 toks ≡ some found)
          × (slots found ≡ slots (insert c toks).1)
    again [] = ([], refl, refl)
    again (t ∷ ts) = (_, refl, found_after (t ∷ ts) (root_or_new c) c.next_slot)

    kept :
        (xs : List ℕ) (found : List Block) (root : Option Node)
        → c.root ≡ root
        → lookup c xs ≡ some found
        → (rest : List Block) × (lookup (insert c tokens).0 xs ≡ some (found ++ rest))
    kept [] found root r e = ([], cc)
    kept (x ∷ xs) found none r e = absurd (ground (arith, r))
    kept (x ∷ xs) found (some n) r e =
        let (rest, more) = extends tokens (x ∷ xs) (root_or_new c) c.next_slot in
        (rest, ap some more ∙ ap (λ l. some (l ++ rest)) (ground (arith, r, e)))
