-- ===== src/RadixCache.antt =====
-- include/nanovllm/cache.hpp: the radix tree of cached blocks. A node is owned by its parent alone,
-- so that the tree is a value; the parent pointer and the node's own `token` are never read. The
-- children are a list from token to node, in the order of insertion.
pub mod Lookup
pub mod Tests
use nano_v_llm_cpp.Base.{
  ℕ, zero, suc, ◌+◌, Bool, true, false, List, [], ◌∷◌, ◌++◌, Option, none, some, ◌==◌,
  if◌then◌else◌, length,
}

pub record Block : Type 0 where
  pub slot : ℕ
  pub shared : Bool

mutual
  pub data Node : Type 0 where
    node : Block → Children → Node

  pub data Children : Type 0 where
    none_left : Children
    child : ℕ → Node → Children → Children

abbrev pub block_of : Node → Block
block_of (node b cs) = b

abbrev pub children : Node → Children
children (node b cs) = cs

-- `children.find(tok)`
pub find : ℕ → Children → Option Node
find tok none_left = none
find tok (child t n cs) = if t == tok then some n else find tok cs

-- `children[tok] = ...`
pub put_child : ℕ → Node → Children → Children
put_child tok n none_left = child tok n none_left
put_child tok n (child t m cs) = if t == tok then child t n cs else child t m (put_child tok n cs)

-- A root that is not there is `none`.
pub record RadixCache : Type 0 where
  pub root : Option Node
  pub next_slot : ℕ

abbrev pub new_node : ℕ → Node
new_node slot = node (record { slot = slot; shared = false }) none_left

-- The loop of `insert` from the node `cur` on: the node after it, the next slot, and the blocks.
pub insert_from : List ℕ → Node → ℕ → Node × ℕ × List Block
insert_from [] cur next = (cur, next, [])
insert_from (tok ∷ toks) cur next = elim (find tok (children cur)) [
  | some n ↦
      let (n', next', blocks) = insert_from toks n next in
      (
        node (block_of cur) (put_child tok n' (children cur)),
        next',
        record (block_of n) { shared = true } ∷ blocks,
      )
  | none ↦
      let (n', next', blocks) = insert_from toks (new_node next) (suc next) in
      (
        node (block_of cur) (put_child tok n' (children cur)),
        next',
        record { slot = next; shared = false } ∷ blocks,
      )
]

-- The root's block is never read; its slot is -1 in the source and 0 here.
abbrev pub root_or_new : RadixCache → Node
root_or_new c = elim c.root [ none ↦ new_node 0 | some n ↦ n ]

pub insert : RadixCache → List ℕ → RadixCache × List Block
insert c tokens =
    let (n, next, blocks) = insert_from tokens (root_or_new c) c.next_slot in
    (record { root = some n; next_slot = next }, blocks)

pub lookup_from : List ℕ → Node → List Block
lookup_from [] cur = []
lookup_from (tok ∷ toks) cur = elim (find tok (children cur)) [
  | none ↦ []
  | some n ↦ block_of n ∷ lookup_from toks n
]

-- The source reads a null root when tokens are looked up in an empty cache; that is `none`.
pub lookup : RadixCache → List ℕ → Option (List Block)
lookup c [] = some []
lookup c (tok ∷ toks) = elim c.root [ none ↦ none | some n ↦ some (lookup_from (tok ∷ toks) n) ]

mutual
  pub count_nodes : Node → ℕ
  count_nodes (node b cs) = suc (count_children cs)

  pub count_children : Children → ℕ
  count_children none_left = 0
  count_children (child t n cs) = count_nodes n + count_children cs

pub size : RadixCache → ℕ
size c = elim c.root [ none ↦ 0 | some n ↦ count_nodes n ]

pub clear : RadixCache → RadixCache
clear c = record { root = none; next_slot = 0 }
