-- ===== src/ExpertCache.antt =====
-- include/nanovllm/edge0/stream.h: the cache of experts that all layers share, and the buffer of
-- prefetched bundles. A map is an association list without double keys.
pub mod Keys
pub mod Bounds
pub mod Tests
use nano_v_llm_cpp.Base.{
  ℕ, zero, suc, ◌+◌, ◌-◌, ◌*◌, ◌/◌, ◌%◌, Bool, true, false, not, ◌&&◌, List, [], ◌∷◌, ◌++◌, Option,
  none, some, ◌==◌, ltb, leb, if◌then◌else◌, length, set,
}
use nano_v_llm_cpp.BlockManager.{ℤ, pos, negsuc}

-- Keys with a slot, or keys with a clock.
abbrev pub Entries : Type 0
Entries = List (ℕ × ℕ)

pub find : ℕ → Entries → Option ℕ
find key [] = none
find key ((k, v) ∷ rest) = if k == key then some v else find key rest

-- `erase` by key.
pub remove_key : ℕ → Entries → Entries
remove_key key [] = []
remove_key key ((k, v) ∷ rest) =
    let rest' = remove_key key rest in if k == key then rest' else (k, v) ∷ rest'

-- `map[key] = v`
pub put_key : ℕ → ℕ → Entries → Entries
put_key key v entries = (key, v) ∷ remove_key key entries

-- `min_element` by the second component: the first of the smallest.
pub oldest : Entries → Option (ℕ × ℕ)
oldest [] = none
oldest (e ∷ rest) = elim (oldest rest) [
  | none ↦ some e
  | some m ↦ if ltb m.1 e.1 then some m else some e
]

pub record SharedExpertCache : Type 0 where
  pub slots : ℕ
  pub map : Entries
  pub lru : List ℕ
  pub order : Entries

abbrev pub le_key : ℕ → ℕ → ℕ
le_key layer expert = layer * 65536 + expert % 65536

abbrev pub layer_of : ℕ → ℕ
layer_of k = k / 65536

abbrev pub expert_of : ℕ → ℕ
expert_of k = k % 65536

abbrev zeros : ℕ → List ℕ
zeros zero = []
zeros (suc n) = 0 ∷ zeros n

pub new_cache : ℕ → SharedExpertCache
new_cache slots = record { slots = slots; map = []; lru = zeros slots; order = [] }

-- `none` is the -1 of the source.
pub get : SharedExpertCache → ℕ → ℕ → Option ℕ
get c layer expert = find (le_key layer expert) c.map

-- `lru_.resize(slot + 1, 0)` where the slot is past the end.
abbrev pub resized : List ℕ → ℕ → List ℕ
resized lru slot = lru ++ zeros (slot + 1 - length lru)

-- `e` is the entry that `min_element` found. A key stands once in `order`, so that the entry and
-- the key go together.
pub evict : SharedExpertCache → ℕ × ℕ → SharedExpertCache
evict c e = record c {
  map = remove_key e.0 c.map;
  order = remove_key e.0 c.order;
  lru = elim (find e.0 c.map) [ none ↦ c.lru | some slot ↦ set c.lru slot 0 ];
}

-- `put` with a slot, by key. The result's second component is the evicted key.
pub put_slot : SharedExpertCache → ℕ → ℕ → ℕ → SharedExpertCache × Option ℕ
put_slot c key slot clk =
    let c1 = record c {
      lru = set (resized c.lru slot) slot clk;
      order = remove_key key c.order ++ ((key, clk) ∷ []);
    } in
    if leb c.slots (length c.map)
    then elim (oldest c1.order) [
      | none ↦ (record c1 { map = put_key key slot c1.map }, none)
      | some e ↦ let c2 = evict c1 e in (record c2 { map = put_key key slot c2.map }, some e.0)
    ]
    else (record c1 { map = put_key key slot c1.map }, none)

-- A negative slot only drops the entry. `none` is the pair of -1.
pub put : SharedExpertCache → ℕ → ℕ → ℤ → ℕ → SharedExpertCache × Option (ℕ × ℕ)
put c layer expert (negsuc _) clk =
    let key = le_key layer expert in
    (record c { map = remove_key key c.map; order = remove_key key c.order }, none)
put c layer expert (pos slot) clk =
    let (c', evicted) = put_slot c (le_key layer expert) slot clk in
    (c', elim evicted [ none ↦ none | some k ↦ some (layer_of k, expert_of k) ])

-- The first entry of the key gets the clock.
pub set_clock : ℕ → ℕ → Entries → Entries
set_clock key clk [] = []
set_clock key clk ((k, v) ∷ rest) =
    let rest' = set_clock key clk rest in if k == key then (k, clk) ∷ rest else (k, v) ∷ rest'

pub touch : SharedExpertCache → ℕ → ℕ → ℕ → SharedExpertCache
touch c layer expert clk =
    let key = le_key layer expert in
    elim (find key c.map) [
      | none ↦ c
      | some slot ↦ record c { lru = set c.lru slot clk; order = set_clock key clk c.order }
    ]

pub clear : SharedExpertCache → SharedExpertCache
clear c = record c { map = []; order = []; lru = [] }

pub record PrefetchBuffer : Type 0 where
  pub cap : ℕ
  pub buf : Entries

pub contains : PrefetchBuffer → ℕ → Bool
contains b key = elim (find key b.buf) [ none ↦ false | some _ ↦ true ]

-- Which of several oldest entries goes depends on the order of the hash table in the source; here
-- it is the first of the list.
pub put_bundle : PrefetchBuffer → ℕ → ℕ → PrefetchBuffer
put_bundle b key clk =
    let buf = put_key key clk b.buf in
    if ltb 0 b.cap && ltb b.cap (length buf)
    then elim (oldest buf) [
      | none ↦ record b { buf = buf }
      | some e ↦ record b { buf = remove_key e.0 buf }
    ]
    else record b { buf = buf }

pub pop : PrefetchBuffer → ℕ → PrefetchBuffer
pop b key = record b { buf = remove_key key b.buf }

pub set_cap : PrefetchBuffer → ℕ → PrefetchBuffer
set_cap b c = record b { cap = c }
