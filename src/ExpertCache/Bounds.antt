-- ===== src/ExpertCache/Bounds.antt =====
-- How many entries the caches of include/nanovllm/edge0/stream.h hold.
use nano_v_llm_cpp.Base.{
  ℕ, suc, ◌+◌, ◌≤◌, ◌<◌, ◌≡◌, ◌≢◌, ap, subst, inl, inr, refl, true, false, ◌&&◌, List, [], ◌∷◌,
  ◌++◌, none, some, arith, ◌==◌, ltb, leb, if◌then◌else◌, Bool-cases, Option-cases, ==_iff, length,
  length-append, count, count-append,
}
use nano_v_llm_cpp.ExpertCache.{
  Entries, find, remove_key, put_key, oldest, SharedExpertCache, evict, put_slot, PrefetchBuffer,
  put_bundle,
}
use nano_v_llm_cpp.ExpertCache.Keys.{
  AllBefore, AllBefore-append, AllBefore-remove_key, count-remove_key, keys, keys-append,
  length-remove_key, oldest-append,
}

-- The map and the order have the same keys, each once, and no more than the slots.
pub record Valid (c : SharedExpertCache) (clk : ℕ) : Type 0 where
  pub same : (q : ℕ) → count q (keys c.map) ≡ count q (keys c.order)
  pub once : (q : ℕ) → count q (keys c.map) ≤ 1
  pub same_length : length c.map ≡ length c.order
  pub before : AllBefore clk c.order
  pub fits : length c.map ≤ c.slots

abbrev pushed : Entries → ℕ → ℕ → Entries
pushed order key clk = remove_key key order ++ ((key, clk) ∷ [])

count-pushed :
    (order : Entries) (key clk q : ℕ)
    → count q (keys (pushed order key clk)) ≡ (if key == q then 1 else count q (keys order))
count-pushed order key clk q = ground (
  arith,
  ap (count q) (keys-append (remove_key key order) ((key, clk) ∷ [])),
  count-append q (keys (remove_key key order)) (key ∷ []),
  count-remove_key key q order,
)

count-put_key :
    (key slot q : ℕ) (m : Entries)
    → count q (keys (put_key key slot m)) ≡ (if key == q then 1 else count q (keys m))
unfolding put_key
count-put_key key slot q m = ground (arith, count-remove_key key q m)

length-put_key :
    (key slot : ℕ) (m : Entries) → length (put_key key slot m) + count key (keys m) ≡ suc (length m)
unfolding put_key
length-put_key key slot m = omega (arith, length-remove_key key m)

length-pushed :
    (order : Entries) (key clk : ℕ)
    → length (pushed order key clk) + count key (keys order) ≡ suc (length order)
length-pushed order key clk =
    omega
      (arith, length-append (remove_key key order) ((key, clk) ∷ []), length-remove_key key order)

module _ (c : SharedExpertCache) (lru : List ℕ) (key slot clk : ℕ) (v : Valid c clk) where
  room_left :
      (length c.map < c.slots)
      → Valid
          (record c { map = put_key key slot c.map; order = pushed c.order key clk; lru = lru })
          clk
  room_left h = record {
    same = λ q.
        ground (arith, v.same q, count-put_key key slot q c.map, count-pushed c.order key clk q);
    once = λ q. ground (arith, v.once q, count-put_key key slot q c.map);
    same_length = omega (
      arith,
      v.same key,
      v.same_length,
      length-put_key key slot c.map,
      length-pushed c.order key clk,
    );
    before =
        AllBefore-append clk (remove_key key c.order) ((key, clk) ∷ [])
          (AllBefore-remove_key clk key c.order v.before) (omega arith, _);
    fits = omega (arith, length-put_key key slot c.map);
  }

  full_now :
      (k : ℕ)
      → 0 < count k (keys (remove_key key c.order))
      → Valid
          (record c {
            map = put_key key slot (remove_key k c.map);
            order = remove_key k (pushed c.order key clk);
            lru = lru;
          })
          clk
  full_now k h = record {
    same = λ q. ground (
      arith,
      other,
      v.same q,
      count-put_key key slot q (remove_key k c.map),
      count-remove_key k q c.map,
      count-remove_key k q (pushed c.order key clk),
      count-pushed c.order key clk q,
      ==_iff key q,
      ==_iff k q,
    );
    once = λ q. ground (
      arith,
      v.once q,
      count-put_key key slot q (remove_key k c.map),
      count-remove_key k q c.map,
    );
    same_length = ground (
      arith,
      other,
      v.same key,
      v.same k,
      v.same_length,
      length-put_key key slot (remove_key k c.map),
      length-remove_key k c.map,
      length-remove_key k (pushed c.order key clk),
      length-pushed c.order key clk,
      count-pushed c.order key clk k,
      count-remove_key k key c.map,
      ==_iff key k,
      ==_iff k key,
    );
    before = AllBefore-remove_key clk k (pushed c.order key clk) (
        AllBefore-append clk (remove_key key c.order) ((key, clk) ∷ [])
          (AllBefore-remove_key clk key c.order v.before) (omega arith, _));
    fits = omega (
      arith,
      v.fits,
      held,
      length-put_key key slot (remove_key k c.map),
      length-remove_key k c.map,
    );
  }
    where
      other : (key == k) ≡ false
      other = ground (arith, h, count-remove_key key k c.order)

      held : 0 < count k (keys c.map)
      held = ground (arith, h, count-remove_key key k c.order, v.same k)

find-put_key : (key slot : ℕ) (m : Entries) → find key (put_key key slot m) ≡ some slot
unfolding put_key find
find-put_key key slot m = ground (arith, ==_iff key key)

find-absent : (key : ℕ) (m : Entries) → count key (keys m) ≡ 0 → find key m ≡ none
unfolding find
find-absent key [] h = refl
find-absent key ((k, v) ∷ m) h = ground (arith, h, find-absent key m)

-- For a cache in order with at least two slots, and a clock that is not before any earlier one,
-- `put` leaves the cache in order and never holds more than the slots. The key just put is found
-- in its slot, and what is evicted is another key, which is not found any more.
pub put_slot-Valid :
    (c : SharedExpertCache) (key slot clk : ℕ)
    → Valid c clk
    → 1 < c.slots
    → Valid (put_slot c key slot clk).0 clk
      × (find key (put_slot c key slot clk).0.map ≡ some slot)
      × ((k : ℕ)
          → (put_slot c key slot clk).1 ≡ some k
          → (k ≢ key) × (find k (put_slot c key slot clk).0.map ≡ none))
unfolding put_slot evict
put_slot-Valid c key slot clk v two = elim (Bool-cases (leb c.slots (length c.map))) [
  | inr space ↦
      rw (space, put_slot)
        (
          room_left c _ key slot clk v (ground arith),
          find-put_key key slot c.map,
          λ k x. absurd (cc),
        )
  | inl full ↦
      let (k, u, e, inside, _) =
        oldest-append key clk (remove_key key c.order)
          (omega (
            arith,
            v.same_length,
            v.once key,
            v.same key,
            length-remove_key key c.order,
            full_length full,
          ))
          (AllBefore-remove_key clk key c.order v.before) in
      rw (full, put_slot)
        (rw (e) (
          full_now c _ key slot clk v k inside,
          find-put_key key slot (remove_key k c.map),
          λ k' x. gone k k' (cc) inside,
        ))
]
  where
    full_length : leb c.slots (length c.map) ≡ true → c.slots ≤ length c.map
    full_length h = ground (arith, h)

    gone :
        (k k' : ℕ)
        → k ≡ k'
        → 0 < count k (keys (remove_key key c.order))
        → (k' ≢ key) × (find k' (put_key key slot (remove_key k c.map)) ≡ none)
    gone k k' same h =
        let other : (key == k) ≡ false = ground (arith, h, count-remove_key key k c.order) in
        subst (λ x. (x ≢ key) × (find x (put_key key slot (remove_key k c.map)) ≡ none)) same
          (
            (λ e. ground (arith, other, ==_iff key k, e)),
            find-absent k (put_key key slot (remove_key k c.map)) (
                ground (
                  arith,
                  other,
                  count-put_key key slot k (remove_key k c.map),
                  count-remove_key k k c.map,
                  ==_iff k k,
                )),
          )

-- A cache of one slot that holds one key.
abbrev pub holding : ℕ → ℕ → ℕ → List ℕ → SharedExpertCache
holding key slot t lru = record {
  slots = 1;
  map = (key, slot) ∷ [];
  lru = lru;
  order = (key, t) ∷ [];
}

-- With one slot, `put` of the key that is cached already reports that key as evicted although the
-- map keeps it, and leaves it out of the order.
pub put_slot-same_key :
    (key slot slot' t clk : ℕ) (lru : List ℕ)
    → ((put_slot (holding key slot t lru) key slot' clk).1 ≡ some key)
      × ((put_slot (holding key slot t lru) key slot' clk).0.map ≡ (key, slot') ∷ [])
      × ((put_slot (holding key slot t lru) key slot' clk).0.order ≡ [])
unfolding put_slot evict remove_key put_key oldest
put_slot-same_key key slot slot' t clk lru =
    let same : (key == key) ≡ true = (==_iff key key).1 refl in
    rw same (refl, ground (arith, same), ground (arith, same))

oldest-put_key : (key clk : ℕ) (m : Entries) → oldest (put_key key clk m) ≢ none
unfolding oldest put_key
oldest-put_key key clk m h = elim (Option-cases (oldest (remove_key key m))) [
  | inl n ↦ ground (arith, h, n)
  | inr (e, s) ↦ ground (arith, h, s)
]

oldest-member : (xs : Entries) (e : ℕ × ℕ) → oldest xs ≡ some e → 0 < count e.0 (keys xs)
unfolding oldest
oldest-member [] e h = absurd (cc)
oldest-member (x ∷ xs) e h = elim (Option-cases (oldest xs)) [
  | inl n ↦ ground (arith, h, n)
  | inr (m, s) ↦ ground (arith, h, s, oldest-member xs m s)
]

-- A buffer with a positive bound that holds no more than it still does after `put`.
pub put_bundle-cap :
    (b : PrefetchBuffer) (key clk : ℕ)
    → 0 < b.cap
    → length b.buf ≤ b.cap
    → length (put_bundle b key clk).buf ≤ b.cap
unfolding put_bundle
put_bundle-cap b key clk h g =
    elim (Bool-cases (ltb 0 b.cap && ltb b.cap (length (put_key key clk b.buf)))) [
      | inr n ↦ rw (n, put_bundle) (ground (arith, n))
      | inl y ↦ elim (Option-cases (oldest (put_key key clk b.buf))) [
        | inl n ↦ absurd (oldest-put_key key clk b.buf n)
        | inr (e, s) ↦
            rw (y, put_bundle)
              (rw (s) (
                omega (
                  arith,
                  oldest-member (put_key key clk b.buf) e s,
                  length-remove_key e.0 (put_key key clk b.buf),
                  length-put_key key clk b.buf,
                )))
      ]
    ]
