-- ===== src/Gguf/Untile.antt =====
-- The four loops of `read_tensor_data` of src/gguf.cpp put every block of a tensor where it belongs.
use nano_v_llm_cpp.Base.{
  ℕ, zero, suc, ◌+◌, ◌-◌, ◌*◌, ◌/◌, ◌%◌, ◌<◌, ◌≡◌, ap, ◌∙◌, subst, inl, inr, ◌&&◌, ◌||◌, arith,
  ◌==◌, ==_iff, ltb, leb, Bool-cases,
}
use nano_v_llm_cpp.Base.Division.{divided_once}
use native.Mathlib.Nat.{div-lt_iff_lt-mul, div-add-mod', mod-lt}
use nano_v_llm_cpp.Gguf.Data.{Memory, copy, for_each, Tiling, place_block, untile, tiles, tiling}

module _ {ℓ κ} {S : Type ℓ} (P : S → Type κ) where
  for_each-keeps :
      (n : ℕ) (body : ℕ → S → S)
      → ((i : ℕ) (s : S) → i < n → P s → P (body i s))
      → (s : S) → P s
      → P (for_each n body s)
  unfolding for_each
  for_each-keeps zero body keep s h = h
  for_each-keeps (suc n) body keep s h =
      keep n _ (omega arith) (for_each-keeps n body (λ i t l. keep i t (omega arith)) s h)

  -- What one round makes true, and every round keeps, holds at the end.
  for_each-reaches :
      (n : ℕ) (body : ℕ → S → S) (j : ℕ)
      → j < n
      → ((s : S) → P (body j s))
      → ((i : ℕ) (s : S) → i < n → P s → P (body i s))
      → (s : S) → P (for_each n body s)
  unfolding for_each
  for_each-reaches zero body j l now keep s = elim l [ ]
  for_each-reaches (suc n) body j l now keep s = elim (Bool-cases (j == n)) [
    | inl e ↦ subst (λ i. P (body i (for_each n body s))) ((==_iff j n).0 e) (now _)
    | inr e ↦
        keep n _ (omega arith)
          (for_each-reaches n body j (ground (arith, e)) now (λ i t k. keep i t (omega arith)) s)
  ]

module _ (g : Tiling) (raw : Memory) where
  -- Block column `lbc` of row `lr` holds what stands at block `c` of row `r` of a tile.
  abbrev Holds : ℕ → ℕ → ℕ → ℕ → Memory → Type 0
  Holds tyr tyc r c m =
      (k : ℕ)
      → k < g.bb
      → m (((tyr * g.tr + r) * g.bpr + (tyc * g.tbc + c)) * g.bb + k)
        ≡ raw ((((tyr * g.ntc + tyc) * g.tr + r) * g.tbc + c) * g.bb + k)

  -- Two blocks at one place come from one place, byte by byte.
  place_once :
      (tyr tyc r c tyr' tyc' r' c' k k' : ℕ)
      → r < g.tr
      → r' < g.tr
      → c < g.tbc
      → c' < g.tbc
      → tyc * g.tbc + c < g.bpr
      → tyc' * g.tbc + c' < g.bpr
      → k < g.bb
      → k' < g.bb
      → ((tyr * g.tr + r) * g.bpr + (tyc * g.tbc + c)) * g.bb + k
        ≡ ((tyr' * g.tr + r') * g.bpr + (tyc' * g.tbc + c')) * g.bb + k'
      → (((tyr * g.ntc + tyc) * g.tr + r) * g.tbc + c) * g.bb + k
        ≡ (((tyr' * g.ntc + tyc') * g.tr + r') * g.tbc + c') * g.bb + k'
  place_once tyr tyc r c tyr' tyc' r' c' k k' hr hr' hc hc' col col' hk hk' e =
      let block = divided_once g.bb _ _ k k' hk hk' e in
      let cell = divided_once g.bpr _ _ _ _ col col' block.0 in
      let row = divided_once g.tr tyr tyr' r r' hr hr' cell.0 in
      let column = divided_once g.tbc tyc tyc' c c' hc hc' cell.1 in
      cc (block.1, row.0, row.1, column.0, column.1)

  module _ (tyr tyc r c : ℕ) (row : tyr * g.tr + r < g.nrows) (col : tyc * g.tbc + c < g.bpr) where
    place_block-Holds : (m : Memory) → Holds tyr tyc r c (place_block g raw tyr tyc r c m)
    unfolding place_block copy
    place_block-Holds m k h = ground arith

    -- Another block goes to another place, and the same block to the same.
    place_block-keeps :
        (tyr' tyc' r' c' : ℕ) (m : Memory)
        → r < g.tr
        → r' < g.tr
        → c < g.tbc
        → c' < g.tbc
        → Holds tyr tyc r c m
        → Holds tyr tyc r c (place_block g raw tyr' tyc' r' c' m)
    unfolding place_block copy
    place_block-keeps tyr' tyc' r' c' m hr hr' hc hc' old k h =
        let lr = tyr' * g.tr + r' in
        let lbc = tyc' * g.tbc + c' in
        let dst = (lr * g.bpr + lbc) * g.bb in
        let a = ((tyr * g.tr + r) * g.bpr + (tyc * g.tbc + c)) * g.bb + k in
        elim (Bool-cases (leb g.nrows lr || leb g.bpr lbc)) [
          | inl out ↦ ground (arith, out, old k h)
          | inr inside ↦ elim (Bool-cases (leb dst a && ltb a (dst + g.bb))) [
            | inl hit ↦ ground (
              arith,
              inside,
              hit,
              place_once tyr tyc r c tyr' tyc' r' c' k (a - dst) hr hr' hc hc' col
                  (ground (arith, inside)) h (ground (arith, hit)) (ground (arith, hit)),
            )
            | inr other ↦ ground (arith, inside, other, old k h)
          ]
        ]

    module _ (hr : r < g.tr) (hc : c < g.tbc) where
      -- The three inner loops keep a block.
      row_loop-keeps :
          (tyr' tyc' r' : ℕ) (m : Memory)
          → r' < g.tr
          → Holds tyr tyc r c m
          → Holds tyr tyc r c (for_each g.tbc (λ c'. place_block g raw tyr' tyc' r' c') m)
      row_loop-keeps tyr' tyc' r' m hr' =
          for_each-keeps (Holds tyr tyc r c) g.tbc (λ c'. place_block g raw tyr' tyc' r' c')
            (λ c' m' hc'. place_block-keeps tyr' tyc' r' c' m' hr hr' hc hc') m

      tile_loop-keeps :
          (tyr' tyc' : ℕ) (m : Memory)
          → Holds tyr tyc r c m
          → Holds tyr tyc r c
              (for_each g.tr (λ r'. for_each g.tbc (λ c'. place_block g raw tyr' tyc' r' c')) m)
      tile_loop-keeps tyr' tyc' =
          for_each-keeps (Holds tyr tyc r c) g.tr
            (λ r'. for_each g.tbc (λ c'. place_block g raw tyr' tyc' r' c'))
            (λ r' m' hr'. row_loop-keeps tyr' tyc' r' m' hr')

      across_loop-keeps :
          (tyr' : ℕ) (m : Memory)
          → Holds tyr tyc r c m
          → Holds tyr tyc r c (
              for_each g.ntc
                (λ tyc'.
                  for_each g.tr (λ r'. for_each g.tbc (λ c'. place_block g raw tyr' tyc' r' c')))
                m)
      across_loop-keeps tyr' =
          for_each-keeps (Holds tyr tyc r c) g.ntc
            (λ tyc'. for_each g.tr (λ r'. for_each g.tbc (λ c'. place_block g raw tyr' tyc' r' c')))
            (λ tyc' m' l. tile_loop-keeps tyr' tyc' m')

      untile-Holds :
          tyr < g.ntr → tyc < g.ntc → (out : Memory) → Holds tyr tyc r c (untile g raw out)
      unfolding untile
      untile-Holds ht hu =
          for_each-reaches (Holds tyr tyc r c) g.ntr _ tyr ht
            (for_each-reaches (Holds tyr tyc r c) g.ntc _ tyc hu
              (for_each-reaches (Holds tyr tyc r c) g.tr _ r hr
                (for_each-reaches (Holds tyr tyc r c) g.tbc _ c hc place_block-Holds
                  (λ c' m hc'. place_block-keeps tyr tyc r c' m hr hr hc hc'))
                (λ r' m hr'. row_loop-keeps tyr tyc r' m hr'))
              (λ tyc' m l. tile_loop-keeps tyr tyc' m))
            (λ tyr' m l. across_loop-keeps tyr' m)

  -- `raw` holds the blocks of `src` in tiles: block column `lbc` of row `lr` stands at block
  -- `lbc % tbc` of row `lr % tr` of tile `lbc / tbc` of tile row `lr / tr`.
  abbrev pub IsTiled : Memory → Type 0
  IsTiled src =
      (lr lbc k : ℕ)
      → lr < g.nrows
      → lbc < g.bpr
      → k < g.bb
      → raw (
          ((((lr / g.tr) * g.ntc + lbc / g.tbc) * g.tr + lr % g.tr) * g.tbc + lbc % g.tbc) * g.bb
          + k)
        ≡ src ((lr * g.bpr + lbc) * g.bb + k)

factor_pos : (x y a : ℕ) → a < x * y → 0 < y
factor_pos x zero a h = absurd (omega arith)
factor_pos x (suc y) a h = omega arith

-- There are as many tiles as cover the rows, or the block columns.
tiles-covers : (n m i : ℕ) → 0 < m → i < n → i / m < tiles n m
tiles-covers n m i hm hi =
    (div-lt_iff_lt-mul hm).1
      (omega (arith, div-add-mod' (n + m - 1) m, mod-lt (n + m - 1) {m = m} hm))

module _ (nrows bpr bb tr tbc : ℕ) (raw src out : Memory) where
  untile-IsTiled_at :
      (lr lbc k : ℕ)
      → 0 < tr
      → 0 < tbc
      → IsTiled (tiling nrows bpr bb tr tbc) raw src
      → lr < nrows
      → lbc < bpr
      → k < bb
      → untile (tiling nrows bpr bb tr tbc) raw out ((lr * bpr + lbc) * bb + k)
        ≡ src ((lr * bpr + lbc) * bb + k)
  unfolding tiling
  untile-IsTiled_at lr lbc k ht hc tiled hr hl hk =
      let g = tiling nrows bpr bb tr tbc in
      let row : lr / tr * tr + lr % tr ≡ lr = div-add-mod' lr tr in
      let column : lbc / tbc * tbc + lbc % tbc ≡ lbc = div-add-mod' lbc tbc in
      let holds =
        untile-Holds g raw (lr / tr) (lbc / tbc) (lr % tr) (lbc % tbc) (omega (arith, row))
          (omega (arith, column)) (mod-lt lr ht) (mod-lt lbc hc) (tiles-covers nrows tr lr ht hr)
          (tiles-covers bpr tbc lbc hc hl) out k hk in
      subst (λ l. untile g raw out ((l * bpr + lbc) * bb + k) ≡ src ((lr * bpr + lbc) * bb + k)) row
        (subst
          (λ l.
            untile g raw out (((lr / tr * tr + lr % tr) * bpr + l) * bb + k)
            ≡ src ((lr * bpr + lbc) * bb + k))
          column (holds ∙ tiled lr lbc k hr hl hk))

  -- Where the bytes that are read hold the blocks of a tensor in tiles, the loops give back the tensor
  -- in rows, byte by byte, whatever was in the buffer; tiles that stick out over the edges of the
  -- tensor lose nothing and overwrite nothing.
  pub untile-IsTiled :
      (a : ℕ)
      → 0 < tr
      → 0 < tbc
      → IsTiled (tiling nrows bpr bb tr tbc) raw src
      → a < nrows * bpr * bb
      → untile (tiling nrows bpr bb tr tbc) raw out a ≡ src a
  untile-IsTiled a ht hc tiled h =
      let k = a % bb in
      let block = a / bb in
      let lr = block / bpr in
      let lbc = block % bpr in
      let pos_bb = factor_pos (nrows * bpr) bb a h in
      let block_in : block < nrows * bpr = (div-lt_iff_lt-mul pos_bb).1 h in
      let pos_bpr = factor_pos nrows bpr block block_in in
      let address : (lr * bpr + lbc) * bb + k ≡ a =
        ap (λ t. t * bb + k) (div-add-mod' block bpr) ∙ div-add-mod' a bb in
      subst (λ i. untile (tiling nrows bpr bb tr tbc) raw out i ≡ src i) address
        (untile-IsTiled_at lr lbc k ht hc tiled ((div-lt_iff_lt-mul pos_bpr).1 block_in)
          (mod-lt block pos_bpr) (mod-lt a pos_bb))
