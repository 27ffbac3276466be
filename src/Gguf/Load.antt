-- ===== src/Gguf/Load.antt =====
-- `read_tensor_data` of src/gguf.cpp on a tensor that is stored in tiles.
use nano_v_llm_cpp.Base.{
  ℕ, ◌+◌, ◌*◌, ◌/◌, ◌%◌, ◌≤◌, ◌<◌, ◌≡◌, refl, [], ◌∷◌, some, arith, length, drop, ==_self,
}
use nano_v_llm_cpp.Gguf.Loader.{GgufLoader, GgufTensorMeta}
use nano_v_llm_cpp.Gguf.Data.{
  Memory, gguf_block_info, loaded, file_byte, read_raw, tile_shape, tiles, tiling, read_tiled,
  read_tensor_data, untile,
}
use nano_v_llm_cpp.Gguf.Untile.{IsTiled, untile-IsTiled}

module _ (l : GgufLoader) (m : GgufTensorMeta) (out src : Memory)
    (ncols nrows bv bb tr tbc : ℕ) where
  -- A file that says that its tensors are tiled, and a tensor in it.
  pub record TiledTensor : Type 0 where
    pub tiled : tile_shape l ≡ some (tr, tbc)
    pub rows_pos : 0 < tr
    pub cols_pos : 0 < tbc
    pub dtype : gguf_block_info m.dtype ≡ some (bv, bb)
    pub shape : m.shape ≡ ncols ∷ nrows ∷ []
    pub blocks : ncols % bv ≡ 0
    pub stored :
        tiles nrows tr * tr * (tiles (ncols / bv) tbc * tbc) * bb
        ≤ length (drop (l.data_offset + m.offset) l.file)
    pub holds :
        IsTiled
          (tiling nrows (ncols / bv) bb tr tbc)
          (file_byte (drop (l.data_offset + m.offset) l.file))
          src

  abbrev tensor_size : ℕ
  tensor_size = nrows * (ncols / bv) * bb

  read_raw-stored :
      TiledTensor
      → read_raw l m (tiles nrows tr * tr * (tiles (ncols / bv) tbc * tbc) * bb)
        ≡ some (file_byte (drop (l.data_offset + m.offset) l.file))
  unfolding read_raw
  read_raw-stored t = let stored = t.stored in ground arith

  read_tiled-stored :
      TiledTensor
      → read_tiled l m out tensor_size ncols nrows (tr, tbc)
        ≡ loaded (
            untile
              (tiling nrows (ncols / bv) bb tr tbc)
              (file_byte (drop (l.data_offset + m.offset) l.file))
              out)
  unfolding read_tiled tiling
  read_tiled-stored t =
      rw (t.dtype, read_tiled, t.blocks, ==_self tensor_size, read_raw-stored t) refl

  -- A tensor that the file holds whole and in tiles is read into a buffer of its tensor_size as it was before
  -- it was tiled.
  pub read_tensor_data-TiledTensor :
      TiledTensor
      → (mem : Memory) × (read_tensor_data l m out tensor_size ≡ loaded mem)
        × ((a : ℕ) → a < tensor_size → mem a ≡ src a)
  unfolding read_tensor_data
  read_tensor_data-TiledTensor t =
      let raw = file_byte (drop (l.data_offset + m.offset) l.file) in
      (
        untile (tiling nrows (ncols / bv) bb tr tbc) raw out,
        rw (t.tiled, read_tensor_data, t.shape, read_tiled-stored t) refl,
        λ a h.
            untile-IsTiled nrows (ncols / bv) bb tr tbc raw src out a t.rows_pos t.cols_pos t.holds
              h,
      )
