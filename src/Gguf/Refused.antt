-- ===== src/Gguf/Refused.antt =====
-- `add_file` of src/gguf.cpp on a file that it refuses.
use nano_v_llm_cpp.Base.{◌≡◌, refl, Option, none, some, arith}
use nano_v_llm_cpp.Text.{Bytes}
use nano_v_llm_cpp.Gguf.Loader.{GgufLoader, LoadError, finish, add_headers, add_file}

-- Nothing of a loader but its metadata and its alignment differs.
pub record SameTensors (l l' : GgufLoader) : Type 0 where
  pub tensors : l'.tensors ≡ l.tensors
  pub file : l'.file ≡ l.file
  pub data_offset : l'.data_offset ≡ l.data_offset

-- A file that is refused leaves the tensors and the place of their data as they were.
pub add_file-SameTensors :
    (l : GgufLoader) (o : Option Bytes) (e : LoadError)
    → (add_file l o).1 ≡ some e
    → SameTensors l (add_file l o).0
unfolding add_file add_headers finish
add_file-SameTensors l none e h = record { tensors = refl; file = refl; data_offset = refl }
add_file-SameTensors l (some file) e h = ground arith
