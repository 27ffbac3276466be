-- ===== src/Text/Maps.antt =====
-- A `std::map` from strings: its entries in the order of their keys.
use nano_v_llm_cpp.Base.{◌≡◌, refl, List, [], ◌∷◌, Option, none, some, arith, if◌then◌else◌}
use nano_v_llm_cpp.Text.{Bytes, same}
use nano_v_llm_cpp.Text.Find.{same_iff}
use nano_v_llm_cpp.Json.{before}

module _ {ℓ} {V : Type ℓ} where
  -- `m.find(k)`
  unfoldable pub find_key : Bytes → List (Bytes × V) → Option V
  find_key k [] = none
  find_key k ((j, v) ∷ m) = if same k j then some v else find_key k m

  -- `m[k] = v`
  unfoldable pub assign : Bytes → V → List (Bytes × V) → List (Bytes × V)
  assign k v [] = (k, v) ∷ []
  assign k v ((j, w) ∷ m) =
      if same k j
      then (k, v) ∷ m
      else if before k j
      then (k, v) ∷ (j, w) ∷ m
      else (j, w) ∷ assign k v m

  pub find_key-assign :
      (k j : Bytes) (v : V) (m : List (Bytes × V))
      → find_key j (assign k v m) ≡ (if same j k then some v else find_key j m)
  unfolding find_key assign
  find_key-assign k j v [] = refl
  find_key-assign k j v ((i, w) ∷ m) =
      ground (arith, same_iff k i, same_iff j k, same_iff j i, find_key-assign k j v m)
