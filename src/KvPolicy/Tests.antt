-- ===== src/KvPolicy/Tests.antt =====
-- The streaming policy of include/nanovllm/kv_policy.hpp at the numbers of its own tests.
use nano_v_llm_cpp.Base.{◌≡◌, refl, [], ◌∷◌, some}
use nano_v_llm_cpp.KvPolicy.{streaming_key_len, streaming_map, streaming_keep, Library}

keeps_sink_and_window : streaming_keep 10 2 3 ≡ 0 ∷ 1 ∷ 7 ∷ 8 ∷ 9 ∷ []
unfolding streaming_keep
keeps_sink_and_window = refl

window_of_three : streaming_key_len 5 3 1 ≡ 4
unfolding streaming_key_len
window_of_three = refl

-- A library of ABI 2 with both functions.
abbrev newer : Library
newer = some (some (record { abi = 2; key_len = some streaming_key_len; map = some streaming_map }))
