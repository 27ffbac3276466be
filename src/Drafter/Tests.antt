-- ===== src/Drafter/Tests.antt =====
-- include/nanovllm/drafter.hpp on the corpus of its own test.
use nano_v_llm_cpp.Base.{ℕ, ◌≤◌, ◌≡◌, refl, true, List, [], ◌∷◌, ◌++◌}
use nano_v_llm_cpp.Drafter.{find, record_grams, build, last_of, shrink, suggest}
use nano_v_llm_cpp.Drafter.Suggest.{Occurs, suggest-Occurs}

abbrev corpus : List ℕ
corpus = 1 ∷ 2 ∷ 3 ∷ 1 ∷ 2 ∷ 4 ∷ []

suggests_three : (suggest (build corpus 3) (1 ∷ 2 ∷ [])).found ≡ true
unfolding suggest build record_grams find shrink
suggests_three = refl

suggest-Occurs_example :
    let m = suggest (build corpus 3) (1 ∷ 2 ∷ []) in
    (m.draft ≡ last_of 2 (1 ∷ 2 ∷ []) ++ (m.token ∷ []))
    × (3 ≤ 3)
    × Occurs corpus 3 (last_of 2 (1 ∷ 2 ∷ [])) m.token
suggest-Occurs_example = suggest-Occurs corpus (1 ∷ 2 ∷ []) 3 suggests_three
