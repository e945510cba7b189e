-- ===== src/Api/AnalysisCache/Tests.antt =====
-- The theorems on the cache of analysis_cache.go at concrete inputs.
use merm.Prelude.{◌+◌, ◌≡◌, refl, String, some, none, List, [], ◌∷◌, if◌then◌else◌, ltb, pos}
use merm.Api.AnalysisCache.{Json, AnalysisResultCache, new_analysis_result_cache, get, set}
use merm.Api.AnalysisCache.Valid.{IsValid}
use merm.Api.AnalysisCache.Runs.{Call, gets, sets, run, run-new_analysis_result_cache, get-set}

-- results that are their own text, of one byte each
abbrev json : Json String String
json = record { marshal = λ r. some r; unmarshal = λ b. some b; size = λ b. 1; key_size = λ k. 1 }

abbrev calls : List (Call String)
calls = sets 1 2 "a" "A" ∷ sets 3 3 "b" "B" ∷ gets 4 "a" ∷ sets 5 5 "c" "C" ∷ gets 20 "c" ∷ []

abbrev cache : AnalysisResultCache String
cache = new_analysis_result_cache (pos 2) (pos 10) (pos 5)

run-new_analysis_result_cache_example : IsValid json (run json cache calls)
run-new_analysis_result_cache_example =
    run-new_analysis_result_cache json (pos 2) (pos 10) (pos 5) calls

get-set_example :
    (get json 9 "a" (set json 1 2 "a" "A" (run json cache [])).0).1
    ≡ (if ltb 9 (2 + 10) then some "A" else none)
unfolding new_analysis_result_cache run
get-set_example =
    get-set json 1 2 9 "a" "A" "A" (run json cache [])
      (run-new_analysis_result_cache json (pos 2) (pos 10) (pos 5) []) refl refl refl refl
