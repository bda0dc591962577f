-- ===== src/Str/Bm/Tests.antt =====
-- src/str/bm.c on the example of its reference, GCAGAGAG in GCATCGCAGAGAGTATACAGTACG.
use nebase.Base.{ℕ, ◌<◌, ◌≤◌, ◌≡◌, arith, refl, List, [], ◌∷◌, none, some, get_or}
use nebase.Str.Bm.Suffixes.{IsSuffix, suffixes_lem}
use nebase.Str.Bm.Shifts.{IsGood}
use nebase.Str.Bm.GoodSuffix.{pre_bm_gs_lem}
use nebase.Str.Bm.First.{bm_search-first_match}
use nebase.Str.Bm.{ctx_search, ctx_create, Bytes, suffixes, pre_bm_gs, bm_search}

abbrev bytes : List ℕ → Bytes
bytes xs i = get_or xs i 0

abbrev pattern : List ℕ
pattern = 71 ∷ 67 ∷ 65 ∷ 71 ∷ 65 ∷ 71 ∷ 65 ∷ 71 ∷ []

abbrev text : List ℕ
text =
    71 ∷ 67 ∷ 65 ∷ 84 ∷ 67 ∷ 71 ∷ 67 ∷ 65 ∷ 71 ∷ 65 ∷ 71 ∷ 65 ∷ 71 ∷ 84 ∷ 65 ∷ 84 ∷ 65 ∷ 67 ∷ 65
    ∷ 71 ∷ []

abbrev first_8 : (ℕ → ℕ) → List ℕ
first_8 f = f 0 ∷ f 1 ∷ f 2 ∷ f 3 ∷ f 4 ∷ f 5 ∷ f 6 ∷ f 7 ∷ []

suffixes_test : first_8 (suffixes (bytes pattern) 8) ≡ 1 ∷ 0 ∷ 0 ∷ 2 ∷ 0 ∷ 4 ∷ 0 ∷ 8 ∷ []
unfolding suffixes
suffixes_test = refl

pre_bm_gs_test : first_8 (pre_bm_gs (bytes pattern) 8) ≡ 7 ∷ 7 ∷ 7 ∷ 2 ∷ 7 ∷ 4 ∷ 7 ∷ 1 ∷ []
unfolding pre_bm_gs
pre_bm_gs_test = refl

bm_search_test : bm_search 20 (bytes pattern) 8 (bytes text) 20 ≡ some (some 5)
unfolding bm_search
bm_search_test = refl

no_match_test : bm_search 20 (bytes pattern) 8 (bytes (67 ∷ text)) 12 ≡ some none
unfolding bm_search
no_match_test = refl

bm_search-first_match_example :
    (bm_search 22 (bytes pattern) 8 (bytes text) 20 ≡ some (some 5))
    × (ctx_search 22 (ctx_create (bytes pattern) 8) (bytes text) 20 ≡ some (some 5))
bm_search-first_match_example =
    bm_search-first_match 22 (bytes pattern) 8 (bytes text) 20 (omega arith) (omega arith)

suffixes_lem_example : IsSuffix (bytes pattern) 8 5 (suffixes (bytes pattern) 8 5)
suffixes_lem_example = suffixes_lem (bytes pattern) 8 (omega arith) 5 (omega arith)

pre_bm_gs_lem_example :
    (0 < pre_bm_gs (bytes pattern) 8 3)
    × (pre_bm_gs (bytes pattern) 8 3 ≤ 8)
    × ((d : ℕ) → 0 < d → IsGood (bytes pattern) 8 3 d → pre_bm_gs (bytes pattern) 8 3 ≤ d)
pre_bm_gs_lem_example = pre_bm_gs_lem (bytes pattern) 8 3 (omega arith)
