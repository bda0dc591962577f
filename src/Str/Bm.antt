-- ===== src/Str/Bm.antt =====
-- src/str/bm.c: the search for a pattern in a text by Boyer and Moore. A pattern and a text are
-- functions from the offset to the byte; an int that may be -1 is kept as the number above it.
mod Tests
pub mod Suffixes
pub mod Shifts
pub mod GoodSuffix
pub mod BadChar
pub mod First
use nebase.Base.{
  ℕ, zero, suc, ◌+◌, ◌-◌, ◌==◌, ltb, leb, Bool, true, false, ◌&&◌, Option, none, some,
  if◌then◌else◌,
}
use nebase.Evdp.Source.{update}

-- MAX; the second value, which may be negative in the code, is 0 then, and the first is not less.
abbrev pub max_shift : ℕ → ℕ → ℕ
max_shift a b = if ltb b a then a else b

abbrev pub Bytes : Type 0
Bytes = ℕ → ℕ

-- preBmBc: the loop over the bytes before the last, `n` of them left.
pub bc_loop : Bytes → ℕ → ℕ → ℕ → (ℕ → ℕ) → ℕ → ℕ
bc_loop x m zero i bm_bc = bm_bc
bc_loop x m (suc n) i bm_bc = bc_loop x m n (i + 1) (update bm_bc (x i) (m - i - 1))

pub pre_bm_bc : Bytes → ℕ → ℕ → ℕ
unfolding bc_loop
pre_bm_bc x m = bc_loop x m (m - 1) 0 (λ c. m)

-- The while loop of suffixes, from `g + 1` down.
pub extend : Bytes → ℕ → ℕ → ℕ → ℕ
extend x m f zero = zero
extend x m f (suc g) =
    let rest = extend x m f g in if x g == x (g + (m - 1) - f) then rest else suc g

-- suffixes: the loop from `i + 1` down, with `f` and `g + 1`.
pub suffixes_loop : Bytes → ℕ → ℕ → ℕ → ℕ → (ℕ → ℕ) → ℕ → ℕ
unfolding extend
suffixes_loop x m zero f g1 suff = suff
suffixes_loop x m (suc i) f g1 suff =
    let copied = suff (i + (m - 1) - f) in
    let g2 = extend x m i (if leb g1 i then g1 else suc i) in
    if leb g1 i && ltb copied (suc i - g1)
    then suffixes_loop x m i f g1 (update suff i copied)
    else suffixes_loop x m i i g2 (update suff i (suc i - g2))

unfoldable pub suffixes : Bytes → ℕ → ℕ → ℕ
unfolding suffixes_loop
suffixes x m = suffixes_loop x m (m - 1) 0 m (update (λ i. 0) (m - 1) m)

-- The inner loop of the second loop of preBmGs, `n` rounds from `j`.
pub fill_to : ℕ → ℕ → ℕ → ℕ → (ℕ → ℕ) → ℕ → ℕ
fill_to m d zero j bm_gs = bm_gs
fill_to m d (suc n) j bm_gs =
    fill_to m d n (j + 1) (if bm_gs j == m then update bm_gs j d else bm_gs)

-- The second loop of preBmGs, from `i + 1` down.
pub border_loop : (ℕ → ℕ) → ℕ → ℕ → ℕ → (ℕ → ℕ) → ℕ → ℕ
unfolding fill_to
border_loop suff m zero j bm_gs = bm_gs
border_loop suff m (suc i) j bm_gs =
    let d = m - 1 - i in
    if suff i == suc i
    then border_loop suff m i (j + (d - j)) (fill_to m d (d - j) j bm_gs)
    else border_loop suff m i j bm_gs

-- The third loop of preBmGs, `n` rounds from `i`.
pub suffix_loop : (ℕ → ℕ) → ℕ → ℕ → ℕ → (ℕ → ℕ) → ℕ → ℕ
suffix_loop suff m zero i bm_gs = bm_gs
suffix_loop suff m (suc n) i bm_gs =
    suffix_loop suff m n (i + 1) (update bm_gs (m - 1 - suff i) (m - 1 - i))

unfoldable pub pre_bm_gs : Bytes → ℕ → ℕ → ℕ
unfolding suffixes border_loop suffix_loop
pre_bm_gs x m =
    let suff = suffixes x m in suffix_loop suff m (m - 1) 0 (border_loop suff m m 0 (λ j. m))

-- struct neb_str_bm_ctx
pub record BmCtx : Type 0 where
  pub pattern : Bytes
  pub pattern_len : ℕ
  pub bm_bc : ℕ → ℕ
  pub bm_gs : ℕ → ℕ

-- neb_str_bm_ctx_create, where malloc succeeds.
pub ctx_create : Bytes → ℕ → BmCtx
unfolding pre_bm_bc pre_bm_gs
ctx_create p pl = record {
  pattern = p;
  pattern_len = pl;
  bm_bc = pre_bm_bc p pl;
  bm_gs = pre_bm_gs p pl;
}

-- The for loop of the search, from `i + 1` down: 0 where all bytes are the same.
pub scan : Bytes → Bytes → ℕ → ℕ → ℕ
scan p t j zero = zero
scan p t j (suc i) = let rest = scan p t j i in if p i == t (i + j) then rest else suc i

-- The while loop of the search, with `fuel` rounds at most, none where they do not suffice.
pub search_loop : ℕ → BmCtx → Bytes → ℕ → ℕ → Option (Option ℕ)
unfolding scan
search_loop zero c t tl j = none
search_loop (suc fuel) c t tl j =
    let next = λ (i : ℕ).
      search_loop fuel c t tl
        (j + max_shift (c.bm_gs i) (c.bm_bc (t (i + j)) + 1 + i - c.pattern_len)) in
    if leb (j + c.pattern_len) tl
    then elim (scan c.pattern t j c.pattern_len) [ zero ↦ some (some j) | suc i ↦ next i ]
    else some none

-- neb_str_bm_ctx_search; the offset of the match, or none for NULL.
pub ctx_search : ℕ → BmCtx → Bytes → ℕ → Option (Option ℕ)
unfolding search_loop
ctx_search fuel c t tl = if ltb tl c.pattern_len then some none else search_loop fuel c t tl 0

-- neb_str_bm_search
unfoldable pub bm_search : ℕ → Bytes → ℕ → Bytes → ℕ → Option (Option ℕ)
unfolding search_loop pre_bm_gs pre_bm_bc
bm_search fuel p pl t tl =
    if ltb tl pl
    then some none
    else search_loop fuel
        (record { pattern = p; pattern_len = pl; bm_bc = pre_bm_bc p pl; bm_gs = pre_bm_gs p pl }) t
        tl 0
