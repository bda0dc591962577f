-- ===== src/Net/Ipaddr/Mask.antt =====
-- neb_netinet_fill_mask of src/net/ipaddr.c.
use nebase.Base.{
  ℕ, zero, suc, ◌+◌, ◌-◌, ◌*◌, ◌^◌, ◌<◌, ◌≤◌, ◌≡◌, refl, arith, ltb, low_bits, ◌<<<◌, true, false,
  List, [], ◌∷◌, ◌++◌, some, length, drop, replicate,
}
use nebase.Net.Ipaddr.{fill_mask}

-- A byte whose first `r` bits are set.
leading_ones : (r : ℕ) → r ≤ 8 → low_bits (255 <<< (8 - r)) 8 ≡ 256 - 2 ^ (8 - r)
leading_ones zero le = refl
leading_ones (suc zero) le = refl
leading_ones (suc (suc zero)) le = refl
leading_ones (suc (suc (suc zero))) le = refl
leading_ones (suc (suc (suc (suc zero)))) le = refl
leading_ones (suc (suc (suc (suc (suc zero))))) le = refl
leading_ones (suc (suc (suc (suc (suc (suc zero)))))) le = refl
leading_ones (suc (suc (suc (suc (suc (suc (suc zero))))))) le = refl
leading_ones (suc (suc (suc (suc (suc (suc (suc (suc zero)))))))) le = refl
leading_ones (suc (suc (suc (suc (suc (suc (suc (suc (suc r))))))))) le = absurd (omega arith)

-- A prefix of 8 * n + r bits, where r is 1 to 8, is filled in as n bytes 0xff and a byte whose
-- first r bits are set, as long as the address has the bytes; the bytes behind are left alone.
pub fill_mask_lem :
    (n r : ℕ) (addr : List ℕ)
    → n < length addr
    → 1 ≤ r
    → r ≤ 8
    → fill_mask addr (8 * n + r)
      ≡ some (replicate n 255 ++ ((256 - 2 ^ (8 - r)) ∷ drop (suc n) addr))
unfolding fill_mask
fill_mask_lem n r [] lt pos le = absurd (omega arith)
fill_mask_lem zero r (b ∷ addr) lt pos le =
    let e : 8 * 0 + r ≡ r = omega arith in
    let last : ltb 8 r ≡ false = ground arith in rw (e, last, leading_ones r le) refl
fill_mask_lem (suc n) r (b ∷ addr) lt pos le =
    let e : 8 * suc n + r - 8 ≡ 8 * n + r = omega arith in
    let more : ltb 8 (8 * suc n + r) ≡ true = ground arith in
    let ih = fill_mask_lem n r addr (omega arith) pos le in rw (e, more, ih) refl
