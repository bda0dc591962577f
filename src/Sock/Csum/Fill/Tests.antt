-- ===== src/Sock/Csum/Fill/Tests.antt =====
-- Checksums of src/sock/csum.c on concrete packets, and its theorems at such packets.
use nebase.Base.{ℕ, ◌+◌, ◌≡◌, refl, arith, List, [], ◌∷◌, some}
use nebase.Sock.Csum.{
  little, big, from32to16, sum_quads, sum_half, sum_blocks, sum_pair, sum_byte, sum_long, sum_body,
  swap_bytes, do_csum,
}
use nebase.Sock.Csum.Words.{sum_words, ones_sum}
use nebase.Sock.Csum.Sum.{do_csum-eq-ones_sum}
use nebase.Sock.Csum.Fill.Receiver.{pseudo4, tcp4_fill-IsAccepted}
use nebase.Sock.Csum.Fill.{Quad, In6Addr, ip_fast_csum, put_field, ip4_fill, tcp4_fill, th_sum}

abbrev echo_request : List ℕ
echo_request = 8 ∷ 0 ∷ 0 ∷ 0 ∷ 0x12 ∷ 0x34 ∷ 0 ∷ 1 ∷ 0x61 ∷ 0x62 ∷ 0x63 ∷ []

abbrev ip_header : List ℕ
ip_header =
    0x45 ∷ 0 ∷ 0 ∷ 0x73 ∷ 0 ∷ 0 ∷ 0x40 ∷ 0 ∷ 0x40 ∷ 0x11 ∷ 0xb8 ∷ 0x61 ∷ 0xc0 ∷ 0xa8 ∷ 0 ∷ 1 ∷ 0xc0
    ∷ 0xa8 ∷ 0 ∷ 0xc7 ∷ []

abbrev segment : List ℕ
segment =
    0x04 ∷ 0xd2 ∷ 0 ∷ 80 ∷ 0 ∷ 0 ∷ 0 ∷ 1 ∷ 0 ∷ 0 ∷ 0 ∷ 0 ∷ 0x50 ∷ 2 ∷ 0xff ∷ 0xff ∷ 1 ∷ 2 ∷ 0 ∷ 0
    ∷ []

abbrev host : ℕ → Quad
host n = record { b0 = 192; b1 = 168; b2 = 0; b3 = n }

abbrev host6 : In6Addr
host6 = record { q0 = host 9; q1 = host 8; q2 = host 7; q3 = host 6 }

-- The header's own checksum, 0xb861, comes back in either byte order, from an odd address too.
ip_header_summed :
    (ip4_fill little 1000 ip_header 5 ≡ some ip_header)
    × (ip4_fill big 1003 ip_header 5 ≡ some ip_header)
unfolding ip4_fill ip_fast_csum put_field do_csum sum_body from32to16 sum_quads sum_half sum_blocks
    sum_pair sum_byte sum_long swap_bytes
ip_header_summed = (refl, refl)

past_end : do_csum little 0 (1 ∷ 2 ∷ 3 ∷ []) 4 ≡ some 0 → ⊥
unfolding do_csum sum_body sum_quads sum_half sum_blocks sum_pair sum_byte sum_long
past_end h = cc

do_csum-eq-ones_sum_example :
    do_csum little 1001 echo_request 11 ≡ some (ones_sum (sum_words little 11 echo_request))
do_csum-eq-ones_sum_example =
    do_csum-eq-ones_sum little 1001 11 echo_request (omega arith) (omega arith)

tcp4_fill-IsAccepted_example :
    (out : List ℕ) × (tcp4_fill little 1002 (host 1) (host 2) segment 20 ≡ some out)
    × (ones_sum (sum_words little (20 + 12) (pseudo4 (host 1) (host 2) 20 out)) ≡ 65535)
    × (put_field little th_sum 0 out ≡ put_field little th_sum 0 segment)
tcp4_fill-IsAccepted_example =
    tcp4_fill-IsAccepted little 1002 20 (host 1) (host 2) segment (omega arith) (omega arith)
      (omega arith) (omega arith) (omega arith) (omega arith)
