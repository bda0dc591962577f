-- ===== src/Sock/Csum.antt =====
-- src/sock/csum.c: the Internet checksum. A buffer is the list of the bytes from a pointer on,
-- with the pointer's address, since the code aligns its reads; a read past the end has no result.
pub mod Words
pub mod Steps
pub mod Sum
pub mod Fill
use nebase.Base.{
  ℕ, zero, suc, ◌+◌, ◌-◌, ◌*◌, ◌/◌, ◌%◌, ◌^◌, List, [], ◌∷◌, Option, none, some, ◌>>=◌, ltb, leb,
  ◌==◌, if◌then◌else◌, u16, u32, low_bits, ◌<<<◌, ◌>>>◌, bit_or,
}

-- BYTE_ORDER
pub data ByteOrder : Type 0 where
  little big : ByteOrder

-- *(unsigned short *) and *(unsigned int *) of the bytes at a pointer.
abbrev pub word16 : ByteOrder → ℕ → ℕ → ℕ
word16 little a b = a + b * 2 ^ 8
word16 big a b = a * 2 ^ 8 + b

abbrev pub word32 : ByteOrder → ℕ → ℕ → ℕ → ℕ → ℕ
word32 little a b c d = word16 little a b + word16 little c d * 2 ^ 16
word32 big a b c d = word16 big a b * 2 ^ 16 + word16 big c d

-- A read through the pointer, and the pointer moved behind what was read.
abbrev pub read8 : List ℕ → Option (ℕ × List ℕ)
read8 [] = none
read8 (a ∷ rest) = some (a, rest)

abbrev pub read16 : ByteOrder → List ℕ → Option (ℕ × List ℕ)
read16 o [] = none
read16 o (a ∷ []) = none
read16 o (a ∷ b ∷ rest) = some (word16 o a b, rest)

abbrev pub read32 : ByteOrder → List ℕ → Option (ℕ × List ℕ)
read32 o [] = none
read32 o (a ∷ []) = none
read32 o (a ∷ b ∷ []) = none
read32 o (a ∷ b ∷ c ∷ []) = none
read32 o (a ∷ b ∷ c ∷ d ∷ rest) = some (word32 o a b c d, rest)

pub from32to16 : ℕ → ℕ
from32to16 x = let y = u32 (low_bits x 16 + (x >>> 16)) in u16 (u32 (low_bits y 16 + (y >>> 16)))

-- The do-while loop over four bytes at a time, with the rounds left, and the statements behind it.
pub sum_quads : ByteOrder → ℕ → List ℕ → ℕ → ℕ → Option (ℕ × List ℕ)
sum_quads o zero buff result carry =
    let total = u32 (result + carry) in some (u32 (low_bits total 16 + (total >>> 16)), buff)
sum_quads o (suc rounds) buff result carry = do
  (w, rest) ← read32 o buff
  let result' = u32 (u32 (result + carry) + w)
  sum_quads o rounds rest result' (if ltb result' w then 1 else 0)

-- if (2 & (unsigned long) buff) { ... }: the value is the pointer, `len` and `result`.
pub sum_half : ByteOrder → ℕ → List ℕ → ℕ → ℕ → Option (List ℕ × ℕ × ℕ)
sum_half o addr buff len result =
    if low_bits (addr >>> 1) 1 == 1
    then (do (w, rest) ← read16 o buff; some (rest, len - 2, u32 (result + w)))
    else some (buff, len, result)

-- if (len >= 4) { ... }
pub sum_blocks : ByteOrder → List ℕ → ℕ → ℕ → Option (ℕ × List ℕ)
sum_blocks o buff len result =
    if leb 4 len then sum_quads o (len >>> 2) buff result 0 else some (result, buff)

-- if (len & 2) { ... }
pub sum_pair : ByteOrder → List ℕ → ℕ → ℕ → Option (ℕ × List ℕ)
sum_pair o buff len result =
    if low_bits (len >>> 1) 1 == 1
    then (do (w, rest) ← read16 o buff; some (u32 (result + w), rest))
    else some (result, buff)

-- if (len & 1) ...
pub sum_byte : ByteOrder → List ℕ → ℕ → ℕ → Option ℕ
sum_byte o buff len result =
    if low_bits len 1 == 1
    then (do (b, rest) ← read8 buff; some (u32 (result + word16 o b 0)))
    else some result

-- if (len >= 2) { ... }
pub sum_long : ByteOrder → ℕ → List ℕ → ℕ → ℕ → Option (List ℕ × ℕ × ℕ)
sum_long o addr buff len result =
    if leb 2 len
    then (do
      (buff1, len1, result1) ← sum_half o addr buff len result
      (result2, buff2) ← sum_blocks o buff1 len1 result1
      (result3, buff3) ← sum_pair o buff2 len1 result2
      some (buff3, len1, result3))
    else some (buff, len, result)

-- From the odd byte on to the last fold.
pub sum_body : ByteOrder → ℕ → List ℕ → ℕ → ℕ → Option ℕ
sum_body o addr buff len result = do
  (buff1, len1, result1) ← sum_long o addr buff len result
  total ← sum_byte o buff1 len1 result1
  some (from32to16 total)

pub swap_bytes : ℕ → ℕ
swap_bytes result = bit_or (low_bits (result >>> 8) 8) (low_bits result 8 <<< 8)

-- A length that is not positive gives 0; it is the length 0 here.
pub do_csum : ByteOrder → ℕ → List ℕ → ℕ → Option ℕ
do_csum o addr buff len =
    if len == 0
    then some 0
    else if low_bits addr 1 == 1
    then (do
      (b, rest) ← read8 buff
      result ← sum_body o (addr + 1) rest (len - 1) (u32 (word16 o 0 b))
      some (swap_bytes result))
    else sum_body o addr buff len 0
