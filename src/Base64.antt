-- ===== src/Base64.antt =====
-- sha256-ssh-key-hashing.cc: b64_pton and b64_ntop, Base64 as OpenSSH uses it. A string is the list of
-- its characters before the final NUL. Every `|=` sets bits that are 0 before it, so it is a sum.
pub mod Round
pub mod Bounds
pub mod Tests
use zeek_snippets.Prelude.{
  ℕ, zero, suc, ◌+◌, ◌-◌, ◌*◌, ◌/◌, ◌%◌, ◌^◌, Bool, true, false, List, [], ◌∷◌, ◌++◌, Option, none,
  some, length, get_or, replicate, ltb, leb, ◌==◌, if◌then◌else◌,
}

-- The character `=`.
abbrev pub pad : ℕ
pad = 61

-- `n` numbers from `first` on.
abbrev pub run_of : ℕ → ℕ → List ℕ
run_of zero first = []
run_of (suc n) first = first ∷ run_of n (first + 1)

-- The table of the values of the characters, row by row; 0xff is no value.
abbrev pub b64_tbl : List ℕ
b64_tbl =
    replicate 16 0xff
    ++ replicate 16 0xff
    ++ replicate 11 0xff
    ++ 0x3e ∷ 0xff ∷ 0xff ∷ 0xff ∷ 0x3f ∷ []
    ++ run_of 10 0x34
    ++ 0xff ∷ 0xff ∷ 0xff ∷ 0x00 ∷ 0xff ∷ 0xff ∷ []
    ++ 0xff ∷ run_of 15 0x00
    ++ run_of 11 0x0f
    ++ replicate 5 0xff
    ++ 0xff ∷ run_of 15 0x1a
    ++ run_of 11 0x29
    ++ replicate 5 0xff
    ++ replicate 128 0xff

-- A to Z, a to z, 0 to 9, + and /.
abbrev pub b64str : List ℕ
b64str = run_of 26 65 ++ run_of 26 97 ++ run_of 10 48 ++ 43 ∷ 47 ∷ []

unfoldable pub value_of : ℕ → ℕ
value_of c = get_or b64_tbl c 0xff

unfoldable pub char_of : ℕ → ℕ
char_of v = get_or b64str v 0

-- How a run of b64_pton ends, with the bytes that it has written from `dst[k]` on: it returns their
-- number, or -1, and then the bytes stay in `dst`.
pub data Decoded : Type 0 where
  decoded undecoded : List ℕ → Decoded

-- `dst[k] = byte; k++`, with what the rest of the string gives.
unfoldable pub write_byte : ℕ → Decoded → Decoded
write_byte byte (decoded bytes) = decoded (byte % 2 ^ 8 ∷ bytes)
write_byte byte (undecoded bytes) = undecoded (byte % 2 ^ 8 ∷ bytes)

-- `dst != NULL && k >= dstsiz`; `none` is a null `dst`.
unfoldable pub no_room : Option ℕ → ℕ → Bool
no_room none k = false
no_room (some dstsiz) k = leb dstsiz k

module _ (isspace : ℕ → Bool) (dst : Option ℕ) where
  -- The loop of b64_pton, with what is written from `dst[k]` on.
  unfoldable pub pton_loop : List ℕ → ℕ → ℕ → ℕ → Decoded
  pton_loop [] j k val3 = if j % 4 == 0 then decoded [] else undecoded []
  pton_loop (c ∷ src) j k val3 =
      let skip = pton_loop src j k val3 in
      let v = val3 + value_of c in
      let shifted = v * 2 ^ 6 % 2 ^ 32 in
      let same = pton_loop src (j + 1) k shifted in
      let next = pton_loop src (j + 1) (k + 1) shifted in
      if isspace c
      then skip
      else if value_of c == 0xff
      then undecoded []
      else if c == pad
      then same
      else if no_room dst k
      then undecoded []
      else if j % 4 == 1
      then write_byte (v / 2 ^ 4) next
      else if j % 4 == 2
      then write_byte (v / 2 ^ 2) next
      else if j % 4 == 3
      then write_byte v next
      else same

  -- b64_pton. If `dst` is null the bytes are counted and not written.
  unfoldable pub b64_pton : List ℕ → Decoded
  b64_pton src = pton_loop src 0 0 0

-- The four characters of a round of b64_ntop, with `more` bytes behind the first.
unfoldable pub quad : ℕ → ℕ → List ℕ
quad more bit24 =
    char_of (bit24 / 2 ^ 18 % 2 ^ 6)
    ∷ char_of (bit24 / 2 ^ 12 % 2 ^ 6)
    ∷ (if ltb 0 more then char_of (bit24 / 2 ^ 6 % 2 ^ 6) else pad)
    ∷ (if ltb 1 more then char_of (bit24 % 2 ^ 6) else pad)
    ∷ []

-- The loop of b64_ntop.
unfoldable pub ntop_loop : List ℕ → List ℕ
ntop_loop [] = []
ntop_loop (a ∷ []) = quad 0 (a * 2 ^ 16)
ntop_loop (a ∷ b ∷ []) = quad 1 (a * 2 ^ 16 + b * 2 ^ 8)
ntop_loop (a ∷ b ∷ c ∷ src) = quad 2 (a * 2 ^ 16 + b * 2 ^ 8 + c) ++ ntop_loop src

unfoldable pub expect_siz : ℕ → ℕ
expect_siz srclength = (srclength + 2) / 3 * 4 + 1

-- b64_ntop with a target: the characters before the NUL, whose number it returns, or -1. Without a
-- target it returns `expect_siz`.
unfoldable pub b64_ntop : List ℕ → ℕ → Option (List ℕ)
b64_ntop src target_size =
    if ltb target_size (expect_siz (length src)) then none else some (ntop_loop src)
