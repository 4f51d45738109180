-- ===== src/Base64/Bounds.antt =====
-- The bound that b64_pton of sha256-ssh-key-hashing.cc keeps.
use zeek_snippets.Prelude.{
  ℕ, ◌+◌, ◌-◌, ◌*◌, ◌/◌, ◌%◌, ◌^◌, ◌≤◌, ◌≡◌, refl, subst, Bool, true, false, List, [], ◌∷◌, some,
  length, leb, ◌==◌, if◌then◌else◌, arith,
}
use zeek_snippets.Base64.{
  Decoded, decoded, undecoded, pad, value_of, write_byte, no_room, pton_loop, b64_pton,
}

-- At most `n` bytes are written, whether the run returns their number or -1.
pub data AtMost (n : ℕ) : Decoded → Type 0 where
  failed : {out : List ℕ} → length out ≤ n → AtMost n (undecoded out)
  bytes : {out : List ℕ} → length out ≤ n → AtMost n (decoded out)

AtMost-if :
    {n : ℕ} {x y : Decoded} (test : Bool)
    → (test ≡ true → AtMost n x)
    → (test ≡ false → AtMost n y)
    → AtMost n (if test then x else y)
AtMost-if true on off = on refl
AtMost-if false on off = off refl

write_byte-AtMost :
    (n byte : ℕ) {rest : Decoded} → AtMost n rest → AtMost (n + 1) (write_byte byte rest)
unfolding write_byte
write_byte-AtMost n byte (failed small) = failed (omega arith)
write_byte-AtMost n byte (bytes small) = bytes (omega arith)

pton_loop-AtMost :
    (isspace : ℕ → Bool) (dstsiz : ℕ) (src : List ℕ) (j k val3 : ℕ)
    → k ≤ dstsiz
    → AtMost (dstsiz - k) (pton_loop isspace (some dstsiz) src j k val3)
unfolding pton_loop no_room
pton_loop-AtMost isspace dstsiz [] j k val3 room =
    AtMost-if (j % 4 == 0) (λ e. bytes (omega arith)) (λ e. failed (omega arith))
pton_loop-AtMost isspace dstsiz (c ∷ src) j k val3 room =
    let x = val3 + value_of c in
    let shifted = x * 2 ^ 6 % 2 ^ 32 in
    let same = pton_loop-AtMost isspace dstsiz src (j + 1) k shifted room in
    let more : (byte : ℕ)
        → leb dstsiz k ≡ false
        → AtMost (dstsiz - k)
            (write_byte byte (pton_loop isspace (some dstsiz) src (j + 1) (k + 1) shifted)) =
      λ byte free.
        let left : dstsiz - (k + 1) + 1 ≡ dstsiz - k = ground arith in
        subst
          (λ n.
            AtMost n
              (write_byte byte (pton_loop isspace (some dstsiz) src (j + 1) (k + 1) shifted)))
          left
          (write_byte-AtMost (dstsiz - (k + 1)) byte
            (pton_loop-AtMost isspace dstsiz src (j + 1) (k + 1) shifted (ground arith))) in
    AtMost-if (isspace c) (λ e. pton_loop-AtMost isspace dstsiz src j k val3 room)
      λ e₁.
        AtMost-if (value_of c == 0xff) (λ e. failed (omega arith))
          λ e₂.
            AtMost-if (c == pad) (λ e. same)
              λ e₃.
                AtMost-if (leb dstsiz k) (λ e. failed (omega arith))
                  λ free.
                    AtMost-if (j % 4 == 1) (λ e. more (x / 2 ^ 4) free)
                      λ e₄.
                        AtMost-if (j % 4 == 2) (λ e. more (x / 2 ^ 2) free)
                          λ e₅. AtMost-if (j % 4 == 3) (λ e. more x free) (λ e. same)

-- Whatever the string is, b64_pton with a `dst` of `dstsiz` bytes writes no more bytes than that,
-- whether it returns their number or -1.
pub b64_pton-AtMost :
    (isspace : ℕ → Bool) (dstsiz : ℕ) (src : List ℕ)
    → AtMost dstsiz (b64_pton isspace (some dstsiz) src)
unfolding b64_pton
b64_pton-AtMost isspace dstsiz src =
    let all : dstsiz - 0 ≡ dstsiz = omega arith in
    subst (λ n. AtMost n (pton_loop isspace (some dstsiz) src 0 0 0)) all
      (pton_loop-AtMost isspace dstsiz src 0 0 0 (omega arith))
