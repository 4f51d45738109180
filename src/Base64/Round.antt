-- ===== src/Base64/Round.antt =====
-- b64_pton reads what b64_ntop writes.
use zeek_snippets.Prelude.{
  ℕ, ◌+◌, ◌*◌, ◌/◌, ◌%◌, ◌^◌, ◌≤◌, ◌<◌, ◌≡◌, refl, ap, ◌∙◌, Bool, true, false, not, ◌&&◌, List, [],
  ◌∷◌, Option, some, length, get_or, ltb, ◌==◌, if◌then◌else◌, arith, every_below, every_below-inv,
}
use zeek_snippets.Base64.{
  Decoded, decoded, undecoded, pad, value_of, char_of, write_byte, no_room, pton_loop, b64_pton,
  quad, ntop_loop, expect_siz, b64_ntop,
}

-- b64_ntop writes what it promises: with the NUL, as many characters as the size that it asks for.
pub length-ntop_loop : (src : List ℕ) → length (ntop_loop src) + 1 ≡ expect_siz (length src)
unfolding ntop_loop quad expect_siz
length-ntop_loop [] = refl
length-ntop_loop (a ∷ []) = refl
length-ntop_loop (a ∷ b ∷ []) = refl
length-ntop_loop (a ∷ b ∷ c ∷ src) = omega (arith, length-ntop_loop src)

abbrev is_sound : ℕ → Bool
is_sound v = value_of (char_of v) == v && not (char_of v == pad)

sound_table : every_below is_sound 64 ≡ true
unfolding every_below value_of char_of get_or
sound_table = refl

value_of-char_of : (v : ℕ) → v < 64 → value_of (char_of v) ≡ v
value_of-char_of v h = ground (arith, every_below-inv is_sound 64 v h sound_table)

char_of-ne_pad : (v : ℕ) → v < 64 → (char_of v == pad) ≡ false
char_of-ne_pad v h = ground (arith, every_below-inv is_sound 64 v h sound_table)

value_of-pad : value_of pad ≡ 0
unfolding value_of get_or
value_of-pad = refl

-- The bits of the last character and of the one before it, behind the shift on 32 bits.
bits_low : (x v : ℕ) → v < 64 → (x * 2 ^ 6 % 2 ^ 32 + v) / 2 ^ 4 % 2 ^ 8 ≡ x % 64 * 4 + v / 16
bits_low x v h = omega arith

bits_middle : (x v : ℕ) → v < 64 → (x * 2 ^ 6 % 2 ^ 32 + v) / 2 ^ 2 % 2 ^ 8 ≡ x % 16 * 16 + v / 4
bits_middle x v h = omega arith

bits_high : (x v : ℕ) → v < 64 → (x * 2 ^ 6 % 2 ^ 32 + v) % 2 ^ 8 ≡ x % 4 * 64 + v
bits_high x v h = omega arith

write_byte-congr :
    (a b : ℕ) (rest : Decoded) → a % 2 ^ 8 ≡ b % 2 ^ 8 → write_byte a rest ≡ write_byte b rest
unfolding write_byte
write_byte-congr a b (undecoded bytes) same = rw same refl
write_byte-congr a b (decoded bytes) same = rw same refl

write_byte-byte :
    (a b : ℕ) (bytes : List ℕ) → a % 2 ^ 8 ≡ b → write_byte a (decoded bytes) ≡ decoded (b ∷ bytes)
unfolding write_byte
write_byte-byte a b bytes same = rw same refl

module _ (isspace : ℕ → Bool) (dst : Option ℕ)
    (letter : (v : ℕ) → v < 64 → isspace (char_of v) ≡ false) (sign : isspace pad ≡ false) where
  -- A letter of the alphabet at `dst[k]`.
  step :
      (v : ℕ) (src : List ℕ) (j k val3 : ℕ)
      → v < 64
      → no_room dst k ≡ false
      → pton_loop isspace dst (char_of v ∷ src) j k val3 ≡ (
          let x = val3 + v in
          let shifted = x * 2 ^ 6 % 2 ^ 32 in
          let same = pton_loop isspace dst src (j + 1) k shifted in
          let next = pton_loop isspace dst src (j + 1) (k + 1) shifted in
          if j % 4 == 1
          then write_byte (x / 2 ^ 4) next
          else if j % 4 == 2
          then write_byte (x / 2 ^ 2) next
          else if j % 4 == 3
          then write_byte x next
          else same)
  unfolding pton_loop
  step v src j k val3 h room =
      let valid : (v == 0xff) ≡ false = ground arith in
      rw (letter v h, value_of-char_of v h, valid, char_of-ne_pad v h, room) refl

  step_pad :
      (src : List ℕ) (j k val3 : ℕ)
      → pton_loop isspace dst (pad ∷ src) j k val3
        ≡ pton_loop isspace dst src (j + 1) k ((val3 + 0) * 2 ^ 6 % 2 ^ 32)
  unfolding pton_loop
  step_pad src j k val3 = rw (sign, value_of-pad) refl

  abbrev shift : ℕ → ℕ → ℕ
  shift val3 v = (val3 + v) * 2 ^ 6 % 2 ^ 32

  first_letter :
      (v : ℕ) (src : List ℕ) (j k val3 : ℕ)
      → v < 64
      → no_room dst k ≡ false
      → j % 4 ≡ 0
      → pton_loop isspace dst (char_of v ∷ src) j k val3
        ≡ pton_loop isspace dst src (j + 1) k (shift val3 v)
  first_letter v src j k val3 h room at = step v src j k val3 h room ∙ rw at refl

  second_letter :
      (v : ℕ) (src : List ℕ) (j k val3 : ℕ)
      → v < 64
      → no_room dst k ≡ false
      → j % 4 ≡ 1
      → pton_loop isspace dst (char_of v ∷ src) j k val3
        ≡ write_byte ((val3 + v) / 2 ^ 4) (pton_loop isspace dst src (j + 1) (k + 1) (shift val3 v))
  second_letter v src j k val3 h room at = step v src j k val3 h room ∙ rw at refl

  third_letter :
      (v : ℕ) (src : List ℕ) (j k val3 : ℕ)
      → v < 64
      → no_room dst k ≡ false
      → j % 4 ≡ 2
      → pton_loop isspace dst (char_of v ∷ src) j k val3
        ≡ write_byte ((val3 + v) / 2 ^ 2) (pton_loop isspace dst src (j + 1) (k + 1) (shift val3 v))
  third_letter v src j k val3 h room at = step v src j k val3 h room ∙ rw at refl

  fourth_letter :
      (v : ℕ) (src : List ℕ) (j k val3 : ℕ)
      → v < 64
      → no_room dst k ≡ false
      → j % 4 ≡ 3
      → pton_loop isspace dst (char_of v ∷ src) j k val3
        ≡ write_byte (val3 + v) (pton_loop isspace dst src (j + 1) (k + 1) (shift val3 v))
  fourth_letter v src j k val3 h room at = step v src j k val3 h room ∙ rw at refl

  abbrev IsBytes : List ℕ → Type 0
  IsBytes [] = Unit {0}
  IsBytes (a ∷ src) = (a < 256) × IsBytes src

  two_letters :
      (v w : ℕ) (src : List ℕ) (j k val3 : ℕ)
      → v < 64
      → w < 64
      → no_room dst k ≡ false
      → j % 4 ≡ 0
      → val3 % 64 ≡ 0
      → pton_loop isspace dst (char_of v ∷ char_of w ∷ src) j k val3
        ≡ write_byte
            (v * 4 + w / 16)
            (pton_loop isspace dst src (j + 1 + 1) (k + 1) (shift (shift val3 v) w))
  two_letters v w src j k val3 hv hw room at low =
      first_letter v (char_of w ∷ src) j k val3 hv room at
      ∙ second_letter w src (j + 1) k (shift val3 v) hw room (omega arith)
      ∙ write_byte-congr _ _ _ (omega (arith, bits_low (val3 + v) w hw))

  -- The end of the string at the end of a group.
  pton_loop-end :
      (j k val3 : ℕ) → j % 4 ≡ 0 → pton_loop isspace dst [] (j + 1 + 1 + 1 + 1) k val3 ≡ decoded []
  unfolding pton_loop
  pton_loop-end j k val3 at = ground arith

  -- The loop of b64_pton at the start of a group, over what b64_ntop writes.
  pton_loop-ntop_loop :
      (src : List ℕ) (j k val3 : ℕ)
      → IsBytes src
      → j % 4 ≡ 0
      → val3 % 64 ≡ 0
      → ((i : ℕ) → k ≤ i → i < k + length src → no_room dst i ≡ false)
      → pton_loop isspace dst (ntop_loop src) j k val3 ≡ decoded src
  unfolding ntop_loop quad
  pton_loop-ntop_loop [] j k val3 bytes at low room = unfold pton_loop in rw at refl
  pton_loop-ntop_loop (a ∷ []) j k val3 (byte, u) at low room =
      let v = a * 2 ^ 16 / 2 ^ 18 % 2 ^ 6 in
      let w = a * 2 ^ 16 / 2 ^ 12 % 2 ^ 6 in
      two_letters v w (pad ∷ pad ∷ []) j k val3 (omega arith) (omega arith)
        (room k (omega arith) (omega arith)) at low
      ∙ ap (write_byte (v * 4 + w / 16))
          (step_pad _ _ _ _ ∙ step_pad _ _ _ _ ∙ pton_loop-end j _ _ at)
      ∙ write_byte-byte _ a [] (omega arith)
  pton_loop-ntop_loop (a ∷ b ∷ []) j k val3 (byte_a, (byte_b, u)) at low room =
      let bit24 = a * 2 ^ 16 + b * 2 ^ 8 in
      let v = bit24 / 2 ^ 18 % 2 ^ 6 in
      let w = bit24 / 2 ^ 12 % 2 ^ 6 in
      let x = bit24 / 2 ^ 6 % 2 ^ 6 in
      let s = shift val3 v in
      two_letters v w (char_of x ∷ pad ∷ []) j k val3 (omega arith) (omega arith)
        (room k (omega arith) (omega arith)) at low
      ∙ ap (write_byte (v * 4 + w / 16)) (
          third_letter x (pad ∷ []) (j + 1 + 1) (k + 1) (shift s w) (omega arith)
            (room (k + 1) (omega arith) (omega arith)) (omega arith)
          ∙ ap (write_byte ((shift s w + x) / 2 ^ 2)) (step_pad _ _ _ _ ∙ pton_loop-end j _ _ at)
          ∙ write_byte-byte _ b [] (omega (arith, bits_middle (s + w) x (omega arith))))
      ∙ write_byte-byte _ a (b ∷ []) (omega arith)
  pton_loop-ntop_loop (a ∷ b ∷ c ∷ src) j k val3 (byte_a, (byte_b, (byte_c, bytes))) at low room =
      let bit24 = a * 2 ^ 16 + b * 2 ^ 8 + c in
      let v = bit24 / 2 ^ 18 % 2 ^ 6 in
      let w = bit24 / 2 ^ 12 % 2 ^ 6 in
      let x = bit24 / 2 ^ 6 % 2 ^ 6 in
      let y = bit24 % 2 ^ 6 in
      let s = shift val3 v in
      let s' = shift s w in
      two_letters v w (char_of x ∷ char_of y ∷ ntop_loop src) j k val3 (omega arith) (omega arith)
        (room k (omega arith) (omega arith)) at low
      ∙ ap (write_byte (v * 4 + w / 16)) (
          third_letter x (char_of y ∷ ntop_loop src) (j + 1 + 1) (k + 1) s' (omega arith)
            (room (k + 1) (omega arith) (omega arith)) (omega arith)
          ∙ ap (write_byte ((s' + x) / 2 ^ 2)) (
              fourth_letter y (ntop_loop src) (j + 1 + 1 + 1) (k + 1 + 1) (shift s' x) (omega arith)
                (room (k + 1 + 1) (omega arith) (omega arith)) (omega arith)
              ∙ ap (write_byte (shift s' x + y)) (
                  pton_loop-ntop_loop src (j + 1 + 1 + 1 + 1) (k + 1 + 1 + 1) (shift (shift s' x) y)
                    bytes (omega arith) (omega arith) (λ i p q. room i (omega arith) (omega arith)))
              ∙ write_byte-byte _ c src (omega (arith, bits_high (s' + x) y (omega arith))))
          ∙ write_byte-byte _ b (c ∷ src) (omega (arith, bits_middle (s + w) x (omega arith))))
      ∙ write_byte-byte _ a (b ∷ c ∷ src) (omega arith)

  -- For bytes, a target that is large enough and a `dst` that is null or large enough, where the
  -- characters of the alphabet and `=` are no spaces: b64_ntop returns, with the NUL, as many
  -- characters as the size that it asks for, and b64_pton gives the bytes back.
  pub b64_pton-b64_ntop :
      (src : List ℕ) (target_size : ℕ)
      → IsBytes src
      → ((i : ℕ) → i < length src → no_room dst i ≡ false)
      → expect_siz (length src) ≤ target_size
      → (target : List ℕ) × (b64_ntop src target_size ≡ some target)
        × (length target + 1 ≡ expect_siz (length src))
        × (b64_pton isspace dst target ≡ decoded src)
  unfolding b64_ntop b64_pton
  b64_pton-b64_ntop src target_size bytes room large =
      let enough : ltb target_size (expect_siz (length src)) ≡ false = ground arith in
      (
        ntop_loop src,
        rw enough refl,
        length-ntop_loop src,
        pton_loop-ntop_loop src 0 0 0 bytes refl refl (λ i p q. room i (omega arith)),
      )
