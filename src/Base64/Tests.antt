-- ===== src/Base64/Tests.antt =====
-- Runs of b64_pton and b64_ntop, and examples of what is proved of them.
use zeek_snippets.Prelude.{
  ℕ, ◌+◌, ◌<◌, ◌≡◌, refl, Bool, true, false, List, [], ◌∷◌, some, length, get_or, ◌==◌, ◌||◌, arith,
  every_below, every_below-inv, not,
}
use zeek_snippets.Base64.{
  decoded, undecoded, char_of, value_of, write_byte, no_room, pton_loop, b64_pton, quad, ntop_loop,
  expect_siz, b64_ntop,
}
use zeek_snippets.Base64.Round.{b64_pton-b64_ntop}
use zeek_snippets.Base64.Bounds.{AtMost, b64_pton-AtMost}

-- isspace of the C locale.
abbrev isspace : ℕ → Bool
isspace c = c == 32 || (c == 9 || (c == 10 || (c == 11 || (c == 12 || c == 13))))

-- "SGk=" is "Hi".
hi_encoded : b64_ntop (72 ∷ 105 ∷ []) 5 ≡ some (83 ∷ 71 ∷ 107 ∷ 61 ∷ [])
unfolding b64_ntop ntop_loop quad expect_siz char_of get_or
hi_encoded = refl

hi_decoded : b64_pton isspace (some 2) (83 ∷ 71 ∷ 32 ∷ 107 ∷ 61 ∷ []) ≡ decoded (72 ∷ 105 ∷ [])
unfolding b64_pton pton_loop write_byte no_room value_of get_or
hi_decoded = refl

-- b64_pton takes `=` for the value 0 wherever it stands: "=SGk" is no Base64, and gives three bytes.
pads_anywhere : b64_pton isspace (some 9) (61 ∷ 83 ∷ 71 ∷ 107 ∷ []) ≡ decoded (1 ∷ 33 ∷ 164 ∷ [])
unfolding b64_pton pton_loop write_byte no_room value_of get_or
pads_anywhere = refl

letters : every_below (λ v. not (isspace (char_of v))) 64 ≡ true
unfolding every_below char_of get_or
letters = refl

letters_no_space : (v : ℕ) → v < 64 → isspace (char_of v) ≡ false
letters_no_space v h =
    ground (arith, every_below-inv (λ v. not (isspace (char_of v))) 64 v h letters)

b64_pton-b64_ntop_example :
    (target : List ℕ) × (b64_ntop (72 ∷ 105 ∷ []) 5 ≡ some target)
    × (length target + 1 ≡ expect_siz 2)
    × (b64_pton isspace (some 2) target ≡ decoded (72 ∷ 105 ∷ []))
unfolding no_room expect_siz
b64_pton-b64_ntop_example =
    b64_pton-b64_ntop isspace (some 2) letters_no_space refl (72 ∷ 105 ∷ []) 5
      (omega arith, (omega arith, tt)) (λ i h. ground arith) (omega arith)

-- A target of two bytes is full when the third one is to be written: the two stay.
too_small : b64_pton isspace (some 2) (83 ∷ 71 ∷ 107 ∷ 65 ∷ []) ≡ undecoded (72 ∷ 105 ∷ [])
unfolding b64_pton pton_loop write_byte no_room value_of get_or
too_small = refl

b64_pton-AtMost_example : AtMost 2 (b64_pton isspace (some 2) (83 ∷ 71 ∷ 107 ∷ 65 ∷ []))
b64_pton-AtMost_example = b64_pton-AtMost isspace 2 (83 ∷ 71 ∷ 107 ∷ 65 ∷ [])
