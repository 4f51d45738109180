-- ===== src/Dict/Math/Bounds.antt =====
-- Bounds of the bucket math of dict/OpenDict.cc.
use zeek_snippets.Prelude.{
  ℕ, zero, suc, ◌+◌, ◌-◌, ◌*◌, ◌/◌, ◌%◌, ◌^◌, ◌≤◌, ◌<◌, ◌≡◌, ◌⊎◌, inl, inr, Bool-cases, refl, sym,
  ap, ◌∙◌, true, false, arith, ◌==◌, ==_iff, subst, every_below, every_below-inv,
}
use native.Mathlib.Nat.{
  div-add-mod, add-mul-mod_self_left, mod-eq_of_lt, mod-lt, mul-div_cancel, pow-suc,
}
use zeek_snippets.Dict.Math.{fib_hash, bucket_by_hash}

-- The two shifts of a 64-bit word leave `bits` of its bits.
shifts_table : every_below (λ b. 2 ^ (64 - b) * 2 ^ b == 2 ^ 64) 65 ≡ true
unfolding every_below
shifts_table = refl

shifts : (bits : ℕ) → bits ≤ 64 → 2 ^ (64 - bits) * 2 ^ bits ≡ 2 ^ 64
shifts bits h = (==_iff _ _).0 (every_below-inv _ 65 bits (omega arith) shifts_table)

div_bound : (x m k : ℕ) → x < m * k → x / m < k
div_bound x m k h = grind arith

shifted_lt : (x bits : ℕ) → bits ≤ 64 → x % 2 ^ 64 / 2 ^ (64 - bits) < 2 ^ bits
shifted_lt x bits le =
    div_bound (x % 2 ^ 64) (2 ^ (64 - bits)) (2 ^ bits)
      (subst (λ n. x % 2 ^ 64 < n) (sym (shifts bits le)) (omega arith))

-- The bucket that a hash has in a table of 2 ^ bits buckets is one of them, for up to 64 bits.
pub bucket_by_hash-lt : (h bits : ℕ) → bits ≤ 64 → bucket_by_hash h bits < 2 ^ bits
unfolding bucket_by_hash
bucket_by_hash-lt h zero le = omega arith
bucket_by_hash-lt h (suc bits) le =
    let some_bits : (suc bits == 0) ≡ false = ground arith in
    rw some_bits (shifted_lt (fib_hash h * 2 ^ (64 - suc bits)) (suc bits) le)

spread : (k q r c : ℕ) → (k * q + r) * c ≡ r * c + k * c * q
spread k q r c = grind arith

mod_scaled : (x k c : ℕ) → 0 < k → 0 < c → x * c % (k * c) ≡ x % k * c
mod_scaled x k c some_k some_c =
    let whole : x * c ≡ x % k * c + k * c * (x / k) =
      ap (λ y. y * c) (sym (div-add-mod x k)) ∙ spread k (x / k) (x % k) c in
    let under : x % k < k = mod-lt x some_k in
    let small : x % k * c < k * c = grind (arith, under, some_c) in
    rw whole (add-mul-mod_self_left (x % k * c) (k * c) (x / k) ∙ mod-eq_of_lt small)

power_pos : (bits : ℕ) → 0 < 2 ^ bits
power_pos zero = omega arith
power_pos (suc bits) = omega (arith, pow-suc 2 bits, power_pos bits)

-- What is left of the word are its low bits: BucketByHash takes the low bits of the product and not
-- the high ones.
pub bucket_by_hash-mod : (h bits : ℕ) → bits ≤ 64 → bucket_by_hash h bits ≡ fib_hash h % 2 ^ bits
unfolding bucket_by_hash
bucket_by_hash-mod h zero le = omega arith
bucket_by_hash-mod h (suc bits) le =
    let some_bits : (suc bits == 0) ≡ false = ground arith in
    let m = 64 - suc bits in
    let c = 2 ^ m in
    let k = 2 ^ suc bits in
    let swapped : c * k ≡ k * c = grind arith in
    let word : 2 ^ 64 ≡ k * c = sym (shifts (suc bits) le) ∙ swapped in
    let scaled = mod_scaled (fib_hash h) k c (power_pos (suc bits)) (power_pos m) in
    rw some_bits (
      ap (λ w. fib_hash h * c % w / c) word
      ∙ ap (λ y. y / c) scaled
      ∙ mul-div_cancel (fib_hash h % k) (power_pos m))

halves : (m q r : ℕ) → m * (2 * q) + r ≡ r + m * 2 * q
halves m q r = grind arith

halves_odd : (m q r : ℕ) → m * (2 * q + 1) + r ≡ r + m + m * 2 * q
halves_odd m q r = grind arith

mod_double : (x m : ℕ) → 0 < m → (x % (m * 2) ≡ x % m) ⊎ (x % (m * 2) ≡ x % m + m)
mod_double x m some_m =
    let q = x / m in
    let r = x % m in
    let under : r < m = mod-lt x some_m in
    elim (Bool-cases (q % 2 == 0)) [
      | inl even ↦
          let twice : q ≡ 2 * (q / 2) = ground arith in
          let whole : x ≡ r + m * 2 * (q / 2) =
            sym (div-add-mod x m) ∙ ap (λ y. m * y + r) twice ∙ halves m (q / 2) r in
          inl (
            ap (λ y. y % (m * 2)) whole
            ∙ add-mul-mod_self_left r (m * 2) (q / 2)
            ∙ mod-eq_of_lt (omega arith))
      | inr odd ↦
          let twice : q ≡ 2 * (q / 2) + 1 = ground arith in
          let whole : x ≡ r + m + m * 2 * (q / 2) =
            sym (div-add-mod x m) ∙ ap (λ y. m * y + r) twice ∙ halves_odd m (q / 2) r in
          inr (
            ap (λ y. y % (m * 2)) whole
            ∙ add-mul-mod_self_left (r + m) (m * 2) (q / 2)
            ∙ mod-eq_of_lt (omega arith))
    ]

-- Doubling the number of buckets leaves a hash in its bucket, or moves it on by that number.
pub bucket_by_hash-double :
    (h bits : ℕ)
    → bits < 64
    → (bucket_by_hash h (suc bits) ≡ bucket_by_hash h bits)
      ⊎ (bucket_by_hash h (suc bits) ≡ bucket_by_hash h bits + 2 ^ bits)
bucket_by_hash-double h bits le =
    rw (bucket_by_hash-mod h bits (omega arith), bucket_by_hash-mod h (suc bits) le, pow-suc 2 bits)
      (mod_double (fib_hash h) (2 ^ bits) (power_pos bits))
