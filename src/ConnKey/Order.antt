-- ===== src/ConnKey/Order.antt =====
-- operator< of ConnIDKey in ordered_map.cpp against the order that a std::map asks for.
use zeek_snippets.Prelude.{ℕ, ◌<◌, ◌≡◌, refl, true, false, List, [], ◌∷◌, length, arith}
use zeek_snippets.ConnKey.{ConnIdKey, memcmp_lt, less}

memcmp_lt-same :
    (xs ys : List ℕ)
    → length xs ≡ length ys
    → memcmp_lt xs ys ≡ false
    → memcmp_lt ys xs ≡ false
    → xs ≡ ys
unfolding memcmp_lt
memcmp_lt-same [] [] size le ge = refl
memcmp_lt-same [] (y ∷ ys) size le ge = absurd (omega arith)
memcmp_lt-same (x ∷ xs) [] size le ge = absurd (omega arith)
memcmp_lt-same (x ∷ xs) (y ∷ ys) size le ge =
    let head : x ≡ y = ground (arith, le, ge) in
    let tail =
      memcmp_lt-same xs ys (omega arith) (ground (arith, le, ge)) (ground (arith, le, ge)) in
    cc

-- Two keys with addresses of the same lengths, of which neither is below the other, are the same key:
-- a map does not take one key for another.
pub less-same :
    (a b : ConnIdKey)
    → length a.ip1 ≡ length b.ip1
    → length a.ip2 ≡ length b.ip2
    → less a b ≡ false
    → less b a ≡ false
    → a ≡ b
unfolding less
less-same a b size1 size2 le ge =
    let ip1 = memcmp_lt-same a.ip1 b.ip1 size1 (ground (arith, le)) (ground (arith, ge)) in
    let ip2 = memcmp_lt-same a.ip2 b.ip2 size2 (ground (arith, le)) (ground (arith, ge)) in
    let port1 : a.port1 ≡ b.port1 = ground (arith, le, ge) in
    let port2 : a.port2 ≡ b.port2 = ground (arith, le, ge) in rw (ip1, ip2, port1, port2) refl

-- operator< is no strict weak order: where the first port is smaller and the second one larger, each
-- of the two keys is below the other.
pub less-both :
    (a b : ConnIdKey)
    → a.port1 < b.port1
    → b.port2 < a.port2
    → (less a b ≡ true) × (less b a ≡ true)
unfolding less
less-both a b lower higher = (ground (arith, lower), ground (arith, higher))
