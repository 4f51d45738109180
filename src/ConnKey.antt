-- ===== src/ConnKey.antt =====
-- ordered_map.cpp: struct ConnIDKey and its operator<, the order of the keys of a std::map. The
-- printing in operator< and log is not modelled.
pub mod Order
pub mod Tests
use zeek_snippets.Prelude.{ℕ, Bool, true, false, ◌&&◌, ◌||◌, List, [], ◌∷◌, replicate, ltb, ◌==◌}

-- The addresses are the 16 bytes of an in6_addr.
pub record ConnIdKey : Type 0 where
  pub ip1 : List ℕ
  pub ip2 : List ℕ
  pub port1 : ℕ
  pub port2 : ℕ

-- ConnIDKey()
unfoldable pub new_key : ConnIdKey
new_key = record { ip1 = replicate 16 0; ip2 = replicate 16 0; port1 = 0; port2 = 0 }

-- `memcmp(...) < 0`
unfoldable pub memcmp_lt : List ℕ → List ℕ → Bool
memcmp_lt [] ys = false
memcmp_lt (x ∷ xs) [] = false
memcmp_lt (x ∷ xs) (y ∷ ys) = ltb x y || (x == y && memcmp_lt xs ys)

-- operator<
unfoldable pub less : ConnIdKey → ConnIdKey → Bool
less k rhs =
    ltb k.port1 rhs.port1
    || (ltb k.port2 rhs.port2 || (memcmp_lt k.ip1 rhs.ip1 || memcmp_lt k.ip2 rhs.ip2))

-- operator=
unfoldable pub assign : ConnIdKey → ConnIdKey → ConnIdKey
assign k rhs = record k { port1 = rhs.port1; port2 = rhs.port2; ip1 = rhs.ip1; ip2 = rhs.ip2 }
