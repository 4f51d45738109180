-- ===== src/ConnKey/Tests.antt =====
-- The order of ordered_map.cpp at concrete keys.
use zeek_snippets.Prelude.{◌≡◌, refl, true, arith}
use zeek_snippets.ConnKey.{ConnIdKey, new_key, memcmp_lt, less, assign}
use zeek_snippets.ConnKey.Order.{less-same, less-both}

-- The ports of the first key of `main`, and the same ports the other way round.
abbrev key1 : ConnIdKey
key1 = record new_key { port1 = 13568; port2 = 22420 }

abbrev key2 : ConnIdKey
key2 = record new_key { port1 = 22420; port2 = 13568 }

both_below : (less key1 key2 ≡ true) × (less key2 key1 ≡ true)
unfolding new_key
both_below = less-both key1 key2 (omega arith) (omega arith)

less-same_example : assign key2 key1 ≡ key1
unfolding new_key assign less memcmp_lt
less-same_example = less-same (assign key2 key1) key1 refl refl refl refl
