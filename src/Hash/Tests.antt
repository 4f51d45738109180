-- ===== src/Hash/Tests.antt =====
-- Examples of what is proved of the keys of dict/Hash.cc.
use zeek_snippets.Prelude.{refl, ◌≡◌, false, [], ◌∷◌, some, arith}
use zeek_snippets.Run.{Returns, ok, fault, out_of_bounds}
use zeek_snippets.Hash.{Memory, HashKey, bytes_at, of_value, hash_bytes, destroy, take_key}
use zeek_snippets.Hash.Take.{IsKey, Taken, take_key-Taken}

-- A key from a value of two bytes, which are in its member `key_u`.
abbrev one_key : Memory
one_key = some (1 ∷ 2 ∷ []) ∷ []

abbrev from_value : HashKey
from_value = record { key_u = 0; key = 0; is_our_dynamic = false; size = 2; hash = 5 }

made : of_value (λ bytes. 5) (λ bytes. 6) [] (1 ∷ 2 ∷ []) ≡ ok (from_value, one_key)
unfolding of_value hash_bytes bytes_at
made = refl

-- The bytes of such a key end with it.
gone : bytes_at (destroy one_key from_value) 0 2 ≡ fault out_of_bounds
unfolding bytes_at destroy
gone = refl

from_value-IsKey : IsKey one_key from_value
from_value-IsKey = record { there = omega arith; apart = λ dynamic. cc }

take_key-Taken_example :
    Returns (Taken one_key from_value (1 ∷ 2 ∷ [])) (take_key one_key from_value)
unfolding bytes_at
take_key-Taken_example = take_key-Taken one_key from_value (1 ∷ 2 ∷ []) from_value-IsKey refl
