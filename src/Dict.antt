-- ===== src/Dict.antt =====
-- dict/OpenDict.h and dict/OpenDict.cc: the dictionary, clustered hashing with open addressing. This
-- file has its state: an entry, an iteration cookie and the dictionary itself. The operations are in
-- Math (bucket math), Cluster (cluster math), Relocate (moves of entries), Remap, Lookup, Update
-- (Insert, Remove, Clear) and Iterate; each has the proofs about it below it.
-- An `int` that the code compares and never lets run below -1 is an `Option ℕ`, with `none` for -1.
pub mod Math
pub mod Cluster
pub mod Relocate
pub mod Remap
pub mod Lookup
pub mod Update
pub mod Contents
pub mod Checks
pub mod Iterate
pub mod Tests
pub mod Examples
use zeek_snippets.Prelude.{
  ℕ, zero, suc, ◌+◌, ◌%◌, ◌^◌, Bool, true, false, ◌&&◌, List, [], ◌∷◌, Option, none, some, length,
  get_elem?, set, take, ltb, ◌==◌, if◌then◌else◌,
}
use zeek_snippets.Run.{Run, ok, fault, out_of_bounds, ◌>>=◌, cell}

abbrev pub too_far_to_reach : ℕ
too_far_to_reach = 0xFFFF

-- `key` holds the bytes, wherever they are stored; `value` is an address, 0 for the null pointer.
pub record DictEntry : Type 0 where
  pub distance : ℕ
  pub key_size : ℕ
  pub hash : ℕ
  pub value : ℕ
  pub key : List ℕ

-- The constructor: the conversions to uint16_t and uint32_t.
unfoldable pub make_entry : List ℕ → ℕ → ℕ → ℕ → ℕ → DictEntry
make_entry key key_size hash value distance = record {
  distance = distance % 2 ^ 16;
  key_size = key_size % 2 ^ 16;
  hash = hash % 2 ^ 32;
  value = value;
  key = key;
}

unfoldable pub is_empty : DictEntry → Bool
is_empty e = e.distance == too_far_to_reach

unfoldable pub set_empty : DictEntry → DictEntry
set_empty e = record e { distance = too_far_to_reach }

-- `memcmp` is 0
unfoldable pub same_bytes : List ℕ → List ℕ → Bool
same_bytes [] [] = true
same_bytes [] (y ∷ ys) = false
same_bytes (x ∷ xs) [] = false
same_bytes (x ∷ xs) (y ∷ ys) = x == y && same_bytes xs ys

-- The low 32 bits of the hashes, the sizes, and the bytes.
unfoldable pub equal : DictEntry → List ℕ → ℕ → ℕ → Bool
equal e arg_key arg_key_size arg_hash =
    (e.hash % 2 ^ 32 == arg_hash % 2 ^ 32)
    && (e.key_size == arg_key_size && same_bytes (take e.key_size e.key) (take e.key_size arg_key))

-- `operator==`
unfoldable pub same_entry : DictEntry → DictEntry → Bool
same_entry e r = equal e r.key r.key_size r.hash

-- `id` names the cookie object; `next` is -1 until the iteration starts.
pub record IterCookie : Type 0 where
  pub id : ℕ
  pub robust : Bool
  pub next : Option ℕ
  pub inserted : List DictEntry
  pub visited : List DictEntry

-- `table` is `none` for the null pointer, and so are `order`, and `cookies`, the robust ones.
-- `delete_func` says whether a function is set. `remap_end` is -1 if no remap is going on.
pub record Dictionary : Type 0 where
  pub remaps : ℕ
  pub log2_buckets : ℕ
  pub num_iterators : ℕ
  pub remap_end : Option ℕ
  pub num_entries : ℕ
  pub max_entries : ℕ
  pub cum_entries : ℕ
  pub delete_func : Bool
  pub table : Option (List DictEntry)
  pub cookies : Option (List IterCookie)
  pub order : Option (List DictEntry)

unfoldable pub remapping : Dictionary → Bool
remapping d = elim d.remap_end [ none ↦ false | some _ ↦ true ]

-- table[i]
unfoldable pub entry_at : Dictionary → ℕ → Run DictEntry
entry_at d i = do t ← cell d.table; cell (get_elem? t i)

-- table[i] = e
unfoldable pub write_at : Dictionary → ℕ → DictEntry → Run Dictionary
write_at d i e = do
  t ← cell d.table
  if ltb i (length t) then ok (record d { table = some (set t i e) }) else fault out_of_bounds
