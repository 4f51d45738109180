-- ===== src/Hash.antt =====
-- dict/Hash.h and dict/Hash.cc: HashKey, which may own the memory of its bytes. The memory is a list of
-- blocks: what `new` gives, what a caller has, and the member `key_u` of each key, which ends with the
-- key. The hash functions, which are not part of these files, are parameters.
pub mod Take
pub mod Tests
use zeek_snippets.Prelude.{
  ℕ, ◌*◌, Bool, true, false, List, [], ◌∷◌, ◌++◌, Option, none, some, length, get_elem?, set, take,
  leb, if◌then◌else◌,
}
use zeek_snippets.Run.{Run, ok, fault, out_of_bounds, ◌>>=◌, cell}

-- The address of a block is its number; a block that is deleted, or whose key is gone, is `none`.
abbrev pub Memory : Type 0
Memory = List (Option (List ℕ))

-- `key_u` is the address of the member of that name, which `key` may be too.
pub record HashKey : Type 0 where
  pub key_u : ℕ
  pub key : ℕ
  pub is_our_dynamic : Bool
  pub size : ℕ
  pub hash : ℕ

-- The first `size` bytes of the block, as `memcpy` reads them.
unfoldable pub bytes_at : Memory → ℕ → ℕ → Run (List ℕ)
bytes_at m p size = do
  b ← cell (get_elem? m p)
  bytes ← cell b
  if leb size (length bytes) then ok (take size bytes) else fault out_of_bounds

-- A new block, at the end of the memory: its address, and the memory with it.
abbrev pub new_block : Memory → List ℕ → ℕ × Memory
new_block m bytes = (length m, m ++ some bytes ∷ [])

-- CopyKey
unfoldable pub copy_key : Memory → ℕ → ℕ → Run (ℕ × Memory)
copy_key m k s = do bytes ← bytes_at m k s; ok (new_block m bytes)

-- The destructor: `key` is deleted if it is the key's own, and the members end.
unfoldable pub destroy : Memory → HashKey → Memory
destroy m h = set (if h.is_our_dynamic then set m h.key none else m) h.key_u none

-- TakeKey
unfoldable pub take_key : Memory → HashKey → Run (ℕ × Memory × HashKey)
take_key m h =
    let copied : Run (ℕ × Memory × HashKey) = (do
      (p, m') ← copy_key m h.key h.size
      ok (p, m', h)) in
    if h.is_our_dynamic then ok (h.key, m, record h { is_our_dynamic = false }) else copied

-- A key at `key` whose member `key_u` has no value.
unfoldable pub plain_key : Memory → ℕ → Bool → ℕ → ℕ → HashKey × Memory
plain_key m key is_our_dynamic size hash =
    let (u, m') = new_block m [] in
    (record { key_u = u; key = key; is_our_dynamic = is_our_dynamic; size = size; hash = hash }, m')

-- HashKey(const void*, int, hash_t, bool)
unfoldable pub borrow : Memory → ℕ → ℕ → ℕ → HashKey × Memory
borrow m arg_key arg_size arg_hash = plain_key m arg_key false arg_size arg_hash

-- HashKey(const void*, int, hash_t)
unfoldable pub own_copy : Memory → ℕ → ℕ → ℕ → Run (HashKey × Memory)
own_copy m arg_key arg_size arg_hash = do
  (p, m') ← copy_key m arg_key arg_size
  ok (plain_key m' p true arg_size arg_hash)

abbrev pub uhash_key_size : ℕ
uhash_key_size = 36

module _ (siphash hmac_md5 : List ℕ → ℕ) where
  -- HashBytes
  unfoldable pub hash_bytes : Memory → ℕ → ℕ → Run ℕ
  hash_bytes m bytes size = do
    bs ← bytes_at m bytes size
    ok (if leb size uhash_key_size then siphash bs else hmac_md5 bs)

  -- The constructors from a number, a double or a pointer, with the bytes that it has in memory.
  unfoldable pub of_value : Memory → List ℕ → Run (HashKey × Memory)
  of_value m value = do
    let (u, m') = new_block m value
    h ← hash_bytes m' u (length value)
    ok (record { key_u = u; key = u; is_our_dynamic = false; size = length value; hash = h }, m')

  -- HashKey(const uint32[], int)
  unfoldable pub of_words : Memory → ℕ → ℕ → Run (HashKey × Memory)
  of_words m u n = do h ← hash_bytes m u (n * 4); ok (plain_key m u false (n * 4) h)

  -- HashKey(const char*), with the length of the string
  unfoldable pub of_string : Memory → ℕ → ℕ → Run (HashKey × Memory)
  of_string m s size = do h ← hash_bytes m s size; ok (plain_key m s false size h)

  -- HashKey(int, void*, int)
  unfoldable pub owned : Memory → Bool → ℕ → ℕ → Run (HashKey × Memory)
  owned m copy arg_key arg_size = do
    (p, m') ← (if copy then copy_key m arg_key arg_size else ok (arg_key, m))
    h ← hash_bytes m' p arg_size
    ok (plain_key m' p true arg_size h)

  -- HashKey(const void*, int)
  unfoldable pub of_bytes : Memory → ℕ → ℕ → Run (HashKey × Memory)
  of_bytes m bytes arg_size = do
    (p, m') ← copy_key m bytes arg_size
    h ← hash_bytes m' p arg_size
    ok (plain_key m' p true arg_size h)
