-- ===== src/Dict/Math.antt =====
-- The bucket math of dict/OpenDict.cc.
pub mod Bounds
use zeek_snippets.Prelude.{
  ℕ, zero, suc, ◌+◌, ◌-◌, ◌*◌, ◌/◌, ◌%◌, ◌^◌, Bool, true, false, Option, none, some, leb, ◌==◌,
  if◌then◌else◌,
}
use zeek_snippets.Dict.{Dictionary}

-- `while (num >>= 1) i++`, from `i`; the fuel bounds the number of bits.
unfoldable pub log2_loop : ℕ → ℕ → ℕ → Option ℕ
log2_loop zero num i = none
log2_loop (suc k) num i =
    let more = log2_loop k (num / 2) (i + 1) in if num / 2 == 0 then some i else more

-- A positive `int` has fewer than 32 bits.
unfoldable pub log2 : ℕ → Option ℕ
log2 num = log2_loop 32 num 0

abbrev pub buckets_of : ℕ → ℕ
buckets_of log2_buckets = 2 ^ log2_buckets

abbrev pub capacity_of : ℕ → ℕ
capacity_of log2_buckets = 2 ^ log2_buckets + log2_buckets

unfoldable pub buckets : Dictionary → Bool → ℕ
buckets d true = buckets_of d.log2_buckets
buckets d false = elim d.table [ none ↦ 0 | some _ ↦ buckets_of d.log2_buckets ]

unfoldable pub capacity : Dictionary → Bool → ℕ
capacity d true = capacity_of d.log2_buckets
capacity d false = elim d.table [ none ↦ 0 | some _ ↦ capacity_of d.log2_buckets ]

-- DICT_THRESHOLD_BITS is 3, and DICT_LOAD_FACTOR_BITS is 2.
unfoldable pub threshold_entries : Dictionary → ℕ
threshold_entries d = let c = capacity d false in if leb d.log2_buckets 3 then c else c - c / 2 ^ 2

-- uint64_t arithmetic
unfoldable pub fib_hash : ℕ → ℕ
fib_hash h = (h % 2 ^ 32) * 11400714819323198485 % 2 ^ 64

-- `hash <<= m; hash >>= m` on uint64_t
unfoldable pub bucket_by_hash : ℕ → ℕ → ℕ
bucket_by_hash h log2_table_size =
    let m = 64 - log2_table_size in
    if log2_table_size == 0 then 0 else fib_hash h * 2 ^ m % 2 ^ 64 / 2 ^ m
