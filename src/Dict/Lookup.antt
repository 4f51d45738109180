-- ===== src/Dict/Lookup.antt =====
-- The lookups of dict/OpenDict.cc. LookupIndex calls itself in the assertion after a remap; the call
-- is a parameter of its parts, and fuel bounds how deep the calls go.
pub mod Linear
pub mod Written
pub mod Stops
use zeek_snippets.Prelude.{
  ℕ, zero, suc, ◌+◌, ◌-◌, Bool, true, false, not, ◌&&◌, List, Option, none, some, ltb, leb, ◌==◌,
  if◌then◌else◌,
}
use zeek_snippets.Run.{Run, ok, out_of_fuel, ◌>>=◌, ◌>>◌, ensure}
use zeek_snippets.Dict.{DictEntry, Dictionary, is_empty, equal, entry_at}
use zeek_snippets.Dict.Math.{bucket_by_hash, buckets, capacity}
use zeek_snippets.Dict.Cluster.{in_bucket, up_to_bucket}
use zeek_snippets.Dict.Remap.{remap_at}

-- LinearLookupIndex
unfoldable pub linear_loop : ℕ → Dictionary → List ℕ → ℕ → ℕ → ℕ → Run (Option ℕ)
linear_loop zero d key key_size hash i = ok none
linear_loop (suc n) d key key_size hash i = do
  e ← entry_at d i
  let more = linear_loop n d key key_size hash (i + 1)
  if not (is_empty e) && equal e key key_size hash then ok (some i) else more

unfoldable pub linear_lookup_index : Dictionary → List ℕ → ℕ → ℕ → Run (Option ℕ)
linear_lookup_index d key key_size hash = linear_loop (capacity d false) d key key_size hash 0

-- A position, or -1: with the place to insert at and its distance, or without as there is no table.
pub data Search : Type 0 where
  found : ℕ → Search
  absent : ℕ → ℕ → Search
  no_table : Search

-- The loop of LookupIndex between `bucket` and an end, from `i` on with `n` positions left.
unfoldable pub lookup_loop : ℕ → Dictionary → List ℕ → ℕ → ℕ → ℕ → ℕ → Run Search
lookup_loop zero d key key_size hash bucket i = ok (absent i (i - bucket))
lookup_loop (suc n) d key key_size hash bucket i = do
  e ← entry_at d i
  let more = lookup_loop n d key key_size hash bucket (i + 1)
  if not (is_empty e) && up_to_bucket e i bucket
      then (if in_bucket e i bucket && equal e key key_size hash then ok (found i) else more)
      else ok (absent i (i - bucket))

-- LookupIndex with a bucket and an end.
unfoldable pub lookup_between : Dictionary → List ℕ → ℕ → ℕ → ℕ → ℕ → Run Search
lookup_between d key key_size hash bucket end = do
  ensure (ltb bucket (buckets d false))
  lookup_loop (end - bucket) d key key_size hash bucket bucket

-- Whether the search found `position`.
abbrev pub found_at : ℕ → Search → Bool
found_at position (found p) = position == p
found_at position (absent i dist) = false
found_at position no_table = false

-- Remap(position, &position) sets the position if the entry moves.
abbrev pub position_after : ℕ → Option ℕ → ℕ
position_after position none = position
position_after position (some q) = q

-- An entry that is found at a place of an earlier table size moves, if no iteration is going on, and
-- `again`, LookupIndex for the same key, must find it where it is then.
unfoldable pub found_before :
    (Dictionary → Run (Search × Dictionary)) → Dictionary → ℕ → Run (Search × Dictionary)
found_before again d position =
    let moved : Run (Search × Dictionary) = (do
      (o, d₁) ← remap_at d position
      (s, d₂) ← again d₁
      ensure (found_at (position_after position o) s)
      ok (found (position_after position o), d₂)) in
    if d.num_iterators == 0 then moved else ok (found position, d)

unfoldable pub within_end : ℕ → Option ℕ → Option ℕ
within_end bucket none = none
within_end bucket (some end) = if leb bucket end then some end else none

-- `for (i = 1; i <= remaps; i++)`, with `n` rounds left; `missed` is the result of the first search.
unfoldable pub previous_loop :
    (Dictionary → Run (Search × Dictionary))
    → ℕ
    → Dictionary
    → List ℕ
    → ℕ
    → ℕ
    → ℕ
    → Search
    → Run (Search × Dictionary)
previous_loop again zero d key key_size hash i missed = ok (missed, d)
previous_loop again (suc n) d key key_size hash i missed =
    let more = previous_loop again n d key key_size hash (i + 1) missed in
    let prev_bucket = bucket_by_hash hash (d.log2_buckets - i) in
    elim (within_end prev_bucket d.remap_end) [
      | none ↦ more
      | some end ↦ do
        s ← lookup_between d key key_size hash prev_bucket (end + 1)
        elim s [ found p ↦ found_before again d p | absent _ _ ↦ more | no_table ↦ more ]
    ]

unfoldable pub lookup_table :
    (Dictionary → Run (Search × Dictionary))
    → Dictionary
    → List ℕ
    → ℕ
    → ℕ
    → Run (Search × Dictionary)
lookup_table again d key key_size hash = do
  s ← lookup_between d key key_size hash (bucket_by_hash hash d.log2_buckets) (capacity d false)
  elim s [
    | found p ↦ ok (found p, d)
    | absent i dist ↦ previous_loop again d.remaps d key key_size hash 1 (absent i dist)
    | no_table ↦ ok (no_table, d)
  ]

-- LookupIndex, with calls of itself that are less than `depth` deep.
unfoldable pub lookup_index_within : ℕ → List ℕ → ℕ → ℕ → Dictionary → Run (Search × Dictionary)
lookup_index_within zero key key_size hash d = out_of_fuel
lookup_index_within (suc depth) key key_size hash d = elim d.table [
  | none ↦ ok (no_table, d)
  | some _ ↦ lookup_table (lookup_index_within depth key key_size hash) d key key_size hash
]

-- LookupIndex: a call after a remap finds the entry in the bucket of the present size.
unfoldable pub lookup_index : Dictionary → List ℕ → ℕ → ℕ → Run (Search × Dictionary)
unfolding lookup_index_within
lookup_index d key key_size hash = lookup_index_within 2 key key_size hash d

-- Lookup: the value of the entry, or the null pointer.
unfoldable pub lookup : Dictionary → List ℕ → ℕ → ℕ → Run (ℕ × Dictionary)
lookup d key key_size hash = do
  (s, d₁) ← lookup_index d key key_size hash
  elim s [
    | found p ↦ do e ← entry_at d₁ p; ok (e.value, d₁)
    | absent _ _ ↦ ok (0, d₁)
    | no_table ↦ ok (0, d₁)
  ]
