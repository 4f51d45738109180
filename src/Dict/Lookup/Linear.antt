-- ===== src/Dict/Lookup/Linear.antt =====
-- LookupIndex of dict/OpenDict.cc against LinearLookupIndex, its own reference.
use zeek_snippets.Prelude.{
  ℕ, zero, suc, ◌+◌, ◌-◌, ◌%◌, ◌^◌, ◌≤◌, ◌<◌, ◌≡◌, refl, ap, ◌∙◌, Bool, true, false, not, ◌&&◌,
  List, Option, none, some, length, arith, if◌then◌else◌, Bool-cases, inl, inr,
}
use zeek_snippets.Run.{Run, ok, ◌>>=◌}
use zeek_snippets.Dict.{DictEntry, Dictionary, is_empty, equal}
use zeek_snippets.Dict.Math.{bucket_by_hash, fib_hash, buckets, capacity}
use zeek_snippets.Dict.Cluster.{in_bucket, up_to_bucket}
use zeek_snippets.Dict.Cluster.Order.{
  slot, IsFull, HasTable, IsClustered, IsMapped, capacity-HasTable, entry_at-slot, cluster_below,
}
use zeek_snippets.Dict.Lookup.{
  Search, found, absent, no_table, linear_loop, linear_lookup_index, lookup_loop, lookup_between,
  lookup_table, lookup_index_within, lookup_index, previous_loop,
}
use zeek_snippets.Dict.Math.Bounds.{bucket_by_hash-lt}

abbrev pub position_of : Search → Option ℕ
position_of (found p) = some p
position_of (absent i dist) = none
position_of no_table = none

-- The bucket depends on the low 32 bits of the hash alone.
pub bucket_by_hash-congr :
    (g h bits : ℕ) → g % 2 ^ 32 ≡ h % 2 ^ 32 → bucket_by_hash g bits ≡ bucket_by_hash h bits
unfolding bucket_by_hash fib_hash
bucket_by_hash-congr g h bits e = rw e

pub equal-hash :
    (e : DictEntry) (key : List ℕ) (key_size hash : ℕ)
    → equal e key key_size hash ≡ true
    → e.hash % 2 ^ 32 ≡ hash % 2 ^ 32
unfolding equal
equal-hash e key key_size hash h = ground arith

module _ (d : Dictionary) (t : List DictEntry) (key : List ℕ) (key_size hash : ℕ)
    (table : HasTable d t) (mapped : IsMapped d.log2_buckets t) (clustered : IsClustered t) where
  abbrev home : ℕ
  home = bucket_by_hash hash d.log2_buckets

  abbrev matches : ℕ → Bool
  matches i = not (is_empty (slot t i)) && equal (slot t i) key key_size hash

  -- An entry for the key is full and stands in the cluster of the key's bucket.
  matches-home :
      (i : ℕ) → i < length t → matches i ≡ true → IsFull t i × (i ≡ home + (slot t i).distance)
  matches-home i h m =
      let full : IsFull t i = ground arith in
      let same = equal-hash (slot t i) key key_size hash (ground arith) in
      (
        full,
        mapped i h full
            ∙ ap (λ b. b + (slot t i).distance) (bucket_by_hash-congr _ hash d.log2_buckets same),
      )

  linear_loop-none :
      (n i : ℕ)
      → i + n ≤ length t
      → ((j : ℕ) → i ≤ j → j < i + n → matches j ≡ false)
      → linear_loop n d key key_size hash i ≡ ok none
  unfolding linear_loop
  linear_loop-none zero i size miss = refl
  linear_loop-none (suc n) i size miss =
      rw (entry_at-slot d t i table (omega arith), ◌>>=◌, miss i (omega arith) (omega arith))
        (linear_loop-none n (i + 1) (omega arith) (λ j p q. miss j (omega arith) (omega arith)))

  linear_loop-skip :
      (m r n i i' : ℕ)
      → r ≡ m + n
      → i' ≡ i + m
      → i + r ≤ length t
      → ((j : ℕ) → i ≤ j → j < i + m → matches j ≡ false)
      → linear_loop r d key key_size hash i ≡ linear_loop n d key key_size hash i'
  unfolding linear_loop
  linear_loop-skip zero r n i i' er ei size miss =
      let e : r ≡ n = omega arith in let e' : i ≡ i' = omega arith in cc
  linear_loop-skip (suc m) zero n i i' er ei size miss = absurd (omega arith)
  linear_loop-skip (suc m) (suc r) n i i' er ei size miss =
      rw (entry_at-slot d t i table (omega arith), ◌>>=◌, miss i (omega arith) (omega arith))
        (linear_loop-skip m r n (i + 1) i' (omega arith) (omega arith) (omega arith)
          (λ j p q. miss j (omega arith) (omega arith)))

  -- The entries that the lookup may still meet at `i`.
  abbrev goes_on : ℕ → Bool
  goes_on i = not (is_empty (slot t i)) && up_to_bucket (slot t i) i home

  beyond_cluster :
      (i j : ℕ) → home ≤ i → goes_on i ≡ false → i ≤ j → j < length t → matches j ≡ false
  beyond_cluster i j low stop le inside = elim (Bool-cases (matches j)) [
    | inr no_match ↦ no_match
    | inl match ↦
        let (full, at) = matches-home j inside match in
        let (here, close) =
          cluster_below (j - i) t home i j clustered (omega arith) inside low full (omega arith) in
        absurd (ground (arith, here, close, stop))
  ]

  linear_step :
      (n i : ℕ)
      → i < length t
      → linear_loop (suc n) d key key_size hash i
        ≡ (if matches i then ok (some i) else linear_loop n d key key_size hash (i + 1))
  unfolding linear_loop
  linear_step n i h = rw (entry_at-slot d t i table h)

  lookup_step :
      (n i : ℕ)
      → i < length t
      → lookup_loop (suc n) d key key_size hash home i ≡ (
          if goes_on i
          then (if in_bucket (slot t i) i home && equal (slot t i) key key_size hash
              then ok (found i)
              else lookup_loop n d key key_size hash home (i + 1))
          else ok (absent i (i - home)))
  unfolding lookup_loop
  lookup_step n i h = rw (entry_at-slot d t i table h)

  abbrev Agree : ℕ → ℕ → Type 0
  Agree n i =
      (s : Search) × (lookup_loop n d key key_size hash home i ≡ ok s)
      × (linear_loop n d key key_size hash i ≡ ok (position_of s))

  -- From a cell of the key's cluster on both searches find the same.
  lookup_loop-Agree : (n i : ℕ) → i + n ≡ length t → home ≤ i → Agree n i
  lookup_loop-Agree zero i size low =
      (absent i (i - home), unfold lookup_loop in refl, unfold linear_loop in refl)
  lookup_loop-Agree (suc n) i size low =
      let inside : i < length t = omega arith in
      let lin = linear_step n i inside in
      let look = lookup_step n i inside in
      elim (Bool-cases (matches i)) [
        | inl match ↦
            let (full, at) = matches-home i inside match in
            (found i, ground (arith, look, match, full, at), ground (arith, lin, match))
        | inr other ↦ elim (Bool-cases (goes_on i)) [
          | inl on ↦
              let (s, a, b) = lookup_loop-Agree n (i + 1) (omega arith) (omega arith) in
              (s, ground (arith, look, on, other, a), ground (arith, lin, other, b))
          | inr stop ↦ (
            absent i (i - home),
            ground (arith, look, stop),
            linear_loop-none (suc n) i (omega arith)
                (λ j p q. beyond_cluster i j low stop p (omega arith)),
          )
        ]
      ]

  linear_from_home :
      home ≤ length t
      → linear_loop (length t) d key key_size hash 0
        ≡ linear_loop (length t - home) d key key_size hash home
  linear_from_home low =
      linear_loop-skip home (length t) (length t - home) 0 home (omega arith) (omega arith)
        (omega arith) before
    where
      before : (j : ℕ) → 0 ≤ j → j < 0 + home → matches j ≡ false
      before j p q = elim (Bool-cases (matches j)) [
        | inr no_match ↦ no_match
        | inl match ↦ absurd (omega (arith, (matches-home j (omega arith) match).1))
      ]

  lookup_index-table :
      lookup_index d key key_size hash
      ≡ lookup_table (lookup_index_within 1 key key_size hash) d key key_size hash
  unfolding lookup_index
  lookup_index-table = ground (arith, table.at)

  previous_loop-zero :
      (again : Dictionary → Run (Search × Dictionary)) (n i : ℕ) (s : Search)
      → n ≡ 0
      → previous_loop again n d key key_size hash i s ≡ ok (s, d)
  unfolding previous_loop
  previous_loop-zero again zero i s e = refl
  previous_loop-zero again (suc n) i s e = absurd (omega arith)

  lookup_table-settled :
      (again : Dictionary → Run (Search × Dictionary)) (s : Search)
      → d.remaps ≡ 0
      → lookup_between d key key_size hash home (capacity d false) ≡ ok s
      → lookup_table again d key key_size hash ≡ ok (s, d)
  unfolding lookup_table
  lookup_table-settled again (found p) settled run = rw run
  lookup_table-settled again (absent i dist) settled run =
      rw run (previous_loop-zero again d.remaps 1 (absent i dist) settled)
  lookup_table-settled again no_table settled run = rw run

  lookup_between-loop :
      home < 2 ^ d.log2_buckets
      → lookup_between d key key_size hash home (capacity d false)
        ≡ lookup_loop (length t - home) d key key_size hash home home
  unfolding lookup_between buckets
  lookup_between-loop small = rw (capacity-HasTable d t table) (ground (arith, table.at))

  linear_lookup_index-loop :
      home ≤ length t
      → linear_lookup_index d key key_size hash
        ≡ linear_loop (length t - home) d key key_size hash home
  unfolding linear_lookup_index
  linear_lookup_index-loop low = rw (capacity-HasTable d t table) (linear_from_home low)

  -- In a table with no remap pending, whose clusters are in order and whose entries stand in the
  -- buckets of their hashes, LookupIndex changes nothing and finds the position that the linear
  -- search finds, or nothing where that finds nothing.
  pub lookup_index_linear :
      d.remaps ≡ 0
      → d.log2_buckets ≤ 64
      → (s : Search) × (lookup_index d key key_size hash ≡ ok (s, d))
        × (linear_lookup_index d key key_size hash ≡ ok (position_of s))
  lookup_index_linear settled bits =
      let small = bucket_by_hash-lt hash d.log2_buckets bits in
      let low : home ≤ length t = omega (arith, table.cells, small) in
      let (s, a, b) = lookup_loop-Agree (length t - home) home (omega arith) (omega arith) in
      (
        s,
        lookup_index-table ∙ lookup_table-settled _ s settled (lookup_between-loop small ∙ a),
        linear_lookup_index-loop low ∙ b,
      )
