-- ===== src/Dict/Remap/Search.antt =====
-- One search of LookupIndex of dict/OpenDict.cc in a table whose clusters are in order: what it says of
-- the entries of its bucket.
use zeek_snippets.Prelude.{
  ℕ, zero, suc, ◌+◌, ◌-◌, ◌^◌, ◌≤◌, ◌<◌, ◌≡◌, true, false, not, ◌&&◌, List, length, ltb, arith,
  ◌==◌, Bool-cases, inl, inr,
}
use zeek_snippets.Run.{Returns, returns, Returns-if, Returns-map}
use zeek_snippets.Dict.{DictEntry, Dictionary, is_empty, equal}
use zeek_snippets.Dict.Math.{buckets}
use zeek_snippets.Dict.Cluster.{in_bucket, up_to_bucket}
use zeek_snippets.Dict.Cluster.Order.{
  slot, IsFull, HasTable, IsClustered, entry_at-slot, cluster_below,
}
use zeek_snippets.Dict.Lookup.Stops.{Ended, lookup_loop-Ended}
use zeek_snippets.Dict.Lookup.{Search, found, absent, no_table, lookup_loop, lookup_between}

-- What a search in the cells before `end` gives: an entry for the key, or that the bucket has none.
pub data Looked (t : List DictEntry) (key : List ℕ) (key_size hash bucket j end : ℕ)
    : Search → Type 0 where
  seen_at :
      {p : ℕ}
      → p < end
      → IsFull t p
      → equal (slot t p) key key_size hash ≡ true
      → p ≡ bucket + (slot t p).distance
      → Looked t key key_size hash bucket j end (found p)
  not_in :
      {i dist : ℕ}
      → ((m : ℕ)
          → j ≤ m
          → m < end
          → IsFull t m
          → m ≡ bucket + (slot t m).distance
          → equal (slot t m) key key_size hash ≡ false)
      → Looked t key key_size hash bucket j end (absent i dist)

module _ (d : Dictionary) (t : List DictEntry) (key : List ℕ) (key_size hash : ℕ)
    (table : HasTable d t) (clustered : IsClustered t) where
  lookup_loop-Looked :
      (k bucket j end : ℕ)
      → j + k ≡ end
      → end ≤ length t
      → bucket ≤ j
      → Returns
          (Looked t key key_size hash bucket j end)
          (lookup_loop k d key key_size hash bucket j)
  unfolding lookup_loop
  lookup_loop-Looked zero bucket j end size within low =
      returns (not_in λ m h q. absurd (omega arith))
  lookup_loop-Looked (suc k) bucket j end size within low =
      rw (entry_at-slot d t j table (omega arith)) (
        Returns-if (not (is_empty (slot t j)) && up_to_bucket (slot t j) j bucket)
          (λ on.
            Returns-if (in_bucket (slot t j) j bucket && equal (slot t j) key key_size hash)
              (λ here. returns (seen_at (omega arith) (ground arith) (ground arith) (ground arith)))
              λ other.
                Returns-map
                  (lookup_loop-Looked k bucket (j + 1) end (omega arith) within (omega arith))
                  λ s e. further bucket j end other s e)
          λ off. returns (
            not_in λ m h q full at.
              let (there, close) =
                cluster_below (m - j) t bucket j m clustered (omega arith) (omega arith) low full
                  (omega arith) in
              absurd (ground (arith, off, there, close))))
    where
      further :
          (bucket j end : ℕ)
          → (in_bucket (slot t j) j bucket && equal (slot t j) key key_size hash) ≡ false
          → (s : Search) → Looked t key key_size hash bucket (j + 1) end s
          → Looked t key key_size hash bucket j end s
      further bucket j end other (found p) (seen_at h full same at) = seen_at h full same at
      further bucket j end other no_table e = elim e [ ]
      further bucket j end other (absent i dist) (not_in none_of) = not_in λ m h q full at.
          elim (Bool-cases (j == m)) [
            | inl here ↦
                let same : j ≡ m = ground arith in
                let other' = rw same at other in ground (arith, other', at)
            | inr behind ↦ none_of m (ground arith) q full at
          ]

  pub lookup_between-Looked :
      (bucket end : ℕ)
      → bucket < 2 ^ d.log2_buckets
      → bucket ≤ end
      → end ≤ length t
      → Returns
          (Looked t key key_size hash bucket bucket end)
          (lookup_between d key key_size hash bucket end)
  unfolding lookup_between
  lookup_between-Looked bucket end small low within =
      let one_of : ltb bucket (buckets d false) ≡ true =
        unfold buckets in ground (arith, table.at) in
      rw one_of
        (lookup_loop-Looked (end - bucket) bucket bucket end (omega arith) within (omega arith))

pub lookup_between-Ended :
    (d : Dictionary) (t : List DictEntry) (key : List ℕ) (key_size hash bucket : ℕ)
    → HasTable d t
    → bucket < 2 ^ d.log2_buckets
    → Returns (Ended t bucket bucket) (lookup_between d key key_size hash bucket (length t))
unfolding lookup_between
lookup_between-Ended d t key key_size hash bucket table small =
    let one_of : ltb bucket (buckets d false) ≡ true = unfold buckets in ground (arith, table.at) in
    rw one_of (
      lookup_loop-Ended d t key key_size hash bucket (length t - bucket) bucket table
        (omega (arith, table.cells)))
