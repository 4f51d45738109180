-- ===== src/Dict/Remap/Mixed.antt =====
-- A dictionary of dict/OpenDict.cc between two sizes: up to `remap_end` an entry may still stand in
-- the bucket that its hash had in the table of half as many buckets.
use zeek_snippets.Prelude.{
  ℕ, zero, suc, ◌+◌, ◌-◌, ◌^◌, ◌≤◌, ◌<◌, ◌≡◌, ◌⊎◌, refl, sym, ◌∙◌, Bool, true, false, not, ◌&&◌,
  List, Option, none, some, length, ltb, arith, inl, inr,
}
use zeek_snippets.Run.{Returns, returns, Returns-if, Returns-map}
use zeek_snippets.Dict.{DictEntry, Dictionary, is_empty}
use zeek_snippets.Dict.Math.{bucket_by_hash, buckets}
use zeek_snippets.Dict.Math.Bounds.{bucket_by_hash-lt, bucket_by_hash-double}
use zeek_snippets.Dict.Cluster.{up_to_bucket, end_by_bucket_loop, end_of_cluster_by_bucket}
use zeek_snippets.Dict.Cluster.Order.{
  slot, IsFull, HasTable, IsClustered, IsPlaced, IsHome, capacity-HasTable, entry_at-slot,
}
use zeek_snippets.Dict.Relocate.Insertion.{Rises}
use zeek_snippets.Dict.Relocate.Removal.{Falls}
use zeek_snippets.Dict.Lookup.Stops.{EndsAt}
use zeek_snippets.Dict.Relocate.Count.{count, IgnoresDistance}
use zeek_snippets.Dict.Remap.Room.{from_bucket, HasRoom}

-- The positions up to `remap_end`, as their number; none is -1.
abbrev pub unmapped : Option ℕ → ℕ
unmapped none = 0
unmapped (some end) = suc end

-- The bucket is that of the hash for 2 ^ (n + 1) buckets or, before `limit`, for 2 ^ n.
abbrev pub IsEitherHome : ℕ → ℕ → ℕ → ℕ → ℕ → Type 0
IsEitherHome n limit hash bucket i =
    IsHome (suc n) hash bucket i ⊎ ((i < limit) × IsHome n hash bucket i)

pub record IsMixed (n : ℕ) (d : Dictionary) (t : List DictEntry) : Type 0 where
  pub has : HasTable d t
  pub bits : d.log2_buckets ≡ suc n
  pub few : n < 64
  pub clustered : IsClustered t
  pub placed : IsPlaced (IsEitherHome n (unmapped d.remap_end)) t
  pub room : HasRoom (suc n) t
  pub within : unmapped d.remap_end ≤ length t
  pub small : length t ≤ 0xFFFF
  pub cookies : d.cookies ≡ none

pub either-Falls : (n limit : ℕ) → Falls (IsEitherHome n limit)
either-Falls n limit hash bucket i s le (inl new) = inl new
either-Falls n limit hash bucket i s le (inr (low, old)) = inr (omega arith, old)

-- The entries of the upper half of the buckets are all in their new places.
pub either-Rises : (n limit low : ℕ) → n < 64 → 2 ^ n ≤ low → Rises (IsEitherHome n limit) low 0
either-Rises n limit low few half hash bucket i s behind from le (inl new) = inl new
either-Rises n limit low few half hash bucket i s behind from le (inr (before, old)) =
    absurd (omega (arith, old, bucket_by_hash-lt hash n (omega arith)))

-- An entry that is not in the bucket of its hash is in the lower half, and its bucket in the upper.
pub either_moves :
    (n limit hash bucket i : ℕ)
    → n < 64
    → IsEitherHome n limit hash bucket i
    → (bucket ≡ bucket_by_hash hash (suc n))
      ⊎ ((i < limit)
          × (bucket ≡ bucket_by_hash hash n)
          × (bucket_by_hash hash (suc n) ≡ bucket + 2 ^ n))
either_moves n limit hash bucket i few (inl new) = inl new
either_moves n limit hash bucket i few (inr (before, old)) =
    elim (bucket_by_hash-double hash n few) [
      | inl same ↦ inl (old ∙ sym same)
      | inr further ↦ inr (before, old, omega arith)
    ]

-- Every bucket is that of the hash or one before it.
pub mixed_near :
    (n : ℕ) (d : Dictionary) (t : List DictEntry)
    → IsMixed n d t
    → (j : ℕ) → j < length t
    → IsFull t j
    → j ≤ bucket_by_hash (slot t j).hash (suc n) + (slot t j).distance
mixed_near n d t m j h full =
    let b = j - (slot t j).distance in
    let reach = m.clustered.reaches j h full in
    let at : j ≡ b + (slot t j).distance = omega arith in
    elim (either_moves n (unmapped d.remap_end) (slot t j).hash b j m.few
      (m.placed j b h full at)) [ inl new ↦ omega arith | inr (before, old, further) ↦ omega arith ]

end_by_bucket_loop-EndsAt :
    (k : ℕ) (d : Dictionary) (t : List DictEntry) (bucket j : ℕ)
    → HasTable d t
    → j + k ≡ length t
    → Returns (EndsAt t bucket j) (end_by_bucket_loop k d bucket j)
unfolding end_by_bucket_loop
end_by_bucket_loop-EndsAt zero d t bucket j table size = returns (record {
  low = omega arith;
  high = omega arith;
  run = λ m h q. absurd (omega arith);
  larger = λ h. absurd (omega arith);
})
end_by_bucket_loop-EndsAt (suc k) d t bucket j table size =
    rw (entry_at-slot d t j table (omega arith)) (
      Returns-if (not (is_empty (slot t j)) && up_to_bucket (slot t j) j bucket)
        (λ on.
          Returns-map (end_by_bucket_loop-EndsAt k d t bucket (j + 1) table (omega arith)) λ i e.
            record {
              low = omega (arith, e.low);
              high = e.high;
              run = λ m h q. ground (arith, on, e.run m);
              larger = e.larger;
            })
        λ off. returns (record {
          low = omega arith;
          high = omega arith;
          run = λ m h q. absurd (omega arith);
          larger = λ h full. ground (arith, off, full);
        }))

-- EndOfClusterByBucket gives the end of the entries of the bucket and of smaller ones behind it.
pub end_of_cluster_by_bucket-EndsAt :
    (d : Dictionary) (t : List DictEntry) (bucket : ℕ)
    → HasTable d t
    → bucket < 2 ^ d.log2_buckets
    → Returns (EndsAt t bucket bucket) (end_of_cluster_by_bucket d bucket)
unfolding end_of_cluster_by_bucket
end_of_cluster_by_bucket-EndsAt d t bucket table small =
    let one_of : ltb bucket (buckets d false) ≡ true = unfold buckets in ground (arith, table.at) in
    rw (one_of, capacity-HasTable d t table)
      (end_by_bucket_loop-EndsAt (length t - bucket) d t bucket bucket table
        (omega (arith, table.cells)))

-- Another table with the entries of a mixed one, or fewer of them.
pub table-IsMixed :
    (n : ℕ) (d : Dictionary) (t T : List DictEntry)
    → IsMixed n d t
    → HasTable (record d { table = some T }) T
    → IsClustered T
    → IsPlaced (IsEitherHome n (unmapped d.remap_end)) T
    → ((p : DictEntry → Bool) → IgnoresDistance p → count p T ≤ count p t)
    → IsMixed n (record d { table = some T }) T
table-IsMixed n d t T m has clustered placed fewer =
    let size : length T ≡ length t = has.cells ∙ sym m.has.cells in
    record {
      has = has;
      bits = m.bits;
      few = m.few;
      clustered = clustered;
      placed = placed;
      room = λ s h. omega (
        arith,
        size,
        m.room s (omega (arith, size)),
        fewer (from_bucket (suc n) s) (λ x k. refl),
      );
      within = omega (arith, size, m.within);
      small = omega (arith, size, m.small);
      cookies = m.cookies;
    }
