-- ===== src/Dict/Cluster/Order.antt =====
-- The order of the clusters in a table of dict/OpenDict.cc: the entries of a bucket stand together,
-- behind those of smaller buckets, with no empty cell between a bucket and its entries.
use zeek_snippets.Prelude.{
  ℕ, zero, suc, ◌+◌, ◌-◌, ◌≤◌, ◌<◌, ◌≡◌, false, List, some, length, get_or, get_elem?-get_or, arith,
  subst,
}
use zeek_snippets.Run.{ok, ◌>>=◌, cell}
use zeek_snippets.Dict.{DictEntry, Dictionary, is_empty, entry_at}
use zeek_snippets.Dict.Math.{capacity, capacity_of, bucket_by_hash}
use zeek_snippets.Dict.Relocate.{empty_entry}

-- The entry at a position of a table.
abbrev pub slot : List DictEntry → ℕ → DictEntry
slot t i = get_or t i empty_entry

abbrev pub IsFull : List DictEntry → ℕ → Type 0
IsFull t i = is_empty (slot t i) ≡ false

-- The dictionary has the table `t`, with as many cells as its capacity.
pub record HasTable (d : Dictionary) (t : List DictEntry) : Type 0 where
  pub at : d.table ≡ some t
  pub cells : length t ≡ capacity_of d.log2_buckets

pub record IsClustered (t : List DictEntry) : Type 0 where
  pub reaches : (i : ℕ) → i < length t → IsFull t i → (slot t i).distance ≤ i
  pub packed :
      (i : ℕ)
      → suc i < length t
      → IsFull t (suc i)
      → 0 < (slot t (suc i)).distance
      → IsFull t i × ((slot t (suc i)).distance ≤ (slot t i).distance + 1)

-- Every entry stands in the cluster of the bucket that its hash has in a table of this size.
abbrev pub IsMapped : ℕ → List DictEntry → Type 0
IsMapped bits t =
    (i : ℕ)
    → i < length t
    → IsFull t i
    → i ≡ bucket_by_hash (slot t i).hash bits + (slot t i).distance

-- Every entry of the table, with the bucket that it stands in by its distance, satisfies `Home` for
-- its hash, this bucket and its position.
abbrev pub IsPlaced : (ℕ → ℕ → ℕ → Type 0) → List DictEntry → Type 0
IsPlaced Home t =
    (i bucket : ℕ)
    → i < length t
    → IsFull t i
    → i ≡ bucket + (slot t i).distance
    → Home (slot t i).hash bucket i

-- The bucket is that of the hash in a table of this size.
abbrev pub IsHome : ℕ → ℕ → ℕ → ℕ → Type 0
IsHome bits hash bucket i = bucket ≡ bucket_by_hash hash bits

pub mapped-IsPlaced : (bits : ℕ) (t : List DictEntry) → IsMapped bits t → IsPlaced (IsHome bits) t
mapped-IsPlaced bits t mapped i bucket h full at = omega (arith, mapped i h full, at)

pub placed-IsMapped :
    (bits : ℕ) (t : List DictEntry) → IsClustered t → IsPlaced (IsHome bits) t → IsMapped bits t
placed-IsMapped bits t clustered placed i h full =
    let reach = clustered.reaches i h full in
    let home = placed i (i - (slot t i).distance) h full (omega arith) in omega arith

pub capacity-HasTable :
    (d : Dictionary) (t : List DictEntry) → HasTable d t → capacity d false ≡ length t
unfolding capacity
capacity-HasTable d t h = ground (arith, h.at, h.cells)

pub entry_at-slot :
    (d : Dictionary) (t : List DictEntry) (i : ℕ)
    → HasTable d t
    → i < length t
    → entry_at d i ≡ ok (slot t i)
unfolding entry_at
entry_at-slot d t i h p = rw (h.at, ◌>>=◌, cell, get_elem?-get_or t i empty_entry p)

-- From a bucket up to an entry of it every cell is full, with an entry of that bucket or a smaller
-- one. `gap` is the way from the cell `i` to the entry at `p`.
pub cluster_below :
    (gap : ℕ) (t : List DictEntry) (bucket i p : ℕ)
    → IsClustered t
    → p ≡ gap + i
    → p < length t
    → bucket ≤ i
    → IsFull t p
    → p ≤ bucket + (slot t p).distance
    → IsFull t i × (i ≤ bucket + (slot t i).distance)
cluster_below zero t bucket i p c e inside low full reach =
    let same : p ≡ i = omega arith in
    subst (λ k. IsFull t k × (k ≤ bucket + (slot t k).distance)) same (full, reach)
cluster_below (suc gap) t bucket i zero c e inside low full reach = absurd (omega arith)
cluster_below (suc gap) t bucket i (suc p) c e inside low full reach =
    let (full', close) = c.packed p inside full (omega arith) in
    cluster_below gap t bucket i p c (omega arith) (omega arith) low full' (omega arith)
