-- ===== src/Dict/Remap/Again.antt =====
-- LookupIndex of dict/OpenDict.cc for an entry that it finds in the bucket of the size before: the
-- remap moves the entry, and the assertion behind it, in which LookupIndex calls itself, finds it.
use zeek_snippets.Prelude.{
  ℕ, suc, ◌+◌, ◌-◌, ◌<◌, ◌≡◌, refl, sym, subst, ap, ◌∙◌, true, false, List, Option, none, some,
  length, arith, ◌==◌,
}
use zeek_snippets.Run.{Run, ok, ◌>>=◌, Returns, returns, Returns-bind, Returns-inv, ◌>>◌, ensure}
use zeek_snippets.Dict.{DictEntry, Dictionary, is_empty, equal}
use zeek_snippets.Dict.Math.{bucket_by_hash}
use zeek_snippets.Dict.Math.Bounds.{bucket_by_hash-lt}
use zeek_snippets.Dict.Cluster.Order.{slot, IsFull, capacity-HasTable}
use zeek_snippets.Dict.Relocate.Count.{count}
use zeek_snippets.Dict.Lookup.{
  Search, found, absent, no_table, found_before, lookup_table, lookup_index_within, found_at,
  position_after,
}
use zeek_snippets.Dict.Lookup.Stops.{EndsAt}
use zeek_snippets.Dict.Lookup.Linear.{bucket_by_hash-congr, equal-hash}
use zeek_snippets.Dict.Contents.{for_key, count-one_place}
use zeek_snippets.Dict.Contents.Keys.{for_key-IgnoresDistance}
use zeek_snippets.Dict.Remap.Moved.{Moved, remap_at-Moved}
use zeek_snippets.Dict.Remap.Search.{Looked, seen_at, not_in, lookup_between-Looked}
use zeek_snippets.Dict.Remap.Rounds.{moved-Remapped}
use zeek_snippets.Dict.Remap.Growing.{IsGrowing, remapped-IsGrowing, SameMap, counts-SameMap}

-- Where a search of the bucket ends, and how far from it.
abbrev pub StopsAt : List DictEntry → ℕ → ℕ → ℕ → Type 0
StopsAt t bucket i dist = EndsAt t bucket bucket i × (dist ≡ i - bucket)

-- A search of a growing dictionary: the key's entry in the table at the end, in the bucket of the
-- present size, or none.
pub data Found (n : ℕ) (d : Dictionary) (t : List DictEntry) (key : List ℕ) (key_size hash : ℕ)
    : Search × Dictionary → Type 0 where
  present :
      {p : ℕ} {r : Dictionary}
      → (t' : List DictEntry) → SameMap t t'
      → r.order ≡ d.order
      → IsGrowing n r t'
      → p < length t'
      → IsFull t' p
      → equal (slot t' p) key key_size hash ≡ true
      → p ≡ bucket_by_hash hash (suc n) + (slot t' p).distance
      → Found n d t key key_size hash (found p, r)
  missing :
      {i dist : ℕ}
      → count (for_key key key_size hash) t ≡ 0
      → StopsAt t (bucket_by_hash hash (suc n)) i dist
      → Found n d t key key_size hash (absent i dist, d)

-- The call of LookupIndex in the assertion after a remap finds an entry that is in the bucket of the
-- present size.
module _ (n : ℕ) (d : Dictionary) (t : List DictEntry) (g : IsGrowing n d t) (key : List ℕ)
    (key_size hash p : ℕ) (inside : p < length t) (full : IsFull t p)
    (same : equal (slot t p) key key_size hash ≡ true)
    (home : p ≡ bucket_by_hash hash (suc n) + (slot t p).distance) where
  found_first :
      (s : Search)
      → Looked t key key_size hash
          (bucket_by_hash hash (suc n))
          (bucket_by_hash hash (suc n))
          (length t)
          s
      → s ≡ found p
  found_first (found q) (seen_at h full' same' at) = ap found (
      count-one_place (for_key key key_size hash) t q p h inside full' full same' same
        (g.unique key key_size hash))
  found_first (absent i dist) (not_in none_of) =
      let other = none_of p (omega arith) inside full home in cc
  found_first no_table e = elim e [ ]

  found_again : lookup_index_within 1 key key_size hash d ≡ ok (found p, d)
  found_again =
      let small = bucket_by_hash-lt hash (suc n) (omega (arith, g.mixed.few)) in
      let (s, run, at) = Returns-inv (
        lookup_between-Looked d t key key_size hash g.mixed.has g.mixed.clustered
          (bucket_by_hash hash (suc n)) (length t) (rw g.mixed.bits small) (omega arith)
          (omega arith)) in
      let there : lookup_index_within 1 key key_size hash d
          ≡ lookup_table (lookup_index_within 0 key key_size hash) d key key_size hash =
        unfold lookup_index_within in ground (arith, g.mixed.has.at) in
      there
      ∙ (unfold lookup_table in
          rw
            (
              ap (bucket_by_hash hash) g.mixed.bits,
              capacity-HasTable d t g.mixed.has,
              run,
              found_first s at,
            )
            refl)

module _ (n : ℕ) (d : Dictionary) (t : List DictEntry) (g : IsGrowing n d t) (key : List ℕ)
    (key_size hash : ℕ) where
  abbrev again : Dictionary → Run (Search × Dictionary)
  again = lookup_index_within 1 key key_size hash

  relocated-Found :
      (p : ℕ) (o : Option ℕ) (r : Dictionary)
      → p < length t
      → IsFull t p
      → equal (slot t p) key key_size hash ≡ true
      → Moved n d t p (o, r)
      → Found n d t key key_size hash (found (position_after p o), r)
  relocated-Found p none r h full same a =
      let (still, at) = a.stays refl in
      let hashes = equal-hash (slot t p) key key_size hash same in
      let still' : slot t p ≡ slot a.table p = ap (λ x. slot x p) (sym still) in
      present a.table (counts-SameMap t a.table g.unique a.counts) (ap (λ x. x.order) a.same)
        (remapped-IsGrowing n d t g r (moved-Remapped n d t p (none, r) a)) (rw still h)
        (subst (λ x. is_empty x ≡ false) still' full)
        (subst (λ x. equal x key key_size hash ≡ true) still' same)
        (subst (λ x. p ≡ bucket_by_hash hash (suc n) + x.distance) still'
          (rw (← bucket_by_hash-congr (slot t p).hash hash (suc n) hashes) at))
  relocated-Found p (some q) r h full same a =
      let (inside, there, k, at, home) = a.moves q refl in
      let hashes = equal-hash (slot t p) key key_size hash same in
      present a.table (counts-SameMap t a.table g.unique a.counts) (ap (λ x. x.order) a.same)
        (remapped-IsGrowing n d t g r (moved-Remapped n d t p (some q, r) a)) inside there
        (rw at (for_key-IgnoresDistance key key_size hash (slot t p) k ∙ same))
        (rw (at, ← bucket_by_hash-congr (slot t p).hash hash (suc n) hashes) home)

  checked :
      (q : ℕ) (r : Dictionary)
      → Found n d t key key_size hash (found q, r)
      → Returns
          (Found n d t key key_size hash)
          (do (s, d₂) ← again r; ensure (found_at q s); ok (found q, d₂))
  checked q r (present t' map order g' h full same home) =
      let itself : (q == q) ≡ true = ground arith in
      rw (found_again n r t' g' key key_size hash q h full same home, ◌>>=◌, itself)
        (returns (present t' map order g' h full same home))

  -- An entry that is found in the bucket of the size before moves to that of the present size, and the
  -- assertion finds it there.
  pub found_before-Found :
      (p : ℕ)
      → p < length t
      → IsFull t p
      → equal (slot t p) key key_size hash ≡ true
      → Returns (Found n d t key key_size hash) (found_before again d p)
  unfolding found_before
  found_before-Found p h full same =
      let alone : (d.num_iterators == 0) ≡ true = ground (arith, g.iterators) in
      rw alone (
        Returns-bind (remap_at-Moved n d t p g.mixed h full)
          λ (o, r) a. checked (position_after p o) r (relocated-Found p o r h full same a))
