-- ===== src/Dict/Lookup/Written.antt =====
-- LookupIndex of dict/OpenDict.cc before and after a write to the place where it ended.
use zeek_snippets.Prelude.{
  ℕ, zero, suc, ◌+◌, ◌-◌, ◌≤◌, ◌<◌, ◌≡◌, sym, ◌∙◌, true, false, not, ◌&&◌, List, length, set,
  get_or-set, length-set, arith, if◌then◌else◌, ◌==◌,
}
use zeek_snippets.Run.{ok}
use zeek_snippets.Dict.{DictEntry, Dictionary, is_empty, equal}
use zeek_snippets.Dict.Cluster.{in_bucket, up_to_bucket}
use zeek_snippets.Dict.Cluster.Order.{slot, HasTable, entry_at-slot}
use zeek_snippets.Dict.Relocate.{empty_entry}
use zeek_snippets.Dict.Lookup.{found, absent, lookup_loop}

module _ (key : List ℕ) (key_size hash bucket : ℕ) where
  round :
      (d : Dictionary) (t : List DictEntry) (n j : ℕ)
      → HasTable d t
      → j < length t
      → lookup_loop (suc n) d key key_size hash bucket j ≡ (
          if not (is_empty (slot t j)) && up_to_bucket (slot t j) j bucket
          then (if in_bucket (slot t j) j bucket && equal (slot t j) key key_size hash
              then ok (found j)
              else lookup_loop n d key key_size hash bucket (j + 1))
          else ok (absent j (j - bucket)))
  unfolding lookup_loop
  round d t n j table inside = rw (entry_at-slot d t j table inside)

  -- A search that misses ends at or behind its start, with the distance to the bucket.
  pub lookup_loop-absent :
      (d : Dictionary) (t : List DictEntry) (n j i dist : ℕ)
      → HasTable d t
      → j + n ≡ length t
      → lookup_loop n d key key_size hash bucket j ≡ ok (absent i dist)
      → (j ≤ i) × (dist ≡ i - bucket)
  unfolding lookup_loop
  lookup_loop-absent d t zero j i dist table size run = ground (arith, run)
  lookup_loop-absent d t (suc n) j i dist table size run = ground (
    arith,
    sym (round d t n j table (omega arith)) ∙ run,
    lookup_loop-absent d t n (j + 1) i dist table,
  )

  module _ (d d' : Dictionary) (t : List DictEntry) (e : DictEntry) (i dist : ℕ)
      (table : HasTable d t) (table' : HasTable d' (set t i e)) (inside : i < length t)
      (full : is_empty e ≡ false) (match : equal e key key_size hash ≡ true)
      (home : i ≡ bucket + e.distance) where
    written-slot : (j : ℕ) → slot (set t i e) j ≡ (if i == j then e else slot t j)
    written-slot j = get_or-set t i j e empty_entry inside

    pub lookup_loop-written :
        (n j : ℕ)
        → j + n ≡ length t
        → lookup_loop n d key key_size hash bucket j ≡ ok (absent i dist)
        → lookup_loop n d' key key_size hash bucket j ≡ ok (found i)
    unfolding lookup_loop
    lookup_loop-written zero j size run = absurd (ground (arith, run))
    lookup_loop-written (suc n) j size run =
        let width : j < length (set t i e) = omega (arith, length-set t i e) in
        let before = sym (round d t n j table (omega arith)) ∙ run in
        round d' (set t i e) n j table' width
        ∙ ground (
          arith,
          before,
          written-slot j,
          lookup_loop-absent d t n (j + 1) i dist table,
          lookup_loop-written n (j + 1),
        )
