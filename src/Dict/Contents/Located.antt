-- ===== src/Dict/Contents/Located.antt =====
-- What the search of dict/OpenDict.cc finds in a well-formed dictionary.
use zeek_snippets.Prelude.{ℕ, ◌-◌, ◌<◌, ◌≡◌, refl, sym, ◌∙◌, true, List, Option, length, arith}
use zeek_snippets.Run.{ok, Returns-inv}
use zeek_snippets.Dict.{DictEntry, Dictionary, equal}
use zeek_snippets.Dict.Cluster.Order.{slot, IsFull}
use zeek_snippets.Dict.Relocate.Count.{count}
use zeek_snippets.Dict.Lookup.{Search, found, absent, no_table, lookup_index}
use zeek_snippets.Dict.Lookup.Linear.{lookup_index_linear, position_of}
use zeek_snippets.Dict.Math.{bucket_by_hash}
use zeek_snippets.Dict.Math.Bounds.{bucket_by_hash-lt}
use zeek_snippets.Dict.Update.Inserted.{lookup_index-loop}
use zeek_snippets.Dict.Lookup.Stops.{
  EndsAt, Ended, miss, lookup_loop-Ended, Seen, seen, unseen, linear_lookup_index-Seen,
}
use zeek_snippets.Dict.Contents.{for_key, IsWellFormed, count-zero}

-- The position found holds an entry for the key; where none is found, there is none.
pub data Located (t : List DictEntry) (key : List ℕ) (key_size hash : ℕ) : Search → Type 0 where
  there :
      {p : ℕ}
      → p < length t
      → IsFull t p
      → equal (slot t p) key key_size hash ≡ true
      → Located t key key_size hash (found p)
  nowhere :
      {i dist : ℕ}
      → count (for_key key key_size hash) t ≡ 0
      → Located t key key_size hash (absent i dist)
  unmade : count (for_key key key_size hash) t ≡ 0 → Located t key key_size hash no_table

module _ (d : Dictionary) (t : List DictEntry) (w : IsWellFormed d t) (key : List ℕ)
    (key_size hash : ℕ) where
  located :
      (s : Search) (o : Option ℕ)
      → position_of s ≡ o
      → Seen t key key_size hash 0 o
      → Located t key key_size hash s
  located (found p) o at (seen {p = r} h full same) =
      let here : r ≡ p = ground (arith, at) in
      there (rw here at h) (rw here at full) (rw here at same)
  located (found p) o at (unseen free) = cc
  located (absent i dist) o at (seen h full same) = cc
  located (absent i dist) o at (unseen free) =
      nowhere (count-zero (for_key key key_size hash) t free)
  located no_table o at (seen h full same) = cc
  located no_table o at (unseen free) = unmade (count-zero (for_key key key_size hash) t free)

  pub lookup_index-Located :
      (s : Search) × (lookup_index d key key_size hash ≡ ok (s, d)) × Located t key key_size hash s
  lookup_index-Located =
      let (s, run, linear) =
        lookup_index_linear d t key key_size hash w.has w.mapped w.clustered w.settled.remaps
          w.settled.bits in
      let (o, linear', e) = Returns-inv (linear_lookup_index-Seen d t key key_size hash w.has) in
      let at : position_of s ≡ o = ground (arith, linear, linear') in (s, run, located s o at e)

  abbrev pub home : ℕ
  home = bucket_by_hash hash d.log2_buckets

  pub home-lt : home < length t
  home-lt = omega (arith, bucket_by_hash-lt hash d.log2_buckets w.settled.bits, w.has.cells)

  pub lookup_index-Ended :
      (s : Search) × (lookup_index d key key_size hash ≡ ok (s, d)) × Ended t home home s
  lookup_index-Ended =
      let (s, loop, e) = Returns-inv (
        lookup_loop-Ended d t key key_size hash home (length t - home) home w.has
          (omega (arith, home-lt))) in
      (
        s,
        lookup_index-loop d t key key_size hash home w.has w.settled.remaps
              (bucket_by_hash-lt hash d.log2_buckets w.settled.bits) refl
            ∙ rw loop refl,
        e,
      )

  ended :
      (s s' : Search) (i dist : ℕ)
      → s ≡ s'
      → s' ≡ absent i dist
      → Ended t home home s
      → EndsAt t home home i × (dist ≡ i - home)
  ended (found p) s' i dist same at e = cc
  ended no_table s' i dist same at e = cc
  ended (absent k dist') s' i dist same at (miss ends) =
      let here : k ≡ i = ground (arith, same, at) in
      let far : k - home ≡ dist = ground (arith, same, at) in
      (rw here at ends, rw here at (sym far))

  -- A search that misses ends at the place that it gives.
  pub absent-EndsAt :
      (i dist : ℕ)
      → lookup_index d key key_size hash ≡ ok (absent i dist, d)
      → EndsAt t home home i × (dist ≡ i - home)
  absent-EndsAt i dist missed =
      let (s, run, e) = lookup_index-Ended in
      ended s (absent i dist) i dist (ground (arith, run, missed)) refl e

  pub lookup_index-ne-no_table : ¬ (lookup_index d key key_size hash ≡ ok (no_table, d))
  lookup_index-ne-no_table none_there =
      let (s, run, e) = lookup_index-Ended in unmade_never s (ground (arith, run, none_there)) e
    where
      unmade_never : (s : Search) → s ≡ no_table → Ended t home home s → ⊥
      unmade_never (found p) at e = cc
      unmade_never (absent i dist) at e = cc
      unmade_never no_table at e = elim e [ ]
