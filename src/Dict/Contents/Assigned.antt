-- ===== src/Dict/Contents/Assigned.antt =====
-- Insert of dict/OpenDict.cc, for a key that is there or not, as an assignment to the map that the
-- dictionary is.
use zeek_snippets.Prelude.{
  ℕ, ◌^◌, ◌≤◌, ◌<◌, ◌≡◌, refl, ◌∙◌, true, List, none, length, arith, if◌then◌else◌, leb, Bool-cases,
  inl, inr,
}
use zeek_snippets.Run.{ok}
use zeek_snippets.Dict.{DictEntry, Dictionary, make_entry, is_empty, equal}
use zeek_snippets.Dict.Math.{threshold_entries, bucket_by_hash}
use zeek_snippets.Dict.Cluster.Order.{slot, IsFull}
use zeek_snippets.Dict.Lookup.{Search, found, absent, no_table, lookup, lookup_index}
use zeek_snippets.Dict.Lookup.Stops.{EndsAt}
use zeek_snippets.Dict.Update.{insert}
use zeek_snippets.Dict.Contents.{binding, IsWellFormed, count-slot}
use zeek_snippets.Dict.Contents.Keys.{made-equal_other}
use zeek_snippets.Dict.Contents.View.{value_in, value_in-free, value_in-bound, lookup-value_in}
use zeek_snippets.Dict.Contents.Located.{
  Located, there, nowhere, lookup_index-Located, absent-EndsAt, lookup_index-ne-no_table,
}
use zeek_snippets.Dict.Contents.Gain.{insert-refines}
use zeek_snippets.Dict.Contents.Overwrite.{
  cells, rewritten, rewritten-IsWellFormed, value_in-cells, insert-rewritten,
}

-- A run of Insert, and the map after it.
record InsertRun (d : Dictionary) (t : List DictEntry) (key : List ℕ) (key_size hash value : ℕ)
    : Type 0 where
  pub after : Dictionary
  pub table : List DictEntry
  pub run : insert d key key_size hash value ≡ ok (value_in t key key_size hash, after)
  pub wf : IsWellFormed after table
  pub lookups :
      (key' : List ℕ) (key_size' hash' : ℕ)
      → lookup after key' key_size' hash'
        ≡ ok (
          if equal (make_entry key key_size hash 0 0) key' key_size' hash'
              then value
              else value_in t key' key_size' hash',
          after,
        )

module _ (d : Dictionary) (t : List DictEntry) (key : List ℕ) (key_size hash value : ℕ)
    (w : IsWellFormed d t) (short : key_size < 2 ^ 16) where
  assigned_at :
      (p : ℕ)
      → p < length t
      → IsFull t p
      → equal (slot t p) key key_size hash ≡ true
      → d.order ≡ none
      → lookup_index d key key_size hash ≡ ok (found p, d)
      → InsertRun d t key key_size hash value
  assigned_at p inside full same unordered found_it =
      let wf = rewritten-IsWellFormed d t w p inside full value in
      let old : value_in t key key_size hash ≡ (slot t p).value =
        value_in-bound key key_size hash (slot t p).value t (w.unique key key_size hash) (
          count-slot (binding key key_size hash (slot t p).value) t p inside full
            (ground (arith, same))) in
      record {
        after = rewritten d t w p inside full value;
        table = cells d t w p inside full value;
        run =
            insert-rewritten d t w p inside full value key key_size hash unordered found_it
            ∙ rw old refl;
        wf = wf;
        lookups = λ key' key_size' hash'.
            lookup-value_in key' key_size' hash' _ (cells d t w p inside full value) wf
            ∙ rw
                (
                  value_in-cells d t w p inside full value key' key_size' hash',
                  made-equal_other (slot t p) key key_size hash key' key_size' hash' short same,
                )
                refl;
      }

  -- A search does not pass an empty cell.
  stops_before :
      (i dist f : ℕ)
      → EndsAt t (bucket_by_hash hash d.log2_buckets) (bucket_by_hash hash d.log2_buckets) i
      → bucket_by_hash hash d.log2_buckets ≤ f
      → is_empty (slot t f) ≡ true
      → i ≤ f
  stops_before i dist f ends low free = elim (Bool-cases (leb i f)) [
    | inl le ↦ ground arith
    | inr gt ↦ let (full, close) = ends.run f low (ground arith) in cc
  ]

  module _ (f : ℕ) (inside : f < length t) (behind : bucket_by_hash hash d.log2_buckets ≤ f)
      (free : is_empty (slot t f) ≡ true) (room : d.num_entries < threshold_entries d)
      (unordered : d.order ≡ none) where
    assigned :
        (s : Search)
        → lookup_index d key key_size hash ≡ ok (s, d)
        → Located t key key_size hash s
        → InsertRun d t key key_size hash value
    assigned (found p) run (there low full same) = assigned_at p low full same unordered run
    assigned (absent i dist) run (nowhere none_there) =
        let ends = (absent-EndsAt d t w key key_size hash i dist run).0 in
        let le = stops_before i dist f ends behind free in
        let (r, t', made, wf, looks) =
          insert-refines d t key key_size hash value i dist f w short run le inside free room in
        record {
          after = r;
          table = t';
          run = made ∙ rw (value_in-free key key_size hash t none_there) refl;
          wf = wf;
          lookups = looks;
        }
    assigned no_table run at = absurd (lookup_index-ne-no_table d t w key key_size hash run)

    -- Insert of a key of less than 2 ^ 16 bytes in a well-formed dictionary that keeps no order, where
    -- the threshold is not reached and a cell at or behind the bucket of the key is empty, never
    -- fails, whether the key is there or not: it returns the value that the map had for the key, or
    -- the null pointer, the dictionary is well-formed after it, and Lookup returns the new value for
    -- the key and for every key that is equal to it, and what the map had before for every other
    -- key.
    pub insert-assigns :
        (r : Dictionary) × (t' : List DictEntry) × (insert d key key_size hash value
          ≡ ok (value_in t key key_size hash, r))
        × IsWellFormed r t'
        × ((key' : List ℕ) (key_size' hash' : ℕ)
            → lookup r key' key_size' hash'
              ≡ ok (
                if equal (make_entry key key_size hash 0 0) key' key_size' hash'
                    then value
                    else value_in t key' key_size' hash',
                r,
              ))
    insert-assigns =
        let (s, run, at) = lookup_index-Located d t w key key_size hash in
        let m = assigned s run at in (m.after, m.table, m.run, m.wf, m.lookups)
