-- ===== src/Dict/Contents/Gain.antt =====
-- Insert of dict/OpenDict.cc for a new key, as a change of the map that the dictionary is.
use zeek_snippets.Prelude.{
  ℕ, ◌+◌, ◌-◌, ◌^◌, ◌≤◌, ◌<◌, ◌≡◌, refl, ap, ◌∙◌, true, false, List, some, length, arith,
  if◌then◌else◌,
}
use zeek_snippets.Run.{ok, ◌>>=◌, Returns-inv}
use zeek_snippets.Dict.{DictEntry, Dictionary, make_entry, is_empty, equal, remapping}
use zeek_snippets.Dict.Math.{capacity, bucket_by_hash, threshold_entries}
use zeek_snippets.Dict.Cluster.Order.{IsHome, mapped-IsPlaced, slot, capacity-HasTable}
use zeek_snippets.Dict.Relocate.{insert_relocating}
use zeek_snippets.Dict.Relocate.Insertion.{InsertInv, Gained, insert_and_relocate-Gained}
use zeek_snippets.Dict.Lookup.{absent, lookup, lookup_index}
use zeek_snippets.Dict.Lookup.Linear.{bucket_by_hash-congr}
use zeek_snippets.Dict.Lookup.Stops.{EndsAt}
use zeek_snippets.Dict.Update.{
  adjust_on_insert, insert_relocate_and_adjust, push_order, count_inserted, insert_new,
  init_if_null, place, insert,
}
use zeek_snippets.Dict.Contents.{IsWellFormed, missed_free}
use zeek_snippets.Dict.Contents.Located.{home, absent-EndsAt}
use zeek_snippets.Dict.Contents.Settled.{cover_still, adjust_cookies_still, only_robust_still}
use zeek_snippets.Dict.Contents.View.{value_in, lookup-value_in}
use zeek_snippets.Dict.Contents.Gained.{grown-IsWellFormed, value_in-grown}

module _ (d : Dictionary) (t : List DictEntry) (key : List ℕ) (key_size hash value i dist f : ℕ)
    (w : IsWellFormed d t) (short : key_size < 2 ^ 16)
    (missed : lookup_index d key key_size hash ≡ ok (absent i dist, d)) (behind : i ≤ f)
    (inside : f < length t) (free : is_empty (slot t f) ≡ true) where
  abbrev pub bucket : ℕ
  bucket = home d t w key key_size hash

  abbrev pub entry : DictEntry
  entry = make_entry key key_size hash value dist

  place-EndsAt : EndsAt t bucket bucket i × (dist ≡ i - bucket)
  place-EndsAt = absent-EndsAt d t w key key_size hash i dist missed

  entry-distance : entry.distance ≡ i - bucket
  unfolding make_entry
  entry-distance = omega (arith, place-EndsAt.1, w.small)

  pub entry_full : is_empty entry ≡ false
  unfolding is_empty
  entry_full = ground (arith, entry-distance, w.small)

  entry-InsertInv : InsertInv (IsHome d.log2_buckets) 0 t entry i
  entry-InsertInv =
      let ends = place-EndsAt.0 in
      let same : bucket_by_hash entry.hash d.log2_buckets ≡ bucket =
        bucket_by_hash-congr entry.hash hash d.log2_buckets (unfold make_entry in omega arith) in
      record {
        clustered = w.clustered;
        mapped = mapped-IsPlaced d.log2_buckets t w.mapped;
        full = entry_full;
        reach = omega (arith, entry-distance);
        home = λ b at. omega (arith, entry-distance, same, ends.low, at);
        above = omega (arith, entry-distance, ends.low);
        run = λ j low high.
            let (full, close) = ends.run j (omega (arith, entry-distance, ends.low)) high in
            (full, omega (arith, entry-distance, ends.low));
        larger = λ h full. let far = ends.larger h full in omega (arith, entry-distance, ends.low);
      }

  pub gained :
      (r : Dictionary × DictEntry × ℕ) × (insert_relocating d entry i ≡ ok r)
      × Gained (IsHome d.log2_buckets) d t entry i r.0 r.2
  unfolding insert_relocating
  gained = Returns-inv (
      insert_and_relocate-Gained (IsHome d.log2_buckets) 0 0 (capacity d false + 2) d t entry i f
        (λ h b i s above from le at. at) (omega arith) w.has entry-InsertInv behind inside w.small
        free (omega (arith, capacity-HasTable d t w.has)))

  module _ (T : List DictEntry) (e' : DictEntry) (last : ℕ)
      (run : insert_relocating d entry i ≡ ok (record d { table = some T }, e', last)) where
    abbrev relocated : Dictionary
    relocated = record d { table = some T }

    abbrev pub after : Dictionary
    after = count_inserted (record relocated { order = push_order d.order e' })

    pub insert_relocate_and_adjust-relocated :
        insert_relocate_and_adjust d entry i ≡ ok (relocated, e')
    unfolding insert_relocate_and_adjust
    insert_relocate_and_adjust-relocated =
        rw
          (
            run,
            ◌>>=◌,
            cover_still relocated i last w.settled.remap_end,
            adjust_cookies_still (adjust_on_insert relocated e' i last) relocated w.settled.cookies,
          )
          refl

    insert_new-after : d.num_entries < threshold_entries d → insert_new d entry i ≡ ok after
    unfolding insert_new count_inserted threshold_entries capacity
    insert_new-after room = rw insert_relocate_and_adjust-relocated (ground (arith, room, w.has.at))

    insert-after :
        d.num_entries < threshold_entries d → insert d key key_size hash value ≡ ok (0, after)
    unfolding insert place
    insert-after room =
        let alone = only_robust_still d w.settled.iterators in
        let ready : init_if_null d ≡ ok d = unfold init_if_null in rw w.has.at refl in
        let still : remapping after ≡ false =
          unfold remapping count_inserted in rw w.settled.remap_end refl in
        rw (alone, ready, missed, ◌>>=◌, insert_new-after room, ◌>>=◌, still) refl

  -- Insert of a key of less than 2 ^ 16 bytes, which LookupIndex misses in a well-formed dictionary
  -- with an empty cell at the place that it gives or behind it, while the threshold is not reached:
  -- the entries that are in the way move, Insert returns the null pointer, the dictionary is
  -- well-formed after it, and Lookup returns the new value for every key that the new entry is for,
  -- and what the map had before for every other key.
  pub insert-refines :
      d.num_entries < threshold_entries d
      → (r : Dictionary) × (t' : List DictEntry) × (insert d key key_size hash value ≡ ok (0, r))
        × IsWellFormed r t'
        × ((key' : List ℕ) (key_size' hash' : ℕ)
            → lookup r key' key_size' hash'
              ≡ ok (
                if equal (make_entry key key_size hash 0 0) key' key_size' hash'
                    then value
                    else value_in t key' key_size' hash',
                r,
              ))
  insert-refines room =
      let ((r, e', last), run, g) = gained in
      let none_before = missed_free d t key key_size hash i dist w missed in
      let order = push_order d.order e' in
      let wf =
        grown-IsWellFormed d t key key_size hash value dist w short none_before entry_full r g
          order in
      (
        after g.table e' last (run ∙ ap (λ x. ok (x, e', last)) g.same),
        g.table,
        insert-after g.table e' last (run ∙ ap (λ x. ok (x, e', last)) g.same) room,
        wf,
        λ key' key_size' hash'.
            lookup-value_in key' key_size' hash' _ g.table wf
            ∙ rw
                (value_in-grown d t key key_size hash value dist w short none_before entry_full r g
                  order key' key_size' hash')
                refl,
      )
