-- ===== src/Dict/Contents/Grows.antt =====
-- Insert of dict/OpenDict.cc for a new key that reaches the threshold: the dictionary grows, and
-- starts to remap.
use zeek_snippets.Prelude.{
  ℕ, suc, ltb, ◌+◌, ◌^◌, ◌≤◌, ◌<◌, ◌≡◌, ◌⊎◌, refl, ap, ◌∙◌, true, false, List, some, length, arith,
  if◌then◌else◌,
}
use zeek_snippets.Run.{ok, ◌>>=◌}
use zeek_snippets.Dict.{DictEntry, Dictionary, make_entry, is_empty, equal, remapping}
use zeek_snippets.Dict.Math.{capacity, threshold_entries}
use zeek_snippets.Dict.Cluster.Order.{IsHome, slot}
use zeek_snippets.Dict.Relocate.{insert_relocating}
use zeek_snippets.Dict.Relocate.Insertion.{Gained}
use zeek_snippets.Dict.Lookup.{absent, lookup_index}
use zeek_snippets.Dict.Update.{push_order, count_inserted, insert_new, init_if_null, place, insert}
use zeek_snippets.Dict.Contents.{for_key, IsWellFormed, missed_free}
use zeek_snippets.Dict.Contents.Settled.{only_robust_still}
use zeek_snippets.Dict.Contents.View.{value_in}
use zeek_snippets.Dict.Contents.Gained.{grown-IsWellFormed, value_in-grown}
use zeek_snippets.Run.{Returns, returns, Returns-both, Returns-bind}
use zeek_snippets.Dict.Math.{capacity_of}
use zeek_snippets.Dict.Relocate.{size_up}
use zeek_snippets.Dict.Relocate.Count.{one, count}
use zeek_snippets.Dict.Contents.Gain.{
  entry, entry_full, gained, after, insert_relocate_and_adjust-relocated,
}
use zeek_snippets.Dict.Remap.{remap}
use zeek_snippets.Dict.Remap.Room.{from_bucket}
use zeek_snippets.Dict.Remap.Growing.{IsGrowing, remap-refines, remap-log2_buckets}
use zeek_snippets.Dict.Remap.Larger.{grown, longer, longer-SameMap, size_up-grown, grown-IsGrowing}

module _ (d : Dictionary) (t : List DictEntry) (key : List ℕ) (key_size hash value i dist f : ℕ)
    (w : IsWellFormed d t) (short : key_size < 2 ^ 16)
    (missed : lookup_index d key key_size hash ≡ ok (absent i dist, d)) (behind : i ≤ f)
    (inside : f < length t) (free : is_empty (slot t f) ≡ true)
    (crossed : threshold_entries d ≤ d.num_entries) (few : d.log2_buckets < 64)
    (small : capacity_of (suc d.log2_buckets) ≤ 0xFFFF)
    (space : (s : ℕ)
      → s < capacity_of (suc d.log2_buckets)
      → count (from_bucket (suc d.log2_buckets) s) t
          + one (from_bucket (suc d.log2_buckets) s) (make_entry key key_size hash value dist)
          + s
        < capacity_of (suc d.log2_buckets)) where
  abbrev added : DictEntry
  added = entry d t key key_size hash value i dist f w short missed behind inside free

  module _ (e' : DictEntry) (last : ℕ) (r : Dictionary)
      (run : insert_relocating d added i ≡ ok (r, e', last))
      (g : Gained (IsHome d.log2_buckets) d t added i r last) where
    abbrev full_run : insert_relocating d added i ≡ ok (record d { table = some g.table }, e', last)
    full_run = run ∙ ap (λ x. ok (x, e', last)) g.same

    abbrev kept : Dictionary
    kept =
        after d t key key_size hash value i dist f w short missed behind inside free g.table e' last
          full_run

    abbrev no_key : count (for_key key key_size hash) t ≡ 0
    no_key = missed_free d t key key_size hash i dist w missed

    abbrev full_entry : is_empty added ≡ false
    full_entry = entry_full d t key key_size hash value i dist f w short missed behind inside free

    kept-IsWellFormed : IsWellFormed kept g.table
    kept-IsWellFormed =
        grown-IsWellFormed d t key key_size hash value dist w short no_key full_entry r g
          (push_order d.order e')

    over : ltb (threshold_entries kept) kept.num_entries ≡ true
    unfolding count_inserted threshold_entries capacity
    over = ground (arith, crossed, w.has.at)

    insert_new-size_up : insert_new d added i ≡ size_up kept
    unfolding insert_new
    insert_new-size_up =
        rw
          (
            insert_relocate_and_adjust-relocated d t key key_size hash value i dist f w short missed
                behind inside free g.table e' last full_run,
            ◌>>=◌,
            over,
          )
          refl

    few_buckets : kept.log2_buckets < 64
    unfolding count_inserted
    few_buckets = few

    small_table : capacity_of (suc kept.log2_buckets) ≤ 0xFFFF
    unfolding count_inserted
    small_table = small

    has_space :
        (s : ℕ)
        → s < capacity_of (suc kept.log2_buckets)
        → count (from_bucket (suc kept.log2_buckets) s) g.table + s
          < capacity_of (suc kept.log2_buckets)
    unfolding count_inserted
    has_space s h =
        omega (arith, space s h, g.counts (from_bucket (suc d.log2_buckets) s) (λ x k. refl))

    abbrev wider : Dictionary
    wider = grown kept g.table kept-IsWellFormed few_buckets small_table has_space

    insert-remap : insert d key key_size hash value ≡ (remap wider >>= λ d₁. ok (0, d₁))
    unfolding insert place
    insert-remap =
        let alone = only_robust_still d w.settled.iterators in
        let ready : init_if_null d ≡ ok d = unfold init_if_null in rw w.has.at refl in
        let left : remapping wider ≡ true = unfold remapping in refl in
        let up = size_up-grown kept g.table kept-IsWellFormed few_buckets small_table has_space in
        rw (alone, ready, missed, ◌>>=◌, insert_new-size_up, up, ◌>>=◌, left) refl

  -- Insert of a new key as above that makes more entries than the threshold, where the table for
  -- twice as many buckets stays within 16 bits and has, from no cell on, as many entries for the
  -- buckets from there on as cells: Insert returns the null pointer without a fault and doubles the
  -- buckets; the dictionary is between the two sizes, or is well-formed at the new one already; and as
  -- a map it has the new value for every key that the new entry is for, and what it had before for
  -- every other key.
  pub insert-grows :
      Returns
        (λ (r : ℕ × Dictionary).
          (r.0 ≡ 0)
          × (r.1.log2_buckets ≡ suc d.log2_buckets)
          × ((t' : List DictEntry) × (IsGrowing d.log2_buckets r.1 t' ⊎ IsWellFormed r.1 t')
              × ((key' : List ℕ) (key_size' hash' : ℕ)
                  → value_in t' key' key_size' hash' ≡ (
                      if equal (make_entry key key_size hash 0 0) key' key_size' hash'
                      then value
                      else value_in t key' key_size' hash'))))
        (insert d key key_size hash value)
  unfolding count_inserted
  insert-grows =
      let ((r, e', last), run, g) =
        gained d t key key_size hash value i dist f w short missed behind inside free in
      let wf = kept-IsWellFormed e' last r run g in
      let n = (kept e' last r run g).log2_buckets in
      let few' = few_buckets e' last r run g in
      let small' = small_table e' last r run g in
      let space' = has_space e' last r run g in
      let growing = grown-IsGrowing (kept e' last r run g) g.table wf few' small' space' in
      let same = longer-SameMap (kept e' last r run g) g.table wf few' small' space' in
      let wide = longer (kept e' last r run g) g.table wf few' small' space' in
      rw (insert-remap e' last r run g) (
        Returns-bind
          (Returns-both (remap-refines n (wider e' last r run g) wide growing)
            (remap-log2_buckets n (wider e' last r run g) wide growing))
          λ d₁ ((t', same', either), doubled). returns (
            refl,
            doubled,
            (
              t',
              either,
              λ key' key_size' hash'.
                  same' key' key_size' hash'
                  ∙ same key' key_size' hash'
                  ∙ value_in-grown d t key key_size hash value dist w short (no_key e' last r run g)
                      (full_entry e' last r run g) r g (push_order d.order e') key' key_size' hash',
            ),
          ))
