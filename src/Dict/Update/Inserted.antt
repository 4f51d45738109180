-- ===== src/Dict/Update/Inserted.antt =====
-- Insert of dict/OpenDict.cc for a new key where nothing has to move, and the Lookup after it.
use zeek_snippets.Prelude.{
  ℕ, suc, ◌+◌, ◌-◌, ◌%◌, ◌^◌, ◌≤◌, ◌<◌, ◌≡◌, refl, sym, ◌∙◌, true, false, List, [], ◌∷◌, none, some,
  length, take, set, get_or-set, length-set, arith, ◌==◌,
}
use zeek_snippets.Run.{Run, ok, fault, out_of_fuel, ◌>>=◌, >>=-eq-ok}
use zeek_snippets.Dict.{
  DictEntry, Dictionary, make_entry, is_empty, same_bytes, equal, remapping, write_at,
}
use zeek_snippets.Dict.Math.{bucket_by_hash, buckets, capacity, threshold_entries}
use zeek_snippets.Dict.Math.Bounds.{bucket_by_hash-lt}
use zeek_snippets.Dict.Cluster.Order.{slot, HasTable, capacity-HasTable, entry_at-slot}
use zeek_snippets.Dict.Relocate.{empty_entry, insert_and_relocate, insert_relocating}
use zeek_snippets.Dict.Lookup.{
  Search, found, absent, no_table, lookup_loop, lookup_between, lookup_table, lookup_index_within,
  lookup_index, lookup, previous_loop,
}
use zeek_snippets.Dict.Lookup.Written.{lookup_loop-absent, lookup_loop-written}
use zeek_snippets.Dict.Update.{
  adjust_cookies, cover, insert_relocate_and_adjust, push_order, count_inserted, insert_new,
  only_robust, init_if_null, place, insert,
}

-- No remap and no iteration is going on.
pub record IsSettled (d : Dictionary) : Type 0 where
  pub remaps : d.remaps ≡ 0
  pub remap_end : d.remap_end ≡ none
  pub cookies : d.cookies ≡ none
  pub iterators : d.num_iterators ≡ 0
  pub bits : d.log2_buckets ≤ 64

pub same_bytes_refl : (xs : List ℕ) → same_bytes xs xs ≡ true
unfolding same_bytes
same_bytes_refl [] = refl
same_bytes_refl (x ∷ xs) = ground (arith, same_bytes_refl xs)

pub made-equal :
    (key : List ℕ) (key_size hash value distance : ℕ)
    → key_size < 2 ^ 16
    → equal (make_entry key key_size hash value distance) key key_size hash ≡ true
unfolding equal make_entry
made-equal key key_size hash value distance small =
    ground (arith, same_bytes_refl (take (key_size % 2 ^ 16) key))

missed_before :
    (again : Dictionary → Run (Search × Dictionary)) (d : Dictionary) (key : List ℕ)
    (key_size hash : ℕ) (m : Run Search)
    → d.remaps ≡ 0
    → ◌>>=◌ {B = Search × Dictionary} m (λ s. elim s [
      | found p ↦ ok (found p, d)
      | absent i dist ↦ previous_loop again d.remaps d key key_size hash 1 (absent i dist)
      | no_table ↦ ok (no_table, d)
    ])
      ≡ (m >>= λ s. ok (s, d))
unfolding previous_loop
missed_before again d key key_size hash (ok (found p)) none_left = refl
missed_before again d key key_size hash (ok (absent i dist)) none_left = rw none_left refl
missed_before again d key key_size hash (ok no_table) none_left = refl
missed_before again d key key_size hash (fault f) none_left = refl
missed_before again d key key_size hash out_of_fuel none_left = refl

lookup_between-loop :
    (d : Dictionary) (t : List DictEntry) (key : List ℕ) (key_size hash home : ℕ)
    → HasTable d t
    → home < 2 ^ d.log2_buckets
    → lookup_between d key key_size hash home (capacity d false)
      ≡ lookup_loop (length t - home) d key key_size hash home home
unfolding lookup_between buckets
lookup_between-loop d t key key_size hash home table small =
    rw (capacity-HasTable d t table) (ground (arith, table.at))

-- With no remap going on LookupIndex is its search in the table of the present size.
pub lookup_index-loop :
    (d : Dictionary) (t : List DictEntry) (key : List ℕ) (key_size hash home : ℕ)
    → HasTable d t
    → d.remaps ≡ 0
    → home < 2 ^ d.log2_buckets
    → bucket_by_hash hash d.log2_buckets ≡ home
    → lookup_index d key key_size hash
      ≡ (lookup_loop (length t - home) d key key_size hash home home >>= λ s. ok (s, d))
lookup_index-loop d t key key_size hash home table none_left small at_home =
    let there : lookup_index d key key_size hash
        ≡ lookup_table (lookup_index_within 1 key key_size hash) d key key_size hash =
      unfold lookup_index in rw table.at refl in
    there
    ∙ (unfold lookup_table in
        rw (at_home, lookup_between-loop d t key key_size hash home table small)
          (missed_before _ d key key_size hash _ none_left))

module _ (d : Dictionary) (t : List DictEntry) (e : DictEntry) (i : ℕ) (table : HasTable d t)
    (settled : IsSettled d) (inside : i < length t) (clear : is_empty (slot t i) ≡ true) where
  abbrev written : Dictionary
  written = record d { table = some (set t i e) }

  written-HasTable : HasTable written (set t i e)
  written-HasTable = record { at = refl; cells = length-set t i e ∙ table.cells }

  insert_and_relocate-clear : (k : ℕ) → insert_and_relocate (suc k) d e i ≡ ok (written, e, i)
  unfolding insert_and_relocate write_at
  insert_and_relocate-clear k =
      rw (capacity-HasTable d t table, entry_at-slot d t i table inside, clear, table.at)
        (ground arith)

  insert_relocate_and_adjust-clear : insert_relocate_and_adjust d e i ≡ ok (written, e)
  unfolding insert_relocate_and_adjust insert_relocating cover adjust_cookies
  insert_relocate_and_adjust-clear =
      let fuel : capacity d false + 2 ≡ suc (capacity d false + 1) = omega arith in
      rw
        (fuel, insert_and_relocate-clear (capacity d false + 1), settled.remap_end, settled.cookies)
        refl

  abbrev grown : Dictionary
  grown = count_inserted (record written { order = push_order d.order e })

  insert_new-clear : d.num_entries < threshold_entries d → insert_new d e i ≡ ok grown
  unfolding insert_new count_inserted threshold_entries capacity
  insert_new-clear room = rw insert_relocate_and_adjust-clear (ground (arith, table.at))

module _ (d : Dictionary) (t : List DictEntry) (key : List ℕ) (key_size hash value i dist : ℕ)
    (table : HasTable d t) (settled : IsSettled d) (short : key_size < 2 ^ 16)
    (near : dist < 0xFFFF) (room : d.num_entries < threshold_entries d)
    (missed : lookup_index d key key_size hash ≡ ok (absent i dist, d)) (inside : i < length t)
    (clear : is_empty (slot t i) ≡ true) where
  abbrev home : ℕ
  home = bucket_by_hash hash d.log2_buckets

  abbrev entry : DictEntry
  entry = make_entry key key_size hash value dist

  abbrev after : Dictionary
  after = grown d t entry i table settled inside clear

  home-lt : home < 2 ^ d.log2_buckets
  home-lt = bucket_by_hash-lt hash d.log2_buckets settled.bits

  missed_loop : lookup_loop (length t - home) d key key_size hash home home ≡ ok (absent i dist)
  missed_loop =
      let run =
        sym (lookup_index-loop d t key key_size hash home table settled.remaps home-lt refl)
        ∙ missed in
      let (s, loop, same) =
        >>=-eq-ok (lookup_loop (length t - home) d key key_size hash home home) _ run in
      ground (arith, loop, same)

  entry-home : i ≡ home + entry.distance
  unfolding make_entry
  entry-home =
      let (low, far) =
        lookup_loop-absent key key_size hash home d t (length t - home) home i dist table
          (omega (arith, home-lt, table.cells)) missed_loop in
      omega (arith, near, far, low)

  entry_full : is_empty entry ≡ false
  unfolding is_empty make_entry
  entry_full = ground (arith, near)

  after-HasTable : HasTable after (set t i entry)
  unfolding count_inserted
  after-HasTable = record { at = refl; cells = length-set t i entry ∙ table.cells }

  insert-clear : insert d key key_size hash value ≡ ok (0, after)
  unfolding insert place
  insert-clear =
      let alone : only_robust d ≡ true = unfold only_robust in rw settled.iterators refl in
      let ready : init_if_null d ≡ ok d = unfold init_if_null in rw table.at refl in
      let still : remapping after ≡ false =
        unfold remapping count_inserted in rw settled.remap_end refl in
      rw
        (
          alone,
          ready,
          missed,
          ◌>>=◌,
          insert_new-clear d t entry i table settled inside clear room,
          ◌>>=◌,
          still,
        )
        refl

  lookup-after : lookup_index after key key_size hash ≡ ok (found i, after)
  unfolding count_inserted
  lookup-after =
      let wide : length (set t i entry) ≡ length t = length-set t i entry in
      lookup_index-loop after (set t i entry) key key_size hash home after-HasTable settled.remaps
        home-lt refl
      ∙ rw
          (
            wide,
            lookup_loop-written key key_size hash home d after t entry i dist table after-HasTable
                inside entry_full (made-equal key key_size hash value dist short) entry-home
                (length t - home) home (omega (arith, home-lt, table.cells)) missed_loop,
          )
          refl

  -- In a dictionary of up to 2 ^ 64 buckets with no remap and no iteration going on, where the place
  -- that LookupIndex gives for a key that is not there is an empty cell, and the threshold is not
  -- reached: Insert of a key of less than 2 ^ 16 bytes, at a distance that is no mark of an empty
  -- cell, returns the null pointer, and Lookup returns after it the value that was inserted.
  pub insert-lookup :
      (r : Dictionary) × (insert d key key_size hash value ≡ ok (0, r))
      × (lookup r key key_size hash ≡ ok (value, r))
  unfolding lookup make_entry
  insert-lookup =
      let self : (i == i) ≡ true = ground arith in
      let there : slot (set t i entry) i ≡ entry =
        get_or-set t i i entry empty_entry inside ∙ rw self refl in
      let wide : i < length (set t i entry) = omega (arith, length-set t i entry) in
      (
        after,
        insert-clear,
        rw (lookup-after, ◌>>=◌, entry_at-slot after (set t i entry) i after-HasTable wide, there)
            refl,
      )
