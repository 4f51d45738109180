-- ===== src/Dict/Remap/Examples.antt =====
-- Examples of the growth of the dictionary of dict/OpenDict.cc.
use zeek_snippets.Prelude.{
  ℕ, suc, ◌+◌, ◌*◌, ◌≤◌, ◌<◌, ◌≡◌, ◌⊎◌, refl, Bool, List, [], ◌∷◌, false, true, not, ◌&&◌, ◌||◌,
  none, some, get_or, ltb, arith, ◌==◌, if◌then◌else◌, every_below, every_below-inv,
}
use zeek_snippets.Run.{Returns}
use zeek_snippets.Dict.{DictEntry, Dictionary, is_empty, equal, same_bytes, make_entry, entry_at}
use zeek_snippets.Dict.Math.{buckets, capacity, bucket_by_hash, fib_hash, threshold_entries}
use zeek_snippets.Dict.Cluster.Order.{slot, IsFull}
use zeek_snippets.Dict.Relocate.{empty_entry}
use zeek_snippets.Dict.Relocate.Count.{one, count}
use zeek_snippets.Dict.Lookup.{
  within_end, lookup, lookup_index, lookup_index_within, lookup_table, lookup_between, lookup_loop,
  previous_loop,
}
use zeek_snippets.Dict.Update.{insert, remove}
use zeek_snippets.Dict.Contents.{for_key, IsWellFormed}
use zeek_snippets.Dict.Contents.View.{value_in}
use zeek_snippets.Dict.Contents.Grows.{insert-grows}
use zeek_snippets.Dict.Tests.{cells, small}
use zeek_snippets.Dict.Examples.{distinct, small-IsWellFormed}
use zeek_snippets.Dict.Remap.{remap}
use zeek_snippets.Dict.Remap.Room.{from_bucket}
use zeek_snippets.Dict.Remap.Growing.{IsGrowing, SameMap, remap-refines}
use zeek_snippets.Dict.Remap.Larger.{grown, longer, grown-IsGrowing}
use zeek_snippets.Dict.Remap.Put.{insert-puts}
use zeek_snippets.Dict.Remap.Drop.{remove-deletes}
use zeek_snippets.Dict.Remap.Find.{StandsHome, lookup-reads}

-- From `s` on, 8 buckets have more cells than entries of the three.
abbrev roomy : ℕ → Bool
roomy s = ltb (count (from_bucket 3 s) cells + s) 11

small_room : (s : ℕ) → s < 11 → count (from_bucket 3 s) cells + s < 11
small_room s h = ground (arith, every_below-inv roomy 11 s h table)
  where
    table : every_below roomy 11 ≡ true
    table = unfold every_below is_empty empty_entry bucket_by_hash fib_hash in refl

abbrev larger : Dictionary
larger = grown small cells small-IsWellFormed (omega arith) (omega arith) small_room

abbrev larger_cells : List DictEntry
larger_cells = longer small cells small-IsWellFormed (omega arith) (omega arith) small_room

larger-IsGrowing : IsGrowing 2 larger larger_cells
larger-IsGrowing =
    grown-IsGrowing small cells small-IsWellFormed (omega arith) (omega arith) small_room

remap-refines_example :
    Returns
      (λ r.
        (t' : List DictEntry) × SameMap larger_cells t' × (IsGrowing 2 r t' ⊎ IsWellFormed r t'))
      (remap larger)
remap-refines_example = remap-refines 2 larger larger_cells larger-IsGrowing

lookup-reads_example :
    Returns
      (λ (r : ℕ × Dictionary).
        (r.0 ≡ value_in larger_cells (3 ∷ []) 1 1)
        × ((t' : List DictEntry) × SameMap larger_cells t'
            × IsGrowing 2 r.1 t'
            × ((count (for_key (3 ∷ []) 1 1) larger_cells ≡ 0) ⊎ StandsHome 2 t' (3 ∷ []) 1 1)))
      (lookup larger (3 ∷ []) 1 1)
lookup-reads_example = lookup-reads 2 larger larger_cells (3 ∷ []) 1 1 larger-IsGrowing

-- Every entry is another one than those behind it.
abbrev apart : DictEntry → List DictEntry → Bool
apart x [] = true
apart x (y ∷ t) =
    (is_empty y || (equal y y.key y.key_size y.hash && not (equal x y.key y.key_size y.hash)))
    && apart x t

abbrev all_apart : List DictEntry → Bool
all_apart [] = true
all_apart (x ∷ t) = (is_empty x || apart x t) && all_apart t

apart-none :
    (x : DictEntry) (t : List DictEntry) (key : List ℕ) (key_size hash : ℕ)
    → apart x t ≡ true
    → equal x key key_size hash ≡ true
    → count (for_key key key_size hash) t ≡ 0
apart-none x [] key key_size hash off on = refl
apart-none x (y ∷ t) key key_size hash off on =
    ground (arith, off, distinct x y key key_size hash, on, apart-none x t key key_size hash)

all_apart_unique :
    (t : List DictEntry) (key : List ℕ) (key_size hash : ℕ)
    → all_apart t ≡ true
    → count (for_key key key_size hash) t ≤ 1
all_apart_unique [] key key_size hash off = omega arith
all_apart_unique (x ∷ t) key key_size hash off =
    ground (arith, off, apart-none x t key key_size hash, all_apart_unique t key key_size hash)

-- An entry of a key of one byte, which is also its hash.
abbrev of_hash : ℕ → DictEntry
of_hash h = record { distance = 0; key_size = 1; hash = h; value = 10 * h; key = h ∷ [] }

-- 16 buckets, with an entry in each but that of the hash 15.
abbrev crowd : List DictEntry
crowd =
    of_hash 0
    ∷ of_hash 13
    ∷ of_hash 10
    ∷ of_hash 7
    ∷ of_hash 4
    ∷ of_hash 1
    ∷ of_hash 14
    ∷ of_hash 11
    ∷ of_hash 8
    ∷ of_hash 5
    ∷ of_hash 2
    ∷ empty_entry
    ∷ of_hash 12
    ∷ of_hash 9
    ∷ of_hash 6
    ∷ of_hash 3
    ∷ empty_entry
    ∷ empty_entry
    ∷ empty_entry
    ∷ empty_entry
    ∷ []

abbrev crowded : Dictionary
crowded = record {
  remaps = 0;
  log2_buckets = 4;
  num_iterators = 0;
  remap_end = none;
  num_entries = 15;
  max_entries = 15;
  cum_entries = 15;
  delete_func = false;
  table = some crowd;
  cookies = none;
  order = none;
}

abbrev at_home : ℕ → Bool
at_home i =
    is_empty (slot crowd i)
    || ((slot crowd i).distance == 0 && bucket_by_hash (slot crowd i).hash 4 == i)

crowd-at_home :
    (i : ℕ)
    → i < 20
    → IsFull crowd i
    → ((slot crowd i).distance ≡ 0) × (bucket_by_hash (slot crowd i).hash 4 ≡ i)
crowd-at_home i h full = ground (arith, every_below-inv at_home 20 i h table, full)
  where
    table : every_below at_home 20 ≡ true
    table = unfold every_below is_empty empty_entry bucket_by_hash fib_hash get_or in refl

crowded-IsWellFormed : IsWellFormed crowded crowd
crowded-IsWellFormed = record {
  has = record { at = refl; cells = refl };
  settled = record {
    remaps = refl;
    remap_end = refl;
    cookies = refl;
    iterators = refl;
    bits = omega arith;
  };
  clustered = record {
    reaches = λ i h full. omega (arith, crowd-at_home i h full);
    packed = λ i h full far. absurd (omega (arith, crowd-at_home (suc i) h full));
  };
  mapped = λ i h full. omega (arith, crowd-at_home i h full);
  unique = λ key key_size hash.
      all_apart_unique crowd key key_size hash
        (unfold equal same_bytes is_empty empty_entry in refl);
  counted = unfold is_empty empty_entry in refl;
  small = omega arith;
}

abbrev crowd_roomy : ℕ → Bool
crowd_roomy s =
    ltb
      (count (from_bucket 5 s) crowd + one (from_bucket 5 s) (make_entry (15 ∷ []) 1 15 150 0) + s)
      37

crowd_room :
    (s : ℕ)
    → s < 37
    → count (from_bucket 5 s) crowd + one (from_bucket 5 s) (make_entry (15 ∷ []) 1 15 150 0) + s
      < 37
crowd_room s h = ground (arith, every_below-inv crowd_roomy 37 s h table)
  where
    table : every_below crowd_roomy 37 ≡ true
    table = unfold every_below is_empty empty_entry bucket_by_hash fib_hash make_entry in refl

-- The entry for the 16th bucket is one more than the threshold.
insert-grows_example :
    Returns
      (λ (r : ℕ × Dictionary).
        (r.0 ≡ 0)
        × (r.1.log2_buckets ≡ 5)
        × ((t' : List DictEntry) × (IsGrowing 4 r.1 t' ⊎ IsWellFormed r.1 t')
            × ((key' : List ℕ) (key_size' hash' : ℕ)
                → value_in t' key' key_size' hash' ≡ (
                    if equal (make_entry (15 ∷ []) 1 15 0 0) key' key_size' hash'
                    then 150
                    else value_in crowd key' key_size' hash'))))
      (insert crowded (15 ∷ []) 1 15 150)
unfolding lookup_index lookup_index_within lookup_table lookup_between lookup_loop previous_loop
    bucket_by_hash fib_hash buckets capacity entry_at is_empty empty_entry equal same_bytes
    threshold_entries get_or
insert-grows_example =
    insert-grows crowded crowd (15 ∷ []) 1 15 150 11 0 11 crowded-IsWellFormed (omega arith) refl
      (omega arith) (omega arith) refl (omega arith) (omega arith) (omega arith) crowd_room

-- The same dictionary without an insertion order.
abbrev larger_plain : Dictionary
larger_plain = record larger { order = none }

larger_plain-IsGrowing : IsGrowing 2 larger_plain larger_cells
larger_plain-IsGrowing =
    let g = larger-IsGrowing in
    record {
      mixed = record {
        has = record { at = refl; cells = g.mixed.has.cells };
        bits = refl;
        few = omega arith;
        clustered = g.mixed.clustered;
        placed = g.mixed.placed;
        room = g.mixed.room;
        within = g.mixed.within;
        small = g.mixed.small;
        cookies = refl;
      };
      remaps = refl;
      iterators = refl;
      unique = g.unique;
      counted = g.counted;
    }

remove-deletes_example :
    Returns
      (λ (r : ℕ × Dictionary).
        (r.0 ≡ value_in larger_cells (3 ∷ []) 1 1)
        × ((t' : List DictEntry) × IsGrowing 2 r.1 t'
            × ((key' : List ℕ) (key_size' hash' : ℕ)
                → value_in t' key' key_size' hash' ≡ (
                    if equal (make_entry (3 ∷ []) 1 1 0 0) key' key_size' hash'
                    then 0
                    else value_in larger_cells key' key_size' hash'))))
      (remove larger_plain (3 ∷ []) 1 1)
remove-deletes_example =
    remove-deletes 2 larger_plain larger_cells (3 ∷ []) 1 1 larger_plain-IsGrowing refl
      (omega arith)

abbrev puts_roomy : ℕ → Bool
puts_roomy s =
    ltb
      (count (from_bucket 3 s) larger_cells
        + one (from_bucket 3 s) (make_entry (4 ∷ []) 1 2 40 1)
        + s)
      11

puts_room :
    (s : ℕ)
    → s < 11
    → count (from_bucket 3 s) larger_cells
        + one (from_bucket 3 s) (make_entry (4 ∷ []) 1 2 40 1)
        + s
      < 11
puts_room s h = ground (arith, every_below-inv puts_roomy 11 s h table)
  where
    table : every_below puts_roomy 11 ≡ true
    table = unfold every_below is_empty empty_entry bucket_by_hash fib_hash make_entry in refl

insert-puts_example :
    Returns
      (λ (r : ℕ × Dictionary).
        (r.0 ≡ 0)
        × ((t' : List DictEntry) × (IsGrowing 2 r.1 t' ⊎ IsWellFormed r.1 t')
            × ((key' : List ℕ) (key_size' hash' : ℕ)
                → value_in t' key' key_size' hash' ≡ (
                    if equal (make_entry (4 ∷ []) 1 2 0 0) key' key_size' hash'
                    then 40
                    else value_in larger_cells key' key_size' hash'))))
      (insert larger (4 ∷ []) 1 2 40)
unfolding lookup_index lookup_index_within lookup_table lookup_between lookup_loop previous_loop
    within_end bucket_by_hash fib_hash buckets capacity entry_at is_empty empty_entry equal
    same_bytes threshold_entries get_or
insert-puts_example =
    insert-puts 2 larger larger_cells (4 ∷ []) 1 2 40 3 1 larger-IsGrowing (omega arith) refl
      (omega arith) puts_room
