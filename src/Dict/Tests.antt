-- ===== src/Dict/Tests.antt =====
-- Runs of the dictionary of dict/OpenDict.cc, and examples of what is proved of it.
use zeek_snippets.Prelude.{
  ℕ, zero, suc, ◌+◌, ◌≤◌, ◌<◌, ◌≡◌, ◌%◌, refl, List, [], ◌∷◌, ◌++◌, false, some, none, get_or,
  arith, true,
}
use zeek_snippets.Run.{Run, ok, fault, out_of_fuel}
use zeek_snippets.Dict.{
  DictEntry, Dictionary, is_empty, equal, same_bytes, entry_at, write_at, IterCookie,
}
use zeek_snippets.Dict.Math.{buckets, capacity, bucket_by_hash, fib_hash, threshold_entries}
use zeek_snippets.Dict.Math.Bounds.{bucket_by_hash-mod}
use zeek_snippets.Dict.Cluster.{
  head_of_cluster_by_position, cluster_loop, tail_of_cluster_by_position,
  end_of_cluster_by_position,
}
use zeek_snippets.Dict.Cluster.Order.{slot, IsFull, HasTable, IsClustered, IsMapped}
use zeek_snippets.Dict.Cluster.Head.{Together, head_of_cluster_by_position_off}
use zeek_snippets.Dict.Lookup.{
  Search, lookup_index, lookup_index_within, lookup_table, lookup_between, lookup_loop,
  previous_loop, linear_lookup_index,
}
use zeek_snippets.Dict.Lookup.Linear.{position_of, lookup_index_linear}
use zeek_snippets.Dict.Relocate.{empty_entry, size_up, insert_relocating, insert_and_relocate}
use zeek_snippets.Dict.Relocate.Displaced.{IsFrom}
use zeek_snippets.Dict.Update.{
  adjust_cookies, cover, insert_relocate_and_adjust, push_order, count_inserted, insert_new,
}
use zeek_snippets.Dict.Update.{only_robust, remove}
use zeek_snippets.Dict.Update.Unstarted.{Faults, remove-unstarted}
use zeek_snippets.Dict.Update.Inserted.{IsSettled}
use zeek_snippets.Dict.Update.Order.{insert_new-order}

-- Two entries of the bucket 0 and, behind them, one of the bucket 1.
abbrev pub first : DictEntry
first = record { distance = 0; key_size = 1; hash = 0; value = 10; key = 1 ∷ [] }

abbrev pub second : DictEntry
second = record { distance = 1; key_size = 1; hash = 0; value = 20; key = 2 ∷ [] }

abbrev pub third : DictEntry
third = record { distance = 1; key_size = 1; hash = 1; value = 30; key = 3 ∷ [] }

-- A new entry of the bucket 0.
abbrev pub fourth : DictEntry
fourth = record { distance = 2; key_size = 1; hash = 0; value = 40; key = 4 ∷ [] }

abbrev pub cells : List DictEntry
cells = first ∷ second ∷ third ∷ empty_entry ∷ empty_entry ∷ empty_entry ∷ []

abbrev pub small : Dictionary
small = record {
  remaps = 0;
  log2_buckets = 2;
  num_iterators = 0;
  remap_end = none;
  num_entries = 3;
  max_entries = 3;
  cum_entries = 3;
  delete_func = false;
  table = some cells;
  cookies = none;
  order = some (first ∷ second ∷ third ∷ []);
}

pub small-HasTable : HasTable small cells
small-HasTable = record { at = refl; cells = refl }

pub cells-IsMapped : IsMapped 2 cells
unfolding get_or is_empty empty_entry bucket_by_hash fib_hash
cells-IsMapped zero h full = refl
cells-IsMapped (suc zero) h full = refl
cells-IsMapped (suc (suc zero)) h full = refl
cells-IsMapped (suc (suc (suc zero))) h full = cc
cells-IsMapped (suc (suc (suc (suc zero)))) h full = cc
cells-IsMapped (suc (suc (suc (suc (suc zero))))) h full = cc
cells-IsMapped (suc (suc (suc (suc (suc (suc i)))))) h full = absurd (omega arith)

pub cells-IsClustered : IsClustered cells
unfolding get_or is_empty empty_entry
cells-IsClustered = record {
  reaches = λ i h full. reaches i h full;
  packed = λ i h full far. packed i h full far;
}
  where
    reaches : (i : ℕ) → i < 6 → IsFull cells i → (slot cells i).distance ≤ i
    reaches zero h full = omega arith
    reaches (suc zero) h full = omega arith
    reaches (suc (suc zero)) h full = omega arith
    reaches (suc (suc (suc zero))) h full = cc
    reaches (suc (suc (suc (suc zero)))) h full = cc
    reaches (suc (suc (suc (suc (suc zero))))) h full = cc
    reaches (suc (suc (suc (suc (suc (suc i)))))) h full = absurd (omega arith)

    packed :
        (i : ℕ)
        → suc i < 6
        → IsFull cells (suc i)
        → 0 < (slot cells (suc i)).distance
        → IsFull cells i × ((slot cells (suc i)).distance ≤ (slot cells i).distance + 1)
    packed zero h full far = (refl, omega arith)
    packed (suc zero) h full far = (refl, omega arith)
    packed (suc (suc zero)) h full far = cc
    packed (suc (suc (suc zero))) h full far = cc
    packed (suc (suc (suc (suc zero)))) h full far = cc
    packed (suc (suc (suc (suc (suc i))))) h full far = absurd (omega arith)

bucket_by_hash-mod_example : bucket_by_hash 77 5 ≡ fib_hash 77 % 32
bucket_by_hash-mod_example = bucket_by_hash-mod 77 5 (omega arith)

lookup_index_linear_example :
    (s : Search) × (lookup_index small (3 ∷ []) 1 1 ≡ ok (s, small))
    × (linear_lookup_index small (3 ∷ []) 1 1 ≡ ok (position_of s))
lookup_index_linear_example =
    lookup_index_linear small cells (3 ∷ []) 1 1 small-HasTable cells-IsMapped cells-IsClustered
      refl (omega arith)

third-Together : (i : ℕ) → 1 < i → i ≤ 2 → Together small third 2 i
unfolding entry_at is_empty
third-Together zero low high = absurd (omega arith)
third-Together (suc zero) low high = absurd (omega arith)
third-Together (suc (suc zero)) low high = (third, refl, refl, refl)
third-Together (suc (suc (suc i))) low high = absurd (omega arith)

head_of_cluster_by_position_off_example : head_of_cluster_by_position small 2 ≡ ok 1
unfolding entry_at is_empty capacity
head_of_cluster_by_position_off_example =
    head_of_cluster_by_position_off small third second 2 1 (omega arith) refl refl refl
      (omega arith) refl refl (omega arith) third-Together

abbrev result : Run Dictionary → Dictionary
result (ok d) = d
result (fault e) = small
result out_of_fuel = small

insert_new-order_example :
    (e' : DictEntry) × ((result (insert_new small fourth 2)).order
      ≡ some ((first ∷ second ∷ third ∷ []) ++ e' ∷ []))
    × IsFrom small 2 e'
unfolding insert_new insert_relocate_and_adjust insert_relocating insert_and_relocate capacity
    entry_at is_empty empty_entry end_of_cluster_by_position tail_of_cluster_by_position
    cluster_loop write_at adjust_cookies cover push_order count_inserted threshold_entries size_up
insert_new-order_example =
    insert_new-order small (result (insert_new small fourth 2)) fourth third
      (first ∷ second ∷ third ∷ []) 2 refl (omega arith) refl refl refl

abbrev fresh_cookie : IterCookie
fresh_cookie = record { id = 1; robust = true; next = none; inserted = []; visited = [] }

abbrev started_cookie : IterCookie
started_cookie = record { id = 2; robust = true; next = some 2; inserted = []; visited = [] }

abbrev watched : Dictionary
watched = record small { num_iterators = 2; cookies = some (started_cookie ∷ fresh_cookie ∷ []) }

-- A second cookie has not started.
remove-unstarted_example : Faults (remove watched (2 ∷ []) 1 0)
unfolding lookup_index lookup_index_within lookup_table lookup_between lookup_loop previous_loop
    bucket_by_hash fib_hash buckets capacity entry_at is_empty empty_entry equal same_bytes
    only_robust get_or
remove-unstarted_example =
    remove-unstarted watched cells (2 ∷ []) 1 0 1 (started_cookie ∷ []) [] fresh_cookie
      (record { at = refl; cells = refl }) cells-IsClustered cells-IsMapped (omega arith) refl refl
      (omega arith) refl refl refl

pub small-IsSettled : IsSettled small
small-IsSettled = record {
  remaps = refl;
  remap_end = refl;
  cookies = refl;
  iterators = refl;
  bits = omega arith;
}
