-- ===== src/Dict/Examples.antt =====
-- Examples of what is proved of the dictionary of dict/OpenDict.cc as a map, and of the moves of its
-- entries.
use zeek_snippets.Prelude.{
  ℕ, zero, suc, ◌+◌, ◌≤◌, ◌<◌, ◌≡◌, refl, List, [], ◌∷◌, false, true, none, get_or, arith,
  if◌then◌else◌, Bool-cases, inl, inr,
}
use zeek_snippets.Run.{ok, Returns}
use zeek_snippets.Dict.{DictEntry, Dictionary, is_empty, equal, same_bytes, make_entry, entry_at}
use zeek_snippets.Dict.Math.{buckets, capacity, bucket_by_hash, fib_hash, threshold_entries}
use zeek_snippets.Dict.Cluster.Order.{IsHome, mapped-IsPlaced, slot, IsFull}
use zeek_snippets.Dict.Relocate.{empty_entry, insert_and_relocate, remove_and_relocate}
use zeek_snippets.Dict.Relocate.Count.{count}
use zeek_snippets.Dict.Relocate.Insertion.{InsertInv, Gained, insert_and_relocate-Gained}
use zeek_snippets.Dict.Relocate.Removal.{Lost, remove_and_relocate-Lost}
use zeek_snippets.Dict.Lookup.{
  lookup, lookup_index, lookup_index_within, lookup_table, lookup_between, lookup_loop,
  previous_loop,
}
use zeek_snippets.Dict.Update.{insert, remove}
use zeek_snippets.Dict.Contents.{for_key, IsWellFormed}
use zeek_snippets.Dict.Contents.Keys.{equal_trans}
use zeek_snippets.Dict.Contents.View.{value_in, lookup-value_in}
use zeek_snippets.Dict.Contents.Gain.{insert-refines}
use zeek_snippets.Dict.Contents.Loss.{remove-refines}
use zeek_snippets.Dict.Contents.Assigned.{insert-assigns}
use zeek_snippets.Dict.Tests.{
  first, second, third, fourth, cells, small, small-HasTable, cells-IsMapped, cells-IsClustered,
  small-IsSettled,
}

-- No key is that of two of the entries.
pub distinct :
    (x y : DictEntry) (key : List ℕ) (key_size hash : ℕ)
    → equal y y.key y.key_size y.hash ≡ true
    → equal x y.key y.key_size y.hash ≡ false
    → equal x key key_size hash ≡ true
    → equal y key key_size hash ≡ false
distinct x y key key_size hash self off on = elim (Bool-cases (equal y key key_size hash)) [
  | inl both ↦
      let there = equal_trans y x y.key key y.key_size key_size y.hash hash self both on in cc
  | inr no_other ↦ no_other
]

cells_unique : (key : List ℕ) (key_size hash : ℕ) → count (for_key key key_size hash) cells ≤ 1
unfolding equal same_bytes is_empty empty_entry
cells_unique key key_size hash = elim (Bool-cases (equal first key key_size hash)) [
  | inl one_st ↦
      let no_second = distinct first second key key_size hash refl refl one_st in
      let no_third = distinct first third key key_size hash refl refl one_st in
      rw (one_st, no_second, no_third) (omega arith)
  | inr off ↦ elim (Bool-cases (equal second key key_size hash)) [
    | inl two_nd ↦
        let no_third = distinct second third key key_size hash refl refl two_nd in
        rw (off, two_nd, no_third) (omega arith)
    | inr away ↦
        rw (off, away)
          (elim (Bool-cases (equal third key key_size hash)) [
            | inl on ↦ rw on (omega arith)
            | inr none_of ↦ rw none_of (omega arith)
          ])
  ]
]

pub small-IsWellFormed : IsWellFormed small cells
unfolding is_empty empty_entry
small-IsWellFormed = record {
  has = small-HasTable;
  settled = small-IsSettled;
  clustered = cells-IsClustered;
  mapped = cells-IsMapped;
  unique = cells_unique;
  counted = refl;
  small = omega arith;
}

-- The same table without an insertion order.
abbrev plain : Dictionary
plain = record small { order = none }

plain-IsWellFormed : IsWellFormed plain cells
unfolding is_empty empty_entry
plain-IsWellFormed = record {
  has = record { at = refl; cells = refl };
  settled = record {
    remaps = refl;
    remap_end = refl;
    cookies = refl;
    iterators = refl;
    bits = omega arith;
  };
  clustered = cells-IsClustered;
  mapped = cells-IsMapped;
  unique = cells_unique;
  counted = refl;
  small = omega arith;
}

lookup-value_in_example : lookup small (3 ∷ []) 1 1 ≡ ok (value_in cells (3 ∷ []) 1 1, small)
lookup-value_in_example = lookup-value_in (3 ∷ []) 1 1 small cells small-IsWellFormed

-- The cells in the way of the new entry move.
insert-refines_example :
    (r : Dictionary) × (t' : List DictEntry) × (insert small (4 ∷ []) 1 0 40 ≡ ok (0, r))
    × IsWellFormed r t'
    × ((key' : List ℕ) (key_size' hash' : ℕ)
        → lookup r key' key_size' hash'
          ≡ ok (
            if equal (make_entry (4 ∷ []) 1 0 0 0) key' key_size' hash'
                then 40
                else value_in cells key' key_size' hash',
            r,
          ))
unfolding lookup_index lookup_index_within lookup_table lookup_between lookup_loop previous_loop
    bucket_by_hash fib_hash buckets capacity entry_at is_empty empty_entry equal same_bytes
    threshold_entries get_or
insert-refines_example =
    insert-refines small cells (4 ∷ []) 1 0 40 2 2 3 small-IsWellFormed (omega arith) refl
      (omega arith) (omega arith) refl (omega arith)

insert-assigns_example :
    (r : Dictionary) × (t' : List DictEntry) × (insert plain (2 ∷ []) 1 0 21
      ≡ ok (value_in cells (2 ∷ []) 1 0, r))
    × IsWellFormed r t'
    × ((key' : List ℕ) (key_size' hash' : ℕ)
        → lookup r key' key_size' hash'
          ≡ ok (
            if equal (make_entry (2 ∷ []) 1 0 0 0) key' key_size' hash'
                then 21
                else value_in cells key' key_size' hash',
            r,
          ))
unfolding bucket_by_hash fib_hash threshold_entries is_empty empty_entry get_or capacity
insert-assigns_example =
    insert-assigns plain cells (2 ∷ []) 1 0 21 plain-IsWellFormed (omega arith) 3 (omega arith)
      (omega arith) refl (omega arith) refl

remove-refines_example :
    (r : Dictionary) × (t' : List DictEntry) × (remove plain (1 ∷ []) 1 0
      ≡ ok (value_in cells (1 ∷ []) 1 0, r))
    × IsWellFormed r t'
    × ((key' : List ℕ) (key_size' hash' : ℕ)
        → lookup r key' key_size' hash'
          ≡ ok (
            if equal (make_entry (1 ∷ []) 1 0 0 0) key' key_size' hash'
                then 0
                else value_in cells key' key_size' hash',
            r,
          ))
remove-refines_example =
    remove-refines plain cells plain-IsWellFormed (1 ∷ []) 1 0 (omega arith) refl

fourth-InsertInv : InsertInv (IsHome 2) 0 cells fourth 2
unfolding get_or is_empty empty_entry bucket_by_hash fib_hash
fourth-InsertInv = record {
  clustered = cells-IsClustered;
  mapped = mapped-IsPlaced 2 cells cells-IsMapped;
  full = refl;
  reach = omega arith;
  home = λ b at. omega arith;
  above = omega arith;
  run = λ j low high. run j low high;
  larger = λ h full. omega arith;
}
  where
    run : (j : ℕ) → 2 ≤ j + 2 → j < 2 → IsFull cells j × (j + 2 ≤ 2 + (slot cells j).distance)
    run zero low high = (refl, omega arith)
    run (suc zero) low high = (refl, omega arith)
    run (suc (suc j)) low high = absurd (omega arith)

insert_and_relocate-Gained_example :
    Returns
      (λ r. Gained (IsHome 2) small cells fourth 2 r.0 r.2)
      (insert_and_relocate 2 small fourth 2)
unfolding is_empty empty_entry get_or
insert_and_relocate-Gained_example =
    insert_and_relocate-Gained (IsHome 2) 0 0 2 small cells fourth 2 3
      (λ h b i s above from le at. at) (omega arith) small-HasTable fourth-InsertInv (omega arith)
      (omega arith) (omega arith) refl (omega arith)

remove_and_relocate-Lost_example :
    Returns
      (λ (r, e, last). (e ≡ slot cells 0) × Lost (IsHome 2) small cells (slot cells 0) r)
      (remove_and_relocate small 0)
unfolding is_empty get_or
remove_and_relocate-Lost_example =
    remove_and_relocate-Lost (IsHome 2) small cells 0 (λ h b i s le at. at) small-HasTable
      cells-IsClustered (mapped-IsPlaced 2 cells cells-IsMapped) (omega arith) refl (omega arith)
