-- ===== src/Dict/Relocate.antt =====
-- The moves of entries in dict/OpenDict.cc: SizeUp, InsertAndRelocate and RemoveAndRelocate.
pub mod Displaced
pub mod Count
pub mod Insertion
pub mod Removal
use zeek_snippets.Prelude.{
  ℕ, zero, suc, ◌+◌, ◌-◌, ◌%◌, ◌^◌, Bool, true, false, not, ◌||◌, [], ◌++◌, some, replicate, take,
  ltb, leb, ◌==◌, if◌then◌else◌,
}
use zeek_snippets.Run.{Run, ok, out_of_fuel, ◌>>=◌, ◌>>◌, cell, ensure}
use zeek_snippets.Dict.{DictEntry, Dictionary, set_empty, is_empty, entry_at, write_at}
use zeek_snippets.Dict.Math.{capacity}
use zeek_snippets.Dict.Cluster.{tail_of_cluster_by_position, end_of_cluster_by_position}

-- A cell that `SetEmpty` was called on; its other fields are not read.
unfoldable pub empty_entry : DictEntry
empty_entry = record { distance = 0xFFFF; key_size = 0; hash = 0; value = 0; key = [] }

-- `unsigned char` counters.
unfoldable pub size_up : Dictionary → Run Dictionary
size_up d = do
  let prev_capacity = capacity d false
  t ← cell d.table
  let log2 = (d.log2_buckets + 1) % 2 ^ 8
  let grown = record d { log2_buckets = log2 }
  let c = capacity grown false
  let remaps = (d.remaps + 1) % 2 ^ 8
  ensure (leb remaps log2)
  ok (record d {
    log2_buckets = log2;
    table = some (take c t ++ replicate (c - prev_capacity) empty_entry);
    remap_end = some prev_capacity;
    remaps = remaps;
  })

-- `entry` is passed by reference: what the caller has after the call is the entry that was moved
-- last. The result also has the last affected position.
unfoldable pub insert_and_relocate :
    ℕ → Dictionary → DictEntry → ℕ → Run (Dictionary × DictEntry × ℕ)
insert_and_relocate zero d entry insert_position = out_of_fuel
insert_and_relocate (suc k) d entry insert_position =
    let outside : Run (Dictionary × DictEntry × ℕ) = (do
      ensure (insert_position == capacity d false)
      d₁ ← size_up d
      d₂ ← write_at d₁ insert_position entry
      ok (d₂, entry, insert_position)) in
    let inside : Run (Dictionary × DictEntry × ℕ) = (do
      t ← entry_at d insert_position
      let displace : Run (Dictionary × DictEntry × ℕ) = (do
        next ← end_of_cluster_by_position d insert_position
        let t' = record t { distance = (t.distance + (next - insert_position)) % 2 ^ 16 }
        d₁ ← write_at d insert_position entry
        insert_and_relocate k d₁ t' next)
      let settle : Run (Dictionary × DictEntry × ℕ) = (do
        d₁ ← write_at d insert_position entry
        ok (d₁, entry, insert_position))
      if is_empty t then settle else displace) in
    if leb (capacity d false) insert_position then outside else inside

-- Positions grow at each round, up to the capacity.
unfoldable pub insert_relocating : Dictionary → DictEntry → ℕ → Run (Dictionary × DictEntry × ℕ)
insert_relocating d entry insert_position =
    insert_and_relocate (capacity d false + 2) d entry insert_position

-- `a -= b` on uint16_t.
abbrev pub sub16 : ℕ → ℕ → ℕ
sub16 a b = (a + 2 ^ 16 - b % 2 ^ 16) % 2 ^ 16

-- The test of RemoveAndRelocate that nothing has to move into `position`.
unfoldable pub nothing_follows : Dictionary → ℕ → Run Bool
nothing_follows d position =
    let other : Run Bool = (do e ← entry_at d (position + 1); ok (is_empty e || e.distance == 0)) in
    if position + 1 == capacity d false then ok true else other

-- The loop; the result is the last affected position.
unfoldable pub remove_loop : ℕ → Dictionary → ℕ → Run (Dictionary × ℕ)
remove_loop zero d position = out_of_fuel
remove_loop (suc k) d position = do
  last ← nothing_follows d position
  let clear : Run (Dictionary × ℕ) = (do
    e ← entry_at d position
    d₁ ← write_at d position (set_empty e)
    ok (d₁, position))
  let shift : Run (Dictionary × ℕ) = (do
    next ← tail_of_cluster_by_position d (position + 1)
    e ← entry_at d next
    d₁ ← write_at d position (record e { distance = sub16 e.distance (next - position) })
    remove_loop k d₁ next)
  if last then clear else shift

unfoldable pub remove_and_relocate : Dictionary → ℕ → Run (Dictionary × DictEntry × ℕ)
remove_and_relocate d position = do
  ensure (ltb position (capacity d false))
  entry ← entry_at d position
  ensure (not (is_empty entry))
  (d₁, last) ← remove_loop (capacity d false + 1) d position
  ok (d₁, entry, last)
