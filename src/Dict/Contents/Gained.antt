-- ===== src/Dict/Contents/Gained.antt =====
-- A well-formed dictionary of dict/OpenDict.cc whose table gains an entry for a new key.
use zeek_snippets.Prelude.{
  ℕ, ◌^◌, ◌<◌, ◌≡◌, refl, subst, true, false, List, Option, some, arith, if◌then◌else◌,
}
use zeek_snippets.Dict.{DictEntry, Dictionary, make_entry, is_empty, equal}
use zeek_snippets.Dict.Cluster.Order.{IsHome, placed-IsMapped, HasTable}
use zeek_snippets.Dict.Relocate.Count.{one, count}
use zeek_snippets.Dict.Relocate.Insertion.{Gained}
use zeek_snippets.Dict.Update.{count_inserted}
use zeek_snippets.Dict.Update.Inserted.{made-equal}
use zeek_snippets.Dict.Contents.{for_key, IsWellFormed, count-le}
use zeek_snippets.Dict.Contents.Keys.{equal_trans}
use zeek_snippets.Dict.Contents.More.{more_unique, value_in-more}
use zeek_snippets.Dict.Contents.View.{value_in}

module _ (d : Dictionary) (t : List DictEntry) (key : List ℕ) (key_size hash value dist : ℕ)
    (w : IsWellFormed d t) (short : key_size < 2 ^ 16)
    (free : count (for_key key key_size hash) t ≡ 0) where
  abbrev e : DictEntry
  e = make_entry key key_size hash value dist

  -- No entry of the table is for a key that the new entry is for.
  pub shut_out :
      (key' : List ℕ) (key_size' hash' : ℕ)
      → equal e key' key_size' hash' ≡ true
      → count (for_key key' key_size' hash') t ≡ 0
  shut_out key' key_size' hash' on =
      let le = count-le (for_key key' key_size' hash') (for_key key key_size hash) t (λ x there.
        equal_trans e x key key' key_size key_size' hash hash'
          (made-equal key key_size hash value dist short) on there) in
      omega arith

  module _ (full : is_empty e ≡ false) {i last : ℕ} (r : Dictionary)
      (g : Gained (IsHome d.log2_buckets) d t e i r last) (order : Option (List DictEntry)) where
    abbrev grown : Dictionary
    grown = count_inserted (record d { table = some g.table; order = order })

    grown-HasTable : HasTable grown g.table
    unfolding count_inserted
    grown-HasTable =
        let has : HasTable (record d { table = some g.table }) g.table =
          subst (λ x. HasTable x g.table) g.same g.has in
        record { at = refl; cells = has.cells }

    pub grown-IsWellFormed : IsWellFormed grown g.table
    unfolding count_inserted
    grown-IsWellFormed = record {
      has = grown-HasTable;
      settled = record {
        remaps = w.settled.remaps;
        remap_end = w.settled.remap_end;
        cookies = w.settled.cookies;
        iterators = w.settled.iterators;
        bits = w.settled.bits;
      };
      clustered = g.clustered;
      mapped = placed-IsMapped d.log2_buckets g.table g.clustered g.mapped;
      unique = more_unique t g.table key key_size hash value dist short free w.unique full g.counts;
      counted =
          let weight : one (λ x. true) e ≡ 1 = rw full refl in
          omega (arith, g.counts (λ x. true) (λ x n. refl), w.counted, weight);
      small = omega (arith, w.small, grown-HasTable.cells, w.has.cells);
    }

    pub value_in-grown :
        (key' : List ℕ) (key_size' hash' : ℕ)
        → value_in g.table key' key_size' hash' ≡ (
            if equal (make_entry key key_size hash 0 0) key' key_size' hash'
            then value
            else value_in t key' key_size' hash')
    value_in-grown =
        value_in-more t g.table key key_size hash value dist short free w.unique full g.counts
