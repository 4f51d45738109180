-- ===== src/Dict/Contents/Loss.antt =====
-- Remove of dict/OpenDict.cc, as a change of the map that the dictionary is.
use zeek_snippets.Prelude.{
  ℕ, ◌-◌, ◌^◌, ◌<◌, ◌≡◌, refl, sym, subst, ◌∙◌, true, List, Option, none, some, length, arith,
  if◌then◌else◌, Bool-cases, inl, inr,
}
use zeek_snippets.Run.{ok, ◌>>=◌, Returns-inv}
use zeek_snippets.Dict.{DictEntry, Dictionary, make_entry, equal}
use zeek_snippets.Dict.Cluster.Order.{
  IsHome, mapped-IsPlaced, placed-IsMapped, slot, IsFull, HasTable,
}
use zeek_snippets.Dict.Relocate.{remove_and_relocate}
use zeek_snippets.Dict.Relocate.Count.{one, count}
use zeek_snippets.Dict.Relocate.Removal.{Lost, remove_and_relocate-Lost}
use zeek_snippets.Dict.Lookup.{Search, found, absent, no_table, lookup, lookup_index}
use zeek_snippets.Dict.Update.{erase_from_order, remove}
use zeek_snippets.Dict.Contents.{for_key, binding, IsWellFormed, count-slot}
use zeek_snippets.Dict.Contents.Keys.{for_key-IgnoresDistance, made-equal_other}
use zeek_snippets.Dict.Contents.View.{value_in, value_in-free, value_in-bound, lookup-value_in}
use zeek_snippets.Dict.Contents.Settled.{only_robust_still}
use zeek_snippets.Dict.Contents.Located.{Located, there, nowhere, unmade, lookup_index-Located}
use zeek_snippets.Dict.Contents.Gained.{shut_out}
use zeek_snippets.Dict.Contents.Fewer.{remove_found-shrunk, value_in-fewer}

module _ (d : Dictionary) (t : List DictEntry) (w : IsWellFormed d t) (p : ℕ)
    (inside : p < length t) (full : IsFull t p) where
  abbrev gone : DictEntry
  gone = slot t p

  some_entries : 0 < d.num_entries
  some_entries = omega (arith, w.counted, count-slot (λ x. true) t p inside full refl)

  module _ (r : Dictionary) (g : Lost (IsHome d.log2_buckets) d t gone r)
      (order : Option (List DictEntry)) where
    abbrev left : Dictionary
    left = record d { table = some g.table; num_entries = d.num_entries - 1; order = order }

    left-HasTable : HasTable left g.table
    left-HasTable =
        let has : HasTable (record d { table = some g.table }) g.table =
          subst (λ x. HasTable x g.table) g.same g.has in
        record { at = refl; cells = has.cells }

    left-IsWellFormed : IsWellFormed left g.table
    left-IsWellFormed = record {
      has = left-HasTable;
      settled = record {
        remaps = w.settled.remaps;
        remap_end = w.settled.remap_end;
        cookies = w.settled.cookies;
        iterators = w.settled.iterators;
        bits = w.settled.bits;
      };
      clustered = g.clustered;
      mapped = placed-IsMapped d.log2_buckets g.table g.clustered g.mapped;
      unique = λ key key_size hash. omega (
        arith,
        g.counts (for_key key key_size hash) (for_key-IgnoresDistance key key_size hash),
        w.unique key key_size hash,
      );
      counted =
          let weight : one (λ x. true) gone ≡ 1 = rw full refl in
          omega (arith, g.counts (λ x. true) (λ x n. refl), w.counted, weight);
      small = omega (arith, w.small, left-HasTable.cells, w.has.cells);
    }

-- A run of Remove, and the map after it.
record RemoveRun (d : Dictionary) (t : List DictEntry) (key : List ℕ) (key_size hash : ℕ)
    : Type 0 where
  pub after : Dictionary
  pub table : List DictEntry
  pub run : remove d key key_size hash ≡ ok (value_in t key key_size hash, after)
  pub wf : IsWellFormed after table
  pub lookups :
      (key' : List ℕ) (key_size' hash' : ℕ)
      → lookup after key' key_size' hash'
        ≡ ok (
          if equal (make_entry key key_size hash 0 0) key' key_size' hash'
              then 0
              else value_in t key' key_size' hash',
          after,
        )

module _ (d : Dictionary) (t : List DictEntry) (w : IsWellFormed d t) (key : List ℕ)
    (key_size hash : ℕ) (short : key_size < 2 ^ 16) where
  -- No key of those is in the map where the key is not.
  value_in-same_key :
      (key' : List ℕ) (key_size' hash' : ℕ)
      → count (for_key key key_size hash) t ≡ 0
      → equal (make_entry key key_size hash 0 0) key' key_size' hash' ≡ true
      → value_in t key' key_size' hash' ≡ 0
  value_in-same_key key' key_size' hash' free on =
      value_in-free key' key_size' hash' t
        (shut_out d t key key_size hash 0 0 w short free key' key_size' hash' on)

  removed_nothing :
      (s : Search)
      → count (for_key key key_size hash) t ≡ 0
      → remove d key key_size hash ≡ ok (0, d)
      → RemoveRun d t key key_size hash
  removed_nothing s free run = record {
    after = d;
    table = t;
    run = run ∙ rw (value_in-free key key_size hash t free) refl;
    wf = w;
    lookups = λ key' key_size' hash'.
        lookup-value_in key' key_size' hash' d t w
        ∙ elim (Bool-cases (equal (make_entry key key_size hash 0 0) key' key_size' hash')) [
          | inl on ↦ rw (on, value_in-same_key key' key_size' hash' free on) refl
          | inr off ↦ rw off refl
        ];
  }

  removed_at :
      (p : ℕ)
      → p < length t
      → IsFull t p
      → equal (slot t p) key key_size hash ≡ true
      → lookup_index d key key_size hash ≡ ok (found p, d)
      → erase_from_order (slot t p) d.order ≡ ok d.order
      → RemoveRun d t key key_size hash
  unfolding remove
  removed_at p inside full same found_it erased =
      let ((r, e, last), run, (at, g)) = Returns-inv (
        remove_and_relocate-Lost (IsHome d.log2_buckets) d t p (λ h b i s le at. at) w.has
          w.clustered (mapped-IsPlaced d.log2_buckets t w.mapped) inside full w.small) in
      let run' : remove_and_relocate d p ≡ ok (record d { table = some g.table }, slot t p, last) =
        run ∙ (λ i. ok (g.same i, at i, last)) in
      let wf = left-IsWellFormed d t w p inside full r g d.order in
      let most = w.unique key key_size hash in
      let value : value_in t key key_size hash ≡ (slot t p).value =
        value_in-bound key key_size hash (slot t p).value t most (
          count-slot (binding key key_size hash (slot t p).value) t p inside full
            (ground (arith, same))) in
      record {
        after = left d t w p inside full r g d.order;
        table = g.table;
        run =
            rw
              (
                only_robust_still d w.settled.iterators,
                found_it,
                ◌>>=◌,
                remove_found-shrunk d (slot t p) p w.settled.cookies
                    (some_entries d t w p inside full) g.table last d.order run' erased,
              )
              (rw value refl);
        wf = wf;
        lookups = λ key' key_size' hash'.
            lookup-value_in key' key_size' hash' _ g.table wf
            ∙ rw
                (
                  value_in-fewer t g.table (slot t p) full w.unique g.counts key' key_size' hash',
                  made-equal_other (slot t p) key key_size hash key' key_size' hash' short same,
                )
                refl;
      }

  module _ (unordered : d.order ≡ none) where
    removed :
        (s : Search)
        → lookup_index d key key_size hash ≡ ok (s, d)
        → Located t key key_size hash s
        → RemoveRun d t key key_size hash
    unfolding remove erase_from_order
    removed (found p) run (there inside full same) =
        removed_at p inside full same run
          (subst (λ o. erase_from_order (slot t p) o ≡ ok o) (sym unordered) refl)
    removed (absent i dist) run (nowhere free) =
        removed_nothing (absent i dist) free
          (rw (only_robust_still d w.settled.iterators, run) refl)
    removed no_table run (unmade free) =
        removed_nothing no_table free (rw (only_robust_still d w.settled.iterators, run) refl)

    -- Remove of a key of less than 2 ^ 16 bytes from a well-formed dictionary that keeps no order
    -- never fails, whether the key is there or not: it returns the value that the map had for the
    -- key, or the null pointer, the dictionary is well-formed after it, and Lookup returns the null
    -- pointer for the key and for every key that is equal to it, and what the map had before for
    -- every other key.
    pub remove-refines :
        (r : Dictionary) × (t' : List DictEntry) × (remove d key key_size hash
          ≡ ok (value_in t key key_size hash, r))
        × IsWellFormed r t'
        × ((key' : List ℕ) (key_size' hash' : ℕ)
            → lookup r key' key_size' hash'
              ≡ ok (
                if equal (make_entry key key_size hash 0 0) key' key_size' hash'
                    then 0
                    else value_in t key' key_size' hash',
                r,
              ))
    remove-refines =
        let (s, run, at) = lookup_index-Located d t w key key_size hash in
        let m = removed s run at in (m.after, m.table, m.run, m.wf, m.lookups)
