-- ===== src/Dict/Remap/Drop.antt =====
-- Remove of dict/OpenDict.cc from a dictionary between two sizes.
use zeek_snippets.Prelude.{
  ℕ, ◌-◌, ◌^◌, ◌<◌, ◌≡◌, refl, sym, subst, ◌∙◌, true, List, none, some, length, arith,
  if◌then◌else◌, Bool-cases, inl, inr,
}
use zeek_snippets.Run.{ok, Returns, returns, Returns-map, Returns-bind, Returns-inv}
use zeek_snippets.Dict.{DictEntry, Dictionary, make_entry, equal}
use zeek_snippets.Dict.Cluster.Order.{slot, IsFull, HasTable}
use zeek_snippets.Dict.Relocate.{remove_and_relocate}
use zeek_snippets.Dict.Relocate.Count.{one, count}
use zeek_snippets.Dict.Relocate.Removal.{Lost, remove_and_relocate-Lost}
use zeek_snippets.Dict.Lookup.{Search, found, absent, no_table}
use zeek_snippets.Dict.Update.{erase_from_order, remove_found, remove}
use zeek_snippets.Dict.Contents.{for_key, count-slot, count-le}
use zeek_snippets.Dict.Contents.Keys.{for_key-IgnoresDistance, made-equal_other, equal_trans}
use zeek_snippets.Dict.Update.Inserted.{made-equal}
use zeek_snippets.Dict.Contents.View.{value_in, value_in-free}
use zeek_snippets.Dict.Contents.Settled.{only_robust_still}
use zeek_snippets.Dict.Contents.Fewer.{remove_found-shrunk, value_in-fewer}
use zeek_snippets.Dict.Remap.Mixed.{unmapped, IsEitherHome, either-Falls, table-IsMixed}
use zeek_snippets.Dict.Remap.Growing.{IsGrowing}
use zeek_snippets.Dict.Remap.Again.{Found, present, missing}
use zeek_snippets.Dict.Remap.Find.{lookup_index-Found, value_at}

-- What Remove makes of the map `t`.
abbrev Dropped : ℕ → List DictEntry → List ℕ → ℕ → ℕ → ℕ × Dictionary → Type 0
Dropped n t key key_size hash r =
    (r.0 ≡ value_in t key key_size hash)
    × ((t' : List DictEntry) × IsGrowing n r.1 t'
        × ((key' : List ℕ) (key_size' hash' : ℕ)
            → value_in t' key' key_size' hash' ≡ (
                if equal (make_entry key key_size hash 0 0) key' key_size' hash'
                then 0
                else value_in t key' key_size' hash')))

module _ (n : ℕ) (d : Dictionary) (t : List DictEntry) (g : IsGrowing n d t)
    (unordered : d.order ≡ none) (p : ℕ) (inside : p < length t) (full : IsFull t p) where
  abbrev gone : DictEntry
  gone = slot t p

  some_entries : 0 < d.num_entries
  some_entries = omega (arith, g.counted, count-slot (λ x. true) t p inside full refl)

  module _ (r : Dictionary) (l : Lost (IsEitherHome n (unmapped d.remap_end)) d t gone r) where
    abbrev left : Dictionary
    left = record d { table = some l.table; num_entries = d.num_entries - 1; order = d.order }

    left-IsGrowing : IsGrowing n left l.table
    left-IsGrowing =
        let has : HasTable (record d { table = some l.table }) l.table =
          subst (λ x. HasTable x l.table) l.same l.has in
        let m =
          table-IsMixed n d t l.table g.mixed has l.clustered l.mapped
            λ test ignores. omega (arith, l.counts test ignores) in
        record {
          mixed = record {
            has = record { at = refl; cells = has.cells };
            bits = m.bits;
            few = m.few;
            clustered = m.clustered;
            placed = m.placed;
            room = m.room;
            within = m.within;
            small = m.small;
            cookies = m.cookies;
          };
          remaps = g.remaps;
          iterators = g.iterators;
          unique = λ key key_size hash. omega (
            arith,
            l.counts (for_key key key_size hash) (for_key-IgnoresDistance key key_size hash),
            g.unique key key_size hash,
          );
          counted =
              let weight : one (λ x. true) gone ≡ 1 = rw full refl in
              omega (arith, l.counts (λ x. true) (λ x k. refl), g.counted, weight);
        }

  remove_found-Dropped :
      (key : List ℕ) (key_size hash : ℕ)
      → key_size < 2 ^ 16
      → equal (slot t p) key key_size hash ≡ true
      → Returns (Dropped n t key key_size hash) (remove_found d p)
  remove_found-Dropped key key_size hash short same =
      let ((r, e, last), run, (at, l)) = Returns-inv (
        remove_and_relocate-Lost (IsEitherHome n (unmapped d.remap_end)) d t p
          (either-Falls n (unmapped d.remap_end)) g.mixed.has g.mixed.clustered g.mixed.placed
          inside full g.mixed.small) in
      let run' : remove_and_relocate d p ≡ ok (record d { table = some l.table }, slot t p, last) =
        run ∙ (λ i. ok (l.same i, at i, last)) in
      let erased : erase_from_order (slot t p) d.order ≡ ok d.order =
        unfold erase_from_order in
        subst (λ o. erase_from_order (slot t p) o ≡ ok o) (sym unordered) refl in
      rw
        (remove_found-shrunk d (slot t p) p g.mixed.cookies some_entries l.table last d.order run'
          erased)
        (returns (
          value_at t key key_size hash p (g.unique key key_size hash) inside full same,
          (
            l.table,
            left-IsGrowing r l,
            λ key' key_size' hash'.
                value_in-fewer t l.table (slot t p) full g.unique l.counts key' key_size' hash'
                ∙ rw (made-equal_other (slot t p) key key_size hash key' key_size' hash' short same)
                    refl,
          ),
        ))

-- Where no entry is for the key, none is for a key that is equal to it.
value_in-same_key :
    (t : List DictEntry) (key : List ℕ) (key_size hash : ℕ) (key' : List ℕ) (key_size' hash' : ℕ)
    → key_size < 2 ^ 16
    → count (for_key key key_size hash) t ≡ 0
    → equal (make_entry key key_size hash 0 0) key' key_size' hash' ≡ true
    → value_in t key' key_size' hash' ≡ 0
value_in-same_key t key key_size hash key' key_size' hash' short free on =
    let made = make_entry key key_size hash 0 0 in
    let le = count-le (for_key key' key_size' hash') (for_key key key_size hash) t (λ x there.
      equal_trans made x key key' key_size key_size' hash hash'
        (made-equal key key_size hash 0 0 short) on there) in
    value_in-free key' key_size' hash' t (omega arith)

-- Remove of a key of less than 2 ^ 16 bytes from a growing dictionary that keeps no order never
-- fails, whether the key is there or not, and in its new place or its old one: it returns the value
-- that the map had for the key, or the null pointer; the dictionary is still growing; and as a map it
-- has nothing for the key and every key that is equal to it, and what it had before for every other
-- key.
pub remove-deletes :
    (n : ℕ) (d : Dictionary) (t : List DictEntry) (key : List ℕ) (key_size hash : ℕ)
    → IsGrowing n d t
    → d.order ≡ none
    → key_size < 2 ^ 16
    → Returns (Dropped n t key key_size hash) (remove d key key_size hash)
unfolding remove
remove-deletes n d t key key_size hash g unordered short =
    rw (only_robust_still d g.iterators)
      (Returns-bind (lookup_index-Found n d t g key key_size hash) λ (s, r) a. answer s r a)
  where
    answer :
        (s : Search) (r : Dictionary)
        → Found n d t key key_size hash (s, r)
        → Returns
            (Dropped n t key key_size hash)
            (elim s [ found p ↦ remove_found r p | absent _ _ ↦ ok (0, r) | no_table ↦ ok (0, r) ])
    answer (found p) r (present t' map order g' h full same home) =
        Returns-map
          (remove_found-Dropped n r t' g' (order ∙ unordered) p h full key key_size hash short same)
          λ r' (value, (t'', g'', values)). (
            value ∙ map key key_size hash,
            (
              t'',
              g'',
              λ key' key_size' hash'.
                  values key' key_size' hash' ∙ rw (map key' key_size' hash') refl,
            ),
          )
    answer (absent i dist) r (missing free stop) = returns (
      sym (value_in-free key key_size hash t free),
      (
        t,
        g,
        λ key' key_size' hash'.
            elim (Bool-cases (equal (make_entry key key_size hash 0 0) key' key_size' hash')) [
              | inl on ↦
                  rw (on, value_in-same_key t key key_size hash key' key_size' hash' short free on)
                    refl
              | inr off ↦ rw off refl
            ],
      ),
    )
    answer no_table r e = elim e [ ]
