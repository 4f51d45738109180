-- ===== src/Dict/Contents.antt =====
-- The dictionary of dict/OpenDict.cc as a map from keys to values: what a table holds for a key, and
-- the lookups that read it.
pub mod Keys
pub mod View
pub mod Gain
pub mod Grows
pub mod Gained
pub mod Located
pub mod Fewer
pub mod More
pub mod Loss
pub mod Overwrite
pub mod Assigned
pub mod Settled
use zeek_snippets.Prelude.{
  ℕ, zero, suc, ◌+◌, ◌-◌, ◌≤◌, ◌<◌, ◌≡◌, ◌⊎◌, refl, sym, subst, ◌∙◌, Bool, true, false, not, ◌&&◌,
  List, [], ◌∷◌, Option, none, some, length, get_or, arith, if◌then◌else◌, ◌==◌, Bool-cases, inl,
  inr,
}
use zeek_snippets.Run.{Run, ok, ◌>>=◌, Returns-inv}
use zeek_snippets.Dict.{DictEntry, Dictionary, is_empty, equal, entry_at}
use zeek_snippets.Dict.Cluster.Order.{slot, IsFull, HasTable, IsClustered, IsMapped, entry_at-slot}
use zeek_snippets.Dict.Relocate.{empty_entry}
use zeek_snippets.Dict.Relocate.Count.{one, count}
use zeek_snippets.Dict.Lookup.{
  Search, found, absent, no_table, lookup, lookup_index, linear_lookup_index,
}
use zeek_snippets.Dict.Lookup.Linear.{lookup_index_linear, position_of}
use zeek_snippets.Dict.Lookup.Stops.{Seen, seen, unseen, linear_lookup_index-Seen}
use zeek_snippets.Dict.Update.Inserted.{IsSettled}

-- The entries for a key, and those that hold a value for it.
abbrev pub for_key : List ℕ → ℕ → ℕ → DictEntry → Bool
for_key key key_size hash x = equal x key key_size hash

abbrev pub binding : List ℕ → ℕ → ℕ → ℕ → DictEntry → Bool
binding key key_size hash value x = equal x key key_size hash && x.value == value

-- The table holds one entry for the key, with the value.
abbrev pub Maps : List DictEntry → List ℕ → ℕ → ℕ → ℕ → Type 0
Maps t key key_size hash value =
    (count (for_key key key_size hash) t ≡ 1) × (count (binding key key_size hash value) t ≡ 1)

-- No remap and no iteration is going on, the clusters are in order, every entry is reached from the
-- bucket of its hash, no key has two entries, the entries are counted, and no distance overflows.
pub record IsWellFormed (d : Dictionary) (t : List DictEntry) : Type 0 where
  pub has : HasTable d t
  pub settled : IsSettled d
  pub clustered : IsClustered t
  pub mapped : IsMapped d.log2_buckets t
  pub unique : (key : List ℕ) (key_size hash : ℕ) → count (for_key key key_size hash) t ≤ 1
  pub counted : d.num_entries ≡ count (λ x. true) t
  pub small : length t ≤ 0xFFFF

pub count-le :
    (p q : DictEntry → Bool) (t : List DictEntry)
    → ((x : DictEntry) → p x ≡ true → q x ≡ true)
    → count p t ≤ count q t
count-le p q [] h = omega arith
count-le p q (x ∷ t) h = ground (arith, h x, count-le p q t h)

pub count-slot :
    (p : DictEntry → Bool) (t : List DictEntry) (i : ℕ)
    → i < length t
    → IsFull t i
    → p (slot t i) ≡ true
    → 0 < count p t
unfolding get_or
count-slot p [] i h full on = absurd (omega arith)
count-slot p (x ∷ t) zero h full on = ground (arith, full, on)
count-slot p (x ∷ t) (suc i) h full on = omega (arith, count-slot p t i (omega arith) full on)

pub count-zero :
    (p : DictEntry → Bool) (t : List DictEntry)
    → ((j : ℕ) → 0 ≤ j → j < length t → (not (is_empty (slot t j)) && p (slot t j)) ≡ false)
    → count p t ≡ 0
unfolding get_or
count-zero p [] h = refl
count-zero p (x ∷ t) h =
    ground (arith, h 0, count-zero p t (λ j u q. h (suc j) (omega arith) (omega arith)))

-- Where one entry at most satisfies `p`, the one at `i` satisfies any narrower test that some does.
count_unique :
    (p q : DictEntry → Bool) (t : List DictEntry) (i : ℕ)
    → ((x : DictEntry) → q x ≡ true → p x ≡ true)
    → i < length t
    → IsFull t i
    → p (slot t i) ≡ true
    → count p t ≤ 1
    → 0 < count q t
    → q (slot t i) ≡ true
unfolding get_or
count_unique p q [] i h lt full on most some_one = absurd (omega arith)
count_unique p q (x ∷ t) zero h lt full on most some_one =
    ground (arith, full, on, count-le q p t h)
count_unique p q (x ∷ t) (suc i) h lt full on most some_one = ground (
  arith,
  h x,
  count-slot p t i (omega arith) full on,
  count_unique p q t i h (omega arith) full on,
)

-- Where one entry at most satisfies `p`, there is one place for it.
pub count-one_place :
    (p : DictEntry → Bool) (t : List DictEntry) (i j : ℕ)
    → i < length t
    → j < length t
    → IsFull t i
    → IsFull t j
    → p (slot t i) ≡ true
    → p (slot t j) ≡ true
    → count p t ≤ 1
    → i ≡ j
unfolding get_or
count-one_place p [] i j hi hj full full' on on' most = absurd (omega arith)
count-one_place p (x ∷ t) zero zero hi hj full full' on on' most = refl
count-one_place p (x ∷ t) zero (suc j) hi hj full full' on on' most =
    ground (arith, full, on, count-slot p t j (omega arith) full' on')
count-one_place p (x ∷ t) (suc i) zero hi hj full full' on on' most =
    ground (arith, full', on', count-slot p t i (omega arith) full on)
count-one_place p (x ∷ t) (suc i) (suc j) hi hj full full' on on' most =
    omega
      (arith, count-one_place p t i j (omega arith) (omega arith) full full' on on' (omega arith))

module _ (d : Dictionary) (t : List DictEntry) (w : IsWellFormed d t) (key : List ℕ)
    (key_size hash : ℕ) where
  lookup_found :
      (value : ℕ) (s : Search) (o : Option ℕ)
      → lookup_index d key key_size hash ≡ ok (s, d)
      → position_of s ≡ o
      → Seen t key key_size hash 0 o
      → Maps t key key_size hash value
      → lookup d key key_size hash ≡ ok (value, d)
  lookup_found value (found p) o run at (seen {p = r} h full same) maps =
      let p_at : r ≡ p = ground (arith, at) in
      let right =
        count_unique (for_key key key_size hash) (binding key key_size hash value) t r
          (λ x on. ground (arith, on)) h full same (omega (arith, maps.0))
          (omega (arith, maps.1)) in
      let there : (slot t r).value ≡ value = ground (arith, right) in
      unfold lookup in rw (run, ◌>>=◌, sym p_at, entry_at-slot d t r w.has h, there) refl
  lookup_found value (found p) o run at (unseen free) maps = cc
  lookup_found value (absent i dist) o run at (seen h full same) maps = cc
  lookup_found value (absent i dist) o run at (unseen free) maps =
      absurd (omega (arith, maps.0, count-zero (for_key key key_size hash) t free))
  lookup_found value no_table o run at (seen h full same) maps = cc
  lookup_found value no_table o run at (unseen free) maps =
      absurd (omega (arith, maps.0, count-zero (for_key key key_size hash) t free))

  lookup_missing :
      (s : Search) (o : Option ℕ)
      → lookup_index d key key_size hash ≡ ok (s, d)
      → position_of s ≡ o
      → Seen t key key_size hash 0 o
      → count (for_key key key_size hash) t ≡ 0
      → lookup d key key_size hash ≡ ok (0, d)
  unfolding lookup
  lookup_missing (absent i dist) o run at e free = rw run refl
  lookup_missing no_table o run at e free = rw run refl
  lookup_missing (found p) o run at (unseen none_of) free = cc
  lookup_missing (found p) o run at (seen h full same) free =
      absurd (omega (arith, count-slot (for_key key key_size hash) t _ h full same))

  pub lookup-Maps :
      ((value : ℕ) → Maps t key key_size hash value → lookup d key key_size hash ≡ ok (value, d))
      × (count (for_key key key_size hash) t ≡ 0 → lookup d key key_size hash ≡ ok (0, d))
  lookup-Maps =
      let (s, run, linear) =
        lookup_index_linear d t key key_size hash w.has w.mapped w.clustered w.settled.remaps
          w.settled.bits in
      let (o, linear', e) = Returns-inv (linear_lookup_index-Seen d t key key_size hash w.has) in
      let at : position_of s ≡ o = ground (arith, linear, linear') in
      (λ value maps. lookup_found value s o run at e maps, λ free. lookup_missing s o run at e free)

-- A search of LookupIndex that misses the key shows that no entry is for it.
pub missed_free :
    (d : Dictionary) (t : List DictEntry) (key : List ℕ) (key_size hash i dist : ℕ)
    → IsWellFormed d t
    → lookup_index d key key_size hash ≡ ok (absent i dist, d)
    → count (for_key key key_size hash) t ≡ 0
missed_free d t key key_size hash i dist w missed =
    let (s, run, linear) =
      lookup_index_linear d t key key_size hash w.has w.mapped w.clustered w.settled.remaps
        w.settled.bits in
    let (o, linear', e) = Returns-inv (linear_lookup_index-Seen d t key key_size hash w.has) in
    let at : o ≡ none = ground (arith, run, missed, linear, linear') in cases o at e
  where
    cases :
        (o : Option ℕ)
        → o ≡ none
        → Seen t key key_size hash 0 o
        → count (for_key key key_size hash) t ≡ 0
    cases none at (unseen free) = count-zero (for_key key key_size hash) t free
    cases (some p) at e = cc
