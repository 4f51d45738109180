-- ===== src/Dict/Remap/Find.antt =====
-- Lookup of dict/OpenDict.cc in a dictionary between two sizes: it searches the bucket of the hash
-- for the new size, then the bucket for the size before, and moves what it finds there.
use zeek_snippets.Prelude.{
  ℕ, zero, suc, ◌+◌, ◌-◌, ◌^◌, ◌≤◌, ◌<◌, ◌≡◌, ◌⊎◌, refl, sym, ap, ◌∙◌, true, false, not, ◌&&◌, List,
  Option, none, some, length, leb, arith, Bool-cases, inl, inr,
}
use native.Mathlib.Nat.{pow-suc}
use zeek_snippets.Run.{
  Run, ok, fault, out_of_fuel, ◌>>=◌, Returns, returns, Returns-both, Returns-bind,
}
use zeek_snippets.Dict.{DictEntry, Dictionary, is_empty, equal, entry_at}
use zeek_snippets.Dict.Math.{bucket_by_hash, capacity_of}
use zeek_snippets.Dict.Math.Bounds.{bucket_by_hash-lt}
use zeek_snippets.Dict.Cluster.Order.{slot, IsFull, capacity-HasTable, entry_at-slot}
use zeek_snippets.Dict.Relocate.Count.{count}
use zeek_snippets.Dict.Lookup.{
  Search, found, absent, no_table, lookup_between, within_end, found_before, previous_loop,
  lookup_table, lookup_index_within, lookup_index, lookup,
}
use zeek_snippets.Dict.Lookup.Stops.{Ended, miss}
use zeek_snippets.Dict.Lookup.Linear.{bucket_by_hash-congr, equal-hash}
use zeek_snippets.Dict.Contents.{for_key, binding, count-slot, count-zero}
use zeek_snippets.Dict.Contents.View.{value_in, value_in-free, value_in-bound}
use zeek_snippets.Dict.Remap.Mixed.{unmapped}
use zeek_snippets.Dict.Remap.Search.{
  Looked, seen_at, not_in, lookup_between-Looked, lookup_between-Ended,
}
use zeek_snippets.Dict.Remap.Growing.{IsGrowing, SameMap}
use zeek_snippets.Dict.Remap.Again.{StopsAt, Found, present, missing, found_before-Found}

absent-StopsAt :
    (t : List DictEntry) (bucket : ℕ) (s : Search) (i dist : ℕ)
    → s ≡ absent i dist
    → Ended t bucket bucket s
    → StopsAt t bucket i dist
absent-StopsAt t bucket (found p) i dist at e = cc
absent-StopsAt t bucket no_table i dist at e = cc
absent-StopsAt t bucket (absent k far) i dist at (miss ends) =
    let here : k ≡ i = ground (arith, at) in
    let near : k - bucket ≡ dist = ground (arith, at) in (rw here at ends, rw here at (sym near))

module _ (n : ℕ) (d : Dictionary) (t : List DictEntry) (g : IsGrowing n d t) (key : List ℕ)
    (key_size hash : ℕ) where
  abbrev again : Dictionary → Run (Search × Dictionary)
  again = lookup_index_within 1 key key_size hash

  abbrev new_bucket : ℕ
  new_bucket = bucket_by_hash hash (suc n)

  abbrev old_bucket : ℕ
  old_bucket = bucket_by_hash hash n

  -- Where neither of the two searches finds the key, no entry is for it.
  none_for_key :
      ((m : ℕ)
        → new_bucket ≤ m
        → m < length t
        → IsFull t m
        → m ≡ new_bucket + (slot t m).distance
        → equal (slot t m) key key_size hash ≡ false)
      → ((m : ℕ)
          → old_bucket ≤ m
          → m < unmapped d.remap_end
          → IsFull t m
          → m ≡ old_bucket + (slot t m).distance
          → equal (slot t m) key key_size hash ≡ false)
      → count (for_key key key_size hash) t ≡ 0
  none_for_key new old = count-zero (for_key key key_size hash) t λ j low h.
      elim (Bool-cases (not (is_empty (slot t j)) && equal (slot t j) key key_size hash)) [
        | inr off ↦ off
        | inl on ↦
            let full : IsFull t j = ground arith in
            let same : equal (slot t j) key key_size hash ≡ true = ground arith in
            let b = j - (slot t j).distance in
            let reach = g.mixed.clustered.reaches j h full in
            let at : j ≡ b + (slot t j).distance = omega arith in
            let hashes = equal-hash (slot t j) key key_size hash same in
            elim (g.mixed.placed j b h full at) [
              | inl home ↦
                  let bucket : b ≡ new_bucket =
                    home ∙ bucket_by_hash-congr (slot t j).hash hash (suc n) hashes in
                  let other = new j (omega arith) h full (omega arith) in cc
              | inr (early, home) ↦
                  let bucket : b ≡ old_bucket =
                    home ∙ bucket_by_hash-congr (slot t j).hash hash n hashes in
                  let other = old j (omega arith) early full (omega arith) in cc
            ]
      ]

  within_end-cases :
      (bucket : ℕ) (o : Option ℕ)
      → ((within_end bucket o ≡ none) × (unmapped o ≤ bucket))
        ⊎ ((end : ℕ) × (within_end bucket o ≡ some end) × (unmapped o ≡ end + 1) × (bucket ≤ end))
  unfolding within_end
  within_end-cases bucket none = inl (refl, omega arith)
  within_end-cases bucket (some end) = elim (Bool-cases (leb bucket end)) [
    | inl low ↦ inr (end, rw low refl, omega arith, ground arith)
    | inr high ↦ inl (rw high refl, ground arith)
  ]

  -- The one round for the size before.
  abbrev round_from : ℕ → Search → Option ℕ → Run (Search × Dictionary)
  round_from bucket missed none = ok (missed, d)
  round_from bucket missed (some end) = do
    s ← lookup_between d key key_size hash bucket (end + 1)
    elim s [
      | found p ↦ found_before again d p
      | absent _ _ ↦ ok (missed, d)
      | no_table ↦ ok (missed, d)
    ]

  abbrev one_round : Search → Option ℕ → Run (Search × Dictionary)
  one_round = round_from old_bucket

  before : bucket_by_hash hash (d.log2_buckets - 1) ≡ old_bucket
  before =
      let one_less : d.log2_buckets - 1 ≡ n = omega (arith, g.mixed.bits) in
      ap (bucket_by_hash hash) one_less

  previous_loop-round :
      (missed : Search) (k : ℕ)
      → k ≡ 1
      → previous_loop again k d key key_size hash 1 missed
        ≡ round_from
            (bucket_by_hash hash (d.log2_buckets - 1))
            missed
            (within_end (bucket_by_hash hash (d.log2_buckets - 1)) d.remap_end)
  unfolding previous_loop
  previous_loop-round missed zero one = absurd (omega arith)
  previous_loop-round missed (suc (suc k)) one = absurd (omega arith)
  previous_loop-round missed (suc zero) one = refl

  previous_loop-one :
      (missed : Search)
      → previous_loop again d.remaps d key key_size hash 1 missed
        ≡ one_round missed (within_end old_bucket d.remap_end)
  previous_loop-one missed =
      previous_loop-round missed d.remaps g.remaps
      ∙ ap (λ b. round_from b missed (within_end b d.remap_end)) before

  one_round-Found :
      (i dist : ℕ)
      → ((m : ℕ)
          → new_bucket ≤ m
          → m < length t
          → IsFull t m
          → m ≡ new_bucket + (slot t m).distance
          → equal (slot t m) key key_size hash ≡ false)
      → StopsAt t new_bucket i dist
      → Returns
          (Found n d t key key_size hash)
          (one_round (absent i dist) (within_end old_bucket d.remap_end))
  one_round-Found i dist new stop = elim (within_end-cases old_bucket d.remap_end) [
    | inl (at, short) ↦
        rw at (returns (missing (none_for_key new λ m low high. absurd (omega arith)) stop))
    | inr (end, at, size, low) ↦
        let small : old_bucket < 2 ^ n = bucket_by_hash-lt hash n (omega (arith, g.mixed.few)) in
        let few : old_bucket < 2 ^ d.log2_buckets =
          rw g.mixed.bits (omega (arith, small, pow-suc 2 n)) in
        rw at (
          Returns-bind
            (lookup_between-Looked d t key key_size hash g.mixed.has g.mixed.clustered old_bucket
              (end + 1) few (omega arith) (omega (arith, g.mixed.within)))
            λ s e. second s end size e)
  ]
    where
      second :
          (s : Search) (end : ℕ)
          → unmapped d.remap_end ≡ end + 1
          → Looked t key key_size hash old_bucket old_bucket (end + 1) s
          → Returns (Found n d t key key_size hash) (elim s [
            | found p ↦ found_before again d p
            | absent _ _ ↦ ok (absent i dist, d)
            | no_table ↦ ok (absent i dist, d)
          ])
      second (found p) end size (seen_at h full same at) =
          found_before-Found n d t g key key_size hash p (omega (arith, size, g.mixed.within)) full
            same
      second (absent i' dist') end size (not_in old) =
          returns
            (missing (none_for_key new λ m low high full at. old m low (omega arith) full at) stop)
      second no_table end size e = elim e [ ]

  lookup_table-rounds : lookup_table again d key key_size hash ≡ (
      lookup_between d key key_size hash new_bucket (length t) >>= λ s. elim s [
        | found p ↦ ok (found p, d)
        | absent i dist ↦ one_round (absent i dist) (within_end old_bucket d.remap_end)
        | no_table ↦ ok (no_table, d)
      ])
  unfolding lookup_table
  lookup_table-rounds =
      rw (ap (bucket_by_hash hash) g.mixed.bits, capacity-HasTable d t g.mixed.has)
        (after (lookup_between d key key_size hash new_bucket (length t)))
    where
      after :
          (m : Run Search)
          → ◌>>=◌ {B = Search × Dictionary} m (λ s. elim s [
            | found p ↦ ok (found p, d)
            | absent i dist ↦ previous_loop again d.remaps d key key_size hash 1 (absent i dist)
            | no_table ↦ ok (no_table, d)
          ])
            ≡ (m >>= λ s. elim s [
              | found p ↦ ok (found p, d)
              | absent i dist ↦ one_round (absent i dist) (within_end old_bucket d.remap_end)
              | no_table ↦ ok (no_table, d)
            ])
      after (ok (found p)) = refl
      after (ok (absent i dist)) = previous_loop-one (absent i dist)
      after (ok no_table) = refl
      after (fault f) = refl
      after out_of_fuel = refl

  -- LookupIndex of a growing dictionary.
  pub lookup_index-Found :
      Returns (Found n d t key key_size hash) (lookup_index d key key_size hash)
  lookup_index-Found =
      let there : lookup_index d key key_size hash ≡ lookup_table again d key key_size hash =
        unfold lookup_index lookup_index_within in ground (arith, g.mixed.has.at) in
      let small = bucket_by_hash-lt hash (suc n) (omega (arith, g.mixed.few)) in
      let cells : length t ≡ 2 ^ suc n + suc n = g.mixed.has.cells ∙ ap capacity_of g.mixed.bits in
      let few : new_bucket < 2 ^ d.log2_buckets = rw g.mixed.bits small in
      rw (there, lookup_table-rounds)
        (Returns-bind
          (Returns-both
            (lookup_between-Looked d t key key_size hash g.mixed.has g.mixed.clustered new_bucket
              (length t) few (omega arith) (omega arith))
            (lookup_between-Ended d t key key_size hash new_bucket g.mixed.has few))
          λ s (e, e'). first s e e')
    where
      first :
          (s : Search)
          → Looked t key key_size hash new_bucket new_bucket (length t) s
          → Ended t new_bucket new_bucket s
          → Returns (Found n d t key key_size hash) (elim s [
            | found p ↦ ok (found p, d)
            | absent i dist ↦ one_round (absent i dist) (within_end old_bucket d.remap_end)
            | no_table ↦ ok (no_table, d)
          ])
      first (found p) (seen_at h full same at) e =
          returns (present t (λ k ks h'. refl) refl g h full same at)
      first (absent i dist) (not_in new) e =
          one_round-Found i dist new (absent-StopsAt t new_bucket (absent i dist) i dist refl e)
      first no_table e e' = elim e [ ]

-- The value of an entry for a key is that of the map.
pub value_at :
    (t : List DictEntry) (key : List ℕ) (key_size hash p : ℕ)
    → count (for_key key key_size hash) t ≤ 1
    → p < length t
    → IsFull t p
    → equal (slot t p) key key_size hash ≡ true
    → (slot t p).value ≡ value_in t key key_size hash
value_at t key key_size hash p most h full same = sym (
    value_in-bound key key_size hash (slot t p).value t most
      (count-slot (binding key key_size hash (slot t p).value) t p h full (ground (arith, same))))

-- An entry for the key stands in the bucket that its hash has in the table of the present size.
abbrev pub StandsHome : ℕ → List DictEntry → List ℕ → ℕ → ℕ → Type 0
StandsHome n t key key_size hash =
    (p : ℕ) × (p < length t)
    × IsFull t p
    × (equal (slot t p) key key_size hash ≡ true)
    × (p ≡ bucket_by_hash hash (suc n) + (slot t p).distance)

-- Lookup in a growing dictionary returns, without a fault and with no failed assertion, the value
-- that the map has for the key, or the null pointer where it has none. The dictionary is still
-- growing and the same map, and an entry for the key, if there is one, stands after it in the bucket
-- of the present size, even where it was found in the bucket of the size before.
pub lookup-reads :
    (n : ℕ) (d : Dictionary) (t : List DictEntry) (key : List ℕ) (key_size hash : ℕ)
    → IsGrowing n d t
    → Returns
        (λ (r : ℕ × Dictionary).
          (r.0 ≡ value_in t key key_size hash)
          × ((t' : List DictEntry) × SameMap t t'
              × IsGrowing n r.1 t'
              × ((count (for_key key key_size hash) t ≡ 0) ⊎ StandsHome n t' key key_size hash)))
        (lookup d key key_size hash)
unfolding lookup
lookup-reads n d t key key_size hash g =
    Returns-bind (lookup_index-Found n d t g key key_size hash) λ (s, r) a. answer s r a
  where
    answer :
        (s : Search) (r : Dictionary)
        → Found n d t key key_size hash (s, r)
        → Returns
            (λ (r' : ℕ × Dictionary).
              (r'.0 ≡ value_in t key key_size hash)
              × ((t' : List DictEntry) × SameMap t t'
                  × IsGrowing n r'.1 t'
                  × ((count (for_key key key_size hash) t ≡ 0)
                      ⊎ StandsHome n t' key key_size hash)))
            (elim s [
              | found p ↦ do e ← entry_at r p; ok (e.value, r)
              | absent _ _ ↦ ok (0, r)
              | no_table ↦ ok (0, r)
            ])
    answer (found p) r (present t' map order g' h full same at) =
        rw (entry_at-slot r t' p g'.mixed.has h) (
          returns (
            value_at t' key key_size hash p (g'.unique key key_size hash) h full same
                ∙ map key key_size hash,
            (t', map, g', inr (p, h, full, same, at)),
          ))
    answer (absent i dist) r (missing free stop) =
        returns (sym (value_in-free key key_size hash t free), (t, λ k ks h. refl, g, inl free))
    answer no_table r e = elim e [ ]
