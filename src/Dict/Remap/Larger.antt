-- ===== src/Dict/Remap/Larger.antt =====
-- SizeUp of dict/OpenDict.cc: twice as many buckets, and the map as before.
use zeek_snippets.Prelude.{
  ℕ, zero, suc, ◌+◌, ◌-◌, ◌%◌, ◌^◌, ◌≤◌, ◌<◌, ◌≡◌, refl, sym, ap, ◌∙◌, Bool, true, false, List, [],
  ◌∷◌, ◌++◌, some, length, take, replicate, get_or, ltb, leb, arith, Bool-cases, inl, inr,
  get_or-append, length-append, length-replicate,
}
use native.Mathlib.Nat.{pow-suc}
use zeek_snippets.Run.{ok, Returns, returns}
use zeek_snippets.Dict.{DictEntry, Dictionary, is_empty}
use zeek_snippets.Dict.Math.{capacity, capacity_of}
use zeek_snippets.Dict.Cluster.Order.{slot, IsFull, IsClustered, capacity-HasTable}
use zeek_snippets.Dict.Relocate.{empty_entry, size_up}
use zeek_snippets.Dict.Relocate.Count.{count}
use zeek_snippets.Dict.Remap.Room.{from_bucket}
use zeek_snippets.Dict.Remap.Mixed.{IsMixed}
use zeek_snippets.Dict.Contents.{for_key, IsWellFormed}
use zeek_snippets.Dict.Remap.Growing.{IsGrowing, SameMap, counts-SameMap}

count_empty : (p : DictEntry → Bool) (k : ℕ) → count p (replicate k empty_entry) ≡ 0
unfolding is_empty empty_entry
count_empty p zero = refl
count_empty p (suc k) = omega (arith, count_empty p k)

count-append :
    (p : DictEntry → Bool) (t u : List DictEntry) → count p (t ++ u) ≡ count p t + count p u
count-append p [] u = omega arith
count-append p (x ∷ t) u = omega (arith, count-append p t u)

slot_empty : (k i : ℕ) → slot (replicate k empty_entry) i ≡ empty_entry
unfolding get_or
slot_empty zero i = refl
slot_empty (suc k) zero = refl
slot_empty (suc k) (suc i) = slot_empty k i

take_more : (t : List DictEntry) (c : ℕ) → length t ≤ c → take c t ≡ t
take_more [] zero h = refl
take_more [] (suc c) h = refl
take_more (x ∷ t) zero h = absurd (omega arith)
take_more (x ∷ t) (suc c) h = ap (λ u. x ∷ u) (take_more t c (omega arith))

module _ (d : Dictionary) (t : List DictEntry) (w : IsWellFormed d t) (few : d.log2_buckets < 64)
    (small : capacity_of (suc d.log2_buckets) ≤ 0xFFFF)
    (room : (s : ℕ)
      → s < capacity_of (suc d.log2_buckets)
      → count (from_bucket (suc d.log2_buckets) s) t + s < capacity_of (suc d.log2_buckets)) where
  abbrev added : ℕ
  added = capacity_of (suc d.log2_buckets) - length t

  abbrev pub longer : List DictEntry
  longer = t ++ replicate added empty_entry

  abbrev pub grown : Dictionary
  grown = record d {
    log2_buckets = suc d.log2_buckets;
    table = some longer;
    remap_end = some (length t);
    remaps = 1;
  }

  more : length t < capacity_of (suc d.log2_buckets)
  more = omega (arith, w.has.cells, pow-suc 2 d.log2_buckets)

  length-longer : length longer ≡ capacity_of (suc d.log2_buckets)
  length-longer = omega (
    arith,
    length-append t (replicate added empty_entry),
    length-replicate added empty_entry,
    more,
  )

  slot-longer : (i : ℕ) → i < length t → slot longer i ≡ slot t i
  slot-longer i h =
      let within : ltb i (length t) ≡ true = ground arith in
      get_or-append t (replicate added empty_entry) i empty_entry ∙ rw within refl

  longer-full : (i : ℕ) → IsFull longer i → i < length t
  unfolding is_empty empty_entry
  longer-full i full = elim (Bool-cases (ltb i (length t))) [
    | inl within ↦ ground arith
    | inr beyond ↦
        let at : slot longer i ≡ empty_entry =
          get_or-append t (replicate added empty_entry) i empty_entry
          ∙ rw beyond (slot_empty added (i - length t)) in
        absurd (let no_entry = rw at at full in cc)
  ]

  count-longer : (p : DictEntry → Bool) → count p longer ≡ count p t
  count-longer p =
      omega (arith, count-append p t (replicate added empty_entry), count_empty p added)

  longer-IsClustered : IsClustered longer
  longer-IsClustered = record {
    reaches = λ i h full.
        let in_t = longer-full i full in
        let same = slot-longer i in_t in rw same (w.clustered.reaches i in_t (rw same at full));
    packed = λ i h full far.
        let in_t = longer-full (suc i) full in
        let next = slot-longer (suc i) in_t in
        let same = slot-longer i (omega arith) in
        rw (same, next) (w.clustered.packed i in_t (rw next at full) (rw next at far));
  }

  grown-IsMixed : IsMixed d.log2_buckets grown longer
  grown-IsMixed = record {
    has = record { at = refl; cells = length-longer };
    bits = refl;
    few = few;
    clustered = longer-IsClustered;
    placed = λ i bucket h full there.
        let in_t = longer-full i full in
        let same = slot-longer i in_t in
        let there' = rw same at there in
        rw same
          (inr (omega (arith, in_t), omega (arith, w.mapped i in_t (rw same at full), there')));
    room = λ s h. omega (
      arith,
      length-longer,
      count-longer (from_bucket (suc d.log2_buckets) s),
      room s (omega (arith, length-longer)),
    );
    within = omega (arith, length-longer, more);
    small = omega (arith, length-longer, small);
    cookies = w.settled.cookies;
  }

  pub grown-IsGrowing : IsGrowing d.log2_buckets grown longer
  grown-IsGrowing = record {
    mixed = grown-IsMixed;
    remaps = refl;
    iterators = w.settled.iterators;
    unique = λ key key_size hash.
        omega (arith, count-longer (for_key key key_size hash), w.unique key key_size hash);
    counted = w.counted ∙ sym (count-longer (λ x. true));
  }

  pub size_up-grown : size_up d ≡ ok grown
  unfolding size_up
  size_up-grown =
      let log2 : (d.log2_buckets + 1) % 2 ^ 8 ≡ suc d.log2_buckets = omega arith in
      let wider : capacity (record d { log2_buckets = suc d.log2_buckets }) false
          ≡ capacity_of (suc d.log2_buckets) =
        unfold capacity in rw w.has.at refl in
      let one_remap : (d.remaps + 1) % 2 ^ 8 ≡ 1 = omega (arith, w.settled.remaps) in
      let allowed : leb 1 (suc d.log2_buckets) ≡ true = ground arith in
      let kept : take (capacity_of (suc d.log2_buckets)) t ≡ t =
        take_more t _ (omega (arith, more)) in
      rw (capacity-HasTable d t w.has, log2, wider, one_remap, allowed) (rw w.has.at (rw kept refl))

  pub longer-SameMap : SameMap t longer
  longer-SameMap = counts-SameMap t longer w.unique (λ p ignores. count-longer p)

  -- SizeUp of a well-formed dictionary without a fault doubles the buckets and keeps the map, and the
  -- dictionary is growing, where the table stays within 16 bits and, from no cell of the longer table
  -- on, there are as many entries for the buckets from there on as cells.
  pub size_up-refines :
      Returns
        (λ r. (t' : List DictEntry) × SameMap t t' × IsGrowing d.log2_buckets r t')
        (size_up d)
  size_up-refines = rw size_up-grown (returns (longer, longer-SameMap, grown-IsGrowing))
