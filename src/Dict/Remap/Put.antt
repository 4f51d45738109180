-- ===== src/Dict/Remap/Put.antt =====
-- Insert of dict/OpenDict.cc for a new key into a dictionary between two sizes: the part that is left
-- to remap covers every entry that moves.
use zeek_snippets.Prelude.{
  ℕ, suc, ◌+◌, ◌-◌, ◌^◌, ◌≤◌, ◌<◌, ◌≡◌, ◌⊎◌, refl, sym, subst, ap, ◌∙◌, true, false, ◌&&◌, List,
  Option, none, some, length, leb, ltb, arith, if◌then◌else◌, Bool-cases, inl, inr,
}
use zeek_snippets.Run.{ok, ◌>>=◌, Returns, returns, Returns-bind, Returns-inv}
use zeek_snippets.Dict.{DictEntry, Dictionary, make_entry, is_empty, equal, remapping}
use zeek_snippets.Dict.Math.{bucket_by_hash, capacity, capacity_of, threshold_entries}
use zeek_snippets.Dict.Math.Bounds.{bucket_by_hash-lt}
use zeek_snippets.Dict.Cluster.Order.{slot, HasTable, IsPlaced, IsHome, capacity-HasTable}
use zeek_snippets.Dict.Relocate.{insert_relocating}
use zeek_snippets.Dict.Relocate.Count.{one, count}
use zeek_snippets.Dict.Relocate.Insertion.{InsertInv, Gained, Rises, insert_and_relocate-Gained}
use zeek_snippets.Dict.Lookup.{Search, found, absent, no_table, lookup_index}
use zeek_snippets.Dict.Lookup.Linear.{bucket_by_hash-congr}
use zeek_snippets.Dict.Update.{
  adjust_on_insert, cover, insert_relocate_and_adjust, push_order, count_inserted, insert_new,
  init_if_null, place, insert,
}
use zeek_snippets.Dict.Contents.{for_key, IsWellFormed}
use zeek_snippets.Dict.Contents.Settled.{adjust_cookies_still, only_robust_still}
use zeek_snippets.Dict.Contents.More.{more_unique, value_in-more}
use zeek_snippets.Dict.Contents.View.{value_in}
use zeek_snippets.Dict.Remap.{remap}
use zeek_snippets.Dict.Remap.Room.{from_bucket, free_behind}
use zeek_snippets.Dict.Remap.Mixed.{unmapped, IsEitherHome, mixed_near}
use zeek_snippets.Dict.Remap.Growing.{IsGrowing, remap-refines}
use zeek_snippets.Dict.Remap.Again.{StopsAt, Found, missing}
use zeek_snippets.Dict.Remap.Find.{lookup_index-Found}

-- Where the part that is left to remap ends after an insertion at `i` that moves entries up to `last`.
abbrev covered : Option ℕ → ℕ → ℕ → Option ℕ
covered none i last = none
covered (some end) i last = if leb i end && ltb end last then some last else some end

cover-covered :
    (d : Dictionary) (i last : ℕ)
    → cover d i last ≡ record d { remap_end = covered d.remap_end i last }
cover-covered d i last = by_end d.remap_end refl
  where
    by_end :
        (o : Option ℕ)
        → d.remap_end ≡ o
        → cover d i last ≡ record d { remap_end = covered o i last }
    by_end none at = unfold cover in rw at refl
    by_end (some end) at = elim (Bool-cases (leb i end && ltb end last)) [
      | inl on ↦ unfold cover in rw at (rw on refl)
      | inr off ↦ unfold cover in rw at (rw off refl)
    ]

-- It covers what it did before, and the entries that move, if the insertion is in it.
covered-le :
    (o : Option ℕ) (i last : ℕ)
    → (unmapped o ≤ unmapped (covered o i last))
      × ((i < unmapped o → last < unmapped (covered o i last))
          × ((k : ℕ) → unmapped o ≤ k → last < k → unmapped (covered o i last) ≤ k))
covered-le none i last = (omega arith, (λ h. absurd (omega arith), λ k h l. omega arith))
covered-le (some end) i last = elim (Bool-cases (leb i end && ltb end last)) [
  | inl on ↦ rw on (ground (arith, on), (λ h. omega arith, λ k h l. omega arith))
  | inr off ↦ rw off (omega arith, (λ h. ground (arith, off), λ k h l. h))
]

-- An entry behind the part that is left to remap is at home, if the insertion at `i` is behind it, too.
abbrev IsNearHome : ℕ → ℕ → ℕ → ℕ → ℕ → ℕ → Type 0
IsNearHome n limit i hash bucket j =
    IsHome (suc n) hash bucket j ⊎ ((limit ≤ i → j < limit) × IsHome n hash bucket j)

near-Rises : (n limit i : ℕ) → Rises (IsNearHome n limit i) 0 i
near-Rises n limit i hash bucket j s low from le (inl new) = inl new
near-Rises n limit i hash bucket j s low from le (inr (early, old)) =
    inr (λ beyond. absurd (let h = early beyond in omega arith), old)

module _ (n : ℕ) (d : Dictionary) (t : List DictEntry) (g : IsGrowing n d t) (key : List ℕ)
    (key_size hash value i dist : ℕ) (short : key_size < 2 ^ 16)
    (free : count (for_key key key_size hash) t ≡ 0)
    (stop : StopsAt t (bucket_by_hash hash (suc n)) i dist)
    (space : (s : ℕ)
      → s < length t
      → count (from_bucket (suc n) s) t
          + one (from_bucket (suc n) s) (make_entry key key_size hash value dist)
          + s
        < length t) where
  abbrev bucket : ℕ
  bucket = bucket_by_hash hash (suc n)

  abbrev entry : DictEntry
  entry = make_entry key key_size hash value dist

  abbrev Near : ℕ → ℕ → ℕ → Type 0
  Near = IsNearHome n (unmapped d.remap_end) i

  free_cell : (f : ℕ) × (i ≤ f) × (f < length t) × (is_empty (slot t f) ≡ true)
  free_cell =
      let cells : length t ≡ 2 ^ suc n + suc n = g.mixed.has.cells ∙ ap capacity_of g.mixed.bits in
      let small = bucket_by_hash-lt hash (suc n) (omega (arith, g.mixed.few)) in
      let (f, low, high, clear) =
        free_behind (suc n) t g.mixed.clustered g.mixed.room (mixed_near n d t g.mixed) bucket
          (omega arith) in
      elim (Bool-cases (leb i f)) [
        | inl behind ↦ (f, ground arith, high, clear)
        | inr before ↦
            let (there, close) = stop.0.run f low (ground arith) in
            absurd (ground (arith, there, clear))
      ]

  entry-distance : entry.distance ≡ i - bucket
  unfolding make_entry
  entry-distance = let (f, low, high, clear) = free_cell in omega (arith, stop.1, g.mixed.small)

  entry_full : is_empty entry ≡ false
  unfolding is_empty
  entry_full =
      let (f, low, high, clear) = free_cell in ground (arith, entry-distance, g.mixed.small)

  entry-InsertInv : InsertInv Near 0 t entry i
  entry-InsertInv =
      let ends = stop.0 in
      let same : bucket_by_hash entry.hash (suc n) ≡ bucket =
        bucket_by_hash-congr entry.hash hash (suc n) (unfold make_entry in omega arith) in
      record {
        clustered = g.mixed.clustered;
        mapped = λ j b h full at. elim (g.mixed.placed j b h full at) [
          | inl new ↦ inl new
          | inr (early, old) ↦ inr (λ beyond. early, old)
        ];
        full = entry_full;
        reach = omega (arith, entry-distance);
        home = λ b at. inl (omega (arith, entry-distance, same, ends.low, at));
        above = omega (arith, entry-distance);
        run = λ j low high.
            let (full, close) = ends.run j (omega (arith, entry-distance, ends.low)) high in
            (full, omega (arith, entry-distance, ends.low));
        larger = λ h full. let far = ends.larger h full in omega (arith, entry-distance, ends.low);
      }

  gained :
      (r : Dictionary × DictEntry × ℕ) × (insert_relocating d entry i ≡ ok r)
      × Gained Near d t entry i r.0 r.2
  unfolding insert_relocating
  gained = Returns-inv (
      let (f, low, high, clear) = free_cell in
      insert_and_relocate-Gained Near 0 i (capacity d false + 2) d t entry i f
        (near-Rises n (unmapped d.remap_end) i) (omega arith) g.mixed.has entry-InsertInv low high
        g.mixed.small clear (omega (arith, capacity-HasTable d t g.mixed.has)))

  module _ (r : Dictionary) (e' : DictEntry) (last : ℕ)
      (run : insert_relocating d entry i ≡ ok (r, e', last))
      (a : Gained Near d t entry i r last) where
    abbrev new_end : Option ℕ
    new_end = covered d.remap_end i last

    has : HasTable (record d { table = some a.table }) a.table
    has = subst (λ x. HasTable x a.table) a.same a.has

    size : length a.table ≡ length t
    size = has.cells ∙ sym g.mixed.has.cells

    either_placed : IsPlaced (IsEitherHome n (unmapped new_end)) a.table
    either_placed j b h full at =
        let (wider, (over, least)) = covered-le d.remap_end i last in
        elim (a.mapped j b h full at) [
          | inl new ↦ inl new
          | inr (early, old) ↦ elim (Bool-cases (leb (unmapped d.remap_end) i)) [
            | inl beyond ↦ let before = early (ground arith) in inr (omega arith, old)
            | inr in_part ↦ elim (Bool-cases (leb j last)) [
              | inl moved ↦ let wide = over (ground arith) in inr (ground arith, old)
              | inr further ↦
                  let same = a.behind j (ground arith) in
                  let full' = rw same at full in
                  let at' = rw same at at in
                  let placed = g.mixed.placed j b (omega (arith, size)) full' at' in
                  rw same (elim placed [
                    | inl new ↦ inl new
                    | inr (before, old') ↦ inr (omega arith, old')
                  ])
            ]
          ]
        ]

    abbrev kept : Dictionary
    kept =
        count_inserted
          (record d { table = some a.table; remap_end = new_end; order = push_order d.order e' })

    kept-IsGrowing : IsGrowing n kept a.table
    unfolding count_inserted
    kept-IsGrowing = record {
      mixed = record {
        has = record { at = refl; cells = has.cells };
        bits = g.mixed.bits;
        few = g.mixed.few;
        clustered = a.clustered;
        placed = either_placed;
        room = λ s h. omega (
          arith,
          size,
          space s (omega (arith, size)),
          a.counts (from_bucket (suc n) s) (λ x k. refl),
        );
        within =
            let (wider, (over, least)) = covered-le d.remap_end i last in
            least (length a.table) (omega (arith, size, g.mixed.within))
              (omega (arith, size, a.within));
        small = omega (arith, size, g.mixed.small);
        cookies = g.mixed.cookies;
      };
      remaps = g.remaps;
      iterators = g.iterators;
      unique =
          more_unique t a.table key key_size hash value dist short free g.unique entry_full
            a.counts;
      counted =
          let weight : one (λ x. true) entry ≡ 1 = rw entry_full refl in
          omega (arith, a.counts (λ x. true) (λ x k. refl), g.counted, weight);
    }

    over_none :
        ltb (threshold_entries kept) kept.num_entries
        ≡ ltb (threshold_entries d) (d.num_entries + 1)
    unfolding count_inserted threshold_entries capacity
    over_none = rw g.mixed.has.at refl

    insert_relocate_and_adjust-kept :
        insert_relocate_and_adjust d entry i
        ≡ ok (record d { table = some a.table; remap_end = new_end }, e')
    unfolding insert_relocate_and_adjust
    insert_relocate_and_adjust-kept =
        let widened : cover r i last ≡ record d { table = some a.table; remap_end = new_end } =
          ap (λ x. cover x i last) a.same
          ∙ cover-covered (record d { table = some a.table }) i last in
        rw
          (
            run,
            ◌>>=◌,
            widened,
            adjust_cookies_still (adjust_on_insert r e' i last)
                (record d { table = some a.table; remap_end = new_end }) g.mixed.cookies,
          )
          refl

    module _ (room : d.num_entries < threshold_entries d) where
      insert_new-kept : insert_new d entry i ≡ ok kept
      unfolding insert_new
      insert_new-kept =
          let under : ltb (threshold_entries d) (d.num_entries + 1) ≡ false = ground arith in
          rw (insert_relocate_and_adjust-kept, ◌>>=◌, over_none, under) refl

      insert-kept :
          lookup_index d key key_size hash ≡ ok (absent i dist, d)
          → insert d key key_size hash value
            ≡ ((if remapping kept then remap kept else ok kept) >>= λ d₃. ok (0, d₃))
      unfolding insert place
      insert-kept missed =
          let alone = only_robust_still d g.iterators in
          let ready : init_if_null d ≡ ok d = unfold init_if_null in rw g.mixed.has.at refl in
          rw (alone, ready, missed, ◌>>=◌, insert_new-kept) refl

absent-missing :
    (n : ℕ) (d : Dictionary) (t : List DictEntry) (key : List ℕ) (key_size hash i dist : ℕ)
    (s : Search) (r : Dictionary)
    → s ≡ absent i dist
    → Found n d t key key_size hash (s, r)
    → (count (for_key key key_size hash) t ≡ 0) × StopsAt t (bucket_by_hash hash (suc n)) i dist
absent-missing n d t key key_size hash i dist (absent k far) r at (missing free stop) =
    let here : k ≡ i = ground (arith, at) in
    let near : far ≡ dist = ground (arith, at) in (free, rw here at (rw near at stop))
absent-missing n d t key key_size hash i dist (found p) r at e = cc
absent-missing n d t key key_size hash i dist no_table r at e = cc

-- What Insert makes of the map `t`.
abbrev Put : ℕ → List DictEntry → List ℕ → ℕ → ℕ → ℕ → ℕ × Dictionary → Type 0
Put n t key key_size hash value r =
    (r.0 ≡ 0)
    × ((t' : List DictEntry) × (IsGrowing n r.1 t' ⊎ IsWellFormed r.1 t')
        × ((key' : List ℕ) (key_size' hash' : ℕ)
            → value_in t' key' key_size' hash' ≡ (
                if equal (make_entry key key_size hash 0 0) key' key_size' hash'
                then value
                else value_in t key' key_size' hash')))

-- Insert of a key of less than 2 ^ 16 bytes, which LookupIndex misses in a growing dictionary, while
-- the threshold is not reached and the table has, from no cell on, as many entries for the buckets
-- from there on as cells, the new one included: Insert returns the null pointer without a fault; the
-- dictionary is still growing, or is well-formed after a remap that ends; and as a map it has the new
-- value for every key that the new entry is for, and what it had before for every other key.
pub insert-puts :
    (n : ℕ) (d : Dictionary) (t : List DictEntry) (key : List ℕ) (key_size hash value i dist : ℕ)
    → IsGrowing n d t
    → key_size < 2 ^ 16
    → lookup_index d key key_size hash ≡ ok (absent i dist, d)
    → d.num_entries < threshold_entries d
    → ((s : ℕ)
        → s < length t
        → count (from_bucket (suc n) s) t
            + one (from_bucket (suc n) s) (make_entry key key_size hash value dist)
            + s
          < length t)
    → Returns (Put n t key key_size hash value) (insert d key key_size hash value)
insert-puts n d t key key_size hash value i dist g short missed room space =
    let ((s, r₀), found_run, at) = Returns-inv (lookup_index-Found n d t g key key_size hash) in
    let same : s ≡ absent i dist = ground (arith, found_run, missed) in
    let (free, stop) = absent-missing n d t key key_size hash i dist s r₀ same at in
    let ((r, e', last), run, a) =
      gained n d t g key key_size hash value i dist short free stop space in
    let kept' = kept n d t g key key_size hash value i dist short free stop space r e' last run a in
    let growing =
      kept-IsGrowing n d t g key key_size hash value i dist short free stop space r e' last run a in
    let full = entry_full n d t g key key_size hash value i dist short free stop space in
    let values =
      value_in-more t a.table key key_size hash value dist short free g.unique full a.counts in
    rw
      (insert-kept n d t g key key_size hash value i dist short free stop space r e' last run a room
        missed)
      (elim (Bool-cases (remapping kept')) [
        | inl on ↦ rw on (
            Returns-bind (remap-refines n kept' a.table growing) λ d₃ (t', same, either). returns (
              refl,
              (
                t',
                either,
                λ key' key_size' hash'. same key' key_size' hash' ∙ values key' key_size' hash',
              ),
            ))
        | inr off ↦ rw off (returns (refl, (a.table, inl growing, values)))
      ])
