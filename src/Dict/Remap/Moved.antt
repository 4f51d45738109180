-- ===== src/Dict/Remap/Moved.antt =====
-- Remap(position, new_position) of dict/OpenDict.cc for one entry of a dictionary between two sizes.
use zeek_snippets.Prelude.{
  ℕ, suc, ◌+◌, ◌-◌, ◌%◌, ◌^◌, ◌≤◌, ◌<◌, ◌≡◌, refl, sym, subst, ap, ◌∙◌, Bool, true, false, List,
  Option, none, some, length, leb, ltb, arith, Bool-cases, inl, inr,
}
use zeek_snippets.Run.{◌>>=◌, Returns, returns, Returns-if, Returns-bind}
use zeek_snippets.Dict.{DictEntry, Dictionary, is_empty}
use zeek_snippets.Dict.Math.{bucket_by_hash, capacity, capacity_of}
use zeek_snippets.Dict.Math.Bounds.{bucket_by_hash-lt}
use zeek_snippets.Dict.Cluster.{in_bucket}
use zeek_snippets.Dict.Cluster.Order.{
  slot, IsFull, HasTable, IsClustered, IsPlaced, capacity-HasTable, entry_at-slot,
}
use zeek_snippets.Dict.Relocate.{insert_relocating}
use zeek_snippets.Dict.Relocate.Count.{one, count, IgnoresDistance}
use zeek_snippets.Dict.Relocate.Insertion.{InsertInv, Gained, insert_and_relocate-Gained}
use zeek_snippets.Dict.Relocate.Removal.{remove_and_relocate-Lost}
use zeek_snippets.Dict.Lookup.Stops.{EndsAt}
use zeek_snippets.Dict.Remap.{no_cookies, remap_at}
use zeek_snippets.Dict.Remap.Room.{free_behind}
use zeek_snippets.Dict.Remap.Mixed.{
  unmapped, IsEitherHome, IsMixed, either-Falls, either-Rises, either_moves, mixed_near,
  table-IsMixed, end_of_cluster_by_bucket-EndsAt,
}

-- The dictionary has a mixed table of the same entries, and the entry of the position `p` is at the
-- new position, if there is one, and else where it was, at home.
pub record Moved (n : ℕ) (d : Dictionary) (t : List DictEntry) (p : ℕ) (r : Option ℕ × Dictionary)
    : Type 0 where
  pub table : List DictEntry
  pub same : r.1 ≡ record d { table = some table }
  pub mixed : IsMixed n (record d { table = some table }) table
  pub counts : (test : DictEntry → Bool) → IgnoresDistance test → count test table ≡ count test t
  pub stays :
      r.0 ≡ none → (table ≡ t) × (p ≡ bucket_by_hash (slot t p).hash (suc n) + (slot t p).distance)
  pub moves :
      (q : ℕ)
      → r.0 ≡ some q
      → (q < length table)
        × IsFull table q
        × (k : ℕ) × (slot table q ≡ record (slot t p) { distance = k })
        × (q ≡ bucket_by_hash (slot t p).hash (suc n) + k)

module _ (n : ℕ) (d : Dictionary) (t : List DictEntry) (m : IsMixed n d t) (p : ℕ)
    (inside : p < length t) (full : IsFull t p) where
  abbrev expected : ℕ
  expected = bucket_by_hash (slot t p).hash (suc n)

  abbrev Home : ℕ → ℕ → ℕ → Type 0
  Home = IsEitherHome n (unmapped d.remap_end)

  abbrev moved_to : ℕ → DictEntry
  moved_to i = record (slot t p) { distance = (i - expected) % 2 ^ 16 }

  expected-lt : expected < 2 ^ suc n
  expected-lt = bucket_by_hash-lt (slot t p).hash (suc n) (omega (arith, m.few))

  upper_half : in_bucket (slot t p) p expected ≡ false → 2 ^ n ≤ expected
  upper_half off =
      let b = p - (slot t p).distance in
      let reach = m.clustered.reaches p inside full in
      let at : p ≡ b + (slot t p).distance = omega arith in
      elim (either_moves n (unmapped d.remap_end) (slot t p).hash b p m.few
        (m.placed p b inside full at)) [
          | inl new ↦ absurd (ground (arith, off, new, at))
          | inr (before, old, further) ↦ omega (arith, further)
        ]

  module _ (off : in_bucket (slot t p) p expected ≡ false) (T : List DictEntry)
      (has : HasTable (record d { table = some T }) T) (clustered : IsClustered T)
      (placed : IsPlaced Home T)
      (lost : (test : DictEntry → Bool)
        → IgnoresDistance test
        → count test T + one test (slot t p) ≡ count test t)
      (i : ℕ) (ends : EndsAt T expected expected i) where
    abbrev shorter : Dictionary
    shorter = record d { table = some T }

    shorter-IsMixed : IsMixed n shorter T
    shorter-IsMixed =
        table-IsMixed n d t T m has clustered placed
          λ test ignores. omega (arith, lost test ignores)

    size : length T ≡ length t
    size = has.cells ∙ sym m.has.cells

    expected-inside : expected < length T
    expected-inside =
        let cells : length T ≡ 2 ^ suc n + suc n = has.cells ∙ ap capacity_of m.bits in
        omega (arith, cells, expected-lt)

    free_cell : (f : ℕ) × (i ≤ f) × (f < length T) × (is_empty (slot T f) ≡ true)
    free_cell =
        let (f, low, high, free) =
          free_behind (suc n) T clustered shorter-IsMixed.room
            (mixed_near n shorter T shorter-IsMixed) expected expected-inside in
        elim (Bool-cases (leb i f)) [
          | inl behind ↦ (f, ground arith, high, free)
          | inr before ↦
              let (there, close) = ends.run f low (ground arith) in
              absurd (ground (arith, there, free))
        ]

    to-distance : (moved_to i).distance ≡ i - expected
    to-distance = let (f, low, high, free) = free_cell in omega (arith, size, m.small)

    to-full : is_empty (moved_to i) ≡ false
    unfolding is_empty
    to-full = let (f, low, high, free) = free_cell in ground (arith, to-distance, size, m.small)

    to-InsertInv : InsertInv Home expected T (moved_to i) i
    to-InsertInv = record {
      clustered = clustered;
      mapped = placed;
      full = to-full;
      reach = omega (arith, to-distance);
      home = λ bucket at. inl (omega (arith, at, to-distance, ends.low));
      above = omega (arith, to-distance, ends.low);
      run = λ j low high.
          let (there, close) = ends.run j (omega (arith, to-distance, ends.low)) high in
          (there, omega (arith, to-distance, ends.low));
      larger = λ h there. let far = ends.larger h there in omega (arith, to-distance, ends.low);
    }

    gained :
        Returns
          (λ r. Gained Home shorter T (moved_to i) i r.0 r.2)
          (insert_relocating shorter (moved_to i) i)
    unfolding insert_relocating
    gained =
        let (f, low, high, free) = free_cell in
        insert_and_relocate-Gained Home expected 0 (capacity shorter false + 2) shorter T
          (moved_to i) i f (either-Rises n (unmapped d.remap_end) expected m.few (upper_half off))
          (omega arith) has to-InsertInv low high (omega (arith, size, m.small)) free
          (omega (arith, capacity-HasTable shorter T has))

    put_back-Moved :
        (r : Dictionary) (last : ℕ)
        → Gained Home shorter T (moved_to i) i r last
        → Moved n d t p (some i, r)
    put_back-Moved r last g =
        let weight : (test : DictEntry → Bool)
            → IgnoresDistance test
            → one test (moved_to i) ≡ one test (slot t p) =
          λ test ignores. rw (to-full, full, ignores (slot t p) ((i - expected) % 2 ^ 16)) refl in
        let counted : (test : DictEntry → Bool)
            → IgnoresDistance test
            → count test g.table ≡ count test t =
          λ test ignores.
            omega (arith, g.counts test ignores, lost test ignores, weight test ignores) in
        let has' : HasTable (record d { table = some g.table }) g.table =
          subst (λ x. HasTable x g.table) g.same g.has in
        record {
          table = g.table;
          same = g.same;
          mixed =
              table-IsMixed n d t g.table m has' g.clustered g.mapped
                λ test ignores. omega (arith, counted test ignores);
          counts = counted;
          stays = λ none_new. cc;
          moves = λ q new.
              let at : i ≡ q = ground arith in
              let (f, low, high, free) = free_cell in
              rw (sym at) (
                omega (arith, has'.cells, has.cells),
                rw g.here to-full,
                (moved_to i).distance,
                g.here,
                omega (arith, to-distance, ends.low),
              );
        }

-- Remap of one entry of a dictionary between two sizes, none of whose suffixes is too full, returns
-- shorter a fault and with enough fuel: the entry stays if it is in the bucket of its hash, else
-- its position is a new one; the dictionary has the same entries and is still well-formed.
pub remap_at-Moved :
    (n : ℕ) (d : Dictionary) (t : List DictEntry) (p : ℕ)
    → IsMixed n d t
    → p < length t
    → IsFull t p
    → Returns (Moved n d t p) (remap_at d p)
unfolding remap_at
remap_at-Moved n d t p m inside full =
    let alone : no_cookies d.cookies ≡ true = unfold no_cookies in rw m.cookies refl in
    let here : ltb p (length t) ≡ true = ground arith in
    let home : bucket_by_hash (slot t p).hash d.log2_buckets ≡ expected n d t m p inside full =
      ap (bucket_by_hash (slot t p).hash) m.bits in
    let own : d ≡ record d { table = some t } = ap (λ x. record d { table = x }) m.has.at in
    rw
      (
        alone,
        capacity-HasTable d t m.has,
        here,
        entry_at-slot d t p m.has inside,
        ◌>>=◌,
        full,
        home,
      )
      (Returns-if (in_bucket (slot t p) p (expected n d t m p inside full))
        (λ on. returns (record {
          table = t;
          same = own;
          mixed = subst (λ x. IsMixed n x t) own m;
          counts = λ test ignores. refl;
          stays = λ none_new. (refl, ground (arith, on));
          moves = λ q new. cc;
        }))
        λ off.
          Returns-bind
            (remove_and_relocate-Lost (Home n d t m p inside full) d t p
              (either-Falls n (unmapped d.remap_end)) m.has m.clustered m.placed inside full
              m.small)
            λ (d₁, e, last) (at, lost).
              let T = lost.table in
              let has = subst (λ x. HasTable x T) lost.same lost.has in
              let small = expected-lt n d t m p inside full in
              rw (at, lost.same)
                (Returns-bind
                  (end_of_cluster_by_bucket-EndsAt (record d { table = some T }) T
                    (expected n d t m p inside full) has (rw m.bits small))
                  λ i ends.
                    Returns-bind
                      (gained n d t m p inside full off T has lost.clustered lost.mapped lost.counts
                        i ends)
                      λ (d₂, e', last') g. returns (
                        put_back-Moved n d t m p inside full off T has lost.clustered lost.mapped
                          lost.counts i ends d₂ last' g)))
