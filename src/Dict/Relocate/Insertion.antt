-- ===== src/Dict/Relocate/Insertion.antt =====
-- InsertAndRelocate of dict/OpenDict.cc where a cell behind the place is empty: the table keeps its
-- order and gains the entry.
use zeek_snippets.Prelude.{
  ℕ, zero, suc, ◌+◌, ◌-◌, ◌%◌, ◌^◌, ◌≤◌, ◌<◌, ◌≡◌, refl, ◌∙◌, true, false, Bool, List, some, length,
  set, length-set, leb, arith, ◌==◌, Bool-cases, inl, inr,
}
use zeek_snippets.Run.{◌>>=◌, Returns, returns, Returns-if, Returns-map, Returns-bind}
use zeek_snippets.Dict.{DictEntry, Dictionary, is_empty}
use zeek_snippets.Dict.Cluster.Order.{
  slot, IsFull, HasTable, IsClustered, IsPlaced, capacity-HasTable, entry_at-slot, cluster_below,
}
use zeek_snippets.Dict.Cluster.Walk.{RunsTo, end_of_cluster-RunsTo}
use zeek_snippets.Dict.Cluster.Write.{
  slot-set_self, slot-set_ne, write_at-set, set-IsClustered, set-IsPlaced,
}
use zeek_snippets.Dict.Relocate.{insert_and_relocate}
use zeek_snippets.Dict.Relocate.Count.{one, count, IgnoresDistance, count-set}

-- `i` is the end of the cluster of the entry `e`, which has its distance for that place.
pub record InsertInv (Home : ℕ → ℕ → ℕ → Type 0) (low : ℕ) (t : List DictEntry) (e : DictEntry)
    (i : ℕ) : Type 0 where
  pub clustered : IsClustered t
  pub mapped : IsPlaced Home t
  pub full : is_empty e ≡ false
  pub reach : e.distance ≤ i
  pub home : (bucket : ℕ) → i ≡ bucket + e.distance → Home e.hash bucket i
  pub above : low + e.distance ≤ i
  pub run :
      (j : ℕ) → i ≤ j + e.distance → j < i → IsFull t j × (j + e.distance ≤ i + (slot t j).distance)
  pub larger : i < length t → IsFull t i → (slot t i).distance < e.distance

-- The dictionary `r` is `d` with a well-formed table of the entries of `t` and `e`.
pub record Gained (Home : ℕ → ℕ → ℕ → Type 0) (d : Dictionary) (t : List DictEntry) (e : DictEntry)
    (i : ℕ) (r : Dictionary) (last : ℕ) : Type 0 where
  pub table : List DictEntry
  pub same : r ≡ record d { table = some table }
  pub has : HasTable r table
  pub clustered : IsClustered table
  pub mapped : IsPlaced Home table
  pub counts : (p : DictEntry → Bool) → IgnoresDistance p → count p table ≡ count p t + one p e
  pub here : slot table i ≡ e
  pub before : (j : ℕ) → j < i → slot table j ≡ slot t j
  pub behind : (j : ℕ) → last < j → slot table j ≡ slot t j
  pub onward : i ≤ last
  pub within : last < length t

-- Entries of buckets behind `low` that stand at `from` or behind it may stand further on.
abbrev pub Rises : (ℕ → ℕ → ℕ → Type 0) → ℕ → ℕ → Type 0
Rises Home low from =
    (hash bucket i s : ℕ)
    → low < bucket
    → from ≤ i
    → i ≤ s
    → Home hash bucket i
    → Home hash bucket s

module _ (Home : ℕ → ℕ → ℕ → Type 0) (low from : ℕ) (rises : Rises Home low from) (d : Dictionary)
    (t : List DictEntry) (e : DictEntry) (i : ℕ) (v : InsertInv Home low t e i)
    (inside : i < length t) (start : from ≤ i) where
  written-IsClustered : IsClustered (set t i e)
  written-IsClustered =
      set-IsClustered d t i e inside v.clustered v.full v.reach
        (λ far.
          let (full, close) = v.run (i - 1) (omega arith) (omega (arith, v.reach)) in
          (full, omega arith))
        (λ h full far.
          let (here, close) = v.clustered.packed i h full far in
          omega (arith, v.larger inside here))

  settle-Gained :
      HasTable d t
      → is_empty (slot t i) ≡ true
      → Gained Home d t e i (record d { table = some (set t i e) }) i
  settle-Gained table clear = record {
    table = set t i e;
    same = refl;
    has = (write_at-set d t i e inside table).1;
    clustered = written-IsClustered;
    mapped = set-IsPlaced d t i e inside Home v.mapped v.home;
    counts = λ p ignores. ground (arith, count-set p t i e inside, clear);
    here = slot-set_self d t i e inside i refl;
    before = λ j h. slot-set_ne d t i e inside j (ground arith);
    behind = λ j h. slot-set_ne d t i e inside j (ground arith);
    onward = omega arith;
    within = inside;
  }

  module _ (s f : ℕ) (full : IsFull t i) (r : RunsTo t (slot t i) i i s) (more : i < s)
      (behind : i ≤ f) (room : f < length t) (small : length t ≤ 0xFFFF)
      (free : is_empty (slot t f) ≡ true) where
    abbrev moved : DictEntry
    moved = record (slot t i) { distance = ((slot t i).distance + (s - i)) % 2 ^ 16 }

    end-le : s ≤ f
    end-le = elim (Bool-cases (leb s f)) [
      | inl le ↦ ground arith
      | inr gt ↦
          let (there, u) = r.inside f behind (ground arith) in absurd (ground (arith, there, free))
    ]

    moved-distance : moved.distance ≡ (slot t i).distance + (s - i)
    moved-distance = omega (arith, end-le, v.clustered.reaches i inside full)

    moved-full : is_empty moved ≡ false
    unfolding is_empty
    moved-full = ground (arith, moved-distance, end-le, v.clustered.reaches i inside full)

    moved-run :
        (j : ℕ)
        → s ≤ j + moved.distance
        → j < s
        → IsFull (set t i e) j × (j + moved.distance ≤ s + (slot (set t i e) j).distance)
    moved-run j low high =
        let reach = v.clustered.reaches i inside full in
        elim (Bool-cases (i == j)) [
          | inl here ↦
              let at : i ≡ j = ground arith in
              rw (slot-set_self d t i e inside j at)
                (v.full, omega (arith, moved-distance, v.larger inside full))
          | inr other ↦ rw (slot-set_ne d t i e inside j other) (elim (Bool-cases (leb i j)) [
            | inl above ↦
                let (there, same) = r.inside j (ground arith) high in
                (there, omega (arith, moved-distance))
            | inr below ↦
                let (there, close) =
                  cluster_below (i - j) t (i - (slot t i).distance) j i v.clustered (ground arith)
                    inside (omega (arith, moved-distance)) full (omega arith) in
                (there, omega (arith, moved-distance))
          ])
        ]

    -- The entry behind the run is of no smaller bucket.
    close_behind : s < length t → IsFull t s → (slot t s).distance + i ≤ (slot t i).distance + s
    close_behind width there = elim (Bool-cases ((slot t s).distance == 0)) [
      | inl none_there ↦ ground arith
      | inr far ↦
          let k = s - 1 in
          let at : suc k ≡ s = omega arith in
          let (u, same) = r.inside k (omega arith) (omega arith) in
          let (w, close) =
            v.clustered.packed k (rw at width) (rw at there) (rw at (ground arith)) in
          let close' = rw at at close in omega arith
    ]

    moved-larger :
        s < length (set t i e)
        → IsFull (set t i e) s
        → (slot (set t i e) s).distance < moved.distance
    moved-larger h there =
        let width : s < length t = omega (arith, length-set t i e) in
        let same = slot-set_ne d t i e inside s (ground arith) in
        let there' : IsFull t s = rw same at there in
        let near = close_behind width there' in
        let off = r.stop width there' in rw same (ground (arith, moved-distance, near, off))

    moved-InsertInv : InsertInv Home low (set t i e) moved s
    moved-InsertInv = record {
      clustered = written-IsClustered;
      mapped = set-IsPlaced d t i e inside Home v.mapped v.home;
      full = moved-full;
      reach = omega (arith, moved-distance, v.clustered.reaches i inside full);
      home = λ bucket at.
          let from : i ≡ bucket + (slot t i).distance =
            omega (arith, moved-distance, v.clustered.reaches i inside full) in
          rises (slot t i).hash bucket i s (omega (arith, v.larger inside full, v.above)) start
            (omega arith) (v.mapped i bucket inside full from);
      above = omega (arith, moved-distance, v.above, v.larger inside full);
      run = moved-run;
      larger = moved-larger;
    }

    moved-Gained :
        (r' : Dictionary) (last : ℕ)
        → Gained Home (record d { table = some (set t i e) }) (set t i e) moved s r' last
        → Gained Home d t e i r' last
    moved-Gained r' last g = record {
      table = g.table;
      same = g.same;
      has = g.has;
      clustered = g.clustered;
      mapped = g.mapped;
      counts = λ p ignores.
          let weight : one p moved ≡ one p (slot t i) =
            rw (moved-full, full, ignores (slot t i) moved.distance) refl in
          omega (arith, g.counts p ignores, count-set p t i e inside, weight);
      here = g.before i more ∙ slot-set_self d t i e inside i refl;
      before = λ j h. g.before j (omega arith) ∙ slot-set_ne d t i e inside j (ground arith);
      behind = λ j h. g.behind j h ∙ slot-set_ne d t i e inside j (ground (arith, g.onward));
      onward = omega (arith, g.onward);
      within = omega (arith, g.within, length-set t i e);
    }

-- InsertAndRelocate at the end of the cluster of the entry, where a cell at the place or behind it is
-- empty and no distance overflows, returns within its fuel and without a fault: the table stays
-- well-formed, and for any test that does not read distances holds as many entries as before, and
-- one more if the new entry satisfies it.
pub insert_and_relocate-Gained :
    (Home : ℕ → ℕ → ℕ → Type 0) (low from : ℕ) (k : ℕ) (d : Dictionary) (t : List DictEntry)
    (e : DictEntry) (i f : ℕ)
    → Rises Home low from
    → from ≤ i
    → HasTable d t
    → InsertInv Home low t e i
    → i ≤ f
    → f < length t
    → length t ≤ 0xFFFF
    → is_empty (slot t f) ≡ true
    → f < i + k
    → Returns (λ r. Gained Home d t e i r.0 r.2) (insert_and_relocate k d e i)
unfolding insert_and_relocate
insert_and_relocate-Gained Home low from zero d t e i f rises start table v behind room small free
      fuel =
    absurd (omega arith)
insert_and_relocate-Gained Home low from (suc k) d t e i f rises start table v behind room small
      free fuel =
    let inside : i < length t = omega arith in
    let within : leb (length t) i ≡ false = ground arith in
    let (wrote, has) = write_at-set d t i e inside table in
    rw (capacity-HasTable d t table, within, entry_at-slot d t i table inside, ◌>>=◌)
      (Returns-if (is_empty (slot t i))
        (λ clear.
          rw wrote (returns (settle-Gained Home low from rises d t e i v inside start table clear)))
        λ full. Returns-bind (end_of_cluster-RunsTo d t i table inside full) λ s (more, r).
          let le =
            end-le Home low from rises d t e i v inside start s f full r more behind room small
              free in
          rw wrote (
            Returns-map
              (insert_and_relocate-Gained Home low from k (record d { table = some (set t i e) })
                (set t i e)
                (moved Home low from rises d t e i v inside start s f full r more behind room small
                  free)
                s f rises (omega arith) has
                (moved-InsertInv Home low from rises d t e i v inside start s f full r more behind
                  room small free)
                le (omega (arith, length-set t i e)) (omega (arith, length-set t i e))
                (rw (slot-set_ne d t i e inside f (ground arith)) free) (omega arith))
              λ r' g.
                moved-Gained Home low from rises d t e i v inside start s f full r more behind room
                  small free r'.0 r'.2 g))
