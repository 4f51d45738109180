-- ===== src/Dict/Relocate/Removal.antt =====
-- RemoveAndRelocate of dict/OpenDict.cc: the table keeps its order and loses the entry.
use zeek_snippets.Prelude.{
  ℕ, zero, suc, ◌+◌, ◌-◌, ◌≤◌, ◌<◌, ◌≡◌, refl, true, false, ◌||◌, Bool, List, some, length, set,
  length-set, ltb, arith, ◌==◌, Bool-cases, inl, inr,
}
use zeek_snippets.Run.{ok, ◌>>=◌, Returns, returns, Returns-if, Returns-map, Returns-bind}
use zeek_snippets.Dict.{DictEntry, Dictionary, is_empty, set_empty}
use zeek_snippets.Dict.Cluster.Order.{
  slot, IsFull, HasTable, IsClustered, IsPlaced, capacity-HasTable, entry_at-slot,
}
use zeek_snippets.Dict.Cluster.Walk.{RunsTo, tail_of_cluster-RunsTo}
use zeek_snippets.Dict.Cluster.Write.{
  slot-set_self, slot-set_ne, write_at-set, set-IsClustered, clear-IsClustered, set-IsPlaced,
}
use zeek_snippets.Dict.Relocate.{sub16, nothing_follows, remove_loop, remove_and_relocate}
use zeek_snippets.Dict.Relocate.Count.{one, count, IgnoresDistance, count-set}

-- The dictionary `r` is `d` with a well-formed table of the entries of `t` but one, which is `x`.
pub record Lost (Home : ℕ → ℕ → ℕ → Type 0) (d : Dictionary) (t : List DictEntry) (x : DictEntry)
    (r : Dictionary) : Type 0 where
  pub table : List DictEntry
  pub same : r ≡ record d { table = some table }
  pub has : HasTable r table
  pub clustered : IsClustered table
  pub mapped : IsPlaced Home table
  pub counts : (p : DictEntry → Bool) → IgnoresDistance p → count p table + one p x ≡ count p t

-- No entry has to move to `position`.
abbrev pub follows_none : List DictEntry → ℕ → Bool
follows_none t position =
    position + 1 == length t
    || (is_empty (slot t (position + 1)) || (slot t (position + 1)).distance == 0)

nothing_follows-slot :
    (d : Dictionary) (t : List DictEntry) (position : ℕ)
    → HasTable d t
    → position < length t
    → nothing_follows d position ≡ ok (follows_none t position)
unfolding nothing_follows
nothing_follows-slot d t position table inside =
    rw (capacity-HasTable d t table) (elim (Bool-cases (position + 1 == length t)) [
      | inl last ↦ rw last refl
      | inr more ↦ rw (more, entry_at-slot d t (position + 1) table (ground arith)) refl
    ])

-- An entry may stand further to the front.
abbrev pub Falls : (ℕ → ℕ → ℕ → Type 0) → Type 0
Falls Home = (hash bucket i s : ℕ) → s ≤ i → Home hash bucket i → Home hash bucket s

module _ (Home : ℕ → ℕ → ℕ → Type 0) (falls : Falls Home) (d : Dictionary) (t : List DictEntry)
    (i : ℕ) (clustered : IsClustered t) (mapped : IsPlaced Home t) (inside : i < length t)
    (full : IsFull t i) where
  abbrev cleared : DictEntry
  cleared = set_empty (slot t i)

  cleared-empty : is_empty cleared ≡ true
  unfolding is_empty set_empty
  cleared-empty = refl

  cleared-IsPlaced : IsPlaced Home (set t i cleared)
  cleared-IsPlaced j bucket h f = elim (Bool-cases (i == j)) [
    | inl here ↦
        let at : i ≡ j = ground arith in
        let there = rw (slot-set_self d t i cleared inside j at) at f in
        absurd (ground (arith, there, cleared-empty))
    | inr other ↦
        let same = slot-set_ne d t i cleared inside j other in
        rw same (mapped j bucket (omega (arith, length-set t i cleared)) (rw same at f))
  ]

  clear-Lost :
      HasTable d t
      → follows_none t i ≡ true
      → Lost Home d t (slot t i) (record d { table = some (set t i cleared) })
  clear-Lost table last = record {
    table = set t i cleared;
    same = refl;
    has = (write_at-set d t i cleared inside table).1;
    clustered = clear-IsClustered d t i cleared inside clustered cleared-empty (λ h there.
        let next : i + 1 ≡ suc i = omega arith in
        let last' = rw next at last in ground (arith, last', there));
    mapped = cleared-IsPlaced;
    counts = λ p ignores. ground (arith, count-set p t i cleared inside, cleared-empty);
  }

  -- The entry at `next`, the tail of the cluster behind `i`, moves to `i`.
  module _ (next : ℕ) (there : IsFull t (suc i)) (far : 0 < (slot t (suc i)).distance)
      (behind : suc i < length t) (low : suc i ≤ next) (small : length t ≤ 0xFFFF)
      (r : RunsTo t (slot t (suc i)) (suc i) (suc i) (next + 1)) where
    abbrev pulled : DictEntry
    pulled = record (slot t next) { distance = sub16 (slot t next).distance (next - i) }

    next-IsFull :
        IsFull t next × (next + (slot t (suc i)).distance ≡ suc i + (slot t next).distance)
    next-IsFull = r.inside next low (omega arith)

    pulled-distance : pulled.distance + 1 ≡ (slot t (suc i)).distance
    pulled-distance =
        let (f, same) = next-IsFull in
        let reach = clustered.reaches next (omega (arith, r.high)) f in omega (arith, r.high)

    pulled-full : is_empty pulled ≡ false
    unfolding is_empty
    pulled-full = ground (arith, pulled-distance, clustered.reaches (suc i) behind there)

    pulled-IsClustered : IsClustered (set t i pulled)
    pulled-IsClustered =
        let (here, close) = clustered.packed i behind there far in
        set-IsClustered d t i pulled inside clustered pulled-full
          (omega (arith, pulled-distance, clustered.reaches (suc i) behind there))
          (λ pos.
            let k = i - 1 in
            let at : suc k ≡ i = omega (arith, pulled-distance, clustered.reaches i inside here) in
            let (f, near) =
              clustered.packed k (rw at inside) (rw at full)
                (rw at (omega (arith, pulled-distance))) in
            let near' = rw at at near in (f, omega (arith, pulled-distance)))
          (λ h f g. omega (arith, pulled-distance))

    pulled-IsPlaced : IsPlaced Home (set t i pulled)
    pulled-IsPlaced =
        let (f, same) = next-IsFull in
        set-IsPlaced d t i pulled inside Home mapped λ bucket at.
          falls (slot t next).hash bucket next i (omega arith)
            (mapped next bucket (omega (arith, r.high)) f (omega (arith, pulled-distance)))

    pulled-slot : slot (set t i pulled) next ≡ slot t next
    pulled-slot = slot-set_ne d t i pulled inside next (ground arith)

    pulled-Lost :
        (r' : Dictionary)
        → Lost Home
            (record d { table = some (set t i pulled) })
            (set t i pulled)
            (slot (set t i pulled) next)
            r'
        → Lost Home d t (slot t i) r'
    pulled-Lost r' g = record {
      table = g.table;
      same = g.same;
      has = g.has;
      clustered = g.clustered;
      mapped = g.mapped;
      counts = λ p ignores.
          let weight : one p pulled ≡ one p (slot t next) =
            rw (pulled-full, next-IsFull.0, ignores (slot t next) pulled.distance) refl in
          let rest = rw pulled-slot at (g.counts p ignores) in
          omega (arith, count-set p t i pulled inside, weight, rest);
    }

remove_loop-Lost :
    (Home : ℕ → ℕ → ℕ → Type 0) (k : ℕ) (d : Dictionary) (t : List DictEntry) (i : ℕ)
    → Falls Home
    → HasTable d t
    → IsClustered t
    → IsPlaced Home t
    → i < length t
    → IsFull t i
    → length t ≤ 0xFFFF
    → length t ≤ i + k
    → Returns (λ r. Lost Home d t (slot t i) r.0) (remove_loop k d i)
unfolding remove_loop
remove_loop-Lost Home zero d t i falls table clustered mapped inside full small fuel =
    absurd (omega arith)
remove_loop-Lost Home (suc k) d t i falls table clustered mapped inside full small fuel =
    rw (nothing_follows-slot d t i table inside, ◌>>=◌)
      (Returns-if (follows_none t i)
        (λ last.
          rw
            (
              entry_at-slot d t i table inside,
              ◌>>=◌,
              (write_at-set d t i (set_empty (slot t i)) inside table).0,
            )
            (returns (clear-Lost Home falls d t i clustered mapped inside full table last)))
        λ more.
          let at : i + 1 ≡ suc i = omega arith in
          let more' = rw at at more in
          let behind : suc i < length t = ground (arith, more') in
          let there : IsFull t (suc i) = ground (arith, more') in
          let far : 0 < (slot t (suc i)).distance = ground (arith, more') in
          rw at (
            Returns-bind (tail_of_cluster-RunsTo d t (suc i) table behind there) λ next (low, r).
              let high : next < length t = omega (arith, r.high) in
              let e =
                pulled Home falls d t i clustered mapped inside full next there far behind low small
                  r in
              let slot_next =
                pulled-slot Home falls d t i clustered mapped inside full next there far behind low
                  small r in
              let (f, u) =
                next-IsFull Home falls d t i clustered mapped inside full next there far behind low
                  small r in
              let (wrote, has) = write_at-set d t i e inside table in
              rw (entry_at-slot d t next table high, ◌>>=◌, wrote)
                (Returns-map
                  (remove_loop-Lost Home k (record d { table = some (set t i e) }) (set t i e) next
                    falls has
                    (pulled-IsClustered Home falls d t i clustered mapped inside full next there far
                      behind low small r)
                    (pulled-IsPlaced Home falls d t i clustered mapped inside full next there far
                      behind low small r)
                    (omega (arith, length-set t i e)) (rw slot_next f)
                    (omega (arith, length-set t i e)) (omega (arith, length-set t i e)))
                  λ r' g.
                    pulled-Lost Home falls d t i clustered mapped inside full next there far behind
                      low small r r'.0 g)))

-- RemoveAndRelocate of the entry at a position of a well-formed table, where no distance overflows,
-- returns that entry, within its fuel and without a fault: the table stays well-formed, and for any
-- test that does not read distances holds as many entries as before, and one less if the removed
-- entry satisfies it.
pub remove_and_relocate-Lost :
    (Home : ℕ → ℕ → ℕ → Type 0) (d : Dictionary) (t : List DictEntry) (i : ℕ)
    → Falls Home
    → HasTable d t
    → IsClustered t
    → IsPlaced Home t
    → i < length t
    → IsFull t i
    → length t ≤ 0xFFFF
    → Returns
        (λ (r, e, last). (e ≡ slot t i) × Lost Home d t (slot t i) r)
        (remove_and_relocate d i)
unfolding remove_and_relocate
remove_and_relocate-Lost Home d t i falls table clustered mapped inside full small =
    let within : ltb i (length t) ≡ true = ground arith in
    rw (capacity-HasTable d t table, within, entry_at-slot d t i table inside, ◌>>=◌, full)
      (Returns-bind
        (remove_loop-Lost Home (length t + 1) d t i falls table clustered mapped inside full small
          (omega arith))
        λ (r, last) g. returns (refl, g))
