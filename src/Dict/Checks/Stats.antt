-- ===== src/Dict/Checks/Stats.antt =====
-- DistanceStats of dict/OpenDict.cc against the counts of its table.
use zeek_snippets.Prelude.{
  ℕ, zero, suc, ◌+◌, ◌-◌, ◌≤◌, ◌<◌, ◌≡◌, ◌⊎◌, refl, sym, ap, subst, ◌∙◌, Bool, true, false, List,
  ◌∷◌, length, take, get_or, set, replicate, ltb, leb, arith, ◌==◌, if◌then◌else◌, Bool-cases, inl,
  inr, get_elem?-get_or, get_or-set, length-set, length-replicate,
}
use zeek_snippets.Run.{ok, Returns, returns, Returns-map}
use zeek_snippets.Dict.{DictEntry, Dictionary, is_empty}
use zeek_snippets.Dict.Cluster.Order.{slot, IsFull, HasTable, capacity-HasTable, entry_at-slot}
use zeek_snippets.Dict.Relocate.Count.{count, count-take, take_all}
use zeek_snippets.Dict.Checks.{bump, stats_loop, distance_stats}

-- The entry counts under `k`, with all distances from `m` on under `m`.
abbrev pub at_distance : ℕ → ℕ → DictEntry → Bool
at_distance m k x = (if leb m x.distance then m else x.distance) == k

-- What the loop has computed of the first `i` cells.
pub record Measured (t : List DictEntry) (m i : ℕ) (r : ℕ × List ℕ) : Type 0 where
  pub size : length r.1 ≡ suc m
  pub counts : (k : ℕ) → k ≤ m → get_or r.1 k 0 ≡ count (at_distance m k) (take i t)
  pub above : (j : ℕ) → j < i → IsFull t j → (slot t j).distance ≤ r.0
  pub reached : (r.0 ≡ 0) ⊎ ((j : ℕ) × (j < i) × IsFull t j × ((slot t j).distance ≡ r.0))

bump-ok : (ds : List ℕ) (k : ℕ) → k < length ds → bump ds k ≡ ok (set ds k (get_or ds k 0 + 1))
unfolding bump
bump-ok ds k h = rw (get_elem?-get_or ds k 0 h) refl

module _ (t : List DictEntry) (m i : ℕ) (inside : i < length t) where
  clear-Measured :
      (mx : ℕ) (ds : List ℕ)
      → is_empty (slot t i) ≡ true
      → Measured t m i (mx, ds)
      → Measured t m (i + 1) (mx, ds)
  clear-Measured mx ds clear a =
      let next : i + 1 ≡ suc i = omega arith in
      rw next (record {
        size = a.size;
        counts =
            λ k h. ground (arith, a.counts k h, count-take (at_distance m k) t i inside, clear);
        above = λ j h full. elim (Bool-cases (j == i)) [
          | inl here ↦ let at : j ≡ i = ground arith in cc
          | inr before ↦ a.above j (ground arith) full
        ];
        reached = elim a.reached [
          | inl none_yet ↦ inl none_yet
          | inr (j, h, full, at) ↦ inr (j, omega arith, full, at)
        ];
      })

  full-Measured :
      (mx mx' : ℕ) (ds : List ℕ) (k' : ℕ)
      → IsFull t i
      → mx' ≡ (if ltb mx (slot t i).distance then (slot t i).distance else mx)
      → k' ≡ (if leb m (slot t i).distance then m else (slot t i).distance)
      → Measured t m i (mx, ds)
      → Measured t m (i + 1) (mx', set ds k' (get_or ds k' 0 + 1))
  full-Measured mx mx' ds k' full em ek a =
      let next : i + 1 ≡ suc i = omega arith in
      let small : k' ≤ m = ground arith in
      let inside' : k' < length ds = omega (arith, a.size) in
      rw next (record {
        size = length-set ds k' _ ∙ a.size;
        counts = λ k h. ground (
          arith,
          a.counts k h,
          count-take (at_distance m k) t i inside,
          full,
          get_or-set ds k' k (get_or ds k' 0 + 1) 0 inside',
        );
        above = λ j h there. elim (Bool-cases (j == i)) [
          | inl here ↦ let at : j ≡ i = ground arith in rw at (ground (arith, em))
          | inr before ↦ let le = a.above j (ground arith) there in ground (arith, em)
        ];
        reached = elim (Bool-cases (ltb mx (slot t i).distance)) [
          | inl more ↦ inr (i, omega arith, full, ground arith)
          | inr no_more ↦
              let same : mx' ≡ mx = ground arith in
              elim a.reached [
                | inl none_yet ↦ inl (same ∙ none_yet)
                | inr (j, h, there, at) ↦ inr (j, omega arith, there, at ∙ sym same)
              ]
        ];
      })

stats_loop-Measured :
    (n : ℕ) (d : Dictionary) (t : List DictEntry) (m i mx : ℕ) (ds : List ℕ)
    → HasTable d t
    → i + n ≡ length t
    → Measured t m i (mx, ds)
    → Returns (Measured t m (length t)) (stats_loop n d i mx ds)
unfolding stats_loop
stats_loop-Measured zero d t m i mx ds table size a =
    let end : i ≡ length t = omega arith in returns (subst (λ j. Measured t m j (mx, ds)) end a)
stats_loop-Measured (suc n) d t m i mx ds table size a =
    let e = slot t i in
    let k' = if leb m e.distance then m else e.distance in
    let inside : i < length t = omega arith in
    let there : (length ds == 0) ≡ false = ground (arith, a.size) in
    let last : length ds - 1 ≡ m = omega (arith, a.size) in
    let small : k' < length ds = ground (arith, a.size) in
    rw (entry_at-slot d t i table inside) (elim (Bool-cases (is_empty e)) [
      | inl clear ↦ rw clear (
          stats_loop-Measured n d t m (i + 1) mx ds table (omega arith)
            (clear-Measured t m i inside mx ds clear a))
      | inr full ↦
          rw (full, there, last, bump-ok ds k' small)
            (stats_loop-Measured n d t m (i + 1) _ _ table (omega arith)
              (full-Measured t m i inside mx _ ds k' full refl refl a))
    ])

get_or-replicate : (n k a : ℕ) → get_or (replicate n a) k a ≡ a
unfolding get_or
get_or-replicate zero k a = refl
get_or-replicate (suc n) zero a = refl
get_or-replicate (suc n) (suc k) a = get_or-replicate n k a

-- For an array of at least one number, DistanceStats returns without a fault: how many entries the
-- table has at each distance, with those at the last distance or a larger one under the last, and
-- the largest distance of an entry, or 0 where there is none.
pub distance_stats-Measured :
    (d : Dictionary) (t : List DictEntry) (m : ℕ)
    → HasTable d t
    → Returns
        (λ r.
          (length r.1 ≡ suc m)
          × ((k : ℕ) → k ≤ m → get_or r.1 k 0 ≡ count (at_distance m k) t)
          × ((i : ℕ) → i < length t → IsFull t i → (slot t i).distance ≤ r.0)
          × ((r.0 ≡ 0) ⊎ ((i : ℕ) × (i < length t) × IsFull t i × ((slot t i).distance ≡ r.0))))
        (distance_stats d (suc m))
unfolding distance_stats
distance_stats-Measured d t m table = rw (capacity-HasTable d t table) (
    Returns-map
      (stats_loop-Measured (length t) d t m 0 0 (0 ∷ replicate m 0) table (omega arith) (record {
        size = ap suc (length-replicate m 0);
        counts = λ k h. get_or-replicate (suc m) k 0;
        above = λ j h. absurd (omega arith);
        reached = inl refl;
      }))
      λ r a. (a.size, λ k h. a.counts k h ∙ rw (take_all t) refl, a.above, a.reached))
