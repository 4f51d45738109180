-- ===== src/Dict/Checks.antt =====
-- The self-check and the statistics of dict/OpenDict.cc: AssertValid and
-- DistanceStats. `bucket i` is the field `bucket` of the entry at `i`, which builds with DEBUG have.
pub mod Valid
pub mod Stats
pub mod Examples
use zeek_snippets.Prelude.{
  ℕ, zero, suc, ◌+◌, ◌-◌, ◌*◌, ◌%◌, ◌^◌, Bool, true, false, not, ◌&&◌, List, [], ◌∷◌, Option, none,
  some, length, get_elem?, set, replicate, ltb, leb, ◌==◌, if◌then◌else◌,
}
use zeek_snippets.Run.{Run, ok, fault, out_of_bounds, ◌>>=◌, ◌>>◌, cell, ensure}
use zeek_snippets.Dict.{DictEntry, Dictionary, is_empty, entry_at}
use zeek_snippets.Dict.Math.{capacity}

-- `for (i = Capacity() - 1; i >= 0; i--) if (!table[i].Empty()) n--`, as the number of decrements,
-- with `i` + 1 in the argument.
unfoldable pub count_down : ℕ → Dictionary → Run ℕ
count_down zero d = ok 0
count_down (suc i) d = do e ← entry_at d i; n ← count_down i d; ok (if is_empty e then n else n + 1)

-- The assertions about the entry `e` behind the entry `f`.
unfoldable pub assert_behind : (ℕ → ℕ) → DictEntry → ℕ → DictEntry → Run (Unit {0})
assert_behind bucket e i f =
    let ordered : Run (Unit {0}) = (do
      ensure (leb (bucket (i - 1)) (bucket i))
      ensure (
          if bucket i == bucket (i - 1)
          then e.distance == f.distance + 1
          else leb e.distance f.distance)) in
    if is_empty f then ensure (e.distance == 0) else ordered

-- The second loop, from `i` on with `n` rounds left.
unfoldable pub assert_loop : (ℕ → ℕ) → ℕ → Dictionary → ℕ → Run (Unit {0})
assert_loop bucket zero d i = ok tt
assert_loop bucket (suc n) d i = do
  e ← entry_at d i
  let check : Run (Unit {0}) = (do f ← entry_at d (i - 1); assert_behind bucket e i f)
  if is_empty e then ok tt else check
  assert_loop bucket n d (i + 1)

-- AssertValid
unfoldable pub assert_valid : (ℕ → ℕ) → Dictionary → Run (Unit {0})
assert_valid bucket d = do
  n ← count_down (capacity d false) d
  ensure (d.num_entries == n)
  assert_loop bucket (capacity d false - 1) d 1

-- `distances[k]++`
unfoldable pub bump : List ℕ → ℕ → Run (List ℕ)
bump distances k = do n ← cell (get_elem? distances k); ok (set distances k (n + 1))

-- The loop of DistanceStats: the largest distance and the numbers of entries by distance, with the
-- last of them for all that are as large or larger. An empty list stands for the null pointer.
unfoldable pub stats_loop : ℕ → Dictionary → ℕ → ℕ → List ℕ → Run (ℕ × List ℕ)
stats_loop zero d i max_distance distances = ok (max_distance, distances)
stats_loop (suc n) d i max_distance distances = do
  e ← entry_at d i
  let m =
      if is_empty e
      then max_distance
      else if ltb max_distance e.distance
      then e.distance
      else max_distance
  let last = length distances - 1
  let counted : Run (List ℕ) = bump distances (if leb last e.distance then last else e.distance)
  ds ←
      (if is_empty e then ok distances else if length distances == 0 then ok distances else counted)
  stats_loop n d (i + 1) m ds

-- DistanceStats with an array of `num_distances` numbers.
unfoldable pub distance_stats : Dictionary → ℕ → Run (ℕ × List ℕ)
distance_stats d num_distances = stats_loop (capacity d false) d 0 0 (replicate num_distances 0)
