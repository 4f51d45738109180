-- ===== src/Dict/Cluster.antt =====
-- The cluster math of dict/OpenDict.cc. `BucketByPosition(i)` is the `int` i - distance: where the
-- code compares it, the distance stands here on the other side. A loop over the positions takes the
-- number of positions up to the capacity that are left.
pub mod Order
pub mod Head
pub mod Walk
pub mod Write
use zeek_snippets.Prelude.{
  ℕ, zero, suc, ◌+◌, ◌-◌, Bool, true, false, not, ◌&&◌, List, Option, none, some, get_elem?, ltb,
  leb, ◌==◌, if◌then◌else◌,
}
use zeek_snippets.Run.{Run, ok, ◌>>=◌, ◌>>◌, cell, ensure}
use zeek_snippets.Dict.{DictEntry, Dictionary, is_empty, entry_at}
use zeek_snippets.Dict.Math.{buckets, capacity}

-- BucketByPosition(i) == bucket, <= bucket and < bucket, for the entry at `i`.
abbrev pub in_bucket : DictEntry → ℕ → ℕ → Bool
in_bucket e i bucket = i == bucket + e.distance

abbrev pub up_to_bucket : DictEntry → ℕ → ℕ → Bool
up_to_bucket e i bucket = leb i (bucket + e.distance)

abbrev pub under_bucket : DictEntry → ℕ → ℕ → Bool
under_bucket e i bucket = ltb i (bucket + e.distance)

-- BucketByPosition(i) == BucketByPosition(j)
abbrev pub same_bucket : DictEntry → ℕ → DictEntry → ℕ → Bool
same_bucket e i f j = i + f.distance == j + e.distance

-- The loop goes on only over entries of smaller buckets, so its test for the bucket never holds.
unfoldable pub head_by_bucket_loop : ℕ → Dictionary → ℕ → ℕ → Run (Option ℕ)
head_by_bucket_loop zero d bucket i = ok none
head_by_bucket_loop (suc n) d bucket i = do
  e ← entry_at d i
  let more = head_by_bucket_loop n d bucket (i + 1)
  if not (is_empty e) && under_bucket e i bucket
      then (if in_bucket e i bucket then ok (some i) else more)
      else ok none

unfoldable pub head_of_cluster_by_bucket : Dictionary → ℕ → Run (Option ℕ)
head_of_cluster_by_bucket d bucket = do
  ensure (ltb bucket (buckets d false))
  head_by_bucket_loop (capacity d false - bucket) d bucket bucket

unfoldable pub end_by_bucket_loop : ℕ → Dictionary → ℕ → ℕ → Run ℕ
end_by_bucket_loop zero d bucket i = ok i
end_by_bucket_loop (suc n) d bucket i = do
  e ← entry_at d i
  let more = end_by_bucket_loop n d bucket (i + 1)
  if not (is_empty e) && up_to_bucket e i bucket then more else ok i

unfoldable pub end_of_cluster_by_bucket : Dictionary → ℕ → Run ℕ
end_of_cluster_by_bucket d bucket = do
  ensure (ltb bucket (buckets d false))
  end_by_bucket_loop (capacity d false - bucket) d bucket bucket

-- `end - 1`, if it is a position and holds an entry of the bucket.
unfoldable pub tail_before : Dictionary → ℕ → ℕ → Run (Option ℕ)
tail_before d bucket zero = ok none
tail_before d bucket (suc tail) = do
  e ← entry_at d tail
  ok (if not (is_empty e) && in_bucket e tail bucket then some tail else none)

unfoldable pub tail_of_cluster_by_bucket : Dictionary → ℕ → Run (Option ℕ)
tail_of_cluster_by_bucket d bucket = do
  end ← end_of_cluster_by_bucket d bucket
  tail_before d bucket end

-- `while (i >= bucket && BucketByPosition(i) == bucket) i--`, where `bucket` is that of the entry `e`
-- at `p`. The argument is i + 1, and so is the result.
unfoldable pub head_loop : ℕ → Dictionary → DictEntry → ℕ → Run ℕ
head_loop zero d e p = ok 0
head_loop (suc i) d e p =
    let more = head_loop i d e p in
    let here : Run ℕ = (do
      f ← entry_at d i
      ensure (not (is_empty f))
      if same_bucket f i e p then more else ok (suc i)) in
    if leb p (i + e.distance) then here else ok (suc i)

-- `i == bucket ? i : i + 1`
unfoldable pub head_of_cluster_by_position : Dictionary → ℕ → Run ℕ
head_of_cluster_by_position d position = do
  ensure (ltb position (capacity d false))
  e ← entry_at d position
  ensure (not (is_empty e))
  stop ← head_loop (position + 1) d e position
  ok (if stop + e.distance == position + 1 then stop - 1 else stop)

-- `while (i < Capacity() && !table[i].Empty() && BucketByPosition(i) == bucket) i++`
unfoldable pub cluster_loop : ℕ → Dictionary → DictEntry → ℕ → ℕ → Run ℕ
cluster_loop zero d e p i = ok i
cluster_loop (suc n) d e p i = do
  f ← entry_at d i
  let more = cluster_loop n d e p (i + 1)
  if not (is_empty f) && same_bucket f i e p then more else ok i

-- The position is in its own cluster, so the loop makes a step and `i - 1` is no less than it.
unfoldable pub tail_of_cluster_by_position : Dictionary → ℕ → Run ℕ
tail_of_cluster_by_position d position = do
  ensure (ltb position (capacity d false))
  e ← entry_at d position
  ensure (not (is_empty e))
  stop ← cluster_loop (capacity d false - position) d e position position
  ok (stop - 1)

unfoldable pub end_of_cluster_by_position : Dictionary → ℕ → Run ℕ
end_of_cluster_by_position d position = do
  tail ← tail_of_cluster_by_position d position
  ok (tail + 1)

unfoldable pub offset_in_cluster_by_position : Dictionary → ℕ → Run ℕ
offset_in_cluster_by_position d position = do
  head ← head_of_cluster_by_position d position
  ok (position - head)

-- The first position from `i` on that is not empty, or the capacity.
unfoldable pub next_loop : ℕ → Dictionary → ℕ → Run ℕ
next_loop zero d i = ok i
next_loop (suc n) d i = do
  e ← entry_at d i
  let more = next_loop n d (i + 1)
  if is_empty e then more else ok i

-- Next(-1) is `next_after d none`.
unfoldable pub next_after : Dictionary → Option ℕ → Run ℕ
next_after d none = next_loop (capacity d false) d 0
next_after d (some i) = do
  ensure (ltb i (capacity d false))
  next_loop (capacity d false - (i + 1)) d (i + 1)
