-- ===== src/Dict/Remap.antt =====
-- The incremental remap of dict/OpenDict.cc.
pub mod Room
pub mod Mixed
pub mod Moved
pub mod Rounds
pub mod Growing
pub mod Larger
pub mod Search
pub mod Again
pub mod Find
pub mod Drop
pub mod Put
pub mod Examples
use zeek_snippets.Prelude.{
  ℕ, zero, suc, ◌-◌, ◌%◌, ◌^◌, Bool, true, false, not, List, [], ◌∷◌, Option, none, some, ltb, ◌==◌,
  if◌then◌else◌,
}
use zeek_snippets.Run.{Run, ok, ◌>>=◌, ◌>>◌, ensure}
use zeek_snippets.Dict.{IterCookie, Dictionary, is_empty, entry_at}
use zeek_snippets.Dict.Math.{bucket_by_hash, capacity}
use zeek_snippets.Dict.Cluster.{in_bucket, end_of_cluster_by_bucket}
use zeek_snippets.Dict.Relocate.{insert_relocating, remove_and_relocate}

unfoldable pub no_cookies : Option (List IterCookie) → Bool
no_cookies none = true
no_cookies (some []) = true
no_cookies (some (c ∷ cs)) = false

-- Remap(position, new_position): the new position, or `none` if the entry stays.
unfoldable pub remap_at : Dictionary → ℕ → Run (Option ℕ × Dictionary)
remap_at d position = do
  ensure (no_cookies d.cookies)
  ensure (ltb position (capacity d false))
  e ← entry_at d position
  ensure (not (is_empty e))
  let expected = bucket_by_hash e.hash d.log2_buckets
  let move : Run (Option ℕ × Dictionary) = (do
    (d₁, entry, _) ← remove_and_relocate d position
    insert_position ← end_of_cluster_by_bucket d₁ expected
    let entry' = record entry { distance = (insert_position - expected) % 2 ^ 16 }
    (d₂, _, _) ← insert_relocating d₁ entry' insert_position
    ok (some insert_position, d₂))
  if in_bucket e position expected then ok (none, d) else move

-- `!table[n].Empty() && Remap(n)`
unfoldable pub moves_at : Dictionary → ℕ → Run (Bool × Dictionary)
moves_at d n = do
  e ← entry_at d n
  let tried : Run (Bool × Dictionary) = (do
    (moved, d₁) ← remap_at d n
    ok (elim moved [ none ↦ (false, d₁) | some _ ↦ (true, d₁) ]))
  if is_empty e then ok (false, d) else tried

-- The rounds of the loop of Remap() from `remap_end` = n down to the next entry that moves, if any.
unfoldable pub remap_down : ℕ → Dictionary → Run (Bool × Dictionary)
remap_down zero d = do
  (moved, d₁) ← moves_at d 0
  ok (if moved then (true, d₁) else (false, record d₁ { remap_end = none }))
remap_down (suc n) d = do
  (moved, d₁) ← moves_at d (suc n)
  let more = remap_down n (record d₁ { remap_end = some n })
  if moved then ok (true, d₁) else more

-- `while (remap_end >= 0 && left > 0)`
unfoldable pub remap_loop : ℕ → Dictionary → Run Dictionary
remap_loop zero d = ok d
remap_loop (suc left) d = elim d.remap_end [
  | none ↦ ok d
  | some n ↦ do
    (moved, d₁) ← remap_down n d
    let more = remap_loop left d₁
    if moved then more else ok d₁
]

unfoldable pub finish_remap : Dictionary → Dictionary
finish_remap d = elim d.remap_end [ none ↦ record d { remaps = 0 } | some _ ↦ d ]

-- Remap(): DICT_REMAP_ENTRIES is 16.
unfoldable pub remap : Dictionary → Run Dictionary
remap d =
    let rounds : Run Dictionary = (do d₁ ← remap_loop 16 d; ok (finish_remap d₁)) in
    if d.num_iterators == 0 then rounds else ok d
