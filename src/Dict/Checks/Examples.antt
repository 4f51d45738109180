-- ===== src/Dict/Checks/Examples.antt =====
-- The self-check and the statistics of dict/OpenDict.cc at a dictionary of three entries.
use zeek_snippets.Prelude.{
  ℕ, zero, suc, ◌+◌, ◌≤◌, ◌<◌, ◌≡◌, ◌⊎◌, refl, length, get_or, ◌==◌, if◌then◌else◌,
}
use zeek_snippets.Run.{ok, Returns}
use zeek_snippets.Dict.{is_empty}
use zeek_snippets.Dict.Cluster.Order.{slot, IsFull}
use zeek_snippets.Dict.Relocate.{empty_entry}
use zeek_snippets.Dict.Relocate.Count.{count}
use zeek_snippets.Dict.Tests.{cells, small, small-HasTable}
use zeek_snippets.Dict.Examples.{small-IsWellFormed}
use zeek_snippets.Dict.Checks.{assert_valid, distance_stats}
use zeek_snippets.Dict.Checks.Valid.{assert_valid-ok}
use zeek_snippets.Dict.Checks.Stats.{at_distance, distance_stats-Measured}

-- The third entry is of the bucket 1.
abbrev bucket_at : ℕ → ℕ
bucket_at i = if i == 2 then 1 else 0

bucket_at-right : (i : ℕ) → IsFull cells i → i ≡ bucket_at i + (slot cells i).distance
unfolding get_or is_empty empty_entry
bucket_at-right zero full = refl
bucket_at-right (suc zero) full = refl
bucket_at-right (suc (suc zero)) full = refl
bucket_at-right (suc (suc (suc zero))) full = cc
bucket_at-right (suc (suc (suc (suc zero)))) full = cc
bucket_at-right (suc (suc (suc (suc (suc zero))))) full = cc
bucket_at-right (suc (suc (suc (suc (suc (suc i)))))) full = cc

assert_valid-ok_example : assert_valid bucket_at small ≡ ok tt
assert_valid-ok_example = assert_valid-ok small cells bucket_at small-IsWellFormed bucket_at-right

distance_stats-Measured_example :
    Returns
      (λ r.
        (length r.1 ≡ 2)
        × ((k : ℕ) → k ≤ 1 → get_or r.1 k 0 ≡ count (at_distance 1 k) cells)
        × ((i : ℕ) → i < 6 → IsFull cells i → (slot cells i).distance ≤ r.0)
        × ((r.0 ≡ 0) ⊎ ((i : ℕ) × (i < 6) × IsFull cells i × ((slot cells i).distance ≡ r.0))))
      (distance_stats small 2)
distance_stats-Measured_example = distance_stats-Measured small cells 1 small-HasTable
