-- ===== src/Dict/Cluster/Head.antt =====
-- What HeadOfClusterByBucket and HeadOfClusterByPosition of dict/OpenDict.cc return.
use zeek_snippets.Prelude.{
  ℕ, zero, suc, ◌+◌, ◌-◌, ◌≤◌, ◌<◌, ◌≡◌, inl, inr, false, some, arith, ◌==◌, Bool-cases, subst, ◌≢◌,
}
use zeek_snippets.Run.{ok}
use zeek_snippets.Dict.{DictEntry, Dictionary, is_empty, entry_at}
use zeek_snippets.Dict.Math.{capacity}
use zeek_snippets.Dict.Cluster.{
  head_by_bucket_loop, head_of_cluster_by_bucket, head_loop, head_of_cluster_by_position,
}
use native.Mathlib.Numerals.{add-one}

head_by_bucket_loop-ne :
    (n : ℕ) (d : Dictionary) (bucket i : ℕ) (h : ℕ)
    → head_by_bucket_loop n d bucket i ≡ ok (some h)
    → ⊥
unfolding head_by_bucket_loop
head_by_bucket_loop-ne zero d bucket i h run = cc
head_by_bucket_loop-ne (suc n) d bucket i h run =
    ground (arith, head_by_bucket_loop-ne n d bucket (i + 1) h)

-- HeadOfClusterByBucket never finds a head: whatever the table holds, no call returns a position.
pub head_of_cluster_by_bucket-ne :
    (d : Dictionary) (bucket h : ℕ) → ¬ (head_of_cluster_by_bucket d bucket ≡ ok (some h))
unfolding head_of_cluster_by_bucket
head_of_cluster_by_bucket-ne d bucket h run =
    ground (arith, head_by_bucket_loop-ne (capacity d false - bucket) d bucket bucket h)

-- The entry `g` at `i`, of the bucket of the entry `e` at `p`.
abbrev pub Together : Dictionary → DictEntry → ℕ → ℕ → Type 0
Together d e p i =
    (g : DictEntry) × (entry_at d i ≡ ok g)
    × (is_empty g ≡ false)
    × (i + e.distance ≡ p + g.distance)

-- The loop goes down over the entries of one bucket to the position `j`, which holds another one.
head_loop-stops :
    (k : ℕ) (d : Dictionary) (e f : DictEntry) (p j : ℕ)
    → j ≤ k
    → p ≤ j + e.distance
    → entry_at d j ≡ ok f
    → is_empty f ≡ false
    → j + e.distance ≢ p + f.distance
    → ((i : ℕ) → j < i → i ≤ k → Together d e p i)
    → head_loop (suc k) d e p ≡ ok (suc j)
unfolding head_loop
head_loop-stops zero d e f p j le reach at full other same =
    let here : j ≡ 0 = omega arith in
    let at_k = subst (λ i. entry_at d i ≡ ok f) here at in rw at_k (ground arith)
head_loop-stops (suc k) d e f p j le reach at full other same = elim (Bool-cases (j == suc k)) [
  | inl last ↦
      let here : j ≡ suc k = ground arith in
      let at_k = subst (λ i. entry_at d i ≡ ok f) here at in rw at_k (ground arith)
  | inr more ↦
      let (g, at_g, full_g, same_g) = same (suc k) (ground arith) (omega arith) in
      rw at_g (
        ground (
          arith,
          full_g,
          same_g,
          head_loop-stops k d e f p j (ground arith) reach at full other
              (λ i q r. same i q (omega arith)),
        ))
]

-- HeadOfClusterByPosition is wrong where the cell of the bucket itself holds an entry of a smaller
-- bucket: from any entry `e` at `p` of the bucket `j`, with only entries of `j` between, it returns
-- `j`, whose entry `f` is not of that bucket.
pub head_of_cluster_by_position_off :
    (d : Dictionary) (e f : DictEntry) (p j : ℕ)
    → p < capacity d false
    → entry_at d p ≡ ok e
    → is_empty e ≡ false
    → p ≡ j + e.distance
    → j < p
    → entry_at d j ≡ ok f
    → is_empty f ≡ false
    → 0 < f.distance
    → ((i : ℕ) → j < i → i ≤ p → Together d e p i)
    → head_of_cluster_by_position d p ≡ ok j
unfolding head_of_cluster_by_position
head_of_cluster_by_position_off d e f p j inside at full home below at_j full_j other same =
    let run =
      head_loop-stops p d e f p j (omega arith) (omega arith) at_j full_j (omega arith) same in
    rw (at, full) (ground (arith, add-one p, run))
