-- ===== src/Dict/Cluster/Walk.antt =====
-- What TailOfClusterByPosition and EndOfClusterByPosition of dict/OpenDict.cc find.
use zeek_snippets.Prelude.{
  ℕ, zero, suc, ◌+◌, ◌-◌, ◌≤◌, ◌<◌, ◌≡◌, ◌≢◌, true, not, ◌&&◌, List, length, arith, ◌==◌, subst,
  refl, ltb, Bool-cases, inl, inr,
}
use zeek_snippets.Run.{Returns, returns, Returns-if, Returns-map, Returns-bind}
use zeek_snippets.Dict.{DictEntry, Dictionary, is_empty}
use zeek_snippets.Dict.Cluster.{
  cluster_loop, tail_of_cluster_by_position, end_of_cluster_by_position,
}
use zeek_snippets.Dict.Cluster.Order.{slot, IsFull, HasTable, capacity-HasTable, entry_at-slot}

-- From `i` up to `s`, and no further, stand entries of the bucket of the entry `e` at `p`.
pub record RunsTo (t : List DictEntry) (e : DictEntry) (p i s : ℕ) : Type 0 where
  pub low : i ≤ s
  pub high : s ≤ length t
  pub inside : (j : ℕ) → i ≤ j → j < s → IsFull t j × (j + e.distance ≡ p + (slot t j).distance)
  pub stop : s < length t → IsFull t s → s + e.distance ≢ p + (slot t s).distance

cluster_loop-RunsTo :
    (n : ℕ) (d : Dictionary) (t : List DictEntry) (e : DictEntry) (p i : ℕ)
    → HasTable d t
    → i + n ≡ length t
    → Returns (RunsTo t e p i) (cluster_loop n d e p i)
unfolding cluster_loop
cluster_loop-RunsTo zero d t e p i table size = returns (record {
  low = omega arith;
  high = omega arith;
  inside = λ j h q. absurd (omega arith);
  stop = λ h. absurd (omega arith);
})
cluster_loop-RunsTo (suc n) d t e p i table size = rw (entry_at-slot d t i table (omega arith)) (
    Returns-if (not (is_empty (slot t i)) && i + e.distance == p + (slot t i).distance)
      (λ on. Returns-map (cluster_loop-RunsTo n d t e p (i + 1) table (omega arith)) λ s r. record {
        low = omega (arith, r.low);
        high = r.high;
        inside = λ j h q. ground (arith, on, r.inside j);
        stop = r.stop;
      })
      (λ off. returns (record {
        low = omega arith;
        high = omega arith;
        inside = λ j h q. absurd (omega arith);
        stop = λ h full same. ground (arith, off, full, same);
      })))

module _ (d : Dictionary) (t : List DictEntry) (p : ℕ) (table : HasTable d t)
    (inside : p < length t) (full : IsFull t p) where
  pub tail_of_cluster-RunsTo :
      Returns
        (λ tail. (p ≤ tail) × RunsTo t (slot t p) p p (tail + 1))
        (tail_of_cluster_by_position d p)
  unfolding tail_of_cluster_by_position
  tail_of_cluster-RunsTo =
      let here : ltb p (length t) ≡ true = ground arith in
      rw (capacity-HasTable d t table, entry_at-slot d t p table inside, full, here)
        (Returns-bind (cluster_loop-RunsTo (length t - p) d t (slot t p) p p table (omega arith))
          λ s r.
            let some_in : p < s = elim (Bool-cases (s == p)) [
              | inr other ↦ ground (arith, other, r.low)
              | inl same ↦
                  let at : s ≡ p = ground arith in
                  absurd (r.stop (omega arith) (rw at full) (rw at refl))
            ] in
            let end : s ≡ s - 1 + 1 = omega arith in
            returns (omega arith, subst (λ x. RunsTo t (slot t p) p p x) end r))

  pub end_of_cluster-RunsTo :
      Returns (λ s. (p < s) × RunsTo t (slot t p) p p s) (end_of_cluster_by_position d p)
  unfolding end_of_cluster_by_position
  end_of_cluster-RunsTo =
      Returns-bind tail_of_cluster-RunsTo λ tail (low, run). returns (omega arith, run)
