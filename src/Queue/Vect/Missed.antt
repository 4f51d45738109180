-- ===== src/Queue/Vect/Missed.antt =====
-- Remove(PQ_Element*) of queue/PriorityQueueVect.cc behind Add.
use zeek_snippets.Prelude.{
  ℕ, ◌+◌, ◌<◌, ◌≡◌, ◌≢◌, ◌⊎◌, inl, inr, none, some, length, get_or, get_elem?-get_or, leb, ◌==◌,
  arith, Bool-cases,
}
use zeek_snippets.Run.{ok, Returns, returns, Returns-if, Returns-bind}
use zeek_snippets.Queue.Vect.{Vect, insert_at, count_added, add, remove, remove_at}
use native.Mathlib.Decide.{ℕ_discrete}
use zeek_snippets.Queue.Vect.Sorted.{IsFalling, lower_bound-IsBound}

remove-misplaced :
    (q : Vect) (e : ℕ)
    → (q.elements e).offset ≡ some 1
    → get_or q.heap 1 0 ≢ e
    → remove q e ≡ ok (none, q)
unfolding remove remove_at
remove-misplaced q e off ne = elim (Bool-cases (leb (length q.heap) 1)) [
  | inl out ↦ rw (off, remove_at, out)
  | inr inside ↦
      rw (off, remove_at, inside, get_elem?-get_or q.heap 1 0 (ground arith)) (ground arith)
]

-- Add to a sorted vector that is not empty leaves the offset 1, wherever the element stands: unless
-- that is index 1, Remove(PQ_Element*) takes the element for one that is not in the queue.
pub remove-add_misses :
    (q : Vect) (e : ℕ)
    → IsFalling q.elements q.heap
    → 0 < length q.heap
    → Returns (λ r. (get_or r.1.heap 1 0 ≡ e) ⊎ (remove r.1 e ≡ ok (none, r.1))) (add q e)
unfolding add count_added
remove-add_misses q e falls pos =
    Returns-if (length q.heap == 0) (λ empty. absurd (ground arith))
      λ some_in.
        Returns-bind
          (lower_bound-IsBound (length q.heap + 1) q.elements q.heap (q.elements e).time 0
            (length q.heap) falls (omega arith) (omega arith) (λ i p. absurd (omega arith))
            (λ i p r. absurd (omega arith)))
          λ it b. returns (elim (ℕ_discrete (get_or (insert_at it e q.heap) 1 0) e) [
            | yes same ↦ inl same
            | no other ↦ inr (remove-misplaced _ e (ground arith) other)
          ])
