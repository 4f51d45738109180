-- ===== src/Queue/Vect/Popped.antt =====
-- Remove() of queue/PriorityQueueVect.cc.
use zeek_snippets.Prelude.{
  ℕ, zero, suc, ◌+◌, ◌-◌, ◌≤◌, ◌<◌, ◌≡◌, ◌⊎◌, inl, inr, refl, sym, subst, ◌∙◌, List, [], ◌∷◌,
  Option, none, some, length, get_or, ◌==◌, arith, Bool-cases,
}
use zeek_snippets.Queue.Vect.{Vect, set_offset, back, pop_back, remove_back}
use zeek_snippets.Queue.Vect.Sorted.{time_of, IsFalling}

back-empty : (xs : List ℕ) → length xs ≡ 0 → back xs ≡ none
unfolding back
back-empty [] h = refl
back-empty (x ∷ xs) h = absurd (omega arith)

back-get_or : (xs : List ℕ) → 0 < length xs → back xs ≡ some (get_or xs (length xs - 1) 0)
unfolding back get_or
back-get_or [] h = absurd (omega arith)
back-get_or (x ∷ []) h = refl
back-get_or (x ∷ y ∷ xs) h = back-get_or (y ∷ xs) (omega arith) ∙ ground arith

length-pop_back : (xs : List ℕ) → length (pop_back xs) ≡ length xs - 1
unfolding pop_back
length-pop_back [] = refl
length-pop_back (x ∷ []) = refl
length-pop_back (x ∷ y ∷ xs) = omega (arith, length-pop_back (y ∷ xs))

get_or-pop_back :
    (xs : List ℕ) (i : ℕ) → i < length xs - 1 → get_or (pop_back xs) i 0 ≡ get_or xs i 0
unfolding pop_back get_or
get_or-pop_back [] i h = absurd (omega arith)
get_or-pop_back (x ∷ []) i h = absurd (omega arith)
get_or-pop_back (x ∷ y ∷ xs) zero h = refl
get_or-pop_back (x ∷ y ∷ xs) (suc i) h = get_or-pop_back (y ∷ xs) i (omega arith)

-- The call returned `e` from the end of a vector, which keeps the others in their order.
pub record Popped (q : Vect) (e : ℕ) (r : Option ℕ × Vect) : Type 0 where
  pub first : r.0 ≡ some e
  pub last : e ≡ get_or q.heap (length q.heap - 1) 0
  pub gone : (r.1.elements e).offset ≡ none
  pub shorter : length r.1.heap + 1 ≡ length q.heap
  pub kept : (i : ℕ) → i < length q.heap - 1 → get_or r.1.heap i 0 ≡ get_or q.heap i 0
  pub falls : IsFalling r.1.elements r.1.heap

last-Popped :
    (q : Vect)
    → IsFalling q.elements q.heap
    → 0 < length q.heap
    → Popped q (get_or q.heap (length q.heap - 1) 0) (remove_back q)
unfolding remove_back
last-Popped q falls pos =
    let e = get_or q.heap (length q.heap - 1) 0 in
    let q' = set_offset (record q { heap = pop_back q.heap }) e none in
    let run : remove_back q ≡ (some e, q') = rw (back-get_or q.heap pos, remove_back) in
    let shorter = length-pop_back q.heap in
    subst (Popped q e) (sym run) (record {
      first = refl;
      last = refl;
      gone = ground arith;
      shorter = omega (arith, shorter);
      kept = get_or-pop_back q.heap;
      falls = λ i j p r.
          ground (arith, shorter, falls i j, get_or-pop_back q.heap i, get_or-pop_back q.heap j);
    })

-- Remove() of a sorted vector: nothing from an empty one, and else the last element, which has the
-- earliest time and gets the offset -1; the others stay, sorted and in their order.
pub remove_back_correct :
    (q : Vect)
    → IsFalling q.elements q.heap
    → ((length q.heap ≡ 0) × (remove_back q ≡ (none, q)))
      ⊎ ((e : ℕ) × ((i : ℕ) → i < length q.heap → (q.elements e).time ≤ time_of q.elements q.heap i)
          × Popped q e (remove_back q))
unfolding remove_back
remove_back_correct q falls = elim (Bool-cases (length q.heap == 0)) [
  | inl e ↦
      let empty : length q.heap ≡ 0 = ground arith in
      inl (empty, rw (back-empty q.heap empty, remove_back))
  | inr e ↦
      let n = length q.heap - 1 in
      inr (
        get_or q.heap n 0,
        λ i p. falls i n (omega arith) (ground arith),
        last-Popped q falls (ground arith),
      )
]
