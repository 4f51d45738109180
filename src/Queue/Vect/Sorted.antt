-- ===== src/Queue/Vect/Sorted.antt =====
-- The order of the vector of queue/PriorityQueueVect.cc, and Add.
use zeek_snippets.Prelude.{
  ℕ, zero, suc, ◌+◌, ◌-◌, ◌/◌, ◌%◌, ◌^◌, ◌≤◌, ◌<◌, ◌≡◌, refl, Bool, true, List, [], ◌∷◌, ◌++◌, some,
  length, get_or, get_elem?-get_or, length-append, length-take, length-drop, take, drop, ltb, ◌==◌,
  if◌then◌else◌, arith,
}
use zeek_snippets.Run.{Returns, returns, Returns-if, Returns-bind}
use zeek_snippets.Queue.{Element, update}
use zeek_snippets.Queue.Vect.{Vect, set_offset, lower_bound, insert_at, count_added, add}

-- The time behind an index of a vector.
abbrev pub time_of : (ℕ → Element) → List ℕ → ℕ → ℕ
time_of es heap i = (es (get_or heap i 0)).time

-- The times fall along the vector.
abbrev pub IsFalling : (ℕ → Element) → List ℕ → Type 0
IsFalling es heap = (i j : ℕ) → i ≤ j → j < length heap → time_of es heap j ≤ time_of es heap i

-- `it` is where the elements that are later than `t` end.
pub record IsBound (es : ℕ → Element) (heap : List ℕ) (t it : ℕ) : Type 0 where
  pub inside : it ≤ length heap
  pub before : (i : ℕ) → i < it → t < time_of es heap i
  pub behind : (i : ℕ) → it ≤ i → i < length heap → time_of es heap i ≤ t

pub lower_bound-IsBound :
    (k : ℕ) (es : ℕ → Element) (heap : List ℕ) (t first count : ℕ)
    → IsFalling es heap
    → count < k
    → first + count ≤ length heap
    → ((i : ℕ) → i < first → t < time_of es heap i)
    → ((i : ℕ) → first + count ≤ i → i < length heap → time_of es heap i ≤ t)
    → Returns (IsBound es heap t) (lower_bound k es heap t first count)
unfolding lower_bound
lower_bound-IsBound zero es heap t first count falls f size before behind = absurd (omega arith)
lower_bound-IsBound (suc k) es heap t first count falls f size before behind =
    Returns-if (count == 0)
      (λ e. returns (record {
        inside = omega arith;
        before = before;
        behind = λ i p r. behind i (ground arith) r;
      }))
      λ e.
        let half = count / 2 in
        let it = first + half in
        let room : it < length heap = ground arith in
        rw (get_elem?-get_or heap it 0 room) (
          Returns-if (ltb t (time_of es heap it))
            (λ later.
              lower_bound-IsBound k es heap t (it + 1) (count - (half + 1)) falls (ground arith)
                (ground arith) (λ i p. ground (arith, falls i it))
                (λ i p r. behind i (ground arith) r))
            (λ sooner.
              lower_bound-IsBound k es heap t first half falls (ground arith) (ground arith) before
                (λ i p r. ground (arith, falls it i))))

pub length-insert_at :
    (it e : ℕ) (xs : List ℕ) → it ≤ length xs → length (insert_at it e xs) ≡ length xs + 1
length-insert_at it e xs h =
    omega (arith, length-append (take it xs) (e ∷ drop it xs), length-take it xs, length-drop it xs)

pub get_or-insert_at :
    (it e : ℕ) (xs : List ℕ) (i : ℕ)
    → it ≤ length xs
    → get_or (insert_at it e xs) i 0
      ≡ (if ltb i it then get_or xs i 0 else if i == it then e else get_or xs (i - 1) 0)
unfolding get_or
get_or-insert_at zero e xs zero h = refl
get_or-insert_at zero e xs (suc i) h = ground arith
get_or-insert_at (suc it) e [] i h = absurd (omega arith)
get_or-insert_at (suc it) e (x ∷ xs) zero h = ground arith
get_or-insert_at (suc it) e (x ∷ xs) (suc zero) h = ground (arith, get_or-insert_at it e xs zero)
get_or-insert_at (suc it) e (x ∷ xs) (suc (suc i)) h =
    ground (arith, get_or-insert_at it e xs (suc i))

insert_at-IsFalling :
    (es : ℕ → Element) (heap : List ℕ) (e it : ℕ)
    → IsFalling es heap
    → IsBound es heap (es e).time it
    → IsFalling es (insert_at it e heap)
insert_at-IsFalling es heap e it falls b i j p r =
    let n = length-insert_at it e heap b.inside in
    ground (
      arith,
      n,
      get_or-insert_at it e heap i b.inside,
      get_or-insert_at it e heap j b.inside,
      falls i j,
      falls i (j - 1),
      falls (i - 1) (j - 1),
      b.before i,
      b.behind (j - 1),
    )

-- An order of times is one of the elements with other offsets.
same_times-IsFalling :
    (es fs : ℕ → Element) (heap : List ℕ)
    → ((x : ℕ) → (fs x).time ≡ (es x).time)
    → IsFalling es heap
    → IsFalling fs heap
same_times-IsFalling es fs heap same falls i j p r =
    rw (same (get_or heap i 0), same (get_or heap j 0)) (falls i j p r)

-- `e` stands in `heap` at one index more.
abbrev pub Inserted : ℕ → List ℕ → List ℕ → Type 0
Inserted e heap heap' =
    (it : ℕ) × (it ≤ length heap)
    × (length heap' ≡ length heap + 1)
    × ((i : ℕ)
        → get_or heap' i 0
          ≡ (if ltb i it then get_or heap i 0 else if i == it then e else get_or heap (i - 1) 0))

-- The vector `r` is sorted, holds the elements of `q` and `e`, and counts one insertion more.
pub record SortedIn (q : Vect) (e : ℕ) (r : Bool × Vect) : Type 0 where
  pub done : r.0 ≡ true
  pub falls : IsFalling r.1.elements r.1.heap
  pub placed : Inserted e q.heap r.1.heap
  pub total : r.1.cumulative_num ≡ (q.cumulative_num + 1) % 2 ^ 64

append-insert_at : (e : ℕ) (xs : List ℕ) → length xs ≡ 0 → xs ++ e ∷ [] ≡ insert_at 0 e xs
append-insert_at e [] h = refl
append-insert_at e (x ∷ xs) h = absurd (omega arith)

module _ (q : Vect) (e : ℕ) (falls : IsFalling q.elements q.heap) where
  insert_SortedIn :
      (it at : ℕ)
      → IsBound q.elements q.heap (q.elements e).time it
      → SortedIn q e
          (count_added (set_offset (record q { heap = insert_at it e q.heap }) e (some at)))
  unfolding count_added
  insert_SortedIn it at b = record {
    done = refl;
    falls =
        same_times-IsFalling q.elements
          (update q.elements e (record (q.elements e) { offset = some at })) (insert_at it e q.heap)
          (λ x. ground arith) (insert_at-IsFalling q.elements q.heap e it falls b);
    placed = (
      it,
      b.inside,
      length-insert_at it e q.heap b.inside,
      λ i. get_or-insert_at it e q.heap i b.inside,
    );
    total = refl;
  }

  -- Add returns true and keeps the vector sorted: the halving search ends within its fuel, and `e` is
  -- inserted at one index with the order of the others unchanged.
  pub add-IsFalling : Returns (SortedIn q e) (add q e)
  unfolding add
  add-IsFalling =
      Returns-if (length q.heap == 0)
        (λ empty.
          let none_there : length q.heap ≡ 0 = ground arith in
          rw (append-insert_at e q.heap none_there) (
            returns (
              insert_SortedIn 0 0 (record {
                inside = omega arith;
                before = λ i p. absurd (omega arith);
                behind = λ i p r. absurd (omega arith);
              }))))
        λ some_in.
          Returns-bind
            (lower_bound-IsBound (length q.heap + 1) q.elements q.heap (q.elements e).time 0
              (length q.heap) falls (omega arith) (omega arith) (λ i p. absurd (omega arith))
              (λ i p r. absurd (omega arith)))
            λ it b. returns (insert_SortedIn it 1 b)
