-- ===== src/Queue/Tests.antt =====
-- Runs of the queues of queue/, and examples of what is proved of them.
use zeek_snippets.Prelude.{
  ℕ, zero, suc, ◌/◌, ◌≤◌, ◌<◌, ◌≡◌, ◌≢◌, ◌⊎◌, refl, true, [], ◌∷◌, none, some, length, get_or,
  arith,
}
use zeek_snippets.Run.{ok, fault, aborted, Returns}
use zeek_snippets.Queue.{Element, Queue, add, remove_top, remove}
use zeek_snippets.Queue.Memory.{ptr, key, holds, contains}
use zeek_snippets.Queue.Order.{IsHeap, IsValid}
use zeek_snippets.Queue.Up.{UpInv}
use zeek_snippets.Queue.Down.{DownInv}
use zeek_snippets.Queue.Add.{Added, add_correct}
use zeek_snippets.Queue.Remove.{Removed}
use zeek_snippets.Queue.Remove.Top.{remove_top_correct}
use zeek_snippets.Queue.Remove.Drain.{drain, listed, InOrder, drain_correct}
use zeek_snippets.Queue.Remove.Chosen.{remove_correct, remove_aborts}
use zeek_snippets.Queue.Unrolled
use zeek_snippets.Queue.Unrolled.Agree.{unrolled_agrees}
use zeek_snippets.Queue.Vect
use zeek_snippets.Queue.Vect.{Vect, remove_back}
use zeek_snippets.Queue.Vect.Sorted.{IsFalling, SortedIn, time_of, add-IsFalling}
use zeek_snippets.Queue.Vect.Popped.{Popped, remove_back_correct}
use zeek_snippets.Queue.Vect.Missed.{remove-add_misses}
use zeek_snippets.Queue.Sorts.{sort_by_queue, sort_by_queue_correct}

-- Three elements, at the addresses 1 to 3, with the times `t`, 5 and 7; others are in no queue.
abbrev store : ℕ → ℕ → Element
store t (suc zero) = record { time = t; offset = some 0 }
store t (suc (suc zero)) = record { time = 5; offset = some 1 }
store t (suc (suc (suc zero))) = record { time = 7; offset = some 2 }
store t _ = record { time = 4; offset = none }

abbrev three : ℕ → Queue
three t = record {
  elements = store t;
  heap = 1 ∷ 2 ∷ 3 ∷ 0 ∷ [];
  heap_size = 3;
  peak_heap_size = 3;
  max_heap_size = 4;
  cumulative_num = 3;
}

three-placed : (t c : ℕ) → c < 3 → (store t (ptr (three t) c)).offset ≡ some c
unfolding ptr get_or
three-placed t zero h = refl
three-placed t (suc zero) h = refl
three-placed t (suc (suc zero)) h = refl
three-placed t (suc (suc (suc c))) h = absurd (omega arith)

three-IsHeap : (t : ℕ) → t ≤ 5 → IsHeap (three t) 3
unfolding key ptr get_or
three-IsHeap t e zero h = omega arith
three-IsHeap t e (suc zero) h = omega arith
three-IsHeap t e (suc (suc zero)) h = omega arith
three-IsHeap t e (suc (suc (suc c))) h = absurd (omega arith)

three-IsValid : (t : ℕ) → t ≤ 5 → IsValid (three t)
three-IsValid t e = record {
  room = omega arith;
  sized = refl;
  heap = three-IsHeap t e;
  placed = three-placed t;
  peak = omega arith;
}

positive : (x : ℕ) → 0 < (store 2 x).time
positive zero = omega arith
positive (suc zero) = omega arith
positive (suc (suc zero)) = omega arith
positive (suc (suc (suc zero))) = omega arith
positive (suc (suc (suc (suc x)))) = omega arith

add_correct_example : Returns (Added (three 2) 4) (add (three 2) 4)
unfolding holds
add_correct_example = add_correct (three 2) 4 (three-IsValid 2 (omega arith)) refl

remove_top_correct_example :
    (((three 2).heap_size ≡ 0) × (remove_top (three 2) ≡ ok (none, three 2)))
    ⊎ ((e : ℕ) × (contains (three 2) e ≡ true)
        × ((x : ℕ) → contains (three 2) x ≡ true → (store 2 e).time ≤ (store 2 x).time)
        × Returns (Removed (three 2) e) (remove_top (three 2)))
remove_top_correct_example = remove_top_correct (three 2) (three-IsValid 2 (omega arith))

drain_correct_example :
    Returns
      (λ es.
        InOrder (λ x. (store 2 x).time) es
        × ((x : ℕ) → listed es x ≡ contains (three 2) x)
        × (length es ≡ 3))
      (drain 3 (three 2))
drain_correct_example = drain_correct 3 (three 2) (three-IsValid 2 (omega arith)) refl

remove_correct_example : Returns (Removed (three 2) 2) (remove (three 2) 2)
unfolding holds ptr get_or
remove_correct_example =
    remove_correct (three 2) 2 (three-IsValid 2 (omega arith)) refl (λ x h ne. positive x)

remove_aborts_example : remove (three 0) 2 ≡ fault aborted
unfolding holds ptr get_or
remove_aborts_example =
    remove_aborts (three 0) 2 (three-IsValid 0 (omega arith)) refl (omega arith) refl

one_early : UpInv (three 6) 3 1
unfolding key ptr get_or
one_early = record {
  inside = omega arith;
  size = omega arith;
  placed = three-placed 6;
  edges = λ c h ne. edges c h ne;
  bridged = λ c h ne half. bridged c h half;
}
  where
    edges : (c : ℕ) → c < 3 → c ≢ 1 → key (three 6) (c / 2) ≤ key (three 6) c
    edges zero h ne = omega arith
    edges (suc zero) h ne = absurd (ne refl)
    edges (suc (suc zero)) h ne = omega arith
    edges (suc (suc (suc c))) h ne = absurd (omega arith)

    bridged : (c : ℕ) → c < 3 → c / 2 ≡ 1 → 6 ≤ key (three 6) c
    bridged zero h half = absurd (omega arith)
    bridged (suc zero) h half = absurd (omega arith)
    bridged (suc (suc zero)) h half = omega arith
    bridged (suc (suc (suc c))) h half = absurd (omega arith)

one_late : DownInv (three 6) 0
unfolding key ptr get_or
one_late = record {
  size = omega arith;
  placed = three-placed 6;
  edges = λ c h ne. edges c h ne;
  bridged = λ c h e pos. absurd (omega arith);
}
  where
    edges : (c : ℕ) → c < 3 → c / 2 ≢ 0 → key (three 6) (c / 2) ≤ key (three 6) c
    edges zero h ne = absurd (ne refl)
    edges (suc zero) h ne = absurd (ne refl)
    edges (suc (suc zero)) h ne = omega arith
    edges (suc (suc (suc c))) h ne = absurd (omega arith)

unrolled_agrees_example :
    (Unrolled.add (three 2) 4 ≡ add (three 2) 4)
    × (Unrolled.remove_top (three 2) ≡ remove_top (three 2))
    × (Unrolled.remove (three 2) 4 ≡ remove (three 2) 4)
unrolled_agrees_example = unrolled_agrees (three 2) 4

abbrev latest_first : Vect
latest_first = record {
  elements = store 2;
  heap = 3 ∷ 2 ∷ 1 ∷ [];
  peak_heap_size = 3;
  cumulative_num = 3;
}

latest_first-IsFalling : IsFalling (store 2) (3 ∷ 2 ∷ 1 ∷ [])
unfolding get_or
latest_first-IsFalling i j h p = cases i j h p
  where
    cases :
        (i j : ℕ)
        → i ≤ j
        → j < 3
        → time_of (store 2) (3 ∷ 2 ∷ 1 ∷ []) j ≤ time_of (store 2) (3 ∷ 2 ∷ 1 ∷ []) i
    cases zero zero h p = omega arith
    cases zero (suc zero) h p = omega arith
    cases zero (suc (suc zero)) h p = omega arith
    cases (suc zero) zero h p = absurd (omega arith)
    cases (suc zero) (suc zero) h p = omega arith
    cases (suc zero) (suc (suc zero)) h p = omega arith
    cases (suc (suc zero)) zero h p = absurd (omega arith)
    cases (suc (suc zero)) (suc zero) h p = absurd (omega arith)
    cases (suc (suc zero)) (suc (suc zero)) h p = omega arith
    cases i (suc (suc (suc j))) h p = absurd (omega arith)
    cases (suc (suc (suc i))) j h p = absurd (omega arith)

add-IsFalling_example : Returns (SortedIn latest_first 4) (Vect.add latest_first 4)
add-IsFalling_example = add-IsFalling latest_first 4 latest_first-IsFalling

remove_back_correct_example :
    ((length latest_first.heap ≡ 0) × (remove_back latest_first ≡ (none, latest_first)))
    ⊎ ((e : ℕ) × ((i : ℕ) → i < 3 → (store 2 e).time ≤ time_of (store 2) (3 ∷ 2 ∷ 1 ∷ []) i)
        × Popped latest_first e (remove_back latest_first))
remove_back_correct_example = remove_back_correct latest_first latest_first-IsFalling

remove-add_misses_example :
    Returns
      (λ r. (get_or r.1.heap 1 0 ≡ 4) ⊎ (Vect.remove r.1 4 ≡ ok (none, r.1)))
      (Vect.add latest_first 4)
remove-add_misses_example = remove-add_misses latest_first 4 latest_first-IsFalling (omega arith)

sort_by_queue_correct_example :
    Returns
      (λ out.
        InOrder (λ x. (store 6 x).time) out
        × ((x : ℕ) → listed out x ≡ listed (3 ∷ 1 ∷ 2 ∷ []) x)
        × (length out ≡ 3))
      (sort_by_queue (store 6) 1 (3 ∷ 1 ∷ 2 ∷ []))
sort_by_queue_correct_example =
    sort_by_queue_correct (store 6) 1 (3 ∷ 1 ∷ 2 ∷ []) (omega arith) (refl, (refl, (refl, tt)))
