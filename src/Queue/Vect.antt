-- ===== src/Queue/Vect.antt =====
-- queue/PriorityQueueVect.h and queue/PriorityQueueVect.cc: a vector that is kept sorted, the latest
-- time first. An iterator of the vector is an index; `std::lower_bound`, `std::find`, `insert` and
-- `erase` are the standard library's.
pub mod Sorted
pub mod Popped
pub mod Missed
use zeek_snippets.Prelude.{
  ℕ, zero, suc, ◌+◌, ◌-◌, ◌*◌, ◌/◌, ◌%◌, ◌^◌, Bool, true, false, List, [], ◌∷◌, ◌++◌, Option, none,
  some, length, get_elem?, take, drop, ltb, leb, ◌==◌, if◌then◌else◌,
}
use zeek_snippets.Run.{Run, ok, fault, aborted, out_of_fuel, out_of_bounds, ◌>>=◌, cell}
use zeek_snippets.Queue.{Element, update, lowest_time}

pub record Vect : Type 0 where
  pub elements : ℕ → Element
  pub heap : List ℕ
  pub peak_heap_size : ℕ
  pub cumulative_num : ℕ

-- `reserve` changes no contents.
unfoldable pub new : (ℕ → Element) → Vect
new elements = record { elements = elements; heap = []; peak_heap_size = 0; cumulative_num = 0 }

unfoldable pub size : Vect → ℕ
size q = length q.heap

abbrev pub set_offset : Vect → ℕ → Option ℕ → Vect
set_offset q e off = record q {
  elements = update q.elements e (record (q.elements e) { offset = off });
}

abbrev pub minimize_time : Vect → ℕ → Vect
minimize_time q e = record q {
  elements = update q.elements e (record (q.elements e) { time = lowest_time });
}

-- `heap.back()`
unfoldable pub back : List ℕ → Option ℕ
back [] = none
back (e ∷ []) = some e
back (_ ∷ f ∷ es) = back (f ∷ es)

-- `heap.pop_back()`
unfoldable pub pop_back : List ℕ → List ℕ
pop_back [] = []
pop_back (e ∷ []) = []
pop_back (e ∷ f ∷ es) = e ∷ pop_back (f ∷ es)

-- Remove()
unfoldable pub remove_back : Vect → Option ℕ × Vect
remove_back q = elim (back q.heap) [
  | none ↦ (none, q)
  | some e ↦ (some e, set_offset (record q { heap = pop_back q.heap }) e none)
]

-- `std::find` for a pointer, as the index that it stops at.
unfoldable pub find : ℕ → List ℕ → ℕ
find e [] = 0
find e (x ∷ xs) = if x == e then 0 else suc (find e xs)

-- `heap.erase(it)`
abbrev pub erase_at : ℕ → List ℕ → List ℕ
erase_at i xs = take i xs ++ drop (i + 1) xs

-- The part of Remove(PQ_Element*) behind its guard.
unfoldable pub remove_found : Vect → ℕ → Run (Option ℕ × Vect)
remove_found q e =
    let it = find e q.heap in
    if it == length q.heap
    then fault aborted
    else ok (some e, record (minimize_time q e) { heap = erase_at it q.heap })

-- Remove(PQ_Element*), with the offset of the element.
unfoldable pub remove_at : Vect → ℕ → Option ℕ → Run (Option ℕ × Vect)
remove_at q e none = ok (none, q)
remove_at q e (some i) =
    if leb (length q.heap) i
    then ok (none, q)
    else do p ← cell (get_elem? q.heap i); if p == e then remove_found q e else ok (none, q)

unfoldable pub remove : Vect → ℕ → Run (Option ℕ × Vect)
remove q e = remove_at q e (q.elements e).offset

-- `std::lower_bound` by halving: the first index from `first` on, of `count`, whose element does not
-- satisfy `l->Time() > t`.
unfoldable pub lower_bound : ℕ → (ℕ → Element) → List ℕ → ℕ → ℕ → ℕ → Run ℕ
lower_bound zero times heap t first count = out_of_fuel
lower_bound (suc k) times heap t first count = if count == 0 then ok first else do
  let step = count / 2
  let it = first + step
  l ← cell (get_elem? heap it)
  let right = lower_bound k times heap t (it + 1) (count - (step + 1))
  let left = lower_bound k times heap t first step
  if ltb t (times l).time then right else left

-- `heap.insert(it, e)`
abbrev pub insert_at : ℕ → ℕ → List ℕ → List ℕ
insert_at it e xs = take it xs ++ e ∷ drop it xs

-- The end of Add.
unfoldable pub count_added : Vect → Bool × Vect
count_added q =
    let n = length q.heap in
    (
      true,
      record q {
        cumulative_num = (q.cumulative_num + 1) % 2 ^ 64;
        peak_heap_size = if ltb q.peak_heap_size n then n else q.peak_heap_size;
      },
    )

unfoldable pub add : Vect → ℕ → Run (Bool × Vect)
add q e =
    if length q.heap == 0
    then ok (count_added (set_offset (record q { heap = q.heap ++ e ∷ [] }) e (some 0)))
    else (do
      let n = length q.heap
      it ← lower_bound (n + 1) q.elements q.heap (q.elements e).time 0 n
      ok (count_added (set_offset (record q { heap = insert_at it e q.heap }) e (some 1))))

-- BubbleUp, which nothing calls: it returns the number of swaps.
unfoldable pub set_element : Vect → ℕ → ℕ → Run Vect
set_element q bin e =
    if ltb bin (length q.heap)
    then ok (set_offset (record q { heap = zeek_snippets.Prelude.set q.heap bin e }) e (some bin))
    else fault out_of_bounds

unfoldable pub swap : Vect → ℕ → ℕ → Run Vect
swap q bin1 bin2 = do
  t ← cell (get_elem? q.heap bin1)
  u ← cell (get_elem? q.heap bin2)
  q₁ ← set_element q bin1 u
  set_element q₁ bin2 t

unfoldable pub bubble_up_loop : ℕ → Vect → ℕ → Run (ℕ × Vect)
bubble_up_loop zero q bin = out_of_fuel
bubble_up_loop (suc k) q bin = if bin == 0 then ok (0, q) else do
  let p = bin / 2
  above ← cell (get_elem? q.heap p)
  here ← cell (get_elem? q.heap bin)
  if ltb (q.elements above).time (q.elements here).time
      then (do q' ← swap q p bin; (n, q'') ← bubble_up_loop k q' p; ok (n + 1, q''))
      else ok (0, q)

unfoldable pub bubble_up : Vect → ℕ → Run (ℕ × Vect)
bubble_up q bin = bubble_up_loop (bin + 1) q bin
