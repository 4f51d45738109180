-- ===== src/Queue.antt =====
-- queue/PQ_Element.h, queue/PriorityQueue.h and queue/PriorityQueue.cc: a binary heap of pointers.
-- The objects of type PQ_Element are a store, a function from addresses to elements, since the heap
-- writes through its pointers the place of each element. A double that is no NaN is its rank in
-- the order of the doubles: the queue only compares times, and -HUGE_VAL is the one of rank 0.
-- The array is 0-based, and its index arithmetic is that of a 1-based heap: the children of a bin
-- are 2 * bin and 2 * bin + 1, so bin 0 has only the child 1.
pub mod Memory
pub mod Order
pub mod Up
pub mod Down
pub mod Add
pub mod Remove
pub mod Sorts
pub mod Unrolled
pub mod Vect
pub mod Tests
use zeek_snippets.Prelude.{
  ℕ, zero, suc, ◌+◌, ◌-◌, ◌*◌, ◌/◌, ◌%◌, ◌^◌, Bool, true, List, [], ◌∷◌, Option, none, some, length,
  get_elem?, set, take, replicate, ltb, leb, ◌==◌, if◌then◌else◌,
}
use zeek_snippets.Run.{Run, ok, fault, out_of_fuel, out_of_bounds, aborted, ◌>>=◌, cell}

-- `offset` is `none` for -1, the one negative value that the code writes.
pub record Element : Type 0 where
  pub time : ℕ
  pub offset : Option ℕ

abbrev pub lowest_time : ℕ
lowest_time = 0

-- `heap` has `max_heap_size` cells; a cell that has not been written yet reads 0.
pub record Queue : Type 0 where
  pub elements : ℕ → Element
  pub heap : List ℕ
  pub heap_size : ℕ
  pub peak_heap_size : ℕ
  pub max_heap_size : ℕ
  pub cumulative_num : ℕ

-- The store with the element at `e` written.
abbrev pub update : (ℕ → Element) → ℕ → Element → ℕ → Element
update f e v x = if x == e then v else f x

unfoldable pub set_offset : Queue → ℕ → Option ℕ → Queue
set_offset q e off = record q {
  elements = update q.elements e (record (q.elements e) { offset = off });
}

unfoldable pub minimize_time : Queue → ℕ → Queue
minimize_time q e = record q {
  elements = update q.elements e (record (q.elements e) { time = lowest_time });
}

-- The constructor, over the store as it is.
unfoldable pub new : (ℕ → Element) → ℕ → Queue
new elements initial_size = record {
  elements = elements;
  heap = replicate initial_size 0;
  heap_size = 0;
  peak_heap_size = 0;
  max_heap_size = initial_size;
  cumulative_num = 0;
}

-- The elements that the destructor deletes.
unfoldable pub destroy : Queue → List ℕ
destroy q = take q.heap_size q.heap

-- heap[i]
unfoldable pub load : Queue → ℕ → Run ℕ
load q i = cell (get_elem? q.heap i)

-- heap[i]->Time()
unfoldable pub time_at : Queue → ℕ → Run ℕ
unfolding load
time_at q i = do e ← load q i; ok (q.elements e).time

unfoldable pub top : Queue → Run (Option ℕ)
unfolding load
top q = if q.heap_size == 0 then ok none else (do e ← load q 0; ok (some e))

unfoldable pub parent : ℕ → ℕ
parent bin = bin / 2

unfoldable pub left_child : ℕ → ℕ
left_child bin = bin * 2

unfoldable pub right_child : ℕ → ℕ
unfolding left_child
right_child bin = left_child bin + 1

unfoldable pub set_element : Queue → ℕ → ℕ → Run Queue
unfolding set_offset
set_element q bin e =
    if ltb bin (length q.heap)
    then ok (set_offset (record q { heap = set q.heap bin e }) e (some bin))
    else fault out_of_bounds

unfoldable pub swap : Queue → ℕ → ℕ → Run Queue
unfolding load set_element
swap q bin1 bin2 = do
  t ← load q bin1
  u ← load q bin2
  q₁ ← set_element q bin1 u
  set_element q₁ bin2 t

unfoldable pub bubble_up_loop : ℕ → Queue → ℕ → Run Queue
unfolding time_at parent swap
bubble_up_loop zero q bin = out_of_fuel
bubble_up_loop (suc k) q bin = if bin == 0 then ok q else do
  let p = parent bin
  above ← time_at q p
  here ← time_at q bin
  if ltb here above then (do q' ← swap q p bin; bubble_up_loop k q' p) else ok q

-- The bin falls at each call.
unfoldable pub bubble_up : Queue → ℕ → Run Queue
unfolding bubble_up_loop
bubble_up q bin = bubble_up_loop (bin + 1) q bin

unfoldable pub bubble_down_loop : ℕ → Queue → ℕ → Run Queue
unfolding time_at left_child right_child swap
bubble_down_loop zero q bin = out_of_fuel
bubble_down_loop (suc k) q bin =
    let l = left_child bin in
    let r = right_child bin in
    if leb q.heap_size l then ok q else do
      v ← time_at q bin
      lv ← time_at q l
      if leb q.heap_size r then (if ltb lv v then swap q l bin else ok q) else do
        rv ← time_at q r
        if ltb lv rv
            then (if ltb lv v then (do q' ← swap q l bin; bubble_down_loop k q' l) else ok q)
            else (if ltb rv v then (do q' ← swap q r bin; bubble_down_loop k q' r) else ok q)

-- The bin grows at each call, and stays below the size.
unfoldable pub bubble_down : Queue → ℕ → Run Queue
unfolding bubble_down_loop
bubble_down q bin = bubble_down_loop (q.heap_size + 1) q bin

-- `tmp[i] = heap[i]` for the first `n` cells.
unfoldable pub copy_cells : ℕ → List ℕ → List ℕ → Run (List ℕ)
copy_cells zero heap tmp = ok tmp
copy_cells (suc n) (e ∷ heap) (_ ∷ tmp) = do rest ← copy_cells n heap tmp; ok (e ∷ rest)
copy_cells (suc n) _ _ = fault out_of_bounds

-- `new` does not return a null pointer, so the result is true.
unfoldable pub resize : Queue → ℕ → Run (Bool × Queue)
unfolding copy_cells
resize q new_size = do
  tmp ← copy_cells q.max_heap_size q.heap (replicate new_size 0)
  ok (true, record q { heap = tmp; max_heap_size = new_size })

-- The lines of `Add` after the element stands in its place.
unfoldable pub count_added : Queue → Queue
count_added q =
    let n = q.heap_size + 1 in
    record q {
      cumulative_num = (q.cumulative_num + 1) % 2 ^ 64;
      heap_size = n;
      peak_heap_size = if ltb q.peak_heap_size n then n else q.peak_heap_size;
    }

unfoldable pub add : Queue → ℕ → Run (Bool × Queue)
unfolding set_element bubble_up count_added resize
add q e = do
  q₁ ← set_element q q.heap_size e
  q₂ ← bubble_up q₁ q₁.heap_size
  let q₃ = count_added q₂
  if leb q₃.max_heap_size q₃.heap_size then resize q₃ (q₃.max_heap_size * 2) else ok (true, q₃)

-- Remove()
unfoldable pub remove_top : Queue → Run (Option ℕ × Queue)
unfolding load set_element bubble_down set_offset
remove_top q = if q.heap_size == 0 then ok (none, q) else do
  first ← load q 0
  let q₁ = record q { heap_size = q.heap_size - 1 }
  back ← load q₁ q₁.heap_size
  q₂ ← set_element q₁ 0 back
  q₃ ← bubble_down q₂ 0
  ok (some first, set_offset q₃ first none)

-- The `abort` of Remove(PQ_Element*), unless the removed element is `e`.
unfoldable pub expect : ℕ → Option ℕ × Queue → Run (Option ℕ × Queue)
expect e (none, q) = fault aborted
expect e (some e2, q) = if e == e2 then ok (some e2, q) else fault aborted

-- Remove(PQ_Element*), with the offset of the element.
unfoldable pub remove_at : Queue → ℕ → Option ℕ → Run (Option ℕ × Queue)
remove_at q e none = ok (none, q)
remove_at q e (some i) = if leb q.heap_size i then ok (none, q) else do
  p ← load q i
  let found = (do q₁ ← bubble_up (minimize_time q e) i; r ← remove_top q₁; expect e r)
  if p == e then found else ok (none, q)

unfoldable pub remove : Queue → ℕ → Run (Option ℕ × Queue)
remove q e = remove_at q e (q.elements e).offset
