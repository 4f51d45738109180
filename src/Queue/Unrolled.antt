-- ===== src/Queue/Unrolled.antt =====
-- queue/PriorityQueueUnrolled.h and queue/PriorityQueueUnrolled.cc: the same heap, with the index
-- arithmetic written in place and BubbleDown as a loop. The state is that of queue/PriorityQueue.h,
-- field by field; `load`, `set_element`, `swap`, `resize` and the constructor are the same code.
pub mod Agree
use zeek_snippets.Prelude.{
  ℕ, zero, suc, ◌+◌, ◌-◌, ◌*◌, ◌/◌, Bool, true, Option, none, some, ltb, leb, ◌==◌, if◌then◌else◌,
}
use zeek_snippets.Run.{Run, ok, out_of_fuel, ◌>>=◌}
use zeek_snippets.Queue.{
  Queue, load, time_at, set_offset, minimize_time, set_element, swap, resize, count_added, expect,
}

unfoldable pub bubble_up_loop : ℕ → Queue → ℕ → Run Queue
bubble_up_loop zero q bin = out_of_fuel
bubble_up_loop (suc k) q bin = if bin == 0 then ok q else do
  let p = bin / 2
  above ← time_at q p
  here ← time_at q bin
  if ltb here above then (do q' ← swap q p bin; bubble_up_loop k q' p) else ok q

unfoldable pub bubble_up : Queue → ℕ → Run Queue
bubble_up q bin = bubble_up_loop (bin + 1) q bin

-- The body of the loop behind its `break`: the queue and the new bin.
unfoldable pub down_round : Queue → ℕ → Run (Queue × ℕ)
down_round q bin = do
  let l = bin * 2
  v ← time_at q bin
  let r = l + 1
  let left : Run (Queue × ℕ) = (do q' ← swap q l bin; ok (q', l))
  let right : Run (Queue × ℕ) = (do q' ← swap q r bin; ok (q', r))
  let stay : Run (Queue × ℕ) = (do q' ← swap q l bin; ok (q', bin))
  lv ← time_at q l
  if leb q.heap_size r then (if ltb lv v then stay else ok (q, bin)) else do
    rv ← time_at q r
    if ltb lv rv
        then (if ltb lv v then left else ok (q, bin))
        else (if ltb rv v then right else ok (q, bin))

-- `while (old_bin != bin)`; on entry `old_bin` is -1, and then the bin of the round before.
unfoldable pub bubble_down_loop : ℕ → Queue → ℕ → Run Queue
bubble_down_loop zero q bin = out_of_fuel
bubble_down_loop (suc k) q bin = if leb q.heap_size (bin * 2) then ok q else do
  (q', bin') ← down_round q bin
  let more = bubble_down_loop k q' bin'
  if bin == bin' then ok q' else more

unfoldable pub bubble_down : Queue → ℕ → Run Queue
bubble_down q bin = bubble_down_loop (q.heap_size + 1) q bin

unfoldable pub add : Queue → ℕ → Run (Bool × Queue)
add q e = do
  q₁ ← set_element q q.heap_size e
  q₂ ← bubble_up q₁ q₁.heap_size
  let q₃ = count_added q₂
  if leb q₃.max_heap_size q₃.heap_size then resize q₃ (q₃.max_heap_size * 2) else ok (true, q₃)

unfoldable pub remove_top : Queue → Run (Option ℕ × Queue)
remove_top q = if q.heap_size == 0 then ok (none, q) else do
  first ← load q 0
  let q₁ = record q { heap_size = q.heap_size - 1 }
  back ← load q₁ q₁.heap_size
  q₂ ← set_element q₁ 0 back
  q₃ ← bubble_down q₂ 0
  ok (some first, set_offset q₃ first none)

unfoldable pub remove_at : Queue → ℕ → Option ℕ → Run (Option ℕ × Queue)
remove_at q e none = ok (none, q)
remove_at q e (some i) = if leb q.heap_size i then ok (none, q) else do
  p ← load q i
  let found = (do q₁ ← bubble_up (minimize_time q e) i; r ← remove_top q₁; expect e r)
  if p == e then found else ok (none, q)

unfoldable pub remove : Queue → ℕ → Run (Option ℕ × Queue)
remove q e = remove_at q e (q.elements e).offset
