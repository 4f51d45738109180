-- ===== src/Queue/Unrolled/Agree.antt =====
-- The heap of queue/PriorityQueueUnrolled.cc behaves as that of queue/PriorityQueue.cc.
use zeek_snippets.Prelude.{
  ℕ, zero, suc, ◌+◌, ◌*◌, ◌≡◌, refl, arith, ltb, leb, ◌==◌, if◌then◌else◌, Option, none, some,
}
use zeek_snippets.Run.{Run, ok, ◌>>=◌}
use zeek_snippets.Queue
use zeek_snippets.Queue.{Queue, time_at, swap, left_child, right_child, parent}
use zeek_snippets.Queue.Unrolled.{
  bubble_up_loop, down_round, bubble_up, bubble_down_loop, bubble_down, add, remove_top, remove_at,
  remove,
}

bubble_up_loop-eq :
    (k : ℕ) (q : Queue) (bin : ℕ) → bubble_up_loop k q bin ≡ Queue.bubble_up_loop k q bin
unfolding bubble_up_loop Queue.bubble_up_loop
bubble_up_loop-eq zero q bin = refl
bubble_up_loop-eq (suc k) q bin = simp (bubble_up_loop-eq k)

-- A round of the loop, with what follows it.
round_lem :
    (F : Queue → ℕ → Run Queue) (q : Queue) (bin : ℕ)
    → (down_round q bin >>= λ p. (if bin == p.1 then ok p.0 else F p.0 p.1)) ≡ (do
      v ← time_at q bin
      lv ← time_at q (bin * 2)
      if leb q.heap_size (bin * 2 + 1)
          then (if ltb lv v then swap q (bin * 2) bin else ok q)
          else (do
            rv ← time_at q (bin * 2 + 1)
            if ltb lv rv
                then (if ltb lv v then (do q' ← swap q (bin * 2) bin; F q' (bin * 2)) else ok q)
                else (if ltb rv v
                    then (do q' ← swap q (bin * 2 + 1) bin; F q' (bin * 2 + 1))
                    else ok q)))
unfolding down_round
round_lem F q bin = ground arith

bubble_down_loop-eq :
    (k : ℕ) (q : Queue) (bin : ℕ) → bubble_down_loop k q bin ≡ Queue.bubble_down_loop k q bin
unfolding bubble_down_loop Queue.bubble_down_loop left_child right_child
bubble_down_loop-eq zero q bin = refl
bubble_down_loop-eq (suc k) q bin =
    rw (round_lem (bubble_down_loop k) q bin) (simp (bubble_down_loop-eq k))

-- BubbleDown as a loop and as a recursion give the same result, a fault included, from any bin of
-- any queue.
pub bubble_down-eq : (q : Queue) (bin : ℕ) → bubble_down q bin ≡ Queue.bubble_down q bin
unfolding bubble_down Queue.bubble_down
bubble_down-eq q bin = bubble_down_loop-eq (q.heap_size + 1) q bin

bubble_up-eq : (q : Queue) (bin : ℕ) → bubble_up q bin ≡ Queue.bubble_up q bin
unfolding bubble_up Queue.bubble_up
bubble_up-eq q bin = bubble_up_loop-eq (bin + 1) q bin

remove_top-eq : (q : Queue) → remove_top q ≡ Queue.remove_top q
unfolding remove_top Queue.remove_top
remove_top-eq q = simp bubble_down-eq

remove_at-eq : (q : Queue) (e : ℕ) (o : Option ℕ) → remove_at q e o ≡ Queue.remove_at q e o
unfolding remove_at Queue.remove_at
remove_at-eq q e none = refl
remove_at-eq q e (some i) = simp (bubble_up-eq, remove_top-eq)

-- The unrolled Add and both kinds of Remove give the same results and states as those of
-- queue/PriorityQueue.cc, faults included, from any queue.
pub unrolled_agrees :
    (q : Queue) (e : ℕ)
    → (add q e ≡ Queue.add q e)
      × (remove_top q ≡ Queue.remove_top q)
      × (remove q e ≡ Queue.remove q e)
unfolding add Queue.add remove Queue.remove
unrolled_agrees q e = (simp bubble_up-eq, remove_top-eq q, remove_at-eq q e (q.elements e).offset)
