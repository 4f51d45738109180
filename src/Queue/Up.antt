-- ===== src/Queue/Up.antt =====
-- BubbleUp of queue/PriorityQueue.cc.
use zeek_snippets.Prelude.{ℕ, zero, suc, ◌+◌, ◌/◌, ◌≤◌, ◌<◌, ◌≡◌, ◌≢◌, arith, length, ltb, ◌==◌}
use zeek_snippets.Run.{Returns, returns, Returns-if, Returns-map}
use zeek_snippets.Queue.{Queue, parent, bubble_up_loop, bubble_up}
use zeek_snippets.Queue.Memory.{
  key, IsPlaced, swapped, length-swapped, time_at-ok, swap-ok, key-swapped,
}
use zeek_snippets.Queue.Order.{IsHeap, Kept, Kept-refl, Kept-trans, swapped-Kept}

-- Only the edge above `i` may be out of order.
pub record UpInv (q : Queue) (n i : ℕ) : Type 0 where
  pub inside : i < n
  pub size : n ≤ length q.heap
  pub placed : IsPlaced q n
  pub edges : (c : ℕ) → c < n → c ≢ i → key q (c / 2) ≤ key q c
  pub bridged : (c : ℕ) → c < n → c ≢ i → c / 2 ≡ i → key q (i / 2) ≤ key q c

swapped-UpInv :
    (q : Queue) (n i : ℕ)
    → UpInv q n i
    → 0 < i
    → key q i < key q (i / 2)
    → UpInv (swapped q (i / 2) i) n (i / 2)
swapped-UpInv q n i v pos below =
    let hp : i / 2 < n = omega arith in
    let size_p : i / 2 < length q.heap = omega arith in
    let size_i : i < length q.heap = omega arith in
    let at = key-swapped q (i / 2) i size_p size_i in
    let kept = swapped-Kept q n (i / 2) i v.size hp v.inside v.placed in
    record {
      inside = hp;
      size = omega (arith, length-swapped q (i / 2) i);
      placed = kept.placed;
      edges = λ c h ne. ground (arith, at c, at (c / 2), v.edges c, v.bridged c, v.edges (i / 2));
      bridged = λ c h ne e. ground (arith, at c, at (i / 2 / 2), v.edges c, v.edges (i / 2));
    }

abbrev pub Sifted : Queue → ℕ → Queue → Type 0
Sifted q n r = IsHeap r n × Kept q n r

bubble_up_loop_restores :
    (k : ℕ) (q : Queue) (n i : ℕ)
    → i < k
    → UpInv q n i
    → Returns (Sifted q n) (bubble_up_loop k q i)
unfolding bubble_up_loop parent
bubble_up_loop_restores zero q n i f v = absurd (omega arith)
bubble_up_loop_restores (suc k) q n i f v =
    let size_p : i / 2 < length q.heap = omega arith in
    let size_i : i < length q.heap = omega arith in
    Returns-if (i == 0) (λ e. returns (λ c h. ground (arith, v.edges c), Kept-refl q n v.placed))
      λ e.
        rw (time_at-ok q (i / 2) size_p, time_at-ok q i size_i, swap-ok q (i / 2) i size_p size_i)
          (Returns-if (ltb (key q i) (key q (i / 2)))
            (λ below.
              let w = swapped-UpInv q n i v (ground arith) (ground arith) in
              let kept = swapped-Kept q n (i / 2) i v.size w.inside v.inside v.placed in
              Returns-map
                (bubble_up_loop_restores k (swapped q (i / 2) i) n (i / 2) (ground arith) w)
                λ r (heap, more). (heap, Kept-trans kept more))
            (λ settled. returns (λ c h. ground (arith, v.edges c), Kept-refl q n v.placed)))

-- BubbleUp does not fault: it turns bins of which one may be too early for its place into a heap
-- of the same elements, each of which knows its bin.
pub bubble_up_restores : (q : Queue) (n i : ℕ) → UpInv q n i → Returns (Sifted q n) (bubble_up q i)
unfolding bubble_up
bubble_up_restores q n i v = bubble_up_loop_restores (i + 1) q n i (omega arith) v
