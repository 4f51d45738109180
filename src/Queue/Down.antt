-- ===== src/Queue/Down.antt =====
-- BubbleDown of queue/PriorityQueue.cc.
use zeek_snippets.Prelude.{
  ℕ, zero, suc, ◌+◌, ◌-◌, ◌*◌, ◌/◌, ◌≤◌, ◌<◌, ◌≡◌, ◌≢◌, ◌⊎◌, inl, inr, arith, length, ltb, leb,
  ◌==◌, if◌then◌else◌,
}
use zeek_snippets.Run.{Run, Returns, returns, Returns-if, Returns-map}
use zeek_snippets.Queue.{Queue, left_child, right_child, bubble_down_loop, bubble_down}
use zeek_snippets.Queue.Memory.{
  key, IsPlaced, swapped, length-swapped, heap_size-swapped, time_at-ok, swap-ok, key-swapped,
}
use zeek_snippets.Queue.Order.{IsHeap, Kept, Kept-refl, Kept-trans, swapped-Kept}
use zeek_snippets.Queue.Up.{Sifted}

-- Only the edges below `i` may be out of order.
pub record DownInv (q : Queue) (i : ℕ) : Type 0 where
  pub size : q.heap_size ≤ length q.heap
  pub placed : IsPlaced q q.heap_size
  pub edges : (c : ℕ) → c < q.heap_size → c / 2 ≢ i → key q (c / 2) ≤ key q c
  pub bridged : (c : ℕ) → c < q.heap_size → c / 2 ≡ i → 0 < i → key q (i / 2) ≤ key q c

-- `m` is the child of `i` with the earlier time, and earlier than `i`.
record IsEarlyChild (q : Queue) (i m : ℕ) : Type 0 where
  inside : m < q.heap_size
  child : m / 2 ≡ i
  below : i < m
  early : key q m < key q i
  least : (c : ℕ) → c < q.heap_size → c / 2 ≡ i → c ≢ i → key q m ≤ key q c

module _ (q : Queue) (i m : ℕ) (v : DownInv q i) (s : IsEarlyChild q i m) where
  sink_Kept : Kept q q.heap_size (swapped q m i)
  sink_Kept = swapped-Kept q q.heap_size m i v.size s.inside (omega arith) v.placed

  sink_key :
      (c : ℕ)
      → key (swapped q m i) c ≡ (if i == c then key q m else if m == c then key q i else key q c)
  sink_key = key-swapped q m i (omega arith) (omega arith)

  swapped-DownInv : DownInv (swapped q m i) m
  swapped-DownInv =
      let at = sink_key in
      let kept = sink_Kept in
      record {
        size = omega (arith, length-swapped q m i, kept.size);
        placed = λ c h. kept.placed c (omega (arith, kept.size));
        edges = λ c h ne.
            ground
              (arith, kept.size, at c, at (c / 2), v.edges c, v.bridged m, s.least c, v.edges i);
        bridged = λ c h e pos. ground (arith, kept.size, at c, at (m / 2), v.edges c);
      }

early_left :
    (q : Queue) (i : ℕ)
    → i * 2 < q.heap_size
    → key q (i * 2) < key q i
    → (i * 2 + 1 < q.heap_size → key q (i * 2) ≤ key q (i * 2 + 1))
    → IsEarlyChild q i (i * 2)
early_left q zero h early least = absurd (omega arith)
early_left q (suc j) h early least =
    let i = suc j in
    record {
      inside = h;
      child = omega arith;
      below = omega arith;
      early = early;
      least = λ c p e ne. elim (sides c e) [
        | inl l ↦ rw l (omega arith)
        | inr r ↦ rw r (least (omega arith))
      ];
    }
  where
    sides : (c : ℕ) → c / 2 ≡ suc j → (c ≡ suc j * 2) ⊎ (c ≡ suc j * 2 + 1)
    sides c e = omega arith

early_right :
    (q : Queue) (i : ℕ)
    → i * 2 + 1 < q.heap_size
    → key q (i * 2 + 1) < key q i
    → key q (i * 2 + 1) ≤ key q (i * 2)
    → IsEarlyChild q i (i * 2 + 1)
early_right q i h early least = record {
  inside = h;
  child = omega arith;
  below = omega arith;
  early = early;
  least = λ c p e ne. elim (sides c e) [ inl l ↦ rw l least | inr r ↦ rw r (omega arith) ];
}
  where
    sides : (c : ℕ) → c / 2 ≡ i → (c ≡ i * 2) ⊎ (c ≡ i * 2 + 1)
    sides c e = omega arith

-- A bin whose children are not earlier is in its place.
settled_heap :
    (q : Queue) (i : ℕ)
    → DownInv q i
    → (i * 2 < q.heap_size → key q i ≤ key q (i * 2))
    → (i * 2 + 1 < q.heap_size → key q i ≤ key q (i * 2 + 1))
    → Sifted q q.heap_size q
settled_heap q i v left right = (heap, Kept-refl q q.heap_size v.placed)
  where
    sides : (c : ℕ) → (c / 2 ≢ i) ⊎ (c ≡ i * 2) ⊎ (c ≡ i * 2 + 1)
    sides c = omega arith

    heap : IsHeap q q.heap_size
    heap c h = elim (sides c) [
      | inl away ↦ v.edges c h away
      | inr (inl l) ↦ ground (arith, left)
      | inr (inr r) ↦ ground (arith, right)
    ]

sunk :
    (q : Queue) (i m : ℕ) {r : Run Queue}
    → DownInv q i
    → IsEarlyChild q i m
    → Returns (Sifted (swapped q m i) (swapped q m i).heap_size) r
    → Returns (Sifted q q.heap_size) r
unfolding swapped zeek_snippets.Queue.Memory.stored zeek_snippets.Queue.set_offset
sunk q i m {r} v s run =
    Returns-map (rw (heap_size-swapped q m i) at run)
      λ t (heap, more). (heap, Kept-trans (sink_Kept q i m v s) more)

bubble_down_loop_restores :
    (k : ℕ) (q : Queue) (i : ℕ)
    → q.heap_size - i < k
    → DownInv q i
    → Returns (Sifted q q.heap_size) (bubble_down_loop k q i)
unfolding bubble_down_loop left_child right_child
bubble_down_loop_restores zero q i f v = absurd (omega arith)
bubble_down_loop_restores (suc k) q i f v =
    Returns-if (leb q.heap_size (i * 2))
      (λ e. returns (settled_heap q i v (ground arith) (ground arith)))
      λ e.
        let hl : i * 2 < q.heap_size = ground arith in
        let size_i : i < length q.heap = omega (arith, v.size) in
        let size_l : i * 2 < length q.heap = omega (arith, v.size) in
        let next = λ (m : ℕ) (s : IsEarlyChild q i m). sunk q i m v s (
          bubble_down_loop_restores k (swapped q m i) m
            (omega (arith, heap_size-swapped q m i, s.below, s.inside))
            (swapped-DownInv q i m v s)) in
        rw (time_at-ok q i size_i, time_at-ok q (i * 2) size_l, swap-ok q (i * 2) i size_l size_i)
          (Returns-if (leb q.heap_size (i * 2 + 1))
            (λ one.
              Returns-if (ltb (key q (i * 2)) (key q i))
                (λ early.
                  let s = early_left q i hl (ground arith) (λ h. absurd (ground arith)) in
                  let w = swapped-DownInv q i (i * 2) v s in
                  let n = heap_size-swapped q (i * 2) i in
                  sunk q i (i * 2) v s (
                    returns (
                      settled_heap (swapped q (i * 2) i) (i * 2) w
                        (λ h. absurd (ground (arith, n, s.below)))
                        (λ h. absurd (ground (arith, n, s.below))))))
                (λ late. returns (settled_heap q i v (λ h. ground arith) (λ h. ground arith))))
            (λ two.
              let hr : i * 2 + 1 < q.heap_size = ground arith in
              let size_r : i * 2 + 1 < length q.heap = omega (arith, v.size) in
              rw (time_at-ok q (i * 2 + 1) size_r, swap-ok q (i * 2 + 1) i size_r size_i)
                (Returns-if (ltb (key q (i * 2)) (key q (i * 2 + 1)))
                  (λ left.
                    Returns-if (ltb (key q (i * 2)) (key q i))
                      (λ early. next (i * 2) (early_left q i hl (ground arith) (λ h. ground arith)))
                      (λ late.
                        returns (settled_heap q i v (λ h. ground arith) (λ h. ground arith))))
                  (λ right.
                    Returns-if (ltb (key q (i * 2 + 1)) (key q i))
                      (λ early. next (i * 2 + 1) (early_right q i hr (ground arith) (ground arith)))
                      (λ late.
                        returns (settled_heap q i v (λ h. ground arith) (λ h. ground arith)))))))

-- BubbleDown does not fault: it turns bins of which one may be too late for its place into a heap
-- of the same elements, each of which knows its bin.
pub bubble_down_restores :
    (q : Queue) (i : ℕ) → DownInv q i → Returns (Sifted q q.heap_size) (bubble_down q i)
unfolding bubble_down
bubble_down_restores q i v = bubble_down_loop_restores (q.heap_size + 1) q i (omega arith) v
