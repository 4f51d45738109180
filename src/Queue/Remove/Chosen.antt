-- ===== src/Queue/Remove/Chosen.antt =====
-- Remove(PQ_Element*) of queue/PriorityQueue.cc.
use zeek_snippets.Prelude.{
  ℕ, zero, suc, ◌+◌, ◌/◌, ◌<◌, ◌≡◌, ◌≢◌, sym, ap, subst, ◌∙◌, true, false, ◌&&◌, Option, none, some,
  Option-cases, inl, inr, Bool-cases, arith, length, ltb, ◌==◌,
}
use zeek_snippets.Run.{
  aborted, fault, ok, fault, ◌>>=◌, Returns, returns, Returns-bind, Returns-inv,
}
use zeek_snippets.Queue.{
  bubble_up, Queue, minimize_time, expect, remove_top, remove, remove_at, bubble_up_loop, parent,
}
use zeek_snippets.Queue.Memory.{
  ptr, key, holds, contains, load-ok, ptr-swapped, time_at-ok, swap-ok, swapped, key-swapped,
  length-swapped,
}
use zeek_snippets.Queue.Order.{IsHeap, IsValid, Kept, holds-inv}
use zeek_snippets.Queue.Up.{bubble_up_restores}
use zeek_snippets.Queue.Remove.{Removed}
use zeek_snippets.Queue.Remove.Top.{remove_top_root}
use zeek_snippets.Queue.Remove.Lowered.{
  lowered, lowered-UpInv, raised, sifted-IsValid, sifted-Removed,
}

eq_self : (a : ℕ) → (a == a) ≡ true
eq_self a = ground arith

expect-first : (e : ℕ) (t : Option ℕ × Queue) → t.0 ≡ some e → expect e t ≡ ok t
unfolding expect
expect-first e (none, q) h = cc
expect-first e (some f, q) h = ground arith

expect-other : (e f : ℕ) (t : Option ℕ × Queue) → t.0 ≡ some f → e ≢ f → expect e t ≡ fault aborted
unfolding expect
expect-other e f (none, q) h ne = cc
expect-other e f (some g, q) h ne = ground arith

-- The call of Remove(PQ_Element*) for an element that the queue contains, as far as its result.
remove-held :
    (q : Queue) (i : ℕ)
    → IsValid q
    → i < q.heap_size
    → remove q (ptr q i)
      ≡ bubble_up (minimize_time q (ptr q i)) i >>= (λ r. remove_top r >>= expect (ptr q i))
unfolding remove remove_at
remove-held q i v inside =
    rw (v.placed i inside, load-ok q i (omega (arith, v.room, v.sized)), eq_self (ptr q i))
      (ground arith)

-- Remove(PQ_Element*) of an element that a valid queue does not contain returns the null pointer
-- and changes nothing.
pub remove_absent :
    (q : Queue) (e : ℕ) → IsValid q → contains q e ≡ false → remove q e ≡ ok (none, q)
unfolding remove remove_at holds
remove_absent q e v h = elim (Option-cases (q.elements e).offset) [
  | inl at ↦ rw at
  | inr (i, at) ↦ rw at (cases i (ground (arith, at, h)))
]
  where
    cases :
        (i : ℕ)
        → (ltb i q.heap_size && ptr q i == e) ≡ false
        → remove_at q e (some i) ≡ ok (none, q)
    cases i h = elim (Bool-cases (ltb i q.heap_size)) [
      | inl inside ↦ rw (load-ok q i (ground (arith, v.room, v.sized))) (ground arith)
      | inr outside ↦ ground arith
    ]

-- Remove(PQ_Element*) of an element that a valid queue contains, while no other one has the time
-- -HUGE_VAL, does not abort: it returns the element and leaves a valid queue of exactly the others.
pub remove_correct :
    (q : Queue) (e : ℕ)
    → IsValid q
    → contains q e ≡ true
    → ((x : ℕ) → contains q x ≡ true → x ≢ e → 0 < (q.elements x).time)
    → Returns (Removed q e) (remove q e)
unfolding minimize_time
remove_correct q e v h others =
    let (i, inside, at, same) = holds-inv q q.heap_size e h in
    subst (λ x. Returns (Removed q x) (remove q x)) same
      (rw (remove-held q i v inside) (
        Returns-bind
          (bubble_up_restores (lowered q i v inside) q.heap_size i (lowered-UpInv q i v inside))
          λ r (heap, kept).
            let late =
              subst (λ y. (x : ℕ) → contains q x ≡ true → x ≢ y → 0 < (q.elements x).time)
                (sym same) others in
            let valid = sifted-IsValid q i v inside r heap kept in
            let n : r.heap_size ≡ q.heap_size = kept.size in
            Returns-bind (remove_top_root r valid (omega arith)) λ t d.
              rw
                (expect-first (ptr q i) t
                  (d.first ∙ ap some (raised q i v inside r heap kept late)))
                (returns (sifted-Removed q i v inside r heap kept late t d))))

-- BubbleUp does not move a root of the lowest time.
bubble_up_loop-root :
    (k : ℕ) (q r : Queue) (i : ℕ)
    → i < length q.heap
    → key q 0 ≡ 0
    → bubble_up_loop k q i ≡ ok r
    → ptr r 0 ≡ ptr q 0
unfolding bubble_up_loop parent
bubble_up_loop-root zero q r i h low run = cc
bubble_up_loop-root (suc k) q r i h low run =
    let size_p : i / 2 < length q.heap = omega arith in
    let run' =
      rw (time_at-ok q (i / 2) size_p, time_at-ok q i h, swap-ok q (i / 2) i size_p h) at run in
    ground (
      arith,
      run',
      bubble_up_loop-root k (swapped q (i / 2) i) r (i / 2),
      length-swapped q (i / 2) i,
      key-swapped q (i / 2) i size_p h 0,
      ptr-swapped q (i / 2) i size_p h 0,
    )

aborts_below_root :
    (q : Queue) (i : ℕ) (v : IsValid q) (inside : i < q.heap_size) (r : Queue)
    → ptr q i ≢ ptr q 0
    → (q.elements (ptr q 0)).time ≡ 0
    → bubble_up (lowered q i v inside) i ≡ ok r
    → IsHeap r q.heap_size
    → Kept (lowered q i v inside) q.heap_size r
    → remove q (ptr q i) ≡ fault aborted
unfolding bubble_up minimize_time ptr key
aborts_below_root q i v inside r ne low run heap kept =
    let valid = sifted-IsValid q i v inside r heap kept in
    let (t, top_run, d) = Returns-inv (remove_top_root r valid (omega (arith, kept.size))) in
    let root : ptr r 0 ≡ ptr q 0 =
      bubble_up_loop-root (i + 1) (lowered q i v inside) r i (omega (arith, v.room, v.sized))
        (ground arith) run in
    rw (remove-held q i v inside, run, ◌>>=◌, top_run)
      (expect-other (ptr q i) (ptr r 0) t d.first (rw root ne))

-- Remove(PQ_Element*) of a valid queue aborts on any contained element but the root while the root
-- has the time -HUGE_VAL: the comparison of BubbleUp is strict, so the element stops below the root.
pub remove_aborts :
    (q : Queue) (e : ℕ)
    → IsValid q
    → contains q e ≡ true
    → e ≢ ptr q 0
    → (q.elements (ptr q 0)).time ≡ 0
    → remove q e ≡ fault aborted
remove_aborts q e v h ne low =
    let (i, inside, at, same) = holds-inv q q.heap_size e h in
    let (r, run, (heap, kept)) =
      Returns-inv
        (bubble_up_restores (lowered q i v inside) q.heap_size i (lowered-UpInv q i v inside)) in
    subst (λ x. remove q x ≡ fault aborted) same
      (aborts_below_root q i v inside r (rw same ne) low run heap kept)
