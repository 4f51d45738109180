-- ===== src/Queue/Remove/Top.antt =====
-- Remove() of queue/PriorityQueue.cc.
use zeek_snippets.Prelude.{
  ℕ, suc, ◌-◌, ◌/◌, ◌≤◌, ◌<◌, ◌≡◌, ◌≢◌, ◌⊎◌, refl, sym, subst, ◌∙◌, true, false, not, ◌&&◌, none,
  some, Option-cases, inl, inr, Bool-cases, arith, length, ◌==◌, if◌then◌else◌,
}
use zeek_snippets.Run.{ok, Returns, returns, Returns-if, Returns-bind}
use zeek_snippets.Queue.{Queue, set_offset, remove_top}
use zeek_snippets.Queue.Memory.{
  ptr, key, holds, contains, IsPlaced, stored, length-stored, ptr-stored, time-stored,
  offset-stored, set_element-ok, load-ok,
}
use zeek_snippets.Queue.Order.{IsHeap, IsValid, Kept, holds-ptr, holds-inv, root_least}
use zeek_snippets.Queue.Down.{DownInv, bubble_down_restores}
use zeek_snippets.Queue.Remove.{Removed}

-- `q` with its last element moved to the root.
module _ (q : Queue) (m : ℕ) (size : q.heap_size ≡ suc m) (v : IsValid q) where
  abbrev shrunk : Queue
  shrunk = stored (record q { heap_size = m }) 0 (ptr q m)

  shrunk-ptr : (c : ℕ) → ptr shrunk c ≡ (if 0 == c then ptr q m else ptr q c)
  unfolding ptr
  shrunk-ptr c =
      ptr-stored (record q { heap_size = m }) 0 (ptr q m) c (omega (arith, v.room, v.sized))

  shrunk-offset :
      (x : ℕ)
      → (shrunk.elements x).offset ≡ (if x == ptr q m then some 0 else (q.elements x).offset)
  shrunk-offset x = offset-stored (record q { heap_size = m }) 0 (ptr q m) x

  shrunk-time : (x : ℕ) → (shrunk.elements x).time ≡ (q.elements x).time
  shrunk-time x = time-stored (record q { heap_size = m }) 0 (ptr q m) x

  shrunk-key : (c : ℕ) → 0 < c → key shrunk c ≡ key q c
  unfolding key
  shrunk-key c h = ground (arith, shrunk-ptr c, shrunk-time (ptr shrunk c))

  shrunk-IsPlaced : IsPlaced shrunk m
  shrunk-IsPlaced i h = ground (
    arith,
    shrunk-ptr i,
    shrunk-offset (ptr shrunk i),
    v.placed i (omega arith),
    v.placed m (omega arith),
  )

  shrunk-holds : (x : ℕ) → holds shrunk m x ≡ (contains q x && not (x == ptr q 0))
  unfolding holds
  shrunk-holds x =
      let last = v.placed m (omega arith) in
      let root = v.placed 0 (omega arith) in
      elim (Option-cases (q.elements x).offset) [
        | inl e ↦ ground (arith, e, size, last, root, shrunk-offset x, shrunk-ptr 0)
        | inr (k, e) ↦
            ground (arith, e, size, last, root, shrunk-offset x, shrunk-ptr 0, shrunk-ptr k)
      ]

  shrunk-DownInv : DownInv shrunk 0
  unfolding stored set_offset
  shrunk-DownInv = record {
    size = omega (arith, length-stored (record q { heap_size = m }) 0 (ptr q m), v.room, v.sized);
    placed = shrunk-IsPlaced;
    edges = λ c h ne.
        rw (shrunk-key c (omega arith), shrunk-key (c / 2) (omega arith)) (v.heap c (omega arith));
    bridged = λ c h e pos. absurd (omega arith);
  }

  module _ (r : Queue) (heap : IsHeap r m) (kept : Kept shrunk m r) where
    abbrev detached : Queue
    detached = set_offset r (ptr q 0) none

    detached-ptr : (i : ℕ) → ptr detached i ≡ ptr r i
    unfolding ptr set_offset
    detached-ptr i = refl

    detached-offset :
        (x : ℕ)
        → (detached.elements x).offset ≡ (if x == ptr q 0 then none else (r.elements x).offset)
    unfolding set_offset
    detached-offset x = ground arith

    detached-time : (x : ℕ) → (detached.elements x).time ≡ (r.elements x).time
    unfolding set_offset
    detached-time x = ground arith

    detached-key : (i : ℕ) → key detached i ≡ key r i
    unfolding key
    detached-key i = rw (detached-time (ptr detached i), detached-ptr i)

    root_free : (i : ℕ) → i < m → ptr r i ≢ ptr q 0
    root_free i h e =
        ground (arith, holds-ptr r m i kept.placed h, kept.held (ptr r i), shrunk-holds (ptr r i))

    detached-IsPlaced : IsPlaced detached m
    detached-IsPlaced i h =
        ground (arith, detached-ptr i, detached-offset (ptr r i), root_free i h, kept.placed i h)

    detached-holds_root :
        (x : ℕ) → holds detached m x ≡ (if x == ptr q 0 then false else holds r m x)
    unfolding holds set_offset ptr
    detached-holds_root x = ground arith

    detached-holds : (x : ℕ) → holds detached m x ≡ (contains q x && not (x == ptr q 0))
    detached-holds x = ground (arith, detached-holds_root x, kept.held x, shrunk-holds x)

    detached-Removed : Removed q (ptr q 0) (some (ptr q 0), detached)
    unfolding set_offset stored
    detached-Removed =
        let n : detached.heap_size ≡ m = kept.size in
        record {
          first = refl;
          gone = ground (arith, detached-offset (ptr q 0));
          valid = record {
            room = omega (arith, kept.size, kept.capacity, v.room);
            sized =
                kept.width
                ∙ length-stored (record q { heap_size = m }) 0 (ptr q m)
                ∙ v.sized
                ∙ sym kept.capacity;
            heap =
                subst (IsHeap detached) (sym n)
                  (λ c h. rw (detached-key c, detached-key (c / 2)) (heap c h));
            placed = subst (IsPlaced detached) (sym n) detached-IsPlaced;
            peak = omega (arith, kept.size, kept.peak, v.peak);
          };
          size = omega (arith, kept.size, size);
          held = λ x.
              subst (λ k. holds detached k x ≡ (contains q x && not (x == ptr q 0))) (sym n)
                (detached-holds x);
          times = λ x ne. detached-time x ∙ kept.times x ∙ shrunk-time x;
        }

-- Remove() of a queue that is not empty takes its root.
pub remove_top_root :
    (q : Queue) → IsValid q → 0 < q.heap_size → Returns (Removed q (ptr q 0)) (remove_top q)
unfolding remove_top stored set_offset ptr
remove_top_root q v pos =
    let m = q.heap_size - 1 in
    let size : q.heap_size ≡ suc m = omega arith in
    let room_m : m < length q.heap = omega (arith, v.room, v.sized) in
    let room_0 : 0 < length q.heap = omega (arith, v.room, v.sized) in
    Returns-if (q.heap_size == 0) (λ e. absurd (ground arith))
      λ e.
        rw
          (
            load-ok q 0 room_0,
            load-ok (record q { heap_size = m }) m room_m,
            set_element-ok (record q { heap_size = m }) 0 (ptr q m) room_0,
          )
          (Returns-bind (bubble_down_restores (shrunk q m size v) 0 (shrunk-DownInv q m size v))
            λ r (heap, kept). returns (detached-Removed q m size v r heap kept))

-- Remove() of an empty queue returns the null pointer and changes nothing. Of any other valid queue
-- it returns an element whose time is the earliest, and leaves a valid queue of exactly the others.
pub remove_top_correct :
    (q : Queue)
    → IsValid q
    → ((q.heap_size ≡ 0) × (remove_top q ≡ ok (none, q)))
      ⊎ ((e : ℕ) × (contains q e ≡ true)
          × ((x : ℕ) → contains q x ≡ true → (q.elements e).time ≤ (q.elements x).time)
          × Returns (Removed q e) (remove_top q))
remove_top_correct q v = elim (Bool-cases (q.heap_size == 0)) [
  | inl e ↦ inl (ground arith, unfold remove_top in rw e)
  | inr e ↦
      let pos : 0 < q.heap_size = ground arith in
      inr (ptr q 0, holds-ptr q q.heap_size 0 v.placed pos, least, remove_top_root q v pos)
]
  where
    least : (x : ℕ) → contains q x ≡ true → (q.elements (ptr q 0)).time ≤ (q.elements x).time
    least x h =
        let (i, inside, at, same) = holds-inv q q.heap_size x h in
        subst (λ y. (q.elements (ptr q 0)).time ≤ (q.elements y).time) same
          (unfold key in root_least q q.heap_size i v.heap inside)
