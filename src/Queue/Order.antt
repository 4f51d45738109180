-- ===== src/Queue/Order.antt =====
-- The heap order, and what the moves of BubbleUp and BubbleDown keep.
use zeek_snippets.Prelude.{
  ℕ, zero, suc, ◌/◌, ◌≤◌, ◌<◌, ◌≡◌, ◌∙◌, inl, inr, refl, true, false, ◌&&◌, Option, none, some,
  Option-cases, arith, length, ltb, ◌==◌,
}
use zeek_snippets.Queue.{Queue, set_offset}
use zeek_snippets.Queue.Memory.{
  ptr, key, holds, IsPlaced, swapped, stored, length-swapped, time-swapped, offset-swapped,
  ptr-swapped,
}

-- No bin below `n` has an earlier time than its parent.
abbrev pub IsHeap : Queue → ℕ → Type 0
IsHeap q n = (c : ℕ) → c < n → key q (c / 2) ≤ key q c

-- `r` differs from `q` in the arrangement of the first `n` bins alone.
pub record Kept (q : Queue) (n : ℕ) (r : Queue) : Type 0 where
  pub size : r.heap_size ≡ q.heap_size
  pub width : length r.heap ≡ length q.heap
  pub capacity : r.max_heap_size ≡ q.max_heap_size
  pub peak : r.peak_heap_size ≡ q.peak_heap_size
  pub total : r.cumulative_num ≡ q.cumulative_num
  pub times : (x : ℕ) → (r.elements x).time ≡ (q.elements x).time
  pub placed : IsPlaced r n
  pub held : (x : ℕ) → holds r n x ≡ holds q n x
  pub beyond : (i : ℕ) → n ≤ i → ptr r i ≡ ptr q i

pub Kept-refl : (q : Queue) (n : ℕ) → IsPlaced q n → Kept q n q
Kept-refl q n placed = record {
  size = refl;
  width = refl;
  capacity = refl;
  peak = refl;
  total = refl;
  times = λ x. refl;
  placed = placed;
  held = λ x. refl;
  beyond = λ i h. refl;
}

pub Kept-trans : {q r s : Queue} {n : ℕ} → Kept q n r → Kept r n s → Kept q n s
Kept-trans a b = record {
  size = b.size ∙ a.size;
  width = b.width ∙ a.width;
  capacity = b.capacity ∙ a.capacity;
  peak = b.peak ∙ a.peak;
  total = b.total ∙ a.total;
  times = λ x. b.times x ∙ a.times x;
  placed = b.placed;
  held = λ x. b.held x ∙ a.held x;
  beyond = λ i h. b.beyond i h ∙ a.beyond i h;
}

pub holds-ptr : (q : Queue) (n i : ℕ) → IsPlaced q n → i < n → holds q n (ptr q i) ≡ true
unfolding holds
holds-ptr q n i placed h = ground (arith, placed i)

-- A held element stands in the bin that its offset names.
pub holds-inv :
    (q : Queue) (n x : ℕ)
    → holds q n x ≡ true
    → (i : ℕ) × (i < n) × ((q.elements x).offset ≡ some i) × (ptr q i ≡ x)
unfolding holds
holds-inv q n x h = ground arith

pub ptr-injective :
    (q : Queue) (n i j : ℕ) → IsPlaced q n → i < n → j < n → ptr q i ≡ ptr q j → i ≡ j
ptr-injective q n i j placed hi hj e = ground (arith, placed i, placed j)

module _ (q : Queue) (n i j : ℕ) (size : n ≤ length q.heap) (hi : i < n) (hj : j < n) where
  swapped-IsPlaced : IsPlaced q n → IsPlaced (swapped q i j) n
  swapped-IsPlaced placed c h = ground (
    arith,
    ptr-swapped q i j (omega arith) (omega arith) c,
    offset-swapped q i j (ptr (swapped q i j) c),
    placed c,
    placed i,
    placed j,
  )

  swapped-holds : IsPlaced q n → (x : ℕ) → holds (swapped q i j) n x ≡ holds q n x
  unfolding holds
  swapped-holds placed x =
      let size_i : i < length q.heap = omega arith in
      let size_j : j < length q.heap = omega arith in
      let at = ptr-swapped q i j size_i size_j in
      let off = offset-swapped q i j x in
      elim (Option-cases (q.elements x).offset) [
        | inl e ↦ ground (arith, e, at i, at j, off, placed i, placed j)
        | inr (k, e) ↦ ground (arith, e, at i, at j, at k, off, placed i, placed j)
      ]

  swapped-beyond : (c : ℕ) → n ≤ c → ptr (swapped q i j) c ≡ ptr q c
  swapped-beyond c h = ground (arith, ptr-swapped q i j (omega arith) (omega arith) c)

  pub swapped-Kept : IsPlaced q n → Kept q n (swapped q i j)
  unfolding swapped stored set_offset
  swapped-Kept placed = record {
    size = refl;
    width = length-swapped q i j;
    capacity = refl;
    peak = refl;
    total = refl;
    times = time-swapped q i j;
    placed = swapped-IsPlaced placed;
    held = swapped-holds placed;
    beyond = swapped-beyond;
  }

root_least_below : (k : ℕ) (q : Queue) (n i : ℕ) → IsHeap q n → i < k → i < n → key q 0 ≤ key q i
root_least_below zero q n i h f p = absurd (omega arith)
root_least_below (suc k) q n zero h f p = omega arith
root_least_below (suc k) q n (suc i) h f p =
    ground (arith, h (suc i), root_least_below k q n (suc i / 2) h (omega arith) (omega arith))

-- The root of a heap has the earliest time.
pub root_least : (q : Queue) (n i : ℕ) → IsHeap q n → i < n → key q 0 ≤ key q i
root_least q n i h p = root_least_below (suc i) q n i h (omega arith) p

-- The invariant that every call keeps: there is room for one more element, and the bins in use
-- are a heap of elements that know their bins.
pub record IsValid (q : Queue) : Type 0 where
  pub room : q.heap_size < q.max_heap_size
  pub sized : length q.heap ≡ q.max_heap_size
  pub heap : IsHeap q q.heap_size
  pub placed : IsPlaced q q.heap_size
  pub peak : q.heap_size ≤ q.peak_heap_size

-- Two queues over one store that have the same pointers in the first `n` bins.
module _ (q r : Queue) (n : ℕ) (store : r.elements ≡ q.elements)
    (ptrs : (i : ℕ) → i < n → ptr r i ≡ ptr q i) where
  pub agree-key : (i : ℕ) → i < n → key r i ≡ key q i
  unfolding key ptr
  agree-key i h = rw (store, ptrs i h)

  pub agree-IsHeap : IsHeap q n → IsHeap r n
  agree-IsHeap heap c h = rw (agree-key c h, agree-key (c / 2) (omega arith)) (heap c h)

  pub agree-IsPlaced : IsPlaced q n → IsPlaced r n
  unfolding ptr
  agree-IsPlaced placed i h = rw (store, ptrs i h) (placed i h)

  pub agree-holds : (x : ℕ) → holds r n x ≡ holds q n x
  unfolding holds ptr
  agree-holds x = rw store (cases (q.elements x).offset)
    where
      cases :
          (o : Option ℕ)
          → elim o [ none ↦ false | some i ↦ ltb i n && ptr r i == x ]
            ≡ elim o [ none ↦ false | some i ↦ ltb i n && ptr q i == x ]
      cases none = refl
      cases (some i) = ground (arith, ptrs i)
