-- ===== src/Queue/Add.antt =====
-- The constructor, Resize and Add of queue/PriorityQueue.cc.
use zeek_snippets.Prelude.{
  ℕ, zero, suc, ◌+◌, ◌*◌, ◌/◌, ◌%◌, ◌^◌, ◌≤◌, ◌<◌, ◌≡◌, refl, sym, subst, ◌∙◌, Bool, true, false,
  ◌||◌, List, [], ◌∷◌, Option-cases, inl, inr, arith, length, get_or, replicate, length-replicate,
  leb, ◌==◌, if◌then◌else◌,
}
use zeek_snippets.Run.{ok, Returns, returns, Returns-if, Returns-map, Returns-bind}
use zeek_snippets.Queue.{Element, Queue, new, set_offset, copy_cells, resize, count_added, add}
use zeek_snippets.Queue.Memory.{
  ptr, key, holds, contains, IsPlaced, stored, length-stored, ptr-stored, time-stored,
  offset-stored, set_element-ok,
}
use zeek_snippets.Queue.Order.{IsHeap, IsValid, agree-IsHeap, agree-IsPlaced, agree-holds}
use zeek_snippets.Queue.Up.{UpInv, Sifted, bubble_up_restores}

-- A new queue of at least one cell is valid and empty.
pub new-IsValid :
    (elements : ℕ → Element) (n : ℕ)
    → 0 < n
    → IsValid (new elements n) × ((x : ℕ) → contains (new elements n) x ≡ false)
unfolding new holds
new-IsValid elements n h = (
  record {
    room = h;
    sized = length-replicate n 0;
    heap = λ c p. absurd (omega arith);
    placed = λ c p. absurd (omega arith);
    peak = omega arith;
  },
  λ x. ground arith,
)

-- The loop of Resize copies the first `n` cells.
copy_cells_lem :
    (n : ℕ) (heap tmp : List ℕ)
    → n ≤ length heap
    → n ≤ length tmp
    → Returns
        (λ t. (length t ≡ length tmp) × ((i : ℕ) → i < n → get_or t i 0 ≡ get_or heap i 0))
        (copy_cells n heap tmp)
unfolding copy_cells get_or
copy_cells_lem zero heap tmp h k = returns (refl, λ i p. absurd (omega arith))
copy_cells_lem (suc n) [] tmp h k = absurd (omega arith)
copy_cells_lem (suc n) (e ∷ heap) [] h k = absurd (omega arith)
copy_cells_lem (suc n) (e ∷ heap) (_ ∷ tmp) h k =
    Returns-bind (copy_cells_lem n heap tmp (omega arith) (omega arith))
      λ t (width, same). returns (omega arith, shifted t same)
  where
    shifted :
        (t : List ℕ)
        → ((i : ℕ) → i < n → get_or t i 0 ≡ get_or heap i 0)
        → (i : ℕ) → i < suc n
        → get_or (e ∷ t) i 0 ≡ get_or (e ∷ heap) i 0
    shifted t same zero p = refl
    shifted t same (suc i) p = same i (omega arith)

-- What Add and Resize leave as it is.
record Grown (q : Queue) (r : Bool × Queue) : Type 0 where
  done : r.0 ≡ true
  store : r.1.elements ≡ q.elements
  ptrs : (i : ℕ) → i < q.heap_size → ptr r.1 i ≡ ptr q i
  size : r.1.heap_size ≡ q.heap_size
  peak : r.1.peak_heap_size ≡ q.peak_heap_size
  total : r.1.cumulative_num ≡ q.cumulative_num
  room : r.1.heap_size < r.1.max_heap_size
  sized : length r.1.heap ≡ r.1.max_heap_size
  doubled : q.heap_size ≡ q.max_heap_size → r.1.max_heap_size ≡ q.max_heap_size * 2
  unchanged : q.heap_size < q.max_heap_size → r.1.max_heap_size ≡ q.max_heap_size

-- The end of Add: the array is doubled when it is full.
grow-Grown :
    (q : Queue)
    → 0 < q.heap_size
    → q.heap_size ≤ q.max_heap_size
    → length q.heap ≡ q.max_heap_size
    → Returns
        (Grown q)
        (if leb q.max_heap_size q.heap_size then resize q (q.max_heap_size * 2) else ok (true, q))
unfolding resize ptr
grow-Grown q pos most sized =
    Returns-if (leb q.max_heap_size q.heap_size)
      (λ full.
        Returns-bind
          (copy_cells_lem q.max_heap_size q.heap (replicate (q.max_heap_size * 2) 0) (omega arith)
            (rw length-replicate (omega arith)))
          λ t (width, same). returns (record {
            done = refl;
            store = refl;
            ptrs = λ i h. same i (omega arith);
            size = refl;
            peak = refl;
            total = refl;
            room = omega arith;
            sized = width ∙ length-replicate (q.max_heap_size * 2) 0;
            doubled = λ all. refl;
            unchanged = λ open_cell. absurd (ground arith);
          }))
      (λ open_cell. returns (record {
        done = refl;
        store = refl;
        ptrs = λ i h. refl;
        size = refl;
        peak = refl;
        total = refl;
        room = ground arith;
        sized = sized;
        doubled = λ all. absurd (ground arith);
        unchanged = λ fewer. refl;
      }))

-- The queue `r` with a true result is valid and holds the elements of `q` and `e`; the array has twice
-- as many cells as before if the new element fills it, and else as many.
pub record Added (q : Queue) (e : ℕ) (r : Bool × Queue) : Type 0 where
  pub done : r.0 ≡ true
  pub valid : IsValid r.1
  pub size : r.1.heap_size ≡ q.heap_size + 1
  pub held : (x : ℕ) → contains r.1 x ≡ (x == e || contains q x)
  pub times : (x : ℕ) → (r.1.elements x).time ≡ (q.elements x).time
  pub total : r.1.cumulative_num ≡ (q.cumulative_num + 1) % 2 ^ 64
  pub doubled : q.heap_size + 1 ≡ q.max_heap_size → r.1.max_heap_size ≡ q.max_heap_size * 2
  pub unchanged : q.heap_size + 1 < q.max_heap_size → r.1.max_heap_size ≡ q.max_heap_size

module _ (q : Queue) (e : ℕ) (v : IsValid q) (fresh : contains q e ≡ false) where
  abbrev placed_queue : Queue
  placed_queue = stored q q.heap_size e

  placed_queue-ptr : (c : ℕ) → ptr placed_queue c ≡ (if q.heap_size == c then e else ptr q c)
  placed_queue-ptr c = ptr-stored q q.heap_size e c (omega (arith, v.room, v.sized))

  placed_queue-key : (c : ℕ) → c < q.heap_size → key placed_queue c ≡ key q c
  unfolding key
  placed_queue-key c h =
      ground (arith, placed_queue-ptr c, time-stored q q.heap_size e (ptr placed_queue c))

  placed_queue-IsPlaced : IsPlaced placed_queue (q.heap_size + 1)
  unfolding holds
  placed_queue-IsPlaced i h = ground (
    arith,
    placed_queue-ptr i,
    offset-stored q q.heap_size e (ptr placed_queue i),
    v.placed i,
    fresh,
  )

  placed_queue-holds : (x : ℕ) → holds placed_queue (q.heap_size + 1) x ≡ (x == e || contains q x)
  unfolding holds
  placed_queue-holds x = elim (Option-cases (q.elements x).offset) [
    | inl none_yet ↦
        ground (arith, none_yet, offset-stored q q.heap_size e x, placed_queue-ptr q.heap_size)
    | inr (k, at) ↦ ground (
      arith,
      at,
      offset-stored q q.heap_size e x,
      placed_queue-ptr q.heap_size,
      placed_queue-ptr k,
    )
  ]

  placed_queue-UpInv : UpInv placed_queue (q.heap_size + 1) q.heap_size
  placed_queue-UpInv = record {
    inside = omega arith;
    size = omega (arith, length-stored q q.heap_size e, v.room, v.sized);
    placed = placed_queue-IsPlaced;
    edges = λ c h ne.
        rw (placed_queue-key c (omega arith), placed_queue-key (c / 2) (omega arith))
          (v.heap c (omega arith));
    bridged = λ c h ne half. absurd (omega arith);
  }

  -- The count of Add over the sifted bins, and the array that it may have doubled.
  Grown-Added :
      (r : Queue)
      → Sifted placed_queue (q.heap_size + 1) r
      → (t : Bool × Queue) → Grown (count_added r) t
      → Added q e t
  unfolding count_added stored set_offset
  Grown-Added r (heap, kept) t g =
      let size : t.1.heap_size ≡ q.heap_size + 1 = omega (arith, g.size, kept.size) in
      let same : (i : ℕ) → i < q.heap_size + 1 → ptr t.1 i ≡ ptr r i =
        λ i h. rw (g.ptrs i (omega (arith, kept.size))) (unfold ptr in refl) in
      record {
        done = g.done;
        valid = record {
          room = g.room;
          sized = g.sized;
          heap =
              subst (λ n. IsHeap t.1 n) (sym size)
                (agree-IsHeap r t.1 (q.heap_size + 1) g.store same heap);
          placed =
              subst (λ n. IsPlaced t.1 n) (sym size)
                (agree-IsPlaced r t.1 (q.heap_size + 1) g.store same kept.placed);
          peak = ground (arith, g.peak, g.size);
        };
        size = size;
        held = λ x.
            subst (λ n. holds t.1 n x ≡ (x == e || contains q x)) (sym size)
              (agree-holds r t.1 (q.heap_size + 1) g.store same x
                ∙ kept.held x
                ∙ placed_queue-holds x);
        times = λ x. ground (arith, g.store, kept.times x, time-stored q q.heap_size e x);
        total = rw (g.total, kept.total);
        doubled = λ all. omega (arith, g.doubled, kept.size, kept.capacity);
        unchanged = λ fewer. omega (arith, g.unchanged, kept.size, kept.capacity);
      }

  -- Add to a valid queue of an element that it does not contain does not fault and returns true: the
  -- queue gains exactly `e` and stays valid, no time changes, and the array gets twice as many cells
  -- if the new element fills it, and keeps its size else.
  pub add_correct : Returns (Added q e) (add q e)
  unfolding add count_added stored set_offset
  add_correct =
      let room : q.heap_size < length q.heap = omega (arith, v.room, v.sized) in
      rw (set_element-ok q q.heap_size e room) (
        Returns-bind
          (bubble_up_restores placed_queue (q.heap_size + 1) q.heap_size placed_queue-UpInv)
          λ r s.
            Returns-map
              (grow-Grown (count_added r) (omega (arith, s.1.size))
                (omega (arith, s.1.size, s.1.capacity, v.room))
                (s.1.width ∙ length-stored q q.heap_size e ∙ v.sized ∙ sym s.1.capacity))
              (Grown-Added r s))
