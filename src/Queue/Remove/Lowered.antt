-- ===== src/Queue/Remove/Lowered.antt =====
-- Remove(PQ_Element*) of queue/PriorityQueue.cc: an element of the lowest time rises to the root.
use zeek_snippets.Prelude.{
  ℕ, ◌/◌, ◌≤◌, ◌<◌, ◌≡◌, ◌≢◌, refl, sym, ap, subst, ◌∙◌, true, Option, none, some, inl, inr,
  Bool-cases, arith, ◌==◌, if◌then◌else◌,
}
use zeek_snippets.Queue.{Queue, minimize_time}
use zeek_snippets.Queue.Memory.{ptr, key, holds, contains, IsPlaced}
use zeek_snippets.Queue.Order.{
  IsHeap, IsValid, Kept, holds-ptr, holds-inv, ptr-injective, root_least,
}
use zeek_snippets.Queue.Up.{UpInv}
use zeek_snippets.Queue.Remove.{Removed}

-- `q` with the time of its element in bin `i` minimized.
module _ (q : Queue) (i : ℕ) (v : IsValid q) (inside : i < q.heap_size) where
  abbrev pub lowered : Queue
  lowered = minimize_time q (ptr q i)

  lowered-ptr : (c : ℕ) → ptr lowered c ≡ ptr q c
  unfolding ptr minimize_time
  lowered-ptr c = refl

  lowered-offset : (x : ℕ) → (lowered.elements x).offset ≡ (q.elements x).offset
  unfolding minimize_time
  lowered-offset x = ground arith

  lowered-time :
      (x : ℕ) → (lowered.elements x).time ≡ (if x == ptr q i then 0 else (q.elements x).time)
  unfolding minimize_time
  lowered-time x = ground arith

  lowered-holds : (n x : ℕ) → holds lowered n x ≡ holds q n x
  unfolding holds ptr minimize_time
  lowered-holds n x = ground arith

  lowered-key : (c : ℕ) → c < q.heap_size → key lowered c ≡ (if i == c then 0 else key q c)
  unfolding key
  lowered-key c h = ground (
    arith,
    lowered-ptr c,
    lowered-time (ptr q c),
    ptr-injective q q.heap_size i c v.placed inside h,
  )

  lowered-IsPlaced : IsPlaced lowered q.heap_size
  lowered-IsPlaced c h = rw (lowered-ptr c, lowered-offset (ptr q c)) (v.placed c h)

  pub lowered-UpInv : UpInv lowered q.heap_size i
  unfolding minimize_time
  lowered-UpInv = record {
    inside = inside;
    size = omega (arith, v.room, v.sized);
    placed = lowered-IsPlaced;
    edges =
        λ c h ne. ground (arith, lowered-key c h, lowered-key (c / 2) (omega arith), v.heap c h);
    bridged = λ c h ne e.
        ground
          (arith, lowered-key c h, lowered-key (i / 2) (omega arith), v.heap c h, v.heap i inside);
  }

  module _ (r : Queue) (heap : IsHeap r q.heap_size) (kept : Kept lowered q.heap_size r) where
    pub sifted-IsValid : IsValid r
    unfolding minimize_time
    sifted-IsValid =
        let n : r.heap_size ≡ q.heap_size = kept.size in
        record {
          room = omega (arith, kept.size, kept.capacity, v.room);
          sized = kept.width ∙ v.sized ∙ sym kept.capacity;
          heap = subst (IsHeap r) (sym n) heap;
          placed = subst (IsPlaced r) (sym n) kept.placed;
          peak = omega (arith, kept.size, kept.peak, v.peak);
        }

    module _ (others : (x : ℕ) → contains q x ≡ true → x ≢ ptr q i → 0 < (q.elements x).time) where
      -- The lowered element has come to the root.
      pub raised : ptr r 0 ≡ ptr q i
      raised = elim (Bool-cases (ptr r 0 == ptr q i)) [
        | inl e ↦ ground arith
        | inr e ↦
            let root_held = holds-ptr r q.heap_size 0 kept.placed (omega arith) in
            let was_held =
              sym (lowered-holds q.heap_size (ptr r 0)) ∙ sym (kept.held (ptr r 0)) ∙ root_held in
            let late = others (ptr r 0) was_held (ground arith) in
            let e_held =
              kept.held (ptr q i)
              ∙ lowered-holds q.heap_size (ptr q i)
              ∙ holds-ptr q q.heap_size i v.placed inside in
            let (j, in_j, at_j, same) = holds-inv r q.heap_size (ptr q i) e_held in
            let low : (r.elements (ptr r j)).time ≡ 0 =
              rw same (ground (arith, kept.times (ptr q i), lowered-time (ptr q i))) in
            let first : (r.elements (ptr r 0)).time ≤ (r.elements (ptr r j)).time =
              unfold key in root_least r q.heap_size j heap in_j in
            absurd (ground (arith, first, low, late, kept.times (ptr r 0), lowered-time (ptr r 0)))
      ]

      pub sifted-Removed : (t : Option ℕ × Queue) → Removed r (ptr r 0) t → Removed q (ptr q i) t
      unfolding minimize_time
      sifted-Removed t d =
          let n : r.heap_size ≡ q.heap_size = kept.size in
          record {
            first = d.first ∙ ap some raised;
            gone = subst (λ x. (t.1.elements x).offset ≡ none) raised d.gone;
            valid = d.valid;
            size = d.size ∙ n;
            held = λ x.
                let kept_x : contains r x ≡ contains q x =
                  subst (λ k. holds r k x ≡ contains q x) (sym n)
                    (kept.held x ∙ lowered-holds q.heap_size x) in
                ground (arith, d.held x, kept_x, raised);
            times = λ x ne. ground (arith, d.times x, kept.times x, lowered-time x, raised);
          }
