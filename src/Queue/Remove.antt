-- ===== src/Queue/Remove.antt =====
-- Remove() and Remove(PQ_Element*) of queue/PriorityQueue.cc: what a removal leaves.
pub mod Top
pub mod Lowered
pub mod Chosen
pub mod Drain
use zeek_snippets.Prelude.{
  ℕ, zero, suc, ◌+◌, ◌-◌, ◌*◌, ◌/◌, ◌≤◌, ◌<◌, ◌≡◌, ◌≢◌, ◌⊎◌, refl, sym, ap, subst, ◌∙◌, Bool, true,
  false, not, ◌&&◌, ◌||◌, List, [], ◌∷◌, Option, none, some, Option-cases, inl, inr, Bool-cases,
  arith, length, ltb, leb, ◌==◌, if◌then◌else◌,
}
use zeek_snippets.Run.{
  aborted, fault, Run, ok, fault, ◌>>=◌, Returns, returns, Returns-if, Returns-map, Returns-bind,
  Returns-inv,
}
use zeek_snippets.Queue.{
  bubble_up, Element, Queue, set_offset, minimize_time, expect, remove_top, remove,
}
use zeek_snippets.Queue.Memory.{
  ptr, key, holds, contains, IsPlaced, stored, length-stored, ptr-stored, time-stored,
  offset-stored, set_element-ok, load-ok,
}
use zeek_snippets.Queue.Order.{
  IsHeap, IsValid, Kept, holds-ptr, holds-inv, ptr-injective, root_least,
}
use zeek_snippets.Queue.Up.{UpInv, Sifted, bubble_up_restores}
use zeek_snippets.Queue.Down.{DownInv, bubble_down_restores}

-- The call returned `e`; the queue is valid without it, and `e` knows that it is in no queue.
pub record Removed (q : Queue) (e : ℕ) (r : Option ℕ × Queue) : Type 0 where
  pub first : r.0 ≡ some e
  pub gone : (r.1.elements e).offset ≡ none
  pub valid : IsValid r.1
  pub size : r.1.heap_size + 1 ≡ q.heap_size
  pub held : (x : ℕ) → contains r.1 x ≡ (contains q x && not (x == e))
  pub times : (x : ℕ) → x ≢ e → (r.1.elements x).time ≡ (q.elements x).time
