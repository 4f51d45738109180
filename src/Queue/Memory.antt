-- ===== src/Queue/Memory.antt =====
-- Reads and writes of the heap array that stay inside it: what they return, with the loads and
-- stores of queue/PriorityQueue.h as total functions.
use zeek_snippets.Prelude.{
  ℕ, ◌<◌, ◌≡◌, refl, Bool, false, ◌&&◌, none, some, arith, length, set, get_or, length-set,
  get_elem?-get_or, get_or-set, ltb, ◌==◌, if◌then◌else◌,
}
use zeek_snippets.Run.{ok, ◌>>=◌}
use zeek_snippets.Queue.{Queue, set_offset, load, time_at, set_element, swap}

-- The pointer in a bin, and the time that it leads to.
unfoldable pub ptr : Queue → ℕ → ℕ
ptr q i = get_or q.heap i 0

unfoldable pub key : Queue → ℕ → ℕ
key q i = (q.elements (ptr q i)).time

-- An element is in the first `n` bins if its offset leads back to it.
unfoldable pub holds : Queue → ℕ → ℕ → Bool
holds q n e = elim (q.elements e).offset [ none ↦ false | some i ↦ ltb i n && ptr q i == e ]

-- The test by which Remove(PQ_Element*) decides that an element is in the queue.
abbrev pub contains : Queue → ℕ → Bool
contains q e = holds q q.heap_size e

-- Every element in the first bins knows its bin.
abbrev pub IsPlaced : Queue → ℕ → Type 0
IsPlaced q n = (i : ℕ) → i < n → (q.elements (ptr q i)).offset ≡ some i

unfoldable pub stored : Queue → ℕ → ℕ → Queue
stored q bin e = set_offset (record q { heap = set q.heap bin e }) e (some bin)

unfoldable pub swapped : Queue → ℕ → ℕ → Queue
swapped q i j = stored (stored q i (ptr q j)) j (ptr q i)

pub load-ok : (q : Queue) (i : ℕ) → i < length q.heap → load q i ≡ ok (ptr q i)
unfolding load ptr
load-ok q i h = rw (get_elem?-get_or q.heap i 0 h)

pub time_at-ok : (q : Queue) (i : ℕ) → i < length q.heap → time_at q i ≡ ok (key q i)
unfolding time_at key
time_at-ok q i h = rw (load-ok q i h)

pub set_element-ok :
    (q : Queue) (i e : ℕ) → i < length q.heap → set_element q i e ≡ ok (stored q i e)
unfolding set_element stored
set_element-ok q i e h = ground arith

pub length-stored : (q : Queue) (i e : ℕ) → length (stored q i e).heap ≡ length q.heap
unfolding stored set_offset
length-stored q i e = length-set q.heap i e

pub ptr-stored :
    (q : Queue) (i e c : ℕ)
    → i < length q.heap
    → ptr (stored q i e) c ≡ (if i == c then e else ptr q c)
unfolding stored set_offset ptr
ptr-stored q i e c h = get_or-set q.heap i c e 0 h

pub time-stored : (q : Queue) (i e x : ℕ) → ((stored q i e).elements x).time ≡ (q.elements x).time
unfolding stored set_offset
time-stored q i e x = ground arith

pub offset-stored :
    (q : Queue) (i e x : ℕ)
    → ((stored q i e).elements x).offset ≡ (if x == e then some i else (q.elements x).offset)
unfolding stored set_offset
offset-stored q i e x = ground arith

pub length-swapped : (q : Queue) (i j : ℕ) → length (swapped q i j).heap ≡ length q.heap
unfolding swapped
length-swapped q i j = simp length-stored

pub heap_size-swapped : (q : Queue) (i j : ℕ) → (swapped q i j).heap_size ≡ q.heap_size
unfolding swapped stored set_offset
heap_size-swapped q i j = refl

pub time-swapped : (q : Queue) (i j x : ℕ) → ((swapped q i j).elements x).time ≡ (q.elements x).time
unfolding swapped
time-swapped q i j x = simp time-stored

pub offset-swapped :
    (q : Queue) (i j x : ℕ)
    → ((swapped q i j).elements x).offset
      ≡ (if x == ptr q i then some j else if x == ptr q j then some i else (q.elements x).offset)
unfolding swapped
offset-swapped q i j x =
    ground
      (arith, offset-stored (stored q i (ptr q j)) j (ptr q i) x, offset-stored q i (ptr q j) x)

module _ (q : Queue) (i j : ℕ) (hi : i < length q.heap) (hj : j < length q.heap) where
  pub swap-ok : swap q i j ≡ ok (swapped q i j)
  unfolding swap swapped
  swap-ok = rw (
    load-ok q i hi,
    load-ok q j hj,
    ◌>>=◌,
    set_element-ok q i (ptr q j) hi,
    set_element-ok (stored q i (ptr q j)) j (ptr q i) (rw length-stored hj),
  )

  pub ptr-swapped :
      (c : ℕ)
      → ptr (swapped q i j) c ≡ (if j == c then ptr q i else if i == c then ptr q j else ptr q c)
  unfolding swapped
  ptr-swapped c = rw (
    ptr-stored (stored q i (ptr q j)) j (ptr q i) c (rw length-stored hj),
    ptr-stored q i (ptr q j) c hi,
  )

  pub key-swapped :
      (c : ℕ)
      → key (swapped q i j) c ≡ (if j == c then key q i else if i == c then key q j else key q c)
  unfolding key
  key-swapped c = ground (arith, ptr-swapped c, time-swapped q i j (ptr (swapped q i j) c))
