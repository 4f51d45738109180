-- ===== src/Queue/Remove/Drain.antt =====
-- A client of queue/PriorityQueue.cc that calls Remove() until the queue is empty.
use zeek_snippets.Prelude.{
  ℕ, zero, suc, ◌≤◌, ◌≡◌, refl, ap, ◌∙◌, Bool, true, false, not, ◌&&◌, ◌||◌, List, [], ◌∷◌, Option,
  none, some, length, inl, inr, arith, ◌==◌,
}
use zeek_snippets.Run.{Run, ok, ◌>>=◌, Returns, returns, Returns-bind}
use zeek_snippets.Queue.{Queue, remove_top}
use zeek_snippets.Queue.Memory.{contains, holds}
use zeek_snippets.Queue.Order.{IsValid}
use zeek_snippets.Queue.Remove.{Removed}
use zeek_snippets.Queue.Remove.Top.{remove_top_correct}

-- What `k` calls of Remove() return.
unfoldable pub drain : ℕ → Queue → Run (List ℕ)
drain zero q = ok []
drain (suc k) q = do
  (first, q') ← remove_top q
  others ← drain k q'
  ok (elim first [ none ↦ others | some e ↦ e ∷ others ])

abbrev pub listed : List ℕ → ℕ → Bool
listed [] x = false
listed (e ∷ es) x = x == e || listed es x

-- The elements are different, and each has a time that is no later than those behind it.
pub data InOrder (time : ℕ → ℕ) : List ℕ → Type 0 where
  done : InOrder time []
  before :
      {e : ℕ} {es : List ℕ}
      → listed es e ≡ false
      → ((x : ℕ) → listed es x ≡ true → time e ≤ time x)
      → InOrder time es
      → InOrder time (e ∷ es)

pub InOrder-congr :
    (f g : ℕ → ℕ) {es : List ℕ}
    → ((x : ℕ) → listed es x ≡ true → f x ≡ g x)
    → InOrder f es
    → InOrder g es
InOrder-congr f g same done = done
InOrder-congr f g same (before {e} new least rest) =
    before new (λ x h. ground (arith, least x, same x, same e))
      (InOrder-congr f g (λ x h. same x (ground (arith, h))) rest)

module _ (q : Queue) (e : ℕ) (o : Option ℕ) (r : Queue) (d : Removed q e (o, r))
    (member : contains q e ≡ true) (es : List ℕ) (all : (x : ℕ) → listed es x ≡ contains r x) where
  others_listed : (x : ℕ) → listed es x ≡ (contains q x && not (x == e))
  others_listed x = all x ∙ d.held x

  listed-contains : (x : ℕ) → listed (e ∷ es) x ≡ contains q x
  listed-contains x = ground (arith, others_listed x, member)

  drained-InOrder :
      ((x : ℕ) → contains q x ≡ true → (q.elements e).time ≤ (q.elements x).time)
      → InOrder (λ x. (r.elements x).time) es
      → InOrder (λ x. (q.elements x).time) (e ∷ es)
  drained-InOrder least rest =
      before (ground (arith, others_listed e)) (λ x h. least x (ground (arith, h, others_listed x)))
        (InOrder-congr (λ x. (r.elements x).time) (λ x. (q.elements x).time)
          (λ x h. d.times x (λ same. ground (arith, h, same, others_listed x))) rest)

-- As many calls of Remove() as a valid queue has elements do not fault, and return exactly its
-- elements, each once, in the order of their times.
pub drain_correct :
    (k : ℕ) (q : Queue)
    → IsValid q
    → q.heap_size ≡ k
    → Returns
        (λ es.
          InOrder (λ x. (q.elements x).time) es
          × ((x : ℕ) → listed es x ≡ contains q x)
          × (length es ≡ k))
        (drain k q)
unfolding drain
drain_correct zero q v size = returns (done, (λ x. unfold holds in ground (arith, size)), refl)
drain_correct (suc k) q v size = elim (remove_top_correct q v) [
  | inl (empty, run) ↦ absurd (omega arith)
  | inr (e, member, least, taken) ↦ Returns-bind taken λ (o, r) d.
      Returns-bind (drain_correct k r d.valid (omega (arith, d.size))) λ es (order, all, n).
        rw d.first (
          returns (
            drained-InOrder q e o r d member es all least order,
            listed-contains q e o r d member es all,
            ap suc n,
          ))
]
