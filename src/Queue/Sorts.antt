-- ===== src/Queue/Sorts.antt =====
-- A client of queue/PriorityQueue.cc that adds elements to a new queue, and takes them out again.
use zeek_snippets.Prelude.{
  ℕ, ◌+◌, ◌<◌, ◌≡◌, refl, ◌∙◌, true, false, ◌||◌, List, [], ◌∷◌, length, arith,
}
use zeek_snippets.Run.{Run, ok, ◌>>=◌, Returns, returns, Returns-map, Returns-bind}
use zeek_snippets.Queue.{Element, Queue, new, add}
use zeek_snippets.Queue.Memory.{contains}
use zeek_snippets.Queue.Order.{IsValid}
use zeek_snippets.Queue.Add.{new-IsValid, add_correct}
use zeek_snippets.Queue.Remove.Drain.{drain, listed, InOrder, InOrder-congr, drain_correct}

unfoldable pub add_all : List ℕ → Queue → Run Queue
add_all [] q = ok q
add_all (e ∷ es) q = do (_, q') ← add q e; add_all es q'

-- `n` is the size that the queue starts with.
unfoldable pub sort_by_queue : (ℕ → Element) → ℕ → List ℕ → Run (List ℕ)
sort_by_queue elements n es = do q ← add_all es (new elements n); drain (length es) q

abbrev pub AllDifferent : List ℕ → Type 0
AllDifferent [] = Unit {0}
AllDifferent (e ∷ es) = (listed es e ≡ false) × AllDifferent es

record Filled (q : Queue) (es : List ℕ) (r : Queue) : Type 0 where
  pub valid : IsValid r
  pub size : r.heap_size ≡ q.heap_size + length es
  pub held : (x : ℕ) → contains r x ≡ (listed es x || contains q x)
  pub times : (x : ℕ) → (r.elements x).time ≡ (q.elements x).time

add_all-Filled :
    (es : List ℕ) (q : Queue)
    → IsValid q
    → AllDifferent es
    → ((x : ℕ) → listed es x ≡ true → contains q x ≡ false)
    → Returns (Filled q es) (add_all es q)
unfolding add_all
add_all-Filled [] q v different fresh =
    returns (record { valid = v; size = omega arith; held = λ x. refl; times = λ x. refl })
add_all-Filled (e ∷ es) q v different fresh =
    Returns-bind (add_correct q e v (fresh e (ground arith))) λ (b, q') a.
      Returns-map
        (add_all-Filled es q' a.valid different.1
          (λ x h. ground (arith, a.held x, fresh x, h, different.0)))
        λ r f. record {
          valid = f.valid;
          size = omega (arith, f.size, a.size);
          held = λ x. ground (arith, f.held x, a.held x);
          times = λ x. f.times x ∙ a.times x;
        }

-- For different elements, a queue that starts with at least one cell, and as many calls of Add and
-- then of Remove() as there are elements: no call faults, however often the array is doubled, and
-- what is removed is exactly the elements, each once, in the order of their times.
pub sort_by_queue_correct :
    (elements : ℕ → Element) (n : ℕ) (es : List ℕ)
    → 0 < n
    → AllDifferent es
    → Returns
        (λ out.
          InOrder (λ x. (elements x).time) out
          × ((x : ℕ) → listed out x ≡ listed es x)
          × (length out ≡ length es))
        (sort_by_queue elements n es)
unfolding sort_by_queue
sort_by_queue_correct elements n es pos different =
    let (v, free) = new-IsValid elements n pos in
    Returns-bind (add_all-Filled es (new elements n) v different (λ x h. free x)) λ q f.
      Returns-map (drain_correct (length es) q f.valid (unfold new in omega (arith, f.size)))
        λ out (order, all, size). (
          InOrder-congr (λ x. (q.elements x).time) (λ x. (elements x).time)
              (λ x h. unfold new in f.times x) order,
          λ x. all x ∙ ground (arith, f.held x, free x),
          size,
        )
