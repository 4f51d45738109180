-- ===== src/EntryList/Steps.antt =====
-- Sequences of operations of dict/List.h, against the list that the array stands for.
use zeek_snippets.Prelude.{
  ℕ, zero, suc, ◌+◌, ◌≤◌, ◌<◌, ◌≡◌, refl, sym, ap, ◌∙◌, Bool, true, false, List, [], ◌∷◌, ◌++◌,
  Option, none, some, length, get_or, arith, ◌==◌, Bool-cases, inl, inr,
}
use zeek_snippets.Run.{Run, ok, ◌>>=◌, Returns, returns, Returns-map, Returns-bind, Returns-if}
use zeek_snippets.EntryList.{EntryList, at, append, insert, remove_nth, find_from, remove}
use zeek_snippets.EntryList.Cells.{IsValid, item}
use zeek_snippets.EntryList.Delete.{at-item}
use zeek_snippets.EntryList.View.{
  elements, delete, without_first, Gives, length-elements, item-elements, append-Gives,
  insert-Gives, remove_nth-Gives,
}

module _ {A : Type 0} (blank : A) (eq : A → A → Bool) (a : A) where
  -- The search from `i` on gives the first place of an element that is equal to `a`.
  data First (l : EntryList A) (i : ℕ) : Option ℕ → Type 0 where
    here :
        {p : ℕ}
        → i ≤ p
        → p < l.num_entries
        → eq a (item blank l p) ≡ true
        → ((j : ℕ) → i ≤ j → j < p → eq a (item blank l j) ≡ false)
        → First l i (some p)
    nowhere : ((j : ℕ) → i ≤ j → j < l.num_entries → eq a (item blank l j) ≡ false) → First l i none

  further :
      (l : EntryList A) (i : ℕ)
      → eq a (item blank l i) ≡ false
      → {o : Option ℕ} → First l (i + 1) o
      → First l i o
  further l i off (here {p} low high on before) = here (omega arith) high on λ j q r.
      elim (Bool-cases (i == j)) [
        | inl at ↦ let same : i ≡ j = ground arith in rw same at off
        | inr away ↦ before j (ground arith) r
      ]
  further l i off (nowhere none_of) = nowhere λ j q r. elim (Bool-cases (i == j)) [
    | inl at ↦ let same : i ≡ j = ground arith in rw same at off
    | inr away ↦ none_of j (ground arith) r
  ]

  find_from-First :
      (k : ℕ) (l : EntryList A) (i : ℕ)
      → IsValid l
      → i + k ≡ l.num_entries
      → Returns (First l i) (find_from eq k l a i)
  unfolding find_from
  find_from-First zero l i v e = returns (nowhere λ j q r. absurd (omega arith))
  find_from-First (suc k) l i v e =
      rw (at-item blank l i v (omega arith), ◌>>=◌)
        (Returns-if (eq a (item blank l i))
          (λ on. returns (here (omega arith) (omega arith) on λ j q r. absurd (omega arith)))
          λ off. Returns-map (find_from-First k l (i + 1) v (omega arith)) λ o f. further l i off f)

  without_first-delete :
      (xs : List A) (p : ℕ)
      → p < length xs
      → eq a (get_or xs p blank) ≡ true
      → ((j : ℕ) → j < p → eq a (get_or xs j blank) ≡ false)
      → without_first eq a xs ≡ delete p xs
  unfolding get_or
  without_first-delete [] p h on before = absurd (omega arith)
  without_first-delete (x ∷ xs) zero h on before = rw on refl
  without_first-delete (x ∷ xs) (suc p) h on before = rw (before 0 (omega arith)) (
      ap (λ ys. x ∷ ys)
        (without_first-delete xs p (omega arith) on (λ j r. before (suc j) (omega arith))))

  without_first-none :
      (xs : List A)
      → ((j : ℕ) → j < length xs → eq a (get_or xs j blank) ≡ false)
      → without_first eq a xs ≡ xs
  unfolding get_or
  without_first-none [] none_of = refl
  without_first-none (x ∷ xs) none_of =
      rw (none_of 0 (omega arith))
        (ap (λ ys. x ∷ ys) (without_first-none xs (λ j r. none_of (suc j) (omega arith))))

  -- remove in a valid list does not fault: it takes the first element that is equal to `a` out, and
  -- changes nothing where there is none.
  pub remove-Gives :
      (l : EntryList A)
      → IsValid l
      → Returns
          (λ (r : Bool × EntryList A). Gives blank (without_first eq a (elements l)) r.1)
          (remove eq l a)
  unfolding remove
  remove-Gives l v =
      Returns-bind (find_from-First l.num_entries l 0 v (omega arith)) λ o f. removed o f
    where
      removed :
          (o : Option ℕ)
          → First l 0 o
          → Returns
              (λ (r : Bool × EntryList A). Gives blank (without_first eq a (elements l)) r.1)
              (elim o [
                | none ↦ ok (false, l)
                | some i ↦ remove_nth l i >>= λ (_, l'). ok (true, l')
              ])
      removed none (nowhere none_of) = returns (
        v,
        sym (
            without_first-none (elements l) λ j h.
              let inside : j < l.num_entries = omega (arith, length-elements blank l v) in
              rw (item-elements blank l v j inside) (none_of j (omega arith) inside)),
      )
      removed (some p) (here low high on before) =
          Returns-bind (remove_nth-Gives blank l p v high) λ r (w, e). returns (
            w,
            e
                ∙ sym (
                    without_first-delete (elements l) p (omega (arith, length-elements blank l v))
                      (rw (item-elements blank l v p high) on)
                      λ j h.
                        rw (item-elements blank l v j (omega arith)) (before j (omega arith) h)),
          )

-- The operations that change a list and have no assertion.
pub data Op (A : Type 0) : Type 0 where
  append_op insert_op remove_op : A → Op A

module _ {A : Type 0} (blank : A) (eq : A → A → Bool) where
  pub step : Op A → EntryList A → Run (EntryList A)
  step (append_op a) l = append blank l a
  step (insert_op a) l = insert blank l a
  step (remove_op a) l = do (_, l') ← remove eq l a; ok l'

  pub steps : List (Op A) → EntryList A → Run (EntryList A)
  steps [] l = ok l
  steps (o ∷ os) l = do l' ← step o l; steps os l'

  -- The same operations on a list.
  abbrev pub apply : Op A → List A → List A
  apply (append_op a) xs = xs ++ a ∷ []
  apply (insert_op a) xs = a ∷ xs
  apply (remove_op a) xs = without_first eq a xs

  abbrev pub apply_all : List (Op A) → List A → List A
  apply_all [] xs = xs
  apply_all (o ∷ os) xs = apply_all os (apply o xs)

  step-Gives :
      (o : Op A) (l : EntryList A)
      → IsValid l
      → Returns (Gives blank (apply o (elements l))) (step o l)
  unfolding step
  step-Gives (append_op a) l v = append-Gives blank l a v
  step-Gives (insert_op a) l v = insert-Gives blank l a v
  step-Gives (remove_op a) l v = Returns-bind (remove-Gives blank eq a l v) λ r g. returns g

  -- Any sequence of append, insert and remove, from any valid list, does not fault, and gives a valid
  -- list whose elements are those that the same operations on lists give: an element put behind the
  -- others or before them, and the first element that is equal to a given one taken out.
  pub steps-apply_all :
      (os : List (Op A)) (l : EntryList A)
      → IsValid l
      → Returns (λ r. IsValid r × (elements r ≡ apply_all os (elements l))) (steps os l)
  unfolding steps
  steps-apply_all [] l v = returns (v, refl)
  steps-apply_all (o ∷ os) l v =
      Returns-bind (step-Gives o l v) λ l' (v', e).
        Returns-map (steps-apply_all os l' v') λ r (w, f). (w, f ∙ ap (apply_all os) e)
