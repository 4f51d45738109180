-- ===== src/EntryList/View.antt =====
-- The list that an array of dict/List.h stands for, and the operations on it.
use zeek_snippets.Prelude.{
  ℕ, zero, suc, ◌+◌, ◌-◌, ◌<◌, ◌≡◌, refl, sym, ◌∙◌, Bool, List, [], ◌∷◌, ◌++◌, length, get_or, take,
  length-append, length-take, get_or-append, arith, ltb, ◌==◌, if◌then◌else◌, inl, inr,
}
use zeek_snippets.Run.{Returns, Returns-map}
use zeek_snippets.EntryList.{EntryList, append, insert, remove_nth}
use zeek_snippets.EntryList.Cells.{IsValid, item}
use zeek_snippets.EntryList.Insert.{Holds, append-Holds, insert-Holds}
use zeek_snippets.EntryList.Delete.{remove_nth-Without}

-- The elements, in order.
abbrev pub elements : {A : Type 0} → EntryList A → List A
elements l = take l.num_entries l.entries

module _ {A : Type 0} where
  abbrev pub delete : ℕ → List A → List A
  delete n [] = []
  delete zero (x ∷ xs) = xs
  delete (suc n) (x ∷ xs) = x ∷ delete n xs

  -- The list less the first element that is equal to `a`.
  abbrev pub without_first : (A → A → Bool) → A → List A → List A
  without_first eq a [] = []
  without_first eq a (x ∷ xs) = if eq a x then xs else x ∷ without_first eq a xs

module _ {A : Type 0} (blank : A) where
  -- Lists of one length with the same elements are equal.
  pub list_ext :
      (xs ys : List A)
      → length xs ≡ length ys
      → ((i : ℕ) → i < length xs → get_or xs i blank ≡ get_or ys i blank)
      → xs ≡ ys
  unfolding get_or
  list_ext [] [] e h = refl
  list_ext [] (y ∷ ys) e h = absurd (omega arith)
  list_ext (x ∷ xs) [] e h = absurd (omega arith)
  list_ext (x ∷ xs) (y ∷ ys) e h =
      let first = h 0 (omega arith) in
      let rest = list_ext xs ys (omega arith) (λ i q. h (suc i) (omega arith)) in cc

  pub get_or-take :
      (n : ℕ) (xs : List A) (i : ℕ) → i < n → get_or (take n xs) i blank ≡ get_or xs i blank
  unfolding get_or
  get_or-take zero xs i h = absurd (omega arith)
  get_or-take (suc n) [] i h = refl
  get_or-take (suc n) (x ∷ xs) zero h = refl
  get_or-take (suc n) (x ∷ xs) (suc i) h = get_or-take n xs i (omega arith)

  get_or-delete :
      (n : ℕ) (xs : List A) (i : ℕ)
      → get_or (delete n xs) i blank
        ≡ (if ltb i n then get_or xs i blank else get_or xs (suc i) blank)
  unfolding get_or
  get_or-delete n [] i = ground arith
  get_or-delete zero (x ∷ xs) i = ground arith
  get_or-delete (suc n) (x ∷ xs) zero = ground arith
  get_or-delete (suc n) (x ∷ xs) (suc i) = ground (arith, get_or-delete n xs i)

  length-delete : (n : ℕ) (xs : List A) → n < length xs → length (delete n xs) + 1 ≡ length xs
  length-delete n [] h = absurd (omega arith)
  length-delete zero (x ∷ xs) h = omega arith
  length-delete (suc n) (x ∷ xs) h = omega (arith, length-delete n xs (omega arith))

  module _ (l : EntryList A) (v : IsValid l) where
    pub length-elements : length (elements l) ≡ l.num_entries
    length-elements = omega (arith, length-take l.num_entries l.entries, v.cells, v.fits)

    -- A list with as many entries and the same items has these elements.
    pub elements-eq :
        (xs : List A)
        → length xs ≡ l.num_entries
        → ((i : ℕ) → i < l.num_entries → item blank l i ≡ get_or xs i blank)
        → elements l ≡ xs
    elements-eq xs e h = list_ext (elements l) xs (length-elements ∙ sym e) λ i q.
        let inside : i < l.num_entries = omega (arith, length-elements) in
        get_or-take l.num_entries l.entries i inside ∙ h i inside

    pub item-elements : (i : ℕ) → i < l.num_entries → get_or (elements l) i blank ≡ item blank l i
    item-elements i h = get_or-take l.num_entries l.entries i h

  -- The run ends with a valid list of these elements.
  abbrev pub Gives : List A → EntryList A → Type 0
  Gives xs r = IsValid r × (elements r ≡ xs)

  pub append-Gives :
      (l : EntryList A) (a : A)
      → IsValid l
      → Returns (Gives (elements l ++ a ∷ [])) (append blank l a)
  unfolding get_or
  append-Gives l a v = Returns-map (append-Holds blank l a v) λ r g. (
    g.valid,
    elements-eq r g.valid (elements l ++ a ∷ [])
        (omega (arith, length-append (elements l) (a ∷ []), length-elements l v, g.count))
        λ i h. ground (
          arith,
          g.items i h,
          get_or-append (elements l) (a ∷ []) i blank,
          length-elements l v,
          item-elements l v i,
          g.count,
        ),
  )

  pub insert-Gives :
      (l : EntryList A) (a : A) → IsValid l → Returns (Gives (a ∷ elements l)) (insert blank l a)
  unfolding get_or
  insert-Gives l a v = Returns-map (insert-Holds blank l a v) λ r g. (
    g.valid,
    elements-eq r g.valid (a ∷ elements l) (omega (arith, length-elements l v, g.count))
        λ i h. shifted r g i h,
  )
    where
      shifted :
          (r : EntryList A)
          → Holds blank l (λ i. (if i == 0 then a else item blank l (i - 1))) r
          → (i : ℕ) → i < r.num_entries
          → item blank r i ≡ get_or (a ∷ elements l) i blank
      shifted r g zero h = ground (arith, g.items 0 h)
      shifted r g (suc i) h =
          let back : suc i - 1 ≡ i = omega arith in
          ground (arith, g.items (suc i) h, back, item-elements l v i, g.count)

  pub remove_nth-Gives :
      (l : EntryList A) (n : ℕ)
      → IsValid l
      → n < l.num_entries
      → Returns (λ r. Gives (delete n (elements l)) r.1) (remove_nth l n)
  remove_nth-Gives l n v inside = elim (remove_nth-Without blank l n v) [
    | inl out ↦ absurd (omega (arith, out.0))
    | inr there ↦ Returns-map there.1 λ r w. (
      w.valid,
      elements-eq r.1 w.valid (delete n (elements l))
          (omega (
            arith,
            length-delete n (elements l) (omega (arith, length-elements l v)),
            length-elements l v,
            w.count,
          ))
          λ i h.
            let next : suc i ≡ i + 1 = omega arith in
            let moved = rw next at (get_or-delete n (elements l) i) in
            ground
              (arith, w.items i h, moved, item-elements l v i, item-elements l v (i + 1), w.count),
    )
  ]
