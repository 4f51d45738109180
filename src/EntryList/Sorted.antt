-- ===== src/EntryList/Sorted.antt =====
-- sortedinsert of dict/List.h.
use zeek_snippets.Prelude.{
  ℕ, zero, suc, ◌+◌, ◌-◌, ◌≤◌, ◌<◌, ◌≡◌, refl, ◌∙◌, Bool, true, false, List, length, get_or, set,
  length-set, get_or-set, arith, ltb, leb, ◌==◌, if◌then◌else◌, Bool-cases, inl, inr,
}
use zeek_snippets.Run.{Returns, returns, Returns-map, Returns-bind, Returns-if}
use zeek_snippets.EntryList.{EntryList, sift, sortedinsert}
use zeek_snippets.EntryList.Cells.{IsValid, item, write-ok, cell-ok}
use zeek_snippets.EntryList.Insert.{Holds, append-Holds}

module _ {A : Type 0} (blank : A) (above : A → A → Bool) where
  -- The element at `i` of `xs` has moved down to `p`, past those that it is above.
  record Sifted (xs : List A) (i : ℕ) (ys : List A) : Type 0 where
    pub p : ℕ
    pub low : p ≤ i
    pub width : length ys ≡ length xs
    pub cells :
        (j : ℕ)
        → get_or ys j blank ≡ (
            if ltb j p
            then get_or xs j blank
            else if j == p
            then get_or xs i blank
            else if leb j i
            then get_or xs (j - 1) blank
            else get_or xs j blank)
    pub passed : (j : ℕ) → p ≤ j → j < i → above (get_or xs i blank) (get_or xs j blank) ≡ true
    pub stop : 0 < p → above (get_or xs i blank) (get_or xs (p - 1) blank) ≡ false

  module _ (xs : List A) (i : ℕ) (h : suc i < length xs) where
    abbrev x : A
    x = get_or xs (suc i) blank

    abbrev y : A
    y = get_or xs i blank

    abbrev swapped : List A
    swapped = set (set xs (suc i) y) i x

    swapped-at :
        (j : ℕ)
        → get_or swapped j blank
          ≡ (if i == j then x else if suc i == j then y else get_or xs j blank)
    swapped-at j = ground (
      arith,
      get_or-set xs (suc i) j y blank h,
      get_or-set (set xs (suc i) y) i j x blank (omega (arith, length-set xs (suc i) y)),
    )

    swapped-Sifted : {zs : List A} → above x y ≡ true → Sifted swapped i zs → Sifted xs (suc i) zs
    swapped-Sifted on s =
        let top : get_or swapped i blank ≡ x = ground (arith, swapped-at i) in
        record {
          p = s.p;
          low = omega (arith, s.low);
          width = s.width ∙ length-set (set xs (suc i) y) i x ∙ length-set xs (suc i) y;
          cells = λ j. ground (arith, s.cells j, s.low, swapped-at j, swapped-at (j - 1), top);
          passed = λ j low high. elim (Bool-cases (j == i)) [
            | inl at ↦ let same : j ≡ i = ground arith in rw same on
            | inr below ↦
                let here : get_or swapped j blank ≡ get_or xs j blank =
                  ground (arith, swapped-at j, high, below) in
                let past = s.passed j low (ground (arith, high, below)) in rw (top, here) at past
          ];
          stop = λ pos.
              let here : get_or swapped (s.p - 1) blank ≡ get_or xs (s.p - 1) blank =
                ground (arith, swapped-at (s.p - 1), s.low, pos) in
              let stopped = s.stop pos in rw (top, here) at stopped;
        }

  sift-Sifted :
      (i : ℕ) (xs : List A) → i < length xs → Returns (Sifted xs i) (sift blank above i xs)
  unfolding sift
  sift-Sifted zero xs h = returns (record {
    p = 0;
    low = omega arith;
    width = refl;
    cells = λ j. ground arith;
    passed = λ j q r. absurd (omega arith);
    stop = λ q. absurd (omega arith);
  })
  sift-Sifted (suc i) xs h =
      let v = get_or xs i blank in
      let wide : i < length (set xs (suc i) v) = omega (arith, length-set xs (suc i) v) in
      rw (cell-ok blank xs (suc i) h, cell-ok blank xs i (omega arith))
        (Returns-if (above (x xs i h) (y xs i h))
          (λ on.
            rw
              (
                write-ok blank xs (suc i) (y xs i h) h,
                write-ok blank (set xs (suc i) v) i (x xs i h) wide,
              )
              (Returns-map
                (sift-Sifted i (swapped xs i h)
                  (omega (arith, length-set (set xs (suc i) v) i (x xs i h))))
                λ zs s. swapped-Sifted xs i h on s))
          λ off. returns (record {
            p = suc i;
            low = omega arith;
            width = refl;
            cells = λ j. ground arith;
            passed = λ j q r. absurd (omega arith);
            stop = λ q. let at : suc i - 1 ≡ i = omega arith in rw at off;
          }))

  -- No element is above the one before it.
  abbrev pub IsFalling : EntryList A → Type 0
  IsFalling l =
      (i : ℕ) → suc i < l.num_entries → above (item blank l (suc i)) (item blank l i) ≡ false

  -- `r` has the elements of `l` in their order, and `a` at `p` among them.
  pub record Placed (l : EntryList A) (a : A) (r : EntryList A) : Type 0 where
    pub valid : IsValid r
    pub falling : IsFalling r
    pub count : r.num_entries ≡ l.num_entries + 1
    pub p : ℕ
    pub low : p ≤ l.num_entries
    pub items :
        (i : ℕ)
        → i < r.num_entries
        → item blank r i
          ≡ (if ltb i p then item blank l i else if i == p then a else item blank l (i - 1))

  module _ (asym : (x y : A) → above x y ≡ true → above y x ≡ false) (l : EntryList A) (a : A)
      (falling : IsFalling l) (l₁ : EntryList A)
      (g : Holds blank l (λ i. (if i == l.num_entries then a else item blank l i)) l₁) (ys : List A)
      (s : Sifted l₁.entries (l₁.num_entries - 1) ys) where
    abbrev placed : EntryList A
    placed = record l₁ { entries = ys }

    top : get_or l₁.entries (l₁.num_entries - 1) blank ≡ a
    top = ground (arith, g.items (l₁.num_entries - 1), g.count)

    below : (j : ℕ) → j < l.num_entries → get_or l₁.entries j blank ≡ item blank l j
    below j h = ground (arith, g.items j, g.count)

    placed-items :
        (i : ℕ)
        → i < l.num_entries + 1
        → get_or ys i blank
          ≡ (if ltb i s.p then item blank l i else if i == s.p then a else item blank l (i - 1))
    placed-items i h = ground (arith, s.cells i, s.low, top, below i, below (i - 1), g.count)

    placed-IsFalling : IsFalling placed
    placed-IsFalling i h =
        let inside : i < l.num_entries = omega (arith, g.count) in
        let back : suc i - 1 ≡ i = omega arith in
        let second = rw back at (placed-items (suc i) (omega arith)) in
        let first = placed-items i (omega arith) in
        elim (Bool-cases (ltb (suc i) s.p)) [
          | inl before ↦
              let u : get_or ys (suc i) blank ≡ item blank l (suc i) =
                ground (arith, second, before) in
              let v : get_or ys i blank ≡ item blank l i = ground (arith, first, before) in
              rw (u, v) (falling i (ground (arith, before, s.low, g.count)))
          | inr later ↦ elim (Bool-cases (suc i == s.p)) [
            | inl at ↦
                let u : get_or ys (suc i) blank ≡ a = ground (arith, second, later, at) in
                let v : get_or ys i blank ≡ item blank l i = ground (arith, first, at) in
                let here : s.p - 1 ≡ i = ground (arith, at) in
                let stopped = rw (top, here, below i inside) at (s.stop (ground (arith, at))) in
                rw (u, v) stopped
            | inr past ↦ elim (Bool-cases (i == s.p)) [
              | inl at ↦
                  let u : get_or ys (suc i) blank ≡ item blank l i =
                    ground (arith, second, later, past) in
                  let v : get_or ys i blank ≡ a = ground (arith, first, at) in
                  let passed = s.passed i (ground (arith, at)) (omega (arith, g.count)) in
                  rw (u, v) (asym a (item blank l i) (rw (top, below i inside) at passed))
              | inr away ↦
                  let k = i - 1 in
                  let next : suc k ≡ i = ground (arith, later, past, away) in
                  let u : get_or ys (suc i) blank ≡ item blank l i =
                    ground (arith, second, later, past) in
                  let v : get_or ys i blank ≡ item blank l k =
                    ground (arith, first, later, past, away) in
                  let fell = rw next at (falling k (rw next inside)) in rw (u, v) fell
            ]
          ]
        ]

    placed-Placed : Placed l a placed
    placed-Placed = record {
      valid = record { cells = s.width ∙ g.valid.cells; fits = g.valid.fits };
      falling = placed-IsFalling;
      count = g.count;
      p = s.p;
      low = omega (arith, s.low, g.count);
      items = λ i h. placed-items i (omega (arith, g.count));
    }

  -- sortedinsert into a valid list in which no element is above the one before it, by a comparison
  -- that puts no two elements above each other, does not fault: the list gets `a` among its
  -- elements, which keep their order, and still no element is above the one before it.
  pub sortedinsert-Placed :
      (l : EntryList A) (a : A)
      → ((x y : A) → above x y ≡ true → above y x ≡ false)
      → IsValid l
      → IsFalling l
      → Returns (Placed l a) (sortedinsert blank above l a)
  unfolding sortedinsert
  sortedinsert-Placed l a asym v falling = Returns-bind (append-Holds blank l a v) λ l₁ g.
      Returns-bind
        (sift-Sifted (l₁.num_entries - 1) l₁.entries
          (omega (arith, g.valid.cells, g.valid.fits, g.count)))
        λ ys s. returns (placed-Placed asym l a falling l₁ g ys s)
