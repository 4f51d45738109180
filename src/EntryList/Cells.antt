-- ===== src/EntryList/Cells.antt =====
-- The cells of the array of dict/List.h: what a list holds, and what writes and the two shifting
-- loops do to the cells.
use zeek_snippets.Prelude.{
  ℕ, zero, suc, ◌+◌, ◌-◌, ◌*◌, ◌≤◌, ◌<◌, ◌≡◌, refl, ◌∙◌, false, List, [], ◌∷◌, length, get_elem?,
  set, take, replicate, length-set, length-append, length-take, length-replicate, get_or,
  get_or-set, get_or-append, get_elem?-get_or, arith, ltb, ◌==◌, if◌then◌else◌, Bool-cases, inl,
  inr,
}
use zeek_snippets.Run.{ok, cell, Returns, returns, Returns-map}
use zeek_snippets.EntryList.{EntryList, write, shift_up, shift_down, realloc, resize, make_room}

pub record IsValid {A : Type 0} (l : EntryList A) : Type 0 where
  pub cells : length l.entries ≡ l.max_entries
  pub fits : l.num_entries ≤ l.max_entries

module _ {A : Type 0} (blank : A) where
  -- The element with a number.
  abbrev pub item : EntryList A → ℕ → A
  item l i = get_or l.entries i blank

  pub write-ok : (xs : List A) (i : ℕ) (a : A) → i < length xs → write xs i a ≡ ok (set xs i a)
  unfolding write
  write-ok xs i a h = ground arith

  pub cell-ok :
      (xs : List A) (i : ℕ) → i < length xs → cell (get_elem? xs i) ≡ ok (get_or xs i blank)
  cell-ok xs i h = rw (get_elem?-get_or xs i blank h)

  -- The array with the cells below `n` moved up by one.
  abbrev pub IsShiftedUp : List A → ℕ → List A → Type 0
  IsShiftedUp xs n ys =
      (length ys ≡ length xs)
      × ((j : ℕ)
          → get_or ys j blank ≡ (
              if j == 0
              then get_or xs 0 blank
              else if ltb n j
              then get_or xs j blank
              else get_or xs (j - 1) blank))

  pub shift_up-IsShiftedUp :
      (n : ℕ) (xs : List A) → n < length xs → Returns (IsShiftedUp xs n) (shift_up n xs)
  unfolding shift_up
  shift_up-IsShiftedUp zero xs h = returns (refl, λ j. ground arith)
  shift_up-IsShiftedUp (suc n) xs h =
      let x = get_or xs n blank in
      let ys = set xs (suc n) x in
      rw (cell-ok xs n (omega arith), write-ok xs (suc n) x h)
        (Returns-map (shift_up-IsShiftedUp n ys (rw length-set (omega arith))) λ zs (width, at). (
          width ∙ length-set xs (suc n) x,
          λ j. ground (
            arith,
            at j,
            get_or-set xs (suc n) j x blank h,
            get_or-set xs (suc n) 0 x blank h,
            get_or-set xs (suc n) (j - 1) x blank h,
          ),
        ))

  -- The array with the cells above `n`, up to `n + k`, moved down by one.
  abbrev pub IsShiftedDown : List A → ℕ → ℕ → List A → Type 0
  IsShiftedDown xs n k ys =
      (length ys ≡ length xs)
      × ((j : ℕ)
          → get_or ys j blank ≡ (
              if ltb j n
              then get_or xs j blank
              else if ltb j (n + k)
              then get_or xs (j + 1) blank
              else get_or xs j blank))

  pub shift_down-IsShiftedDown :
      (k n : ℕ) (xs : List A)
      → n + k < length xs
      → Returns (IsShiftedDown xs n k) (shift_down k n xs)
  unfolding shift_down
  shift_down-IsShiftedDown zero n xs h = returns (refl, λ j. ground arith)
  shift_down-IsShiftedDown (suc k) n xs h =
      let x = get_or xs (n + 1) blank in
      let ys = set xs n x in
      let inside : n < length xs = omega arith in
      rw (cell-ok xs (n + 1) (omega arith), write-ok xs n x inside)
        (Returns-map (shift_down-IsShiftedDown k (n + 1) ys (rw length-set (omega arith)))
          λ zs (width, at). (
            width ∙ length-set xs n x,
            λ j. ground (
              arith,
              at j,
              get_or-set xs n j x blank inside,
              get_or-set xs n (j + 1) x blank inside,
            ),
          ))

  length-realloc : (n : ℕ) (xs : List A) → length (realloc blank n xs) ≡ n
  unfolding realloc
  length-realloc n xs = omega (
    arith,
    length-append (take n xs) (replicate (n - length xs) blank),
    length-take n xs,
    length-replicate (n - length xs) blank,
  )

  get_or-take :
      (n : ℕ) (xs : List A) (i : ℕ) → i < n → get_or (take n xs) i blank ≡ get_or xs i blank
  unfolding get_or
  get_or-take zero xs i h = absurd (omega arith)
  get_or-take (suc n) [] i h = refl
  get_or-take (suc n) (x ∷ xs) zero h = refl
  get_or-take (suc n) (x ∷ xs) (suc i) h = get_or-take n xs i (omega arith)

  get_or-realloc :
      (n : ℕ) (xs : List A) (i : ℕ)
      → i < n
      → i < length xs
      → get_or (realloc blank n xs) i blank ≡ get_or xs i blank
  unfolding realloc
  get_or-realloc n xs i h k = ground (
    arith,
    get_or-append (take n xs) (replicate (n - length xs) blank) i blank,
    length-take n xs,
    get_or-take n xs i h,
  )

  -- What growing keeps: the elements, with room for one more.
  pub record HasRoom (l r : EntryList A) : Type 0 where
    pub cells : length r.entries ≡ r.max_entries
    pub room : r.num_entries < r.max_entries
    pub same : r.num_entries ≡ l.num_entries
    pub items : (i : ℕ) → i < l.num_entries → item r i ≡ item l i

  pub make_room-HasRoom : (l : EntryList A) → IsValid l → HasRoom l (make_room blank l)
  unfolding make_room resize
  make_room-HasRoom l v = elim (Bool-cases (l.num_entries == l.max_entries)) [
    | inr room ↦ rw room (record {
      cells = v.cells;
      room = ground (arith, v.fits);
      same = refl;
      items = λ i h. refl;
    })
    | inl full ↦
        rw full (grown (if l.max_entries == 0 then 10 else l.max_entries * 2) (ground arith))
  ]
    where
      grown : (n : ℕ) → l.max_entries < n → HasRoom l (resize blank l n)
      grown n h =
          let wide : ltb n l.num_entries ≡ false = ground (arith, v.fits) in
          let more : (n == l.max_entries) ≡ false = ground arith in
          rw (wide, more)
            (record {
              cells = length-realloc n l.entries;
              room = omega (arith, v.fits);
              same = refl;
              items = λ i p.
                  get_or-realloc n l.entries i (omega (arith, v.fits))
                    (omega (arith, v.fits, v.cells));
            })
