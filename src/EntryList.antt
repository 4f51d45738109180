-- ===== src/EntryList.antt =====
-- dict/List.h: the class `List`, an array of elements that grows by doubling. `blank` stands for what
-- a cell holds that was allocated and not written; no allocation fails.
pub mod Cells
pub mod Insert
pub mod Delete
pub mod Sorted
pub mod View
pub mod Steps
pub mod Tests
use zeek_snippets.Prelude.{
  ℕ, zero, suc, ◌+◌, ◌-◌, ◌*◌, Bool, true, false, List, [], ◌∷◌, ◌++◌, Option, none, some, length,
  get_elem?, set, take, replicate, ltb, leb, ◌==◌, if◌then◌else◌,
}
use zeek_snippets.Run.{Run, ok, fault, out_of_bounds, aborted, ◌>>=◌, ◌>>◌, cell, ensure}

-- `entries` has `max_entries` cells, the first `num_entries` of them in use.
pub record EntryList {ℓ} (A : Type ℓ) : Type ℓ where
  pub entries : List A
  pub max_entries : ℕ
  pub num_entries : ℕ

abbrev pub default_list_size : ℕ
default_list_size = 10

abbrev pub list_growth_factor : ℕ
list_growth_factor = 2

-- entries[i] = a
unfoldable pub write {ℓ} : {A : Type ℓ} → List A → ℕ → A → Run (List A)
write xs i a = if ltb i (length xs) then ok (set xs i a) else fault out_of_bounds

-- `for (i = n; i > 0; --i) entries[i] = entries[i - 1]`
unfoldable pub shift_up {ℓ} : {A : Type ℓ} → ℕ → List A → Run (List A)
shift_up zero xs = ok xs
shift_up (suc i) xs = do x ← cell (get_elem? xs i); ys ← write xs (suc i) x; shift_up i ys

-- `for (; n < num_entries; ++n) entries[n] = entries[n + 1]`, with `k` rounds left.
unfoldable pub shift_down {ℓ} : {A : Type ℓ} → ℕ → ℕ → List A → Run (List A)
shift_down zero n xs = ok xs
shift_down (suc k) n xs = do
  x ← cell (get_elem? xs (n + 1))
  ys ← write xs n x
  shift_down k (n + 1) ys

module _ {ℓ} {A : Type ℓ} where
  unfoldable pub length_of : EntryList A → ℕ
  length_of l = l.num_entries

  unfoldable pub max_of : EntryList A → ℕ
  max_of l = l.max_entries

  -- operator[]
  unfoldable pub at : EntryList A → ℕ → Run A
  at l i = cell (get_elem? l.entries i)

  -- clear
  unfoldable pub clear : EntryList A → EntryList A
  clear l = record { entries = []; max_entries = 0; num_entries = 0 }

  -- The move constructor: the new list, and what the old one becomes.
  unfoldable pub move : EntryList A → EntryList A × EntryList A
  move b = (b, clear b)

  -- last
  unfoldable pub last : EntryList A → Run A
  last l = if l.num_entries == 0 then fault out_of_bounds else at l (l.num_entries - 1)

  -- get
  unfoldable pub get : EntryList A → Run (A × EntryList A)
  get l = do
    ensure (ltb 0 l.num_entries)
    a ← at l (l.num_entries - 1)
    ok (a, record l { num_entries = l.num_entries - 1 })

  -- remove_nth
  unfoldable pub remove_nth : EntryList A → ℕ → Run (A × EntryList A)
  remove_nth l n = do
    ensure (ltb n l.num_entries)
    old_ent ← at l n
    let count = l.num_entries - 1
    xs ← shift_down (count - n) n l.entries
    ok (old_ent, record l { entries = xs; num_entries = count })

  -- pop_front; what it deletes, where elements are pointers.
  unfoldable pub pop_front : EntryList A → Run (A × EntryList A)
  pop_front l = remove_nth l 0

  module _ (eq : A → A → Bool) where
    -- The loops of remove and member_pos, from `i` with `k` elements left.
    unfoldable pub find_from : ℕ → EntryList A → A → ℕ → Run (Option ℕ)
    find_from zero l a i = ok none
    find_from (suc k) l a i = do
      x ← at l i
      let more = find_from k l a (i + 1)
      if eq a x then ok (some i) else more

    -- remove
    unfoldable pub remove : EntryList A → A → Run (Bool × EntryList A)
    remove l a = do
      found ← find_from l.num_entries l a 0
      elim found [ none ↦ ok (false, l) | some i ↦ do (_, l') ← remove_nth l i; ok (true, l') ]

    -- member_pos, with `none` for -1
    unfoldable pub member_pos : EntryList A → A → Run (Option ℕ)
    member_pos l e = find_from l.num_entries l e 0

    -- is_member
    unfoldable pub is_member : EntryList A → A → Run Bool
    is_member l a = do pos ← member_pos l a; ok (elim pos [ none ↦ false | some _ ↦ true ])

-- The operations that may allocate.
module _ {ℓ} {A : Type ℓ} (blank : A) where
  -- The constructor; a size that is not positive is 0.
  unfoldable pub new : ℕ → EntryList A
  new size = record { entries = replicate size blank; max_entries = size; num_entries = 0 }

  -- List(const T* arr, int n)
  unfoldable pub of_array : List A → EntryList A
  of_array arr = record { entries = arr; max_entries = length arr; num_entries = length arr }

  -- The copy constructor and the copy assignment of another list.
  unfoldable pub copy : EntryList A → EntryList A
  copy b = record b {
    entries = take b.num_entries b.entries ++ replicate (b.max_entries - b.num_entries) blank;
  }

  -- safe_realloc
  unfoldable pub realloc : ℕ → List A → List A
  realloc n xs = take n xs ++ replicate (n - length xs) blank

  -- resize; its result is `max_entries`
  unfoldable pub resize : EntryList A → ℕ → EntryList A
  resize l new_size =
      let n = if ltb new_size l.num_entries then l.num_entries else new_size in
      if n == l.max_entries then l else record l { entries = realloc n l.entries; max_entries = n }

  -- The first lines of insert, sortedinsert and append.
  unfoldable pub make_room : EntryList A → EntryList A
  make_room l =
      if l.num_entries == l.max_entries
      then resize l
          (if l.max_entries == 0 then default_list_size else l.max_entries * list_growth_factor)
      else l

  -- insert, at the head
  unfoldable pub insert : EntryList A → A → Run (EntryList A)
  insert l a = do
    let l₁ = make_room l
    xs ← shift_up l₁.num_entries l₁.entries
    ys ← write xs 0 a
    ok (record l₁ { entries = ys; num_entries = l₁.num_entries + 1 })

  -- append
  unfoldable pub append : EntryList A → A → Run (EntryList A)
  append l a = do
    let l₁ = make_room l
    xs ← write l₁.entries l₁.num_entries a
    ok (record l₁ { entries = xs; num_entries = l₁.num_entries + 1 })

  module _ (above : A → A → Bool) where
    -- The loop of sortedinsert; `above x y` is `cmp_func(x, y) > 0`.
    unfoldable pub sift : ℕ → List A → Run (List A)
    sift zero xs = ok xs
    sift (suc i) xs = do
      x ← cell (get_elem? xs (suc i))
      y ← cell (get_elem? xs i)
      let next = (do ys ← write xs (suc i) y; zs ← write ys i x; sift i zs)
      if above x y then next else ok xs

    -- sortedinsert
    unfoldable pub sortedinsert : EntryList A → A → Run (EntryList A)
    sortedinsert l a = do
      l₁ ← append l a
      xs ← sift (l₁.num_entries - 1) l₁.entries
      ok (record l₁ { entries = xs })

  -- `for (i = num_entries; i < max_entries; ++i) entries[i] = nullptr`
  unfoldable pub fill : ℕ → ℕ → A → List A → Run (List A)
  fill zero i null xs = ok xs
  fill (suc k) i null xs = do ys ← write xs i null; fill k (i + 1) null ys

  -- replace; a negative index returns the null value and changes nothing.
  unfoldable pub replace : EntryList A → ℕ → A → A → Run (A × EntryList A)
  replace l ent_index new_ent null =
      let beyond : Run (A × EntryList A) = (do
        let l₁ = resize l (ent_index + 1)
        xs ← fill (l₁.max_entries - l₁.num_entries) l₁.num_entries null l₁.entries
        ys ← write xs ent_index new_ent
        ok (null, record l₁ { entries = ys; num_entries = l₁.max_entries })) in
      let within : Run (A × EntryList A) = (do
        old_ent ← at l ent_index
        xs ← write l.entries ent_index new_ent
        ok (old_ent, record l { entries = xs })) in
      if ltb ent_index l.num_entries then within else beyond
