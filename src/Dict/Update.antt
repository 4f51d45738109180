-- ===== src/Dict/Update.antt =====
-- Construction, Insert, Remove, Clear and NthEntry of dict/OpenDict.cc, with the adjustment of the
-- robust cookies. Whether a key's memory is copied or deleted is not modelled.
pub mod Order
pub mod Unstarted
pub mod Inserted
use zeek_snippets.Prelude.{
  ℕ, ◌+◌, ◌-◌, ◌%◌, ◌^◌, Bool, true, false, ◌&&◌, ◌||◌, List, [], ◌∷◌, ◌++◌, Option, none, some,
  length, get_elem?, drop, replicate, ltb, leb, ◌==◌, if◌then◌else◌,
}
use zeek_snippets.Run.{Run, ok, fault, out_of_bounds, aborted, ◌>>=◌, ◌>>◌, cell, ensure}
use zeek_snippets.Dict.{
  DictEntry, IterCookie, Dictionary, make_entry, is_empty, same_entry, remapping, entry_at,
  write_at,
}
use zeek_snippets.Dict.Math.{log2, capacity, threshold_entries}
use zeek_snippets.Dict.Cluster.{
  tail_of_cluster_by_position, head_of_cluster_by_position, next_after,
}
use zeek_snippets.Dict.Relocate.{empty_entry, size_up, insert_relocating, remove_and_relocate}
use zeek_snippets.Dict.Remap.{remap}
use zeek_snippets.Dict.Lookup.{Search, found, absent, no_table, lookup_index}

-- Init
unfoldable pub init : Dictionary → Run Dictionary
init d = elim d.table [
  | some _ ↦ fault aborted
  | none ↦ ok (record d { table = some (replicate (capacity d true) empty_entry) })
]

abbrev pub empty_dictionary : Option (List DictEntry) → ℕ → Dictionary
empty_dictionary order log2_buckets = record {
  remaps = 0;
  log2_buckets = log2_buckets;
  num_iterators = 0;
  remap_end = none;
  num_entries = 0;
  max_entries = 0;
  cum_entries = 0;
  delete_func = false;
  table = none;
  cookies = none;
  order = order;
}

-- The constructor; an `initial_size` that is not positive is 0.
unfoldable pub new : Bool → ℕ → Run Dictionary
new ordered initial_size =
    let order : Option (List DictEntry) = if ordered then some [] else none in
    let sized : Run Dictionary = elim (log2 initial_size) [
      | none ↦ fault aborted
      | some bits ↦ init (empty_dictionary order (bits % 2 ^ 8))
    ] in
    if initial_size == 0 then ok (empty_dictionary order 0) else sized

unfoldable pub set_delete_func : Dictionary → Dictionary
set_delete_func d = record d { delete_func = true }

-- The values of the entries, from the last position to the first.
unfoldable pub values_down : List DictEntry → List ℕ
values_down [] = []
values_down (e ∷ t) = values_down t ++ (if is_empty e then [] else e.value ∷ [])

-- Clear: the dictionary after it, and the values that the delete function is called with.
unfoldable pub clear : Dictionary → Dictionary × List ℕ
clear d = (
  record d {
    table = none;
    order = none;
    cookies = none;
    log2_buckets = 0;
    num_iterators = 0;
    remaps = 0;
    remap_end = none;
    num_entries = 0;
    max_entries = 0;
  },
  elim d.table [ none ↦ [] | some t ↦ if d.delete_func then values_down t else [] ],
)

-- `i < c->next`, where `next` may be -1
abbrev pub before_next : ℕ → Option ℕ → Bool
before_next i none = false
before_next i (some n) = ltb i n

-- `i < c->next && c->next <= j`
abbrev pub next_between : ℕ → Option ℕ → ℕ → Option ℕ
next_between i none j = none
next_between i (some n) j = if ltb i n && leb n j then some n else none

unfoldable pub adjust_on_insert : Dictionary → DictEntry → ℕ → ℕ → IterCookie → Run IterCookie
adjust_on_insert d entry insert_position last_affected_position c =
    let c' =
      if before_next insert_position c.next
      then record c { inserted = c.inserted ++ entry ∷ [] }
      else c in
    elim (next_between insert_position c.next last_affected_position) [
      | none ↦ ok c'
      | some n ↦ do
        k ← tail_of_cluster_by_position d n
        e ← entry_at d k
        ok (record c' { visited = c'.visited ++ e ∷ [] })
    ]

unfoldable pub each_cookie : (IterCookie → Run IterCookie) → List IterCookie → Run (List IterCookie)
each_cookie f [] = ok []
each_cookie f (c ∷ cs) = do c' ← f c; cs' ← each_cookie f cs; ok (c' ∷ cs')

unfoldable pub adjust_cookies : (IterCookie → Run IterCookie) → Dictionary → Run Dictionary
adjust_cookies f d = elim d.cookies [
  | none ↦ ok d
  | some cs ↦ do cs' ← each_cookie f cs; ok (record d { cookies = some cs' })
]

unfoldable pub cover : Dictionary → ℕ → ℕ → Dictionary
cover d insert_position last = elim d.remap_end [
  | none ↦ d
  | some end ↦
      if leb insert_position end && ltb end last then record d { remap_end = some last } else d
]

-- The entry that the caller has after the call comes back with the dictionary.
unfoldable pub insert_relocate_and_adjust :
    Dictionary → DictEntry → ℕ → Run (Dictionary × DictEntry)
insert_relocate_and_adjust d entry insert_position = do
  (d₁, entry', last) ← insert_relocating d entry insert_position
  d₂ ←
      adjust_cookies (adjust_on_insert d₁ entry' insert_position last)
        (cover d₁ insert_position last)
  ok (d₂, entry')

-- `std::find`, and the assignment through the iterator, if it is not the end.
unfoldable pub assign_value : DictEntry → ℕ → List DictEntry → Option (List DictEntry)
assign_value e v [] = none
assign_value e v (x ∷ xs) =
    let rest : Option (List DictEntry) = elim (assign_value e v xs) [
      | none ↦ none
      | some ys ↦ some (x ∷ ys)
    ] in
    if same_entry x e then some (record x { value = v } ∷ xs) else rest

unfoldable pub assign_order :
    DictEntry → ℕ → Option (List DictEntry) → Run (Option (List DictEntry))
assign_order e v none = ok none
assign_order e v (some es) = elim (assign_value e v es) [
  | none ↦ fault aborted
  | some fs ↦ ok (some fs)
]

unfoldable pub assign_inserted : DictEntry → ℕ → IterCookie → IterCookie
assign_inserted e v c = elim (assign_value e v c.inserted) [
  | none ↦ c
  | some fs ↦ record c { inserted = fs }
]

-- Insert for a key that is there, at `position`.
unfoldable pub overwrite : Dictionary → ℕ → ℕ → Run (ℕ × Dictionary)
overwrite d position val = do
  e ← entry_at d position
  let e' = record e { value = val }
  d₁ ← write_at d position e'
  order ← assign_order e' val d₁.order
  d₂ ← adjust_cookies (λ c. ok (assign_inserted e' val c)) (record d₁ { order = order })
  ok (e.value, d₂)

unfoldable pub push_order : Option (List DictEntry) → DictEntry → Option (List DictEntry)
push_order none e = none
push_order (some es) e = some (es ++ e ∷ [])

-- The counters of Insert.
unfoldable pub count_inserted : Dictionary → Dictionary
count_inserted d =
    let n = d.num_entries + 1 in
    record d {
      num_entries = n;
      cum_entries = (d.cum_entries + 1) % 2 ^ 64;
      max_entries = if ltb d.max_entries n then n else d.max_entries;
    }

-- Insert for a key that is not there.
unfoldable pub insert_new : Dictionary → DictEntry → ℕ → Run Dictionary
insert_new d entry insert_position = do
  (d₁, entry') ← insert_relocate_and_adjust d entry insert_position
  let d₂ = count_inserted (record d₁ { order = push_order d₁.order entry' })
  if ltb (threshold_entries d₂) d₂.num_entries then size_up d₂ else ok d₂

-- `num_iterators == 0 || (cookies && cookies->size() == num_iterators)`
unfoldable pub only_robust : Dictionary → Bool
only_robust d =
    d.num_iterators == 0 || elim d.cookies [ none ↦ false | some cs ↦ length cs == d.num_iterators ]

unfoldable pub init_if_null : Dictionary → Run Dictionary
init_if_null d = elim d.table [ none ↦ init d | some _ ↦ ok d ]

unfoldable pub place : Search × Dictionary → List ℕ → ℕ → ℕ → ℕ → Run (ℕ × Dictionary)
place (found p, d) key key_size hash val = overwrite d p val
place (absent i dist, d) key key_size hash val = do
  d₁ ← insert_new d (make_entry key key_size hash val dist) i
  ok (0, d₁)
place (no_table, d) key key_size hash val = fault aborted

-- Insert: the value that was there, or the null pointer.
unfoldable pub insert : Dictionary → List ℕ → ℕ → ℕ → ℕ → Run (ℕ × Dictionary)
insert d key key_size hash val = do
  ensure (only_robust d)
  d₁ ← init_if_null d
  s ← lookup_index d₁ key key_size hash
  (v, d₂) ← place s key key_size hash val
  d₃ ← if remapping d₂ then remap d₂ else ok d₂
  ok (v, d₃)

-- `std::remove`: the elements that stay.
unfoldable pub keep_others : DictEntry → List DictEntry → List DictEntry
keep_others e [] = []
keep_others e (x ∷ xs) = if same_entry x e then keep_others e xs else x ∷ keep_others e xs

unfoldable pub adjust_on_remove : Dictionary → DictEntry → ℕ → ℕ → IterCookie → Run IterCookie
adjust_on_remove d entry position last_affected_position c = do
  let c₁ = record c { inserted = keep_others entry c.inserted }
  c₂ ← elim (next_between position c.next last_affected_position) [
    | none ↦ ok c₁
    | some n ↦ do
      head ← head_of_cluster_by_position d (n - 1)
      moved ← entry_at d (if ltb head position then position else head)
      ok (record c₁ { inserted = c₁.inserted ++ moved ∷ [] })
  ]
  -- `c->next` of -1 is below the capacity, and then `table[-1]` is read.
  elim c₂.next [
    | none ↦ fault out_of_bounds
    | some n ↦
        let skip : Run IterCookie = (do
          e ← entry_at d n
          n' ← next_after d (some n)
          ok (if is_empty e then record c₂ { next = some n' } else c₂)) in
        if ltb n (capacity d false) then skip else ok c₂
  ]

unfoldable pub remove_relocate_and_adjust : Dictionary → ℕ → Run (Dictionary × DictEntry)
remove_relocate_and_adjust d position = do
  (d₁, entry, last) ← remove_and_relocate d position
  d₂ ← adjust_cookies (adjust_on_remove d₁ entry position last) d₁
  ok (d₂, entry)

-- `order->erase(std::remove(...))` erases one element, behind those that stay.
unfoldable pub erase_order : DictEntry → List DictEntry → Run (List DictEntry)
erase_order e es =
    let stay = keep_others e es in
    if length stay == length es then fault out_of_bounds else ok (stay ++ drop (length stay + 1) es)

unfoldable pub erase_from_order :
    DictEntry → Option (List DictEntry) → Run (Option (List DictEntry))
erase_from_order e none = ok none
erase_from_order e (some es) = do fs ← erase_order e es; ok (some fs)

unfoldable pub remove_found : Dictionary → ℕ → Run (ℕ × Dictionary)
remove_found d position = do
  (d₁, entry) ← remove_relocate_and_adjust d position
  ensure (ltb 0 d₁.num_entries)
  order ← erase_from_order entry d₁.order
  ok (entry.value, record d₁ { num_entries = d₁.num_entries - 1; order = order })

-- Remove: the value that was there, or the null pointer. `dont_delete` is false, as asserted.
unfoldable pub remove : Dictionary → List ℕ → ℕ → ℕ → Run (ℕ × Dictionary)
remove d key key_size hash = do
  ensure (only_robust d)
  (s, d₁) ← lookup_index d key key_size hash
  elim s [ found p ↦ remove_found d₁ p | absent _ _ ↦ ok (0, d₁) | no_table ↦ ok (0, d₁) ]

-- NthEntry: the entry, or nothing for the null pointer.
unfoldable pub nth_entry : Dictionary → ℕ → Run (Option DictEntry)
nth_entry d n = elim d.order [
  | none ↦ ok none
  | some es ↦
      let there : Run (Option DictEntry) = (do e ← cell (get_elem? es n); ok (some e)) in
      if leb d.num_entries n then ok none else there
]
