-- ===== src/Dict/Iterate.antt =====
-- Iteration in dict/OpenDict.cc. A cookie that is robust is one of `cookies`; another one is the
-- client's alone. A cookie that is deleted is `none`.
pub mod Visits
pub mod Examples
use zeek_snippets.Prelude.{
  ℕ, zero, suc, ◌+◌, ◌-◌, ◌%◌, ◌^◌, true, false, not, List, [], ◌∷◌, ◌++◌, Option, none, some,
  length, ltb, leb, ◌==◌, if◌then◌else◌,
}
use zeek_snippets.Run.{Run, ok, out_of_fuel, ◌>>=◌, ◌>>◌, cell, ensure}
use zeek_snippets.Dict.{DictEntry, IterCookie, Dictionary, is_empty, same_entry, entry_at}
use zeek_snippets.Dict.Math.{capacity}
use zeek_snippets.Dict.Cluster.{next_after}

-- InitForIteration, with the identity of the new object; `num_iterators` is an unsigned short.
unfoldable pub init_for_iteration : Dictionary → ℕ → Dictionary × IterCookie
init_for_iteration d id = (
  record d { num_iterators = (d.num_iterators + 1) % 2 ^ 16 },
  record { id = id; robust = false; next = none; inserted = []; visited = [] },
)

-- MakeRobustCookie
unfoldable pub make_robust_cookie : Dictionary → IterCookie → Run (Dictionary × IterCookie)
make_robust_cookie d c = do
  ensure (elim c.next [ none ↦ true | some _ ↦ false ])
  let c' = record c { robust = true; inserted = []; visited = [] }
  let cs : List IterCookie = elim d.cookies [ none ↦ [] | some cs ↦ cs ]
  ok (record d { cookies = some (cs ++ c' ∷ []) }, c')

unfoldable pub without : ℕ → List IterCookie → List IterCookie
without id [] = []
without id (c ∷ cs) = if c.id == id then without id cs else c ∷ without id cs

-- The destructor of a cookie.
unfoldable pub delete_cookie : Dictionary → IterCookie → Run Dictionary
delete_cookie d c =
    let unlist : Run Dictionary = (do
      cs ← cell d.cookies
      ok (record d { cookies = some (without c.id cs) })) in
    if c.robust then unlist else ok d

abbrev pub fewer_iterators : Dictionary → Dictionary
fewer_iterators d = record d { num_iterators = d.num_iterators - 1 }

-- StopIteration
unfoldable pub stop_iteration : Dictionary → IterCookie → Run Dictionary
stop_iteration d c = do ensure (ltb 0 d.num_iterators); delete_cookie (fewer_iterators d) c

unfoldable pub replaced : IterCookie → List IterCookie → List IterCookie
replaced c [] = []
replaced c (x ∷ xs) = (if x.id == c.id then c else x) ∷ replaced c xs

-- The cookie object as the dictionary sees it.
unfoldable pub write_cookie : Dictionary → IterCookie → Dictionary
write_cookie d c = record d {
  cookies = elim d.cookies [ none ↦ none | some cs ↦ some (replaced c cs) ];
}

unfoldable pub last_of : List DictEntry → Option (List DictEntry × DictEntry)
last_of [] = none
last_of (e ∷ []) = some ([], e)
last_of (e ∷ f ∷ es) = elim (last_of (f ∷ es)) [ none ↦ none | some (init, x) ↦ some (e ∷ init, x) ]

-- `visited->erase(it)`, if the entry is there.
unfoldable pub erase_visited : DictEntry → List DictEntry → Option (List DictEntry)
erase_visited e [] = none
erase_visited e (x ∷ xs) =
    let rest : Option (List DictEntry) = elim (erase_visited e xs) [
      | none ↦ none
      | some ys ↦ some (x ∷ ys)
    ] in
    if same_entry x e then some xs else rest

-- `while (c->next < capacity)`, at the position `n`; each round erases a visited entry.
unfoldable pub skip_visited : ℕ → Dictionary → ℕ → List DictEntry → Run (ℕ × List DictEntry)
skip_visited zero d n visited = out_of_fuel
skip_visited (suc k) d n visited =
    let round : Run (ℕ × List DictEntry) = (do
      e ← entry_at d n
      ensure (not (is_empty e))
      elim (erase_visited e visited) [
        | none ↦ ok (n, visited)
        | some rest ↦ do n' ← next_after d (some n); skip_visited k d n' rest
      ]) in
    if ltb n (capacity d false) then round else ok (n, visited)

-- The test that the next entry is not empty; it may only be met in a resize, and it asserts that not.
unfoldable pub check_next : Dictionary → ℕ → Run (Unit {0})
check_next d n =
    let there : Run (Unit {0}) = (do e ← entry_at d n; ensure (not (is_empty e))) in
    if ltb n (capacity d false) then there else ok tt

abbrev pub Step : Type 0
Step = Option DictEntry × Option IterCookie × Dictionary

-- The end of the iteration: the cookie is deleted.
unfoldable pub finish : Dictionary → IterCookie → Run Step
finish d c = do d₁ ← delete_cookie (fewer_iterators d) c; ok (none, none, d₁)

-- The part of NextEntry behind the entries that were inserted.
unfoldable pub next_from_table : Dictionary → IterCookie → Run Step
next_from_table d c = do
  n₀ ← elim c.next [ none ↦ next_after d none | some n ↦ ok n ]
  check_next d n₀
  (n, visited) ← skip_visited (length c.visited + 1) d n₀ c.visited
  let c₁ = record c { next = some n; visited = visited }
  let entry : Run Step = (do
    e ← entry_at d n
    ensure (not (is_empty e))
    n' ← next_after d (some n)
    let c₂ = record c₁ { next = some n' }
    ok (some e, some c₂, write_cookie d c₂))
  if leb (capacity d false) n then finish d c₁ else entry

-- NextEntry: the entry whose value and key are returned, the cookie and the dictionary.
unfoldable pub next_entry : Dictionary → IterCookie → Run Step
next_entry d c = elim d.table [
  | none ↦ finish d c
  | some _ ↦ elim (last_of c.inserted) [
    | some (rest, e) ↦
        let c' = record c { inserted = rest } in ok (some e, some c', write_cookie d c')
    | none ↦ next_from_table d c
  ]
]
