-- ===== src/Dict/Iterate/Visits.antt =====
-- A client of dict/OpenDict.cc that calls NextEntry until the end of the iteration.
use zeek_snippets.Prelude.{
  ℕ, zero, suc, ◌+◌, ◌-◌, ◌^◌, ◌≤◌, ◌<◌, ◌≡◌, refl, sym, subst, ◌∙◌, true, false, List, [], ◌∷◌,
  none, some, length, drop, get_or, ltb, leb, arith, if◌then◌else◌, Bool-cases, inl, inr,
}
use zeek_snippets.Run.{
  Run, ok, out_of_fuel, ◌>>=◌, Returns, returns, Returns-inv, Returns-map, Returns-bind, Returns-if,
}
use zeek_snippets.Dict.{DictEntry, IterCookie, Dictionary, is_empty}
use zeek_snippets.Dict.Cluster.{next_loop, next_after}
use zeek_snippets.Dict.Cluster.Order.{slot, IsFull, HasTable, capacity-HasTable, entry_at-slot}
use zeek_snippets.Dict.Iterate.{
  init_for_iteration, write_cookie, delete_cookie, fewer_iterators, erase_visited, skip_visited,
  check_next, finish, next_from_table, last_of, next_entry,
}

-- `while ( (v = dict->NextEntry(h, c)) )`: the entries returned, and the dictionary at the end.
unfoldable pub iterate : ℕ → Dictionary → IterCookie → Run (List DictEntry × Dictionary)
iterate zero d c = out_of_fuel
iterate (suc k) d c = do
  (e, c', d') ← next_entry d c
  elim e [
    | none ↦ ok ([], d')
    | some x ↦ elim c' [
      | none ↦ ok (x ∷ [], d')
      | some c'' ↦ do (xs, d'') ← iterate k d' c''; ok (x ∷ xs, d'')
    ]
  ]

-- The entries of a table, in the order of their positions.
abbrev pub entries : List DictEntry → List DictEntry
entries [] = []
entries (x ∷ t) = if is_empty x then entries t else x ∷ entries t

drop-slot : (t : List DictEntry) (i : ℕ) → i < length t → drop i t ≡ slot t i ∷ drop (suc i) t
unfolding get_or
drop-slot [] i h = absurd (omega arith)
drop-slot (x ∷ t) zero h = refl
drop-slot (x ∷ t) (suc i) h = drop-slot t i (omega arith)

drop_end : (t : List DictEntry) (i : ℕ) → length t ≤ i → drop i t ≡ []
drop_end [] zero h = refl
drop_end [] (suc i) h = refl
drop_end (x ∷ t) zero h = absurd (omega arith)
drop_end (x ∷ t) (suc i) h = drop_end t i (omega arith)

-- `n` is the next position from `i` on that is not empty, or the end.
record NextAt (t : List DictEntry) (i n : ℕ) : Type 0 where
  pub low : i ≤ n
  pub high : n ≤ length t
  pub full : n < length t → IsFull t n
  pub same : entries (drop i t) ≡ entries (drop n t)

next_loop-NextAt :
    (k : ℕ) (d : Dictionary) (t : List DictEntry) (i : ℕ)
    → HasTable d t
    → i + k ≡ length t
    → Returns (NextAt t i) (next_loop k d i)
unfolding next_loop
next_loop-NextAt zero d t i table size = returns (record {
  low = omega arith;
  high = omega arith;
  full = λ h. absurd (omega arith);
  same = refl;
})
next_loop-NextAt (suc k) d t i table size = rw (entry_at-slot d t i table (omega arith)) (
    Returns-if (is_empty (slot t i))
      (λ clear. Returns-map (next_loop-NextAt k d t (i + 1) table (omega arith)) λ n a. record {
        low = omega (arith, a.low);
        high = a.high;
        full = a.full;
        same =
            let at : i + 1 ≡ suc i = omega arith in
            let rest = subst (λ x. entries (drop x t) ≡ entries (drop n t)) at a.same in
            rw (drop-slot t i (omega arith), clear) rest;
      })
      (λ full.
        returns (record { low = omega arith; high = omega arith; full = λ h. full; same = refl })))

-- Where NextEntry starts.
abbrev start : Dictionary → IterCookie → Run ℕ
start d c = elim c.next [ none ↦ next_after d none | some n ↦ ok n ]

-- A cookie of one iteration that is not robust.
record IsPlain (c : IterCookie) : Type 0 where
  pub robust : c.robust ≡ false
  pub inserted : c.inserted ≡ []
  pub visited : c.visited ≡ []
  -- What is left of the iteration from the position `i` on.

record Left (d : Dictionary) (t : List DictEntry) (i : ℕ) (r : List DictEntry × Dictionary)
    : Type 0 where
  pub visits : r.0 ≡ entries (drop i t)
  pub table : r.1.table ≡ d.table
  pub iterators : r.1.num_iterators ≡ d.num_iterators - 1

check_next-ok :
    (d : Dictionary) (t : List DictEntry) (i n : ℕ)
    → HasTable d t
    → NextAt t i n
    → check_next d n ≡ ok tt
unfolding check_next
check_next-ok d t i n table a =
    rw (capacity-HasTable d t table) (elim (Bool-cases (ltb n (length t))) [
      | inr end ↦ rw end refl
      | inl inside ↦
          let h : n < length t = ground arith in
          rw (inside, entry_at-slot d t n table h, ◌>>=◌, a.full h) refl
    ])

skip_visited-ok :
    (d : Dictionary) (t : List DictEntry) (i n : ℕ)
    → HasTable d t
    → NextAt t i n
    → skip_visited 1 d n [] ≡ ok (n, [])
unfolding skip_visited erase_visited
skip_visited-ok d t i n table a =
    rw (capacity-HasTable d t table) (elim (Bool-cases (ltb n (length t))) [
      | inr end ↦ rw end refl
      | inl inside ↦
          let h : n < length t = ground arith in
          rw (inside, entry_at-slot d t n table h, ◌>>=◌, a.full h) refl
    ])

module _ (d : Dictionary) (t : List DictEntry) (c : IterCookie) (table : HasTable d t)
    (plain : IsPlain c) (i n : ℕ) (from : start d c ≡ ok n) (a : NextAt t i n) where
  next_entry-from : next_entry d c ≡ next_from_table d c
  unfolding next_entry last_of
  next_entry-from = rw (table.at, plain.inserted) refl

  abbrev at_next : IterCookie
  at_next = record c { next = some n; visited = [] }

  next_entry-end : n ≡ length t → next_entry d c ≡ ok (none, none, fewer_iterators d)
  unfolding next_from_table finish delete_cookie
  next_entry-end end =
      let over : leb (length t) n ≡ true = ground arith in
      next_entry-from
      ∙ rw
          (
            from,
            ◌>>=◌,
            check_next-ok d t i n table a,
            plain.visited,
            skip_visited-ok d t i n table a,
            capacity-HasTable d t table,
            over,
            plain.robust,
          )
          refl

  next_entry-entry :
      (n' : ℕ)
      → n < length t
      → next_after d (some n) ≡ ok n'
      → next_entry d c
        ≡ ok (
          some (slot t n),
          some (record at_next { next = some n' }),
          write_cookie d (record at_next { next = some n' }),
        )
  unfolding next_from_table
  next_entry-entry n' h after =
      let more : leb (length t) n ≡ false = ground arith in
      next_entry-from
      ∙ rw
          (
            from,
            ◌>>=◌,
            check_next-ok d t i n table a,
            plain.visited,
            skip_visited-ok d t i n table a,
            capacity-HasTable d t table,
            more,
            entry_at-slot d t n table h,
            a.full h,
            after,
          )
          refl

iterate-Left :
    (k : ℕ) (d : Dictionary) (t : List DictEntry) (c : IterCookie) (i n : ℕ)
    → HasTable d t
    → IsPlain c
    → start d c ≡ ok n
    → NextAt t i n
    → length t < n + k
    → Returns (Left d t i) (iterate k d c)
unfolding iterate
iterate-Left zero d t c i n table plain from a fuel = absurd (omega (arith, a.high))
iterate-Left (suc k) d t c i n table plain from a fuel = elim (Bool-cases (ltb n (length t))) [
  | inr end ↦
      let over : n ≡ length t = ground (arith, a.high) in
      rw (next_entry-end d t c table plain i n from a over) (
        returns (record {
          visits = sym (a.same ∙ rw (drop_end t n (omega arith)) refl);
          table = refl;
          iterators = refl;
        }))
  | inl inside ↦
      let h : n < length t = ground arith in
      let (n', after, b) =
        Returns-inv (next_loop-NextAt (length t - (n + 1)) d t (n + 1) table (omega arith)) in
      let next : next_after d (some n) ≡ ok n' =
        unfold next_after in rw (capacity-HasTable d t table, inside) after in
      let c' = record (at_next d t c table plain i n from a) { next = some n' } in
      let d' = write_cookie d c' in
      let table' : HasTable d' t =
        unfold write_cookie in record { at = table.at; cells = table.cells } in
      rw (next_entry-entry d t c table plain i n from a n' h next) (
        Returns-bind
          (iterate-Left k d' t c' n' n' table'
            (record { robust = plain.robust; inserted = plain.inserted; visited = refl }) refl
            (record { low = omega arith; high = b.high; full = b.full; same = refl })
            (omega (arith, b.low)))
          λ r l. returns (record {
            visits =
                let at : n + 1 ≡ suc n = omega arith in
                let rest = subst (λ x. entries (drop x t) ≡ entries (drop n' t)) at b.same in
                sym (a.same ∙ rw (drop-slot t n h, a.full h, rest, l.visits) refl);
            table = l.table ∙ (unfold write_cookie in refl);
            iterators = l.iterators ∙ (unfold write_cookie in refl);
          }))
]

-- Iterating over a dictionary with a table that no other call changes: after InitForIteration,
-- NextEntry returns every entry exactly once, in the order of the positions, and then the null
-- pointer, within one call more than there are cells and without a fault. At the end the table is
-- as before, and so is the number of iterators if fewer than 2 ^ 16 - 1 were there.
pub iterate_all :
    (d : Dictionary) (t : List DictEntry) (id : ℕ)
    → HasTable d t
    → d.num_iterators + 1 < 2 ^ 16
    → Returns
        (λ r. (r.0 ≡ entries t) × (r.1.table ≡ some t) × (r.1.num_iterators ≡ d.num_iterators))
        (iterate (length t + 1) (init_for_iteration d id).0 (init_for_iteration d id).1)
iterate_all d t id table few =
    let d₁ = (init_for_iteration d id).0 in
    let c = (init_for_iteration d id).1 in
    let table₁ : HasTable d₁ t =
      unfold init_for_iteration in record { at = table.at; cells = table.cells } in
    let (n, first, a) = Returns-inv (next_loop-NextAt (length t) d₁ t 0 table₁ (omega arith)) in
    let from : start d₁ c ≡ ok n =
      unfold init_for_iteration next_after in rw (capacity-HasTable d₁ t table₁) first in
    Returns-map
      (iterate-Left (length t + 1) d₁ t c 0 n table₁
        (unfold init_for_iteration in record { robust = refl; inserted = refl; visited = refl })
        from a (omega arith))
      λ r l. (
        l.visits,
        l.table ∙ (unfold init_for_iteration in table.at),
        l.iterators ∙ (unfold init_for_iteration in omega arith),
      )
