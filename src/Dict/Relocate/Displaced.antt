-- ===== src/Dict/Relocate/Displaced.antt =====
-- What InsertAndRelocate of dict/OpenDict.cc leaves in the entry that it takes by reference.
use zeek_snippets.Prelude.{
  ℕ, zero, suc, ◌+◌, ◌-◌, ◌%◌, ◌^◌, ◌≤◌, ◌<◌, ◌≡◌, ◌⊎◌, inl, inr, refl, sym, ap, ◌∙◌, true, false,
  not, List, [], ◌∷◌, get_elem?, set, arith, ltb, leb, Bool-cases, Option-cases, subst,
}
use zeek_snippets.Run.{ok, ◌>>=◌, ensure, >>=-eq-ok}
use zeek_snippets.Dict.{DictEntry, Dictionary, is_empty, entry_at, write_at}
use zeek_snippets.Dict.Math.{capacity}
use zeek_snippets.Dict.Cluster.{
  cluster_loop, tail_of_cluster_by_position, end_of_cluster_by_position,
}
use zeek_snippets.Dict.Relocate.{insert_and_relocate, insert_relocating}

-- The same key, hash and value.
pub record IsCopy (e g : DictEntry) : Type 0 where
  pub key : e.key ≡ g.key
  pub key_size : e.key_size ≡ g.key_size
  pub hash : e.hash ≡ g.hash
  pub value : e.value ≡ g.value

-- A copy of an entry that the table holds at `i` or later.
abbrev pub IsFrom : Dictionary → ℕ → DictEntry → Type 0
IsFrom d i e = (j : ℕ) × (g : DictEntry) × (i ≤ j) × (entry_at d j ≡ ok g) × IsCopy e g

get_elem?-set_other :
    (xs : List DictEntry) (i j : ℕ) (v : DictEntry)
    → i < j
    → get_elem? (set xs i v) j ≡ get_elem? xs j
get_elem?-set_other [] i j v h = refl
get_elem?-set_other (x ∷ xs) zero zero v h = absurd (omega arith)
get_elem?-set_other (x ∷ xs) zero (suc j) v h = refl
get_elem?-set_other (x ∷ xs) (suc i) zero v h = absurd (omega arith)
get_elem?-set_other (x ∷ xs) (suc i) (suc j) v h = get_elem?-set_other xs i j v (omega arith)

-- A write before `j` leaves the entry at `j`.
entry_at-write_at :
    (d r : Dictionary) (i j : ℕ) (e : DictEntry)
    → i < j
    → write_at d i e ≡ ok r
    → entry_at r j ≡ entry_at d j
unfolding write_at entry_at
entry_at-write_at d r i j e h run = elim (Option-cases d.table) [
  | inl null ↦ absurd (ground (arith, null, run))
  | inr (t, at) ↦ ground (arith, at, run, get_elem?-set_other t i j e)
]

cluster_loop-le :
    (n : ℕ) (d : Dictionary) (e : DictEntry) (p i r : ℕ) → cluster_loop n d e p i ≡ ok r → i ≤ r
unfolding cluster_loop
cluster_loop-le zero d e p i r run = ground (arith, run)
cluster_loop-le (suc n) d e p i r run = ground (arith, run, cluster_loop-le n d e p (i + 1) r)

cluster_loop-lt :
    (n : ℕ) (d : Dictionary) (e : DictEntry) (p r : ℕ)
    → 0 < n
    → entry_at d p ≡ ok e
    → is_empty e ≡ false
    → cluster_loop n d e p p ≡ ok r
    → p < r
unfolding cluster_loop
cluster_loop-lt zero d e p r pos at full run = absurd (omega arith)
cluster_loop-lt (suc n) d e p r pos at full run =
    ground (arith, at, full, run, cluster_loop-le n d e p (p + 1) r)

end_of_cluster-lt : (d : Dictionary) (p r : ℕ) → end_of_cluster_by_position d p ≡ ok r → p < r
unfolding end_of_cluster_by_position tail_of_cluster_by_position
end_of_cluster-lt d p r run =
    let (tail, run₁, last) = >>=-eq-ok (tail_of_cluster_by_position d p) (λ t. ok (t + 1)) run in
    let (u, inside, run₂) = >>=-eq-ok (ensure (ltb p (capacity d false))) _ run₁ in
    let (e, at, run₃) = >>=-eq-ok (entry_at d p) _ run₂ in
    let (w, full, run₄) = >>=-eq-ok (ensure (not (is_empty e))) _ run₃ in
    let (stop, run₅, back) =
      >>=-eq-ok (cluster_loop (capacity d false - p) d e p p) (λ s. ok (s - 1)) run₄ in
    let some_left : 0 < capacity d false - p = ground (arith, inside) in
    let is_full : is_empty e ≡ false = ground (arith, full) in
    ground (
      arith,
      last,
      back,
      cluster_loop-lt (capacity d false - p) d e p stop some_left at is_full run₅,
    )

-- `t` as it goes on from `i` to `next`.
abbrev pub moved_on : DictEntry → ℕ → ℕ → DictEntry
moved_on t i next = record t { distance = (t.distance + (next - i)) % 2 ^ 16 }

pub displace_step :
    (k : ℕ) (d : Dictionary) (e t : DictEntry) (i : ℕ)
    → i < capacity d false
    → entry_at d i ≡ ok t
    → is_empty t ≡ false
    → insert_and_relocate (suc k) d e i
      ≡ end_of_cluster_by_position d i >>= λ next.
          write_at d i e >>= λ d₁. insert_and_relocate k d₁ (moved_on t i next) next
unfolding insert_and_relocate
displace_step k d e t i inside at full =
    let within : leb (capacity d false) i ≡ false = ground arith in rw (within, at, ◌>>=◌, full)

settle_step :
    (k : ℕ) (d r : Dictionary) (e e' t : DictEntry) (i last : ℕ)
    → i < capacity d false
    → entry_at d i ≡ ok t
    → is_empty t ≡ true
    → insert_and_relocate (suc k) d e i ≡ ok (r, e', last)
    → e' ≡ e
unfolding insert_and_relocate
settle_step k d r e e' t i last inside at clear run = ground (arith, at, clear, run)

outside_step :
    (k : ℕ) (d r : Dictionary) (e e' : DictEntry) (i last : ℕ)
    → capacity d false ≤ i
    → insert_and_relocate (suc k) d e i ≡ ok (r, e', last)
    → e' ≡ e
unfolding insert_and_relocate
outside_step k d r e e' i last out run = ground (arith, run)

-- One round that displaces `t`, and what the later rounds give back.
moved_on-IsFrom :
    (k : ℕ) (d r : Dictionary) (e e' t : DictEntry) (i last : ℕ)
    → ((d₁ : Dictionary) (next : ℕ)
        → insert_and_relocate k d₁ (moved_on t i next) next ≡ ok (r, e', last)
        → (e' ≡ moved_on t i next) ⊎ IsFrom d₁ next e')
    → i < capacity d false
    → entry_at d i ≡ ok t
    → is_empty t ≡ false
    → insert_and_relocate (suc k) d e i ≡ ok (r, e', last)
    → IsFrom d i e'
moved_on-IsFrom k d r e e' t i last later inside at full run =
    let step = sym (displace_step k d e t i inside at full) ∙ run in
    let (next, end, run₁) = >>=-eq-ok (end_of_cluster_by_position d i) _ step in
    let (d₁, wrote, run₂) = >>=-eq-ok (write_at d i e) _ run₁ in
    let further : i < next = end_of_cluster-lt d i next end in
    elim (later d₁ next run₂) [
      | inl same ↦ (
        i,
        t,
        omega arith,
        at,
        record {
          key = ap (λ x. x.key) same;
          key_size = ap (λ x. x.key_size) same;
          hash = ap (λ x. x.hash) same;
          value = ap (λ x. x.value) same;
        },
      )
      | inr (j, g, le, at_j, copy) ↦
          (j, g, omega arith, sym (entry_at-write_at d d₁ i j e (omega arith) wrote) ∙ at_j, copy)
    ]

pub no_fuel :
    (d r : Dictionary) (e e' : DictEntry) (i last : ℕ)
    → insert_and_relocate zero d e i ≡ ok (r, e', last)
    → ⊥
unfolding insert_and_relocate
no_fuel d r e e' i last run = cc

pub unread_step :
    (k : ℕ) (d r : Dictionary) (e e' : DictEntry) (i last : ℕ)
    → i < capacity d false
    → insert_and_relocate (suc k) d e i ≡ ok (r, e', last)
    → (t : DictEntry) × (entry_at d i ≡ ok t)
unfolding insert_and_relocate
unread_step k d r e e' i last inside run =
    let within : leb (capacity d false) i ≡ false = ground arith in
    let (t, at, more) = >>=-eq-ok (entry_at d i) _ (rw within at run) in (t, at)

-- The entry that comes back is the one that was given, or a copy of one that the table held.
returned_entry :
    (k : ℕ) (d r : Dictionary) (e e' : DictEntry) (i last : ℕ)
    → insert_and_relocate k d e i ≡ ok (r, e', last)
    → (e' ≡ e) ⊎ IsFrom d i e'
returned_entry zero d r e e' i last run = absurd (no_fuel d r e e' i last run)
returned_entry (suc k) d r e e' i last run = elim (Bool-cases (leb (capacity d false) i)) [
  | inl out ↦ inl (outside_step k d r e e' i last (ground arith) run)
  | inr within ↦
      let inside : i < capacity d false = ground arith in
      let (t, at) = unread_step k d r e e' i last inside run in
      elim (Bool-cases (is_empty t)) [
        | inl clear ↦ inl (settle_step k d r e e' t i last inside at clear run)
        | inr full ↦ inr (
            moved_on-IsFrom k d r e e' t i last
              (λ d₁ next. returned_entry k d₁ r (moved_on t i next) e' next last) inside at full
              run)
      ]
]

-- Where the place to insert at holds an entry, the caller's entry is after the call a copy of an
-- entry that the table held before, at that place or behind it.
pub insert_relocating-returns :
    (d r : Dictionary) (e e' t : DictEntry) (i last : ℕ)
    → i < capacity d false
    → entry_at d i ≡ ok t
    → is_empty t ≡ false
    → insert_relocating d e i ≡ ok (r, e', last)
    → IsFrom d i e'
unfolding insert_relocating
insert_relocating-returns d r e e' t i last inside at full run =
    let k = capacity d false + 1 in
    let run' : insert_and_relocate (suc k) d e i ≡ ok (r, e', last) =
      subst (λ n. insert_and_relocate n d e i ≡ ok (r, e', last)) (omega arith) run in
    moved_on-IsFrom k d r e e' t i last
      (λ d₁ next. returned_entry k d₁ r (moved_on t i next) e' next last) inside at full run'
