-- ===== src/Dict/Cluster/Write.antt =====
-- Writes to one cell of a table of dict/OpenDict.cc that keep the order of the clusters.
use zeek_snippets.Prelude.{
  ℕ, suc, ◌+◌, ◌-◌, ◌≤◌, ◌<◌, ◌≡◌, refl, sym, subst, ◌∙◌, true, false, List, some, length, set,
  get_or-set, length-set, arith, ◌==◌, if◌then◌else◌, Bool-cases, inl, inr,
}
use zeek_snippets.Run.{ok}
use zeek_snippets.Dict.{DictEntry, Dictionary, is_empty, write_at}
use zeek_snippets.Dict.Math.{bucket_by_hash}
use zeek_snippets.Dict.Relocate.{empty_entry}
use zeek_snippets.Dict.Cluster.Order.{slot, IsFull, HasTable, IsClustered, IsPlaced, IsMapped}

module _ (d : Dictionary) (t : List DictEntry) (i : ℕ) (e : DictEntry) (inside : i < length t) where
  pub slot-set : (j : ℕ) → slot (set t i e) j ≡ (if i == j then e else slot t j)
  slot-set j = get_or-set t i j e empty_entry inside

  pub slot-set_self : (j : ℕ) → i ≡ j → slot (set t i e) j ≡ e
  slot-set_self j at = let self : (i == j) ≡ true = ground arith in slot-set j ∙ rw self refl

  pub slot-set_ne : (j : ℕ) → (i == j) ≡ false → slot (set t i e) j ≡ slot t j
  slot-set_ne j other = slot-set j ∙ rw other refl

  pub write_at-set :
      HasTable d t
      → (write_at d i e ≡ ok (record d { table = some (set t i e) }))
        × HasTable (record d { table = some (set t i e) }) (set t i e)
  unfolding write_at
  write_at-set table =
      (rw table.at (ground arith), record { at = refl; cells = length-set t i e ∙ table.cells })

  -- An entry whose bucket lies between those of its neighbours.
  pub set-IsClustered :
      IsClustered t
      → is_empty e ≡ false
      → e.distance ≤ i
      → (0 < e.distance → IsFull t (i - 1) × (e.distance ≤ (slot t (i - 1)).distance + 1))
      → (suc i < length t
          → IsFull t (suc i)
          → 0 < (slot t (suc i)).distance
          → (slot t (suc i)).distance ≤ e.distance + 1)
      → IsClustered (set t i e)
  set-IsClustered c full home before behind = record {
    reaches = λ j h f. ground (arith, slot-set j, c.reaches j, length-set t i e);
    packed = λ j h f far. packed j h f far;
  }
    where
      packed :
          (j : ℕ)
          → suc j < length (set t i e)
          → IsFull (set t i e) (suc j)
          → 0 < (slot (set t i e) (suc j)).distance
          → IsFull (set t i e) j
            × ((slot (set t i e) (suc j)).distance ≤ (slot (set t i e) j).distance + 1)
      packed j h f far =
          let width : suc j < length t = omega (arith, length-set t i e) in
          elim (Bool-cases (i == j)) [
            | inl here ↦
                let at : i ≡ j = ground arith in
                let next = slot-set_ne (suc j) (ground arith) in
                let self = slot-set_self j at in
                let close = behind (rw at width) (rw at (rw next at f)) (rw at (rw next at far)) in
                rw (self, next)
                  (full, subst (λ x. (slot t (suc x)).distance ≤ e.distance + 1) at close)
            | inr off ↦ elim (Bool-cases (i == suc j)) [
              | inl here ↦
                  let at : i ≡ suc j = ground arith in
                  let low : i - 1 ≡ j = omega arith in
                  let self = slot-set_self (suc j) at in
                  let prev = slot-set_ne j off in
                  let pos = rw self at far in rw (self, prev) (rw low at (before pos))
              | inr away ↦
                  let next = slot-set_ne (suc j) away in
                  let prev = slot-set_ne j off in
                  rw (next, prev) (c.packed j width (rw next at f) (rw next at far))
            ]
          ]

  -- An empty cell, where no entry behind it is away from its bucket.
  pub clear-IsClustered :
      IsClustered t
      → is_empty e ≡ true
      → (suc i < length t → IsFull t (suc i) → (slot t (suc i)).distance ≡ 0)
      → IsClustered (set t i e)
  clear-IsClustered c clear behind = record {
    reaches = λ j h f. ground (arith, slot-set j, c.reaches j, length-set t i e);
    packed = λ j h f far.
        ground (arith, slot-set j, slot-set (suc j), c.packed j, length-set t i e, behind);
  }

  pub set-IsPlaced :
      (Home : ℕ → ℕ → ℕ → Type 0)
      → IsPlaced Home t
      → ((bucket : ℕ) → i ≡ bucket + e.distance → Home e.hash bucket i)
      → IsPlaced Home (set t i e)
  set-IsPlaced Home placed home j bucket h f = elim (Bool-cases (i == j)) [
    | inl same ↦ let at : i ≡ j = ground arith in rw (slot-set_self j at, sym at) (home bucket)
    | inr other ↦
        let same = slot-set_ne j other in
        rw same (placed j bucket (omega (arith, length-set t i e)) (rw same at f))
  ]

  pub set-IsMapped :
      (bits : ℕ)
      → IsMapped bits t
      → i ≡ bucket_by_hash e.hash bits + e.distance
      → IsMapped bits (set t i e)
  set-IsMapped bits mapped home j h f = elim (Bool-cases (i == j)) [
    | inl same ↦ let at : i ≡ j = ground arith in rw (slot-set_self j at) (sym at ∙ home)
    | inr other ↦
        let same = slot-set_ne j other in
        rw same (mapped j (omega (arith, length-set t i e)) (rw same at f))
  ]
