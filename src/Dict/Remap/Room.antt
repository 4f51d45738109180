-- ===== src/Dict/Remap/Room.antt =====
-- Where a table of dict/OpenDict.cc has an empty cell left: what the buckets of its hashes say.
use zeek_snippets.Prelude.{
  ℕ, zero, suc, ◌+◌, ◌-◌, ◌≤◌, ◌<◌, ◌≡◌, ◌⊎◌, subst, Bool, true, List, [], ◌∷◌, length, get_or, leb,
  arith, ◌==◌, Bool-cases, inl, inr,
}
use zeek_snippets.Dict.{DictEntry, is_empty}
use zeek_snippets.Dict.Math.{bucket_by_hash}
use zeek_snippets.Dict.Cluster.Order.{slot, IsFull, IsClustered, cluster_below}
use zeek_snippets.Dict.Relocate.Count.{count}

-- The bucket of the hash in a table of 2 ^ `bits` buckets is `s` or one behind it.
abbrev pub from_bucket : ℕ → ℕ → DictEntry → Bool
from_bucket bits s x = leb s (bucket_by_hash x.hash bits)

-- From no cell on are there as many entries for the buckets from there on as cells.
abbrev pub HasRoom : ℕ → List DictEntry → Type 0
HasRoom bits t = (s : ℕ) → s < length t → count (from_bucket bits s) t + s < length t

-- An empty cell from `i` on, or none.
free_or_full :
    (n : ℕ) (t : List DictEntry) (i : ℕ)
    → i + n ≡ length t
    → ((f : ℕ) × (i ≤ f) × (f < length t) × (is_empty (slot t f) ≡ true))
      ⊎ ((j : ℕ) → i ≤ j → j < length t → IsFull t j)
free_or_full zero t i size = inr λ j low high. absurd (omega arith)
free_or_full (suc n) t i size = elim (Bool-cases (is_empty (slot t i))) [
  | inl clear ↦ inl (i, omega arith, omega arith, clear)
  | inr full ↦ elim (free_or_full n t (i + 1) (omega arith)) [
    | inl (f, low, high, free) ↦ inl (f, omega arith, high, free)
    | inr rest ↦ inr λ j low high. elim (Bool-cases (i == j)) [
      | inl here ↦ let at : i ≡ j = ground arith in subst (IsFull t) at full
      | inr behind ↦ rest j (ground arith) high
    ]
  ]
]

count_suffix :
    (p : DictEntry → Bool) (t : List DictEntry) (s : ℕ)
    → ((j : ℕ) → s ≤ j → j < length t → IsFull t j × (p (slot t j) ≡ true))
    → length t ≤ count p t + s
unfolding get_or
count_suffix p [] s all = omega arith
count_suffix p (x ∷ t) zero all =
    let (full, on) = all 0 (omega arith) (omega arith) in
    let rest = count_suffix p t 0 (λ j low high. all (suc j) (omega arith) (omega arith)) in
    rw (full, on) (omega (arith, rest))
count_suffix p (x ∷ t) (suc s) all =
    omega (arith, count_suffix p t s (λ j low high. all (suc j) (omega arith) (omega arith)))

module _ (bits : ℕ) (t : List DictEntry) (clustered : IsClustered t) (room : HasRoom bits t)
    (near : (j : ℕ)
      → j < length t
      → IsFull t j
      → j ≤ bucket_by_hash (slot t j).hash bits + (slot t j).distance) where
  -- The cells from `s` on are not all full.
  not_full : (s : ℕ) → s < length t → ((j : ℕ) → s ≤ j → j < length t → IsFull t j) → ⊥
  not_full zero h all = omega (
    arith,
    room 0 h,
    count_suffix (from_bucket bits 0) t 0 (λ j low high. (all j low high, ground arith)),
  )
  not_full (suc s) h all = elim (Bool-cases (is_empty (slot t s))) [
    | inr full ↦ not_full s (omega arith) λ j low high. elim (Bool-cases (s == j)) [
      | inl here ↦ let at : s ≡ j = ground arith in subst (IsFull t) at full
      | inr behind ↦ all j (ground arith) high
    ]
    | inl clear ↦
        let behind : (j : ℕ)
            → suc s ≤ j
            → j < length t
            → IsFull t j × (from_bucket bits (suc s) (slot t j) ≡ true) =
          λ j low high.
            let full = all j low high in
            (
              full,
              elim (Bool-cases (from_bucket bits (suc s) (slot t j))) [
                | inl on ↦ on
                | inr off ↦
                    let (there, close) =
                      cluster_below (j - s) t s s j clustered (omega arith) high (omega arith) full
                        (ground (arith, near j high full, off)) in
                    absurd (ground (arith, there, clear))
              ],
            ) in
        omega (arith, room (suc s) h, count_suffix (from_bucket bits (suc s)) t (suc s) behind)
  ]

  -- An empty cell stands at `i` or behind it.
  pub free_behind :
      (i : ℕ) → i < length t → (f : ℕ) × (i ≤ f) × (f < length t) × (is_empty (slot t f) ≡ true)
  free_behind i h = elim (free_or_full (length t - i) t i (omega arith)) [
    | inl some_free ↦ some_free
    | inr all ↦ absurd (not_full i h all)
  ]
