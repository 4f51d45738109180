-- ===== src/Dict/Contents/View.antt =====
-- The map that a dictionary of dict/OpenDict.cc stands for, and Lookup as its application.
use zeek_snippets.Prelude.{
  ℕ, ◌≤◌, ◌<◌, ◌≡◌, refl, sym, ◌∙◌, not, ◌&&◌, List, [], ◌∷◌, arith, if◌then◌else◌, ◌==◌,
  Bool-cases, inl, inr,
}
use zeek_snippets.Run.{ok}
use zeek_snippets.Dict.{DictEntry, Dictionary, is_empty, equal}
use zeek_snippets.Dict.Relocate.Count.{count}
use zeek_snippets.Dict.Lookup.{lookup}
use zeek_snippets.Dict.Contents.{for_key, binding, IsWellFormed, count-le, lookup-Maps}

-- The value of the first entry for the key, and 0, the null pointer, where there is none.
abbrev pub value_in : List DictEntry → List ℕ → ℕ → ℕ → ℕ
value_in [] key key_size hash = 0
value_in (x ∷ t) key key_size hash =
    if not (is_empty x) && equal x key key_size hash then x.value else value_in t key key_size hash

-- An entry that is for a key has some value for it.
count_value :
    (key : List ℕ) (key_size hash : ℕ) (t : List DictEntry)
    → 0 < count (for_key key key_size hash) t
    → (value : ℕ) × (0 < count (binding key key_size hash value) t)
count_value key key_size hash [] some_one = absurd (omega arith)
count_value key key_size hash (x ∷ t) some_one =
    elim (Bool-cases (not (is_empty x) && equal x key key_size hash)) [
      | inl on ↦ (x.value, ground (arith, on))
      | inr off ↦
          let (value, more) = count_value key key_size hash t (ground (arith, off)) in
          (value, omega arith)
    ]

module _ (key : List ℕ) (key_size hash : ℕ) where
  binding-le :
      (value : ℕ) (t : List DictEntry)
      → count (binding key key_size hash value) t ≤ count (for_key key key_size hash) t
  binding-le value t =
      count-le (binding key key_size hash value) (for_key key key_size hash) t
        (λ x on. ground (arith, on))

  pub value_in-free :
      (t : List DictEntry)
      → count (for_key key key_size hash) t ≡ 0
      → value_in t key key_size hash ≡ 0
  value_in-free [] free = refl
  value_in-free (x ∷ t) free = ground (arith, free, value_in-free t)

  pub value_in-bound :
      (value : ℕ) (t : List DictEntry)
      → count (for_key key key_size hash) t ≤ 1
      → 0 < count (binding key key_size hash value) t
      → value_in t key key_size hash ≡ value
  value_in-bound value [] most some_one = absurd (omega arith)
  value_in-bound value (x ∷ t) most some_one =
      ground (arith, most, some_one, binding-le value t, value_in-bound value t)

  -- Lookup in a well-formed dictionary changes nothing, and returns the value of the one entry of
  -- the table for the key, or the null pointer where the table has none.
  pub lookup-value_in :
      (d : Dictionary) (t : List DictEntry)
      → IsWellFormed d t
      → lookup d key key_size hash ≡ ok (value_in t key key_size hash, d)
  lookup-value_in d t w =
      let (there, missing) = lookup-Maps d t w key key_size hash in
      elim (Bool-cases (count (for_key key key_size hash) t == 0)) [
        | inl none_there ↦
            let free : count (for_key key key_size hash) t ≡ 0 = ground arith in
            missing free ∙ rw (value_in-free t free) refl
        | inr some_there ↦
            let (v, more) = count_value key key_size hash t (ground (arith, some_there)) in
            let most = w.unique key key_size hash in
            let le = binding-le v t in
            there v (omega arith, omega arith) ∙ rw (value_in-bound v t most more) refl
      ]

  -- Two tables that hold the same for a key give it the same value.
  pub value_in-same :
      (t t' : List DictEntry)
      → count (for_key key key_size hash) t ≤ 1
      → count (for_key key key_size hash) t' ≡ count (for_key key key_size hash) t
      → ((value : ℕ)
          → count (binding key key_size hash value) t' ≡ count (binding key key_size hash value) t)
      → value_in t' key key_size hash ≡ value_in t key key_size hash
  value_in-same t t' most same sames =
      elim (Bool-cases (count (for_key key key_size hash) t == 0)) [
        | inl none_there ↦
            value_in-free t' (ground (arith, none_there, same))
            ∙ sym (value_in-free t (ground (arith, none_there)))
        | inr some_there ↦
            let (v, more) = count_value key key_size hash t (ground (arith, some_there)) in
            value_in-bound v t' (omega arith) (omega (arith, sames v))
            ∙ sym (value_in-bound v t most more)
      ]
