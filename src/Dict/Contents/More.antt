-- ===== src/Dict/Contents/More.antt =====
-- A table of dict/OpenDict.cc that gains an entry for a new key, as a map.
use zeek_snippets.Prelude.{
  ℕ, ◌+◌, ◌^◌, ◌≤◌, ◌<◌, ◌≡◌, refl, sym, ◌∙◌, Bool, true, false, List, arith, if◌then◌else◌,
  Bool-cases, inl, inr,
}
use zeek_snippets.Dict.{DictEntry, make_entry, is_empty, equal}
use zeek_snippets.Dict.Relocate.Count.{one, count, IgnoresDistance}
use zeek_snippets.Dict.Update.Inserted.{made-equal}
use zeek_snippets.Dict.Contents.{for_key, binding, count-le}
use zeek_snippets.Dict.Contents.Keys.{
  equal_trans, for_key-IgnoresDistance, binding-IgnoresDistance, made-same,
}
use zeek_snippets.Dict.Contents.View.{value_in, value_in-bound, value_in-same}

module _ (t T : List DictEntry) (key : List ℕ) (key_size hash value dist : ℕ)
    (short : key_size < 2 ^ 16) (free : count (for_key key key_size hash) t ≡ 0)
    (unique : (key' : List ℕ) (key_size' hash' : ℕ) → count (for_key key' key_size' hash') t ≤ 1)
    (full : is_empty (make_entry key key_size hash value dist) ≡ false)
    (counts : (p : DictEntry → Bool)
      → IgnoresDistance p
      → count p T ≡ count p t + one p (make_entry key key_size hash value dist)) where
  abbrev e : DictEntry
  e = make_entry key key_size hash value dist

  shut_out :
      (key' : List ℕ) (key_size' hash' : ℕ)
      → equal e key' key_size' hash' ≡ true
      → count (for_key key' key_size' hash') t ≡ 0
  shut_out key' key_size' hash' on =
      let le = count-le (for_key key' key_size' hash') (for_key key key_size hash) t (λ x there.
        equal_trans e x key key' key_size key_size' hash hash'
          (made-equal key key_size hash value dist short) on there) in
      omega arith

  pub more_unique :
      (key' : List ℕ) (key_size' hash' : ℕ) → count (for_key key' key_size' hash') T ≤ 1
  more_unique key' key_size' hash' =
      let total =
        counts (for_key key' key_size' hash') (for_key-IgnoresDistance key' key_size' hash') in
      elim (Bool-cases (equal e key' key_size' hash')) [
        | inl on ↦ ground (arith, total, full, on, shut_out key' key_size' hash' on)
        | inr off ↦ ground (arith, total, full, off, unique key' key_size' hash')
      ]

  pub value_in-more :
      (key' : List ℕ) (key_size' hash' : ℕ)
      → value_in T key' key_size' hash' ≡ (
          if equal (make_entry key key_size hash 0 0) key' key_size' hash'
          then value
          else value_in t key' key_size' hash')
  unfolding make_entry
  value_in-more key' key_size' hash' =
      let total = λ (v : ℕ).
        counts (binding key' key_size' hash' v) (binding-IgnoresDistance key' key_size' hash' v) in
      let totals =
        counts (for_key key' key_size' hash') (for_key-IgnoresDistance key' key_size' hash') in
      elim (Bool-cases (equal e key' key_size' hash')) [
        | inl on ↦
            value_in-bound key' key_size' hash' value T (more_unique key' key_size' hash')
              (ground (arith, total value, full, on))
            ∙ rw (sym (made-same key key_size hash value dist key' key_size' hash'), on) refl
        | inr off ↦
            value_in-same key' key_size' hash' t T (unique key' key_size' hash')
              (ground (arith, totals, full, off)) (λ v. ground (arith, total v, full, off))
            ∙ rw (sym (made-same key key_size hash value dist key' key_size' hash'), off) refl
      ]
