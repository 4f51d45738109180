-- ===== src/Dict/Contents/Keys.antt =====
-- Which keys DictEntry::Equal of dict/OpenDict.h takes for the same.
use zeek_snippets.Prelude.{
  ℕ, ◌%◌, ◌^◌, ◌<◌, ◌≡◌, refl, sym, ◌∙◌, true, List, [], ◌∷◌, take, arith, Bool-cases, inl, inr,
}
use zeek_snippets.Dict.{DictEntry, same_bytes, equal, make_entry}
use zeek_snippets.Dict.Relocate.Count.{IgnoresDistance}
use zeek_snippets.Dict.Update.Inserted.{same_bytes_refl, made-equal}
use zeek_snippets.Dict.Contents.{for_key, binding}

same_bytes-inv : (xs ys : List ℕ) → same_bytes xs ys ≡ true → xs ≡ ys
unfolding same_bytes
same_bytes-inv [] [] h = refl
same_bytes-inv [] (y ∷ ys) h = cc
same_bytes-inv (x ∷ xs) [] h = cc
same_bytes-inv (x ∷ xs) (y ∷ ys) h =
    let rest = same_bytes-inv xs ys (ground (arith, h)) in
    let first : x ≡ y = ground (arith, h) in cc

-- What is equal to an entry for one key is for that key.
pub equal_trans :
    (e x : DictEntry) (key key' : List ℕ) (key_size key_size' hash hash' : ℕ)
    → equal e key key_size hash ≡ true
    → equal e key' key_size' hash' ≡ true
    → equal x key' key_size' hash' ≡ true
    → equal x key key_size hash ≡ true
unfolding equal
equal_trans e x key key' key_size key_size' hash hash' a b c =
    let a_bytes =
      same_bytes-inv (take e.key_size e.key) (take e.key_size key) (ground (arith, a)) in
    let b_bytes =
      same_bytes-inv (take e.key_size e.key) (take e.key_size key') (ground (arith, b)) in
    let c_bytes =
      same_bytes-inv (take x.key_size x.key) (take x.key_size key') (ground (arith, c)) in
    let size : x.key_size ≡ e.key_size = ground (arith, b, c) in
    let size' : x.key_size ≡ key_size = ground (arith, a, size) in
    let bytes : take x.key_size x.key ≡ take x.key_size key =
      c_bytes ∙ rw size (sym b_bytes ∙ a_bytes) in
    let hashes : x.hash % 2 ^ 32 ≡ hash % 2 ^ 32 = ground (arith, a, b, c) in
    rw bytes (ground (arith, same_bytes_refl (take x.key_size key)))

pub for_key-IgnoresDistance :
    (key : List ℕ) (key_size hash : ℕ) → IgnoresDistance (for_key key key_size hash)
unfolding equal
for_key-IgnoresDistance key key_size hash x n = refl

pub binding-IgnoresDistance :
    (key : List ℕ) (key_size hash value : ℕ) → IgnoresDistance (binding key key_size hash value)
unfolding equal
binding-IgnoresDistance key key_size hash value x n = refl

-- The value and the distance of an entry do not decide which keys it is for.
pub made-same :
    (key : List ℕ) (key_size hash value dist : ℕ) (key' : List ℕ) (key_size' hash' : ℕ)
    → equal (make_entry key key_size hash value dist) key' key_size' hash'
      ≡ equal (make_entry key key_size hash 0 0) key' key_size' hash'
unfolding equal make_entry
made-same key key_size hash value dist key' key_size' hash' = refl

-- An entry for a key is for the same keys as one that is made for the key.
pub made-equal_other :
    (e : DictEntry) (key : List ℕ) (key_size hash : ℕ) (key' : List ℕ) (key_size' hash' : ℕ)
    → key_size < 2 ^ 16
    → equal e key key_size hash ≡ true
    → equal e key' key_size' hash' ≡ equal (make_entry key key_size hash 0 0) key' key_size' hash'
made-equal_other e key key_size hash key' key_size' hash' short on =
    let made = make_entry key key_size hash 0 0 in
    let self = made-equal key key_size hash 0 0 short in
    elim (Bool-cases (equal e key' key_size' hash')) [
      | inl same ↦
          same ∙ sym (equal_trans e made key' key key_size' key_size hash' hash same on self)
      | inr other ↦ elim (Bool-cases (equal made key' key_size' hash')) [
        | inl same ↦
            let there = equal_trans made e key' key key_size' key_size hash' hash same self on in cc
        | inr none_too ↦ other ∙ sym none_too
      ]
    ]
