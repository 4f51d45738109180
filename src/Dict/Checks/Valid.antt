-- ===== src/Dict/Checks/Valid.antt =====
-- AssertValid of dict/OpenDict.cc in a well-formed dictionary.
use zeek_snippets.Prelude.{
  ℕ, zero, suc, ◌+◌, ◌-◌, ◌≤◌, ◌<◌, ◌≡◌, refl, true, List, length, take, arith, ◌==◌, Bool-cases,
  inl, inr,
}
use zeek_snippets.Run.{ok, ◌>>=◌}
use zeek_snippets.Dict.{DictEntry, Dictionary, is_empty}
use zeek_snippets.Dict.Cluster.Order.{
  slot, IsFull, HasTable, IsClustered, capacity-HasTable, entry_at-slot,
}
use zeek_snippets.Dict.Relocate.Count.{count, count-take, take_all}
use zeek_snippets.Dict.Contents.{IsWellFormed}
use zeek_snippets.Dict.Checks.{count_down, assert_behind, assert_loop, assert_valid}

module _ (d : Dictionary) (t : List DictEntry) (table : HasTable d t) where
  count_down-count : (i : ℕ) → i ≤ length t → count_down i d ≡ ok (count (λ x. true) (take i t))
  unfolding count_down
  count_down-count zero h = refl
  count_down-count (suc i) h =
      let more = count-take (λ x. true) t i (omega arith) in
      rw (entry_at-slot d t i table (omega arith), ◌>>=◌, count_down-count i (omega arith), more)
        (elim (Bool-cases (is_empty (slot t i))) [
          | inl clear ↦ rw clear (
              let same : count (λ x. true) (take i t) ≡ count (λ x. true) (take i t) + 0 =
                omega arith in
              ground (arith, same))
          | inr full ↦ rw full refl
        ])

  module _ (clustered : IsClustered t) (bucket : ℕ → ℕ)
      (debug : (i : ℕ) → IsFull t i → i ≡ bucket i + (slot t i).distance) where
    assert_behind-ok :
        (i : ℕ)
        → suc i < length t
        → IsFull t (suc i)
        → assert_behind bucket (slot t (suc i)) (suc i) (slot t i) ≡ ok tt
    unfolding assert_behind
    assert_behind-ok i h full =
        let back : suc i - 1 ≡ i = omega arith in
        rw back (elim (Bool-cases (is_empty (slot t i))) [
          | inl clear ↦ rw clear (ground (arith, clear, clustered.packed i h full))
          | inr there ↦
              rw there (
                ground (arith, there, clustered.packed i h full, debug i there, debug (suc i) full))
        ])

    assert_loop-ok : (n i : ℕ) → suc i + n ≡ length t → assert_loop bucket n d (suc i) ≡ ok tt
    unfolding assert_loop
    assert_loop-ok zero i size = refl
    assert_loop-ok (suc n) i size =
        let back : suc i - 1 ≡ i = omega arith in
        let next : suc i + 1 ≡ suc (suc i) = omega arith in
        rw (entry_at-slot d t (suc i) table (omega arith), ◌>>=◌)
          (elim (Bool-cases (is_empty (slot t (suc i)))) [
            | inl clear ↦ rw (clear, next) (assert_loop-ok n (suc i) (omega arith))
            | inr full ↦
                rw
                  (
                    full,
                    back,
                    entry_at-slot d t i table (omega arith),
                    ◌>>=◌,
                    assert_behind-ok i (omega arith) full,
                    next,
                  )
                  (assert_loop-ok n (suc i) (omega arith))
          ])

-- In a well-formed dictionary, where the bucket that each entry keeps for debugging is the one that
-- it stands in by its distance, no assertion of AssertValid fails.
pub assert_valid-ok :
    (d : Dictionary) (t : List DictEntry) (bucket : ℕ → ℕ)
    → IsWellFormed d t
    → ((i : ℕ) → IsFull t i → i ≡ bucket i + (slot t i).distance)
    → assert_valid bucket d ≡ ok tt
unfolding assert_valid
assert_valid-ok d t bucket w debug =
    let right : (d.num_entries == count (λ x. true) t) ≡ true = ground (arith, w.counted) in
    rw
      (
        capacity-HasTable d t w.has,
        count_down-count d t w.has (length t) (omega arith),
        take_all t,
        ◌>>=◌,
        right,
      )
      (checked (length t) refl)
  where
    checked : (n : ℕ) → n ≡ length t → assert_loop bucket (n - 1) d 1 ≡ ok tt
    checked zero size = unfold assert_loop in refl
    checked (suc n) size =
        let back : suc n - 1 ≡ n = omega arith in
        rw back (assert_loop-ok d t w.has w.clustered bucket debug n 0 (omega arith))
