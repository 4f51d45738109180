-- ===== src/Dict/Relocate/Count.antt =====
-- How many entries of a table of dict/OpenDict.cc satisfy a test, and what a write does to that.
use zeek_snippets.Prelude.{
  ℕ, zero, suc, ◌+◌, ◌<◌, ◌≡◌, refl, Bool, not, ◌&&◌, List, [], ◌∷◌, length, take, set, get_or,
  arith, if◌then◌else◌,
}
use zeek_snippets.Dict.{DictEntry, is_empty}
use zeek_snippets.Dict.Cluster.Order.{slot}

-- 1 for an entry that satisfies the test, and 0 for another one and for an empty cell.
abbrev pub one : (DictEntry → Bool) → DictEntry → ℕ
one p x = if not (is_empty x) && p x then 1 else 0

abbrev pub count : (DictEntry → Bool) → List DictEntry → ℕ
count p [] = 0
count p (x ∷ t) = one p x + count p t

-- The test does not read where an entry stands.
abbrev pub IgnoresDistance : (DictEntry → Bool) → Type 0
IgnoresDistance p = (x : DictEntry) (n : ℕ) → p (record x { distance = n }) ≡ p x

pub count-set :
    (p : DictEntry → Bool) (t : List DictEntry) (i : ℕ) (e : DictEntry)
    → i < length t
    → count p (set t i e) + one p (slot t i) ≡ count p t + one p e
unfolding get_or
count-set p [] i e h = absurd (omega arith)
count-set p (x ∷ t) zero e h = omega arith
count-set p (x ∷ t) (suc i) e h = omega (arith, count-set p t i e (omega arith))

pub count-take :
    (p : DictEntry → Bool) (t : List DictEntry) (i : ℕ)
    → i < length t
    → count p (take (suc i) t) ≡ count p (take i t) + one p (slot t i)
unfolding get_or
count-take p [] i h = absurd (omega arith)
count-take p (x ∷ t) zero h = omega arith
count-take p (x ∷ t) (suc i) h = omega (arith, count-take p t i (omega arith))

pub take_all : (t : List DictEntry) → take (length t) t ≡ t
take_all [] = refl
take_all (x ∷ t) = rw (take_all t) refl
