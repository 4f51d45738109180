-- ===== src/Dict/Update/Unstarted.antt =====
-- Remove of dict/OpenDict.cc while a robust cookie has not started its iteration.
use zeek_snippets.Prelude.{
  ℕ, zero, suc, ◌-◌, ◌+◌, ◌<◌, ◌≤◌, ◌≡◌, refl, ap, ◌∙◌, ◌⊎◌, Bool, true, false, not, List, [], ◌∷◌,
  ◌++◌, Option, none, some, get_elem?, length, arith, ltb, leb, inl, inr, if◌then◌else◌,
}
use zeek_snippets.Run.{Run, Fault, ok, fault, out_of_bounds, ◌>>=◌, cell, ensure, Returns-inv}
use zeek_snippets.Dict.{DictEntry, IterCookie, Dictionary, is_empty, entry_at}
use zeek_snippets.Dict.Math.{capacity}
use zeek_snippets.Dict.Cluster.{
  same_bucket, head_loop, head_of_cluster_by_position, next_loop, next_after,
}
use zeek_snippets.Dict.Cluster.Order.{
  IsFull, HasTable, IsClustered, IsMapped, IsHome, mapped-IsPlaced,
}
use zeek_snippets.Dict.Relocate.Removal.{remove_and_relocate-Lost}
use zeek_snippets.Dict.Lookup.{found, lookup_index}
use zeek_snippets.Dict.Update.{
  next_between, keep_others, each_cookie, adjust_cookies, adjust_on_remove, only_robust,
  remove_relocate_and_adjust, remove_found, remove,
}

-- The run ends with a fault.
abbrev pub Faults {ℓ} : {A : Type ℓ} → Run A → Type ℓ
Faults m = (e : Fault) × (m ≡ fault e)

-- The run ends with a value or a fault, and not for lack of fuel.
data Ends {ℓ} {A : Type ℓ} : Run A → Type ℓ where
  value : {a : A} → Ends (ok a)
  fails : {e : Fault} → Ends (fault e)

module _ {ℓ} {A : Type ℓ} where
  Ends-inv : {m : Run A} → Ends m → ((a : A) × (m ≡ ok a)) ⊎ Faults m
  Ends-inv (value {a}) = inl (a, refl)
  Ends-inv (fails {e}) = inr (e, refl)

  Ends-if : {m n : Run A} (test : Bool) → Ends m → Ends n → Ends (if test then m else n)
  Ends-if true on off = on
  Ends-if false on off = off

  Ends-cell : (o : Option A) → Ends (cell o)
  Ends-cell none = fails
  Ends-cell (some a) = value

Ends-bind {ℓ κ} :
    {A : Type ℓ} {B : Type κ} {m : Run A} {next : A → Run B}
    → Ends m
    → ((a : A) → Ends (next a))
    → Ends (m >>= next)
Ends-bind (value {a}) then_ = then_ a
Ends-bind fails then_ = fails

Ends-ensure : (b : Bool) → Ends (ensure b)
Ends-ensure true = value
Ends-ensure false = fails

entry_at-Ends : (d : Dictionary) (i : ℕ) → Ends (entry_at d i)
unfolding entry_at
entry_at-Ends d i = Ends-bind (Ends-cell d.table) λ t. Ends-cell (get_elem? t i)

head_loop-Ends : (d : Dictionary) (e : DictEntry) (p i : ℕ) → Ends (head_loop i d e p)
unfolding head_loop
head_loop-Ends d e p zero = value
head_loop-Ends d e p (suc i) =
    Ends-if (leb p (i + e.distance))
      (Ends-bind (entry_at-Ends d i) λ f.
        Ends-bind (Ends-ensure (not (is_empty f)))
          λ u. Ends-if (same_bucket f i e p) (head_loop-Ends d e p i) value)
      value

head_of_cluster_by_position-Ends :
    (d : Dictionary) (position : ℕ) → Ends (head_of_cluster_by_position d position)
unfolding head_of_cluster_by_position
head_of_cluster_by_position-Ends d position =
    Ends-bind (Ends-ensure (ltb position (capacity d false))) λ u.
      Ends-bind (entry_at-Ends d position) λ e.
        Ends-bind (Ends-ensure (not (is_empty e)))
          λ w. Ends-bind (head_loop-Ends d e position (position + 1)) λ stop. value

next_loop-Ends : (n : ℕ) (d : Dictionary) (i : ℕ) → Ends (next_loop n d i)
unfolding next_loop
next_loop-Ends zero d i = value
next_loop-Ends (suc n) d i =
    Ends-bind (entry_at-Ends d i) λ e. Ends-if (is_empty e) (next_loop-Ends n d (i + 1)) value

next_after-Ends : (d : Dictionary) (o : Option ℕ) → Ends (next_after d o)
unfolding next_after
next_after-Ends d none = next_loop-Ends (capacity d false) d 0
next_after-Ends d (some i) =
    Ends-bind (Ends-ensure (ltb i (capacity d false))) λ u. next_loop-Ends _ d (i + 1)

adjust_on_remove-Ends :
    (d : Dictionary) (e : DictEntry) (position last : ℕ) (c : IterCookie)
    → Ends (adjust_on_remove d e position last c)
unfolding adjust_on_remove
adjust_on_remove-Ends d e position last c =
    Ends-bind (moved (next_between position c.next last)) λ c₂. skipped c₂ c₂.next
  where
    moved :
        (o : Option ℕ)
        → Ends (elim o [
          | none ↦ ok (record c { inserted = keep_others e c.inserted })
          | some n ↦ do
            head ← head_of_cluster_by_position d (n - 1)
            moved ← entry_at d (if ltb head position then position else head)
            ok (record c { inserted = keep_others e c.inserted ++ moved ∷ [] })
        ])
    moved none = value
    moved (some n) = Ends-bind (head_of_cluster_by_position-Ends d (n - 1)) λ head.
        Ends-bind (entry_at-Ends d (if ltb head position then position else head)) λ x. value

    skipped :
        (c₂ : IterCookie) (o : Option ℕ)
        → Ends (elim o [
          | none ↦ fault out_of_bounds
          | some n ↦
              let skip : Run IterCookie = (do
                e ← entry_at d n
                n' ← next_after d (some n)
                ok (if is_empty e then record c₂ { next = some n' } else c₂)) in
              if ltb n (capacity d false) then skip else ok c₂
        ])
    skipped c₂ none = fails
    skipped c₂ (some n) =
        Ends-if (ltb n (capacity d false))
          (Ends-bind (entry_at-Ends d n) λ x. Ends-bind (next_after-Ends d (some n)) λ n'. value)
          value

-- A fault for one cookie is one for all of them.
each_cookie-Faults :
    (f : IterCookie → Run IterCookie) (before after : List IterCookie) (c : IterCookie)
    → ((x : IterCookie) → Ends (f x))
    → Faults (f c)
    → Faults (each_cookie f (before ++ c ∷ after))
unfolding each_cookie
each_cookie-Faults f [] after c all (e, bad) = (e, rw bad refl)
each_cookie-Faults f (x ∷ before) after c all bad = elim (Ends-inv (all x)) [
  | inr (e, first) ↦ (e, rw first refl)
  | inl (x', went) ↦
      let (e, rest) = each_cookie-Faults f before after c all bad in
      (e, rw (went, ◌>>=◌, rest) refl)
]

-- The position -1 is not in the table.
adjust_on_remove-unstarted :
    (d : Dictionary) (e : DictEntry) (position last : ℕ) (c : IterCookie)
    → c.next ≡ none
    → Faults (adjust_on_remove d e position last c)
unfolding adjust_on_remove
adjust_on_remove-unstarted d e position last c fresh = (out_of_bounds, ground (arith, fresh))

-- Remove of a key that LookupIndex finds at `position`, where only robust iterations go on and the
-- table is one of 16 bits whose clusters are in order and whose entries stand in the buckets of
-- their hashes, faults while any of the robust cookies has not started its iteration: in the
-- adjustment of that cookie, where `table[-1]` is read, or before in that of another one.
pub remove-unstarted :
    (d : Dictionary) (t : List DictEntry) (key : List ℕ) (key_size hash position : ℕ)
    (before after : List IterCookie) (c : IterCookie)
    → HasTable d t
    → IsClustered t
    → IsMapped d.log2_buckets t
    → length t ≤ 0xFFFF
    → only_robust d ≡ true
    → lookup_index d key key_size hash ≡ ok (found position, d)
    → position < length t
    → IsFull t position
    → d.cookies ≡ some (before ++ c ∷ after)
    → c.next ≡ none
    → Faults (remove d key key_size hash)
unfolding remove remove_found remove_relocate_and_adjust adjust_cookies
remove-unstarted d t key key_size hash position before after c table clustered mapped small robust
      looked inside full cookies fresh =
    let ((r, e, last), run, (at, lost)) = Returns-inv (
      remove_and_relocate-Lost (IsHome d.log2_buckets) d t position (λ h b i s le home. home) table
        clustered (mapped-IsPlaced d.log2_buckets t mapped) inside full small) in
    let kept : r.cookies ≡ some (before ++ c ∷ after) = ap (λ x. x.cookies) lost.same ∙ cookies in
    let (f, bad) =
      each_cookie-Faults (adjust_on_remove r e position last) before after c
        (adjust_on_remove-Ends r e position last)
        (adjust_on_remove-unstarted r e position last c fresh) in
    (f, rw (robust, looked, ◌>>=◌, run, ◌>>=◌, kept, bad) refl)
