-- ===== src/Dict/Contents/Overwrite.antt =====
-- Insert of dict/OpenDict.cc for a key that is there, as a change of the map that the dictionary is.
use zeek_snippets.Prelude.{
  ℕ, zero, suc, ◌+◌, ◌-◌, ◌≤◌, ◌<◌, ◌≡◌, refl, sym, subst, ◌∙◌, Bool, true, false, List, Option,
  none, some, length, set, length-set, arith, if◌then◌else◌, ◌==◌, Bool-cases, inl, inr,
}
use zeek_snippets.Run.{ok, ◌>>=◌}
use zeek_snippets.Dict.{DictEntry, Dictionary, is_empty, equal, remapping}
use zeek_snippets.Dict.Cluster.Order.{slot, IsFull, IsClustered, entry_at-slot}
use zeek_snippets.Dict.Cluster.Write.{write_at-set, set-IsClustered, set-IsMapped}
use zeek_snippets.Dict.Relocate.Count.{one, count, count-set}
use zeek_snippets.Dict.Lookup.{found, lookup_index}
use zeek_snippets.Dict.Update.{
  assign_order, assign_inserted, overwrite, init_if_null, place, insert,
}
use zeek_snippets.Dict.Contents.{for_key, binding, IsWellFormed, count-slot}
use zeek_snippets.Dict.Contents.View.{value_in, value_in-bound, value_in-same}
use zeek_snippets.Dict.Contents.Settled.{adjust_cookies_still, only_robust_still}

module _ (d : Dictionary) (t : List DictEntry) (w : IsWellFormed d t) (p : ℕ)
    (inside : p < length t) (full : IsFull t p) (value : ℕ) where
  abbrev pub changed : DictEntry
  changed = record (slot t p) { value = value }

  abbrev pub cells : List DictEntry
  cells = set t p changed

  changed-full : is_empty changed ≡ false
  unfolding is_empty
  changed-full = full

  changed-equal :
      (key : List ℕ) (key_size hash : ℕ)
      → equal changed key key_size hash ≡ equal (slot t p) key key_size hash
  unfolding equal
  changed-equal key key_size hash = refl

  before :
      (q : ℕ)
      → q ≡ p
      → 0 < (slot t q).distance
      → IsFull t (q - 1) × ((slot t q).distance ≤ (slot t (q - 1)).distance + 1)
  before zero at far =
      let here : IsFull t 0 = subst (λ x. IsFull t x) (sym at) full in
      absurd (omega (arith, w.clustered.reaches 0 (omega arith) here))
  before (suc q) at far =
      let low : suc q - 1 ≡ q = omega arith in
      rw low (w.clustered.packed q (rw at inside) (rw at full) far)

  cells-IsClustered : IsClustered cells
  cells-IsClustered =
      set-IsClustered d t p changed inside w.clustered changed-full
        (w.clustered.reaches p inside full) (before p refl)
        (λ h f far. (w.clustered.packed p h f far).1)

  count-cells :
      (q : DictEntry → Bool) → count q cells + one q (slot t p) ≡ count q t + one q changed
  count-cells q = count-set q t p changed inside

  count-same : (q : DictEntry → Bool) → q changed ≡ q (slot t p) → count q cells ≡ count q t
  count-same q same = ground (arith, count-cells q, same, full, changed-full)

  abbrev pub rewritten : Dictionary
  rewritten = record d { table = some cells }

  pub rewritten-IsWellFormed : IsWellFormed rewritten cells
  rewritten-IsWellFormed = record {
    has = (write_at-set d t p changed inside w.has).1;
    settled = record {
      remaps = w.settled.remaps;
      remap_end = w.settled.remap_end;
      cookies = w.settled.cookies;
      iterators = w.settled.iterators;
      bits = w.settled.bits;
    };
    clustered = cells-IsClustered;
    mapped = set-IsMapped d t p changed inside d.log2_buckets w.mapped (w.mapped p inside full);
    unique = λ key key_size hash. omega (
      arith,
      count-same (for_key key key_size hash) (changed-equal key key_size hash),
      w.unique key key_size hash,
    );
    counted = omega (arith, count-same (λ x. true) refl, w.counted);
    small = omega (arith, w.small, length-set t p changed);
  }

  pub value_in-cells :
      (key : List ℕ) (key_size hash : ℕ)
      → value_in cells key key_size hash
        ≡ (if equal (slot t p) key key_size hash then value else value_in t key key_size hash)
  value_in-cells key key_size hash =
      let most = w.unique key key_size hash in
      let same = count-same (for_key key key_size hash) (changed-equal key key_size hash) in
      let moved = changed-equal key key_size hash in
      elim (Bool-cases (equal (slot t p) key key_size hash)) [
        | inl on ↦
            value_in-bound key key_size hash value cells (omega arith) (
              ground (
                arith,
                count-cells (binding key key_size hash value),
                moved,
                on,
                changed-full,
                others on,
              ))
            ∙ rw on refl
        | inr off ↦
            value_in-same key key_size hash t cells most same
              (λ v. count-same (binding key key_size hash v) (ground (arith, moved, off)))
            ∙ rw off refl
      ]
    where
      others :
          equal (slot t p) key key_size hash ≡ true
          → one (binding key key_size hash value) (slot t p)
            ≤ count (binding key key_size hash value) t
      others on = elim (Bool-cases ((slot t p).value == value)) [
        | inl already ↦
            ground (
              arith,
              full,
              on,
              already,
              count-slot (binding key key_size hash value) t p inside full,
            )
        | inr other ↦ ground (arith, on, other)
      ]

  overwrite-rewritten : d.order ≡ none → overwrite d p value ≡ ok ((slot t p).value, rewritten)
  unfolding overwrite assign_order
  overwrite-rewritten unordered =
      rw
        (
          entry_at-slot d t p w.has inside,
          ◌>>=◌,
          (write_at-set d t p changed inside w.has).0,
          assigned d.order unordered,
          adjust_cookies_still (λ c. ok (assign_inserted changed value c)) rewritten
              w.settled.cookies,
        )
        refl
    where
      assigned : (o : Option (List DictEntry)) → o ≡ none → assign_order changed value o ≡ ok o
      assigned none at = refl
      assigned (some es) at = cc

  pub insert-rewritten :
      (key : List ℕ) (key_size hash : ℕ)
      → d.order ≡ none
      → lookup_index d key key_size hash ≡ ok (found p, d)
      → insert d key key_size hash value ≡ ok ((slot t p).value, rewritten)
  unfolding insert place
  insert-rewritten key key_size hash unordered found_it =
      let ready : init_if_null d ≡ ok d = unfold init_if_null in rw w.has.at refl in
      let still : remapping rewritten ≡ false = unfold remapping in rw w.settled.remap_end refl in
      rw
        (
          only_robust_still d w.settled.iterators,
          ready,
          found_it,
          ◌>>=◌,
          overwrite-rewritten unordered,
          still,
        )
        refl
