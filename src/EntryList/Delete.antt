-- ===== src/EntryList/Delete.antt =====
-- remove_nth, get and remove of dict/List.h.
use zeek_snippets.Prelude.{
  ℕ, ◌+◌, ◌-◌, ◌≤◌, ◌<◌, ◌≡◌, ◌⊎◌, refl, ◌∙◌, true, arith, ltb, ◌==◌, if◌then◌else◌, Bool-cases,
  inl, inr,
}
use zeek_snippets.Run.{ok, fault, aborted, Returns, returns, Returns-bind}
use zeek_snippets.EntryList.{EntryList, at, shift_down, remove_nth, get}
use zeek_snippets.EntryList.Cells.{IsValid, item, cell-ok, shift_down-IsShiftedDown}

module _ {A : Type 0} (blank : A) where
  pub at-item :
      (l : EntryList A) (i : ℕ) → IsValid l → i < l.num_entries → at l i ≡ ok (item blank l i)
  unfolding at
  at-item l i v h = cell-ok blank l.entries i (omega (arith, v.cells, v.fits))

  -- `r` returned the element `n` of `l`, and is a valid list of the others in their order.
  pub record Without (l : EntryList A) (n : ℕ) (r : A × EntryList A) : Type 0 where
    pub old : r.0 ≡ item blank l n
    pub valid : IsValid r.1
    pub count : r.1.num_entries + 1 ≡ l.num_entries
    pub items :
        (i : ℕ)
        → i < r.1.num_entries
        → item blank r.1 i ≡ (if ltb i n then item blank l i else item blank l (i + 1))

  -- remove_nth of a valid list fails its assertion for a number that is out of range, and else it
  -- returns that element and closes the gap.
  pub remove_nth-Without :
      (l : EntryList A) (n : ℕ)
      → IsValid l
      → ((l.num_entries ≤ n) × (remove_nth l n ≡ fault aborted))
        ⊎ ((n < l.num_entries) × Returns (Without l n) (remove_nth l n))
  unfolding remove_nth
  remove_nth-Without l n v = elim (Bool-cases (ltb n l.num_entries)) [
    | inr out ↦ inl (ground arith, rw out)
    | inl inside ↦
        let below : n < l.num_entries = ground arith in
        inr (
          below,
          rw (inside, at-item l n v below)
              (Returns-bind
                (shift_down-IsShiftedDown blank (l.num_entries - 1 - n) n l.entries
                  (omega (arith, v.cells, v.fits)))
                λ xs (width, here). returns (record {
                  old = refl;
                  valid = record { cells = width ∙ v.cells; fits = omega (arith, v.fits) };
                  count = omega arith;
                  items = λ i h. ground (arith, here i);
                })),
        )
  ]

  -- get of a valid list fails its assertion where the list is empty, and else it gives the same as
  -- remove_nth of the last element.
  pub get-remove_nth :
      (l : EntryList A)
      → IsValid l
      → get l ≡ (if l.num_entries == 0 then fault aborted else remove_nth l (l.num_entries - 1))
  unfolding get remove_nth
  get-remove_nth l v = elim (Bool-cases (l.num_entries == 0)) [
    | inl none_left ↦ ground (arith, none_left)
    | inr some_left ↦
        let last : l.num_entries - 1 < l.num_entries = ground arith in
        let inside : ltb (l.num_entries - 1) l.num_entries ≡ true = ground arith in
        let any : ltb 0 l.num_entries ≡ true = ground arith in
        let nothing : l.num_entries - 1 - (l.num_entries - 1) ≡ 0 = omega arith in
        rw (some_left, any, inside, at-item l (l.num_entries - 1) v last, nothing)
          (unfold shift_down in refl)
  ]
