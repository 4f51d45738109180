-- ===== src/EntryList/Insert.antt =====
-- append, insert and sortedinsert of dict/List.h.
use zeek_snippets.Prelude.{
  ℕ, ◌+◌, ◌-◌, ◌<◌, ◌≡◌, ◌∙◌, length, length-set, get_or-set, arith, ◌==◌, if◌then◌else◌,
}
use zeek_snippets.Run.{Returns, returns, Returns-bind}
use zeek_snippets.EntryList.{EntryList, make_room, append, insert}
use zeek_snippets.EntryList.Cells.{IsValid, item, write-ok, make_room-HasRoom, shift_up-IsShiftedUp}

module _ {A : Type 0} (blank : A) where
  -- `r` is a valid list of one element more than `l`, whose elements `f` gives.
  pub record Holds (l : EntryList A) (f : ℕ → A) (r : EntryList A) : Type 0 where
    pub valid : IsValid r
    pub count : r.num_entries ≡ l.num_entries + 1
    pub items : (i : ℕ) → i < r.num_entries → item blank r i ≡ f i

  -- append to a valid list does not fault: the list gets `a` behind its elements.
  pub append-Holds :
      (l : EntryList A) (a : A)
      → IsValid l
      → Returns
          (Holds l (λ i. (if i == l.num_entries then a else item blank l i)))
          (append blank l a)
  unfolding append
  append-Holds l a v =
      let l₁ = make_room blank l in
      let g = make_room-HasRoom blank l v in
      let inside : l₁.num_entries < length l₁.entries = omega (arith, g.room, g.cells) in
      rw (write-ok blank l₁.entries l₁.num_entries a inside) (
        returns (record {
          valid = record {
            cells = length-set l₁.entries l₁.num_entries a ∙ g.cells;
            fits = omega (arith, g.room);
          };
          count = omega (arith, g.same);
          items = λ i h.
              ground
                (arith, g.same, g.items i, get_or-set l₁.entries l₁.num_entries i a blank inside);
        }))

  -- insert into a valid list does not fault: it gets `a` before its elements, which move up by one.
  pub insert-Holds :
      (l : EntryList A) (a : A)
      → IsValid l
      → Returns (Holds l (λ i. (if i == 0 then a else item blank l (i - 1)))) (insert blank l a)
  unfolding insert
  insert-Holds l a v =
      let l₁ = make_room blank l in
      let g = make_room-HasRoom blank l v in
      let inside : l₁.num_entries < length l₁.entries = omega (arith, g.room, g.cells) in
      Returns-bind (shift_up-IsShiftedUp blank l₁.num_entries l₁.entries inside) λ xs (width, at).
        let first : 0 < length xs = omega (arith, width) in
        rw (write-ok blank xs 0 a first) (
          returns (record {
            valid = record {
              cells = length-set xs 0 a ∙ width ∙ g.cells;
              fits = omega (arith, g.room);
            };
            count = omega (arith, g.same);
            items = λ i h.
                ground (arith, g.same, g.items (i - 1), at i, get_or-set xs 0 i a blank first);
          }))
