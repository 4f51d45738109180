-- ===== src/Dict/Update/Order.antt =====
-- The order of insertion that Insert of dict/OpenDict.cc keeps.
use zeek_snippets.Prelude.{
  ℕ, zero, suc, ◌+◌, ◌<◌, ◌≡◌, sym, ◌∙◌, true, false, List, [], ◌∷◌, ◌++◌, some, arith, ltb, leb,
  Bool-cases, inl, inr, subst, ◌==◌,
}
use zeek_snippets.Run.{Run, ok, ◌>>=◌, ensure, >>=-eq-ok}
use zeek_snippets.Dict.{DictEntry, IterCookie, Dictionary, is_empty, entry_at, write_at}
use zeek_snippets.Dict.Math.{capacity, threshold_entries}
use zeek_snippets.Dict.Cluster.{end_of_cluster_by_position}
use zeek_snippets.Dict.Relocate.{size_up, insert_and_relocate, insert_relocating}
use zeek_snippets.Dict.Relocate.Displaced.{
  IsFrom, insert_relocating-returns, displace_step, unread_step, moved_on, no_fuel,
}
use zeek_snippets.Dict.Update.{
  adjust_cookies, adjust_on_insert, cover, insert_relocate_and_adjust, push_order, count_inserted,
  insert_new,
}

write_at-order :
    (d r : Dictionary) (i : ℕ) (e : DictEntry) → write_at d i e ≡ ok r → r.order ≡ d.order
unfolding write_at
write_at-order d r i e run = ground (arith, run)

size_up-order : (d r : Dictionary) → size_up d ≡ ok r → r.order ≡ d.order
unfolding size_up
size_up-order d r run = ground (arith, run)

outside-order :
    (k : ℕ) (d r : Dictionary) (e e' : DictEntry) (i last : ℕ)
    → leb (capacity d false) i ≡ true
    → insert_and_relocate (suc k) d e i ≡ ok (r, e', last)
    → r.order ≡ d.order
unfolding insert_and_relocate
outside-order k d r e e' i last out run =
    let (u, at_end, run₁) = >>=-eq-ok (ensure (i == capacity d false)) _ (rw out at run) in
    let (d₁, grown, run₂) = >>=-eq-ok (size_up d) _ run₁ in
    let (d₂, wrote, run₃) = >>=-eq-ok (write_at d₁ i e) _ run₂ in
    ground (arith, run₃, write_at-order d₁ d₂ i e wrote, size_up-order d d₁ grown)

settle-order :
    (k : ℕ) (d r : Dictionary) (e e' t : DictEntry) (i last : ℕ)
    → leb (capacity d false) i ≡ false
    → entry_at d i ≡ ok t
    → is_empty t ≡ true
    → insert_and_relocate (suc k) d e i ≡ ok (r, e', last)
    → r.order ≡ d.order
unfolding insert_and_relocate
settle-order k d r e e' t i last within at clear run =
    let (d₁, wrote, run₁) = >>=-eq-ok (write_at d i e) _ (rw (within, at, ◌>>=◌, clear) at run) in
    ground (arith, run₁, write_at-order d d₁ i e wrote)

-- InsertAndRelocate, which may size the table up, leaves the order of insertion alone.
insert_and_relocate-order :
    (k : ℕ) (d r : Dictionary) (e e' : DictEntry) (i last : ℕ)
    → insert_and_relocate k d e i ≡ ok (r, e', last)
    → r.order ≡ d.order
insert_and_relocate-order zero d r e e' i last run = absurd (no_fuel d r e e' i last run)
insert_and_relocate-order (suc k) d r e e' i last run =
    elim (Bool-cases (leb (capacity d false) i)) [
      | inl out ↦ outside-order k d r e e' i last out run
      | inr within ↦
          let inside : i < capacity d false = ground arith in
          let (t, at) = unread_step k d r e e' i last inside run in
          elim (Bool-cases (is_empty t)) [
            | inl clear ↦ settle-order k d r e e' t i last within at clear run
            | inr full ↦
                let step = sym (displace_step k d e t i inside at full) ∙ run in
                let (next, end, run₁) = >>=-eq-ok (end_of_cluster_by_position d i) _ step in
                let (d₁, wrote, run₂) = >>=-eq-ok (write_at d i e) _ run₁ in
                insert_and_relocate-order k d₁ r (moved_on t i next) e' next last run₂
                ∙ write_at-order d d₁ i e wrote
          ]
    ]

insert_relocating-order :
    (d r : Dictionary) (e e' : DictEntry) (i last : ℕ)
    → insert_relocating d e i ≡ ok (r, e', last)
    → r.order ≡ d.order
unfolding insert_relocating
insert_relocating-order d r e e' i last run =
    insert_and_relocate-order (capacity d false + 2) d r e e' i last run

adjust_cookies-order :
    (f : IterCookie → Run IterCookie) (d r : Dictionary)
    → adjust_cookies f d ≡ ok r
    → r.order ≡ d.order
unfolding adjust_cookies
adjust_cookies-order f d r run = ground (arith, run)

cover-order : (d : Dictionary) (i last : ℕ) → (cover d i last).order ≡ d.order
unfolding cover
cover-order d i last = ground arith

insert_relocate_and_adjust-order :
    (d r : Dictionary) (e e' t : DictEntry) (i : ℕ)
    → i < capacity d false
    → entry_at d i ≡ ok t
    → is_empty t ≡ false
    → insert_relocate_and_adjust d e i ≡ ok (r, e')
    → (r.order ≡ d.order) × IsFrom d i e'
unfolding insert_relocate_and_adjust
insert_relocate_and_adjust-order d r e e' t i inside at full run =
    let ((d₁, e₁, last), moved, run₁) = >>=-eq-ok (insert_relocating d e i) _ run in
    let (d₂, adjusted, run₂) =
      >>=-eq-ok (adjust_cookies (adjust_on_insert d₁ e₁ i last) (cover d₁ i last)) _ run₁ in
    let same : e₁ ≡ e' = ground (arith, run₂) in
    (
      ground (
        arith,
        run₂,
        adjust_cookies-order (adjust_on_insert d₁ e₁ i last) (cover d₁ i last) d₂ adjusted,
        cover-order d₁ i last,
        insert_relocating-order d d₁ e e₁ i last moved,
      ),
      subst (IsFrom d i) same (insert_relocating-returns d d₁ e e₁ t i last inside at full moved),
    )

-- Insert of a new key into an ordered dictionary, at a place that holds an entry `t`: if the call
-- returns, what it appended to the order of insertion is a copy of an entry that the table held
-- before, at that place or behind it.
pub insert_new-order :
    (d r : Dictionary) (e t : DictEntry) (es : List DictEntry) (i : ℕ)
    → d.order ≡ some es
    → i < capacity d false
    → entry_at d i ≡ ok t
    → is_empty t ≡ false
    → insert_new d e i ≡ ok r
    → (e' : DictEntry) × (r.order ≡ some (es ++ e' ∷ [])) × IsFrom d i e'
unfolding insert_new push_order count_inserted
insert_new-order d r e t es i ordered inside at full run =
    let (p, placed, run₁) = >>=-eq-ok (insert_relocate_and_adjust d e i) _ run in
    let (kept, from) = insert_relocate_and_adjust-order d p.0 e p.1 t i inside at full placed in
    let d₂ = count_inserted (record p.0 { order = push_order p.0.order p.1 }) in
    let order : r.order ≡ some (es ++ p.1 ∷ []) =
      elim (Bool-cases (ltb (threshold_entries d₂) d₂.num_entries)) [
        | inl full_table ↦
            size_up-order d₂ r (rw full_table at run₁) ∙ ground (arith, kept, ordered)
        | inr room ↦ ground (arith, run₁, room, kept, ordered)
      ] in
    (p.1, order, from)
