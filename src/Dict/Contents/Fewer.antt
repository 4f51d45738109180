-- ===== src/Dict/Contents/Fewer.antt =====
-- A table of dict/OpenDict.cc that loses one entry, and the steps of Remove around that.
use zeek_snippets.Prelude.{
  ℕ, ◌+◌, ◌-◌, ◌≤◌, ◌<◌, ◌≡◌, refl, ◌∙◌, true, false, Bool, List, Option, none, some, arith,
  if◌then◌else◌, ltb, Bool-cases, inl, inr,
}
use zeek_snippets.Run.{ok, ◌>>=◌}
use zeek_snippets.Dict.{DictEntry, Dictionary, is_empty, equal}
use zeek_snippets.Dict.Relocate.{remove_and_relocate}
use zeek_snippets.Dict.Relocate.Count.{one, count, IgnoresDistance}
use zeek_snippets.Dict.Update.{
  adjust_on_remove, remove_relocate_and_adjust, erase_from_order, remove_found,
}
use zeek_snippets.Dict.Contents.{for_key, binding}
use zeek_snippets.Dict.Contents.Keys.{for_key-IgnoresDistance, binding-IgnoresDistance}
use zeek_snippets.Dict.Contents.View.{value_in, value_in-free, value_in-same}
use zeek_snippets.Dict.Contents.Settled.{adjust_cookies_still}

module _ (d : Dictionary) (gone : DictEntry) (p : ℕ) (cookies : d.cookies ≡ none)
    (some_entries : 0 < d.num_entries) (T : List DictEntry) (last : ℕ)
    (order : Option (List DictEntry))
    (run : remove_and_relocate d p ≡ ok (record d { table = some T }, gone, last))
    (erased : erase_from_order gone d.order ≡ ok order) where
  abbrev shrunk : Dictionary
  shrunk = record d { table = some T; num_entries = d.num_entries - 1; order = order }

  remove_relocate_and_adjust-shrunk :
      remove_relocate_and_adjust d p ≡ ok (record d { table = some T }, gone)
  unfolding remove_relocate_and_adjust
  remove_relocate_and_adjust-shrunk =
      rw
        (
          run,
          ◌>>=◌,
          adjust_cookies_still (adjust_on_remove (record d { table = some T }) gone p last)
              (record d { table = some T }) cookies,
        )
        refl

  pub remove_found-shrunk : remove_found d p ≡ ok (gone.value, shrunk)
  unfolding remove_found
  remove_found-shrunk =
      let more : ltb 0 d.num_entries ≡ true = ground (arith, some_entries) in
      rw (remove_relocate_and_adjust-shrunk, ◌>>=◌, more, erased) refl

-- As a map, the table that lost an entry has nothing for the keys of that.
pub value_in-fewer :
    (t T : List DictEntry) (gone : DictEntry)
    → is_empty gone ≡ false
    → ((key : List ℕ) (key_size hash : ℕ) → count (for_key key key_size hash) t ≤ 1)
    → ((p : DictEntry → Bool) → IgnoresDistance p → count p T + one p gone ≡ count p t)
    → (key : List ℕ) (key_size hash : ℕ)
    → value_in T key key_size hash
      ≡ (if equal gone key key_size hash then 0 else value_in t key key_size hash)
value_in-fewer t T gone full unique counts key key_size hash =
    let total = λ (v : ℕ).
      counts (binding key key_size hash v) (binding-IgnoresDistance key key_size hash v) in
    let totals = counts (for_key key key_size hash) (for_key-IgnoresDistance key key_size hash) in
    elim (Bool-cases (equal gone key key_size hash)) [
      | inl on ↦
          value_in-free key key_size hash T
            (ground (arith, totals, full, on, unique key key_size hash))
          ∙ rw on refl
      | inr off ↦
          value_in-same key key_size hash t T (unique key key_size hash)
            (ground (arith, totals, full, off)) (λ v. ground (arith, total v, full, off))
          ∙ rw off refl
    ]
