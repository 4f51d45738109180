-- ===== src/EntryList/Tests.antt =====
-- Examples of what is proved of the list of dict/List.h.
use zeek_snippets.Prelude.{ℕ, zero, suc, Bool, ltb, get_or, ◌≡◌, refl, [], ◌∷◌, arith, ◌==◌}
use zeek_snippets.Run.{Returns}
use zeek_snippets.EntryList.{EntryList, sortedinsert}
use zeek_snippets.EntryList.Sorted.{IsFalling, Placed, sortedinsert-Placed}
use zeek_snippets.EntryList.View.{elements}
use zeek_snippets.EntryList.Steps.{append_op, remove_op, insert_op, steps, steps-apply_all}
use zeek_snippets.EntryList.Cells.{IsValid}

-- A list that is full: the next element makes it grow.
abbrev full_list : EntryList ℕ
full_list = record { entries = 5 ∷ 6 ∷ 7 ∷ []; max_entries = 3; num_entries = 3 }

full_list-IsValid : IsValid full_list
full_list-IsValid = record { cells = refl; fits = omega arith }

-- The comparison of sortedinsert by size, so that the list falls.
abbrev larger : ℕ → ℕ → Bool
larger x y = ltb y x

abbrev falling_list : EntryList ℕ
falling_list = record { entries = 7 ∷ 5 ∷ 2 ∷ []; max_entries = 3; num_entries = 3 }

falling_list-IsFalling : IsFalling 0 larger falling_list
unfolding get_or
falling_list-IsFalling zero h = refl
falling_list-IsFalling (suc zero) h = refl
falling_list-IsFalling (suc (suc i)) h = absurd (omega arith)

sortedinsert-Placed_example :
    Returns (Placed 0 larger falling_list 6) (sortedinsert 0 larger falling_list 6)
sortedinsert-Placed_example =
    sortedinsert-Placed 0 larger falling_list 6 (λ x y on. ground (arith, on))
      (record { cells = refl; fits = omega arith }) falling_list-IsFalling

abbrev same : ℕ → ℕ → Bool
same x y = x == y

steps-apply_all_example :
    Returns
      (λ r. IsValid r × (elements r ≡ 9 ∷ 5 ∷ 7 ∷ 8 ∷ []))
      (steps 0 same (append_op 8 ∷ remove_op 6 ∷ insert_op 9 ∷ []) full_list)
steps-apply_all_example =
    steps-apply_all 0 same (append_op 8 ∷ remove_op 6 ∷ insert_op 9 ∷ []) full_list
      full_list-IsValid
