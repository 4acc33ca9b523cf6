-- ===== src/Monitor/Groups.antt =====
-- hub/monitor.py: the grouping of a cycle's rows by repository.
use dev_gate_agentic_framewo.Common.{
  ℕ, ◌+◌, String, ◌≡◌, refl, Bool, true, List, [], ◌∷◌, length, length-append, count, arith,
  Bool-cases, inl, inr, ◌==◌, string_eq, ◌&&◌, not, All, All-append,
}
use dev_gate_agentic_framewo.Common.Dict.{Dict}
use dev_gate_agentic_framewo.Registry.{Runner}
use dev_gate_agentic_framewo.Monitor.Poll.{add_row, group_rows}

-- The rows that a cycle polls.
abbrev pub is_polled : Runner → Bool
is_polled r = r.enrolled && not (r.repo == "")

abbrev pub rows_in : Dict (List Runner) → ℕ
rows_in [] = 0
rows_in ((_, rows) ∷ d) = length rows + rows_in d

-- Each group holds enrolled rows of its own repository.
abbrev pub BelongsTo : String → Runner → Type 0
BelongsTo repo r = (r.enrolled ≡ true) × (r.repo ≡ repo)

abbrev pub IsGrouped : Dict (List Runner) → Type 0
IsGrouped [] = Unit
IsGrouped ((repo, rows) ∷ d) = All (BelongsTo repo) rows × IsGrouped d

rows_in-add_row :
    (repo : String) (r : Runner) (d : Dict (List Runner))
    → rows_in (add_row repo r d) ≡ rows_in d + 1
unfolding add_row
rows_in-add_row repo r [] = refl
rows_in-add_row repo r ((j, rows) ∷ d) =
    ground (arith, rows_in-add_row repo r d, length-append rows (r ∷ []))

add_row-IsGrouped :
    (r : Runner) (d : Dict (List Runner))
    → r.enrolled ≡ true
    → IsGrouped d
    → IsGrouped (add_row r.repo r d)
unfolding add_row
add_row-IsGrouped r [] live h = (((live, refl), tt), tt)
add_row-IsGrouped r ((j, rows) ∷ d) live h = elim (Bool-cases (r.repo == j)) [
  | inl same ↦ rw same (All-append (BelongsTo j) rows (r ∷ []) h.0 ((live, ground arith), tt), h.1)
  | inr other ↦ rw other (h.0, add_row-IsGrouped r d live h.1)
]

rows_in-group_rows :
    (d : Dict (List Runner)) (rs : List Runner)
    → rows_in (group_rows d rs) ≡ rows_in d + count is_polled rs
unfolding group_rows
rows_in-group_rows d [] = omega arith
rows_in-group_rows d (r ∷ rs) = elim (Bool-cases (is_polled r)) [
  | inl p ↦
      rw p (omega (arith, rows_in-group_rows (add_row r.repo r d) rs, rows_in-add_row r.repo r d))
  | inr p ↦ rw p (omega (arith, rows_in-group_rows d rs))
]

group_rows-IsGrouped_from :
    (d : Dict (List Runner)) (rs : List Runner) → IsGrouped d → IsGrouped (group_rows d rs)
unfolding group_rows
group_rows-IsGrouped_from d [] h = h
group_rows-IsGrouped_from d (r ∷ rs) h = elim (Bool-cases (is_polled r)) [
  | inl p ↦
      rw p
        (group_rows-IsGrouped_from (add_row r.repo r d) rs (add_row-IsGrouped r d (ground arith) h))
  | inr p ↦ rw p (group_rows-IsGrouped_from d rs h)
]

-- The groups of a cycle hold only enrolled rows, each under its own repository, and together as
-- many as the registry has enrolled rows with a repository: no such row is skipped or polled twice.
pub group_rows_complete :
    (rows : List Runner)
    → IsGrouped (group_rows [] rows) × (rows_in (group_rows [] rows) ≡ count is_polled rows)
group_rows_complete rows =
    (group_rows-IsGrouped_from [] rows tt, omega (arith, rows_in-group_rows [] rows))
