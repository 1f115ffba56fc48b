-- ===== src/Models/Batch.antt =====
-- models.validate_unique_device_ids, over the identifiers of a batch.
use robot_fleet_management.Base.{
  ℕ, List, [], ◌∷◌, if◌then◌else◌, elem, Result, ok, raise, value_error,
}

-- The loop's `seen` and `duplicates`.
scan_duplicates : List ℕ → List ℕ → List ℕ → List ℕ
scan_duplicates seen duplicates [] = duplicates
scan_duplicates seen duplicates (d ∷ ids) =
    scan_duplicates (d ∷ seen) (if elem d seen then d ∷ duplicates else duplicates) ids

unfoldable pub validate_unique_device_ids : List ℕ → Result (Unit {0})
unfolding scan_duplicates
validate_unique_device_ids ids = elim (scan_duplicates [] [] ids) [
  | [] ↦ ok tt
  | d ∷ ds ↦ raise value_error
]
