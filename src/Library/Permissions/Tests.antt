-- ===== src/Library/Permissions/Tests.antt =====
-- A device with three folders, and the theorems on library/permissions.ts at them.
use Prim.Native.String.{String}
use local_cast.Base.{◌≡◌, ◌↔◌, refl, Bool, true, false, [], ◌∷◌, Text, codes, ok, err, leb}
use local_cast.Contract.Errors.{plain, not_found, download_not_allowed}
use local_cast.Contract.Permissions.{AccessMode, Operation, can}
use local_cast.Library.Permissions.{
  PermissionRow, Tables, mode_for, assert_can, visible_folders, require_mode,
}
use local_cast.Library.Permissions.Visible.{visible_folders_iff, assert_can_iff, HasKey}
use local_cast.Sets.{has}

-- By the first letter.
abbrev precedes : Text → Text → Bool
precedes (a ∷ s) (b ∷ t) = leb a b
precedes s t = true

abbrev grant : String → AccessMode → PermissionRow
grant folder mode = record { device_id = codes "d"; folder_id = codes folder; mode = mode }

abbrev tables : Tables
tables = record {
  folder_permissions =
      grant "films" AccessMode.stream
      ∷ grant "books" AccessMode.full
      ∷ grant "old" AccessMode.full
      ∷ [];
  shared_folders =
      (codes "books", record { label = codes "Books"; enabled = true })
      ∷ (codes "films", record { label = codes "Films"; enabled = true })
      ∷ (codes "old", record { label = codes "Old"; enabled = false })
      ∷ [];
}

seen_folders : visible_folders precedes tables (codes "d") ≡ codes "books" ∷ codes "films" ∷ []
unfolding visible_folders
seen_folders = refl

no_download :
    assert_can tables (codes "d") (codes "films") Operation.download
    ≡ err (plain download_not_allowed)
unfolding assert_can
no_download = refl

books_mode : require_mode tables (codes "d") (codes "books") Operation.upload ≡ ok AccessMode.full
unfolding require_mode
books_mode = refl

tables-HasKey : HasKey tables.folder_permissions
unfolding assert_can
tables-HasKey = (refl, (refl, (refl, tt)))

visible_folders_iff_example :
    (has (codes "old") (visible_folders precedes tables (codes "d")) ≡ true)
    ↔ (assert_can tables (codes "d") (codes "old") Operation.list ≡ ok tt)
visible_folders_iff_example =
    visible_folders_iff precedes tables (codes "d") (codes "old") tables-HasKey

assert_can_iff_example :
    ((assert_can tables (codes "d") (codes "old") Operation.print ≡ ok tt)
      ↔ (can (mode_for tables (codes "d") (codes "old")) Operation.print ≡ true))
    × (has (codes "old") (visible_folders precedes tables (codes "d")) ≡ false
        → assert_can tables (codes "d") (codes "old") Operation.print ≡ err (plain not_found))
assert_can_iff_example =
    assert_can_iff precedes tables (codes "d") (codes "old") Operation.print tables-HasKey
