-- ===== src/Library/Permissions.antt =====
-- apps/server/src/library/permissions.ts: what a device may do with a shared folder.
--
-- A row of `folder_permissions` is the first of its device and folder, the table's key; `shared_folders`
-- is a map by id. The order of the labels is a parameter, the collation of SQLite.
pub mod Visible
mod Tests
use local_cast.Base.{
  Bool, true, false, not, ◌&&◌, List, [], ◌∷◌, Option, none, some, Text, text_eq, if◌then◌else◌,
  Result, ok, err, ◌>>◌, throw_if,
}
use local_cast.Contract.Errors.{
  ErrorCode, plain, not_found, forbidden, download_not_allowed, print_not_allowed,
  upload_not_allowed,
}
use local_cast.Contract.Permissions.{AccessMode, Operation, can}
use local_cast.Maps.{get}

pub record PermissionRow : Type 0 where
  pub device_id : Text
  pub folder_id : Text
  pub mode : AccessMode

pub record FolderRow : Type 0 where
  pub label : Text
  pub enabled : Bool

pub record Tables : Type 0 where
  pub folder_permissions : List PermissionRow
  pub shared_folders : List (Text × FolderRow)

-- `JOIN shared_folders f … WHERE f.enabled = 1`
abbrev pub if_enabled : Option FolderRow → Option FolderRow
if_enabled none = none
if_enabled (some f) = if f.enabled then some f else none

unfoldable pub find_mode : Text → Text → List PermissionRow → Option AccessMode
unfolding text_eq
find_mode device folder [] = none
find_mode device folder (p ∷ ps) =
    let rest = find_mode device folder ps in
    if text_eq p.device_id device && text_eq p.folder_id folder then some p.mode else rest

abbrev pub or_none : Option AccessMode → AccessMode
or_none none = AccessMode.none
or_none (some mode) = mode

abbrev pub joined_mode : Option FolderRow → Option AccessMode → AccessMode
joined_mode none m = AccessMode.none
joined_mode (some f) m = or_none m

unfoldable pub mode_for : Tables → Text → Text → AccessMode
unfolding find_mode get
mode_for t device folder =
    joined_mode (if_enabled (get folder t.shared_folders))
      (find_mode device folder t.folder_permissions)

-- `REFUSAL`
pub refusal : Operation → ErrorCode
refusal Operation.list = forbidden
refusal Operation.stream = forbidden
refusal Operation.download = download_not_allowed
refusal Operation.print = print_not_allowed
refusal Operation.upload = upload_not_allowed

abbrev pub is_none : AccessMode → Bool
is_none AccessMode.none = true
is_none mode = false

pub check_mode : AccessMode → Operation → Result (Unit {0})
unfolding refusal
check_mode mode op = do
  throw_if (is_none mode) (plain not_found)
  throw_if (not (can mode op)) (plain (refusal op))
  ok tt

unfoldable pub assert_can : Tables → Text → Text → Operation → Result (Unit {0})
unfolding mode_for check_mode
assert_can t device folder op = check_mode (mode_for t device folder) op

module _ (precedes : Text → Text → Bool) where
  -- `ORDER BY f.label`
  pub insert_label : Text × Text → List (Text × Text) → List (Text × Text)
  insert_label e [] = e ∷ []
  insert_label (l, id) ((m, jd) ∷ es) =
      let rest = insert_label (l, id) es in
      if precedes m l then (m, jd) ∷ rest else (l, id) ∷ (m, jd) ∷ es

  pub order_labels : List (Text × Text) → List (Text × Text)
  unfolding insert_label
  order_labels [] = []
  order_labels (e ∷ es) = insert_label e (order_labels es)

abbrev pub add_row : Bool → Text → Option FolderRow → List (Text × Text) → List (Text × Text)
add_row shown id none es = es
add_row shown id (some f) es = if shown then (f.label, id) ∷ es else es

-- The rows of the query of `visibleFolders`, label and id.
pub visible_rows : Text → List (Text × FolderRow) → List PermissionRow → List (Text × Text)
unfolding text_eq get
visible_rows device folders [] = []
visible_rows device folders (p ∷ ps) =
    add_row (text_eq p.device_id device && not (is_none p.mode)) p.folder_id
      (if_enabled (get p.folder_id folders)) (visible_rows device folders ps)

pub ids_of : List (Text × Text) → List Text
ids_of [] = []
ids_of ((label, id) ∷ es) = id ∷ ids_of es

pub visible_folders : (Text → Text → Bool) → Tables → Text → List Text
unfolding ids_of order_labels visible_rows
visible_folders precedes t device =
    ids_of (order_labels precedes (visible_rows device t.shared_folders t.folder_permissions))

pub require_mode : Tables → Text → Text → Operation → Result AccessMode
unfolding assert_can mode_for
require_mode t device folder op = do assert_can t device folder op; ok (mode_for t device folder)
