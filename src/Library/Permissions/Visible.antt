-- ===== src/Library/Permissions/Visible.antt =====
-- apps/server/src/library/permissions.ts: the folders that a device sees, against what it may do.
use local_cast.Base.{
  ◌≡◌, ◌↔◌, refl, ◌∙◌, sym, ap, Bool, true, false, not, ◌&&◌, ◌||◌, List, [], ◌∷◌, Option, none,
  some, Text, text_eq, text_eq_iff, if◌then◌else◌, ok, err, arith, Bool-cases, inl, inr,
}
use local_cast.Contract.Errors.{plain, not_found}
use local_cast.Contract.Permissions.{AccessMode, Operation, can}
use local_cast.Library.Permissions.{
  PermissionRow, FolderRow, Tables, if_enabled, find_mode, joined_mode, mode_for, is_none,
  check_mode, assert_can, insert_label, order_labels, add_row, visible_rows, ids_of,
  visible_folders,
}
use local_cast.Maps.{get}
use local_cast.Sets.{has}

-- The key of the table: no two rows of a device and folder.
abbrev pub HasKey : List PermissionRow → Type 0
HasKey [] = Unit
HasKey (p ∷ ps) = (find_mode p.device_id p.folder_id ps ≡ none) × HasKey ps

or_swap : (a b c : Bool) → (a || (b || c)) ≡ (b || (a || c))
or_swap true true c = refl
or_swap true false c = refl
or_swap false b c = refl

has-insert_label :
    (precedes : Text → Text → Bool) (id l k : Text) (es : List (Text × Text))
    → has id (ids_of (insert_label precedes (l, k) es)) ≡ (text_eq k id || has id (ids_of es))
unfolding insert_label ids_of has
has-insert_label precedes id l k [] = refl
has-insert_label precedes id l k ((m, j) ∷ es) = elim (Bool-cases (precedes m l)) [
  | inl e ↦ rw e (
      ap (λ b. text_eq j id || b) (has-insert_label precedes id l k es)
      ∙ or_swap (text_eq j id) (text_eq k id) (has id (ids_of es)))
  | inr e ↦ rw e refl
]

has-order_labels :
    (precedes : Text → Text → Bool) (id : Text) (es : List (Text × Text))
    → has id (ids_of (order_labels precedes es)) ≡ has id (ids_of es)
unfolding order_labels ids_of has
has-order_labels precedes id [] = refl
has-order_labels precedes id ((l, k) ∷ es) =
    has-insert_label precedes id l k (order_labels precedes es)
    ∙ ap (λ b. text_eq k id || b) (has-order_labels precedes id es)

abbrev is_some : Option FolderRow → Bool
is_some none = false
is_some (some f) = true

has-add_row :
    (shown : Bool) (k id : Text) (m : Option FolderRow) (es : List (Text × Text))
    → has id (ids_of (add_row shown k m es))
      ≡ (shown && is_some m && text_eq k id || has id (ids_of es))
unfolding ids_of has
has-add_row true k id none es = refl
has-add_row false k id none es = refl
has-add_row true k id (some f) es = refl
has-add_row false k id (some f) es = refl

-- Only the row of the folder that is asked for counts.
same_folder :
    (shown : Bool) (k id : Text) (folders : List (Text × FolderRow))
    → (shown && is_some (if_enabled (get k folders)) && text_eq k id)
      ≡ (shown && is_some (if_enabled (get id folders)) && text_eq k id)
same_folder shown k id folders = elim (Bool-cases (text_eq k id)) [
  | inl e ↦
      ap (λ j. shown && is_some (if_enabled (get j folders)) && text_eq k id)
        ((text_eq_iff k id).0 e)
  | inr e ↦
      rw e (go shown (is_some (if_enabled (get k folders))) (is_some (if_enabled (get id folders))))
]
  where
    go : (a b c : Bool) → (a && b && false) ≡ (a && c && false)
    go a b c = ground arith

-- A row of the table, and the rows behind it.
row_shown :
    (d f : Bool) (mode : AccessMode) (m : Option FolderRow) (rest : Option AccessMode)
    → (d && f ≡ true → rest ≡ none)
    → ((d && not (is_none mode)) && is_some m && f || not (is_none (joined_mode m rest)))
      ≡ not (is_none (joined_mode m (if d && f then some mode else rest)))
row_shown d f mode m rest h = ground arith

-- The key, at the row that is asked for.
key_behind :
    (p : PermissionRow) (ps : List PermissionRow) (device id : Text)
    → find_mode p.device_id p.folder_id ps ≡ none
    → (text_eq p.device_id device && text_eq p.folder_id id) ≡ true
    → find_mode device id ps ≡ none
key_behind p ps device id fresh h =
    let d : text_eq p.device_id device ≡ true = ground arith in
    let f : text_eq p.folder_id id ≡ true = ground arith in
    rw⁻¹ ((text_eq_iff p.device_id device).0 d, (text_eq_iff p.folder_id id).0 f) fresh

has-visible_rows :
    (device id : Text) (folders : List (Text × FolderRow)) (ps : List PermissionRow)
    → HasKey ps
    → has id (ids_of (visible_rows device folders ps))
      ≡ not (is_none (joined_mode (if_enabled (get id folders)) (find_mode device id ps)))
unfolding visible_rows find_mode ids_of has
has-visible_rows device id folders [] key = go (if_enabled (get id folders))
  where
    go : (m : Option FolderRow) → has id (ids_of []) ≡ not (is_none (joined_mode m none))
    go none = refl
    go (some f) = refl
has-visible_rows device id folders (p ∷ ps) (fresh, key) =
    let shown = text_eq p.device_id device && not (is_none p.mode) in
    let rest = visible_rows device folders ps in
    has-add_row shown p.folder_id id (if_enabled (get p.folder_id folders)) rest
    ∙ ap (λ b. b || has id (ids_of rest)) (same_folder shown p.folder_id id folders)
    ∙ ap (λ b. shown && is_some (if_enabled (get id folders)) && text_eq p.folder_id id || b)
        (has-visible_rows device id folders ps key)
    ∙ row_shown (text_eq p.device_id device) (text_eq p.folder_id id) p.mode
        (if_enabled (get id folders)) (find_mode device id ps) (key_behind p ps device id fresh)

allowed : (mode : AccessMode) (op : Operation) → (check_mode mode op ≡ ok tt) ↔ (can mode op ≡ true)
unfolding check_mode
allowed AccessMode.none op = ((λ e. ground arith), (λ e. ground arith))
allowed AccessMode.full op = ((λ e. refl), (λ e. refl))
allowed AccessMode.stream op = elim (Bool-cases (can AccessMode.stream op)) [
  | inl e ↦ ((λ h. e), (λ h. rw e refl))
  | inr e ↦ ((λ h. ground arith), (λ h. ground arith))
]

listed : (mode : AccessMode) → (can mode Operation.list ≡ true) ↔ (not (is_none mode) ≡ true)
listed AccessMode.none = ((λ e. e), (λ e. e))
listed AccessMode.full = ((λ e. e), (λ e. e))
listed AccessMode.stream = ((λ e. e), (λ e. e))

-- A device sees exactly the folders in which it may list the files.
pub visible_folders_iff :
    (precedes : Text → Text → Bool) (t : Tables) (device folder : Text)
    → HasKey t.folder_permissions
    → (has folder (visible_folders precedes t device) ≡ true)
      ↔ (assert_can t device folder Operation.list ≡ ok tt)
unfolding visible_folders assert_can mode_for
visible_folders_iff precedes t device folder key =
    let mode = mode_for t device folder in
    let same =
      has-order_labels precedes folder (visible_rows device t.shared_folders t.folder_permissions)
      ∙ has-visible_rows device folder t.shared_folders t.folder_permissions key in
    (
      (λ h. (allowed mode Operation.list).1 ((listed mode).1 (sym same ∙ h))),
      (λ h. same ∙ (listed mode).0 ((allowed mode Operation.list).0 h)),
    )

-- An operation is let through exactly when the matrix of the contract has it for the mode of the
-- folder. A folder that the device does not see answers every operation as a folder does that is not
-- there: that it was not found.
pub assert_can_iff :
    (precedes : Text → Text → Bool) (t : Tables) (device folder : Text) (op : Operation)
    → HasKey t.folder_permissions
    → ((assert_can t device folder op ≡ ok tt) ↔ (can (mode_for t device folder) op ≡ true))
      × (has folder (visible_folders precedes t device) ≡ false
          → assert_can t device folder op ≡ err (plain not_found))
unfolding visible_folders assert_can mode_for
assert_can_iff precedes t device folder op key =
    let same =
      has-order_labels precedes folder (visible_rows device t.shared_folders t.folder_permissions)
      ∙ has-visible_rows device folder t.shared_folders t.folder_permissions key in
    (allowed (mode_for t device folder) op, (λ h. closed (mode_for t device folder) (sym same ∙ h)))
  where
    closed :
        (mode : AccessMode)
        → not (is_none mode) ≡ false
        → check_mode mode op ≡ err (plain not_found)
    closed mode h = ground arith
