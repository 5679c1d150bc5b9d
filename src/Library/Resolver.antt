-- ===== src/Library/Resolver.antt =====
-- apps/server/src/library/resolver.ts: `FsFileResolver`, which turns a path of a client into a file of a
-- shared folder.
--
-- The file system and the functions of node:path are the record `FileSystem`. Of the answer of `stat`
-- the times are left out, and so is the entry that the client is sent.
pub mod Inside
mod Tests
use local_cast.Base.{
  ℕ, zero, suc, ◌-◌, Bool, true, false, not, ◌&&◌, ◌||◌, List, [], ◌∷◌, ◌++◌, Option, none, some,
  Text, codes, text_eq, starts_with, ◌==◌, if◌then◌else◌, length, take, drop, Result, ok, err,
  ◌>>=◌, ◌>>◌, throw_if,
}
use local_cast.Contract.Errors.{
  plain, not_found, folder_unavailable, path_escapes_root, upload_not_allowed, internal,
}
use local_cast.Library.{strip_long_path_prefix, split_segments, is_inside_root}
use local_cast.Library.RelPath.{is_letter, sanitise_rel_path}
use local_cast.Maps.{get}

-- `/^[a-zA-Z]:\\/`
pub has_drive_root : Text → Bool
unfolding is_letter
has_drive_root (c ∷ d ∷ e ∷ s) = is_letter c && d == b':' && e == 92
has_drive_root _ = false

pub record SharedFolder : Type 0 where
  pub id : Text
  pub path : Text
  pub label : Text
  pub writable : Bool
  pub enabled : Bool
  pub available : Bool

-- What `realpath` comes to: a path, that there is nothing, or another error.
pub data RealPath : Type 0 where
  real : Text → RealPath
  no_entry failed : RealPath

-- What `stat` comes to. A refusal counts as nothing being there.
pub data Stat : Type 0 where
  directory : Stat
  regular : ℕ → Stat
  special absent broken : Stat

pub record FileSystem : Type 0 where
  pub realpath : Text → RealPath
  pub stat : Text → Stat
  pub resolve : Text → List Text → Text
  pub join : Text → List Text → Text

pub record ResolvedFile : Type 0 where
  pub folder_id : Text
  pub abs_path : Text
  pub rel_path : Text
  pub name : Text
  pub size : ℕ
  pub is_dir : Bool

pub record ResolvedPath : Type 0 where
  pub abs_path : Text
  pub real_path : Text
  pub segments : List Text

-- A row of the table `files`.
pub record IndexedFile : Type 0 where
  pub folder_id : Text
  pub rel_path : Text

-- `segments.join(…)`
pub join_with : Text → List Text → Text
join_with d [] = []
join_with d (w ∷ []) = w
join_with d (w ∷ v ∷ ws) = w ++ (d ++ join_with d (v ∷ ws))

pub last_or : Text → List Text → Text
last_or label [] = label
last_or label (w ∷ []) = w
last_or label (w ∷ v ∷ ws) = last_or label (v ∷ ws)

abbrev pub is_nil : List Text → Bool
is_nil [] = true
is_nil (w ∷ ws) = false

pub get_folder : List (Text × SharedFolder) → Text → Result SharedFolder
unfolding get
get_folder folders id = elim (get id folders) [
  | none ↦ err (plain not_found)
  | some f ↦ throw_if (not f.enabled) (plain not_found) >> ok f
]

-- What the resolver is given: the platform, the case functions, decoding, and the file system.
pub record Platform : Type 0 where
  pub windows : Bool
  pub lower : Text → Text
  pub upper : Text → Text
  pub decode : Text → Option Text
  pub fs : FileSystem

module _ (p : Platform) where
  pub with_long_path_prefix : Text → Text
  unfolding starts_with has_drive_root
  with_long_path_prefix s =
      if not p.windows || starts_with s (codes "\\\\?\\")
      then s
      else if starts_with s (codes "\\\\")
      then codes "\\\\?\\UNC\\" ++ drop 2 s
      else if has_drive_root s
      then codes "\\\\?\\" ++ s
      else s

  -- The path of the first segments.
  pub probe : Bool → List Text → Text
  unfolding join_with
  probe unc head =
      if unc
      then codes "\\\\" ++ join_with (codes "\\") head
      else if p.windows
      then join_with (codes "\\") head
      else codes "/" ++ join_with (codes "/") head

  pub with_tail : Text → List Text → Text
  with_tail s [] = s
  with_tail s (w ∷ ws) = p.fs.join s (w ∷ ws)

  -- The loop over the depths, down to two segments; `tail` has what is behind the head.
  pub deepest : Bool → List Text → ℕ → Result Text
  unfolding probe with_tail with_long_path_prefix
  deepest unc parts zero = err (plain not_found)
  deepest unc parts (suc zero) = err (plain not_found)
  deepest unc parts (suc (suc n)) =
      let above = deepest unc parts (suc n) in
      elim (p.fs.realpath (with_long_path_prefix (probe unc (take (suc (suc n)) parts)))) [
        | real s ↦ ok (with_tail s (drop (suc (suc n)) parts))
        | no_entry ↦ above
        | failed ↦ err (plain internal)
      ]

  pub realpath_or_deepest : Text → Result Text
  unfolding deepest split_segments strip_long_path_prefix starts_with
  realpath_or_deepest target =
      let parts = split_segments target in
      let above =
        deepest (starts_with (strip_long_path_prefix target) (codes "\\\\")) parts (length parts) in
      elim (p.fs.realpath target) [
        | real s ↦ ok s
        | no_entry ↦ above
        | failed ↦ err (plain internal)
      ]

  pub real_root : Text → Result Text
  unfolding with_long_path_prefix
  real_root root = elim (p.fs.realpath (with_long_path_prefix root)) [
    | real s ↦ ok s
    | no_entry ↦ err (plain folder_unavailable)
    | failed ↦ err (plain internal)
  ]

  abbrev pub joined : Text → List Text → Text
  joined root [] = root
  joined root (w ∷ ws) = p.fs.resolve root (w ∷ ws)

  pub resolve_path : SharedFolder → Text → Result ResolvedPath
  unfolding sanitise_rel_path strip_long_path_prefix is_inside_root real_root realpath_or_deepest
      with_long_path_prefix
  resolve_path folder rel_path = do
    segments ← sanitise_rel_path p.upper p.decode rel_path
    let root = strip_long_path_prefix folder.path
    let target = joined root segments
    throw_if (not (is_inside_root p.windows p.lower root target)) (plain path_escapes_root)
    root_real ← real_root root
    found ← realpath_or_deepest (with_long_path_prefix target)
    throw_if
        (not (
          is_inside_root p.windows p.lower (strip_long_path_prefix root_real)
            (strip_long_path_prefix found)))
        (plain path_escapes_root)
    ok (record {
      abs_path = with_long_path_prefix (strip_long_path_prefix found);
      real_path = strip_long_path_prefix found;
      segments = segments;
    })

  pub answer : SharedFolder → ResolvedPath → Stat → Result ResolvedFile
  unfolding join_with last_or
  answer folder r absent = err (plain not_found)
  answer folder r broken = err (plain internal)
  answer folder r special = err (plain not_found)
  answer folder r directory = ok (record {
    folder_id = folder.id;
    abs_path = r.abs_path;
    rel_path = join_with (codes "/") r.segments;
    name = last_or folder.label r.segments;
    size = 0;
    is_dir = true;
  })
  answer folder r (regular size) = ok (record {
    folder_id = folder.id;
    abs_path = r.abs_path;
    rel_path = join_with (codes "/") r.segments;
    name = last_or folder.label r.segments;
    size = size;
    is_dir = false;
  })

  pub resolve : List (Text × SharedFolder) → Text → Text → Result ResolvedFile
  unfolding get_folder resolve_path answer
  resolve folders id rel_path = do
    folder ← get_folder folders id
    throw_if (not folder.available) (plain folder_unavailable)
    r ← resolve_path folder rel_path
    answer folder r (p.fs.stat r.abs_path)

  -- The index only turns an id into a name.
  pub resolve_by_id :
      List (Text × SharedFolder) → List (Text × IndexedFile) → Text → Result ResolvedFile
  unfolding resolve get
  resolve_by_id folders files id = elim (get id files) [
    | none ↦ err (plain not_found)
    | some f ↦ resolve folders f.folder_id f.rel_path
  ]

  pub resolve_writable : List (Text × SharedFolder) → Text → Text → Result Text
  unfolding get_folder sanitise_rel_path resolve_path
  resolve_writable folders id rel_path = do
    folder ← get_folder folders id
    throw_if (not folder.writable) (plain upload_not_allowed)
    throw_if (not folder.available) (plain folder_unavailable)
    segments ← sanitise_rel_path p.upper p.decode rel_path
    throw_if (is_nil segments) (plain path_escapes_root)
    r ← resolve_path folder rel_path
    ok r.abs_path
