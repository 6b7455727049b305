-- ===== src/Artifacts.antt =====
-- The extraction of an untrusted archive: `extract_zip_reader`, `safe_fs` and `symlink_stays_inside` of
-- src/runner_daemon/artifacts.rs. The archive is read by the zip crate and paths are taken apart by
-- the standard library; the calls are those of the file system, relative to an open directory.
pub mod Extraction
pub mod Symlinks
pub mod Tests
pub mod Writes
use turboci.Prelude.{
  ℕ, zero, suc, ◌+◌, ◌-◌, ◌*◌, ◌^◌, ◌%◌, Bool, true, false, ltb, if◌then◌else◌, List, [], ◌∷◌,
  length, Option, none, some, Bytes,
}
use turboci.Program.{Program, done, ask, ◌>>=◌, ◌>>◌}

-- `std::path::Component`.
pub data Component : Type 0 where
  normal : Bytes → Component
  cur_dir parent_dir root_dir prefix : Component

pub record ExtractLimits : Type 0 where
  pub max_entries : ℕ
  pub max_total_bytes : ℕ

abbrev pub default_limits : ExtractLimits
default_limits = record { max_entries = 100000; max_total_bytes = 10 * 1024 ^ 3 }

-- What the zip crate tells of an entry: a directory, a symlink with its target unless that is not
-- UTF-8, or a file.
pub data Kind : Type 0 where
  directory : Kind
  symlink : Option Bytes → Kind
  file : Kind

-- `enclosed_name` is none for an unsafe name; `mode` is what the archive says.
pub record Entry : Type 0 where
  pub enclosed_name : Option (List Component)
  pub kind : Kind
  pub mode : Option ℕ

-- A call that fails answers false or none. `open_root` and `reopen_root` start again at the
-- workspace; `enter` opens or creates a directory in the last one opened, and never follows a
-- symlink; `copy` writes at most so many bytes to the last file created.
pub data Op : Type 0 where
  create_root open_root reopen_root : Op
  check_stop : Op
  by_index : ℕ → Op
  enter : Bytes → Op
  create_symlink : Bytes → Bytes → Op
  create_file : Bytes → Op
  copy : ℕ → Op
  set_mode : ℕ → Op

abbrev pub Answer : Op → Type 0
Answer create_root = Bool
Answer open_root = Bool
Answer reopen_root = Bool
Answer check_stop = Bool
Answer (by_index i) = Option Entry
Answer (enter name) = Bool
Answer (create_symlink name target) = Bool
Answer (create_file name) = Bool
Answer (copy limit) = Option ℕ
Answer (set_mode mode) = Bool

abbrev pub Action : Type 0 → Type 0
Action A = Program Op Answer A

-- `?` on a call that fails. The result of a function is the bytes written so far, or none for an
-- error.
unfoldable pub continue : Action (Option ℕ) → Bool → Action (Option ℕ)
continue k true = k
continue k false = done none

-- `Path::parent`, of a path with components, and `Path::file_name`.
unfoldable pub parent : List Component → List Component
parent [] = []
parent (c ∷ []) = []
parent (c ∷ d ∷ cs) = c ∷ parent (d ∷ cs)

pub file_name : List Component → Option Bytes
file_name [] = none
file_name (normal name ∷ []) = some name
file_name (cur_dir ∷ []) = none
file_name (parent_dir ∷ []) = none
file_name (root_dir ∷ []) = none
file_name (prefix ∷ []) = none
file_name (c ∷ d ∷ cs) = file_name (d ∷ cs)

-- The loop of `symlink_stays_inside` over the target.
unfoldable pub stays_inside : ℕ → List Component → Bool
stays_inside depth [] = true
stays_inside depth (normal name ∷ cs) = stays_inside (depth + 1) cs
stays_inside depth (cur_dir ∷ cs) = stays_inside depth cs
stays_inside zero (parent_dir ∷ cs) = false
stays_inside (suc depth) (parent_dir ∷ cs) = stays_inside depth cs
stays_inside depth (root_dir ∷ cs) = false
stays_inside depth (prefix ∷ cs) = false

unfoldable pub is_absolute : List Component → Bool
is_absolute [] = false
is_absolute (root_dir ∷ cs) = true
is_absolute (normal name ∷ cs) = false
is_absolute (cur_dir ∷ cs) = false
is_absolute (parent_dir ∷ cs) = false
is_absolute (prefix ∷ cs) = false

unfoldable pub symlink_stays_inside : List Component → List Component → Bool
unfolding is_absolute
symlink_stays_inside link target =
    if is_absolute target then false else stays_inside (length (parent link)) target

-- `open_dirs` behind the opening of the root.
pub enter_dirs : List Component → Action (Option ℕ) → Action (Option ℕ)
unfolding continue
enter_dirs [] k = k
enter_dirs (normal name ∷ cs) k = ask (enter name) >>= continue (enter_dirs cs k)
enter_dirs (cur_dir ∷ cs) k = done none
enter_dirs (parent_dir ∷ cs) k = done none
enter_dirs (root_dir ∷ cs) k = done none
enter_dirs (prefix ∷ cs) k = done none

unfoldable pub saturating_sub : ℕ → ℕ → ℕ
saturating_sub a b = a - b

-- Permissions without the setuid, setgid and sticky bits.
set_permissions : Option ℕ → ℕ → Action (Option ℕ)
unfolding continue
set_permissions none total = done (some total)
set_permissions (some mode) total = ask (set_mode (mode % 512)) >>= continue (done (some total))

-- What is done with the bytes that were copied.
after_copy : ℕ → ℕ → Option ℕ → Option ℕ → Action (Option ℕ)
unfolding set_permissions
after_copy remaining total mode none = done none
after_copy remaining total mode (some written) =
    if ltb remaining written then done none else set_permissions mode (total + written)

write_file : ExtractLimits → ℕ → Option ℕ → Bytes → Action (Option ℕ)
unfolding after_copy saturating_sub continue
write_file limits total mode name =
    let remaining = saturating_sub limits.max_total_bytes total in
    ask (create_file name)
    >>= continue (ask (copy (remaining + 1)) >>= after_copy remaining total mode)

-- A symlink that would point outside the workspace is skipped.
write_symlink :
    (Bytes → List Component) → ℕ → List Component → Bytes → Option Bytes → Action (Option ℕ)
unfolding continue
write_symlink components total rel_path name none = done none
write_symlink components total rel_path name (some target) =
    if symlink_stays_inside rel_path (components target)
    then ask (create_symlink name target) >>= continue (done (some total))
    else done (some total)

write_kind :
    (Bytes → List Component)
    → ExtractLimits
    → ℕ
    → List Component
    → Entry
    → Bytes
    → Kind
    → Action (Option ℕ)
unfolding write_file write_symlink
write_kind components limits total rel_path entry name directory = done (some total)
write_kind components limits total rel_path entry name (symlink target) =
    write_symlink components total rel_path name target
write_kind components limits total rel_path entry name file =
    write_file limits total entry.mode name

-- `split_leaf` and the directories above, then the leaf.
place_leaf :
    (Bytes → List Component)
    → ExtractLimits
    → ℕ
    → List Component
    → Entry
    → Option Bytes
    → Action (Option ℕ)
unfolding write_kind continue
place_leaf components limits total rel_path entry none = done none
place_leaf components limits total rel_path entry (some name) =
    ask reopen_root
    >>= continue (
        enter_dirs (parent rel_path)
          (write_kind components limits total rel_path entry name entry.kind))

is_dir : Kind → Bool
is_dir directory = true
is_dir (symlink target) = false
is_dir file = false

place :
    (Bytes → List Component)
    → ExtractLimits
    → ℕ
    → Entry
    → Option (List Component)
    → Action (Option ℕ)
unfolding place_leaf is_dir continue
place components limits total entry none = done none
place components limits total entry (some rel_path) =
    if is_dir entry.kind
    then ask reopen_root >>= continue (enter_dirs rel_path (done (some total)))
    else place_leaf components limits total rel_path entry (file_name rel_path)

extract_entry : (Bytes → List Component) → ExtractLimits → ℕ → Option Entry → Action (Option ℕ)
unfolding place
extract_entry components limits total none = done none
extract_entry components limits total (some entry) =
    place components limits total entry entry.enclosed_name

-- `?` on the result of an entry.
next_entry : (ℕ → Action (Option ℕ)) → Option ℕ → Action (Option ℕ)
next_entry k none = done none
next_entry k (some total) = k total

-- The loop over the entries, of which `left` are left, from entry `i` on.
extract_loop : (Bytes → List Component) → ExtractLimits → ℕ → ℕ → ℕ → Action (Option ℕ)
unfolding extract_entry next_entry continue
extract_loop components limits zero i total = done (some total)
extract_loop components limits (suc left) i total =
    ask check_stop
    >>= continue (
        ask (by_index i)
        >>= extract_entry components limits total
        >>= next_entry (extract_loop components limits left (i + 1)))

-- `components` is `Path::components`, `len` the number of the archive's entries.
pub extract_zip_reader : (Bytes → List Component) → ExtractLimits → ℕ → Action (Option ℕ)
unfolding extract_loop continue
extract_zip_reader components limits len =
    if ltb limits.max_entries len
    then done none
    else ask create_root
      >>= continue (ask open_root >>= continue (extract_loop components limits len 0 0))
