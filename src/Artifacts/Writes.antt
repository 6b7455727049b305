-- ===== src/Artifacts/Writes.antt =====
-- What an extraction may write: the calls that are allowed at a point of it, by the directory that
-- is open and the bytes written so far.
use turboci.Prelude.{
  ◌≡◌, ℕ, ◌+◌, ◌≤◌, ◌<◌, Bool, true, false, List, [], ◌∷◌, Option, none, some, Bytes,
}
use turboci.Program.{Protocol}
use turboci.Artifacts.{
  Component, normal, cur_dir, parent_dir, root_dir, prefix, ExtractLimits, Entry, Op, create_root,
  open_root, reopen_root, check_stop, by_index, enter, create_symlink, create_file, copy, set_mode,
  Answer,
}

-- Where a path leads from a directory below the workspace, given by its names from the inside out:
-- none if it leaves the workspace on the way.
abbrev pub resolve : List Bytes → List Component → Option (List Bytes)
resolve dir [] = some dir
resolve dir (normal name ∷ cs) = resolve (name ∷ dir) cs
resolve dir (cur_dir ∷ cs) = resolve dir cs
resolve [] (parent_dir ∷ cs) = none
resolve (name ∷ dir) (parent_dir ∷ cs) = resolve dir cs
resolve dir (root_dir ∷ cs) = none
resolve dir (prefix ∷ cs) = none

abbrev pub Inside : List Bytes → List Component → Type 0
Inside dir cs = (place : List Bytes) × (resolve dir cs ≡ some place)

-- The directory that is open, by the names entered since the workspace, the bytes written, and the
-- entry that was read last.
pub record Progress : Type 0 where
  pub dir : List Bytes
  pub total : ℕ
  pub entry : Option Entry

abbrev pub entered : Progress → Bytes → Bool → Progress
entered s name true = record s { dir = name ∷ s.dir }
entered s name false = s

abbrev pub copied : Progress → Option ℕ → Progress
copied s none = s
copied s (some written) = record s { total = s.total + written }

abbrev pub advance : Progress → (op : Op) → Answer op → Progress
advance s create_root x = s
advance s open_root x = record s { dir = [] }
advance s reopen_root x = record s { dir = [] }
advance s check_stop x = s
advance s (by_index i) x = record s { entry = x }
advance s (enter name) x = entered s name x
advance s (create_symlink name target) x = s
advance s (create_file name) x = s
advance s (copy limit) x = copied s x
advance s (set_mode mode) x = s

-- A path that begins with the names of a directory, which are given from the inside out.
abbrev pub below : List Bytes → List Component → List Component
below [] cs = cs
below (name ∷ dir) cs = below dir (normal name ∷ cs)

abbrev pub path_of : Option Entry → Option (List Component)
path_of none = none
path_of (some entry) = entry.enclosed_name

-- The open directory and the name below it are those of the entry's own path, which so far has
-- ordinary names only, no step to a parent and no root.
abbrev pub Enters : Progress → Bytes → Type 0
Enters s name =
    (rest : List Component) × (path_of s.entry ≡ some (below s.dir (normal name ∷ rest)))

-- And the name is its last one.
abbrev pub Places : Progress → Bytes → Type 0
Places s name = path_of s.entry ≡ some (below s.dir (normal name ∷ []))

abbrev pub MayWrite : (Bytes → List Component) → ExtractLimits → Progress → Op → Type 0
MayWrite components limits s create_root = Unit {0}
MayWrite components limits s open_root = Unit {0}
MayWrite components limits s reopen_root = Unit {0}
MayWrite components limits s check_stop = Unit {0}
MayWrite components limits s (by_index i) = Unit {0}
MayWrite components limits s (enter name) = Enters s name
MayWrite components limits s (create_symlink name target) =
    Places s name × Inside s.dir (components target)
MayWrite components limits s (create_file name) = Places s name
MayWrite components limits s (copy limit) = s.total + limit ≤ limits.max_total_bytes + 1
MayWrite components limits s (set_mode mode) = mode < 512

-- `Read::take`: a copy writes no more than its limit.
abbrev pub TakesAtMost : Progress → (op : Op) → Answer op → Type 0
TakesAtMost s create_root x = Unit {0}
TakesAtMost s open_root x = Unit {0}
TakesAtMost s reopen_root x = Unit {0}
TakesAtMost s check_stop x = Unit {0}
TakesAtMost s (by_index i) x = Unit {0}
TakesAtMost s (enter name) x = Unit {0}
TakesAtMost s (create_symlink name target) x = Unit {0}
TakesAtMost s (create_file name) x = Unit {0}
TakesAtMost s (copy limit) none = Unit {0}
TakesAtMost s (copy limit) (some written) = written ≤ limit
TakesAtMost s (set_mode mode) x = Unit {0}

abbrev pub extracting : (Bytes → List Component) → ExtractLimits → Protocol Op Answer Progress
extracting components limits = record {
  allowed = MayWrite components limits;
  expected = TakesAtMost;
  next = advance;
}

-- The end: at most one byte above the limit is on disk, and none on success.
abbrev pub Within : ExtractLimits → Progress → Option ℕ → Type 0
Within limits s none = s.total ≤ limits.max_total_bytes + 1
Within limits s (some total) = (s.total ≡ total) × (total ≤ limits.max_total_bytes)
