-- ===== src/LocalCache/Hit.antt =====
-- Which archive `restore` of src/runner_daemon/job_cache.rs extracts.
use turboci.Prelude.{◌≡◌, List, [], ◌∷◌, ◌++◌, Option, none, some, Bytes}
use turboci.Program.{Program, Protocol}
use turboci.Daemon.{Source}
use turboci.LocalCache.{
  archive_name, Found, exists, missing, unreadable, Op, check_stop, create_dir, path_exists,
  read_sidecar, write_sidecar, remove_sidecar, get_object, persist_download, evict, metadata, touch,
  extract, create_archive, persist_archive, put_file, Answer, Result, ok, err, Restore,
}

-- The archives found missing and those extracted, the last one first, and the error of the last look
-- at the stop signal, at an archive or of an extraction.
pub record Search : Type 0 where
  pub absent : List Bytes
  pub extracted : List Bytes
  pub error : Option Bytes

abbrev looked : Search → Bytes → Found → Search
looked s name exists = record s { error = none }
looked s name missing = record s { absent = name ∷ s.absent; error = none }
looked s name (unreadable e) = record s { error = some e }

abbrev pub searched : Search → (op : Op) → Answer op → Search
searched s check_stop x = record s { error = x }
searched s create_dir x = s
searched s (path_exists name) x = s
searched s (read_sidecar name) x = s
searched s (write_sidecar name etag) x = s
searched s (remove_sidecar name) x = s
searched s (get_object name etag) x = s
searched s (persist_download name) x = s
searched s evict x = s
searched s (metadata name) x = looked s name x
searched s (touch name) x = s
searched s (extract name) x = record s { extracted = name ∷ s.extracted; error = x }
searched s (create_archive paths) x = s
searched s (persist_archive name) x = s
searched s (put_file name) x = s

abbrev pub search : Protocol Op Answer Search
search = record { allowed = λ s op. Unit {0}; expected = λ s op x. Unit {0}; next = searched }

-- The archives of the keys, put in front in their order.
abbrev pub names_of : (Bytes → Bytes) → List Bytes → List Bytes → List Bytes
names_of hash [] names = names
names_of hash (key ∷ keys) names = names_of hash keys (archive_name hash key ∷ names)

abbrev pub HitIs :
    (Bytes → Bytes) → List Bytes → List Bytes → Search → Option (Bytes × Source) → Type 0
HitIs hash keys names s none = (s.absent ≡ names_of hash keys names) × (s.extracted ≡ [])
HitIs hash keys names s (some (key, source)) =
    (before : List Bytes) × (after : List Bytes) × (keys ≡ before ++ key ∷ after)
    × (s.absent ≡ names_of hash before names)
    × (s.extracted ≡ archive_name hash key ∷ [])

abbrev pub FirstOf : (Bytes → Bytes) → List Bytes → List Bytes → Search → Result Restore → Type 0
FirstOf hash keys names s (ok r) = HitIs hash keys names s r.hit
FirstOf hash keys names s (err e) = s.error ≡ some e

abbrev Same : {A : Type 0} → Search → Search → A → Type 0
Same s t r = t ≡ s
