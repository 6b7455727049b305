-- ===== src/LocalCache.antt =====
-- src/runner_daemon/job_cache.rs: the names of the archives, and how one is restored, fetched from S3
-- and saved. The calls are those of the file system, of S3 and of the archives; a file is named by
-- its name in the project's directory.
pub mod Keys
pub mod Hit
pub mod Tests
use turboci.Prelude.{
  ℕ, ◌/◌, ◌%◌, Bool, true, false, ◌||◌, leb, ◌==◌, if◌then◌else◌, List, [], ◌∷◌, ◌++◌, length,
  Option, none, some, Bytes, codes,
}
use turboci.Text.{is_alphanumeric}
use turboci.Text.Number.{to_decimal}
use turboci.Scrubber.Encode.{hex_digit}
use turboci.Daemon.{Source, local_copy, not_modified, downloaded}
use turboci.Program.{Program, done, ask, ◌>>=◌, ◌>>◌}

unfoldable pub is_safe_byte : ℕ → Bool
is_safe_byte b = is_alphanumeric b || (b == b'-') || (b == b'_')

unfoldable pub encode_byte : ℕ → Bytes
unfolding is_safe_byte
encode_byte b =
    if is_safe_byte b then b ∷ [] else b'%' ∷ hex_digit (b / 16) ∷ hex_digit (b % 16) ∷ []

unfoldable pub encode_bytes : Bytes → Bytes
unfolding encode_byte
encode_bytes [] = []
encode_bytes (b ∷ t) = encode_byte b ++ encode_bytes t

-- `hash` is BLAKE3 with its result in hexadecimal digits.
unfoldable pub encode_key : (Bytes → Bytes) → Bytes → Bytes
unfolding encode_bytes
encode_key hash key =
    let encoded = encode_bytes key in
    if leb (length encoded) 200 then encoded else codes "h-" ++ hash key

unfoldable pub project_dir : ℕ → Bytes
project_dir project_id = codes "project-" ++ to_decimal project_id

unfoldable pub archive_name : (Bytes → Bytes) → Bytes → Bytes
archive_name hash key = encode_key hash key ++ codes ".zip"

unfoldable pub sidecar : Bytes → Bytes
sidecar archive = archive ++ codes ".etag"

-- What S3 answers to a download: the object was not modified, is not there, or is in a temporary
-- file, with its ETag if it has one and its size; or the text of an error.
pub data Download : Type 0 where
  unmodified not_found : Download
  in_file : Option Bytes → ℕ → Download
  download_error : Bytes → Download

-- What the metadata of an archive say: it exists, it does not, or the text of another error.
pub data Found : Type 0 where
  exists missing : Found
  unreadable : Bytes → Found

pub data Created : Type 0 where
  nothing_matched : Created
  created : ℕ → Created
  create_error : Bytes → Created

-- `Result<Option<String>>` of an upload: the ETag.
pub data Put : Type 0 where
  stored : Option Bytes → Put
  put_error : Bytes → Put

-- An answer that is an optional text is an error.
pub data Op : Type 0 where
  check_stop : Op
  create_dir : Op
  path_exists : Bytes → Op
  read_sidecar : Bytes → Op
  write_sidecar : Bytes → Bytes → Op
  remove_sidecar : Bytes → Op
  get_object : Bytes → Option Bytes → Op
  persist_download : Bytes → Op
  evict : Op
  metadata : Bytes → Op
  touch : Bytes → Op
  extract : Bytes → Op
  create_archive : List Bytes → Op
  persist_archive : Bytes → Op
  put_file : Bytes → Op

abbrev pub Answer : Op → Type 0
Answer check_stop = Option Bytes
Answer create_dir = Option Bytes
Answer (path_exists name) = Bool
Answer (read_sidecar name) = Option Bytes
Answer (write_sidecar name etag) = Option Bytes
Answer (remove_sidecar name) = Unit
Answer (get_object name etag) = Download
Answer (persist_download name) = Option Bytes
Answer evict = Unit
Answer (metadata name) = Found
Answer (touch name) = Unit
Answer (extract name) = Option Bytes
Answer (create_archive paths) = Created
Answer (persist_archive name) = Option Bytes
Answer (put_file name) = Put

abbrev pub Action : Type 0 → Type 0
Action A = Program Op Answer A

pub data Result (A : Type 0) : Type 0 where
  ok : A → Result A
  err : Bytes → Result A

-- `?` on a call that answers an optional error.
unfoldable pub continue : {A : Type 0} → Action (Result A) → Option Bytes → Action (Result A)
continue k none = k
continue k (some e) = done (err e)

-- `Restore`: the key found and where, and the warnings, the last one first.
pub record Restore : Type 0 where
  pub hit : Option (Bytes × Source)
  pub warnings : List Bytes

known_etag : Bytes → Bool → Action (Option Bytes)
known_etag name true = ask (read_sidecar (sidecar name))
known_etag name false = done none

save_etag : Bytes → Option Bytes → Action (Option Bytes)
save_etag name none = ask (remove_sidecar (sidecar name)) >> done none
save_etag name (some etag) = ask (write_sidecar (sidecar name) etag)

-- The match on what S3 answers.
after_get : Bytes → Download → Action (Result (Option Source))
unfolding save_etag
after_get name unmodified = done (ok (some not_modified))
after_get name not_found = done (ok none)
after_get name (download_error e) = done (err e)
after_get name (in_file etag bytes) =
    ask (persist_download name)
    >>= continue
        (save_etag name etag >>= continue (ask evict >> done (ok (some (downloaded bytes)))))

unfoldable pub fetch : Bytes → Action (Result (Option Source))
unfolding known_etag after_get
fetch name =
    ask create_dir
    >>= continue (
        ask (path_exists name) >>= known_etag name >>= λ etag.
        ask (get_object name etag) >>= after_get name)

-- What is known before the archive is looked for: its source and the warnings.
fetched : Bytes → List Bytes → Result (Option Source) → Source × List Bytes
fetched key warnings (ok none) = (local_copy, warnings)
fetched key warnings (ok (some source)) = (source, warnings)
fetched key warnings (err e) =
    (local_copy, (codes "S3 unavailable for cache " ++ (key ++ (codes ": " ++ e))) ∷ warnings)

fetch_if : Bool → Bytes → Action (Result (Option Source))
fetch_if true name = fetch name
fetch_if false name = done (ok none)

-- The archive of `key` is looked for; `again` is the rest of the loop, with the warnings.
after_metadata :
    Bytes
    → Bytes
    → (List Bytes → Action (Result Restore))
    → Source × List Bytes
    → Found
    → Action (Result Restore)
after_metadata name key again (source, warnings) exists =
    ask (touch name)
    >> (ask (extract name)
        >>= continue (done (ok (record { hit = some (key, source); warnings = warnings }))))
after_metadata name key again (source, warnings) missing = again warnings
after_metadata name key again (source, warnings) (unreadable e) = done (err e)

-- The loop over the keys; `remote` says whether there is S3.
unfoldable pub restore_loop :
    (Bytes → Bytes) → Bool → List Bytes → List Bytes → Action (Result Restore)
unfolding fetched fetch_if after_metadata
restore_loop hash remote [] warnings = done (ok (record { hit = none; warnings = warnings }))
restore_loop hash remote (key ∷ keys) warnings =
    let name = archive_name hash key in
    ask check_stop
    >>= continue (
        fetch_if remote name >>= λ r.
        ask (metadata name)
        >>= after_metadata name key (restore_loop hash remote keys) (fetched key warnings r))

pub restore : (Bytes → Bytes) → Bool → List Bytes → Action (Result Restore)
restore hash remote keys = restore_loop hash remote keys []

-- `Saved`: the size and, with S3, the error of the upload or none.
pub record Saved : Type 0 where
  pub size : ℕ
  pub upload : Option (Option Bytes)

upload_result : Bytes → Put → Action (Option Bytes)
upload_result name (stored none) = ask (remove_sidecar (sidecar name)) >> done none
upload_result name (stored (some etag)) = ask (write_sidecar (sidecar name) etag) >> done none
upload_result name (put_error e) = done (some e)

upload : Bool → Bytes → Action (Option (Option Bytes))
unfolding upload_result
upload false name = ask (remove_sidecar (sidecar name)) >> done none
upload true name = ask (put_file name) >>= upload_result name >>= λ r. done (some r)

keep_archive : Bool → Bytes → Created → Action (Result (Option Saved))
unfolding upload
keep_archive remote name nothing_matched = done (ok none)
keep_archive remote name (create_error e) = done (err e)
keep_archive remote name (created len) =
    ask (persist_archive name)
    >>= continue (
        upload remote name >>= λ r.
        ask evict >> done (ok (some (record { size = len; upload = r }))))

pub save : (Bytes → Bytes) → Bool → Bytes → List Bytes → Action (Result (Option Saved))
unfolding keep_archive
save hash remote key paths =
    let name = archive_name hash key in
    ask create_dir >>= continue (ask (create_archive paths) >>= keep_archive remote name)
