-- ===== src/Client/Uploads.antt =====
-- `upload_artifacts` of src/gitlab/mod.rs, with its retries.
use turboci.Prelude.{
  ℕ, zero, suc, ◌+◌, ◌-◌, ◌*◌, ◌^◌, Bool, ◌&&◌, ◌||◌, ltb, leb, ◌==◌, if◌then◌else◌, Bytes,
}
use turboci.Program.{done, ask, ◌>>=◌, ◌>>◌}
use turboci.Client.{
  ArtifactUpload, sleep, post_artifacts, no_response, response, Sent, not_opened, replied, Action,
  Result, ok, err,
}

unfoldable pub is_client_error : ℕ → Bool
is_client_error status = leb 400 status && ltb status 500

-- An error of one upload, and whether a retry cannot mend it.
pub data UploadError : Type 0 where
  permanent transient : UploadError

upload_reply : Sent → Result UploadError (Unit {0})
unfolding is_client_error
upload_reply not_opened = err transient
upload_reply (replied no_response) = err transient
upload_reply (replied (response status header body)) =
    if (status == 201) || (status == 200)
    then ok tt
    else if status == 413
    then err permanent
    else if is_client_error status
    then err permanent
    else err transient

abbrev pub Uploaded : Type 0
Uploaded = Result UploadError (Unit {0})

-- A round of `retry_with_backoff`, of which `left` are left behind it.
again_after : ℕ → ℕ → Action Uploaded → Uploaded → Action Uploaded
again_after attempt left again (ok x) = done (ok x)
again_after attempt left again (err permanent) = done (err permanent)
again_after attempt left again (err transient) =
    if left == 0 then done (err transient) else ask (sleep (100 * 2 ^ (attempt - 1))) >> again

-- `retry_with_backoff` over an upload.
upload_loop : ℕ → ℕ → Action Uploaded → Action Uploaded
unfolding again_after
upload_loop attempt zero operation = done (err transient)
upload_loop attempt (suc left) operation =
    operation >>= again_after attempt left (upload_loop (attempt + 1) left operation)

pub upload_artifacts : ℕ → Bytes → ArtifactUpload → Action Uploaded
unfolding upload_loop upload_reply
upload_artifacts id token upload =
    upload_loop 1 3 (ask (post_artifacts id token upload) >>= λ sent. done (upload_reply sent))
