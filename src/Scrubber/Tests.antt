-- ===== src/Scrubber/Tests.antt =====
-- Runs of src/security/secret_scrubber.rs and the theorems at concrete inputs.
use turboci.Prelude.{
  inl, ℕ, ◌≤◌, ◌≡◌, refl, true, false, List, [], ◌∷◌, length, none, some, Bytes, codes, arith,
}
use turboci.Text.{ends_with, replace, match_indices, is_char_boundary}
use turboci.Job.{Variable, Job}
use turboci.Scrubber.{
  SecretScrubber, scrub, emitted, new, push, finish, advance, limit, longest_secret, safe_boundary,
  before_matches, match_ranges, floor_boundary, secret_start, suffix_prefix_len, token_run, member,
  is_empty,
}
use turboci.Scrubber.Streaming.{concat, streaming}
use turboci.Scrubber.Sample.{only, only-Alone}
use turboci.Scrubber.Pending.{push-bounded}
use turboci.Scrubber.Encode.{percent_encode, percent_decode, plain, percent_decode-encode}
use turboci.Scrubber.JobSecrets.{with_job_secrets, Falling, with_job_secrets_lem}

abbrev secret : Bytes
secret = codes "hunter2!"

-- The secret is split over three chunks.
abbrev chunks : List Bytes
chunks = codes "key hun" ∷ codes "ter" ∷ codes "2! ok\n" ∷ []

longest : longest_secret (only secret) ≤ 8192
unfolding longest_secret
longest = omega arith

split_secret : emitted (only secret) new chunks ≡ codes "key [MASKED] ok\n"
unfolding emitted push advance limit longest_secret safe_boundary before_matches match_ranges
    match_indices floor_boundary secret_start suffix_prefix_len is_char_boundary ends_with token_run
    scrub replace finish
split_secret = refl

short_secret : scrub (only (codes "abcd")) (codes "abcd") ≡ codes "abcd"
unfolding scrub replace
short_secret = refl

-- Two secrets that overlap in the output.
abbrev overlapping : SecretScrubber
overlapping = record { secrets = codes "ab cd ef!" ∷ codes "ef! gh?" ∷ []; patterns = [] }

overlap_whole : scrub overlapping (codes "ab cd ef! gh?") ≡ codes "[MASKED] gh?"
unfolding scrub replace
overlap_whole = refl

overlap_streamed : emitted overlapping new (codes "ab cd ef! gh?" ∷ []) ≡ codes "ab cd [MASKED]"
unfolding emitted push advance limit longest_secret safe_boundary before_matches match_ranges
    match_indices floor_boundary secret_start suffix_prefix_len is_char_boundary ends_with token_run
    scrub replace finish
overlap_streamed = refl

streaming_example : emitted (only secret) new chunks ≡ scrub (only secret) (concat chunks)
streaming_example =
    streaming (only secret) [] [] secret chunks refl (ground arith, tt) (omega arith) longest
      (only-Alone secret (concat chunks) (omega arith))

push-bounded_example :
    length (push (only secret) new (codes "key hun")).0.pending ≤ limit (only secret)
push-bounded_example = push-bounded (only secret) new (codes "key hun") (omega arith)

percent_decode-encode_example :
    percent_decode plain (percent_encode (codes "a b/c")) ≡ codes "a b/c"
percent_decode-encode_example = percent_decode-encode (codes "a b/c") (ground arith)

abbrev deploy_key : Variable
deploy_key = record {
  key = codes "DEPLOY_KEY";
  value = some (codes "p@ss word");
  public = false;
  masked = true;
  raw = false;
  file = false;
  internal = false;
}

abbrev job : Job
job = record {
  id = 7;
  token = codes "glcbt-1";
  allow_git_fetch = true;
  job_info = none;
  git_info = none;
  runner_info = none;
  variables = deploy_key ∷ [];
  steps = [];
  image = none;
  services = [];
  artifacts = none;
  cache = [];
  credentials = [];
  dependencies = [];
  timeout = 3600;
  hooks = [];
  project_slot = 0;
}

with_job_secrets_lem_example :
    let secrets = (with_job_secrets (only secret) job).secrets in
    (member (codes "p@ss word") secrets ≡ true)
    × (member (percent_encode (codes "p@ss word")) secrets ≡ true)
    × (member secret secrets ≡ true)
    × ((n : ℕ) × Falling n secrets)
unfolding is_empty member
with_job_secrets_lem_example =
    with_job_secrets_lem (only secret) job (codes "p@ss word") secret (inl (inl (refl, refl))) refl
      refl
