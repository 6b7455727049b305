-- ===== src/Client/Tests.antt =====
-- The theorems on the requests of src/gitlab/mod.rs at concrete inputs.
use turboci.Prelude.{◌≡◌, List, [], ◌∷◌, none, some, codes}
use turboci.Outcome.{pos, script_failure, failed}
use turboci.Program.{Keeps, perform, observer}
use turboci.Client.{Reply, response, no_response, err, Json, update_job}
use turboci.Client.Jobs.{request_job}
use turboci.Client.Update.{
  effort, Bounded, gitlab, is_ok, accepts, update_job-Bounded, update_job_accepted,
}
use turboci.Client.Jobs.Assigned.{owed, Settled, assigned_never_dropped}

-- GitLab is still starting, then busy, then done.
abbrev answers : List Reply
answers =
    no_response ∷ response 502 none none ∷ response 202 none none ∷ response 200 none none ∷ []

update_job-Bounded_example :
    Keeps effort Bounded
      (0, 0)
      (update_job 7 (codes "glcbt-1") failed (some script_failure) (some (pos 2)))
update_job-Bounded_example =
    update_job-Bounded 7 (codes "glcbt-1") failed (some script_failure) (some (pos 2))

update_job_accepted_example :
    is_ok (perform gitlab answers (update_job 7 (codes "glcbt-1") failed none none)).0
    ≡ accepts 8 answers
update_job_accepted_example = update_job_accepted answers 7 (codes "glcbt-1") failed none none

abbrev json : Json
json = record {
  parse_job = λ text. err (codes "missing field");
  parse_identity = λ text. some (7, codes "glcbt-1");
  parse_token = λ text. none;
  parse_time = λ text. none;
}

assigned_never_dropped_example :
    Keeps (observer (owed json)) Settled none (request_job json (codes "glrt-1"))
assigned_never_dropped_example = assigned_never_dropped json (codes "glrt-1")
