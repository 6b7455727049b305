-- ===== src/Token/Tests.antt =====
-- The rotation of the runner token, src/runner_daemon/mod.rs, at a concrete store.
use turboci.Prelude.{◌≡◌, refl, false, none, codes}
use turboci.Outcome.{pos}
use turboci.Program.{Keeps}
use turboci.Token.{Externals, reset_time, rotate_token}
use turboci.Token.Rotation.{Keeping, Free, rotating, rotate_token-Safe}

-- Stand for serde and for the product of a lifetime and 0.75.
abbrev ext : Externals
ext = record {
  to_json = λ stored. stored.token;
  from_json = λ text. none;
  scale = λ lifetime. pos 75;
}

abbrev start : Keeping
start = record {
  is_held = false;
  is_private = false;
  is_synced = false;
  temp = none;
  disk = none;
  secret = none;
  token = codes "glrt-1";
}

resets_at : reset_time ext (pos 1000) (pos 1100) ≡ pos 1075
unfolding reset_time turboci.Token.minus turboci.Token.plus turboci.Token.max_zero turboci.Token.sub
resets_at = refl

rotate_token-Safe_example : Keeps (rotating ext) Free start (rotate_token ext (codes "id") 2)
rotate_token-Safe_example = rotate_token-Safe ext (codes "id") 2 start refl
