-- ===== src/Trace/Lossy.antt =====
-- A GitLab that handles requests but whose first answers are lost, for runs of
-- src/runner_daemon/trace.rs.
use turboci.Prelude.{
  ℕ, zero, suc, ◌≤◌, ◌<◌, ◌≡◌, ◌≢◌, refl, ◌⊎◌, ◌++◌, length, Option, none, some, Bytes, arith,
}
use turboci.Text.Number.{max_u64}
use turboci.Trace.Server.{IsJobLog, IsUp, plain_server, plain_server-IsJobLog, plain_server-IsUp}
use turboci.Trace.Defs.{Reply, answer, lost, TraceServer, range_end}

-- The log, and the number of answers that are still lost.
abbrev lossy_patch : Bytes × ℕ → ℕ → Bytes → Reply × (Bytes × ℕ)
lossy_patch (s, suc n) offset t = (lost, ((plain_server.patch s offset t).1, n))
lossy_patch (s, zero) offset t =
    let (reply, s') = plain_server.patch s offset t in (reply, (s', zero))

abbrev pub lossy_server : TraceServer
lossy_server = record { State = Bytes × ℕ; stored = λ s. s.0; patch = lossy_patch }

abbrev pub Recovered : Bytes × ℕ → Type 0
Recovered s = s.1 ≡ 0

lossy-appends :
    (s : Bytes × ℕ) (offset : ℕ) (t : Bytes)
    → let s' = (lossy_patch s offset t).1 in
      (s'.0 ≡ s.0) ⊎ ((offset ≡ length s.0) × (s'.0 ≡ s.0 ++ t))
lossy-appends (s, zero) offset t = plain_server-IsJobLog.appends s offset t
lossy-appends (s, suc n) offset t = plain_server-IsJobLog.appends s offset t

lossy-accepted :
    (s : Bytes × ℕ) (offset : ℕ) (t : Bytes) (status : ℕ) (job_status range interval : Option Bytes)
    → (lossy_patch s offset t).0 ≡ answer status job_status range interval
    → 200 ≤ status
    → status < 300
    → (offset ≡ length s.0) × ((lossy_patch s offset t).1.0 ≡ s.0 ++ t)
lossy-accepted (s, zero) offset t status job_status range interval e lo hi =
    plain_server-IsJobLog.accepted s offset t status job_status range interval e lo hi
lossy-accepted (s, suc n) offset t status job_status range interval e lo hi = absurd (cc e)

lossy-refused :
    (s : Bytes × ℕ) (offset : ℕ) (t : Bytes) (job_status interval : Option Bytes) (range : Bytes)
    (end : ℕ)
    → (lossy_patch s offset t).0 ≡ answer 416 job_status (some range) interval
    → range_end range ≡ some end
    → (end ≡ length s.0) × ((lossy_patch s offset t).1.0 ≡ s.0)
lossy-refused (s, zero) offset t job_status interval range end e r =
    plain_server-IsJobLog.refused s offset t job_status interval range end e r
lossy-refused (s, suc n) offset t job_status interval range end e r = absurd (cc e)

pub lossy_server-IsJobLog : IsJobLog lossy_server
lossy_server-IsJobLog = record {
  appends = lossy-appends;
  accepted = lossy-accepted;
  refused = lossy-refused;
}

lossy-takes :
    (s : Bytes × ℕ) (t : Bytes)
    → Recovered s
    → ((lossy_patch s (length s.0) t).0 ≡ answer 202 none none none)
      × ((lossy_patch s (length s.0) t).1.0 ≡ s.0 ++ t)
      × Recovered (lossy_patch s (length s.0) t).1
lossy-takes (s, zero) t up = let h = plain_server-IsUp.takes s t tt in (h.0, h.1, refl)
lossy-takes (s, suc n) t up = absurd (omega (arith, up))

lossy-redirects :
    (s : Bytes × ℕ) (offset : ℕ) (t : Bytes)
    → Recovered s
    → offset ≢ length s.0
    → length s.0 ≤ max_u64
    → (range : Bytes) × ((lossy_patch s offset t).0 ≡ answer 416 none (some range) none)
      × (range_end range ≡ some (length s.0))
      × ((lossy_patch s offset t).1.0 ≡ s.0)
      × Recovered (lossy_patch s offset t).1
lossy-redirects (s, zero) offset t up ne fits =
    let h = plain_server-IsUp.redirects s offset t tt ne fits in (h.0, h.1, h.2, h.3, refl)
lossy-redirects (s, suc n) offset t up ne fits = absurd (omega (arith, up))

pub lossy_server-IsUp : IsUp lossy_server Recovered
lossy_server-IsUp = record { takes = lossy-takes; redirects = lossy-redirects }
