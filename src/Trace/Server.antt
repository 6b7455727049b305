-- ===== src/Trace/Server.antt =====
-- What the trace calls of src/gitlab/mod.rs rely on in GitLab, and a server that does it.
use turboci.Prelude.{
  ℕ, ◌≤◌, ◌<◌, ◌≡◌, ◌≢◌, refl, inl, inr, ◌⊎◌, Bool-cases, leb, ◌==◌, if◌then◌else◌, ◌++◌, length,
  Option, none, some, Bytes, codes, arith, ◌∙◌,
}
use turboci.Text.Number.{
  to_decimal, parse_unsigned, parse-to_decimal, parse-to_decimal_over, max_u64,
}
use turboci.Trace.Defs.{answer, TraceServer, range_end}

-- GitLab's job log, as its API documents it: a PATCH either appends its bytes at the end, which it
-- does only if its offset is the length so far, or changes nothing; a success says that it
-- appended, and a 416 names the length so far in its `Range` header.
pub record IsJobLog (gitlab : TraceServer) : Type 0 where
  pub appends :
      (s : gitlab.State) (offset : ℕ) (t : Bytes)
      → let s' = (gitlab.patch s offset t).1 in
        (gitlab.stored s' ≡ gitlab.stored s)
        ⊎ ((offset ≡ length (gitlab.stored s)) × (gitlab.stored s' ≡ gitlab.stored s ++ t))
  pub accepted :
      (s : gitlab.State) (offset : ℕ) (t : Bytes) (status : ℕ)
      (job_status range interval : Option Bytes)
      → (gitlab.patch s offset t).0 ≡ answer status job_status range interval
      → 200 ≤ status
      → status < 300
      → (offset ≡ length (gitlab.stored s))
        × (gitlab.stored (gitlab.patch s offset t).1 ≡ gitlab.stored s ++ t)
  pub refused :
      (s : gitlab.State) (offset : ℕ) (t : Bytes) (job_status interval : Option Bytes)
      (range : Bytes) (end : ℕ)
      → (gitlab.patch s offset t).0 ≡ answer 416 job_status (some range) interval
      → range_end range ≡ some end
      → (end ≡ length (gitlab.stored s))
        × (gitlab.stored (gitlab.patch s offset t).1 ≡ gitlab.stored s)

-- A GitLab that is up in the states `Up`, has the job running and stays up: it takes what comes at
-- the end of its log and otherwise says where that is. In other states it may do anything.
pub record IsUp (gitlab : TraceServer) (Up : gitlab.State → Type 0) : Type 0 where
  pub takes :
      (s : gitlab.State) (t : Bytes)
      → Up s
      → ((gitlab.patch s (length (gitlab.stored s)) t).0 ≡ answer 202 none none none)
        × (gitlab.stored (gitlab.patch s (length (gitlab.stored s)) t).1 ≡ gitlab.stored s ++ t)
        × Up (gitlab.patch s (length (gitlab.stored s)) t).1
  pub redirects :
      (s : gitlab.State) (offset : ℕ) (t : Bytes)
      → Up s
      → offset ≢ length (gitlab.stored s)
      → length (gitlab.stored s) ≤ max_u64
      → (range : Bytes) × ((gitlab.patch s offset t).0 ≡ answer 416 none (some range) none)
        × (range_end range ≡ some (length (gitlab.stored s)))
        × (gitlab.stored (gitlab.patch s offset t).1 ≡ gitlab.stored s)
        × Up (gitlab.patch s offset t).1

-- A server that keeps the log and nothing else.
abbrev pub plain_server : TraceServer
plain_server = record {
  State = Bytes;
  stored = λ s. s;
  patch = λ s offset t.
      if offset == length s
      then (answer 202 none none none, s ++ t)
      else (answer 416 none (some (codes "0-" ++ to_decimal (length s))) none, s);
}

range_end-to_decimal :
    (n : ℕ) → range_end (codes "0-" ++ to_decimal n) ≡ parse_unsigned max_u64 (to_decimal n)
unfolding range_end
range_end-to_decimal n = refl

range_end_exact : (n end : ℕ) → range_end (codes "0-" ++ to_decimal n) ≡ some end → end ≡ n
range_end_exact n end h = elim (Bool-cases (leb n max_u64)) [
  | inl fits ↦ ground (arith, range_end-to_decimal n, parse-to_decimal max_u64 n (ground arith), h)
  | inr over ↦
      ground (arith, range_end-to_decimal n, parse-to_decimal_over max_u64 n (ground arith), h)
]

pub plain_server-IsJobLog : IsJobLog plain_server
plain_server-IsJobLog = record {
  appends = λ s offset t. ground arith;
  accepted = λ s offset t status job_status range interval e lo hi. ground arith;
  refused = λ s offset t job_status interval range end e r.
      ground (arith, range_end_exact (length s) end);
}

pub plain_server-IsUp : IsUp plain_server (λ s. Unit {0})
plain_server-IsUp = record {
  takes = λ s t up. (ground arith, ground arith, tt);
  redirects = λ s offset t up ne fits. (
    codes "0-" ++ to_decimal (length s),
    ground arith,
    range_end-to_decimal (length s) ∙ parse-to_decimal max_u64 (length s) fits,
    ground arith,
    tt,
  );
}
