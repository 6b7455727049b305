-- ===== src/Token.antt =====
-- src/runner_daemon/token.rs, the store of a rotated runner token, and `rotate_token` of
-- src/runner_daemon/mod.rs. The calls are the clock, the files, the requests to GitLab, the lock
-- `rotating` and the token and the scrubber that the daemon's tasks share.
pub mod Rotation
pub mod Tests
use turboci.Prelude.{
  ◌+◌, ◌-◌, ℕ, zero, suc, Bool, true, false, ltb, ◌&&◌, not, if◌then◌else◌, [], ◌∷◌, Option, none,
  some, Bytes, bytes_eq,
}
use turboci.Outcome.{ℤ, pos, negsuc}
use turboci.Program.{Program, done, ask, ◌>>=◌, ◌>>◌}
use turboci.Client.{Result, ok, err}
use turboci.Client.Tokens.{TokenError}

pub record StoredToken : Type 0 where
  pub replaces : Bytes
  pub token : Bytes
  pub obtained_at : ℤ
  pub expires_at : Option ℤ

-- serde's JSON of the stored token, and the product of a lifetime and RESET_FACTOR.
pub record Externals : Type 0 where
  pub to_json : StoredToken → Bytes
  pub from_json : Bytes → Option StoredToken
  pub scale : ℤ → ℤ

-- A call answered by a `Bool` succeeds or fails.
pub data Op : Type 0 where
  read_stored create_temp sync_temp persist now current_token lock unlock : Op
  set_mode : ℕ → Op
  write_temp : Bytes → Op
  verify : Bytes → Op
  reset : Bytes → Op
  sleep : ℕ → Op
  add_secret : Bytes → Op
  set_token : Bytes → Op

abbrev pub Answer : Op → Type 0
Answer read_stored = Option Bytes
Answer create_temp = Bool
Answer sync_temp = Bool
Answer persist = Bool
Answer now = ℤ
Answer current_token = Bytes
Answer lock = Unit {0}
Answer unlock = Unit {0}
Answer (set_mode mode) = Bool
Answer (write_temp text) = Bool
Answer (verify token) = Result TokenError (Option ℤ)
Answer (reset token) = Result TokenError (Bytes × Option ℤ)
Answer (sleep secs) = Unit {0}
Answer (add_secret token) = Unit {0}
Answer (set_token token) = Unit {0}

abbrev pub Action : Type 0 → Type 0
Action A = Program Op Answer A

sub : ℕ → ℕ → ℤ
sub m n = if ltb m n then negsuc (n - m - 1) else pos (m - n)

minus : ℤ → ℤ → ℤ
unfolding sub
minus (pos a) (pos b) = sub a b
minus (pos a) (negsuc b) = pos (a + b + 1)
minus (negsuc a) (pos b) = negsuc (a + b)
minus (negsuc a) (negsuc b) = sub b a

plus : ℤ → ℤ → ℤ
unfolding sub
plus (pos a) (pos b) = pos (a + b)
plus (pos a) (negsuc b) = sub a (b + 1)
plus (negsuc a) (pos b) = sub b (a + 1)
plus (negsuc a) (negsuc b) = negsuc (a + b + 1)

max_zero : ℤ → ℤ
max_zero (pos a) = pos a
max_zero (negsuc a) = pos 0

pub reset_time : Externals → ℤ → ℤ → ℤ
unfolding minus plus max_zero
reset_time ext obtained_at expires_at =
    plus obtained_at (ext.scale (max_zero (minus expires_at obtained_at)))

is_empty : Bytes → Bool
is_empty [] = true
is_empty (c ∷ t) = false

-- `replaces` is the fingerprint of the token in the config.
usable : Bytes → Option StoredToken → Option StoredToken
unfolding is_empty
usable replaces none = none
usable replaces (some stored) =
    if bytes_eq stored.replaces replaces && not (is_empty stored.token) then some stored else none

parsed : Externals → Bytes → Option Bytes → Option StoredToken
unfolding usable
parsed ext replaces none = none
parsed ext replaces (some contents) = usable replaces (ext.from_json contents)

pub load : Externals → Bytes → Action (Option StoredToken)
unfolding parsed
load ext replaces = do contents ← ask read_stored; done (parsed ext replaces contents)

-- `?`: what follows is done only after a success.
and_then : Action Bool → Bool → Action Bool
and_then rest true = rest
and_then rest false = done false

pub save : Externals → StoredToken → Action Bool
unfolding and_then
save ext stored =
    ask create_temp
    >>= and_then (
        ask (set_mode 384)
        >>= and_then (
            ask (write_temp (ext.to_json stored))
            >>= and_then (ask sync_temp >>= and_then (ask persist >>= and_then (done true)))))

-- What follows a round of the loop: the end, or a round that knows the times of a token.
pub data Next : Type 0 where
  end : Next
  again : Option (ℤ × ℤ) → Next

wait : ℤ → Action (Unit {0})
wait (pos zero) = done tt
wait (pos (suc n)) = ask (sleep (suc n))
wait (negsuc n) = done tt

next_expiry : ℤ → Option ℤ → Next
next_expiry at none = end
next_expiry at (some expires_at) = again (some (at, expires_at))

record_of : Bytes → Bytes → ℤ → Option ℤ → StoredToken
record_of replaces token obtained_at expires_at = record {
  replaces = replaces;
  token = token;
  obtained_at = obtained_at;
  expires_at = expires_at;
}

renewed : Externals → Bytes → Bytes → Option ℤ → ℤ → Action Next
unfolding record_of next_expiry
renewed ext replaces new new_expiry at =
    save ext (record_of replaces new at new_expiry)
    >> (ask (add_secret new)
        >> (ask (set_token new) >> (ask unlock >> done (next_expiry at new_expiry))))

after_reset : Externals → Bytes → ℤ → ℤ → Result TokenError (Bytes × Option ℤ) → Action Next
unfolding renewed
after_reset ext replaces obtained_at expires_at (ok (new, new_expiry)) =
    ask now >>= renewed ext replaces new new_expiry
after_reset ext replaces obtained_at expires_at (err e) =
    ask unlock >> (ask (sleep 600) >> done (again (some (obtained_at, expires_at))))

after_save : Externals → Bytes → ℤ → ℤ → Bytes → Bool → Action Next
unfolding after_reset
after_save ext replaces obtained_at expires_at old true =
    ask (reset old) >>= after_reset ext replaces obtained_at expires_at
after_save ext replaces obtained_at expires_at old false = ask unlock >> done end

rotate_old : Externals → Bytes → ℤ → ℤ → Bytes → Action Next
unfolding after_save record_of
rotate_old ext replaces obtained_at expires_at old =
    save ext (record_of replaces old obtained_at (some expires_at))
    >>= after_save ext replaces obtained_at expires_at old

locked : Externals → Bytes → ℤ → ℤ → Action Next
unfolding rotate_old
locked ext replaces obtained_at expires_at =
    ask lock >> (ask current_token >>= rotate_old ext replaces obtained_at expires_at)

rotate : Externals → Bytes → ℤ → ℤ → Action Next
unfolding locked wait minus
rotate ext replaces obtained_at expires_at = ask now >>= λ at.
    wait (minus (reset_time ext obtained_at expires_at) at)
    >> locked ext replaces obtained_at expires_at

after_verify : Externals → Bytes → Result TokenError (Option ℤ) → Action Next
unfolding rotate
after_verify ext replaces (ok (some expires_at)) =
    ask now >>= λ at. rotate ext replaces at expires_at
after_verify ext replaces (ok none) = done end
after_verify ext replaces (err e) = ask (sleep 3600) >> done (again none)

round : Externals → Bytes → Option (ℤ × ℤ) → Action Next
unfolding rotate after_verify
round ext replaces (some (obtained_at, expires_at)) = rotate ext replaces obtained_at expires_at
round ext replaces none =
    ask current_token >>= λ token. ask (verify token) >>= after_verify ext replaces

follow : (Option (ℤ × ℤ) → Action (Unit {0})) → Next → Action (Unit {0})
follow loop end = done tt
follow loop (again expiry) = loop expiry

-- The first rounds of the loop, which has no end while GitLab gives its tokens an expiry.
rounds : Externals → Bytes → ℕ → Option (ℤ × ℤ) → Action (Unit {0})
unfolding round follow
rounds ext replaces zero expiry = done tt
rounds ext replaces (suc n) expiry = round ext replaces expiry >>= follow (rounds ext replaces n)

with_time : ℤ → Option ℤ → Option (ℤ × ℤ)
with_time obtained_at none = none
with_time obtained_at (some expires_at) = some (obtained_at, expires_at)

times : Option StoredToken → Option (ℤ × ℤ)
unfolding with_time
times none = none
times (some stored) = with_time stored.obtained_at stored.expires_at

pub rotate_token : Externals → Bytes → ℕ → Action (Unit {0})
unfolding rounds times
rotate_token ext replaces n = load ext replaces >>= λ stored. rounds ext replaces n (times stored)
