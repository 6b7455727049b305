-- ===== src/Token/Rotation.antt =====
-- What `rotate_token` of src/runner_daemon/mod.rs never does to the runner token, and
-- `TokenStore::save` of src/runner_daemon/token.rs to its file.
use turboci.Prelude.{
  ◌≡◌, refl, sym, ◌∙◌, ℕ, zero, suc, Bool, true, false, ◌==◌, Option, none, some, Bytes,
}
use turboci.Outcome.{ℤ, pos, negsuc}
use turboci.Program.{Protocol, Keeps, Keeps-bind, done, ask, ◌>>=◌}
use turboci.Client.{Result, ok, err}
use turboci.Client.Tokens.{TokenError}
use turboci.Token.{
  StoredToken, Externals, Op, read_stored, create_temp, sync_temp, persist, now, current_token,
  lock, unlock, set_mode, write_temp, verify, reset, sleep, add_secret, set_token, Answer, Action,
  load, and_then, save, Next, end, again, wait, record_of, renewed, after_reset, after_save,
  rotate_old, locked, minus, reset_time, rotate, after_verify, round, follow, rounds, rotate_token,
}

-- The lock, the temporary file, the stored file, the last secret given to the scrubber and the
-- token in use.
pub record Keeping : Type 0 where
  pub is_held : Bool
  pub is_private : Bool
  pub is_synced : Bool
  pub temp : Option Bytes
  pub disk : Option Bytes
  pub secret : Option Bytes
  pub token : Bytes

abbrev created : Keeping → Bool → Keeping
created s true = record s { is_private = false; is_synced = false; temp = none }
created s false = s

abbrev moded : Keeping → Bool → Bool → Keeping
moded s is_private true = record s { is_private = is_private }
moded s is_private false = s

abbrev written : Keeping → Bytes → Bool → Keeping
written s text true = record s { temp = some text; is_synced = false }
written s text false = s

abbrev synced : Keeping → Bool → Keeping
synced s true = record s { is_synced = true }
synced s false = s

abbrev persisted : Keeping → Bool → Keeping
persisted s true = record s { disk = s.temp }
persisted s false = s

abbrev advance : Keeping → (op : Op) → Answer op → Keeping
advance s read_stored x = s
advance s create_temp x = created s x
advance s sync_temp x = synced s x
advance s persist x = persisted s x
advance s now x = s
advance s current_token x = s
advance s lock x = record s { is_held = true }
advance s unlock x = record s { is_held = false }
advance s (set_mode mode) x = moded s (mode == 384) x
advance s (write_temp text) x = written s text x
advance s (verify token) x = s
advance s (reset token) x = s
advance s (sleep secs) x = s
advance s (add_secret token) x = record s { secret = some token }
advance s (set_token token) x = record s { token = token }

-- The stored file names this token.
abbrev Names : Externals → Option Bytes → Bytes → Type 0
Names ext disk token =
    (stored : StoredToken) × (stored.token ≡ token) × (disk ≡ some (ext.to_json stored))

abbrev Safe : Externals → Keeping → Op → Type 0
Safe ext s read_stored = Unit {0}
Safe ext s create_temp = Unit {0}
Safe ext s sync_temp = Unit {0}
Safe ext s persist = (s.is_private ≡ true) × (s.is_synced ≡ true)
Safe ext s now = Unit {0}
Safe ext s current_token = Unit {0}
Safe ext s lock = s.is_held ≡ false
Safe ext s unlock = s.is_held ≡ true
Safe ext s (set_mode mode) = Unit {0}
Safe ext s (write_temp text) = s.is_private ≡ true
Safe ext s (verify token) = token ≡ s.token
Safe ext s (reset token) = (s.is_held ≡ true) × (token ≡ s.token) × Names ext s.disk token
Safe ext s (sleep secs) = s.is_held ≡ false
Safe ext s (add_secret token) = Unit {0}
Safe ext s (set_token token) = (s.is_held ≡ true) × (s.secret ≡ some token)

-- Only the rotation changes the token in use.
abbrev Answered : Keeping → (op : Op) → Answer op → Type 0
Answered s read_stored x = Unit {0}
Answered s create_temp x = Unit {0}
Answered s sync_temp x = Unit {0}
Answered s persist x = Unit {0}
Answered s now x = Unit {0}
Answered s current_token x = x ≡ s.token
Answered s lock x = Unit {0}
Answered s unlock x = Unit {0}
Answered s (set_mode mode) x = Unit {0}
Answered s (write_temp text) x = Unit {0}
Answered s (verify token) x = Unit {0}
Answered s (reset token) x = Unit {0}
Answered s (sleep secs) x = Unit {0}
Answered s (add_secret token) x = Unit {0}
Answered s (set_token token) x = Unit {0}

abbrev pub rotating : Externals → Protocol Op Answer Keeping
rotating ext = record { allowed = Safe ext; expected = Answered; next = advance }

-- Between two rounds the lock is free.
abbrev pub Free : {A : Type 0} → Keeping → A → Type 0
Free s r = s.is_held ≡ false

abbrev OnDisk : Keeping → Bytes → Bool → Type 0
OnDisk t text true = t.disk ≡ some text
OnDisk t text false = Unit {0}

abbrev Saved : Keeping → Bytes → Keeping → Bool → Type 0
Saved s text t r = (t.is_held ≡ s.is_held) × (t.token ≡ s.token) × OnDisk t text r

module _ (ext : Externals) where
  abbrev p : Protocol Op Answer Keeping
  p = rotating ext

  persist-Saved :
      (s : Keeping) (text : Bytes) (x : Bool)
      → s.temp ≡ some text
      → Keeps p (Saved s text) (persisted s x) (and_then (done true) x)
  unfolding and_then
  persist-Saved s text true h = (refl, refl, h)
  persist-Saved s text false h = (refl, refl, tt)

  sync-Saved :
      (s : Keeping) (text : Bytes) (x : Bool)
      → s.temp ≡ some text
      → s.is_private ≡ true
      → Keeps p (Saved s text) (synced s x) (and_then (ask persist >>= and_then (done true)) x)
  unfolding and_then
  sync-Saved s text true h g =
      ((g, refl), λ x e. persist-Saved (record s { is_synced = true }) text x h)
  sync-Saved s text false h g = (refl, refl, tt)

  write-Saved :
      (s : Keeping) (text : Bytes) (x : Bool)
      → s.is_private ≡ true
      → Keeps p
          (Saved s text)
          (written s text x)
          (and_then (ask sync_temp >>= and_then (ask persist >>= and_then (done true))) x)
  unfolding and_then
  write-Saved s text true g =
      (tt, λ x e. sync-Saved (record s { temp = some text; is_synced = false }) text x refl g)
  write-Saved s text false g = (refl, refl, tt)

  mode-Saved :
      (s : Keeping) (text : Bytes) (x : Bool)
      → Keeps p (Saved s text) (moded s true x) (
          and_then
            (ask (write_temp text)
              >>= and_then (ask sync_temp >>= and_then (ask persist >>= and_then (done true))))
            x)
  unfolding and_then
  mode-Saved s text true = (refl, λ x e. write-Saved (record s { is_private = true }) text x refl)
  mode-Saved s text false = (refl, refl, tt)

  create-Saved :
      (s : Keeping) (text : Bytes) (x : Bool)
      → Keeps p (Saved s text) (created s x) (
          and_then
            (ask (set_mode 384)
              >>= and_then (
                  ask (write_temp text)
                  >>= and_then (ask sync_temp >>= and_then (ask persist >>= and_then (done true)))))
            x)
  unfolding and_then
  create-Saved s text true = (
    tt,
    λ x e. mode-Saved (record s { is_private = false; is_synced = false; temp = none }) text x,
  )
  create-Saved s text false = (refl, refl, tt)

  save-Saved :
      (s : Keeping) (stored : StoredToken)
      → Keeps p (Saved s (ext.to_json stored)) s (save ext stored)
  unfolding save
  save-Saved s stored = (tt, λ x e. create-Saved s (ext.to_json stored) x)

  renewed-Free :
      (s : Keeping) (replaces new : Bytes) (expiry : Option ℤ) (at : ℤ)
      → s.is_held ≡ true
      → Keeps p Free s (renewed ext replaces new expiry at)
  unfolding renewed
  renewed-Free s replaces new expiry at h =
      let stored = record_of replaces new at expiry in
      Keeps-bind p (Saved s (ext.to_json stored)) Free s (save ext stored) _ (save-Saved s stored)
        (λ t x g. (tt, λ x e. ((g.0 ∙ h, refl), λ x e. (g.0 ∙ h, λ x e. refl))))

  reset-Free :
      (s : Keeping) (replaces : Bytes) (obtained_at expires_at : ℤ)
      (x : Result TokenError (Bytes × Option ℤ))
      → s.is_held ≡ true
      → Keeps p Free s (after_reset ext replaces obtained_at expires_at x)
  unfolding after_reset
  reset-Free s replaces obtained_at expires_at (ok (new, expiry)) h =
      (tt, λ at e. renewed-Free s replaces new expiry at h)
  reset-Free s replaces obtained_at expires_at (err e) h = (h, λ x y. (refl, λ x y. refl))

  saved-Free :
      (s t : Keeping) (replaces old : Bytes) (obtained_at expires_at : ℤ) (x : Bool)
      → s.is_held ≡ true
      → old ≡ s.token
      → Saved s (ext.to_json (record_of replaces old obtained_at (some expires_at))) t x
      → Keeps p Free t (after_save ext replaces obtained_at expires_at old x)
  unfolding after_save record_of
  saved-Free s t replaces old obtained_at expires_at false h e g = (g.0 ∙ h, λ x y. refl)
  saved-Free s t replaces old obtained_at expires_at true h e g = (
    (g.0 ∙ h, e ∙ sym g.1, (record_of replaces old obtained_at (some expires_at), refl, g.2)),
    λ x y. reset-Free t replaces obtained_at expires_at x (g.0 ∙ h),
  )

  old-Free :
      (s : Keeping) (replaces old : Bytes) (obtained_at expires_at : ℤ)
      → s.is_held ≡ true
      → old ≡ s.token
      → Keeps p Free s (rotate_old ext replaces obtained_at expires_at old)
  unfolding rotate_old
  old-Free s replaces old obtained_at expires_at h e =
      let stored = record_of replaces old obtained_at (some expires_at) in
      Keeps-bind p (Saved s (ext.to_json stored)) Free s (save ext stored) _ (save-Saved s stored)
        (λ t x g. saved-Free s t replaces old obtained_at expires_at x h e g)

  wait-Free : (s : Keeping) (time : ℤ) → s.is_held ≡ false → Keeps p Free s (wait time)
  unfolding wait
  wait-Free s (pos zero) h = h
  wait-Free s (pos (suc n)) h = (h, λ x e. h)
  wait-Free s (negsuc n) h = h

  locked-Free :
      (s : Keeping) (replaces : Bytes) (obtained_at expires_at : ℤ)
      → s.is_held ≡ false
      → Keeps p Free s (locked ext replaces obtained_at expires_at)
  unfolding locked
  locked-Free s replaces obtained_at expires_at h = (
    h,
    λ x y. (
      tt,
      λ old e. old-Free (record s { is_held = true }) replaces old obtained_at expires_at refl e,
    ),
  )

  rotate-Free :
      (s : Keeping) (replaces : Bytes) (obtained_at expires_at : ℤ)
      → s.is_held ≡ false
      → Keeps p Free s (rotate ext replaces obtained_at expires_at)
  unfolding rotate
  rotate-Free s replaces obtained_at expires_at h = (
    tt,
    λ at e.
        let time = minus (reset_time ext obtained_at expires_at) at in
        Keeps-bind p Free Free s (wait time) (λ _. locked ext replaces obtained_at expires_at)
          (wait-Free s time h) (λ t x g. locked-Free t replaces obtained_at expires_at g),
  )

  verify-Free :
      (s : Keeping) (replaces : Bytes) (x : Result TokenError (Option ℤ))
      → s.is_held ≡ false
      → Keeps p Free s (after_verify ext replaces x)
  unfolding after_verify
  verify-Free s replaces (ok (some expires_at)) h =
      (tt, λ at e. rotate-Free s replaces at expires_at h)
  verify-Free s replaces (ok none) h = h
  verify-Free s replaces (err e) h = (h, λ x y. h)

  round-Free :
      (s : Keeping) (replaces : Bytes) (expiry : Option (ℤ × ℤ))
      → s.is_held ≡ false
      → Keeps p Free s (round ext replaces expiry)
  unfolding round
  round-Free s replaces (some (obtained_at, expires_at)) h =
      rotate-Free s replaces obtained_at expires_at h
  round-Free s replaces none h = (tt, λ token e. (e, λ x y. verify-Free s replaces x h))

  follow-Free :
      (loop : Option (ℤ × ℤ) → Action (Unit {0})) (s : Keeping) (next : Next)
      → ((expiry : Option (ℤ × ℤ)) → Keeps p Free s (loop expiry))
      → s.is_held ≡ false
      → Keeps p Free s (follow loop next)
  unfolding follow
  follow-Free loop s end f h = h
  follow-Free loop s (again expiry) f h = f expiry

  rounds-Free :
      (n : ℕ) (s : Keeping) (replaces : Bytes) (expiry : Option (ℤ × ℤ))
      → s.is_held ≡ false
      → Keeps p Free s (rounds ext replaces n expiry)
  unfolding rounds
  rounds-Free zero s replaces expiry h = h
  rounds-Free (suc n) s replaces expiry h =
      Keeps-bind p Free Free s (round ext replaces expiry) (follow (rounds ext replaces n))
        (round-Free s replaces expiry h)
        (λ t next g.
          follow-Free (rounds ext replaces n) t next (λ expiry. rounds-Free n t replaces expiry g)
            g)

-- However often the loop goes round, GitLab is asked to reset a token only while the lock is held,
-- only the token in use, and only once the stored file names it; a token comes into use only under
-- the lock and after the scrubber has it; the lock is free during every sleep and at the end; and
-- the stored file is only replaced by a file that is written whole, synced and private before
-- anything is written to it. No other task changes the token in use.
pub rotate_token-Safe :
    (ext : Externals) (replaces : Bytes) (n : ℕ) (s : Keeping)
    → s.is_held ≡ false
    → Keeps (rotating ext) Free s (rotate_token ext replaces n)
unfolding rotate_token load
rotate_token-Safe ext replaces n s h = (tt, λ contents e. rounds-Free ext n s replaces _ h)
