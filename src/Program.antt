-- ===== src/Program.antt =====
-- Asynchronous code as its effects: a call of the environment, with what the code does for each
-- answer. The environment decides every answer, so a property of a program holds whatever the
-- clock, GitLab, the scripts and the jobs beside it do between two calls.
use turboci.Prelude.{if◌then◌else◌, ◌≡◌, refl, Bool, true, false}

pub data Program (Op : Type 0) (Answer : Op → Type 0) (A : Type 0) : Type 0 where
  done : A → Program Op Answer A
  call : (op : Op) → (Answer op → Program Op Answer A) → Program Op Answer A

module _ {Op : Type 0} {Answer : Op → Type 0} where
  infixl 5 ◌>>=◌ ◌>>◌
  abbrev pub ◌>>=◌ :
      {A B : Type 0} → Program Op Answer A → (A → Program Op Answer B) → Program Op Answer B
  done a >>= f = f a
  call op k >>= f = call op (λ x. k x >>= f)

  abbrev pub ◌>>◌ : {A B : Type 0} → Program Op Answer A → Program Op Answer B → Program Op Answer B
  m >> k = m >>= λ _. k

  abbrev pub ask : (op : Op) → Program Op Answer (Answer op)
  ask op = call op done

-- What a program may call and what the environment is taken to answer, given the calls before and
-- their answers, which `S` summarises.
pub record Protocol (Op : Type 0) (Answer : Op → Type 0) (S : Type 0) : Type 1 where
  pub allowed : S → Op → Type 0
  pub expected : S → (op : Op) → Answer op → Type 0
  pub next : S → (op : Op) → Answer op → S

module _ {Op : Type 0} {Answer : Op → Type 0} {S A : Type 0} where
  -- Whatever the environment answers, as far as the protocol expects it: every call is one that
  -- the protocol allows, and `Post` holds of the summary and the result.
  abbrev pub Keeps : Protocol Op Answer S → (S → A → Type 0) → S → Program Op Answer A → Type 0
  Keeps p Post s (done a) = Post s a
  Keeps p Post s (call op k) =
      p.allowed s op × ((x : Answer op) → p.expected s op x → Keeps p Post (p.next s op x) (k x))

  pub Keeps-weaken :
      (p : Protocol Op Answer S) (Q R : S → A → Type 0) (s : S) (m : Program Op Answer A)
      → ((t : S) (a : A) → Q t a → R t a)
      → Keeps p Q s m
      → Keeps p R s m
  Keeps-weaken p Q R s (done a) f h = f s a h
  Keeps-weaken p Q R s (call op k) f h =
      (h.0, λ x e. Keeps-weaken p Q R (p.next s op x) (k x) f (h.1 x e))

module _ {Op : Type 0} {Answer : Op → Type 0} {S : Type 0} where
  -- What a protocol observes without demanding anything.
  abbrev pub observer : (S → (op : Op) → Answer op → S) → Protocol Op Answer S
  observer next = record { allowed = λ s op. Unit {0}; expected = λ s op x. Unit {0}; next = next }

module _ {Op : Type 0} {Answer : Op → Type 0} {S A : Type 0} (p : Protocol Op Answer S) where
  pub Keeps-if :
      (Q : S → A → Type 0) (s : S) (b : Bool) (m n : Program Op Answer A)
      → (b ≡ true → Keeps p Q s m)
      → (b ≡ false → Keeps p Q s n)
      → Keeps p Q s (if b then m else n)
  Keeps-if Q s true m n f g = f refl
  Keeps-if Q s false m n f g = g refl

module _ {Op : Type 0} {Answer : Op → Type 0} {S A B : Type 0} (p : Protocol Op Answer S) where
  pub Keeps-bind :
      (Q : S → A → Type 0) (R : S → B → Type 0) (s : S) (m : Program Op Answer A)
      (f : A → Program Op Answer B)
      → Keeps p Q s m
      → ((t : S) (a : A) → Q t a → Keeps p R t (f a))
      → Keeps p R s (m >>= f)
  Keeps-bind Q R s (done a) f h g = g s a h
  Keeps-bind Q R s (call op k) f h g =
      (h.0, λ x e. Keeps-bind Q R (p.next s op x) (k x) f (h.1 x e) g)

-- A concrete environment, and a run in it.
pub record World (Op : Type 0) (Answer : Op → Type 0) (W : Type 0) : Type 0 where
  pub answer : W → (op : Op) → Answer op × W

module _ {Op : Type 0} {Answer : Op → Type 0} {W A : Type 0} where
  abbrev pub perform : World Op Answer W → W → Program Op Answer A → A × W
  perform world w (done a) = (a, w)
  perform world w (call op k) = let (x, w') = world.answer w op in perform world w' (k x)
