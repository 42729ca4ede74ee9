-- ===== src/Io.antt =====
-- Results of fallible code, and code that changes a state and may fail. What was written before a
-- failure stays written, so the state comes back beside the error too.
use s3xc.Prelude.{ℕ, ◌/◌, ◌≡◌, ◌⊎◌, inl, inr, refl, Text, codes, ◌==◌, if◌then◌else◌}

-- `error` is an `anyhow::Error` or a `std::io::Error`, by its text; `panic` unwinds the task;
-- `diverges` stands for a loop that never ends.
pub data Error : Type 0 where
  error : Text → Error
  panic diverges : Error

pub data Result {ℓ} (A : Type ℓ) : Type ℓ where
  ok : A → Result A
  err : Error → Result A

abbrev pub bind_result {ℓ κ} : {A : Type ℓ} {B : Type κ} → Result A → (A → Result B) → Result B
bind_result (ok a) f = f a
bind_result (err e) f = err e

-- A chain that returned did so by a first step that returned.
pub bind_ok_inv {ℓ κ} :
    {A : Type ℓ} {B : Type κ} (r : Result A) (f : A → Result B) (b : B)
    → bind_result r f ≡ ok b
    → (a : A) × (r ≡ ok a) × (f a ≡ ok b)
bind_ok_inv (ok a) f b e = (a, refl, e)
bind_ok_inv (err x) f b e = absurd cc

module _ {ℓ} {A : Type ℓ} where
  -- `e.unwrap()`, `e.expect(..)`
  abbrev pub unwrap : Result A → Result A
  unwrap (ok a) = ok a
  unwrap (err (error t)) = err panic
  unwrap (err panic) = err panic
  unwrap (err diverges) = err diverges

-- Division of unsigned numbers, which panics at zero.
unfoldable pub div : ℕ → ℕ → Result ℕ
div a b = if b == 0 then err panic else ok (a / b)

abbrev pub Io {ℓ} : Type ℓ → Type ℓ → Type ℓ
Io S A = S → Result A × S

module _ {ℓ} {S A : Type ℓ} where
  abbrev pub pure : A → Io S A
  pure a s = (ok a, s)

  abbrev pub raise : Error → Io S A
  raise e s = (err e, s)

  abbrev pub lift : Result A → Io S A
  lift r s = (r, s)

module _ {ℓ} {S A B : Type ℓ} where
  abbrev pub continue : (A → Io S B) → Result A → Io S B
  continue f (ok a) s = f a s
  continue f (err e) s = (err e, s)

  infixl 10 ◌>>=◌ ◌>>◌
  -- `e?` and what follows
  abbrev pub ◌>>=◌ : Io S A → (A → Io S B) → Io S B
  ◌>>=◌ m f s = continue f (m s).0 (m s).1

  abbrev pub ◌>>◌ : Io S A → Io S B → Io S B
  ◌>>◌ m n = m >>= λ _. n

module _ {ℓ} {S A B : Type ℓ} where
  -- After a step that returned, its continuation runs on the state that it left.
  pub bind_ok :
      (m : Io S A) (f : A → Io S B) (s : S) (a : A) → (m s).0 ≡ ok a → (m >>= f) s ≡ f a (m s).1
  bind_ok m f s a e = rw e

  pub bind_err :
      (m : Io S A) (f : A → Io S B) (s : S) (x : Error)
      → (m s).0 ≡ err x
      → (m >>= f) s ≡ (err x, (m s).1)
  bind_err m f s x e = rw e

module _ {ℓ} {S A B : Type ℓ} where
  -- A chain that returned did so by a first step that returned.
  pub bind_inv :
      (m : Io S A) (f : A → Io S B) (s : S) (b : B)
      → ((m >>= f) s).0 ≡ ok b
      → (a : A) × ((m s).0 ≡ ok a) × ((f a (m s).1).0 ≡ ok b)
  bind_inv m f s b e = first (m s).0 e
    where
      first :
          (r : Result A)
          → (continue f r (m s).1).0 ≡ ok b
          → (a : A) × (r ≡ ok a) × ((f a (m s).1).0 ≡ ok b)
      first (ok a) e = (a, refl, e)
      first (err x) e = absurd cc

module _ {ℓ} {A : Type ℓ} where
  abbrev pub attempt : Result A → Result (Result A)
  attempt (ok a) = ok (ok a)
  attempt (err (error t)) = ok (err (error t))
  attempt (err panic) = err panic
  attempt (err diverges) = err diverges

pub Result-cases {ℓ} :
    {A : Type ℓ} (r : Result A) → ((a : A) × (r ≡ ok a)) ⊎ ((e : Error) × (r ≡ err e))
Result-cases (ok a) = inl (a, refl)
Result-cases (err e) = inr (e, refl)

-- The result of `m` as a value: an error is caught, a panic is not.
abbrev pub catch {ℓ} : {S A : Type ℓ} → Io S A → Io S (Result A)
catch m s = (attempt (m s).0, (m s).1)

-- `handle.await?` of a spawned task: a panic of the task is a `JoinError`, whose text is not modelled.
abbrev pub join_task {ℓ} : {A : Type ℓ} → Result A → Result A
join_task (ok a) = ok a
join_task (err (error t)) = err (error t)
join_task (err panic) = err (error (codes "task panicked"))
join_task (err diverges) = err diverges

-- What a spawned task leaves, with its result at hand for whoever waits for it.
abbrev pub spawn {ℓ} : {S A : Type ℓ} → Io S A → Io S (Result A)
spawn m s = (ok (join_task (m s).0), (m s).1)

pub attempt_ok {ℓ} : {A : Type ℓ} (m : Result A) (a : A) → attempt m ≡ ok (ok a) → m ≡ ok a
attempt_ok (ok b) a e = cc
attempt_ok (err (error t)) a e = cc
attempt_ok (err panic) a e = cc
attempt_ok (err diverges) a e = cc
