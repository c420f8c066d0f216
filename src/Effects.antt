-- ===== src/Effects.antt =====
-- Python code that changes a state and may raise. What was written before a raise stays written.
pub mod Laws
use dasik.Base.{String, Option, none, some, List, [], ◌∷◌}

-- `exception` is an `Exception` with its message; `interrupt` is a `BaseException` that is none, such
-- as KeyboardInterrupt, which `except Exception` lets pass.
pub data Exn : Type 0 where
  exception : String → Exn
  interrupt : Exn

pub data Result {ℓ} (A : Type ℓ) : Type ℓ where
  ok : A → Result A
  raise : Exn → Result A

abbrev pub Exec : Type 0 → Type 0 → Type 0
Exec S A = S → Result A × S

module _ {S A : Type 0} where
  abbrev pub pure : A → Exec S A
  pure a s = (ok a, s)

  abbrev pub throw : Exn → Exec S A
  throw e s = (raise e, s)

  -- A computed result as a step that leaves the state alone.
  abbrev pub lift : Result A → Exec S A
  lift r s = (r, s)

  abbrev handle : Result A → (String → Exec S A) → S → Result A × S
  handle (ok a) h s = (ok a, s)
  handle (raise (exception e)) h s = h e s
  handle (raise interrupt) h s = (raise interrupt, s)

  -- try: m, except Exception as e: h(e)
  unfoldable pub try_except : Exec S A → (String → Exec S A) → Exec S A
  try_except m h s = let (r, s') = m s in handle r h s'

module _ {S : Type 0} where
  abbrev pub modify : (S → S) → Exec S (Unit {0})
  modify f s = (ok tt, f s)

  abbrev pub read : Exec S S
  read s = (ok s, s)

module _ {S A B : Type 0} where
  abbrev pub and_then : Result A → (A → Exec S B) → S → Result B × S
  and_then (ok a) f s = f a s
  and_then (raise e) f s = (raise e, s)

  infixl 5 ◌>>=◌ ◌>>◌
  abbrev pub ◌>>=◌ : Exec S A → (A → Exec S B) → Exec S B
  ◌>>=◌ m f s = let (r, s') = m s in and_then r f s'

  abbrev pub ◌>>◌ : Exec S A → Exec S B → Exec S B
  m >> n = m >>= λ _. n

-- The step of a part of the state, as a step of the whole.
module _ {S T A : Type 0} (part : T → S) (put_part : S → T → T) where
  abbrev pub focus : Exec S A → Exec T A
  focus m t = let (r, s) = m (part t) in (r, put_part s t)
