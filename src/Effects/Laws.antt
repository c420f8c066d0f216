-- ===== src/Effects/Laws.antt =====
-- Postconditions of effectful code, one rule for each way to build it.
use dasik.Base.{String, ◌≡◌, refl, ◌∙◌, arith, Bool, true, false, if◌then◌else◌}
use dasik.Effects.{
  exception, interrupt, Result, ok, raise, Exec, pure, lift, and_then, try_except, ◌>>=◌,
}

-- What a result satisfies if the code returned.
abbrev pub OnOk : {A : Type 0} → (A → Type 0) → Result A → Type 0
OnOk P (ok a) = P a
OnOk P (raise e) = Unit

module _ {S A B : Type 0} where
  pub OnOk-and_then :
      (P : B → Type 0) (r : Result A) (f : A → Exec S B) (s : S)
      → ((a : A) → OnOk P (f a s).0)
      → OnOk P (and_then r f s).0
  OnOk-and_then P (ok a) f s h = h a
  OnOk-and_then P (raise e) f s h = tt

  pub OnOk-and_then_on :
      (P : A → Type 0) (Q : B → Type 0) (r : Result A) (f : A → Exec S B) (s : S)
      → OnOk P r
      → ((a : A) → P a → OnOk Q (f a s).0)
      → OnOk Q (and_then r f s).0
  OnOk-and_then_on P Q (ok a) f s p h = h a p
  OnOk-and_then_on P Q (raise e) f s p h = tt

pub OnOk-eq : {A : Type 0} (P : A → Type 0) (r : Result A) (a : A) → r ≡ ok a → OnOk P r → P a
OnOk-eq P (ok b) a e h = ground arith
OnOk-eq P (raise x) a e h = absurd (cc)

-- Code that leaves the state as it was, whether it returns or raises.
pub record ReadsOnly {S A : Type 0} (m : Exec S A) : Type 0 where
  pub same : (s : S) → (m s).1 ≡ s

module _ {S A : Type 0} where
  pub ReadsOnly-pure : (a : A) → ReadsOnly {S = S} (pure a)
  ReadsOnly-pure a = record { same = λ s. refl }

  pub ReadsOnly-lift : (r : Result A) → ReadsOnly {S = S} (lift r)
  ReadsOnly-lift r = record { same = λ s. refl }

module _ {S A B : Type 0} where
  ReadsOnly-and_then :
      (r : Result A) (f : A → Exec S B) (s : S)
      → ((a : A) → ReadsOnly (f a))
      → (and_then r f s).1 ≡ s
  ReadsOnly-and_then (ok a) f s h = (h a).same s
  ReadsOnly-and_then (raise e) f s h = refl

  pub ReadsOnly-bind :
      (m : Exec S A) (f : A → Exec S B)
      → ReadsOnly m
      → ((a : A) → ReadsOnly (f a))
      → ReadsOnly (m >>= f)
  ReadsOnly-bind m f h k = record { same = λ s. ReadsOnly-and_then (m s).0 f (m s).1 k ∙ h.same s }

module _ {S A B : Type 0} where
  ReadsOnly-and_then_on :
      (P : A → Type 0) (r : Result A) (f : A → Exec S B) (s : S)
      → OnOk P r
      → ((a : A) → P a → ReadsOnly (f a))
      → (and_then r f s).1 ≡ s
  ReadsOnly-and_then_on P (ok a) f s p h = (h a p).same s
  ReadsOnly-and_then_on P (raise e) f s p h = refl

  -- The rest of the block may use what the first step guarantees of its result.
  pub ReadsOnly-bind_on :
      (P : A → Type 0) (m : Exec S A) (f : A → Exec S B)
      → ReadsOnly m
      → ((s : S) → OnOk P (m s).0)
      → ((a : A) → P a → ReadsOnly (f a))
      → ReadsOnly (m >>= f)
  ReadsOnly-bind_on P m f h p k = record {
    same = λ s. ReadsOnly-and_then_on P (m s).0 f (m s).1 (p s) k ∙ h.same s;
  }

module _ {S A : Type 0} where
  ReadsOnly-handle :
      (r : Result A) (h : String → Exec S A) (s : S)
      → ((e : String) → ReadsOnly (h e))
      → (try_except (lift r) h s).1 ≡ s
  unfolding try_except
  ReadsOnly-handle (ok a) h s k = refl
  ReadsOnly-handle (raise (exception e)) h s k = (k e).same s
  ReadsOnly-handle (raise interrupt) h s k = refl

  pub ReadsOnly-try_except :
      (m : Exec S A) (h : String → Exec S A)
      → ReadsOnly m
      → ((e : String) → ReadsOnly (h e))
      → ReadsOnly (try_except m h)
  unfolding try_except
  ReadsOnly-try_except m h r k = record {
    same = λ s. ReadsOnly-handle (m s).0 h (m s).1 k ∙ r.same s;
  }

  pub ReadsOnly-if :
      (b : Bool) (m n : Exec S A) → ReadsOnly m → ReadsOnly n → ReadsOnly (if b then m else n)
  ReadsOnly-if true m n h k = h
  ReadsOnly-if false m n h k = k

pub ruleset reads_only_rules =
    (ReadsOnly-pure, ReadsOnly-lift, ReadsOnly-bind, ReadsOnly-try_except, ReadsOnly-if)

-- What a result satisfies if the code returned, and that no interrupt left it.
abbrev pub CalmWith : {A : Type 0} → (A → Type 0) → Result A → Type 0
CalmWith P (ok a) = P a
CalmWith P (raise (exception e)) = Unit
CalmWith P (raise interrupt) = false ≡ true

-- That the code returned, and what the result satisfies.
abbrev pub OkWith : {A : Type 0} → (A → Type 0) → Result A → Type 0
OkWith P (ok a) = P a
OkWith P (raise e) = false ≡ true

module _ {S A B : Type 0} where
  pub CalmWith-and_then :
      (P : A → Type 0) (Q : B → Type 0) (r : Result A) (f : A → Exec S B) (s : S)
      → CalmWith P r
      → ((a : A) → P a → CalmWith Q (f a s).0)
      → CalmWith Q (and_then r f s).0
  CalmWith-and_then P Q (ok a) f s p h = h a p
  CalmWith-and_then P Q (raise (exception e)) f s p h = tt
  CalmWith-and_then P Q (raise interrupt) f s p h = p

  pub OkWith-and_then :
      (P : A → Type 0) (Q : B → Type 0) (r : Result A) (f : A → Exec S B) (s : S)
      → OkWith P r
      → ((a : A) → P a → OkWith Q (f a s).0)
      → OkWith Q (and_then r f s).0
  OkWith-and_then P Q (ok a) f s p h = h a p
  OkWith-and_then P Q (raise e) f s p h = p

module _ {S A : Type 0} where
  OkWith-handle :
      (P : A → Type 0) (r : Result A) (h : String → Exec S A) (s : S)
      → CalmWith P r
      → ((e : String) → OkWith P (h e s).0)
      → OkWith P (try_except (lift r) h s).0
  unfolding try_except
  OkWith-handle P (ok a) h s p k = p
  OkWith-handle P (raise (exception e)) h s p k = k e
  OkWith-handle P (raise interrupt) h s p k = p

  -- A handler that returns makes calm code return.
  pub OkWith-try_except :
      (P : A → Type 0) (m : Exec S A) (h : String → Exec S A) (s : S)
      → CalmWith P (m s).0
      → ((e : String) (t : S) → OkWith P (h e t).0)
      → OkWith P (try_except m h s).0
  unfolding try_except
  OkWith-try_except P m h s p k = OkWith-handle P (m s).0 h (m s).1 p (λ e. k e (m s).1)

pub OkWith-CalmWith : {A : Type 0} (P : A → Type 0) (r : Result A) → OkWith P r → CalmWith P r
OkWith-CalmWith P (ok a) h = h
OkWith-CalmWith P (raise (exception e)) h = tt
OkWith-CalmWith P (raise interrupt) h = h

pub OkWith-weaken :
    {A : Type 0} (P Q : A → Type 0) (r : Result A) → OkWith P r → ((a : A) → P a → Q a) → OkWith Q r
OkWith-weaken P Q (ok a) p h = h a p
OkWith-weaken P Q (raise e) p h = p
