-- ===== src/Reconciler/Applying/Recorded.antt =====
-- What an apply leaves in dasik's own records, when it succeeds and when it fails.
use dasik.Base.{String, ◌≡◌, ◌⊎◌, true, false, Option, some, List, Dict, Json}
use dasik.Effects.{Exn, interrupt, Result, ok, raise}
use dasik.State.StateStore.{Manifest, Directory}
use dasik.State.GenerationStore.{Generations}
use dasik.Reconciler.Interface.{ActionPlanResult, Reconciler}
use dasik.Reconciler.Manifests.{World, put_sys, persist}
use dasik.Reconciler.Manifests.Laws.{Describes}

-- Both of dasik's records.
abbrev pub Records : Type 0
Records = Generations × Directory

abbrev pub records : {S : Type 0} → World S → Records
records w = (w.generations, w.state)

module _ {S : Type 0} where
  -- Hooks leave the records alone, and raise nothing but an interrupt.
  abbrev HookOutcome : World S → Result (Unit {0}) × World S → Type 0
  HookOutcome w (r, v) = (records v ≡ records w) × ((r ≡ ok tt) ⊎ (r ≡ raise interrupt))

module _ {S : Type 0} (hash : Dict Json → String) (now : String) (self : Reconciler S) where
  -- After a failure `e`: a partial manifest is recorded and `e` raised again, or building the
  -- manifest raised itself and nothing is recorded.
  abbrev pub FailureOutcome :
      List (ActionPlanResult S) → S → Exn → World S → Result (Option Manifest) × World S → Type 0
  FailureOutcome completed s e w (r, v) =
      ((m : Manifest) × Describes hash now self completed true s m
        × (r ≡ raise e)
        × (records v ≡ records (persist self m w)))
      ⊎ ((x : Exn) × (r ≡ raise x) × (records v ≡ records w))

  -- After success: a manifest that is not partial is recorded, and returned unless a hook was
  -- interrupted; or building it raised and nothing is recorded.
  abbrev pub SuccessOutcome :
      List (ActionPlanResult S) → S → World S → Result (Option Manifest) × World S → Type 0
  SuccessOutcome results s w (r, v) =
      ((m : Manifest) × Describes hash now self results false s m
        × ((r ≡ ok (some m)) ⊎ (r ≡ raise interrupt))
        × (records v ≡ records (persist self m w)))
      ⊎ ((x : Exn) × (r ≡ raise x) × (records v ≡ records w))

  -- What the loop's answer makes of the records.
  abbrev pub ApplyOutcome :
      List (ActionPlanResult S)
      → World S
      → (Result (Unit {0}) × List (ActionPlanResult S)) × S
      → Result (Option Manifest) × World S
      → Type 0
  ApplyOutcome results w ((ok _, completed), s) out = SuccessOutcome results s (put_sys s w) out
  ApplyOutcome results w ((raise e, completed), s) out =
      FailureOutcome completed s e (put_sys s w) out
