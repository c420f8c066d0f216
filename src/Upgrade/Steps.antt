-- ===== src/Upgrade/Steps.antt =====
-- dasik/lib/upgrade/steps.py: what to run, and what came of it.
use dasik.Base.{String, Bool, true, false, Option, List}
use dasik.Effects.{Exec}

pub record UpgradeStep (S : Type 0) : Type 0 where
  pub domain : String
  pub item : String
  pub user : String
  pub commands : List (String × List String)
  pub skip : Option String
  pub version : Exec S (Option String)
  pub fingerprint : Exec S (Option String)
  pub after : Option String
  pub failure_text : List String

pub data Status : Type 0 where
  updated current refreshed skipped failed : Status

abbrev pub is_failed : Status → Bool
is_failed failed = true
is_failed _ = false

pub record UpgradeOutcome : Type 0 where
  pub item : String
  pub status : Status
  pub before : Option String
  pub after : Option String
  pub detail : String
  pub contents : Option String
