-- ===== src/Reconciler/Planning/Laws.antt =====
-- What a built plan holds, and that building it changes nothing.
use mathlib.Core.List.{append_assoc, append-nil}
use dasik.Base.{◌≡◌, refl, ◌∙◌, ap, Option, none, some, List, [], ◌∷◌, ◌++◌, Json}
use dasik.Effects.{ok}
use dasik.Effects.Laws.{OnOk, OnOk-and_then, OnOk-eq, ReadsOnly}
use dasik.State.Change.{Change, Plan, empty_plan}
use dasik.Reconciler.Interface.{Context, Action, Meta, ActionPlanResult, Reconciler}
use dasik.Reconciler.Planning.{plan_action, append_result, plan_metas, build_plan}

module _ {S : Type 0} where
  -- The changes of the results, in their order.
  abbrev pub all_changes : List (ActionPlanResult S) → List Change
  all_changes [] = []
  all_changes (r ∷ rs) = r.changes ++ all_changes rs

  all_changes-append :
      (rs : List (ActionPlanResult S)) (r : ActionPlanResult S)
      → all_changes (rs ++ r ∷ []) ≡ all_changes rs ++ r.changes
  all_changes-append [] r = append-nil r.changes
  all_changes-append (q ∷ rs) r = rw (all_changes-append rs r, append_assoc)

  abbrev Agree : Plan × List (ActionPlanResult S) → Type 0
  Agree (plan, results) = plan.changes ≡ all_changes results

  Agree-append_result :
      (acc : Plan × List (ActionPlanResult S)) (r : Option (ActionPlanResult S))
      → Agree acc
      → Agree (append_result acc r)
  unfolding append_result
  Agree-append_result acc none h = h
  Agree-append_result (plan, results) (some r) h =
      ap (λ cs. cs ++ r.changes) h ∙ rw all_changes-append

  Agree-plan_metas :
      (self : Reconciler S) (metas : List (Meta S)) (acc : Plan × List (ActionPlanResult S)) (s : S)
      → Agree acc
      → OnOk Agree (plan_metas self metas acc s).0
  unfolding plan_metas
  Agree-plan_metas self [] acc s h = h
  Agree-plan_metas self (meta ∷ metas) acc s h =
      OnOk-and_then Agree (plan_action self meta s).0
        (λ r. plan_metas self metas (append_result acc r)) (plan_action self meta s).1
        (λ r. Agree-plan_metas self metas (append_result acc r) _ (Agree-append_result acc r h))

  -- A plan that was built holds exactly the changes of its per-action results, in their order.
  pub build_plan_lem :
      (self : Reconciler S) (s : S) (plan : Plan) (results : List (ActionPlanResult S))
      → (build_plan self s).0 ≡ ok (plan, results)
      → plan.changes ≡ all_changes results
  unfolding build_plan
  build_plan_lem self s plan results h =
      OnOk-eq Agree _ (plan, results) h (Agree-plan_metas self self.metas (empty_plan, []) s refl)

  -- An action whose probe and whose `plan` only read the machine.
  pub record IsObserver (action : Action S) : Type 0 where
    pub keys : ReadsOnly action.managed_keys
    pub plan : (managed : List Json) → ReadsOnly (action.plan managed)

  -- A class whose construction only reads, and gives such actions.
  pub record BuildsObservers (meta : Meta S) : Type 0 where
    pub construct :
        (config : Json) (context : Option Context) → ReadsOnly (meta.cls.construct config context)
    pub constructs :
        (config : Json) (context : Option Context) (s : S)
        → OnOk IsObserver (meta.cls.construct config context s).0
    pub bare : ReadsOnly meta.cls.bare
    pub bares : (s : S) → OnOk IsObserver (meta.cls.bare s).0
