-- ===== src/Actions/Scalar/Laws.antt =====
-- A scalar action brings its value about, and destroys nothing.
use dasik.Base.{
  String, true, false, ◌≡◌, refl, sym, ap, ◌∙◌, eq_iff, inl, inr, Option, none, some, List, [], ◌∷◌,
  if◌then◌else◌, Json, All, Bool-cases, ◌==◌, eq_refl,
}
use dasik.Effects.{Exec, ok, ◌>>=◌}
use dasik.Effects.Laws.{OnOk, OnOk-and_then}
use dasik.State.Change.{Change, change, modify as op_modify}
use package.dasik.Actions.Scalar.{
  ScalarHooks, is_set, same_value, set_change, compare_value, plan, apply, scalar_action,
}

-- What the hooks of a value `d` do: the config asks for `d`, the reading answers and changes nothing,
-- and after a successful setting the reading is `d`.
pub record CanSet {S : Type 0} (self : ScalarHooks S) (d : String) : Type 0 where
  pub not_empty : (d == "") ≡ false
  pub target : self.has_target ≡ true
  pub desires : (s : S) → self.desired_value s ≡ (ok (some d), s)
  pub reads : (s : S) → (v : Option String) × (self.actual_value s ≡ (ok v, s))
  pub sets :
      (s : S) → (t : S) × (self.set_value s ≡ (ok tt, t)) × (self.actual_value t ≡ (ok (some d), t))

module _ {S : Type 0} (self : ScalarHooks S) (d : String) (h : CanSet self d) where
  plan-eq :
      (s : S) (v : Option String)
      → self.actual_value s ≡ (ok v, s)
      → plan self s
        ≡ (ok (if same_value (some d) v then [] else set_change self.domain (some d)), s)
  unfolding plan is_set compare_value
  plan-eq s v e = rw (h.desires s) (rw h.not_empty (rw e refl))

  -- plan, apply and plan again, by the methods that the reconciler calls.
  abbrev pub plan_apply_plan : List Json → Exec S (List Change)
  plan_apply_plan managed = do
    changes ← (scalar_action self).plan managed
    _ ← (scalar_action self).apply changes
    (scalar_action self).plan managed

  apply-one : (s : S) (c : Change) → apply self (c ∷ []) s ≡ self.set_value s
  unfolding apply
  apply-one s c = rw h.target refl

  apply-none : (s : S) → apply self [] s ≡ (ok tt, s)
  unfolding apply
  apply-none s = refl

  plan-same :
      (s : S) (v : Option String)
      → self.actual_value s ≡ (ok v, s)
      → same_value (some d) v ≡ true
      → plan self s ≡ (ok [], s)
  plan-same s v e same = plan-eq s v e ∙ rw same refl

  plan-differs :
      (s : S) (v : Option String)
      → self.actual_value s ≡ (ok v, s)
      → same_value (some d) v ≡ false
      → plan self s ≡ (ok (change self.domain op_modify d "set" false ∷ []), s)
  unfolding set_change
  plan-differs s v e differs = plan-eq s v e ∙ rw differs refl

  same_value-eq : (v : Option String) → same_value (some d) v ≡ true → v ≡ some d
  unfolding same_value
  same_value-eq none e = absurd (cc)
  same_value-eq (some v) e = ap some (sym ((eq_iff d v).0 e))

  same_value_refl : same_value (some d) (some d) ≡ true
  unfolding same_value
  same_value_refl = eq_refl d

  -- Where the config declares a value that is not empty, there is a target, reading the value changes
  -- nothing, and setting it makes the reading the declared value: planning, applying and planning
  -- again succeeds, the second plan is empty, and the reading is the declared value.
  pub plan_apply_plan-converges :
      (managed : List Json) (s : S)
      → (t : S) × (plan_apply_plan managed s ≡ (ok [], t))
        × (self.actual_value t ≡ (ok (some d), t))
  unfolding scalar_action
  plan_apply_plan-converges managed s =
      let (v, e) = h.reads s in
      elim (Bool-cases (same_value (some d) v)) [
        | inl same ↦ (
          s,
          rw (plan-same s v e same) (rw (apply-none s) (plan-same s v e same)),
          e ∙ ap (λ x. (ok x, s)) (same_value-eq v same),
        )
        | inr differs ↦
            let (t, set, now) = h.sets s in
            (
              t,
              rw (plan-differs s v e differs) (
                  rw (apply-one s (change self.domain op_modify d "set" false))
                    (rw set (plan-same t (some d) now same_value_refl))),
              now,
            )
      ]

module _ {S : Type 0} (self : ScalarHooks S) where
  abbrev DestroysNothing : List Change → Type 0
  DestroysNothing = All (λ (c : Change). c.destructive ≡ false)

  set_change-DestroysNothing : (v : Option String) → DestroysNothing (set_change self.domain v)
  unfolding set_change change
  set_change-DestroysNothing none = tt
  set_change-DestroysNothing (some v) = (refl, tt)

  compare_value-DestroysNothing :
      (desired : Option String) (s : S) → OnOk DestroysNothing (compare_value self desired s).0
  unfolding compare_value
  compare_value-DestroysNothing desired s =
      let (r, t) = self.actual_value s in
      OnOk-and_then DestroysNothing r _ t (λ v. elim (Bool-cases (same_value desired v)) [
        | inl e ↦ rw e tt
        | inr e ↦ rw e (set_change-DestroysNothing desired)
      ])

  -- No change that a scalar action plans is destructive, so that applying them asks for no consent.
  pub plan-DestroysNothing :
      (managed : List Json) (s : S)
      → OnOk (All (λ (c : Change). c.destructive ≡ false)) ((scalar_action self).plan managed s).0
  unfolding scalar_action plan
  plan-DestroysNothing managed s =
      let (r, t) = self.desired_value s in
      OnOk-and_then DestroysNothing r _ t (λ desired. elim (Bool-cases (is_set desired)) [
        | inl e ↦ rw e (compare_value-DestroysNothing desired t)
        | inr e ↦ rw e tt
      ])
