-- ===== src/Config/WriteBack/Converged.antt =====
-- dasik/lib/json_parser/writeback.py: a captured config that is the resolved one stages no write.
use dasik.Base.{
  ℕ, suc, String, ◌≡◌, ◌≢◌, refl, sym, inl, inr, Option, some, List, [], ◌∷◌, if◌then◌else◌, ◌==◌,
  Json, null, bool, num, str, arr, obj, Items, nil, cons, Fields, end, field, list_of, IsJson,
  HaveJson, AreJson, field_get, Within, Bool-cases, select,
}
use mathlib.Core.Path.{subst}
use dasik.Config.Files.{FilePath, Files, Outcome, done, failed, not_alone, read, parent}
use dasik.Config.Includes.{
  is_directive, has_directive, resolve, resolve_items, resolve_fields, load_file, resolve_includes,
}
use dasik.Config.WriteBack.Staging.{Writes, Planner}
use dasik.Config.WriteBack.Matching.{plan_items, zip_parts}
use dasik.Config.WriteBack.Directives.{>>=_done, done_injective}
use dasik.Config.WriteBack.{
  write_back, plan_document, document, add_extra, plan, plan_fields, planners,
}
use dasik.Config.WriteBack.Keys.{plan_items-same}
use dasik.Config.WriteBack.Parts.{one_directive, plan_dict-same, plan_list-same}

-- No $concat within the value has an empty list of members.
unfoldable mutual
  pub NoEmptyConcat : Json → Type 0
  NoEmptyConcat (arr xs) = NoneEmpty xs
  NoEmptyConcat (obj fs) = NoneEmptyIn fs
  NoEmptyConcat _ = Unit

  pub NoneEmpty : Items → Type 0
  NoneEmpty nil = Unit
  NoneEmpty (cons x xs) = NoEmptyConcat x × NoneEmpty xs

  pub NoneEmptyIn : Fields → Type 0
  NoneEmptyIn end = Unit
  NoneEmptyIn (field k v fs) = (k ≡ "$concat" → v ≢ arr nil) × NoEmptyConcat v × NoneEmptyIn fs

module _ (files : Files) (loads : String → Option Json) (dumps : Json → String) (fuel : ℕ)
    (base : FilePath) (pd : FilePath → Json → Json → Planner Json) where
  abbrev load_root : String → Json → Outcome Json
  load_root = load_file files loads fuel base []

  abbrev resolve_all : Json → FilePath → Outcome Json
  resolve_all v b = resolve_includes files loads fuel v b

  plan_field-same :
      (k : String) (x y : Json) (fs new : Fields) (ws : Writes)
      → field_get new k ≡ some y
      → plan files loads dumps resolve_all pd base x y ws ≡ done (x, ws)
      → plan_fields files loads dumps resolve_all pd base fs new ws ≡ done (fs, ws)
      → plan_fields files loads dumps resolve_all pd base (field k x fs) new ws
        ≡ done (field k x fs, ws)
  unfolding plan
  plan_field-same k x y fs new ws g h r = rw (g, plan_fields) (rw h (rw r refl))

  mutual
    unfolding resolve plan NoEmptyConcat IsJson plan_items zip_parts list_of

    plan-same :
        (raw v : Json) (ws : Writes)
        → NoEmptyConcat raw
        → resolve load_root raw ≡ done v
        → IsJson v
        → plan files loads dumps resolve_all pd base raw v ws ≡ done (raw, ws)
    plan-same (arr xs) v ws n e j =
        plan_list-same files loads dumps fuel base pd xs
          (planners files loads dumps resolve_all pd base xs) v ws
          (λ ys p k. plan_items-converged xs ys ws n p k) e j
    plan-same (obj end) v ws n e j =
        plan_dict-same files loads dumps fuel base pd end
          (plan_fields files loads dumps resolve_all pd base end) v ws
          (λ gs new p k w. plan_fields-converged end gs new ws n p k w) refl e j
    plan-same (obj (field k x end)) v ws n e j = elim (Bool-cases (is_directive k)) [
      | inl d ↦ one_directive files loads dumps fuel base pd k x v ws d n.0 e j
      | inr d ↦
          rw (d, plan)
            (plan_dict-same files loads dumps fuel base pd (field k x end)
              (plan_fields files loads dumps resolve_all pd base (field k x end)) v ws
              (λ gs new p h w. plan_fields-converged (field k x end) gs new ws n p h w) (rw d refl)
              e j)
    ]
    plan-same (obj (field k x (field i y fs))) v ws n e j =
        elim (Bool-cases (has_directive (field k x (field i y fs)))) [
          | inl d ↦ let q : failed not_alone ≡ done v = rw (d, resolve) at e in cc
          | inr d ↦
              plan_dict-same files loads dumps fuel base pd (field k x (field i y fs))
                (plan_fields files loads dumps resolve_all pd base (field k x (field i y fs))) v ws
                (λ gs new p h w. plan_fields-converged (field k x (field i y fs)) gs new ws n p h w)
                d e j
        ]
    plan-same null v ws n e j = cc
    plan-same (bool b) v ws n e j = cc
    plan-same (num m) v ws n e j = cc
    plan-same (str t) v ws n e j = cc

    plan_items-converged :
        (xs ys : Items) (ws : Writes)
        → NoneEmpty xs
        → resolve_items load_root xs ≡ done ys
        → AreJson ys
        → plan_items
            (zip_parts (list_of ys) (planners files loads dumps resolve_all pd base xs))
            ys
            ws
          ≡ done (xs, ws)
    plan_items-converged nil ys ws n e j =
        subst (λ u. plan_items (zip_parts (list_of u) []) u ws ≡ done (nil, ws))
          (done_injective nil ys e) refl
    plan_items-converged (cons x xs) ys ws n e j =
        let (y, p, e1) = >>=_done (resolve load_root x) _ e in
        let (zs, q, e2) = >>=_done (resolve_items load_root xs) _ e1 in
        let u : cons y zs ≡ ys = done_injective (cons y zs) ys e2 in
        let k : IsJson y × AreJson zs = subst AreJson (sym u) j in
        subst
          (λ us.
            plan_items
              (zip_parts (list_of us) (planners files loads dumps resolve_all pd base (cons x xs)))
              us ws
            ≡ done (cons x xs, ws))
          u
          (plan_items-same x y xs zs (plan files loads dumps resolve_all pd base x)
            (zip_parts (list_of zs) (planners files loads dumps resolve_all pd base xs)) ws k.0
            (λ us. plan-same x y us n.0 p k.0) (plan_items-converged xs zs ws n.1 q k.1))

    plan_fields-converged :
        (fs gs new : Fields) (ws : Writes)
        → NoneEmptyIn fs
        → resolve_fields load_root fs ≡ done gs
        → HaveJson gs
        → Within gs new
        → plan_fields files loads dumps resolve_all pd base fs new ws ≡ done (fs, ws)
    plan_fields-converged end gs new ws n e j w = refl
    plan_fields-converged (field k x fs) gs new ws n e j w =
        let (y, p, e1) = >>=_done (resolve load_root x) _ e in
        let (hs, q, e2) = >>=_done (resolve_fields load_root fs) _ e1 in
        let u : field k y hs ≡ gs = done_injective (field k y hs) gs e2 in
        let i : HaveJson (field k y hs) = subst HaveJson (sym u) j in
        let v : Within (field k y hs) new = subst (λ fs'. Within fs' new) (sym u) w in
        plan_field-same k x y fs new ws v.0 (plan-same x y ws n.1 p i.1)
          (plan_fields-converged fs hs new ws n.2 q i.2 v.1)

plan_document-same :
    (files : Files) (loads : String → Option Json) (dumps : Json → String) (fuel depth : ℕ)
    (base : FilePath) (raw v : Json)
    → NoEmptyConcat raw
    → resolve_includes files loads fuel raw base ≡ done v
    → IsJson v
    → plan_document files loads dumps (resolve_includes files loads fuel) (suc depth) base raw v []
      ≡ done (raw, [])
unfolding plan_document resolve_includes
plan_document-same files loads dumps fuel depth base raw v n e j =
    plan-same files loads dumps fuel base
      (plan_document files loads dumps (resolve_includes files loads fuel) depth) raw v [] n e j

-- Writing back what the config resolves to stages no included file: the root file stays where it has
-- the text that _dumps makes of its own document, and only the root is written otherwise. The root can
-- be read and is JSON, no $concat in it has an empty list of members, and no dict of the captured
-- config has a key twice.
pub write_back_converged :
    (files : Files) (loads : String → Option Json) (dumps : Json → String) (fuel depth : ℕ)
    (root : FilePath) (current : String) (raw v : Json) (deletions : List FilePath)
    → read files root ≡ done current
    → loads current ≡ some raw
    → NoEmptyConcat raw
    → resolve_includes files loads fuel raw (parent root) ≡ done v
    → IsJson v
    → write_back files loads dumps
        (resolve_includes files loads fuel)
        (suc depth)
        root
        v
        []
        deletions
      ≡ done (if dumps raw == current then [] else (root, dumps raw) ∷ [], deletions)
unfolding write_back document add_extra select
write_back_converged files loads dumps fuel depth root current raw v deletions r l n e j =
    rw (r, write_back)
      (rw (l, document)
        (rw (plan_document-same files loads dumps fuel depth (parent root) raw v n e j) refl))
