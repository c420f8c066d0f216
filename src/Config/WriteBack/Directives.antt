-- ===== src/Config/WriteBack/Directives.antt =====
-- dasik/lib/json_parser/writeback.py: a directive whose resolved value is the captured one stays.
use dasik.Base.{
  ℕ, zero, suc, String, ◌≡◌, refl, arith, inl, inr, false, Option, List, [], ◌∷◌, mem, ◌==◌,
  eq_refl, Json, str, obj, end, field, json_eq_refl, IsJson, Bool-cases, Option-cases, is_empty,
}
use mathlib.Core.Path.{subst}
use dasik.Commands.{strip, lines_of}
use dasik.Config.Files
use dasik.Config.Files.{
  FilePath, Files, Outcome, done, failed, resolve_path, parent, read, empty_line, include_cycle,
  not_json,
}
use dasik.Config.Includes.{
  resolve, head_line, line_of, include, read_directive, load_file, resolve_includes,
}
use dasik.Config.Includes.Monotone.{resolve-Gives, load_file-Gives}
use dasik.Config.WriteBack.Staging.{Writes, Planner}
use dasik.Config.WriteBack.Texts.{plan_text, plan_line}
use dasik.Config.WriteBack.Texts.Laws.{survives_as_line-strip}
use dasik.Config.WriteBack.{document, plan_include, plan_file}

-- What a step that succeeded was made of.
pub >>=_done {ℓ κ} :
    {A : Type ℓ} {B : Type κ} (o : Outcome A) (f : A → Outcome B) {b : B}
    → Files.◌>>=◌ o f ≡ done b
    → (a : A) × (o ≡ done a) × (f a ≡ done b)
>>=_done (done a) f h = (a, refl, h)
>>=_done (failed e) f h = cc

pub done_injective {ℓ} : {A : Type ℓ} (a b : A) → done a ≡ done b → a ≡ b
done_injective a b e = cc

plan_text_same :
    (raw : Json) (path : FilePath) (text : String) (v : Json) (ws : Writes)
    → done (str text) ≡ done v
    → plan_text raw v path text ws ≡ done (raw, ws)
unfolding plan_text
plan_text_same raw path text v ws e = rw (← done_injective (str text) v e) (rw (eq_refl text) refl)

is_empty_of_line : (ls : List String) → (strip (head_line ls) == "") ≡ false → is_empty ls ≡ false
unfolding strip head_line
is_empty_of_line [] e = cc
is_empty_of_line (l ∷ ls) e = refl

plan_line_stored :
    (raw : Json) (path : FilePath) (text : String) (ws : Writes)
    → (strip (head_line (lines_of text)) == "") ≡ false
    → plan_line raw (str (strip (head_line (lines_of text)))) path text ws ≡ done (raw, ws)
unfolding plan_line
plan_line_stored raw path text ws q =
    rw
      (
        survives_as_line-strip text q,
        is_empty_of_line (lines_of text) q,
        eq_refl (strip (head_line (lines_of text))),
        plan_line,
      )
      refl

plan_line_same :
    (raw : Json) (path : FilePath) (text : String) (v : Json) (ws : Writes)
    → line_of text ≡ done v
    → plan_line raw v path text ws ≡ done (raw, ws)
unfolding line_of
plan_line_same raw path text v ws e = elim (Bool-cases (strip (head_line (lines_of text)) == "")) [
  | inl q ↦ let x : failed empty_line ≡ done v = rw (q, line_of) at e in cc
  | inr q ↦
      subst (λ w. plan_line raw w path text ws ≡ done (raw, ws))
        (done_injective (str (strip (head_line (lines_of text)))) v (rw (q, line_of) at e))
        (plan_line_stored raw path text ws q)
]

-- The document behind an $include that was resolved within its chain gives the same on its own.
plan_include_same :
    (files : Files) (loads : String → Option Json) (dumps : Json → String) (fuel : ℕ)
    (pd : FilePath → Json → Json → Planner Json) (raw : Json) (real : String) (path : FilePath)
    (text : String) (v : Json) (ws : Writes)
    → include loads (load_file files loads fuel) real path [] text ≡ done v
    → IsJson v
    → plan_include files loads dumps
        (λ w b. resolve_includes files loads (suc fuel) w b)
        pd
        raw
        v
        path
        text
        ws
      ≡ done (raw, ws)
unfolding include plan_include document resolve_includes mem
plan_include_same files loads dumps fuel pd raw real path text v ws e j =
    elim (Option-cases (loads text)) [
      | inl n ↦ let x : failed not_json ≡ done v = rw (n, include) at e in cc
      | inr (inner, n) ↦
          let again : resolve (load_file files loads (suc fuel) (parent path) []) inner ≡ done v =
            resolve-Gives (load_file files loads fuel (parent path) (real ∷ []))
              (load_file files loads (suc fuel) (parent path) [])
              (load_file-Gives files loads fuel (suc fuel) (parent path) (real ∷ []) []
                (omega arith) (λ r h. refl))
              inner v (rw (n, include) at e) in
          rw (n, plan_include, document) (rw again (rw (json_eq_refl v j) refl))
    ]

-- The part of a directive that depends on its text.
plan_text_of_file_same :
    (files : Files) (loads : String → Option Json) (dumps : Json → String) (fuel : ℕ)
    (pd : FilePath → Json → Json → Planner Json) (base path : FilePath) (k text : String)
    (raw v : Json) (ws : Writes)
    → resolve_path raw base ≡ done path
    → read files path ≡ done text
    → read_directive loads (load_file files loads fuel) (files.real_path path) path [] k text
      ≡ done v
    → IsJson v
    → plan_file files loads dumps
        (λ w b. resolve_includes files loads (suc fuel) w b)
        pd
        base
        k
        raw
        v
        ws
      ≡ done (obj (field k raw end), ws)
unfolding plan_file read_directive
plan_text_of_file_same files loads dumps fuel pd base path k text raw v ws p t e j =
    rw (p, t, plan_file)
      (elim (Bool-cases (k == "$include_text")) [
        | inl i ↦
            rw i
              (plan_text_same (obj (field k raw end)) path text v ws (rw (i, read_directive) at e))
        | inr i ↦ elim (Bool-cases (k == "$include_line")) [
          | inl l ↦
              rw (i, l)
                (plan_line_same (obj (field k raw end)) path text v ws
                  (rw (i, l, read_directive) at e))
          | inr l ↦
              rw (i, l)
                (plan_include_same files loads dumps fuel pd (obj (field k raw end))
                  (files.real_path path) path text v ws (rw (i, l, read_directive) at e) j)
        ]
      ])

-- A directive that names a file, at the result of resolving it.
pub plan_file_same :
    (files : Files) (loads : String → Option Json) (dumps : Json → String) (fuel : ℕ)
    (pd : FilePath → Json → Json → Planner Json) (base : FilePath) (k : String) (raw v : Json)
    (ws : Writes)
    → load_file files loads fuel base [] k raw ≡ done v
    → IsJson v
    → plan_file files loads dumps (λ w b. resolve_includes files loads fuel w b) pd base k raw v ws
      ≡ done (obj (field k raw end), ws)
unfolding load_file
plan_file_same files loads dumps zero pd base k raw v ws e j = cc
plan_file_same files loads dumps (suc fuel) pd base k raw v ws e j =
    let (path, p, e1) = >>=_done (resolve_path raw base) _ e in
    let (text, t, e2) = >>=_done (read files path) _ e1 in
    plan_text_of_file_same files loads dumps fuel pd base path k text raw v ws p t e2 j
