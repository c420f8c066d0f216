-- ===== src/Config/WriteBack/Parts.antt =====
-- dasik/lib/json_parser/writeback.py: one step of the walk, at the value that the raw one resolves to.
use dasik.Base.{
  ℕ, String, ◌≡◌, ◌≢◌, refl, sym, ap, ◌∙◌, inl, inr, true, false, Option, List, [], ◌∷◌, ◌==◌,
  eq_iff, Json, null, bool, num, str, arr, obj, Items, nil, cons, Fields, end, field, list_of,
  json_eq_refl, IsJson, HaveJson, AreJson, Within, Within-self, Bool-cases,
}
use mathlib.Core.Path.{subst}
use dasik.Config.Files.{FilePath, Files, Outcome, done}
use dasik.Config.Includes.{
  is_directive, has_directive, append_items, items_in, resolve, resolve_items, resolve_fields,
  resolve_concat, resolve_members, load_file, resolve_includes,
}
use dasik.Config.WriteBack.Staging.{Writes, Planner}
use dasik.Config.WriteBack.Matching.{plan_items, zip_parts}
use dasik.Config.WriteBack.Shares.{flatten}
use dasik.Config.WriteBack.Directives.{>>=_done, done_injective, plan_file_same}
use dasik.Config.WriteBack.{
  plan, plan_concat, plan_dict, plan_list, plan_file, plan_members, resolve_each,
}
use dasik.Config.WriteBack.Keys.{
  HasKeys-self, added_fields-known, append_fields-end, entries-items_in, items_of-list_of,
  list_of-append_items, resolve_directive_concat, resolve_directive_file, resolve_fields-HasKeys,
  resolve_one,
}

flatten-cons :
    (y : Json) (rs : List Json) (ys us : Items)
    → items_in y ≡ done ys
    → flatten rs ≡ done (list_of us)
    → flatten (y ∷ rs) ≡ done (list_of (append_items ys us))
unfolding flatten
flatten-cons y rs ys us q g =
    rw (entries-items_in y ys q) (rw g (ap done (sym (list_of-append_items ys us))))

module _ (files : Files) (loads : String → Option Json) (dumps : Json → String) (fuel : ℕ)
    (base : FilePath) (pd : FilePath → Json → Json → Planner Json) where
  abbrev pub load_root : String → Json → Outcome Json
  load_root = load_file files loads fuel base []

  abbrev pub resolve_all : Json → FilePath → Outcome Json
  resolve_all v b = resolve_includes files loads fuel v b

  pub resolve_each-items :
      (xs ys : Items)
      → resolve_items load_root xs ≡ done ys
      → resolve_each files loads dumps resolve_all base (list_of xs) ≡ done (list_of ys)
  unfolding resolve resolve_each resolve_includes list_of
  resolve_each-items nil ys e = ap (λ zs. done (list_of zs)) (done_injective nil ys e)
  resolve_each-items (cons x xs) ys e =
      let (y, p, e1) = >>=_done (resolve load_root x) _ e in
      let (zs, q, e2) = >>=_done (resolve_items load_root xs) _ e1 in
      rw p (
        rw (resolve_each-items xs zs q)
          (ap (λ us. done (list_of us)) (done_injective (cons y zs) ys e2)))

  resolve_each-cons :
      (x y : Json) (xs ys : List Json)
      → resolve load_root x ≡ done y
      → resolve_each files loads dumps resolve_all base xs ≡ done ys
      → resolve_each files loads dumps resolve_all base (x ∷ xs) ≡ done (y ∷ ys)
  unfolding resolve_each resolve_includes
  resolve_each-cons x y xs ys p q = rw p (rw q refl)

  -- The members of a $concat, resolved one by one, flatten to what it resolves to.
  pub resolve_each-members :
      (xs zs : Items)
      → resolve_members load_root xs ≡ done zs
      → (rs : List Json) × (resolve_each files loads dumps resolve_all base (list_of xs) ≡ done rs)
        × (flatten rs ≡ done (list_of zs))
  unfolding resolve resolve_each resolve_includes list_of flatten
  resolve_each-members nil zs e = ([], refl, ap (λ us. done (list_of us)) (done_injective nil zs e))
  resolve_each-members (cons x xs) zs e =
      let (y, p, e1) = >>=_done (resolve load_root x) _ e in
      let (ys, q, e2) = >>=_done (items_in y) _ e1 in
      let (us, r, e3) = >>=_done (resolve_members load_root xs) _ e2 in
      let (rs, f, g) = resolve_each-members xs us r in
      (
        y ∷ rs,
        resolve_each-cons x y (list_of xs) rs p f,
        flatten-cons y rs ys us q g
            ∙ ap (λ ts. done (list_of ts)) (done_injective (append_items ys us) zs e3),
      )

  -- A dict whose keys are put back stays, and so does a list.
  pub plan_dict-same :
      (raw : Fields) (kept : Fields → Planner Fields) (v : Json) (ws : Writes)
      → ((gs new : Fields)
          → resolve_fields load_root raw ≡ done gs
          → HaveJson gs
          → Within gs new
          → kept new ws ≡ done (raw, ws))
      → has_directive raw ≡ false
      → resolve load_root (obj raw) ≡ done v
      → IsJson v
      → plan_dict raw kept v ws ≡ done (obj raw, ws)
  unfolding resolve plan_dict IsJson
  plan_dict-same raw kept v ws h d e j =
      let (gs, p, e1) = >>=_done (resolve_fields load_root raw) _ (rw (d, resolve) at e) in
      let q : obj gs ≡ v = done_injective (obj gs) v e1 in
      let k : HaveJson gs = subst IsJson (sym q) j in
      subst (λ w. plan_dict raw kept w ws ≡ done (obj raw, ws)) q
        (rw (h gs gs p k (Within-self gs k)) (
          rw
            (
              added_fields-known raw gs
                  (resolve_fields-HasKeys load_root raw gs raw p (HasKeys-self raw)),
              append_fields-end raw,
            )
            refl))

  pub plan_list-same :
      (xs : Items) (puts : List (Json → Planner Json)) (v : Json) (ws : Writes)
      → ((ys : Items)
          → resolve_items load_root xs ≡ done ys
          → AreJson ys
          → plan_items (zip_parts (list_of ys) puts) ys ws ≡ done (xs, ws))
      → resolve load_root (arr xs) ≡ done v
      → IsJson v
      → plan_list files loads dumps resolve_all base xs puts v ws ≡ done (arr xs, ws)
  unfolding resolve plan_list IsJson
  plan_list-same xs puts v ws h e j =
      let (ys, p, e1) = >>=_done (resolve_items load_root xs) _ e in
      let q : arr ys ≡ v = done_injective (arr ys) v e1 in
      subst (λ w. plan_list files loads dumps resolve_all base xs puts w ws ≡ done (arr xs, ws)) q
        (rw (resolve_each-items xs ys p) (rw (h ys p (subst IsJson (sym q) j)) refl))

  -- The members of a $concat are not even asked.
  pub plan_members-same :
      (xs : Items) (puts : List (Json → Planner Json)) (zs : Items) (ws : Writes)
      → resolve_members load_root xs ≡ done zs
      → IsJson (arr zs)
      → plan_members files loads dumps resolve_all base xs puts zs ws
        ≡ done (obj (field "$concat" (arr xs) end), ws)
  unfolding plan_members
  plan_members-same xs puts zs ws e j =
      let (rs, p, q) = resolve_each-members xs zs e in
      rw p (rw q (rw (items_of-list_of zs) (rw (json_eq_refl (arr zs) j) refl)))

  pub plan_concat-same :
      (k : String) (x v : Json) (ws : Writes)
      → k ≡ "$concat"
      → x ≢ arr nil
      → resolve_concat load_root x ≡ done v
      → IsJson v
      → plan_concat files loads dumps resolve_all pd base x v ws ≡ done (obj (field k x end), ws)
  unfolding resolve plan
  plan_concat-same k (arr nil) v ws c n e j = absurd (n refl)
  plan_concat-same k (arr (cons x xs)) v ws c n e j =
      let (zs, p, e1) = >>=_done (resolve_members load_root (cons x xs)) _ e in
      let q : arr zs ≡ v = done_injective (arr zs) v e1 in
      subst
        (λ w.
          plan_concat files loads dumps resolve_all pd base (arr (cons x xs)) w ws
          ≡ done (obj (field k (arr (cons x xs)) end), ws))
        q (rw c (plan_members-same (cons x xs) _ zs ws p (subst IsJson (sym q) j)))
  plan_concat-same k null v ws c n e j = cc
  plan_concat-same k (bool b) v ws c n e j = cc
  plan_concat-same k (num m) v ws c n e j = cc
  plan_concat-same k (str t) v ws c n e j = cc
  plan_concat-same k (obj fs) v ws c n e j = cc

  pub plan_one_concat :
      (k : String) (x v : Json) (ws : Writes)
      → is_directive k ≡ true
      → (k == "$concat") ≡ true
      → plan files loads dumps resolve_all pd base (obj (field k x end)) v ws
        ≡ plan_concat files loads dumps resolve_all pd base x v ws
  unfolding plan
  plan_one_concat k x v ws d c = rw (d, c, plan) refl

  pub plan_one_file :
      (k : String) (x v : Json) (ws : Writes)
      → is_directive k ≡ true
      → (k == "$concat") ≡ false
      → plan files loads dumps resolve_all pd base (obj (field k x end)) v ws
        ≡ plan_file files loads dumps resolve_all pd base k x v ws
  unfolding plan
  plan_one_file k x v ws d c = rw (d, c, plan) refl

  pub one_directive :
      (k : String) (x v : Json) (ws : Writes)
      → is_directive k ≡ true
      → (k ≡ "$concat" → x ≢ arr nil)
      → resolve load_root (obj (field k x end)) ≡ done v
      → IsJson v
      → plan files loads dumps resolve_all pd base (obj (field k x end)) v ws
        ≡ done (obj (field k x end), ws)
  one_directive k x v ws d n e j = elim (Bool-cases (k == "$concat")) [
    | inl c ↦
        let k≡ : k ≡ "$concat" = (eq_iff k "$concat").0 c in
        plan_one_concat k x v ws d c
        ∙ plan_concat-same k x v ws k≡ (n k≡)
            (sym (resolve_directive_concat load_root k x c) ∙ sym (resolve_one load_root k x d) ∙ e)
            j
    | inr c ↦
        plan_one_file k x v ws d c
        ∙ plan_file_same files loads dumps fuel pd base k x v ws
            (sym (resolve_directive_file load_root k x c) ∙ sym (resolve_one load_root k x d) ∙ e) j
  ]
