-- ===== src/Cmdline/Laws.antt =====
-- dasik/lib/actions/kernel_cmdline_action.py: what the new command line has.
use dasik.Base.{
  String, ◌≡◌, refl, ◌∙◌, arith, inl, inr, true, false, not, ◌&&◌, ◌||◌, List, [], ◌∷◌, ◌++◌, map,
  mem, mem-append, mem-select, select, ◌==◌, eq_iff, eq_refl, Bool-cases,
}
use mathlib.Core.Path.{subst}
use dasik.Commands.{words}
use dasik.State.Change.{Change, install, remove}
use dasik.State.SetMath.{compute_changes}
use dasik.Cmdline.{
  token_name, rw_ro, root_keyed, defines_root, is_removal, keeps_root, plan_tokens, installs_of,
  removes_of, superseded, append_missing, new_tokens, actual_tokens, actual_for_diff,
  desired_tokens_for_diff,
}

mem-append_missing :
    (current installs : List String) (t : String)
    → mem t (append_missing current installs) ≡ (mem t current || mem t installs)
unfolding append_missing mem
mem-append_missing current [] t = ground arith
mem-append_missing current (tok ∷ installs) t = elim (Bool-cases (mem tok current)) [
  | inl e ↦ elim (Bool-cases (tok == t)) [
    | inl q ↦
        let k : mem t current ≡ true = subst (λ s. mem s current ≡ true) ((eq_iff tok t).0 q) e in
        rw (e, append_missing) (ground (arith, k, q, mem-append_missing current installs t))
    | inr q ↦ rw (e, append_missing) (ground (arith, q, mem-append_missing current installs t))
  ]
  | inr e ↦
      rw (e, append_missing)
        (ground (
          arith,
          mem-append_missing (current ++ tok ∷ []) installs t,
          mem-append t current (tok ∷ []),
        ))
]

pub mem-new_tokens :
    (changes : List Change) (cmdline t : String)
    → mem t (new_tokens changes cmdline) ≡ (
        mem t (words cmdline)
          && (not (mem t (removes_of changes)) && not (superseded (installs_of changes) t))
        || mem t (installs_of changes))
unfolding new_tokens
mem-new_tokens changes cmdline t = ground (
  arith,
  mem-append_missing
      (select (λ s. not (superseded (installs_of changes) s))
        (select (λ s. not (mem s (removes_of changes))) (words cmdline)))
      (installs_of changes) t,
  mem-select (λ s. not (superseded (installs_of changes) s)) t
      (select (λ s. not (mem s (removes_of changes))) (words cmdline)),
  mem-select (λ s. not (mem s (removes_of changes))) t (words cmdline),
)

differs :
    (item t : String) → defines_root item ≡ false → defines_root t ≡ true → (item == t) ≡ false
differs item t q h = elim (Bool-cases (item == t)) [
  | inl e ↦
      let r : defines_root t ≡ false =
        subst (λ s. defines_root s ≡ false) ((eq_iff item t).0 e) q in
      ground (arith, r, h)
  | inr e ↦ e
]

-- A planned change removes no token that says where the root filesystem is.
removes_of-keeps_root :
    (cs : List Change) (t : String)
    → defines_root t ≡ true
    → mem t (removes_of (select keeps_root cs)) ≡ false
unfolding removes_of keeps_root mem select
removes_of-keeps_root [] t h = refl
removes_of-keeps_root (c ∷ cs) t h = elim (Bool-cases (is_removal c)) [
  | inl e ↦ elim (Bool-cases (defines_root c.item)) [
    | inl q ↦ rw (e, q) (removes_of-keeps_root cs t h)
    | inr q ↦
        let k : keeps_root c ≡ true = rw (e, q) refl in
        rw (k, e, differs c.item t q h) (removes_of-keeps_root cs t h)
  ]
  | inr e ↦ let k : keeps_root c ≡ true = rw e refl in rw (k, e) (removes_of-keeps_root cs t h)
]

mem-map-token_name :
    (key : String) (ts : List String)
    → mem key (map token_name ts) ≡ true
    → (t : String) × (mem t ts ≡ true) × (token_name t ≡ key)
unfolding mem
mem-map-token_name key [] h = cc
mem-map-token_name key (t ∷ ts) h = elim (Bool-cases (token_name t == key)) [
  | inl e ↦ (t, rw (eq_refl t) refl, (eq_iff (token_name t) key).0 e)
  | inr e ↦
      let (s, m, q) = mem-map-token_name key ts (ground (arith, h, e)) in (s, ground (arith, m), q)
]

defines_root-root_keyed :
    (t : String) → mem (token_name t) root_keyed ≡ true → defines_root t ≡ true
unfolding defines_root
defines_root-root_keyed t h = ground (arith, h, mem-append (token_name t) root_keyed rw_ro)

rw-unkeyed : mem (token_name "rw") root_keyed ≡ false
unfolding token_name mem
rw-unkeyed = refl

ro-unkeyed : mem (token_name "ro") root_keyed ≡ false
unfolding token_name mem
ro-unkeyed = refl

rw_ro-unkeyed : (t : String) → mem t rw_ro ≡ true → mem (token_name t) root_keyed ≡ false
unfolding mem
rw_ro-unkeyed t h = elim (Bool-cases ("rw" == t)) [
  | inl e ↦ subst (λ s. mem (token_name s) root_keyed ≡ false) ((eq_iff "rw" t).0 e) rw-unkeyed
  | inr e ↦
      subst (λ s. mem (token_name s) root_keyed ≡ false) ((eq_iff "ro" t).0 (ground (arith, h, e)))
        ro-unkeyed
]

-- A keyed token makes way for an installed one of its name only.
superseded-keyed :
    (installs : List String) (t : String)
    → mem (token_name t) root_keyed ≡ true
    → superseded installs t ≡ true
    → (s : String) × (mem s installs ≡ true) × (token_name s ≡ token_name t)
unfolding superseded
superseded-keyed installs t k h = mem-map-token_name (token_name t) installs (
    ground (
      arith,
      h,
      k,
      rw_ro-unkeyed t,
      mem-select (λ n. mem n root_keyed) (token_name t) (map token_name installs),
    ))

removes_of-plan_tokens :
    (desired managed : List String) (cmdline t : String)
    → defines_root t ≡ true
    → mem t (removes_of (plan_tokens desired managed cmdline)) ≡ false
unfolding plan_tokens
removes_of-plan_tokens desired managed cmdline t h =
    let actual : List String = actual_tokens cmdline in
    removes_of-keeps_root
      (compute_changes "kernel_cmdline" (desired_tokens_for_diff desired actual) managed
        (actual_for_diff actual) install remove []).0
      t h

-- Whatever the config derives and declares, and whatever dasik owns: where the boot entry says what the
-- root filesystem is, or how it is mounted (`root`, `rootflags` or `rootfstype`), the entry that is
-- written for the plan says it too, by the same token or by an installed one of the same name.
pub new_tokens-keeps_root :
    (desired managed : List String) (cmdline t : String)
    → mem t (words cmdline) ≡ true
    → mem (token_name t) root_keyed ≡ true
    → (s : String) × (mem s (new_tokens (plan_tokens desired managed cmdline) cmdline) ≡ true)
      × (token_name s ≡ token_name t)
new_tokens-keeps_root desired managed cmdline t m k =
    let changes : List Change = plan_tokens desired managed cmdline in
    let kept : mem t (removes_of changes) ≡ false =
      removes_of-plan_tokens desired managed cmdline t (defines_root-root_keyed t k) in
    elim (Bool-cases (superseded (installs_of changes) t)) [
      | inl e ↦
          let (s, i, q) = superseded-keyed (installs_of changes) t k e in
          (s, mem-new_tokens changes cmdline s ∙ ground (arith, i), q)
      | inr e ↦ (t, mem-new_tokens changes cmdline t ∙ ground (arith, m, kept, e), refl)
    ]
