-- ===== src/Closure/Chains.antt =====
-- dasik/lib/validation/aur_closure.py: the chains that the parent map records.
use dasik.Base.{
  ℕ, zero, suc, ◌≤◌, String, ◌≡◌, ◌≢◌, refl, sym, ap, ◌∙◌, arith, inl, inr, Bool, true, false,
  Option, none, some, List, [], ◌∷◌, ◌++◌, if◌then◌else◌, mem, is_empty, length, All, Dict, get,
  put, get-put, ◌==◌, eq_iff, eq_refl, Bool-cases, Option-cases,
}
use mathlib.Core.Path.{subst}
use dasik.Effects.{ok}
use dasik.Closure.{
  ◌>>=◌, Sources, BrokenDep, Dep, Walk, strip_version_constraint, chain_from, chain, nowhere,
  set_verdict, report, enter, judge_provided,
}
use dasik.Closure.Steps.{>>=_ok, ok_injective, mem-snoc}

-- A new key makes the map longer by one.
length-put : (d : Dict String) (k v : String) → get d k ≡ none → length (put d k v) ≡ suc (length d)
unfolding get put
length-put [] k v h = refl
length-put ((j, w) ∷ d) k v h = ground (arith, h, length-put d k v)

some_injective : (a b : String) → some a ≡ some b → a ≡ b
some_injective a b e = cc

distinct :
    (bare n : String) (names : List String)
    → mem bare names ≡ false
    → mem n names ≡ true
    → (bare == n) ≡ false
distinct bare n names b h = elim (Bool-cases (bare == n)) [
  | inl e ↦
      absurd (subst (λ m. mem m names ≢ true) ((eq_iff bare n).0 e) (λ q. ground (arith, b, q)) h)
  | inr e ↦ e
]

module _ (sources : Sources) (deps : String → Option (List String)) (repo roots : List String) where
  -- `spec` is one of the dependencies that the AUR has for `node`.
  pub record DependsOn (node spec : String) : Type 0 where
    pub specs : List String
    pub known : deps node ≡ some specs
    pub listed : mem spec specs ≡ true

  -- From a declared root, each name is that of a dependency of the one before it.
  pub data IsPath : String → List String → Type 0 where
    at_root : (n : String) → mem n roots ≡ true → IsPath n (n ∷ [])
    via :
        (n up spec : String) (path : List String)
        → IsPath up path
        → DependsOn up spec
        → n ≡ strip_version_constraint spec
        → IsPath n (path ++ n ∷ [])

  -- Nothing has or provides the name.
  pub record IsNowhere (bare : String) : Type 0 where
    pub not_in_aur : deps bare ≡ none
    pub not_in_repo : mem bare repo ≡ false
    pub no_repo_package : sources.repo_provides bare ≡ ok false
    pub no_aur_package : sources.aur_providers bare ≡ ok []

  pub data IsReported : BrokenDep → Type 0 where
    unknown_root :
        (n : String)
        → mem n roots ≡ true
        → deps n ≡ none
        → IsReported (record { chain = n ∷ []; spec = n; detail = "no longer in the AUR" })
    dangling :
        (up spec : String) (path : List String)
        → IsPath up path
        → DependsOn up spec
        → IsNowhere (strip_version_constraint spec)
        → IsReported (record {
          chain = path ++ strip_version_constraint spec ∷ [];
          spec = spec;
          detail = nowhere;
        })

  -- A dependency of the level, of a node of the walk
  pub record IsLink (w : Walk) (d : Dep) : Type 0 where
    pub of_node : mem d.node w.expanded ≡ true
    pub depends : DependsOn d.node d.spec
    pub stripped : d.bare ≡ strip_version_constraint d.spec

  -- The parent map leads from each node back to a root, in no more steps than it has entries.
  pub record IsTraced (w : Walk) : Type 0 where
    pub fresh : (n : String) → mem n w.expanded ≡ false → get w.parent n ≡ none
    pub ups : (n up : String) → get w.parent n ≡ some up → mem up w.expanded ≡ true
    pub paths :
        (n : String)
        → mem n w.expanded ≡ true
        → (fuel : ℕ) → length w.parent ≤ fuel
        → IsPath n (chain_from fuel w.parent n)
    pub reported : All IsReported w.broken

  -- A name that was no node is on no chain of a node.
  chain_from-put :
      (fuel : ℕ) (w : Walk) (bare node n : String)
      → IsTraced w
      → mem bare w.expanded ≡ false
      → mem n w.expanded ≡ true
      → chain_from fuel (put w.parent bare node) n ≡ chain_from fuel w.parent n
  unfolding chain_from
  chain_from-put zero w bare node n t b h = refl
  chain_from-put (suc fuel) w bare node n t b h =
      let g : get (put w.parent bare node) n ≡ get w.parent n =
        get-put w.parent bare node n ∙ (rw (distinct bare n w.expanded b h) refl) in
      elim (Option-cases (get w.parent n)) [
        | inl e ↦ rw (g, e, chain_from) refl
        | inr (up, e) ↦
            rw (g, e, chain_from)
              (ap (λ l. l ++ n ∷ []) (chain_from-put fuel w bare node up t b (t.ups n up e)))
      ]

  enter-ups :
      (w : Walk) (d : Dep) (n up : String)
      → IsLink w d
      → IsTraced w
      → get (put w.parent d.bare d.node) n ≡ some up
      → mem up w.expanded ≡ true
  enter-ups w d n up l t h = elim (Bool-cases (d.bare == n)) [
    | inl e ↦
        let g : get (put w.parent d.bare d.node) n ≡ some d.node =
          get-put w.parent d.bare d.node n ∙ (rw e refl) in
        subst (λ m. mem m w.expanded ≡ true) (some_injective d.node up (sym g ∙ h)) l.of_node
    | inr e ↦ t.ups n up (ground (arith, h, e, get-put w.parent d.bare d.node n))
  ]

  enter-IsPath :
      (w : Walk) (d : Dep) (fuel : ℕ)
      → mem d.bare w.expanded ≡ false
      → IsLink w d
      → IsTraced w
      → suc (length w.parent) ≤ fuel
      → IsPath d.bare (chain_from fuel (put w.parent d.bare d.node) d.bare)
  unfolding chain_from
  enter-IsPath w d zero b l t k = absurd (omega arith)
  enter-IsPath w d (suc fuel) b l t k =
      let g : get (put w.parent d.bare d.node) d.bare ≡ some d.node =
        get-put w.parent d.bare d.node d.bare ∙ (rw (eq_refl d.bare) refl) in
      rw (g, chain_from)
        (via d.bare d.node d.spec (chain_from fuel (put w.parent d.bare d.node) d.node)
          (subst (IsPath d.node) (sym (chain_from-put fuel w d.bare d.node d.node t b l.of_node))
            (t.paths d.node l.of_node fuel (omega arith)))
          l.depends l.stripped)

  pub enter-IsTraced :
      (w : Walk) (d : Dep)
      → mem d.bare w.expanded ≡ false
      → IsLink w d
      → IsTraced w
      → IsTraced (enter w d)
  unfolding enter
  enter-IsTraced w d b l t =
      let longer : length (put w.parent d.bare d.node) ≡ suc (length w.parent) =
        length-put w.parent d.bare d.node (t.fresh d.bare b) in
      record {
        fresh = λ n h.
            ground
              (arith, h, mem-snoc n d.bare w.expanded, t.fresh n, get-put w.parent d.bare d.node n);
        ups = λ n up h. mem-snoc up d.bare w.expanded ∙ (rw (enter-ups w d n up l t h) refl);
        paths = λ n h fuel k. elim (Bool-cases (mem n w.expanded)) [
          | inl e ↦
              subst (IsPath n) (sym (chain_from-put fuel w d.bare d.node n t b e))
                (t.paths n e fuel (ground (arith, longer, k)))
          | inr e ↦
              subst (λ m. IsPath m (chain_from fuel (put w.parent d.bare d.node) m))
                ((eq_iff d.bare n).0 (ground (arith, h, e, mem-snoc n d.bare w.expanded)))
                (enter-IsPath w d fuel b l t (ground (arith, longer, k)))
        ];
        reported = t.reported;
      }

  set_verdict-IsTraced :
      (w : Walk) (bare : String) (v : Bool) → IsTraced w → IsTraced (set_verdict w bare v)
  unfolding set_verdict
  set_verdict-IsTraced w bare v t = record {
    fresh = t.fresh;
    ups = t.ups;
    paths = t.paths;
    reported = t.reported;
  }

  All-snoc :
      (bs : List BrokenDep) (b : BrokenDep)
      → All IsReported bs
      → IsReported b
      → All IsReported (bs ++ b ∷ [])
  All-snoc [] b a r = (r, tt)
  All-snoc (c ∷ bs) b a r = (a.0, All-snoc bs b a.1 r)

  report-IsTraced :
      (w : Walk) (d : Dep) → IsLink w d → IsNowhere d.bare → IsTraced w → IsTraced (report w d)
  unfolding report set_verdict chain
  report-IsTraced w d l n t = record {
    fresh = t.fresh;
    ups = t.ups;
    paths = t.paths;
    reported = All-snoc w.broken _ t.reported (
        subst
          (λ bare. IsReported (record {
            chain = chain_from (length w.parent) w.parent d.node ++ bare ∷ [];
            spec = d.spec;
            detail = nowhere;
          }))
          (sym l.stripped)
          (dangling d.node d.spec (chain_from (length w.parent) w.parent d.node)
            (t.paths d.node l.of_node (length w.parent) (omega arith)) l.depends
            (subst IsNowhere l.stripped n)));
  }

  providers-IsTraced :
      (w : Walk) (d : Dep) (providers : List String)
      → IsLink w d
      → deps d.bare ≡ none
      → mem d.bare repo ≡ false
      → sources.repo_provides d.bare ≡ ok false
      → sources.aur_providers d.bare ≡ ok providers
      → IsTraced w
      → IsTraced (if is_empty providers then report w d else set_verdict w d.bare true)
  providers-IsTraced w d [] l a r p q t =
      report-IsTraced w d l
        (record { not_in_aur = a; not_in_repo = r; no_repo_package = p; no_aur_package = q }) t
  providers-IsTraced w d (x ∷ xs) l a r p q t = set_verdict-IsTraced w d.bare true t

  provided-IsTraced :
      (w w' : Walk) (d : Dep) (provided : Bool)
      → IsLink w d
      → deps d.bare ≡ none
      → mem d.bare repo ≡ false
      → sources.repo_provides d.bare ≡ ok provided
      → elim provided [
        | true ↦ ok (set_verdict w d.bare true)
        | false ↦ sources.aur_providers d.bare >>= λ providers.
            ok (if is_empty providers then report w d else set_verdict w d.bare true)
      ]
        ≡ ok w'
      → IsTraced w
      → IsTraced w'
  provided-IsTraced w w' d true l a r p h t =
      subst IsTraced (ok_injective _ w' h) (set_verdict-IsTraced w d.bare true t)
  provided-IsTraced w w' d false l a r p h t =
      let (providers, q, k) = >>=_ok (sources.aur_providers d.bare) _ h in
      subst IsTraced (ok_injective _ w' k) (providers-IsTraced w d providers l a r p q t)

  pub judge_provided-IsTraced :
      (w w' : Walk) (d : Dep)
      → IsLink w d
      → deps d.bare ≡ none
      → mem d.bare repo ≡ false
      → judge_provided sources w d ≡ ok w'
      → IsTraced w
      → IsTraced w'
  unfolding judge_provided
  judge_provided-IsTraced w w' d l a r h t =
      let (provided, p, k) = >>=_ok (sources.repo_provides d.bare) _ h in
      provided-IsTraced w w' d provided l a r p k t
