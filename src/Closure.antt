-- ===== src/Closure.antt =====
-- dasik/lib/validation/aur_closure.py: the walk over the dependencies of the declared AUR packages.
-- `Sources` is what it asks of the package resolver, which remembers its answers, and of `pacman -T`:
-- each answer is a function of the question.
use Prim.Native.Char.{Char, code}
use Prim.Native.String
use dasik.Base.{
  ℕ, zero, suc, ◌+◌, String, Bool, true, false, not, ◌&&◌, ◌||◌, Option, none, some, List, [], ◌∷◌,
  ◌++◌, map, nat_eq, ltb, if◌then◌else◌, mem, mem_number, is_some, is_empty, select, length, Dict,
  get, put, ◌==◌,
}
use dasik.Effects.{Result, ok, raise, exception}
use dasik.Commands.{CommandResult, lines_set, strip}
use dasik.Packages.Names.{from_keys}
pub mod Steps
pub mod Asked
pub mod Levels
pub mod Certificate
pub mod Ending
pub mod Chains
pub mod Paths
pub mod Reports
mod Tests

infixl 5 ◌>>=◌
abbrev pub ◌>>=◌ : {A B : Type 0} → Result A → (A → Result B) → Result B
ok a >>= f = f a
raise e >>= f = raise e

pub record Sources : Type 0 where
  pub repo_names : Result (List String)
  pub aur_depends : List String → Result (Dict (List String))
  pub repo_provides : String → Result Bool
  pub aur_providers : String → Result (List String)
  pub pacman_t : List String → Result CommandResult

pub record BrokenDep : Type 0 where
  pub chain : List String
  pub spec : String
  pub detail : String

-- The part before the first comparison operator
unfoldable pub before_operator : String → String
before_operator String.[] = ""
before_operator (String.◌∷◌ c s) =
    let rest = before_operator s in
    if mem_number (code c) (b'<' ∷ b'>' ∷ b'=' ∷ []) then "" else String.◌∷◌ c rest

unfoldable pub strip_version_constraint : String → String
unfolding before_operator strip
strip_version_constraint spec = before_operator (strip spec)

-- The specs of which pacman does not say that they are missing, where its exit code answers at all
unfoldable pub satisfied_of : List String → CommandResult → List String
unfolding lines_set select mem
satisfied_of ordered result =
    if nat_eq result.returncode 0 || nat_eq result.returncode 127
    then select (λ s. not (mem s (lines_set result.stdout))) ordered
    else []

-- _target_satisfied
unfoldable pub target_satisfied : Sources → List String → Result (List String)
unfolding satisfied_of from_keys
target_satisfied sources specs =
    if is_empty (from_keys specs)
    then ok []
    else (sources.pacman_t (from_keys specs) >>= λ result.
        ok (satisfied_of (from_keys specs) result))

-- A dependency of the level: the node that has it, as it is written, and its bare name
pub record Dep : Type 0 where
  pub node : String
  pub spec : String
  pub bare : String

unfoldable pub deps_of : String → List String → List Dep
unfolding strip_version_constraint
deps_of node [] = []
deps_of node (spec ∷ specs) =
    record { node = node; spec = spec; bare = strip_version_constraint spec } ∷ deps_of node specs

unfoldable pub specs_at : Dict (List String) → String → List String
unfolding get
specs_at deps_map node = elim (get deps_map node) [ none ↦ [] | some specs ↦ specs ]

unfoldable pub level_of : Dict (List String) → List String → List Dep
unfolding deps_of specs_at
level_of deps_map [] = []
level_of deps_map (node ∷ frontier) =
    deps_of node (specs_at deps_map node) ++ level_of deps_map frontier

pub record Walk : Type 0 where
  pub broken : List BrokenDep
  pub parent : Dict String
  pub expanded : List String
  pub verdict : Dict Bool

-- The loop that fills `pending`
unfoldable pub is_pending : List String → List String → Walk → Dep → Bool
unfolding mem get
is_pending satisfied repo walk dep =
    not (mem dep.spec satisfied)
    && (not (mem dep.bare repo)
        && (not (mem dep.bare walk.expanded) && not (is_some (get walk.verdict dep.bare))))

-- _chain, by fuel that is more than the length of the path
unfoldable pub chain_from : ℕ → Dict String → String → List String
unfolding get
chain_from zero parent node = node ∷ []
chain_from (suc fuel) parent node = elim (get parent node) [
  | none ↦ node ∷ []
  | some up ↦ chain_from fuel parent up ++ node ∷ []
]

unfoldable pub chain : Dict String → String → List String
unfolding chain_from
chain parent node = chain_from (length parent) parent node

abbrev pub nowhere : String
nowhere = "not in the configured repos, not in the AUR, and no repo or AUR package provides it"

unfoldable pub set_verdict : Walk → String → Bool → Walk
unfolding put
set_verdict walk bare b = record walk { verdict = put walk.verdict bare b }

unfoldable pub report : Walk → Dep → Walk
unfolding set_verdict chain
report walk dep = record (set_verdict walk dep.bare false) {
  broken =
      walk.broken
      ++ record {
        chain = chain walk.parent dep.node ++ dep.bare ∷ [];
        spec = dep.spec;
        detail = nowhere;
      }
        ∷ [];
}

unfoldable pub enter : Walk → Dep → Walk
unfolding put
enter walk dep = record walk {
  parent = put walk.parent dep.bare dep.node;
  expanded = walk.expanded ++ dep.bare ∷ [];
}

-- The part of the loop for a dependency that is no AUR package
unfoldable pub judge_provided : Sources → Walk → Dep → Result Walk
unfolding set_verdict report
judge_provided sources walk dep = sources.repo_provides dep.bare >>= λ provided. elim provided [
  | true ↦ ok (set_verdict walk dep.bare true)
  | false ↦ sources.aur_providers dep.bare >>= λ providers.
      ok (if is_empty providers then report walk dep else set_verdict walk dep.bare true)
]

-- The second loop over the level, with the next frontier
unfoldable pub settle :
    Sources → ℕ → Dict (List String) → List Dep → Walk → List String → Result (Walk × List String)
unfolding mem get judge_provided enter
settle sources max_nodes aur_found [] walk next = ok (walk, next)
settle sources max_nodes aur_found (dep ∷ pending) walk next =
    elim (mem dep.bare walk.expanded || is_some (get walk.verdict dep.bare)) [
      | true ↦ settle sources max_nodes aur_found pending walk next
      | false ↦ elim (is_some (get aur_found dep.bare)) [
        | true ↦ elim (ltb max_nodes (length walk.expanded + 1)) [
          | true ↦ raise (exception "AUR dependency closure exceeded its cap")
          | false ↦
              settle sources max_nodes aur_found pending (enter walk dep) (next ++ dep.bare ∷ [])
        ]
        | false ↦ judge_provided sources walk dep >>= λ after.
            settle sources max_nodes aur_found pending after next
      ]
    ]

-- The dependencies of a level that nothing has answered yet
unfoldable pub settle_level :
    Sources → ℕ → List String → List String → List Dep → Walk → Result (Walk × List String)
unfolding is_pending settle
settle_level sources max_nodes repo satisfied level walk =
    let pending = select (is_pending satisfied repo walk) level in
    sources.aur_depends (from_keys (map (λ (d : Dep). d.bare) pending)) >>= λ aur_found.
    settle sources max_nodes aur_found pending walk []

-- The body of the loop `while frontier`
unfoldable pub walk_level :
    Sources → ℕ → List String → Walk → List String → Result (Walk × List String)
unfolding level_of target_satisfied settle_level
walk_level sources max_nodes repo walk frontier = sources.aur_depends frontier >>= λ deps_map.
    target_satisfied sources (map (λ (d : Dep). d.spec) (level_of deps_map frontier))
    >>= λ satisfied. settle_level sources max_nodes repo satisfied (level_of deps_map frontier) walk

-- The loop, on fuel; `none` means that it ran out.
unfoldable pub walk_levels :
    ℕ → Sources → ℕ → List String → Walk → List String → Result (Option (List BrokenDep))
unfolding walk_level
walk_levels fuel sources max_nodes repo walk [] = ok (some walk.broken)
walk_levels zero sources max_nodes repo walk (n ∷ frontier) = ok none
walk_levels (suc fuel) sources max_nodes repo walk (n ∷ frontier) =
    walk_level sources max_nodes repo walk (n ∷ frontier) >>= λ next.
    walk_levels fuel sources max_nodes repo next.0 next.1

unfoldable pub unknown_roots : Dict (List String) → List String → List BrokenDep
unfolding get
unknown_roots known [] = []
unknown_roots known (name ∷ roots) =
    let rest = unknown_roots known roots in
    elim (get known name) [
      | some specs ↦ rest
      | none ↦ record { chain = name ∷ []; spec = name; detail = "no longer in the AUR" } ∷ rest
    ]

-- The walk from the declared names, with the names of the repositories
unfoldable pub walk_roots :
    ℕ → Sources → ℕ → List String → List String → Result (Option (List BrokenDep))
unfolding unknown_roots walk_levels
walk_roots fuel sources max_nodes frontier repo = sources.aur_depends frontier >>= λ known.
    walk_levels fuel sources max_nodes repo
      (record {
        broken = unknown_roots known frontier;
        parent = [];
        expanded = frontier;
        verdict = [];
      })
      (select (λ n. is_some (get known n)) frontier)

unfoldable pub validate_aur_closure :
    ℕ → Sources → ℕ → List String → Result (Option (List BrokenDep))
unfolding from_keys walk_roots
validate_aur_closure fuel sources max_nodes roots =
    if is_empty (from_keys roots)
    then ok (some [])
    else (sources.repo_names >>= walk_roots fuel sources max_nodes (from_keys roots))
