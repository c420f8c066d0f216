-- ===== src/Closure/Tests.antt =====
-- Two declared packages: "app" needs "lib>=1" of the AUR and "glibc", which the target has, and "lib"
-- needs "app" again; "toy" needs "typo", which is nowhere.
use dasik.Base.{
  All, String, Bool, true, false, ◌&&◌, ◌||◌, ◌≡◌, ◌≢◌, refl, arith, Option, none, some, List, [],
  ◌∷◌, nat_eq, if◌then◌else◌, mem, mem_number, select, ap, Dict, get, ◌==◌, eq_iff, eq_refl, inl,
  inr, Bool-cases,
}
use mathlib.Core.Path.{subst}
use dasik.Effects.{Result, ok}
use dasik.Commands.{CommandResult, lines_set}
use dasik.Closure.{BrokenDep, Sources, nowhere, strip_version_constraint, validate_aur_closure}
use dasik.Closure.Steps.{ok_injective}
use dasik.Closure.Levels.{AreAnswered}
use dasik.Closure.Certificate.{IsClosed, validate_aur_closure-IsClosed}
use dasik.Closure.Chains.{IsReported}
use dasik.Closure.Reports.{validate_aur_closure-IsReported}
use dasik.Closure.Ending.{validate_aur_closure_ends}

abbrev deps : String → Option (List String)
deps name =
    if name == "app"
    then some ("lib>=1" ∷ "glibc" ∷ [])
    else if name == "lib"
    then some ("app" ∷ [])
    else if name == "toy"
    then some ("typo" ∷ [])
    else none

abbrev satisfied : String → Bool
satisfied spec = spec == "glibc"

abbrev add_answer : String → Option (List String) → Dict (List String) → Dict (List String)
add_answer name none found = found
add_answer name (some specs) found = (name, specs) ∷ found

abbrev answers : List String → Dict (List String)
answers [] = []
answers (name ∷ names) = add_answer name (deps name) (answers names)

abbrev pacman_says : Bool → CommandResult
pacman_says true = record { returncode = 127; stdout = "lib>=1"; stderr = "" }
pacman_says false = record { returncode = 1; stdout = ""; stderr = "" }

abbrev pacman : List String → Result CommandResult
pacman (a ∷ b ∷ []) = ok (pacman_says (a == "lib>=1" && b == "glibc"))
pacman _ = ok (pacman_says false)

abbrev sources : Sources
sources = record {
  repo_names = ok ("bash" ∷ []);
  aur_depends = λ names. ok (answers names);
  repo_provides = λ name. ok false;
  aur_providers = λ name. ok [];
  pacman_t = pacman;
}

constraint_is_cut : strip_version_constraint " ffmpeg>=2:8.1.2" ≡ "ffmpeg"
unfolding strip_version_constraint mem_number
constraint_is_cut = refl

closure_is_whole : validate_aur_closure 9 sources 8 ("app" ∷ []) ≡ ok (some [])
unfolding validate_aur_closure mem_number
closure_is_whole = refl

abbrev broken : List BrokenDep
broken =
    record { chain = "gone" ∷ []; spec = "gone"; detail = "no longer in the AUR" }
    ∷ record { chain = "toy" ∷ "typo" ∷ []; spec = "typo"; detail = nowhere }
    ∷ []

closure_is_broken : validate_aur_closure 9 sources 8 ("toy" ∷ "gone" ∷ []) ≡ ok (some broken)
unfolding validate_aur_closure mem_number
closure_is_broken = refl

-- What the AUR says about a name, where it is asked about one more
get-add_answer :
    (m n : String) (among : Bool) (o p : Option (List String)) (found : Dict (List String))
    → (m ≡ n → o ≡ p)
    → get found n ≡ (if among then p else none)
    → get (add_answer m o found) n ≡ (if m == n || among then p else none)
unfolding get
get-add_answer m n among none p found h k = elim (Bool-cases (m == n)) [
  | inl e ↦ let q : none ≡ p = h ((eq_iff m n).0 e) in ground (arith, e, k, q)
  | inr e ↦ ground (arith, e, k)
]
get-add_answer m n among (some specs) p found h k = elim (Bool-cases (m == n)) [
  | inl e ↦ let q : some specs ≡ p = h ((eq_iff m n).0 e) in ground (arith, e, k, q)
  | inr e ↦ ground (arith, e, k)
]

get-answers :
    (names : List String) (n : String)
    → get (answers names) n ≡ (if mem n names then deps n else none)
unfolding get mem
get-answers [] n = refl
get-answers (m ∷ names) n =
    get-add_answer m n (mem n names) (deps m) (deps n) (answers names) (ap deps)
      (get-answers names n)

abbrev IsRight : List String → CommandResult → Type 0
IsRight specs result =
    (nat_eq result.returncode 0 || nat_eq result.returncode 127) ≡ true
    → (s : String) → mem s specs ≡ true
    → mem s (lines_set result.stdout) ≡ false
    → satisfied s ≡ true

one_line : lines_set "lib>=1" ≡ "lib>=1" ∷ []
unfolding lines_set mem_number select
one_line = refl

pacman_says-IsRight :
    (t : Bool) (a b : String)
    → (t ≡ true → (a == "lib>=1" && b == "glibc") ≡ true)
    → IsRight (a ∷ b ∷ []) (pacman_says t)
unfolding mem
pacman_says-IsRight true a b h r s k m =
    let m' : mem s ("lib>=1" ∷ []) ≡ false = subst (λ l. mem s l ≡ false) one_line m in
    ground (
      arith,
      h refl,
      m',
      eq_iff a "lib>=1",
      eq_iff b "glibc",
      eq_iff a s,
      eq_iff b s,
      eq_refl "lib>=1",
      eq_refl "glibc",
    )
pacman_says-IsRight false a b h r s k m = ground (arith, r)

pacman-IsRight :
    (specs : List String) (result : CommandResult) → pacman specs ≡ ok result → IsRight specs result
pacman-IsRight (a ∷ b ∷ []) result e =
    subst (IsRight (a ∷ b ∷ [])) (ok_injective _ result e)
      (pacman_says-IsRight (a == "lib>=1" && b == "glibc") a b (λ q. q))
pacman-IsRight [] result e = subst (IsRight []) (ok_injective _ result e) (λ r s k m. ground arith)
pacman-IsRight (a ∷ []) result e =
    subst (IsRight (a ∷ [])) (ok_injective _ result e) (λ r s k m. ground arith)
pacman-IsRight (a ∷ b ∷ c ∷ d) result e =
    subst (IsRight (a ∷ b ∷ c ∷ d)) (ok_injective _ result e) (λ r s k m. ground arith)

sources-AreAnswered : AreAnswered sources deps satisfied ("bash" ∷ [])
sources-AreAnswered = record {
  aur = λ names found e n.
      subst (λ (f : Dict (List String)). get f n ≡ (if mem n names then deps n else none))
        (ok_injective _ found e) (get-answers names n);
  pacman = pacman-IsRight;
}

validate_aur_closure-IsClosed_example :
    (nodes : List String) × IsClosed sources deps satisfied ("bash" ∷ []) ("app" ∷ []) nodes
validate_aur_closure-IsClosed_example =
    validate_aur_closure-IsClosed sources deps satisfied ("bash" ∷ []) ("app" ∷ []) 9 8
      sources-AreAnswered refl closure_is_whole

validate_aur_closure_ends_example : validate_aur_closure 9 sources 8 ("app" ∷ "toy" ∷ []) ≢ ok none
validate_aur_closure_ends_example =
    validate_aur_closure_ends sources 9 8 ("app" ∷ "toy" ∷ []) (omega arith)

validate_aur_closure-IsReported_example :
    All (IsReported sources deps ("bash" ∷ []) ("toy" ∷ "gone" ∷ [])) broken
validate_aur_closure-IsReported_example =
    validate_aur_closure-IsReported sources deps satisfied ("bash" ∷ []) ("toy" ∷ "gone" ∷ []) 9 8
      broken sources-AreAnswered refl closure_is_broken
