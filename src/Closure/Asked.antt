-- ===== src/Closure/Asked.antt =====
-- dasik/lib/validation/aur_closure.py: the names and the specs that a level asks about.
use dasik.Base.{
  none, String, ◌≡◌, refl, ◌∙◌, arith, true, some, List, [], ◌∷◌, map, mem, All, Dict, get, eq_refl,
}
use dasik.Packages.Names.{from_keys, mem-from_keys}
use dasik.Closure.{Dep, specs_at}

bare_in_more :
    (x : String) (xs : List Dep) (names : List String)
    → All (λ (d : Dep). mem d.bare names ≡ true) xs
    → All (λ (d : Dep). mem d.bare (x ∷ names) ≡ true) xs
unfolding mem
bare_in_more x [] names a = tt
bare_in_more x (d ∷ xs) names a = (ground (arith, a.0), bare_in_more x xs names a.1)

bare_in_self :
    (xs : List Dep) → All (λ (d : Dep). mem d.bare (map (λ (e : Dep). e.bare) xs) ≡ true) xs
unfolding mem
bare_in_self [] = tt
bare_in_self (d ∷ xs) = (
  rw (eq_refl d.bare) refl,
  bare_in_more d.bare xs (map (λ (e : Dep). e.bare) xs) (bare_in_self xs),
)

All-weaken : (P Q : Dep → Type 0) (xs : List Dep) → ((d : Dep) → P d → Q d) → All P xs → All Q xs
All-weaken P Q [] h a = tt
All-weaken P Q (d ∷ xs) h a = (h d a.0, All-weaken P Q xs h a.1)

pub bare_in_names :
    (xs : List Dep)
    → All (λ (d : Dep). mem d.bare (from_keys (map (λ (e : Dep). e.bare) xs)) ≡ true) xs
bare_in_names xs =
    All-weaken (λ d. mem d.bare (map (λ (e : Dep). e.bare) xs) ≡ true) _ xs
      (λ d h. mem-from_keys d.bare (map (λ (e : Dep). e.bare) xs) ∙ h) (bare_in_self xs)

pub specs_at-found :
    (m : Dict (List String)) (n : String) (specs : List String)
    → get m n ≡ some specs
    → specs_at m n ≡ specs
unfolding specs_at
specs_at-found m n specs e = rw (e, specs_at) refl

pub specs_at-missing : (m : Dict (List String)) (n : String) → get m n ≡ none → specs_at m n ≡ []
unfolding specs_at
specs_at-missing m n e = rw (e, specs_at) refl
