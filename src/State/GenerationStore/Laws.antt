-- ===== src/State/GenerationStore/Laws.antt =====
-- New generations, their listing, and what a rollback reads.
use dasik.Base.{
  ◌∙◌, ℕ, ◌+◌, ◌<◌, ◌≡◌, refl, false, none, some, List, [], ◌∷◌, arith, nat_eq, if◌then◌else◌, Dict,
  Json, bool, truthy,
}
use dasik.State.StateStore.{ManifestDict, or_default}
use dasik.State.GenerationStore.{
  GenDir, Generations, ok, raise, is_partial, max_number, next_number, find_dir, write_dir, new,
  restore, restore_dir,
}

find_dir_above : (ds : List GenDir) (n : ℕ) → max_number ds < n → find_dir ds n ≡ none
unfolding find_dir max_number
find_dir_above [] n h = refl
find_dir_above (e ∷ ds) n h = ground (arith, find_dir_above ds n)

find_dir-next_number : (ds : List GenDir) → find_dir ds (next_number ds) ≡ none
unfolding next_number
find_dir-next_number [] = unfold find_dir in refl
find_dir-next_number (e ∷ ds) = find_dir_above (e ∷ ds) (max_number (e ∷ ds) + 1) (omega arith)

pub find_dir-write_dir :
    (ds : List GenDir) (g : GenDir) (n : ℕ)
    → find_dir (write_dir ds g) n ≡ (if nat_eq g.number n then some g else find_dir ds n)
unfolding find_dir write_dir
find_dir-write_dir [] g n = refl
find_dir-write_dir (d ∷ ds) g n = ground (arith, find_dir-write_dir ds g n)

pub number_of_found :
    (ds : List GenDir) (n : ℕ) (d : GenDir) → find_dir ds n ≡ some d → d.number ≡ n
unfolding find_dir
number_of_found [] n d h = ground arith
number_of_found (e ∷ ds) n d h = ground (arith, number_of_found ds n d)

module _ (config : Dict Json) (manifest : ManifestDict) (s : Generations) where
  -- A new generation takes a number that no generation had, and every generation that was there is
  -- found as before.
  pub new_keeps_history :
      (n : ℕ)
      → (find_dir s.dirs (new config manifest s).0 ≡ none)
        × (find_dir (new config manifest s).1.dirs n ≡ (
            if nat_eq (new config manifest s).0 n
            then some (record {
              number = (new config manifest s).0;
              config = some config;
              state = some manifest;
            })
            else find_dir s.dirs n))
  unfolding new
  new_keeps_history n = (find_dir-next_number s.dirs, find_dir-write_dir s.dirs _ n)

  found_new :
      find_dir (new config manifest s).1.dirs (new config manifest s).0
      ≡ some (record {
        number = (new config manifest s).0;
        config = some config;
        state = some manifest;
      })
  found_new = (new_keeps_history (new config manifest s).0).1 ∙ ground arith

  -- A rollback to the new generation returns what was recorded and changes nothing, unless the
  -- recorded manifest is partial: then it is refused.
  pub restore-new : restore (new config manifest s).0 (new config manifest s).1 ≡ (
    if truthy (or_default manifest.partial (bool false))
        then raise (is_partial (new config manifest s).0)
        else ok (config, manifest),
    (new config manifest s).1,
  )
  unfolding restore restore_dir
  restore-new = rw (found_new, restore) (unfold new in ground arith)
