-- ===== src/Packages/Resolver.antt =====
-- dasik/lib/actions/package_resolver.py: PackageResolver.resolve and the questions it asks. `execute`
-- runs a program in the target, `query` is the GET of the AUR's answer for some names and the parse
-- of its body, which raises where either fails.
use dasik.Base.{
  ℕ, String, Bool, true, false, not, ◌&&◌, ◌||◌, Option, none, some, List, [], ◌∷◌, ◌++◌, map,
  nat_eq, if◌then◌else◌, mem, is_some, is_empty, Dict, get, Json, null, bool, num, str, arr, obj,
  list_of, dict_of, keys,
}
use dasik.Effects.{Exec, Result, ok, raise, exception, pure, lift, try_except, ◌>>=◌}
use dasik.Commands.{CommandResult, lines_set}
use dasik.Packages.Names.{from_keys, validate_each}
use dasik.Packages.Batches.{batches}
use dasik.Packages.Resolution.{
  PackageResolution, empty, add_aur, add_repo, add_unknown, extend_unavailable, classify,
}
pub mod Laws
pub mod Placing
pub mod Precedence

-- data.get("results", []) of a dict, as a list of values; a text or a dict yields texts.
unfoldable pub results_of : Json → Result (List Json)
results_of (obj fields) = elim (get (dict_of fields) "results") [
  | none ↦ ok []
  | some (arr items) ↦ ok (list_of items)
  | some (str s) ↦ ok []
  | some (obj f) ↦ ok []
  | some _ ↦ raise (exception "not iterable")
]
results_of _ = ok []

-- {r["Name"] for r in results if isinstance(r, dict) and r.get("Name") in requested}
unfoldable pub name_of : Json → Result (Option String)
name_of (obj fields) = elim (get (dict_of fields) "Name") [
  | some (str n) ↦ ok (some n)
  | some (arr items) ↦ raise (exception "unhashable type")
  | some (obj f) ↦ raise (exception "unhashable type")
  | _ ↦ ok none
]
name_of _ = ok none

keep_requested : List String → Result (Option String) → Result (List String) → Result (List String)
keep_requested requested (raise e) rest = raise e
keep_requested requested (ok n) (raise e) = raise e
keep_requested requested (ok none) (ok ns) = ok ns
keep_requested requested (ok (some n)) (ok ns) = if mem n requested then ok (n ∷ ns) else ok ns

unfoldable pub requested_names : List String → List Json → Result (List String)
unfolding keep_requested
requested_names requested [] = ok []
requested_names requested (r ∷ rs) =
    keep_requested requested (name_of r) (requested_names requested rs)

module _ {S : Type 0} (execute : String → List String → Exec S CommandResult)
    (query : List String → Exec S Json) where
  unfoldable pub repo_names : Exec S (List String)
  repo_names = do result ← execute "pacman" ("-Slq" ∷ []); pure (lines_set result.stdout)

  unfoldable pub repo_groups : Exec S (List String)
  repo_groups = do result ← execute "pacman" ("-Sgq" ∷ []); pure (lines_set result.stdout)

  -- _fetch_json; `none` is the AurUnavailableError.
  unfoldable pub fetch_json : List String → Exec S (Option Json)
  fetch_json names = try_except (do json ← query names; pure (some json)) (λ _. pure none)

  -- _aur_info_batch on the answer
  unfoldable pub names_in : List String → Json → Result (List String)
  names_in requested json = elim (results_of json) [
    | ok results ↦ requested_names requested results
    | raise e ↦ raise e
  ]

  -- The answer for one batch, before the rest of the batches is asked for.
  unfoldable pub info_answer :
      List String → Exec S (Option (List String)) → Option Json → Exec S (Option (List String))
  info_answer batch rest none = pure none
  info_answer batch rest (some json) = do
    found ← lift (names_in batch json)
    others ← rest
    pure (elim others [ none ↦ none | some names ↦ some (found ++ names) ])

  -- The loop of aur_info, which an unavailable batch ends.
  unfoldable pub info_each : List (List String) → Exec S (Option (List String))
  info_each [] = pure (some [])
  info_each (batch ∷ rest) = do json ← fetch_json batch; info_answer batch (info_each rest) json

  -- aur_info
  unfoldable pub aur_info : List String → Exec S (Option (List String))
  aur_info names = do
    requested ← lift (validate_each (from_keys names))
    info_each (batches requested)

  -- _is_provided
  unfoldable pub is_provided : String → Exec S Bool
  is_provided name =
      try_except
        (do
          result ← execute "pacman" ("-Sp" ∷ "--noconfirm" ∷ name ∷ [])
          pure (nat_eq result.returncode 0))
        (λ _. pure false)

  -- The last loop of resolve, for one candidate.
  unfoldable pub settle : List String → PackageResolution → String → Exec S PackageResolution
  settle found res name = if mem name found then pure (add_aur res name) else (do
    provided ← is_provided name
    pure (if provided then add_repo res name else add_unknown res name))

  unfoldable pub settle_each :
      List String → PackageResolution → List String → Exec S PackageResolution
  settle_each found res [] = pure res
  settle_each found res (name ∷ names) = do
    settled ← settle found res name
    settle_each found settled names

  -- What resolve does with the AUR's answer.
  unfoldable pub answer :
      PackageResolution → List String → Option (List String) → Exec S PackageResolution
  answer res candidates none = pure (extend_unavailable res candidates)
  answer res candidates (some found) = settle_each found res candidates

  unfoldable pub resolve_rest : PackageResolution → List String → Exec S PackageResolution
  resolve_rest res candidates =
      if is_empty candidates
      then pure res
      else (do aur_found ← aur_info candidates; answer res candidates aur_found)

  -- resolve
  unfoldable pub resolve : List String → Dict Json → Exec S PackageResolution
  resolve names sources = do
    ordered ← lift (validate_each (from_keys names))
    repo ← repo_names
    groups ← repo_groups
    let (res, candidates) = classify repo groups sources (empty, []) ordered
    resolve_rest res candidates
