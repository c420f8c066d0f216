-- ===== src/Packages/Resolution.antt =====
-- dasik/lib/actions/package_resolver.py: a resolution, and the first loop of resolve.
use dasik.Base.{
  String, Bool, ◌&&◌, Option, none, some, List, [], ◌∷◌, ◌++◌, if◌then◌else◌, mem, is_empty, Dict,
  get, Json,
}

pub record ResolvedGitPackage : Type 0 where
  pub name : String
  pub source : Json

pub record PackageResolution : Type 0 where
  pub repo : List String
  pub groups : List String
  pub git : List ResolvedGitPackage
  pub aur : List String
  pub unknown : List String
  pub unavailable : List String

-- PackageResolution()
abbrev pub empty : PackageResolution
empty = record { repo = []; groups = []; git = []; aur = []; unknown = []; unavailable = [] }

-- PackageResolution.ok
unfoldable pub is_ok : PackageResolution → Bool
is_ok res = is_empty res.unknown && is_empty res.unavailable

-- res.repo.append(name), and so for the other lists
module _ (res : PackageResolution) (name : String) where
  unfoldable pub add_repo : PackageResolution
  add_repo = record {
    repo = res.repo ++ name ∷ [];
    groups = res.groups;
    git = res.git;
    aur = res.aur;
    unknown = res.unknown;
    unavailable = res.unavailable;
  }

  unfoldable pub add_group : PackageResolution
  add_group = record {
    repo = res.repo;
    groups = res.groups ++ name ∷ [];
    git = res.git;
    aur = res.aur;
    unknown = res.unknown;
    unavailable = res.unavailable;
  }

  unfoldable pub add_git : Json → PackageResolution
  add_git source = record {
    repo = res.repo;
    groups = res.groups;
    git = res.git ++ record { name = name; source = source } ∷ [];
    aur = res.aur;
    unknown = res.unknown;
    unavailable = res.unavailable;
  }

  unfoldable pub add_aur : PackageResolution
  add_aur = record {
    repo = res.repo;
    groups = res.groups;
    git = res.git;
    aur = res.aur ++ name ∷ [];
    unknown = res.unknown;
    unavailable = res.unavailable;
  }

  unfoldable pub add_unknown : PackageResolution
  add_unknown = record {
    repo = res.repo;
    groups = res.groups;
    git = res.git;
    aur = res.aur;
    unknown = res.unknown ++ name ∷ [];
    unavailable = res.unavailable;
  }

-- res.unavailable.extend(names)
unfoldable pub extend_unavailable : PackageResolution → List String → PackageResolution
extend_unavailable res names = record {
  repo = res.repo;
  groups = res.groups;
  git = res.git;
  aur = res.aur;
  unknown = res.unknown;
  unavailable = res.unavailable ++ names;
}

-- The first loop of resolve, for one name: the resolution, and the names left for the AUR.
unfoldable pub place_source :
    Option Json → PackageResolution × List String → String → PackageResolution × List String
place_source (some source) (res, candidates) name = (add_git res name source, candidates)
place_source none (res, candidates) name = (res, candidates ++ name ∷ [])

module _ (repo groups : List String) (sources : Dict Json) where
  unfoldable pub place : PackageResolution × List String → String → PackageResolution × List String
  place (res, candidates) name =
      if mem name repo
      then (add_repo res name, candidates)
      else if mem name groups
      then (add_group res name, candidates)
      else place_source (get sources name) (res, candidates) name

  unfoldable pub classify :
      PackageResolution × List String → List String → PackageResolution × List String
  classify acc [] = acc
  classify acc (name ∷ names) = classify (place acc name) names
