-- ===== src/State/GenerationStore.antt =====
-- dasik/lib/state/generation_store.py: the numbered generations, `current`, and pruning.
-- The base directory is the list of its numbered subdirectories, each with its two files; a base
-- directory that does not exist is the empty list, which every method treats alike.
pub mod Laws
pub mod Pruning
mod Tests
use dasik.Base.{
  ℕ, zero, suc, ◌+◌, ◌-◌, Bool, true, false, not, ◌&&◌, Option, none, some, List, [], ◌∷◌, ◌++◌,
  map, leb, ltb, nat_eq, if◌then◌else◌, length, select, drop, mem_number, Dict, Json, bool, truthy,
}
use dasik.State.StateStore.{ManifestDict, or_default}

pub record GenDir : Type 0 where
  pub number : ℕ
  -- config.json and state.json; `none` where the file is absent or is no JSON
  pub config : Option (Dict Json)
  pub state : Option ManifestDict

pub record Generations : Type 0 where
  pub dirs : List GenDir
  -- what the link `current` names
  pub current : Option ℕ

pub record GenInfo : Type 0 where
  pub number : ℕ
  pub is_current : Bool
  pub partial : Bool

pub data StoreError : Type 0 where
  keep_below_one : StoreError
  not_found : ℕ → StoreError
  is_partial : ℕ → StoreError
  unreadable : ℕ → StoreError

pub data Outcome {ℓ} (A : Type ℓ) : Type ℓ where
  ok : A → Outcome A
  raise : StoreError → Outcome A

-- max(nums), with 0 for no number
unfoldable pub max_number : List GenDir → ℕ
max_number [] = 0
max_number (d ∷ ds) = let m = max_number ds in if ltb m d.number then d.number else m

-- _next_number
unfoldable pub next_number : List GenDir → ℕ
unfolding max_number
next_number [] = 1
next_number (d ∷ ds) = max_number (d ∷ ds) + 1

-- base_dir / str(number), if it is a directory
unfoldable pub find_dir : List GenDir → ℕ → Option GenDir
find_dir [] n = none
find_dir (d ∷ ds) n = if nat_eq d.number n then some d else find_dir ds n

-- mkdir(exist_ok=True) and the two files written into it
unfoldable pub write_dir : List GenDir → GenDir → List GenDir
write_dir [] g = g ∷ []
write_dir (d ∷ ds) g = if nat_eq d.number g.number then g ∷ ds else d ∷ write_dir ds g

-- GenerationStore.new
unfoldable pub new : Dict Json → ManifestDict → Generations → ℕ × Generations
new config manifest s =
    let n = next_number s.dirs in
    (
      n,
      record {
        dirs =
            write_dir s.dirs (record { number = n; config = some config; state = some manifest });
        current = some n;
      },
    )

-- _is_partial
unfoldable pub dir_partial : GenDir → Bool
unfolding truthy or_default
dir_partial d = elim d.state [ none ↦ false | some m ↦ truthy (or_default m.partial (bool false)) ]

-- p.name == current
unfoldable pub is_current_number : Option ℕ → ℕ → Bool
is_current_number none n = false
is_current_number (some c) n = nat_eq n c

unfoldable pub insert_dir : GenDir → List GenDir → List GenDir
insert_dir d [] = d ∷ []
insert_dir d (e ∷ es) = if leb d.number e.number then d ∷ e ∷ es else e ∷ insert_dir d es

-- sorted(dirs, key=int)
unfoldable pub sort_dirs : List GenDir → List GenDir
unfolding insert_dir
sort_dirs [] = []
sort_dirs (d ∷ ds) = insert_dir d (sort_dirs ds)

unfoldable pub info : Option ℕ → GenDir → GenInfo
unfolding is_current_number dir_partial
info current d = record {
  number = d.number;
  is_current = is_current_number current d.number;
  partial = dir_partial d;
}

-- GenerationStore.list
unfoldable pub list : Generations → List GenInfo
list s = map (info s.current) (sort_dirs s.dirs)

abbrev pub number_of : GenInfo → ℕ
number_of g = g.number

-- next((g.number for g in reversed(gens) if not g.partial), None): the last complete one.
unfoldable pub newest_complete : List GenInfo → Option ℕ
newest_complete [] = none
newest_complete (g ∷ gs) = elim (newest_complete gs) [
  | none ↦ if g.partial then none else some g.number
  | some n ↦ some n
]

unfoldable pub option_list : Option ℕ → List ℕ
option_list none = []
option_list (some n) = n ∷ []

-- The numbers that `prune` keeps.
unfoldable pub survivors : ℕ → List GenInfo → List ℕ
unfolding newest_complete option_list
survivors keep gens =
    map number_of (drop (length gens - keep) gens)
    ++ (map number_of (select (λ (g : GenInfo). g.is_current) gens)
        ++ option_list (newest_complete gens))

-- The numbers that `prune` deletes.
unfoldable pub doomed : ℕ → List GenInfo → List ℕ
unfolding survivors
doomed keep gens =
    map number_of (select (λ (g : GenInfo). not (mem_number g.number (survivors keep gens))) gens)

-- GenerationStore.prune. `rmtree(ignore_errors=True)` may fail: `deletable` says where it succeeds.
unfoldable pub prune : (ℕ → Bool) → ℕ → Generations → Outcome (List ℕ) × Generations
prune deletable keep s =
    if ltb keep 1
    then (raise keep_below_one, s)
    else if leb (length (list s)) keep
    then (ok [], s)
    else (
      ok (doomed keep (list s)),
      record s {
        dirs =
            select
              (λ (d : GenDir).
                not (mem_number d.number (doomed keep (list s)) && deletable d.number))
              s.dirs;
      },
    )

-- The two files of a generation, read one after the other.
unfoldable pub read_files : GenDir → Outcome (Dict Json × ManifestDict)
read_files d = elim d.config [
  | none ↦ raise (unreadable d.number)
  | some config ↦ elim d.state [
    | none ↦ raise (unreadable d.number)
    | some manifest ↦ ok (config, manifest)
  ]
]

-- `current` moves only once both files are read.
unfoldable pub point_if_read :
    ℕ
    → Generations
    → Outcome (Dict Json × ManifestDict)
    → Outcome (Dict Json × ManifestDict) × Generations
point_if_read n s (raise e) = (raise e, s)
point_if_read n s (ok files) = (ok files, record s { current = some n })

unfoldable pub restore_dir : GenDir → Generations → Outcome (Dict Json × ManifestDict) × Generations
unfolding read_files point_if_read dir_partial
restore_dir d s =
    if dir_partial d
    then (raise (is_partial d.number), s)
    else point_if_read d.number s (read_files d)

-- GenerationStore.restore
unfoldable pub restore : ℕ → Generations → Outcome (Dict Json × ManifestDict) × Generations
restore n s = elim (find_dir s.dirs n) [
  | none ↦ (raise (not_found n), s)
  | some d ↦ restore_dir d s
]
