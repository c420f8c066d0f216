-- ===== src/Config/Includes/Ending.antt =====
-- dasik/lib/json_parser/includes.py: resolving ends, by the cycle check, and leaves no directive.
use dasik.Base.{
  ℕ, zero, suc, ◌<◌, ◌≤◌, String, ◌≡◌, refl, arith, inl, inr, Bool, true, false, not, Option, List,
  [], ◌∷◌, ◌++◌, if◌then◌else◌, mem, mem-append, ◌==◌, eq_iff, Json, null, bool, num, str, arr, obj,
  Bool-cases, Option-cases, length, select,
}
use dasik.Commands.{starts_with, strip, lines_of}
use dasik.Config.Files.{
  FilePath, Files, Outcome, done, failed, resolve_path, parent, read, bad_path, absolute_path,
  parent_path, ReadResult, contents, missing, unreadable, text_of, parts,
}
use dasik.Config.Includes.{
  uses_includes, head_line, line_of, include, read_directive, load_file, resolve_includes,
}
use dasik.Config.Includes.Resolved.{Ensures, Ensures-bind, IsResolved, resolve-IsResolved}

-- How many of the files are not entered yet.
unread : List String → List String → ℕ
unread all chain = length (select (λ f. not (mem f chain)) all)

unread-le :
    (all chain : List String) (real : String) → unread all (chain ++ real ∷ []) ≤ unread all chain
unfolding unread select mem
unread-le [] chain real = omega arith
unread-le (f ∷ all) chain real =
    ground (arith, unread-le all chain real, mem-append f chain (real ∷ []))

unread-le-length : (all chain : List String) → unread all chain ≤ length all
unfolding unread select
unread-le-length [] chain = omega arith
unread-le-length (f ∷ all) chain = ground (arith, unread-le-length all chain)

-- Entering a file that is not in the chain leaves fewer.
unread-lt :
    (all chain : List String) (real : String)
    → mem real all ≡ true
    → mem real chain ≡ false
    → unread all (chain ++ real ∷ []) < unread all chain
unfolding unread select mem
unread-lt [] chain real h k = cc
unread-lt (f ∷ all) chain real h k = ground (
  arith,
  unread-le all chain real,
  unread-lt all chain real,
  mem-append f chain (real ∷ []),
  eq_iff f real,
)

checks-Ensures :
    (a b c : Bool) (path : FilePath)
    → Ensures
        (λ (p : FilePath). Unit {0})
        (if a
          then failed bad_path
          else if b
          then failed absolute_path
          else if c
          then failed parent_path
          else done path)
checks-Ensures true b c path = cc
checks-Ensures false true c path = cc
checks-Ensures false false true path = cc
checks-Ensures false false false path = tt

resolve_path-Ensures :
    (v : Json) (base : FilePath) → Ensures (λ (p : FilePath). Unit {0}) (resolve_path v base)
unfolding resolve_path
resolve_path-Ensures (str raw) base =
    checks-Ensures (raw == "") (starts_with "/" raw) (mem ".." (parts raw)) (base ++ parts raw)
resolve_path-Ensures null base = cc
resolve_path-Ensures (bool b) base = cc
resolve_path-Ensures (num n) base = cc
resolve_path-Ensures (arr xs) base = cc
resolve_path-Ensures (obj fs) base = cc

text_of-Ensures : (r : ReadResult) → Ensures (λ text. r ≡ contents text) (text_of r)
unfolding text_of
text_of-Ensures (contents text) = refl
text_of-Ensures missing = cc
text_of-Ensures unreadable = cc

pub read-Ensures :
    (files : Files) (path : FilePath)
    → Ensures (λ text. files.read_text path ≡ contents text) (read files path)
unfolding read
read-Ensures files path = text_of-Ensures (files.read_text path)

line_of-Ensures : (text : String) → Ensures IsResolved (line_of text)
unfolding line_of uses_includes
line_of-Ensures text = elim (Bool-cases (strip (head_line (lines_of text)) == "")) [
  | inl e ↦ rw (e, line_of) (cc)
  | inr e ↦ rw (e, line_of) refl
]

-- Each file that can be read is one of the list.
abbrev pub AreListed : Files → List String → Type 0
AreListed files all =
    (path : FilePath) (text : String)
    → files.read_text path ≡ contents text
    → mem (files.real_path path) all ≡ true

include-Ensures :
    (loads : String → Option Json) (enter : FilePath → List String → String → Json → Outcome Json)
    (real : String) (path : FilePath) (chain : List String) (text : String)
    → (mem real chain ≡ false
        → (k : String) (v : Json)
        → Ensures IsResolved (enter (parent path) (chain ++ real ∷ []) k v))
    → Ensures IsResolved (include loads enter real path chain text)
unfolding include
include-Ensures loads enter real path chain text h = elim (Bool-cases (mem real chain)) [
  | inl e ↦ rw (e, include) (cc)
  | inr e ↦ elim (Option-cases (loads text)) [
    | inl l ↦ rw (e, l, include) (cc)
    | inr (v, l) ↦ rw (e, l, include) (resolve-IsResolved _ (h e) v)
  ]
]

read_directive-Ensures :
    (loads : String → Option Json) (enter : FilePath → List String → String → Json → Outcome Json)
    (real : String) (path : FilePath) (chain : List String) (directive text : String)
    → (mem real chain ≡ false
        → (k : String) (v : Json)
        → Ensures IsResolved (enter (parent path) (chain ++ real ∷ []) k v))
    → Ensures IsResolved (read_directive loads enter real path chain directive text)
unfolding read_directive uses_includes
read_directive-Ensures loads enter real path chain directive text h =
    elim (Bool-cases (directive == "$include_text")) [
      | inl e ↦ rw (e, read_directive) refl
      | inr e ↦ elim (Bool-cases (directive == "$include_line")) [
        | inl l ↦ rw (e, l, read_directive) (line_of-Ensures text)
        | inr l ↦ rw (e, l, read_directive) (include-Ensures loads enter real path chain text h)
      ]
    ]

module _ (files : Files) (loads : String → Option Json) (all : List String) where
  load_file-Ensures :
      AreListed files all
      → (fuel : ℕ) (base : FilePath) (chain : List String) → unread all chain < fuel
      → (k : String) (v : Json) → Ensures IsResolved (load_file files loads fuel base chain k v)
  unfolding load_file
  load_file-Ensures listed zero base chain h k v = absurd (omega arith)
  load_file-Ensures listed (suc fuel) base chain h k v =
      Ensures-bind (λ p. Unit {0}) IsResolved (resolve_path v base) _ (resolve_path-Ensures v base)
        (λ path _.
          Ensures-bind (λ text. files.read_text path ≡ contents text) IsResolved (read files path) _
            (read-Ensures files path)
            (λ text found.
              read_directive-Ensures loads (load_file files loads fuel) (files.real_path path) path
                chain k text
                (λ fresh.
                  load_file-Ensures listed fuel (parent path) (chain ++ files.real_path path ∷ []) (
                    omega (
                      arith,
                      unread-lt all chain (files.real_path path) (listed path text found) fresh,
                    )))))

  pub resolve_includes-IsResolved :
      AreListed files all
      → (fuel : ℕ) → length all < fuel
      → (v : Json) (base : FilePath) → Ensures IsResolved (resolve_includes files loads fuel v base)
  unfolding resolve_includes
  resolve_includes-IsResolved listed fuel h v base =
      resolve-IsResolved (load_file files loads fuel base [])
        (load_file-Ensures listed fuel base [] (omega (arith, unread-le-length all []))) v
