-- ===== src/State/ApplyLock.antt =====
-- dasik/lib/state/apply_lock.py: one apply at a time, per target. A process is named by the decimal
-- text of its pid; the kernel's lock on the open file is part of the state.
use dasik.Base.{
  String, Bool, true, false, Option, none, some, List, [], ◌∷◌, ◌++◌, ◌≡◌, if◌then◌else◌, ◌==◌,
  concat, select, not,
}
use dasik.Effects.{Exn, Exec, Result, ok, raise, exception}
use dasik.Commands.{strip}
pub mod Laws
mod Tests

pub record LockFile : Type 0 where
  pub holder : Option String
  pub content : String

-- What the operating system allows: to create the file, to read it, to write into it.
pub record Access : Type 0 where
  pub can_open : Bool
  pub can_read : Bool
  pub can_write : Bool

-- " (pid …)" where the file names a holder
unfoldable pub who : Bool → String → String
unfolding strip concat
who can_read content =
    let holder = if can_read then strip content else "" in
    if holder == "" then "" else concat (" (pid " ∷ holder ∷ ")" ∷ [])

-- The message up to the explanation that it ends with
unfoldable pub busy : Access → LockFile → Result Bool
unfolding who concat
busy access file = raise (
    exception (
      concat (
        "another dasik is already applying to this target"
        ∷ who access.can_read file.content
        ∷ [])))

-- The flock, which another holder refuses, and the pid that is then written.
unfoldable pub flock : Access → String → LockFile → Option String → Result Bool × LockFile
unfolding concat
flock access pid file (some other) = (busy access file, file)
flock access pid file none =
    if access.can_write
    then (ok true, record { holder = some pid; content = concat (pid ∷ "\n" ∷ []) })
    else (
      raise (exception "cannot write the lock file"),
      record { holder = some pid; content = "" },
    )

-- __enter__: whether the lock is held, which it is not where the file cannot be opened.
unfoldable pub enter : Access → String → Exec LockFile Bool
enter access pid file =
    if access.can_open then flock access pid file file.holder else (ok false, file)

-- __exit__, by whether __enter__ took the lock
unfoldable pub exit : Bool → LockFile → LockFile
exit true file = record { holder = none; content = file.content }
exit false file = file

unfoldable pub drop_of : String → LockFile → Option String → LockFile
drop_of pid file none = file
drop_of pid file (some other) =
    if other == pid then record { holder = none; content = file.content } else file

-- The kernel drops the lock of a process that dies.
unfoldable pub die : String → LockFile → LockFile
die pid file = drop_of pid file file.holder

-- The lock file, and the processes that run behind the lock.
pub record System : Type 0 where
  pub file : LockFile
  pub inside : List String

abbrev pub system : LockFile → List String → System
system file inside = record { file = file; inside = inside }

-- One step of one process.
pub data Step : System → System → Type 0 where
  enters :
      (access : Access) (pid : String) {file file_after : LockFile} {inside : List String}
      → enter access pid file ≡ (ok true, file_after)
      → Step (system file inside) (system file_after (pid ∷ inside))
  passes :
      (access : Access) (pid : String) {file file_after : LockFile} {inside : List String}
      → enter access pid file ≡ (ok false, file_after)
      → Step (system file inside) (system file_after inside)
  refused :
      (access : Access) (pid : String) {file file_after : LockFile} {inside : List String}
      {exn : Exn}
      → enter access pid file ≡ (raise exn, file_after)
      → Step (system file inside) (system file_after inside)
  leaves :
      (pid : String) (before after : List String) {file : LockFile} {inside : List String}
      → inside ≡ before ++ pid ∷ after
      → Step (system file inside) (system (exit true file) (before ++ after))
  dies :
      (pid : String) {file : LockFile} {inside : List String}
      → Step (system file inside) (system (die pid file) (select (λ p. not (p == pid)) inside))

-- The systems that the steps reach from a target that nobody works on.
pub data Reachable : System → Type 0 where
  idle : (content : String) → Reachable (system (record { holder = none; content = content }) [])
  next : {before after : System} → Reachable before → Step before after → Reachable after
