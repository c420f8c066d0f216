-- ===== src/State/ApplyLock/Laws.antt =====
-- At most one process works behind the lock.
use dasik.Base.{
  String, Bool, true, false, not, ◌≡◌, ◌≢◌, ◌⊎◌, refl, sym, ap, ◌∙◌, inl, inr, Option, none, some,
  List, [], ◌∷◌, ◌++◌, select, ◌==◌, eq_iff, arith, Bool-cases,
}
use dasik.Effects.{Result, ok, raise}
use package.dasik.State.ApplyLock.{
  LockFile, Access, drop_of, busy, flock, enter, die, System, system, Step, enters, passes, refused,
  leaves, dies, Reachable, idle, next,
}

-- Nobody is behind the lock, or one process is, and it holds the lock.
abbrev pub IsExclusive : System → Type 0
IsExclusive sys =
    (sys.inside ≡ []) ⊎ ((pid : String) × (sys.inside ≡ pid ∷ []) × (sys.file.holder ≡ some pid))

-- What __enter__ may do to the lock file: whoever gets the lock found it free and holds it now;
-- whoever runs without it leaves the file alone; whoever is refused leaves it alone or found it free.
abbrev Entered : String → LockFile → Result Bool × LockFile → Type 0
Entered pid file (ok true, after) = (file.holder ≡ none) × (after.holder ≡ some pid)
Entered pid file (ok false, after) = after ≡ file
Entered pid file (raise e, after) = (after ≡ file) ⊎ (file.holder ≡ none)

flock-Entered :
    (access : Access) (pid : String) (file : LockFile) (holder : Option String)
    → file.holder ≡ holder
    → Entered pid file (flock access pid file holder)
unfolding flock busy
flock-Entered access pid file (some other) e = inl refl
flock-Entered access pid file none e = elim (Bool-cases access.can_write) [
  | inl w ↦ rw w (e, refl)
  | inr w ↦ rw w (inr e)
]

enter-Entered :
    (access : Access) (pid : String) (file : LockFile) → Entered pid file (enter access pid file)
unfolding enter
enter-Entered access pid file = elim (Bool-cases access.can_open) [
  | inl o ↦ simp o (flock-Entered access pid file file.holder refl)
  | inr o ↦ simp o
]

enter-eq-Entered :
    (access : Access) (pid : String) (file : LockFile) (end : Result Bool × LockFile)
    → enter access pid file ≡ end
    → Entered pid file end
enter-eq-Entered access pid file end e = rw⁻¹ e (enter-Entered access pid file)

-- A process that is alone behind a list of processes leaves none of them.
alone :
    (pid p : String) (before after : List String)
    → p ∷ [] ≡ before ++ pid ∷ after
    → before ++ after ≡ []
alone pid p [] after e = ground arith
alone pid p (b ∷ []) after e = absurd (ground arith)
alone pid p (b ∷ c ∷ before) after e = absurd (ground arith)

drop_of-other :
    (pid p : String) (file : LockFile) (holder : Option String)
    → file.holder ≡ holder
    → holder ≡ some p
    → (p == pid) ≡ false
    → (drop_of pid file holder).holder ≡ some p
unfolding drop_of
drop_of-other pid p file none f e n = absurd (cc)
drop_of-other pid p file (some q) f e n = ground arith

-- A process that enters or is refused while nobody is inside, or one is.
enters-IsExclusive :
    (pid : String) (file : LockFile) (inside : List String) (r : Result Bool) (after : LockFile)
    → Entered pid file (r, after)
    → r ≡ ok true
    → IsExclusive (system file inside)
    → IsExclusive (system after (pid ∷ inside))
enters-IsExclusive pid file inside (ok true) after (free, held) e (inl h) =
    inr (pid, ap (◌∷◌ pid) h, held)
enters-IsExclusive pid file inside (ok true) after (free, held) e (inr (p, h, k)) = absurd (cc)
enters-IsExclusive pid file inside (ok false) after d e h = absurd (cc)
enters-IsExclusive pid file inside (raise x) after d e h = absurd (cc)

stays-IsExclusive :
    (pid : String) (file : LockFile) (inside : List String) (r : Result Bool) (after : LockFile)
    → Entered pid file (r, after)
    → r ≢ ok true
    → IsExclusive (system file inside)
    → IsExclusive (system after inside)
stays-IsExclusive pid file inside (ok true) after d n h = absurd (n refl)
stays-IsExclusive pid file inside (ok false) after d n (inl h) = inl h
stays-IsExclusive pid file inside (ok false) after d n (inr (p, h, k)) =
    inr (p, h, ap (λ (f : LockFile). f.holder) d ∙ k)
stays-IsExclusive pid file inside (raise x) after d n (inl h) = inl h
stays-IsExclusive pid file inside (raise x) after (inl d) n (inr (p, h, k)) =
    inr (p, h, ap (λ (f : LockFile). f.holder) d ∙ k)
stays-IsExclusive pid file inside (raise x) after (inr d) n (inr (p, h, k)) = absurd (cc)

dies-IsExclusive :
    (pid p : String) (file : LockFile) (inside : List String)
    → inside ≡ p ∷ []
    → file.holder ≡ some p
    → IsExclusive (system (die pid file) (select (λ q. not (q == pid)) inside))
unfolding die select
dies-IsExclusive pid p file inside h k = elim (Bool-cases (p == pid)) [
  | inl e ↦ inl (rw h (rw e refl))
  | inr e ↦ inr (p, rw h (rw e refl), drop_of-other pid p file file.holder refl k e)
]

nobody : (pid : String) (before after : List String) → [] ≢ before ++ pid ∷ after
nobody pid [] after e = absurd (ground arith)
nobody pid (b ∷ before) after e = absurd (ground arith)

Step-IsExclusive :
    {before after : System} → Step before after → IsExclusive before → IsExclusive after
unfolding select
Step-IsExclusive (enters access pid {file} {file_after} {inside} e) h =
    enters-IsExclusive pid file inside (ok true) file_after
      (enter-eq-Entered access pid file (ok true, file_after) e) refl h
Step-IsExclusive (passes access pid {file} {file_after} {inside} e) h =
    stays-IsExclusive pid file inside (ok false) file_after
      (enter-eq-Entered access pid file (ok false, file_after) e) (λ q. absurd (cc)) h
Step-IsExclusive (refused access pid {file} {file_after} {inside} {exn} e) h =
    stays-IsExclusive pid file inside (raise exn) file_after
      (enter-eq-Entered access pid file (raise exn, file_after) e) (λ q. absurd (cc)) h
Step-IsExclusive (leaves pid before after e) (inl h) = absurd (nobody pid before after (sym h ∙ e))
Step-IsExclusive (leaves pid before after e) (inr (p, h, k)) =
    inl (alone pid p before after (sym h ∙ e))
Step-IsExclusive (dies pid {file} {inside}) (inl h) = inl (rw h refl)
Step-IsExclusive (dies pid {file} {inside}) (inr (p, h, k)) = dies-IsExclusive pid p file inside h k

-- Whatever processes enter, are refused, leave or die, in any order: at most one process is inside
-- with the lock, and it is the one that the kernel names as the holder.
pub exclusive : {sys : System} → Reachable sys → IsExclusive sys
exclusive (idle content) = inl refl
exclusive (next before step) = Step-IsExclusive step (exclusive before)

-- A lock file that can be opened and written.
abbrev pub usable : Bool → Access
usable can_read = record { can_open = true; can_read = can_read; can_write = true }

flock-held :
    (access : Access) (pid p : String) (file : LockFile) (holder : Option String)
    → holder ≡ some p
    → ((flock access pid file holder).0 ≢ ok true) × ((flock access pid file holder).1 ≡ file)
unfolding flock busy
flock-held access pid p file none h = absurd (cc)
flock-held access pid p file (some q) h = ((λ e. absurd (cc)), refl)

abbrev from_some : String → Option String → String
from_some default none = default
from_some default (some s) = s

flock-drop_of :
    (can_read : Bool) (pid p : String) (file : LockFile) (holder : Option String)
    → holder ≡ some p
    → (flock (usable can_read) pid (drop_of p file holder) (drop_of p file holder).holder).0
      ≡ ok true
unfolding flock drop_of
flock-drop_of can_read pid p file none h = absurd (cc)
flock-drop_of can_read pid p file (some q) h = rw ((eq_iff q p).1 (ap (from_some q) h)) refl

holder_of_inside :
    {sys : System} (p : String) → Reachable sys → sys.inside ≡ p ∷ [] → sys.file.holder ≡ some p
holder_of_inside p reachable h = elim (exclusive reachable) [
  | inl e ↦ absurd (cc)
  | inr (q, e, k) ↦ ground arith
]

-- While a process is inside, no other gets the lock of a file that can be opened and written: it is
-- refused, and the file stays as it is. Once that process has died, whatever it left in the file,
-- the next one gets the lock.
pub enter-die :
    {sys : System} (can_read : Bool) (holder pid : String)
    → Reachable sys
    → sys.inside ≡ holder ∷ []
    → ((enter (usable can_read) pid sys.file).0 ≢ ok true)
      × ((enter (usable can_read) pid sys.file).1 ≡ sys.file)
      × ((enter (usable can_read) pid (die holder sys.file)).0 ≡ ok true)
unfolding enter die
enter-die {sys} can_read holder pid reachable h =
    let k = holder_of_inside holder reachable h in
    let held = flock-held (usable can_read) pid holder sys.file sys.file.holder k in
    (held.0, held.1, flock-drop_of can_read pid holder sys.file sys.file.holder k)
