-- ===== src/Config/WriteBack/Staging.antt =====
-- dasik/lib/json_parser/writeback.py: the planned writes, and steps that may raise or plan one.
use dasik.Base.{String, Bool, true, false, ◌&&◌, List, [], ◌∷◌, if◌then◌else◌, ◌==◌}
use dasik.Config.Files.{FilePath, Outcome, done, failed}

-- The planned writes by path, in the order of a dict.
abbrev pub Writes : Type 0
Writes = List (FilePath × String)

-- A step of the planner: it may raise, and it may stage a write.
abbrev pub Planner : Type 0 → Type 0
Planner A = Writes → Outcome (A × Writes)

abbrev pub pure : {A : Type 0} → A → Planner A
pure a ws = done (a, ws)

abbrev pub lift : {A : Type 0} → Outcome A → Planner A
lift (done a) ws = done (a, ws)
lift (failed e) ws = failed e

abbrev pub continue : {A B : Type 0} → Outcome (A × Writes) → (A → Planner B) → Outcome (B × Writes)
continue (done (a, ws)) f = f a ws
continue (failed e) f = failed e

infixl 5 ◌>>=◌ ◌>>◌
abbrev pub ◌>>=◌ : {A B : Type 0} → Planner A → (A → Planner B) → Planner B
◌>>=◌ m f ws = continue (m ws) f

abbrev pub ◌>>◌ : {A B : Type 0} → Planner A → Planner B → Planner B
m >> n = m >>= λ _. n

unfoldable pub path_eq : FilePath → FilePath → Bool
path_eq [] [] = true
path_eq (p ∷ ps) (q ∷ qs) = p == q && path_eq ps qs
path_eq _ _ = false

-- self.writes[path] = text
unfoldable pub put_write : Writes → FilePath → String → Writes
unfolding path_eq
put_write [] path text = (path, text) ∷ []
put_write ((p, t) ∷ ws) path text =
    if path_eq p path then (p, text) ∷ ws else (p, t) ∷ put_write ws path text

-- _stage
unfoldable pub stage : FilePath → String → String → Planner (Unit {0})
unfolding put_write
stage path text current ws = done (tt, if text == current then ws else put_write ws path text)
