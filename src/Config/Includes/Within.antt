-- ===== src/Config/Includes/Within.antt =====
-- dasik/lib/json_parser/includes.py: a config reads only what is at or below its own directory.
use dasik.Base.{String, ◌≡◌, ◌≢◌, List, [], ◌∷◌, ◌++◌}
use dasik.Config.Files.{FilePath, Files, contents}

-- A path that names a file has nothing below it, and so no directory is a file.
abbrev pub IsTree : Files → Type 0
IsTree files =
    (d : FilePath) (name text inner : String)
    → files.read_text (d ++ name ∷ []) ≡ contents inner
    → files.read_text d ≢ contents text

abbrev pub IsNoFile : Files → FilePath → Type 0
IsNoFile files d = (text : String) → files.read_text d ≢ contents text

-- The two have the same files at and below a directory.
abbrev pub AgreeBelow : FilePath → Files → Files → Type 0
AgreeBelow base f g =
    (q : FilePath)
    → (f.read_text (base ++ q) ≡ g.read_text (base ++ q))
      × (f.real_path (base ++ q) ≡ g.real_path (base ++ q))
