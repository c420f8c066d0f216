-- ===== src/Packages/Batches/Laws.antt =====
-- The requests together ask for every name, and each keeps the limit.
use Prim.Native.Nat.{◌≤◌}
use dasik.Base.{ℕ, String, true, false, ◌+◌, ◌≡◌, ◌⊎◌, List, [], ◌∷◌, ◌++◌, is_empty, length}
use package.dasik.Packages.Batches.{piece, max_query_chars}

abbrev pub flatten : List (List String) → List String
flatten [] = []
flatten (batch ∷ rest) = batch ++ flatten rest

-- The length of the query that asks for the names.
unfoldable pub query_length : List String → ℕ
query_length [] = 0
query_length (name ∷ names) = piece name + query_length names

-- A batch is not empty, and it keeps the limit or has a single name.
abbrev pub IsBatch : List String → Type 0
IsBatch batch =
    (is_empty batch ≡ false) × ((query_length batch ≤ max_query_chars) ⊎ (length batch ≡ 1))

-- What holds of the open batch.
abbrev IsOpen : List String → Type 0
IsOpen current =
    (is_empty current ≡ true) ⊎ ((query_length current ≤ max_query_chars) ⊎ (length current ≡ 1))
