-- ===== src/State/ConfigWriter/Tests.antt =====
-- A configuration with a fragment merged in.
use dasik.Base.{
  ℕ, ◌≡◌, refl, not, [], ◌∷◌, ◌++◌, mem, select, Dict, get, put, update, keys, or_else, IsDict,
}
use dasik.State.ConfigWriter.{merge}
use dasik.State.ConfigWriter.Laws.{merge_lem}

abbrev existing : Dict ℕ
existing = ("metadata", 1) ∷ ("packages", 2) ∷ ("unknown", 3) ∷ []

abbrev fragments : Dict ℕ
fragments = ("users", 5) ∷ ("packages", 4) ∷ []

merge_sample :
    merge existing fragments
    ≡ ("metadata", 1) ∷ ("packages", 4) ∷ ("unknown", 3) ∷ ("users", 5) ∷ []
unfolding merge update put
merge_sample = refl

merge_lem_example :
    IsDict (merge existing fragments)
    × (get (merge existing fragments) "packages"
        ≡ or_else (get fragments "packages") (get existing "packages"))
    × (keys (merge existing fragments)
        ≡ keys existing ++ select (λ j. not (mem j (keys existing))) (keys fragments))
unfolding mem
merge_lem_example =
    merge_lem existing fragments "packages" (refl, (refl, (refl, tt))) (refl, (refl, tt))
