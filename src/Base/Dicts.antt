-- ===== src/Base/Dicts.antt =====
-- Python's `dict` with text keys: an association list in insertion order.
use Prim.Native.String.{String}
use mathlib.Core.Path.{◌≡◌, refl}
use mathlib.Core.Bool.{false, ◌||◌}
use mathlib.Core.Option.{Option, none, some}
use mathlib.Core.List.{List, [], ◌∷◌, ◌++◌, map}
use native.Mathlib.Omega.{arith}
use text.Mathlib.Text.{◌==◌}
use text.Mathlib.TextEquality.{eq_iff}
use package.dasik.Base.Tests.{if◌then◌else◌}
use package.dasik.Base.Lists.{mem}

abbrev pub Dict {ℓ} : Type ℓ → Type ℓ
Dict V = List (String × V)

module _ {ℓ} {V : Type ℓ} where
  -- d.get(k)
  unfoldable pub get : Dict V → String → Option V
  get [] k = none
  get ((j, v) ∷ d) k = if j == k then some v else get d k

  -- d[k] = v: an old key keeps its position, a new one goes to the end.
  unfoldable pub put : Dict V → String → V → Dict V
  put [] k v = (k, v) ∷ []
  put ((j, w) ∷ d) k v = if j == k then (j, v) ∷ d else (j, w) ∷ put d k v

  -- d.update(e), e's items in order
  unfoldable pub update : Dict V → Dict V → Dict V
  update d [] = d
  update d ((k, v) ∷ e) = update (put d k v) e

  abbrev pub keys : Dict V → List String
  keys = map (λ (e : String × V). e.0)

  abbrev pub get_or : Dict V → String → V → V
  get_or d k v = elim (get d k) [ none ↦ v | some w ↦ w ]

  pub get-put :
      (d : Dict V) (k : String) (v : V) (j : String)
      → get (put d k v) j ≡ (if k == j then some v else get d j)
  unfolding get put
  get-put [] k v j = refl
  get-put ((i, w) ∷ d) k v j = ground (arith, get-put d k v j, eq_iff i k, eq_iff i j, eq_iff k j)

  -- The value that the last entry for a key gives.
  last : Dict V → String → Option V
  last [] j = none
  last ((k, v) ∷ e) j = elim (last e j) [ none ↦ if k == j then some v else none | some w ↦ some w ]

  abbrev pub or_else : Option V → Option V → Option V
  or_else none o = o
  or_else (some v) o = some v

  get-update-last : (d e : Dict V) (j : String) → get (update d e) j ≡ or_else (last e j) (get d j)
  unfolding update last
  get-update-last d [] j = refl
  get-update-last d ((k, v) ∷ e) j =
      ground (arith, get-update-last (put d k v) e j, get-put d k v j)

  -- No key twice, as in every dict.
  abbrev pub IsDict : Dict V → Type 0
  IsDict [] = Unit
  IsDict ((k, v) ∷ e) = (mem k (keys e) ≡ false) × IsDict e

  last-absent : (e : Dict V) (j : String) → mem j (keys e) ≡ false → last e j ≡ none
  unfolding last mem
  last-absent [] j h = refl
  last-absent ((k, v) ∷ e) j h = ground (arith, last-absent e j)

  pub get-absent : (e : Dict V) (j : String) → mem j (keys e) ≡ false → get e j ≡ none
  unfolding get mem
  get-absent [] j h = refl
  get-absent ((k, v) ∷ e) j h = ground (arith, get-absent e j)

  last-eq-get : (e : Dict V) (j : String) → IsDict e → last e j ≡ get e j
  unfolding last get
  last-eq-get [] j h = refl
  last-eq-get ((k, v) ∷ e) j h =
      ground (arith, last-eq-get e j h.1, eq_iff k j, last-absent e k h.0)

  -- An update takes the new value where it has one, and the old one elsewhere.
  pub get-update :
      (d e : Dict V) (j : String) → IsDict e → get (update d e) j ≡ or_else (get e j) (get d j)
  get-update d e j h = rw (get-update-last, last-eq-get e j h)

  pub mem-keys-put :
      (d : Dict V) (k : String) (v : V) (j : String)
      → mem j (keys (put d k v)) ≡ (mem j (keys d) || k == j)
  unfolding put mem
  mem-keys-put [] k v j = ground arith
  mem-keys-put ((i, w) ∷ d) k v j = ground (arith, mem-keys-put d k v j, eq_iff i k, eq_iff i j)

  pub put-IsDict : (d : Dict V) (k : String) (v : V) → IsDict d → IsDict (put d k v)
  unfolding put mem
  put-IsDict [] k v h = (refl, tt)
  put-IsDict ((i, w) ∷ d) k v h =
      ground (arith, mem-keys-put d k v i, put-IsDict d k v h.1, eq_iff i k, eq_iff k i)

  pub update-IsDict : (d e : Dict V) → IsDict d → IsDict (update d e)
  unfolding update
  update-IsDict d [] h = h
  update-IsDict d ((k, v) ∷ e) h = update-IsDict (put d k v) e (put-IsDict d k v h)

  -- The old keys stay where they are: the keys of the update begin with them.
  pub keys-put :
      (d : Dict V) (k : String) (v : V)
      → keys (put d k v) ≡ (if mem k (keys d) then keys d else keys d ++ k ∷ [])
  unfolding put mem
  keys-put [] k v = refl
  keys-put ((i, w) ∷ d) k v = ground (arith, keys-put d k v, eq_iff i k)
