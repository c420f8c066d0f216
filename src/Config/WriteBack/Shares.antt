-- ===== src/Config/WriteBack/Shares.antt =====
-- dasik/lib/json_parser/writeback.py: the captured entries of a $concat, dealt out to its members.
use dasik.Base.{
  ℕ, zero, suc, String, Bool, false, ◌||◌, Option, none, some, List, [], ◌∷◌, ◌++◌, if◌then◌else◌,
  Json, str, arr, obj, Items, nil, cons, Fields, end, field, list_of, json_eq,
}
use dasik.Config.Files.{Outcome, done, failed, ◌>>=◌, not_iterable}

-- for entry in member: a dict gives its keys, and a text its characters.
unfoldable pub characters : String → List Json
characters String.[] = []
characters (String.◌∷◌ c s) = str (String.◌∷◌ c "") ∷ characters s

unfoldable pub keys_in : Fields → List Json
keys_in end = []
keys_in (field k v fs) = str k ∷ keys_in fs

unfoldable pub entries : Json → Outcome (List Json)
unfolding characters keys_in list_of
entries (arr xs) = done (list_of xs)
entries (str s) = done (characters s)
entries (obj fs) = done (keys_in fs)
entries _ = failed not_iterable

-- [entry for member in resolved for entry in member]
unfoldable pub flatten : List Json → Outcome (List Json)
unfolding entries
flatten [] = done []
flatten (v ∷ vs) = entries v >>= λ xs. flatten vs >>= λ ys. done (xs ++ ys)

-- list(member) if isinstance(member, list) else []
unfoldable pub available_in : Json → List Json
unfolding list_of
available_in (arr xs) = list_of xs
available_in _ = []

unfoldable pub holds : Json → List Json → Bool
unfolding json_eq
holds entry [] = false
holds entry (x ∷ xs) = json_eq x entry || holds entry xs

-- available[i].remove(entry)
unfoldable pub remove_entry : Json → List Json → List Json
unfolding json_eq
remove_entry entry [] = []
remove_entry entry (x ∷ xs) = if json_eq x entry then xs else x ∷ remove_entry entry xs

-- The first member, from the current one on, that has the entry: how many further it is
unfoldable pub owner : Json → List (List Json) → Option ℕ
unfolding holds
owner entry [] = none
owner entry (xs ∷ rest) =
    let next = owner entry rest in
    if holds entry xs then some 0 else elim next [ none ↦ none | some n ↦ some (suc n) ]

-- The loop over the entries, by the members from the current one on: the share of the current one so
-- far, and what the members have available. The shares come out in the members' order.
unfoldable pub close_shares :
    ℕ → List Json → List (List Json) → List (List Json) × (List Json × List (List Json))
close_shares zero share availables = ([], (share, availables))
close_shares (suc n) share [] = ([], (share, []))
close_shares (suc n) share (xs ∷ rest) =
    let (closed, open_ones) = close_shares n [] rest in (share ∷ closed, open_ones)

take_entry : Json → List (List Json) → List (List Json)
unfolding remove_entry
take_entry entry [] = []
take_entry entry (xs ∷ rest) = remove_entry entry xs ∷ rest

-- The members behind the last one used get nothing.
unfoldable pub empty_shares : List (List Json) → List (List Json)
empty_shares [] = []
empty_shares (xs ∷ rest) = [] ∷ empty_shares rest

unfoldable pub shares_of : Items → List Json → List (List Json) → List (List Json)
unfolding owner close_shares take_entry empty_shares
shares_of nil share [] = []
shares_of nil share (xs ∷ rest) = share ∷ empty_shares rest
shares_of (cons entry items) share availables =
    let n : ℕ = elim (owner entry availables) [ none ↦ 0 | some k ↦ k ] in
    let (closed, (current, remaining)) = close_shares n share availables in
    closed ++ shares_of items (current ++ entry ∷ []) (take_entry entry remaining)
