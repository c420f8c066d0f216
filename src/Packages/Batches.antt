-- ===== src/Packages/Batches.antt =====
-- dasik/lib/actions/package_resolver.py: the names of one request, under the URI limit.
pub mod Laws
use Prim.Native.Char.{code}
use Prim.Native.String
use dasik.Base.{
  ℕ, String, Bool, true, false, not, ◌&&◌, ◌||◌, ◌+◌, List, [], ◌∷◌, ◌++◌, leb, ltb, if◌then◌else◌,
  mem_number, is_empty,
}

-- The number of bytes of a character in UTF-8
unfoldable pub utf8_length : ℕ → ℕ
utf8_length c = if ltb c 0x80 then 1 else if ltb c 0x800 then 2 else if ltb c 0x10000 then 3 else 4

-- A character that urllib.parse.quote leaves alone
unfoldable pub is_safe : ℕ → Bool
is_safe c =
    (leb b'a' c && leb c b'z')
    || ((leb b'A' c && leb c b'Z')
        || ((leb b'0' c && leb c b'9') || mem_number c (b'_' ∷ b'.' ∷ b'-' ∷ b'~' ∷ b'/' ∷ [])))

-- len(urllib.parse.quote(name)): any other byte is written with three characters.
unfoldable pub quoted_length : String → ℕ
unfolding utf8_length is_safe
quoted_length String.[] = 0
quoted_length (String.◌∷◌ c s) =
    (if is_safe (code c)
      then 1
      else utf8_length (code c) + (utf8_length (code c) + utf8_length (code c)))
    + quoted_length s

-- len("&arg[]=") + len(urllib.parse.quote(name))
unfoldable pub piece : String → ℕ
piece name = 7 + quoted_length name

abbrev pub max_query_chars : ℕ
max_query_chars = 3500

-- The loop of _batches: the batch that is open, and the length of its query.
unfoldable pub batch_each : List String → ℕ → List String → List (List String)
batch_each current length [] = if is_empty current then [] else current ∷ []
batch_each current length (name ∷ names) =
    let full = not (is_empty current) && ltb max_query_chars (length + piece name) in
    let rest =
      batch_each (if full then name ∷ [] else current ++ name ∷ [])
        (if full then piece name else length + piece name) names in
    if full then current ∷ rest else rest

-- _batches
unfoldable pub batches : List String → List (List String)
unfolding batch_each piece
batches names = batch_each [] 0 names
