-- ===== src/Expand/Toggles/Wireguard.antt =====
-- dasik/lib/expand/toggles.py and actions/wireguard_nm.py: which tool serves a tunnel, and its files.
use Prim.Native.Char.{code}
use Prim.Native.String
use dasik.Base.{
  String, Bool, true, false, not, ◌&&◌, ◌||◌, Option, none, some, List, [], ◌∷◌, ◌++◌, map,
  if◌then◌else◌, Dict, get, get_or, Json, null, bool, num, str, obj, arr, fields_of, truthy, concat,
  nat_eq, ◌==◌, json_eq, is_empty, select,
}
use dasik.Expand.Fragment.{
  Fragment, nothing, texts, section, items_at, is_on, is_on_by_default, says, json_in, merge_list,
  format, file_of, as_dict, as_list,
}
use dasik.Effects.{Result, ok, raise, exception}
use dasik.Commands.{is_in}
pub mod Laws

-- content.replace(" ", "")
unfoldable pub without_spaces : String → String
without_spaces String.[] = ""
without_spaces (String.◌∷◌ c s) =
    let rest = without_spaces s in if nat_eq (code c) b' ' then rest else String.◌∷◌ c rest

-- Which of the two formats the file has.
unfoldable pub found_backend : String → String
unfolding without_spaces is_in
found_backend content =
    let flat = without_spaces content in
    if is_in "[connection]" flat && is_in "type=wireguard" flat
    then "networkmanager"
    else if is_in "[Interface]" content
    then "wg-quick"
    else ""

-- resolve_backend, the messages up to their explanations
unfoldable pub resolve_backend : String → String → Result String
unfolding found_backend
resolve_backend content declared =
    let found = found_backend content in
    if found == ""
    then raise (exception "the source file is in neither format")
    else if declared == "networkmanager" && found == "wg-quick"
    then ok "networkmanager"
    else if not (declared == "auto" || declared == found)
    then raise (exception "dasik does not convert that direction")
    else ok found

-- wants_nm_conversion
unfoldable pub wants_conversion : String → String → Bool
unfolding without_spaces is_in
wants_conversion content declared =
    declared == "networkmanager"
    && (is_in "[Interface]" content && not (is_in "[connection]" (without_spaces content)))

-- {"path": path, "content": content, "mode": "0600"}
unfoldable pub secret_file : String → String → Json
unfolding fields_of
secret_file path content =
    obj (fields_of (("path", str path) ∷ ("content", str content) ∷ ("mode", str "0600") ∷ []))

-- The three lists of the loop, in its order.
unfoldable pub add_tunnel : Fragment → String → String → String → Bool → String → Fragment
unfolding wants_conversion secret_file concat
add_tunnel out name content declared enabled backend =
    let placed = backend == "networkmanager" in
    record {
      packages = out.packages ++ str (if placed then "networkmanager" else "wireguard-tools") ∷ [];
      units =
          if not placed && enabled
          then out.units ++ str (concat ("wg-quick@" ∷ name ∷ ".service" ∷ [])) ∷ []
          else out.units;
      sockets = [];
      modprobe_conf = [];
      files =
          if placed && wants_conversion content declared
          then out.files
          else if placed
          then out.files
            ++ secret_file
                (concat ("/etc/NetworkManager/system-connections/" ∷ name ∷ ".nmconnection" ∷ []))
                content
              ∷ []
          else out.files
            ++ secret_file (concat ("/etc/wireguard/" ∷ name ∷ ".conf" ∷ [])) content ∷ [];
      home_files = [];
      user_groups = [];
      package_sources = [];
    }

-- The content of a tunnel, unless there is none; a value that is no text has no `replace`.
pub data Content : Type 0 where
  absent malformed : Content
  present : String → Content

unfoldable pub content_of : Json → Content
unfolding truthy
content_of (str s) = if s == "" then absent else present s
content_of v = if truthy v then malformed else absent

-- The declared backend as a text; any other value equals none of the names.
unfoldable pub text_or_empty : Json → String
text_or_empty (str s) = s
text_or_empty _ = ""

unfoldable pub place_tunnel : (Json → String) → Fragment → Dict Json → Content → Result Fragment
unfolding get is_on_by_default format text_or_empty resolve_backend add_tunnel
place_tunnel repr out tunnel absent = ok out
place_tunnel repr out tunnel malformed = raise (exception "content has no attribute replace")
place_tunnel repr out tunnel (present content) =
    let declared = text_or_empty (get_or tunnel "backend" (str "auto")) in
    elim (resolve_backend content declared) [
      | raise e ↦ raise e
      | ok backend ↦ ok (
          add_tunnel out (format repr (get_or tunnel "name" (str ""))) content declared
            (is_on_by_default tunnel "enable") backend)
    ]

unfoldable pub place_tunnels : (Json → String) → Fragment → List Json → Result Fragment
unfolding get content_of as_dict place_tunnel
place_tunnels repr out [] = ok out
place_tunnels repr out (obj fs ∷ tunnels) =
    elim (place_tunnel repr out (as_dict (obj fs))
      (content_of (get_or (as_dict (obj fs)) "content" null))) [
        | raise e ↦ raise e
        | ok next ↦ place_tunnels repr next tunnels
      ]
place_tunnels repr out (tunnel ∷ tunnels) = place_tunnels repr out tunnels

unfoldable pub expand_wireguard : (Json → String) → Dict Json → Result Fragment
unfolding items_at place_tunnels
expand_wireguard repr config = place_tunnels repr nothing (items_at config "wireguard")
