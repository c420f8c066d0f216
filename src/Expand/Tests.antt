-- ===== src/Expand/Tests.antt =====
-- The toggles on a small config: bluetooth and a tunnel are switched on, and a source is declared.
use dasik.Base.{
  String, ◌≡◌, refl, bool, true, [], ◌∷◌, Dict, Json, str, arr, obj, items_of, fields_of, IsJson,
  has_field,
}
use dasik.Effects.{ok, raise, exception}
use dasik.Expand.Fragment.{Fragment}
use dasik.Expand.Merging.{contributions, expand_config, subtract_contributions}
use dasik.Expand.Merging.Values.{IsConfig}
use dasik.Expand.Merging.Laws.{IsJsonFragment, SameBase, subtract_contributions-expand_config}
use dasik.Expand.Toggles.Wireguard.{resolve_backend}

abbrev shown : Json → String
shown v = ""

abbrev config : Dict Json
config =
    ("bluetooth", obj (fields_of (("enable", bool true) ∷ [])))
    ∷ ("packages", arr (items_of (str "bluez" ∷ str "vim" ∷ [])))
    ∷ (
      "wireguard",
      arr (
          items_of
            (obj (fields_of (("name", str "home") ∷ ("content", str "[Interface]") ∷ [])) ∷ [])),
    )
    ∷ []

abbrev contributed : Fragment
contributed = record {
  packages = str "bluez" ∷ str "bluez-utils" ∷ str "wireguard-tools" ∷ [];
  units = str "bluetooth.service" ∷ str "wg-quick@home.service" ∷ [];
  sockets = [];
  modprobe_conf = [];
  files =
      obj (
        fields_of (
          ("path", str "/etc/wireguard/home.conf")
          ∷ ("content", str "[Interface]")
          ∷ ("mode", str "0600")
          ∷ []))
      ∷ [];
  home_files = [];
  user_groups = [];
  package_sources = [];
}

contributions_of_config : contributions shown shown config ≡ ok contributed
unfolding contributions
contributions_of_config = refl

contributed-IsJsonFragment : IsJsonFragment contributed
unfolding IsJson has_field fields_of
contributed-IsJsonFragment = record {
  packages_json = (tt, (tt, (tt, tt)));
  units_json = (tt, (tt, tt));
  sockets_json = tt;
  modprobe_json = tt;
  files_json = ((refl, tt, (refl, tt, (refl, tt, tt))), tt);
  home_files_json = tt;
}

config-IsConfig : IsConfig config
unfolding IsJson has_field fields_of items_of
config-IsConfig =
    (refl, (refl, tt, tt), (refl, (tt, (tt, tt)), (refl, ((refl, tt, (refl, tt, tt)), tt), tt)))

subtract_contributions-expand_config_example :
    (merged : Dict Json) × (final : Dict Json) × (expand_config shown shown config ≡ ok merged)
    × (subtract_contributions shown shown merged config ≡ ok final)
    × SameBase config final
subtract_contributions-expand_config_example =
    subtract_contributions-expand_config shown shown config contributed contributions_of_config
      contributed-IsJsonFragment config-IsConfig

-- A keyfile that is declared for wg-quick is refused, and a wg-quick file for NetworkManager is not.
keyfile_refused :
    resolve_backend "[connection] type=wireguard" "wg-quick"
    ≡ raise (exception "dasik does not convert that direction")
unfolding resolve_backend
keyfile_refused = refl

abbrev conf : String
conf = "[Interface]"

abbrev nm : String
nm = "networkmanager"
