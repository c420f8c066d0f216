-- ===== src/Expand/Toggles/Services.antt =====
-- dasik/lib/expand/toggles.py: the toggles for daemons and the network. `repr` is that of a list or a
-- dict in an f-string.
use dasik.Base.{
  String, Bool, false, not, List, [], ◌∷◌, ◌++◌, if◌then◌else◌, Dict, get, get_or, Json, null, num,
  str, obj, truthy, concat, join, json_eq, is_empty, select,
}
use dasik.Commands.{starts_with}
use dasik.Expand.Fragment.{
  Fragment, nothing, texts, section, items_at, is_on, says, format, file_of, as_dict,
}

unfoldable pub expand_snapper : Dict Json → Fragment
unfolding section is_on
expand_snapper config =
    if is_on (section config "snapper") "enable"
    then record {
      packages = texts ("snapper" ∷ "snap-pac" ∷ []);
      units = texts ("snapper-timeline.timer" ∷ "snapper-cleanup.timer" ∷ []);
      sockets = [];
      modprobe_conf = [];
      files = [];
      home_files = [];
      user_groups = [];
      package_sources = [];
    }
    else nothing

unfoldable pub expand_firewall : Dict Json → Fragment
unfolding section is_on says
expand_firewall config =
    let cfg = section config "firewall" in
    if not (is_on cfg "enable")
    then nothing
    else if says cfg "backend" (str "firewalld") "ufw"
    then record {
      packages = texts ("ufw" ∷ []);
      units = texts ("ufw.service" ∷ []);
      sockets = [];
      modprobe_conf = [];
      files = [];
      home_files = [];
      user_groups = [];
      package_sources = [];
    }
    else record {
      packages = texts ("firewalld" ∷ []);
      units = texts ("firewalld.service" ∷ []);
      sockets = [];
      modprobe_conf = [];
      files = [];
      home_files = [];
      user_groups = [];
      package_sources = [];
    }

unfoldable pub expand_oomd : Dict Json → Fragment
unfolding is_on
expand_oomd config =
    if is_on config "oomd"
    then record {
      packages = [];
      units = texts ("systemd-oomd.service" ∷ []);
      sockets = [];
      modprobe_conf = [];
      files = [];
      home_files = [];
      user_groups = [];
      package_sources = [];
    }
    else nothing

-- The conffile that the tailscale daemon's unit is pointed at.
unfoldable pub expand_tailscale : (Json → String) → Dict Json → Fragment
unfolding section is_on get format file_of concat
expand_tailscale repr config =
    let block = section config "tailscale" in
    let port = if is_on block "port" then get_or block "port" null else num 41641 in
    if is_empty block then nothing else record {
      packages = texts ("tailscale" ∷ []);
      units = texts ("tailscaled.service" ∷ []);
      sockets = [];
      modprobe_conf = [];
      files =
          file_of "/etc/default/tailscaled" (
            concat (
              "# Managed by dasik: the EnvironmentFile the vendor unit reads.\n# A tailscaled.service.d drop-in setting FLAGS does NOT reach the\n# daemon — measured; this file wins. pacman lists it as a backup\n# file, so an upgrade leaves it alone and writes a .pacnew.\nPORT=\""
              ∷ format repr port
              ∷ "\"\nFLAGS=\"--config=/etc/tailscale/tailscaled.conf\"\n"
              ∷ []))
          ∷ [];
      home_files = [];
      user_groups = [];
      package_sources = [];
    }

-- [f"{flag} {c}" for c in items]
unfoldable pub flag_lines : (Json → String) → String → List Json → List String
unfolding format concat
flag_lines repr flag [] = []
flag_lines repr flag (c ∷ items) =
    concat (flag ∷ " " ∷ format repr c ∷ []) ∷ flag_lines repr flag items

unfoldable pub reflector_lines : (Json → String) → Dict Json → List String
unfolding items_at flag_lines get format concat truthy
reflector_lines repr cfg =
    let protocols = items_at cfg "protocols" in
    let latest = get_or cfg "latest" (num 20) in
    ("# Managed by dasik" ∷ flag_lines repr "--country" (items_at cfg "countries"))
    ++ (flag_lines repr "--protocol" (if is_empty protocols then str "https" ∷ [] else protocols)
        ++ ((if truthy latest then concat ("--latest " ∷ format repr latest ∷ []) ∷ [] else [])
            ++ (concat ("--sort " ∷ format repr (get_or cfg "sort" (str "rate")) ∷ [])
                ∷ concat (
                    "--save "
                    ∷ format repr (get_or cfg "save" (str "/etc/pacman.d/mirrorlist"))
                    ∷ [])
                ∷ [])))

unfoldable pub expand_reflector : (Json → String) → Dict Json → Fragment
unfolding section reflector_lines join concat file_of
expand_reflector repr config =
    let cfg = section config "reflector" in
    if is_empty cfg then nothing else record {
      packages = texts ("reflector" ∷ []);
      units = texts ("reflector.timer" ∷ []);
      sockets = [];
      modprobe_conf = [];
      files =
          file_of "/etc/xdg/reflector/reflector.conf"
            (concat (join "\n" (reflector_lines repr cfg) ∷ "\n" ∷ []))
          ∷ [];
      home_files = [];
      user_groups = [];
      package_sources = [];
    }

-- A declared section that is null counts as absent, an empty one as declared.
unfoldable pub expand_plymouth : (Json → String) → Dict Json → Fragment
unfolding get section is_on json_eq format file_of concat
expand_plymouth repr config =
    let cfg = section config "plymouth" in
    if json_eq (get_or config "plymouth" null) null then nothing else record {
      packages = texts ("plymouth" ∷ []);
      units = [];
      sockets = [];
      modprobe_conf = [];
      files =
          if is_on cfg "theme"
          then file_of "/etc/plymouth/plymouthd.conf" (
              concat (
                "# Managed by dasik\n[Daemon]\nTheme="
                ∷ format repr (get_or cfg "theme" null)
                ∷ "\n"
                ∷ []))
            ∷ []
          else [];
      home_files = [];
      user_groups = [];
      package_sources = [];
    }

-- isinstance(f, dict) and str(f.get("path", "")).startswith("/etc/systemd/network/")
unfoldable pub is_network_file : (Json → String) → Json → Bool
unfolding get as_dict format starts_with
is_network_file repr (obj fs) =
    starts_with "/etc/systemd/network/" (format repr (get_or (as_dict (obj fs)) "path" (str "")))
is_network_file repr _ = false

unfoldable pub expand_network : (Json → String) → Dict Json → Fragment
unfolding section says items_at is_network_file select file_of
expand_network repr config =
    let net = section config "network" in
    if says net "type" null "NetworkManager"
    then record {
      packages = texts ("networkmanager" ∷ []);
      units = texts ("NetworkManager.service" ∷ []);
      sockets = [];
      modprobe_conf = [];
      files = [];
      home_files = [];
      user_groups = [];
      package_sources = [];
    }
    else if not (says net "type" null "systemd-networkd")
    then nothing
    else record {
      packages = [];
      units = texts ("systemd-networkd.service" ∷ "systemd-resolved.service" ∷ []);
      sockets = [];
      modprobe_conf = [];
      files =
          if is_empty (select (is_network_file repr) (items_at config "files"))
          then file_of "/etc/systemd/network/20-dasik-dhcp.network"
              "# Managed by dasik: DHCP on every wired interface.\n# Declare your own file under /etc/systemd/network to\n# replace this one entirely.\n[Match]\nName=en* eth*\n\n[Network]\nDHCP=yes\n"
            ∷ []
          else [];
      home_files = [];
      user_groups = [];
      package_sources = [];
    }
