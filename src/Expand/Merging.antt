-- ===== src/Expand/Merging.antt =====
-- dasik/lib/expand/__init__.py: the contributions of all toggles, the config with them merged in, and a
-- captured config without them. `repr` is that of a list or a dict in an f-string, `dumps` is
-- json.dumps. `deepcopy` is the value itself.
use dasik.Base.{
  String, Bool, true, false, not, ◌&&◌, ◌||◌, Option, none, some, List, [], ◌∷◌, ◌++◌, map,
  if◌then◌else◌, is_empty, select, Dict, get, get_or, put, update, keys, mem, Json, null, obj, arr,
  items_of, fields_of,
}
use dasik.Effects.{Result, ok, raise}
use dasik.Expand.Fragment.{
  Fragment, nothing, merge_list, json_in, as_dict, as_list, items_at, section,
}
use dasik.Expand.Toggles.Hardware.{
  expand_bluetooth, expand_cups, expand_trim, expand_kvm, expand_hwaccel, expand_drivers,
  expand_initramfs, expand_zram, expand_sdboot_update, expand_cpu,
}
use dasik.Expand.Toggles.Services.{
  expand_snapper, expand_firewall, expand_oomd, expand_tailscale, expand_reflector, expand_plymouth,
  expand_network,
}
use dasik.Expand.Toggles.Security.{expand_apparmor, expand_pam}
use dasik.Expand.Toggles.Content.{expand_config_saver, expand_containers}
use dasik.Expand.Toggles.Wireguard.{expand_wireguard}
pub mod Lists
pub mod Reads
pub mod Values
pub mod Sections
pub mod Keys
pub mod Laws

-- out.setdefault(name, source), for each entry
unfoldable pub set_defaults : Dict Json → Dict Json → Dict Json
unfolding get put
set_defaults out [] = out
set_defaults out ((name, source) ∷ sources) =
    set_defaults (elim (get out name) [ none ↦ put out name source | some v ↦ out ]) sources

-- The loop of contributions, for one toggle.
unfoldable pub add_fragment : Fragment → Fragment → Fragment
unfolding merge_list set_defaults
add_fragment out frag = record {
  packages = merge_list out.packages frag.packages;
  units = merge_list out.units frag.units;
  sockets = merge_list out.sockets frag.sockets;
  modprobe_conf = merge_list out.modprobe_conf frag.modprobe_conf;
  files = merge_list out.files frag.files;
  home_files = merge_list out.home_files frag.home_files;
  user_groups = merge_list out.user_groups frag.user_groups;
  package_sources = set_defaults out.package_sources frag.package_sources;
}

unfoldable pub add_fragments : Fragment → List Fragment → Fragment
unfolding add_fragment
add_fragments out [] = out
add_fragments out (frag ∷ frags) = add_fragments (add_fragment out frag) frags

-- TOGGLES up to the tunnels, and behind them
unfoldable pub toggles_before : Dict Json → List Fragment
unfolding expand_bluetooth expand_cups expand_trim expand_kvm
toggles_before config =
    expand_bluetooth config ∷ expand_cups config ∷ expand_trim config ∷ expand_kvm config ∷ []

unfoldable pub toggles_after : (Json → String) → (Json → String) → Dict Json → List Fragment
unfolding expand_firewall expand_hwaccel expand_snapper expand_drivers expand_initramfs expand_zram
    expand_oomd expand_cpu expand_sdboot_update expand_reflector expand_plymouth expand_apparmor
    expand_pam expand_config_saver expand_containers expand_tailscale expand_network
toggles_after repr dumps config =
    expand_firewall config
    ∷ expand_hwaccel config
    ∷ expand_snapper config
    ∷ expand_drivers config
    ∷ expand_initramfs config
    ∷ expand_zram config
    ∷ expand_oomd config
    ∷ expand_cpu repr config
    ∷ expand_sdboot_update config
    ∷ expand_reflector repr config
    ∷ expand_plymouth repr config
    ∷ expand_apparmor repr config
    ∷ expand_pam config
    ∷ expand_config_saver repr dumps config
    ∷ expand_containers dumps config
    ∷ expand_tailscale repr config
    ∷ expand_network repr config
    ∷ []

-- contributions; only a tunnel can raise.
unfoldable pub contributions : (Json → String) → (Json → String) → Dict Json → Result Fragment
unfolding toggles_before toggles_after expand_wireguard add_fragments items_of
contributions repr dumps config = elim (expand_wireguard repr config) [
  | raise e ↦ raise e
  | ok tunnels ↦
      ok
        (add_fragments nothing (toggles_before config ++ tunnels ∷ toggles_after repr dumps config))
]

-- merged[key] = _merge_list(merged.get(key, []), extra), where extra is not empty
unfoldable pub merge_at : String → List Json → Dict Json → Dict Json
merge_at key [] config = config
merge_at key (x ∷ extra) config =
    put config key (arr (items_of (merge_list (items_at config key) (x ∷ extra))))

-- {**contributed, **declared}: the declared entries win.
unfoldable pub merge_sources : Dict Json → Dict Json → Dict Json
merge_sources [] config = config
merge_sources (s ∷ sources) config =
    put config "package_sources"
      (obj (fields_of (update (s ∷ sources) (section config "package_sources"))))

unfoldable pub merge_units : List Json → List Json → Dict Json → Dict Json
merge_units units sockets config =
    let sd = section config "systemd" in
    if is_empty units && is_empty sockets
    then config
    else put config "systemd" (
        obj (
          fields_of (
            put
              (put sd "enable_units"
                (arr (items_of (merge_list (items_at sd "enable_units") units))))
              "enable_sockets"
              (arr (items_of (merge_list (items_at sd "enable_sockets") sockets))))))

-- {**u, "groups": _merge_list(u.get("groups", []), groups)}
unfoldable pub add_groups : List Json → Json → Json
add_groups groups u =
    let user = as_dict u in
    obj
      (fields_of (put user "groups" (arr (items_of (merge_list (items_at user "groups") groups)))))

unfoldable pub merge_groups : List Json → Dict Json → Dict Json
merge_groups [] config = config
merge_groups (g ∷ groups) config =
    put config "users" (arr (items_of (map (add_groups (g ∷ groups)) (items_at config "users"))))

-- The merges of expand_config, in their order.
unfoldable pub merge_fragment : Fragment → Dict Json → Dict Json
merge_fragment c config = merge_groups c.user_groups (
    merge_at "home_files" c.home_files (
      merge_at "files" c.files (
        merge_at "modprobe_conf" c.modprobe_conf (
          merge_units c.units c.sockets
            (merge_sources c.package_sources (merge_at "packages" c.packages config))))))

unfoldable pub expand_config : (Json → String) → (Json → String) → Dict Json → Result (Dict Json)
expand_config repr dumps config = elim (contributions repr dumps config) [
  | raise e ↦ raise e
  | ok c ↦ ok (merge_fragment c config)
]

-- [x for x in items if x not in contributed or x in original]
unfoldable pub without : List Json → List Json → List Json → List Json
unfolding select json_in
without contributed original items =
    select (λ x. not (json_in x contributed) || json_in x original) items

-- The filter of result[key], where there is one
unfoldable pub drop_at : String → List Json → Dict Json → Dict Json → Dict Json
drop_at key contributed original config = elim (get config key) [
  | none ↦ config
  | some v ↦
      put config key (arr (items_of (without contributed (items_at original key) (as_list v))))
]

unfoldable pub drop_sources : Dict Json → Dict Json → Dict Json → Dict Json
unfolding select
drop_sources contributed original config = elim (get config "package_sources") [
  | none ↦ config
  | some v ↦ put config "package_sources" (
      obj (
        fields_of (
          select
            (λ (e : String × Json).
              not (mem e.0 (keys contributed))
              || mem e.0 (keys (section original "package_sources")))
            (as_dict v))))
]

unfoldable pub drop_units : List Json → List Json → Dict Json → Dict Json → Dict Json
drop_units units sockets original config = elim (get config "systemd") [
  | some (obj fs) ↦ put config "systemd" (
      obj (
        fields_of (
          drop_at "enable_sockets" sockets (section original "systemd")
            (drop_at "enable_units" units (section original "systemd") (as_dict (obj fs))))))
  | _ ↦ config
]

-- orig_groups.get(username, set()): the last user of that name counts.
unfoldable pub groups_of : Json → List Json → List Json
groups_of name [] = []
groups_of name (u ∷ users) =
    let rest = groups_of name users in
    if has_user name users
    then rest
    else if json_in name (get_or (as_dict u) "username" null ∷ [])
    then items_at (as_dict u) "groups"
    else []
  where
    has_user : Json → List Json → Bool
    has_user name [] = false
    has_user name (u ∷ users) =
        json_in name (get_or (as_dict u) "username" null ∷ []) || has_user name users

unfoldable pub drop_groups_of : List Json → List Json → Json → Json
drop_groups_of groups users u =
    let user = as_dict u in
    obj (
      fields_of (
        put user "groups" (
          arr (
            items_of (
              without groups (groups_of (get_or user "username" null) users)
                (items_at user "groups"))))))

unfoldable pub drop_groups : List Json → Dict Json → Dict Json → Dict Json
drop_groups [] original config = config
drop_groups (g ∷ groups) original config = elim (get config "users") [
  | none ↦ config
  | some v ↦
      put config "users"
        (arr (items_of (map (drop_groups_of (g ∷ groups) (items_at original "users")) (as_list v))))
]

unfoldable pub drop_fragment : Fragment → Dict Json → Dict Json → Dict Json
drop_fragment c original config = drop_groups c.user_groups original (
    drop_sources c.package_sources original (
      drop_at "home_files" c.home_files original (
        drop_at "files" c.files original (
          drop_at "modprobe_conf" c.modprobe_conf original (
            drop_units c.units c.sockets original
              (drop_at "packages" c.packages original config))))))

unfoldable pub subtract_contributions :
    (Json → String) → (Json → String) → Dict Json → Dict Json → Result (Dict Json)
subtract_contributions repr dumps new_config original = elim (contributions repr dumps original) [
  | raise e ↦ raise e
  | ok c ↦ ok (drop_fragment c original new_config)
]
