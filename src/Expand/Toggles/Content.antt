-- ===== src/Expand/Toggles/Content.antt =====
-- dasik/lib/expand/toggles.py: the toggles for config-saver and containers. `dumps` is json.dumps with
-- two columns of indentation and sorted keys.
use dasik.Base.{
  String, [], ◌∷◌, ◌++◌, map, if◌then◌else◌, Dict, get, get_or, Json, null, str, obj, fields_of,
  concat, sorted_set, keys, update, json_eq,
}
use dasik.Expand.Fragment.{
  Fragment, nothing, texts, section, items_at, is_on, says, format, file_of,
}

-- The file of one configuration.
unfoldable pub saver_file : (Json → String) → Dict Json → String → Json
unfolding get file_of concat
saver_file dumps configs name =
    file_of (concat ("/etc/config-saver/configs/" ∷ name ∷ ".json" ∷ []))
      (concat (dumps (get_or configs name null) ∷ "\n" ∷ []))

unfoldable pub timer_unit : (Json → String) → Json → Json
unfolding format concat
timer_unit repr user = str (concat ("config-saver@" ∷ format repr user ∷ ".timer" ∷ []))

unfoldable pub expand_config_saver : (Json → String) → (Json → String) → Dict Json → Fragment
unfolding get section is_on items_at json_eq saver_file timer_unit sorted_set fields_of update
expand_config_saver repr dumps config =
    let cfg = section config "config_saver" in
    let configs = section cfg "configs" in
    if json_eq (get_or config "config_saver" null) null then nothing else record {
      packages = texts ("config-saver" ∷ []);
      units = map (timer_unit repr) (items_at cfg "timer_users");
      sockets = [];
      modprobe_conf = [];
      files = map (saver_file dumps configs) (sorted_set (keys configs));
      home_files = [];
      user_groups = [];
      package_sources =
          if is_on cfg "source"
          then (
            "config-saver",
            obj (fields_of (update (("type", str "pkgbuild-git") ∷ []) (section cfg "source"))),
          )
            ∷ []
          else [];
    }

unfoldable pub expand_podman : Dict Json → Fragment
unfolding is_on
expand_podman cfg = record {
  packages =
      texts ("podman" ∷ [])
      ++ ((if is_on cfg "compose" then texts ("podman-compose" ∷ []) else [])
          ++ (if is_on cfg "docker_compat" then texts ("podman-docker" ∷ []) else []));
  units = if is_on cfg "api_socket" then texts ("podman.socket" ∷ []) else [];
  sockets = [];
  modprobe_conf = [];
  files = [];
  home_files = [];
  user_groups = [];
  package_sources = [];
}

unfoldable pub expand_docker : (Json → String) → Dict Json → Fragment
unfolding is_on get file_of concat
expand_docker dumps cfg = record {
  packages =
      texts ("docker" ∷ []) ++ (if is_on cfg "compose" then texts ("docker-compose" ∷ []) else []);
  units =
      if is_on cfg "api_socket"
      then texts ("docker.socket" ∷ [])
      else texts ("docker.service" ∷ []);
  sockets = [];
  modprobe_conf = [];
  files =
      if is_on cfg "daemon_json"
      then file_of "/etc/docker/daemon.json"
          (concat (dumps (get_or cfg "daemon_json" null) ∷ "\n" ∷ []))
        ∷ []
      else [];
  home_files = [];
  user_groups = texts ("docker" ∷ []);
  package_sources = [];
}

unfoldable pub expand_containers : (Json → String) → Dict Json → Fragment
unfolding section says
expand_containers dumps config =
    let cfg = section config "containers" in
    if says cfg "runtime" null "podman"
    then expand_podman cfg
    else if says cfg "runtime" null "docker"
    then expand_docker dumps cfg
    else nothing
