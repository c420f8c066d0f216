-- ===== src/Expand/Toggles/Security.antt =====
-- dasik/lib/expand/toggles.py: the toggles for AppArmor and PAM.
use dasik.Base.{
  String, Bool, false, not, ◌&&◌, ◌||◌, [], ◌∷◌, ◌++◌, map, if◌then◌else◌, Dict, get, get_or, Json,
  null, str, obj, fields_of, concat, json_eq, select,
}
use dasik.Expand.Fragment.{
  Fragment, nothing, texts, section, items_at, is_on, is_on_by_default, says, format, file_of,
  as_dict,
}

-- {"path": f"/etc/apparmor.d/{p['name']}", "content": p["content"]}
unfoldable pub profile_file : (Json → String) → Json → Json
unfolding get as_dict format concat fields_of
profile_file repr p = obj (
    fields_of (
      (
        "path",
        str (concat ("/etc/apparmor.d/" ∷ format repr (get_or (as_dict p) "name" null) ∷ [])),
      )
      ∷ ("content", get_or (as_dict p) "content" null)
      ∷ []))

-- isinstance(u, dict) and u.get("username") and u["username"] != "root"
unfoldable pub is_desktop_user : Json → Bool
unfolding is_on as_dict says
is_desktop_user (obj fs) =
    is_on (as_dict (obj fs)) "username" && not (says (as_dict (obj fs)) "username" null "root")
is_desktop_user _ = false

unfoldable pub notify_file : Json → Json
unfolding get as_dict fields_of
notify_file u = obj (
    fields_of (
      ("user", get_or (as_dict u) "username" null)
      ∷ ("path", str ".config/autostart/apparmor-notify.desktop")
      ∷ (
        "content",
        str
            "[Desktop Entry]\n# Managed by dasik\nType=Application\nName=AppArmor Notify\nComment=Receive on-screen notifications of AppArmor denials\nTryExec=aa-notify\nExec=aa-notify -p -s 1 -w 60 -f /var/log/audit/audit.log\nStartupNotify=false\nNoDisplay=true\n",
      )
      ∷ []))

unfoldable pub expand_apparmor : (Json → String) → Dict Json → Fragment
unfolding get section is_on is_on_by_default items_at json_eq profile_file is_desktop_user
    notify_file select file_of
expand_apparmor repr config =
    let cfg = section config "apparmor" in
    let audit = is_on cfg "audit" in
    let notified = is_on cfg "desktop_notifications" in
    if json_eq (get_or config "apparmor" null) null || not (is_on_by_default cfg "enable")
    then nothing
    else record {
      packages =
          texts ("apparmor" ∷ [])
          ++ ((if audit then texts ("audit" ∷ []) else [])
              ++ (if notified then texts ("python-notify2" ∷ "python-psutil" ∷ "tk" ∷ []) else []));
      units =
          texts ("apparmor.service" ∷ []) ++ (if audit then texts ("auditd.service" ∷ []) else []);
      sockets = [];
      modprobe_conf = [];
      files =
          map (profile_file repr) (items_at cfg "extra_profiles")
          ++ (if audit
              then file_of "/etc/tmpfiles.d/audit.conf"
                  "# Managed by dasik: Arch's own tmpfiles entry resets\n# /var/log/audit to 700 on every upgrade, which locks the\n# log group back out of the denial log.\nz /var/log/audit 750 root adm - -\n"
                ∷ []
              else []);
      home_files =
          if notified
          then map notify_file (select is_desktop_user (items_at config "users"))
          else [];
      user_groups = if audit then texts ("adm" ∷ []) else [];
      package_sources = [];
    }

unfoldable pub expand_pam : Dict Json → Fragment
unfolding get section is_on_by_default json_eq file_of concat
expand_pam config =
    let pam = section config "pam" in
    let tally_dir =
      if is_on_by_default (section pam "faillock") "persistent"
      then "/var/lib/faillock"
      else "/run/faillock" in
    record {
      packages =
          if not (json_eq (get_or pam "pwquality" null) null)
            && is_on_by_default (section pam "pwquality") "enable"
          then texts ("libpwquality" ∷ [])
          else [];
      units = [];
      sockets = [];
      modprobe_conf = [];
      files =
          if json_eq (get_or pam "faillock" null) null
          then []
          else file_of "/etc/systemd/system/polkit-agent-helper@.service.d/10-dasik-faillock.conf" (
              concat (
                "# Managed by dasik: polkit's agent helper runs under\n# ProtectSystem=strict, which makes pam_faillock's tally\n# directory read-only — every KDE authentication dialog then\n# fails with \"System error\" no matter the password. Let the\n# helper write exactly the directory faillock.conf points at.\n[Service]\nReadWritePaths="
                ∷ tally_dir ∷ "\n" ∷ []))
            ∷ [];
      home_files = [];
      user_groups = [];
      package_sources = [];
    }
