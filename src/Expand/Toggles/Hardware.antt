-- ===== src/Expand/Toggles/Hardware.antt =====
-- dasik/lib/expand/toggles.py: the toggles for hardware and its drivers.
use dasik.Base.{
  String, Bool, ◌||◌, List, [], ◌∷◌, ◌++◌, if◌then◌else◌, Dict, get, get_or, Json, null, str, obj,
  fields_of, concat, json_eq, is_empty,
}
use dasik.Expand.Fragment.{
  Fragment, nothing, texts, section, items_at, is_on, is_on_by_default, says, merge_list, format,
  file_of,
}

unfoldable pub expand_bluetooth : Dict Json → Fragment
unfolding section is_on get
expand_bluetooth config =
    let cfg = section config "bluetooth" in
    if is_on cfg "enable"
    then record {
      packages = get_or cfg "package" (str "bluez") ∷ str "bluez-utils" ∷ [];
      units = texts ("bluetooth.service" ∷ []);
      sockets = [];
      modprobe_conf = [];
      files = [];
      home_files = [];
      user_groups = [];
      package_sources = [];
    }
    else nothing

unfoldable pub expand_cups : Dict Json → Fragment
unfolding section is_on
expand_cups config =
    if is_on (section config "cups") "install"
    then record {
      packages =
          texts ("cups" ∷ "cups-pdf" ∷ "system-config-printer" ∷ "sane" ∷ "sane-airscan" ∷ []);
      units = [];
      sockets = texts ("cups.socket" ∷ []);
      modprobe_conf = [];
      files = [];
      home_files = [];
      user_groups = [];
      package_sources = [];
    }
    else nothing

unfoldable pub expand_trim : Dict Json → Fragment
unfolding is_on
expand_trim config =
    if is_on config "enable_trim"
    then record {
      packages = [];
      units = texts ("fstrim.timer" ∷ []);
      sockets = [];
      modprobe_conf = [];
      files = [];
      home_files = [];
      user_groups = [];
      package_sources = [];
    }
    else nothing

-- _KVM_PKGS
abbrev pub kvm_packages : List String
kvm_packages =
    "qemu-full" ∷ "samba" ∷ "qemu-user-static" ∷ "edk2-ovmf" ∷ "swtpm" ∷ "virt-firmware" ∷ "libvirt"
    ∷ "virt-manager" ∷ "dnsmasq" ∷ "openbsd-netcat" ∷ "dmidecode" ∷ []

-- {"name": …, "content": …} of the one modprobe file
abbrev pub nested_virtualisation : Json
nested_virtualisation = obj (
    fields_of (
      ("name", str "dasik-nested-virt.conf")
      ∷ ("content", str "options kvm_intel nested=1\noptions kvm_amd nested=1\n")
      ∷ []))

unfoldable pub expand_kvm : Dict Json → Fragment
unfolding section is_on
expand_kvm config =
    if is_on (section config "kvm") "install"
    then record {
      packages = texts kvm_packages;
      units = texts ("libvirtd.service" ∷ "virtlogd.service" ∷ []);
      sockets = [];
      modprobe_conf = nested_virtualisation ∷ [];
      files = [];
      home_files = [];
      user_groups = texts ("libvirt" ∷ []);
      package_sources = [];
    }
    else nothing

-- _HWACCEL_DRIVER_PKGS.get(driver, [])
unfoldable pub hwaccel_packages : Json → List Json
unfolding json_eq
hwaccel_packages driver =
    if json_eq driver (str "nvidia")
    then texts ("libva-nvidia-driver" ∷ "nvtop" ∷ [])
    else if json_eq driver (str "intel")
    then texts ("intel-media-driver" ∷ "intel-gpu-tools" ∷ "libvdpau-va-gl" ∷ [])
    else if json_eq driver (str "amd")
    then texts ("mesa" ∷ [])
    else []

-- The loop over the drivers: each package once, in order.
unfoldable pub add_driver_packages : (Json → List Json) → List Json → List Json → List Json
unfolding merge_list
add_driver_packages packages_of packages [] = packages
add_driver_packages packages_of packages (driver ∷ drivers) =
    add_driver_packages packages_of (merge_list packages (packages_of driver)) drivers

unfoldable pub expand_hwaccel : Dict Json → Fragment
unfolding section is_on items_at hwaccel_packages add_driver_packages
expand_hwaccel config =
    if is_on (section config "hardware_acceleration") "enable"
    then record {
      packages =
          add_driver_packages hwaccel_packages (texts ("libva-utils" ∷ "vdpauinfo" ∷ []))
            (items_at config "drivers");
      units = [];
      sockets = [];
      modprobe_conf = [];
      files = [];
      home_files = [];
      user_groups = [];
      package_sources = [];
    }
    else nothing

-- _DRIVER_PKGS[driver]["base"], with ["lib32"] behind it under multilib; none for an unknown driver.
unfoldable pub driver_packages : Bool → Json → List Json
unfolding json_eq
driver_packages multilib driver =
    if json_eq driver (str "nvidia")
    then texts ("nvidia-open" ∷ "nvidia-utils" ∷ "nvidia-settings" ∷ [])
      ++ (if multilib then texts ("lib32-nvidia-utils" ∷ []) else [])
    else if json_eq driver (str "nvidia-open")
    then texts ("nvidia-open" ∷ "nvidia-utils" ∷ "nvidia-settings" ∷ [])
      ++ (if multilib then texts ("lib32-nvidia-utils" ∷ []) else [])
    else if json_eq driver (str "nouveau")
    then texts ("mesa" ∷ "vulkan-nouveau" ∷ [])
      ++ (if multilib then texts ("lib32-mesa" ∷ "lib32-vulkan-nouveau" ∷ []) else [])
    else if json_eq driver (str "intel")
    then texts ("mesa" ∷ "vulkan-intel" ∷ "intel-media-driver" ∷ [])
      ++ (if multilib then texts ("lib32-mesa" ∷ "lib32-vulkan-intel" ∷ []) else [])
    else if json_eq driver (str "amd")
    then texts ("mesa" ∷ "vulkan-radeon" ∷ [])
      ++ (if multilib then texts ("lib32-mesa" ∷ "lib32-vulkan-radeon" ∷ []) else [])
    else []

unfoldable pub expand_drivers : Dict Json → Fragment
unfolding section is_on items_at driver_packages add_driver_packages
expand_drivers config =
    let multilib = is_on (section config "pacman") "multilib" in
    record {
      packages = add_driver_packages (driver_packages multilib) [] (items_at config "drivers");
      units = [];
      sockets = [];
      modprobe_conf = [];
      files = [];
      home_files = [];
      user_groups = [];
      package_sources = [];
    }

unfoldable pub expand_initramfs : Dict Json → Fragment
unfolding says
expand_initramfs config =
    if says config "initramfs" (str "mkinitcpio") "dracut"
    then record {
      packages = texts ("dracut" ∷ []);
      units = [];
      sockets = [];
      modprobe_conf = [];
      files = [];
      home_files = [];
      user_groups = [];
      package_sources = [];
    }
    else nothing

unfoldable pub expand_zram : Dict Json → Fragment
unfolding is_on
expand_zram config =
    if is_on config "zram"
    then record {
      packages = texts ("zram-generator" ∷ []);
      units = [];
      sockets = [];
      modprobe_conf = [];
      files = [];
      home_files = [];
      user_groups = [];
      package_sources = [];
    }
    else nothing

unfoldable pub expand_sdboot_update : Dict Json → Fragment
unfolding says
expand_sdboot_update config =
    if says config "bootloader" null "sd-boot" || says config "bootloader" null "systemd-boot"
    then record {
      packages = [];
      units = texts ("systemd-boot-update.service" ∷ []);
      sockets = [];
      modprobe_conf = [];
      files = [];
      home_files = [];
      user_groups = [];
      package_sources = [];
    }
    else nothing

unfoldable pub expand_cpu : (Json → String) → Dict Json → Fragment
unfolding section is_on is_on_by_default get format file_of concat
expand_cpu repr config =
    let cfg = section config "cpu" in
    let profiles = is_on_by_default cfg "power_profiles_daemon" in
    let governed = is_on cfg "governor" in
    if is_empty cfg then nothing else record {
      packages =
          (if profiles then texts ("power-profiles-daemon" ∷ []) else [])
          ++ (if governed then texts ("cpupower" ∷ []) else []);
      units =
          (if profiles then texts ("power-profiles-daemon.service" ∷ []) else [])
          ++ (if governed then texts ("cpupower.service" ∷ []) else []);
      sockets = [];
      modprobe_conf = [];
      files =
          if governed
          then file_of "/etc/default/cpupower" (
              concat (
                "# Managed by dasik\ngovernor=\""
                ∷ format repr (get_or cfg "governor" null)
                ∷ "\"\n"
                ∷ []))
            ∷ []
          else [];
      home_files = [];
      user_groups = [];
      package_sources = [];
    }
