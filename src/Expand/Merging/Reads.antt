-- ===== src/Expand/Merging/Reads.antt =====
-- dasik/lib/expand/__init__.py: what expand_config merges under each key of the config, and what
-- subtract_contributions leaves there.
use dasik.Base.{String, ◌≡◌, refl, ap, ◌∙◌, Dict, get, IsDict, or_else, none, if◌then◌else◌, Json}
use dasik.Expand.Fragment.{Fragment, items_at, section, merge_list}
use dasik.Expand.Merging.{
  merge_fragment, drop_fragment, merge_at, drop_at, drop_sources, drop_units, without,
}
use dasik.Expand.Merging.Keys.{
  items_at-cong, section-cong, items_at-merge_at, items_at-drop_at, merge_at_other, drop_at_other,
  merge_sources_other, drop_sources_other, merge_units_other, drop_units_other, merge_groups_other,
  drop_groups_other,
}
use dasik.Expand.Merging.Sections.{
  merge_units_lem, drop_units_lem, get-merge_sources, get-drop_sources, stays, MergedUnits,
  Filtered,
}

module _ (c : Fragment) (d : Dict Json) where
  pub merged_packages :
      items_at (merge_fragment c d) "packages" ≡ merge_list (items_at d "packages") c.packages
  unfolding merge_fragment
  merged_packages =
      items_at-cong _ _ "packages" (
        merge_groups_other "packages" c.user_groups _ refl
        ∙ merge_at_other "packages" "home_files" c.home_files _ refl
        ∙ merge_at_other "packages" "files" c.files _ refl
        ∙ merge_at_other "packages" "modprobe_conf" c.modprobe_conf _ refl
        ∙ merge_units_other "packages" c.units c.sockets _ refl
        ∙ merge_sources_other "packages" c.package_sources _ refl)
      ∙ items_at-merge_at "packages" c.packages _

  pub merged_modprobe_conf :
      items_at (merge_fragment c d) "modprobe_conf"
      ≡ merge_list (items_at d "modprobe_conf") c.modprobe_conf
  unfolding merge_fragment
  merged_modprobe_conf =
      items_at-cong _ _ "modprobe_conf" (
        merge_groups_other "modprobe_conf" c.user_groups _ refl
        ∙ merge_at_other "modprobe_conf" "home_files" c.home_files _ refl
        ∙ merge_at_other "modprobe_conf" "files" c.files _ refl)
      ∙ items_at-merge_at "modprobe_conf" c.modprobe_conf _
      ∙ ap (λ xs. merge_list xs c.modprobe_conf)
          (items_at-cong _ d "modprobe_conf" (
            merge_units_other "modprobe_conf" c.units c.sockets _ refl
            ∙ merge_sources_other "modprobe_conf" c.package_sources _ refl
            ∙ merge_at_other "modprobe_conf" "packages" c.packages _ refl))

  pub merged_files : items_at (merge_fragment c d) "files" ≡ merge_list (items_at d "files") c.files
  unfolding merge_fragment
  merged_files =
      items_at-cong _ _ "files" (
        merge_groups_other "files" c.user_groups _ refl
        ∙ merge_at_other "files" "home_files" c.home_files _ refl)
      ∙ items_at-merge_at "files" c.files _
      ∙ ap (λ xs. merge_list xs c.files)
          (items_at-cong _ d "files" (
            merge_at_other "files" "modprobe_conf" c.modprobe_conf _ refl
            ∙ merge_units_other "files" c.units c.sockets _ refl
            ∙ merge_sources_other "files" c.package_sources _ refl
            ∙ merge_at_other "files" "packages" c.packages _ refl))

  pub merged_home_files :
      items_at (merge_fragment c d) "home_files" ≡ merge_list (items_at d "home_files") c.home_files
  unfolding merge_fragment
  merged_home_files =
      items_at-cong _ _ "home_files" (merge_groups_other "home_files" c.user_groups _ refl)
      ∙ items_at-merge_at "home_files" c.home_files _
      ∙ ap (λ xs. merge_list xs c.home_files)
          (items_at-cong _ d "home_files" (
            merge_at_other "home_files" "files" c.files _ refl
            ∙ merge_at_other "home_files" "modprobe_conf" c.modprobe_conf _ refl
            ∙ merge_units_other "home_files" c.units c.sockets _ refl
            ∙ merge_sources_other "home_files" c.package_sources _ refl
            ∙ merge_at_other "home_files" "packages" c.packages _ refl))

  pub merged_systemd :
      MergedUnits c.units c.sockets (section d "systemd") (section (merge_fragment c d) "systemd")
  unfolding merge_fragment
  merged_systemd =
      rw
        (
          section-cong (merge_fragment c d) _ "systemd" (
              merge_groups_other "systemd" c.user_groups _ refl
              ∙ merge_at_other "systemd" "home_files" c.home_files _ refl
              ∙ merge_at_other "systemd" "files" c.files _ refl
              ∙ merge_at_other "systemd" "modprobe_conf" c.modprobe_conf _ refl),
          ← section-cong _ d "systemd" (
              merge_sources_other "systemd" c.package_sources _ refl
              ∙ merge_at_other "systemd" "packages" c.packages _ refl),
        )
        (merge_units_lem c.units c.sockets _)

  pub merged_sources :
      (name : String)
      → IsDict (section d "package_sources")
      → get (section (merge_fragment c d) "package_sources") name
        ≡ or_else (get (section d "package_sources") name) (get c.package_sources name)
  unfolding merge_fragment
  merged_sources name h =
      let q : section (merge_at "packages" c.packages d) "package_sources"
          ≡ section d "package_sources" =
        section-cong _ d "package_sources"
          (merge_at_other "package_sources" "packages" c.packages d refl) in
      ap (λ t. get t name)
        (section-cong _ _ "package_sources" (
          merge_groups_other "package_sources" c.user_groups _ refl
          ∙ merge_at_other "package_sources" "home_files" c.home_files _ refl
          ∙ merge_at_other "package_sources" "files" c.files _ refl
          ∙ merge_at_other "package_sources" "modprobe_conf" c.modprobe_conf _ refl
          ∙ merge_units_other "package_sources" c.units c.sockets _ refl))
      ∙ get-merge_sources c.package_sources (merge_at "packages" c.packages d) name (rw q h)
      ∙ ap (λ t. or_else (get t name) (get c.package_sources name)) q

module _ (c : Fragment) (o d : Dict Json) where
  pub left_packages :
      items_at (drop_fragment c o d) "packages"
      ≡ without c.packages (items_at o "packages") (items_at d "packages")
  unfolding drop_fragment
  left_packages =
      items_at-cong _ _ "packages" (
        drop_groups_other "packages" c.user_groups _ _ refl
        ∙ drop_sources_other "packages" c.package_sources _ _ refl
        ∙ drop_at_other "packages" "home_files" c.home_files _ _ refl
        ∙ drop_at_other "packages" "files" c.files _ _ refl
        ∙ drop_at_other "packages" "modprobe_conf" c.modprobe_conf _ _ refl
        ∙ drop_units_other "packages" c.units c.sockets _ _ refl)
      ∙ items_at-drop_at "packages" c.packages o _

  pub left_modprobe_conf :
      items_at (drop_fragment c o d) "modprobe_conf"
      ≡ without c.modprobe_conf (items_at o "modprobe_conf") (items_at d "modprobe_conf")
  unfolding drop_fragment
  left_modprobe_conf =
      items_at-cong _ _ "modprobe_conf" (
        drop_groups_other "modprobe_conf" c.user_groups _ _ refl
        ∙ drop_sources_other "modprobe_conf" c.package_sources _ _ refl
        ∙ drop_at_other "modprobe_conf" "home_files" c.home_files _ _ refl
        ∙ drop_at_other "modprobe_conf" "files" c.files _ _ refl)
      ∙ items_at-drop_at "modprobe_conf" c.modprobe_conf o _
      ∙ ap (without c.modprobe_conf (items_at o "modprobe_conf")) (
          items_at-cong _ d "modprobe_conf" (
            drop_units_other "modprobe_conf" c.units c.sockets _ _ refl
            ∙ drop_at_other "modprobe_conf" "packages" c.packages _ _ refl))

  pub left_files :
      items_at (drop_fragment c o d) "files"
      ≡ without c.files (items_at o "files") (items_at d "files")
  unfolding drop_fragment
  left_files =
      items_at-cong _ _ "files" (
        drop_groups_other "files" c.user_groups _ _ refl
        ∙ drop_sources_other "files" c.package_sources _ _ refl
        ∙ drop_at_other "files" "home_files" c.home_files _ _ refl)
      ∙ items_at-drop_at "files" c.files o _
      ∙ ap (without c.files (items_at o "files")) (
          items_at-cong _ d "files" (
            drop_at_other "files" "modprobe_conf" c.modprobe_conf _ _ refl
            ∙ drop_units_other "files" c.units c.sockets _ _ refl
            ∙ drop_at_other "files" "packages" c.packages _ _ refl))

  pub left_home_files :
      items_at (drop_fragment c o d) "home_files"
      ≡ without c.home_files (items_at o "home_files") (items_at d "home_files")
  unfolding drop_fragment
  left_home_files =
      items_at-cong _ _ "home_files" (
        drop_groups_other "home_files" c.user_groups _ _ refl
        ∙ drop_sources_other "home_files" c.package_sources _ _ refl)
      ∙ items_at-drop_at "home_files" c.home_files o _
      ∙ ap (without c.home_files (items_at o "home_files")) (
          items_at-cong _ d "home_files" (
            drop_at_other "home_files" "files" c.files _ _ refl
            ∙ drop_at_other "home_files" "modprobe_conf" c.modprobe_conf _ _ refl
            ∙ drop_units_other "home_files" c.units c.sockets _ _ refl
            ∙ drop_at_other "home_files" "packages" c.packages _ _ refl))

  pub left_systemd :
      Filtered c.units c.sockets
        (section o "systemd")
        (section d "systemd")
        (section (drop_fragment c o d) "systemd")
  unfolding drop_fragment
  left_systemd =
      rw
        (
          section-cong (drop_fragment c o d)
              (drop_units c.units c.sockets o (drop_at "packages" c.packages o d)) "systemd"
              (drop_groups_other "systemd" c.user_groups _ _ refl
                ∙ drop_sources_other "systemd" c.package_sources _ _ refl
                ∙ drop_at_other "systemd" "home_files" c.home_files _ _ refl
                ∙ drop_at_other "systemd" "files" c.files _ _ refl
                ∙ drop_at_other "systemd" "modprobe_conf" c.modprobe_conf _ _ refl),
          ← section-cong (drop_at "packages" c.packages o d) d "systemd"
              (drop_at_other "systemd" "packages" c.packages _ _ refl),
        )
        (drop_units_lem c.units c.sockets o _)

  pub left_sources :
      (name : String)
      → get (section (drop_fragment c o d) "package_sources") name
        ≡ (if stays c.package_sources o name then get (section d "package_sources") name else none)
  unfolding drop_fragment
  left_sources name =
      rw
        (
          section-cong (drop_fragment c o d)
              (drop_sources c.package_sources o (
                drop_at "home_files" c.home_files o (
                  drop_at "files" c.files o (
                    drop_at "modprobe_conf" c.modprobe_conf o
                      (drop_units c.units c.sockets o (drop_at "packages" c.packages o d))))))
              "package_sources" (drop_groups_other "package_sources" c.user_groups _ _ refl),
          ← section-cong
              (drop_at "home_files" c.home_files o (
                drop_at "files" c.files o (
                  drop_at "modprobe_conf" c.modprobe_conf o
                    (drop_units c.units c.sockets o (drop_at "packages" c.packages o d)))))
              d "package_sources"
              (drop_at_other "package_sources" "home_files" c.home_files _ _ refl
                ∙ drop_at_other "package_sources" "files" c.files _ _ refl
                ∙ drop_at_other "package_sources" "modprobe_conf" c.modprobe_conf _ _ refl
                ∙ drop_units_other "package_sources" c.units c.sockets _ _ refl
                ∙ drop_at_other "package_sources" "packages" c.packages _ _ refl),
        )
        (get-drop_sources c.package_sources o _ name)
