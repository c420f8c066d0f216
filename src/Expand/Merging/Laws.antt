-- ===== src/Expand/Merging/Laws.antt =====
-- dasik/lib/expand/__init__.py: subtract_contributions undoes expand_config.
use dasik.Base.{String, ◌≡◌, refl, ap, ◌∙◌, List, All, Dict, get, Json, IsJson}
use dasik.Effects.{ok}
use dasik.Expand.Fragment.{Fragment, items_at, section, merge_list}
use dasik.Expand.Merging.{
  contributions, expand_config, subtract_contributions, merge_fragment, drop_fragment, without,
}
use dasik.Expand.Merging.Lists.{without-merge_list}
use dasik.Expand.Merging.Values.{IsConfig, items_at-IsJson, section-IsConfig, IsConfig-IsDict}
use dasik.Expand.Merging.Reads.{
  merged_packages, merged_modprobe_conf, merged_files, merged_home_files, merged_systemd,
  merged_sources, left_packages, left_modprobe_conf, left_files, left_home_files, left_systemd,
  left_sources,
}
use dasik.Expand.Merging.Sections.{sources_restored}

-- No dict among the contributed items has a key twice.
pub record IsJsonFragment (c : Fragment) : Type 0 where
  pub packages_json : All IsJson c.packages
  pub units_json : All IsJson c.units
  pub sockets_json : All IsJson c.sockets
  pub modprobe_json : All IsJson c.modprobe_conf
  pub files_json : All IsJson c.files
  pub home_files_json : All IsJson c.home_files

-- The lists and the sources under the keys that the toggles add to.
pub record SameBase (config final : Dict Json) : Type 0 where
  pub packages : items_at final "packages" ≡ items_at config "packages"
  pub modprobe_conf : items_at final "modprobe_conf" ≡ items_at config "modprobe_conf"
  pub files : items_at final "files" ≡ items_at config "files"
  pub home_files : items_at final "home_files" ≡ items_at config "home_files"
  pub units :
      items_at (section final "systemd") "enable_units"
      ≡ items_at (section config "systemd") "enable_units"
  pub sockets :
      items_at (section final "systemd") "enable_sockets"
      ≡ items_at (section config "systemd") "enable_sockets"
  pub sources :
      (name : String)
      → get (section final "package_sources") name ≡ get (section config "package_sources") name

without-merged :
    (base extra : List Json) {merged left : List Json}
    → left ≡ without extra base merged
    → merged ≡ merge_list base extra
    → All IsJson base
    → All IsJson extra
    → left ≡ base
without-merged base extra e q hb he =
    e ∙ ap (without extra base) q ∙ without-merge_list base extra hb he

-- Fragment by fragment: what was merged is taken out again.
drop_fragment-merge_fragment :
    (c : Fragment) (config : Dict Json)
    → IsJsonFragment c
    → IsConfig config
    → SameBase config (drop_fragment c config (merge_fragment c config))
drop_fragment-merge_fragment c config f h =
    let m : Dict Json = merge_fragment c config in
    let sd : IsConfig (section config "systemd") = section-IsConfig config "systemd" h in
    record {
      packages =
          without-merged _ _ (left_packages c config m) (merged_packages c config)
            (items_at-IsJson config "packages" h) f.packages_json;
      modprobe_conf =
          without-merged _ _ (left_modprobe_conf c config m) (merged_modprobe_conf c config)
            (items_at-IsJson config "modprobe_conf" h) f.modprobe_json;
      files =
          without-merged _ _ (left_files c config m) (merged_files c config)
            (items_at-IsJson config "files" h) f.files_json;
      home_files =
          without-merged _ _ (left_home_files c config m) (merged_home_files c config)
            (items_at-IsJson config "home_files" h) f.home_files_json;
      units =
          without-merged _ _ (left_systemd c config m).0 (merged_systemd c config).0
            (items_at-IsJson _ "enable_units" sd) f.units_json;
      sockets =
          without-merged _ _ (left_systemd c config m).1 (merged_systemd c config).1
            (items_at-IsJson _ "enable_sockets" sd) f.sockets_json;
      sources = λ name.
          rw
            (
              left_sources c config m name,
              merged_sources c config name
                  (IsConfig-IsDict _ (section-IsConfig config "package_sources" h)),
            )
            (sources_restored c.package_sources config name);
    }

-- Expanding a config and subtracting the toggles' contributions from the result gives, in each base
-- list and for each package source, what the config declared itself. The config has no key twice in
-- a dict, its toggles contribute without an error, and no contributed dict has a key twice.
pub subtract_contributions-expand_config :
    (repr dumps : Json → String) (config : Dict Json) (c : Fragment)
    → contributions repr dumps config ≡ ok c
    → IsJsonFragment c
    → IsConfig config
    → (merged final : Dict Json) × (expand_config repr dumps config ≡ ok merged)
      × (subtract_contributions repr dumps merged config ≡ ok final)
      × SameBase config final
unfolding expand_config subtract_contributions
subtract_contributions-expand_config repr dumps config c e f h = (
  merge_fragment c config,
  drop_fragment c config (merge_fragment c config),
  rw (e, expand_config) refl,
  rw (e, subtract_contributions) refl,
  drop_fragment-merge_fragment c config f h,
)
