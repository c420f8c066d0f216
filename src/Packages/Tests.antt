-- ===== src/Packages/Tests.antt =====
-- The resolver on a small repository, with an AUR that knows one name.
use dasik.Base.{
  ℕ, String, not, ◌&&◌, ◌≡◌, refl, List, [], ◌∷◌, mem, if◌then◌else◌, is_space, count, Dict, Json,
  null, str, arr, obj, cons, nil, field, end, get, list_of, dict_of, select, any, mem_number,
}
use dasik.Effects.{exception, ok, Exec, pure, throw, try_except}
use dasik.Effects.Laws.{OnOk}
use dasik.Commands.{
  CommandResult, lines_set, lines_of, strip, strip_left, strip_right, ends_line, words, pieces,
  on_first_line, partition_colon,
}
use dasik.Packages.Conflicts.{
  PkgInfo, parse_pkg_fields, read_lines, read_line, read_field, flush, tokens, bare_name, declares,
  meets, conflicts_from_metadata,
}
use dasik.Packages.Conflicts.Laws.{reports, conflicts_from_metadata-reports}
use dasik.Packages.Names.{from_keys, unique, validate_each, is_valid_name, is_rest}
use dasik.Packages.Batches.{batches, batch_each, piece, quoted_length, is_safe, utf8_length}
use dasik.Packages.Resolution.{
  PackageResolution, classify, place, place_source, extend_unavailable, add_repo, add_group,
  add_git, add_aur, add_unknown,
}
use dasik.Packages.Resolver.{
  resolve, resolve_rest, answer, settle_each, settle, is_provided, aur_info, info_each, info_answer,
  names_in, fetch_json, repo_groups, repo_names, requested_names, name_of, results_of,
}
use dasik.Packages.Resolver.Precedence.{IsPreferred, resolve-IsPreferred}
use dasik.Packages.Resolver.Laws.{everything, resolve-partition}

-- pacman, which answers -Slq and -Sgq and provides one name for -Sp; the state is not used.
pacman : String → List String → Exec ℕ CommandResult
pacman program args = pure (record {
  returncode = if mem "-Sp" args && not (mem "iptables-nft" args) then 1 else 0;
  stdout = if mem "-Slq" args then "vim\ngit\n" else if mem "-Sgq" args then "gnome\n" else "";
  stderr = "";
})

-- The AUR knows yay, and also answers with a name that nobody asked for.
aur : List String → Exec ℕ Json
aur names = pure (
    obj (
      field "results"
        (arr (
          cons (obj (field "Name" (str "yay") end))
            (cons (obj (field "Name" (str "unasked") end)) (cons null nil))))
        end))

offline : List String → Exec ℕ Json
offline names = throw (exception "timed out")

abbrev names : List String
names = "vim" ∷ "gnome" ∷ "mine" ∷ "yay" ∷ "iptables-nft" ∷ "typo" ∷ "vim" ∷ []

abbrev sources : Dict Json
sources = ("mine", str "url") ∷ []

program : Unit {0}
unfolding resolve resolve_rest answer settle_each settle is_provided aur_info info_each info_answer
    names_in fetch_json repo_groups repo_names requested_names name_of results_of classify place
    place_source extend_unavailable add_repo add_group add_git add_aur add_unknown from_keys unique
    validate_each is_valid_name is_rest batches batch_each piece quoted_length is_safe utf8_length
    lines_set lines_of strip strip_left strip_right ends_line try_except mem get list_of dict_of
    select is_space mem_number
program = tt

abbrev resolved : PackageResolution
resolved = record {
  repo = "vim" ∷ "iptables-nft" ∷ [];
  groups = "gnome" ∷ [];
  git = record { name = "mine"; source = str "url" } ∷ [];
  aur = "yay" ∷ [];
  unknown = "typo" ∷ [];
  unavailable = [];
}

small_resolution : resolve pacman aur names sources 0 ≡ (ok resolved, 0)
unfolding program pacman aur
small_resolution = refl

-- Without the AUR every candidate is unavailable, and none is unknown.
offline_resolution : resolve pacman offline ("vim" ∷ "typo" ∷ []) [] 0 ≡ (
  ok (record {
    repo = "vim" ∷ [];
    groups = [];
    git = [];
    aur = [];
    unknown = [];
    unavailable = "typo" ∷ [];
  }),
  0,
)
unfolding program pacman offline
offline_resolution = refl

resolve-partition_example :
    OnOk (λ res. count "vim" (everything res) ≡ 1) (resolve pacman aur names sources 0).0
unfolding mem
resolve-partition_example = resolve-partition pacman aur "vim" names sources 0

-- pacman's report of two packages, of which the second conflicts with what the first provides.
abbrev report : String
report =
    "Name : libjodycode\nProvides : libjodycode.so=4-64\nConflicts With : None\n\nName : libjodycode-git\nProvides : libjodycode\nConflicts With : libjodycode<5 other\n"

abbrev jodycode : PkgInfo
jodycode = record { name = "libjodycode"; provides = "libjodycode.so" ∷ []; conflicts = [] }

abbrev jodycode_git : PkgInfo
jodycode_git = record {
  name = "libjodycode-git";
  provides = "libjodycode" ∷ [];
  conflicts = "libjodycode" ∷ "other" ∷ [];
}

parse : Unit {0}
unfolding parse_pkg_fields read_lines read_line read_field flush tokens bare_name words pieces
    select partition_colon lines_of on_first_line strip strip_left strip_right ends_line is_space
    mem_number
parse = tt

fields_of_report : parse_pkg_fields report ≡ jodycode ∷ jodycode_git ∷ []
unfolding parse
fields_of_report = refl

conflicts_from_metadata-reports_example :
    reports "libjodycode" "libjodycode-git"
      (conflicts_from_metadata (jodycode ∷ []) (jodycode ∷ jodycode_git ∷ []))
    ≡ 1
unfolding declares meets any mem
conflicts_from_metadata-reports_example =
    conflicts_from_metadata-reports (jodycode ∷ []) (jodycode ∷ jodycode_git ∷ []) "libjodycode"
      "libjodycode-git"

resolve-IsPreferred_example :
    OnOk
      (IsPreferred pacman aur "gnome" ("vim" ∷ "git" ∷ []) ("gnome" ∷ []) sources names)
      (resolve pacman aur names sources 0).0
unfolding program pacman
resolve-IsPreferred_example =
    resolve-IsPreferred pacman aur "gnome" ("vim" ∷ "git" ∷ []) ("gnome" ∷ []) names sources 0 refl
      refl
