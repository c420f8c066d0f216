-- ===== src/Cmdline/Tests.antt =====
-- A boot entry of a machine whose root is on Btrfs, and a config that declares another root.
use dasik.Base.{String, true, false, ◌≡◌, refl, List, [], ◌∷◌, mem, mem_number, sorted_set}
use dasik.Commands.{words}
use dasik.State.SetMath.{propose, meet}
use dasik.Cmdline.{
  token_name, rootflags_equivalent, desired_tokens, plan_tokens, new_tokens, write_sdboot,
}
use dasik.Cmdline.Laws.{new_tokens-keeps_root}

abbrev entry : String
entry = "root=/dev/sda2 rw rootflags=subvol=@,compress=zstd:3 quiet splash"

-- The disks of the config, and the parameters that it declares
abbrev desired : List String
desired = "root=/dev/sdb2" ∷ "rw" ∷ "rootflags=compress=zstd,subvol=/@" ∷ "loglevel=3" ∷ []

abbrev owned : List String
owned = "quiet" ∷ "root=/dev/sda2" ∷ []

same_mount : rootflags_equivalent "subvol=@,compress=zstd:3" "compress=zstd,subvol=/@" ≡ true
unfolding rootflags_equivalent
same_mount = refl

another_level : rootflags_equivalent "compress=zstd:1" "compress=zstd:3" ≡ false
unfolding rootflags_equivalent
another_level = refl

explicit_wins :
    desired_tokens ("rw" ∷ "root=UUID=1" ∷ "rd.luks.name=1=a" ∷ []) ("ro" ∷ "rd.luks.name=2=b" ∷ [])
    ≡ "ro" ∷ "rd.luks.name=2=b" ∷ "root=UUID=1" ∷ "rd.luks.name=1=a" ∷ []
unfolding desired_tokens mem_number
explicit_wins = refl

changed_entry :
    new_tokens (plan_tokens desired owned entry) entry
    ≡ "rw" ∷ "rootflags=subvol=@,compress=zstd:3" ∷ "splash" ∷ "loglevel=3" ∷ "root=/dev/sdb2" ∷ []
unfolding new_tokens plan_tokens propose sorted_set mem_number meet
changed_entry = refl

options_line_is_replaced :
    write_sdboot "root=/dev/sdb2 rw" ("title Arch\n" ∷ "options root=/dev/sda2\n" ∷ [])
    ≡ "title Arch\n" ∷ "options root=/dev/sdb2 rw\n" ∷ []
unfolding write_sdboot
options_line_is_replaced = refl

entry_has_root : mem "root=/dev/sda2" (words entry) ≡ true
unfolding mem words mem_number
entry_has_root = refl

root_is_keyed : mem (token_name "root=/dev/sda2") ("root" ∷ "rootflags" ∷ "rootfstype" ∷ []) ≡ true
unfolding mem token_name
root_is_keyed = refl

new_tokens-keeps_root_example :
    (s : String) × (mem s (new_tokens (plan_tokens desired owned entry) entry) ≡ true)
    × (token_name s ≡ token_name "root=/dev/sda2")
new_tokens-keeps_root_example =
    new_tokens-keeps_root desired owned entry "root=/dev/sda2" entry_has_root root_is_keyed
