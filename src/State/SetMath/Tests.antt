-- ===== src/State/SetMath/Tests.antt =====
-- `compute_changes` on small sets.
use dasik.Base.{
  String, ◌≡◌, refl, ◌≢◌, true, false, ◌&&◌, List, [], ◌∷◌, arith, if◌then◌else◌, mem, eq_iff, ◌+◌,
  sorted_set, select,
}
use dasik.State.Change.{install, remove, change}
use dasik.State.SetMath.{compute_changes, minus, meet, propose}
use dasik.State.SetMath.Count.{proposals}
use dasik.State.SetMath.Laws.{proposals-compute_changes, mem-drift, present_item_partition}
use dasik.State.SetMath.Converge.{carry_out, compute_changes_converges}

abbrev declared : List String
declared = "vim" ∷ "git" ∷ "vim" ∷ []

abbrev owned : List String
owned = "git" ∷ "nano" ∷ []

abbrev present : List String
present = "git" ∷ "nano" ∷ "htop" ∷ "gcc" ∷ []

install-ne-remove : install ≢ remove
install-ne-remove = ground arith

program : Unit {0}
unfolding compute_changes minus meet propose sorted_set select mem change
program = tt

changes_of_sample :
    compute_changes "packages" declared owned present install remove ("gcc" ∷ []) ≡ (
      change "packages" install "vim" "" false
          ∷ change "packages" remove "nano" "no longer declared" false
          ∷ change "packages" remove "gcc" "explicitly disabled" false
          ∷ [],
      "htop" ∷ [],
    )
unfolding program
changes_of_sample = refl

proposals-compute_changes_example :
    (proposals install "vim"
        (compute_changes "packages" declared owned present install remove ("gcc" ∷ [])).0
      ≡ 1)
    × (proposals remove "vim"
          (compute_changes "packages" declared owned present install remove ("gcc" ∷ [])).0
        ≡ 0)
unfolding mem
proposals-compute_changes_example =
    proposals-compute_changes "packages" declared owned present install remove ("gcc" ∷ []) "vim"
      install-ne-remove

mem-drift_example :
    mem "htop" (compute_changes "packages" declared owned present install remove ("gcc" ∷ [])).1
    ≡ true
unfolding mem
mem-drift_example = mem-drift "packages" declared owned present install remove ("gcc" ∷ []) "htop"

apart : (x : String) → (mem x declared && mem x ("gcc" ∷ [])) ≡ false
unfolding mem
apart x = ground (arith, eq_iff "vim" x, eq_iff "git" x, eq_iff "gcc" x, gcc-ne-vim, gcc-ne-git)
  where
    gcc-ne-vim : ◌≢◌ {A = String} "gcc" "vim"
    gcc-ne-vim = ground (arith, eq_iff "gcc" "vim")

    gcc-ne-git : ◌≢◌ {A = String} "gcc" "git"
    gcc-ne-git = ground (arith, eq_iff "gcc" "git")

present_item_partition_example :
    0
      + proposals remove "nano"
          (compute_changes "packages" declared owned present install remove ("gcc" ∷ [])).0
      + (if mem "nano"
            (compute_changes "packages" declared owned present install remove ("gcc" ∷ [])).1
          then 1
          else 0)
    ≡ 1
unfolding mem
present_item_partition_example =
    present_item_partition "packages" declared owned present install remove ("gcc" ∷ []) "nano"
      install-ne-remove refl refl

compute_changes_converges_example :
    ((compute_changes "packages" declared declared
        (carry_out install remove present
          (compute_changes "packages" declared owned present install remove ("gcc" ∷ [])).0)
        install
        remove
        ("gcc" ∷ [])).0
      ≡ [])
    × (mem "htop"
          (compute_changes "packages" declared declared
            (carry_out install remove present
              (compute_changes "packages" declared owned present install remove ("gcc" ∷ [])).0)
            install
            remove
            ("gcc" ∷ [])).1
        ≡ mem "htop"
            (compute_changes "packages" declared owned present install remove ("gcc" ∷ [])).1)
compute_changes_converges_example =
    compute_changes_converges "packages" declared owned present install remove install-ne-remove
      ("gcc" ∷ []) apart "htop"
