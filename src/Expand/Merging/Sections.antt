-- ===== src/Expand/Merging/Sections.antt =====
-- dasik/lib/expand/__init__.py: what the merges and the removals do within the sections `systemd` and
-- `package_sources`.
use dasik.Base.{
  String, ◌≡◌, refl, arith, ap, ◌∙◌, Bool, true, false, not, ◌&&◌, ◌||◌, inl, inr, Option, none,
  some, List, [], ◌∷◌, if◌then◌else◌, is_empty, select, Bool-cases, Option-cases, is_some, sym,
  ◌==◌, eq_iff, mem, Dict, get, put, keys, IsDict, get-update, or_else, Json, null, bool, num, str,
  arr, obj, items_of, dict_of,
}
use dasik.Expand.Fragment.{merge_list, as_dict, as_list, items_at, section}
use dasik.Expand.Merging.{merge_sources, merge_units, drop_at, drop_sources, drop_units, without}
use dasik.Expand.Merging.Keys.{
  section-put, section-found, section-missing, items_at-put, items_at-put_other, items_at-cong,
  items_at-drop_at, drop_at_other,
}

merged_units : List Json → List Json → Dict Json → Dict Json
merged_units us ss sd =
    put (put sd "enable_units" (arr (items_of (merge_list (items_at sd "enable_units") us))))
      "enable_sockets" (arr (items_of (merge_list (items_at sd "enable_sockets") ss)))

items_at-merged_units :
    (us ss : List Json) (sd : Dict Json)
    → items_at (merged_units us ss sd) "enable_units" ≡ merge_list (items_at sd "enable_units") us
unfolding merged_units
items_at-merged_units us ss sd =
    items_at-put_other (put sd "enable_units" _) "enable_sockets" _ "enable_units" refl
    ∙ items_at-put sd "enable_units" _

items_at-merged_sockets :
    (us ss : List Json) (sd : Dict Json)
    → items_at (merged_units us ss sd) "enable_sockets"
      ≡ merge_list (items_at sd "enable_sockets") ss
unfolding merged_units
items_at-merged_sockets us ss sd = items_at-put (put sd "enable_units" _) "enable_sockets" _

section-merge_units :
    (us ss : List Json) (d : Dict Json)
    → ((is_empty us && is_empty ss) ≡ false)
    → section (merge_units us ss d) "systemd" ≡ merged_units us ss (section d "systemd")
unfolding merge_units merged_units
section-merge_units us ss d h = rw h (section-put d "systemd" _)

-- Merging units and sockets extends both lists of the section.
abbrev pub MergedUnits : List Json → List Json → Dict Json → Dict Json → Type 0
MergedUnits us ss sd after =
    (items_at after "enable_units" ≡ merge_list (items_at sd "enable_units") us)
    × (items_at after "enable_sockets" ≡ merge_list (items_at sd "enable_sockets") ss)

pub merge_units_lem :
    (us ss : List Json) (d : Dict Json)
    → MergedUnits us ss (section d "systemd") (section (merge_units us ss d) "systemd")
unfolding merge_units merge_list
merge_units_lem [] [] d = (refl, refl)
merge_units_lem [] (s ∷ ss) d = (
  ap (λ e. items_at e "enable_units") (section-merge_units [] (s ∷ ss) d refl)
      ∙ items_at-merged_units [] (s ∷ ss) _,
  ap (λ e. items_at e "enable_sockets") (section-merge_units [] (s ∷ ss) d refl)
      ∙ items_at-merged_sockets [] (s ∷ ss) _,
)
merge_units_lem (u ∷ us) ss d = (
  ap (λ e. items_at e "enable_units") (section-merge_units (u ∷ us) ss d refl)
      ∙ items_at-merged_units (u ∷ us) ss _,
  ap (λ e. items_at e "enable_sockets") (section-merge_units (u ∷ us) ss d refl)
      ∙ items_at-merged_sockets (u ∷ us) ss _,
)

-- The two filters of a section that is a dict.
dropped_units : List Json → List Json → Dict Json → Dict Json → Dict Json
dropped_units us ss o sd = drop_at "enable_sockets" ss o (drop_at "enable_units" us o sd)

items_at-dropped_units :
    (us ss : List Json) (o sd : Dict Json)
    → items_at (dropped_units us ss o sd) "enable_units"
      ≡ without us (items_at o "enable_units") (items_at sd "enable_units")
unfolding dropped_units
items_at-dropped_units us ss o sd =
    items_at-cong _ _ "enable_units" (drop_at_other "enable_units" "enable_sockets" ss o _ refl)
    ∙ items_at-drop_at "enable_units" us o sd

items_at-dropped_sockets :
    (us ss : List Json) (o sd : Dict Json)
    → items_at (dropped_units us ss o sd) "enable_sockets"
      ≡ without ss (items_at o "enable_sockets") (items_at sd "enable_sockets")
unfolding dropped_units
items_at-dropped_sockets us ss o sd =
    items_at-drop_at "enable_sockets" ss o (drop_at "enable_units" us o sd)
    ∙ ap (without ss (items_at o "enable_sockets")) (
        items_at-cong _ _ "enable_sockets"
          (drop_at_other "enable_sockets" "enable_units" us o sd refl))

-- Removing units and sockets filters both lists of the section; without a section they are empty.
abbrev pub Filtered : List Json → List Json → Dict Json → Dict Json → Dict Json → Type 0
Filtered us ss o sd after =
    (items_at after "enable_units"
      ≡ without us (items_at o "enable_units") (items_at sd "enable_units"))
    × (items_at after "enable_sockets"
        ≡ without ss (items_at o "enable_sockets") (items_at sd "enable_sockets"))

module _ (us ss : List Json) (o d : Dict Json) where
  drop_units_absent :
      section d "systemd" ≡ []
      → drop_units us ss o d ≡ d
      → Filtered us ss
          (section o "systemd")
          (section d "systemd")
          (section (drop_units us ss o d) "systemd")
  unfolding items_at without select as_list get
  drop_units_absent h e = rw (e, h) (refl, refl)

  drop_units_present :
      (sd : Dict Json)
      → section d "systemd" ≡ sd
      → section (drop_units us ss o d) "systemd" ≡ dropped_units us ss (section o "systemd") sd
      → Filtered us ss
          (section o "systemd")
          (section d "systemd")
          (section (drop_units us ss o d) "systemd")
  drop_units_present sd h e =
      rw (e, h)
        (
          items_at-dropped_units us ss (section o "systemd") sd,
          items_at-dropped_sockets us ss (section o "systemd") sd,
        )

  pub drop_units_lem :
      Filtered us ss
        (section o "systemd")
        (section d "systemd")
        (section (drop_units us ss o d) "systemd")
  unfolding as_dict dropped_units drop_units
  drop_units_lem = elim (Option-cases (get d "systemd")) [
    | inl e ↦ drop_units_absent (section-missing d "systemd" e) (rw (e, drop_units) refl)
    | inr (obj fs, e) ↦
        drop_units_present (dict_of fs) (section-found d "systemd" (obj fs) e)
          (rw (e, drop_units) (section-put d "systemd" _))
    | inr (null, e) ↦ drop_units_absent (section-found d "systemd" null e) (rw (e, drop_units) refl)
    | inr (bool b, e) ↦
        drop_units_absent (section-found d "systemd" (bool b) e) (rw (e, drop_units) refl)
    | inr (num n, e) ↦
        drop_units_absent (section-found d "systemd" (num n) e) (rw (e, drop_units) refl)
    | inr (str t, e) ↦
        drop_units_absent (section-found d "systemd" (str t) e) (rw (e, drop_units) refl)
    | inr (arr xs, e) ↦
        drop_units_absent (section-found d "systemd" (arr xs) e) (rw (e, drop_units) refl)
  ]

or_else-none : (o : Option Json) → or_else o none ≡ o
or_else-none none = refl
or_else-none (some v) = refl

-- The declared sources win over the contributed ones.
pub get-merge_sources :
    (s d : Dict Json) (name : String)
    → IsDict (section d "package_sources")
    → get (section (merge_sources s d) "package_sources") name
      ≡ or_else (get (section d "package_sources") name) (get s name)
unfolding merge_sources get
get-merge_sources [] d name h = sym (or_else-none (get (section d "package_sources") name))
get-merge_sources (e ∷ s) d name h =
    ap (λ t. get t name) (section-put d "package_sources" _)
    ∙ get-update (e ∷ s) (section d "package_sources") name h

module _ (q : String → Bool) where
  get-select :
      (d : Dict Json) (name : String)
      → get (select (λ (e : String × Json). q e.0) d) name ≡ (if q name then get d name else none)
  unfolding select get
  get-select [] name = ground arith
  get-select ((k, v) ∷ d) name = elim (Bool-cases (k == name)) [
    | inl e ↦ ground (arith, get-select d name, ap q ((eq_iff k name).0 e))
    | inr n ↦ ground (arith, get-select d name)
  ]

-- A removal keeps the entries that are not contributed, and those that were declared.
abbrev pub stays : Dict Json → Dict Json → String → Bool
stays s o name = not (mem name (keys s)) || mem name (keys (section o "package_sources"))

none_either : (b : Bool) (o : Option Json) → o ≡ none → (if b then o else none) ≡ none
none_either true o h = h
none_either false o h = refl

pub get-drop_sources :
    (s o d : Dict Json) (name : String)
    → get (section (drop_sources s o d) "package_sources") name
      ≡ (if stays s o name then get (section d "package_sources") name else none)
unfolding drop_sources get
get-drop_sources s o d name = elim (Option-cases (get d "package_sources")) [
  | inl e ↦
      rw (e, drop_sources)
        (rw (section-missing d "package_sources" e) (sym (none_either (stays s o name) none refl)))
  | inr (v, e) ↦
      rw (e, drop_sources)
        (rw (section-found d "package_sources" v e) (
          ap (λ t. get t name) (section-put d "package_sources" _)
          ∙ get-select (stays s o) (as_dict v) name))
]

mem-keys : (d : Dict Json) (name : String) → mem name (keys d) ≡ is_some (get d name)
unfolding mem get
mem-keys [] name = refl
mem-keys ((k, v) ∷ d) name = ground (arith, mem-keys d name)

-- Of the declared and the contributed entries, a removal leaves the declared ones.
pub sources_restored :
    (s o : Dict Json) (name : String)
    → (if stays s o name
        then or_else (get (section o "package_sources") name) (get s name)
        else none)
      ≡ get (section o "package_sources") name
sources_restored s o name =
    ground (arith, mem-keys s name, mem-keys (section o "package_sources") name)
