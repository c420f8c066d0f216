-- ===== src/Executor/Registry.antt =====
-- dasik/lib/actions/action_registry.py: the entries, and what their config needs.
use dasik.Base.{
  String, Bool, not, ◌&&◌, Option, none, some, List, [], ◌∷◌, ◌++◌, if◌then◌else◌, mem, Dict, get,
  keys, Json, obj, dict_of, select, concat, join, ◌==◌,
}
use dasik.Effects.{Exec}

-- An action as the executor uses it.
pub record InstallAction (S : Type 0) : Type 0 where
  pub name : String
  pub is_needed : Exec S Bool
  pub execute : Exec S (Unit {0})
  pub finalize_apply : Option (Exec S (Unit {0}))
  pub verify : Exec S Bool

-- `construct` is `cls(config, context)`.
pub record InstallClass (S : Type 0) : Type 0 where
  pub class_name : String
  pub construct : Json → Exec S (InstallAction S)

pub record ActionMeta (S : Type 0) : Type 0 where
  pub cls : InstallClass S
  pub config_key : String
  pub is_optional : Bool
  pub required_fields : List String
  pub depends_on : List String

module _ {S : Type 0} where
  unfoldable pub register :
      List (ActionMeta S)
      → InstallClass S
      → String
      → Bool
      → Option (List String)
      → Option (List String)
      → List (ActionMeta S)
  register actions action_class config_key is_optional required_fields depends_on =
      actions
      ++ record {
        cls = action_class;
        config_key = config_key;
        is_optional = is_optional;
        required_fields = elim required_fields [ none ↦ [] | some fields ↦ fields ];
        depends_on = elim depends_on [ none ↦ [] | some deps ↦ deps ];
      }
        ∷ []

  abbrev pub is_root : ActionMeta S → Bool
  is_root meta = meta.config_key == "__root__"

-- [f for f in fields if f not in d]
unfoldable pub missing : List String → Dict Json → List String
unfolding select
missing fields d = select (λ f. not (mem f (keys d))) fields

-- The fields that a section lacks; a section that is no dict is not checked.
unfoldable pub missing_in : List String → Option Json → List String
unfolding missing
missing_in fields (some (obj section)) = missing fields (dict_of section)
missing_in fields _ = []

-- The message for what is missing, unless nothing is
unfoldable pub complain : String → List String → Option String → Option String
unfolding concat join
complain prefix [] next = next
complain prefix (f ∷ fs) next = some (concat (prefix ∷ join ", " (f ∷ fs) ∷ []))

module _ {S : Type 0} (config : Dict Json) (meta : ActionMeta S) where
  unfoldable pub missing_fields : List String
  unfolding missing missing_in
  missing_fields =
      if is_root meta
      then missing meta.required_fields config
      else missing_in meta.required_fields (get config meta.config_key)

  -- validate_config: the error message, `none` where the config is valid.
  unfoldable pub validate_config : Option String
  unfolding missing missing_fields complain concat
  validate_config =
      if not (is_root meta) && not (mem meta.config_key (keys config))
      then some (
          concat (
            (if meta.is_optional then "Optional section '" else "Required section '")
            ∷ meta.config_key
            ∷ "' not found in config"
            ∷ []))
      else complain (concat ("Missing required fields in '" ∷ meta.config_key ∷ "': " ∷ []))
          missing_fields
          (complain "Missing required dependencies: " (missing meta.depends_on config) none)
