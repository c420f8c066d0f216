-- ===== src/Lib.antt =====
-- dasik: a declarative installer and configuration manager for Arch Linux.
--
-- The program reads a config, a JSON document of sections, and brings a machine to it. Each
-- section belongs to a class of actions. The reconciler (dasik/lib/reconciler/reconciler.py) asks
-- each action for its plan, shows the plan, gates what is destructive behind a confirmation, runs
-- the actions in their order, and records in a manifest what the config now owns. What an action
-- plans is set arithmetic on what is declared, what is there and what the manifest says is owned
-- (dasik/lib/state/set_math.py). The manifest (dasik/lib/state/state_store.py) makes removal
-- possible: an item that is owned and no longer declared is to be removed, an item that nobody
-- declared is left alone. Each apply is also kept as a numbered generation
-- (dasik/lib/state/generation_store.py) with its config and its manifest, so that an older
-- one can be shown, restored or pruned. A sync goes the other way: it captures the machine's state
-- into the config (dasik/lib/state/config_writer.py merges the fragments) and records what the
-- config owns of it. Beside these, the executor (dasik/lib/actions/action_executor.py) runs
-- registered actions one by one with a check before and after, the package resolver
-- (dasik/lib/actions/package_resolver.py) says where each declared package comes from, and
-- `dasik upgrade` (dasik/lib/upgrade) brings declared items to their latest versions.
--
-- Which file models what
--   Base          lists with native lengths, Python's dict as an association list in insertion
--                 order (Base/Dicts), `sorted` of a set of texts (Base/Lists, by the order of code
--                 points in Base/Order), JSON values (Base/JsonValues) and Python's `==` on them
--                 (Base/JsonEquality), join and white space (Base/Text).
--   Effects       Python code that changes a state and may raise: a function from the state to a
--                 result and the state after it. What was written before a raise stays written. An
--                 `exception` is caught by `except Exception`; an `interrupt`, such as
--                 KeyboardInterrupt, is not. Effects/Laws has the postconditions of such code and
--                 the rules that build them.
--   Commands      what dasik/lib/command_worker reports of a process, and its output as lines.
--   State         dasik/lib/state. State/Change is change.py (Op, Change, Plan), State/SetMath is
--                 compute_changes, State/ConfigWriter is merge, State/StateStore is Manifest and
--                 StateStore (to_dict, from_dict, load, save), State/GenerationStore is
--                 GenerationStore (_next_number, _point_current_at, new, _is_partial, list,
--                 prune, restore). The file system is a state with the file or the directories
--                 that the store touches. State/ApplyLock is apply_lock.py, with the steps of
--                 several processes at one lock file as a relation.
--   Reconciler    dasik/lib/reconciler/reconciler.py. Reconciler/Interface is what it asks of
--                 dasik/lib/actions/abstract_action.py: a record of methods over any state of the
--                 machine. Reconciler/Planning is build_plan with _domain_for, _managed_for and
--                 _any_managed_for; Reconciler/Manifests is _build_new_manifest and _persist;
--                 Reconciler/Applying is apply, with the prompt in Reconciler/Applying/Gate;
--                 Reconciler/Syncing is sync with _owned_after_sync and _owner_action.
--   Executor      dasik/lib/actions/action_registry.py (Executor/Registry: register,
--                 validate_config) and dasik/lib/actions/action_executor.py (Executor/Running:
--                 _execute_action, execute_all).
--   Packages      dasik/lib/actions/package_resolver.py. Packages/Names is _validate and
--                 dict.fromkeys, Packages/Batches is _batches, Packages/Resolution is
--                 PackageResolution and the first loop of resolve, Packages/Resolver is resolve,
--                 aur_info, _fetch_json, _aur_fetch_batch and _is_provided. Packages/Conflicts is
--                 parse_pkg_fields and conflicts_from_metadata of
--                 dasik/lib/actions/pacman_conflicts.py.
--   Upgrade       dasik/lib/upgrade. Upgrade/Steps is steps.py, Upgrade/Output reads what a command
--                 printed (_failure_line, _output_of), Upgrade/Runner is run_steps, _run_one and
--                 _execute, Upgrade/Summary is summary's counts and exit_code.
--   Actions       actions that fill the interfaces: Actions/Scalar is ScalarV3Action of
--                 dasik/lib/actions/scalar_action.py over the hooks of its subclasses, as an
--                 action of the reconciler and, by AbstractAction's is_needed and execute, of
--                 the executor; Actions/Composite is CompositeV3Action.plan of
--                 dasik/lib/actions/composite_action.py.
--   Expand        dasik/lib/expand. Expand/Fragment is what a toggle returns and how it reads the config,
--                 Expand/Toggles has every function of toggles.py, by subject (Hardware, Services,
--                 Security, Content, Wireguard), Expand/Merging is contributions, expand_config and
--                 subtract_contributions of __init__.py.
--   Config        dasik/lib/json_parser. Config/Files is the file system and the paths of includes.py
--                 (_resolve_path, _read), Config/Includes is uses_includes, _resolve and
--                 resolve_includes, Config/WriteBack is _Planner and write_back of writeback.py, with
--                 _stage in Config/WriteBack/Staging, _match and the loop of _plan_list in
--                 Config/WriteBack/Matching, the shares of _plan_concat in Config/WriteBack/Shares,
--                 and the $include_text and $include_line files in Config/WriteBack/Texts.
--   Closure       dasik/lib/validation/aur_closure.py: strip_version_constraint, _target_satisfied,
--                 _chain and validate_aur_closure, whose loop over the levels is walk_levels, the body
--                 of it walk_level, and the second loop of the body settle.
--   Cmdline       dasik/lib/actions/kernel_cmdline_action.py: _merge, _desired_tokens,
--                 _desired_tokens_for_diff, _actual_for_diff, plan (plan_tokens), _new_tokens and
--                 _write_sdboot, with _rootflags_equivalent and what it takes from
--                 dasik/lib/actions/partition_utils.py. What the config derives and the command line
--                 that the entry has are arguments.
-- A child module Laws, or one named for what it proves, holds the theorems about the module above
-- it; a module Tests runs the code on small data and applies the theorems there.
--
-- How the code is read
--   Every loop goes over a list that is there when it begins, so each is a recursion on that list
--   and none needs fuel; only entering an included file takes one of a fuel: more fuel than
--   there are files is enough, as Config/Includes/Unchanged proves; and the walk over the levels of
--   dependencies takes one of a fuel for a level: more fuel than its cap on the nodes is enough, as
--   Closure/Ending proves, since each level but the last adds a node. Code that the source repeats in
--   two branches of a loop is called once, on the branch's data. Methods of the actions, the run of a process, the HTTP request with the parse
--   of its body, the clock and the hash of a serialised config are parameters of the definitions
--   that use them. A theorem that needs something of them says so in a hypothesis, such as that
--   no interrupt leaves them or that planning only reads.
--   A Python set is a list of its members, compared by membership; `sorted` of it is an ascending
--   list without repetition. Numbers that the program stores are not negative.
--
--   The config's model lets only sections of the right shape through; a toggle reads another
--   shape as an empty section or list here, where the code would raise. The texts that repr and
--   json.dumps make are parameters.
--
-- What is left out
--   Printed lines, colours and log messages, except which message an apply or a sync reports. The
--   other concrete actions (dasik/lib/actions: disks, packages, users, firewall and others), the models
--   that validate the config (dasik/lib/models), the preflight checks
--   (dasik/lib/validation/preflight.py), the wizard, the run logger, the command line in
--   dasik/__main__.py, and the helpers for git, home archives and passwords. Writing the manifest
--   of an apply and the generation does not fail in the model of Reconciler/Manifests; the writes
--   themselves, with their failures, are in State/StateStore and State/GenerationStore. Of a report
--   line of the upgrade, the text is left out.
pub mod Actions
pub mod Base
pub mod Closure
pub mod Cmdline
pub mod Commands
pub mod Config
pub mod Effects
pub mod Executor
pub mod Expand
pub mod Packages
pub mod Reconciler
pub mod State
pub mod Upgrade
