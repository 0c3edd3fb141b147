-- ===== src/Lib.antt =====
-- The OS Config agent: it runs on a machine, receives tasks of the OS Config service, and patches the
-- machine, applies configuration policies, or executes a script.
--
-- What is modelled, and where:
--
-- - Base: shared names. Results are Go's returns (a value, an error, a panic), Actions the methods with
--   state, Dict the maps with string keys, Tests and Lists Go's tests and loops over slices.
-- - Retry is retryutil/retry.go: RetrySleep, RetryFunc, RetryAPICall. The random numbers and the calls
--   are functions of the attempt. RetryFunc's loop has the fuel `limit + 1`: each turn but the last
--   sleeps for a second at least, and no more than the limit is slept in all.
-- - OsPatch is ospatch/: Exclude (exclude.go), filterPackages (updates.go, in OsPatch/Filter), the
--   upgrades of apt_upgrade.go, yum_update.go and googet_update.go (OsPatch/Upgrade), and
--   zypper_patch.go (OsPatch/Zypper). The package managers of packages/ and the matcher of regular
--   expressions are parameters.
-- - TaskState is agentendpoint/task_state.go: save, loadState and writeFile over a disk with a live
--   file, an old one and temporary ones, where each system call can fail. What JSON
--   keeps are the exported fields, to which PatchTask's `encoded` cuts a task down; PatchTask/Restored has
--   the round trip.
-- - PatchTask is agentendpoint/patch_task.go. PatchTask/Steps has one function per method of
--   patchTask, over a machine of task, disk, log of calls and a counter of calls by which the
--   surroundings (Env) answer. A reboot ends the process: `halted`. The loop of `run` has fuel 3, one
--   turn for each step that a task can be at. PatchTask/Reboots follows a
--   task through all the runs that it is given, with restarts at any point.
-- - Config is config/config.go: the wrapper of a resource. The four kinds of resource are a parameter,
--   whose methods return: a panic in one of them ends the agent, and is not part of a run of ConfigTask.
-- - Resources is the rest of config/: the four kinds themselves, over a disk of regular files on which
--   each call of the system can fail (Resources/Disk; directories and links are left out). Resources/Atomic
--   is the atomic writes of util/util.go, Resources/Download is file.go, Resources/Files is
--   file_resource.go, Resources/Execs is exec_resource.go, Resources/Packages is package_resource.go
--   with its caches, and Resources/Repositories is repository_resource.go. SHA-256, paths, the network,
--   the storage, commands, OpenPGP and the package managers are parameters.
-- - ConfigTask is agentendpoint/config_task.go: ConfigTask/Message is truncateMessage,
--   ConfigTask/Resources the steps of one resource, ConfigTask/Apply the loops of `run` and
--   markPostCheckRequired, ConfigTask/Run postCheckState, cleanup, the reports and `run`.
--   ConfigTask/Loops carries an invariant through the loops; Mark, Present, Outcome and Traces hold
--   the proofs. All loops are over the task's lists.
-- - ExecTask is agentendpoint/exec_task.go: ExecTask/Steps has one function per part of `run`, and the
--   download and the command under it. Exit codes are integers of Base/Int, with Go's `int32`.
-- - RunUpdates is agentendpoint/patch_linux.go: runUpdates with the options and the excludes of each
--   manager.
-- - Policies is policies/changes.go: getNecessaryChanges. Policies/Local is policies/local.go: getID and
--   mergeConfigs.
-- - Recipes is policies/recipes/recipe.go: versions, over bytes, and their order. Recipes/Database is
--   recipedb.go, newRecipeDB and addRecipe over the file; Recipes/Install is InstallRecipe of
--   installrecipe.go, with what a step does and the artifacts as parameters.
-- - AgentConfig is agentconfig/agentconfig.go: the records of the settings and of the metadata;
--   AgentConfig/Words the words of a setting, AgentConfig/Create createConfigFromMetadata with the
--   functions that it calls. A letter outside ASCII is lowered only where the result is in ASCII.
-- - Notifications is handleStream of agentendpoint/agentendpoint.go with tasker/tasker.go: a step
--   relation of the goroutines that share the channel of notifications.
-- - Waiting is waitForTask and the loop of WaitForTaskNotification in the same file, by rounds. The loop
--   may go on for ever, so its fuel is a number of rounds.
--
-- How the parts meet: a patch task runs runUpdates, which calls the Run functions of ospatch under
-- RetryFunc; PatchTask takes its outcome as a parameter. The reports of the three tasks go through
-- RetryAPICall, and their outcomes are parameters too. A patch task keeps itself in the task state
-- file, and a config task drives its resources through Config. The queue of Notifications decides when
-- the next task is run.
--
-- Not modelled: the client's calls, its loop over tasks and the load of a saved task, the steps of
-- recipes (steps.go, artifacts.go), the package repositories of guest policies, the parsers of package
-- managers, inventory, the watch of the metadata and logs; and of config_task.go the cleanup of
-- repositories, which nothing calls. Strings that only a log shows are left out. Error texts are kept
-- where a report carries them; error messages of steps are bytes.
pub mod Base
pub mod Retry
pub mod OsPatch
pub mod TaskState
pub mod PatchTask
pub mod Config
pub mod ConfigTask
pub mod ExecTask
pub mod Policies
pub mod RunUpdates
pub mod Recipes
pub mod Notifications
pub mod Waiting
pub mod Resources
pub mod AgentConfig
