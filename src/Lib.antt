-- ===== src/Lib.antt =====
-- terraform-operator: a Kubernetes operator that runs Terraform workflows.
--
-- A Terraform resource (pkg/apis/tf/v1beta1/terraform_types.go) names a module, a backend, options
-- for its tasks, and plugins. The controller (pkg/controllers/terraform_controller.go) moves the
-- resource through a workflow of stages, ten to create and ten to delete: `Reconcile` picks the
-- next stage (`checkSetNewStage`), sets up the objects that a task needs and a pod for it (`run`),
-- watches the pod, and ends the workflow. It talks to the cluster through a client only.
--
-- Which file models what:
-- - Prelude, Prelude/*: shared tests, lists, texts, integers, and lists in order.
-- - Api/Task, Api/Stage, Api/Spec, Api/Resource: the types of terraform_types.go, `TaskName.ID`,
--   `Stage.IsEqual`, and helpers.go. A Go map is an association list, visited in its order; a
--   Kubernetes type that the operator carries along is a text. Api/Task/Lists has the laws.
-- - Utils: `ListContainsStr`, `ListRemoveStr` with the array that it shifts under its own loop,
--   `TruncateResourceName` and `AutoHashLabeler` of pkg/utils/utils.go. The laws are in Utils/Strings,
--   Utils/Twice and Utils/Names. Utils/Random is `StringWithCharset` and `RandomString`.
-- - Cluster, Cluster/Effects, Cluster/Client: the objects of the cluster, a state and error monad,
--   and the client as a record of operations on a world. `IsQuiet` states what the client does
--   while nobody else writes; Tests/Store has a client that meets it.
-- - Controller/Workflow: Workflow/Tasks has `getConfiguredTasks`, `nextTask` and
--   `isTaskInterruptable`, Workflow/Decide `newStage` and `checkSetNewStage`. Workflow/Scan,
--   Workflow/Orders and Workflow/Next have laws of the order of the tasks, Workflow/Configured which
--   tasks take part, Workflow/Stages and Workflow/Protected the
--   choice of a stage. Workflow/Entries is an abstract machine
--   for this choice, as the reasons to enter a task, with the branches of the code in
--   Workflow/Branches; Workflow/Gates is the plan and apply tasks, and Workflow/Behind what is
--   entered behind them.
-- - Controller/Options: `newTaskOptions`, with its types in Options/Types, the loop over the task
--   options in Options/Collecting, and the images in Options/ImageChoice and Options/ImageNames.
-- - Controller/PodTemplate: PodTemplate/Validation has `validateVolume`, and PodTemplate/Env,
--   PodTemplate/Mounts and PodTemplate/Template `generatePod`; PodTemplate/Volumes,
--   PodTemplate/Contents and PodTemplate/Labels have the laws.
-- - Controller/Objects: the generators of the other objects; Objects/Jobs when a job panics.
-- - Controller/Ensure: the functions that check, delete and create objects. Controller/Run:
--   `createEnvFromSources` and `run`; Run/Ready that what `run` makes is what it looks for later.
-- - Controller/Addresses: `getForcedGetter` and `sshDetector.Detect` with their regular expressions,
--   and `getParsedAddress`, over net/url and go-getter as the records `NetUrl` and `Getter`. Its
--   children are Patterns, on the forced getter, Ssh, on the detector, Splits, on the
--   directories, and Schemes, on the result.
-- - Controller/Packages: what the controller is started with and the packages it calls, as one
--   record. Controller/Setup: `setupAndRun`; Setup/Scripts is about the files of the config map,
--   Setup/Tokens about the script with a token, and Setup/Ready about the objects that are there
--   after it.
-- - Controller/NodeSelectors: `cacheNodeSelectors` and `getNodeSelectorsFromCache` with the cache.
-- - Controller/Finalizers: `updateFinalizer`, `getGitSecrets`, `updateSecretFinalizer`.
-- - Controller/GitAccess: `loadPassword`, `createGitAskpass` and `formatJobSSHConfig`, with laws in
--   GitAccess/Keys and GitAccess/Namespaces. Controller/Plugins: the options, sidecar pods and jobs
--   of plugins.
-- - Controller/Status: `getTerraformResource` and `updateStatusWithRetry`; Status/Retries,
--   Status/Updates and Status/Lagging how they end. The desired status is a value, not the address of a status that the
--   answer of a write may change.
-- - Controller/Reconcile: the steps of `Reconcile` that change the resource. Reconcile/Start is the
--   beginning, Reconcile/Marking deletion and retries, Reconcile/Adopting a new stage,
--   Reconcile/Watch the pod of a stage, Reconcile/Finish the end of a workflow, Reconcile/PluginUses
--   the choice of plugins. Reconcile/Prepare, Reconcile/Restart, Reconcile/Passing and
--   Reconcile/Progress have the laws, the last of a workflow from its first stage to its end.
-- - Controller/Reconcile/Program: `Reconcile` as one program over the client, composed of these steps
--   and of the functions above, with its calls and their errors in the code's order; its plugins are
--   in Reconcile/Sidecars. Reconcile/Histories is the stages of a resource as a relation, step by
--   step. Reconcile/FirstSteps and Reconcile/Beginning are about the first reconciles of a new
--   resource, Reconcile/Watching and Reconcile/Advancing about those of a stage whose pod ends, for a
--   client that meets the laws `Keeps`; Reconcile/Naming is about the name, Reconcile/Locked about the
--   lock, and Reconcile/SpecKept about the specs, for a client that meets `StoresSpecs`.
-- - Cluster/Posts and Cluster/Moving: rules for what a program of the monad comes to, and for a
--   relation that each call moves the world along. The modules named Moving apply them to
--   each function, from the finalizers up to `Reconcile`.
-- - Controller/Cleanup: `removeOldPlan`, `backgroundReapOldGenerationPods` and `reapPlugins`;
--   Cleanup/Selectors and Cleanup/OldPlan which pods their selectors pick, by labels and phase.
-- - Manager: the environment that cmd/manager/main.go reads for the tasks; Manager/Environ is about
--   what of it they get.
-- - Tests/*: the theorems at concrete inputs.
--
-- A Go panic is a value: `none`, or `panic` of a result. The attempts of a retry are counted by the
-- numbers that the code gives; they are no fuel of the model. A loop is a recursion on the list that
-- it visits, or on the rounds of its counter, so no function can run out; the
-- decimal text of a number has fuel above the number. Times are seconds. A goroutine is run to its
-- end where it is started, and a deferred call where the function returns. A read of the pod of a
-- failed stage leaves the world as it was. The reads of a cached client are those of the client.
--
-- Not modelled: the file copies of pkg/utils, the JSON encodings of the types, the command line,
-- the start of the manager, the generated client and the shell scripts in the pods. Of the standard library
-- and other packages, MD5, math/rand, the layout of a script by heredoc, net/url, the detectors of go-getter,
-- `json.Marshal`, the finalizer helpers of controller-runtime and the API server are parameters.
pub mod Prelude
pub mod Api
pub mod Utils
pub mod Cluster
pub mod Controller
pub mod Manager
mod Tests
