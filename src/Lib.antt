-- ===== src/Lib.antt =====
-- Kai operator: the controllers of development, inference, evaluation and fine-tuning tasks on
-- Kubernetes, the objects that they build, their configuration, and the client library.
--
-- The operator watches custom resources (api/v1alpha1) and reconciles each towards its specification
-- by calls to the API server. A reconciliation reads the task, adds or gives up the finalizer, and
-- calls the handler of the task's phase, which builds objects, creates or deletes them, and writes
-- the next phase to the task's status.
--
--   * Base: shared names, the integers, Go's maps of strings (Base/Labels), with the order
--     of a loop over one in Base/Merge, lists and decimal text.
--   * Api: the types of api/v1alpha1 and their methods (Api/Task, DevTask, InferenceTask,
--     TrainTask, FineTuneTask, EvalTask), and what the operator uses of the Kubernetes types
--     (Api/Meta, Api/Kube).
--   * Client: the API server, which is not code of the repository, as a record of functions on a
--     world of any type; `Action` is a handler that makes calls, with Go's error results, panics and a
--     log of the calls. Client/Calls has the calls, Client/Keeps the rules by which a property of
--     every call is proved, Client/Order, Settles, Kept and Ensured the order of calls, Client/Wakes
--     the actions that do not end without a write, Client/Writes the kinds of calls and the phases
--     written, Client/Rounds the phases over many reconciliations, Client/Sure the actions without an
--     error and Client/Calm those that do not panic. Fake is a server on lists, by which tests and instances of theorems run.
--   * Reconcile: the results of a reconciliation (`ctrl.Result`) and the steps that all share.
--   * Config: internal/config/config.go (`getDefaultConfig`, `getEnvConfig`, `toUpperSnakeCase`,
--     `GetFrameworkImage`, `GetFrameworkPort`), with its laws in Config/Names, Config/Ports and
--     Config/Decimal.
--   * Builder: internal/controller/builder/builder.go (`BuildDeployment`, `BuildContainer`,
--     `BuildResources`, `BuildVolumes`, `BuildService`, `CreateService`, `EnsureService`,
--     `DeleteService`), with its laws in Builder/Selectors, Volumes, Resources and Services.
--   * EvalTask: internal/controller/evaltask/evaltask_controller.go; EvalTask/Job builds the job
--     (`ensureJob`, `buildEvalArgs`), EvalTask/Controller has `Reconcile` and the handlers,
--     EvalTask/Phases, Cleanup, Calls and History what holds of them.
--   * FineTuneTask: internal/controller/finetunetask/finetunetask_controller.go; FineTuneTask/Job builds
--     the job (`ensureJob`, `buildTrainArgs`), WebUi the service and the deployment of `ensureWebUI`,
--     Controller has `Reconcile` and the handlers, Phases, Cleanup, Calls and History what holds of
--     them.
--   * Host: the machine the operator runs on, and `GetColimaHostIP` and `GetDefaultHostIP`.
--   * DevTask: internal/controller/devtask; Framework (framework_utils.go and the names), Gateway and
--     Url (gateway_builder.go), Route (route_builder.go), Deployment (deployment_builder.go),
--     State and Controller (devtask_controller.go, devtask_phases.go, with the running phase in
--     Controller/Running); the theorems are in Steps, Phases, Quiet, Objects, Routing, Reachable,
--     Cleanup, Settling, Started, Awake, Calls and History.
--   * InferenceTask: internal/controller/inference; Model (model, engine, port, image and name) and
--     Deployment (utils.go), Service, Route and Gateway (inference_helpers.go), State and Controller
--     (inferencetask_controller.go, inference_phases.go, with the running phase in
--     Controller/Running); the theorems are in Phases, Quiet, Objects, Engine, Reachable, Cleanup,
--     Started, Awake, Calls and History.
--   * Manager: the start of the operator (cmd/main.go and the `SetupWithManager` of each reconciler), and
--     its role by the rbac markers in Manager/Role. Manager/Start has the order of the steps,
--     Manager/Permitted what the calls of the controllers need of the role. The kinds that a controller
--     may create and delete are in its module Writes, its calls in Calls.
--   * Memory: the API types as Go keeps them, with the addresses of pointers, slices and maps, and
--     their deep copies (api/v1alpha1/zz_generated.deepcopy.go), one module for each file of types.
--     Memory/Rules has the rules by which a copy is deep, the modules Deep the copies of each file, and
--     Memory/Copies what a copy shares with its original.
--   * Utilities: internal/controller/utils.go over any task kind, and the reconciler of train tasks;
--     Utilities/Shared compares them with the controllers.
--   * Sdk: the polling loops of sdk/wait.go in Sdk/Wait, with their laws in Sdk/Waiting; the client of
--     a task kind in Sdk/Client (sdk/devtask.go, inferencetask.go, traintask.go, finetunetask.go and
--     evaltask.go differ in the kind alone) and its instances with sdk/client.go in Sdk/Kinds; Seen and
--     Requests tell what the clients see and send. Sdk/Build has the builders of tasks, and
--     Sdk/Build/Built what the controllers make of the tasks that they give, and Sdk/Build/Merged
--     the labels as Go's maps, a quotient of the lists of pairs (Base/Merge).
--
-- Function names are those of the source in lower case with underscores. A handler that changes a task
-- in memory passes the changed task on; a write gives the object as the server stored it, as the client
-- library does. Other clients may act between two calls, as nothing is assumed of the world but what a
-- theorem names. Every definition is total without fuel: the loops of the code run over lists, and the
-- loops that wait over the list of the signals that they take, which stands for the time they have.
--
-- Parameters: the API server with its owner references, finalizers and the syntax of quantities, the
-- clock, the environment, the output of `colima`, the network interfaces, the parser of addresses, the
-- steps of the start, and the deep copies of the types of apimachinery.
--
-- Not modelled: the making of a connection in the client library and the options of its calls, the
-- scheme, the logger and log lines, which call other libraries only; what a step of the start does is a
-- parameter, and so is `RetryOnConflict` of client-go. A text is read by code points where Go reads
-- bytes, which are the same for ASCII.
pub mod Base
pub mod Api
pub mod Client
pub mod Reconcile
pub mod EvalTask
pub mod Fake
pub mod Config
pub mod Builder
pub mod Host
pub mod DevTask
pub mod FineTuneTask
pub mod InferenceTask
pub mod Sdk
pub mod Utilities
pub mod Memory
pub mod Manager
