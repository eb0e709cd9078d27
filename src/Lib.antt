-- ===== src/Lib.antt =====
-- Kthena runs large language models on Kubernetes. Its control plane keeps the groups of pods that
-- serve a model and scales them; its router chooses, for each request, a route, a place in a queue
-- and a pod. This library models parts of both, each as functions on explicit state, and proves
-- what makes them correct.
--
-- The parts and the files that model them:
-- Common - bytes of text, Go maps as association lists, integers with int32 wrap-around, lists.
-- GroupStore - pkg/model-serving-controller/datastore/store.go, the in-memory store of ServingGroups
--   and their Roles that the model serving controller reads and writes. Each exported method of the
--   store is a function of GroupStore/Ops with the method's name in snake case; it takes the store
--   and returns a new store, a result or an error. GroupStore/Ordinal has the names of
--   pkg/model-serving-controller/utils/utils.go. Valid, GroupSteps and Steps hold the invariant, Reads
--   and Roles what the role methods do to the reads, Listing the sorted listing. `slices.SortFunc` is a
--   parameter, by its documented contract.
-- SlidingWindow - pkg/autoscaler/datastructure/sliding_window.go, the windows over past values that
--   the autoscaler keeps. `expire`, `Append` and `GetBest` of the two kinds of window are functions
--   whose names end in _record and _line_chart; the clock is an argument.
-- Autoscaler - pkg/autoscaler/algorithm/revision.go and pkg/autoscaler/autoscaler/status.go, the
--   correction of a recommended number of instances. It reads the windows, which expire as they are
--   read, so the history is part of the result. Sums and products are int32. The float arithmetic of
--   the panic bound is a parameter.
-- HttpRoute - pkg/kthena-router/router/httproute_match.go, the choice of an HTTPRoute, its rule and
--   the InferencePool for a request. Regular expressions, net.SplitHostPort and the random number are
--   parameters. Trimming and lower case are those of ASCII. Accepts, Places, Attachment and Routes say
--   what is accepted and how it is ordered, apart from the code's tests. Go's loops with a best match
--   so far are recursion on the list of what is left.
-- FairnessQueue - pkg/kthena-router/datastore/fairness_queue.go, the order of the request queue, and
--   the admission of requests against a semaphore by the dequeue loop while callers give up or
--   finish. The atomic sections are functions on a request; their interleavings are the relation
--   Step, with any number of requests. Dequeue is popWhenAvailable with its priority refresh, and Boost a
--   pass of tryBackpressureDequeue of session_boost_queue.go: a list of rounds says what is released and
--   arrives before each turn and what the backend checker answers. `float64` and the token tracker are
--   parameters; the heap is a list of which a least entry is taken. A wait of popWhenAvailable ends the
--   pass of the model, with the heap empty, while the code waits for a request and goes on.
-- TokenTracker - pkg/kthena-router/datastore/token_tracker.go, the per-user sliding windows of tokens
--   and requests that give the queue its priorities. Float arithmetic is a parameter.
-- Sticky - pkg/kthena-router/sessionsticky, the binding of a session to a pod in process memory.
-- PdGroups - pkg/kthena-router/datastore/model_server.go and pdgroup_pods.go, and AddOrUpdateModelServer
--   of store.go: the pods of a ModelServer by decode and prefill side of a group, with the reverse
--   indexes. A pod's labels are read from a map that the update takes. The library's sets are the
--   parameter PodSets; Sets has an instance by lists. Classes has what labels mean, and Runs the runs.
-- ModelRoutes - pkg/kthena-router/datastore/store.go, MatchModelTarget: the route of a model, its rule and
--   the weighted choice of a target. Headers, compiled patterns and the random number are parameters;
--   nil rules and targets, which the API server refuses, are left out. The order of the routes is the
--   store's. Uniform and Rules say which weights are accepted and which requests fit; Choice and Shares
--   have the laws of the two parts, and Sending that of the whole.
-- Scaling - pkg/model-serving-controller/controller: Scores is binpack_scaledown.go, Down and Up are
--   scaleDownServingGroups, scaleDownRoles and scaleUpServingGroups of model_serving_controller.go, on
--   the store of GroupStore, and Deleting is deleteServingGroup and DeleteRole. Calls of the API server
--   and of the revision history are parameters that may fail; what a deletion's calls to clear pods,
--   pod group and plugins come to is one parameter, a failure, a remainder or nothing left.
--   `slices.SortFunc` is a parameter by its contract. Expected counts and limits that are not positive
--   act as 0 does, and are numbers.
--
-- Bounds and fuel: the loops are structural recursion on lists, with two exceptions. The decimal digits
-- of a number take fuel, the number itself and one more, which is enough since each digit divides it by
-- ten. popWhenAvailable takes fuel, twice the length of the heap and one more in a dequeue pass, which is
-- enough since each turn takes a request off the heap or settles a priority.
-- Timestamps and counters that the code keeps far from their machine bounds are numbers; values that
-- a user sets and the code adds or multiplies in int32 wrap.
--
-- Not modelled: HTTP handling and proxying, the other Kubernetes controllers, rollouts and webhooks, the
-- scheduler's plugins, how the router's store indexes model routes, gateways and pods, the Redis
-- store of sessions, the grace period of the session-boost loop, metrics and logs. Mutexes are
-- left out where a method holds one from its first access to its last.
pub mod Common
pub mod GroupStore
pub mod SlidingWindow
pub mod Autoscaler
pub mod HttpRoute
pub mod FairnessQueue
pub mod TokenTracker
pub mod Sticky
pub mod PdGroups
pub mod Scaling
pub mod ModelRoutes
