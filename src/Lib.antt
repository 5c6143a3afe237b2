-- ===== src/Lib.antt =====
-- crossplane-runtime: the shared libraries of Crossplane's controllers. A controller watches a
-- Kubernetes object that describes an external resource and brings the two together. The
-- libraries read and write such objects by field paths (pkg/fieldpath), keep their status
-- conditions (apis/common/condition.go), decide which actions a controller may take
-- (pkg/reconciler/managed/policies.go), keep their metadata (pkg/meta), and start controllers once
-- their dependencies are there (pkg/gate).
--
-- Base holds the shared names: Boolean tests on native numbers, lists, and texts as lists of bytes.
--
-- Fieldpath models pkg/fieldpath.
--   * Segment: `Segment`, `Field`, `FieldOrIndex`, `Segments.String` of fieldpath.go; its children
--     hold lemmas on printed numbers and on trimming. A text is the list of its
--     bytes: all that this code looks for is ASCII, and no byte of a longer rune is.
--   * Lexer: the state functions, `run`, `emit` and `Parse`. The goroutine and its channel are a run
--     to the end followed by a reading of what was sent. `run` takes fuel: two rounds for each byte
--     and two more, as a state function takes a byte, or comes after one that did, or stops.
--   * Value, Items, Fields: JSON data. A map is a list of entries of which the first counts.
--   * Paved: `getValueFromInterface`, `setValue` with `prepareElement` and `prepareField`, `delete`
--     and `deleteField`, and the methods on top of them. Changes in place become the new object,
--     given back beside the outcome, which may be an error or a panic. The JSON library is the
--     parameter `Json`. Objects share no array and no map, as after unmarshalling.
--
-- Condition models apis/common/condition.go and `MarkConditions` of pkg/conditions/manager.go. The
--   status is the list of its conditions; times are numbers.
-- Policies models pkg/reconciler/managed/policies.go with the actions of apis/common/policies.go.
--   The sets of k8s.io/apimachinery are the parameter `Sets`, with the laws that they document.
-- Meta models pkg/meta: references and owners, finalizers, labels and annotations, and the record of
--   external creation that annotations hold. `GetControllerOf` and the package `time` are
--   parameters; a time that RFC 3339 does not read back counts as the zero time.
-- Gate models pkg/gate and pkg/feature. What a mutex guards is one step, and any interleaving of the
--   threads is a sequence of steps; the callbacks that were started are a log.
-- Linter models pkg/parser/linter.go.
-- Errors models pkg/errors: wrapping, causes, joining, and the dropping of conflicts.
-- Managed models `Reconcile` of pkg/reconciler/managed/reconciler.go. What it calls (the Kubernetes
--   client, the hooks, the external client) is a parameter: functions that may change the resource
--   and a world of any type. A run leaves a trace of its calls, and Managed/Protocol says, without
--   the code, when each call is permitted after the ones before it.
-- Reference models pkg/reference with the references and policies of apis/common/resource.go. The
--   reader of the API server answers each call by its number, so that no two answers need to agree.
-- ProviderConfig models pkg/reconciler/providerconfig: `Reconcile` as stages, over a client that is a
--   record of functions on a world of any type, with a trace of its calls.
-- Apply models the applicators of pkg/resource/api.go with the options of pkg/resource/resource.go, and
--   Apply/Secret the publication of connection details of pkg/reconciler/managed/api.go. The client is
--   again a record of functions, with a trace of its calls. Apply/Retry models `ApplicatorWithRetry`:
--   the `OnError` of client-go is a parameter that runs its function once or more.
-- Changes models the predicates of pkg/resource/predicates.go.
-- Ratelimiter models pkg/ratelimiter/reconciler.go, one whole call of `Reconcile` after the other.
-- Names models the listing of names of pkg/resource/resource.go.
--
-- Not modelled: generated code (deep copies, protobuf), the fakes for tests, thin clients of the
-- Kubernetes API, logging, metrics; and of modelled packages `ExpandWildcards` and the JSON methods of
-- `Paved`, `ConditionedStatus.Equal`, `StoreCurrentRV`, the API finalizer and the local publisher.
pub mod Base
pub mod Fieldpath
pub mod Errors
pub mod Managed
pub mod Condition
pub mod Policies
pub mod Meta
pub mod Gate
pub mod Linter
pub mod Reference
pub mod Names
pub mod Changes
pub mod Apply
pub mod ProviderConfig
pub mod Ratelimiter
mod Tests
