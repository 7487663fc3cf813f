-- ===== src/Lib.antt =====
-- A model of the core of the source controller: what a reconciliation makes of its results, and
-- the components around it.
--
-- The parts and the files that model them (paths from the repository's root):
--
--   Cache          internal/cache/cache.go: the bounded in-memory cache with expirations. A method
--                  is one step under the mutex, with the readings of the clock as arguments.
--   Errors         internal/error/error.go: the contextual errors and their configuration.
--   Conditions     the interface of the status conditions (package conditions of fluxcd/pkg).
--   Object         internal/object/object.go: fields of any API object by their paths.
--   Reconcile      internal/reconcile/reconcile.go: the results of a reconciliation, what the
--                  runtime is told, and the corrections of the status conditions.
--   Summarize      internal/reconcile/summarize/summary.go: the end of every reconciliation.
--   Processor      internal/reconcile/summarize/processor.go: logs, events, handled requests.
--   Storage        internal/controller/storage.go, the writes of artifacts and their verification;
--                  the artifact of api/v1/artifact_types.go, and in Storage/Naming its paths and URLs.
--   Archive        internal/controller/storage.go, the archive of a directory: which entries of the
--                  walk are members, their headers, and the errors of the walk and of the write.
--   Removal        internal/controller/storage.go, the removal of artifacts and of garbage.
--   Garbage        internal/controller/storage.go, which files `getGarbageFiles` selects.
--   Index          internal/index/digest.go: the index with cached digests.
--   Dependency     internal/helm/chart/dependency_manager.go: the dependencies of a Helm chart, with
--                  the addresses of internal/helm/repository/utils.go.
--   Git            internal/controller/gitrepository_controller.go, the decisions on content,
--                  verification and events; internal/controller/artifact.go, sets of artifacts.
--   Flow           the control flow of a sub-reconciler: a step goes on with a value, or stops with
--                  the result and the error that the sub-reconciler returns.
--   GitReconciler  internal/controller/gitrepository_controller.go, the reconciler: Storing
--                  (reconcileStorage, garbageCollect, reconcileDelete), Authorising (getAuthOpts,
--                  getProxyOpts), Fetching (gitCheckout, fetchIncludes), Verifying
--                  (verifySignature), Sourcing (reconcileSource), Including (reconcileInclude, and
--                  CopyToPath of internal/controller/storage.go), Archiving (reconcileArtifact),
--                  Looping (reconcile, notify and Reconcile up to its deferred patch, with
--                  internal/util/temp.go) and Chain (the list of the sub-reconcilers). The theorems
--                  on a file stand beside it: Stored, Deleted, Fetched, Verified, Framed, Accepted,
--                  Sourced, Included, Recorded, Archived, Looped and Chained.
--   Common         integers, lists, Go maps and texts, as the other parts use them.
--
-- A reconciler runs its steps, whose results are combined by Reconcile; at the end Summarize runs
-- the processors (Processor), lets Reconcile compute the result and correct the conditions, sets
-- the summary of the conditions, and patches the object.
--
-- Conventions. A function that changes an object or a cache returns the new one beside its
-- results. A Go error that may be nil is an `Option Err`. Times and durations are integers of
-- nanoseconds, whose sums are exact (they stay far below 2^63). Packages outside the repository
-- are parameters with laws that their documentation states; an `Example` module shows for each
-- such interface that the laws can hold.
--
-- A sub-reconciler of GitReconciler changes one state, which holds the object, the commit and the
-- includes that the sub-reconcilers share, the files, the cluster and the events that are sent. It
-- writes artifacts through Archive and Storage, decides by Git whether it has to, and removes old
-- ones through Removal, for which Garbage selects the files. A bucket's listing is an Index, and a
-- Helm chart with dependencies is built by Dependency. An end by a panic, at the nil artifact of an
-- include, is an error of the step.
--
-- Bounds. Every recursion is structural, over a list or a number of workers still in flight, and no
-- definition takes fuel. The walk of Garbage ends at the limit on files that its caller gives.
--
-- Not modelled: the reconcilers of the other kinds, the composition of a GitRepository's
-- reconciliation with its deferred SummarizeAndPatch, chart builders and chart repositories are left
-- out so far. Texts of messages are shortened to their fixed parts, and what goes to the log alone is
-- left out. Network, registry and bucket clients,
-- Kubernetes API types, generated code, command-line start-up, metrics, tests and mocks are calls of
-- other packages or declarations.
pub mod Common
pub mod Cache
pub mod Errors
pub mod Conditions
pub mod Object
pub mod Reconcile
pub mod Summarize
pub mod Processor
pub mod Garbage
pub mod Storage
pub mod Index
pub mod Dependency
pub mod Git
pub mod Archive
pub mod Removal
pub mod Flow
pub mod GitReconciler
