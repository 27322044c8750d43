-- ===== src/Lib.antt =====
-- PodoKit: a toolkit and CLI that generates full-stack applications for Bun.
--
-- The program has a CLI (packages/cli) that assembles, updates, compares and deploys generated
-- projects, over a template engine (packages/template-engine); a runtime library (packages/runtime)
-- with the interfaces of the services a generated application uses and providers of them that run in
-- the process; and templates of the code that is generated (templates), whose modules use the runtime.
-- Modelled here are the parts that decide something: the cache, the event bus, the job queue, the rate
-- limiter, uploads in parts, the service registry of the API, the line diff, the merges of files, and how
-- a generated project is brought to a newer version.
--
-- Which file models what:
--   Cache       packages/runtime/src/memory-cache.ts. `Cache` is MemoryCacheStore: its entries and
--               counters are maps in insertion order, and each method is a function of the time.
--   Events      packages/runtime/src/memory-events.ts. `Bus` is MemoryEventBus; the sets of handlers are
--               objects of a store, which subscriptions share.
--   Providers   packages/runtime/src/contracts.ts: the names of the providers, and
--               resolveProviderSelections.
--   RateLimit   templates/modules/rate-limit: RateLimit/Routes is rate-limit.routes.ts and
--               defaultRateLimitRoutes, RateLimit/Limiter is rate-limit.module.ts over the cache of
--               Cache, RateLimit/Sessions is SessionUsers of rate-limit.identity.ts.
--   Jobs        templates/modules/jobs-local, local-job.queue.ts: Jobs/Table the SQL statements on the
--               rows, Jobs/Queue the methods, Jobs/Runs what timers and runOnce do. Jobs/Runs/System
--               puts calls, timers and the three statements of each run in any order, and
--               Jobs/Runs/Once says what a valid system is. Jobs/Rules is what the queue uses of
--               packages/runtime/src/contracts.ts.
--   Uploads     templates/modules/file-upload: Uploads/Layout is partLayout and expectedPartSize of
--               upload-config.ts, Uploads/Config its uploadConfig; Uploads/Sessions the row of an
--               upload and the statements of chunked-uploads.ts on it, Uploads/Requests the checks of
--               ChunkedUploads, and Uploads/Requests/Complete the requests and sweeps that run at the
--               same time.
--   Services    templates/fullstack/apps/api/src/core/services.ts: Services/Supervisor is
--               ConnectionSupervisor with a step relation, Services/Registry is ServiceRegistry,
--               Services/Access is AccessPolicy, with the registries of guards, sessions and OpenAPI.
--   Diff        packages/cli/src/text-diff.ts: the line operations. `table_row` is the inner loop of the
--               table, `walk` the loop that reads it. Diff/Hunks is unifiedDiff.
--   Merge       packages/template-engine/src/index.ts: Merge/ThreeWay is threeWayMerge with lcsMatches
--               and its Merged and Hunks what a merge is to be; Merge/Markers is insertAtMarker,
--               removeAtMarker, extractRegion and replaceRegion.
--   ApiPaths    packages/cli/src/api-paths.ts: parseApiPaths and mergeApiPaths. A value that is no array,
--               or an element that is no string, is `none`.
--   Globs       matchGlob of packages/cli/src/lockfile.ts. A `?` that repeats nothing, where the source
--               throws, makes a glob that matches no path.
--   Project     packages/cli/src: Project/Lock and Project/Files are lockfile.ts, the owners of files and
--               the lock; Project/Changes and Project/Plan are planUpdate of update.ts, file by file,
--               Project/Apply its applyUpdate and Project/Relock its updatedFilesLock;
--               Project/Modules and Project/Visits are its targetModules, Project/Versions its
--               compareVersions; Project/Recording is recordModules of lockfile.ts;
--               Project/Removing is removeModule of remove.ts;
--               Project/Migrations, Project/Moves and Project/Moving are module-migrations.ts. The
--               modules beside them are proofs: Outcome, Loop, Preserves, Safety and Guarantees of
--               applyUpdate, Entries, Settled, Gone and Settles of a second update, Moved and Relocates
--               of the moves, Visited, Ordered, Ending and Requirements of targetModules, Recorded,
--               Placed and Baselines of recordModules, and Removals and Forgotten of removeModule.
--   Base, Map, Numbers, Texts   what these share: results of calls that may throw, lists, maps in
--               insertion order, arguments of type number, and strings as UTF-16 code units.
--
-- State is passed explicitly. A method of a class is a function from the state and its arguments to
-- the state and a result; a call that throws is an error of `Result`, or stands beside the state it
-- left. Clock readings, random ids, what a handler or a connection does, and what third-party code
-- returns (cron-parser as `Cron`, a digest, the hash and the UTF-8 bytes of a file, toUpperCase,
-- the pathname of a URL) are arguments. The files of a project are a map from their paths to their
-- bytes, and the trees of templates are given. Asynchronous code is cut where it waits: the parts
-- are functions of their own, and what happens between them is any sequence of other steps.
--
-- Bounds: a number that reaches the code as an argument is a `Number`, which may be negative or no
-- whole number; once it is validated it is at most Number.MAX_SAFE_INTEGER. Times and counts are
-- natural numbers without an upper bound, and no sum of the code is taken to round. `decimal`
-- prints a number n with n + 1 steps of fuel, enough since each step divides it by 10.
-- targetModules takes its fuel as an argument: one more than the names of modules is enough. All
-- other recursion is structural.
--
-- Not modelled: the statements of a database are taken to be atomic and to succeed, so that the
-- errors of a connection to it, its initialization and the polling loop of the queue are left out,
-- as is the splitting of a long wait into timers of at most 2^31 - 1 ms. Of the sweep of uploads
-- only what its statements do to one row is modelled, not its batches and its timer. Messages of
-- errors are mostly left out, the errors are told apart by name. Of an update, how the trees are
-- assembled, the API paths and the manifest are left out, and so are the guards of a removal and
-- package.json. Files, processes, containers, web pages and adapters to external services are input
-- and output only.
pub mod Base
pub mod Map
pub mod Numbers
pub mod Cache
pub mod Texts
pub mod Globs
pub mod Diff
pub mod RateLimit
pub mod Jobs
pub mod Merge
pub mod Services
pub mod Uploads
pub mod Events
pub mod Providers
pub mod Project
pub mod ApiPaths
