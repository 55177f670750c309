-- ===== src/Lib.antt =====
-- A verification library for the Go code of an authentication platform of several services.
--
-- The program. The platform is a set of services (services/, platform/) that share Go libraries
-- (libs/go/src). This library covers, of the shared libraries, the policies for calls that can fail
-- (circuit breaker, rate limiter, bulkhead and retry of libs/go/src/fault, the sliding window of
-- libs/go/resilience), the LRU cache, the queues, the stack and the set (libs/go/src/collections),
-- the store of answers to repeated requests (libs/go/src/idempotency), the collection of errors
-- (libs/go/src/functional), pages of lists (libs/go/src/pagination), amounts of money
-- (libs/go/src/domain) and the comparing and merging of slices and maps (libs/go/src/utils); the
-- hierarchy of roles by which the IAM service decides on permissions (services/iam-policy); of the
-- file service (services/file-upload) the uploads in chunks, the circuit breaker, the task
-- processor and the sanitizer; and the extraction of tokens in the client library (sdk/go). No part
-- keeps the state of another.
--
-- The files.
-- Prelude (with Tests, Lists, Int, Word, Eq, Assoc, Keys, Decimal, Order, Sums): what the others
--   share. Int has the signed integers, Word Go's 64-bit integers, whose arithmetic wraps around
--   (`wrap64`), and the saturating difference of two instants; Eq is Go's `comparable` as an
--   interface; Assoc is a Go map as a list of keys and values, Keys about the keys that it lists
--   once; Decimal prints numbers as `%d` does; Order is about comparison functions and sorted
--   lists, Sums about sums over lists.
-- Fault.Policy: the configurations of libs/go/src/fault/config.go and their `Validate`.
-- Fault.Breaker: libs/go/src/fault/circuitbreaker.go. A method is one function on the state (they
--   hold the mutex); `Execute` is `can_execute`, the operation's outcome and `record_result`, which
--   may be interleaved with those of other callers. Invariant, Schedule and Trips are about runs of
--   calls; failures and successes are 64-bit words.
-- Fault.RateLimiter: libs/go/src/fault/ratelimit.go, with tokens and times as 64-bit words. Bucket
--   is the same bucket over natural numbers, Rate relates the two. `Wait` is a loop on the rounds
--   that its environment gives: what the clock shows, or the end of the context.
-- Fault.Bulkhead: libs/go/src/fault/bulkhead.go. A channel is the number of its elements, a caller
--   a place in `Execute`, and a step of a caller one channel operation or critical section. Counts
--   are natural numbers, since they are counts of callers.
-- Fault.Retry: libs/go/src/fault/retry.go, the loop. What a run meets, by the number of the
--   attempt, is a parameter (`Environment`); Trace says where a run ends.
-- Collections.Lru: libs/go/src/collections/lru.go. An element of the linked list is a number (its
--   pointer). Order and Coherence are about the list and the map, Recency about `Get`, Store about
--   `PutWithTTL`, Sweep and Cleanup about the loops of `Resize` and `Cleanup`, Refine about runs of
--   calls against a plain list of entries. Counters are natural numbers: they count calls.
-- Collections.PQueue: libs/go/src/collections/pqueue.go, with the functions of the standard
--   library's container/heap. Array is about reads and swaps, Order about heaps, Up and Down about
--   the two loops, Ops about single operations and Drain about rows of them.
-- Collections.Set: libs/go/src/collections/set.go. Members is about single operations, Build about
--   sets made by any of them, Equal about `Equals`.
-- Collections.Queue and Collections.Stack: libs/go/src/collections/queue.go. Order is about the
--   order in which the items leave.
-- Functional.Validated: libs/go/src/functional/validated.go. Traverse is about `SequenceValidated`,
--   `TraverseValidated` and the combinations.
-- Idempotency: libs/go/src/idempotency/store.go. Locks is about `Lock`, Kept about what `Get`
--   answers.
-- Pagination: libs/go/src/pagination/pagination.go, the pages by offset. Walk and Pages are about a
--   client that reads a list page by page.
-- Domain.Money: libs/go/src/domain/money.go. Arithmetic is about sums, differences and equality,
--   Text about what `String` prints.
-- Iam.Hierarchy: services/iam-policy/internal/rbac/hierarchy.go. Graph is the relation of the
--   parents; Cycle, Acyclic and Detect are about cycles, Ancestors about `GetAncestors`, Collect
--   and Effective about permissions and their cache.
-- FileUpload.Chunk: services/file-upload/internal/service/chunk/manager.go. The cache service, the
--   JSON of a session and SHA-256 are parameters (`Services`); Cache says what is relied on, and
--   SessionCodec instantiates it by a cache in memory. Session says what a session and the cache
--   hold together; Upload, Verify, Assemble and Abort are about the operations, and RoundTrip and
--   Restore about a whole upload.
-- FileUpload.Breaker: services/file-upload/internal/resilience/circuit_breaker.go, with its
--   counters as 64-bit words. Invariant is about runs of calls, Probes about the half-open state.
-- Resilience.SlidingWindow: libs/go/resilience/ratelimit/sliding_window.go. Spacing and Granted are
--   about the requests that a row of calls is granted.
-- FileUpload.Processor: services/file-upload/internal/async/processor.go. A step is one operation
--   on the channel of tasks, one critical section, or the end of a handler or of a sleep. State has
--   the invariant, Steps is about single steps, Accounts about rows of them, Delay about the delays.
-- FileUpload.Sanitizer: services/file-upload/internal/security/sanitizer.go. Deletion and Filename
--   are about `SanitizeFilename`, Split, Collapse and Path about `SanitizePath`.
-- Sdk.Token: sdk/go/src/token/extractor.go and schemes.go. Header is about
--   `ParseAuthorizationHeader`, Chain about `ChainedExtractor`.
-- Utils.Diff: libs/go/src/utils/diff/diff.go. Subsequence, Table, Backtrack and Fewest are about
--   the longest common subsequence, Patches and Custom about patching, Changed about the summaries;
--   Maps has `DiffMaps`.
-- Utils.Merge: libs/go/src/utils/merge/merge.go. Sort is about `MergeSliceOrdered`, Unique about
--   `SlicesUniqueBy`, Maps about the functions that merge maps.
--
-- Time. An instant is an integer number of nanoseconds; every operation takes what the clock
-- showed.
--
-- Fuel and loops. The loops over the parents of roles in Iam.Hierarchy run on fuel, as much as
-- there are stored roles and one more: each round visits a role for the first time, so that is
-- enough. The eviction loop of `Resize` has a round for each entry, and each round removes one. A
-- number is printed on as much fuel as its value. The sifts of the heap run on as much fuel as
-- there are places above or below, the search for double slashes on as much as the path is long
-- (FileUpload.Sanitizer.Collapse), and the client that reads a list page by page on as much as the
-- list has items (Pagination.Walk). All other loops are structural.
--
-- Not modelled. Locks are not: a method that holds its mutex throughout is one step, and where a
-- method lets go of it in between, the parts are steps of their own. Metrics and logs are left out.
-- Go's maps are ranged over in the order of the list that stands for them. The stored pointer of a
-- role is a value, so a caller that changes a role after adding it is not covered. Code in other
-- languages, adapters of networks, databases and Kubernetes, generated code and third-party
-- packages are out of scope.
pub mod Collections
pub mod Domain
pub mod Fault
pub mod FileUpload
pub mod Functional
pub mod Iam
pub mod Idempotency
pub mod Pagination
pub mod Prelude
pub mod Resilience
pub mod Sdk
pub mod Utils
