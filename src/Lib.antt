-- ===== src/Lib.antt =====
-- LMS SaaS: a multi-tenant learning platform of TypeScript services. Each service keeps its state
-- behind a store interface with an in-memory and a Postgres implementation; the model follows the
-- interface and the in-memory implementation.
--
-- The parts and their files:
-- - Tenant: services/tenant/src. Tenant/Registry.antt is the registry of tenants (store.ts,
--   store.memory.ts), Tenant/Provisioning.antt the provisioning of tenants, their slugs and the
--   subtree of a district, Tenant/Runs.antt the rows of silo-promotion runs (silo.saga.memory.ts).
--   Tenant/Saga.antt and its children are the promotion engine of silo.saga.ts over the port of
--   silo.ts: Engine has the `try` block step by step, `compensate` and the `catch` block; Contract
--   says what the engine's stores and port owe it; Steps, Recovery and Atomicity prove that a
--   promotion is all or nothing; Memory runs the engine over the two memory stores and proves that
--   they keep the contract. A call of a store or the port is a function from a world to a result,
--   returned or thrown, and the world after it, so that any call may fail.
--   Tenant/Delegation.antt and its children are the delegated administration of sub-tenants:
--   Hierarchy walks up the parent links (delegation.ts), Store is delegation.memory.ts with the
--   routes of delegation.routes.ts, Scope the invariant that the calls keep.
-- - Identity: services/identity/src. Identity/Authz.antt is the org-scoped permission check with its
--   store and routes (authz.ts, authz.memory.ts, authz.routes.ts), Identity/Rbac.antt the management
--   of roles (rbac.ts, rbac.memory.ts).
-- - Calendar: Calendar/Feed.antt is the iCalendar text of services/calendar/src/ical.ts.
-- - Assessment: services/assessment/src. Assessment/Grading.antt grades a response (store.ts),
--   Assessment/Records.antt has the rows, Assessment/Store.antt the question libraries and quizzes
--   and Assessment/Attempts.antt and its child Submission the attempts (store.memory.ts).
-- - UserOrg: services/user-org/src. UserOrg/Consent.antt is parental consent (consent.ts,
--   consent.memory.ts), UserOrg/Guardian.antt the links of guardians (guardian.ts,
--   guardian.memory.ts), with the routes over both in Guardian/Routes.antt and Guardian/Admin.antt.
-- - Rubric: services/rubric/src. Rubric/Scoring.antt is the tally (scoring.ts), Rubric/Store.antt the
--   store of rubrics and outcomes (store.memory.ts).
-- - Assignment: services/assignment/src. Assignment/Store.antt has assignments and submissions
--   (store.ts, store.memory.ts), Assignment/Groups.antt the groups (groups.ts, groups.memory.ts);
--   Submissions and Membership prove the late policy and one group per learner.
-- - Discussion: services/discussion/src. Discussion/Store.antt is the store of forums, topics and posts
--   (store.ts, store.memory.ts). The while loop of a deletion runs on fuel, one round more than there
--   are posts; Discussion/Cascade.antt shows that to be enough.
-- - Enrollment: services/enrollment/src. Enrollment/Store.antt is store.memory.ts, operation by
--   operation; Enrollment/SelfReg.antt is selfreg.memory.ts: policies, requests and the set of
--   seat keys `tenant:section:user`.
-- - RateLimit: packages/ratelimit/src/index.ts, and the gateway's guard on it
--   (services/gateway/src/ratelimit.ts) in RateLimit/Gateway.antt.
-- - Audit: services/audit/src. Audit/Json.antt is `stableStringify` on JSON values,
--   Audit/Chain.antt the hash chain (chain.ts), Audit/Store.antt the log (store.memory.ts);
--   Audit/Integrity proves what verification vouches for. SHA-256 is a parameter.
-- - Relay: services/relay/src and packages/events/src/transport.ts. Relay/Store.antt drains the
--   outbox through any delivery that returns or throws, Relay/Consumer.antt is the notification
--   consumer, Relay/Inbox.antt its deduplication.
-- - Notification: services/notification/src. Notification/Plan.antt is the fan-out planner
--   (store.ts), Notification/Store.antt the inbox and the preferences (store.memory.ts).
-- - Prelude: strings as lists of UTF-16 code units, the array methods the stores use, maps, integers.
--
-- What a call reads from outside (`generateId()`, `now()`) is an argument of the call. Arrays are
-- lists, an assignment to the object that `find` returns is an update of the first match. Numbers
-- are naturals: timestamps are epoch milliseconds, and a subtraction is written with its guard. Only
-- the points of the assessment service are integers, which count hundredths and may be negative.
-- The bounded loops are those of `listSubtree` and `isDescendantOf`, each with the 64 rounds of the
-- source. SHA-256, the
-- Unicode tables behind `trim` and `toLowerCase`, and `localeCompare` are parameters.
--
-- Not modelled: the Postgres stores, HTTP routing and validation, the web applications, and the
-- other services.
pub mod Prelude
pub mod Assessment
pub mod Identity
pub mod RateLimit
pub mod Calendar
pub mod Discussion
pub mod Enrollment
pub mod Assignment
pub mod Audit
pub mod Notification
pub mod Relay
pub mod Rubric
pub mod Tenant
pub mod UserOrg
