-- ===== src/Lib.antt =====
-- Verification library of the structure framework: the application packages under packages/, which
-- build on Effect. An Effect is modelled by what it does to the state it works on: a function from
-- the state, the arguments and the clock's reading to an answer and the next state. What fails is
-- a value of Result, what may be missing an Option, a Map its entries in insertion order
-- (Prelude.Dictionary). Numbers are natural numbers; instants and durations are milliseconds. Log
-- lines, metrics and the texts of error details are left out everywhere.
--
-- Prelude holds what the modules share: Boolean tests and equality (Tests), lists (Lists), texts
-- (Text), maps (Dictionary) and results (Results).
--
-- EventSourcing models packages/eventsourcing/src: the records of EventStore.ts (Event), and the
-- in-memory event store of memory.ts (Store: append, read, readAll), its history import (Import is
-- HistoryImport.ts, Commit is importBatch) and its stream erasure (Erasure is StreamErasure.ts and
-- eraseStream). The store's ref is EventStoreState, and each operation is one step of it, as the
-- semaphore makes it. SHA-256 over the canonical JSON, the schema of the metadata and the decoder
-- of an event are the record Codec, an argument. Invariant and its children are about the
-- well-formedness of a state, Reach about sequences of steps; Concurrency, Pinned, Retry and Feed
-- are about appends, erased streams, retried commands and reading.
--
-- Outbox models InMemoryOutbox of packages/eventsourcing/src/memory.ts with the records of
-- packages/eventsourcing/src/Outbox.ts (Store). Claiming is about `claim` and `pending`;
-- Invariant, Follows and Steps are about what an operation keeps, Reach about sequences of
-- operations of any number of relays; Exclusive and Fence are about leases and claim tokens. Relay
-- is `publishEntry`: its fuel is the number of attempts left, and what the other relays do comes
-- in as a function between the attempts. Inbox is InMemoryInbox and `dedupe`. The loops `drain`
-- and `run` are not modelled.
--
-- RateLimit models packages/http/src/rateLimit.ts: the in-memory store (Memory), the combined
-- answer of several keys and its headers (Outcome), and the middleware (Middleware) over any
-- store. A store is the record RateLimitStore; what the middleware relies on of one is
-- Combined.IsLawful, with the in-memory store as an instance. The handler and the rendering of its
-- failures are arguments. `hit > timestamp - windowMillis` is written `timestamp < hit +
-- windowMillis`, since subtraction stops at 0. clientIp and the Redis store are not modelled.
--
-- Auth models packages/auth/src: the records of model.ts and errors.ts (Model), the in-memory
-- store of store.ts (Store: users, passwords, tokens, sessions; Factors: identities, passkeys, the
-- second factor), and makeAuth of service.ts (Config: what validateTenantConfig and its neighbours
-- refuse; Sessions, Password, MagicLink, Oauth with Profile, Passkey: the operations), with
-- validateReturnTo of oauth.ts, totp.ts (Totp), makeTotp of twofactor.ts (TwoFactor), and the
-- cookies of session-slots.ts and service.ts (Cookie). An operation is a computation over a World
-- (Ports): the store, the clock, how many tokens were drawn, what was charged to the limiter, the
-- mails and the audit. What was written before an error stays written. The clock stands still
-- during a call, and one call runs at a time. The n-th random token, the hashes of tokens and
-- passwords, the limiter as a function of what it was charged, URLs, lower case, the providers,
-- the sealer, HMAC-SHA-1, and the verification of passkeys are arguments; no hypothesis is made on
-- any of them but where a theorem names one. A race for a recovery code is retried three times, as
-- the loop of consumeRecoveryCode does. In base32Encode, 12 bits are in hand at most, so its inner
-- loop runs on a fuel of 3. matchTotpCode is modelled from the second step on: at step 0 the step
-- before it is 0 again. The routes of http.ts, the authorization server, API keys, OpenID
-- providers, sealing, CBOR and the SQL stores are not modelled. Invariant and Soundness are about
-- what every operation keeps of the store, Reach about sequences of calls; Keeps and Leads are the
-- rules by which a computation keeps a predicate, or leads from one to another (Inversion: what a
-- step that succeeded went through; Opened: the session that was opened); SignIn, Waiting, Reset
-- with Spent, and Replay with Used are about what a sign-in, a session, a reset, and a code of the
-- second factor promise (Reads and Held: what a call that leaves the world as it is has read of it).
-- Totp.Texts and Totp.RoundTrip are about base32, the children of Cookie about what a browser
-- keeps and sends of a cookie.
--
-- Authorization models packages/authorization/src: principal.ts and condition.ts (Principal), the
-- validation of a definition (Validation), the resolution of a policy's roles (Policy) and its
-- decisions (Decision) of policy.ts. The principal that the fiber carries is an argument of the
-- checks, an issue and the reason of a decision are values instead of texts. A condition is looked
-- up as a property, and `name in object` holds of inherited property names too; what is iterated
-- over are own names. A guarded effect is a function of a world. `visit` and `resolve` run on
-- fuel, one more than there are roles: a call inside a call of `visit` is about one role more that
-- is visited, and a line of inheritance without a cycle has no more roles than there are. Counts
-- and Visits are about the visits, Cycles about what they find, Ending about the fuel of
-- `resolve`. Decisions take a policy with any resolved table. decode and toMarkdown are not
-- modelled.
--
-- Jobs models the queue of packages/jobs/src/scheduler.ts: a statement of SQL is a function on the
-- rows of the tables (Queue), and a worker's and a scheduling site's writes are made of them
-- (Worker). A claim takes its rows in one step, as FOR UPDATE SKIP LOCKED makes it; rows that are
-- due at the same instant are taken in one of the orders that SQL allows. The next fire of a cron
-- expression, the random number and the fresh ids are arguments. The worker's loop is not
-- modelled.
--
-- Jobs.Cron is the calculation of the next fire in packages/jobs/src/cron.ts: its search of 401
-- days is a recursion on the days left, and the calendar of Intl is the record Calendar, an
-- argument. What Fires says of the wall clock is for timezones whose offset is constant over the
-- days that are searched; where it changes, the code's one correction of the offset may miss the
-- hour. The parsing of an expression is not modelled.
mod Prelude
pub mod EventSourcing
pub mod Outbox
pub mod RateLimit
pub mod Auth
pub mod Authorization
pub mod Jobs
