-- ===== src/Lib.antt =====
-- LocalCast: a server that shares folders, prints and receives uploads, and the clients that reach it.
--
-- The development models the core of the server in apps/server and of the client library in
-- packages/client-core. A device pairs behind the rate limiter, is told of changes by the event bus
-- over a text/event-stream, asks for parts of files with Range headers, and sends files in resumable
-- uploads. The parts are:
--
-- * RateLimit, for apps/server/src/auth/rateLimit.ts: `RateLimiter` with `checkGlobal` (check_global),
--   `checkPeer` (check_peer), `checkCode` (check_code), `penaliseCode` (penalise_code), `clearCode`
--   (clear_code), `evictIdle` (evict_idle) and `reset`. The clock is an argument. Tokens are exact
--   fractions over the window, where the program has floating point. `run` is any history of calls.
-- * Pairing, for `claim`, `registerFailure` and `uniqueName` of apps/server/src/auth/pairing.ts. A claim
--   waits for scrypt, so it is two functions, begin_claim and finish_claim, and the second is given
--   the row that the first has read. `verifyPassword` and `toUpperCase` are parameters.
--   Pairing.Approval has the rest of the file: `mint`, `status`, `approve` (begin_approve and
--   finish_approve, since it waits for scrypt too), `reject`, `pruneAbandoned` and `takeDavPassword`.
--   The log, the events and the payload of the QR code are left out.
-- * Tokens, for apps/server/src/auth/tokens.ts: `TokenService` with `verifyAccessToken`,
--   `issuePlaybackTicket`, `verifyPlaybackTicket`, `issueRefreshToken`, `issueSession`,
--   `redeemRefreshToken` (redeem), `revoke` and `touch`, over the table of devices, which Pairing uses
--   too. What comes from jose and node:crypto is the record `Crypto` of parameters.
-- * Middleware, for apps/server/src/auth/middleware.ts: `edgeSecretGuard`, `peerContext`,
--   `playbackTicketAuth` and `bearerAuth`, which ask Tokens, and `loopbackOnly`. `authenticate` is the
--   two in the order of apps/server/src/http/routes/device.ts. `decodeURIComponent` and the digest of
--   `secureEquals` are parameters.
-- * Printing, for apps/server/src/modules/print/jobs.ts and spooler.ts beside it: the rows of the print
--   queue, its events and its log in Printing; `run` as a machine that stops at every `await`, in
--   Printing.Running (`advance` goes from one to the next); `discoverJobId` and the readings of `watch` in
--   Printing.Polling; settings and statuses of the spooler in Printing.Spooler. Printing.Service puts
--   them together: the calls on the queue in any order, and the promise chain of each printer.
--   `discoverJobId` has forty rounds for each attempt, as in the program. What an `await` comes back
--   with is an argument. PowerShell, the list of printers and the routes are left out.
-- * Range and Serve, for apps/server/src/http/range.ts: `parseRangeHeader` (parse_range_header) and
--   `serveFile` (serve_file), which returns the response in the model. `toUTCString` and
--   `encodeURIComponent` are parameters. Left out are the Content-Type, the headers that never
--   change, and the clean-up of the read stream.
--   Range.Dav is `parseRangeHeader` of apps/server/src/modules/webdav/range.ts.
-- * Library, for `isInsideRoot`, `splitSegments` and `stripLongPathPrefix` of
--   apps/server/src/library/resolver.ts. IS_WINDOWS and `toLowerCase` are parameters.
--   Library.RelPath is its `sanitiseRelPath`, and Library.Resolver its `FsFileResolver`; the file
--   system and the functions of node:path are the parameter `FileSystem`, the loop over the depths of
--   `realpathOrDeepest` is recursion on the depth, and an error that is neither ENOENT nor, for `stat`,
--   a refusal counts as INTERNAL. Library.Permissions is `SqlPermissionService` of permissions.ts
--   beside it.
-- * Sse, for packages/client-core/src/sse.ts: `SseDecoder` with `push` and `reset`. The loop of `push`
--   has one round more than the buffer has code units, and each round takes at least one of them.
--   `Number` on a `retry` field is a parameter.
-- * Failover, for packages/client-core/src/origin-failover.ts: `OriginFailoverTransport` with
--   `request` (attempt) and `reset`. The transport inside is the parameter `run`, from an address to
--   a reply; `stream` runs the same loop. Requests do not overlap, and the log is left out.
-- * EventBus, for apps/server/src/events/bus.ts and the `send` of apps/server/src/http/routes/events.ts.
--   In-process observers are left out, and so is what a handler does.
-- * Uploads, for apps/server/src/modules/uploads/sessions.ts and paths.ts beside it: `create`,
--   `append`, `get`, `abort` and `finalize` with `reserveFreeName` in Uploads.Operations,
--   `sweepAbandoned` in Uploads.Sweeping, and `sanitizeRelativePath` in Uploads.Paths, over a state with
--   the table, the disk and what is published. The permission check, the folder's path,
--   `toLowerCase` and the functions of node:path are parameters. Calls do not overlap;
--   the chunks of a body come with their times, and a body may break off. Left out are directories,
--   file times, the operator's log and the details of activity entries. `reserveFreeName` has 999
--   rounds, as in the program.
-- * Contract, for packages/contract/src/errors.ts and permissions.ts: error codes, the exception that
--   carries one, without its message, and access modes.
-- * Js, for the functions of JavaScript that these call (`trim`, `split`, `Number` and `String` on
--   natural numbers), Maps and Sets for a `Map` and a `Set` of strings, and Base for what all modules
--   share.
--
-- Not modelled are the rest of WebDAV, the indexer of the library, certificates, the rest
-- of the client library, and the desktop and web interfaces; input and output, the database
-- and the network are left to the libraries that do them.
pub mod Base
pub mod Contract
pub mod RateLimit
pub mod Maps
pub mod Sets
pub mod Js
pub mod Tokens
pub mod Pairing
pub mod Library
pub mod Range
pub mod Serve
pub mod Sse
pub mod EventBus
pub mod Middleware
pub mod Failover
pub mod Printing
pub mod Uploads
