-- ===== src/Lib.antt =====
-- Verification library of the Bolder Vibes backend, a NestJS service that lets users describe
-- an application in a chat, has a language model write its files, and builds and previews it
-- in containers.
--
-- A NestJS module is a service class with fields, and the clients that it is given. Here a
-- service is a record for its fields and for what its clients hold (the database, Redis, the
-- events sent), and its methods are functions on that record. A method that throws returns
-- `err` beside the state, since what was written before a throw stays written. Clients are
-- parameters with named laws where a theorem needs them: Prisma, bcrypt, the JWT signer, HMAC
-- and Redis in `Auth.Deps.AuthDeps`, Redis of the builds in
-- `Sandbox.ApkBuild.Service.ApkRedis` and of the previews in
-- `Sandbox.Preview.Service.PreviewRedis`, the tables of files and versions in `Files.Tables`
-- (shared by the files service and the tools of the chat), AES-GCM and base64 in
-- `Users.ExpoAccount.Crypto`, Redis and Docker of the tunnels in
-- `Sandbox.Preview.Native.NativeDeps`, the commands of Docker in `Sandbox.Docker.Docker` (laws
-- in `Sandbox.Docker.Laws`), JSON of a package.json in
-- `Sandbox.Preview.Framework.PackageJson`, Node's `path.resolve` in `ResolveLaws`. The tests
-- modules instantiate each of them with functions.
--
-- The parts, and the files of the repository that they are about:
--   Common            shared types: tests on numbers, lists, in-memory sets, actions that may throw
--   Agents.Retry      src/agents/utils/retry.ts: `withRetry`
--   Agents.Orchestrator  src/agents/orchestrator/agent-orchestrator.service.ts: `executeTask`,
--                     `cancelTask`, `applyFileChanges`, over the tables of Files
--   Sandbox.Regex     the regular expressions that the sanitizer uses, over UTF-16 code units
--   Sandbox.Sanitizer src/sandbox/command-sanitizer.ts: `sanitizeCommand`
--   Auth.Deps, Auth.Service  src/auth/auth.service.ts: register, login, refreshTokens, logout,
--                     forgotPassword, resetPassword
--   Files.Tables, Files.Service  src/files/files.service.ts, src/files/versioning/versioning.service.ts,
--                     and findById of src/projects/projects.service.ts
--   Chat.Loop         src/conversations/chat-ai.service.ts: `runAgenticLoop`
--   Chat.Tools        the same file: `executeToolCall` and its handlers
--   Chat.Streams      the same file: the map of active streams, `abortChat`
--   Gateway           src/gateway/events.gateway.ts: Events (what is sent), Sockets (connections,
--                     rooms, stopping, cancelling), Messages (handleSendMessage)
--   Users.ExpoAccount src/users/expo-account/expo-account.service.ts
--   Sandbox.ApkBuild  src/sandbox/apk-build/apk-build.service.ts and the types of
--                     src/sandbox/preview/preview.interface.ts: Service (startBuild, getStatus,
--                     markReady, markError, shutdown), Run (runLocalBuild, runCloudBuild,
--                     downloadFile), Download (getApkStream)
--   Sandbox.Preview   src/sandbox/preview/preview.service.ts: Service (startPreview, stopPreview,
--                     markReady, markError, the reaper, the reset), Worlds (overlapping calls,
--                     builds and watchers), Waits (waitForReady, waitForDatabase), Framework
--                     (detectFramework, what is asked of the container), Prepare (the work
--                     directory, with src/sandbox/preview/sdk-upgrade.ts)
--   Sandbox.Preview.Native  src/sandbox/preview/native-preview.service.ts: the tunnels
--   Sandbox.Docker    src/sandbox/runners/docker-runner.service.ts: containers, Runner (the
--                     operations), Build (the calls of buildAndStart)
--
-- Function names are those of the source in snake_case. A parallel method is split where it
-- awaits: `publish` and `enter` are the two halves of `startBuild` around the write to Redis;
-- `ApkBuild.Invariant` runs operations one after the other and `ApkBuild.Race` lets calls
-- overlap. `Preview.Worlds` cuts a start at the write of its state (`Preview.Resumed` cuts it
-- at the reads of its counts), and a build at its container, its server, in its `catch` and
-- before its `finally`; any order of these pieces is a run. The ids of rows are numbers, and
-- `id_text` gives their texts.
--
-- Fuel: `withRetry` recurses on the rounds left, `max_retries + 1` of them, as the source's
-- loop does. `downloadFile` has fuel 7, one more than the six requests that its limit on
-- redirects allows; the theorem on it includes that the fuel is never used up. The waits of
-- the previews have fuel for one round more than the timeout allows, and the theorem on them
-- includes that it is never used up. `runAgenticLoop` recurses on the rounds left, 25 of them,
-- the default limit of the source. Everything else is structural.
--
-- Not modelled: time to live of Redis keys and of tokens, logging, metrics other than the
-- build counters, the shell script inside a build container, failures of single file-system
-- calls in a build, losses of the connection to the database between two writes. The seeding
-- of an empty project, `ensurePrismaConfig`, the files of the native previews, commands and
-- log streams in containers, and the HTTP layer (controllers, guards, pipes; of the DTOs only
-- the limit on the content of an update) are not part of the library.
pub mod Common
pub mod Agents
pub mod Sandbox
pub mod Auth
pub mod Files
pub mod Chat
pub mod Gateway
pub mod Users
