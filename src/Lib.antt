-- ===== src/Lib.antt =====
-- Verification of the aoox API (the repository hideandseeklab/aoox-api).
--
-- The program is the backend of a deployment panel: it keeps projects, applications, databases and
-- variable sets in PostgreSQL, drives Docker daemons, and watches what it deployed. Paths below are
-- from the repository's root.
--
-- What is modelled, and where:
--
-- * Monitor (src/modules/http-monitor/monitor-state.ts): the alerting rule of HTTP monitors,
--   `nextState`, `isDue` and `shouldRealert`. A `Date` is its number of milliseconds. The service
--   around it (http-monitor.service.ts and http-probe.ts beside it) is in Monitor/Rows (the row, the
--   checks and the incidents of one monitor, newest first), Monitor/Probe (`validateMonitorPath`,
--   `parseExpectedCodes`), Monitor/Config (`saveConfig`, `resetState`, `importConfig`) and
--   Monitor/Check (`check`, `transition`, the loop of `runDue`). The target and the answer of a probe
--   are arguments, `decodeURIComponent` is one too, and queries are taken to answer in order of time.
-- * EnvText (src/modules/variable-set/env-text.ts): `parseEnvLines` and `envMap` in EnvText,
--   `setValues` with its notes in EnvText/Write. A text is the list of its code units. The notes are
--   a plain object, so a name that it lacks may still be one that it inherits: `note_of` says which.
--   EnvText/Objects has the flags of secrets, which are such an object too, EnvText/Notes
--   `extractNotes` and `normalizeEnvText`, EnvText/Flags `nextFlags` and `isSecretValue`,
--   EnvText/References the matches of `REFERENCE`, EnvText/Validate `keysOf` and
--   `validateEnvironmentText`, and EnvText/Compare the summaries and comparisons. The pattern of a
--   reference is matched by hand: no part of it can hold the code unit that ends it. Left out is
--   `rewriteProjectReferences`, which only migrations and imports of older files call.
-- * Access (src/modules/project/project-access.service.ts and src/modules/auth/request-context.ts):
--   `accessibleProjectIds`, `projectRoles` and `roleFor` in Access, `assertAccess`,
--   `assertCanExport`, `canReadSecrets` and `assertAdmin` in Access/Rules. The answers of the
--   database are the parameter `Tables`; what a theorem needs of them is the record `Answers`. The
--   request in the asynchronous store is an argument, `none` in background work.
-- * SetAccess (src/modules/variable-set/variable-set-access.service.ts and variable-scope.ts):
--   `setRoleFor`, `mayUseValues`, `assertValues` and `variableScopeAllows`.
-- * Deploy (src/modules/application/deployment-runner.service.ts and
--   src/modules/docker/start-with-port-retry.ts): `replaceContainer` with `recoverPrevious`,
--   `removeFailed`, `waitHealthy` and `startWithPortRetry` in Deploy/Replace. The daemon, with its
--   clock, is the parameter `Engine`: each call takes a state to the next one and may throw. What
--   the theorems need of it are the records `Clock` (Deploy/Fuel) and `Answers` (Deploy/Serving). A
--   line that `replaceContainer` writes to the log is left out, with a write of it that fails, and
--   what a container is created with (labels, mounts, environment) is inside the call that creates
--   it. A whole deployment is in Deploy/Run (`run`, `rollback`), over Deploy/Build
--   (`pullSourceImage`, `buildTargets`, `buildImage`) and Deploy/Runner (`DeploymentLog` without its
--   text, `persistOutcome`, `recordFailure`, `statusAfterFailure`, `failureNote`;
--   deployment-steps.ts and follow-revert.ts beside it). Builders, registries and the writes of the
--   application's row are the parameter `Services`, and so are the saves of the deployment with its
--   log: they may throw. The secrets that the log knows are a part of the world, and the message of
--   a failure is masked with them. An image reference that is empty counts as none.
-- * Alert (src/modules/resource-alert/alert-evaluation.ts): `evaluateBreach` and `nextAlertState`. A
--   `Date` is its number of milliseconds, a percentage an exact fraction: where the program divides
--   floats, a value within their rounding of the threshold may compare differently. A history of
--   evaluations (Alert/Machine) is a list, the newest first. The service around the rules
--   (resource-alert.service.ts beside it) is in Alert/Service (`saveRule`, `resetState`, `view`,
--   `evaluateAll`) and Alert/Transfer (`exportConfig`, `importConfig`), over the two rows of one owner.
--   What the queries of `evaluateAll` find, and whether a row can be saved, is the argument
--   `Circumstances` of each visit.
-- * Semver (src/modules/registry/semver.ts): `compareSemver`, `newestVersion` and `isNewer`, over any
--   `parseSemver`. The parts of a version are unbounded; the program reads them as floats.
-- * Moves (src/modules/application/previous-daemons.ts): `recordMove` and `pendingDaemons`; a chain of
--   moves (Moves/Chain) is a list of destinations, the newest first. Moves/Retire has
--   `removeApplicationContainers` and `retirePreviousDaemons` of the deployment runner: whether a
--   daemon answers, whether a container can be removed and whether the row can be written are
--   arguments. Certificates, which are synchronised afterwards, are left out. The daemon of an empty
--   id is the host's, as for `forServer` (src/modules/server/remote-docker.service.ts).
-- * Redact (src/modules/application/log-redaction.ts): `Redactor` and `StreamRedactor`. A loop over
--   positions that stops at a test is `first_from`; the test includes the search for the first
--   character. `encodeURIComponent` is an argument.
-- * Resolver (src/modules/application/env-resolver.service.ts): `resolve`, without the values that it
--   hands to the masking of logs. The matches of the pattern of a reference in a value, what the secret
--   source answers and the fields of a database are arguments. An entry of the result is a pair of the
--   key and the value.
-- * Environments (src/modules/variable-set/variable-set-environment.service.ts): the table of the
--   environments is a list of rows, each with its versions. Environments/Commit has `transact` and
--   `commit`, Environments/Service `reveal`, `update`, `restoreVersion` and the lists of versions,
--   Environments/Promote, Environments/Diff and Environments/Manage the rest. An operation is one step
--   on the table; Environments/Runs has sequences of steps by any callers. One of them is the
--   insertion of an environment by an import. What `access.load` finds, the stamps that the database
--   gives and its answer to an insertion or a deletion are arguments, a time is a number, and so is
--   the id of a row. Encryption is left out: a column holds the text, or null for a blank one. What
--   the database keeps of the flags is `stored_flags`.
-- * HostPorts (src/modules/host-port/host-port-conflicts.ts): `hostPortConflicts`, over the rows and
--   the containers that its caller has read. Of a container it has what the rule reads.
-- * Links (src/modules/variable-set/variable-set-link.service.ts): `linkConflicts`; Links/Effective
--   sets it beside the merge of the layers in Resolver.
--
-- Prelude holds what they share: Boolean tests, lists over the native numbers, texts with the string
-- methods of the language, and the language's `Map`.
--
-- Recursion is structural everywhere, but for four loops on fuel.
-- `waitHealthy` polls at most every 2 s for 105 s, so that 53 polls are enough. `replaceContainer`
-- calls itself through `recoverPrevious` only for the image that was current, and that call makes no
-- further one, so that fuel 2 is enough. Each round of `safeLength` but the last makes the cut smaller,
-- so that one round more than the text is long is enough. A number has at most as many digits as it
-- counts, so that `decimal` has fuel for them.
--
-- Not modelled: HTTP controllers and their data transfer objects, entities and migrations, the
-- clients of Docker, of registries and of DNS providers, mail and chat notifications, and the pages
-- of the panel. They are input, output or glue around the rules above.
mod Prelude
pub mod Monitor
pub mod EnvText
pub mod Environments
pub mod HostPorts
pub mod Links
pub mod Access
pub mod SetAccess
pub mod Deploy
pub mod Alert
pub mod Semver
pub mod Moves
pub mod Redact
pub mod Resolver
