-- ===== src/Lib.antt =====
-- The rules of the Moddery API, a home for Minecraft projects: who may do what to whom, and what
-- each request leaves in the database, in the search index and in the cache.
--
-- The program is a NestJS server (apps/api) over PostgreSQL by way of Prisma, with OpenSearch, Redis,
-- ClickHouse and object storage beside it, and a web client (apps/web). Each resolver of its GraphQL
-- API calls one service, and the services hold the rules. This library is about the services, and about
-- the addresses that the web client reads and writes. The services share the tables: a suspension of an account (users) revokes rows that the check of a bearer token
-- (auth) reads, a decision of a moderator (catalog) writes a row, the index (search) and the cache
-- (redis), and an invitation that project-members.service.ts or organization-management.service.ts
-- writes is answered in teams.service.ts.
--
-- How the code is rendered. A handler is a function from the tables that it reads and writes to a
-- `Result`: the new tables with what else it sends, or the exception that it throws, with its message.
-- A throw leaves the tables as they were. The time, new identifiers and random bytes are arguments.
-- Identifiers are numbers where the code only compares them. A string is the list of its UTF-16 units,
-- which is what `length` counts; `toLowerCase` and `toUpperCase` change the ASCII letters and leave
-- other units as they are. `null` and `undefined` are both `none`, where the code
-- treats them alike. Of a row, the columns are kept that the handlers read or write.
--
-- Where another request may be served between the read and the write of a handler, as in Teams, the
-- handler takes what that request did to the table as the function `meanwhile`, and its theorems hold
-- for every such function. The other handlers are taken to run one at a time.
--
-- The files:
--   Base              the names that all share: tests, lists, text, exceptions, inputs, sets of text
--   Database          a table of Prisma as operations with the laws that its documentation states;
--                     Database/Memory is a list that meets them, for the tests
--   Users/Accounts    accounts, sessions and API tokens: apps/api/prisma/schema.prisma
--   Users/Friends     sendFriendRequest, acceptFriendRequest, removeFriend and blockUser:
--                     apps/api/src/users/services/user-friendship-actions.service.ts and
--                     user-friendship-contracts.ts
--   Users/Admin       updateUserAccount: apps/api/src/users/services/user-admin.service.ts
--   Auth/Base32       base32Encode and base32Decode, and
--   Auth/Totp         totpCode and verifyTotp, and
--   Auth/Reset        confirmPasswordReset and the transaction of requestPasswordReset, and
--   Auth/TwoFactor    login up to the session, setupTwoFactor, enableTwoFactor and disableTwoFactor:
--                     apps/api/src/auth/services/auth.service.ts
--   Auth/Bearer       verifyBearerToken and assertCredentialScopes:
--                     apps/api/src/auth/services/auth-token.service.ts and
--                     apps/api/src/auth/guards/jwt-auth.guard.ts
--   Catalog/Moderation  moderateProject: apps/api/src/catalog/services/project-moderation.service.ts,
--                     with indexProjects and deleteProject of apps/api/src/search/search.service.ts;
--                     Catalog/Moderation/Locks is project-moderation-locks.service.ts
--   Catalog/Follows   followProject and unfollowProject:
--                     apps/api/src/catalog/services/project-follows.service.ts
--   Catalog/Slugs     normalizeSlug and the checks of a new project:
--                     apps/api/src/catalog/services/project-write-model.ts and
--                     project-management.service.ts
--   Reports           the reports and their states: apps/api/src/reports/services/reports.service.ts
--   Teams             members and invitations:
--                     apps/api/src/catalog/services/project-members.service.ts,
--                     apps/api/src/organizations/services/organization-management.service.ts and
--                     apps/api/src/teams/services/teams.service.ts
--   Versions/Files    validateVersionFiles and createVersionFiles:
--                     apps/api/src/versions/services/version-files.ts
--   Auth/Tokens       createViewerToken, revokeViewerToken and the scopes that they take:
--                     apps/api/src/auth/services/api-tokens.service.ts and credential-scopes.ts; the
--                     tokens are the rows that Auth/Bearer reads
--   Collections       the collections of projects and the five requests of their owners, as steps in
--                     Collections/Requests: apps/api/src/collections/services/collections.service.ts
--   Notifications     sendNotification, sendUserNotification, updatePreference, enabledPreferences,
--                     unreadCount, markRead and markAllRead: notification-dispatch.service.ts,
--                     notification-preferences.service.ts and notifications.service.ts of
--                     apps/api/src/notifications/services
--   Developer         createViewerOAuthClient, revokeViewerOAuthClient and sanitizeRedirectUris:
--                     apps/api/src/developer/services/developer.service.ts
--   Scanner/Clamav    scanUrl, the frames that it sends to the ClamAV daemon and the reading of the
--                     reply: apps/api/src/scanner/clamav-scanner.service.ts
--   Web/Uri           encodeURIComponent and decodeURIComponent, which belong to the language, over
--                     UTF-16 and UTF-8
--   Web/Paths         the segments of a pathname, and
--   Web/Routing       the readers and writers of the pages: apps/web/src/app/routing.ts,
--                     apps/web/src/lib/projectTypes.ts and packages/shared/src/index.ts
--
-- Loops are structural recursion on their lists. The only fuel is that of the digits of a number in
-- Auth/Totp, which is the number itself: a number has at most one digit more than it counts.
--
-- Parameters stand for code outside the repository: the tables of Prisma (`Table`), the
-- case-insensitive comparison of the database (`same_name`, `contains`), bcrypt (`compare`, `hash`), the
-- digests of node:crypto (`hmac_sha1`, `hash_token`, `hash_secret`), the verification of JSON web tokens
-- (`verify_jwt`), the parser of URLs, the calendar of the server (`set_date`), the browser's assignment
-- of a pathname (`assign_pathname`), and the ClamAV daemon with the network before it. Four of them have
-- laws, which are the documented behaviour and hypotheses of the theorems that need them: the tables
-- (the fields of `Table`), the assignment of a pathname (`KeepsPlain`), the daemon (`IsDaemon`) and the
-- network (`IsUp`).
--
-- Not covered: the listings with their pages, the columns of the last use of a credential, the
-- delivery of notices, mail and audit records beyond their contents, scanFetchUrl, the views and the
-- queries of the web client, and the other services (registration and sessions, platform settings,
-- analytics, storage, search queries and the directories of users, organizations and versions).
pub mod Base
pub mod Database
pub mod Auth
pub mod Catalog
pub mod Collections
pub mod Developer
pub mod Notifications
pub mod Reports
pub mod Scanner
pub mod Teams
pub mod Users
pub mod Versions
pub mod Web
