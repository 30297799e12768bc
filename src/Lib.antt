-- ===== src/Lib.antt =====
-- Gafaelfawr: the login of users, the token service and its stores, the authorization of requests,
-- delegated tokens, the OpenID Connect server, the Kubernetes operator, administrators and UID
-- assignment.
--
-- Gafaelfawr (src/gafaelfawr) authenticates users and authorizes requests with bearer tokens. A
-- token is a random key and a secret. What it grants is in Redis under its key, encrypted; the SQL
-- database holds a row for every token, the tree of tokens that were made from other tokens, and
-- the history of changes. The services change both stores, and the database alone has transactions.
--
-- The modules and the code that they model:
--   Prelude      Boolean tests, lists, texts, dictionaries of texts (Dict), results (Result) and
--                methods that may raise and keep their state (Exec), for all other modules.
--   Errors       the exceptions of src/gafaelfawr/exceptions.py that the modelled code raises.
--   Credential   Token of src/gafaelfawr/models/token.py and OIDCAuthorizationCode of
--                src/gafaelfawr/models/oidc.py: from_str, __str__, is_token.
--   Models       the records of src/gafaelfawr/models; Models.Scopes is normalize_scopes of
--                src/gafaelfawr/util.py and the column that holds scopes.
--   Usernames    the username patterns of src/gafaelfawr/constants.py, and is_bot_user.
--   Storage      src/gafaelfawr/storage/token.py and the additions to the history of
--                src/gafaelfawr/storage/history.py. Database and Queries are TokenDatabaseStore over
--                tables as lists of rows, newest first; World is TokenRedisStore over the interface
--                Redis.Storage, and the transactions; Redis.Memory is an implementation of the
--                interface; Tree is the table of subtokens as a forest.
--   Tokens       TokenService of src/gafaelfawr/services/token.py: the checks (Checks), creation
--                (Create), removal (Delete) and modification (Modify).
--   Delegation   TokenCacheService of src/gafaelfawr/services/token_cache.py and the keys of
--                src/gafaelfawr/cache.py.
--                Delegation.Service has the checks of TokenService before the caches.
--   Headers      src/gafaelfawr/auth.py: Cookies and Authorization parse and clean the headers of
--                a request, Challenges are the 401 and 403 answers, Words the text methods.
--   Authenticate the class of src/gafaelfawr/dependencies/auth.py.
--   Ingress      src/gafaelfawr/handlers/auth.py, which NGINX asks about every request: it calls
--                Authenticate, then the checks, then Delegation, and cleans the Headers.
--   Login        the routes of src/gafaelfawr/handlers/login.py and src/gafaelfawr/handlers/logout.py
--                over a provider (Providers, the interface of src/gafaelfawr/providers/base.py),
--                Userinfo and Tokens. Session is the cookie of src/gafaelfawr/models/state.py,
--                Middleware is src/gafaelfawr/middleware/state.py, which reads and writes it, and
--                ReturnUrl is src/gafaelfawr/dependencies/return_url.py. OpenId is the provider of
--                src/gafaelfawr/providers/oidc.py, over answers of Http.
--   Oidc         src/gafaelfawr/services/oidc.py, src/gafaelfawr/storage/oidc.py and the routes
--                of src/gafaelfawr/handlers/oidc.py (Handlers): the clients, the claims of ID tokens
--                (Claims, IdToken), the codes in Redis, and how they are issued and redeemed for a
--                token of Tokens (Redeem).
--   Kubernetes   src/gafaelfawr/services/kubernetes.py, src/gafaelfawr/storage/kubernetes.py and
--                src/gafaelfawr/models/kubernetes.py: Ingresses and their Annotations, and the secrets
--                with tokens of Tokens (ServiceTokens).
--   Userinfo     src/gafaelfawr/services/userinfo.py, over an interface (Sources) of the services for
--                LDAP and Firestore; Quotas has the quotas of a user.
--   History      the pages of TokenChangeHistoryStore in src/gafaelfawr/storage/history.py and the
--                cursors of src/gafaelfawr/models/history.py.
--   Admins       src/gafaelfawr/services/admin.py and src/gafaelfawr/storage/admin.py.
--   Firestore    src/gafaelfawr/storage/firestore.py; Firestore.Service is get_uid of
--                src/gafaelfawr/services/firestore.py with its cache.
--
-- A method that may raise is a function from its state to a result and the new state, so that what
-- was written before an exception stays written. Times and durations are microseconds in natural
-- numbers, but whole seconds in History; they do not wrap around, as Python's integers do not.
-- Subtractions of the source are comparisons of sums here, except the lifetime in Redis, where a
-- time in the past gives zero, which Redis refuses like a negative one. The time of a call and the
-- token that it draws are arguments.
--
-- The loop of get_children runs on fuel, one more than the number of rows of the table, and raises
-- diverges without any left. That is enough if the table is a forest, as each step of the loop then
-- leaves at least one row behind.
--
-- Parameters, for code outside the repository: the Redis storage of the library safir, with the laws
-- Storage.Redis.IsLawful; the LRU caches of cachetools, about which nothing is supposed but, for
-- UIDs, Firestore.Service.IsFaithful; the codec of base64; urlparse and urlencode; the encryption of
-- cookies; PyJWT; the answers of login providers to requests over HTTP; the Kubernetes API; and
-- PostgreSQL's test of an address in a network. Ingress and Oidc take the answers of the user
-- information service as an argument, since they only read them. SQL and Firestore are modelled as
-- far as the queries use them: rows, primary and foreign keys, unique constraints, commit and
-- rollback. A commit fails only for a foreign key, not for a database that is lost; a read of a cache
-- leaves its state alone, as the order that it changes only decides what a later store evicts, about
-- which nothing is supposed.
--
-- Not modelled: the encryption of tokens in Redis, logging, metrics, the locks of asyncio (a request
-- runs alone), the web framework and the routes of the REST API, which pass their arguments to the
-- services, the wording of messages and pages, the GitHub provider, the LDAP storage and its caches,
-- the verification of JWTs that Gafaelfawr issued, the event handlers of the operator, the
-- configuration and the wiring of objects, the validators of request models other than those of
-- ingresses, the audit, the lists of tokens, the text form of cursors, and the user interface.
pub mod Prelude
pub mod Errors
pub mod Credential
pub mod Models
pub mod Storage
pub mod Usernames
pub mod Tokens
pub mod Firestore
pub mod Admins
pub mod Delegation
pub mod Headers
pub mod Authenticate
pub mod Ingress
pub mod Oidc
pub mod Userinfo
pub mod History
pub mod Login
pub mod Kubernetes
