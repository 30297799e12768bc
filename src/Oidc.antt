-- ===== src/Oidc.antt =====
-- The OpenID Connect server: src/gafaelfawr/services/oidc.py, src/gafaelfawr/storage/oidc.py and the
-- handlers of src/gafaelfawr/handlers/oidc.py. The splitting of URLs, the signing of tokens and the
-- user information are parameters.
pub mod Clients
pub mod Registered
pub mod Claims
pub mod Filtered
pub mod Codes
pub mod IdToken
pub mod Redeem
pub mod Handlers
mod Examples
