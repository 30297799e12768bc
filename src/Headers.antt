-- ===== src/Headers.antt =====
-- The headers of a request: src/gafaelfawr/auth.py. The children have the text methods, the
-- `Cookie` headers, the `Authorization` headers and the challenges.
pub mod Words
pub mod Cookies
pub mod Authorization
pub mod Challenges
mod Examples
