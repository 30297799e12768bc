-- ===== src/Login/Http.antt =====
-- What a request of `httpx` gives, for the providers of src/gafaelfawr/providers.
use gafaelfawr.Prelude.{ℕ, Bool, ◌&&◌, Option, ltb, leb}

-- An `HTTPError` without a response, or a status and what the body holds, if it is JSON.
pub data Http (B : Type 0) : Type 0 where
  unreachable : Http B
  reply : ℕ → Option B → Http B

-- `raise_for_status` lets these through.
abbrev pub is_success : ℕ → Bool
is_success status = leb 200 status && ltb status 300
