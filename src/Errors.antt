-- ===== src/Errors.antt =====
-- The exceptions of src/gafaelfawr/exceptions.py that the modelled code raises or passes on, and
-- two that the stores raise: a violated SQL constraint, and a Redis reply that is an error.
-- `runtime_error`, `value_error` and `key_error` are Python's own, `jwt_error` is any `InvalidTokenError`
-- of PyJWT, and `diverges` stands for a loop that does not end.
pub data Error : Type 0 where
  duplicate_admin duplicate_token_name invalid_client_id invalid_csrf invalid_cursor : Error
  invalid_delegate_to invalid_expires invalid_minimum_lifetime invalid_scopes : Error
  invalid_service permission_denied return_uri_mismatch : Error
  invalid_client invalid_grant unsupported_grant_type : Error
  invalid_request invalid_token insufficient_scope : Error
  firestore_not_initialized no_available_gid no_available_uid : Error
  integrity_error redis_error diverges runtime_error value_error key_error : Error
  invalid_return_url no_scopes ldap_error kubernetes_error : Error
  github_error github_web_error oidc_error oidc_not_enrolled oidc_web_error : Error
  fetch_keys invalid_token_claims missing_username_claim : Error
  unknown_algorithm unknown_key_id jwt_error : Error
