-- ===== src/Server/Access.antt =====
-- The interceptor of crates/settled-server/src/main.rs: the API key of a request.
use settled.Prelude.{[], ◌∷◌, ◌++◌, Option, none, some, Bool, false, if◌then◌else◌}
use settled.Prelude.Results.{Result, ok, err}
use settled.Core.Hash.{Bytes, bytes_eq}
use settled.Server.Status.{Status, unauthenticated, invalid_api_key}

-- The bytes of "Bearer ".
abbrev pub bearer : Bytes
bearer = 66 ∷ 101 ∷ 97 ∷ 114 ∷ 101 ∷ 114 ∷ 32 ∷ []

-- `is_some_and(|v| v.as_bytes() == …)` of the `authorization` metadata.
unfoldable pub carries : Bytes → Option Bytes → Bool
carries expected none = false
carries expected (some v) = bytes_eq v (bearer ++ expected)

-- The request goes on, or is refused; `api_key` is the server's.
unfoldable pub intercept : Option Bytes → Option Bytes → Result Status (Unit {0})
intercept none authorization = ok tt
intercept (some expected) authorization =
    if carries expected authorization then ok tt else err (unauthenticated invalid_api_key)
