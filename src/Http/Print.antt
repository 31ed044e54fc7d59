-- ===== src/Http/Print.antt =====
-- The start of c_utils_request_to_string and c_utils_response_to_string of networking/http.c: the checks
-- and the first line.
use c_utils.Base.{
  ℕ, Bool, Option, none, some, List, [], ◌∷◌, ◌++◌, if◌then◌else◌, take, Run, ok, fault,
}
use c_utils.Http.{Request, Response, crlf, http_method_to_string, http_version_to_string}
use c_utils.Http.Status.{status_text}

abbrev pub header_len : ℕ
header_len = 4096

-- Once the method, the path and the version are known: `*(req->path)` reads through the path, and
-- `snprintf` cuts off what does not fit.
abbrev pub with_version : List ℕ → List ℕ → Option (List ℕ) → Run (Option (List ℕ))
with_version method path none = ok none
with_version method path (some version) =
    ok (some (take header_len ((method ++ 32 ∷ (path ++ 32 ∷ version)) ++ crlf)))

abbrev pub with_path : List ℕ → Option (List ℕ) → Option (List ℕ) → Run (Option (List ℕ))
with_path method none version = fault
with_path method (some []) version = ok none
with_path method (some (c ∷ path)) version = with_version method (c ∷ path) version

abbrev pub with_method : Option (List ℕ) → Option (List ℕ) → Option (List ℕ) → Run (Option (List ℕ))
with_method none path version = ok none
with_method (some method) path version = with_path method path version

-- The buffer after the first line, or `none` where the function returns NULL.
unfoldable pub request_start : {M : Type 0} → Bool → Request M → Run (Option (List ℕ))
request_start memory req =
    if memory
    then with_method (http_method_to_string req.method) req.path
        (http_version_to_string req.version)
    else ok none

abbrev pub with_status : Option (List ℕ) → Option (List ℕ) → Option (List ℕ)
with_status none version = none
with_status (some status) none = none
with_status (some status) (some version) = some (take header_len ((version ++ 32 ∷ status) ++ crlf))

unfoldable pub response_start : {M : Type 0} → Bool → Response M → Option (List ℕ)
response_start memory res =
    if memory
    then with_status (status_text res.status) (http_version_to_string res.version)
    else none
