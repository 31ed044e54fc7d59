-- ===== src/Http/Reread.antt =====
-- The first line that c_utils_request_to_string of networking/http.c writes is read back by
-- parse_http_request.
use c_utils.Base.{
  ℕ, ◌+◌, ◌≡◌, ◌<◌, ◌≤◌, refl, sym, ap, ◌∙◌, true, some, List, [], ◌∷◌, ◌++◌, arith, length,
  length-append, ok,
}
use c_utils.Http.{
  Fields, Request, crlf, http_method_to_string, http_version_to_string, parse_http_request,
}
use c_utils.Http.Tokens.{take_short}
use c_utils.Http.RoundTrip.{IsPath, request_line, parse_http_request-message}
use c_utils.Http.Print.{header_len, with_path, with_version, request_start}

with_path-some :
    (method path version : List ℕ)
    → 0 < length path
    → with_path method (some path) (some version) ≡ with_version method path (some version)
with_path-some method [] version h = absurd (omega arith)
with_path-some method (c ∷ path) version h = refl

request_start-line :
    {M : Type 0} (req : Request M) (method path version : List ℕ)
    → http_method_to_string req.method ≡ some method
    → http_version_to_string req.version ≡ some version
    → req.path ≡ some path
    → IsPath path
    → length (request_line method path version) + 2 ≤ header_len
    → request_start true req ≡ ok (some (request_line method path version ++ crlf))
unfolding request_start
request_start-line req method path version em ev ep p short =
    let line = request_line method path version in
    rw (em, ev, ep)
      (with_path-some method path version (omega (arith, p.long))
        ∙ ap (λ l. ok (some l))
            (take_short header_len (line ++ crlf) (omega (arith, short, length-append line crlf))))

-- For a request with a method, a version and a path that is more than "/" and that the line has
-- room for, where there is memory: what c_utils_request_to_string has in its buffer after the
-- first line, with the empty line behind it, is read by parse_http_request as this request, to
-- the last byte, and the fields stay those of the request that is read into.
pub request_start-read :
    {M : Type 0} (fields : Fields M) (req old : Request M) (method path version : List ℕ)
    → http_method_to_string req.method ≡ some method
    → http_version_to_string req.version ≡ some version
    → req.path ≡ some path
    → IsPath path
    → length (request_line method path version) + 2 ≤ header_len
    → (head : List ℕ) × (request_start true req ≡ ok (some head))
      × (parse_http_request fields true old (head ++ crlf)
          ≡ (record req { header = old.header }, length (head ++ crlf)))
request_start-read fields req old method path version em ev ep p short = (
  request_line method path version ++ crlf,
  request_start-line req method path version em ev ep p short,
  parse_http_request-message fields old req.method req.version method path version [] em ev p _
      ∙ ap
          (λ q. (
            record { header = old.header; method = req.method; path = q; version = req.version },
            length ((request_line method path version ++ crlf) ++ crlf),
          ))
          (sym ep),
)
