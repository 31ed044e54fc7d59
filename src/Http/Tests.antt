-- ===== src/Http/Tests.antt =====
-- The theorems on networking/http.c at concrete headers.
use c_utils.Base.{
  ℕ, ◌≡◌, ◌<◌, refl, true, Option, none, some, List, [], ◌∷◌, ◌++◌, ok, arith, All, length, codes,
}
use c_utils.Http.{
  Fields, Request, Response, http_no_method, http_get, http_no_ver, http_ver_1_0, http_ver_1_1,
  crlf, space, header_field_len, header_value_len, http_method_to_string, http_version_to_string,
  parse_http_request, parse_http_response, request_append,
}
use c_utils.Http.Tokens.{is_clean-IsClean}
use c_utils.Http.RoundTrip.{
  IsField, IsPath, request_line, message, add_entries, parse_http_request-message,
}
use c_utils.Http.Reply.{IsReason, status_line, parse_http_response-message}
use c_utils.Http.Print.{request_start}
use c_utils.Http.Reread.{request_start-read}
use c_utils.Http.Bounds.{IsBounded, parse_http_request-IsBounded}
use c_utils.Http.Status.{status_codes, entry_of}

abbrev Log : Type 0
Log = List (List ℕ × Option (List ℕ))

-- A map that keeps what was added, the newest first, and never looks at the rest.
abbrev log : Fields Log
log = record {
  add = λ header field value. (field, value) ∷ header;
  remove = λ header field. header;
  find = λ header field. none;
  clear = λ header. some [];
}

abbrev new_request : Request Log
new_request = record { header = []; method = http_no_method; path = none; version = http_no_ver }

abbrev new_response : Response Log
new_response = record { header = []; version = http_no_ver; status = 0 }

abbrev host : List ℕ × List ℕ
host = (codes "Host", codes "a:80")

abbrev path : List ℕ
path = codes "/a.html"

host-IsField : IsField host
host-IsField = record {
  no_colon = (refl, (refl, (refl, (refl, _))));
  field_clean = is_clean-IsClean crlf (codes "Host") refl;
  value_clean = is_clean-IsClean crlf (codes "a:80") refl;
  field_short = omega arith;
  value_short = omega arith;
}

path-IsPath : IsPath path
path-IsPath = record {
  slash = refl;
  long = omega arith;
  one_word = is_clean-IsClean space path refl;
  one_line = is_clean-IsClean crlf path refl;
}

abbrev text : List ℕ
text = message (request_line (codes "GET") path (codes "HTTP/1.1")) (host ∷ [])

-- The text is what one expects.
text_lem : text ≡ codes "GET /a.html HTTP/1.1\r\nHost: a:80\r\n\r\n"
text_lem = refl

get_text_lem : http_method_to_string http_get ≡ some (codes "GET")
unfolding http_method_to_string
get_text_lem = refl

version_text_lem : http_version_to_string http_ver_1_1 ≡ some (codes "HTTP/1.1")
unfolding http_version_to_string
version_text_lem = refl

parse_http_request-message_example : parse_http_request log true new_request text ≡ (
  record {
    header = add_entries log [] (host ∷ []);
    method = http_get;
    path = some path;
    version = http_ver_1_1;
  },
  length text,
)
parse_http_request-message_example =
    parse_http_request-message log new_request http_get http_ver_1_1 (codes "GET") path
      (codes "HTTP/1.1") (host ∷ []) get_text_lem version_text_lem path-IsPath (host-IsField, _)

abbrev not_found : List ℕ
not_found = codes "Not Found"

not_found-IsReason : IsReason not_found
not_found-IsReason = record {
  one_line = is_clean-IsClean crlf not_found refl;
  plain = ((refl, refl), ((refl, refl), _));
}

parse_http_response-message_example :
    parse_http_response log true new_response
      (message (status_line (codes "HTTP/1.1") 4 0 4 not_found) (host ∷ []))
    ≡ (
      record { header = add_entries log [] (host ∷ []); version = http_ver_1_1; status = 404 },
      length (message (status_line (codes "HTTP/1.1") 4 0 4 not_found) (host ∷ [])),
    )
parse_http_response-message_example =
    parse_http_response-message log new_response http_ver_1_1 (codes "HTTP/1.1") 4 0 4 not_found
      (host ∷ []) version_text_lem
      (record {
        first = omega arith;
        first_digit = omega arith;
        second_digit = omega arith;
        third_digit = omega arith;
      })
      not_found-IsReason (host-IsField, _)

-- Every key in the log fits the buffer.
abbrev Short : Log → Type 0
Short header = All (λ entry. length (entry.0) < header_field_len) header

keeps_short :
    (header : Log) (field : List ℕ) (value : Option (List ℕ))
    → Short header
    → length field < header_field_len
    → ((read : List ℕ) → value ≡ some read → length read < header_value_len)
    → Short (log.add header field value)
keeps_short header field value good short _ = (short, good)

parse_http_request-IsBounded_example :
    IsBounded log true Short keeps_short
      (length text)
      (parse_http_request log true new_request text)
parse_http_request-IsBounded_example =
    parse_http_request-IsBounded log true Short keeps_short new_request text _

abbrev page : Request Log
page = record { header = []; method = http_get; path = some path; version = http_ver_1_1 }

request_start-read_example :
    (head : List ℕ) × (request_start true page ≡ ok (some head))
    × (parse_http_request log true new_request (head ++ crlf)
        ≡ (record page { header = [] }, length (head ++ crlf)))
request_start-read_example =
    request_start-read log page new_request (codes "GET") path (codes "HTTP/1.1") get_text_lem
      version_text_lem refl path-IsPath (omega arith)

-- The reason of the status 505 has the word "HTTP", which is read as a bad version.
reason_505 : entry_of status_codes 505 ≡ some (codes "505 HTTP Version Not Supported")
reason_505 = refl

version_505 :
    parse_http_response log true new_response
      (codes "HTTP/1.1 505 HTTP Version Not Supported\r\n\r\n")
    ≡ (record { header = []; version = http_no_ver; status = 505 }, 43)
unfolding parse_http_response
version_505 = refl

-- The body behind the empty line is read as more fields.
body_read : parse_http_request log true new_request (codes "GET / HTTP/1.0\r\n\r\nkey: value") ≡ (
  record {
    header = (codes "key", some (codes "value")) ∷ [];
    method = http_get;
    path = some (codes "/index.html");
    version = http_ver_1_0;
  },
  30,
)
unfolding parse_http_request
body_read = refl

-- The size left over of a header without the empty line wraps around.
append_wraps : request_append log true new_request (codes "GET / HTTP/1.0") 14 ≡ (
  record {
    header = [];
    method = http_get;
    path = some (codes "/index.html");
    version = http_ver_1_0;
  },
  18446744073709551612,
  18,
)
unfolding request_append parse_http_request
append_wraps = refl
