-- ===== src/Http/Status.antt =====
-- The table of the status lines of networking/http.c. It has no entry for the numbers between.
use c_utils.Base.{ℕ, Option, none, some, List, [], ◌∷◌, ◌==◌, ltb, if◌then◌else◌, codes}

-- The entries of C_UTILS_HTTP_Status_Codes that are not NULL.
abbrev pub status_codes : List (ℕ × List ℕ)
status_codes =
    (100, codes "100 Continue")
    ∷ (101, codes "101 Switching Protocols")
    ∷ (200, codes "200 OK")
    ∷ (201, codes "201 Created")
    ∷ (202, codes "202 Accepted")
    ∷ (203, codes "203 Non-Authoritative Information")
    ∷ (204, codes "204 No Content")
    ∷ (205, codes "205 Reset Content")
    ∷ (206, codes "206 Partial Content")
    ∷ (300, codes "300 Multiple Choices")
    ∷ (301, codes "301 Moved Permanently")
    ∷ (302, codes "302 Found")
    ∷ (303, codes "303 See Other")
    ∷ (304, codes "304 Not Modified")
    ∷ (305, codes "305 Use Proxy")
    ∷ (307, codes "307 Temporary Redirect")
    ∷ (400, codes "400 Bad Request")
    ∷ (401, codes "401 Unauthorized")
    ∷ (402, codes "402 Payment Required")
    ∷ (403, codes "403 Forbidden")
    ∷ (404, codes "404 Not Found")
    ∷ (405, codes "405 Method Not Allowed")
    ∷ (406, codes "406 Not Acceptable")
    ∷ (407, codes "407 Proxy Authentication Required")
    ∷ (408, codes "408 Request Timeout")
    ∷ (409, codes "409 Conflict")
    ∷ (410, codes "410 Gone")
    ∷ (411, codes "411 Length Required")
    ∷ (412, codes "412 Precondition Failed")
    ∷ (413, codes "413 Request Entity Too Large")
    ∷ (414, codes "414 Request-URI Too Long")
    ∷ (415, codes "415 Unsupported Media Type")
    ∷ (416, codes "416 Requested Range Not Satisfiable")
    ∷ (417, codes "417 Expectation Failed")
    ∷ (500, codes "500 Internal Server Error")
    ∷ (501, codes "501 Not Implemented")
    ∷ (502, codes "502 Bad Gateway")
    ∷ (503, codes "503 Service Unavailable")
    ∷ (504, codes "504 Gateway Timeout")
    ∷ (505, codes "505 HTTP Version Not Supported")
    ∷ (509, codes "509 Bandwidth Limit Exceeded")
    ∷ []

abbrev pub entry_of : List (ℕ × List ℕ) → ℕ → Option (List ℕ)
entry_of [] status = none
entry_of ((code, text) ∷ entries) status =
    let rest = entry_of entries status in if code == status then some text else rest

-- The entry that a response's status gives.
abbrev pub status_text : ℕ → Option (List ℕ)
status_text status = if ltb 509 status then none else entry_of status_codes status
