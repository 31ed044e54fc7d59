-- ===== src/Http.antt =====
-- networking/http.c: the parts of a header, how a request and a response are read from it, and the
-- calls on the fields. A string is the list of its bytes before the closing zero.
pub mod Status
pub mod Tokens
pub mod RoundTrip
pub mod Bounds
pub mod Reply
pub mod Access
pub mod Print
pub mod Reread
pub mod Tests
use c_utils.Base.{
  ℕ, zero, suc, ◌+◌, ◌-◌, ◌*◌, ◌%◌, ◌^◌, Bool, true, false, ◌||◌, ◌&&◌, Option, none, some, List,
  [], ◌∷◌, ◌++◌, map, ltb, leb, ◌==◌, if◌then◌else◌, length, take, drop, get_or, min, codes,
}
use c_utils.Strings.{same_start, lower_all}

pub data Method : Type 0 where
  http_no_method http_get http_post http_head http_delete http_trace http_connect : Method

pub data Version : Type 0 where
  http_no_ver http_ver_1_0 http_ver_1_1 http_ver_1_x : Version

-- The map of the fields: what the calls of c_utils_map_add, c_utils_map_remove, c_utils_map_get and
-- c_utils_map_clear do, the last of which may fail. A value is `none` where it is NULL.
pub record Fields (M : Type 0) : Type 0 where
  pub add : M → List ℕ → Option (List ℕ) → M
  pub remove : M → List ℕ → M
  pub find : M → List ℕ → Option (List ℕ)
  pub clear : M → Option M

pub record Request (M : Type 0) : Type 0 where
  pub header : M
  pub method : Method
  pub path : Option (List ℕ)
  pub version : Version

pub record Response (M : Type 0) : Type 0 where
  pub header : M
  pub version : Version
  pub status : ℕ

abbrev pub header_field_len : ℕ
header_field_len = 128

abbrev pub header_value_len : ℕ
header_value_len = 1024

abbrev pub get_text : List ℕ
get_text = codes "GET"

abbrev pub post_text : List ℕ
post_text = codes "POST"

abbrev pub head_text : List ℕ
head_text = codes "HEAD"

abbrev pub delete_text : List ℕ
delete_text = codes "DELETE"

abbrev pub trace_text : List ℕ
trace_text = codes "TRACE"

abbrev pub connect_text : List ℕ
connect_text = codes "CONNECT"

abbrev pub http_text : List ℕ
http_text = codes "HTTP"

abbrev pub text_1_0 : List ℕ
text_1_0 = codes "HTTP/1.0"

abbrev pub text_1_1 : List ℕ
text_1_1 = codes "HTTP/1.1"

abbrev pub text_1_x : List ℕ
text_1_x = codes "HTTP/1.X"

abbrev pub index_html : List ℕ
index_html = codes "/index.html"

abbrev pub colon : List ℕ
colon = codes ": "

abbrev pub crlf : List ℕ
crlf = codes "\r\n"

abbrev pub space : List ℕ
space = codes " "

-- strtok_r, call after call: the parts of the string between the delimiters that are not empty,
-- where `word` has been read.
abbrev pub one_of : List ℕ → ℕ → Bool
one_of [] c = false
one_of (d ∷ delims) c = (d == c) || one_of delims c

abbrev pub keep : List ℕ → List (List ℕ) → List (List ℕ)
keep [] words = words
keep (c ∷ word) words = (c ∷ word) ∷ words

abbrev pub tokens_from : List ℕ → List ℕ → List ℕ → List (List ℕ)
tokens_from delims word [] = keep word []
tokens_from delims word (c ∷ str) = elim (one_of delims c) [
  | true ↦ keep word (tokens_from delims [] str)
  | false ↦ tokens_from delims (word ++ c ∷ []) str
]

abbrev pub tokens : List ℕ → List ℕ → List (List ℕ)
tokens delims str = tokens_from delims [] str

-- `strstr`: what stands in front of the first delimiter, and what stands behind it.
abbrev pub put_front : ℕ → Option (List ℕ × List ℕ) → Option (List ℕ × List ℕ)
put_front c none = none
put_front c (some (front, back)) = some (c ∷ front, back)

abbrev pub split_at : List ℕ → List ℕ → Option (List ℕ × List ℕ)
split_at delimiter [] = none
split_at delimiter (c ∷ str) =
    let rest = put_front c (split_at delimiter str) in
    if same_start (length delimiter) (c ∷ str) delimiter
    then some ([], drop (length delimiter) (c ∷ str))
    else rest

-- `strdup`, by whether there is memory.
abbrev pub strdup : Bool → List ℕ → Option (List ℕ)
strdup memory str = if memory then some str else none

-- `strtol(line, NULL, 10)` where `line` starts with a digit, and `n` has been read
abbrev pub is_digit : ℕ → Bool
is_digit c = leb 48 c && leb c 57

abbrev pub digits_value : ℕ → List ℕ → ℕ
digits_value n [] = n
digits_value n (c ∷ str) =
    let rest = digits_value (n * 10 + (c - 48)) str in if is_digit c then rest else n

abbrev pub strtol : List ℕ → ℕ
strtol str = min (digits_value 0 str) (2 ^ 63 - 1)

unfoldable pub http_method_to_string : Method → Option (List ℕ)
http_method_to_string http_get = some get_text
http_method_to_string http_post = some post_text
http_method_to_string http_connect = some connect_text
http_method_to_string http_trace = some trace_text
http_method_to_string http_delete = some delete_text
http_method_to_string http_head = some head_text
http_method_to_string http_no_method = none

unfoldable pub http_version_to_string : Version → Option (List ℕ)
http_version_to_string http_ver_1_0 = some text_1_0
http_version_to_string http_ver_1_1 = some text_1_1
http_version_to_string http_ver_1_x = some text_1_x
http_version_to_string http_no_ver = none

-- The method that the request has stays where the line starts with none.
unfoldable pub parse_http_method : Method → List ℕ → Method
parse_http_method method line =
    if same_start 3 line get_text
    then http_get
    else if same_start 4 line post_text
    then http_post
    else if same_start 4 line head_text
    then http_head
    else if same_start 6 line delete_text
    then http_delete
    else if same_start 5 line trace_text
    then http_trace
    else if same_start 7 line connect_text
    then http_connect
    else method

unfoldable pub parse_http_path : Bool → List ℕ → Option (List ℕ)
parse_http_path memory line =
    if length line == 1 then strdup memory index_html else strdup memory line

-- The status that the response has stays where the number is 0, as an `int`.
unfoldable pub parse_http_status : ℕ → List ℕ → ℕ
parse_http_status status line =
    let read = strtol line % 2 ^ 32 in if read == 0 then status else read

unfoldable pub parse_http_version : List ℕ → Version
parse_http_version line =
    if same_start 8 (lower_all line) (lower_all text_1_1)
    then http_ver_1_1
    else if same_start 8 (lower_all line) (lower_all text_1_0)
    then http_ver_1_0
    else if same_start 8 (lower_all line) (lower_all text_1_x)
    then http_ver_1_x
    else http_no_ver

-- Without the bytes that the lines are separated by, each line counts for two more.
abbrev pub lines_size : List (List ℕ) → ℕ
lines_size [] = 0
lines_size (line ∷ lines) = length line + 2 + lines_size lines

module _ {M : Type 0} (fields : Fields M) (memory : Bool) where
  abbrev pub add_parts : M → Option (List ℕ × List ℕ) → M
  add_parts header none = header
  add_parts header (some (field, value)) =
      fields.add header (take (header_field_len - 1) field)
        (strdup memory (take (header_value_len - 1) value))

  unfoldable pub parse_http_field : M → List ℕ → M
  parse_http_field header line = add_parts header (split_at colon line)

  -- while ((line = strtok_r(NULL, "\r\n", &rest_of_lines)))
  unfoldable pub parse_http_fields : M → List (List ℕ) → M
  unfolding parse_http_field
  parse_http_fields header [] = header
  parse_http_fields header (line ∷ lines) = parse_http_fields (parse_http_field header line) lines

  unfoldable pub request_word : Request M → List ℕ → Request M
  unfolding parse_http_version parse_http_path parse_http_method
  request_word req line =
      if same_start 4 line http_text
      then record req { version = parse_http_version line }
      else if get_or line 0 0 == 47
      then record req { path = parse_http_path memory line }
      else record req { method = parse_http_method req.method line }

  -- do … while ((line = strtok_r(NULL, " ", &first_line)))
  unfoldable pub request_words : Request M → List (List ℕ) → Request M
  unfolding request_word
  request_words req [] = req
  request_words req (line ∷ words) = request_words (request_word req line) words

  -- The first line has been split into the words, and the other lines follow.
  unfoldable pub request_rest : Request M → List ℕ → List (List ℕ) → List (List ℕ) → Request M × ℕ
  unfolding request_words parse_http_fields
  request_rest req line [] lines = (req, 0)
  request_rest req line (word ∷ words) lines =
      let read = request_words req (word ∷ words) in
      (record read { header = parse_http_fields read.header lines }, lines_size (line ∷ lines) + 2)

  unfoldable pub request_lines : Request M → List (List ℕ) → Request M × ℕ
  unfolding request_rest
  request_lines req [] = (req, 0)
  request_lines req (line ∷ lines) = request_rest req line (tokens space line) lines

  unfoldable pub parse_http_request : Request M → List ℕ → Request M × ℕ
  unfolding request_lines
  parse_http_request req header_str = request_lines req (tokens crlf header_str)

  unfoldable pub response_word : Response M → List ℕ → Response M
  unfolding parse_http_version parse_http_status
  response_word res line =
      if same_start 4 line http_text
      then record res { version = parse_http_version line }
      else if is_digit (get_or line 0 0)
      then record res { status = parse_http_status res.status line }
      else res

  unfoldable pub response_words : Response M → List (List ℕ) → Response M
  unfolding response_word
  response_words res [] = res
  response_words res (line ∷ words) = response_words (response_word res line) words

  unfoldable pub response_rest :
      Response M → List ℕ → List (List ℕ) → List (List ℕ) → Response M × ℕ
  unfolding response_words parse_http_fields
  response_rest res line [] lines = (res, 0)
  response_rest res line (word ∷ words) lines =
      let read = response_words res (word ∷ words) in
      (record read { header = parse_http_fields read.header lines }, lines_size (line ∷ lines) + 2)

  unfoldable pub response_lines : Response M → List (List ℕ) → Response M × ℕ
  unfolding response_rest
  response_lines res [] = (res, 0)
  response_lines res (line ∷ lines) = response_rest res line (tokens space line) lines

  unfoldable pub parse_http_response : Response M → List ℕ → Response M × ℕ
  unfolding response_lines
  parse_http_response res header_str = response_lines res (tokens crlf header_str)

  -- The new `*header_size`, a `size_t`. It comes with how far behind `header` the returned pointer is.
  abbrev pub left_over : ℕ → ℕ → ℕ
  left_over header_size header_read = (header_size + 2 ^ 64 - header_read) % 2 ^ 64

  unfoldable pub request_append : Request M → List ℕ → ℕ → Request M × ℕ × ℕ
  unfolding parse_http_request
  request_append req header header_size =
      let (read, header_read) = parse_http_request req (take header_size header) in
      (read, left_over header_size header_read, header_read)

  unfoldable pub response_append : Response M → List ℕ → ℕ → Response M × ℕ × ℕ
  unfolding parse_http_response
  response_append res header header_size =
      let (read, header_read) = parse_http_response res (take header_size header) in
      (read, left_over header_size header_read, header_read)

-- By whether there is memory, and the map that c_utils_map_create returns.
unfoldable pub request_create : {M : Type 0} → Bool → Option M → Option (Request M)
request_create false made = none
request_create true none = none
request_create true (some header) =
    some (record { header = header; method = http_no_method; path = none; version = http_no_ver })

unfoldable pub response_create : {M : Type 0} → Bool → Option M → Option (Response M)
response_create false made = none
response_create true none = none
response_create true (some header) =
    some (record { header = header; version = http_no_ver; status = 0 })

module _ {M : Type 0} (fields : Fields M) where
  abbrev pub cleared_request : Request M → Option M → Bool × Request M
  cleared_request req none = (false, req)
  cleared_request req (some header) = (
    true,
    record { header = header; method = http_no_method; path = none; version = http_no_ver },
  )

  unfoldable pub request_clear : Request M → Bool × Request M
  request_clear req = cleared_request req (fields.clear req.header)

  abbrev pub cleared_response : Response M → Option M → Bool × Response M
  cleared_response res none = (false, res)
  cleared_response res (some header) =
      (true, record { header = header; version = http_no_ver; status = 0 })

  unfoldable pub response_clear : Response M → Bool × Response M
  response_clear res = cleared_response res (fields.clear res.header)

  unfoldable pub request_set_field : Request M → List ℕ → List ℕ → Request M
  request_set_field req field values = record req {
    header = fields.add (fields.remove req.header field) field (some values);
  }

  unfoldable pub response_set_field : Response M → List ℕ → List ℕ → Response M
  response_set_field res field values = record res {
    header = fields.add (fields.remove res.header field) field (some values);
  }

  unfoldable pub request_remove_field : Request M → List ℕ → Request M
  request_remove_field req field = record req { header = fields.remove req.header field }

  unfoldable pub response_remove_field : Response M → List ℕ → Response M
  response_remove_field res field = record res { header = fields.remove res.header field }

  unfoldable pub request_get_field : Request M → List ℕ → Option (List ℕ)
  request_get_field req field = fields.find req.header field

  unfoldable pub response_get_field : Response M → List ℕ → Option (List ℕ)
  response_get_field res field = fields.find res.header field
