-- ===== src/Http/RoundTrip.antt =====
-- A request header of networking/http.c that is well formed is read as what it says.
use c_utils.Base.{
  ℕ, ◌+◌, ◌≡◌, ◌<◌, refl, ap, ap₂, subst, ◌∙◌, some-injective, true, false, some, List, [], ◌∷◌,
  ◌++◌, arith, ◌==◌, length, get_or, All, length-append,
}
use c_utils.Strings.{same_start}
use c_utils.Http.{
  Method, http_no_method, http_get, http_post, http_head, http_delete, http_trace, http_connect,
  Version, http_no_ver, http_ver_1_0, http_ver_1_1, http_ver_1_x, Fields, Request, header_field_len,
  header_value_len, get_text, post_text, head_text, delete_text, trace_text, connect_text, text_1_0,
  text_1_1, text_1_x, http_text, crlf, space, tokens, lines_size, http_method_to_string,
  http_version_to_string, parse_http_method, parse_http_path, parse_http_version, parse_http_field,
  parse_http_fields, request_word, request_words, request_rest, request_lines, parse_http_request,
  add_parts,
}
use c_utils.Http.Tokens.{
  IsClean, is_clean, is_clean-IsClean, IsWord, IsClean-append, tokens_last, tokens_next, lines_text,
  tokens-lines, length-lines_text, split_at-colon, take_short,
}

-- A field and its value.
abbrev pub field_line : List ℕ × List ℕ → List ℕ
field_line (field, value) = field ++ 58 ∷ 32 ∷ value

-- The field has no colon, and neither of the two has an end of a line or is too long.
pub record IsField (entry : List ℕ × List ℕ) : Type 0 where
  pub no_colon : All (λ c. (c == 58) ≡ false) entry.0
  pub field_clean : IsClean crlf entry.0
  pub value_clean : IsClean crlf entry.1
  pub field_short : length entry.0 < header_field_len
  pub value_short : length entry.1 < header_value_len

-- A path starts with '/', has more than that, and has no space and no end of a line.
pub record IsPath (path : List ℕ) : Type 0 where
  pub slash : get_or path 0 0 ≡ 47
  pub long : 1 < length path
  pub one_word : IsClean space path
  pub one_line : IsClean crlf path

abbrev pub field_lines : List (List ℕ × List ℕ) → List (List ℕ)
field_lines [] = []
field_lines (entry ∷ entries) = field_line entry ∷ field_lines entries

-- The text of a request: "method path version", the fields, and an empty line.
abbrev pub request_line : List ℕ → List ℕ → List ℕ → List ℕ
request_line method path version = method ++ 32 ∷ (path ++ 32 ∷ version)

abbrev pub message : List ℕ → List (List ℕ × List ℕ) → List ℕ
message line entries = lines_text (line ∷ field_lines entries) ++ crlf

-- What the text of a method has, and what the text of a version has.
record MethodText (method : Method) (text : List ℕ) : Type 0 where
  word : IsWord space text
  one_line : IsClean crlf text
  not_http : same_start 4 text http_text ≡ false
  not_path : (get_or text 0 0 == 47) ≡ false
  reads : (old : Method) → parse_http_method old text ≡ method

pub record VersionText (version : Version) (text : List ℕ) : Type 0 where
  pub word : IsWord space text
  pub one_line : IsClean crlf text
  pub is_http : same_start 4 text http_text ≡ true
  pub reads : parse_http_version text ≡ version

method_known :
    (method : Method) (text : List ℕ)
    → is_clean space text ≡ true
    → is_clean crlf text ≡ true
    → 0 < length text
    → same_start 4 text http_text ≡ false
    → (get_or text 0 0 == 47) ≡ false
    → ((old : Method) → parse_http_method old text ≡ method)
    → MethodText method text
method_known method text a b c d e f = record {
  word = (is_clean-IsClean space text a, c);
  one_line = is_clean-IsClean crlf text b;
  not_http = d;
  not_path = e;
  reads = f;
}

version_known :
    (version : Version) (text : List ℕ)
    → is_clean space text ≡ true
    → is_clean crlf text ≡ true
    → 0 < length text
    → same_start 4 text http_text ≡ true
    → parse_http_version text ≡ version
    → VersionText version text
version_known version text a b c d e = record {
  word = (is_clean-IsClean space text a, c);
  one_line = is_clean-IsClean crlf text b;
  is_http = d;
  reads = e;
}

method_text :
    (method : Method) (text : List ℕ)
    → http_method_to_string method ≡ some text
    → MethodText method text
unfolding http_method_to_string parse_http_method
method_text http_no_method text e = absurd (cc)
method_text http_get text e =
    subst (MethodText http_get) (some-injective e)
      (method_known http_get get_text refl refl (omega arith) refl refl (λ old. refl))
method_text http_post text e =
    subst (MethodText http_post) (some-injective e)
      (method_known http_post post_text refl refl (omega arith) refl refl (λ old. refl))
method_text http_head text e =
    subst (MethodText http_head) (some-injective e)
      (method_known http_head head_text refl refl (omega arith) refl refl (λ old. refl))
method_text http_delete text e =
    subst (MethodText http_delete) (some-injective e)
      (method_known http_delete delete_text refl refl (omega arith) refl refl (λ old. refl))
method_text http_trace text e =
    subst (MethodText http_trace) (some-injective e)
      (method_known http_trace trace_text refl refl (omega arith) refl refl (λ old. refl))
method_text http_connect text e =
    subst (MethodText http_connect) (some-injective e)
      (method_known http_connect connect_text refl refl (omega arith) refl refl (λ old. refl))

pub version_text :
    (version : Version) (text : List ℕ)
    → http_version_to_string version ≡ some text
    → VersionText version text
unfolding http_version_to_string parse_http_version
version_text http_no_ver text e = absurd (cc)
version_text http_ver_1_0 text e =
    subst (VersionText http_ver_1_0) (some-injective e)
      (version_known http_ver_1_0 text_1_0 refl refl (omega arith) refl refl)
version_text http_ver_1_1 text e =
    subst (VersionText http_ver_1_1) (some-injective e)
      (version_known http_ver_1_1 text_1_1 refl refl (omega arith) refl refl)
version_text http_ver_1_x text e =
    subst (VersionText http_ver_1_x) (some-injective e)
      (version_known http_ver_1_x text_1_x refl refl (omega arith) refl refl)

path-not_http : (path : List ℕ) → IsPath path → same_start 4 path http_text ≡ false
path-not_http [] p = absurd (omega (arith, p.long))
path-not_http (c ∷ path) p = let here : c ≡ 47 = p.slash in rw here refl

request_line-tokens :
    (method path version : List ℕ)
    → IsWord space method
    → IsWord space path
    → IsWord space version
    → tokens space (request_line method path version) ≡ method ∷ path ∷ version ∷ []
request_line-tokens method path version a b c =
    tokens_next space method 32 (path ++ 32 ∷ version) a refl
    ∙ ap (◌∷◌ method)
        (tokens_next space path 32 version b refl ∙ ap (◌∷◌ path) (tokens_last space version c))

request_line-IsWord :
    (method path version : List ℕ)
    → IsWord crlf method
    → IsClean crlf path
    → IsClean crlf version
    → IsWord crlf (request_line method path version)
request_line-IsWord method path version (a, some_byte) b c = (
  IsClean-append crlf method (32 ∷ (path ++ 32 ∷ version)) a
      (refl, IsClean-append crlf path (32 ∷ version) b (refl, c)),
  omega (arith, length-append method (32 ∷ (path ++ 32 ∷ version))),
)

field_line-IsWord : (entry : List ℕ × List ℕ) → IsField entry → IsWord crlf (field_line entry)
field_line-IsWord (field, value) f = (
  IsClean-append crlf field (58 ∷ 32 ∷ value) f.field_clean (refl, (refl, f.value_clean)),
  omega (arith, length-append field (58 ∷ 32 ∷ value)),
)

pub field_lines-IsWord :
    (entries : List (List ℕ × List ℕ))
    → All IsField entries
    → All (IsWord crlf) (field_lines entries)
field_lines-IsWord [] _ = _
field_lines-IsWord (entry ∷ entries) (f, fs) =
    (field_line-IsWord entry f, field_lines-IsWord entries fs)

module _ {M : Type 0} (fields : Fields M) where
  -- The fields are added one after the other.
  abbrev pub add_entries : M → List (List ℕ × List ℕ) → M
  add_entries header [] = header
  add_entries header ((field, value) ∷ entries) =
      add_entries (fields.add header field (some value)) entries

  parse_http_field-entry :
      (header : M) (entry : List ℕ × List ℕ)
      → IsField entry
      → parse_http_field fields true header (field_line entry)
        ≡ fields.add header (entry.0) (some (entry.1))
  unfolding parse_http_field
  parse_http_field-entry header (field, value) f =
      ap (add_parts fields true header) (split_at-colon field value f.no_colon)
      ∙ ap₂ (fields.add header) (take_short 127 field (omega (arith, f.field_short)))
          (ap some (take_short 1023 value (omega (arith, f.value_short))))

  pub parse_http_fields-entries :
      (entries : List (List ℕ × List ℕ)) (header : M)
      → All IsField entries
      → parse_http_fields fields true header (field_lines entries) ≡ add_entries header entries
  unfolding parse_http_fields
  parse_http_fields-entries [] header _ = refl
  parse_http_fields-entries (entry ∷ entries) header (f, fs) =
      ap (λ h. parse_http_fields fields true h (field_lines entries))
        (parse_http_field-entry header entry f)
      ∙ parse_http_fields-entries entries (fields.add header (entry.0) (some (entry.1))) fs

  request_word-method :
      (req : Request M) {method : Method} (word : List ℕ)
      → MethodText method word
      → request_word fields true req word ≡ record req { method = method }
  unfolding request_word
  request_word-method req word m = rw (m.not_http, m.not_path, m.reads req.method) refl

  request_word-path :
      (req : Request M) (word : List ℕ)
      → IsPath word
      → request_word fields true req word ≡ record req { path = some word }
  unfolding request_word parse_http_path
  request_word-path req word p =
      let first : (get_or word 0 0 == 47) ≡ true = rw p.slash refl in
      let long : (length word == 1) ≡ false = ground (arith, p.long) in
      rw (path-not_http word p, first, long) refl

  request_word-version :
      (req : Request M) {version : Version} (word : List ℕ)
      → VersionText version word
      → request_word fields true req word ≡ record req { version = version }
  unfolding request_word
  request_word-version req word v = rw (v.is_http, v.reads) refl

  -- Reading the three words of the first line.
  request_words_line :
      (req : Request M) {method : Method} {version : Version}
      (method_word path version_word : List ℕ)
      → MethodText method method_word
      → IsPath path
      → VersionText version version_word
      → request_words fields true req (method_word ∷ path ∷ version_word ∷ [])
        ≡ record { header = req.header; method = method; path = some path; version = version }
  unfolding request_words
  request_words_line req {method} method_word path version_word m p v =
      let after_method = record req { method = method } in
      let after_path = record after_method { path = some path } in
      ap (λ r. request_words fields true r (path ∷ version_word ∷ []))
        (request_word-method req method_word m)
      ∙ ap (λ r. request_words fields true r (version_word ∷ []))
          (request_word-path after_method path p)
      ∙ request_word-version after_path version_word v

  -- parse_http_request, where there is memory, of a header with one of the six methods, a path
  -- that is more than "/", a version, and fields without a colon in their names and shorter
  -- than their buffers, reads all of them and gives the size of the header.
  pub parse_http_request-message :
      (req : Request M) (method : Method) (version : Version)
      (method_word path version_word : List ℕ) (entries : List (List ℕ × List ℕ))
      → http_method_to_string method ≡ some method_word
      → http_version_to_string version ≡ some version_word
      → IsPath path
      → All IsField entries
      → parse_http_request fields true req
          (message (request_line method_word path version_word) entries)
        ≡ (
          record {
            header = add_entries req.header entries;
            method = method;
            path = some path;
            version = version;
          },
          length (message (request_line method_word path version_word) entries),
        )
  unfolding parse_http_request request_lines request_rest
  parse_http_request-message req method version method_word path version_word entries em ev p fs =
      let m = method_text method method_word em in
      let v = version_text version version_word ev in
      let line = request_line method_word path version_word in
      let lines = line ∷ field_lines entries in
      let line_word =
        request_line-IsWord method_word path version_word (m.one_line, m.word.1) p.one_line
          v.one_line in
      let words =
        request_line-tokens method_word path version_word m.word (p.one_word, omega (arith, p.long))
          v.word in
      let size : lines_size lines + 2 ≡ length (lines_text lines ++ crlf) =
        omega (arith, length-append (lines_text lines) crlf, length-lines_text lines) in
      ap (request_lines fields true req)
        (tokens-lines lines (line_word, field_lines-IsWord entries fs))
      ∙ ap (λ ws. request_rest fields true req line ws (field_lines entries)) words
      ∙ ap₂
          (λ (read : Request M) (n : ℕ). (
            record read {
              header = parse_http_fields fields true read.header (field_lines entries);
            },
            n,
          ))
          (request_words_line req method_word path version_word m p v) size
      ∙ ap
          (λ (h : M). (
            record { header = h; method = method; path = some path; version = version },
            length (lines_text lines ++ crlf),
          ))
          (parse_http_fields-entries entries req.header fs)
