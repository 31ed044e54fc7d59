-- ===== src/Http/Reply.antt =====
-- A response header of networking/http.c that is well formed is read as what it says.
use c_utils.Base.{
  ℕ, ◌+◌, ◌-◌, ◌*◌, ◌%◌, ◌^◌, ◌≡◌, ◌<◌, refl, ap, ap₂, ◌∙◌, true, false, some, List, [], ◌∷◌, ◌++◌,
  arith, ◌==◌, min, length, get_or, All, length-append,
}
use c_utils.Strings.{same_start}
use c_utils.Http.{
  Version, Fields, Response, http_text, crlf, space, one_of, tokens, lines_size, is_digit,
  digits_value, strtol, http_version_to_string, parse_http_status, parse_http_fields, response_word,
  response_words, response_rest, response_lines, parse_http_response,
}
use c_utils.Http.Tokens.{
  IsClean, IsWord, IsClean-append, tokens_next, lines_text, tokens-lines, length-lines_text,
}
use c_utils.Http.RoundTrip.{
  VersionText, version_text, IsField, field_lines, field_lines-IsWord, add_entries, message,
  parse_http_fields-entries,
}

-- Three digits, the first of which is not 0.
pub record IsCode (a b c : ℕ) : Type 0 where
  pub first : 0 < a
  pub first_digit : a < 10
  pub second_digit : b < 10
  pub third_digit : c < 10

abbrev pub code_text : ℕ → ℕ → ℕ → List ℕ
code_text a b c = (48 + a) ∷ (48 + b) ∷ (48 + c) ∷ []

-- A word that is neither taken for a version nor for a status.
abbrev pub IsPlain : List ℕ → Type 0
IsPlain word = (same_start 4 word http_text ≡ false) × (is_digit (get_or word 0 0) ≡ false)

-- No line ends in the reason, and each of its words is plain.
pub record IsReason (reason : List ℕ) : Type 0 where
  pub one_line : IsClean crlf reason
  pub plain : All IsPlain (tokens space reason)

-- "version status reason"
abbrev pub status_line : List ℕ → ℕ → ℕ → ℕ → List ℕ → List ℕ
status_line version a b c reason = version ++ 32 ∷ (code_text a b c ++ 32 ∷ reason)

digit : (a : ℕ) → a < 10 → is_digit (48 + a) ≡ true
digit a h = ground (arith, h)

code_text-not_http : (a b c : ℕ) → IsCode a b c → same_start 4 (code_text a b c) http_text ≡ false
code_text-not_http a b c k =
    let first : (48 + a == 72) ≡ false = ground (arith, k.first_digit) in rw first refl

-- No byte from '0' on is one of the delimiters.
no_space : (a : ℕ) → one_of space (48 + a) ≡ false
no_space a = ground arith

no_crlf : (a : ℕ) → one_of crlf (48 + a) ≡ false
no_crlf a = ground arith

code_text-IsWord : (a b c : ℕ) → IsWord space (code_text a b c)
code_text-IsWord a b c = ((no_space a, (no_space b, (no_space c, _))), omega arith)

code_text-one_line : (a b c : ℕ) → IsClean crlf (code_text a b c)
code_text-one_line a b c = (no_crlf a, (no_crlf b, (no_crlf c, _)))

code_text-digits_value :
    (a b c : ℕ) → IsCode a b c → digits_value 0 (code_text a b c) ≡ 100 * a + 10 * b + c
code_text-digits_value a b c k =
    rw (digits_value, digit a k.first_digit, digit b k.second_digit, digit c k.third_digit)
      (omega arith)

parse_http_status-code :
    (old a b c : ℕ) → IsCode a b c → parse_http_status old (code_text a b c) ≡ 100 * a + 10 * b + c
unfolding parse_http_status
parse_http_status-code old a b c k =
    let small : strtol (code_text a b c) % 2 ^ 32 ≡ 100 * a + 10 * b + c =
      ap (λ n. min n (2 ^ 63 - 1) % 2 ^ 32) (code_text-digits_value a b c k)
      ∙ omega (arith, k.first_digit, k.second_digit, k.third_digit) in
    let some_value : ((100 * a + 10 * b + c) == 0) ≡ false = ground (arith, k.first) in
    rw (small, some_value) refl

status_line-tokens :
    (version : List ℕ) (a b c : ℕ) (reason : List ℕ)
    → IsWord space version
    → tokens space (status_line version a b c reason)
      ≡ version ∷ code_text a b c ∷ tokens space reason
status_line-tokens version a b c reason v =
    tokens_next space version 32 (code_text a b c ++ 32 ∷ reason) v refl
    ∙ ap (◌∷◌ version) (tokens_next space (code_text a b c) 32 reason (code_text-IsWord a b c) refl)

status_line-IsWord :
    (version : List ℕ) (a b c : ℕ) (reason : List ℕ)
    → IsWord crlf version
    → IsClean crlf reason
    → IsWord crlf (status_line version a b c reason)
status_line-IsWord version a b c reason (v, some_byte) r = (
  IsClean-append crlf version (32 ∷ (code_text a b c ++ 32 ∷ reason)) v (
    refl,
    IsClean-append crlf (code_text a b c) (32 ∷ reason) (code_text-one_line a b c) (refl, r),
  ),
  omega (arith, length-append version (32 ∷ (code_text a b c ++ 32 ∷ reason))),
)

module _ {M : Type 0} (fields : Fields M) where
  response_word-version :
      (res : Response M) {version : Version} (word : List ℕ)
      → VersionText version word
      → response_word fields true res word ≡ record res { version = version }
  unfolding response_word
  response_word-version res word v = rw (v.is_http, v.reads) refl

  response_word-status :
      (res : Response M) (word : List ℕ)
      → same_start 4 word http_text ≡ false
      → is_digit (get_or word 0 0) ≡ true
      → response_word fields true res word
        ≡ record res { status = parse_http_status res.status word }
  unfolding response_word
  response_word-status res word h d = rw (h, d) refl

  response_word-code :
      (res : Response M) (a b c : ℕ)
      → IsCode a b c
      → response_word fields true res (code_text a b c)
        ≡ record res { status = 100 * a + 10 * b + c }
  response_word-code res a b c k =
      response_word-status res (code_text a b c) (code_text-not_http a b c k)
        (digit a k.first_digit)
      ∙ ap (λ n. record res { status = n }) (parse_http_status-code res.status a b c k)

  response_words-plain :
      (res : Response M) (words : List (List ℕ))
      → All IsPlain words
      → response_words fields true res words ≡ res
  unfolding response_words response_word
  response_words-plain res [] _ = refl
  response_words-plain res (word ∷ words) ((h, d), plain) =
      rw (h, d) (response_words-plain res words plain)

  -- Reading the words of the first line.
  response_words_line :
      (res : Response M) {version : Version} (version_word : List ℕ) (a b c : ℕ)
      (reason : List (List ℕ))
      → VersionText version version_word
      → IsCode a b c
      → All IsPlain reason
      → response_words fields true res (version_word ∷ code_text a b c ∷ reason)
        ≡ record { header = res.header; version = version; status = 100 * a + 10 * b + c }
  unfolding response_words
  response_words_line res {version} version_word a b c reason v k plain =
      let after_version = record res { version = version } in
      ap (λ r. response_words fields true r (code_text a b c ∷ reason))
        (response_word-version res version_word v)
      ∙ ap (λ r. response_words fields true r reason) (response_word-code after_version a b c k)
      ∙ response_words-plain _ reason plain

  -- parse_http_response, where there is memory, of a header with a version, a status of three
  -- digits, a reason none of whose words starts with "HTTP" or with a digit, and fields without
  -- a colon in their names and shorter than their buffers, reads all of them and gives the size
  -- of the header.
  pub parse_http_response-message :
      (res : Response M) (version : Version) (version_word : List ℕ) (a b c : ℕ) (reason : List ℕ)
      (entries : List (List ℕ × List ℕ))
      → http_version_to_string version ≡ some version_word
      → IsCode a b c
      → IsReason reason
      → All IsField entries
      → parse_http_response fields true res
          (message (status_line version_word a b c reason) entries)
        ≡ (
          record {
            header = add_entries fields res.header entries;
            version = version;
            status = 100 * a + 10 * b + c;
          },
          length (message (status_line version_word a b c reason) entries),
        )
  unfolding parse_http_response response_lines response_rest
  parse_http_response-message res version version_word a b c reason entries ev k r fs =
      let v = version_text version version_word ev in
      let line = status_line version_word a b c reason in
      let lines = line ∷ field_lines entries in
      let line_word =
        status_line-IsWord version_word a b c reason (v.one_line, v.word.1) r.one_line in
      let size : lines_size lines + 2 ≡ length (lines_text lines ++ crlf) =
        omega (arith, length-append (lines_text lines) crlf, length-lines_text lines) in
      ap (response_lines fields true res)
        (tokens-lines lines (line_word, field_lines-IsWord entries fs))
      ∙ ap (λ ws. response_rest fields true res line ws (field_lines entries))
          (status_line-tokens version_word a b c reason v.word)
      ∙ ap₂
          (λ (read : Response M) (n : ℕ). (
            record read {
              header = parse_http_fields fields true read.header (field_lines entries);
            },
            n,
          ))
          (response_words_line res version_word a b c (tokens space reason) v k r.plain) size
      ∙ ap
          (λ (h : M). (
            record { header = h; version = version; status = 100 * a + 10 * b + c },
            length (lines_text lines ++ crlf),
          ))
          (parse_http_fields-entries fields entries res.header fs)
