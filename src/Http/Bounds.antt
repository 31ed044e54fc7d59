-- ===== src/Http/Bounds.antt =====
-- How long the fields and the values are that parse_http_request of networking/http.c adds, and how
-- large the size is that it gives.
use c_utils.Base.{
  ℕ, ◌+◌, ◌-◌, ◌*◌, ◌≡◌, ◌<◌, ◌≤◌, refl, sym, ap, ◌∙◌, subst, some-injective, Bool, inl, inr,
  Option, none, some, List, [], ◌∷◌, ◌++◌, arith, Bool-cases, get_or, ◌==◌, length, take,
  length-take, length-append,
}
use c_utils.Strings.{same_start}
use c_utils.Http.{
  http_text, Fields, Request, header_field_len, header_value_len, one_of, keep, tokens_from, tokens,
  lines_size, split_at, strdup, crlf, space, colon, add_parts, parse_http_field, parse_http_fields,
  request_word, request_words, request_rest, request_lines, parse_http_request,
}
use c_utils.Http.Tokens.{tokens_from-inside, tokens_from-end}

keep-lines_size :
    (word : List ℕ) (lines : List (List ℕ))
    → 2 * lines_size (keep word lines) ≤ 2 * lines_size lines + 3 * length word + 3
keep-lines_size [] lines = omega arith
keep-lines_size (c ∷ word) lines = omega arith

tokens_from-lines_size :
    (delims word str : List ℕ)
    → 2 * lines_size (tokens_from delims word str) ≤ 3 * (length word + length str) + 3
tokens_from-lines_size delims word [] = omega (arith, keep-lines_size word [])
tokens_from-lines_size delims word (c ∷ str) = elim (Bool-cases (one_of delims c)) [
  | inl e ↦
      let rest = tokens_from-lines_size delims [] str in
      let kept = keep-lines_size word (tokens delims str) in
      let size = ap lines_size (tokens_from-end delims word c str e) in
      omega (arith, rest, kept, size)
  | inr e ↦
      let rest = tokens_from-lines_size delims (word ++ c ∷ []) str in
      let size = ap lines_size (tokens_from-inside delims word c str e) in
      omega (arith, rest, size, length-append word (c ∷ []))
]

module _ {M : Type 0} (fields : Fields M) (memory : Bool) (Good : M → Type 0)
    (grows : (header : M) (field : List ℕ) (value : Option (List ℕ))
      → Good header
      → length field < header_field_len
      → ((text : List ℕ) → value ≡ some text → length text < header_value_len)
      → Good (fields.add header field value)) where
  strdup-short :
      (value text : List ℕ)
      → strdup memory (take (header_value_len - 1) value) ≡ some text
      → length text < header_value_len
  strdup-short value text e = elim (Bool-cases memory) [
    | inl m ↦
        let size = ap length (some-injective (rw m at e)) in
        omega (arith, size, length-take 1023 value)
    | inr m ↦ absurd (ground (arith, rw m at e))
  ]

  add_parts-Good :
      (header : M) (parts : Option (List ℕ × List ℕ))
      → Good header
      → Good (add_parts fields memory header parts)
  add_parts-Good header none g = g
  add_parts-Good header (some (field, value)) g =
      grows header (take 127 field) (strdup memory (take 1023 value)) g
        (omega (arith, length-take 127 field)) (strdup-short value)

  parse_http_fields-Good :
      (lines : List (List ℕ)) (header : M)
      → Good header
      → Good (parse_http_fields fields memory header lines)
  unfolding parse_http_fields parse_http_field
  parse_http_fields-Good [] header g = g
  parse_http_fields-Good (line ∷ lines) header g =
      parse_http_fields-Good lines (parse_http_field fields memory header line)
        (add_parts-Good header (split_at colon line) g)

  request_word-header :
      (req : Request M) (word : List ℕ) → (request_word fields memory req word).header ≡ req.header
  unfolding request_word
  request_word-header req word = elim (Bool-cases (same_start 4 word http_text)) [
    | inl h ↦ rw h refl
    | inr h ↦ elim (Bool-cases (get_or word 0 0 == 47)) [
      | inl p ↦ rw (h, p) refl
      | inr p ↦ rw (h, p) refl
    ]
  ]

  request_words-header :
      (words : List (List ℕ)) (req : Request M)
      → (request_words fields memory req words).header ≡ req.header
  unfolding request_words
  request_words-header [] req = refl
  request_words-header (word ∷ words) req =
      request_words-header words (request_word fields memory req word)
      ∙ request_word-header req word

  -- What a read request is to have: a good header, and a size that is not too large.
  pub record IsBounded (size : ℕ) (read : Request M × ℕ) : Type 0 where
    pub good : Good (read.0).header
    pub not_large : 2 * read.1 ≤ 3 * size + 7

  request_rest-IsBounded :
      (req : Request M) (line : List ℕ) (words lines : List (List ℕ)) (n : ℕ)
      → Good req.header
      → 2 * lines_size (line ∷ lines) ≤ 3 * n + 3
      → IsBounded n (request_rest fields memory req line words lines)
  unfolding request_rest
  request_rest-IsBounded req line [] lines n g h = record { good = g; not_large = omega arith }
  request_rest-IsBounded req line (word ∷ words) lines n g h = record {
    good =
        parse_http_fields-Good lines _
          (subst Good (sym (request_words-header (word ∷ words) req)) g);
    not_large = omega (arith, h);
  }

  request_lines-IsBounded :
      (req : Request M) (lines : List (List ℕ)) (n : ℕ)
      → Good req.header
      → 2 * lines_size lines ≤ 3 * n + 3
      → IsBounded n (request_lines fields memory req lines)
  unfolding request_lines
  request_lines-IsBounded req [] n g h = record { good = g; not_large = omega arith }
  request_lines-IsBounded req (line ∷ lines) n g h =
      request_rest-IsBounded req line (tokens space line) lines n g h

  -- Whatever the bytes are, parse_http_request adds only fields and values that are shorter
  -- than their buffers: what each such addition keeps of the map, it keeps; and twice the size
  -- that it gives is at most three times the length of the bytes and seven more.
  pub parse_http_request-IsBounded :
      (req : Request M) (header_str : List ℕ)
      → Good req.header
      → IsBounded (length header_str) (parse_http_request fields memory req header_str)
  unfolding parse_http_request
  parse_http_request-IsBounded req header_str g =
      request_lines-IsBounded req (tokens crlf header_str) (length header_str) g
        (omega (arith, tokens_from-lines_size crlf [] header_str))
