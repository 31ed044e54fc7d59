-- ===== src/Http/Tokens.antt =====
-- What strtok_r and strstr give on the lines and words that a header of networking/http.c is made of.
use c_utils.Base.{
  ℕ, zero, suc, ◌≡◌, ◌<◌, ◌≤◌, refl, sym, ap, ◌∙◌, Bool, true, false, not, ◌&&◌, some, List, [],
  ◌∷◌, ◌++◌, arith, ◌==◌, length, take, All, append_assoc, append-nil, length-append,
}
use c_utils.Http.{one_of, keep, tokens_from, tokens, put_front, split_at, crlf, colon, lines_size}

-- None of the delimiters is in the word.
abbrev pub IsClean : List ℕ → List ℕ → Type 0
IsClean delims word = All (λ c. one_of delims c ≡ false) word

abbrev pub is_clean : List ℕ → List ℕ → Bool
is_clean delims [] = true
is_clean delims (c ∷ word) = not (one_of delims c) && is_clean delims word

pub is_clean-IsClean : (delims word : List ℕ) → is_clean delims word ≡ true → IsClean delims word
is_clean-IsClean delims [] h = _
is_clean-IsClean delims (c ∷ word) h = (ground arith, is_clean-IsClean delims word (ground arith))

-- A word has a byte.
abbrev pub IsWord : List ℕ → List ℕ → Type 0
IsWord delims word = IsClean delims word × (0 < length word)

pub IsClean-append :
    (delims word more : List ℕ)
    → IsClean delims word
    → IsClean delims more
    → IsClean delims (word ++ more)
IsClean-append delims [] more _ b = b
IsClean-append delims (c ∷ word) more (a, rest) b = (a, IsClean-append delims word more rest b)

keep-word :
    (word : List ℕ) (words : List (List ℕ)) → 0 < length word → keep word words ≡ word ∷ words
keep-word [] words h = absurd (omega arith)
keep-word (c ∷ word) words h = refl

-- A byte of a word.
pub tokens_from-inside :
    (delims front : List ℕ) (c : ℕ) (str : List ℕ)
    → one_of delims c ≡ false
    → tokens_from delims front (c ∷ str) ≡ tokens_from delims (front ++ c ∷ []) str
tokens_from-inside delims front c str h = rw (h, tokens_from) refl

-- A delimiter.
pub tokens_from-end :
    (delims front : List ℕ) (c : ℕ) (str : List ℕ)
    → one_of delims c ≡ true
    → tokens_from delims front (c ∷ str) ≡ keep front (tokens delims str)
tokens_from-end delims front c str h = rw (h, tokens_from) refl

tokens_from-clean :
    (delims front word rest : List ℕ)
    → IsClean delims word
    → tokens_from delims front (word ++ rest) ≡ tokens_from delims (front ++ word) rest
tokens_from-clean delims front [] rest _ =
    ap (λ w. tokens_from delims w rest) (sym (append-nil front))
tokens_from-clean delims front (c ∷ word) rest (h, clean) =
    tokens_from-inside delims front c (word ++ rest) h
    ∙ tokens_from-clean delims (front ++ c ∷ []) word rest clean
    ∙ ap (λ w. tokens_from delims w rest) (append_assoc front (c ∷ []) word)

-- The last word.
pub tokens_last : (delims word : List ℕ) → IsWord delims word → tokens delims word ≡ word ∷ []
tokens_last delims word (clean, some_byte) =
    ap (tokens delims) (sym (append-nil word))
    ∙ tokens_from-clean delims [] word [] clean
    ∙ keep-word word [] some_byte

-- A word with a delimiter behind it.
pub tokens_next :
    (delims word : List ℕ) (d : ℕ) (rest : List ℕ)
    → IsWord delims word
    → one_of delims d ≡ true
    → tokens delims (word ++ d ∷ rest) ≡ word ∷ tokens delims rest
tokens_next delims word d rest (clean, some_byte) is_delim =
    tokens_from-clean delims [] word (d ∷ rest) clean
    ∙ tokens_from-end delims word d rest is_delim
    ∙ keep-word word (tokens delims rest) some_byte

-- Each line is followed by "\r\n".
abbrev pub lines_text : List (List ℕ) → List ℕ
lines_text [] = []
lines_text (line ∷ lines) = line ++ 13 ∷ 10 ∷ lines_text lines

-- The lines of a header, and the empty line behind them.
pub tokens-lines :
    (lines : List (List ℕ))
    → All (IsWord crlf) lines
    → tokens crlf (lines_text lines ++ crlf) ≡ lines
tokens-lines [] _ = refl
tokens-lines (line ∷ lines) (word, words) =
    ap (tokens crlf) (append_assoc line (13 ∷ 10 ∷ lines_text lines) crlf)
    ∙ tokens_next crlf line 13 (10 ∷ (lines_text lines ++ crlf)) word refl
    ∙ ap (◌∷◌ line) (tokens-lines lines words)

pub length-lines_text : (lines : List (List ℕ)) → length (lines_text lines) ≡ lines_size lines
length-lines_text [] = refl
length-lines_text (line ∷ lines) =
    let whole = length-append line (13 ∷ 10 ∷ lines_text lines) in
    omega (arith, whole, length-lines_text lines)

-- The delimiter of a field is the first in the line.
pub split_at-colon :
    (field value : List ℕ)
    → All (λ c. (c == 58) ≡ false) field
    → split_at colon (field ++ 58 ∷ 32 ∷ value) ≡ some (field, value)
split_at-colon [] value _ = refl
split_at-colon (c ∷ field) value (h, clean) =
    rw (h, split_at) (ap (put_front c) (split_at-colon field value clean))

pub take_short : (n : ℕ) (xs : List ℕ) → length xs ≤ n → take n xs ≡ xs
take_short zero [] h = refl
take_short (suc n) [] h = refl
take_short zero (x ∷ xs) h = absurd (omega arith)
take_short (suc n) (x ∷ xs) h = ap (◌∷◌ x) (take_short n xs (omega arith))
