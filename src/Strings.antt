-- ===== src/Strings.antt =====
-- string/string_manip.c: a string is the list of its bytes before the closing zero, and none of
-- them is 0. A length of 0 stands for the length of the string.
pub mod Match
pub mod Search
pub mod Reverse
pub mod Edit
pub mod Trim
pub mod Count
pub mod Tests
use c_utils.Base.{
  ℕ, zero, suc, ◌+◌, ◌-◌, ◌*◌, ◌^◌, Bool, true, false, not, ◌&&◌, ◌||◌, Option, none, some, List,
  [], ◌∷◌, map, ltb, leb, ◌==◌, if◌then◌else◌, length, get_or, set, drop, Run, ok, fault,
  out_of_fuel, ◌>>=◌,
}

-- The standard library's, in the C locale.
abbrev pub tolower : ℕ → ℕ
tolower c = if leb 65 c && leb c 90 then c + 32 else c

abbrev pub toupper : ℕ → ℕ
toupper c = if leb 97 c && leb c 122 then c - 32 else c

abbrev pub lower_all : List ℕ → List ℕ
lower_all [] = []
lower_all (c ∷ cs) = tolower c ∷ lower_all cs

-- `strncmp(a, b, n) == 0`
abbrev pub same_start : ℕ → List ℕ → List ℕ → Bool
same_start zero a b = true
same_start (suc n) [] [] = true
same_start (suc n) [] (b ∷ bs) = false
same_start (suc n) (a ∷ rest) [] = false
same_start (suc n) (a ∷ rest) (b ∷ bs) = (a == b) && same_start n rest bs

-- `len ? len : strlen(str)`
abbrev pub len_of : ℕ → List ℕ → ℕ
len_of len str = if len == 0 then length str else len

-- The assertion lets through the index of the closing zero, which reads as 0.
unfoldable pub char_at : List ℕ → ℕ → ℕ
char_at str index = if leb index (length str) then get_or str index 0 else 0

unfoldable pub equal : List ℕ → List ℕ → ℕ → Bool → Bool
equal one two len ignore_case =
    if ignore_case
    then same_start (len_of len one) (lower_all one) (lower_all two)
    else same_start (len_of len one) one two

-- for (i = 0; i < k; i++), on the string from `i` on; the first bytes are compared as they are.
unfoldable pub contains_loop : ℕ → List ℕ → List ℕ → Bool → Bool
unfolding equal
contains_loop zero str substr ignore_case = false
contains_loop (suc k) [] substr ignore_case = false
contains_loop (suc k) (c ∷ cs) substr ignore_case =
    ((c == get_or substr 0 0) && equal (c ∷ cs) substr (length substr) ignore_case)
    || contains_loop k cs substr ignore_case

unfoldable pub contains : List ℕ → List ℕ → ℕ → Bool → Bool
unfolding contains_loop
contains str substr len ignore_case =
    let str_len = len_of len str in
    if ltb str_len (length substr)
    then false
    else if length substr == str_len
    then equal str substr len ignore_case
    else contains_loop (str_len - length substr) str substr ignore_case

-- for (i = 0; i < str_len; i++), up to the closing zero
unfoldable pub each_char : (ℕ → ℕ) → ℕ → List ℕ → List ℕ
each_char f zero str = str
each_char f (suc k) [] = []
each_char f (suc k) (c ∷ cs) = f c ∷ each_char f k cs

unfoldable pub lower : List ℕ → ℕ → List ℕ
unfolding each_char
lower str len = each_char tolower (len_of len str) str

unfoldable pub upper : List ℕ → ℕ → List ℕ
unfolding each_char
upper str len = each_char toupper (len_of len str) str

unfoldable pub replace : List ℕ → ℕ → ℕ → ℕ → Bool → List ℕ
unfolding each_char
replace str old_char new_char len ignore_case =
    let search_char = if ignore_case then tolower old_char else old_char in
    each_char (λ c. if search_char == (if ignore_case then tolower c else c) then new_char else c)
      (len_of len str) str

-- A read or write past the end of the string is not followed further.
unfoldable pub reverse_loop : ℕ → List ℕ → ℕ → ℕ → Run (List ℕ)
reverse_loop zero str i j = out_of_fuel
reverse_loop (suc k) str i j =
    let rest =
      reverse_loop k (set (set str i (get_or str j 0)) j (get_or str i 0)) (i + 1) (j - 1) in
    if ltb i j then (if leb (length str) j then fault else rest) else ok str

-- `j = str_len - 1` is a `size_t`.
unfoldable pub reverse_str : List ℕ → ℕ → Run (List ℕ)
unfolding reverse_loop
reverse_str str len =
    let str_len = len_of len str in
    reverse_loop (length str + 1) str 0 (if str_len == 0 then 2 ^ 64 - 1 else str_len - 1)

unfoldable pub starts_with : List ℕ → List ℕ → Bool → Bool
unfolding equal
starts_with str find ignore_case =
    if ltb (length str) (length find) then false else equal str find (length find) ignore_case

unfoldable pub ends_with : List ℕ → List ℕ → Bool → Bool
unfolding equal
ends_with str find ignore_case =
    if ltb (length str) (length find)
    then false
    else equal (drop (length str - length find) str) find (length find) ignore_case

abbrev pub to_int : Bool → ℕ
to_int true = 1
to_int false = 0

-- `c == ignore_case ? tolower(substr[0]) : substr[0]` reads `(c == ignore_case) ? … : …`.
abbrev pub first_test : ℕ → List ℕ → Bool → Bool
first_test c substr ignore_case =
    not ((if c == to_int ignore_case then tolower (get_or substr 0 0) else get_or substr 0 0) == 0)

-- `none` is the -1 of the source; `i` is the index of the string's first byte here.
unfoldable pub index_loop : ℕ → ℕ → List ℕ → List ℕ → Bool → Option ℕ
unfolding equal
index_loop zero i str substr ignore_case = none
index_loop (suc k) i [] substr ignore_case = none
index_loop (suc k) i (c ∷ cs) substr ignore_case =
    let rest = index_loop k (i + 1) cs substr ignore_case in
    if first_test (if ignore_case then tolower c else c) substr ignore_case
      && equal (c ∷ cs) substr (length substr) ignore_case
    then some i
    else rest

unfoldable pub index_of : List ℕ → List ℕ → ℕ → Bool → Option ℕ
unfolding index_loop
index_of str substr len ignore_case =
    let str_len = len_of len str in
    if ltb str_len (length substr)
    then none
    else if length substr == str_len
    then (if equal str substr len ignore_case then some 0 else none)
    else index_loop (str_len - length substr) 0 str substr ignore_case
