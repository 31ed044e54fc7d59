-- ===== src/Strings/Edit.antt =====
-- c_utils_string_trim and c_utils_string_count of string/string_manip.c.
use c_utils.Base.{
  ℕ, zero, suc, ◌+◌, ◌-◌, ◌^◌, Bool, true, false, ◌&&◌, ◌||◌, Option, none, some, List, [], ◌∷◌,
  ltb, leb, ◌==◌, if◌then◌else◌, length, get_or, take, drop, Run, ok, fault, ◌>>=◌,
}
use c_utils.Strings.{len_of, equal}

-- The standard library's, in the C locale.
abbrev pub isspace : ℕ → Bool
isspace c = c == 32 || (leb 9 c && leb c 13)

-- for (; i < str_len; i++), with `k` rounds left. The closing zero is not a space.
unfoldable pub front_loop : ℕ → List ℕ → ℕ → ℕ
front_loop zero str i = i
front_loop (suc k) str i =
    let rest = front_loop k str (i + 1) in if isspace (get_or str i 0) then rest else i

-- for (; j > i; j--), with `k` rounds left
unfoldable pub back_loop : ℕ → List ℕ → ℕ → ℕ
back_loop zero str j = j
back_loop (suc k) str j =
    let rest = back_loop k str (j - 1) in if isspace (get_or str j 0) then rest else j

-- The loop first reads at `j`, the highest index that it reads at.
unfoldable pub back : List ℕ → ℕ → ℕ → Run ℕ
unfolding back_loop
back str i j = elim (ltb i j && ltb (length str) j) [
  | true ↦ fault
  | false ↦ ok (back_loop (j - i) str j)
]

-- By what malloc and realloc do. `j = str_len - 1` is a `size_t`, and what is copied are
-- `j - i + 1` bytes from `i` on, where the string has them.
unfoldable pub trim : Bool → Bool → List ℕ → ℕ → Run (Option (List ℕ))
unfolding front_loop back
trim malloc realloc str len =
    let str_len = len_of len str in
    let i = front_loop str_len str 0 in
    if malloc
    then (do
      j ← back str i (if str_len == 0 then 2 ^ 64 - 1 else str_len - 1)
      ok (if realloc then some (take (j + 1 - i) (drop i str)) else none))
    else ok none

-- for (i = 0; i < k; i++), on the string from `i` on, where the next `skip` indexes are jumped over.
unfoldable pub count_loop : ℕ → ℕ → List ℕ → List ℕ → Bool → ℕ
unfolding equal
count_loop zero skip str substr ignore_case = 0
count_loop (suc k) skip [] substr ignore_case = 0
count_loop (suc k) skip (c ∷ cs) substr ignore_case =
    let hit =
      skip == 0 && c == get_or substr 0 0 && equal (c ∷ cs) substr (length substr) ignore_case in
    let rest = count_loop k (if hit then length substr - 1 else skip - 1) cs substr ignore_case in
    if hit then suc rest else rest

unfoldable pub count : List ℕ → List ℕ → ℕ → Bool → ℕ
unfolding count_loop
count str substr len ignore_case =
    let str_len = len_of len str in
    if ltb str_len (length substr)
    then 0
    else if length substr == str_len
    then (if equal str substr str_len ignore_case then 1 else 0)
    else count_loop (str_len - length substr) 0 str substr ignore_case
