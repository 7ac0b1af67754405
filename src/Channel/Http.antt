-- ===== src/Channel/Http.antt =====
-- `HTTPChannel`: how a request is read (`_handle_request`). Bytes are numbers; `head.decode()` is read
-- on the bytes, as the tests that follow look for ASCII only. Digits and blanks are those of ASCII.
use agents_protocol.Prelude.{
  ℕ, zero, suc, ◌+◌, ◌*◌, ◌-◌, Bool, true, false, ◌&&◌, ◌||◌, Option, none, some, List, [], ◌∷◌,
  ltb, leb, eqb, if◌then◌else◌, length, drop, map,
}
use mathlib.Core.Option
use agents_protocol.Channel.Stream.{Bytes, read_exactly}

-- bytes.startswith, str.startswith
unfoldable pub starts : Bytes → Bytes → Bool
starts [] bytes = true
starts (x ∷ xs) [] = false
starts (x ∷ xs) (b ∷ bytes) = let rest = starts xs bytes in if eqb x b then rest else false

-- b"\r\n\r\n"
abbrev pub blank_line : Bytes
blank_line = 13 ∷ 10 ∷ 13 ∷ 10 ∷ []

-- What stands before and after the first blank line.
unfoldable pub cut_head : Bytes → Option (Bytes × Bytes)
unfolding starts
cut_head [] = none
cut_head (b ∷ bytes) =
    let rest = cut_head bytes in
    if starts blank_line (b ∷ bytes)
    then some ([], drop 4 (b ∷ bytes))
    else Option.map (λ p. (b ∷ p.0, p.1)) rest

-- `reader.readuntil`, which raises where the separator is missing or farther than the stream's limit,
-- and the split after it.
unfoldable pub read_head : Bytes → Option (Bytes × Bytes)
unfolding cut_head
read_head bytes = elim (cut_head bytes) [
  | none ↦ none
  | some p ↦ if ltb 65536 (length p.0) then none else some p
]

-- What a first byte of UTF-8 asks for: how many more, and the range of the next one.
unfoldable pub lead : ℕ → Option (ℕ × ℕ × ℕ)
lead b =
    if ltb b 128
    then some (0, 0, 0)
    else if ltb b 194
    then none
    else if ltb b 224
    then some (1, 128, 191)
    else if eqb b 224
    then some (2, 160, 191)
    else if eqb b 237
    then some (2, 128, 159)
    else if ltb b 240
    then some (2, 128, 191)
    else if eqb b 240
    then some (3, 144, 191)
    else if ltb b 244
    then some (3, 128, 191)
    else if eqb b 244
    then some (3, 128, 143)
    else none

-- Whether `decode()` succeeds, `need` more bytes being expected, the next one between `lo` and `hi`.
unfoldable pub is_utf8 : (need lo hi : ℕ) → Bytes → Bool
unfolding lead
is_utf8 zero lo hi [] = true
is_utf8 (suc need) lo hi [] = false
is_utf8 zero lo hi (b ∷ bytes) = elim (lead b) [ none ↦ false | some p ↦ is_utf8 p.0 p.1 p.2 bytes ]
is_utf8 (suc need) lo hi (b ∷ bytes) =
    let rest = is_utf8 need 128 191 bytes in if leb lo b && leb b hi then rest else false

-- A byte before the first line.
unfoldable pub push : ℕ → List Bytes → List Bytes
push b [] = (b ∷ []) ∷ []
push b (l ∷ ls) = (b ∷ l) ∷ ls

-- `split("\r\n")`; `cr` is whether a carriage return came before, which is not placed yet.
unfoldable pub lines_from : Bool → Bytes → List Bytes
unfolding push
lines_from false [] = [] ∷ []
lines_from true [] = (13 ∷ []) ∷ []
lines_from false (b ∷ bytes) =
    let rest = lines_from (eqb b 13) bytes in if eqb b 13 then rest else push b rest
lines_from true (b ∷ bytes) =
    let rest = lines_from (eqb b 13) bytes in
    if eqb b 10 then [] ∷ rest else if eqb b 13 then push 13 rest else push 13 (push b rest)

-- str.lower, on ASCII
abbrev pub lower : ℕ → ℕ
lower b = if leb 65 b && leb b 90 then b + 32 else b

-- "content-length:"
abbrev pub length_name : Bytes
length_name =
    99 ∷ 111 ∷ 110 ∷ 116 ∷ 101 ∷ 110 ∷ 116 ∷ 45 ∷ 108 ∷ 101 ∷ 110 ∷ 103 ∷ 116 ∷ 104 ∷ 58 ∷ []

abbrev pub is_blank : ℕ → Bool
is_blank b = eqb b 32 || leb 9 b && leb b 13 || leb 28 b && leb b 31

unfoldable pub strip_left : Bytes → Bytes
strip_left [] = []
strip_left (b ∷ bytes) = let rest = strip_left bytes in if is_blank b then rest else b ∷ bytes

abbrev pub unless_blank : ℕ → Bytes → Bytes
unless_blank b [] = if is_blank b then [] else b ∷ []
unless_blank b (c ∷ bytes) = b ∷ c ∷ bytes

unfoldable pub strip_right : Bytes → Bytes
strip_right [] = []
strip_right (b ∷ bytes) = unless_blank b (strip_right bytes)

abbrev pub is_digit : ℕ → Bool
is_digit b = leb 48 b && leb b 57

-- The digits of a number, with single underscores between them; `after_digit` is whether one may come.
unfoldable pub digits : ℕ → Bool → Bytes → Option ℕ
digits n true [] = some n
digits n false [] = none
digits n after_digit (b ∷ bytes) =
    let rest = digits (if is_digit b then n * 10 + (b - 48) else n) (is_digit b) bytes in
    if is_digit b || eqb b 95 && after_digit then rest else none

-- `int(...)`; a negative number counts as 0, since it makes the handler read nothing.
unfoldable pub int_of : Bytes → Option ℕ
unfolding digits
int_of [] = none
int_of (b ∷ bytes) =
    if eqb b 45
    then Option.map (λ n. 0) (digits 0 false bytes)
    else if eqb b 43
    then digits 0 false bytes
    else digits 0 false (b ∷ bytes)

-- `int(line.split(":", 1)[1].strip())` for a line with the name
unfoldable pub length_value : Bytes → Option ℕ
unfolding strip_left strip_right int_of
length_value line = int_of (strip_right (strip_left (drop 15 line)))

-- The loop over the lines: the last length counts.
unfoldable pub content_length : ℕ → List Bytes → Option ℕ
unfolding starts length_value
content_length n [] = some n
content_length n (line ∷ lines) =
    let skip = content_length n lines in
    if starts length_name (map lower line)
    then elim (length_value line) [ none ↦ none | some m ↦ content_length m lines ]
    else skip

-- `split(" ")`
unfoldable pub words : Bytes → List Bytes
unfolding push
words [] = [] ∷ []
words (b ∷ bytes) = let rest = words bytes in if eqb b 32 then [] ∷ rest else push b rest

-- `method, path, _ = ...`, which raises for other than three parts
unfoldable pub method_and_path : List Bytes → Option (Bytes × Bytes)
method_and_path (method ∷ path ∷ version ∷ []) = some (method, path)
method_and_path _ = none

-- The request line is the first one.
abbrev pub first_line : List Bytes → Bytes
first_line [] = []
first_line (l ∷ ls) = l

pub record Request : Type 0 where
  pub method : Bytes
  pub path : Bytes
  pub body : Bytes

-- `await reader.readexactly(remaining)`, if something remains: no part of the body was read with the
-- headers.
unfoldable pub read_body : ℕ → Bytes → Option Bytes
unfolding read_exactly
read_body n rest = if ltb 0 n then Option.map (λ p. p.0) (read_exactly n rest) else some []

-- The request, when its body was read.
unfoldable pub request_of : List Bytes → Option Bytes → Option Request
unfolding method_and_path words
request_of lines none = none
request_of lines (some body) =
    Option.map (λ p. record { method = p.0; path = p.1; body = body })
      (method_and_path (words (first_line lines)))

unfoldable pub after_length : List Bytes → Bytes → Option ℕ → Option Request
unfolding request_of read_body
after_length lines rest none = none
after_length lines rest (some n) = request_of lines (read_body n rest)

unfoldable pub after_head : Option (Bytes × Bytes) → Option Request
unfolding is_utf8 lines_from content_length after_length
after_head none = none
after_head (some (head, rest)) =
    let lines = lines_from false head in
    if is_utf8 0 0 0 head then after_length lines rest (content_length 0 lines) else none

-- The request that a stream holds; `none` stands for an exception on the way.
unfoldable pub read_request : Bytes → Option Request
unfolding read_head after_head
read_request bytes = after_head (read_head bytes)
