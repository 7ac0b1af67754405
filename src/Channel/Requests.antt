-- ===== src/Channel/Requests.antt =====
-- Which request the HTTP channel reads from a stream.
use agents_protocol.Prelude.{
  ℕ, ◌≤◌, ◌<◌, ◌≡◌, refl, ap, sym, ◌∙◌, true, false, some, List, [], ◌∷◌, ◌++◌, arith, ltb, eqb,
  length, append_assoc, append-nil,
}
use agents_protocol.Sorting.{All}
use agents_protocol.Channel.Stream.{Bytes}
use agents_protocol.Channel.Framing.{read_exactly-append}
use agents_protocol.Channel.Http.{
  starts, cut_head, read_head, lead, is_utf8, push, lines_from, content_length, words,
  method_and_path, read_body, request_of, after_length, after_head, read_request,
}

-- A byte of a line: ASCII, and no carriage return.
abbrev pub IsPlain : ℕ → Type 0
IsPlain b = (b < 128) × (eqb b 13 ≡ false)

-- A line of a head: not empty, and of plain bytes.
abbrev pub IsLine : Bytes → Type 0
IsLine l = (0 < length l) × All IsPlain l

-- The lines with a line break between any two.
abbrev pub join : List Bytes → Bytes
join [] = []
join (l ∷ []) = l
join (l ∷ m ∷ ls) = let rest = join (m ∷ ls) in l ++ 13 ∷ 10 ∷ rest

-- A head of some lines, the blank line, and what follows it.
abbrev pub written : List Bytes → Bytes → Bytes
written lines rest = join lines ++ (13 ∷ 10 ∷ 13 ∷ 10 ∷ rest)

cut_head-plain :
    (l rest head tail : Bytes)
    → All IsPlain l
    → cut_head rest ≡ some (head, tail)
    → cut_head (l ++ rest) ≡ some (l ++ head, tail)
unfolding cut_head starts
cut_head-plain [] rest head tail h e = e
cut_head-plain (b ∷ l) rest head tail h e =
    let ih = cut_head-plain l rest head tail h.1 e in ground (arith, ih)

cut_head-break :
    (b : ℕ) (rest head tail : Bytes)
    → eqb b 13 ≡ false
    → cut_head (b ∷ rest) ≡ some (head, tail)
    → cut_head (13 ∷ 10 ∷ b ∷ rest) ≡ some (13 ∷ 10 ∷ head, tail)
unfolding cut_head starts
cut_head-break b rest head tail n e = ground (arith, e)

cut_head-blank : (rest : Bytes) → cut_head (13 ∷ 10 ∷ 13 ∷ 10 ∷ rest) ≡ some ([], rest)
unfolding cut_head starts
cut_head-blank rest = refl

lines_from-plain : (l : Bytes) → All IsPlain l → lines_from false l ≡ l ∷ []
unfolding lines_from push
lines_from-plain [] h = refl
lines_from-plain (b ∷ l) h = let ih = lines_from-plain l h.1 in ground (arith, ih)

lines_from-break :
    (l rest : Bytes)
    → All IsPlain l
    → lines_from false (l ++ 13 ∷ 10 ∷ rest) ≡ l ∷ lines_from false rest
unfolding lines_from push
lines_from-break [] rest h = refl
lines_from-break (b ∷ l) rest h = let ih = lines_from-break l rest h.1 in ground (arith, ih)

is_utf8-ascii : (l : Bytes) → All (λ b. b < 128) l → is_utf8 0 0 0 l ≡ true
unfolding is_utf8 lead
is_utf8-ascii [] h = refl
is_utf8-ascii (b ∷ l) h = let ih = is_utf8-ascii l h.1 in ground (arith, ih)

-- What follows a line break in a head begins with a plain byte.
cut_head-next :
    (m rest head tail : Bytes)
    → IsLine m
    → cut_head (m ++ rest) ≡ some (head, tail)
    → cut_head (13 ∷ 10 ∷ (m ++ rest)) ≡ some (13 ∷ 10 ∷ head, tail)
cut_head-next [] rest head tail h e = absurd (omega (arith, h.0))
cut_head-next (b ∷ m) rest head tail h e = cut_head-break b (m ++ rest) head tail h.1.0.1 e

join-cons-append :
    (l m : Bytes) (ls : List Bytes) (rest : Bytes)
    → join (l ∷ m ∷ ls) ++ rest ≡ l ++ (13 ∷ 10 ∷ (join (m ∷ ls) ++ rest))
join-cons-append l m ls rest = append_assoc l (13 ∷ 10 ∷ join (m ∷ ls)) rest

-- The rest of a join after its first line.
abbrev tail_of : List Bytes → Bytes → Bytes
tail_of [] rest = rest
tail_of (m ∷ ls) rest = 13 ∷ 10 ∷ (join (m ∷ ls) ++ rest)

join-split :
    (l : Bytes) (ls : List Bytes) (rest : Bytes) → join (l ∷ ls) ++ rest ≡ l ++ tail_of ls rest
join-split l [] rest = refl
join-split l (m ∷ ls) rest = join-cons-append l m ls rest

cut_head-written :
    (l : Bytes) (ls : List Bytes) (rest : Bytes)
    → All IsLine (l ∷ ls)
    → cut_head (written (l ∷ ls) rest) ≡ some (join (l ∷ ls), rest)
cut_head-written l [] rest h =
    cut_head-plain l (13 ∷ 10 ∷ 13 ∷ 10 ∷ rest) [] rest h.0.1 (cut_head-blank rest)
    ∙ ap (λ x. some (x, rest)) (append-nil l)
cut_head-written l (m ∷ ls) rest h =
    let end = 13 ∷ 10 ∷ 13 ∷ 10 ∷ rest in
    let ih = cut_head-written m ls rest h.1 in
    let s = join-split m ls end in
    let k =
      cut_head-next m (tail_of ls end) (join (m ∷ ls)) rest h.1.0 (ap cut_head (sym s) ∙ ih) in
    ap cut_head (join-cons-append l m ls end)
    ∙ cut_head-plain l (13 ∷ 10 ∷ (join (m ∷ ls) ++ end)) (13 ∷ 10 ∷ join (m ∷ ls)) rest h.0.1
        (ap (λ x. cut_head (13 ∷ 10 ∷ x)) s ∙ k)

lines_from-join :
    (l : Bytes) (ls : List Bytes) → All IsLine (l ∷ ls) → lines_from false (join (l ∷ ls)) ≡ l ∷ ls
lines_from-join l [] h = lines_from-plain l h.0.1
lines_from-join l (m ∷ ls) h =
    lines_from-break l (join (m ∷ ls)) h.0.1 ∙ ap (◌∷◌ l) (lines_from-join m ls h.1)

All-append :
    (xs ys : Bytes) → All (λ b. b < 128) xs → All (λ b. b < 128) ys → All (λ b. b < 128) (xs ++ ys)
All-append [] ys h k = k
All-append (x ∷ xs) ys h k = (h.0, All-append xs ys h.1 k)

plain-ascii : (l : Bytes) → All IsPlain l → All (λ b. b < 128) l
plain-ascii [] h = tt
plain-ascii (b ∷ l) h = (h.0.0, plain-ascii l h.1)

join-ascii :
    (l : Bytes) (ls : List Bytes) → All IsLine (l ∷ ls) → All (λ b. b < 128) (join (l ∷ ls))
join-ascii l [] h = plain-ascii l h.0.1
join-ascii l (m ∷ ls) h =
    All-append l (13 ∷ 10 ∷ join (m ∷ ls)) (plain-ascii l h.0.1)
      (omega arith, (omega arith, join-ascii m ls h.1))

words-plain : (l : Bytes) → All (λ b. eqb b 32 ≡ false) l → words l ≡ l ∷ []
unfolding words push
words-plain [] h = refl
words-plain (b ∷ l) h = let ih = words-plain l h.1 in ground (arith, ih, h.0)

words-space :
    (l rest : Bytes) → All (λ b. eqb b 32 ≡ false) l → words (l ++ 32 ∷ rest) ≡ l ∷ words rest
unfolding words push
words-space [] rest h = refl
words-space (b ∷ l) rest h = let ih = words-space l rest h.1 in ground (arith, ih, h.0)

read_body-append : (body later : Bytes) → read_body (length body) (body ++ later) ≡ some body
unfolding read_body
read_body-append [] later = refl
read_body-append (b ∷ body) later =
    let positive : ltb 0 (length (b ∷ body)) ≡ true = ground arith in
    rw (positive, read_exactly-append (b ∷ body) later)

read_head-some :
    (bytes head rest : Bytes)
    → cut_head bytes ≡ some (head, rest)
    → length head ≤ 65536
    → read_head bytes ≡ some (head, rest)
unfolding read_head
read_head-some bytes head rest e h = ground (arith, e)

-- Let a stream begin with a head of at most 64 KiB, of lines that are not empty and of ASCII without
-- carriage returns, the first one a method, a path and a version without blanks in them, and let the
-- lines give the length of the body that follows the blank line. Then the request that is read has the
-- method, the path and the whole body, and whatever follows on the stream is not part of it.
pub read_request-written :
    (method path version : Bytes) (headers : List Bytes) (body later : Bytes)
    → let line = method ++ 32 ∷ (path ++ 32 ∷ version) in
      All IsLine (line ∷ headers)
      → All (λ b. eqb b 32 ≡ false) method
      → All (λ b. eqb b 32 ≡ false) path
      → All (λ b. eqb b 32 ≡ false) version
      → content_length 0 (line ∷ headers) ≡ some (length body)
      → length (join (line ∷ headers)) ≤ 65536
      → read_request (written (line ∷ headers) (body ++ later))
        ≡ some (record { method = method; path = path; body = body })
read_request-written method path version headers body later h m p v n size =
    let line = method ++ 32 ∷ (path ++ 32 ∷ version) in
    let head = join (line ∷ headers) in
    let parts : words line ≡ method ∷ path ∷ version ∷ [] =
      words-space method (path ++ 32 ∷ version) m
      ∙ ap (◌∷◌ method) (words-space path version p ∙ ap (◌∷◌ path) (words-plain version v)) in
    let cut = cut_head-written line headers (body ++ later) h in
    let read =
      read_head-some (written (line ∷ headers) (body ++ later)) head (body ++ later) cut size in
    let text = is_utf8-ascii head (join-ascii line headers h) in
    unfold read_request in
    ap after_head read
    ∙ (unfold after_head in
        rw (text, lines_from-join line headers h, n)
          (unfold after_length in
            rw (read_body-append body later)
              (unfold request_of in rw parts (unfold method_and_path in refl))))
