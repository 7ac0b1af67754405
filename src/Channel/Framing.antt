-- ===== src/Channel/Framing.antt =====
-- The frames of several payloads on one stream.
use agents_protocol.Prelude.{
  ℕ, zero, suc, ◌≤◌, ◌<◌, ◌≡◌, refl, ap, ◌∙◌, some, false, true, ltb, or_else, List, [], ◌∷◌, ◌++◌,
  length, take, drop, arith, length-append, append_assoc, ◌+◌,
}
use agents_protocol.Sorting.{All}
use agents_protocol.Channel.Stream.{
  Bytes, pack, unpack, frame, max_length, read_exactly, after_length, read_frames, process_stream,
}

pub unpack-pack : (n : ℕ) → n < 4294967296 → unpack (pack n) ≡ n
unfolding unpack pack
unpack-pack n h = omega arith

take-append : (xs ys : Bytes) → take (length xs) (xs ++ ys) ≡ xs
take-append [] ys = refl
take-append (x ∷ xs) ys = ap (◌∷◌ x) (take-append xs ys)

drop-append : (xs ys : Bytes) → drop (length xs) (xs ++ ys) ≡ ys
drop-append [] ys = refl
drop-append (x ∷ xs) ys = drop-append xs ys

pub read_exactly-append : (xs ys : Bytes) → read_exactly (length xs) (xs ++ ys) ≡ some (xs, ys)
unfolding read_exactly
read_exactly-append xs ys =
    ground (arith, take-append xs ys, drop-append xs ys, length-append xs ys)

-- What is on the stream after each of the payloads was sent.
unfoldable pub write_all : List Bytes → Bytes
write_all [] = []
write_all (p ∷ ps) = or_else (frame p) [] ++ write_all ps

-- A stream that begins with the frame of a payload that is not too long.
pub read_frames-head :
    (fuel : ℕ) (p rest : Bytes)
    → length p ≤ max_length
    → read_frames (suc fuel) (pack (length p) ++ (p ++ rest)) ≡ p ∷ read_frames fuel rest
read_frames-head fuel p rest h =
    let four : read_exactly 4 (pack (length p) ++ (p ++ rest)) ≡ some (pack (length p), p ++ rest) =
      unfold pack in read_exactly-append (pack (length p)) (p ++ rest) in
    let long : ltb max_length (length p) ≡ false = ground arith in
    unfold read_frames in
    ap (after_length (read_frames fuel)) four
    ∙ (unfold after_length in
        rw (unpack-pack (length p) (omega arith), long, read_exactly-append p rest) refl)

pub write_all-small :
    (p : Bytes) (ps : List Bytes)
    → length p ≤ max_length
    → write_all (p ∷ ps) ≡ pack (length p) ++ (p ++ write_all ps)
unfolding write_all frame
write_all-small p ps h =
    let short : ltb (length p) 4294967296 ≡ true = ground arith in
    rw (short, append_assoc (pack (length p)) p (write_all ps))

-- No payload is longer than the loop's limit.
abbrev pub IsShort : List Bytes → Type 0
IsShort = All (λ p. length p ≤ max_length)

read_frames-write_all :
    (fuel : ℕ) (ps : List Bytes)
    → length ps ≤ fuel
    → IsShort ps
    → read_frames fuel (write_all ps) ≡ ps
read_frames-write_all zero [] k h = unfold read_frames write_all in refl
read_frames-write_all (suc fuel) [] k h =
    unfold read_frames write_all read_exactly after_length in refl
read_frames-write_all zero (p ∷ ps) k h = absurd (omega arith)
read_frames-write_all (suc fuel) (p ∷ ps) k h =
    ap (read_frames (suc fuel)) (write_all-small p ps h.0)
    ∙ (read_frames-head fuel p (write_all ps) h.0
        ∙ ap (◌∷◌ p) (read_frames-write_all fuel ps (omega arith) h.1))

pub length-write_all : (ps : List Bytes) → IsShort ps → length ps ≤ length (write_all ps)
length-write_all [] h = omega arith
length-write_all (p ∷ ps) h =
    let k : length (pack (length p) ++ (p ++ write_all ps)) ≡ 4 + length (p ++ write_all ps) =
      unfold pack in omega arith in
    omega (
      arith,
      ap length (write_all-small p ps h.0),
      k,
      length-append p (write_all ps),
      length-write_all ps h.1,
    )

-- Payloads of at most 10 MiB each that are sent one after the other are read by the loop as they were
-- sent: the same payloads in the same order, each whole, and no others.
pub process_stream-write_all : (ps : List Bytes) → IsShort ps → process_stream (write_all ps) ≡ ps
unfolding process_stream
process_stream-write_all ps h =
    read_frames-write_all (length (write_all ps)) ps (length-write_all ps h) h
