-- ===== src/Channel/Ends.antt =====
-- How the loop over a stream ends.
use agents_protocol.Prelude.{
  ℕ, zero, suc, ◌+◌, ◌-◌, ◌≤◌, ◌<◌, ◌≡◌, refl, ap, sym, ◌∙◌, true, none, some, List, [], ◌∷◌, ◌++◌,
  arith, leb, ltb, if◌then◌else◌, length, take, drop, length-drop, or_else, append_assoc,
  append-nil, Bool-cases, inl, inr,
}
use agents_protocol.Channel.Stream.{
  Bytes, pack, unpack, frame, max_length, read_exactly, after_payload, after_length, read_frames,
  process_stream,
}
use agents_protocol.Channel.Framing.{
  write_all, IsShort, write_all-small, read_frames-head, read_exactly-append, unpack-pack,
}

-- Two loops that go on alike after what is left of a stream.
abbrev Alike : ℕ → (Bytes → List Bytes) → (Bytes → List Bytes) → Type 0
Alike n f g = (bytes : Bytes) → length bytes ≤ n → f bytes ≡ g bytes

after_payload-Alike :
    (n m : ℕ) (f g : Bytes → List Bytes) (bytes : Bytes)
    → Alike n f g
    → length bytes ≤ n
    → after_payload f (read_exactly m bytes) ≡ after_payload g (read_exactly m bytes)
unfolding after_payload read_exactly
after_payload-Alike n m f g bytes h k = elim (Bool-cases (leb m (length bytes))) [
  | inl e ↦ rw e (ap (◌∷◌ (take m bytes)) (h (drop m bytes) (omega (arith, length-drop m bytes))))
  | inr e ↦ rw e refl
]

after_length-Alike :
    (n : ℕ) (f g : Bytes → List Bytes) (bytes : Bytes)
    → Alike n f g
    → length bytes ≤ suc n
    → after_length f (read_exactly 4 bytes) ≡ after_length g (read_exactly 4 bytes)
after_length-Alike n f g bytes h k = elim (Bool-cases (leb 4 (length bytes))) [
  | inr e ↦
      let x : read_exactly 4 bytes ≡ none = unfold read_exactly in rw e refl in
      rw x (unfold after_length in refl)
  | inl e ↦
      let x : read_exactly 4 bytes ≡ some (take 4 bytes, drop 4 bytes) =
        unfold read_exactly in rw e refl in
      let r =
        after_payload-Alike n (unpack (take 4 bytes)) f g (drop 4 bytes) h
          (ground (arith, length-drop 4 bytes)) in
      rw x (
        unfold after_length in ap (λ l. if ltb max_length (unpack (take 4 bytes)) then [] else l) r)
]

read_frames-after_length :
    (m n : ℕ) (bytes : Bytes)
    → after_length (read_frames m) (read_exactly 4 bytes)
      ≡ after_length (read_frames n) (read_exactly 4 bytes)
    → read_frames (suc m) bytes ≡ read_frames (suc n) bytes
unfolding read_frames
read_frames-after_length m n bytes e = e

read_frames-Alike :
    (m n : ℕ) (bytes : Bytes)
    → length bytes ≤ m
    → length bytes ≤ n
    → read_frames m bytes ≡ read_frames n bytes
read_frames-Alike zero zero bytes h k = refl
read_frames-Alike zero (suc n) [] h k = unfold read_frames read_exactly after_length in refl
read_frames-Alike zero (suc n) (b ∷ bytes) h k = absurd (omega arith)
read_frames-Alike (suc m) zero [] h k = unfold read_frames read_exactly after_length in refl
read_frames-Alike (suc m) zero (b ∷ bytes) h k = absurd (omega arith)
read_frames-Alike (suc m) (suc n) bytes h k =
    let alike : Alike (length bytes - 1) (read_frames m) (read_frames n) =
      λ later l. read_frames-Alike m n later (omega arith) (omega arith) in
    read_frames-after_length m n bytes (
      after_length-Alike (length bytes - 1) (read_frames m) (read_frames n) bytes alike
        (omega arith))

-- Rounds beyond the stream's length read nothing more.
pub read_frames_enough :
    (fuel : ℕ) (bytes : Bytes) → length bytes ≤ fuel → read_frames fuel bytes ≡ process_stream bytes
unfolding process_stream
read_frames_enough fuel bytes h = read_frames-Alike fuel (length bytes) bytes h (omega arith)

read_frames-prefix :
    (fuel : ℕ) (ps : List Bytes) (tail : Bytes)
    → IsShort ps
    → read_frames (length ps + fuel) (write_all ps ++ tail) ≡ ps ++ read_frames fuel tail
read_frames-prefix fuel [] tail h = unfold write_all in ap (λ n. read_frames n tail) (omega arith)
read_frames-prefix fuel (p ∷ ps) tail h =
    let ih = read_frames-prefix fuel ps tail h.1 in
    let e : write_all (p ∷ ps) ++ tail ≡ pack (length p) ++ (p ++ (write_all ps ++ tail)) =
      rw (write_all-small p ps h.0) (
        append_assoc (pack (length p)) (p ++ write_all ps) tail
        ∙ ap (λ x. pack (length p) ++ x) (append_assoc p (write_all ps) tail)) in
    let n : length (p ∷ ps) + fuel ≡ suc (length ps + fuel) = omega arith in
    rw (n, e) (read_frames-head (length ps + fuel) p (write_all ps ++ tail) h.0 ∙ ap (◌∷◌ p) ih)

-- A length beyond the limit ends the loop.
read_frames-long :
    (fuel : ℕ) (p rest : Bytes)
    → max_length < length p
    → length p < 4294967296
    → read_frames (suc fuel) (pack (length p) ++ rest) ≡ []
read_frames-long fuel p rest h k =
    let four : read_exactly 4 (pack (length p) ++ rest) ≡ some (pack (length p), rest) =
      unfold pack in read_exactly-append (pack (length p)) rest in
    let long : ltb max_length (length p) ≡ true = ground arith in
    unfold read_frames in
    ap (after_length (read_frames fuel)) four
    ∙ (unfold after_length in rw (unpack-pack (length p) k, long) refl)

-- After payloads of at most 10 MiB each, let a payload be sent that is longer, but can be framed. The
-- receiver reads the payloads before it, and nothing of it or of what is sent after it.
pub process_stream-long :
    (ps : List Bytes) (p rest : Bytes)
    → IsShort ps
    → max_length < length p
    → length p < 4294967296
    → process_stream (write_all ps ++ (or_else (frame p) [] ++ rest)) ≡ ps
process_stream-long ps p rest h l k =
    let framed : or_else (frame p) [] ≡ pack (length p) ++ p =
      let fits : ltb (length p) 4294967296 ≡ true = ground arith in unfold frame in rw fits refl in
    let bytes = write_all ps ++ (or_else (frame p) [] ++ rest) in
    let tail : or_else (frame p) [] ++ rest ≡ pack (length p) ++ (p ++ rest) =
      rw framed (append_assoc (pack (length p)) p rest) in
    sym (read_frames_enough (length ps + suc (length bytes)) bytes (omega arith))
    ∙ (read_frames-prefix (suc (length bytes)) ps (or_else (frame p) [] ++ rest) h
        ∙ (ap (λ x. ps ++ read_frames (suc (length bytes)) x) tail
            ∙ (ap (λ x. ps ++ x) (read_frames-long (length bytes) p (p ++ rest) l k)
                ∙ append-nil ps)))
