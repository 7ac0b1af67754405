-- ===== src/Channel/Reading.antt =====
-- What the loop over a stream reads, as a relation without the loop.
use agents_protocol.Prelude.{
  ℕ, zero, suc, ◌+◌, ◌*◌, ◌≤◌, ◌<◌, ◌≡◌, ◌↔◌, refl, ap, sym, ◌∙◌, true, false, none, some, List, [],
  ◌∷◌, ◌++◌, arith, leb, ltb, length, take, drop, length-take, length-drop, length-append,
  take-append-drop, Bool-cases, inl, inr,
}
use agents_protocol.Channel.Stream.{
  Bytes, unpack, max_length, read_exactly, after_payload, after_length, read_frames, process_stream,
}
use agents_protocol.Channel.Framing.{read_exactly-append}
use agents_protocol.Channel.Ends.{read_frames_enough}

-- Four bytes, the highest first.
abbrev pub big_endian : ℕ → ℕ → ℕ → ℕ → ℕ
big_endian a b c d = ((a * 256 + b) * 256 + c) * 256 + d

-- The payloads of a stream: a stream that is shorter than a length, gives a length of more than 10 MiB,
-- or ends within a payload has no further one; else the payload stands behind its length, and the
-- stream goes on behind it.
pub data Reads : Bytes → List Bytes → Type 0 where
  ends : (bytes : Bytes) → length bytes < 4 → Reads bytes []
  too_long :
      (a b c d : ℕ) (rest : Bytes) → 10485760 < big_endian a b c d → Reads (a ∷ b ∷ c ∷ d ∷ rest) []
  cut_off :
      (a b c d : ℕ) (rest : Bytes)
      → big_endian a b c d ≤ 10485760
      → length rest < big_endian a b c d
      → Reads (a ∷ b ∷ c ∷ d ∷ rest) []
  reads :
      (a b c d : ℕ) (p later : Bytes) (ps : List Bytes)
      → big_endian a b c d ≤ 10485760
      → length p ≡ big_endian a b c d
      → Reads later ps
      → Reads (a ∷ b ∷ c ∷ d ∷ p ++ later) (p ∷ ps)

process_stream-after_length :
    (bytes : Bytes)
    → process_stream bytes ≡ after_length (read_frames (length bytes)) (read_exactly 4 bytes)
process_stream-after_length bytes =
    sym (read_frames_enough (suc (length bytes)) bytes (omega arith)) ∙ (unfold read_frames in refl)

process_stream-ends : (bytes : Bytes) → length bytes < 4 → process_stream bytes ≡ []
process_stream-ends bytes h =
    let e : leb 4 (length bytes) ≡ false = ground arith in
    let x : read_exactly 4 bytes ≡ none = unfold read_exactly in rw e refl in
    rw (process_stream-after_length bytes, x) (unfold after_length in refl)

-- A stream that is long enough for a length.
process_stream-four :
    (a b c d : ℕ) (rest : Bytes)
    → process_stream (a ∷ b ∷ c ∷ d ∷ rest)
      ≡ after_length (read_frames (length (a ∷ b ∷ c ∷ d ∷ rest))) (some (a ∷ b ∷ c ∷ d ∷ [], rest))
process_stream-four a b c d rest =
    process_stream-after_length (a ∷ b ∷ c ∷ d ∷ rest)
    ∙ ap (after_length (read_frames (length (a ∷ b ∷ c ∷ d ∷ rest))))
        (read_exactly-append (a ∷ b ∷ c ∷ d ∷ []) rest)

unpack-big_endian : (a b c d : ℕ) → unpack (a ∷ b ∷ c ∷ d ∷ []) ≡ big_endian a b c d
unfolding unpack
unpack-big_endian a b c d = omega arith

process_stream-too_long :
    (a b c d : ℕ) (rest : Bytes)
    → 10485760 < big_endian a b c d
    → process_stream (a ∷ b ∷ c ∷ d ∷ rest) ≡ []
process_stream-too_long a b c d rest h =
    let long : ltb max_length (unpack (a ∷ b ∷ c ∷ d ∷ [])) ≡ true =
      ground (arith, unpack-big_endian a b c d) in
    rw (process_stream-four a b c d rest) (unfold after_length in rw long refl)

-- A length that is not too long.
process_stream-short :
    (a b c d : ℕ) (rest : Bytes)
    → big_endian a b c d ≤ 10485760
    → process_stream (a ∷ b ∷ c ∷ d ∷ rest)
      ≡ after_payload
          (read_frames (length (a ∷ b ∷ c ∷ d ∷ rest)))
          (read_exactly (big_endian a b c d) rest)
process_stream-short a b c d rest h =
    let short : ltb max_length (big_endian a b c d) ≡ false = ground arith in
    rw (process_stream-four a b c d rest)
      (unfold after_length in rw (unpack-big_endian a b c d, short) refl)

process_stream-cut_off :
    (a b c d : ℕ) (rest : Bytes)
    → big_endian a b c d ≤ 10485760
    → length rest < big_endian a b c d
    → process_stream (a ∷ b ∷ c ∷ d ∷ rest) ≡ []
process_stream-cut_off a b c d rest h k =
    let e : leb (big_endian a b c d) (length rest) ≡ false = ground arith in
    let x : read_exactly (big_endian a b c d) rest ≡ none = unfold read_exactly in rw e refl in
    rw (process_stream-short a b c d rest h, x) (unfold after_payload in refl)

process_stream-reads :
    (a b c d : ℕ) (p later : Bytes)
    → big_endian a b c d ≤ 10485760
    → length p ≡ big_endian a b c d
    → process_stream (a ∷ b ∷ c ∷ d ∷ p ++ later) ≡ p ∷ process_stream later
process_stream-reads a b c d p later h k =
    let n = length (a ∷ b ∷ c ∷ d ∷ p ++ later) in
    let x : read_exactly (big_endian a b c d) (p ++ later) ≡ some (p, later) =
      rw (← k) (read_exactly-append p later) in
    let y : after_payload (read_frames n) (some (p, later)) ≡ p ∷ read_frames n later =
      unfold after_payload in refl in
    process_stream-short a b c d (p ++ later) h
    ∙ (ap (after_payload (read_frames n)) x
        ∙ (y ∙ ap (◌∷◌ p) (read_frames_enough n later (omega (arith, length-append p later)))))

Reads-process_stream :
    (bytes : Bytes) (ps : List Bytes) → Reads bytes ps → process_stream bytes ≡ ps
Reads-process_stream _ _ (ends bytes h) = process_stream-ends bytes h
Reads-process_stream _ _ (too_long a b c d rest h) = process_stream-too_long a b c d rest h
Reads-process_stream _ _ (cut_off a b c d rest h k) = process_stream-cut_off a b c d rest h k
Reads-process_stream _ _ (reads a b c d p later ps h k r) =
    process_stream-reads a b c d p later h k ∙ ap (◌∷◌ p) (Reads-process_stream later ps r)

-- Every stream has its payloads.
Reads-some : (n : ℕ) (bytes : Bytes) → length bytes ≤ n → (ps : List Bytes) × Reads bytes ps
Reads-some n [] h = ([], ends [] (omega arith))
Reads-some n (a ∷ []) h = ([], ends (a ∷ []) (omega arith))
Reads-some n (a ∷ b ∷ []) h = ([], ends (a ∷ b ∷ []) (omega arith))
Reads-some n (a ∷ b ∷ c ∷ []) h = ([], ends (a ∷ b ∷ c ∷ []) (omega arith))
Reads-some zero (a ∷ b ∷ c ∷ d ∷ rest) h = absurd (omega arith)
Reads-some (suc n) (a ∷ b ∷ c ∷ d ∷ rest) h =
    let m = big_endian a b c d in
    elim (Bool-cases (ltb 10485760 m)) [
      | inl long ↦ ([], too_long a b c d rest (ground arith))
      | inr short ↦ elim (Bool-cases (leb m (length rest))) [
        | inr cut ↦ ([], cut_off a b c d rest (ground arith) (ground arith))
        | inl whole ↦
            let (ps, r) = Reads-some n (drop m rest) (omega (arith, length-drop m rest)) in
            let k : length (take m rest) ≡ m = ground (arith, length-take m rest) in
            let x = reads a b c d (take m rest) (drop m rest) ps (ground arith) k r in
            (take m rest ∷ ps, rw (take-append-drop m rest) at x)
      ]
    ]

-- For every stream that ends: the loop returns, and the payloads that it has read are exactly those of
-- the stream.
pub process_stream-Reads :
    (bytes : Bytes) (ps : List Bytes) → (process_stream bytes ≡ ps) ↔ Reads bytes ps
process_stream-Reads bytes ps =
    let (qs, r) = Reads-some (length bytes) bytes (omega arith) in
    (λ e. rw (sym (Reads-process_stream bytes qs r) ∙ e) at r, λ x. Reads-process_stream bytes ps x)
