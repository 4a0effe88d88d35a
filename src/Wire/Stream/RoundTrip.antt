-- ===== src/Wire/Stream/RoundTrip.antt =====
-- A stream of frames numbered in order is decoded whole (ground/wire.py).
use tvc.Prelude.{
  ℕ, zero, suc, ◌+◌, ◌-◌, ◌%◌, ◌^◌, ◌≤◌, ◌<◌, ◌≡◌, refl, ◌⊎◌, inl, inr, true, false, Option, none,
  some, List, [], ◌∷◌, ◌++◌, length, drop, arith, All, length-append, ltb, ◌==◌, ◌∙◌, ap,
}
use mathlib.Core.List.{append_assoc, append-nil}
use tvc.Wire.Bytes.{slice, of_le, le_bytes, of_le-le_bytes}
use tvc.Wire.Frame.{unpack_head, frame_bytes, known_type, max_payload, pack_head, sync, version}
use tvc.Wire.Frame.RoundTrip.{
  head-at, payload-at, crc-at, covered-at, rest-at, length-frame_bytes, frame_crc,
}
use tvc.Wire.Stream.{
  Frame, Counters, Scan, start, find_sync, account, take_frame, examine, round, scan, decode_stream,
}

-- What a sender may put into a frame.
abbrev pub IsSendable : ℕ × List ℕ → Type 0
IsSendable m = (known_type m.0 ≡ true) × (length m.1 ≤ max_payload)

-- The frames of some messages, numbered from `n` on modulo 2^32.
abbrev pub numbered : ℕ → List (ℕ × List ℕ) → List Frame
numbered n [] = []
numbered n ((t, p) ∷ ms) = record { ftype = t; seq = n % 2 ^ 32; payload = p } ∷ numbered (n + 1) ms

-- The head of a frame with its type known, as the decoder sees it.
known_type-lt : (t : ℕ) → known_type t ≡ true → t < 256
known_type-lt t h = ground arith

module _ (crc32c : List ℕ → ℕ) where
  -- The bytes of those frames.
  abbrev pub written : ℕ → List (ℕ × List ℕ) → List ℕ
  written n [] = []
  written n ((t, p) ∷ ms) = frame_bytes crc32c t n p ++ written (n + 1) ms

  find_sync-frame :
      (t n : ℕ) (p rest : List ℕ)
      → find_sync (frame_bytes crc32c t n p ++ rest) ≡ some (frame_bytes crc32c t n p ++ rest)
  unfolding find_sync frame_bytes pack_head le_bytes
  find_sync-frame t n p rest = refl

  -- One round takes a whole frame, when every check passes.
  examine_accepts :
      (s : Scan) (at p tail covered rest : List ℕ) (t n : ℕ)
      → 14 + length p ≤ length at
      → known_type t ≡ true
      → length p ≤ max_payload
      → unpack_head at ≡ record {
        sync_word = sync;
        version_byte = version;
        ftype = t;
        payload_length = length p;
        seq = n;
      }
      → slice (10 + length p) 4 at ≡ tail
      → slice 2 (8 + length p) at ≡ covered
      → of_le tail ≡ crc32c covered
      → slice 10 (length p) at ≡ p
      → drop (14 + length p) at ≡ rest
      → examine crc32c s at
        ≡ some (take_frame (record { ftype = t; seq = n; payload = p }) (14 + length p) s, rest)
  unfolding examine
  examine_accepts s at p tail covered rest t n l known fits h e c crc body more =
      let long : ltb (length at) 10 ≡ false = ground arith in
      let size : 10 + length p + 4 ≡ 14 + length p = omega arith in
      let whole : ltb (length at) (14 + length p) ≡ false = ground arith in
      let small : ltb 498 (length p) ≡ false = ground arith in
      let e6 : 14 + length p - 4 ≡ 10 + length p = omega arith in
      let e7 : 10 + length p - 2 ≡ 8 + length p = omega arith in
      let e8 : 10 + length p - 10 ≡ length p = omega arith in
      let crcs : (crc32c covered == crc32c covered) ≡ true = ground arith in
      rw (long, h)
        (rw (known, small) (rw (size, whole) (rw (e6, e7, e8, e, c, crc, body, more) (rw crcs))))

  scan-round :
      (fuel : ℕ) (s s1 : Scan) (at rest : List ℕ)
      → round crc32c s at ≡ some (s1, rest)
      → scan crc32c (suc fuel) s at ≡ scan crc32c fuel s1 rest
  unfolding scan
  scan-round fuel s s1 at rest e = rw (e, scan)

  module _ (bounded : (bytes : List ℕ) → crc32c bytes < 2 ^ 32) where
    round_frame :
        (s : Scan) (t n : ℕ) (p rest : List ℕ)
        → IsSendable (t, p)
        → round crc32c s (frame_bytes crc32c t n p ++ rest)
          ≡ some (
            take_frame (record { ftype = t; seq = n % 2 ^ 32; payload = p }) (14 + length p) s,
            rest,
          )
    unfolding round
    round_frame s t n p rest (known, fits) =
        let c : ℕ = frame_crc crc32c t n p in
        let crc : slice (10 + length p) 4 (frame_bytes crc32c t n p ++ rest) ≡ le_bytes 4 c =
          rw (crc-at crc32c t n p rest) (unfold le_bytes in refl) in
        rw (find_sync-frame t n p rest, round)
          (examine_accepts s _ p (le_bytes 4 c) _ rest t (n % 2 ^ 32)
            (omega (
              arith,
              length-append (frame_bytes crc32c t n p) rest,
              length-frame_bytes crc32c t n p,
            ))
            known fits (head-at crc32c t n p rest (known_type-lt t known) (omega arith)) crc
            (covered-at crc32c t n p rest) (of_le-le_bytes 4 c (bounded _))
            (payload-at crc32c t n p rest) (rest-at crc32c t n p rest))

    -- What the decoder expects next: nothing yet, or the number `n`.
    abbrev Expects : Option ℕ → ℕ → Type 0
    Expects e n = (e ≡ none) ⊎ (e ≡ some (n % 2 ^ 32))

    -- A frame with the expected number only raises `frames_ok`.
    account_expected :
        (e : Option ℕ) (n : ℕ) (c : Counters) → Expects e n → account e (n % 2 ^ 32) c ≡ c
    unfolding account
    account_expected e n c h = ground arith

    taken-ctr :
        (s : Scan) (n t : ℕ) (p : List ℕ) (size : ℕ)
        → Expects s.expected n
        → (take_frame (record { ftype = t; seq = n % 2 ^ 32; payload = p }) size s).ctr
          ≡ record s.ctr { frames_ok = s.ctr.frames_ok + 1 }
    unfolding take_frame
    taken-ctr s n t p size x = account_expected s.expected n _ x

    scan-written :
        (fuel n : ℕ) (ms : List (ℕ × List ℕ)) (s : Scan)
        → length (written n ms) < fuel
        → All IsSendable ms
        → Expects s.expected n
        → (s' : Scan) × (scan crc32c fuel s (written n ms) ≡ some s')
          × (s'.frames ≡ s.frames ++ numbered n ms)
          × (s'.ctr ≡ record s.ctr { frames_ok = s.ctr.frames_ok + length ms })
          × (s'.consumed ≡ s.consumed + length (written n ms))
    scan-written zero n ms s f h x = absurd (omega arith)
    scan-written (suc fuel) n [] s f h x =
        (s, unfold scan round find_sync in refl, rw append-nil, ground arith, omega arith)
    scan-written (suc fuel) n ((t, p) ∷ ms) s f h x =
        let one : Frame = record { ftype = t; seq = n % 2 ^ 32; payload = p } in
        let s1 : Scan = take_frame one (14 + length p) s in
        let rest : List ℕ = written (n + 1) ms in
        let l = length-append (frame_bytes crc32c t n p) rest in
        let l' = length-frame_bytes crc32c t n p in
        let later : Expects s1.expected (n + 1) =
          inr (unfold take_frame in ap some (omega arith)) in
        let frames1 : s1.frames ≡ s.frames ++ one ∷ [] = unfold take_frame in refl in
        let consumed1 : s1.consumed ≡ s.consumed + (14 + length p) = unfold take_frame in refl in
        let ctr1 = taken-ctr s n t p (14 + length p) x in
        let (s', e, fs, c, k) = scan-written fuel (n + 1) ms s1 (omega arith) h.1 later in
        (
          s',
          scan-round fuel s s1 _ rest (round_frame s t n p rest h.0) ∙ e,
          fs
              ∙ ap (λ (z : List Frame). z ++ numbered (n + 1) ms) frames1
              ∙ append_assoc s.frames (one ∷ []) (numbered (n + 1) ms),
          c ∙ rw ctr1 (ground arith),
          k ∙ omega (arith, l, l', consumed1),
        )

    -- The concatenation of frames numbered in order, from any number and over the wrap at 2^32, is
    -- decoded to exactly those frames, with no error, gap or skipped byte counted.
    pub decode_stream-written :
        (n : ℕ) (ms : List (ℕ × List ℕ))
        → All IsSendable ms
        → decode_stream crc32c (written n ms)
          ≡ some (
            numbered n ms,
            record {
              frames_ok = length ms;
              crc_errors = 0;
              version_mismatch = 0;
              resyncs = 0;
              seq_discontinuities = 0;
              lost = 0;
              skipped_bytes = 0;
            },
          )
    unfolding decode_stream
    decode_stream-written n ms h =
        let bytes : List ℕ = written n ms in
        let (s', e, fs, c, k) =
          scan-written (suc (length bytes)) n ms start (omega arith) h
            (inl (unfold start in refl)) in
        let none_left : length bytes - s'.consumed ≡ 0 = unfold start in omega arith in
        rw (e, fs, c, none_left) (unfold start in ground arith)
