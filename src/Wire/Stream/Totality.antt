-- ===== src/Wire/Stream/Totality.antt =====
-- `decode_stream` ends on every input, and its counters account for every byte.
use tvc.Prelude.{
  ℕ, zero, suc, ◌+◌, ◌-◌, ◌≤◌, ◌<◌, ◌≡◌, refl, Bool, true, false, Option, none, some, List, [], ◌∷◌,
  ◌++◌, length, drop, arith, length-append, length-drop, inl, inr, length-take, Option-cases,
}
use tvc.Wire.Bytes.{slice}
use tvc.Wire.Frame.{unpack_head}
use tvc.Wire.Stream.{
  Frame, Counters, Scan, start, find_sync, lose_lock, account, take_frame, examine, round, scan,
  decode_stream,
}

pub find_sync-le :
    (rest at : List ℕ) → find_sync rest ≡ some at → (length at ≤ length rest) × (0 < length at)
unfolding find_sync
find_sync-le [] at h = cc
find_sync-le (b ∷ rest) at h = ground (arith, find_sync-le rest at)

-- The bytes of the frames read so far.
abbrev pub frame_size : List Frame → ℕ
frame_size [] = 0
frame_size (f ∷ fs) = 14 + length f.payload + frame_size fs

frame_size-append : (xs ys : List Frame) → frame_size (xs ++ ys) ≡ frame_size xs + frame_size ys
frame_size-append [] ys = omega arith
frame_size-append (x ∷ xs) ys = omega (arith, frame_size-append xs ys)

abbrev unlocked : Bool → ℕ
unlocked true = 0
unlocked false = 1

unlocked-le : (b : Bool) → unlocked b ≤ 1
unlocked-le true = omega arith
unlocked-le false = omega arith

pub record IsAccounted (s : Scan) : Type 0 where
  pub counted : s.ctr.frames_ok ≡ length s.frames
  pub sized : s.consumed ≡ frame_size s.frames
  pub resynced : s.ctr.resyncs ≤ s.ctr.frames_ok + unlocked s.locked

start-IsAccounted : IsAccounted start
unfolding start
start-IsAccounted = omega arith

account-frames_ok :
    (e : Option ℕ) (seq : ℕ) (c : Counters)
    → ((account e seq c).frames_ok ≡ c.frames_ok) × ((account e seq c).resyncs ≡ c.resyncs)
unfolding account
account-frames_ok e seq c = ground arith

take_frame-IsAccounted :
    (f : Frame) (size : ℕ) (s : Scan)
    → size ≡ 14 + length f.payload
    → IsAccounted s
    → IsAccounted (take_frame f size s)
unfolding take_frame
take_frame-IsAccounted f size s e h =
    let c = account-frames_ok s.expected f.seq (record s.ctr { frames_ok = s.ctr.frames_ok + 1 }) in
    ground (arith, c, length-append s.frames (f ∷ []), frame_size-append s.frames (f ∷ []))

module _ (crc32c : List ℕ → ℕ) where
  examine-shorter :
      (s s' : Scan) (at rest : List ℕ)
      → 0 < length at
      → examine crc32c s at ≡ some (s', rest)
      → (length rest < length at) × (s'.consumed + length rest ≤ s.consumed + length at)
  unfolding examine take_frame lose_lock
  examine-shorter s s' at rest h e =
      ground (arith, length-drop 1 at, length-drop (14 + (unpack_head at).payload_length) at)

  examine-IsAccounted :
      (s s' : Scan) (at rest : List ℕ)
      → examine crc32c s at ≡ some (s', rest)
      → IsAccounted s
      → IsAccounted s'
  unfolding examine lose_lock
  examine-IsAccounted s s' at rest e h =
      let n : ℕ = (unpack_head at).payload_length in
      let p : List ℕ = slice 10 (14 + n - 4 - 10) at in
      let f : Frame = record {
        ftype = (unpack_head at).ftype;
        seq = (unpack_head at).seq;
        payload = p;
      } in
      ground (
        arith,
        take_frame-IsAccounted f (14 + n) s,
        length-take (14 + n - 4 - 10) (drop 10 at),
        length-drop 10 at,
      )

  round_found :
      (s s' : Scan) (rest rest' : List ℕ) (o : Option (List ℕ))
      → find_sync rest ≡ o
      → (elim o [ none ↦ none | some at ↦ examine crc32c s at ]) ≡ some (s', rest')
      → (at : List ℕ) × (find_sync rest ≡ some at) × (examine crc32c s at ≡ some (s', rest'))
  round_found s s' rest rest' none f e = cc
  round_found s s' rest rest' (some at) f e = (at, f, e)

  pub round_inv :
      (s s' : Scan) (rest rest' : List ℕ)
      → round crc32c s rest ≡ some (s', rest')
      → IsAccounted s
      → (length rest' < length rest)
        × (s'.consumed + length rest' ≤ s.consumed + length rest)
        × IsAccounted s'
  unfolding round
  round_inv s s' rest rest' e h =
      let (at, f, x) = round_found s s' rest rest' (find_sync rest) refl e in
      let (le, pos) = find_sync-le rest at f in
      let (shorter, within) = examine-shorter s s' at rest' pos x in
      (omega arith, omega arith, examine-IsAccounted s s' at rest' x h)

  scan_total :
      (fuel : ℕ) (s : Scan) (rest : List ℕ) (n : ℕ)
      → length rest < fuel
      → s.consumed + length rest ≤ n
      → IsAccounted s
      → (s' : Scan) × (scan crc32c fuel s rest ≡ some s') × IsAccounted s' × (s'.consumed ≤ n)
  unfolding scan
  scan_total zero s rest n f w h = absurd (omega arith)
  scan_total (suc fuel) s rest n f w h = elim (Option-cases (round crc32c s rest)) [
    | inl over ↦ (s, rw (over, scan), h, omega arith)
    | inr ((s', rest'), e) ↦
        let (shorter, within, h') = round_inv s s' rest rest' e h in
        rw (e, scan) (scan_total fuel s' rest' n (omega arith) (omega arith) h')
  ]

  -- On every input the decoder ends with a result. Each frame is counted, the frames and the skipped
  -- bytes make up the input, and the lock is lost at most once more than frames are read.
  pub decode_stream_total :
      (bytes : List ℕ)
      → (fs : List Frame) × (c : Counters) × (decode_stream crc32c bytes ≡ some (fs, c))
        × (c.frames_ok ≡ length fs)
        × (frame_size fs + c.skipped_bytes ≡ length bytes)
        × (c.resyncs ≤ c.frames_ok + 1)
  unfolding decode_stream
  decode_stream_total bytes =
      let (s, e, h, w) =
        scan_total (suc (length bytes)) start bytes (length bytes) (omega arith)
          (unfold start in omega arith) start-IsAccounted in
      let one : unlocked s.locked ≤ 1 = unlocked-le s.locked in
      (
        s.frames,
        record s.ctr { skipped_bytes = length bytes - s.consumed },
        rw e,
        h.counted,
        omega (arith, h.sized),
        omega (arith, h.resynced),
      )
