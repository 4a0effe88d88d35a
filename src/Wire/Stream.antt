-- ===== src/Wire/Stream.antt =====
-- `decode_stream` of ground/wire.py. `pos` is represented by the bytes from it on, data[pos:].
-- The loop runs on fuel, one unit for each round; `none` means that the fuel ran out.
pub mod Totality
pub mod RoundTrip
use tvc.Prelude.{
  ℕ, zero, suc, ◌+◌, ◌-◌, ◌%◌, ◌^◌, ◌≤◌, Bool, true, false, not, ◌&&◌, ◌||◌, Option, none, some,
  List, [], ◌∷◌, ◌++◌, ltb, leb, ◌==◌, if◌then◌else◌, length, take, drop,
}
use tvc.Wire.Bytes.{of_le, slice}
use tvc.Wire.Frame.{Head, unpack_head, version, known_type, max_payload, head_size, crc_size}

pub record Frame : Type 0 where
  pub ftype : ℕ
  pub seq : ℕ
  pub payload : List ℕ

pub record Counters : Type 0 where
  pub frames_ok : ℕ
  pub crc_errors : ℕ
  pub version_mismatch : ℕ
  pub resyncs : ℕ
  pub seq_discontinuities : ℕ
  pub lost : ℕ
  pub skipped_bytes : ℕ

-- The local variables of the loop but `pos`.
pub record Scan : Type 0 where
  pub frames : List Frame
  pub ctr : Counters
  pub expected : Option ℕ
  pub consumed : ℕ
  pub locked : Bool

unfoldable pub start : Scan
start = record {
  frames = [];
  ctr = record {
    frames_ok = 0;
    crc_errors = 0;
    version_mismatch = 0;
    resyncs = 0;
    seq_discontinuities = 0;
    lost = 0;
    skipped_bytes = 0;
  };
  expected = none;
  consumed = 0;
  locked = true;
}

-- data.find(b"\x90\xeb", pos)
abbrev at_sync : List ℕ → Bool
at_sync (a ∷ b ∷ rest) = a == 0x90 && b == 0xeb
at_sync _ = false

unfoldable pub find_sync : List ℕ → Option (List ℕ)
find_sync [] = none
find_sync (b ∷ rest) = if at_sync (b ∷ rest) then some (b ∷ rest) else find_sync rest

-- `if locked: ctr["resyncs"] += 1; locked = False`
unfoldable pub lose_lock : Scan → Scan
lose_lock s =
    if s.locked
    then record s { ctr = record s.ctr { resyncs = s.ctr.resyncs + 1 }; locked = false }
    else s

-- The accounting of a frame's sequence number against the expected one.
unfoldable pub account : Option ℕ → ℕ → Counters → Counters
account none seq c = c
account (some expected) seq c =
    let gap : ℕ = (seq + (2 ^ 32 - expected)) % 2 ^ 32 in
    if leb 1 gap && ltb gap (2 ^ 31)
    then record c { lost = c.lost + gap }
    else if leb (2 ^ 31) gap
    then record c { seq_discontinuities = c.seq_discontinuities + 1 }
    else c

unfoldable pub take_frame : Frame → ℕ → Scan → Scan
take_frame f size s = record {
  frames = s.frames ++ (f ∷ []);
  ctr = account s.expected f.seq (record s.ctr { frames_ok = s.ctr.frames_ok + 1 });
  expected = some ((f.seq + 1) % 2 ^ 32);
  consumed = s.consumed + size;
  locked = true;
}

module _ (crc32c : List ℕ → ℕ) where
  -- One round at a sync word: `none` is `break`, otherwise the new variables and position.
  unfoldable pub examine : Scan → List ℕ → Option (Scan × List ℕ)
  examine s at =
      if ltb (length at) head_size
      then none
      else let h = unpack_head at in
        if not (h.version_byte == version)
        then some (
          lose_lock
              (record s { ctr = record s.ctr { version_mismatch = s.ctr.version_mismatch + 1 } }),
          drop 1 at,
        )
        else if not (known_type h.ftype) || ltb max_payload h.payload_length
        then some (lose_lock s, drop 1 at)
        else let end : ℕ = head_size + h.payload_length + crc_size in
          if ltb (length at) end
          then none
          else if not (
              of_le (slice (end - crc_size) crc_size at)
              == crc32c (slice 2 (end - crc_size - 2) at))
          then some (
            lose_lock (record s { ctr = record s.ctr { crc_errors = s.ctr.crc_errors + 1 } }),
            drop 1 at,
          )
          else some (
            take_frame
                (record {
                  ftype = h.ftype;
                  seq = h.seq;
                  payload = slice head_size (end - crc_size - head_size) at;
                })
                end s,
            drop end at,
          )

  -- One round of `while True`.
  unfoldable pub round : Scan → List ℕ → Option (Scan × List ℕ)
  round s rest = elim (find_sync rest) [ none ↦ none | some at ↦ examine s at ]

  unfoldable pub scan : ℕ → Scan → List ℕ → Option Scan
  scan zero s rest = none
  scan (suc fuel) s rest = elim (round s rest) [
    | none ↦ some s
    | some (s', rest') ↦ scan fuel s' rest'
  ]

  abbrev finish : ℕ → Scan → List Frame × Counters
  finish size s = (s.frames, record s.ctr { skipped_bytes = size - s.consumed })

  abbrev report : ℕ → Option Scan → Option (List Frame × Counters)
  report size none = none
  report size (some s) = some (finish size s)

  -- A round that goes on takes a byte at least, so one more than the bytes is enough fuel.
  unfoldable pub decode_stream : List ℕ → Option (List Frame × Counters)
  decode_stream bytes = report (length bytes) (scan (suc (length bytes)) start bytes)
