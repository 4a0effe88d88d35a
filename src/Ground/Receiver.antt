-- ===== src/Ground/Receiver.antt =====
-- ground/link.py: `control_frame`, `write_all` and the class Receiver.
pub mod Conservation
pub mod Recording
pub mod Errors
use Prim.Native.String.{String}
use text.Mathlib.Text.{◌==◌ as str_eq}
use tvc.Prelude.{
  ℕ, ◌+◌, Bool, true, false, not, ◌&&◌, ◌||◌, Option, none, some, List, [], ◌∷◌, ltb, leb, ◌==◌,
  if◌then◌else◌, length,
}
use tvc.Prelude.Int.{ℤ, pos_part}
use tvc.Prelude.Result.{Result, ok, err, ◌>>=◌, ◌>>◌, require}
use tvc.Float64
use tvc.Wire.Errors.{Error, nonfinite_control}
use tvc.Wire.Frame.{decode_datagram}
use tvc.Wire.Payload.{Value, int, float, Fields, get, as_int, decode_payload}

-- (host, port)
abbrev pub Endpoint : Type 0
Endpoint = String × ℕ

abbrev same_endpoint : Endpoint → Endpoint → Bool
same_endpoint a b = str_eq a.0 b.0 && a.1 == b.1

abbrev pub same_bytes : List ℕ → List ℕ → Bool
same_bytes [] [] = true
same_bytes (a ∷ rest_a) (b ∷ rest_b) = a == b && same_bytes rest_a rest_b
same_bytes _ _ = false

-- COUNTERS
pub record Counters : Type 0 where
  pub received : ℕ
  pub foreign : ℕ
  pub malformed : ℕ
  pub duplicate : ℕ
  pub out_of_order : ℕ
  pub conflict : ℕ
  pub recorded : ℕ
  pub write_failed_datagrams : ℕ
  pub socket_errors : ℕ
  pub last_errno : ℕ

-- `recording` holds the frames that were written in full, newest first. `source` and the pair of
-- `last_tick` and `last` are `none` until there is one.
pub record Receiver : Type 0 where
  pub recording : List (List ℕ)
  pub source : Option Endpoint
  pub last : Option (ℕ × List ℕ)
  pub counters : Counters

-- Receiver.__init__
unfoldable pub opened : Receiver
opened = record {
  recording = [];
  source = none;
  last = none;
  counters = record {
    received = 0;
    foreign = 0;
    malformed = 0;
    duplicate = 0;
    out_of_order = 0;
    conflict = 0;
    recorded = 0;
    write_failed_datagrams = 0;
    socket_errors = 0;
    last_errno = 0;
  };
}

-- math.isfinite of a field: an integer of at most 64 bits is finite.
abbrev pub finite_value : Value → Bool
finite_value (float b) = Float64.is_finite b
finite_value (int n) = true

-- The checks of `control_frame` on the decoded fields, and its tick, which is unsigned.
unfoldable pub control_tick : Fields → Result Error ℕ
control_tick fields = do
  theta ← get fields "theta"
  omega ← get fields "omega"
  cmd ← get fields "cmd"
  i_state ← get fields "i_state"
  d_prev ← get fields "d_prev"
  require
      (finite_value theta
        && finite_value omega
        && finite_value cmd
        && finite_value i_state
        && finite_value d_prev)
      nonfinite_control
  tick ← get fields "tick" >>= as_int
  ok (pos_part tick)

-- `self.source is not None and source != self.source`
abbrev pub is_foreign : Option Endpoint → Endpoint → Bool
is_foreign none source = false
is_foreign (some known) source = not (same_endpoint source known)

-- `if self.source is None: self.source = source`
abbrev pub adopt : Endpoint → Option Endpoint → Option Endpoint
adopt source none = some source
adopt source (some known) = some known

-- `write_all`, its argument the value that `stream.write` returns or `none` for an OSError: the
-- state and whether an OSError goes on to the caller.
unfoldable pub write : Option ℕ → ℕ → List ℕ → Receiver → Receiver × Bool
write none tick raw r = (
  record r {
    counters = record r.counters { write_failed_datagrams = r.counters.write_failed_datagrams + 1 };
  },
  true,
)
write (some written) tick raw r =
    if written == length raw
    then (
      record r {
        recording = raw ∷ r.recording;
        last = some (tick, raw);
        counters = record r.counters { recorded = r.counters.recorded + 1 };
      },
      false,
    )
    else (
      record r {
        counters = record r.counters {
          write_failed_datagrams = r.counters.write_failed_datagrams + 1;
        };
      },
      true,
    )

-- The comparison with the last frame, and the write of a newer one.
unfoldable pub settle : Option (ℕ × List ℕ) → Option ℕ → ℕ → List ℕ → Receiver → Receiver × Bool
settle none written tick raw r = write written tick raw r
settle (some (last_tick, last)) written tick raw r =
    if ltb tick last_tick
    then (
      record r { counters = record r.counters { out_of_order = r.counters.out_of_order + 1 } },
      false,
    )
    else if tick == last_tick
    then (if same_bytes raw last
        then (
          record r { counters = record r.counters { duplicate = r.counters.duplicate + 1 } },
          false,
        )
        else (
          record r { counters = record r.counters { conflict = r.counters.conflict + 1 } },
          false,
        ))
    else write written tick raw r

-- `c['received'] += 1`
abbrev pub count_received : Receiver → Receiver
count_received r = record r { counters = record r.counters { received = r.counters.received + 1 } }

-- The ValueErrors of `control_frame` end here; Receiver/Errors is about the other exceptions.
unfoldable pub dispose :
    Result Error (ℕ × ℕ × List ℕ) → Endpoint → Option ℕ → Receiver → Receiver × Bool
dispose (err e) source written r =
    (record r { counters = record r.counters { malformed = r.counters.malformed + 1 } }, false)
dispose (ok (seq, tick, raw)) source written r =
    settle r.last written tick raw (record r { source = adopt source r.source })

module _ (crc32c : List ℕ → ℕ) where
  unfoldable pub control_frame : List ℕ → Result Error (ℕ × ℕ × List ℕ)
  control_frame bytes = do
    (_, seq, payload) ← decode_datagram crc32c bytes (6 ∷ [])
    fields ← decode_payload 6 payload
    tick ← control_tick fields
    ok (seq, tick, bytes)

  unfoldable pub accept : List ℕ → Endpoint → Option ℕ → Receiver → Receiver × Bool
  accept bytes source written r =
      if is_foreign r.source source
      then (
        record (count_received r) {
          counters = record (count_received r).counters { foreign = r.counters.foreign + 1 };
        },
        false,
      )
      else dispose (control_frame bytes) source written (count_received r)

  -- Datagrams until one raises, as `collect` hands them over.
  unfoldable pub accept_all : List (List ℕ × Endpoint × Option ℕ) → Receiver → Receiver × Bool
  accept_all [] r = (r, false)
  accept_all ((bytes, source, written) ∷ rest) r =
      let step : Receiver × Bool = accept bytes source written r in
      let later : Receiver × Bool = accept_all rest step.0 in if step.1 then step else later
