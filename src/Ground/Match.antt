-- ===== src/Ground/Match.antt =====
-- `match_streams` of ground/link.py. The two generators are the lists of the frames that they yield.
pub mod Accounting
pub mod Subsequence
use tvc.Prelude.{
  ℕ, ◌+◌, ◌-◌, ◌%◌, ◌^◌, Bool, true, false, Option, none, some, List, [], ◌∷◌, ltb, leb, ◌==◌,
  if◌then◌else◌,
}
use tvc.Prelude.Result.{Result, ok, err, ◌>>=◌, ◌>>◌, require}
use tvc.Ground.Receiver.{same_bytes}

-- A control frame: its sequence number, its tick and its bytes.
pub record Record : Type 0 where
  pub seq : ℕ
  pub tick : ℕ
  pub raw : List ℕ

pub data Mismatch : Type 0 where
  not_contiguous vehicle_not_increasing unmatched_ground ground_not_increasing : Mismatch
  different_frame beyond_recording : Mismatch

-- The local variables of the loop but the ground generator.
pub record Tally : Type 0 where
  pub previous_vehicle : Option ℕ
  pub previous_ground : Option ℕ
  pub last_match : Option ℕ
  pub vehicle_count : ℕ
  pub ground_count : ℕ
  pub leading : ℕ
  pub interior : ℕ

pub record Delivery : Type 0 where
  pub vehicle_records : ℕ
  pub ground_records : ℕ
  pub leading_lost : ℕ
  pub interior_lost : ℕ
  pub trailing_lost : ℕ
  pub ground_lost : ℕ

abbrev pub fresh_tally : Tally
fresh_tally = record {
  previous_vehicle = none;
  previous_ground = none;
  last_match = none;
  vehicle_count = 0;
  ground_count = 0;
  leading = 0;
  interior = 0;
}

-- previous is None or tick > previous
abbrev pub increases : Option ℕ → ℕ → Bool
increases none tick = true
increases (some previous) tick = ltb previous tick

-- The gap before a match: leading before the first one, interior after it.
abbrev pub gap : Tally → ℕ × ℕ
gap t = elim t.last_match [
  | none ↦ (t.vehicle_count, t.interior)
  | some last ↦ (t.leading, t.interior + (t.vehicle_count - last - 1))
]

abbrev pub matched : ℕ → Tally → Tally
matched tick t = record {
  previous_vehicle = some tick;
  previous_ground = some tick;
  last_match = some t.vehicle_count;
  vehicle_count = t.vehicle_count + 1;
  ground_count = t.ground_count + 1;
  leading = (gap t).0;
  interior = (gap t).1;
}

abbrev pub unmatched : ℕ → Tally → Tally
unmatched tick t = record t { previous_vehicle = some tick; vehicle_count = t.vehicle_count + 1 }

-- A ground record of the vehicle record's tick.
unfoldable pub match_equal :
    Record → Record → List Record → Tally → Result Mismatch (Tally × List Record)
match_equal v g rest t = do
  require (increases t.previous_ground g.tick) ground_not_increasing
  require (same_bytes g.raw v.raw) different_frame
  ok (matched v.tick t, rest)

-- One vehicle record against the ground records that are left.
unfoldable pub match_ground : Record → List Record → Tally → Result Mismatch (Tally × List Record)
match_ground v [] t = ok (unmatched v.tick t, [])
match_ground v (g ∷ rest) t = do
  require (leb v.tick g.tick) unmatched_ground
  if g.tick == v.tick then match_equal v g rest t else ok (unmatched v.tick t, g ∷ rest)

-- A round of the loop.
unfoldable pub merge : ℕ → Record → List Record → Tally → Result Mismatch (Tally × List Record)
merge start_ordinal v ground t = do
  require (v.seq == (start_ordinal + t.vehicle_count) % 2 ^ 32) not_contiguous
  require (increases t.previous_vehicle v.tick) vehicle_not_increasing
  match_ground v ground t

-- `vehicle_count if last_match is None else vehicle_count-last_match-1`
abbrev pub trailing : Tally → ℕ
trailing t = elim t.last_match [ none ↦ t.vehicle_count | some last ↦ t.vehicle_count - last - 1 ]

abbrev pub delivery : Tally → Delivery
delivery t = record {
  vehicle_records = t.vehicle_count;
  ground_records = t.ground_count;
  leading_lost = t.leading;
  interior_lost = t.interior;
  trailing_lost = trailing t;
  ground_lost = t.leading + t.interior + trailing t;
}

abbrev pub is_exhausted : List Record → Bool
is_exhausted [] = true
is_exhausted (g ∷ rest) = false

unfoldable pub merge_all : ℕ → List Record → List Record → Tally → Result Mismatch Delivery
merge_all start_ordinal [] ground t = do
  require (is_exhausted ground) beyond_recording
  ok (delivery t)
merge_all start_ordinal (v ∷ vehicle) ground t = do
  (t', ground') ← merge start_ordinal v ground t
  merge_all start_ordinal vehicle ground' t'

unfoldable pub match_streams : ℕ → List Record → List Record → Result Mismatch Delivery
match_streams start_ordinal vehicle ground = merge_all start_ordinal vehicle ground fresh_tally
