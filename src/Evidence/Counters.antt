-- ===== src/Evidence/Counters.antt =====
-- sender_errors and receiver_errors of scripts/reconcile.py. The dict of counters of a report is a
-- list of keys and values, where `none` is a value that is not an int.
use Prim.Native.String.{String}
use text.Mathlib.Text.{◌==◌ as str_eq}
use tvc.Prelude.{
  ℕ, ◌+◌, Bool, true, false, ◌&&◌, Option, none, some, List, [], ◌∷◌, ◌++◌, ◌==◌, if◌then◌else◌,
  is_some,
}
use tvc.Prelude.Int.{ℤ, pos, negsuc}

pub data Problem : Type 0 where
  missing_sender_counter generation attempts send_outcomes successful_copies first_success : Problem
  missing_receiver_counter raw_receipt receipt_disposition logical_disposition : Problem

abbrev pub Counts : Type 0
Counts = List (String × Option ℤ)

abbrev pub count : String → Counts → Option ℕ
count key [] = none
count key ((k, v) ∷ rest) =
    if str_eq k key
    then elim v [ some (pos n) ↦ some n | some (negsuc n) ↦ none | none ↦ none ]
    else count key rest

abbrev pub all_counted : List String → Counts → Bool
all_counted [] c = true
all_counted (key ∷ keys) c = is_some (count key c) && all_counted keys c

-- c[key], once the counters are checked.
abbrev pub value : Counts → String → ℕ
value c key = elim (count key c) [ none ↦ 0 | some n ↦ n ]

abbrev pub total : Counts → List String → ℕ
total c [] = 0
total c (key ∷ keys) = value c key + total c keys

abbrev pub equation : Problem → ℕ → ℕ → List Problem
equation name left right = if left == right then [] else name ∷ []

abbrev pub send_fields : List String
send_fields =
    "generated" ∷ "original_attempts" ∷ "retry_attempts" ∷ "not_attempted" ∷ "send_attempts"
    ∷ "send_pending" ∷ "tx_fail" ∷ "transmitted" ∷ "first_transmitted" ∷ "additional_copies"
    ∷ "never_transmitted" ∷ []

unfoldable pub sender_errors : Counts → List Problem
sender_errors c =
    if all_counted send_fields c
    then equation generation (value c "generated")
        (value c "original_attempts" + value c "not_attempted")
      ++ equation attempts (value c "send_attempts")
          (value c "original_attempts" + value c "retry_attempts")
      ++ equation send_outcomes (value c "send_attempts")
          (value c "tx_fail" + value c "transmitted" + value c "send_pending")
      ++ equation successful_copies (value c "transmitted")
          (value c "first_transmitted" + value c "additional_copies")
      ++ equation first_success (value c "generated")
          (value c "first_transmitted" + value c "never_transmitted")
    else missing_sender_counter ∷ []

-- keys[4:]
abbrev pub receipt_fields : List String
receipt_fields =
    "logical_received" ∷ "discarded_duplicate" ∷ "rejected_received" ∷ "classification_pending" ∷ []

abbrev pub receive_fields : List String
receive_fields = "received_raw" ∷ "malformed" ∷ "received" ∷ "decode_pending" ∷ receipt_fields

-- extra
abbrev pub disposition_fields : Bool → List String
disposition_fields true =
    "admitted" ∷ "sample_invalid" ∷ "sample_nonfinite" ∷ "admission_pending" ∷ []
disposition_fields false =
    "modeled_command_loss" ∷ "forwarded_to_delay" ∷ "disposition_pending" ∷ []

unfoldable pub receiver_errors : Counts → Bool → List Problem
receiver_errors c sensor =
    if all_counted (receive_fields ++ disposition_fields sensor) c
    then equation raw_receipt (value c "received_raw")
        (value c "malformed" + value c "received" + value c "decode_pending")
      ++ equation receipt_disposition (value c "received") (total c receipt_fields)
      ++ equation logical_disposition (value c "logical_received")
          (total c (disposition_fields sensor))
    else missing_receiver_counter ∷ []
