-- ===== src/Sim/Freerun/Receipt.antt =====
-- A predicate that neither the loss draws nor the counters of received packets disturb is kept by a
-- receipt (sim/freerun.py, Model.receive).
use tvc.Prelude.{ℕ, ◌+◌, ◌≡◌, Bool, true, false, Option, none, some, List, [], ◌∷◌, arith}
use tvc.Prelude.Raising.{Outcome, Always, and_then-Always, Always-state}
use tvc.Wire.Actuator.{ActuatorReply}
use tvc.Sim.Scenario.{Scenario, down}
use tvc.Sim.Freerun.{
  Model, DownCounts, loss, receive_one, receive_all, select, receive, decoded, is_terminal,
  after_loss, survive, count_receipt, status_reason,
}

-- The model with other counters of received packets.
abbrev pub with_receipt : Model → DownCounts → Option ℕ → Option ℕ → ℕ → ℕ → ℕ → Model
with_receipt m counts reason seen raw lost survived = record m {
  down_counts = counts;
  term = record m.term {
    down_received_raw = raw;
    down_intentionally_lost = lost;
    down_survived = survived;
  };
  reason = reason;
  vehicle_seen = seen;
}

abbrev pub KeepsReceipts : (Model → Type 0) → Type 0
KeepsReceipts Q =
    (m : Model) (counts : DownCounts) (reason seen : Option ℕ) (raw lost survived : ℕ)
    → Q m
    → Q (with_receipt m counts reason seen raw lost survived)

select-receipt :
    (survivors : List ActuatorReply) (m : Model)
    → (select survivors m).0
      ≡ with_receipt m
          (select survivors m).0.down_counts
          (select survivors m).0.reason
          m.vehicle_seen
          m.term.down_received_raw
          m.term.down_intentionally_lost
          m.term.down_survived
unfolding select
select-receipt survivors m = ground arith

module _ (Q : Model → Type 0) (spec : Scenario) (k : ℕ)
    (loss_keeps : (terminal : Bool) (m : Model)
      → Q m
      → Always Q (loss spec down k terminal false m))
    (keeps : KeepsReceipts Q) where
  survive_keeps :
      (value : ActuatorReply) (terminal : Bool) (survivors : List ActuatorReply) (m : Model)
      → Q m
      → Always Q (survive value terminal survivors m)
  survive_keeps value true survivors m h =
      let t = m.term in
      let seen =
        keeps m m.down_counts m.reason (some (status_reason value.status)) t.down_received_raw
          t.down_intentionally_lost t.down_survived h in
      ground arith
  survive_keeps value false survivors m h =
      let t = m.term in
      let counted =
        keeps m (record m.down_counts { invalid = m.down_counts.invalid + 1 }) m.reason
          m.vehicle_seen t.down_received_raw t.down_intentionally_lost t.down_survived h in
      ground arith

  count_receipt_keeps :
      (value : ActuatorReply) (terminal drop : Bool) (m : Model)
      → Q m
      → Q (count_receipt value terminal drop m)
  count_receipt_keeps value true drop m h = keeps m m.down_counts m.reason m.vehicle_seen _ _ _ h
  count_receipt_keeps value false drop m h =
      let t = m.term in
      keeps m _ m.reason m.vehicle_seen t.down_received_raw t.down_intentionally_lost
        t.down_survived h

  after_loss_keeps :
      (value : ActuatorReply) (terminal : Bool) (survivors : List ActuatorReply)
      (o : Outcome Model (Bool × Bool))
      → Always Q o
      → Always Q (after_loss value terminal survivors o)
  after_loss_keeps value terminal survivors (m, none) h = h
  after_loss_keeps value terminal survivors (m, some (raw, true)) h =
      count_receipt_keeps value terminal true m h
  after_loss_keeps value terminal survivors (m, some (raw, false)) h =
      survive_keeps value terminal survivors _ (count_receipt_keeps value terminal false m h)

  receive_one_keeps :
      (packet : Option ActuatorReply) (survivors : List ActuatorReply) (m : Model)
      → Q m
      → Always Q (receive_one spec k packet survivors m)
  unfolding receive_one
  receive_one_keeps none survivors m h =
      let t = m.term in
      keeps m _ m.reason m.vehicle_seen t.down_received_raw t.down_intentionally_lost
        t.down_survived h
  receive_one_keeps (some value) survivors m h =
      after_loss_keeps value (is_terminal value) survivors _ (loss_keeps (is_terminal value) m h)

  receive_all_keeps :
      (packets : List (Option ActuatorReply)) (survivors : List ActuatorReply) (m : Model)
      → Q m
      → Always Q (receive_all spec k packets survivors m)
  unfolding receive_all
  receive_all_keeps [] survivors m h = h
  receive_all_keeps (packet ∷ packets) survivors m h =
      and_then-Always Q (receive_one spec k packet survivors m) _
        (receive_one_keeps packet survivors m h) (λ kept m'. receive_all_keeps packets kept m')

  select_keeps : (survivors : List ActuatorReply) (m : Model) → Q m → Always Q (select survivors m)
  unfolding select
  select_keeps survivors m h =
      let t = m.term in
      let m' = (select survivors m).0 in
      Always-state Q (select survivors m) (
        rw (select-receipt survivors m) (
          keeps m m'.down_counts m'.reason m.vehicle_seen t.down_received_raw
            t.down_intentionally_lost t.down_survived h))

  pub receive_keeps :
      (crc32c : List ℕ → ℕ) (packets : List (List ℕ)) (m : Model)
      → Q m
      → Always Q (receive crc32c spec packets k m)
  unfolding receive
  receive_keeps crc32c packets m h =
      and_then-Always Q (receive_all spec k (decoded crc32c packets) [] m) _
        (receive_all_keeps (decoded crc32c packets) [] m h) select_keeps
