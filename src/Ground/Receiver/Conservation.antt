-- ===== src/Ground/Receiver/Conservation.antt =====
-- Every datagram has one disposition (ground/link.py, Receiver.accept).
use tvc.Prelude.{ℕ, ◌+◌, ◌≡◌, refl, inl, inr, Option, List, [], ◌∷◌, arith, Bool-cases}
use tvc.Prelude.Result.{Result, ok, err}
use tvc.Wire.Errors.{Error}
use tvc.Ground.Receiver.{
  Endpoint, Counters, Receiver, opened, write, settle, dispose, accept, accept_all, control_frame,
  count_received, adopt,
}

-- The datagrams with a disposition.
abbrev pub disposed : Counters → ℕ
disposed c =
    c.foreign + c.malformed + c.duplicate + c.out_of_order + c.conflict + c.recorded
    + c.write_failed_datagrams

write-disposed :
    (w : Option ℕ) (tick : ℕ) (raw : List ℕ) (r : Receiver)
    → (disposed (write w tick raw r).0.counters ≡ disposed r.counters + 1)
      × ((write w tick raw r).0.counters.received ≡ r.counters.received)
unfolding write
write-disposed w tick raw r = ground arith

settle-disposed :
    (last : Option (ℕ × List ℕ)) (w : Option ℕ) (tick : ℕ) (raw : List ℕ) (r : Receiver)
    → (disposed (settle last w tick raw r).0.counters ≡ disposed r.counters + 1)
      × ((settle last w tick raw r).0.counters.received ≡ r.counters.received)
unfolding settle
settle-disposed last w tick raw r = ground (arith, write-disposed w tick raw r)

dispose-disposed :
    (f : Result Error (ℕ × ℕ × List ℕ)) (source : Endpoint) (w : Option ℕ) (r : Receiver)
    → (disposed (dispose f source w r).0.counters ≡ disposed r.counters + 1)
      × ((dispose f source w r).0.counters.received ≡ r.counters.received)
unfolding dispose
dispose-disposed (err e) source w r = ground arith
dispose-disposed (ok (seq, tick, raw)) source w r =
    settle-disposed r.last w tick raw (record r { source = adopt source r.source })

module _ (crc32c : List ℕ → ℕ) where
  pub accept-disposed :
      (bytes : List ℕ) (source : Endpoint) (w : Option ℕ) (r : Receiver)
      → (disposed (accept crc32c bytes source w r).0.counters ≡ disposed r.counters + 1)
        × ((accept crc32c bytes source w r).0.counters.received ≡ r.counters.received + 1)
  unfolding accept
  accept-disposed bytes source w r =
      ground (arith, dispose-disposed (control_frame crc32c bytes) source w (count_received r))

  accept_all-disposed :
      (ds : List (List ℕ × Endpoint × Option ℕ)) (r : Receiver)
      → r.counters.received ≡ disposed r.counters
      → (accept_all crc32c ds r).0.counters.received ≡ disposed (accept_all crc32c ds r).0.counters
  unfolding accept_all
  accept_all-disposed [] r h = h
  accept_all-disposed ((bytes, source, w) ∷ rest) r h =
      elim (Bool-cases (accept crc32c bytes source w r).1) [
        | inl raised ↦ rw raised (omega (arith, accept-disposed bytes source w r))
        | inr done ↦ rw done (
            accept_all-disposed rest (accept crc32c bytes source w r).0
              (omega (arith, accept-disposed bytes source w r)))
      ]

  -- Whatever datagrams arrive, from whatever sources, and whether or not a write fails, the number of
  -- datagrams received is the sum of the seven dispositions.
  pub accept_all_conserves :
      (ds : List (List ℕ × Endpoint × Option ℕ))
      → (accept_all crc32c ds opened).0.counters.received
        ≡ disposed (accept_all crc32c ds opened).0.counters
  accept_all_conserves ds = accept_all-disposed ds opened (unfold opened in refl)
