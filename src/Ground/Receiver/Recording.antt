-- ===== src/Ground/Receiver/Recording.antt =====
-- What the receiver records (ground/link.py, Receiver.accept).
use tvc.Prelude.{
  ℕ, ◌<◌, ◌≡◌, refl, inl, inr, Option, none, some, List, [], ◌∷◌, arith, Bool-cases, length, ltb,
  ◌==◌,
}
use tvc.Prelude.Result.{Result, ok, err, >>=-eq-ok}
use tvc.Wire.Errors.{Error}
use tvc.Wire.Frame.{decode_datagram}
use tvc.Wire.Payload.{decode_payload}
use tvc.Ground.Receiver.{
  is_foreign, same_bytes, Endpoint, Receiver, opened, write, settle, dispose, accept, accept_all,
  control_frame, count_received, adopt, control_tick,
}

abbrev pub Before : Option (ℕ × List ℕ) → ℕ → Type 0
Before none tick = Unit {0}
Before (some (last_tick, raw)) tick = last_tick < tick

-- `IsRecording crc32c last frames`: the frames, newest first, are valid control frames of strictly
-- increasing ticks, and `last` is the tick and the bytes of the newest.
pub data IsRecording (crc32c : List ℕ → ℕ) : Option (ℕ × List ℕ) → List (List ℕ) → Type 0 where
  empty :
      {last : Option (ℕ × List ℕ)} {frames : List (List ℕ)}
      → last ≡ none
      → frames ≡ []
      → IsRecording crc32c last frames
  longer :
      {last last' : Option (ℕ × List ℕ)} {frames frames' : List (List ℕ)} (seq tick : ℕ)
      (raw : List ℕ)
      → IsRecording crc32c last frames
      → Before last tick
      → control_frame crc32c raw ≡ ok (seq, tick, raw)
      → last' ≡ some (tick, raw)
      → frames' ≡ raw ∷ frames
      → IsRecording crc32c last' frames'

abbrev pub IsKept : (List ℕ → ℕ) → Receiver → Type 0
IsKept crc32c r = IsRecording crc32c r.last r.recording × (length r.recording ≡ r.counters.recorded)

module _ (crc32c : List ℕ → ℕ) where
  write-IsKept :
      (w : Option ℕ) (seq tick : ℕ) (raw : List ℕ) (r : Receiver)
      → IsKept crc32c r
      → Before r.last tick
      → control_frame crc32c raw ≡ ok (seq, tick, raw)
      → IsKept crc32c (write w tick raw r).0
  unfolding write
  write-IsKept none seq tick raw r h b e = h
  write-IsKept (some n) seq tick raw r h b e = elim (Bool-cases (n == length raw)) [
    | inl whole ↦ rw whole (longer seq tick raw h.0 b e refl refl, omega (arith, h.1))
    | inr short ↦ rw short h
  ]

  settle-IsKept :
      (last : Option (ℕ × List ℕ)) (w : Option ℕ) (seq tick : ℕ) (raw : List ℕ) (r : Receiver)
      → r.last ≡ last
      → IsKept crc32c r
      → control_frame crc32c raw ≡ ok (seq, tick, raw)
      → IsKept crc32c (settle last w tick raw r).0
  unfolding settle
  settle-IsKept none w seq tick raw r el h e = write-IsKept w seq tick raw r h (rw el tt) e
  settle-IsKept (some (last_tick, last)) w seq tick raw r el h e =
      elim (Bool-cases (ltb tick last_tick)) [
        | inl older ↦ rw older h
        | inr not_older ↦ elim (Bool-cases (tick == last_tick)) [
          | inl again ↦ elim (Bool-cases (same_bytes raw last)) [
            | inl copy ↦ rw (not_older, again, copy) h
            | inr other ↦ rw (not_older, again, other) h
          ]
          | inr newer ↦
              rw (not_older, newer) (write-IsKept w seq tick raw r h (rw el (ground arith)) e)
        ]
      ]

  control_frame-raw :
      (bytes : List ℕ) (seq tick : ℕ) (raw : List ℕ)
      → control_frame crc32c bytes ≡ ok (seq, tick, raw)
      → raw ≡ bytes
  unfolding control_frame
  control_frame-raw bytes seq tick raw h =
      let ((ftype, s, payload), e1, h1) = >>=-eq-ok (decode_datagram crc32c bytes (6 ∷ [])) _ h in
      let (fields, e2, h2) = >>=-eq-ok (decode_payload 6 payload) _ h1 in
      let (t, e3, h3) = >>=-eq-ok (control_tick fields) _ h2 in cc

  dispose-IsKept :
      (f : Result Error (ℕ × ℕ × List ℕ)) (bytes : List ℕ) (source : Endpoint) (w : Option ℕ)
      (r : Receiver)
      → control_frame crc32c bytes ≡ f
      → IsKept crc32c r
      → IsKept crc32c (dispose f source w r).0
  unfolding dispose
  dispose-IsKept (err e) bytes source w r ef h = h
  dispose-IsKept (ok (seq, tick, raw)) bytes source w r ef h =
      settle-IsKept r.last w seq tick raw (record r { source = adopt source r.source }) refl h
        (let same = control_frame-raw bytes seq tick raw ef in cc)

  pub accept-IsKept :
      (bytes : List ℕ) (source : Endpoint) (w : Option ℕ) (r : Receiver)
      → IsKept crc32c r
      → IsKept crc32c (accept crc32c bytes source w r).0
  unfolding accept
  accept-IsKept bytes source w r h = elim (Bool-cases (is_foreign r.source source)) [
    | inl foreign ↦ rw foreign h
    | inr known ↦
        rw known
          (dispose-IsKept (control_frame crc32c bytes) bytes source w (count_received r) refl h)
  ]

  accept_all-IsKept_from :
      (ds : List (List ℕ × Endpoint × Option ℕ)) (r : Receiver)
      → IsKept crc32c r
      → IsKept crc32c (accept_all crc32c ds r).0
  unfolding accept_all
  accept_all-IsKept_from [] r h = h
  accept_all-IsKept_from ((bytes, source, w) ∷ rest) r h =
      elim (Bool-cases (accept crc32c bytes source w r).1) [
        | inl raised ↦ rw raised (accept-IsKept bytes source w r h)
        | inr done ↦ rw done (
            accept_all-IsKept_from rest (accept crc32c bytes source w r).0
              (accept-IsKept bytes source w r h))
      ]

  -- Whatever datagrams arrive, in whatever order and from whatever sources, the recording holds valid
  -- control frames of strictly increasing ticks, as many as the `recorded` counter says, and the
  -- receiver remembers the newest.
  pub accept_all-IsKept :
      (ds : List (List ℕ × Endpoint × Option ℕ)) → IsKept crc32c (accept_all crc32c ds opened).0
  accept_all-IsKept ds = accept_all-IsKept_from ds opened (unfold opened in (empty refl refl, refl))
