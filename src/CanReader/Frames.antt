-- ===== src/CanReader/Frames.antt =====
-- Which frames reach the queue, and that nothing of the uninitialised stack reaches a signal.
use sdv_edge_gateway.Common.{
  ℕ, zero, suc, ◌+◌, ◌*◌, ◌/◌, ◌%◌, ◌^◌, ◌≤◌, ◌<◌, ◌≡◌, refl, sym, ap, ◌∙◌, inl, inr, String, List,
  [], ◌∷◌, ◌++◌, append-nil, append_assoc, arith, take, drop, get_or, length, leb, ltb,
  if◌then◌else◌, Bool-cases,
}
use sdv_edge_gateway.Common.Double.{DoubleOps}
use sdv_edge_gateway.Common.Int.{ℤ}
use sdv_edge_gateway.Types.{CanFrame}
use sdv_edge_gateway.SafeQueue.{SafeQueue, push}
use sdv_edge_gateway.CanWriter.{RawFrame, raw_frame_size}
use sdv_edge_gateway.SignalDecoder.{
  SignalDef, extract, sign_extend, to_int64, raw_value, physical, decode,
}
use sdv_edge_gateway.CanReader.{failure, bytes, translate, Round, step, run}

-- The frame of a round that reads a whole one.
abbrev pub received : Round → List CanFrame
received r = elim r.read [
  | failure timed_out ↦ []
  | bytes n raw ↦ if ltb n raw_frame_size then [] else translate r.stack r.now raw ∷ []
]

abbrev pub frames : List Round → List CanFrame
frames [] = []
frames (r ∷ rs) = received r ++ frames rs

pub step-received : (q : SafeQueue CanFrame) (r : Round) → (step q r).queue ≡ q.queue ++ received r
unfolding step push
step-received q r = ground (arith, append-nil q.queue)

-- The loop queues exactly the frames that were read whole, in the order of the reads; timeouts,
-- errors and short reads queue nothing and end nothing.
run-frames : (q : SafeQueue CanFrame) (rs : List Round) → (run q rs).queue ≡ q.queue ++ frames rs
unfolding run
run-frames q [] = sym (append-nil q.queue)
run-frames q (r ∷ rs) =
    run-frames (step q r) rs
    ∙ ap (λ l. l ++ frames rs) (step-received q r)
    ∙ append_assoc q.queue (received r) (frames rs)

get_or-take :
    (d i : ℕ) (xs ys : List ℕ)
    → i < d
    → d ≤ length xs
    → get_or (take d xs ++ ys) i 0 ≡ get_or xs i 0
get_or-take zero i xs ys h k = absurd (omega arith)
get_or-take (suc d) i [] ys h k = absurd (omega arith)
get_or-take (suc d) zero (x ∷ xs) ys h k = refl
get_or-take (suc d) (suc i) (x ∷ xs) ys h k = get_or-take d i xs ys (omega arith) (omega arith)

-- The bit loop reads only the first `dlc` bytes.
extract-stack :
    (now : ℕ) (raw : RawFrame) (stack stack' : List ℕ) (start rounds i value : ℕ)
    → raw.can_dlc ≤ length raw.bytes
    → extract (translate stack now raw) start rounds i value
      ≡ extract (translate stack' now raw) start rounds i value
unfolding extract translate
extract-stack now raw stack stack' start zero i value h = refl
extract-stack now raw stack stack' start (suc rounds) i value h =
    let idx = (start + i) % 256 / 8 in
    elim (Bool-cases (leb raw.can_dlc idx)) [
      | inl past ↦ rw past refl
      | inr inside ↦
          let lt : idx < raw.can_dlc = ground (arith, inside) in
          let here = get_or-take raw.can_dlc idx raw.bytes (drop raw.can_dlc stack) lt h in
          let there = get_or-take raw.can_dlc idx raw.bytes (drop raw.can_dlc stack') lt h in
          rw (inside, here, there) (extract-stack now raw stack stack' start rounds (i + 1) _ h)
    ]

module _ {W : Type 0} (double : DoubleOps W) where
  physical-stack :
      (def : SignalDef W) (now : ℕ) (raw : RawFrame) (stack stack' : List ℕ)
      → raw.can_dlc ≤ length raw.bytes
      → physical double def (translate stack now raw)
        ≡ physical double def (translate stack' now raw)
  unfolding raw_value physical
  physical-stack def now raw stack stack' h =
      ap
        (λ (v : ℕ).
          let value : ℤ = if def.is_signed then sign_extend def.length v else to_int64 v in
          double.add (double.mul (double.of_int value) def.scale) def.offset)
        (extract-stack now raw stack stack' def.start_bit def.length 0 0 h)

  -- What the stack held before the frame was read reaches no signal, if the kernel gave as many
  -- bytes as the frame says: the memcpy fills every byte that decoding reads.
  pub decode-stack :
      (clock : String → ℕ) (signals : List (String × SignalDef W)) (now : ℕ) (raw : RawFrame)
      (stack stack' : List ℕ)
      → raw.can_dlc ≤ length raw.bytes
      → decode double clock signals (translate stack now raw)
        ≡ decode double clock signals (translate stack' now raw)
  unfolding decode translate
  decode-stack clock [] now raw stack stack' h = refl
  decode-stack clock ((name, def) ∷ signals) now raw stack stack' h = ground (
    arith,
    physical-stack def now raw stack stack' h,
    decode-stack clock signals now raw stack stack' h,
  )

-- The bits above the low 29 of a raw identifier, where the flags of extended, remote and error
-- frames are, make no difference to the frame that the reader hands on.
pub translate-flags :
    (stack : List ℕ) (now flags : ℕ) (raw : RawFrame)
    → translate stack now (record raw { can_id = raw.can_id + flags * 2 ^ 29 })
      ≡ translate stack now raw
unfolding translate
translate-flags stack now flags raw = ground arith
