-- ===== src/Hkvl/Frames.antt =====
-- What the decoder emits, what it does with every byte, and what it emits for a stream of frames.
use vlai_l1_runtime.Prelude.{
  ℕ, zero, suc, ◌+◌, ◌*◌, ◌≤◌, ◌<◌, ◌≡◌, refl, sym, ◌∙◌, ap, true, false, ◌⊎◌, inl, inr, some, List,
  [], ◌∷◌, ◌++◌, arith, length, take, drop, take_all, All, all, length-append, length-drop,
  length-take, ltb, ◌==◌, Bool-cases, ==_iff,
}
use vlai_l1_runtime.Prelude.Bytes.{little, floats32, is_finite32}
use vlai_l1_runtime.Hkvl.Decoder.{
  FrameDecoder, Sample, Round, stop, again, emit, frame_size, crc16_modbus, discard, at_header,
  check_frame, round, loop, extend, feed,
}
use vlai_l1_runtime.Hkvl.Resync.{
  skipped, skipped-le, discard-zero, round-skipped, round_nil, drop-skipped, skipped-header,
}
use vlai_l1_runtime.Hkvl.Total.{after, after-emit, loop-round}
use vlai_l1_runtime.Hkvl.Chunks.{feed-append}

-- A frame as the sensor documents it: the header, six finite floats, their checksum.
pub record IsFrame (s : Sample) : Type 0 where
  pub header : (rest : List ℕ) × (s.frame ≡ 0x53 ∷ 0x54 ∷ rest)
  pub size : length s.frame ≡ frame_size
  pub checksum : crc16_modbus (take 26 s.frame) ≡ little (drop 26 s.frame)
  pub finite : all is_finite32 s.values ≡ true
  pub decoded : s.values ≡ floats32 6 (drop 2 s.frame)

-- The bytes that a decoder has in hand or has given up: in the buffer, discarded, or in frames with
-- a float that is not finite.
abbrev pub held_bytes : FrameDecoder → ℕ
held_bytes d = length d.buffer + d.discarded_bytes + frame_size * d.nonfinite_frames

-- What a round from a full buffer that begins with a header does.
abbrev pub Sound : FrameDecoder → Round → Type 0
Sound d (stop d') = (held_bytes d' ≡ held_bytes d) × (length d'.buffer < frame_size)
Sound d (again d') = held_bytes d' ≡ held_bytes d
Sound d (emit s d') = (held_bytes d' + frame_size ≡ held_bytes d) × IsFrame s

take-header :
    (xs rest : List ℕ) → xs ≡ 0x53 ∷ 0x54 ∷ rest → (r : List ℕ) × (take 28 xs ≡ 0x53 ∷ 0x54 ∷ r)
take-header xs rest h = (take 26 rest, ap (take 28) h)

check_frame-Sound :
    (d : FrameDecoder) (rest : List ℕ)
    → d.buffer ≡ 0x53 ∷ 0x54 ∷ rest
    → 28 ≤ length d.buffer
    → Sound d (check_frame (take 28 d.buffer) d)
unfolding check_frame
check_frame-Sound d rest header long =
    elim (Bool-cases
      (crc16_modbus (take 26 (take 28 d.buffer)) == little (drop 26 (take 28 d.buffer)))) [
        | inl good ↦ elim (Bool-cases (all is_finite32 (floats32 6 (drop 2 (take 28 d.buffer))))) [
          | inl finite ↦
              rw (good, finite)
                (
                  omega (arith, length-drop 28 d.buffer),
                  record {
                    header = take-header d.buffer rest header;
                    size = length-take 28 d.buffer long;
                    checksum = (==_iff _ _).0 good;
                    finite = finite;
                    decoded = refl;
                  },
                )
          | inr infinite ↦ rw (good, infinite) (omega (arith, length-drop 28 d.buffer))
        ]
        | inr bad ↦ rw bad (omega (arith, length-drop 1 d.buffer))
      ]

Sound-shift : (d e : FrameDecoder) (r : Round) → held_bytes e ≡ held_bytes d → Sound e r → Sound d r
Sound-shift d e (stop d') same h = (omega arith, h.1)
Sound-shift d e (again d') same h = omega arith
Sound-shift d e (emit s d') same h = (omega arith, h.1)

held_bytes-skip : (d : FrameDecoder) → held_bytes (discard (skipped d.buffer) d) ≡ held_bytes d
unfolding discard
held_bytes-skip d = omega (arith, length-drop (skipped d.buffer) d.buffer, skipped-le d.buffer)

at_header-Sound :
    (d : FrameDecoder)
    → (length d.buffer ≤ 1) ⊎ ((rest : List ℕ) × (d.buffer ≡ 0x53 ∷ 0x54 ∷ rest))
    → Sound d (at_header d)
at_header-Sound d start = elim (Bool-cases (ltb (length d.buffer) 28)) [
  | inl short ↦ rw short (refl, ground arith)
  | inr full ↦ elim start [
    | inl none_there ↦ absurd (ground (arith, full, none_there))
    | inr (rest, header) ↦ rw full (check_frame-Sound d rest header (ground arith))
  ]
]

round-Sound : (d : FrameDecoder) → Sound d (round d)
unfolding discard
round-Sound d =
    let e = discard (skipped d.buffer) d in
    rw round-skipped (
      Sound-shift d e (at_header e) (held_bytes-skip d) (at_header-Sound e (drop-skipped d.buffer)))

-- The account of a finished loop.
pub record IsAccounted (d : FrameDecoder) (r : FrameDecoder × List Sample) : Type 0 where
  pub every_byte : held_bytes r.0 + frame_size * length r.1 ≡ held_bytes d
  pub short_buffer : length r.0.buffer < frame_size
  pub frames : All IsFrame r.1

after-IsAccounted :
    (f : ℕ) (d : FrameDecoder) (x : Round) (r : FrameDecoder × List Sample)
    → ((d' : FrameDecoder) (r : FrameDecoder × List Sample) → loop f d' ≡ some r → IsAccounted d' r)
    → Sound d x
    → after f x ≡ some r
    → IsAccounted d r
after-IsAccounted f d (stop d') r ih sound h =
    let ended : r ≡ (d', []) = cc in
    rw ended (record { every_byte = omega arith; short_buffer = sound.1; frames = tt })
after-IsAccounted f d (again d') r ih sound h =
    let rest = ih d' r h in
    record { every_byte = omega arith; short_buffer = rest.short_buffer; frames = rest.frames }
after-IsAccounted f d (emit s d') r ih sound h =
    let (samples, e, cons) = after-emit f s d' r h in
    let rest = ih d' (r.0, samples) e in
    record {
      every_byte = rw cons (omega arith);
      short_buffer = rest.short_buffer;
      frames = rw cons (sound.1, rest.frames);
    }

loop-IsAccounted :
    (f : ℕ) (d : FrameDecoder) (r : FrameDecoder × List Sample)
    → loop f d ≡ some r
    → IsAccounted d r
unfolding loop
loop-IsAccounted zero d r h = absurd (ground arith)
loop-IsAccounted (suc f) d r h =
    after-IsAccounted f d (round d) r (λ d' r'. loop-IsAccounted f d' r') (round-Sound d)
      (sym (loop-round f d) ∙ h)

-- Every byte of a chunk ends in an emitted frame, in a frame that is dropped for a float that is
-- not finite, in `discarded_bytes`, or in a buffer of less than one frame; and every emitted frame
-- is one of the sensor: header, length, checksum, finite values, decoded from its bytes.
pub feed-IsAccounted :
    (chunk : List ℕ) (d : FrameDecoder) (r : FrameDecoder × List Sample)
    → feed chunk d ≡ some r
    → (held_bytes r.0 + frame_size * length r.1 ≡ held_bytes d + length chunk)
      × (length r.0.buffer < frame_size)
      × All IsFrame r.1
unfolding feed
feed-IsAccounted chunk d r h =
    let account = loop-IsAccounted (suc (length (d.buffer ++ chunk))) (extend chunk d) r h in
    (
      omega (arith, account.every_byte, length-append d.buffer chunk),
      account.short_buffer,
      account.frames,
    )

-- The bytes of a list of frames.
abbrev pub stream : List Sample → List ℕ
stream [] = []
stream (s ∷ samples) = s.frame ++ stream samples

drop_all : (n : ℕ) (xs : List ℕ) → length xs ≡ n → drop n xs ≡ []
drop_all zero [] h = refl
drop_all zero (x ∷ xs) h = absurd (omega arith)
drop_all (suc n) [] h = refl
drop_all (suc n) (x ∷ xs) h = drop_all n xs (omega arith)

skipped-frame : (s : Sample) → IsFrame s → skipped s.frame ≡ 0
skipped-frame s f = let (rest, header) = f.header in rw header (skipped-header rest)

take-frame : (s : Sample) → IsFrame s → take 28 s.frame ≡ s.frame
take-frame s f = ap (λ (n : ℕ). take n s.frame) (sym f.size) ∙ take_all s.frame

check_frame-IsFrame :
    (s : Sample) (d : FrameDecoder)
    → IsFrame s
    → d.buffer ≡ []
    → check_frame s.frame (record d { buffer = s.frame }) ≡ emit s d
unfolding check_frame
check_frame-IsFrame s d f empty =
    let good : (crc16_modbus (take 26 s.frame) == little (drop 26 s.frame)) ≡ true =
      (==_iff _ _).1 f.checksum in
    let finite : all is_finite32 (floats32 6 (drop 2 s.frame)) ≡ true =
      sym (ap (all is_finite32) f.decoded) ∙ f.finite in
    rw (good, finite) (ground (arith, f.decoded, drop_all 28 s.frame f.size))

round-frame :
    (s : Sample) (d : FrameDecoder)
    → IsFrame s
    → d.buffer ≡ []
    → round (record d { buffer = s.frame }) ≡ emit s d
round-frame s d f empty =
    let e : FrameDecoder = record d { buffer = s.frame } in
    let enough : ltb (length s.frame) 28 ≡ false = ground (arith, f.size) in
    let looked : at_header e ≡ check_frame (take 28 s.frame) e = rw enough refl in
    round-skipped e
    ∙ ap at_header (ap (λ n. discard n e) (skipped-frame s f) ∙ discard-zero e)
    ∙ looked
    ∙ ap (λ frame. check_frame frame e) (take-frame s f)
    ∙ check_frame-IsFrame s d f empty

loop_nil : (fuel : ℕ) (d : FrameDecoder) → d.buffer ≡ [] → loop (suc fuel) d ≡ some (d, [])
loop_nil fuel d empty = rw (loop-round, round_nil d empty)

feed-frame :
    (s : Sample) (d : FrameDecoder) → IsFrame s → d.buffer ≡ [] → feed s.frame d ≡ some (d, s ∷ [])
unfolding feed
feed-frame s d f empty =
    let size : length (d.buffer ++ s.frame) ≡ 28 = rw empty f.size in
    let begun : extend s.frame d ≡ record d { buffer = s.frame } = ground (arith, empty) in
    rw (size, begun, loop-round, round-frame s d f empty) (ground (arith, loop_nil 27 d empty))

-- A decoder with nothing in its buffer turns the bytes of a list of frames, in however many pieces
-- they were joined, into exactly those samples, and its buffer and counters are as before.
pub feed-stream :
    (samples : List Sample) (d : FrameDecoder)
    → All IsFrame samples
    → d.buffer ≡ []
    → feed (stream samples) d ≡ some (d, samples)
unfolding feed
feed-stream [] d fs empty =
    let begun : extend [] d ≡ d = ground (arith, empty) in
    rw begun (loop_nil (length (d.buffer ++ [])) d empty)
feed-stream (s ∷ samples) d fs empty =
    feed-append s.frame (stream samples) d (d, s ∷ []) (d, samples) (feed-frame s d fs.0 empty)
      (feed-stream samples d fs.1 empty)
