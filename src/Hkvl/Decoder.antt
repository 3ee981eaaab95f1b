-- ===== src/Hkvl/Decoder.antt =====
-- `crc16_modbus` and `FrameDecoder`.
use Prim.Native.Nat.{bit_xor}
use vlai_l1_runtime.Prelude.{
  ℕ, zero, suc, ◌+◌, ◌-◌, ◌/◌, ◌%◌, not, ◌&&◌, Option, none, some, List, [], ◌∷◌, ◌++◌, length,
  take, drop, all, ltb, ◌==◌, if◌then◌else◌,
}
use vlai_l1_runtime.Prelude.Bytes.{little, floats32, is_finite32}

-- crc = (crc >> 1) ^ (0xA001 if crc & 1 else 0)
unfoldable pub crc_bit : ℕ → ℕ
crc_bit crc = bit_xor (crc / 2) (if crc % 2 == 1 then 0xa001 else 0)

unfoldable pub crc_bits : ℕ → ℕ → ℕ
unfolding crc_bit
crc_bits zero crc = crc
crc_bits (suc n) crc = crc_bits n (crc_bit crc)

unfoldable pub crc_bytes : ℕ → List ℕ → ℕ
unfolding crc_bits
crc_bytes crc [] = crc
crc_bytes crc (value ∷ rest) = crc_bytes (crc_bits 8 (bit_xor crc value)) rest

unfoldable pub crc16_modbus : List ℕ → ℕ
unfolding crc_bytes
crc16_modbus bytes = crc_bytes 0xffff bytes

abbrev pub frame_size : ℕ
frame_size = 28

pub record Sample : Type 0 where
  pub values : List ℕ  -- six float32
  pub frame : List ℕ

pub record FrameDecoder : Type 0 where
  pub buffer : List ℕ
  pub crc_failures : ℕ
  pub nonfinite_frames : ℕ
  pub discarded_bytes : ℕ

abbrev pub initial : FrameDecoder
initial = record { buffer = []; crc_failures = 0; nonfinite_frames = 0; discarded_bytes = 0 }

-- `self._buffer.find(HEADER)`
unfoldable pub find : List ℕ → Option ℕ
find [] = none
find (x ∷ []) = none
find (x ∷ y ∷ rest) =
    let later = find (y ∷ rest) in
    if x == 0x53 && y == 0x54 then some 0 else elim later [ none ↦ none | some i ↦ some (suc i) ]

-- `1 if self._buffer[-1] == HEADER[0] else 0`
unfoldable pub kept : List ℕ → ℕ
kept [] = 0
kept (x ∷ []) = if x == 0x53 then 1 else 0
kept (x ∷ y ∷ rest) = kept (y ∷ rest)

-- What one round of the loop does: `break`, `continue`, or a sample and the next round.
pub data Round : Type 0 where
  stop : FrameDecoder → Round
  again : FrameDecoder → Round
  emit : Sample → FrameDecoder → Round

-- `self.discarded_bytes += n; del self._buffer[:n]`
unfoldable pub discard : ℕ → FrameDecoder → FrameDecoder
discard n d = record d { buffer = drop n d.buffer; discarded_bytes = d.discarded_bytes + n }

-- The checksum and the values of a frame at the start of the buffer.
unfoldable pub check_frame : List ℕ → FrameDecoder → Round
unfolding discard
check_frame frame d =
    if not (crc16_modbus (take 26 frame) == little (drop 26 frame))
    then again (record (discard 1 d) { crc_failures = d.crc_failures + 1 })
    else if not (all is_finite32 (floats32 6 (drop 2 frame)))
    then again
        (record d { buffer = drop frame_size d.buffer; nonfinite_frames = d.nonfinite_frames + 1 })
    else emit (record { values = floats32 6 (drop 2 frame); frame = frame })
        (record d { buffer = drop frame_size d.buffer })

abbrev pub at_header : FrameDecoder → Round
at_header d =
    if ltb (length d.buffer) frame_size then stop d else check_frame (take frame_size d.buffer) d

-- The two cases of `start < 0`
unfoldable pub resync : Option ℕ → FrameDecoder → Round
resync none d = stop (discard (length d.buffer - kept d.buffer) d)
resync (some start) d = at_header (if start == 0 then d else discard start d)

-- The body of `while self._buffer`
unfoldable pub round : FrameDecoder → Round
unfolding resync
round d = resync (find d.buffer) d

-- The loop, on fuel; `none` means that the fuel ran out.
unfoldable pub loop : ℕ → FrameDecoder → Option (FrameDecoder × List Sample)
loop zero d = none
loop (suc fuel) d = elim d.buffer [
  | [] ↦ some (d, [])
  | b ∷ bs ↦ elim (round d) [
    | stop d' ↦ some (d', [])
    | again d' ↦ loop fuel d'
    | emit sample d' ↦ elim (loop fuel d') [
      | none ↦ none
      | some (d'', samples) ↦ some (d'', sample ∷ samples)
    ]
  ]
]

abbrev pub extend : List ℕ → FrameDecoder → FrameDecoder
extend chunk d = record d { buffer = d.buffer ++ chunk }

unfoldable pub feed : List ℕ → FrameDecoder → Option (FrameDecoder × List Sample)
feed chunk d = loop (suc (length (d.buffer ++ chunk))) (extend chunk d)
