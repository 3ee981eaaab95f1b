-- ===== src/Hkvl/Tests.antt =====
-- A frame whose last value is 1.0, read whole, in pieces, and after bytes that are no frame.
use vlai_l1_runtime.Prelude.{
  ℕ, ◌+◌, ◌*◌, ◌<◌, ◌≡◌, refl, some, List, [], ◌∷◌, ◌++◌, length, take, drop, All,
}
use vlai_l1_runtime.Hkvl.Decoder.{
  FrameDecoder, Sample, frame_size, initial, crc16_modbus, check_frame, find, discard, round, loop,
  feed,
}
use vlai_l1_runtime.Hkvl.Total.{feed_total}
use vlai_l1_runtime.Hkvl.Chunks.{feed-append}
use vlai_l1_runtime.Hkvl.Frames.{IsFrame, held_bytes, stream, feed-IsAccounted, feed-stream}

abbrev bytes : List ℕ
bytes =
    83 ∷ 84 ∷ 0 ∷ 0 ∷ 0 ∷ 0 ∷ 0 ∷ 0 ∷ 0 ∷ 0 ∷ 0 ∷ 0 ∷ 0 ∷ 0 ∷ 0 ∷ 0 ∷ 0 ∷ 0 ∷ 0 ∷ 0 ∷ 0 ∷ 0 ∷ 0 ∷ 0
    ∷ 128 ∷ 63 ∷ 222 ∷ 210 ∷ []

abbrev sample : Sample
sample = record { values = 0 ∷ 0 ∷ 0 ∷ 0 ∷ 0 ∷ 0x3f800000 ∷ []; frame = bytes }

sample-IsFrame : IsFrame sample
unfolding crc16_modbus
sample-IsFrame = record {
  header = (drop 2 bytes, refl);
  size = refl;
  checksum = refl;
  finite = refl;
  decoded = refl;
}

-- A stray byte, and the first half of the frame.
abbrev first_chunk : List ℕ
first_chunk = 7 ∷ take 14 bytes

abbrev waiting : FrameDecoder
waiting = record initial { buffer = take 14 bytes; discarded_bytes = 1 }

abbrev emptied : FrameDecoder
emptied = record initial { discarded_bytes = 1 }

first_chunk-fed : feed first_chunk initial ≡ some (waiting, [])
unfolding feed loop round find discard
first_chunk-fed = refl

second_chunk-fed : feed (drop 14 bytes) waiting ≡ some (emptied, sample ∷ [])
unfolding feed loop round find discard check_frame crc16_modbus
second_chunk-fed = refl

feed_total_example : (r : FrameDecoder × List Sample) × (feed first_chunk initial ≡ some r)
feed_total_example = feed_total first_chunk initial

feed-append_example : feed (first_chunk ++ drop 14 bytes) initial ≡ some (emptied, sample ∷ [])
feed-append_example =
    feed-append first_chunk (drop 14 bytes) initial (waiting, []) (emptied, sample ∷ [])
      first_chunk-fed second_chunk-fed

feed-IsAccounted_example :
    (held_bytes emptied + frame_size * 1 ≡ held_bytes waiting + length (drop 14 bytes))
    × (length emptied.buffer < frame_size)
    × All IsFrame (sample ∷ [])
feed-IsAccounted_example =
    feed-IsAccounted (drop 14 bytes) waiting (emptied, sample ∷ []) second_chunk-fed

feed-stream_example :
    feed (stream (sample ∷ sample ∷ [])) initial ≡ some (initial, sample ∷ sample ∷ [])
feed-stream_example =
    feed-stream (sample ∷ sample ∷ []) initial (sample-IsFrame, (sample-IsFrame, tt)) refl
