-- ===== src/Wire/RoundTrip.antt =====
-- `decode` reads what the layout's encoder writes.
use vlai_l1_runtime.Prelude.{
  ℕ, ◌+◌, ◌≡◌, sym, ap, ap₂, ◌∙◌, true, List, [], ◌∷◌, ◌++◌, arith, length, drop, drop-append,
  length-append, map, ◌||◌, ◌==◌, ==_iff,
}
use vlai_l1_runtime.Prelude.Result.{◌>>=◌}
use vlai_l1_runtime.Prelude.Bytes.{little, to_little, little-to_little, split, join, split-join}
use vlai_l1_runtime.Contracts.{motor_names}
use vlai_l1_runtime.Wire.Packet.{
  header_sizes, decode_body, decode_fields, decode, side_name, assemble, checked_packet,
}
use vlai_l1_runtime.Wire.Layout.{
  bit, WireMotor, encode_motors, WireHeader, header_fields, encode, AllFit, HeaderFits,
}
use vlai_l1_runtime.Wire.Meaning.{packet_of, assemble-motor_records}
use vlai_l1_runtime.Wire.Motors.{read_motors-encode, length-encode_motors}

abbrev tail_fields : WireHeader → List (List ℕ)
tail_fields h = to_little 8 h.sequence ∷ to_little 8 h.assembled ∷ []

length-header : (h : WireHeader) → HeaderFits h → length (join (header_fields h)) ≡ 72
length-header h f = omega (
  arith,
  f.session,
  f.digest,
  length-append h.session (h.digest ++ join (tail_fields h)),
  length-append h.digest (join (tail_fields h)),
)

header_sizes_lem : (h : WireHeader) → HeaderFits h → map length (header_fields h) ≡ header_sizes
header_sizes_lem h f = rw (f.session, f.digest)

split-header :
    (h : WireHeader) (rest : List ℕ)
    → HeaderFits h
    → split header_sizes (join (header_fields h) ++ rest) ≡ header_fields h
split-header h rest f =
    ap (λ sizes. split sizes (join (header_fields h) ++ rest)) (sym (header_sizes_lem h f))
    ∙ split-join (header_fields h) rest

drop-header :
    (h : WireHeader) (rest : List ℕ)
    → HeaderFits h
    → drop 72 (join (header_fields h) ++ rest) ≡ rest
drop-header h rest f =
    ap (λ (n : ℕ). drop n (join (header_fields h) ++ rest)) (sym (length-header h f))
    ∙ drop-append (join (header_fields h)) rest

decode_body-encode :
    (h : WireHeader) (ws : List WireMotor)
    → AllFit motor_names ws
    → decode_body (bit h.is_right 1) h.session h.digest h.sequence h.assembled (encode_motors ws)
      ≡ checked_packet (packet_of h ws)
unfolding decode_body
decode_body-encode h ws fs =
    ap
      (λ x. x >>= λ motors.
        checked_packet (
          assemble (side_name (bit h.is_right 1)) h.session h.digest h.sequence h.assembled motors))
      (read_motors-encode motor_names ws fs)
    ∙ ap checked_packet (assemble-motor_records h ws fs)

decode_fields-encode :
    (h : WireHeader) (ws : List WireMotor)
    → HeaderFits h
    → AllFit motor_names ws
    → decode_fields (header_fields h) (encode_motors ws) ≡ checked_packet (packet_of h ws)
unfolding decode_fields
decode_fields-encode h ws f fs =
    let side : ((bit h.is_right 1 + 0) == 0 || (bit h.is_right 1 + 0) == 1) ≡ true = ground arith in
    let code : little (bit h.is_right 1 ∷ []) ≡ bit h.is_right 1 = omega arith in
    let sequence : little (to_little 8 h.sequence) ≡ h.sequence =
      little-to_little 8 h.sequence f.sequence in
    let assembled : little (to_little 8 h.assembled) ≡ h.assembled =
      little-to_little 8 h.assembled f.assembled in
    rw side (
      ap
        (λ (n : ℕ).
          decode_body n h.session h.digest (little (to_little 8 h.sequence))
            (little (to_little 8 h.assembled)) (encode_motors ws))
        code
      ∙ ap₂ (λ m n. decode_body (bit h.is_right 1) h.session h.digest m n (encode_motors ws))
          sequence assembled
      ∙ decode_body-encode h ws fs)

length-encode :
    (h : WireHeader) (ws : List WireMotor)
    → HeaderFits h
    → AllFit motor_names ws
    → length (encode h ws) ≡ 328
unfolding encode
length-encode h ws f fs = omega (
  arith,
  length-append (join (header_fields h)) (encode_motors ws),
  length-header h f,
  length-encode_motors motor_names ws fs,
)

-- A packet in the documented layout, whose numbers have the widths of their fields and whose frames
-- pass their constructor, is decoded to exactly the packet of those values, each in the field of its
-- meaning, or refused with what the checks of that packet raise.
pub decode-encode :
    (h : WireHeader) (ws : List WireMotor)
    → HeaderFits h
    → AllFit motor_names ws
    → decode (encode h ws) ≡ checked_packet (packet_of h ws)
unfolding decode encode
decode-encode h ws f fs =
    let size : (length (join (header_fields h) ++ encode_motors ws) == 328) ≡ true =
      (==_iff _ _).1 (length-encode h ws f fs) in
    rw size (
      ap₂ decode_fields (split-header h (encode_motors ws) f) (drop-header h (encode_motors ws) f)
      ∙ decode_fields-encode h ws f fs)
