-- ===== src/XAir/Packet.antt =====
-- `XAirStatePacket`: its checks and its decoder.
use vlai_l1_runtime.Prelude.{
  ℕ, zero, suc, ◌/◌, ◌%◌, ◌^◌, String, Bool, true, false, not, ◌&&◌, List, [], ◌∷◌, length, take,
  drop, all, str_eq, ◌==◌, if◌then◌else◌,
}
use vlai_l1_runtime.Prelude.Result.{Result, ok, err, ◌>>=◌, ◌>>◌, guard}
use vlai_l1_runtime.Prelude.Bytes.{little, split}
use vlai_l1_runtime.Contracts.{Raised}

-- Every ValueError of a packet or an assembler.
pub data XAirError : Type 0 where
  unknown_side bad_length not_finite : XAirError
  bad_size bad_magic bad_version bad_reserved bad_side_code : XAirError
  not_increasing skew_exceeded : XAirError
  bad_vector : Raised → XAirError

pub data Side : Type 0 where
  left right : Side

abbrev pub side_eq : Side → Side → Bool
side_eq left left = true
side_eq right right = true
side_eq _ _ = false

abbrev pub side_name : Side → String
side_name left = "left"
side_name right = "right"

-- A position in radians is a double, as its 64 bits.
pub record XAirStatePacket : Type 0 where
  pub side : Side
  pub source_sequence : ℕ
  pub monotonic_ns : ℕ
  pub leader_radians : List ℕ
  pub follower_radians : List ℕ

-- `side not in SIDES`
abbrev side_of : String → Result XAirError Side
side_of s =
    if str_eq s "left" then ok left else if str_eq s "right" then ok right else err unknown_side

-- `math.isfinite` of a double
abbrev pub is_finite64 : ℕ → Bool
is_finite64 bits = not (bits / 2 ^ 52 % 2048 == 2047)

abbrev positions : List ℕ → Result XAirError (Unit {0})
positions vector = do
  guard (length vector == 8) bad_length
  guard (all is_finite64 vector) not_finite

-- `XAirStatePacket.__post_init__`
unfoldable pub make_state_packet :
    String → (sequence time : ℕ) → (leader follower : List ℕ) → Result XAirError XAirStatePacket
make_state_packet name sequence time leader follower = do
  side ← side_of name
  positions leader
  positions follower
  ok (record {
    side = side;
    source_sequence = sequence;
    monotonic_ns = time;
    leader_radians = leader;
    follower_radians = follower;
  })

abbrev floats64 : ℕ → List ℕ → List ℕ
floats64 zero bytes = []
floats64 (suc n) bytes = little (take 8 bytes) ∷ floats64 n (drop 8 bytes)

-- b"VL1S"
abbrev is_magic : List ℕ → Bool
is_magic (a ∷ b ∷ c ∷ d ∷ []) = a == b'V' && b == b'L' && c == b'1' && d == b'S'
is_magic _ = false

-- `_SIDE_BY_CODE[side_code]`
abbrev side_of_code : ℕ → Result XAirError String
side_of_code code =
    if code == 0 then ok "left" else if code == 1 then ok "right" else err bad_side_code

-- The fields of `_PACKET`, the 16 doubles as one.
unfoldable pub decode_fields : List (List ℕ) → Result XAirError XAirStatePacket
decode_fields (magic ∷ version ∷ code ∷ reserved ∷ sequence ∷ timestamp ∷ doubles ∷ []) = do
  guard (is_magic magic) bad_magic
  guard (little version == 1) bad_version
  guard (little reserved == 0) bad_reserved
  side ← side_of_code (little code)
  make_state_packet side (little sequence) (little timestamp) (floats64 8 doubles)
      (floats64 8 (drop 64 doubles))
decode_fields _ = err bad_size

-- `XAirStatePacket.decode`
unfoldable pub decode : List ℕ → Result XAirError XAirStatePacket
decode payload =
    if not (length payload == 152)
    then err bad_size
    else decode_fields (split (4 ∷ 2 ∷ 1 ∷ 1 ∷ 8 ∷ 8 ∷ 128 ∷ []) payload)
