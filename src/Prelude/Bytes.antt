-- ===== src/Prelude/Bytes.antt =====
-- Little-endian fields of a byte string, as `struct` and `int.from_bytes` read them, and the
-- floats of four bytes.
use Prim.Native.Nat.{ℕ, zero, suc, ◌+◌, ◌-◌, ◌*◌, ◌/◌, ◌%◌, ◌^◌, ◌<◌}
use mathlib.Core.Path.{◌≡◌, refl, ap, ap₂, ◌∙◌}
use mathlib.Core.Bool.{Bool, not}
use mathlib.Core.List.{List, [], ◌∷◌, ◌++◌, map, append_assoc}
use native.Mathlib.Omega.{arith}
use native.Mathlib.Nat.{pow-suc}
use vlai_l1_runtime.Prelude.Tests.{◌==◌, ltb, if◌then◌else◌}
use vlai_l1_runtime.Prelude.Lists.{length, take, drop, take-append, drop-append}

-- `int.from_bytes(bytes, "little")`
abbrev pub little : List ℕ → ℕ
little [] = 0
little (b ∷ bs) = b + 256 * little bs

-- `size` bytes from `offset` on
abbrev pub slice : ℕ → ℕ → List ℕ → List ℕ
slice offset size bytes = take size (drop offset bytes)

-- Consecutive float32 fields. A float32 stands for itself as its 32 bits.
abbrev pub floats32 : ℕ → List ℕ → List ℕ
floats32 zero bytes = []
floats32 (suc n) bytes = little (take 4 bytes) ∷ floats32 n (drop 4 bytes)

-- `math.isfinite` of a float32: not all bits of the exponent are set.
abbrev pub is_finite32 : ℕ → Bool
is_finite32 bits = not (bits / 2 ^ 23 % 256 == 255)

-- The fields of a packed structure, by their sizes.
abbrev pub split : List ℕ → List ℕ → List (List ℕ)
split [] bytes = []
split (n ∷ ns) bytes = take n bytes ∷ split ns (drop n bytes)

-- `bytes.hex()` and `bytes.fromhex`, over character codes
abbrev pub hex_digit : ℕ → ℕ
hex_digit n = if ltb n 10 then 48 + n else 87 + n

abbrev pub hex : List ℕ → List ℕ
hex [] = []
hex (b ∷ bs) = hex_digit (b / 16) ∷ hex_digit (b % 16) ∷ hex bs

abbrev pub digit_value : ℕ → ℕ
digit_value c = if ltb c 58 then c - 48 else c - 87

abbrev pub fromhex : List ℕ → List ℕ
fromhex (a ∷ b ∷ rest) = (16 * digit_value a + digit_value b) ∷ fromhex rest
fromhex _ = []

-- `struct.pack` of an unsigned field of `k` bytes
abbrev pub to_little : ℕ → ℕ → List ℕ
to_little zero n = []
to_little (suc k) n = n % 256 ∷ to_little k (n / 256)

pub little-to_little : (k n : ℕ) → n < 256 ^ k → little (to_little k n) ≡ n
little-to_little zero n h = omega arith
little-to_little (suc k) n h =
    let bound : n / 256 < 256 ^ k = omega (arith, pow-suc 256 k) in
    omega (arith, little-to_little k (n / 256) bound)

abbrev pub join : List (List ℕ) → List ℕ
join [] = []
join (part ∷ parts) = part ++ join parts

-- Packing fields and splitting by their sizes gives the fields back, whatever follows them.
pub split-join :
    (parts : List (List ℕ)) (rest : List ℕ) → split (map length parts) (join parts ++ rest) ≡ parts
split-join [] rest = refl
split-join (part ∷ parts) rest =
    ap₂ (λ p ps. p ∷ ps)
      (ap (take (length part)) (append_assoc part (join parts) rest)
        ∙ take-append part (join parts ++ rest))
      (ap (split (map length parts)) (
          ap (drop (length part)) (append_assoc part (join parts) rest)
          ∙ drop-append part (join parts ++ rest))
        ∙ split-join parts rest)
