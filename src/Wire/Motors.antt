-- ===== src/Wire/Motors.antt =====
-- `decode` reads back the records of the motors.
use vlai_l1_runtime.Prelude.{
  ℕ, ◌+◌, ◌*◌, ◌≡◌, refl, sym, ap, ap₂, ◌∙◌, String, List, [], ◌∷◌, ◌++◌, arith, length, drop,
  drop-append, length-append, map,
}
use vlai_l1_runtime.Prelude.Result.{ok, ◌>>=◌}
use vlai_l1_runtime.Prelude.Bytes.{little, to_little, little-to_little, split, join, split-join}
use vlai_l1_runtime.Wire.Packet.{motor_sizes, motor_of, read_motor, read_motors}
use vlai_l1_runtime.Wire.Layout.{
  bit, WireMotor, motor_fields, encode_motors, motor_record, motor_records, Fits, AllFit,
}

motor_sizes_lem : (w : WireMotor) → length w.payload ≡ 8 → map length (motor_fields w) ≡ motor_sizes
motor_sizes_lem w h = rw h

split-motor :
    (w : WireMotor) (rest : List ℕ)
    → length w.payload ≡ 8
    → split motor_sizes (join (motor_fields w) ++ rest) ≡ motor_fields w
split-motor w rest h =
    ap (λ sizes. split sizes (join (motor_fields w) ++ rest)) (sym (motor_sizes_lem w h))
    ∙ split-join (motor_fields w) rest

abbrev flags_of : WireMotor → ℕ
flags_of w = bit w.can_fd 1 + bit w.at_endpoint 2

motor_of-fields :
    (name : String) (w : WireMotor)
    → Fits name w
    → motor_of name w.response_id (flags_of w) 0 w.received w.payload w.position w.velocity w.torque
      ≡ ok (motor_record name w)
unfolding motor_of motor_record
motor_of-fields name w f = ground (arith, f.frame)

motor_of-cong :
    (name : String) (raw : List ℕ) (a a' f f' r r' t t' q q' v v' u u' : ℕ)
    → a ≡ a'
    → f ≡ f'
    → r ≡ r'
    → t ≡ t'
    → q ≡ q'
    → v ≡ v'
    → u ≡ u'
    → motor_of name a f r t raw q v u ≡ motor_of name a' f' r' t' raw q' v' u'
motor_of-cong name raw a a' f f' r r' t t' q q' v v' u u' ea ef er et eq ev eu = cc

read_motor-fields :
    (name : String) (w : WireMotor)
    → Fits name w
    → read_motor name (motor_fields w) ≡ ok (motor_record name w)
unfolding read_motor
read_motor-fields name w f =
    motor_of-cong name w.payload _ _ (little ((bit w.can_fd 1 + bit w.at_endpoint 2) ∷ []))
      (flags_of w) (little (0 ∷ [])) 0 _ _ _ _ _ _ _ _
      (little-to_little 2 w.response_id f.response_id) (omega arith) (omega arith)
      (little-to_little 8 w.received f.received) (little-to_little 4 w.position f.position)
      (little-to_little 4 w.velocity f.velocity) (little-to_little 4 w.torque f.torque)
    ∙ motor_of-fields name w f

length-motor : (w : WireMotor) → length w.payload ≡ 8 → length (join (motor_fields w)) ≡ 32
length-motor w h = omega (
  arith,
  length-append w.payload
      (join (to_little 4 w.position ∷ to_little 4 w.velocity ∷ to_little 4 w.torque ∷ [])),
)

drop-motor :
    (w : WireMotor) (rest : List ℕ)
    → length w.payload ≡ 8
    → drop 32 (join (motor_fields w) ++ rest) ≡ rest
drop-motor w rest h =
    ap (λ (n : ℕ). drop n (join (motor_fields w) ++ rest)) (sym (length-motor w h))
    ∙ drop-append (join (motor_fields w)) rest

pub read_motors-encode :
    (names : List String) (ws : List WireMotor)
    → AllFit names ws
    → read_motors names (encode_motors ws) ≡ ok (motor_records names ws)
unfolding read_motors encode_motors motor_records
read_motors-encode [] [] f = refl
read_motors-encode [] (w ∷ ws) f = absurd f
read_motors-encode (name ∷ names) [] f = absurd f
read_motors-encode (name ∷ names) (w ∷ ws) f =
    let here : read_motor name (split motor_sizes (join (motor_fields w) ++ encode_motors ws))
        ≡ ok (motor_record name w) =
      ap (read_motor name) (split-motor w (encode_motors ws) f.0.payload)
      ∙ read_motor-fields name w f.0 in
    let there : read_motors names (drop 32 (join (motor_fields w) ++ encode_motors ws))
        ≡ ok (motor_records names ws) =
      ap (read_motors names) (drop-motor w (encode_motors ws) f.0.payload)
      ∙ read_motors-encode names ws f.1 in
    ap₂ (λ x y. x >>= λ motor. y >>= λ motors. ok (motor ∷ motors)) here there

pub length-encode_motors :
    (names : List String) (ws : List WireMotor)
    → AllFit names ws
    → length (encode_motors ws) ≡ 32 * length names
unfolding encode_motors
length-encode_motors [] [] f = refl
length-encode_motors [] (w ∷ ws) f = absurd f
length-encode_motors (name ∷ names) [] f = absurd f
length-encode_motors (name ∷ names) (w ∷ ws) f = omega (
  arith,
  length-append (join (motor_fields w)) (encode_motors ws),
  length-motor w f.0.payload,
  length-encode_motors names ws f.1,
)
