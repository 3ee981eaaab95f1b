-- ===== src/CameraIpc/Received.antt =====
-- What is received does not depend on how the transport cuts the bytes.
use vlai_l1_runtime.Prelude.{
  ℕ, zero, suc, ◌+◌, ◌-◌, ◌≤◌, ◌<◌, ◌≡◌, refl, ap, sym, ◌∙◌, List, [], ◌∷◌, ◌++◌, inl, inr, ◌⊎◌,
  length, take, drop, take-append, drop-append, leb, arith, length-append, Bool-cases, List-cases,
}
use mathlib.Core.List.{append_assoc}
use vlai_l1_runtime.Prelude.Bytes.{join}
use vlai_l1_runtime.Prelude.Result.{Result, ok, err}
use vlai_l1_runtime.CameraIpc.Stream.{Socket, recv, Closed, closed, receive_loop, receive_exact}

take-drop {ℓ} : {A : Type ℓ} (n : ℕ) (xs : List A) → take n xs ++ drop n xs ≡ xs
take-drop zero xs = refl
take-drop (suc n) [] = refl
take-drop (suc n) (x ∷ xs) = ap (λ l. x ∷ l) (take-drop n xs)

length-take_le {ℓ} : {A : Type ℓ} (n : ℕ) (xs : List A) → length (take n xs) ≤ n
length-take_le zero xs = omega arith
length-take_le (suc n) [] = omega arith
length-take_le (suc n) (x ∷ xs) = omega (arith, length-take_le n xs)

-- `recv` splits the bytes that are left, and gives none only if none is left.
record IsSplit (n : ℕ) (socket : Socket) (got : List ℕ × Socket) : Type 0 where
  whole : got.0 ++ join got.1 ≡ join socket
  short : length got.0 ≤ n
  nothing : got.0 ≡ [] → join socket ≡ []

recv-IsSplit : (n : ℕ) (socket : Socket) → IsSplit (suc n) socket (recv (suc n) socket)
unfolding recv
recv-IsSplit n [] = record { whole = refl; short = omega arith; nothing = λ h. refl }
recv-IsSplit n ([] ∷ chunks) =
    let rest = recv-IsSplit n chunks in
    record { whole = rest.whole; short = rest.short; nothing = rest.nothing }
recv-IsSplit n ((b ∷ bs) ∷ chunks) = elim (Bool-cases (leb (length (b ∷ bs)) (suc n))) [
  | inl fits ↦ rw fits (record { whole = refl; short = ground arith; nothing = λ h. absurd (cc h) })
  | inr longer ↦ rw longer (record {
    whole =
        ap (λ l. b ∷ l)
          (sym (append_assoc (take n bs) (drop n bs) (join chunks))
            ∙ ap (λ l. l ++ join chunks) (take-drop n bs));
    short = length-take_le (suc n) (b ∷ bs);
    nothing = λ h. absurd (cc h);
  })
]

-- What a call has read and left: `n` bytes, or all of too few.
abbrev Reads : ℕ → Socket → Result Closed (List ℕ) × Socket → Type 0
Reads n socket r =
    ((n ≤ length (join socket))
      × ((bytes : List ℕ) × (r.0 ≡ ok bytes)
          × (length bytes ≡ n)
          × (bytes ++ join r.1 ≡ join socket)))
    ⊎ ((length (join socket) < n) × (r.0 ≡ err closed))

receive_loop-Reads :
    (fuel n : ℕ) (socket : Socket) → n ≤ fuel → Reads n socket (receive_loop fuel n socket)
unfolding receive_loop
receive_loop-Reads fuel zero socket h = inl (omega arith, ([], refl, refl, refl))
receive_loop-Reads zero (suc n) socket h = absurd (omega arith)
receive_loop-Reads (suc fuel) (suc n) socket h =
    let got = recv (suc n) socket in
    let split = recv-IsSplit n socket in
    elim (List-cases got.0) [
      | inl nothing ↦
          let empty : join socket ≡ [] = split.nothing nothing in
          inr (rw empty (omega arith), ground (arith, nothing))
      | inr (b, bs, something) ↦
          let left = suc n - length got.0 in
          let total : length got.0 + length (join got.1) ≡ length (join socket) =
            sym (length-append got.0 (join got.1)) ∙ ap length split.whole in
          let size : length got.0 ≡ suc (length bs) = ap length something in
          elim (receive_loop-Reads fuel left got.1 (omega (arith, size, h))) [
            | inl (enough, (bytes, got_rest, sized, joined)) ↦ inl (
              omega (arith, total, split.short, enough),
              (
                got.0 ++ bytes,
                ground (arith, something, got_rest),
                length-append got.0 bytes ∙ omega (arith, sized, split.short),
                let after : (receive_loop (suc fuel) (suc n) socket).1
                        ≡ (receive_loop fuel left got.1).1 =
                      ground (arith, something, got_rest) in
                    ap (λ k. (got.0 ++ bytes) ++ join k) after
                    ∙ append_assoc got.0 bytes (join (receive_loop fuel left got.1).1)
                    ∙ ap (λ l. got.0 ++ l) joined
                    ∙ split.whole,
              ),
            )
            | inr (few, failed) ↦
                inr (omega (arith, total, few, split.short), ground (arith, something, failed))
          ]
    ]

append_parts {ℓ} :
    {A : Type ℓ} (xs ys as' bs : List A)
    → length xs ≡ length ys
    → xs ++ as' ≡ ys ++ bs
    → (xs ≡ ys) × (as' ≡ bs)
append_parts xs ys as' bs same h = (
  sym (take-append xs as')
      ∙ ap (take (length xs)) h
      ∙ ap (λ n. take n (ys ++ bs)) same
      ∙ take-append ys bs,
  sym (drop-append xs as')
      ∙ ap (drop (length xs)) h
      ∙ ap (λ n. drop n (ys ++ bs)) same
      ∙ drop-append ys bs,
)

-- If `bytes` come first of what the peer has sent, in any chunks, `_receive_exact` of their number
-- returns them and leaves the rest.
pub receive_exact-ok :
    (bytes rest : List ℕ) (socket : Socket)
    → join socket ≡ bytes ++ rest
    → ((receive_exact (length bytes) socket).0 ≡ ok bytes)
      × (join (receive_exact (length bytes) socket).1 ≡ rest)
unfolding receive_exact
receive_exact-ok bytes rest socket h =
    elim (receive_loop-Reads (length bytes) (length bytes) socket (omega arith)) [
      | inl (enough, (found, got, sized, joined)) ↦
          let (same, left) =
            append_parts found bytes (join (receive_loop (length bytes) (length bytes) socket).1)
              rest sized (joined ∙ h) in
          (got ∙ ap (λ l. ok l) same, left)
      | inr (few, failed) ↦ absurd (omega (arith, few, ap length h, length-append bytes rest))
    ]

-- Of more bytes than the peer has sent before it closed, it raises.
pub receive_exact-closed :
    (n : ℕ) (socket : Socket) → length (join socket) < n → (receive_exact n socket).0 ≡ err closed
unfolding receive_exact
receive_exact-closed n socket h = elim (receive_loop-Reads n n socket (omega arith)) [
  | inl (enough, found) ↦ absurd (omega (arith, enough))
  | inr (few, failed) ↦ failed
]
