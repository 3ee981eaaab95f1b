-- ===== src/CameraIpc/Stream.antt =====
-- The bytes of a connection: `_send_response`, `_receive_exact` and the length before a header.
use vlai_l1_runtime.Prelude.{
  ℕ, zero, suc, ◌-◌, List, [], ◌∷◌, ◌++◌, length, take, drop, leb, if◌then◌else◌,
}
use vlai_l1_runtime.Prelude.Result.{ok, err}
use vlai_l1_runtime.Prelude.Exec.{Exec}

-- What the peer has sent and `recv` has not returned, as the transport cuts it; an empty chunk is none.
abbrev pub Socket : Type 0
Socket = List (List ℕ)

-- `recv(n)`: some of the bytes of the next chunk, and no bytes where the peer has closed.
unfoldable pub recv : ℕ → Socket → List ℕ × Socket
recv n [] = ([], [])
recv n ([] ∷ chunks) = recv n chunks
recv n ((b ∷ bs) ∷ chunks) =
    let chunk : List ℕ = b ∷ bs in
    if leb (length chunk) n then (chunk, chunks) else (take n chunk, drop n chunk ∷ chunks)

pub data Closed : Type 0 where
  closed : Closed

-- The loop of `_receive_exact`, on fuel.
unfoldable pub receive_loop : (fuel remaining : ℕ) → Exec Socket Closed (List ℕ)
unfolding recv
receive_loop fuel zero socket = (ok [], socket)
receive_loop zero (suc n) socket = (err closed, socket)
receive_loop (suc fuel) (suc n) socket =
    let got = recv (suc n) socket in
    let rest = receive_loop fuel (suc n - length got.0) got.1 in
    elim got.0 [
      | [] ↦ (err closed, got.1)
      | b ∷ bs ↦ elim rest.0 [ err e ↦ (err e, rest.1) | ok bytes ↦ (ok (got.0 ++ bytes), rest.1) ]
    ]

-- Every round takes a byte, so `remaining` rounds are enough.
unfoldable pub receive_exact : ℕ → Exec Socket Closed (List ℕ)
unfolding receive_loop
receive_exact n socket = receive_loop n n socket
