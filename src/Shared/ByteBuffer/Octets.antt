-- ===== src/Shared/ByteBuffer/Octets.antt =====
-- Every byte that the operators write is below 256.
use onldaemons.Prelude.{ℕ, ◌<◌, Bool, true, false, List, [], ◌∷◌, ◌++◌, All, arith}
use onldaemons.Shared.ByteBuffer.{Timeval}
use onldaemons.Shared.ByteBuffer.Emit.{bytes8, bytes16, bytes32, bytes_bool, bytes_timeval}

abbrev pub Octets : List ℕ → Type 0
Octets bs = All (λ c. c < 256) bs

pub Octets-append : (xs ys : List ℕ) → Octets xs → Octets ys → Octets (xs ++ ys)
Octets-append [] ys h k = k
Octets-append (x ∷ xs) ys h k = (h.0, Octets-append xs ys h.1 k)

pub bytes8-Octets : (d : ℕ) → Octets (bytes8 d)
unfolding bytes8
bytes8-Octets d = omega arith

pub bytes16-Octets : (d : ℕ) → Octets (bytes16 d)
unfolding bytes16
bytes16-Octets d = omega arith

pub bytes32-Octets : (d : ℕ) → Octets (bytes32 d)
unfolding bytes32
bytes32-Octets d = omega arith

pub bytes_bool-Octets : (b : Bool) → Octets (bytes_bool b)
unfolding bytes_bool
bytes_bool-Octets true = bytes16-Octets 1
bytes_bool-Octets false = bytes16-Octets 0

pub bytes_timeval-Octets : (tv : Timeval) → Octets (bytes_timeval tv)
unfolding bytes_timeval
bytes_timeval-Octets tv = Octets-append _ _ (bytes32-Octets _) (bytes32-Octets _)
