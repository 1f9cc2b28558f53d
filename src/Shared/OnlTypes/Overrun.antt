-- ===== src/Shared/OnlTypes/Overrun.antt =====
-- The hardware array of a cluster has 255 entries, and the count of a message is not checked.
use onldaemons.Prelude.{
  ℕ, zero, suc, ◌+◌, ◌^◌, ◌<◌, ◌≤◌, ◌≡◌, refl, ap, Bool-cases, inl, inr, Option, none, some, arith,
  ltb,
}
use onldaemons.Shared.ByteBuffer.{ByteBuffer, Buf, ◌>>=◌, resume, get32}
use onldaemons.Shared.ByteBuffer.Emit.{bytes32}
use onldaemons.Shared.ByteBuffer.Holds.{Ahead, get32-Decodes, skip}
use onldaemons.Shared.OnlTypes.{Component, get_hardware, out_of_range, parse_extra}

resume-none :
    {A B : Type 0} (r : Option (A × ByteBuffer)) (f : A → Buf B)
    → ((a : A) (b : ByteBuffer) → f a b ≡ none)
    → resume f r ≡ none
resume-none none f h = refl
resume-none (some (a, b)) f h = h a b

get_hardware_overrun :
    (i n : ℕ) → i ≤ 255 → 255 < i + n → (b : ByteBuffer) → get_hardware i n b ≡ none
unfolding get_hardware ◌>>=◌ out_of_range
get_hardware_overrun i zero h k b = absurd (omega arith)
get_hardware_overrun i (suc n) h k b = elim (Bool-cases (ltb i 255)) [
  | inl e ↦ rw e (
      resume-none (get32 b) _
        λ v b'. ap (resume _) (get_hardware_overrun (suc i) n (ground arith) (omega arith) b'))
  | inr e ↦ rw e
]

-- Whenever the 32-bit count that stands ahead in a message is more than 255, `parseExtra` reads or
-- writes outside an array: it has no result for such a message.
pub parse_extra_overrun :
    (c : Component) (n : ℕ) (b : ByteBuffer)
    → 255 < n
    → n < 2 ^ 32
    → Ahead (bytes32 n) b
    → parse_extra c b ≡ none
unfolding parse_extra ◌>>=◌ bytes32
parse_extra_overrun c n b big small ahead =
    rw ((get32-Decodes n small).run b ahead, resume)
      (ap (resume _) (get_hardware_overrun 0 n (omega arith) (omega arith) (skip 4 b)))
