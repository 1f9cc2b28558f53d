-- ===== src/Shared/NccpString.antt =====
-- shared/onl_types.cc, lines 43 to 163: counted strings of at most 255 bytes. A value is its bytes
-- `nccp_str[0 .. length)`; the array behind them holds a NUL, which `c_str` supplies, and bytes that
-- nothing reads.
pub mod Laws
use onldaemons.Prelude.{
  ℕ, zero, suc, ◌%◌, ◌^◌, ◌≤◌, ◌<◌, ◌≡◌, ◌∙◌, refl, ap, Bool, true, false, ◌&&◌, List, [], ◌∷◌,
  ◌++◌, All, arith, ltb, ◌==◌ as nat_eq, if◌then◌else◌, length, take, length-take-le,
}
use onldaemons.Shared.ByteBuffer.{Buf, pure, ◌>>=◌, ◌>>◌, put32, put_char, get32, get_char}
use onldaemons.Shared.ByteBuffer.Emit.{
  emit, emit-append, emit-nil, bytes8, bytes32, put32-emit, put_char-emit,
}
use onldaemons.Shared.ByteBuffer.Holds.{
  Decodes, Decodes-bind, Decodes-map, Decodes-pure, get32-Decodes, get_char-Decodes,
}
use onldaemons.Shared.ByteBuffer.Octets.{Octets, Octets-append, bytes8-Octets, bytes32-Octets}

pub record NccpString : Type 0 where
  pub nccp_str : List ℕ

-- The C string that starts a memory area: its bytes up to the first NUL.
unfoldable pub c_str : List ℕ → List ℕ
c_str [] = []
c_str (c ∷ cs) = let rest = c_str cs in if nat_eq c 0 then [] else c ∷ rest

-- strncpy: `n` bytes, padded with NULs behind the end of the source.
unfoldable pub strncpy : ℕ → List ℕ → List ℕ
strncpy zero s = []
strncpy (suc n) [] = 0 ∷ strncpy n []
strncpy (suc n) (c ∷ cs) = c ∷ strncpy n (if nat_eq c 0 then [] else cs)

-- nccp_string(const char*), and the assignments from C and C++ strings.
pub of_c_string : List ℕ → NccpString
of_c_string c =
    let l = length (c_str c) in record { nccp_str = strncpy (if ltb 255 l then 255 else l) c }

-- nccp_string(const char*, uint8_t)
pub of_chars : List ℕ → ℕ → NccpString
of_chars c len = record { nccp_str = strncpy (len % 256) c }

-- The copy constructor and the assignment.
pub copy_string : NccpString → NccpString
copy_string s = record { nccp_str = strncpy (length s.nccp_str) s.nccp_str }

-- nccp_string()
abbrev pub empty : NccpString
empty = record { nccp_str = [] }

unfoldable pub get_string : NccpString → List ℕ
unfolding c_str
get_string s = c_str s.nccp_str

-- strcmp on two C strings: equal, and less.
unfoldable pub same_bytes : List ℕ → List ℕ → Bool
same_bytes [] [] = true
same_bytes [] (y ∷ ys) = false
same_bytes (x ∷ xs) [] = false
same_bytes (x ∷ xs) (y ∷ ys) = nat_eq x y && same_bytes xs ys

unfoldable pub less_bytes : List ℕ → List ℕ → Bool
less_bytes xs [] = false
less_bytes [] (y ∷ ys) = true
less_bytes (x ∷ xs) (y ∷ ys) =
    let rest = less_bytes xs ys in if ltb x y then true else if ltb y x then false else rest

infix 50 ◌==◌
unfoldable pub ◌==◌ : NccpString → NccpString → Bool
a == b = same_bytes (c_str a.nccp_str) (c_str b.nccp_str)

unfoldable pub less : NccpString → NccpString → Bool
less a b = less_bytes (c_str a.nccp_str) (c_str b.nccp_str)

unfoldable pub greater : NccpString → NccpString → Bool
greater a b = less_bytes (c_str b.nccp_str) (c_str a.nccp_str)

put_chars : List ℕ → Buf (Unit {0})
put_chars [] = pure tt
put_chars (c ∷ cs) = do put_char c; put_chars cs

pub put_string : NccpString → Buf (Unit {0})
unfolding put_chars
put_string s = do put32 (length s.nccp_str); put_chars s.nccp_str

get_chars : ℕ → Buf (List ℕ)
get_chars zero = pure []
get_chars (suc n) = do c ← get_char; cs ← get_chars n; pure (c ∷ cs)

-- Of a longer string the first 255 bytes are read; the others stay ahead of the index.
pub get_string_from : Buf NccpString
unfolding get_chars
get_string_from = do
  l ← get32
  cs ← get_chars (if ltb 255 l then 255 else l)
  pure (record { nccp_str = cs })

pub record IsNccpString (s : NccpString) : Type 0 where
  pub short : length s.nccp_str ≤ 255
  pub bytes : All (λ c. c < 256) s.nccp_str

bytes_chars : List ℕ → List ℕ
bytes_chars [] = []
bytes_chars (c ∷ cs) = bytes8 c ++ bytes_chars cs

unfoldable pub bytes_string : NccpString → List ℕ
unfolding bytes_chars
bytes_string s = bytes32 (length s.nccp_str) ++ bytes_chars s.nccp_str

put_chars-emit : (cs : List ℕ) → put_chars cs ≡ emit (bytes_chars cs)
unfolding put_chars bytes_chars
put_chars-emit [] = emit-nil
put_chars-emit (c ∷ cs) = simp (put_char-emit, put_chars-emit cs, emit-append)

pub put_string-emit : (s : NccpString) → put_string s ≡ emit (bytes_string s)
unfolding put_string bytes_string
put_string-emit s = simp (put32-emit, put_chars-emit, emit-append)

get_chars-Decodes :
    (cs : List ℕ) → All (λ c. c < 256) cs → Decodes (get_chars (length cs)) (bytes_chars cs) cs
unfolding get_chars bytes_chars
get_chars-Decodes [] h = Decodes-pure []
get_chars-Decodes (c ∷ cs) h =
    Decodes-bind _ (get_char-Decodes c h.0) (Decodes-map _ (get_chars-Decodes cs h.1))

pub get_string-Decodes :
    (s : NccpString) → IsNccpString s → Decodes get_string_from (bytes_string s) s
unfolding get_string_from bytes_string
get_string-Decodes s w =
    let e : (if ltb 255 (length s.nccp_str) then 255 else length s.nccp_str) ≡ length s.nccp_str =
      let h = w.short in ground arith in
    Decodes-bind _ (get32-Decodes _ (let h = w.short in omega arith))
      (Decodes-map _ (rw e (get_chars-Decodes s.nccp_str w.bytes)))

bytes_chars-Octets : (cs : List ℕ) → Octets (bytes_chars cs)
unfolding bytes_chars
bytes_chars-Octets [] = tt
bytes_chars-Octets (c ∷ cs) = Octets-append _ _ (bytes8-Octets c) (bytes_chars-Octets cs)

pub bytes_string-Octets : (s : NccpString) → Octets (bytes_string s)
unfolding bytes_string
bytes_string-Octets s = Octets-append _ _ (bytes32-Octets _) (bytes_chars-Octets s.nccp_str)
