-- ===== src/Shared/ByteBuffer.antt =====
-- shared/byte_buffer.h and shared/byte_buffer.cc: the marshalling buffer. Each operator is a step of
-- the buffer; `none` is an access outside the allocated array, which the code does not check for.
-- The indices do not wrap: a step that succeeds keeps `cur_index` within `num_bytes_allocated`,
-- which is a `uint32_t`. A byte array is a function from indices.
pub mod Emit
pub mod Holds
pub mod Growth
pub mod Octets
pub mod Payload
use onldaemons.Prelude.{
  ℕ, zero, suc, ◌+◌, ◌*◌, ◌/◌, ◌%◌, ◌^◌, Bool, not, Option, none, some, List, [], ◌∷◌, length, ltb,
  leb, ◌==◌, if◌then◌else◌,
}

pub record ByteBuffer : Type 0 where
  pub num_bytes_allocated : ℕ
  pub num_bytes_stored : ℕ
  pub cur_index : ℕ
  pub buffer_data : ℕ → ℕ

abbrev pub Buf : Type 0 → Type 0
Buf A = ByteBuffer → Option (A × ByteBuffer)

unfoldable pub pure : {A : Type 0} → A → Buf A
pure a b = some (a, b)

abbrev pub resume : {A B : Type 0} → (A → Buf B) → Option (A × ByteBuffer) → Option (B × ByteBuffer)
resume f none = none
resume f (some (a, b)) = f a b

infixl 5 ◌>>=◌ ◌>>◌
unfoldable pub ◌>>=◌ : {A B : Type 0} → Buf A → (A → Buf B) → Buf B
◌>>=◌ m f b = resume f (m b)

abbrev pub ◌>>◌ : {B : Type 0} → Buf (Unit {0}) → Buf B → Buf B
m >> k = m >>= λ _. k

-- `new uint8_t[n]` leaves its bytes as they are: they are the argument `fresh`.
unfoldable pub new_buffer : (ℕ → ℕ) → ByteBuffer
new_buffer fresh = record {
  num_bytes_allocated = 2048;
  num_bytes_stored = 0;
  cur_index = 0;
  buffer_data = fresh;
}

-- operator=: only the stored bytes are copied.
pub copy_buffer : (ℕ → ℕ) → ByteBuffer → ByteBuffer
copy_buffer fresh other = record {
  num_bytes_allocated = other.num_bytes_allocated;
  num_bytes_stored = other.num_bytes_stored;
  cur_index = other.cur_index;
  buffer_data = λ i. if ltb i other.num_bytes_stored then other.buffer_data i else fresh i;
}

abbrev pub update : (ℕ → ℕ) → ℕ → ℕ → ℕ → ℕ
update f p v q = if p == q then v else f q

-- memcpy into the array, from `i` on.
pub store_bytes : (ℕ → ℕ) → ℕ → List ℕ → ℕ → ℕ
store_bytes m i [] = m
store_bytes m i (x ∷ xs) = store_bytes (update m i x) (i + 1) xs

-- The common part of the three writing operators.
put_bytes : List ℕ → Buf (Unit {0})
unfolding store_bytes
put_bytes bs b =
    let next = b.cur_index + length bs in
    if leb next b.num_bytes_allocated
    then some (
      tt,
      record b {
        cur_index = next;
        num_bytes_stored = next;
        buffer_data = store_bytes b.buffer_data b.cur_index bs;
      },
    )
    else none

-- htons and htonl put the high byte first.
pub put8 : ℕ → Buf (Unit {0})
unfolding put_bytes
put8 d = put_bytes (d % 256 ∷ [])

pub put16 : ℕ → Buf (Unit {0})
unfolding put_bytes
put16 d = put_bytes (d / 256 % 256 ∷ d % 256 ∷ [])

pub put32 : ℕ → Buf (Unit {0})
unfolding put_bytes
put32 d = put_bytes (d / 2 ^ 24 % 256 ∷ d / 2 ^ 16 % 256 ∷ d / 256 % 256 ∷ d % 256 ∷ [])

pub put_bool : Bool → Buf (Unit {0})
unfolding put16
put_bool b = if b then put16 1 else put16 0

-- A `char` is its byte.
pub put_char : ℕ → Buf (Unit {0})
unfolding put8
put_char c = put8 c

pub record Timeval : Type 0 where
  pub tv_sec : ℕ
  pub tv_usec : ℕ

pub put_timeval : Timeval → Buf (Unit {0})
unfolding put32
put_timeval tv = do put32 (tv.tv_sec % 2 ^ 32); put32 (tv.tv_usec % 2 ^ 32)

-- memcpy out of the array.
pub load_bytes : (ℕ → ℕ) → ℕ → ℕ → List ℕ
load_bytes m i zero = []
load_bytes m i (suc n) = m i ∷ load_bytes m (i + 1) n

-- The common part of the three reading operators: reads do not look at `num_bytes_stored`.
get_bytes : ℕ → Buf (List ℕ)
unfolding load_bytes
get_bytes n b =
    let next = b.cur_index + n in
    if leb next b.num_bytes_allocated
    then some (load_bytes b.buffer_data b.cur_index n, record b { cur_index = next })
    else none

-- The number that bytes stand for in network order.
from_network : ℕ → List ℕ → ℕ
from_network acc [] = acc
from_network acc (x ∷ xs) = from_network (acc * 256 + x) xs

pub get8 : Buf ℕ
unfolding get_bytes from_network
get8 = do bs ← get_bytes 1; pure (from_network 0 bs)

pub get16 : Buf ℕ
unfolding get_bytes from_network
get16 = do bs ← get_bytes 2; pure (from_network 0 bs)

pub get32 : Buf ℕ
unfolding get_bytes from_network
get32 = do bs ← get_bytes 4; pure (from_network 0 bs)

pub get_bool : Buf Bool
unfolding get16
get_bool = do data2 ← get16; pure (not (data2 == 0))

pub get_char : Buf ℕ
unfolding get8
get_char = get8

pub get_timeval : Buf Timeval
unfolding get32
get_timeval = do sec ← get32; usec ← get32; pure (record { tv_sec = sec; tv_usec = usec })

unfoldable pub reset : ByteBuffer → ByteBuffer
reset b = record b { cur_index = 0 }

-- Grows the array when it is too short, and empties the buffer.
unfoldable pub resize : (ℕ → ℕ) → ℕ → ByteBuffer → ByteBuffer
resize fresh new_length b =
    if ltb b.num_bytes_allocated new_length
    then record {
      num_bytes_allocated = new_length;
      num_bytes_stored = 0;
      cur_index = 0;
      buffer_data = fresh;
    }
    else record b { num_bytes_stored = 0; cur_index = 0 }

-- The bytes that are sent: getData() up to getSize().
pub payload : ByteBuffer → List ℕ
unfolding load_bytes
payload b = load_bytes b.buffer_data 0 b.num_bytes_stored
