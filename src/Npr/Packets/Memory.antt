-- ===== src/Npr/Packets/Memory.antt =====
-- ixp/npr/nprd_ipv4.cc, read_in and write_out: words of a packet at any address of the DRAM, which
-- the Xscale reads and writes at multiples of four.
pub mod Offsets
pub mod Stores
pub mod RoundTrip
pub mod Prefix
use Prim.Native.Nat.{bit_or}
use onldaemons.Prelude.{
  ℕ, zero, suc, ◌+◌, ◌-◌, ◌*◌, ◌/◌, ◌%◌, ◌^◌, ◌<◌, ◌≡◌, ◌≢◌, List, [], ◌∷◌, ◌==◌, length,
}
use onldaemons.Prelude.{if◌then◌else◌}

-- A memory that the Xscale reads and writes by words, with DRAM_READ and DRAM_WRITE or their like for SRAM.
pub record Bank : Type 1 where
  pub Store : Type 0
  pub read_word : (addr : ℕ) → Store → ℕ
  pub write_word : (addr value : ℕ) → Store → Store

-- What the code relies on: words of 32 bits, each kept until its address is written again.
pub record IsMemory (m : Bank) : Type 0 where
  pub read_below : (addr : ℕ) (d : m.Store) → m.read_word addr d < 2 ^ 32
  pub read_written :
      (addr v : ℕ) (d : m.Store) → v < 2 ^ 32 → m.read_word addr (m.write_word addr v d) ≡ v
  pub read_other :
      (a b v : ℕ) (d : m.Store) → a ≢ b → m.read_word a (m.write_word b v d) ≡ m.read_word a d
  pub write_again :
      (addr v w : ℕ) (d : m.Store)
      → m.write_word addr w (m.write_word addr v d) ≡ m.write_word addr w d

abbrev pub next_word : ℕ → ℕ
next_word addr = (addr + 4) % 2 ^ 32

abbrev pub shift_left : (value bits : ℕ) → ℕ
shift_left value bits = (value * 2 ^ bits) % 2 ^ 32

abbrev pub shift_right : (value bits : ℕ) → ℕ
shift_right value bits = value / 2 ^ bits

-- The loop that takes each word from the end of a stored one and the start of the next.
unfoldable pub join : (shift1 shift2 : ℕ) → List ℕ → List ℕ
join shift1 shift2 [] = []
join shift1 shift2 (v ∷ []) = []
join shift1 shift2 (v ∷ w ∷ vs) =
    bit_or (shift_left v shift1) (shift_right w shift2) ∷ join shift1 shift2 (w ∷ vs)

-- The stored words after the first: the loop and vals[num], which keeps the end of the word there.
unfoldable pub split : (shift1 shift2 : ℕ) → (after : ℕ) → List ℕ → List ℕ
split shift1 shift2 after [] = []
split shift1 shift2 after (d ∷ []) = bit_or (shift_left d shift2) (after % 2 ^ shift2) ∷ []
split shift1 shift2 after (d ∷ e ∷ ds) =
    bit_or (shift_left d shift2) (shift_right e shift1) ∷ split shift1 shift2 after (e ∷ ds)

-- vals[0], which keeps the start of the word there, and the others. The code has num > 0.
unfoldable pub split_all : (shift1 shift2 : ℕ) → (before after : ℕ) → List ℕ → List ℕ
split_all shift1 shift2 before after [] = []
split_all shift1 shift2 before after (d ∷ ds) =
    bit_or (before / 2 ^ shift2 * 2 ^ shift2) (shift_right d shift1)
    ∷ split shift1 shift2 after (d ∷ ds)

module _ (m : Bank) where
  unfoldable pub read_words : (addr num : ℕ) → m.Store → List ℕ
  read_words addr zero d = []
  read_words addr (suc n) d = m.read_word addr d ∷ read_words (next_word addr) n d

  unfoldable pub write_words : (addr : ℕ) → List ℕ → m.Store → m.Store
  write_words addr [] d = d
  write_words addr (v ∷ vs) d = write_words (next_word addr) vs (m.write_word addr v d)

  unfoldable pub read_in : (addr num : ℕ) → m.Store → List ℕ
  read_in addr num d =
      let byte_offset = addr % 4 in
      let shift1 = byte_offset * 8 in
      if byte_offset == 0
      then read_words addr num d
      else join shift1 (32 - shift1) (read_words (addr - byte_offset) (suc num) d)

  unfoldable pub write_out : (addr : ℕ) → List ℕ → m.Store → m.Store
  write_out addr words d =
      let byte_offset = addr % 4 in
      let aligned_addr = addr - byte_offset in
      let shift1 = byte_offset * 8 in
      let before = m.read_word aligned_addr d in
      let after = m.read_word ((aligned_addr + length words * 4) % 2 ^ 32) d in
      if byte_offset == 0
      then write_words addr words d
      else write_words aligned_addr (split_all shift1 (32 - shift1) before after words) d
