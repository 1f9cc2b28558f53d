-- ===== src/Npr/Packets/Memory/RoundTrip.antt =====
-- ixp/npr/nprd_ipv4.cc: words written out are read in again, and writes in a row are one write.
use Prim.Native.Nat.{bit_or}
use onldaemons.Prelude.{ℕ, suc, ◌+◌, ◌-◌, ◌*◌, ◌/◌, ◌%◌, ◌^◌, ◌<◌, ◌≤◌, ◌≡◌, sym, ap, ◌∙◌}
use onldaemons.Prelude.{
  List, [], ◌∷◌, ◌++◌, All, length, inl, inr, false, if◌then◌else◌, ◌==◌, length-append, arith,
}
use onldaemons.Npr.Packets.Checksum.{Word}
use onldaemons.Npr.Packets.Memory.{
  Bank, IsMemory, next_word, shift_left, shift_right, join, split, split_all, read_words,
  write_words, read_in, write_out,
}
use onldaemons.Npr.Packets.Memory.Offsets.{
  Offset, Offset-of_address, mod_below, stored_below, kept-bit_or,
}
use onldaemons.Npr.Packets.Memory.Stores.{
  read_words-write_words, unaligned, write_out_aligned, write_out_unaligned,
}

-- Words of 32 bits that write_out puts at any address of the DRAM, aligned or not, are the words
-- that read_in takes from there. The words and the one behind them end below 2 ^ 32.
pub read_in-write_out :
    (m : Bank)
    → IsMemory m
    → (addr x : ℕ) (xs : List ℕ) (d : m.Store) → All Word (x ∷ xs)
    → addr + 4 * length (x ∷ xs) + 4 < 2 ^ 32
    → read_in m addr (length (x ∷ xs)) (write_out m addr (x ∷ xs) d) ≡ x ∷ xs
unfolding read_in
read_in-write_out m w addr x xs d k b = elim (Offset-of_address (addr % 4) (omega arith)) [
  | inl h ↦
      ap
        (λ b.
          if b
          then read_words m addr (length (x ∷ xs)) (write_out m addr (x ∷ xs) d)
          else join (addr % 4 * 8) (32 - addr % 4 * 8) (
              read_words m (addr - addr % 4) (suc (length (x ∷ xs))) (write_out m addr (x ∷ xs) d)))
        h
      ∙ ap (read_words m addr (length (x ∷ xs))) (write_out_aligned m w addr (x ∷ xs) d h)
      ∙ read_words-write_words m w addr (x ∷ xs) d k (omega arith)
  | inr h ↦ unaligned m w addr x xs d h.0 h.1 k b
]

module _ (m : Bank) (w : IsMemory m) where
  -- The stored words of a write, at an offset that the next address shares.
  stored_at : (o al : ℕ) → List ℕ → m.Store → m.Store
  stored_at o al ws d =
      write_words m al
        (split_all (o * 8) (32 - o * 8) (m.read_word al d)
          (m.read_word ((al + length ws * 4) % 2 ^ 32) d) ws)
        d

  next_stored :
      (o al x y : ℕ) (ys : List ℕ) (d : m.Store)
      → Offset (o * 8) (32 - o * 8)
      → al + 4 * length (x ∷ y ∷ ys) + 4 < 2 ^ 32
      → stored_at o al (x ∷ y ∷ ys) d ≡ stored_at o (al + 4) (y ∷ ys) (stored_at o al (x ∷ []) d)
  unfolding stored_at split_all split write_words
  next_stored o al x y ys d off b =
      let s1 = o * 8 in
      let s2 = 32 - o * 8 in
      let low = next_word al in
      let base =
        m.write_word al (bit_or (m.read_word al d / 2 ^ s2 * 2 ^ s2) (shift_right x s1)) d in
      let end = m.read_word ((al + 4) % 2 ^ 32) d % 2 ^ s2 in
      let j = bit_or (shift_left x s2) end in
      let d1 = m.write_word low j base in
      let here : low ≡ al + 4 = omega arith in
      let tail : ℕ = (al + suc (suc (length ys)) * 4) % 2 ^ 32 in
      let same : (al + 4 + suc (length ys) * 4) % 2 ^ 32 ≡ tail = omega arith in
      let after : m.read_word ((al + 4 + suc (length ys) * 4) % 2 ^ 32) d1 ≡ m.read_word tail d =
        ap (λ a. m.read_word a d1) same
        ∙ w.read_other tail low j base (λ e. omega arith)
        ∙ w.read_other tail al _ d (λ e. omega arith) in
      let below = mod_below off (m.read_word ((al + 4) % 2 ^ 32) d) in
      sym (
        ap
          (λ p.
            write_words m (next_word p)
              (split s1 s2 (m.read_word ((al + 4 + suc (length ys) * 4) % 2 ^ 32) d1) (y ∷ ys))
              (m.write_word p (bit_or (m.read_word p d1 / 2 ^ s2 * 2 ^ s2) (shift_right y s1)) d1))
          (sym here)
        ∙ ap
            (λ a. write_words m (next_word low) (split s1 s2 a (y ∷ ys)) (
              m.write_word low (bit_or (m.read_word low d1 / 2 ^ s2 * 2 ^ s2) (shift_right y s1))
                d1))
            after
        ∙ ap
            (λ v.
              write_words m (next_word low) (split s1 s2 (m.read_word tail d) (y ∷ ys))
                (m.write_word low (bit_or (v / 2 ^ s2 * 2 ^ s2) (shift_right y s1)) d1))
            (w.read_written low j base (stored_below off x end below))
        ∙ ap
            (λ v.
              write_words m (next_word low) (split s1 s2 (m.read_word tail d) (y ∷ ys))
                (m.write_word low (bit_or v (shift_right y s1)) d1))
            (kept-bit_or off x end below)
        ∙ ap (write_words m (next_word low) (split s1 s2 (m.read_word tail d) (y ∷ ys)))
            (w.write_again low j _ base))

  write_out-stored_at :
      (addr : ℕ) (ws : List ℕ) (d : m.Store)
      → (addr % 4 == 0) ≡ false
      → write_out m addr ws d ≡ stored_at (addr % 4) (addr - addr % 4) ws d
  unfolding stored_at
  write_out-stored_at addr ws d h = write_out_unaligned m w addr ws d h

  write_out-cons :
      (addr x y : ℕ) (ys : List ℕ) (d : m.Store)
      → addr + 4 * length (x ∷ y ∷ ys) + 4 < 2 ^ 32
      → write_out m addr (x ∷ y ∷ ys) d
        ≡ write_out m (addr + 4) (y ∷ ys) (write_out m addr (x ∷ []) d)
  unfolding write_words
  write_out-cons addr x y ys d b = elim (Offset-of_address (addr % 4) (omega arith)) [
    | inl h ↦
        let here : next_word addr ≡ addr + 4 = omega arith in
        write_out_aligned m w addr (x ∷ y ∷ ys) d h
        ∙ ap (λ a. write_words m a (y ∷ ys) (m.write_word addr x d)) here
        ∙ sym (
            ap (write_out m (addr + 4) (y ∷ ys)) (write_out_aligned m w addr (x ∷ []) d h)
            ∙ write_out_aligned m w (addr + 4) (y ∷ ys) (m.write_word addr x d) (ground arith))
    | inr h ↦
        let d1 = write_out m addr (x ∷ []) d in
        let same : (addr + 4) % 4 ≡ addr % 4 = omega arith in
        let behind : addr + 4 - (addr + 4) % 4 ≡ addr - addr % 4 + 4 = omega arith in
        write_out-stored_at addr (x ∷ y ∷ ys) d h.0
        ∙ next_stored (addr % 4) (addr - addr % 4) x y ys d h.1 (omega arith)
        ∙ sym (
            write_out-stored_at (addr + 4) (y ∷ ys) d1 (ground arith)
            ∙ ap (λ o. stored_at o (addr + 4 - (addr + 4) % 4) (y ∷ ys) d1) same
            ∙ ap (λ a. stored_at (addr % 4) a (y ∷ ys) d1) behind
            ∙ ap (stored_at (addr % 4) (addr - addr % 4 + 4) (y ∷ ys))
                (write_out-stored_at addr (x ∷ []) d h.0))
  ]

  -- Two writes of at least one word, the second right behind the first, are one write of all their
  -- words, at any address: the second keeps the end of the first in the word that they share. The
  -- words and the one behind them end below 2 ^ 32.
  pub write_out-append :
      (xs : List ℕ) (addr x y : ℕ) (ys : List ℕ) (d : m.Store)
      → addr + 4 * length (x ∷ xs ++ y ∷ ys) + 4 < 2 ^ 32
      → write_out m (addr + 4 * length (x ∷ xs)) (y ∷ ys) (write_out m addr (x ∷ xs) d)
        ≡ write_out m addr (x ∷ xs ++ y ∷ ys) d
  write_out-append [] addr x y ys d b = sym (write_out-cons addr x y ys d b)
  write_out-append (z ∷ xs) addr x y ys d b =
      let behind : addr + 4 * length (x ∷ z ∷ xs) ≡ addr + 4 + 4 * length (z ∷ xs) = omega arith in
      let more : length (z ∷ xs) ≤ length (z ∷ xs ++ y ∷ ys) =
        omega (arith, length-append (z ∷ xs) (y ∷ ys)) in
      ap (λ a. write_out m a (y ∷ ys) (write_out m addr (x ∷ z ∷ xs) d)) behind
      ∙ ap (write_out m (addr + 4 + 4 * length (z ∷ xs)) (y ∷ ys))
          (write_out-cons addr x z xs d (omega arith))
      ∙ write_out-append xs (addr + 4) z y ys (write_out m addr (x ∷ []) d) (omega arith)
      ∙ sym (write_out-cons addr x z (xs ++ y ∷ ys) d b)
