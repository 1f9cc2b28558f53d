-- ===== src/Npr/Packets/Memory/Prefix.antt =====
-- ixp/npr/nprd_ipv4.cc, read_in: fewer words from an address are the first of more words.
use Prim.Native.Nat.{bit_or}
use onldaemons.Prelude.{
  ℕ, zero, suc, ◌+◌, ◌-◌, ◌*◌, ◌%◌, ◌^◌, ◌<◌, ◌≤◌, ◌≡◌, refl, sym, subst, ap, ◌∙◌,
}
use onldaemons.Prelude.{
  List, ◌∷◌, ◌++◌, All, length, take, take-append, inl, inr, Bool, true, false, if◌then◌else◌, ◌==◌,
  arith,
}
use onldaemons.Npr.Packets.Checksum.{Word}
use onldaemons.Npr.Packets.Memory.{
  Bank, IsMemory, next_word, shift_left, shift_right, join, read_words, read_in, write_out,
}
use onldaemons.Npr.Packets.Memory.Offsets.{
  Offset, one_byte, two_bytes, three_bytes, Offset-of_address, stored_below, start_below,
}
use onldaemons.Npr.Packets.Memory.RoundTrip.{read_in-write_out}

take-if :
    (n : ℕ) {xs ys : List ℕ} (us vs : List ℕ) (b : Bool)
    → xs ≡ take n us
    → ys ≡ take n vs
    → (if b then xs else ys) ≡ take n (if b then us else vs)
take-if n us vs true p q = p
take-if n us vs false p q = q

append-if :
    {xs ys : List ℕ} (us vs us' vs' : List ℕ) (b : Bool)
    → xs ≡ us ++ vs
    → ys ≡ us' ++ vs'
    → (if b then xs else ys) ≡ (if b then us else us') ++ (if b then vs else vs')
append-if us vs us' vs' true p q = p
append-if us vs us' vs' false p q = q

module _ (m : Bank) where
  abbrev cut_words : (s1 s2 addr num : ℕ) → m.Store → List ℕ
  cut_words s1 s2 addr num d = join s1 s2 (read_words m addr (suc num) d)

  -- read_in, whichever way its test goes.
  by_offset :
      (P : List ℕ → Type 0) (addr num : ℕ) (d : m.Store)
      → P (read_words m addr num d)
      → (Offset (addr % 4 * 8) (32 - addr % 4 * 8)
          → P (cut_words (addr % 4 * 8) (32 - addr % 4 * 8) (addr - addr % 4) num d))
      → P (read_in m addr num d)
  unfolding read_in
  by_offset P addr num d p q = elim (Offset-of_address (addr % 4) (omega arith)) [
    | inl h ↦
        subst
          (λ b. P (
            if b
            then read_words m addr num d
            else cut_words (addr % 4 * 8) (32 - addr % 4 * 8) (addr - addr % 4) num d))
          (sym h) p
    | inr h ↦
        subst
          (λ b. P (
            if b
            then read_words m addr num d
            else cut_words (addr % 4 * 8) (32 - addr % 4 * 8) (addr - addr % 4) num d))
          (sym h.0) (q h.1)
  ]

  take-read_words :
      (n k addr : ℕ) (d : m.Store) → n ≤ k → read_words m addr n d ≡ take n (read_words m addr k d)
  unfolding read_words
  take-read_words zero k addr d h = refl
  take-read_words (suc n) zero addr d h = absurd (omega arith)
  take-read_words (suc n) (suc k) addr d h =
      ap (◌∷◌ (m.read_word addr d)) (take-read_words n k (next_word addr) d (omega arith))

  take-cut_words :
      (s1 s2 n k addr : ℕ) (d : m.Store)
      → n ≤ k
      → cut_words s1 s2 addr n d ≡ take n (cut_words s1 s2 addr k d)
  unfolding read_words join
  take-cut_words s1 s2 zero k addr d h = refl
  take-cut_words s1 s2 (suc n) zero addr d h = absurd (omega arith)
  take-cut_words s1 s2 (suc n) (suc k) addr d h =
      ap
        (◌∷◌ (
          bit_or (shift_left (m.read_word addr d) s1)
            (shift_right (m.read_word (next_word addr) d) s2)))
        (take-cut_words s1 s2 n k (next_word addr) d (omega arith))

  pub take-read_in :
      (n k addr : ℕ) (d : m.Store) → n ≤ k → read_in m addr n d ≡ take n (read_in m addr k d)
  unfolding read_in
  take-read_in n k addr d h =
      take-if n _ _ (addr % 4 == 0) (take-read_words n k addr d h)
        (take-cut_words (addr % 4 * 8) (32 - addr % 4 * 8) n k (addr - addr % 4) d h)

  -- The words behind the first are those from the next address.
  pub read_in-suc :
      (n addr : ℕ) (d : m.Store)
      → addr + 4 < 2 ^ 32
      → read_in m addr (suc n) d ≡ read_in m addr 1 d ++ read_in m (addr + 4) n d
  unfolding read_in read_words join
  read_in-suc n addr d h =
      let o = addr % 4 in
      let s1 = o * 8 in
      let s2 = 32 - o * 8 in
      let same : (addr + 4) % 4 ≡ addr % 4 = omega arith in
      let next : next_word addr ≡ addr + 4 = omega arith in
      let behind : next_word (addr - addr % 4) ≡ addr + 4 - addr % 4 = omega arith in
      append-if (read_words m addr 1 d) (read_words m (addr + 4) n d)
        (cut_words s1 s2 (addr - o) 1 d) (cut_words s1 s2 (addr + 4 - o) n d) (o == 0)
        (ap (λ a. m.read_word addr d ∷ read_words m a n d) next)
        (ap
          (λ a.
            bit_or (shift_left (m.read_word (addr - o) d) s1)
              (shift_right (m.read_word (next_word (addr - o)) d) s2)
            ∷ cut_words s1 s2 a n d)
          behind)
      ∙ ap
          (λ o.
            read_in m addr 1 d
            ++ (if o == 0
                then read_words m (addr + 4) n d
                else cut_words (o * 8) (32 - o * 8) (addr + 4 - o) n d))
          (sym same)

  length-read_words : (n addr : ℕ) (d : m.Store) → length (read_words m addr n d) ≡ n
  unfolding read_words
  length-read_words zero addr d = refl
  length-read_words (suc n) addr d = ap suc (length-read_words n (next_word addr) d)

  length-cut_words : (s1 s2 n addr : ℕ) (d : m.Store) → length (cut_words s1 s2 addr n d) ≡ n
  unfolding read_words join
  length-cut_words s1 s2 zero addr d = refl
  length-cut_words s1 s2 (suc n) addr d = ap suc (length-cut_words s1 s2 n (next_word addr) d)

  pub length-read_in : (n addr : ℕ) (d : m.Store) → length (read_in m addr n d) ≡ n
  length-read_in n addr d =
      by_offset (λ ws. length ws ≡ n) addr n d (length-read_words n addr d)
        (λ o. length-cut_words _ _ n (addr - addr % 4) d)

flip : {s1 s2 : ℕ} → Offset s1 s2 → Offset s2 s1
flip one_byte = three_bytes
flip two_bytes = two_bytes
flip three_bytes = one_byte

module _ (m : Bank) (w : IsMemory m) where
  read_words-Word : (n addr : ℕ) (d : m.Store) → All Word (read_words m addr n d)
  unfolding read_words
  read_words-Word zero addr d = tt
  read_words-Word (suc n) addr d = (w.read_below addr d, read_words-Word n (next_word addr) d)

  cut_words-Word :
      {s1 s2 : ℕ}
      → Offset s1 s2
      → (n addr : ℕ) (d : m.Store) → All Word (cut_words m s1 s2 addr n d)
  unfolding read_words join
  cut_words-Word o zero addr d = tt
  cut_words-Word o (suc n) addr d = (
    stored_below (flip o) _ _ (start_below (flip o) _ (w.read_below (next_word addr) d)),
    cut_words-Word o n (next_word addr) d,
  )

  pub read_in-Word : (n addr : ℕ) (d : m.Store) → All Word (read_in m addr n d)
  read_in-Word n addr d =
      by_offset m (All Word) addr n d (read_words-Word n addr d)
        (λ o. cut_words-Word o n (addr - addr % 4) d)

  -- A write and a read of its first words.
  pub read_in-prefix :
      (addr x : ℕ) (xs ys : List ℕ) (d : m.Store)
      → All Word (x ∷ xs ++ ys)
      → addr + 4 * length (x ∷ xs ++ ys) + 4 < 2 ^ 32
      → length xs ≤ length (xs ++ ys)
      → read_in m addr (length (x ∷ xs)) (write_out m addr (x ∷ xs ++ ys) d) ≡ x ∷ xs
  read_in-prefix addr x xs ys d k b h =
      take-read_in m (length (x ∷ xs)) (length (x ∷ xs ++ ys)) addr _ (omega arith)
      ∙ ap (take (length (x ∷ xs))) (read_in-write_out m w addr x (xs ++ ys) d k b)
      ∙ take-append (x ∷ xs) ys
