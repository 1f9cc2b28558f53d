-- ===== src/Npr/Packets/Memory/Stores.antt =====
-- ixp/npr/nprd_ipv4.cc, read_in and write_out: what the words written last and before them leave.
use onldaemons.Prelude.{ℕ, suc, ◌+◌, ◌-◌, ◌*◌, ◌%◌, ◌^◌, ◌<◌, ◌≤◌, ◌≡◌, refl, sym, ap, ◌∙◌}
use onldaemons.Prelude.{
  List, [], ◌∷◌, All, length, ◌⊎◌, inl, true, false, if◌then◌else◌, ◌==◌, arith,
}
use onldaemons.Npr.Packets.Checksum.{Word}
use onldaemons.Npr.Packets.Memory.{
  Bank, IsMemory, next_word, join, split_all, read_words, write_words, read_in, write_out,
}
use onldaemons.Npr.Packets.Memory.Offsets.{Offset, join-split_all, length-split, split_all-Word}

module _ (m : Bank) (w : IsMemory m) where
  -- A write leaves the words below its address and those behind it.
  pub write_words-elsewhere :
      (a b : ℕ) (vs : List ℕ) (d : m.Store)
      → b + 4 * length vs < 2 ^ 32
      → (a < b) ⊎ (b + 4 * length vs ≤ a)
      → m.read_word a (write_words m b vs d) ≡ m.read_word a d
  unfolding write_words
  write_words-elsewhere a b [] d h k = refl
  write_words-elsewhere a b (v ∷ vs) d h k =
      let next : next_word b ≡ b + 4 = omega arith in
      write_words-elsewhere a (next_word b) vs (m.write_word b v d) (omega arith) (ground arith)
      ∙ w.read_other a b v d (λ e. ground arith)

  pub read_words-write_words :
      (b : ℕ) (vs : List ℕ) (d : m.Store)
      → All Word vs
      → b + 4 * length vs < 2 ^ 32
      → read_words m b (length vs) (write_words m b vs d) ≡ vs
  unfolding read_words write_words
  read_words-write_words b [] d k h = refl
  read_words-write_words b (v ∷ vs) d k h =
      let next : next_word b ≡ b + 4 = omega arith in
      let first : m.read_word b (write_words m (next_word b) vs (m.write_word b v d)) ≡ v =
        write_words-elsewhere b (next_word b) vs (m.write_word b v d) (omega arith)
          (inl (omega arith))
        ∙ w.read_written b v d k.0 in
      ap
        (λ x.
          x
          ∷ read_words m (next_word b) (length vs)
              (write_words m (next_word b) vs (m.write_word b v d)))
        first
      ∙ ap (◌∷◌ v) (read_words-write_words (next_word b) vs (m.write_word b v d) k.1 (omega arith))

  -- The words that an unaligned write stores.
  abbrev pub stored_words : (addr : ℕ) → List ℕ → m.Store → List ℕ
  stored_words addr ws d =
      split_all (addr % 4 * 8) (32 - addr % 4 * 8) (m.read_word (addr - addr % 4) d)
        (m.read_word ((addr - addr % 4 + length ws * 4) % 2 ^ 32) d) ws

  pub write_out_aligned :
      (addr : ℕ) (ws : List ℕ) (d : m.Store)
      → (addr % 4 == 0) ≡ true
      → write_out m addr ws d ≡ write_words m addr ws d
  unfolding write_out
  write_out_aligned addr ws d h =
      ap
        (λ b.
          if b
          then write_words m addr ws d
          else write_words m (addr - addr % 4) (stored_words addr ws d) d)
        h

  pub write_out_unaligned :
      (addr : ℕ) (ws : List ℕ) (d : m.Store)
      → (addr % 4 == 0) ≡ false
      → write_out m addr ws d ≡ write_words m (addr - addr % 4) (stored_words addr ws d) d
  unfolding write_out
  write_out_unaligned addr ws d h =
      ap
        (λ b.
          if b
          then write_words m addr ws d
          else write_words m (addr - addr % 4) (stored_words addr ws d) d)
        h

  pub unaligned :
      (addr x : ℕ) (xs : List ℕ) (d : m.Store)
      → (addr % 4 == 0) ≡ false
      → Offset (addr % 4 * 8) (32 - addr % 4 * 8)
      → All Word (x ∷ xs)
      → addr + 4 * length (x ∷ xs) + 4 < 2 ^ 32
      → read_in m addr (length (x ∷ xs)) (write_out m addr (x ∷ xs) d) ≡ x ∷ xs
  unfolding read_in split_all
  unaligned addr x xs d h o k b =
      let s1 = addr % 4 * 8 in
      let s2 = 32 - addr % 4 * 8 in
      let al = addr - addr % 4 in
      let vs = stored_words addr (x ∷ xs) d in
      let n : suc (length (x ∷ xs)) ≡ length vs =
        ap (λ n. suc n) (sym (length-split s1 s2 _ (x ∷ xs))) in
      ap
        (λ b.
          if b
          then read_words m addr (length (x ∷ xs)) (write_out m addr (x ∷ xs) d)
          else join s1 s2 (read_words m al (suc (length (x ∷ xs))) (write_out m addr (x ∷ xs) d)))
        h
      ∙ ap (λ e. join s1 s2 (read_words m al (suc (length (x ∷ xs))) e))
          (write_out_unaligned addr (x ∷ xs) d h)
      ∙ ap (λ n. join s1 s2 (read_words m al n (write_words m al vs d))) n
      ∙ ap (join s1 s2) (
          read_words-write_words al vs d (split_all-Word o _ _ (x ∷ xs) (w.read_below al d) k)
            (omega arith))
      ∙ join-split_all o _ _ (x ∷ xs) k
