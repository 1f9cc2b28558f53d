-- ===== src/Npr/Packets/Echo/Words.antt =====
-- ixp/npr/nprd_ipv4.cc, handle_local_delivery: the loop over the whole words of the message.
use onldaemons.Prelude.{
  ℕ, zero, suc, ◌+◌, ◌*◌, ◌^◌, ◌<◌, ◌≤◌, ◌≡◌, refl, sym, ap, ◌∙◌, true, false, leb, le→leb, arith,
}
use onldaemons.Npr.Packets.Checksum.{compute_partial_cksm, compute_partial_cksm-append}
use onldaemons.Npr.Packets.Memory.{Bank, read_in, next_word}
use onldaemons.Npr.Packets.Memory.Prefix.{read_in-suc, take-read_in}
use onldaemons.Npr.Packets.Echo.{add_words}

triple : {a a' b b' c c' : ℕ} → a ≡ a' → b ≡ b' → c ≡ c' → Path (ℕ × ℕ × ℕ) (a, b, c) (a', b', c')
triple p q r = λ i. (p i, q i, r i)

module _ (m : Bank) where
  stops : (fuel last j a c : ℕ) (d : m.Store) → last < j → add_words m fuel last j a c d ≡ (j, a, c)
  unfolding add_words
  stops zero last j a c d h = refl
  stops (suc fuel) last j a c d h =
      let out : leb j last ≡ false = ground arith in
      ap
        (λ b. elim b [
          | true ↦
              add_words m fuel last (next_word j) (next_word a)
                (compute_partial_cksm c (read_in m a 1 d)) d
          | false ↦ (j, a, c)
        ])
        out

  goes_on :
      (fuel last j a c : ℕ) (d : m.Store)
      → j ≤ last
      → add_words m (suc fuel) last j a c d
        ≡ add_words m fuel last
            (next_word j)
            (next_word a)
            (compute_partial_cksm c (read_in m a 1 d))
            d
  unfolding add_words
  goes_on fuel last j a c d h =
      ap
        (λ b. elim b [
          | true ↦
              add_words m fuel last (next_word j) (next_word a)
                (compute_partial_cksm c (read_in m a 1 d)) d
          | false ↦ (j, a, c)
        ])
        (le→leb j last h)

  -- k words and less than one more, of which the last address is not taken up.
  pub add_words_lem :
      (k fuel r j a c last : ℕ) (d : m.Store)
      → k ≤ fuel
      → r < 4
      → last + 4 ≡ j + 4 * k + r
      → j + 4 * k + 4 < 2 ^ 32
      → a + 4 * k + 4 < 2 ^ 32
      → add_words m fuel last j a c d
        ≡ (j + 4 * k, a + 4 * k, compute_partial_cksm c (read_in m a k d))
  unfolding compute_partial_cksm
  add_words_lem zero fuel r j a c last d f h e b b' =
      stops fuel last j a c d (omega arith)
      ∙ triple (omega arith) (omega arith)
          (ap (compute_partial_cksm c) (sym (take-read_in m 0 0 a d (omega arith))))
  add_words_lem (suc k) zero r j a c last d f h e b b' = absurd (omega arith)
  add_words_lem (suc k) (suc fuel) r j a c last d f h e b b' =
      let step : next_word j ≡ j + 4 = omega arith in
      let move : next_word a ≡ a + 4 = omega arith in
      let rest = compute_partial_cksm c (read_in m a 1 d) in
      goes_on fuel last j a c d (omega arith)
      ∙ ap (λ j. add_words m fuel last j (next_word a) rest d) step
      ∙ ap (λ a. add_words m fuel last (j + 4) a rest d) move
      ∙ add_words_lem k fuel r (j + 4) (a + 4) rest last d (omega arith) h (omega arith)
          (omega arith) (omega arith)
      ∙ triple (omega arith) (omega arith) (
          sym (compute_partial_cksm-append (read_in m a 1 d) c (read_in m (a + 4) k d))
          ∙ ap (compute_partial_cksm c) (sym (read_in-suc m k a d (omega arith))))
