-- ===== src/Npr/Packets/Echo/Valid.antt =====
-- ixp/npr/nprd_ipv4.cc, handle_local_delivery: whether the checksums of an echo reply hold.
use onldaemons.Prelude.{
  ℕ, ◌+◌, ◌-◌, ◌*◌, ◌/◌, ◌%◌, ◌^◌, ◌<◌, ◌≡◌, ◌↔◌, sym, subst, ap, ◌∙◌, List, [], ◌∷◌, ◌++◌,
  append-nil, All, false, ◌==◌, ==_refl, if◌then◌else◌, get_or, arith,
}
use onldaemons.Npr.Packets.Checksum.{
  Word, compute_cksm, compute_partial_cksm, halves_sum, ones_complement,
  compute_partial_cksm-append, compute_partial_cksm-halves_sum, halves_sum-append,
  ones_complement-filled,
}
use onldaemons.Npr.Packets.Memory.{Bank, IsMemory, read_in}
use onldaemons.Npr.Packets.Memory.Prefix.{read_in-Word}
use onldaemons.Npr.Packets.Errors.Checksums.{valid, header-valid, ones_below, All-append}
use onldaemons.Npr.Packets.Errors.Answers.{get_or-Word}
use onldaemons.Npr.Packets.Echo.{
  add_field, echo_bare, echo_ip, echo_word, add_tail, add_words, finish_sum, echo_sum, echo_icmp,
}
use onldaemons.Npr.Packets.Echo.Words.{add_words_lem}

pub echo_ip-valid : (hdr : List ℕ) → All Word hdr → compute_partial_cksm 0 (echo_ip hdr) ≡ valid
unfolding echo_ip echo_bare
echo_ip-valid hdr h =
    let w0 = get_or hdr 0 0 in
    let w2 = get_or hdr 2 0 in
    let third = 64 * 2 ^ 24 + w2 / 2 ^ 16 % 2 ^ 8 * 2 ^ 16 in
    let bare : third + 0 ≡ third = omega arith in
    (header-valid w0 (get_or hdr 1 0) third (get_or hdr 4 0) (get_or hdr 3 0) _
      (
        get_or-Word hdr 0 h,
        (get_or-Word hdr 1 h, ((omega arith), (get_or-Word hdr 4 h, (get_or-Word hdr 3 h, tt)))),
      )
      (omega arith)
      (ap
        (λ t.
          compute_cksm (w0 ∷ get_or hdr 1 0 ∷ t ∷ get_or hdr 4 0 ∷ get_or hdr 3 0 ∷ []) % 2 ^ 16)
        bare)).1

two_left :
    (n h : ℕ)
    → h < 2 ^ 16
    → (ones_complement (n + (2 ^ 16 - 1 - add_field (ones_complement n) h) % 2 ^ 16 + h) ≡ valid)
      ↔ (ones_complement n + h < 2 ^ 16)
unfolding add_field ones_complement
two_left n h b = ground arith

module _ (m : Bank) (w : IsMemory m) (a k w0 w1 : ℕ) (d : m.Store) (low : w0 < 2 ^ 32)
    (high : w1 < 2 ^ 32) (b : 28 + 4 * k + 4 < 2 ^ 16) (b' : a + 4 * k + 4 < 2 ^ 32) where
  -- The sum of all whole words.
  abbrev pub whole : ℕ
  whole = compute_partial_cksm 0 (echo_word w0 0 ∷ w1 ∷ read_in m a k d)

  looped :
      (r : ℕ)
      → r < 4
      → add_words m
          (2 ^ 30)
          ((28 + 4 * k + r + 2 ^ 32 - 4) % 2 ^ 32)
          28
          a
          (compute_partial_cksm 0 (echo_word w0 0 ∷ w1 ∷ []))
          d
        ≡ (28 + 4 * k, a + 4 * k, whole)
  looped r h =
      add_words_lem m k (2 ^ 30) r 28 a _ _ d (omega arith) h (omega arith) (omega arith) b'
      ∙ ap (λ c. (28 + 4 * k, a + 4 * k, c))
          (sym (compute_partial_cksm-append (echo_word w0 0 ∷ w1 ∷ []) 0 (read_in m a k d)))

  pub echo_sum-whole : echo_sum m (28 + 4 * k) a w0 w1 d ≡ whole
  unfolding echo_sum finish_sum
  echo_sum-whole =
      let c = compute_partial_cksm 0 (echo_word w0 0 ∷ w1 ∷ []) in
      let none_left : 28 + 4 * k ≡ 28 + 4 * k + 0 = omega arith in
      ap
        (λ n.
          finish_sum m (28 + 4 * k) (add_words m (2 ^ 30) ((n + 2 ^ 32 - 4) % 2 ^ 32) 28 a c d) d)
        none_left
      ∙ ap (λ t. finish_sum m (28 + 4 * k) t d) (looped 0 (omega arith))
      ∙ ap
          (λ b.
            if b
            then whole
            else add_tail (28 + 4 * k - (28 + 4 * k)) (get_or (read_in m (a + 4 * k) 1 d) 0 0)
                whole)
          (==_refl (28 + 4 * k))

  pub echo_sum-left :
      (r : ℕ)
      → 0 < r
      → r < 4
      → echo_sum m (28 + 4 * k + r) a w0 w1 d
        ≡ add_tail r (get_or (read_in m (a + 4 * k) 1 d) 0 0) whole
  unfolding echo_sum finish_sum
  echo_sum-left r z h =
      let j = 28 + 4 * k in
      let val = get_or (read_in m (a + 4 * k) 1 d) 0 0 in
      let more : (j == j + r) ≡ false = ground arith in
      let left : j + r - j ≡ r = omega arith in
      ap (λ t. finish_sum m (j + r) t d) (looped r h)
      ∙ ap (λ b. if b then whole else add_tail (j + r - j) val whole) more
      ∙ ap (λ n. add_tail n val whole) left

  sum : ℕ
  sum = halves_sum (echo_word w0 0 ∷ w1 ∷ read_in m a k d)

  whole-sum : whole ≡ ones_complement sum
  unfolding sum echo_word
  whole-sum =
      compute_partial_cksm-halves_sum (echo_word w0 0 ∷ w1 ∷ read_in m a k d)
        ((omega arith), (high, read_in-Word m w k a d))

  -- The checksum of the message with the field c, and the tail `ts` behind the whole words.
  filled :
      (c : ℕ) (ts : List ℕ)
      → c < 2 ^ 16
      → All Word ts
      → compute_partial_cksm 0 (echo_word w0 c ∷ w1 ∷ (read_in m a k d ++ ts))
        ≡ ones_complement (sum + c + halves_sum ts)
  unfolding sum echo_word halves_sum
  filled c ts h t =
      compute_partial_cksm-halves_sum (echo_word w0 c ∷ w1 ∷ (read_in m a k d ++ ts))
        ((omega arith), (high, All-append (read_in m a k d) ts (read_in-Word m w k a d) t))
      ∙ ap ones_complement (omega (arith, halves_sum-append (read_in m a k d) ts))

  pub whole-valid :
      compute_partial_cksm 0 (echo_icmp m (28 + 4 * k) a (w0 ∷ w1 ∷ []) d ++ read_in m a k d)
      ≡ valid
  unfolding echo_icmp halves_sum
  whole-valid =
      let field = (2 ^ 16 - 1 - ones_complement sum) % 2 ^ 16 in
      let small = ones_below sum in
      ap
        (λ s.
          compute_partial_cksm 0 (echo_word w0 ((2 ^ 16 - 1 - s) % 2 ^ 16) ∷ w1 ∷ read_in m a k d))
        (echo_sum-whole ∙ whole-sum)
      ∙ ap (λ ws. compute_partial_cksm 0 (echo_word w0 field ∷ w1 ∷ ws))
          (sym (append-nil (read_in m a k d)))
      ∙ filled field [] (omega arith) tt
      ∙ ap ones_complement (omega arith)
      ∙ ones_complement-filled sum

  -- The word at the end of the whole ones, of which two bytes belong to the message.
  abbrev pub half : ℕ
  half = get_or (read_in m (a + 4 * k) 1 d) 0 0 / 2 ^ 16

  pub left-valid_iff :
      (compute_partial_cksm 0 (
          echo_icmp m (28 + 4 * k + 2) a (w0 ∷ w1 ∷ []) d
          ++ (read_in m a k d ++ (half * 2 ^ 16 ∷ [])))
        ≡ valid)
      ↔ (whole + half < 2 ^ 16)
  unfolding echo_icmp halves_sum add_tail
  left-valid_iff =
      let field = (2 ^ 16 - 1 - add_field (ones_complement sum) half) % 2 ^ 16 in
      let small = get_or-Word (read_in m (a + 4 * k) 1 d) 0 (read_in-Word m w 1 (a + 4 * k) d) in
      let last : sum + field + halves_sum (half * 2 ^ 16 ∷ []) ≡ sum + field + half = omega arith in
      let value =
        ap
          (λ s. compute_partial_cksm 0 (
            echo_word w0 ((2 ^ 16 - 1 - s) % 2 ^ 16)
            ∷ w1
            ∷ (read_in m a k d ++ (half * 2 ^ 16 ∷ []))))
          (echo_sum-left 2 (omega arith) (omega arith) ∙ ap (λ s. add_field s half) whole-sum)
        ∙ filled field (half * 2 ^ 16 ∷ []) (omega arith) ((omega arith), tt)
        ∙ ap ones_complement last in
      subst (λ v. (v ≡ valid) ↔ (whole + half < 2 ^ 16)) (sym value)
        (subst (λ s. (ones_complement (sum + field + half) ≡ valid) ↔ (s + half < 2 ^ 16))
          (sym whole-sum) (two_left sum half (omega arith)))
