-- ===== src/Npr/Packets/Errors/Stored.antt =====
-- ixp/npr/nprd_ipv4.cc, send_ttl_expired and send_no_route: the words that they leave in memory.
use onldaemons.Prelude.{ℕ, ◌+◌, ◌-◌, ◌*◌, ◌%◌, ◌^◌, ◌<◌, ◌≤◌, ◌≡◌, ◌≢◌, refl, sym, subst, ap, ◌∙◌}
use onldaemons.Prelude.{List, [], ◌∷◌, ◌++◌, All, length, length-append, get_or, ltb, arith}
use onldaemons.Npr.Packets.Checksum.{Word, compute_partial_cksm}
use onldaemons.Npr.Packets.Memory.{Bank, IsMemory, read_in, write_out}
use onldaemons.Npr.Packets.Memory.Prefix.{read_in-Word, read_in-prefix, length-read_in}
use onldaemons.Npr.Packets.Errors.{
  PlcData, Plane, ip_words, icmp_words, error_ip, error_icmp, packet_addr, write_packet, icmp_error,
}
use onldaemons.Npr.Packets.Errors.Checksums.{valid, error_ip-valid, error_body-Word}
use onldaemons.Npr.Packets.Errors.Packet.{write_packet_lem, header_stays}
use onldaemons.Npr.Packets.Errors.Answers.{
  orig_hdr, num_opt_words, ip_options, orig_data, my_addr, new_header, new_body, error_dram,
  get_or-Word, options_below, port_below, if-All, length-if,
}

pub All-left : (xs ys : List ℕ) → All Word (xs ++ ys) → All Word xs
All-left [] ys h = tt
All-left (x ∷ xs) ys h = (h.0, All-left xs ys h.1)

pub All-right : (xs ys : List ℕ) → All Word (xs ++ ys) → All Word ys
All-right [] ys h = h
All-right (x ∷ xs) ys h = All-right xs ys h.1

module _ (m : Bank) (w : IsMemory m) (port_addrs : ℕ → ℕ) (pb : (i : ℕ) → port_addrs i < 2 ^ 32)
    (msg : PlcData) (p : Plane m) where
  pub hdr-Word : All Word (orig_hdr m msg p)
  hdr-Word = read_in-Word m w 5 (packet_addr m msg p) p.dram

  pub opts-Word : All Word (ip_options m msg p)
  opts-Word = if-All (ltb 0 (num_opt_words m msg p)) _ (read_in-Word m w _ _ p.dram)

  pub data-Word : (k : ℕ) → All Word (orig_data m msg p k)
  data-Word k = read_in-Word m w k _ p.dram

  opts_length : length (ip_options m msg p) ≡ num_opt_words m msg p
  opts_length =
      length-if (num_opt_words m msg p) _ (length-read_in m (num_opt_words m msg p) _ p.dram)

  pub header :
      (f : ℕ)
      → f < 2 ^ 3
      → All Word (new_header m msg p port_addrs f)
        × (compute_partial_cksm 0 (new_header m msg p port_addrs f) ≡ valid)
  header f h =
      let small = options_below (orig_hdr m msg p) in
      error_ip-valid f (num_opt_words m msg p) _ _ h (omega arith)
        (port_below port_addrs msg.in_port pb) (get_or-Word (orig_hdr m msg p) 3 hdr-Word)

  pub body-Word : (t k : ℕ) → t < 2 ^ 8 → All Word (new_body m msg p port_addrs t k)
  body-Word t k h =
      error_body-Word t (orig_hdr m msg p) (ip_options m msg p) (orig_data m msg p k) h hdr-Word
        opts-Word (data-Word k)

  pub body_length :
      (t k : ℕ) → length (new_body m msg p port_addrs t k) ≡ 7 + num_opt_words m msg p + k
  unfolding icmp_words
  body_length t k =
      let hdr = orig_hdr m msg p in
      let opts = ip_options m msg p in
      let words = orig_data m msg p k in
      omega (
        arith,
        length-append hdr (opts ++ words),
        length-append opts words,
        opts_length,
        length-read_in m 5 (packet_addr m msg p) p.dram,
        length-read_in m k ((packet_addr m msg p + 20 + num_opt_words m msg p * 4) % 2 ^ 32) p.dram,
      )

  module _ (fb : ℕ) (other : get_or (orig_hdr m msg p) 3 0 ≢ my_addr m msg p port_addrs)
      (z : 0 < fb) (b : fb < 2 ^ 24 - 2) where
    abbrev pub start : ℕ
    start = fb * 2 ^ 8 + 398

    pub stored :
        (k f t : ℕ)
        → 0 < k
        → k ≤ 8
        → (icmp_error m port_addrs k f t msg fb p).dram
          ≡ write_out m
              (start + 20)
              (new_body m msg p port_addrs t k)
              (write_out m start (new_header m msg p port_addrs f) p.dram)
    unfolding icmp_words ip_words
    stored k f t h i =
        let small = options_below (orig_hdr m msg p) in
        let here : start % 2 ^ 32 ≡ start = omega arith in
        error_dram m msg p port_addrs k f t fb other z b
        ∙ ap
            (λ a.
              write_packet m a (new_header m msg p port_addrs f)
                (icmp_words
                  (error_icmp t (orig_hdr m msg p) (ip_options m msg p) (orig_data m msg p k)))
                (orig_hdr m msg p) (ip_options m msg p) (orig_data m msg p k) p.dram)
            here
        ∙ write_packet_lem m w start (new_header m msg p port_addrs f) _ (orig_hdr m msg p)
            (ip_options m msg p) (orig_data m msg p k) p.dram refl refl
            (length-read_in m 5 _ p.dram)
            (omega (
              arith,
              length-read_in m k ((packet_addr m msg p + 20 + num_opt_words m msg p * 4) % 2 ^ 32)
                  p.dram,
            ))
            (omega (
              arith,
              opts_length,
              length-read_in m k ((packet_addr m msg p + 20 + num_opt_words m msg p * 4) % 2 ^ 32)
                  p.dram,
            ))

    -- The header's words, its checksum and its length.
    pub header_stored :
        (k f t : ℕ)
        → 0 < k
        → k ≤ 8
        → f < 2 ^ 3
        → t < 2 ^ 8
        → read_in m start 5 (icmp_error m port_addrs k f t msg fb p).dram
          ≡ new_header m msg p port_addrs f
    unfolding ip_words
    header_stored k f t h i u v =
        let small = options_below (orig_hdr m msg p) in
        ap (read_in m start 5) (stored k f t h i)
        ∙ header_stays m w start (new_header m msg p port_addrs f) (new_body m msg p port_addrs t k)
            p.dram refl (omega (arith, body_length t k)) (header f u).0 (body-Word t k v)
            (omega (arith, body_length t k))

    pub length_field :
        (f : ℕ)
        → get_or (new_header m msg p port_addrs f) 0 0 % 2 ^ 16
          ≡ 20 + 4 * (9 + num_opt_words m msg p)
    unfolding ip_words error_ip
    length_field f = let small = options_below (orig_hdr m msg p) in omega arith

    -- The words behind the header that ip_len counts, of a message whose first words they are.
    pub message_stored :
        (k f t : ℕ) (ws ys : List ℕ)
        → 0 < k
        → k ≤ 8
        → t < 2 ^ 8
        → ws ++ ys ≡ new_body m msg p port_addrs t k
        → length ws ≡ 9 + num_opt_words m msg p
        → read_in m
            (start + 20)
            (9 + num_opt_words m msg p)
            (icmp_error m port_addrs k f t msg fb p).dram
          ≡ ws
    message_stored k f t [] ys h i v e n = absurd (omega arith)
    message_stored k f t (x ∷ xs) ys h i v e n =
        let small = options_below (orig_hdr m msg p) in
        let len = ap length e ∙ body_length t k in
        let before = write_out m start (new_header m msg p port_addrs f) p.dram in
        ap (read_in m (start + 20) (9 + num_opt_words m msg p))
          (stored k f t h i ∙ ap (λ ws. write_out m (start + 20) ws before) (sym e))
        ∙ ap (λ c. read_in m (start + 20) c (write_out m (start + 20) (x ∷ xs ++ ys) before))
            (sym n)
        ∙ read_in-prefix m w (start + 20) x xs ys before
            (subst (All Word) (sym e) (body-Word t k v)) (omega arith)
            (omega (arith, length-append xs ys))
