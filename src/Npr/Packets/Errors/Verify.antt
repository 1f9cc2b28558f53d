-- ===== src/Npr/Packets/Errors/Verify.antt =====
-- ixp/npr/nprd_ipv4.cc, send_ttl_expired and send_no_route: whether a receiver accepts the packet.
use onldaemons.Prelude.{ℕ, ◌+◌, ◌-◌, ◌*◌, ◌%◌, ◌^◌, ◌<◌, ◌≡◌, ◌≢◌, ◌↔◌, sym, subst, ap, ◌∙◌}
use onldaemons.Prelude.{
  [], ◌++◌, All, length, length-append, append_assoc, append-nil, take, drop, take-drop,
  length-drop, get_or, arith,
}
use onldaemons.Npr.Packets.Checksum.{Word, compute_partial_cksm, halves_sum}
use onldaemons.Npr.Packets.Memory.{Bank, IsMemory, read_in}
use onldaemons.Npr.Packets.Memory.Prefix.{length-read_in}
use onldaemons.Npr.Packets.Errors.{
  PlcData, Plane, icmp_words, error_icmp, get_port_addr, packet_addr, send_ttl_expired,
  send_no_route,
}
use onldaemons.Npr.Packets.Errors.Checksums.{valid, error_body-valid, error_cut}
use onldaemons.Npr.Packets.Errors.Answers.{orig_hdr, num_opt_words, ip_options, orig_data, new_body}
use onldaemons.Npr.Packets.Errors.Stored.{
  All-left, All-right, hdr-Word, opts-Word, data-Word, header, body_length, header_stored,
  length_field, message_stored,
}

-- send_ttl_expired, when the packet is not from the router's own address and the free list has a
-- buffer (with room behind it in 32 bits): the new packet's header has a checksum that holds, its
-- ip_len is 20 bytes and those of the ICMP message, and the checksum of that message holds.
pub send_ttl_expired-valid :
    (m : Bank)
    → IsMemory m
    → (port_addrs : ℕ → ℕ) → ((i : ℕ) → port_addrs i < 2 ^ 32)
    → (msg : PlcData) → (p : Plane m) (fb : ℕ)
    → get_or (orig_hdr m msg p) 3 0 ≢ get_port_addr port_addrs msg.in_port
    → 0 < fb
    → fb < 2 ^ 24 - 2
    → let n = num_opt_words m msg p in
      let d = (send_ttl_expired m port_addrs msg fb p).dram in
      let header = read_in m (fb * 2 ^ 8 + 398) 5 d in
      (compute_partial_cksm 0 header ≡ valid)
      × ((get_or header 0 0 % 2 ^ 16 ≡ 20 + 4 * (9 + n))
          × (compute_partial_cksm 0 (read_in m (fb * 2 ^ 8 + 398 + 20) (9 + n) d) ≡ valid))
unfolding send_ttl_expired
send_ttl_expired-valid m w port_addrs pb msg p fb other z b =
    let kept =
      header_stored m w port_addrs pb msg p fb other z b 2 2 11 (omega arith) (omega arith)
        (omega arith) (omega arith) in
    let body = new_body m msg p port_addrs 11 2 in
    (
      ap (compute_partial_cksm 0) kept ∙ (header m w port_addrs pb msg p 2 (omega arith)).1,
      (
        ap (λ ws. get_or ws 0 0 % 2 ^ 16) kept
            ∙ length_field m w port_addrs pb msg p fb other z b 2,
        ap (compute_partial_cksm 0) (
              message_stored m w port_addrs pb msg p fb other z b 2 2 11 body [] (omega arith)
                (omega arith) (omega arith) (append-nil body)
                (body_length m w port_addrs pb msg p 11 2 ∙ omega arith))
            ∙ error_body-valid 11 (orig_hdr m msg p) (ip_options m msg p) (orig_data m msg p 2)
                (omega arith) (hdr-Word m w port_addrs pb msg p) (opts-Word m w port_addrs pb msg p)
                (data-Word m w port_addrs pb msg p 2),
      ),
    )

-- send_no_route, under the same conditions: the new packet's header has a checksum that holds, and
-- its ip_len is 20 bytes and those of the ICMP message up to two words of data. The checksum of that
-- message holds if and only if the six words of data behind them, which it counts as well, sum up to
-- a multiple of 2 ^ 16 - 1.
pub send_no_route-valid_iff :
    (m : Bank)
    → IsMemory m
    → (port_addrs : ℕ → ℕ) → ((i : ℕ) → port_addrs i < 2 ^ 32)
    → (msg : PlcData) → (p : Plane m) (fb : ℕ)
    → get_or (orig_hdr m msg p) 3 0 ≢ get_port_addr port_addrs msg.in_port
    → 0 < fb
    → fb < 2 ^ 24 - 2
    → let n = num_opt_words m msg p in
      let d = (send_no_route m port_addrs msg fb p).dram in
      let header = read_in m (fb * 2 ^ 8 + 398) 5 d in
      (compute_partial_cksm 0 header ≡ valid)
      × ((get_or header 0 0 % 2 ^ 16 ≡ 20 + 4 * (9 + n))
          × ((compute_partial_cksm 0 (read_in m (fb * 2 ^ 8 + 398 + 20) (9 + n) d) ≡ valid)
              ↔ (halves_sum (drop 2 (orig_data m msg p 8)) % valid ≡ 0)))
unfolding send_no_route icmp_words
send_no_route-valid_iff m w port_addrs pb msg p fb other z b =
    let kept =
      header_stored m w port_addrs pb msg p fb other z b 8 0 3 (omega arith) (omega arith)
        (omega arith) (omega arith) in
    let hdr = orig_hdr m msg p in
    let opts = ip_options m msg p in
    let all = orig_data m msg p 8 in
    let whole = take-drop 2 all in
    let icmp = icmp_words (error_icmp 3 hdr opts all) in
    let first = icmp ++ (hdr ++ (opts ++ take 2 all)) in
    let body : first ++ drop 2 all ≡ new_body m msg p port_addrs 3 8 =
      append_assoc icmp (hdr ++ (opts ++ take 2 all)) (drop 2 all)
      ∙ ap (λ ws. icmp ++ ws)
          (append_assoc hdr (opts ++ take 2 all) (drop 2 all)
            ∙ ap (λ ws. hdr ++ ws)
                (append_assoc opts (take 2 all) (drop 2 all) ∙ ap (λ ws. opts ++ ws) whole)) in
    let size : length first ≡ 9 + num_opt_words m msg p = omega (
      arith,
      body_length m w port_addrs pb msg p 3 8,
      ap length body,
      length-append first (drop 2 all),
      length-drop 2 all,
      length-read_in m 8 ((packet_addr m msg p + 20 + num_opt_words m msg p * 4) % 2 ^ 32) p.dram,
    ) in
    let words = subst (All Word) (sym whole) (data-Word m w port_addrs pb msg p 8) in
    let cut =
      error_cut 3 hdr opts (take 2 all) (drop 2 all) (omega arith) (omega arith)
        (hdr-Word m w port_addrs pb msg p) (opts-Word m w port_addrs pb msg p)
        (All-left (take 2 all) (drop 2 all) words) (All-right (take 2 all) (drop 2 all) words) in
    (
      ap (compute_partial_cksm 0) kept ∙ (header m w port_addrs pb msg p 0 (omega arith)).1,
      (
        ap (λ ws. get_or ws 0 0 % 2 ^ 16) kept
            ∙ length_field m w port_addrs pb msg p fb other z b 0,
        subst (λ ws. (compute_partial_cksm 0 ws ≡ valid) ↔ (halves_sum (drop 2 all) % valid ≡ 0))
            (sym (
              message_stored m w port_addrs pb msg p fb other z b 8 0 3 first (drop 2 all)
                (omega arith) (omega arith) (omega arith) body size))
            (subst
              (λ ws.
                (compute_partial_cksm 0
                    (icmp_words (error_icmp 3 hdr opts ws) ++ (hdr ++ (opts ++ take 2 all)))
                  ≡ valid)
                ↔ (halves_sum (drop 2 all) % valid ≡ 0))
              whole cut),
      ),
    )
