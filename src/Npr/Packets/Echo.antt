-- ===== src/Npr/Packets/Echo.antt =====
-- ixp/npr/nprd_ipv4.cc, handle_local_delivery: the reply to an ICMP echo request, in its own buffer.
pub mod Words
pub mod Valid
pub mod Reply
pub mod Examples
use onldaemons.Prelude.{
  ℕ, zero, suc, ◌+◌, ◌-◌, ◌*◌, ◌/◌, ◌%◌, ◌^◌, List, [], ◌∷◌, ◌++◌, Bool, true, false, ◌==◌, leb,
  if◌then◌else◌, get_or, take, drop,
}
use onldaemons.Npr.Packets.Checksum.{compute_cksm, compute_partial_cksm}
use onldaemons.Npr.Packets.Memory.{Bank, read_in, write_out, next_word}
use onldaemons.Npr.Packets.Errors.{PlcData, MuxData, Sent, Plane, packet_addr, drop_packet}

-- A sum in icmp_cksm, a field of 16 bits, and the carry that is taken from that field.
unfoldable pub add_field : (icmp_cksm value : ℕ) → ℕ
add_field icmp_cksm value =
    let icmp_cksm = (icmp_cksm + value) % 2 ^ 16 in
    let carry = icmp_cksm / 2 ^ 16 in (icmp_cksm % 2 ^ 16 + carry) % 2 ^ 16

-- The header with its new ip_ttl, and its two addresses in the other order.
unfoldable pub echo_bare : (w0 w1 w2 w3 w4 cksm : ℕ) → List ℕ
echo_bare w0 w1 w2 w3 w4 cksm =
    w0 ∷ w1 ∷ (64 * 2 ^ 24 + w2 / 2 ^ 16 % 2 ^ 8 * 2 ^ 16 + cksm) ∷ w4 ∷ w3 ∷ []

unfoldable pub echo_ip : (hdr : List ℕ) → List ℕ
echo_ip hdr =
    let filled =
      echo_bare (get_or hdr 0 0) (get_or hdr 1 0) (get_or hdr 2 0) (get_or hdr 3 0)
        (get_or hdr 4 0) in
    filled (compute_cksm (filled 0) % 2 ^ 16)

-- The first word of the ICMP header with icmp_type 0.
unfoldable pub echo_word : (w0 icmp_cksm : ℕ) → ℕ
echo_word w0 icmp_cksm = w0 / 2 ^ 16 % 2 ^ 8 * 2 ^ 16 + icmp_cksm

-- The one, two or three bytes behind the last whole word. The code has j and ip_len.
unfoldable pub add_tail : (left val icmp_cksm : ℕ) → ℕ
add_tail left val icmp_cksm =
    if left == 1
    then add_field icmp_cksm (val / 2 ^ 24 * 2 ^ 8)
    else (if left == 2
        then add_field icmp_cksm (val / 2 ^ 16)
        else add_field (add_field icmp_cksm (val / 2 ^ 16)) (val % 2 ^ 16 / 2 ^ 8 * 2 ^ 8))

module _ (m : Bank) where
  -- The loop over whole words: j, dram_addr and icmp_cksm behind it. 2 ^ 30 rounds are enough for
  -- every ip_len from 4 on; below that, the code's test holds for ever.
  unfoldable pub add_words : (fuel last j dram_addr icmp_cksm : ℕ) → m.Store → ℕ × ℕ × ℕ
  add_words zero last j dram_addr icmp_cksm d = (j, dram_addr, icmp_cksm)
  add_words (suc fuel) last j dram_addr icmp_cksm d = elim (leb j last) [
    | true ↦
        add_words fuel last (next_word j) (next_word dram_addr)
          (compute_partial_cksm icmp_cksm (read_in m dram_addr 1 d)) d
    | false ↦ (j, dram_addr, icmp_cksm)
  ]

  -- What follows the loop: the bytes that are left.
  unfoldable pub finish_sum : (ip_len : ℕ) → ℕ × ℕ × ℕ → m.Store → ℕ
  finish_sum ip_len (j, dram_addr, icmp_cksm) d =
      if j == ip_len
      then icmp_cksm
      else add_tail (ip_len - j) (get_or (read_in m dram_addr 1 d) 0 0) icmp_cksm

  -- The sum over the message of ip_len - 20 bytes whose header has the words w0 and w1.
  unfoldable pub echo_sum : (ip_len dram_addr w0 w1 : ℕ) → m.Store → ℕ
  echo_sum ip_len dram_addr w0 w1 d =
      let icmp_cksm = compute_partial_cksm 0 (echo_word w0 0 ∷ w1 ∷ []) in
      finish_sum ip_len
        (add_words (2 ^ 30) ((ip_len + 2 ^ 32 - 4) % 2 ^ 32) 28 dram_addr icmp_cksm d) d

  unfoldable pub echo_icmp : (ip_len dram_addr : ℕ) (icmp : List ℕ) → m.Store → List ℕ
  echo_icmp ip_len dram_addr icmp d =
      let w0 = get_or icmp 0 0 in
      let w1 = get_or icmp 1 0 in
      echo_word w0 ((2 ^ 16 - 1 - echo_sum ip_len dram_addr w0 w1 d) % 2 ^ 16) ∷ w1 ∷ []

  unfoldable pub handle_local_delivery : PlcData → Plane m → Plane m
  handle_local_delivery msg p =
      let addr = packet_addr m msg p in
      let hdr = read_in m addr 5 p.dram in
      let icmp = read_in m ((addr + 20) % 2 ^ 32) 2 p.dram in
      let ip_len = get_or hdr 0 0 % 2 ^ 16 in
      let vals =
        drop 2 (echo_ip hdr) ++ take 1 (echo_icmp ip_len ((addr + 28) % 2 ^ 32) icmp p.dram) in
      let reply : Plane m = record p {
        dram = write_out m ((addr + 8) % 2 ^ 32) vals p.dram;
        sent =
            Sent.to_mux (record {
              buf_handle = msg.buf_handle;
              l3_pkt_length = msg.l3_pkt_length;
              ptag = msg.ptag;
              in_port = msg.in_port;
            })
            ∷ p.sent;
      } in
      if get_or hdr 2 0 / 2 ^ 16 % 2 ^ 8 == 1
      then (if get_or icmp 0 0 / 2 ^ 24 == 8 then reply else drop_packet m msg p)
      else drop_packet m msg p
