-- ===== src/Npr/Packets/Echo/Examples.antt =====
-- ixp/npr/nprd_ipv4.cc, handle_local_delivery: one echo request.
use onldaemons.Prelude.{
  ◌+◌, ◌*◌, ◌/◌, ◌%◌, ◌^◌, ◌<◌, ◌≡◌, ◌↔◌, refl, [], ◌∷◌, ◌++◌, get_or, take, drop, arith,
}
use onldaemons.Npr.Packets.Checksum.{compute_partial_cksm}
use onldaemons.Npr.Packets.Memory.{
  read_in, write_out, read_words, write_words, join, split, split_all,
}
use onldaemons.Npr.Packets.Errors.{Plane, packet_addr}
use onldaemons.Npr.Packets.Errors.Checksums.{valid}
use onldaemons.Npr.Packets.Errors.Answers.{orig_hdr}
use onldaemons.Npr.Packets.Echo.{echo_ip, echo_word, echo_icmp, handle_local_delivery}
use onldaemons.Npr.Packets.Echo.Reply.{
  orig_icmp, reply_message, handle_local_delivery-valid, echo_icmp-valid_iff,
}
use onldaemons.Npr.Packets.Examples.{bank, bank-IsMemory, arrived, packet}

-- A header without options, an echo request, and one word of data, at 258 as `arrived` has it.
abbrev request : Plane bank
request = record {
  dram =
      write_out bank 258
        (1157627936 ∷ 0 ∷ 50397184 ∷ 167772161 ∷ 3232235776 ∷ 134217733 ∷ 65537 ∷ 305419896 ∷ [])
        (λ a. 0);
  sram = arrived;
  sent = [];
  drops = 0;
}

at_258 : packet_addr bank packet request ≡ 258
unfolding packet_addr
at_258 = refl

is_icmp : get_or (orig_hdr bank packet request) 2 0 / 2 ^ 16 % 2 ^ 8 ≡ 1
unfolding read_in write_out read_words write_words packet_addr join split split_all
is_icmp = refl

is_echo : get_or (orig_icmp bank packet request) 0 0 / 2 ^ 24 ≡ 8
unfolding read_in write_out read_words write_words packet_addr join split split_all
is_echo = refl

one_word : get_or (orig_hdr bank packet request) 0 0 % 2 ^ 16 ≡ 28 + 4 * 1
unfolding read_in write_out read_words write_words packet_addr join split split_all
one_word = refl

handle_local_delivery-valid_example :
    let stored =
      read_in bank
        (packet_addr bank packet request + 8)
        4
        (handle_local_delivery bank packet request).dram in
    let header = echo_ip (orig_hdr bank packet request) in
    let message = reply_message bank packet request (28 + 4 * 1) 1 in
    (stored ≡ drop 2 header ++ take 1 message)
    × ((get_or stored 1 0 ≡ get_or (orig_hdr bank packet request) 4 0)
        × ((get_or stored 2 0 ≡ get_or (orig_hdr bank packet request) 3 0)
            × ((get_or stored 3 0 / 2 ^ 24 ≡ 0)
                × ((compute_partial_cksm 0 header ≡ valid)
                    × (compute_partial_cksm 0 message ≡ valid)))))
handle_local_delivery-valid_example =
    handle_local_delivery-valid bank bank-IsMemory packet request 1 is_icmp is_echo one_word
      (omega arith) (omega (arith, at_258))

echo_icmp-valid_iff_example :
    let last = get_or (read_in bank (286 + 4 * 1) 1 request.dram) 0 0 / 2 ^ 16 in
    (compute_partial_cksm 0 (
        echo_icmp bank (28 + 4 * 1 + 2) 286 (134217733 ∷ 65537 ∷ []) request.dram
        ++ (read_in bank 286 1 request.dram ++ (last * 2 ^ 16 ∷ [])))
      ≡ valid)
    ↔ (compute_partial_cksm 0 (echo_word 134217733 0 ∷ 65537 ∷ read_in bank 286 1 request.dram)
          + last
        < 2 ^ 16)
echo_icmp-valid_iff_example =
    echo_icmp-valid_iff bank bank-IsMemory 286 1 134217733 65537 request.dram (omega arith)
      (omega arith) (omega arith) (omega arith)
