-- ===== src/Npr/Packets/Examples.antt =====
-- ixp/npr/nprd_ipv4.cc: packets in a memory that is a function, and what is known of them.
use onldaemons.Prelude.{ℕ, ◌+◌, ◌*◌, ◌%◌, ◌^◌, ◌≡◌, ◌↔◌, refl, fun_ext}
use onldaemons.Prelude.{[], ◌∷◌, drop, get_or, ◌==◌, if◌then◌else◌, arith}
use onldaemons.Npr.Packets.Checksum.{
  compute_partial_cksm, halves_sum, ones_complement, compute_partial_cksm-halves_sum,
}
use onldaemons.Npr.Packets.Memory.{
  Bank, IsMemory, read_in, write_out, read_words, write_words, join, split, split_all,
}
use onldaemons.Npr.Packets.Memory.RoundTrip.{read_in-write_out, write_out-append}
use onldaemons.Npr.Packets.Errors.{
  PlcData, Plane, packet_addr, options_of, get_port_addr, send_ttl_expired, send_no_route,
}
use onldaemons.Npr.Packets.Errors.Checksums.{valid}
use onldaemons.Npr.Packets.Errors.Answers.{orig_hdr, num_opt_words, orig_data}
use onldaemons.Npr.Packets.Errors.Verify.{send_ttl_expired-valid, send_no_route-valid_iff}

abbrev pub bank : Bank
bank = record {
  Store = ℕ → ℕ;
  read_word = λ a d. d a % 2 ^ 32;
  write_word = λ a v d b. if a == b then v else d b;
}

pub bank-IsMemory : IsMemory bank
bank-IsMemory = record {
  read_below = λ a d. omega arith;
  read_written = λ a v d h. ground arith;
  read_other = λ a b v d h. ground arith;
  write_again = λ a v w d. fun_ext (λ b. ground arith);
}

-- A packet with one word of options from 10.0.0.1, in the buffer 1 at offset 2, and its words.
abbrev pub arrived : ℕ → ℕ
arrived a = if a == 8 then 2 else a * 1000003 % 2 ^ 32

-- The buffer's words: the header starts in the middle of the word at 256.
abbrev memory : Plane bank
memory = record {
  dram =
      write_out bank 258
        (1174405180 ∷ 0 ∷ 20054016 ∷ 167772161 ∷ 167772674 ∷ 16843009 ∷ 1 ∷ 2 ∷ 3 ∷ 4 ∷ 5 ∷ 6 ∷ 7
          ∷ 8 ∷ [])
        (λ a. 0);
  sram = arrived;
  sent = [];
  drops = 0;
}

abbrev pub packet : PlcData
packet = record { res1 = 0; buf_handle = 1; l3_pkt_length = 56; ptag = 0; in_port = 2 }

abbrev ports : ℕ → ℕ
ports i = 3232235776

compute_partial_cksm-halves_sum_example :
    compute_partial_cksm 0 (1174405180 ∷ 4294967295 ∷ [])
    ≡ ones_complement (halves_sum (1174405180 ∷ 4294967295 ∷ []))
compute_partial_cksm-halves_sum_example =
    compute_partial_cksm-halves_sum (1174405180 ∷ 4294967295 ∷ []) (omega arith)

read_in-write_out_example :
    read_in bank 258 2 (write_out bank 258 (1174405180 ∷ 4294967295 ∷ []) (λ a. 7))
    ≡ 1174405180 ∷ 4294967295 ∷ []
read_in-write_out_example =
    read_in-write_out bank bank-IsMemory 258 1174405180 (4294967295 ∷ []) (λ a. 7) (omega arith)
      (omega arith)

write_out-append_example :
    write_out bank (258 + 4 * 2) (3 ∷ []) (write_out bank 258 (1 ∷ 2 ∷ []) (λ a. 7))
    ≡ write_out bank 258 (1 ∷ 2 ∷ 3 ∷ []) (λ a. 7)
write_out-append_example =
    write_out-append bank bank-IsMemory (2 ∷ []) 258 1 3 [] (λ a. 7) (omega arith)

source : get_or (orig_hdr bank packet memory) 3 0 ≡ 167772161
unfolding read_in write_out read_words write_words packet_addr join split split_all
source = refl

one_option : num_opt_words bank packet memory ≡ 1
unfolding read_in write_out read_words write_words packet_addr join split split_all options_of
one_option = refl

own : get_port_addr ports packet.in_port ≡ 3232235776
unfolding get_port_addr
own = refl

send_ttl_expired-valid_example :
    let n = num_opt_words bank packet memory in
    let d = (send_ttl_expired bank ports packet 5 memory).dram in
    let header = read_in bank (5 * 2 ^ 8 + 398) 5 d in
    (compute_partial_cksm 0 header ≡ valid)
    × ((get_or header 0 0 % 2 ^ 16 ≡ 20 + 4 * (9 + n))
        × (compute_partial_cksm 0 (read_in bank (5 * 2 ^ 8 + 398 + 20) (9 + n) d) ≡ valid))
send_ttl_expired-valid_example =
    send_ttl_expired-valid bank bank-IsMemory ports (λ i. omega arith) packet memory 5
      (λ e. omega (arith, source, own)) (omega arith) (omega arith)

send_no_route-valid_iff_example :
    let n = num_opt_words bank packet memory in
    let d = (send_no_route bank ports packet 5 memory).dram in
    let header = read_in bank (5 * 2 ^ 8 + 398) 5 d in
    (compute_partial_cksm 0 header ≡ valid)
    × ((get_or header 0 0 % 2 ^ 16 ≡ 20 + 4 * (9 + n))
        × ((compute_partial_cksm 0 (read_in bank (5 * 2 ^ 8 + 398 + 20) (9 + n) d) ≡ valid)
            ↔ (halves_sum (drop 2 (orig_data bank packet memory 8)) % valid ≡ 0)))
send_no_route-valid_iff_example =
    send_no_route-valid_iff bank bank-IsMemory ports (λ i. omega arith) packet memory 5
      (λ e. omega (arith, source, own)) (omega arith) (omega arith)

-- The words 3 to 8 of the data: the checksum of this answer does not hold.
not_a_multiple : halves_sum (drop 2 (orig_data bank packet memory 8)) % valid ≡ 33
unfolding read_in write_out read_words write_words packet_addr join split split_all options_of
    halves_sum
not_a_multiple = refl
