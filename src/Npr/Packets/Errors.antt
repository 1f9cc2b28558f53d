-- ===== src/Npr/Packets/Errors.antt =====
-- ixp/npr/nprd_ipv4.cc: the ICMP errors that answer a packet, and packets that are dropped. The
-- fields of a header go into its words from the most significant bit, as on the big-endian Xscale.
pub mod Checksums
pub mod Packet
pub mod Answers
pub mod Stored
pub mod Verify
use onldaemons.Prelude.{
  ℕ, suc, ◌+◌, ◌-◌, ◌*◌, ◌/◌, ◌%◌, ◌^◌, List, [], ◌∷◌, ◌++◌, ◌==◌, ltb, if◌then◌else◌, get_or,
  length,
}
use onldaemons.Npr.Packets.Checksum.{compute_cksm, compute_partial_cksm}
use onldaemons.Npr.Packets.Memory.{Bank, read_in, write_out, write_words}

pub record Ipv4Hdr : Type 0 where
  pub ip_version : ℕ
  pub ip_hdr_len : ℕ
  pub ip_tos : ℕ
  pub ip_len : ℕ
  pub ip_id : ℕ
  pub ip_flags : ℕ
  pub ip_frag_offset : ℕ
  pub ip_ttl : ℕ
  pub ip_proto : ℕ
  pub ip_hdr_cksm : ℕ
  pub ip_src_addr : ℕ
  pub ip_dest_addr : ℕ

unfoldable pub ip_words : Ipv4Hdr → List ℕ
ip_words h =
    (h.ip_version * 2 ^ 28 + h.ip_hdr_len * 2 ^ 24 + h.ip_tos * 2 ^ 16 + h.ip_len)
    ∷ (h.ip_id * 2 ^ 16 + h.ip_flags * 2 ^ 13 + h.ip_frag_offset)
    ∷ (h.ip_ttl * 2 ^ 24 + h.ip_proto * 2 ^ 16 + h.ip_hdr_cksm)
    ∷ h.ip_src_addr
    ∷ h.ip_dest_addr
    ∷ []

pub record IcmpHdr : Type 0 where
  pub icmp_type : ℕ
  pub icmp_code : ℕ
  pub icmp_cksm : ℕ
  pub icmp_id : ℕ
  pub icmp_seq : ℕ

unfoldable pub icmp_words : IcmpHdr → List ℕ
icmp_words h =
    (h.icmp_type * 2 ^ 24 + h.icmp_code * 2 ^ 16 + h.icmp_cksm)
    ∷ (h.icmp_id * 2 ^ 16 + h.icmp_seq)
    ∷ []

-- What the code uses of plc_to_xscale_data.
pub record PlcData : Type 0 where
  pub res1 : ℕ
  pub buf_handle : ℕ
  pub l3_pkt_length : ℕ
  pub ptag : ℕ
  pub in_port : ℕ

-- The fields of xscale_to_mux_data that are not always 0.
pub record MuxData : Type 0 where
  pub buf_handle : ℕ
  pub l3_pkt_length : ℕ
  pub ptag : ℕ
  pub in_port : ℕ

-- A message to the free list manager, by its word, or to the multiplexer.
pub data Sent : Type 0 where
  to_flm : (word : ℕ) → Sent
  to_mux : MuxData → Sent

-- The memories, the messages sent, the last one first, and the calls of increment_drop_counter.
pub record Plane (m : Bank) : Type 0 where
  pub dram : m.Store
  pub sram : m.Store
  pub sent : List Sent
  pub drops : ℕ

unfoldable pub get_port_addr : (port_addrs : ℕ → ℕ) (port : ℕ) → ℕ
get_port_addr port_addrs port = if ltb 4 port then 0 else port_addrs port

-- The header without its checksum, and with it.
unfoldable pub error_ip : (ip_flags num_opt_words src dest : ℕ) → Ipv4Hdr
error_ip ip_flags num_opt_words src dest =
    let bare : Ipv4Hdr = record {
      ip_version = 4;
      ip_hdr_len = 5;
      ip_tos = 0;
      ip_len = 28 + 28 + num_opt_words * 4;
      ip_id = 0;
      ip_flags = ip_flags;
      ip_frag_offset = 0;
      ip_ttl = 64;
      ip_proto = 1;
      ip_hdr_cksm = 0;
      ip_src_addr = src;
      ip_dest_addr = dest;
    } in
    record bare { ip_hdr_cksm = compute_cksm (ip_words bare) % 2 ^ 16 }

unfoldable pub error_icmp : (icmp_type : ℕ) (orig_hdr ip_options orig_data : List ℕ) → IcmpHdr
error_icmp icmp_type orig_hdr ip_options orig_data =
    let bare : IcmpHdr = record {
      icmp_type = icmp_type;
      icmp_code = 0;
      icmp_cksm = 0;
      icmp_id = 0;
      icmp_seq = 0;
    } in
    let cksm = compute_partial_cksm 0 (icmp_words bare) in
    let cksm = compute_partial_cksm cksm orig_hdr in
    let cksm = compute_partial_cksm cksm ip_options in
    let cksm = compute_partial_cksm cksm orig_data in
    record bare { icmp_cksm = (2 ^ 16 - 1 - cksm) % 2 ^ 16 }

-- The fields of the header that came in: ip_hdr_len in its first word, ip_src_addr its fourth.
unfoldable pub options_of : (orig_hdr : List ℕ) → ℕ
options_of orig_hdr =
    let ip_hdr_len = get_or orig_hdr 0 0 / 2 ^ 24 % 2 ^ 4 in
    if ltb 5 ip_hdr_len then ip_hdr_len - 5 else 0

module _ (m : Bank) where
  -- The message that gives the buffer of a packet back, and the counter.
  unfoldable pub drop_packet : PlcData → Plane m → Plane m
  drop_packet msg p = record p {
    sent = Sent.to_flm (msg.res1 * 2 ^ 24 + msg.buf_handle) ∷ p.sent;
    drops = suc p.drops;
  }

  -- The loop of SRAM_WRITE over the words of buffer_desc, for packet_size bytes at offset 0x18e.
  unfoldable pub write_buffer_desc : (bd_addr packet_size : ℕ) → m.Store → m.Store
  write_buffer_desc bd_addr packet_size sram =
      write_words m bd_addr
        (255
          ∷ (packet_size * 2 ^ 16 + 398)
          ∷ (packet_size * 2 ^ 16 + 1)
          ∷ 0
          ∷ 0
          ∷ 2048 * 2 ^ 16
          ∷ 0
          ∷ 0
          ∷ [])
        sram

  -- The writes of a new packet, in the order of the code.
  unfoldable pub write_packet :
      (addr : ℕ) (ip icmp orig_hdr ip_options orig_data : List ℕ) → m.Store → m.Store
  write_packet addr ip icmp orig_hdr ip_options orig_data d =
      let num_opt_words = length ip_options in
      let d = write_out m addr ip d in
      let d = write_out m ((addr + 20) % 2 ^ 32) icmp d in
      let d = write_out m ((addr + 28) % 2 ^ 32) orig_hdr d in
      let d = if ltb 0 num_opt_words then write_out m ((addr + 48) % 2 ^ 32) ip_options d else d in
      write_out m ((addr + 48 + num_opt_words * 4) % 2 ^ 32) orig_data d

  unfoldable pub packet_addr : PlcData → Plane m → ℕ
  packet_addr msg p =
      let offset = m.read_word (msg.buf_handle * 2 ^ 2 + 4) p.sram % 2 ^ 16 in
      (msg.buf_handle * 2 ^ 8 + offset) % 2 ^ 32

  -- The body that send_ttl_expired and send_no_route share. They differ in the words of data that
  -- they copy, in ip_flags and in icmp_type. `free_buffer` is what the free list's queue gives.
  module _ (port_addrs : ℕ → ℕ) (data_words ip_flags icmp_type : ℕ) where
    unfoldable pub icmp_error : PlcData → (free_buffer : ℕ) → Plane m → Plane m
    icmp_error msg free_buffer p =
        let addr = packet_addr msg p in
        let orig_hdr = read_in m addr 5 p.dram in
        let num_opt_words = options_of orig_hdr in
        let ip_options =
          if ltb 0 num_opt_words
          then read_in m ((addr + 20) % 2 ^ 32) num_opt_words p.dram
          else [] in
        let orig_data = read_in m ((addr + 20 + num_opt_words * 4) % 2 ^ 32) data_words p.dram in
        let my_addr = get_port_addr port_addrs msg.in_port in
        let src = get_or orig_hdr 3 0 in
        let packet_size = 28 + 28 + num_opt_words * 4 in
        let ip = ip_words (error_ip ip_flags num_opt_words my_addr src) in
        let icmp = icmp_words (error_icmp icmp_type orig_hdr ip_options orig_data) in
        if src == my_addr
        then drop_packet msg p
        else (if free_buffer == 0
            then drop_packet msg p
            else drop_packet msg (record p {
              dram =
                  write_packet ((free_buffer * 2 ^ 8 + 398) % 2 ^ 32) ip icmp orig_hdr ip_options
                    orig_data p.dram;
              sram = write_buffer_desc (free_buffer * 2 ^ 2) packet_size p.sram;
              sent =
                  Sent.to_mux (record {
                    buf_handle = free_buffer;
                    l3_pkt_length = packet_size;
                    ptag = 0;
                    in_port = msg.in_port;
                  })
                  ∷ p.sent;
            }))

  unfoldable pub send_ttl_expired :
      (port_addrs : ℕ → ℕ) → PlcData → (free_buffer : ℕ) → Plane m → Plane m
  send_ttl_expired port_addrs = icmp_error port_addrs 2 2 11

  unfoldable pub send_no_route :
      (port_addrs : ℕ → ℕ) → PlcData → (free_buffer : ℕ) → Plane m → Plane m
  send_no_route port_addrs = icmp_error port_addrs 8 0 3
