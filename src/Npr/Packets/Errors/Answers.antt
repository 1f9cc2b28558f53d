-- ===== src/Npr/Packets/Errors/Answers.antt =====
-- ixp/npr/nprd_ipv4.cc, send_ttl_expired and send_no_route: whether the checksums of the answer hold.
use onldaemons.Prelude.{ℕ, zero, suc, ◌+◌, ◌-◌, ◌*◌, ◌%◌, ◌^◌, ◌<◌, ◌≤◌, ◌≡◌, ◌≢◌, refl, ap, ◌∙◌}
use onldaemons.Prelude.{
  List, [], ◌∷◌, All, length, lt→ltb, get_or, Bool, true, false, ◌==◌, ltb, if◌then◌else◌, arith,
}
use onldaemons.Npr.Packets.Checksum.{Word}
use onldaemons.Npr.Packets.Memory.{Bank, read_in}
use onldaemons.Npr.Packets.Errors.{
  PlcData, Plane, ip_words, icmp_words, error_ip, error_icmp, get_port_addr, options_of,
  packet_addr, write_packet, icmp_error, drop_packet,
}
use onldaemons.Npr.Packets.Errors.Checksums.{error_body}

neither {ℓ} :
    {A : Type ℓ} (a b : Bool) (x y : A)
    → a ≡ false
    → b ≡ false
    → (if a then x else (if b then x else y)) ≡ y
neither a b x y p q =
    ap (λ a. if a then x else (if b then x else y)) p ∙ ap (λ b. if b then x else y) q

pub if-All : (b : Bool) (ws : List ℕ) → All Word ws → All Word (if b then ws else [])
if-All true ws h = h
if-All false ws h = tt

pub length-if : (n : ℕ) (ws : List ℕ) → length ws ≡ n → length (if ltb 0 n then ws else []) ≡ n
length-if zero ws h = refl
length-if (suc n) ws h =
    ap (λ b. length (if b then ws else [])) (lt→ltb 0 (suc n) (omega arith)) ∙ h

-- The packet that an error answers: its header, its options, and the words of data that are copied.
module _ (m : Bank) (msg : PlcData) (p : Plane m) where
  abbrev pub orig_hdr : List ℕ
  orig_hdr = read_in m (packet_addr m msg p) 5 p.dram

  abbrev pub num_opt_words : ℕ
  num_opt_words = options_of orig_hdr

  abbrev pub ip_options : List ℕ
  ip_options =
      if ltb 0 num_opt_words
      then read_in m ((packet_addr m msg p + 20) % 2 ^ 32) num_opt_words p.dram
      else []

  abbrev pub orig_data : (num : ℕ) → List ℕ
  orig_data num = read_in m ((packet_addr m msg p + 20 + num_opt_words * 4) % 2 ^ 32) num p.dram

  module _ (port_addrs : ℕ → ℕ) where
    abbrev pub my_addr : ℕ
    my_addr = get_port_addr port_addrs msg.in_port

    abbrev pub new_header : (ip_flags : ℕ) → List ℕ
    new_header ip_flags = ip_words (error_ip ip_flags num_opt_words my_addr (get_or orig_hdr 3 0))

    abbrev pub new_body : (icmp_type num : ℕ) → List ℕ
    new_body icmp_type num = error_body icmp_type orig_hdr ip_options (orig_data num)

    pub error_dram :
        (k f t fb : ℕ)
        → get_or orig_hdr 3 0 ≢ my_addr
        → 0 < fb
        → fb < 2 ^ 24 - 2
        → (icmp_error m port_addrs k f t msg fb p).dram
          ≡ write_packet m
              ((fb * 2 ^ 8 + 398) % 2 ^ 32)
              (new_header f)
              (icmp_words (error_icmp t orig_hdr ip_options (orig_data k)))
              orig_hdr
              ip_options
              (orig_data k)
              p.dram
    unfolding icmp_error drop_packet
    error_dram k f t fb h z b =
        ap (λ (q : Plane m). q.dram)
          (neither (get_or orig_hdr 3 0 == my_addr) (fb == 0) _ _ (ground arith) (ground arith))

pub get_or-Word : (ws : List ℕ) (i : ℕ) → All Word ws → get_or ws i 0 < 2 ^ 32
get_or-Word [] i h = omega arith
get_or-Word (x ∷ ws) zero h = h.0
get_or-Word (x ∷ ws) (suc i) h = get_or-Word ws i h.1

pub options_below : (hdr : List ℕ) → options_of hdr ≤ 10
unfolding options_of
options_below hdr = ground arith

pub port_below :
    (port_addrs : ℕ → ℕ) (port : ℕ)
    → ((i : ℕ) → port_addrs i < 2 ^ 32)
    → get_port_addr port_addrs port < 2 ^ 32
unfolding get_port_addr
port_below port_addrs port h = let one = h port in ground arith
