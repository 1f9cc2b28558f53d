-- ===== src/Npr/Packets/Echo/Reply.antt =====
-- ixp/npr/nprd_ipv4.cc, handle_local_delivery: what a receiver of the echo reply finds.
use onldaemons.Prelude.{
  ℕ, ◌+◌, ◌*◌, ◌/◌, ◌%◌, ◌^◌, ◌<◌, ◌≡◌, ◌↔◌, ap, ◌∙◌, List, [], ◌∷◌, ◌++◌, All, Bool, true, ◌==◌,
  if◌then◌else◌, get_or, take, drop, arith,
}
use onldaemons.Npr.Packets.Checksum.{Word, compute_partial_cksm}
use onldaemons.Npr.Packets.Memory.{Bank, IsMemory, read_in, write_out}
use onldaemons.Npr.Packets.Memory.RoundTrip.{read_in-write_out}
use onldaemons.Npr.Packets.Memory.Prefix.{read_in-Word}
use onldaemons.Npr.Packets.Errors.{PlcData, Plane, packet_addr}
use onldaemons.Npr.Packets.Errors.Checksums.{valid}
use onldaemons.Npr.Packets.Errors.Answers.{get_or-Word, orig_hdr}
use onldaemons.Npr.Packets.Echo.{echo_bare, echo_ip, echo_word, echo_icmp, handle_local_delivery}
use onldaemons.Npr.Packets.Echo.Valid.{echo_ip-valid, whole-valid, left-valid_iff}

-- The ICMP header of the packet that came in.
abbrev pub orig_icmp : (m : Bank) → PlcData → Plane m → List ℕ
orig_icmp m msg p = read_in m ((packet_addr m msg p + 20) % 2 ^ 32) 2 p.dram

-- The message that the reply carries: the header and k words of the request.
abbrev pub reply_message : (m : Bank) (msg : PlcData) → (p : Plane m) (ip_len k : ℕ) → List ℕ
reply_message m msg p ip_len k =
    echo_icmp m ip_len ((packet_addr m msg p + 28) % 2 ^ 32) (orig_icmp m msg p) p.dram
    ++ read_in m (packet_addr m msg p + 28) k p.dram

both_true {ℓ} :
    {A : Type ℓ} (a b : Bool) (x y z : A)
    → a ≡ true
    → b ≡ true
    → (if a then (if b then x else y) else z) ≡ x
both_true a b x y z p q =
    ap (λ a. if a then (if b then x else y) else z) p ∙ ap (λ b. if b then x else y) q

module _ (m : Bank) (w : IsMemory m) (msg : PlcData) (p : Plane m) (ip_len : ℕ) where
  four_words : All Word (
      drop 2 (echo_ip (orig_hdr m msg p))
      ++ take 1
          (echo_icmp m ip_len ((packet_addr m msg p + 28) % 2 ^ 32) (orig_icmp m msg p) p.dram))
  unfolding echo_ip echo_bare echo_icmp echo_word
  four_words =
      let hdr = read_in-Word m w 5 (packet_addr m msg p) p.dram in
      ((omega arith), (get_or-Word _ 4 hdr, (get_or-Word _ 3 hdr, ((omega arith), tt))))

  replied :
      get_or (orig_hdr m msg p) 2 0 / 2 ^ 16 % 2 ^ 8 ≡ 1
      → get_or (orig_icmp m msg p) 0 0 / 2 ^ 24 ≡ 8
      → get_or (orig_hdr m msg p) 0 0 % 2 ^ 16 ≡ ip_len
      → packet_addr m msg p + 28 < 2 ^ 32
      → read_in m (packet_addr m msg p + 8) 4 (handle_local_delivery m msg p).dram
        ≡ drop 2 (echo_ip (orig_hdr m msg p))
          ++ take 1
              (echo_icmp m ip_len ((packet_addr m msg p + 28) % 2 ^ 32) (orig_icmp m msg p) p.dram)
  unfolding handle_local_delivery echo_ip echo_bare echo_icmp
  replied icmp echo len b =
      let a = packet_addr m msg p in
      let hdr = orig_hdr m msg p in
      let here : (a + 8) % 2 ^ 32 ≡ a + 8 = omega arith in
      let vals : ℕ → List ℕ = λ n.
        drop 2 (echo_ip hdr)
        ++ take 1 (echo_icmp m n ((a + 28) % 2 ^ 32) (orig_icmp m msg p) p.dram) in
      ap (λ (q : Plane m). read_in m (a + 8) 4 q.dram)
        (both_true (get_or hdr 2 0 / 2 ^ 16 % 2 ^ 8 == 1)
          (get_or (orig_icmp m msg p) 0 0 / 2 ^ 24 == 8) _ _ _ (ground arith) (ground arith))
      ∙ ap (λ n. read_in m (a + 8) 4 (write_out m ((a + 8) % 2 ^ 32) (vals n) p.dram)) len
      ∙ ap (λ b. read_in m (a + 8) 4 (write_out m b (vals ip_len) p.dram)) here
      ∙ read_in-write_out m w (a + 8) _ _ p.dram four_words (omega arith)

-- handle_local_delivery of an ICMP echo request whose ip_len is that of two headers and k words
-- (below 2 ^ 16, in a packet that ends below 2 ^ 32): the last three words of the IP header and the
-- first one of the ICMP header stand in memory as the new ones, which are from the old destination
-- to the old source and of type 0, and the checksums of the new IP header and of the whole new
-- message hold.
pub handle_local_delivery-valid :
    (m : Bank)
    → IsMemory m
    → (msg : PlcData) → (p : Plane m) (k : ℕ) → get_or (orig_hdr m msg p) 2 0 / 2 ^ 16 % 2 ^ 8 ≡ 1
    → get_or (orig_icmp m msg p) 0 0 / 2 ^ 24 ≡ 8
    → get_or (orig_hdr m msg p) 0 0 % 2 ^ 16 ≡ 28 + 4 * k
    → 28 + 4 * k + 4 < 2 ^ 16
    → packet_addr m msg p + 28 + 4 * k + 4 < 2 ^ 32
    → let stored = read_in m (packet_addr m msg p + 8) 4 (handle_local_delivery m msg p).dram in
      let header = echo_ip (orig_hdr m msg p) in
      let message = reply_message m msg p (28 + 4 * k) k in
      (stored ≡ drop 2 header ++ take 1 message)
      × ((get_or stored 1 0 ≡ get_or (orig_hdr m msg p) 4 0)
          × ((get_or stored 2 0 ≡ get_or (orig_hdr m msg p) 3 0)
              × ((get_or stored 3 0 / 2 ^ 24 ≡ 0)
                  × ((compute_partial_cksm 0 header ≡ valid)
                      × (compute_partial_cksm 0 message ≡ valid)))))
unfolding echo_icmp echo_ip echo_bare echo_word
handle_local_delivery-valid m w msg p k icmp echo len b b' =
    let behind : (packet_addr m msg p + 28) % 2 ^ 32 ≡ packet_addr m msg p + 28 = omega arith in
    let words = read_in-Word m w 2 ((packet_addr m msg p + 20) % 2 ^ 32) p.dram in
    let kept = replied m w msg p (28 + 4 * k) icmp echo len (omega arith) in
    (
      kept,
      (
        ap (λ ws. get_or ws 1 0) kept,
        (
          ap (λ ws. get_or ws 2 0) kept,
          (
            ap (λ ws. get_or ws 3 0 / 2 ^ 24) kept ∙ omega arith,
            (
              echo_ip-valid (orig_hdr m msg p) (read_in-Word m w 5 (packet_addr m msg p) p.dram),
              ap
                    (λ a. compute_partial_cksm 0 (
                      echo_icmp m (28 + 4 * k) a (orig_icmp m msg p) p.dram
                      ++ read_in m (packet_addr m msg p + 28) k p.dram))
                    behind
                  ∙ whole-valid m w (packet_addr m msg p + 28) k _ _ p.dram (get_or-Word _ 0 words)
                      (get_or-Word _ 1 words) b (omega arith),
            ),
          ),
        ),
      ),
    )

-- The checksum that handle_local_delivery gives a message of k words and two bytes behind its
-- header, at an address a, holds if and only if the sum of the whole words and the number of the two
-- bytes need no carry.
pub echo_icmp-valid_iff :
    (m : Bank) (w : IsMemory m) (a k w0 w1 : ℕ) (d : m.Store)
    → w0 < 2 ^ 32
    → w1 < 2 ^ 32
    → 28 + 4 * k + 4 < 2 ^ 16
    → a + 4 * k + 4 < 2 ^ 32
    → let last = get_or (read_in m (a + 4 * k) 1 d) 0 0 / 2 ^ 16 in
      (compute_partial_cksm 0 (
          echo_icmp m (28 + 4 * k + 2) a (w0 ∷ w1 ∷ []) d
          ++ (read_in m a k d ++ (last * 2 ^ 16 ∷ [])))
        ≡ valid)
      ↔ (compute_partial_cksm 0 (echo_word w0 0 ∷ w1 ∷ read_in m a k d) + last < 2 ^ 16)
echo_icmp-valid_iff m w a k w0 w1 d low high b b' = left-valid_iff m w a k w0 w1 d low high b b'
