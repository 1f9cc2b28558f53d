-- ===== src/Npr/Packets/Errors/Checksums.antt =====
-- ixp/npr/nprd_ipv4.cc: the checksums of the two headers of an ICMP error.
use onldaemons.Prelude.{ℕ, ◌+◌, ◌-◌, ◌*◌, ◌%◌, ◌^◌, ◌<◌, ◌≤◌, ◌≡◌, ◌↔◌, refl, sym, subst, ap, ◌∙◌}
use onldaemons.Prelude.{List, [], ◌∷◌, ◌++◌, All, arith}
use onldaemons.Npr.Packets.Checksum.{
  Word, compute_cksm, compute_partial_cksm, halves_sum, ones_complement, halves_sum-append,
  compute_partial_cksm-halves_sum, compute_partial_cksm-append, ones_complement-filled,
}
use onldaemons.Npr.Packets.Errors.{ip_words, icmp_words, error_ip, error_icmp}

abbrev pub valid : ℕ
valid = 2 ^ 16 - 1

pub ones_below : (n : ℕ) → ones_complement n ≤ valid
unfolding ones_complement
ones_below n = ground arith

-- The words after the header of an ICMP error.
abbrev pub error_body : (icmp_type : ℕ) (orig_hdr ip_options orig_data : List ℕ) → List ℕ
error_body icmp_type orig_hdr ip_options orig_data =
    icmp_words (error_icmp icmp_type orig_hdr ip_options orig_data)
    ++ (orig_hdr ++ (ip_options ++ orig_data))

pub All-append : (xs ys : List ℕ) → All Word xs → All Word ys → All Word (xs ++ ys)
All-append [] ys h k = k
All-append (x ∷ xs) ys h k = (h.0, All-append xs ys h.1 k)

compute_cksm_lem :
    (ws : List ℕ) → All Word ws → compute_cksm ws % 2 ^ 16 ≡ valid - ones_complement (halves_sum ws)
unfolding compute_cksm
compute_cksm_lem ws h =
    let small = ones_below (halves_sum ws) in
    ap (λ p. (2 ^ 16 - 1 + 2 ^ 32 - p) % 2 ^ 32 % 2 ^ 16) (compute_partial_cksm-halves_sum ws h)
    ∙ omega arith

-- A header whose third word ends in the room for the checksum.
pub header-valid :
    (a b w src dest c : ℕ)
    → All Word (a ∷ b ∷ w ∷ src ∷ dest ∷ [])
    → w % 2 ^ 16 ≡ 0
    → c ≡ compute_cksm (a ∷ b ∷ w ∷ src ∷ dest ∷ []) % 2 ^ 16
    → All Word (a ∷ b ∷ (w + c) ∷ src ∷ dest ∷ [])
      × (compute_partial_cksm 0 (a ∷ b ∷ (w + c) ∷ src ∷ dest ∷ []) ≡ valid)
unfolding halves_sum
header-valid a b w src dest c h z e =
    let bare : List ℕ = a ∷ b ∷ w ∷ src ∷ dest ∷ [] in
    let filled = e ∙ compute_cksm_lem bare h in
    let small = ones_below (halves_sum bare) in
    let words : All Word (a ∷ b ∷ (w + c) ∷ src ∷ dest ∷ []) = omega arith in
    let more : halves_sum (a ∷ b ∷ (w + c) ∷ src ∷ dest ∷ []) ≡ halves_sum bare + c = omega arith in
    (
      words,
      compute_partial_cksm-halves_sum (a ∷ b ∷ (w + c) ∷ src ∷ dest ∷ []) words
          ∙ ap ones_complement (more ∙ ap (λ c. halves_sum bare + c) filled)
          ∙ ones_complement-filled (halves_sum bare),
    )

pub error_ip-valid :
    (ip_flags n src dest : ℕ)
    → ip_flags < 2 ^ 3
    → n < 2 ^ 4
    → src < 2 ^ 32
    → dest < 2 ^ 32
    → All Word (ip_words (error_ip ip_flags n src dest))
      × (compute_partial_cksm 0 (ip_words (error_ip ip_flags n src dest)) ≡ valid)
unfolding error_ip ip_words
error_ip-valid ip_flags n src dest f k s t =
    header-valid (4 * 2 ^ 28 + 5 * 2 ^ 24 + 0 * 2 ^ 16 + (28 + 28 + n * 4))
      (0 * 2 ^ 16 + ip_flags * 2 ^ 13 + 0) (64 * 2 ^ 24 + 1 * 2 ^ 16 + 0) src dest _ (omega arith)
      refl refl

module _ (t : ℕ) (hdr opts words : List ℕ) (b : t < 2 ^ 8) (h : All Word hdr) (o : All Word opts)
    (w : All Word words) where
  abbrev copied : List ℕ
  copied = hdr ++ (opts ++ words)

  copied-Word : All Word copied
  copied-Word = All-append hdr (opts ++ words) h (All-append opts words o w)

  chain :
      (c : ℕ)
      → compute_partial_cksm (compute_partial_cksm (compute_partial_cksm c hdr) opts) words
        ≡ compute_partial_cksm c copied
  chain c = sym (
      compute_partial_cksm-append hdr c (opts ++ words)
      ∙ compute_partial_cksm-append opts (compute_partial_cksm c hdr) words)

  bare_sum :
      compute_partial_cksm 0 ((t * 2 ^ 24 + 0 * 2 ^ 16 + 0) ∷ (0 * 2 ^ 16 + 0) ∷ copied)
      ≡ ones_complement (t * 2 ^ 8 + halves_sum copied)
  unfolding halves_sum
  bare_sum =
      compute_partial_cksm-halves_sum ((t * 2 ^ 24 + 0 * 2 ^ 16 + 0) ∷ (0 * 2 ^ 16 + 0) ∷ copied)
        ((omega arith), ((omega arith), copied-Word))
      ∙ ap ones_complement (omega arith)

  -- The checksum of the new message is that of its words with 0 in its place.
  pub error_icmp_lem :
      icmp_words (error_icmp t hdr opts words)
      ≡ (t * 2 ^ 24 + (valid - ones_complement (t * 2 ^ 8 + halves_sum copied))) ∷ 0 ∷ []
  unfolding error_icmp icmp_words
  error_icmp_lem =
      let bare : List ℕ = (t * 2 ^ 24 + 0 * 2 ^ 16 + 0) ∷ (0 * 2 ^ 16 + 0) ∷ [] in
      let sum =
        chain (compute_partial_cksm 0 bare)
        ∙ sym (compute_partial_cksm-append bare 0 copied)
        ∙ bare_sum in
      let small = ones_below (t * 2 ^ 8 + halves_sum copied) in
      ap (λ p. (t * 2 ^ 24 + 0 * 2 ^ 16 + (2 ^ 16 - 1 - p) % 2 ^ 16) ∷ (0 * 2 ^ 16 + 0) ∷ []) sum
      ∙ ap (λ v. v ∷ 0 ∷ []) (omega arith)

  pub error_body-Word : All Word (error_body t hdr opts words)
  error_body-Word =
      let small = ones_below (t * 2 ^ 8 + halves_sum copied) in
      All-append _ copied
        (subst (All Word) (sym error_icmp_lem) ((omega arith), ((omega arith), tt))) copied-Word

  pub error_body-sum :
      halves_sum (error_body t hdr opts words)
      ≡ t * 2 ^ 8 + halves_sum copied + (valid - ones_complement (t * 2 ^ 8 + halves_sum copied))
  unfolding halves_sum
  error_body-sum =
      let small = ones_below (t * 2 ^ 8 + halves_sum copied) in
      halves_sum-append (icmp_words (error_icmp t hdr opts words)) copied
      ∙ ap (λ ws. halves_sum ws + halves_sum copied) error_icmp_lem
      ∙ omega arith

  pub error_body-valid : compute_partial_cksm 0 (error_body t hdr opts words) ≡ valid
  error_body-valid =
      compute_partial_cksm-halves_sum (error_body t hdr opts words) error_body-Word
      ∙ ap ones_complement error_body-sum
      ∙ ones_complement-filled (t * 2 ^ 8 + halves_sum copied)

cut_ones :
    (b e : ℕ)
    → 0 < b
    → (ones_complement (b + (valid - ones_complement (b + e))) ≡ valid) ↔ (e % valid ≡ 0)
unfolding ones_complement
cut_ones b e h = ground arith

-- The two words of the header, and the words behind them.
header_sum :
    (t c : ℕ) (ws : List ℕ)
    → c ≤ valid
    → halves_sum ((t * 2 ^ 24 + c) ∷ 0 ∷ ws) ≡ t * 2 ^ 8 + halves_sum ws + c
unfolding halves_sum
header_sum t c ws h = omega arith

-- A message that ends before the last words that its checksum counts.
pub error_cut :
    (t : ℕ) (hdr opts words extra : List ℕ)
    → 0 < t
    → t < 2 ^ 8
    → All Word hdr
    → All Word opts
    → All Word words
    → All Word extra
    → (compute_partial_cksm 0
          (icmp_words (error_icmp t hdr opts (words ++ extra)) ++ (hdr ++ (opts ++ words)))
        ≡ valid)
      ↔ (halves_sum extra % valid ≡ 0)
error_cut t hdr opts words extra z b h o w e =
    let all = hdr ++ (opts ++ (words ++ extra)) in
    let cut = hdr ++ (opts ++ words) in
    let head = icmp_words (error_icmp t hdr opts (words ++ extra)) in
    let cut-Word = All-append hdr (opts ++ words) h (All-append opts words o w) in
    let small = ones_below (t * 2 ^ 8 + halves_sum all) in
    let field : ℕ = valid - ones_complement (t * 2 ^ 8 + halves_sum all) in
    let filled = error_icmp_lem t hdr opts (words ++ extra) b h o (All-append words extra w e) in
    let more : t * 2 ^ 8 + halves_sum all ≡ t * 2 ^ 8 + halves_sum cut + halves_sum extra = omega (
      arith,
      halves_sum-append hdr (opts ++ (words ++ extra)),
      halves_sum-append opts (words ++ extra),
      halves_sum-append words extra,
      halves_sum-append hdr (opts ++ words),
      halves_sum-append opts words,
    ) in
    let value : compute_partial_cksm 0 (head ++ cut)
        ≡ ones_complement (t * 2 ^ 8 + halves_sum cut + field) =
      ap (λ ws. compute_partial_cksm 0 (ws ++ cut)) filled
      ∙ compute_partial_cksm-halves_sum ((t * 2 ^ 24 + field) ∷ 0 ∷ cut)
          ((omega arith), ((omega arith), cut-Word))
      ∙ ap ones_complement (header_sum t field cut (omega arith)) in
    subst (λ v. (v ≡ valid) ↔ (halves_sum extra % valid ≡ 0))
      (sym (
        value
        ∙ ap (λ n. ones_complement (t * 2 ^ 8 + halves_sum cut + (valid - ones_complement n)))
            more))
      (cut_ones (t * 2 ^ 8 + halves_sum cut) (halves_sum extra) (omega arith))
