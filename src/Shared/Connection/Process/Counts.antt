-- ===== src/Shared/Connection/Process/Counts.antt =====
-- The counts of messages, and which connections nccp_listener::cleanup deletes.
use onldaemons.Prelude.{
  ℕ, suc, ◌+◌, ◌*◌, ◌^◌, ◌<◌, ◌≤◌, ◌≡◌, ◌∙◌, ap, sym, refl, Bool, true, false, not, ◌&&◌, ◌||◌,
  List, [], ◌∷◌, length, ◌==◌ as nat_eq, if◌then◌else◌, arith, Bool-cases, inl, inr, Option-cases,
}
use onldaemons.Shared.Dispatcher.{Dispatcher, Registry, create_message}
use onldaemons.Shared.Connection.{
  Connection, accepted, Listener, sweep, cleanup, has_outstanding_msgs, increment_msg_count,
  decrement_msg_count,
}
use onldaemons.Shared.Connection.Process.{
  Arrival, dispatch, after_delete, process_created, process_message, receive_message, serve,
}

unfoldable pub keep_if : (ℕ → Bool) → List ℕ → List ℕ
keep_if f [] = []
keep_if f (p ∷ ps) = let rest = keep_if f ps in if f p then p ∷ rest else rest

-- A connection that cleanup deletes.
abbrev pub idle : (ℕ → Connection) → ℕ → Bool
idle objects p = (objects p).finished && nat_eq (objects p).message_count 0

sweep_lem :
    (objects : ℕ → Connection) (ps : List ℕ)
    → sweep objects ps ≡ (keep_if (λ p. not (idle objects p)) ps, keep_if (idle objects) ps)
unfolding sweep keep_if has_outstanding_msgs
sweep_lem objects [] = refl
sweep_lem objects (p ∷ ps) = rw (sweep_lem objects ps) (ground arith)

-- cleanup takes out exactly the connections that are finished and count no message, deletes these,
-- and keeps the others in their order.
pub cleanup_lem :
    (l : Listener)
    → let (l', deleted) = cleanup l in
      (l'.connections ≡ keep_if (λ p. not (idle l.objects p)) l.connections)
      × (deleted ≡ keep_if (idle l.objects) l.connections)
unfolding cleanup
cleanup_lem l = let e = sweep_lem l.objects l.connections in (ap (λ r. r.0) e, ap (λ r. r.1) e)

-- Every message that comes in counts up once more than its object counts down.
receive_message-count :
    (g : Registry) (a : Arrival) (d : Dispatcher) (c : Connection)
    → c.message_count + 2 < 2 ^ 32
    → (c.message_count + 1 ≤ (receive_message g a (d, c)).1.message_count)
      × ((receive_message g a (d, c)).1.message_count ≤ c.message_count + 2)
unfolding receive_message process_message process_created after_delete increment_msg_count
    decrement_msg_count
receive_message-count g a d c small = elim (Option-cases (create_message g a.mbuf)) [
  | inl e ↦ rw e (omega arith, omega arith)
  | inr (m, e) ↦ rw e (elim (Option-cases (dispatch m a d)) [
    | inl f ↦ rw f (omega arith, omega arith)
    | inr ((d', deleted), f) ↦ rw f (elim (Bool-cases (deleted || a.dropped)) [
      | inl h ↦ rw h (omega arith, omega arith)
      | inr h ↦ rw h (omega arith, omega arith)
    ])
  ])
]

serve-count :
    (g : Registry) (arrivals : List Arrival) (d : Dispatcher) (c : Connection)
    → c.message_count + 2 * length arrivals < 2 ^ 32
    → c.message_count + length arrivals ≤ (serve g arrivals (d, c)).1.message_count
unfolding serve
serve-count g [] d c small = omega arith
serve-count g (a ∷ arrivals) d c small =
    let one = receive_message-count g a d c (omega arith) in
    let (d', c') = receive_message g a (d, c) in
    let later = serve-count g arrivals d' c' (let low = one.0 in let high = one.1 in omega arith) in
    let low = one.0 in omega arith

unfoldable pub elem : ℕ → List ℕ → Bool
elem p [] = false
elem p (q ∷ qs) = let rest = elem p qs in if nat_eq p q then true else rest

keep_if-elem : (f : ℕ → Bool) (p : ℕ) (ps : List ℕ) → f p ≡ true → elem p (keep_if f ps) ≡ elem p ps
unfolding keep_if elem
keep_if-elem f p [] h = refl
keep_if-elem f p (q ∷ qs) h = elim (Bool-cases (nat_eq p q)) [
  | inl e ↦
      let same : p ≡ q = ground arith in
      let fq : f q ≡ true = ap f (sym same) ∙ h in rw (fq, e) refl
  | inr e ↦ elim (Bool-cases (f q)) [
    | inl g ↦ rw (g, e) (keep_if-elem f p qs h)
    | inr g ↦ rw (g, e) (keep_if-elem f p qs h)
  ]
]

-- A connection of the listener on which at least one message has come in is never deleted by cleanup,
-- whether it is finished or not and though every object of its messages may be deleted: its count does
-- not come back to 0. The messages are fewer than 2 ^ 31.
pub served_connection_stays :
    (g : Registry) (a : Arrival) (arrivals : List Arrival) (d : Dispatcher)
    (laddr lport raddr rport p : ℕ) (l : Listener)
    → 2 * suc (length arrivals) < 2 ^ 32
    → (l.objects p).message_count
      ≡ (serve g (a ∷ arrivals) (d, accepted laddr lport raddr rport)).1.message_count
    → elem p l.connections ≡ true
    → elem p (cleanup l).0.connections ≡ true
unfolding accepted
served_connection_stays g a arrivals d laddr lport raddr rport p l small counted here =
    let many = serve-count g (a ∷ arrivals) d (accepted laddr lport raddr rport) (omega arith) in
    let busy : not (idle l.objects p) ≡ true =
      (let low : 0 < (l.objects p).message_count = omega (arith, counted) in ground arith) in
    ap (elem p) (cleanup_lem l).0
    ∙ keep_if-elem (λ q. not (idle l.objects q)) p l.connections busy
    ∙ here
