-- ===== src/Shared/Rendezvous.antt =====
-- shared/rendezvous.h and shared/rendezvous.cc: the marker that joins a response to its request.
use onldaemons.Prelude.{
  ℕ, ◌^◌, ◌%◌, ◌<◌, ◌≡◌, Bool, true, false, ◌&&◌, List, ◌++◌, arith, ltb, ◌==◌ as nat_eq,
  if◌then◌else◌,
}
use onldaemons.Shared.ByteBuffer.{Buf, pure, ◌>>=◌, ◌>>◌, put8, put16, put32, get8, get16, get32}
use onldaemons.Shared.ByteBuffer.Emit.{
  emit, emit-append, bytes8, bytes16, bytes32, put8-emit, put16-emit, put32-emit,
}
use onldaemons.Shared.ByteBuffer.Holds.{
  Decodes, Decodes-bind, Decodes-map, get8-Decodes, get16-Decodes, get32-Decodes,
}

pub record Rendezvous : Type 0 where
  pub id : ℕ
  pub unused1 : ℕ
  pub unused2 : ℕ
  pub seq : ℕ
  pub unused3 : ℕ
  pub unused4 : ℕ
  pub unused5 : ℕ
  pub unused6 : ℕ
  pub unused7 : ℕ

-- rendezvous(id_num, seq_num): `id` is a `uint8_t`.
unfoldable pub of_id : ℕ → ℕ → Rendezvous
of_id id_num seq_num = record {
  id = id_num % 256;
  unused1 = 0;
  unused2 = 0;
  seq = seq_num;
  unused3 = 0;
  unused4 = 0;
  unused5 = 0;
  unused6 = 0;
  unused7 = 0;
}

-- rendezvous()
abbrev pub no_rendezvous : Rendezvous
no_rendezvous = record {
  id = 0;
  unused1 = 0;
  unused2 = 0;
  seq = 0;
  unused3 = 0;
  unused4 = 0;
  unused5 = 0;
  unused6 = 0;
  unused7 = 0;
}

infix 50 ◌==◌
-- Only the two leading fields are compared.
unfoldable pub ◌==◌ : Rendezvous → Rendezvous → Bool
a == b = nat_eq a.id b.id && nat_eq a.seq b.seq

-- operator<, the order of the dispatcher's map.
unfoldable pub less : Rendezvous → Rendezvous → Bool
less a b =
    if ltb a.id b.id
    then true
    else if ltb b.id a.id
    then false
    else if ltb a.seq b.seq
    then true
    else false

pub put_rendezvous : Rendezvous → Buf (Unit {0})
put_rendezvous r = do
  put8 r.id
  put16 r.unused1
  put8 r.unused2
  put32 r.seq
  put32 r.unused3
  put32 r.unused4
  put32 r.unused5
  put32 r.unused6
  put32 r.unused7

pub get_rendezvous : Buf Rendezvous
get_rendezvous = do
  id ← get8
  unused1 ← get16
  unused2 ← get8
  seq ← get32
  unused3 ← get32
  unused4 ← get32
  unused5 ← get32
  unused6 ← get32
  unused7 ← get32
  pure (record {
    id = id;
    unused1 = unused1;
    unused2 = unused2;
    seq = seq;
    unused3 = unused3;
    unused4 = unused4;
    unused5 = unused5;
    unused6 = unused6;
    unused7 = unused7;
  })

-- The fields hold values of their C++ types.
pub record IsRendezvous (r : Rendezvous) : Type 0 where
  pub id : r.id < 256
  pub unused1 : r.unused1 < 2 ^ 16
  pub unused2 : r.unused2 < 256
  pub seq : r.seq < 2 ^ 32
  pub unused3 : r.unused3 < 2 ^ 32
  pub unused4 : r.unused4 < 2 ^ 32
  pub unused5 : r.unused5 < 2 ^ 32
  pub unused6 : r.unused6 < 2 ^ 32
  pub unused7 : r.unused7 < 2 ^ 32

unfoldable pub bytes_rendezvous : Rendezvous → List ℕ
bytes_rendezvous r =
    bytes8 r.id
    ++ (bytes16 r.unused1
        ++ (bytes8 r.unused2
            ++ (bytes32 r.seq
                ++ (bytes32 r.unused3
                    ++ (bytes32 r.unused4
                        ++ (bytes32 r.unused5 ++ (bytes32 r.unused6 ++ bytes32 r.unused7)))))))

pub put_rendezvous-emit : (r : Rendezvous) → put_rendezvous r ≡ emit (bytes_rendezvous r)
unfolding put_rendezvous bytes_rendezvous
put_rendezvous-emit r = simp (put8-emit, put16-emit, put32-emit, emit-append)

pub get_rendezvous-Decodes :
    (r : Rendezvous) → IsRendezvous r → Decodes get_rendezvous (bytes_rendezvous r) r
unfolding get_rendezvous bytes_rendezvous
get_rendezvous-Decodes r w = Decodes-bind _ (get8-Decodes _ w.id) (
    Decodes-bind _ (get16-Decodes _ w.unused1) (
      Decodes-bind _ (get8-Decodes _ w.unused2) (
        Decodes-bind _ (get32-Decodes _ w.seq) (
          Decodes-bind _ (get32-Decodes _ w.unused3) (
            Decodes-bind _ (get32-Decodes _ w.unused4) (
              Decodes-bind _ (get32-Decodes _ w.unused5) (
                Decodes-bind _ (get32-Decodes _ w.unused6)
                  (Decodes-map _ (get32-Decodes _ w.unused7)))))))))

pub less_irrefl : (a : Rendezvous) → less a a ≡ false
unfolding less
less_irrefl a = ground arith

-- The order is transitive.
pub less_trans : (a b c : Rendezvous) → less a b ≡ true → less b c ≡ true → less a c ≡ true
unfolding less
less_trans a b c p q = ground arith

pub less_total : (a b : Rendezvous) → less a b ≡ false → less b a ≡ false → (a == b) ≡ true
unfolding less ◌==◌
less_total a b p q = ground arith
