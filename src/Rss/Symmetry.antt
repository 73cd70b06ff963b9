-- ===== src/Rss/Symmetry.antt =====
-- `CalcHash` in symmetric mode, on the two directions of a flow.
use Prim.Native.Nat.{Ordering}
use vnic.Prelude.{ℕ, ◌^◌, ◌<◌, ◌≡◌, refl, arith, List, [], ◌∷◌, length}
use vnic.Net.Bytes.{ntohs_injective, ntohl_injective}
use vnic.Packet.FiveTuple.{FiveTuple}
use vnic.Rss.Input.{HashFunc, SymmetryMode, memcmp, make_symmetric, build_hash_input, copied}
use vnic.Rss.Hash.{calc_hash}

-- The flow in the other direction.
abbrev pub reverse_flow : FiveTuple → FiveTuple
reverse_flow t = record t {
  saddr4 = t.daddr4;
  daddr4 = t.saddr4;
  saddr6 = t.daddr6;
  daddr6 = t.saddr6;
  sport = t.dport;
  dport = t.sport;
}

-- The values that the fields' C types hold.
pub record IsTuple (t : FiveTuple) : Type 0 where
  pub saddr4_range : t.saddr4 < 2 ^ 32
  pub daddr4_range : t.daddr4 < 2 ^ 32
  pub sport_range : t.sport < 2 ^ 16
  pub dport_range : t.dport < 2 ^ 16
  pub saddr6_size : length t.saddr6 ≡ 16
  pub daddr6_size : length t.daddr6 ≡ 16

abbrev flip : Ordering → Ordering
flip Ordering.lt = Ordering.gt
flip Ordering.eq = Ordering.eq
flip Ordering.gt = Ordering.lt

memcmp-flip : (xs ys : List ℕ) → memcmp ys xs ≡ flip (memcmp xs ys)
unfolding memcmp
memcmp-flip [] [] = refl
memcmp-flip [] (y ∷ ys) = refl
memcmp-flip (x ∷ xs) [] = refl
memcmp-flip (x ∷ xs) (y ∷ ys) = ground (arith, memcmp-flip xs ys)

memcmp-eq : (xs ys : List ℕ) → length xs ≡ length ys → memcmp xs ys ≡ Ordering.eq → xs ≡ ys
unfolding memcmp
memcmp-eq [] [] h e = refl
memcmp-eq [] (y ∷ ys) h e = absurd (omega arith)
memcmp-eq (x ∷ xs) [] h e = absurd (omega arith)
memcmp-eq (x ∷ xs) (y ∷ ys) h e = ground (arith, memcmp-eq xs ys)

-- The fields that are hashed agree.
make_symmetric-reverse_flow :
    (t : FiveTuple) (protocol : ℕ)
    → IsTuple t
    → build_hash_input (make_symmetric (reverse_flow t)) protocol
      ≡ build_hash_input (make_symmetric t) protocol
unfolding make_symmetric build_hash_input copied
make_symmetric-reverse_flow t protocol v = ground (
  arith,
  memcmp-flip t.saddr6 t.daddr6,
  memcmp-eq t.saddr6 t.daddr6,
  ntohs_injective t.sport t.dport,
  ntohl_injective t.saddr4 t.daddr4,
)

-- In symmetric mode a packet and its answer have the same hash, whatever the key, the hash function
-- and the selected fields, for every tuple whose fields are in the range of their C types.
pub calc_hash-reverse_flow :
    (t : FiveTuple) (key : List ℕ) (hf : HashFunc) (protocol : ℕ)
    → IsTuple t
    → calc_hash (reverse_flow t) key hf protocol SymmetryMode.symmetric
      ≡ calc_hash t key hf protocol SymmetryMode.symmetric
unfolding calc_hash
calc_hash-reverse_flow t key hf protocol v = rw (make_symmetric-reverse_flow t protocol v)
