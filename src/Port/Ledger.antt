-- ===== src/Port/Ledger.antt =====
-- The packets that the receive queues of a port are answerable for, over one heap.
use mathlib.Core.Path.{subst}
use mathlib.Core.List.{append_assoc}
use mathlib.Core.Option.{some-injective}
use vnic.Prelude.{
  ℕ, zero, suc, ◌≡◌, refl, ◌∙◌, ap, sym, arith, true, false, List, [], ◌∷◌, ◌++◌, some, get_elem?,
  set,
}
use vnic.Memory.Heap.{Heap}
use vnic.Memory.Chain.{mem, Distinct, Owns}
use vnic.Memory.Split.{mem-append, Apart, Distinct-append, without}
use vnic.Memory.Exchange.{exchanged, untouched}
use vnic.Stateful.Automaton.{State, Machine}
use vnic.RxQueue.Queue.{RxQueue}
use vnic.RxQueue.Ledger.{Entry, blocks, All-IsStored}
use vnic.RxQueue.Account.{IsLedger}

-- What a queue of `size` descriptors has lent to the application, and what waits in it.
pub record Account : Type 0 where
  pub size : ℕ
  pub lent : List Entry
  pub used : List Entry

abbrev pub account_blocks : Account → List ℕ
account_blocks a = blocks (a.lent ++ a.used)

abbrev pub all_blocks : List Account → List ℕ
all_blocks [] = []
all_blocks (a ∷ accounts) = account_blocks a ++ all_blocks accounts

-- A running queue in the heap `h`, over the heap without its blocks.
abbrev pub IsBooked : Heap → Machine RxQueue → Account → Type 0
IsBooked h q a =
    (q.state ≡ State.started)
    × IsLedger a.size (without (account_blocks a) h) q.object h a.lent a.used

abbrev pub AllBooked : Heap → List (Machine RxQueue) → List Account → Type 0
AllBooked h [] [] = Unit
AllBooked h (q ∷ qs) (a ∷ accounts) = IsBooked h q a × AllBooked h qs accounts
AllBooked h [] (a ∷ accounts) = ⊥
AllBooked h (q ∷ qs) [] = ⊥

-- The queues of a port: `h` has the blocks of their packets and otherwise is `h0`.
pub record IsPortLedger (h0 : Heap) (qs : List (Machine RxQueue)) (h : Heap)
    (accounts : List Account) : Type 0 where
  pub booked : AllBooked h qs accounts
  pub owned : Owns h0 h (all_blocks accounts)

-- A queue is booked in any heap that has its blocks, over whatever heap it was.
pub rebase :
    (g h h' : Heap) (q : RxQueue) (a : Account)
    → IsLedger a.size g q h a.lent a.used
    → ((p : ℕ) → mem p (account_blocks a) ≡ true → h' p ≡ h p)
    → IsLedger a.size (without (account_blocks a) h') q h' a.lent a.used
rebase g h h' q a l same = record {
  queued = l.queued;
  stored = All-IsStored (a.lent ++ a.used) h h' same l.stored;
  short = l.short;
  owned = record {
    fresh = λ p e. ground (arith, e);
    kept = λ p e. ground (arith, e);
    present = λ p e. ground (arith, e, same p e, l.owned.present p e);
    distinct = l.owned.distinct;
  };
  live = l.live;
  count = l.count;
  capacity = l.capacity;
}

pub AllBooked-same :
    (h h' : Heap) (qs : List (Machine RxQueue)) (accounts : List Account)
    → AllBooked h qs accounts
    → ((p : ℕ) → mem p (all_blocks accounts) ≡ true → h' p ≡ h p)
    → AllBooked h' qs accounts
AllBooked-same h h' [] [] b same = tt
AllBooked-same h h' (q ∷ qs) (a ∷ accounts) ((s, l), b) same = (
  (
    s,
    rebase _ h h' q.object a l
        (λ p e. same p (ground (arith, e, mem-append p (account_blocks a) (all_blocks accounts)))),
  ),
  AllBooked-same h h' qs accounts b
      (λ p e. same p (ground (arith, e, mem-append p (account_blocks a) (all_blocks accounts)))),
)
AllBooked-same h h' [] (a ∷ accounts) b same = b
AllBooked-same h h' (q ∷ qs) [] b same = b

-- The account of a queue.
pub account_of :
    (h : Heap) (qs : List (Machine RxQueue)) (accounts : List Account) (i : ℕ) (q : Machine RxQueue)
    → AllBooked h qs accounts
    → get_elem? qs i ≡ some q
    → (a : Account) × (get_elem? accounts i ≡ some a) × IsBooked h q a
account_of h [] accounts i q b e = absurd (cc e)
account_of h (r ∷ qs) [] i q b e = elim b [ ]
account_of h (r ∷ qs) (a ∷ accounts) zero q b e =
    (a, refl, subst (λ k. IsBooked h k a) (some-injective r q e) b.0)
account_of h (r ∷ qs) (a ∷ accounts) (suc i) q b e = account_of h qs accounts i q b.1 e

-- The blocks by the account of one queue, and with another account in its place.
pub blocks_around :
    (accounts : List Account) (i : ℕ) (a a' : Account)
    → get_elem? accounts i ≡ some a
    → (before : List ℕ) × (after : List ℕ) × (all_blocks accounts
        ≡ before ++ (account_blocks a ++ after))
      × (all_blocks (set accounts i a') ≡ before ++ (account_blocks a' ++ after))
blocks_around [] i a a' e = absurd (cc e)
blocks_around (c ∷ accounts) zero a a' e = (
  [],
  all_blocks accounts,
  ap (λ k. account_blocks k ++ all_blocks accounts) (some-injective c a e),
  refl,
)
blocks_around (c ∷ accounts) (suc i) a a' e =
    let (before, after, f, g) = blocks_around accounts i a a' e in
    (
      account_blocks c ++ before,
      after,
      ap (◌++◌ (account_blocks c)) f
          ∙ sym (append_assoc (account_blocks c) before (account_blocks a ++ after)),
      ap (◌++◌ (account_blocks c)) g
          ∙ sym (append_assoc (account_blocks c) before (account_blocks a' ++ after)),
    )

mem-all_blocks :
    (accounts : List Account) (i : ℕ) (a : Account) (p : ℕ)
    → get_elem? accounts i ≡ some a
    → mem p (account_blocks a) ≡ true
    → mem p (all_blocks accounts) ≡ true
mem-all_blocks accounts i a p e m =
    let (before, after, f, g) = blocks_around accounts i a a e in
    ap (mem p) f
    ∙ ground (
      arith,
      m,
      mem-append p before (account_blocks a ++ after),
      mem-append p (account_blocks a) after,
    )

module _ (h h' : Heap) (q' : Machine RxQueue) (a a' : Account) (b' : IsBooked h' q' a') where
  -- One queue gets another account, and the blocks of the others stay.
  AllBooked-set :
      (qs : List (Machine RxQueue)) (accounts : List Account) (i : ℕ)
      → AllBooked h qs accounts
      → get_elem? accounts i ≡ some a
      → Distinct (all_blocks accounts)
      → ((p : ℕ)
          → mem p (all_blocks accounts) ≡ true
          → mem p (account_blocks a) ≡ false
          → h' p ≡ h p)
      → AllBooked h' (set qs i q') (set accounts i a')
  AllBooked-set qs [] i b e d same = absurd (cc e)
  AllBooked-set [] (c ∷ accounts) i b e d same = elim b [ ]
  AllBooked-set (q ∷ qs) (c ∷ accounts) zero b e d same =
      let apart = (Distinct-append (account_blocks c) (all_blocks accounts) d).2 in
      (b', AllBooked-same h h' qs accounts b.1 (λ p m. same p (here p m) (other p m apart)))
    where
      here : (p : ℕ) → mem p (all_blocks accounts) ≡ true → mem p (all_blocks (c ∷ accounts)) ≡ true
      here p m = ground (arith, m, mem-append p (account_blocks c) (all_blocks accounts))

      other :
          (p : ℕ)
          → mem p (all_blocks accounts) ≡ true
          → Apart (account_blocks c) (all_blocks accounts)
          → mem p (account_blocks a) ≡ false
      other p m apart =
          subst (λ k. mem p (account_blocks k) ≡ false) (some-injective c a e)
            (ground (arith, m, apart p))
  AllBooked-set (q ∷ qs) (c ∷ accounts) (suc i) ((s, l), b) e d same =
      let (dc, ds, apart) = Distinct-append (account_blocks c) (all_blocks accounts) d in
      (
        (s, rebase _ h h' q.object c l (λ p m. same p (first p m) (not_a p m apart))),
        AllBooked-set qs accounts i b e ds (λ p m f. same p (later p m) f),
      )
    where
      first : (p : ℕ) → mem p (account_blocks c) ≡ true → mem p (all_blocks (c ∷ accounts)) ≡ true
      first p m = ground (arith, m, mem-append p (account_blocks c) (all_blocks accounts))

      later :
          (p : ℕ) → mem p (all_blocks accounts) ≡ true → mem p (all_blocks (c ∷ accounts)) ≡ true
      later p m = ground (arith, m, mem-append p (account_blocks c) (all_blocks accounts))

      not_a :
          (p : ℕ)
          → mem p (account_blocks c) ≡ true
          → Apart (account_blocks c) (all_blocks accounts)
          → mem p (account_blocks a) ≡ false
      not_a p m apart = ground (arith, apart p m, mem-all_blocks accounts i a p e)

-- A queue that has come to another account, over the same heap without its blocks, leaves the port
-- with a ledger in which nothing else has changed.
pub ledger_step :
    (h0 h h' : Heap) (qs : List (Machine RxQueue)) (accounts : List Account) (i : ℕ)
    (q' : Machine RxQueue) (a a' : Account)
    → IsPortLedger h0 qs h accounts
    → get_elem? accounts i ≡ some a
    → q'.state ≡ State.started
    → IsLedger a'.size (without (account_blocks a) h) q'.object h' a'.lent a'.used
    → IsPortLedger h0 (set qs i q') h' (set accounts i a')
ledger_step h0 h h' qs accounts i q' a a' l e s k =
    let (before, after, f, g) = blocks_around accounts i a a' e in
    let owned = subst (Owns h0 h) f l.owned in
    record {
      booked =
          AllBooked-set h h' q' a a' (s, rebase _ h' h' q'.object a' k (λ p m. refl)) qs accounts i
            l.booked e l.owned.distinct
            (λ p m n.
              untouched before (account_blocks a) after (account_blocks a') h0 h h' owned k.owned p
                (ap (mem p) (sym f) ∙ m) n);
      owned =
          subst (Owns h0 h') (sym g)
            (exchanged before (account_blocks a) after (account_blocks a') h0 h h' owned k.owned);
    }
