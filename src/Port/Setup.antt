-- ===== src/Port/Setup.antt =====
-- `configureRss` after a configuration has been validated.
use native.Mathlib.Nat.{mod-lt}
use vnic.Prelude.{
  ◌%◌, ◌≢◌, get_elem?, some, [], ◌∷◌, ℕ, zero, suc, ◌+◌, ◌<◌, ◌≡◌, refl, sym, ap, ◌∙◌, arith, Bool,
  true, false, Bool-cases, inl, inr, List, Returns, length, ◌⊎◌, ◌==◌, if◌then◌else◌,
}
use vnic.ErrorCode.{ErrorCode, eqb, value, done}
use vnic.Link.Pipe
use vnic.Port.Config.{
  or_code, Rss, Config, validate, validate_lists, passes_mask, all_queues, validate_rss,
}
use vnic.Port.Table.{reta_size, round_robin, init_reta, update_reta, configure_rss, lookup}
use vnic.Port.Reta.{IsTable, power-passes_mask, all_queues-All, lookup-IsTable}

round_robin_queues :
    (rest i count : ℕ) → 0 < count → all_queues (round_robin rest i count) count ≡ true
unfolding round_robin all_queues
round_robin_queues zero i count h = refl
round_robin_queues (suc rest) i count h =
    ground (arith, mod-lt i h, round_robin_queues rest (i + 1) count h)

length-round_robin : (rest i count : ℕ) → length (round_robin rest i count) ≡ rest
unfolding round_robin
length-round_robin zero i count = refl
length-round_robin (suc rest) i count = omega (arith, length-round_robin rest (i + 1) count)

if-none :
    (c : Bool) (a b : ErrorCode)
    → (if c then b else a) ≡ ErrorCode.none
    → ((c ≡ true) × (b ≡ ErrorCode.none)) ⊎ ((c ≡ false) × (a ≡ ErrorCode.none))
if-none true a b h = inl (refl, h)
if-none false a b h = inr (refl, h)

or_code-none :
    (a b : ErrorCode)
    → or_code a b ≡ ErrorCode.none
    → (eqb a ErrorCode.none ≡ true) × (b ≡ ErrorCode.none)
unfolding eqb value
or_code-none a b h = elim (if-none (eqb a ErrorCode.none) a b h) [
  | inl both ↦ both
  | inr (bad, e) ↦ absurd (cc (sym bad ∙ ap (λ k. eqb k ErrorCode.none) e))
]

-- The entries are 0, 1 and so on, and again from 0 after the last queue.
abbrev pub IsRoundRobin : ℕ → List ℕ → Type 0
IsRoundRobin count table =
    (length table ≡ 512) × ((i : ℕ) → i < 512 → get_elem? table i ≡ some (i % count))

get_elem?-round_robin :
    (rest first count i : ℕ)
    → i < rest
    → get_elem? (round_robin rest first count) i ≡ some ((first + i) % count)
unfolding round_robin
get_elem?-round_robin zero first count i h = absurd (omega arith)
get_elem?-round_robin (suc rest) first count zero h = ap (λ k. some (k % count)) (omega arith)
get_elem?-round_robin (suc rest) first count (suc i) h =
    get_elem?-round_robin rest (first + 1) count i (omega arith)
    ∙ ap (λ k. some (k % count)) (omega arith)

-- The table of a configuration with RSS on: the one that it gives, or round-robin.
abbrev pub IsWanted : Rss → ℕ → List ℕ → Type 0
IsWanted c count table = (c.reta ≡ []) × IsRoundRobin count table ⊎ (c.reta ≢ []) × (table ≡ c.reta)

no_entries : (xs : List ℕ) → (length xs == 0) ≡ true → xs ≡ []
no_entries [] e = refl
no_entries (x ∷ xs) e = absurd (ground arith)

some_entries : (xs : List ℕ) → (length xs == 0) ≡ false → xs ≢ []
some_entries xs e d = absurd (cc (e, ap (λ ys. length ys == 0) d))

-- What passing `Rss::validate` says of the table in the configuration.
validate_rss-none :
    (c : Rss)
    → eqb (validate_rss c) ErrorCode.none ≡ true
    → c.enabled ≡ true
    → (length c.reta == 0) ≡ false
    → passes_mask (length c.reta) ≡ true
unfolding validate_rss eqb value
validate_rss-none c h on given = ground arith

validate_lists-none {ℓ} :
    {Text : Type ℓ} (scan_mac : Text → List ℕ) (is_empty : Text → Bool) (c : Config Text)
    → validate_lists scan_mac is_empty c ≡ ErrorCode.none
    → c.rss.enabled ≡ true
    → ((c.rx_queue_count == 0) ≡ false) × (all_queues c.rss.reta c.rx_queue_count ≡ true)
unfolding validate_lists
validate_lists-none scan_mac is_empty c h on = ground arith

pub validate-none {ℓ} :
    {Text : Type ℓ} (scan_mac : Text → List ℕ) (is_empty : Text → Bool) (c : Config Text)
    → validate scan_mac is_empty c ≡ ErrorCode.none
    → (eqb (validate_rss c.rss) ErrorCode.none ≡ true)
      × (validate_lists scan_mac is_empty c ≡ ErrorCode.none)
      × (eqb (Pipe.validate c.link) ErrorCode.none ≡ true)
unfolding validate
validate-none scan_mac is_empty c h =
    let lists = validate_lists scan_mac is_empty c in
    let rest = or_code (validate_rss c.rss) lists in
    elim (if-none (c.mtu == 0) (or_code (Pipe.validate c.link) rest) ErrorCode.config_mtu_invalid
      h) [
        | inl (e, absurd') ↦ absurd (cc absurd')
        | inr (e, r) ↦
            let outer = or_code-none (Pipe.validate c.link) rest r in
            let inner = or_code-none (validate_rss c.rss) lists outer.1 in
            (inner.0, inner.1, outer.0)
      ]

module _ (c : Rss) (count : ℕ) (current : List ℕ) where
  init_round_robin :
      (count == 0) ≡ false
      → (length c.reta == 0) ≡ true
      → init_reta c count ≡ (round_robin reta_size 0 count, done)
  unfolding init_reta
  init_round_robin n e = rw (n, e) refl

  init_given :
      (count == 0) ≡ false
      → (length c.reta == 0) ≡ false
      → passes_mask (length c.reta) ≡ true
      → all_queues c.reta count ≡ true
      → init_reta c count ≡ (c.reta, done)
  unfolding init_reta
  init_given n e m a = rw (n, e, m, a) refl

  updated :
      (table : List ℕ)
      → (length table == 0) ≡ false
      → passes_mask (length table) ≡ true
      → all_queues table count ≡ true
      → update_reta table count current ≡ (table, done)
  unfolding update_reta
  updated table n m a = rw (n, m, a) refl

  -- A filled table of queues goes into force.
  configured :
      (table : List ℕ)
      → c.enabled ≡ true
      → eqb (validate_rss c) ErrorCode.none ≡ true
      → init_reta c count ≡ (table, done)
      → (length table == 0) ≡ false
      → passes_mask (length table) ≡ true
      → all_queues table count ≡ true
      → (configure_rss c count current ≡ (table, done)) × IsTable count table
  unfolding configure_rss
  configured table on v i n m a = (
    rw (v, i, ap (λ r. update_reta r.0 count current) i ∙ updated table n m a, on) refl,
    record {
      nonempty = ground arith;
      power = power-passes_mask (length table) (ground arith) m;
      entries = all_queues-All table count a;
    },
  )

module _ {ℓ} {Text : Type ℓ} (scan_mac : Text → List ℕ) (is_empty : Text → Bool) (c : Config Text)
    (current : List ℕ) where
  -- The table that a valid configuration puts in force.
  pub configure_rss-IsTable :
      c.rss.enabled ≡ true
      → validate scan_mac is_empty c ≡ ErrorCode.none
      → (table : List ℕ) × ((configure_rss c.rss c.rx_queue_count current ≡ (table, done))
          × IsTable c.rx_queue_count table
          × IsWanted c.rss c.rx_queue_count table)
  configure_rss-IsTable on valid =
      let passed = validate-none scan_mac is_empty c valid in
      let lists = validate_lists-none scan_mac is_empty c passed.1 on in
      elim (Bool-cases (length c.rss.reta == 0)) [
        | inl automatic ↦ (
          round_robin reta_size 0 c.rx_queue_count,
          wanted
              (configured c.rss c.rx_queue_count current _ on passed.0
                (init_round_robin c.rss c.rx_queue_count current lists.0 automatic) size_test
                mask_test (round_robin_queues reta_size 0 c.rx_queue_count (ground arith)))
              (inl (
                no_entries c.rss.reta automatic,
                (
                  length-round_robin reta_size 0 c.rx_queue_count,
                  λ i h.
                      get_elem?-round_robin reta_size 0 c.rx_queue_count i h
                      ∙ ap (λ k. some (k % c.rx_queue_count)) (omega arith),
                ),
              )),
        )
        | inr given ↦
            let mask = validate_rss-none c.rss passed.0 on given in
            (
              c.rss.reta,
              wanted
                  (configured c.rss c.rx_queue_count current _ on passed.0
                    (init_given c.rss c.rx_queue_count current lists.0 given mask lists.1) given
                    mask lists.1)
                  (inr (some_entries c.rss.reta given, refl)),
            )
      ]
    where
      wanted :
          {table : List ℕ}
          → (configure_rss c.rss c.rx_queue_count current ≡ (table, done))
            × IsTable c.rx_queue_count table
          → IsWanted c.rss c.rx_queue_count table
          → (configure_rss c.rss c.rx_queue_count current ≡ (table, done))
            × IsTable c.rx_queue_count table
            × IsWanted c.rss c.rx_queue_count table
      wanted k w = (k.0, k.1, w)

      size_test : (length (round_robin reta_size 0 c.rx_queue_count) == 0) ≡ false
      size_test = rw (length-round_robin reta_size 0 c.rx_queue_count) refl

      mask_test : passes_mask (length (round_robin reta_size 0 c.rx_queue_count)) ≡ true
      mask_test = rw (length-round_robin reta_size 0 c.rx_queue_count) refl

  -- With RSS on, a configuration that passes `Config::validate` never fails in `configureRss`, and the
  -- table that it puts in force, given or round-robin, sends every hash to a receive queue.
  pub configure_rss-validate :
      c.rss.enabled ≡ true
      → validate scan_mac is_empty c ≡ ErrorCode.none
      → let (table, s) = configure_rss c.rss c.rx_queue_count current in
        (s ≡ done) × ((hash : ℕ) → Returns (λ k. k < c.rx_queue_count) (lookup table hash))
  configure_rss-validate on valid =
      let (table, (e, t, w)) = configure_rss-IsTable on valid in
      rw e (refl, λ hash. lookup-IsTable table c.rx_queue_count hash t)
