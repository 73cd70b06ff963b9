-- ===== src/Rcu.antt =====
-- include/utils/rcu.h: a value that readers look at and writers replace, under a `std::shared_mutex`.
-- The mutex is not this library's code: what is taken of it is that a shared lock is granted only while
-- no unique lock is held, and a unique lock only while no lock is held.
use vnic.Prelude.{
  ℕ, zero, suc, ◌+◌, ◌≤◌, ◌≡◌, refl, ◌∙◌, ap, sym, arith, List, [], ◌∷◌, some, total, total-set,
  get_elem?, set, All, ◌⊎◌, inl, inr,
}
use mathlib.Core.Option.{some-injective}
use mathlib.Core.Path.{subst}
mod Tests

-- What a thread does: nothing; `read` or `snapshot` under the shared lock, having looked at these
-- values of `value_` so far, the last one first; or `write` of a value under the unique lock.
pub data Place {ℓ} (T : Type ℓ) : Type ℓ where
  outside : Place T
  reading : List T → Place T
  writing : T → Place T

-- `value_`, the value that was written last, and the threads.
pub record Cell {ℓ} (T : Type ℓ) : Type ℓ where
  pub value : T
  pub published : T
  pub threads : List (Place T)

module _ {ℓ} {T : Type ℓ} where
  abbrev is_reading : Place T → ℕ
  is_reading (reading seen) = 1
  is_reading _ = 0

  abbrev is_writing : Place T → ℕ
  is_writing (writing new) = 1
  is_writing _ = 0

  abbrev pub readers : List (Place T) → ℕ
  readers = total is_reading

  abbrev pub writers : List (Place T) → ℕ
  writers = total is_writing

  abbrev pub At : Cell T → ℕ → Place T → Type ℓ
  At c i t = get_elem? c.threads i ≡ some t

  abbrev pub go : Cell T → ℕ → Place T → Cell T
  go c i t = record c { threads = set c.threads i t }

  -- A step of thread `i`. While a value is written, `value_` may be anything.
  pub data Step (c : Cell T) : Cell T → Type ℓ where
    enter_read :
        (i : ℕ) → At c i Place.outside → writers c.threads ≡ 0 → Step c (go c i (Place.reading []))
    look :
        (i : ℕ) (seen : List T)
        → At c i (Place.reading seen)
        → Step c (go c i (Place.reading (c.value ∷ seen)))
    leave_read :
        (i : ℕ) (seen : List T) → At c i (Place.reading seen) → Step c (go c i Place.outside)
    enter_write :
        (i : ℕ) (new : T)
        → At c i Place.outside
        → writers c.threads + readers c.threads ≡ 0
        → Step c (go c i (Place.writing new))
    store : (i : ℕ) (new v : T) → At c i (Place.writing new) → Step c (record c { value = v })
    leave_write :
        (i : ℕ) (new : T)
        → At c i (Place.writing new)
        → Step c (record { value = new; published = new; threads = set c.threads i Place.outside })

  pub data Run (c : Cell T) : Cell T → Type ℓ where
    begin : Run c c
    step : {d e : Cell T} → Run c d → Step d e → Run c e

  -- All that a reader has seen is this value.
  abbrev pub Saw : T → Place T → Type ℓ
  Saw v (reading seen) = All (λ s. s ≡ v) seen
  Saw v _ = All (λ s. s ≡ v) []

  -- The invariant.
  record IsConsistent (c : Cell T) : Type ℓ where
    current : (c.value ≡ c.published) ⊎ (1 ≤ writers c.threads)
    alone : (writers c.threads ≡ 0) ⊎ ((writers c.threads ≡ 1) × (readers c.threads ≡ 0))
    seen : All (Saw c.published) c.threads

  All-set :
      (v : T) (ts : List (Place T)) (i : ℕ) (b : Place T)
      → All (Saw v) ts
      → Saw v b
      → All (Saw v) (set ts i b)
  All-set v [] i b s k = s
  All-set v (t ∷ ts) zero b (s, ss) k = (k, ss)
  All-set v (t ∷ ts) (suc i) b (s, ss) k = (s, All-set v ts i b ss k)

  Saw-at :
      (v : T) (ts : List (Place T)) (i : ℕ) (a : Place T)
      → All (Saw v) ts
      → get_elem? ts i ≡ some a
      → Saw v a
  Saw-at v [] i a s e = absurd (cc e)
  Saw-at v (t ∷ ts) zero a (s, ss) e = subst (Saw v) (some-injective t a e) s
  Saw-at v (t ∷ ts) (suc i) a (s, ss) e = Saw-at v ts i a ss e

  -- Where nobody reads, nobody has seen anything.
  Saw-none : (v : T) (ts : List (Place T)) → readers ts ≡ 0 → All (Saw v) ts
  Saw-none v [] e = tt
  Saw-none v (Place.outside ∷ ts) e = (tt, Saw-none v ts (omega (arith, e)))
  Saw-none v (Place.reading seen ∷ ts) e = absurd (omega (arith, e))
  Saw-none v (Place.writing new ∷ ts) e = (tt, Saw-none v ts (omega (arith, e)))

  -- What a move of thread `i` from `a` to `b` does to the numbers of readers and writers.
  abbrev Counts : Cell T → ℕ → Place T → Place T → Type 0
  Counts c i a b =
      (readers (set c.threads i b) + is_reading a ≡ readers c.threads + is_reading b)
      × (writers (set c.threads i b) + is_writing a ≡ writers c.threads + is_writing b)

  counts : (c : Cell T) (i : ℕ) (a b : Place T) → At c i a → Counts c i a b
  counts c i a b at' =
      (total-set is_reading c.threads i a b at', total-set is_writing c.threads i a b at')

  -- A thread that does not write, before or after, leaves `value_` current.
  still_current :
      (c : Cell T) (i : ℕ) (a b : Place T)
      → At c i a
      → is_writing a ≡ 0
      → is_writing b ≡ 0
      → (c.value ≡ c.published) ⊎ (1 ≤ writers c.threads)
      → (c.value ≡ c.published) ⊎ (1 ≤ writers (set c.threads i b))
  still_current c i a b at' f g (inl e) = inl e
  still_current c i a b at' f g (inr w) = inr (omega (arith, (counts c i a b at').1, f, g, w))

  -- While somebody reads, `value_` is what was written last.
  read_current :
      (c : Cell T) (i : ℕ) (seen : List T)
      → At c i (reading seen)
      → IsConsistent c
      → c.value ≡ c.published
  read_current c i seen at' k = elim k.current [
    | inl e ↦ e
    | inr w ↦ absurd (ground (arith, w, k.alone, (counts c i (reading seen) outside at').0))
  ]

  Step-IsConsistent : (c d : Cell T) → Step c d → IsConsistent c → IsConsistent d
  Step-IsConsistent c d (enter_read i at' free) k =
      let (r, w) = counts c i outside (reading []) at' in
      record {
        current = still_current c i outside (reading []) at' refl refl k.current;
        alone = inl (omega (arith, w, free));
        seen = All-set c.published c.threads i (reading []) k.seen tt;
      }
  Step-IsConsistent c d (look i seen at') k =
      let (r, w) = counts c i (reading seen) (reading (c.value ∷ seen)) at' in
      record {
        current =
            still_current c i (reading seen) (reading (c.value ∷ seen)) at' refl refl k.current;
        alone = ground (arith, r, w, k.alone);
        seen =
            All-set c.published c.threads i (reading (c.value ∷ seen)) k.seen (
              read_current c i seen at' k,
              Saw-at c.published c.threads i (reading seen) k.seen at',
            );
      }
  Step-IsConsistent c d (leave_read i seen at') k =
      let (r, w) = counts c i (reading seen) outside at' in
      record {
        current = still_current c i (reading seen) outside at' refl refl k.current;
        alone = ground (arith, r, w, k.alone);
        seen = All-set c.published c.threads i outside k.seen tt;
      }
  Step-IsConsistent c d (enter_write i new at' free) k =
      let (r, w) = counts c i outside (writing new) at' in
      record {
        current = inr (omega (arith, w));
        alone = inr (omega (arith, w, free), omega (arith, r, free));
        seen = All-set c.published c.threads i (writing new) k.seen tt;
      }
  Step-IsConsistent c d (store i new v at') k =
      let (r, w) = counts c i (writing new) outside at' in
      record { current = inr (omega (arith, w)); alone = k.alone; seen = k.seen }
  Step-IsConsistent c d (leave_write i new at') k =
      let (r, w) = counts c i (writing new) outside at' in
      let none_reads : readers (set c.threads i outside) ≡ 0 = ground (arith, r, w, k.alone) in
      record {
        current = inl refl;
        alone = inl (ground (arith, r, w, k.alone));
        seen = Saw-none new (set c.threads i outside) none_reads;
      }

  Run-IsConsistent : (c d : Cell T) → Run c d → IsConsistent c → IsConsistent d
  Run-IsConsistent c d begin k = k
  Run-IsConsistent c d (step {d = b} q s) k = Step-IsConsistent b d s (Run-IsConsistent c b q k)

  -- In every interleaving of reads and writes by any number of threads, all that a reader sees under
  -- one lock is one value, the one that was written completely last, although the writers make
  -- arbitrary intermediate stores; and while a thread writes, no other thread reads or writes. At the
  -- start no thread is inside and `value_` is what was written last.
  pub Run-Saw :
      (c d : Cell T)
      → c.value ≡ c.published
      → readers c.threads ≡ 0
      → writers c.threads ≡ 0
      → Run c d
      → All (Saw d.published) d.threads
        × ((writers d.threads ≡ 0) ⊎ ((writers d.threads ≡ 1) × (readers d.threads ≡ 0)))
  Run-Saw c d e r w q =
      let k =
        Run-IsConsistent c d q
          (record { current = inl e; alone = inl w; seen = Saw-none c.published c.threads r }) in
      (k.seen, k.alone)
