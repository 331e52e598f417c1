-- ===== src/Lock/Fifo/Laws.antt =====
-- The abstract lock keeps its invariant, lets in one thread at a time, and never strands a waiter.
use izem.Prelude.{
  ℕ, suc, ◌+◌, ◌≤◌, ◌<◌, ◌≡◌, ◌≢◌, ◌↔◌, ◌⊎◌, inl, inr, some, refl, arith, ℕ_discrete, dec_lt, ap,
  ◌∙◌,
}
use izem.Prelude.Family.{total, total_change, total_congr, total-zero}
use izem.Lock.Fifo.{
  Role, number, out, waiting, inside, Fifo, Others, FifoStep, arrive, enter, try_enter, leave,
  stutter, weight, Has, FifoInv,
}

module _ {n : ℕ} {s : Fifo} (inv : FifoInv n s) (t : Fifo) (i : ℕ) (lt : i < n)
    (same : Others i s t) where
  change : total weight n t.role + weight (s.role i) ≡ total weight n s.role + weight (t.role i)
  change = total_change weight n s.role t.role i lt same

  idle_keeps : (j : ℕ) → n ≤ j → t.role j ≡ out
  idle_keeps j le = same j (omega arith) ∙ inv.idle j le

  who : (j : ℕ) → (j ≡ i) ⊎ (t.role j ≡ s.role j)
  who j = elim (ℕ_discrete j i) [ yes e ↦ inl e | no ne ↦ inr (same j ne) ]

  arrive-FifoInv :
      s.role i ≡ out
      → t.role i ≡ waiting s.arrivals
      → t.arrivals ≡ suc s.arrivals
      → t.served ≡ s.served
      → FifoInv n t
  arrive-FifoInv was now more still = record {
    counted = ground (arith, change, inv.counted);
    idle = idle_keeps;
    range = λ j k q. ground (arith, who j, inv.range j k, inv.counted);
    turn = λ j k q. ground (arith, who j, inv.turn j k);
    unique =
        λ a b k qa qb. ground (arith, who a, who b, inv.unique a b k, inv.range a k, inv.range b k);
    covered = λ k lo hi. elim (ℕ_discrete k s.arrivals) [
      | yes e ↦ (i, ground arith)
      | no ne ↦
          let (j, has) = inv.covered k (omega arith) (omega arith) in (j, ground (arith, who j))
    ];
  }

  enter-FifoInv :
      s.role i ≡ waiting s.served
      → t.role i ≡ inside s.served
      → t.arrivals ≡ s.arrivals
      → t.served ≡ s.served
      → FifoInv n t
  enter-FifoInv was now more still = record {
    counted = ground (arith, change, inv.counted);
    idle = idle_keeps;
    range = λ j k q. ground (arith, who j, inv.range j k, inv.range i s.served);
    turn = λ j k q. ground (arith, who j, inv.turn j k);
    unique = λ a b k qa qb. ground (arith, who a, who b, inv.unique a b k);
    covered = λ k lo hi.
        let (j, has) = inv.covered k (omega arith) (omega arith) in (j, ground (arith, who j));
  }

  try_enter-FifoInv :
      s.role i ≡ out
      → s.arrivals ≡ s.served
      → t.role i ≡ inside s.served
      → t.arrivals ≡ suc s.arrivals
      → t.served ≡ s.served
      → FifoInv n t
  try_enter-FifoInv was free now more still = record {
    counted = ground (arith, change, inv.counted);
    idle = idle_keeps;
    range = λ j k q. ground (arith, who j, inv.range j k);
    turn = λ j k q. ground (arith, who j, inv.turn j k);
    unique =
        λ a b k qa qb. ground (arith, who a, who b, inv.unique a b k, inv.range a k, inv.range b k);
    covered = λ k lo hi. (i, ground arith);
  }

  leave-FifoInv :
      s.role i ≡ inside s.served
      → t.role i ≡ out
      → t.arrivals ≡ s.arrivals
      → t.served ≡ suc s.served
      → FifoInv n t
  leave-FifoInv was now more still = record {
    counted = ground (arith, change, inv.counted);
    idle = idle_keeps;
    range = λ j k q. ground (arith, who j, inv.range j k, inv.unique i j s.served);
    turn = λ j k q. ground (arith, who j, inv.turn j k, inv.unique i j s.served);
    unique = λ a b k qa qb. ground (arith, who a, who b, inv.unique a b k);
    covered = λ k lo hi.
        let (j, has) = inv.covered k (omega arith) (omega arith) in (j, ground (arith, who j));
  }

stutter-FifoInv :
    {n : ℕ} {s : Fifo} (inv : FifoInv n s) (t : Fifo)
    → ((j : ℕ) → t.role j ≡ s.role j)
    → t.arrivals ≡ s.arrivals
    → t.served ≡ s.served
    → FifoInv n t
stutter-FifoInv {n} {s} inv t same more still = record {
  counted =
      omega (arith, total_congr weight n s.role t.role (λ j lt. ap weight (same j)), inv.counted);
  idle = λ j le. same j ∙ inv.idle j le;
  range = λ j k q. ground (arith, same j, inv.range j k);
  turn = λ j k q. ground (arith, same j, inv.turn j k);
  unique = λ a b k qa qb. ground (arith, same a, same b, inv.unique a b k);
  covered = λ k lo hi.
      let (j, has) = inv.covered k (omega arith) (omega arith) in (j, ground (arith, same j));
}

-- Every step of the abstract lock keeps its invariant.
pub FifoStep-FifoInv : {n : ℕ} {s t : Fifo} → FifoInv n s → FifoStep n s t → FifoInv n t
FifoStep-FifoInv {t} inv (arrive i lt same a b c d) = arrive-FifoInv inv t i lt same a b c d
FifoStep-FifoInv {t} inv (enter i lt same a b c d) = enter-FifoInv inv t i lt same a b c d
FifoStep-FifoInv {t} inv (try_enter i lt same a b c d e) =
    try_enter-FifoInv inv t i lt same a b c d e
FifoStep-FifoInv {t} inv (leave i lt same a b c d) = leave-FifoInv inv t i lt same a b c d
FifoStep-FifoInv {t} inv (stutter same a b) = stutter-FifoInv inv t same a b

-- At most one thread is inside.
pub Fifo-exclusive :
    {n : ℕ} {s : Fifo}
    → FifoInv n s
    → (i j k l : ℕ) → s.role i ≡ inside k
    → s.role j ≡ inside l
    → i ≡ j
Fifo-exclusive {s} inv i j k l p q =
    inv.unique i j s.served (ground (arith, inv.turn i k)) (ground (arith, inv.turn j l))

-- No number is taken before its turn: every other waiter has a later number than the one inside.
pub Fifo-order :
    {n : ℕ} {s : Fifo}
    → FifoInv n s
    → (i j k l : ℕ) → s.role i ≡ inside k
    → s.role j ≡ waiting l
    → k < l
Fifo-order inv i j k l p q = ground (arith, inv.turn i k, inv.range j l, inv.unique i j k)

-- While a thread waits, some thread has the number being served.
pub Fifo-progress :
    {n : ℕ} {s : Fifo} → FifoInv n s → (i k : ℕ) → s.role i ≡ waiting k → Has s s.served
Fifo-progress {s} inv i k q =
    let r : (s.served ≤ k) × (k < s.arrivals) = inv.range i k (ground arith) in
    inv.covered s.served (omega arith) (omega arith)

out_of_none : (r : Role) → ((k : ℕ) → number r ≢ some k) → r ≡ out
out_of_none out h = refl
out_of_none (waiting k) h = absurd (h k refl)
out_of_none (inside k) h = absurd (h k refl)

-- All numbers are served exactly when every thread is outside.
pub Fifo-free :
    {n : ℕ} {s : Fifo} → FifoInv n s → (s.arrivals ≡ s.served) ↔ ((j : ℕ) → s.role j ≡ out)
Fifo-free {s} inv = (
  λ e j. out_of_none (s.role j) λ k q. ground (arith, inv.range j k),
  λ free. elim (dec_lt s.served s.arrivals) [
    | yes lt ↦ let (j, has) = inv.covered s.served (omega arith) lt in ground (arith, free j)
    | no ge ↦ ground (arith, inv.counted)
  ],
)

-- For the thread inside: only its own number is out exactly when all others are outside.
pub Fifo-alone :
    {n : ℕ} {s : Fifo}
    → FifoInv n s
    → (i k : ℕ) → s.role i ≡ inside k
    → (s.arrivals ≡ s.served + 1) ↔ ((j : ℕ) → j ≢ i → s.role j ≡ out)
Fifo-alone {s} inv i k q = (
  λ e j ne.
      out_of_none (s.role j)
        λ l h. ne (ground (arith, inv.range j l, inv.turn i k, inv.unique j i k)),
  λ alone. elim (dec_lt (s.served + 1) s.arrivals) [
    | yes lt ↦
        let (j, has) = inv.covered (s.served + 1) (omega arith) lt in
        absurd (ground (arith, alone j, inv.turn i k))
    | no ge ↦ ground (arith, inv.range i k)
  ],
)

-- A new lock.
abbrev pub empty : Fifo
empty = record { arrivals = 0; served = 0; role = λ i. out }

pub FifoInv-empty : (n : ℕ) → FifoInv n empty
FifoInv-empty n = record {
  counted = omega (arith, total-zero weight n empty.role (λ i. refl));
  idle = λ i le. refl;
  range = λ i k q. cc;
  turn = λ i k q. cc;
  unique = λ i j k q r. cc;
  covered = λ k lo hi. absurd (omega arith);
}
