-- ===== src/Heap.antt =====
-- Commands that read and write a heap of records, one type of record to a heap. A read or write
-- through `NULL` or through an address that holds nothing is a fault.
use izem.Prelude.{ℕ, ◌≡◌, ◌≢◌, arith, Option, none, some, ◌==◌, if◌then◌else◌}
use izem.Prelude.Family.{put}

abbrev pub Ptr : Type 0
Ptr = ℕ

abbrev pub null : Ptr
null = 0

abbrev pub Heap : Type 0 → Type 0
Heap N = Ptr → Option N

pub data Run (N A : Type 0) : Type 0 where
  ok : A → Heap N → Run N A
  fault : Run N A
  out_of_fuel : Run N A

abbrev pub Cmd : Type 0 → Type 0 → Type 0
Cmd N A = Heap N → Run N A

abbrev pub pure : {N A : Type 0} → A → Cmd N A
pure = ok

module _ {N A B : Type 0} where
  abbrev pub and_then : Run N A → (A → Cmd N B) → Run N B
  and_then (ok a h) k = k a h
  and_then fault k = fault
  and_then out_of_fuel k = out_of_fuel

  infixl 5 ◌>>=◌ ◌>>◌
  abbrev pub ◌>>=◌ : Cmd N A → (A → Cmd N B) → Cmd N B
  m >>= k = λ h. and_then (m h) k

  abbrev pub ◌>>◌ : Cmd N A → Cmd N B → Cmd N B
  m >> n = m >>= λ _. n

module _ {N : Type 0} where
  -- `*p`
  unfoldable pub load : Ptr → Cmd N N
  load p h = if p == null then fault else elim (h p) [ none ↦ fault | some n ↦ ok n h ]

  -- The record at `p` is changed by `f`.
  unfoldable pub modify : Ptr → (N → N) → Cmd N (Unit {0})
  unfolding load
  modify p f = do n ← load p; λ h. ok tt (put h p (some (f n)))

  unfoldable pub free : Ptr → Cmd N (Unit {0})
  unfolding load
  free p = do n ← load p; λ h. ok tt (put h p none)

  -- `malloc` has returned `p`, and the fields are written.
  abbrev pub create : Ptr → N → Cmd N (Unit {0})
  create p n h = ok tt (put h p (some n))

  -- A run ends without a fault and within its fuel, in a state that satisfies `P`.
  abbrev pub Ensures : {A : Type 0} → (A → Heap N → Type 0) → Run N A → Type 0
  Ensures P (ok a h) = P a h
  Ensures P fault = ⊥
  Ensures P out_of_fuel = ⊥

  pub Ensures-mono :
      {A : Type 0} (P Q : A → Heap N → Type 0) (r : Run N A)
      → ((a : A) (h : Heap N) → P a h → Q a h)
      → Ensures P r
      → Ensures Q r
  Ensures-mono P Q (ok a h) weaken p = weaken a h p
  Ensures-mono P Q fault weaken p = p
  Ensures-mono P Q out_of_fuel weaken p = p

  pub Ensures-bind :
      {A B : Type 0} (P : A → Heap N → Type 0) (Q : B → Heap N → Type 0) (r : Run N A)
      (k : A → Cmd N B)
      → ((a : A) (h : Heap N) → P a h → Ensures Q (k a h))
      → Ensures P r
      → Ensures Q (and_then r k)
  Ensures-bind P Q (ok a h) k next p = next a h p
  Ensures-bind P Q fault k next p = absurd p
  Ensures-bind P Q out_of_fuel k next p = absurd p

  -- Reads and writes through a good pointer.
  pub load-ok : (h : Heap N) (p : Ptr) (n : N) → p ≢ null → h p ≡ some n → load p h ≡ ok n h
  unfolding load
  load-ok h p n ne e = ground arith

  pub modify-ok :
      (h : Heap N) (p : Ptr) (n : N) (f : N → N)
      → p ≢ null
      → h p ≡ some n
      → modify p f h ≡ ok tt (put h p (some (f n)))
  unfolding modify
  modify-ok h p n f ne e = rw (load-ok h p n ne e)

  pub free-ok :
      (h : Heap N) (p : Ptr) (n : N) → p ≢ null → h p ≡ some n → free p h ≡ ok tt (put h p none)
  unfolding free
  free-ok h p n ne e = rw (load-ok h p n ne e)
