-- ===== src/Cond/Skip/Wake.antt =====
-- The walks of `wake` in zm_wskip.c.
use izem.Prelude.{
  ℕ, zero, suc, ◌+◌, ◌<◌, ◌≡◌, ◌≢◌, inl, inr, refl, Bool, true, false, ◌||◌, ◌&&◌, not, ◌==◌,
  if◌then◌else◌, Option, none, some, List, [], ◌∷◌, arith, length, member, Bool-cases,
}
use izem.Prelude.Family.{put}
use izem.Cond.Skip.{
  Ptr, null, wait_status, wake_status, recycle, check, Wskip, set_status, set_next, Walk, pass,
  recycle_back, finish, after_back, after_pass, wake,
}

-- The links `f` lead from `p` through the nodes `xs` to `y`.
abbrev pub Line : (Ptr → Ptr) → Ptr → List Ptr → Ptr → Type 0
Line f p [] y = p ≡ y
Line f p (x ∷ xs) y = (p ≡ x) × (x ≢ null) × Line f (f x) xs y

abbrev pub last : Ptr → List Ptr → Ptr
last p [] = p
last p (x ∷ xs) = last x xs

-- No node of `xs` waits, and they are distinct.
abbrev pub Passing : Wskip → List Ptr → Type 0
Passing m [] = Unit
Passing m (x ∷ xs) = (m.status x ≢ wait_status) × (member x xs ≡ false) × Passing m xs

-- Is `c` the node that is woken?
abbrev pub wakes : Ptr → Ptr → Bool
wakes y c = not (y == null) && (c == y)

Line-frame :
    (f g : Ptr → Ptr) (p y : Ptr) (xs : List Ptr)
    → Line f p xs y
    → ((c : Ptr) → member c xs ≡ true → g c ≡ f c)
    → Line g p xs y
Line-frame f g p y [] line same = line
Line-frame f g p y (x ∷ xs) (at, ne, line) same =
    let e : g x ≡ f x = same x (ground arith) in
    (at, ne, rw e (Line-frame f g (f x) y xs line (λ c i. same c (ground arith))))

Passing-frame :
    (m n : Wskip) (xs : List Ptr)
    → Passing m xs
    → ((c : Ptr) → member c xs ≡ true → n.status c ≡ m.status c)
    → Passing n xs
Passing-frame m n [] p same = tt
Passing-frame m n (x ∷ xs) (ne, out, p) same =
    (ground (arith, same x), out, Passing-frame m n xs p (λ c i. same c (ground arith)))

-- After the first loop: `zs` are the nodes behind, `xs` those that were ahead, up to `y`.
pub record Passed (m : Wskip) (cur : Ptr) (zs xs : List Ptr) (y : Ptr) (v : Walk) : Type 0 where
  pub ahead : v.ahead ≡ y
  pub lock : v.mem.lock ≡ m.lock
  pub cur_last : v.cur ≡ last cur xs
  pub back : List Ptr
  pub line : Line v.mem.next v.pred back null
  pub nodes : (c : Ptr) → member c (v.cur ∷ back) ≡ (member c (cur ∷ zs) || member c xs)
  pub long : length back ≡ length zs + length xs
  pub status :
      (c : Ptr)
      → member c (v.cur ∷ back) ≡ false
      → v.mem.status c ≡ (if wakes y c then wake_status else m.status c)

abbrev pub PassedBy : Wskip → Ptr → List Ptr → List Ptr → Ptr → Option Walk → Type 0
PassedBy m cur zs xs y none = ⊥
PassedBy m cur zs xs y (some v) = Passed m cur zs xs y v

-- One round that passes the node `x`, and the rounds after it.
pass_on :
    (m : Wskip) (cur x pred y : Ptr) (zs xs : List Ptr) (r : Option Walk)
    → PassedBy (set_next cur pred (set_status x check m)) x (cur ∷ zs) xs y r
    → PassedBy m cur zs (x ∷ xs) y r
unfolding set_status set_next
pass_on m cur x pred y zs xs none q = q
pass_on m cur x pred y zs xs (some v) q = record {
  ahead = q.ahead;
  lock = q.lock;
  cur_last = q.cur_last;
  back = q.back;
  line = q.line;
  nodes = λ c. ground (arith, q.nodes c);
  long = omega (arith, q.long);
  status = λ c o. ground (arith, q.nodes c, q.status c);
}

pass_lem :
    (fuel : ℕ) (m : Wskip) (cur ahead pred y : Ptr) (zs xs : List Ptr)
    → Line m.next ahead xs y
    → Line m.next pred zs null
    → Passing m xs
    → (y ≢ null → m.status y ≡ wait_status)
    → cur ≢ null
    → member cur xs ≡ false
    → member cur zs ≡ false
    → ((c : Ptr) → member c xs ≡ true → member c zs ≡ false)
    → member y xs ≡ false
    → length xs < fuel
    → PassedBy m cur zs xs y (pass fuel (record { cur = cur; ahead = ahead; pred = pred; mem = m }))
unfolding pass set_status set_next
pass_lem zero m cur ahead pred y zs xs line behind p w ne o1 o2 apart o3 enough =
    absurd (omega arith)
pass_lem (suc fuel) m cur ahead pred y zs [] line behind p w ne o1 o2 apart o3 enough =
    elim (Bool-cases (ahead == null)) [
      | inl ends ↦ rw ends (record {
        ahead = line;
        lock = refl;
        cur_last = refl;
        back = zs;
        line = behind;
        nodes = λ c. ground arith;
        long = omega arith;
        status = λ c o. ground arith;
      })
      | inr stops ↦
          let waits : (m.status ahead == wait_status) ≡ true = ground arith in
          rw (stops, waits)
            (record {
              ahead = line;
              lock = refl;
              cur_last = refl;
              back = zs;
              line = behind;
              nodes = λ c. ground arith;
              long = omega arith;
              status = λ c o. ground arith;
            })
    ]
pass_lem (suc fuel) m cur ahead pred y zs (x ∷ xs) (at, nz, line) behind (nw, out, p) w ne o1 o2
      apart o3 enough =
    let m' : Wskip = record {
      lock = m.lock;
      status = put m.status x check;
      next = put m.next cur pred;
    } in
    let not_end : (x == null) ≡ false = ground arith in
    let not_waits : (m.status x == wait_status) ≡ false = ground arith in
    let far : put m.next cur pred x ≡ m.next x = ground arith in
    let self : put m.next cur pred cur ≡ pred = ground arith in
    rw (at, not_end, not_waits)
      (pass_on m cur x pred y zs xs _ (
        pass_lem fuel m' x (put m.next cur pred x) cur y (cur ∷ zs) xs
          (rw far (Line-frame m.next m'.next (m.next x) y xs line (λ c i. spared c i)))
          (refl, ne, rw self (Line-frame m.next m'.next pred null zs behind (λ c i. ground arith)))
          (Passing-frame m m' xs p (λ c i. ground arith)) (λ y_ne. ground (arith, w y_ne)) nz out
          (ground (arith, apart x)) (λ c i. ground (arith, apart c)) (ground arith) (omega arith)))
  where
    spared : (c : Ptr) → member c xs ≡ true → put m.next cur pred c ≡ m.next c
    spared c i = ground arith

-- After the second loop: the nodes `zs` are recycled.
abbrev pub Recycled : Wskip → List Ptr → Option Wskip → Type 0
Recycled m zs none = ⊥
Recycled m zs (some v) =
    (v.lock ≡ m.lock)
    × (v.next ≡ m.next)
    × ((c : Ptr) → v.status c ≡ (if member c zs then recycle else m.status c))

recycle_on :
    (m : Wskip) (x : Ptr) (xs : List Ptr) (r : Option Wskip)
    → Recycled (set_status x recycle m) xs r
    → Recycled m (x ∷ xs) r
unfolding set_status
recycle_on m x xs none q = q
recycle_on m x xs (some v) (lock, next, status) = (lock, next, λ c. ground (arith, status c))

recycle_back_lem :
    (fuel : ℕ) (m : Wskip) (p : Ptr) (zs : List Ptr)
    → Line m.next p zs null
    → length zs < fuel
    → Recycled m zs (recycle_back fuel p m)
unfolding recycle_back set_status
recycle_back_lem zero m p zs line enough = absurd (omega arith)
recycle_back_lem (suc fuel) m p [] line enough =
    let ends : (p == null) ≡ true = ground arith in rw ends (refl, refl, λ c. refl)
recycle_back_lem (suc fuel) m p (x ∷ xs) (at, ne, line) enough =
    let not_end : (x == null) ≡ false = ground arith in
    rw (at, not_end)
      (recycle_on m x xs _ (
        recycle_back_lem fuel (record m { status = put m.status x recycle }) (m.next x) xs line
          (omega arith)))

-- What `wake` leaves, where `xs` are the nodes after `I` that do not wait and `y` the next one, or
-- `NULL`.
abbrev pub Woken : Wskip → Ptr → List Ptr → Ptr → Option Wskip → Type 0
Woken m I xs y none = ⊥
Woken m I xs y (some v) =
    (v.lock ≡ (if y == null then null else m.lock))
    × ((c : Ptr)
        → v.status c
          ≡ (if wakes y c then wake_status else if member c (I ∷ xs) then recycle else m.status c))

finish_lem :
    (m n : Wskip) (I y cur : Ptr) (xs : List Ptr)
    → n.lock ≡ m.lock
    → (y ≡ null → m.lock ≡ cur)
    → ((c : Ptr)
        → n.status c
          ≡ (if wakes y c then wake_status else if member c (I ∷ xs) then recycle else m.status c))
    → Woken m I xs y (finish I cur y n)
unfolding finish set_next
finish_lem m n I y cur xs lock ends status = elim (Bool-cases (y == null)) [
  | inl yes_null ↦
      let mine : (n.lock == cur) ≡ true = ground arith in
      rw (yes_null, mine) (rw yes_null refl, λ c. status c)
  | inr not_null ↦ rw not_null (rw not_null lock, λ c. status c)
]

-- Every node but those passed and `y` has the status it had.
after_back-Woken :
    (m : Wskip) (I y : Ptr) (xs : List Ptr) (v : Walk) (r : Option Wskip)
    → (passed : Passed (set_status I recycle m) I [] xs y v)
    → Recycled (set_status v.cur recycle v.mem) passed.back r
    → (y ≡ null → m.lock ≡ last I xs)
    → member y (I ∷ xs) ≡ false
    → Woken m I xs y (after_back I v r)
unfolding after_back set_status
after_back-Woken m I y xs v none passed q ends out = q
after_back-Woken m I y xs v (some n) passed (lock, next, status) ends out = rw passed.ahead (
    finish_lem m n I y v.cur xs (ground (arith, passed.lock))
      (λ e. ground (arith, ends e, passed.cur_last))
      (λ c. ground (arith, status c, passed.nodes c, passed.status c)))

after_pass-Woken :
    (fuel : ℕ) (m : Wskip) (I y : Ptr) (xs : List Ptr) (r : Option Walk)
    → PassedBy (set_status I recycle m) I [] xs y r
    → (y ≡ null → m.lock ≡ last I xs)
    → member y (I ∷ xs) ≡ false
    → length xs < fuel
    → Woken m I xs y (after_pass fuel I r)
unfolding after_pass set_status
after_pass-Woken fuel m I y xs none passed ends out enough = passed
after_pass-Woken fuel m I y xs (some v) passed ends out enough =
    after_back-Woken m I y xs v _ passed
      (recycle_back_lem fuel (set_status v.cur recycle v.mem) v.pred passed.back passed.line
        (omega (arith, passed.long)))
      ends out

-- When the caller owns its turn, the nodes `xs` after its own do not wait, and the next one `y`
-- does, or the queue ends, `wake` with fuel above the number of `xs` ends: it wakes `y`, recycles
-- the caller's node and all of `xs`, changes the status of no other node, and leaves the queue
-- empty if it ended there.
pub wake-Woken :
    (fuel : ℕ) (m : Wskip) (I y : Ptr) (xs : List Ptr)
    → m.status I ≡ wake_status
    → I ≢ null
    → Line m.next (m.next I) xs y
    → Passing m xs
    → (y ≢ null → m.status y ≡ wait_status)
    → (y ≡ null → m.lock ≡ last I xs)
    → member I xs ≡ false
    → member y (I ∷ xs) ≡ false
    → suc (length xs) < fuel
    → Woken m I xs y (wake fuel I m)
unfolding wake set_status
wake-Woken fuel m I y xs turn ne line p w ends out out_y enough =
    let start : Wskip = record m { status = put m.status I recycle } in
    let awake : (m.status I == wake_status) ≡ true = ground arith in
    let passed =
      pass_lem fuel start I (m.next I) null y [] xs line refl
        (Passing-frame m start xs p (λ c i. ground arith)) (λ y_ne. ground (arith, w y_ne)) ne out
        refl (λ c i. refl) (ground arith) (omega arith) in
    rw awake (after_pass-Woken fuel m I y xs _ passed ends out_y (omega arith))
