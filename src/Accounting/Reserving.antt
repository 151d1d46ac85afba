-- ===== src/Accounting/Reserving.antt =====
-- What Reserve and Release leave reserved (pkg/accounting/accounting.go).
use sana.Common.{Bool, true, false, not, subst, if◌then◌else◌, ◌≡◌, arith}
use sana.Common.Int.{ℤ, pos, ◌+ℤ◌, ◌-ℤ◌, ◌≤ℤ◌, ◌<ℤ◌, max_zero, int_laws}
use sana.Accounting.State.{
  Config, Env, Account, Result, ok, err, Error, pure, raise_if, not_connected, overdraft, gets,
}
use sana.Accounting.Blocking.{or_zero}
use sana.Accounting.Spending.{
  expected_debt, settle_if_needed, settle_again, settled_or_raise, settle, finish_reserve, reserve,
  release,
}
use sana.Accounting.Frames.{Keeps, Keeps-refl, Keeps-trans, Post, Ends, bind-Post, with-Post}
use sana.Accounting.Settling.{settle-Keeps}

-- The debt that the account shows once `extra` more is reserved, as in `expected_debt`.
abbrev pub debt_with : ℤ → Account → ℤ
debt_with extra s =
    max_zero (pos 0 -ℤ or_zero s.balance) +ℤ (s.reserved +ℤ extra) +ℤ or_zero s.surplus

-- The account still is `s` in what `Keeps` names, and `d` is its debt with `price` reserved.
record Shows (s : Account) (price d : ℤ) (t : Account) : Type 0 where
  shown : d ≡ debt_with price t
  kept : Keeps s t

-- What an error of `reserve` leaves, from `s`.
record Refused (s : Account) (price : ℤ) (e : Error) (t : Account) : Type 0 where
  kept : Keeps s t
  only_above : e ≡ overdraft → t.payment_threshold <ℤ debt_with price t

module _ (s : Account) (price : ℤ) where
  expected_debt-Post :
      Post (Refused s price) (Keeps s) (λ p t. Shows s price p.0 t) (expected_debt price)
  unfolding expected_debt
  expected_debt-Post = record { run = λ u h. ground arith }

  settled-Post :
      (c : Config) (env : Env)
      → Post (Refused s price) (Keeps s) (λ _. Keeps s) (λ t. settled_or_raise (settle c env t))
  settled-Post c env = record {
    run = λ u h. case (settle c env u) (Keeps-trans s u _ h ((settle-Keeps c env).at u));
  }
    where
      case :
          (r : Result (Unit {0}) × Account)
          → Keeps s r.1
          → Ends (Refused s price) (λ _. Keeps s) (settled_or_raise r)
      case (ok _, t) h = h
      case (err _, t) h = record { kept = h; only_above = λ e. cc }

  settle_again-Post :
      (c : Config) (env : Env)
      → Post (Refused s price) (Keeps s) (Shows s price) (settle_again c env price)
  settle_again-Post c env =
      bind-Post (λ _. Keeps s) (settled-Post c env)
        λ _.
          bind-Post (λ p t. Shows s price p.0 t) expected_debt-Post λ p. record { run = λ u h. h }

  choice-Post :
      (c : Config) (env : Env) (d : ℤ) (test : Bool)
      → Post
          (Refused s price)
          (Shows s price d)
          (Shows s price)
          (if test then settle_again c env price else pure d)
  choice-Post c env d true = record { run = λ u h. (settle_again-Post c env).run u h.kept }
  choice-Post c env d false = record { run = λ u h. h }

  settle_if_needed-Post :
      (c : Config) (env : Env) (p : ℤ × ℤ)
      → Post (Refused s price) (Shows s price p.0) (Shows s price) (settle_if_needed c env price p)
  settle_if_needed-Post c env (d, b) = record { run = λ u h. (choice-Post c env d _).run u h }

  -- A success of `reserve`.
  record Reserved (t : Account) : Type 0 where
    within : debt_with (pos 0) t ≤ℤ s.payment_threshold
    added : t.reserved ≡ s.reserved +ℤ price
    threshold : t.payment_threshold ≡ s.payment_threshold
    was_connected : s.connected ≡ true

  finish_reserve-Post :
      (d : ℤ)
      → Post
          (Refused s price)
          (λ t. (s.connected ≡ true) × Shows s price d t)
          (λ _. Reserved)
          (finish_reserve price d)
  unfolding finish_reserve
  finish_reserve-Post d = record { run = λ u h. grind int_laws }

  connected-Post :
      Post
        (Refused s price)
        (Keeps s)
        (λ b t. (b ≡ s.connected) × Keeps s t)
        (gets (λ s. s.connected))
  connected-Post = record { run = λ u h. (h.connected, h) }

  checked-Post :
      (b : Bool)
      → Post
          (Refused s price)
          (λ t. (b ≡ s.connected) × Keeps s t)
          (λ _ t. (s.connected ≡ true) × Keeps s t)
          (raise_if (not b) not_connected)
  checked-Post b = record { run = λ u h. ground arith }

  reserve-Post :
      (c : Config) (env : Env)
      → Post (Refused s price) (Keeps s) (λ _. Reserved) (reserve c env price)
  unfolding reserve
  reserve-Post c env =
      bind-Post (λ b t. (b ≡ s.connected) × Keeps s t) connected-Post
        λ b.
          bind-Post (λ _ t. (s.connected ≡ true) × Keeps s t) (checked-Post b)
            λ _.
              bind-Post (λ p t. (s.connected ≡ true) × Shows s price p.0 t)
                (with-Post (s.connected ≡ true) expected_debt-Post)
                λ p.
                  bind-Post (λ d t. (s.connected ≡ true) × Shows s price d t)
                    (with-Post (s.connected ≡ true) (settle_if_needed-Post c env p))
                    finish_reserve-Post

-- A reservation that succeeds adds the price to what is reserved, and leaves the debt, with all
-- that is reserved and the surplus in it, within the payment threshold of the peer, which it does
-- not change; and the peer was connected. This holds whatever the refreshment function answers,
-- whichever store accesses fail, and whether or not a settlement ran on the way.
pub reserve_within_threshold :
    (c : Config) (env : Env) (price : ℤ) (s : Account) {t : Account}
    → reserve c env price s ≡ (ok tt, t)
    → (debt_with (pos 0) t ≤ℤ s.payment_threshold)
      × (t.reserved ≡ s.reserved +ℤ price)
      × (t.payment_threshold ≡ s.payment_threshold)
      × (s.connected ≡ true)
reserve_within_threshold c env price s {t} e =
    let r : Reserved s price t =
      subst (Ends (Refused s price) (λ _. Reserved s price)) e
        ((reserve-Post s price c env).run s (Keeps-refl s)) in
    (r.within, r.added, r.threshold, r.was_connected)

-- A reservation that fails leaves what is reserved, the threshold, the surplus, the ghost balance
-- and the connection as they were, also when a settlement ran before the failure; and it fails for
-- overdraft only if the debt, with the price and the surplus in it, is above the threshold then.
pub reserve_refused :
    (c : Config) (env : Env) (price : ℤ) (s : Account) {e : Error} {t : Account}
    → reserve c env price s ≡ (err e, t)
    → Keeps s t × (e ≡ overdraft → t.payment_threshold <ℤ debt_with price t)
reserve_refused c env price s {e} {t} h =
    let r : Refused s price e t =
      subst (Ends (Refused s price) (λ _. Reserved s price)) h
        ((reserve-Post s price c env).run s (Keeps-refl s)) in
    (r.kept, r.only_above)

-- Releasing what was just reserved restores the amount that is reserved, if that was not negative
-- and the price is not.
pub release-reserve :
    (c : Config) (env : Env) (price : ℤ) (s : Account) {t : Account}
    → pos 0 ≤ℤ s.reserved
    → pos 0 ≤ℤ price
    → reserve c env price s ≡ (ok tt, t)
    → (release price t).1.reserved ≡ s.reserved
unfolding release
release-reserve c env price s {t} h k e =
    let (within, added, same, on) = reserve_within_threshold c env price s e in
    rw (added, release) (grind int_laws)
