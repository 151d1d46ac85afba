-- ===== src/Accounting/Bookkeeping.antt =====
-- The net balance under debits, payments and refreshments (pkg/accounting/accounting.go).
use sana.Common.{
  Bool, true, false, ◌≡◌, refl, arith, ◌≢◌, leb→le, not_leb→lt, subst, if◌then◌else◌, sym, ◌∙◌,
}
use sana.Common.Int.{ℤ, pos, ◌+ℤ◌, ◌-ℤ◌, ◌≤ℤ◌, ◌<ℤ◌, leb_ℤ, ltb_ℤ, int_laws, max_zero}
use sana.Accounting.State.{
  get_balance, get_surplus, put_balance, put_surplus, logged, ◌>>=◌, ◌>>◌, raise_if, Account, ok,
  err, sanity_check, Error,
}
use sana.Accounting.Blocking.{or_zero}
use sana.Accounting.Spending.{decrease_originated_to}
use sana.Accounting.Debiting.{add_to_balance, draw_surplus, found_balance, increase_balance}
use sana.Accounting.Frames.{
  Ends, Post, bind-Post, with-Post, pure-Post, raise-Post, raise_if-Post, if-Post,
}

-- What the peer owes us, less the surplus that it has paid: CompensatedBalance.
abbrev pub net : Account → ℤ
net s = or_zero s.balance -ℤ or_zero s.surplus

-- No surplus is negative: with one that is, `get_surplus` fails.
abbrev pub HasSurplus : Account → Type 0
HasSurplus s = pos 0 ≤ℤ or_zero s.surplus

-- An error other than that of the sanity check in a debit.
abbrev pub Sane : Error → Account → Type 0
Sane e _ = e ≢ sanity_check

-- The stored balance and surplus, 0 for one that is missing.
abbrev pub Holds : ℤ → ℤ → Account → Type 0
Holds b s t = (or_zero t.balance ≡ b) × (or_zero t.surplus ≡ s)

module _ (b s : ℤ) where
  pub get_balance-Post : Post Sane (Holds b s) (λ p t. (p.0 ≡ b) × Holds b s t) get_balance
  unfolding get_balance
  get_balance-Post = record { run = λ u h. ground arith }

  pub get_surplus-Post :
      Post Sane (Holds b s) (λ z t. (z ≡ s) × (pos 0 ≤ℤ s) × Holds b s t) get_surplus
  unfolding get_surplus
  get_surplus-Post = record { run = λ u h. ground arith }

  pub put_balance-Post : (z : ℤ) → Post Sane (Holds b s) (λ _. Holds z s) (put_balance z)
  put_balance-Post z = record { run = λ u h. ground arith }

  pub put_surplus-Post : (z : ℤ) → Post Sane (Holds b s) (λ _. Holds b z) (put_surplus z)
  put_surplus-Post z = record { run = λ u h. ground arith }

  logged_decrease-Post :
      (z : ℤ) → Post Sane (Holds b s) (λ _. Holds b s) (logged (decrease_originated_to z))
  unfolding decrease_originated_to
  logged_decrease-Post z = record { run = λ u h. ground arith }

-- What a surplus is after it has paid what it can of a price: one that is not positive pays nothing.
abbrev pub left_over : ℤ → ℤ → ℤ
left_over price s = if ltb_ℤ (pos 0) s then max_zero (s -ℤ price) else s

-- A debit of `price` is booked on a balance `b` and a surplus `s`.
abbrev Booked : ℤ → ℤ → ℤ → ℤ → Account → Type 0
Booked b s price r t =
    (net t ≡ b -ℤ s +ℤ price)
    × (pos 0 ≤ℤ or_zero t.surplus)
    × (r ≡ or_zero t.balance)
    × (or_zero t.surplus ≡ left_over price s)

module _ (b s price : ℤ) where
  left_over-whole : pos 0 <ℤ s → pos 0 ≤ℤ s -ℤ price → s -ℤ price ≡ left_over price s
  left_over-whole p h = ground arith

  left_over-part : pos 0 <ℤ s → s -ℤ price <ℤ pos 0 → pos 0 ≡ left_over price s
  left_over-part p h = ground arith

  left_over-none : ltb_ℤ (pos 0) s ≡ false → s ≡ left_over price s
  left_over-none e = rw e refl

  add_to_balance-Post :
      (z cost : ℤ)
      → pos 0 ≤ℤ z
      → b +ℤ cost -ℤ z ≡ b -ℤ s +ℤ price
      → z ≡ left_over price s
      → Post Sane (Holds b z) (Booked b s price) (add_to_balance cost)
  add_to_balance-Post z cost nonneg e l =
      bind-Post (λ p t. (p.0 ≡ b) × Holds b z t) (get_balance-Post b z)
        λ p.
          bind-Post (λ _ t. (p.0 ≡ b) × Holds (p.0 +ℤ cost) z t)
            (with-Post (p.0 ≡ b) (put_balance-Post b z (p.0 +ℤ cost)))
            λ _.
              bind-Post (λ _ t. (p.0 ≡ b) × Holds (p.0 +ℤ cost) z t)
                (with-Post (p.0 ≡ b) (logged_decrease-Post (p.0 +ℤ cost) z (p.0 +ℤ cost)))
                λ _.
                  pure-Post λ u h. (rw (h.1.0, h.1.1, h.0) e, rw h.1.1 nonneg, sym h.1.0, h.1.1 ∙ l)

  draw_whole-Post :
      pos 0 <ℤ s
      → pos 0 ≤ℤ s -ℤ price
      → Post Sane
          (Holds b s)
          (Booked b s price)
          (do put_surplus (s -ℤ price); found_balance (← get_balance))
  draw_whole-Post some_left left =
      bind-Post (λ _. Holds b (s -ℤ price)) (put_surplus-Post b s (s -ℤ price))
        λ _.
          bind-Post (λ p t. (p.0 ≡ b) × Holds b (s -ℤ price) t) (get_balance-Post b (s -ℤ price))
            found-Post
    where
      found-Post :
          (p : ℤ × Bool)
          → Post Sane (λ t. (p.0 ≡ b) × Holds b (s -ℤ price) t) (Booked b s price) (found_balance p)
      found-Post (z, true) = pure-Post λ u h. (
        rw (h.1.0, h.1.1) (omega int_laws),
        rw h.1.1 left,
        h.0 ∙ sym h.1.0,
        h.1.1 ∙ left_over-whole some_left left,
      )
      found-Post (z, false) = raise-Post λ u h e. cc

  draw_part-Post :
      pos 0 <ℤ s
      → s -ℤ price <ℤ pos 0
      → Post Sane (Holds b s) (Booked b s price) (do
        raise_if (leb_ℤ (price -ℤ s) (pos 0)) sanity_check
        put_surplus (pos 0)
        add_to_balance (price -ℤ s))
  draw_part-Post some_left short =
      bind-Post (λ _ t. (leb_ℤ (price -ℤ s) (pos 0) ≡ false) × Holds b s t)
        (raise_if-Post (leb_ℤ (price -ℤ s) (pos 0)) sanity_check
          λ u h k. absurd (omega (int_laws, leb→le _ _ k)))
        λ _.
          bind-Post (λ _. Holds b (pos 0))
            (record { run = λ u h. (put_surplus-Post b s (pos 0)).run u h.1 })
            λ _.
              add_to_balance-Post (pos 0) (price -ℤ s) (omega arith) (omega int_laws)
                (left_over-part some_left short)

  draw_surplus-Post : pos 0 <ℤ s → Post Sane (Holds b s) (Booked b s price) (draw_surplus price s)
  draw_surplus-Post some_left =
      if-Post (leb_ℤ (pos 0) (s -ℤ price)) (λ e. draw_whole-Post some_left (leb→le _ _ e))
        λ e. draw_part-Post some_left (not_leb→lt _ _ e)

  increase_balance-Post : Post Sane (Holds b s) (Booked b s price) (increase_balance price)
  unfolding increase_balance
  increase_balance-Post =
      bind-Post (λ z t. (z ≡ s) × (pos 0 ≤ℤ s) × Holds b s t) (get_surplus-Post b s)
        λ z. record { run = λ u h. branch z h.0 h.1 u h.2 }
    where
      branch :
          (z : ℤ)
          → z ≡ s
          → pos 0 ≤ℤ s
          → (u : Account) → Holds b s u
          → Ends Sane
              (Booked b s price)
              ((if ltb_ℤ (pos 0) z then draw_surplus price z else add_to_balance price) u)
      branch z e nonneg u h = rw e (
          (if-Post (ltb_ℤ (pos 0) s) (λ k. draw_surplus-Post (ground arith))
              λ k. add_to_balance-Post s price nonneg (omega int_laws) (left_over-none k)).run
            u h)

-- A debit that succeeds raises the net balance by exactly the price. A surplus above 0 pays first: it
-- goes down by the price, but not below 0; another one stays. The surplus is not negative then, and
-- the balance that is returned is the one that is stored.
pub net-increase_balance :
    (price : ℤ) (s : Account) {b : ℤ} {t : Account}
    → increase_balance price s ≡ (ok b, t)
    → (net t ≡ net s +ℤ price)
      × (pos 0 ≤ℤ or_zero t.surplus)
      × (b ≡ or_zero t.balance)
      × (or_zero t.surplus ≡ left_over price (or_zero s.surplus))
net-increase_balance price s e =
    subst (Ends Sane (Booked _ _ price)) e ((increase_balance-Post _ _ price).run s (refl, refl))

-- The sanity check after a partial draw on the surplus never fails, for any price and account.
pub increase_balance-sane :
    (price : ℤ) (s : Account) {e : Error} {t : Account}
    → increase_balance price s ≡ (err e, t)
    → e ≢ sanity_check
increase_balance-sane price s e =
    subst (Ends Sane (Booked (or_zero s.balance) (or_zero s.surplus) price)) e
      ((increase_balance-Post _ _ price).run s (refl, refl))
