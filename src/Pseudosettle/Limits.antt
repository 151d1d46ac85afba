-- ===== src/Pseudosettle/Limits.antt =====
-- How much a peer can settle by time (pkg/settlement/pseudosettle/pseudosettle.go).
use sana.Common.{
  ℕ, ◌+◌, ◌-◌, ◌*◌, ◌≤◌, ◌<◌, ◌^◌, ◌≡◌, refl, ap, sym, ◌∙◌, subst, Option, none, some, List, [],
  ◌∷◌, arith, inl, inr,
}
use native.Mathlib.Nat.{add-mul}
use sana.Common.Int.{ℤ, pos, ◌+ℤ◌, ◌-ℤ◌, ◌*ℤ◌, ◌≤ℤ◌, int_laws, pos_part}
use sana.Common.Word.{wrap64}
use sana.Pseudosettle.State.{LastPayment, or_new, least, Request, Handled, payment, paid, handler}
use sana.Pseudosettle.Receiving.{by_time, Answers, handler-Answers}

-- Requests one after the other, each with the record that the one before left.
abbrev pub serve : ℤ → List Request → Option LastPayment → Option LastPayment
serve rate [] stored = stored
serve rate (r ∷ rs) stored = serve rate rs (handler rate r stored).received

-- The clock does not go back, from `m` on, and stays an int64.
abbrev pub Ascending : ℕ → List Request → Type 0
Ascending m [] = Unit {0}
Ascending m (r ∷ rs) = (n : ℕ) × (r.now ≡ pos n) × (m ≤ n) × (n < 2 ^ 63) × Ascending n rs

-- What the accounting is told of in all, by a run of the handler for each request.
abbrev pub amount_of : Option ℤ → ℤ
amount_of none = pos 0
amount_of (some amount) = amount

abbrev pub told : ℤ → List Request → Option LastPayment → ℤ
told rate [] stored = pos 0
told rate (r ∷ rs) stored =
    let h = handler rate r stored in amount_of h.notified +ℤ told rate rs h.received

-- The record has this sum as its total, which is no more than `rate` for each second until the last
-- payment; without a record it is 0.
abbrev pub Within : ℕ → ℤ → Option LastPayment → Type 0
Within rate sum none = sum ≡ pos 0
Within rate sum (some p) =
    (t : ℕ) × (p.timestamp ≡ pos t) × (p.total ≡ sum) × (sum ≤ℤ pos (t * rate))

-- The last payment was no later than at `m`.
abbrev Before : ℕ → Option LastPayment → Type 0
Before m none = Unit {0}
Before m (some p) = (t : ℕ) × (p.timestamp ≡ pos t) × (t ≤ m)

later : (m n : ℕ) (stored : Option LastPayment) → Before m stored → m ≤ n → Before n stored
later m n none b h = tt
later m n (some p) (t, e, b) h = (t, e, omega arith)

payment_at_most : (a d : ℤ) (n : ℕ) → pos 0 ≤ℤ a → payment (least a d) (pos n) ≤ℤ a
payment_at_most a d n h = ground arith

elapsed : (n m k : ℕ) → m ≤ n → n < 2 ^ 63 → wrap64 (pos n -ℤ pos m) *ℤ pos k ≡ pos ((n - m) * k)
unfolding wrap64 ◌-ℤ◌ ◌*ℤ◌
elapsed n m k h b = ground arith

by_rate : (n m k : ℕ) → m ≤ n → m * k + (n - m) * k ≡ n * k
by_rate n m k h = sym (add-mul m (n - m) k) ∙ ap (λ x. x * k) {y = n} (omega arith)

add_zero : (z : ℤ) → z +ℤ pos 0 ≡ z
add_zero z = omega int_laws

zero_add : (z : ℤ) → pos 0 +ℤ z ≡ z
zero_add z = omega int_laws

add_assoc : (a b c : ℤ) → a +ℤ b +ℤ c ≡ a +ℤ (b +ℤ c)
add_assoc a b c = omega int_laws

unchanged :
    (rate m n : ℕ) (sum : ℤ) (stored : Option LastPayment) (h : Handled)
    → h.received ≡ stored
    → h.notified ≡ none
    → Within rate sum stored
    → Before m stored
    → m ≤ n
    → Within rate (sum +ℤ amount_of h.notified) h.received × Before n h.received
unchanged rate m n sum stored h same quiet w b mn =
    rw (same, quiet, add_zero sum) (w, later m n stored b mn)

-- The record that is used keeps the limit, and its time is no later than `m`.
last_of :
    (rate m : ℕ) (sum : ℤ) (stored : Option LastPayment)
    → Within rate sum stored
    → Before m stored
    → (t : ℕ) × ((or_new stored).timestamp ≡ pos t)
      × (t ≤ m)
      × ((or_new stored).total ≡ sum)
      × (sum ≤ℤ pos (t * rate))
last_of rate m sum none w b = (0, refl, omega arith, sym w, rw w (omega arith))
last_of rate m sum (some p) (t, e, q, w) (u, f, b) =
    (u, f, b, q, subst (λ x. sum ≤ℤ pos (x * rate)) (ap pos_part (sym e ∙ f)) w)

paid-Within :
    (rate m n amount : ℕ) (now d sum : ℤ) (stored : Option LastPayment)
    → Within rate sum stored
    → Before m stored
    → now ≡ pos n
    → m ≤ n
    → n < 2 ^ 63
    → let granted =
        payment (least (wrap64 (now -ℤ (or_new stored).timestamp) *ℤ pos rate) d) (pos amount) in
      let p = paid (or_new stored) granted now in
      Within rate (sum +ℤ granted) (some p) × Before n (some p)
paid-Within rate m n amount now d sum stored w b e mn nb =
    let (t, f, tm, total, low) = last_of rate m sum stored w b in
    let allowance : wrap64 (now -ℤ (or_new stored).timestamp) *ℤ pos rate ≡ pos ((n - t) * rate) =
      rw (e, f) (elapsed n t rate (omega arith) nb) in
    let a = payment_at_most (pos ((n - t) * rate)) d amount (omega arith) in
    let split = by_rate n t rate (omega arith) in
    rw (allowance, total) ((n, e, refl, omega int_laws), (n, e, omega arith))

-- One request keeps the limit.
Answers-Within :
    (rate m n : ℕ) (sum : ℤ) (r : Request) (stored : Option LastPayment) (o : Option (ℤ × ℤ))
    (h : Handled)
    → Answers (pos rate) r stored o h
    → Within rate sum stored
    → Before m stored
    → r.now ≡ pos n
    → m ≤ n
    → n < 2 ^ 63
    → Within rate (sum +ℤ amount_of h.notified) h.received × Before n h.received
Answers-Within rate m n sum r stored none h (same, quiet, _) w b e mn nb =
    unchanged rate m n sum stored h same quiet w b mn
Answers-Within rate m n sum r stored (some (a, t)) h (at, _, inl (same, quiet, _)) w b e mn nb =
    unchanged rate m n sum stored h same quiet w b mn
Answers-Within rate m n sum r stored (some (a, t)) h (at, (d, _, g), inr (new, told_of)) w b e mn
      nb =
    let granted = payment (least (by_time (pos rate) r stored) d) (pos r.amount) in
    let p = paid-Within rate m n r.amount r.now d sum stored w b e mn nb in
    let same : h.received ≡ some (paid (or_new stored) granted r.now) =
      new
      ∙ ap (λ x. some (paid (or_new stored) x t)) g
      ∙ ap (λ x. some (paid (or_new stored) granted x)) at in
    let amount : amount_of h.notified ≡ granted = ap amount_of told_of ∙ g in rw (same, amount) p

serve-Within_from :
    (rate m : ℕ) (sum : ℤ) (rs : List Request) (stored : Option LastPayment)
    → Within rate sum stored
    → Before m stored
    → Ascending m rs
    → Within rate (sum +ℤ told (pos rate) rs stored) (serve (pos rate) rs stored)
serve-Within_from rate m sum [] stored w b a =
    subst (λ z. Within rate z stored) (sym (add_zero sum)) w
serve-Within_from rate m sum (r ∷ rs) stored w b (n, e, mn, nb, rest) =
    let h = handler (pos rate) r stored in
    let (w', b') =
      Answers-Within rate m n sum r stored h.ack h (handler-Answers (pos rate) r stored) w b e mn
        nb in
    let more = told (pos rate) rs h.received in
    subst (λ z. Within rate z (serve (pos rate) rs h.received))
      (add_assoc sum (amount_of h.notified) more)
      (serve-Within_from rate n (sum +ℤ amount_of h.notified) rs h.received w' b' rest)

-- Whatever a peer requests, and whichever accesses fail: from no record on, while the clock does
-- not go back, the amounts that the accounting is told of, also where that fails, add up to the total of
-- the record, and to at most the refreshment rate for each second until the last payment. Amounts that
-- are acknowledged and then not saved are not among them.
pub serve-Within :
    (rate : ℕ) (rs : List Request)
    → Ascending 0 rs
    → Within rate (told (pos rate) rs none) (serve (pos rate) rs none)
serve-Within rate rs a =
    subst (λ z. Within rate z (serve (pos rate) rs none)) (zero_add (told (pos rate) rs none))
      (serve-Within_from rate 0 (pos 0) rs none refl tt a)
