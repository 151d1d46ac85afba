-- ===== src/Pseudosettle/Paying.antt =====
-- What Pay accepts from a peer (pkg/settlement/pseudosettle/pseudosettle.go).
use sana.Common.{
  ℕ, ◌≡◌, refl, ap, sym, ◌∙◌, subst, Bool, true, false, Option, none, some, if◌then◌else◌, arith,
}
use sana.Common.Int.{ℤ, pos, ◌≤ℤ◌, ltb_ℤ, eqb_ℤ}
use sana.Pseudosettle.State.{
  LastPayment, Result, failed, ok, or_new, least, Request, handler, payment, Exchange, pay,
  check_answer, out_of_sync, expected, settled, store_failed, settlement_too_soon, stream_failed,
  write_failed, accepted_larger, accepted_lower, time_out_of_sync,
}
use sana.Pseudosettle.Receiving.{by_time, Answers, handler-Answers}

not_less : (a b : ℤ) → ltb_ℤ a b ≡ false → b ≤ℤ a
not_less a b h = ground arith

pub cases :
    {A : Type 0}
    → (P : A → Type 0) (b : Bool) (x y : A) → (b ≡ true → P x)
    → (b ≡ false → P y)
    → P (if b then x else y)
cases P true x y p q = p refl
cases P false x y p q = q refl

abbrev pub lower : ℤ → ℤ → ℤ
lower amount check = if ltb_ℤ amount check then amount else check

-- How a run of Pay ends.
abbrev pub Sound :
    ℤ → ℤ → ℤ → Exchange → Option LastPayment → Result (ℤ × ℤ) × Option LastPayment → Type 0
Sound rate amount check x stored (failed e, s) = s ≡ stored
Sound rate amount check x stored (ok (accepted, at), s) =
    (a : ℕ) × (time : ℤ) × (x.answer ≡ some (a, time))
    × (accepted ≡ pos a)
    × (accepted ≤ℤ amount)
    × (expected rate (or_new stored) check time ≤ℤ accepted)
    × (out_of_sync (or_new stored) x.check_time time ≡ false)
    × (at ≡ x.check_time)
    × (s ≡ some (settled (or_new stored) accepted time x.check_time))

check_answer-Sound :
    (rate amount check : ℤ) (x : Exchange) (stored : Option LastPayment) (o : Option (ℕ × ℤ))
    → x.answer ≡ o
    → Sound rate amount check x stored (check_answer rate amount check x stored o)
check_answer-Sound rate amount check x stored none e = refl
check_answer-Sound rate amount check x stored (some (a, time)) e =
    let P = Sound rate amount check x stored in
    let last = or_new stored in
    let done : Result (ℤ × ℤ) × Option LastPayment =
      (ok (pos a, x.check_time), some (settled last (pos a) time x.check_time)) in
    let saved = if x.save_fails then (failed store_failed, stored) else done in
    let enough =
      if ltb_ℤ (pos a) (expected rate last check time)
      then (failed accepted_lower, stored)
      else saved in
    let timely =
      if out_of_sync last x.check_time time then (failed time_out_of_sync, stored) else enough in
    cases P (ltb_ℤ amount (pos a)) (failed accepted_larger, stored) timely (λ _. refl)
      λ l.
        cases P (out_of_sync last x.check_time time) (failed time_out_of_sync, stored) enough
          (λ _. refl)
          λ s.
            cases P (ltb_ℤ (pos a) (expected rate last check time)) (failed accepted_lower, stored)
              saved (λ _. refl)
              λ m.
                cases P x.save_fails (failed store_failed, stored) done (λ _. refl)
                  λ _. (
                    a,
                    time,
                    e,
                    refl,
                    not_less amount (pos a) l,
                    not_less (pos a) (expected rate last check time) m,
                    s,
                    refl,
                    refl,
                  )

-- When Pay returns an amount, it is what the peer answered: at most what was offered, at least the
-- smaller of the checked allowance and what the time allows, with times in sync; and the record has
-- the amount added and both times. When Pay fails, the record is as it was.
pub pay-Sound :
    (rate amount check : ℤ) (x : Exchange) (stored : Option LastPayment)
    → Sound rate amount (lower amount check) x stored (pay rate amount check x stored)
unfolding pay
pay-Sound rate amount check x stored =
    let c = lower amount check in
    let P = Sound rate amount c x stored in
    let answered = check_answer rate amount c x stored x.answer in
    let written = if x.write_fails then (failed write_failed, stored) else answered in
    let opened = if x.stream_fails then (failed stream_failed, stored) else written in
    let due =
      if eqb_ℤ x.now (or_new stored).timestamp
      then (failed settlement_too_soon, stored)
      else opened in
    cases P x.load_fails (failed store_failed, stored) due (λ _. refl)
      λ _.
        cases P (eqb_ℤ x.now (or_new stored).timestamp) (failed settlement_too_soon, stored) opened
          (λ _. refl)
          λ _.
            cases P x.stream_fails (failed stream_failed, stored) written (λ _. refl)
              λ _.
                cases P x.write_fails (failed write_failed, stored) answered (λ _. refl)
                  λ _. check_answer-Sound rate amount c x stored x.answer refl

-- Every access of the exchange succeeds, and the last payment was not in this second.
abbrev pub Connected : Exchange → Option LastPayment → Type 0
Connected x stored =
    (x.load_fails ≡ false)
    × (eqb_ℤ x.now (or_new stored).timestamp ≡ false)
    × (x.stream_fails ≡ false)
    × (x.write_fails ≡ false)
    × (x.save_fails ≡ false)

enough :
    (by d check : ℤ) (amount a : ℕ)
    → pos a ≡ payment (least by d) (pos amount)
    → lower (pos amount) check ≤ℤ d
    → (ltb_ℤ (pos amount) (pos a) ≡ false)
      × (ltb_ℤ
            (pos a)
            (if ltb_ℤ (lower (pos amount) check) by then lower (pos amount) check else by)
          ≡ false)
enough by d check amount a e h = ground arith

some_of : ℤ → Option ℤ → ℤ
some_of z none = z
some_of z (some d) = d

-- The amount that an honest handler accepts is one that Pay takes.
granted_enough :
    (rate check d : ℤ) (r : Request) (mine theirs : Option LastPayment) (a : ℕ)
    → (handler rate r theirs).ack ≡ some (pos a, r.now)
    → r.debt ≡ some d
    → lower (pos r.amount) check ≤ℤ d
    → (or_new mine).timestamp ≡ (or_new theirs).timestamp
    → (ltb_ℤ (pos r.amount) (pos a) ≡ false)
      × (ltb_ℤ (pos a) (expected rate (or_new mine) (lower (pos r.amount) check) r.now) ≡ false)
unfolding some_of
granted_enough rate check d r mine theirs a ack debt low same =
    let h = handler rate r theirs in
    let (_, (d', debt', e), _) =
      subst (λ o. Answers rate r theirs o h) ack (handler-Answers rate r theirs) in
    let known : d' ≡ d = ap (some_of (pos 0)) (sym debt' ∙ debt) in
    rw same (
      enough (by_time rate r theirs) d check r.amount a
        (e ∙ ap (λ z. payment (least (by_time rate r theirs) z) (pos r.amount)) known) low)

-- Two honest ends agree: what the handler acknowledged, at a rate that both use, is accepted by Pay,
-- if both have the same time of the last payment, the allowance that Pay checks is within the debt
-- that the other end sees, the times are in sync, and no access of Pay fails.
pub pay-handler :
    (rate check d : ℤ) (r : Request) (x : Exchange) (mine theirs : Option LastPayment) (a : ℕ)
    → (handler rate r theirs).ack ≡ some (pos a, r.now)
    → r.debt ≡ some d
    → lower (pos r.amount) check ≤ℤ d
    → x.answer ≡ some (a, r.now)
    → (or_new mine).timestamp ≡ (or_new theirs).timestamp
    → out_of_sync (or_new mine) x.check_time r.now ≡ false
    → Connected x mine
    → (pay rate (pos r.amount) check x mine).0 ≡ ok (pos a, x.check_time)
unfolding pay
pay-handler rate check d r x mine theirs a ack debt low answer same sync (l, t, s, w, v) =
    let (n, m) = granted_enough rate check d r mine theirs a ack debt low same in
    rw (l, t, s, w, answer, n, sync, m, v) refl
