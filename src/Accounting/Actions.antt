-- ===== src/Accounting/Actions.antt =====
-- Debit actions, and what a connection resets (pkg/accounting/accounting.go).
use mathlib.Core.Path.{subst₂}
use sana.Common.{
  not_ltb→le, ltb→lt, ◌∙◌, subst, Bool-cases, inl, inr, ap, leb→le, not_leb→lt, Bool, true, false,
  ◌≡◌, refl, ◌∷◌, arith,
}
use sana.Common.Int.{ℤ, pos, ◌+ℤ◌, ◌-ℤ◌, ◌≤ℤ◌, ◌<ℤ◌, leb_ℤ, ltb_ℤ, int_laws}
use sana.Accounting.State.{
  pure, raise_if, sanity_check, Op, ◌>>=◌, get_balance, get_surplus, put_balance, put_surplus,
  logged, blocklisted, Config, Account, AccountingPeer, Error, Result, ok, err, block_peer,
}
use sana.Accounting.Blocking.{duration, minute, blocklist_until, peer_latent_debt}
use sana.Accounting.Spending.{decrease_originated_to}
use sana.Accounting.Frames.{Steps, bind-Steps, if-Steps}
use sana.Accounting.Debiting.{
  found_balance, add_to_balance, draw_surplus, disconnect_above, finish_debit, DebitAction,
  prepare_debit, increase_balance, apply, cleanup,
}

-- How an action ends, once the balance is increased to `b`, in `u`.
abbrev pub Applied :
    Config → DebitAction → ℤ → Account → Result (Unit {0}) × DebitAction × Account → Type 0
Applied c d b u (r, d', t) =
    (t.shadow_reserved ≡ u.shadow_reserved -ℤ d.price)
    × (t.balance ≡ u.balance)
    × (d' ≡ record d { applied = true })
    × (b <ℤ c.disconnect_limit → r ≡ ok tt)
    × (c.disconnect_limit ≤ℤ b → (k : ℤ) × (r ≡ err (block_peer k)))

disconnect_above_lem :
    (c : Config) (b : ℤ) (s : Account)
    → let (r, t) = disconnect_above c b s in
      (t.peer ≡ s.peer)
      × (t.balance ≡ s.balance)
      × (b <ℤ c.disconnect_limit → r ≡ ok tt)
      × (c.disconnect_limit ≤ℤ b → (k : ℤ) × (r ≡ err (block_peer k)))
unfolding blocklist_until peer_latent_debt
disconnect_above_lem c b s = elim (Bool-cases (leb_ℤ c.disconnect_limit b)) [
  | inl e ↦
      rw e (ground arith, ground arith, (λ h. absurd (omega (arith, leb→le _ _ e))), λ h. (_, refl))
  | inr e ↦ rw e (refl, refl, (λ h. refl), λ h. absurd (omega (arith, not_leb→lt _ _ e)))
]

finish_debit_lem :
    (c : Config) (d : DebitAction) (b : ℤ) (u : Account)
    → Applied c d b u (finish_debit c d (ok b, u))
finish_debit_lem c d b u =
    let u' = record u { peer = record u.peer { shadow_reserved = u.shadow_reserved -ℤ d.price } } in
    let (peer, balance, below, above) = disconnect_above_lem c b u' in
    (ap (λ (p : AccountingPeer). p.shadow_reserved) peer, balance, refl, below, above)

-- Once the balance is increased, applying the action takes its price off the shadow reserve, marks
-- it as applied, and fails, to block the peer, exactly if the new balance has reached the
-- disconnect limit; whatever happens to the store accesses on the way.
pub apply_lem :
    (c : Config) (d : DebitAction) (s : Account) {b : ℤ} {u : Account}
    → increase_balance d.price s ≡ (ok b, u)
    → Applied c d b u (apply c d s)
unfolding apply
apply_lem c d s {b} {u} e = rw e (finish_debit_lem c d b u)

abbrev SamePeer : Account → Account → Type 0
SamePeer s t = t.peer ≡ s.peer

same-Steps :
    {A B : Type 0} {m : Op A} {f : A → Op B}
    → Steps SamePeer m
    → ((a : A) → Steps SamePeer (f a))
    → Steps SamePeer (m >>= f)
same-Steps = bind-Steps SamePeer (λ s. refl) (λ s t u h k. k ∙ h)

get_balance-SamePeer : Steps SamePeer get_balance
unfolding get_balance
get_balance-SamePeer = record { at = λ s. ground arith }

get_surplus-SamePeer : Steps SamePeer get_surplus
unfolding get_surplus
get_surplus-SamePeer = record { at = λ s. ground arith }

found_balance-SamePeer : (p : ℤ × Bool) → Steps SamePeer (found_balance p)
found_balance-SamePeer p = record { at = λ s. ground arith }

put-SamePeer : (z : ℤ) → Steps SamePeer (put_balance z) × Steps SamePeer (put_surplus z)
put-SamePeer z = (record { at = λ s. ground arith }, record { at = λ s. ground arith })

logged-SamePeer : (z : ℤ) → Steps SamePeer (logged (decrease_originated_to z))
unfolding decrease_originated_to
logged-SamePeer z = record { at = λ s. ground arith }

pure-SamePeer : {A : Type 0} (a : A) → Steps SamePeer (pure a)
pure-SamePeer a = record { at = λ s. refl }

raise_if-SamePeer : (b : Bool) (e : Error) → Steps SamePeer (raise_if b e)
raise_if-SamePeer b e = record { at = λ s. refl }

add_to_balance-SamePeer : (cost : ℤ) → Steps SamePeer (add_to_balance cost)
add_to_balance-SamePeer cost = same-Steps get_balance-SamePeer λ p.
    same-Steps (put-SamePeer (p.0 +ℤ cost)).0
      λ _. same-Steps (logged-SamePeer (p.0 +ℤ cost)) λ _. pure-SamePeer (p.0 +ℤ cost)

draw_surplus-SamePeer : (price z : ℤ) → Steps SamePeer (draw_surplus price z)
draw_surplus-SamePeer price z =
    if-Steps (leb_ℤ (pos 0) (z -ℤ price))
      (same-Steps (put-SamePeer (z -ℤ price)).1
        λ _. same-Steps get_balance-SamePeer found_balance-SamePeer)
      (same-Steps (raise_if-SamePeer (leb_ℤ (price -ℤ z) (pos 0)) sanity_check)
        λ _. same-Steps (put-SamePeer (pos 0)).1 λ _. add_to_balance-SamePeer (price -ℤ z))

increase_balance-SamePeer : (price : ℤ) → Steps SamePeer (increase_balance price)
unfolding increase_balance
increase_balance-SamePeer price =
    same-Steps get_surplus-SamePeer λ z.
      if-Steps (ltb_ℤ (pos 0) z) (draw_surplus-SamePeer price z) (add_to_balance-SamePeer price)

abbrev shadowed : ℤ → Account → Account
shadowed price s = record s {
  peer = record s.peer { shadow_reserved = s.shadow_reserved +ℤ price };
}

prepare_debit-eq-ok :
    (price : ℤ) (s : Account) {d : DebitAction} {u : Account}
    → prepare_debit price s ≡ (ok d, u)
    → (record { price = price; applied = false } ≡ d) × (shadowed price s ≡ u)
unfolding prepare_debit
prepare_debit-eq-ok price s e = (ground arith, ground arith)

-- A debit that is prepared and then applied leaves the shadow reserve as it was before, if the
-- balance could be increased; also if the peer is blocked for it.
pub apply-prepare_debit :
    (c : Config) (price : ℤ) (s : Account) {d : DebitAction} {u v : Account} {b : ℤ}
    → prepare_debit price s ≡ (ok d, u)
    → increase_balance d.price u ≡ (ok b, v)
    → let (r, d', t) = apply c d u in (t.shadow_reserved ≡ s.shadow_reserved) × (d'.applied ≡ true)
apply-prepare_debit c price s {d} {u} {v} {b} e k =
    let (is_d, is_u) = prepare_debit-eq-ok price s e in
    let same : v.peer ≡ u.peer =
      subst (λ r. r.1.peer ≡ u.peer) k ((increase_balance-SamePeer d.price).at u) in
    let (shadow, _, done, _, _) = apply_lem c d u k in
    (
      grind (
        int_laws,
        shadow,
        ap (λ (p : AccountingPeer). p.shadow_reserved) same,
        ap (λ (x : DebitAction). x.price) is_d,
        ap (λ (x : Account). x.shadow_reserved) is_u,
      ),
      ap (λ (x : DebitAction). x.applied) done,
    )

blocklist_until_lem :
    (c : Config) (k : ℤ) (s : Account)
    → let t = (blocklist_until c k s).1 in
      (t.peer ≡ s.peer) × (t.balance ≡ s.balance) × (t.surplus ≡ s.surplus) × (t.events ≡ s.events)
unfolding blocklist_until
blocklist_until_lem c k s = (ground arith, ground arith, ground arith, ground arith)

-- What cleaning up leaves, from the account before the debit was prepared.
abbrev pub CleanedUp : Config → ℤ → Account → Account → Type 0
CleanedUp c price s t =
    (t.shadow_reserved ≡ s.shadow_reserved)
    × (t.ghost ≡ s.ghost +ℤ price)
    × (t.reserved ≡ s.reserved)
    × (t.balance ≡ s.balance)
    × (t.surplus ≡ s.surplus)
    × (s.ghost +ℤ price ≤ℤ c.disconnect_limit → t.events ≡ s.events)
    × (c.disconnect_limit <ℤ s.ghost +ℤ price → (k : ℤ) × (t.events ≡ blocklisted k ∷ s.events))

cleanup_case :
    (c : Config) (price : ℤ) (s : Account)
    → CleanedUp c price s
        (cleanup c (record { price = price; applied = false }) (shadowed price s)).1
unfolding cleanup
cleanup_case c price s =
    let s' = record (shadowed price s) {
      peer = record s.peer {
        shadow_reserved = s.shadow_reserved +ℤ price -ℤ price;
        ghost = s.ghost +ℤ price;
      };
    } in
    let n = duration minute (blocklist_until c (pos 1) s').0 in
    let (peer, balance, surplus, events) = blocklist_until_lem c (pos 1) s' in
    elim (Bool-cases (ltb_ℤ c.disconnect_limit (s.ghost +ℤ price))) [
      | inl e ↦ rw e (
        rw peer (omega int_laws),
        rw peer,
        rw peer,
        balance,
        surplus,
        (λ h. absurd (omega (arith, ltb→lt _ _ e))),
        λ h. (n, ap (λ l. blocklisted n ∷ l) events),
      )
      | inr e ↦ rw e (
        omega int_laws,
        refl,
        refl,
        refl,
        refl,
        (λ h. refl),
        λ h. absurd (omega (arith, not_ltb→le _ _ e)),
      )
    ]

-- A debit that is prepared and then cleaned up without being applied moves its price from the
-- shadow reserve to the ghost balance, and changes neither what we reserved nor the stored balance
-- and surplus; the peer is blocked exactly if the ghost balance then is above the disconnect limit.
pub cleanup-prepare_debit :
    (c : Config) (price : ℤ) (s : Account) {d : DebitAction} {u : Account}
    → prepare_debit price s ≡ (ok d, u)
    → CleanedUp c price s (cleanup c d u).1
cleanup-prepare_debit c price s e =
    let (is_d, is_u) = prepare_debit-eq-ok price s e in
    subst₂ (λ d u. CleanedUp c price s (cleanup c d u).1) is_d is_u (cleanup_case c price s)
