-- ===== src/Accounting/Blocking.antt =====
-- For how long a peer is blocked, and the debts that the peer is seen to have
-- (pkg/accounting/accounting.go).
use sana.Common.{◌*◌, ◌^◌, Option, none, some, ◌∷◌, if◌then◌else◌}
use sana.Common.Int.{ℤ, pos, ◌+ℤ◌, ◌-ℤ◌, ◌*ℤ◌, ◌/ℤ◌, ltb_ℤ, leb_ℤ, max_zero}
use sana.Common.Word.{wrap64}
use sana.Accounting.State.{
  Config, Account, Event, blocklisted, Result, ok, err, Op, pure, gets, ◌>>=◌, access, get_surplus,
}

-- nanoseconds in a second
abbrev pub second : ℤ
second = pos (10 ^ 9)

-- `time.Duration(k) * time.Second`
unfoldable pub seconds : ℤ → ℤ
unfolding wrap64 ◌*ℤ◌
seconds k = wrap64 (k *ℤ second)

abbrev pub or_zero : Option ℤ → ℤ
or_zero none = pos 0
or_zero (some z) = z

-- PeerDebt
unfoldable pub peer_debt : Op ℤ
peer_debt = do
  entry ← access (gets (λ s. s.balance))
  shadow ← gets (λ s. s.shadow_reserved)
  pure (max_zero (or_zero entry +ℤ shadow))

-- peerLatentDebt
unfoldable pub peer_latent_debt : Op ℤ
peer_latent_debt = do
  entry ← access (gets (λ s. s.balance))
  shadow ← gets (λ s. s.shadow_reserved)
  ghost ← gets (λ s. s.ghost)
  pure (max_zero (max_zero (or_zero entry) +ℤ shadow +ℤ ghost))

abbrev shadow_of_debt : ℤ → Op ℤ
shadow_of_debt balance = do
  let negative = pos 0 -ℤ balance
  surplus ← get_surplus
  shadow ← gets (λ s. s.shadow_reserved)
  pure (if ltb_ℤ (negative +ℤ surplus) shadow then pos 0 else negative -ℤ shadow)

abbrev shadow_of : Option ℤ → Op ℤ
shadow_of none = pure (pos 0)
shadow_of (some z) = if leb_ℤ (pos 0) z then pure (pos 0) else shadow_of_debt z

-- shadowBalance
unfoldable pub shadow_balance : Op ℤ
unfolding get_surplus
shadow_balance = do shadow_of (← access (gets (λ s. s.balance)))

-- The number of seconds in blocklistUntil, once the latent debt is known.
unfoldable pub block_seconds : Config → ℤ → ℤ → ℤ
unfolding ◌*ℤ◌ ◌/ℤ◌ wrap64
block_seconds c debt multiplier =
    let least = if ltb_ℤ debt c.refresh_rate then c.refresh_rate else debt in
    wrap64 ((least +ℤ c.payment_threshold) *ℤ multiplier /ℤ c.refresh_rate)

unfoldable pub blocklist_until : Config → ℤ → Op ℤ
unfolding peer_latent_debt
blocklist_until c multiplier = do pure (block_seconds c (← peer_latent_debt) multiplier)

-- The duration that stands for a result of `blocklist_until`, with the one for its failure.
abbrev pub duration : ℤ → Result ℤ → ℤ
duration default (ok k) = seconds k
duration default (err e) = default

abbrev pub emit : Event → Account → Account
emit e s = record s { events = e ∷ s.events }

abbrev pub minute : ℤ
minute = pos (60 * 10 ^ 9)

-- `blocklist`. Its own error, that of the p2p service, is dropped by every caller.
unfoldable pub blocklist : Config → ℤ → Op (Unit {0})
unfolding blocklist_until
blocklist c multiplier s =
    let (r, s') = blocklist_until c multiplier s in
    (ok tt, emit (blocklisted (duration minute r)) s')
