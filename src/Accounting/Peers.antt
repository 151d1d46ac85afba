-- ===== src/Accounting/Peers.antt =====
-- The accounts of all peers (pkg/accounting/accounting.go): the map of the peers in memory, and the
-- three families of entries in the state store, by the peer's address.
use sana.Common.{ℕ, Bool, false, Option, none, some, List, if◌then◌else◌, ◌==◌}
use sana.Common.Int.{ℤ, pos}
use sana.Accounting.State.{Config, Account, AccountingPeer, Event, Result, Op}

pub record Accounting : Type 0 where
  pub config : Config
  pub peers : ℕ → Option AccountingPeer
  pub balances : ℕ → Option ℤ
  pub surpluses : ℕ → Option ℤ
  pub originated : ℕ → Option ℤ
  pub faults : List Bool
  pub events : List Event

abbrev update : {A : Type 0} → (ℕ → A) → ℕ → A → ℕ → A
update f k v j = if j == k then v else f j

abbrev or_new : ℤ → Option AccountingPeer → AccountingPeer
or_new threshold (some p) = p
or_new threshold none = record {
  reserved = pos 0;
  shadow_reserved = pos 0;
  ghost = pos 0;
  payment_threshold = threshold;
  refresh_timestamp = pos 0;
  payment_ongoing = false;
  last_failure = pos 0;
  connected = false;
}

-- getAccountingPeer
unfoldable pub get_accounting_peer : Accounting → ℕ → AccountingPeer
get_accounting_peer a k = or_new a.config.payment_threshold (a.peers k)

-- The account of one peer, and the accounts with that one put back.
unfoldable pub account : Accounting → ℕ → Account
unfolding get_accounting_peer
account a k = record {
  peer = get_accounting_peer a k;
  balance = a.balances k;
  surplus = a.surpluses k;
  originated = a.originated k;
  faults = a.faults;
  events = a.events;
}

put_back : Accounting → ℕ → Account → Accounting
put_back a k s = record a {
  peers = update a.peers k (some s.peer);
  balances = update a.balances k s.balance;
  surpluses = update a.surpluses k s.surplus;
  originated = update a.originated k s.originated;
  faults = s.faults;
  events = s.events;
}

-- An operation on the peer `k`, under its lock.
on_peer : {A : Type 0} → ℕ → Op A → Accounting → Result A × Accounting
unfolding account put_back
on_peer k m a = let (r, s) = m (account a k) in (r, put_back a k s)
