-- ===== src/Accounting/Frames.antt =====
-- Rules for relations between the account before and after an operation, whatever its outcome
-- (pkg/accounting/accounting.go).
use sana.Common.{if◌then◌else◌, Bool, true, false, ◌≡◌, refl, ◌∙◌}
use sana.Accounting.State.{
  Account, Error, Result, ok, err, raise_if, Op, pure, raise, continue, ◌>>=◌, when,
}

-- Every outcome of `m` is related to the account that it began with.
pub record Steps (R : Account → Account → Type 0) {A : Type 0} (m : Op A) : Type 0 where
  pub at : (s : Account) → R s (m s).1

module _ (R : Account → Account → Type 0) (R_refl : (s : Account) → R s s)
    (R_trans : (s t u : Account) → R s t → R t u → R s u) where
  bind_case :
      {A B : Type 0} (f : A → Op B) (s : Account) (r : Result A) (t : Account)
      → ((a : A) → Steps R (f a))
      → R s t
      → R s (continue f (r, t)).1
  bind_case f s (ok a) t keep h = R_trans s t _ h ((keep a).at t)
  bind_case f s (err e) t keep h = h

  pub bind-Steps :
      {A B : Type 0} {m : Op A} {f : A → Op B}
      → Steps R m
      → ((a : A) → Steps R (f a))
      → Steps R (m >>= f)
  bind-Steps {m} {f} h k = record { at = λ s. bind_case f s (m s).0 (m s).1 k (h.at s) }

  pub when-Steps : (b : Bool) {m : Op (Unit {0})} → Steps R m → Steps R (when b m)
  when-Steps true h = record { at = h.at }
  when-Steps false h = record { at = R_refl }

pub if-Steps :
    {R : Account → Account → Type 0} {A : Type 0} (b : Bool) {m n : Op A}
    → Steps R m
    → Steps R n
    → Steps R (if b then m else n)
if-Steps true h k = record { at = h.at }
if-Steps false h k = record { at = k.at }

-- What an operation that only reads and settles leaves alone.
pub record Keeps (s t : Account) : Type 0 where
  pub reserved : t.reserved ≡ s.reserved
  pub ghost : t.ghost ≡ s.ghost
  pub payment_threshold : t.payment_threshold ≡ s.payment_threshold
  pub connected : t.connected ≡ s.connected
  pub surplus : t.surplus ≡ s.surplus

pub Keeps-refl : (s : Account) → Keeps s s
Keeps-refl s = record {
  reserved = refl;
  ghost = refl;
  payment_threshold = refl;
  connected = refl;
  surplus = refl;
}

pub Keeps-trans : (s t u : Account) → Keeps s t → Keeps t u → Keeps s u
Keeps-trans s t u h k = record {
  reserved = k.reserved ∙ h.reserved;
  ghost = k.ghost ∙ h.ghost;
  payment_threshold = k.payment_threshold ∙ h.payment_threshold;
  connected = k.connected ∙ h.connected;
  surplus = k.surplus ∙ h.surplus;
}

-- `P` holds of the result and the account that a success leaves, `E` of an error and its account.
abbrev pub Ends :
    (Error → Account → Type 0) → {A : Type 0} → (A → Account → Type 0) → Result A × Account → Type 0
Ends E P (ok a, t) = P a t
Ends E P (err e, t) = E e t

-- From an account with `H`, a success of `m` has `P` and an error has `E`.
pub record Post (E : Error → Account → Type 0) {A : Type 0} (H : Account → Type 0)
    (P : A → Account → Type 0) (m : Op A) : Type 0 where
  pub run : (s : Account) → H s → Ends E P (m s)

with_case :
    (E : Error → Account → Type 0) {A : Type 0} (F : Type 0) (P : A → Account → Type 0)
    (r : Result A × Account)
    → F
    → Ends E P r
    → Ends E (λ a t. F × P a t) r
with_case E F P (ok a, t) f h = (f, h)
with_case E F P (err e, t) f h = h

map_case :
    (E : Error → Account → Type 0) {A : Type 0} (P Q : A → Account → Type 0)
    (r : Result A × Account)
    → ((a : A) (t : Account) → P a t → Q a t)
    → Ends E P r
    → Ends E Q r
map_case E P Q (ok a, t) k h = k a t h
map_case E P Q (err e, t) k h = h

module _ {E : Error → Account → Type 0} where
  continue-Post :
      {A B : Type 0} (P : B → Account → Type 0) (Q : A → Account → Type 0) (f : A → Op B)
      (r : Result A × Account)
      → ((a : A) → Post E (Q a) P (f a))
      → Ends E Q r
      → Ends E P (continue f r)
  continue-Post P Q f (ok a, t) k h = (k a).run t h
  continue-Post P Q f (err e, t) k h = h

  pub bind-Post :
      {A B : Type 0} {H : Account → Type 0} {P : B → Account → Type 0} (Q : A → Account → Type 0)
      {m : Op A} {f : A → Op B}
      → Post E H Q m
      → ((a : A) → Post E (Q a) P (f a))
      → Post E H P (m >>= f)
  bind-Post {P} Q {m} {f} h k = record { run = λ s hs. continue-Post P Q f (m s) k (h.run s hs) }

  -- A fact about neither account stays at hand.
  pub with-Post :
      {A : Type 0} (F : Type 0) {H : Account → Type 0} {P : A → Account → Type 0} {m : Op A}
      → Post E H P m
      → Post E (λ t. F × H t) (λ a t. F × P a t) m
  with-Post F {P} {m} h = record { run = λ s hs. with_case E F P (m s) hs.0 (h.run s hs.1) }

  pub pure-Post :
      {A : Type 0} {H : Account → Type 0} {P : A → Account → Type 0} {a : A}
      → ((s : Account) → H s → P a s)
      → Post E H P (pure a)
  pure-Post k = record { run = k }

  pub raise-Post :
      {A : Type 0} {H : Account → Type 0} {P : A → Account → Type 0} {e : Error}
      → ((s : Account) → H s → E e s)
      → Post E H P (raise e)
  raise-Post k = record { run = k }

  pub raise_if-Post :
      {H : Account → Type 0} (c : Bool) (e : Error)
      → ((s : Account) → H s → c ≡ true → E e s)
      → Post E H (λ _ t. (c ≡ false) × H t) (raise_if c e)
  raise_if-Post true e k = record { run = λ s h. k s h refl }
  raise_if-Post false e k = record { run = λ s h. (refl, h) }

  pub if-Post :
      {A : Type 0} {H : Account → Type 0} {P : A → Account → Type 0} (c : Bool) {m n : Op A}
      → (c ≡ true → Post E H P m)
      → (c ≡ false → Post E H P n)
      → Post E H P (if c then m else n)
  if-Post true h k = record { run = (h refl).run }
  if-Post false h k = record { run = (k refl).run }

  pub map-Post :
      {A : Type 0} {H : Account → Type 0} (P : A → Account → Type 0) {Q : A → Account → Type 0}
      {m : Op A}
      → ((a : A) (t : Account) → P a t → Q a t)
      → Post E H P m
      → Post E H Q m
  map-Post P {Q} {m} k h = record { run = λ s hs. map_case E P Q (m s) k (h.run s hs) }

both_case :
    {A : Type 0} (P : Account → Type 0) (r : Result A × Account) → Ends (λ _. P) (λ _. P) r → P r.1
both_case P (ok a, t) h = h
both_case P (err e, t) h = h

-- What holds on both ends holds of the account that is left.
pub both_ends :
    {A : Type 0} {H : Account → Type 0} (P : Account → Type 0) {m : Op A}
    → Post (λ _. P) H (λ _. P) m
    → (s : Account) → H s
    → P (m s).1
both_ends P {m} h s hs = both_case P (m s) (h.run s hs)
