-- ===== src/Common/Outcome.antt =====
-- How a call ends that changes a state: out of fuel, with an error and the state that was reached
-- before it, or with the new state.
use mathlib.Core.Path.{◌≡◌, refl}

pub data Outcome (S : Type 0) : Type 0 where
  running : Outcome S
  failed : S → Outcome S
  done : S → Outcome S

infixl 5 ◌>>=◌
abbrev pub ◌>>=◌ : {S : Type 0} → Outcome S → (S → Outcome S) → Outcome S
running >>= k = running
failed s >>= k = failed s
done s >>= k = k s

-- The outcome of a call of a part, for the whole.
abbrev pub map_outcome : {S T : Type 0} → (S → T) → Outcome S → Outcome T
map_outcome f running = running
map_outcome f (failed s) = failed (f s)
map_outcome f (done s) = done (f s)

-- A property of the state that a call reaches, with or without an error; and one of its new state.
abbrev pub AllOf : {S : Type 0} → (S → Type 0) → Outcome S → Type 0
AllOf P running = Unit {0}
AllOf P (failed s) = P s
AllOf P (done s) = P s

abbrev pub DoneOf : {S : Type 0} → (S → Type 0) → Outcome S → Type 0
DoneOf P running = Unit {0}
DoneOf P (failed s) = Unit {0}
DoneOf P (done s) = P s

pub AllOf-bind :
    {S : Type 0}
    → (P Q : S → Type 0) (m : Outcome S) (k : S → Outcome S) → ((s : S) → P s → Q s)
    → AllOf P m
    → ((s : S) → P s → AllOf Q (k s))
    → AllOf Q (m >>= k)
AllOf-bind P Q running k w h f = tt
AllOf-bind P Q (failed s) k w h f = w s h
AllOf-bind P Q (done s) k w h f = f s h

pub DoneOf-bind :
    {S : Type 0}
    → (P Q : S → Type 0) (m : Outcome S) (k : S → Outcome S) → DoneOf P m
    → ((s : S) → P s → DoneOf Q (k s))
    → DoneOf Q (m >>= k)
DoneOf-bind P Q running k h f = tt
DoneOf-bind P Q (failed s) k h f = tt
DoneOf-bind P Q (done s) k h f = f s h

pub AllOf-DoneOf : {S : Type 0} → (P : S → Type 0) (m : Outcome S) → AllOf P m → DoneOf P m
AllOf-DoneOf P running h = tt
AllOf-DoneOf P (failed s) h = tt
AllOf-DoneOf P (done s) h = h

pub AllOf-map :
    {S T : Type 0}
    → (P : S → Type 0) (Q : T → Type 0) (f : S → T) (m : Outcome S) → ((s : S) → P s → Q (f s))
    → AllOf P m
    → AllOf Q (map_outcome f m)
AllOf-map P Q f running w h = tt
AllOf-map P Q f (failed s) w h = w s h
AllOf-map P Q f (done s) w h = w s h

pub DoneOf-map :
    {S T : Type 0}
    → (P : S → Type 0) (Q : T → Type 0) (f : S → T) (m : Outcome S) → ((s : S) → P s → Q (f s))
    → DoneOf P m
    → DoneOf Q (map_outcome f m)
DoneOf-map P Q f running w h = tt
DoneOf-map P Q f (failed s) w h = tt
DoneOf-map P Q f (done s) w h = w s h

-- What holds of every state.
pub AllOf-any : {S : Type 0} → (P : S → Type 0) (m : Outcome S) → ((s : S) → P s) → AllOf P m
AllOf-any P running h = tt
AllOf-any P (failed s) h = h s
AllOf-any P (done s) h = h s

pub bind_assoc :
    {S : Type 0}
    → (m : Outcome S) (f g : S → Outcome S) → ((m >>= f) >>= g) ≡ (m >>= λ t. f t >>= g)
bind_assoc running f g = refl
bind_assoc (failed s) f g = refl
bind_assoc (done s) f g = refl

-- A property of the state at an error.
abbrev pub FailedOf : {S : Type 0} → (S → Type 0) → Outcome S → Type 0
FailedOf P running = Unit {0}
FailedOf P (failed s) = P s
FailedOf P (done s) = Unit {0}

pub AllOf-FailedOf : {S : Type 0} → (P : S → Type 0) (m : Outcome S) → AllOf P m → FailedOf P m
AllOf-FailedOf P running h = tt
AllOf-FailedOf P (failed s) h = h
AllOf-FailedOf P (done s) h = tt

pub FailedOf-bind :
    {S : Type 0}
    → (P : S → Type 0) (m : Outcome S) (k : S → Outcome S) → AllOf P m
    → ((s : S) → P s → FailedOf P (k s))
    → FailedOf P (m >>= k)
FailedOf-bind P running k h f = tt
FailedOf-bind P (failed s) k h f = h
FailedOf-bind P (done s) k h f = f s h

pub FailedOf-mono :
    {S : Type 0}
    → (P Q : S → Type 0) (m : Outcome S) → ((s : S) → m ≡ failed s → P s → Q s)
    → FailedOf P m
    → FailedOf Q m
FailedOf-mono P Q running w h = tt
FailedOf-mono P Q (failed s) w h = w s refl h
FailedOf-mono P Q (done s) w h = tt

pub DoneOf-mono :
    {S : Type 0}
    → (P Q : S → Type 0) (m : Outcome S) → ((s : S) → P s → Q s)
    → DoneOf P m
    → DoneOf Q m
DoneOf-mono P Q running w h = tt
DoneOf-mono P Q (failed s) w h = tt
DoneOf-mono P Q (done s) w h = w s h
