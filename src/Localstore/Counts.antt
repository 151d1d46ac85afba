-- ===== src/Localstore/Counts.antt =====
-- What the writes of a batch do to the garbage and to its size (pkg/localstore/gc.go).
use sana.Common.{
  ℕ, ◌+◌, ◌≤◌, ◌≡◌, refl, ap, Bool, true, false, if◌then◌else◌, List, [], ◌∷◌, ◌++◌, length, arith,
}
use sana.Common.Int.{ℤ, pos, negsuc, pos_part, neg_part, ◌+ℤ◌, int_laws}
use sana.Localstore.Keys.{GcKey, IsAscending}
use sana.Localstore.State.{Write, Result, failed, done, ◌>>=◌, append}
use sana.Localstore.Writes.{gc_all, size_all, gc_all-append, size_all-append}

-- The writes change neither.
abbrev pub Neutral : List Write → Type 0
Neutral ws = ((ks : List GcKey) → gc_all ws ks ≡ ks) × ((n : ℕ) → size_all ws n ≡ n)

-- The writes keep the order of the keys and change their number as the change says; the size is not
-- written, and there is at most one key more.
abbrev pub Counts : List GcKey → ℤ → List Write → Type 0
Counts ks c ws =
    IsAscending (gc_all ws ks)
    × (length (gc_all ws ks) + neg_part c ≡ length ks + pos_part c)
    × ((n : ℕ) → size_all ws n ≡ n)
    × (pos_part c ≤ 1)

pub append_nil : {A : Type 0} (xs : List A) → xs ++ [] ≡ xs
append_nil [] = refl
append_nil (x ∷ xs) = ap (λ ys. x ∷ ys) (append_nil xs)

-- What holds of the value and the writes of a step that does not fail.
abbrev pub Holds : {A : Type 0} → (A → List Write → Type 0) → Result A → Type 0
Holds P (failed e) = Unit {0}
Holds P (done a ws) = P a ws

Holds-append :
    {A : Type 0} (P : A → List Write → Type 0) (ws : List Write) (r : Result A)
    → Holds (λ a vs. P a (ws ++ vs)) r
    → Holds P (append ws r)
Holds-append P ws (failed e) h = tt
Holds-append P ws (done a vs) h = h

pub Holds-bind :
    {A B : Type 0} (P : A → List Write → Type 0) (Q : B → List Write → Type 0) (r : Result A)
    (f : A → Result B)
    → Holds P r
    → ((a : A) (ws : List Write) → P a ws → Holds (λ b vs. Q b (ws ++ vs)) (f a))
    → Holds Q (r >>= f)
Holds-bind P Q (failed e) f h k = tt
Holds-bind P Q (done a ws) f h k = Holds-append Q ws (f a) (k a ws h)

pub Holds-mono :
    {A : Type 0} (P Q : A → List Write → Type 0) (r : Result A)
    → ((a : A) (ws : List Write) → P a ws → Q a ws)
    → Holds P r
    → Holds Q r
Holds-mono P Q (failed e) f h = tt
Holds-mono P Q (done a ws) f h = f a ws h

pub Holds-both :
    {A : Type 0} (P Q : A → List Write → Type 0) (r : Result A)
    → Holds P r
    → Holds Q r
    → Holds (λ a ws. P a ws × Q a ws) r
Holds-both P Q (failed e) h g = tt
Holds-both P Q (done a ws) h g = (h, g)

pub Holds-if :
    {A : Type 0} (P : A → List Write → Type 0) (b : Bool) (r s : Result A)
    → (b ≡ true → Holds P r)
    → (b ≡ false → Holds P s)
    → Holds P (if b then r else s)
Holds-if P true r s h g = h refl
Holds-if P false r s h g = g refl

-- The value is changed, and nothing is added.
pub Holds-map :
    {A B : Type 0} (P : A → List Write → Type 0) (Q : B → List Write → Type 0) (r : Result A)
    (f : A → B)
    → Holds P r
    → ((a : A) (ws : List Write) → P a ws → Q (f a) ws)
    → Holds Q (r >>= (λ a. done (f a) []))
Holds-map P Q (failed e) f h k = tt
Holds-map P Q (done a ws) f h k = rw (append_nil ws) (k a ws h)

pub Neutral-Counts :
    (ks : List GcKey) (ws : List Write) → IsAscending ks → Neutral ws → Counts ks (pos 0) ws
Neutral-Counts ks ws a n = rw (n.0 ks) (a, refl, n.1, omega arith)

pos_part_small : (e : ℤ) → pos_part e ≤ 1 + neg_part e → pos_part e ≤ 1
pos_part_small (pos n) h = omega arith
pos_part_small (negsuc n) h = omega arith

pub Counts-append :
    (ks : List GcKey) (c d : ℤ) (ws vs : List Write)
    → Counts ks c ws
    → pos_part c ≡ 0
    → Counts (gc_all ws ks) d vs
    → Counts ks (c +ℤ d) (ws ++ vs)
Counts-append ks c d ws vs h z g = rw (gc_all-append ws vs ks) (
  g.0,
  (let e = h.1 in let f = g.1 in omega int_laws),
  λ n. rw (size_all-append ws vs n, h.2 n) (g.2 n),
  pos_part_small (c +ℤ d) (let e = g.3 in omega int_laws),
)

pub Neutral-append : (ws vs : List Write) → Neutral ws → Neutral vs → Neutral (ws ++ vs)
Neutral-append ws vs h g = (
  λ ks. rw (gc_all-append ws vs ks, h.0 ks) (g.0 ks),
  λ n. rw (size_all-append ws vs n, h.1 n) (g.1 n),
)

pub Neutral-before :
    (ks : List GcKey) (d : ℤ) (ws vs : List Write)
    → Neutral ws
    → Counts ks d vs
    → Counts ks d (ws ++ vs)
Neutral-before ks d ws vs n h =
    rw (gc_all-append ws vs ks, n.0 ks)
      (h.0, h.1, λ m. rw (size_all-append ws vs m, n.1 m) (h.2 m), h.3)

pub Neutral-after :
    (ks : List GcKey) (d : ℤ) (ws vs : List Write)
    → Counts ks d ws
    → Neutral vs
    → Counts ks d (ws ++ vs)
Neutral-after ks d ws vs h n =
    rw (gc_all-append ws vs ks, n.0 (gc_all ws ks))
      (h.0, h.1, λ m. rw (size_all-append ws vs m, h.2 m) (n.1 m), h.3)

pub Holds-append-Neutral :
    (ks : List GcKey) (ws : List Write) (r : Result ℤ)
    → Neutral ws
    → Holds (Counts ks) r
    → Holds (Counts ks) (append ws r)
Holds-append-Neutral ks ws (failed e) n h = tt
Holds-append-Neutral ks ws (done d vs) n h = Neutral-before ks d ws vs n h
