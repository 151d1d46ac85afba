-- ===== src/Mantaray/Adding.antt =====
-- What Add does to the entries (pkg/manifest/mantaray/node.go).
use sana.Common.{
  ℕ, ◌≡◌, refl, ap, subst, ◌∙◌, true, false, Option, none, some, [], ◌∷◌, ◌++◌, ◌==◌, Bool-cases,
  inl, inr,
}
use sana.Mantaray.Paths.{Bytes, strip, strip-append, append-strip, eq→≡, eq_refl, eq_sym}
use sana.Mantaray.Node.{Info, Node, node, Forks, no_fork, fork, lookup_node, get_fork, set_fork}
use sana.Mantaray.Changes.{Outcome, update_separator, and_then, attach}
use sana.Mantaray.Entries.{value_of, value_rest, under, value_in, value_in-set_fork}

abbrev pub Starts : ℕ → Bytes → Type 0
Starts k [] = ⊥
Starts k (b ∷ bs) = b ≡ k

-- No fork begins with this byte.
abbrev pub Lacks : ℕ → Forks → Type 0
Lacks b no_fork = Unit {0}
Lacks b (fork k p n fs) = (k == b ≡ false) × Lacks b fs

-- Every prefix begins with the byte of its fork, and no two forks have the same one.
unfoldable mutual
  pub IsWellFormed : Node → Type 0
  IsWellFormed (node i fs) = AreWellFormed fs

  pub AreWellFormed : Forks → Type 0
  AreWellFormed no_fork = Unit {0}
  AreWellFormed (fork k p n fs) = Starts k p × IsWellFormed n × AreWellFormed fs × Lacks k fs

abbrev pub Fits : ℕ → Option (Bytes × Node) → Type 0
Fits b none = Unit {0}
Fits b (some (p, n)) = Starts b p × IsWellFormed n

Starts-eq : (k b : ℕ) (p : Bytes) → k == b ≡ true → Starts k p → Starts b p
Starts-eq k b p e s = subst (λ x. Starts x p) (eq→≡ k b e) s

pub get_fork-Fits : (b : ℕ) (fs : Forks) → AreWellFormed fs → Fits b (get_fork b fs)
unfolding AreWellFormed
get_fork-Fits b no_fork w = tt
get_fork-Fits b (fork k p n fs) w = elim (Bool-cases (k == b)) [
  | inl e ↦ rw e (Starts-eq k b p e w.0, w.1)
  | inr m ↦ rw m (get_fork-Fits b fs w.2)
]

set_fork-Lacks :
    (k b : ℕ) (p : Bytes) (n : Node) (fs : Forks)
    → b == k ≡ false
    → Lacks k fs
    → Lacks k (set_fork b p n fs)
set_fork-Lacks k b p n no_fork h l = (h, tt)
set_fork-Lacks k b p n (fork j r m fs) h l = elim (Bool-cases (j == b)) [
  | inl e ↦ rw e (h, l.1)
  | inr x ↦ rw x (l.0, set_fork-Lacks k b p n fs h l.1)
]

set_fork-AreWellFormed :
    (b : ℕ) (p : Bytes) (n : Node) (fs : Forks)
    → Starts b p
    → IsWellFormed n
    → AreWellFormed fs
    → AreWellFormed (set_fork b p n fs)
unfolding AreWellFormed
set_fork-AreWellFormed b p n no_fork s w v = (s, w, tt, tt)
set_fork-AreWellFormed b p n (fork k r m fs) s w v = elim (Bool-cases (k == b)) [
  | inl e ↦ rw e (s, w, v.2, subst (λ x. Lacks x fs) (eq→≡ k b e) v.3)
  | inr x ↦ rw x (
    v.0,
    v.1,
    set_fork-AreWellFormed b p n fs s w v.2,
    set_fork-Lacks k b p n fs (eq_sym k b x) v.3,
  )
]

pub update_separator-IsWellFormed :
    (p : Bytes) (n : Node) → IsWellFormed n → IsWellFormed (update_separator p n)
unfolding IsWellFormed
update_separator-IsWellFormed p (node i fs) w = w

pub value_of-update_separator :
    (p : Bytes) (n : Node) (q : Bytes) → value_of (update_separator p n) q ≡ value_of n q
unfolding lookup_node
value_of-update_separator p (node i fs) [] = refl
value_of-update_separator p (node i fs) (b ∷ bs) = refl

-- The result is an error, or a node that has the entry at the path and the other entries of the node
-- before.
abbrev pub Adds : Bytes → Bytes → Node → Outcome → Type 0
Adds e path n none = ⊥
Adds e path n (some (inl error)) = Unit {0}
Adds e path n (some (inr m)) =
    IsWellFormed m
    × (value_of m path ≡ some e)
    × ((q : Bytes) → (q ≡ path → ⊥) → value_of m q ≡ value_of n q)

pub and_then-Adds :
    (e path rest : Bytes) (n nn : Node) (out : Outcome) (f : Node → Node)
    → Adds e rest nn out
    → ((m : Node) → Adds e rest nn (some (inr m)) → Adds e path n (some (inr (f m))))
    → Adds e path n (and_then out f)
and_then-Adds e path rest n nn none f h g = h
and_then-Adds e path rest n nn (some (inl error)) f h g = tt
and_then-Adds e path rest n nn (some (inr m)) f h g = g m h

-- Below a prefix.
pub under-Adds :
    (c rest q : Bytes) (m n : Node)
    → ((r : Bytes) → (r ≡ rest → ⊥) → value_of m r ≡ value_of n r)
    → (q ≡ c ++ rest → ⊥)
    → under c m q ≡ under c n q
under-Adds c rest q m n h d = go (strip c q) refl
  where
    go : (x : Option Bytes) → strip c q ≡ x → value_rest m x ≡ value_rest n x
    go none e = refl
    go (some r) e = h r (λ k. d (append-strip c q r e ∙ ap (λ s. c ++ s) k))

pub under_here :
    (c rest e : Bytes) (m : Node) → value_of m rest ≡ some e → under c m (c ++ rest) ≡ some e
under_here c rest e m h = rw (strip-append c rest) h

-- A fork with the entry takes the place of the one that was there.
pub attach-Adds :
    (e : Bytes) (i : Info) (size : ℕ) (fs : Forks) (b : ℕ) (bs c : Bytes) (m : Node)
    → AreWellFormed fs
    → Starts b c
    → IsWellFormed m
    → under c m (b ∷ bs) ≡ some e
    → ((q : Bytes) → (q ≡ b ∷ bs → ⊥) → under c m q ≡ value_in fs b q)
    → Adds e
        (b ∷ bs)
        (node i fs)
        (some (inr (attach (record i { ref_bytes_size = size }) fs b c m)))
unfolding IsWellFormed lookup_node
attach-Adds e i size fs b bs c m w s v h g = (
  set_fork-AreWellFormed b c m fs s v w,
  rw (value_in-set_fork b c m fs b (b ∷ bs), eq_refl b) h,
  others,
)
  where
    others :
        (q : Bytes)
        → (q ≡ b ∷ bs → ⊥)
        → value_of (attach (record i { ref_bytes_size = size }) fs b c m) q ≡ value_of (node i fs) q
    others [] d = refl
    others (x ∷ xs) d = rw (value_in-set_fork b c m fs x (x ∷ xs)) (elim (Bool-cases (b == x)) [
      | inl k ↦ rw k (g (x ∷ xs) d ∙ ap (λ z. value_in fs z (x ∷ xs)) (eq→≡ b x k))
      | inr k ↦ rw k refl
    ])
