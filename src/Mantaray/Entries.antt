-- ===== src/Mantaray/Entries.antt =====
-- The entries of a trie as a map on paths (pkg/manifest/mantaray/node.go).
use sana.Common.{
  ℕ, ◌≡◌, refl, Bool, true, false, Option, none, some, ◌==◌, if◌then◌else◌, length, drop, arith,
  Bool-cases, inl, inr,
}
use sana.Mantaray.Paths.{Bytes, common, strip, fits, strip-fits, strip-misfits, eq→≡}
use sana.Mantaray.Node.{
  Node, node, Forks, no_fork, fork, lookup_node, lookup_in, get_fork, set_fork,
}

-- The entry that is added at a path, if there is one.
abbrev pub value_at : Option Node → Option Bytes
value_at none = none
value_at (some (node i fs)) = if i.is_value then some i.entry else none

abbrev pub value_of : Node → Bytes → Option Bytes
value_of n q = value_at (lookup_node n q)

-- The value of what is left of a path.
abbrev pub value_rest : Node → Option Bytes → Option Bytes
value_rest n none = none
value_rest n (some r) = value_of n r

-- The value behind a prefix.
abbrev pub under : Bytes → Node → Bytes → Option Bytes
under p n q = value_rest n (strip p q)

abbrev pub value_in : Forks → ℕ → Bytes → Option Bytes
value_in fs b q = value_at (lookup_in fs b q)

pub under-lookup :
    (p : Bytes) (n : Node) (q : Bytes)
    → value_at (elim (fits p q) as (λ _. Option Node) [
      | true ↦ lookup_node n (drop (length (common p q)) q)
      | false ↦ none
    ])
      ≡ under p n q
under-lookup p n q = elim (Bool-cases (fits p q)) [
  | inl e ↦ rw (e, strip-fits p q e) refl
  | inr m ↦ rw (m, strip-misfits p q m) refl
]

pub value_in-fork :
    (k : ℕ) (p : Bytes) (n : Node) (fs : Forks) (b : ℕ) (q : Bytes)
    → value_in (fork k p n fs) b q ≡ (if k == b then under p n q else value_in fs b q)
unfolding lookup_node lookup_in
value_in-fork k p n fs b q = by_test (k == b)
  where
    by_test :
        (x : Bool)
        → value_at (elim x as (λ _. Option Node) [
          | true ↦ elim (fits p q) as (λ _. Option Node) [
            | true ↦ lookup_node n (drop (length (common p q)) q)
            | false ↦ none
          ]
          | false ↦ lookup_in fs b q
        ])
          ≡ (if x then under p n q else value_in fs b q)
    by_test true = under-lookup p n q
    by_test false = refl

-- The fork that is set, and the others.
pub value_in-set_fork :
    (k : ℕ) (p : Bytes) (n : Node) (fs : Forks) (b : ℕ) (q : Bytes)
    → value_in (set_fork k p n fs) b q ≡ (if k == b then under p n q else value_in fs b q)
unfolding lookup_in
value_in-set_fork k p n no_fork b q = value_in-fork k p n no_fork b q
value_in-set_fork k p n (fork j r m fs) b q = elim (Bool-cases (j == k)) [
  | inl e ↦
      rw (e, value_in-fork k p n fs b q, value_in-fork j r m fs b q, eq→≡ j k e)
        (elim (Bool-cases (k == b)) [ inl x ↦ rw x refl | inr y ↦ rw y refl ])
  | inr x ↦
      rw
        (
          x,
          value_in-fork j r m (set_fork k p n fs) b q,
          value_in-fork j r m fs b q,
          value_in-set_fork k p n fs b q,
        )
        (elim (Bool-cases (j == b)) [
          | inl y ↦ let z : k == b ≡ false = ground arith in rw (y, z) refl
          | inr y ↦ rw y refl
        ])
]

abbrev pub under_fork : Bytes → Option (Bytes × Node) → Option Bytes
under_fork q none = none
under_fork q (some (p, n)) = under p n q

pub value_in-get_fork :
    (fs : Forks) (b : ℕ) (q : Bytes) → value_in fs b q ≡ under_fork q (get_fork b fs)
unfolding lookup_in
value_in-get_fork no_fork b q = refl
value_in-get_fork (fork k p n fs) b q = elim (Bool-cases (k == b)) [
  | inl e ↦ rw (value_in-fork k p n fs b q, e) refl
  | inr m ↦ rw (value_in-fork k p n fs b q, m) (value_in-get_fork fs b q)
]
