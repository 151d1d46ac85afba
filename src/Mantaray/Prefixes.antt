-- ===== src/Mantaray/Prefixes.antt =====
-- HasPrefix and the paths that have an entry (pkg/manifest/mantaray/node.go).
use sana.Common.{
  ℕ, ◌≡◌, refl, ap, sym, ◌∙◌, Bool, true, false, Option, none, some, [], ◌∷◌, ◌++◌, ◌==◌, arith,
  Bool-cases, inl, inr, length, drop,
}
use sana.Mantaray.Paths.{
  Bytes, common, strip, fits, strip-fits, strip-misfits, strip-append, append-strip,
}
use sana.Mantaray.Node.{
  Node, node, Forks, no_fork, fork, lookup_node, lookup_in, is_prefix, has_prefix, has_prefix_in,
}
use sana.Mantaray.Entries.{value_of, value_rest, under, value_in, value_in-fork}
use sana.Mantaray.Splitting.{if_true, if_false}
use sana.Mantaray.Removing.{append_assoc}

-- The prefix of a fork that goes on beyond the path.
beyond :
    (p path r t : Bytes)
    → strip p (path ++ r) ≡ some t
    → strip p path ≡ none
    → is_prefix path p ≡ true
beyond [] path r t h n = ground arith
beyond (a ∷ p) [] r t h n = refl
beyond (a ∷ p) (b ∷ path) r t h n = elim (Bool-cases (a == b)) [
  | inl e ↦
      let f : b == a ≡ true = ground arith in
      let g : strip p (path ++ r) ≡ some t = ground arith in
      let k : strip p path ≡ none = ground arith in rw (is_prefix, f) (beyond p path r t g k)
  | inr m ↦ ground arith
]

abbrev pub Finds : Node → Bytes → Type 0
Finds n path = (r e : Bytes) → value_of n (path ++ r) ≡ some e → has_prefix n path ≡ true

-- In the fork whose byte fits.
found_fork :
    (p : Bytes) (n : Node) (path r e : Bytes)
    → ((rest : Bytes) → Finds n rest)
    → under p n (path ++ r) ≡ some e
    → elim (fits p path) as (λ _. Bool) [
      | true ↦ has_prefix n (drop (length (common p path)) path)
      | false ↦ is_prefix path p
    ]
      ≡ true
found_fork p n path r e h v = elim (Bool-cases (fits p path)) [
  | inl f ↦
      let rest = drop (length (common p path)) path in
      let whole : path ≡ p ++ rest = append-strip p path rest (strip-fits p path f) in
      let z : strip p (path ++ r) ≡ some (rest ++ r) =
        ap (strip p) (ap (λ y. y ++ r) whole ∙ append_assoc p rest r)
        ∙ strip-append p (rest ++ r) in
      rw f (h rest r e (ap (value_rest n) (sym z) ∙ v))
  | inr m ↦ rw m (some_rest (strip p (path ++ r)) refl v m)
]
  where
    some_rest :
        (x : Option Bytes)
        → strip p (path ++ r) ≡ x
        → value_rest n x ≡ some e
        → fits p path ≡ false
        → is_prefix path p ≡ true
    some_rest none k w m = ground arith
    some_rest (some t) k w m = beyond p path r t k (strip-misfits p path m)

by_byte :
    (k : ℕ) (p : Bytes) (n : Node) (fs : Forks) (b : ℕ) (path r e : Bytes) (x : Bool)
    → k == b ≡ x
    → ((rest : Bytes) → Finds n rest)
    → (value_in fs b (path ++ r) ≡ some e → has_prefix_in fs b path ≡ true)
    → value_in (fork k p n fs) b (path ++ r) ≡ some e
    → elim x as (λ _. Bool) [
      | true ↦ elim (fits p path) as (λ _. Bool) [
        | true ↦ has_prefix n (drop (length (common p path)) path)
        | false ↦ is_prefix path p
      ]
      | false ↦ has_prefix_in fs b path
    ]
      ≡ true
by_byte k p n fs b path r e true h f g v =
    found_fork p n path r e f (sym (value_in-fork k p n fs b (path ++ r) ∙ if_true _ _ h) ∙ v)
by_byte k p n fs b path r e false h f g v =
    g (sym (value_in-fork k p n fs b (path ++ r) ∙ if_false _ _ h) ∙ v)

mutual
  unfolding has_prefix has_prefix_in lookup_node lookup_in

  finds : (n : Node) (path : Bytes) → Finds n path
  finds (node i fs) [] r e v = refl
  finds (node i fs) (b ∷ bs) r e v = finds_in fs b (b ∷ bs) r e v

  finds_in :
      (fs : Forks) (b : ℕ) (path r e : Bytes)
      → value_in fs b (path ++ r) ≡ some e
      → has_prefix_in fs b path ≡ true
  finds_in no_fork b path r e v = ground arith
  finds_in (fork k p n fs) b path r e v =
      by_byte k p n fs b path r e (k == b) refl (finds n) (finds_in fs b path r e) v

-- HasPrefix holds for every prefix of a path that has an entry.
pub has_prefix_lem :
    (n : Node) (path r e : Bytes) → value_of n (path ++ r) ≡ some e → has_prefix n path ≡ true
has_prefix_lem = finds
