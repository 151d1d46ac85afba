-- ===== src/Mantaray/Reading.antt =====
-- What Lookup finds after Add and Remove (pkg/manifest/mantaray/node.go).
use sana.Common.{
  ℕ, ◌<◌, ◌≡◌, refl, sym, ◌∙◌, true, Option, none, some, [], ◌∷◌, ◌++◌, length, ◌⊎◌, arith,
  Bool-cases, inl, inr,
}
use sana.Mantaray.Paths.{Bytes, strip}
use sana.Mantaray.Node.{Metadata, Node, node, lookup_node, lookup, entry_of, has_prefix}
use sana.Mantaray.Changes.{Error, Outcome, add, remove}
use sana.Mantaray.Entries.{value_at, value_of}
use sana.Mantaray.Adding.{IsWellFormed, Adds}
use sana.Mantaray.Added.{add-Adds}
use sana.Mantaray.Removing.{Removes, remove-Removes}
use sana.Mantaray.Prefixes.{has_prefix_lem}

abbrev pub IsEmpty : Bytes → Type 0
IsEmpty [] = Unit {0}
IsEmpty (b ∷ bs) = ⊥

entry-value : (b : ℕ) (bs : Bytes) (x : Option Node) → entry_of (b ∷ bs) x ≡ value_at x
entry-value b bs none = refl
entry-value b bs (some (node i fs)) = elim (Bool-cases i.is_value) [
  | inl e ↦ rw e refl
  | inr n ↦ ground arith
]

-- Below the root, Lookup finds the values.
lookup-value : (n : Node) (q : Bytes) → (IsEmpty q → ⊥) → lookup n q ≡ value_of n q
unfolding lookup
lookup-value n [] d = elim (d tt) [ ]
lookup-value n (b ∷ bs) d = entry-value b bs (lookup_node n (b ∷ bs))

value-lookup : (n : Node) (q e : Bytes) → value_of n q ≡ some e → lookup n q ≡ some e
unfolding lookup lookup_node
value-lookup (node i fs) [] e h = elim (Bool-cases i.is_value) [
  | inl k ↦ ground arith
  | inr k ↦ ground arith
]
value-lookup n (b ∷ bs) e h = entry-value b bs (lookup_node n (b ∷ bs)) ∙ h

-- An error, or a well-formed trie with the entry at the path, and at every other path but the empty one
-- the entry that was there.
abbrev pub HasAdded : Bytes → Bytes → Node → Outcome → Type 0
HasAdded e path n none = ⊥
HasAdded e path n (some (inl error)) = Unit {0}
HasAdded e path n (some (inr m)) =
    IsWellFormed m
    × (lookup m path ≡ some e)
    × ((q : Bytes) → (IsEmpty q → ⊥) → (q ≡ path → ⊥) → lookup m q ≡ lookup n q)

Adds-HasAdded :
    (e path : Bytes) (n : Node) (out : Outcome) → Adds e path n out → HasAdded e path n out
Adds-HasAdded e path n none h = h
Adds-HasAdded e path n (some (inl error)) h = tt
Adds-HasAdded e path n (some (inr m)) h = (
  h.0,
  value-lookup m path e h.1,
  λ q d k. lookup-value m q d ∙ h.2 q k ∙ sym (lookup-value n q d),
)

-- Add on a well-formed trie in memory ends, in as many rounds as the path is long and one more at most:
-- with an error, or with a well-formed trie in which Lookup finds the entry at the path, and at every
-- other path but the empty one what it found before.
pub add-HasAdded :
    (fuel : ℕ) (e : Bytes) (md : Metadata) (n : Node) (path : Bytes)
    → length path < fuel
    → IsWellFormed n
    → HasAdded e path n (add fuel e md n path)
add-HasAdded fuel e md n path l w =
    Adds-HasAdded e path n (add fuel e md n path) (add-Adds fuel e md n path l w)

abbrev pub HasRemoved : Bytes → Node → Error ⊎ Node → Type 0
HasRemoved path n (inl error) = Unit {0}
HasRemoved path n (inr m) =
    IsWellFormed m
    × ((r : Bytes) → (IsEmpty (path ++ r) → ⊥) → lookup m (path ++ r) ≡ none)
    × ((q : Bytes) → (IsEmpty q → ⊥) → strip path q ≡ none → lookup m q ≡ lookup n q)

Removes-HasRemoved :
    (path : Bytes) (n : Node) (out : Error ⊎ Node) → Removes path n out → HasRemoved path n out
Removes-HasRemoved path n (inl error) h = tt
Removes-HasRemoved path n (inr m) h = (
  h.0,
  λ r d. lookup-value m (path ++ r) d ∙ h.1 r,
  λ q d k. lookup-value m q d ∙ h.2 q k ∙ sym (lookup-value n q d),
)

-- Remove on a well-formed trie in memory fails, or leaves a well-formed trie in which Lookup finds
-- nothing at the path and at all paths that go on from it, and at every other path but the empty one
-- what it found before.
pub remove-HasRemoved :
    (n : Node) (path : Bytes) → IsWellFormed n → HasRemoved path n (remove n path)
remove-HasRemoved n path w = Removes-HasRemoved path n (remove n path) (remove-Removes n path w)

-- HasPrefix holds for every prefix of a path at which Lookup finds an entry.
pub has_prefix-lookup :
    (n : Node) (path r e : Bytes) → lookup n (path ++ r) ≡ some e → has_prefix n path ≡ true
unfolding has_prefix
has_prefix-lookup n (b ∷ bs) r e h =
    has_prefix_lem n (b ∷ bs) r e (sym (lookup-value n (b ∷ (bs ++ r)) (λ x. x)) ∙ h)
has_prefix-lookup (node i fs) [] r e h = refl
