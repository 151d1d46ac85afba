-- ===== src/Mantaray/Node.antt =====
-- Nodes, forks and the reads of a trie that is in memory (pkg/manifest/mantaray/node.go).
use sana.Common.{
  ℕ, Bool, true, false, not, ◌&&◌, Option, none, some, List, [], ◌∷◌, ltb, ◌==◌, if◌then◌else◌,
  length, drop,
}
use sana.Mantaray.Paths.{Bytes, common, strip, fits}

abbrev pub Metadata : Type 0
Metadata = List (Bytes × Bytes)

-- The fields of Node that are no forks; the first four are the bits of nodeType.
pub record Info : Type 0 where
  pub is_value : Bool
  pub is_edge : Bool
  pub is_with_path_separator : Bool
  pub is_with_metadata : Bool
  pub ref_bytes_size : ℕ
  pub obfuscation_key : Bytes
  pub entry : Bytes
  pub metadata : Metadata

-- The map of the forks, each with its first byte, the prefix and the node.
mutual
  pub data Node : Type 0 where
    node : Info → Forks → Node

  pub data Forks : Type 0 where
    no_fork : Forks
    fork : ℕ → Bytes → Node → Forks → Forks

abbrev pub info : Node → Info
info (node i fs) = i

abbrev pub get_fork : ℕ → Forks → Option (Bytes × Node)
get_fork b no_fork = none
get_fork b (fork k p n fs) = let rest = get_fork b fs in if k == b then some (p, n) else rest

abbrev pub set_fork : ℕ → Bytes → Node → Forks → Forks
set_fork b q m no_fork = fork b q m no_fork
set_fork b q m (fork k p n fs) =
    let rest = set_fork b q m fs in if k == b then fork b q m fs else fork k p n rest

abbrev pub empty_info : Info
empty_info = record {
  is_value = false;
  is_edge = false;
  is_with_path_separator = false;
  is_with_metadata = false;
  ref_bytes_size = 0;
  obfuscation_key = [];
  entry = [];
  metadata = [];
}

-- New
abbrev pub new : Node
new = node empty_info no_fork

-- LookupNode: the node of a path, if there is one.
unfoldable mutual
  pub lookup_node : Node → Bytes → Option Node
  lookup_node (node i fs) [] = some (node i fs)
  lookup_node (node i fs) (b ∷ bs) = lookup_in fs b (b ∷ bs)

  pub lookup_in : Forks → ℕ → Bytes → Option Node
  lookup_in no_fork b path = none
  lookup_in (fork k p n fs) b path = elim (k == b) [
    | true ↦ elim (fits p path) [
      | true ↦ lookup_node n (drop (length (common p path)) path)
      | false ↦ none
    ]
    | false ↦ lookup_in fs b path
  ]

abbrev pub entry_of : Bytes → Option Node → Option Bytes
entry_of path none = none
entry_of path (some (node i fs)) =
    if not i.is_value && ltb 0 (length path) then none else some i.entry

-- Lookup: the entry of a path, or none for ErrNotFound.
unfoldable pub lookup : Node → Bytes → Option Bytes
lookup n path = entry_of path (lookup_node n path)

abbrev pub is_prefix : Bytes → Bytes → Bool
is_prefix p q = elim (strip p q) [ none ↦ false | some _ ↦ true ]

-- HasPrefix
unfoldable mutual
  pub has_prefix : Node → Bytes → Bool
  has_prefix (node i fs) [] = true
  has_prefix (node i fs) (b ∷ bs) = has_prefix_in fs b (b ∷ bs)

  pub has_prefix_in : Forks → ℕ → Bytes → Bool
  has_prefix_in no_fork b path = false
  has_prefix_in (fork k p n fs) b path = elim (k == b) [
    | true ↦ elim (fits p path) [
      | true ↦ has_prefix n (drop (length (common p path)) path)
      | false ↦ is_prefix path p
    ]
    | false ↦ has_prefix_in fs b path
  ]
