-- ===== src/Mantaray/Changes.antt =====
-- Add and Remove (pkg/manifest/mantaray/node.go) on a trie that is in memory. The state after an error
-- is not modelled.
use sana.Common.{
  ℕ, zero, suc, Bool, true, false, not, ◌&&◌, ◌||◌, Option, none, some, [], ◌∷◌, ◌++◌, ltb, ◌==◌,
  if◌then◌else◌, length, take, drop, replicate, ◌⊎◌, inl, inr,
}
use sana.Mantaray.Paths.{Bytes, common, strip}
use sana.Mantaray.Node.{
  Metadata, Info, Node, node, Forks, no_fork, fork, empty_info, get_fork, set_fork,
}

pub data Error : Type 0 where
  entry_too_large : Error
  invalid_entry_size : Error
  not_found : Error
  empty_path : Error

-- A step ends with an error or a node, or is out of fuel.
abbrev pub Outcome : Type 0
Outcome = Option (Error ⊎ Node)

abbrev pub node_prefix_max_size : ℕ
node_prefix_max_size = 30

abbrev pub path_separator : ℕ
path_separator = 47

abbrev pub contains : ℕ → Bytes → Bool
contains b [] = false
contains b (c ∷ cs) = (b == c) || contains b cs

-- Whether the first separator is there and not at the start.
abbrev pub has_inner_separator : Bytes → Bool
has_inner_separator [] = false
has_inner_separator (b ∷ bs) = not (path_separator == b) && contains path_separator bs

-- updateIsWithPathSeparator
abbrev pub update_separator : Bytes → Node → Node
update_separator path (node i fs) =
    node (record i { is_with_path_separator = has_inner_separator path }) fs

abbrev pub make_edge : Info → Info
make_edge i = record i { is_edge = true }

-- The reference size after an entry of this length, or the error.
unfoldable pub sized : ℕ → ℕ → Error ⊎ ℕ
sized size n =
    if size == 0
    then (if ltb 256 n then inl entry_too_large else inr n)
    else if ltb 0 n && not (size == n)
    then inl invalid_entry_size
    else inr size

abbrev pub with_metadata : Metadata → Info → Info
with_metadata md i =
    if ltb 0 (length md) then record i { metadata = md; is_with_metadata = true } else i

abbrev pub with_entry : Bytes → Metadata → Info → Info
with_entry e md i = with_metadata md (record i { entry = e; is_value = true })

-- SetObfuscationKey pads the key, or cuts it, to 32 bytes.
abbrev pub padded : Bytes → Bytes
padded key = take 32 (key ++ replicate 32 0)

-- A new node below one with these fields.
abbrev pub new_info : Info → Info
new_info i = record empty_info {
  ref_bytes_size = i.ref_bytes_size;
  obfuscation_key = if ltb 0 (length i.obfuscation_key) then padded i.obfuscation_key else [];
}

-- What follows if there is a node.
abbrev pub and_then : Outcome → (Node → Node) → Outcome
and_then none f = none
and_then (some (inl e)) f = some (inl e)
and_then (some (inr n)) f = some (inr (f n))

abbrev pub attach : Info → Forks → ℕ → Bytes → Node → Node
attach i fs b prefix n = node (make_edge i) (set_fork b prefix n fs)

abbrev pub attach_long : Info → Forks → ℕ → Bytes → Node → Node
attach_long i fs b prefix nn = attach i fs b prefix (update_separator prefix nn)

-- No fork begins with the first byte of the path.
abbrev pub new_fork :
    (Node → Bytes → Outcome) → Bytes → Metadata → Info → Forks → ℕ → Bytes → Outcome
new_fork rec e md i fs b path =
    if ltb node_prefix_max_size (length path)
    then and_then (rec (node (new_info i) no_fork) (drop node_prefix_max_size path))
        (attach_long i fs b (take node_prefix_max_size path))
    else some (
        inr (
          attach i fs b path (update_separator path (node (with_entry e md (new_info i)) no_fork))))

-- The node between the common part and the rest of the prefix of a fork.
abbrev pub between : Info → Bytes → Bytes → Bytes → Node → Node
between i path c [] n = n
between i path c (r ∷ rest) n =
    node (record (make_edge (new_info i)) { is_value = length path == length c })
      (fork r (r ∷ rest) (update_separator (r ∷ rest) n) no_fork)

-- A fork begins with the first byte of the path.
abbrev pub into_fork : (Node → Bytes → Outcome) → Info → Forks → ℕ → Bytes → Bytes × Node → Outcome
into_fork rec i fs b path (prefix, n) =
    let c = common prefix path in
    let nn = update_separator path (between i path c (drop (length c) prefix) n) in
    and_then (rec nn (drop (length c) path)) (attach i fs b c)

abbrev pub add_below :
    (Node → Bytes → Outcome)
    → Bytes
    → Metadata
    → Info
    → Forks
    → ℕ
    → Bytes
    → Option (Bytes × Node)
    → Outcome
add_below rec e md i fs b path none = new_fork rec e md i fs b path
add_below rec e md i fs b path (some f) = into_fork rec i fs b path f

abbrev pub add_sized : (Node → Bytes → Outcome) → Bytes → Metadata → Forks → Bytes → Info → Outcome
add_sized rec e md fs [] i = some (inr (node (with_entry e md i) fs))
add_sized rec e md fs (b ∷ bs) i = add_below rec e md i fs b (b ∷ bs) (get_fork b fs)

abbrev pub add_step : (Node → Bytes → Outcome) → Bytes → Metadata → Node → Bytes → Outcome
add_step rec e md (node i fs) path = elim (sized i.ref_bytes_size (length e)) [
  | inl error ↦ some (inl error)
  | inr size ↦ add_sized rec e md fs path (record i { ref_bytes_size = size })
]

-- Add, with the number of nodes that it may go down.
unfoldable pub add : ℕ → Bytes → Metadata → Node → Bytes → Outcome
add zero e md n path = none
add (suc fuel) e md n path = add_step (λ m p. add fuel e md m p) e md n path

abbrev pub map_right : {A B : Type 0} → (A → B) → Error ⊎ A → Error ⊎ B
map_right f (inl e) = inl e
map_right f (inr a) = inr (f a)

-- Remove
unfoldable mutual
  pub remove : Node → Bytes → Error ⊎ Node
  remove (node i fs) [] = inl empty_path
  remove (node i fs) (b ∷ bs) = map_right (node i) (remove_in fs b (b ∷ bs))

  pub remove_in : Forks → ℕ → Bytes → Error ⊎ Forks
  remove_in no_fork b path = inl not_found
  remove_in (fork k p n fs) b path = elim (k == b) [
    | true ↦ elim (strip p path) [
      | none ↦ inl not_found
      | some [] ↦ inr fs
      | some (r ∷ rest) ↦ map_right (λ m. fork k p m fs) (remove n (r ∷ rest))
    ]
    | false ↦ map_right (fork k p n) (remove_in fs b path)
  ]
