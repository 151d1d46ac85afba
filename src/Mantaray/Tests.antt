-- ===== src/Mantaray/Tests.antt =====
-- A trie with a few paths (pkg/manifest/mantaray/node.go), and the theorems at it.
use sana.Common.{◌≡◌, refl, true, none, some, [], ◌∷◌, inl, inr, arith}
use sana.Mantaray.Node.{Node, new, lookup, lookup_node, lookup_in, has_prefix}
use sana.Mantaray.Changes.{Outcome, add, sized, remove, invalid_entry_size}
use sana.Mantaray.Adding.{IsWellFormed, AreWellFormed}
use sana.Mantaray.Reading.{HasAdded, HasRemoved, add-HasAdded, remove-HasRemoved, has_prefix-lookup}

abbrev or_new : Outcome → Node
or_new none = new
or_new (some (inl e)) = new
or_new (some (inr n)) = n

-- The paths 1 2 3, 1 2 4 and 1 2, the last of them where the fork of the others is split.
abbrev trie : Node
trie = or_new (
    add 9 (7 ∷ []) []
      (or_new
        (add 9 (6 ∷ []) [] (or_new (add 9 (5 ∷ []) [] new (1 ∷ 2 ∷ 3 ∷ []))) (1 ∷ 2 ∷ 4 ∷ [])))
      (1 ∷ 2 ∷ []))

trie_reads :
    (lookup trie (1 ∷ 2 ∷ 3 ∷ []) ≡ some (5 ∷ []))
    × (lookup trie (1 ∷ 2 ∷ 4 ∷ []) ≡ some (6 ∷ []))
    × (lookup trie (1 ∷ 2 ∷ []) ≡ some (7 ∷ []))
    × (lookup trie (1 ∷ []) ≡ none)
unfolding add sized lookup lookup_node lookup_in
trie_reads = (refl, refl, refl, refl)

trie-IsWellFormed : IsWellFormed trie
unfolding add sized IsWellFormed AreWellFormed
trie-IsWellFormed = (refl, (refl, tt, (refl, tt, tt, tt), (refl, tt)), tt, tt)

add-HasAdded_example : HasAdded (8 ∷ []) (1 ∷ 3 ∷ []) trie (add 3 (8 ∷ []) [] trie (1 ∷ 3 ∷ []))
add-HasAdded_example = add-HasAdded 3 (8 ∷ []) [] trie (1 ∷ 3 ∷ []) (omega arith) trie-IsWellFormed

-- The paths 1 2 3 and 1 2 4 go with 1 2.
remove-HasRemoved_example : HasRemoved (1 ∷ 2 ∷ []) trie (remove trie (1 ∷ 2 ∷ []))
remove-HasRemoved_example = remove-HasRemoved trie (1 ∷ 2 ∷ []) trie-IsWellFormed

has_prefix-lookup_example : has_prefix trie (1 ∷ []) ≡ true
has_prefix-lookup_example = has_prefix-lookup trie (1 ∷ []) (2 ∷ 4 ∷ []) (6 ∷ []) trie_reads.1

-- The second entry has another size.
other_size : add 9 (5 ∷ 6 ∷ []) [] trie (4 ∷ []) ≡ some (inl invalid_entry_size)
unfolding add sized
other_size = refl
