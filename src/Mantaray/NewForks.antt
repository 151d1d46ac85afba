-- ===== src/Mantaray/NewForks.antt =====
-- What Add puts where no fork begins with the first byte (pkg/manifest/mantaray/node.go).
use sana.Common.{
  ℕ, suc, ◌≡◌, refl, ap, sym, subst, ◌∙◌, Option, none, some, [], ◌∷◌, ◌++◌, ltb, length, take,
  drop, Bool-cases, inl, inr,
}
use sana.Mantaray.Paths.{Bytes, strip, take-drop}
use sana.Mantaray.Node.{
  Metadata, Info, Node, node, Forks, no_fork, lookup_node, lookup_in, get_fork,
}
use sana.Mantaray.Changes.{update_separator, with_entry, new_info, attach, attach_long}
use sana.Mantaray.Entries.{value_of, value_rest, under, value_in, under_fork, value_in-get_fork}
use sana.Mantaray.Adding.{
  Starts, IsWellFormed, AreWellFormed, update_separator-IsWellFormed, value_of-update_separator,
  Adds, under-Adds, under_here, attach-Adds,
}

pub append_nil : (p : Bytes) → p ++ [] ≡ p
append_nil [] = refl
append_nil (b ∷ p) = ap (λ s. b ∷ s) (append_nil p)

pub with_entry-value :
    (e : Bytes) (md : Metadata) (i : Info) (fs : Forks)
    → value_of (node (with_entry e md i) fs) [] ≡ some e
unfolding lookup_node
with_entry-value e md i fs = elim (Bool-cases (ltb 0 (length md))) [
  | inl h ↦ rw h refl
  | inr n ↦ rw n refl
]

-- A node that has just been made has no entries.
new-value : (i : Info) (q : Bytes) → value_of (node (new_info i) no_fork) q ≡ none
unfolding lookup_node lookup_in
new-value i [] = refl
new-value i (b ∷ bs) = refl

under_new : (c q : Bytes) (i : Info) → under c (node (new_info i) no_fork) q ≡ none
under_new c q i = go (strip c q)
  where
    go : (x : Option Bytes) → value_rest (node (new_info i) no_fork) x ≡ none
    go none = refl
    go (some r) = new-value i r

leaf-others :
    (e : Bytes) (md : Metadata) (i : Info) (r : Bytes)
    → (r ≡ [] → ⊥)
    → value_of (node (with_entry e md (new_info i)) no_fork) r
      ≡ value_of (node (new_info i) no_fork) r
unfolding lookup_node lookup_in
leaf-others e md i [] d = elim (d refl) [ ]
leaf-others e md i (b ∷ bs) d = refl

-- The separator says nothing of the entries below a prefix.
pub under-update_separator :
    (c p : Bytes) (n : Node) (q : Bytes) → under c (update_separator p n) q ≡ under c n q
under-update_separator c p n q = go (strip c q)
  where
    go : (x : Option Bytes) → value_rest (update_separator p n) x ≡ value_rest n x
    go none = refl
    go (some r) = value_of-update_separator p n r

take-Starts : (k b : ℕ) (bs : Bytes) → Starts b (take (suc k) (b ∷ bs))
take-Starts k b bs = refl

absent : (fs : Forks) (b : ℕ) (q : Bytes) → get_fork b fs ≡ none → value_in fs b q ≡ none
absent fs b q g = value_in-get_fork fs b q ∙ ap (under_fork q) g

pub leaf-Adds :
    (e : Bytes) (md : Metadata) (i : Info) (size : ℕ) (fs : Forks) (b : ℕ) (bs : Bytes)
    → AreWellFormed fs
    → get_fork b fs ≡ none
    → Adds e (b ∷ bs) (node i fs) (
        some (
          inr (
            attach
              (record i { ref_bytes_size = size })
              fs
              b
              (b ∷ bs)
              (update_separator
                (b ∷ bs)
                (node (with_entry e md (new_info (record i { ref_bytes_size = size }))) no_fork)))))
unfolding IsWellFormed
leaf-Adds e md i size fs b bs w g =
    let j : Info = record i { ref_bytes_size = size } in
    let leaf = node (with_entry e md (new_info j)) no_fork in
    let path = b ∷ bs in
    attach-Adds e i size fs b bs path (update_separator path leaf) w refl tt
      (under-update_separator path path leaf path
        ∙ subst (λ q. under path leaf q ≡ some e) (append_nil path)
            (under_here path [] e leaf (with_entry-value e md (new_info j) no_fork)))
      (λ q d.
        under-update_separator path path leaf q
        ∙ under-Adds path [] q leaf (node (new_info j) no_fork) (leaf-others e md j)
            (λ k. d (k ∙ append_nil path))
        ∙ under_new path q j
        ∙ sym (absent fs b q g))

pub long-Adds :
    (e : Bytes) (i : Info) (size : ℕ) (fs : Forks) (b : ℕ) (bs : Bytes) (m : Node)
    → AreWellFormed fs
    → get_fork b fs ≡ none
    → Adds e
        (drop 30 (b ∷ bs))
        (node (new_info (record i { ref_bytes_size = size })) no_fork)
        (some (inr m))
    → Adds e
        (b ∷ bs)
        (node i fs)
        (some (inr (attach_long (record i { ref_bytes_size = size }) fs b (take 30 (b ∷ bs)) m)))
long-Adds e i size fs b bs m w g h =
    let j : Info = record i { ref_bytes_size = size } in
    let path = b ∷ bs in
    let c = take 30 path in
    let rest = drop 30 path in
    let whole : c ++ rest ≡ path = take-drop 30 path in
    attach-Adds e i size fs b bs c (update_separator c m) w (take-Starts 29 b bs)
      (update_separator-IsWellFormed c m h.0)
      (under-update_separator c c m path
        ∙ subst (λ q. under c m q ≡ some e) whole (under_here c rest e m h.1))
      (λ q d.
        under-update_separator c c m q
        ∙ under-Adds c rest q m (node (new_info j) no_fork) h.2 (λ k. d (k ∙ whole))
        ∙ under_new c q j
        ∙ sym (absent fs b q g))
