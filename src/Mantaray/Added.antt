-- ===== src/Mantaray/Added.antt =====
-- How Add ends, and the entries after it (pkg/manifest/mantaray/node.go).
use sana.Common.{
  ℕ, zero, suc, ◌<◌, ◌≤◌, ◌≡◌, refl, Option, none, some, [], ◌∷◌, ltb, length, take, drop,
  length-drop, ◌⊎◌, arith, Bool-cases, inl, inr,
}
use sana.Mantaray.Paths.{Bytes, common}
use sana.Mantaray.Node.{Metadata, Info, Node, node, Forks, no_fork, lookup_node, get_fork}
use sana.Mantaray.Changes.{
  Error, Outcome, sized, update_separator, with_entry, new_info, attach, attach_long, new_fork,
  between, into_fork, add_below, add_sized, add_step, add, node_prefix_max_size,
}
use sana.Mantaray.Entries.{value_of}
use sana.Mantaray.Adding.{
  Starts, IsWellFormed, AreWellFormed, Fits, get_fork-Fits, Adds, and_then-Adds,
}
use sana.Mantaray.NewForks.{with_entry-value, leaf-Adds, long-Adds}
use sana.Mantaray.Splitting.{common-positive, into-Adds, into-IsWellFormed}

no_less : (n : ℕ) → n < 0 → ⊥
no_less n h = omega arith

new_fork-Adds :
    (rec : Node → Bytes → Outcome) (e : Bytes) (md : Metadata) (i : Info) (size : ℕ) (fs : Forks)
    (b : ℕ) (bs : Bytes)
    → ((n : Node) (r : Bytes) → length r ≤ length bs → IsWellFormed n → Adds e r n (rec n r))
    → AreWellFormed fs
    → get_fork b fs ≡ none
    → Adds e
        (b ∷ bs)
        (node i fs)
        (new_fork rec e md (record i { ref_bytes_size = size }) fs b (b ∷ bs))
unfolding IsWellFormed
new_fork-Adds rec e md i size fs b bs h w g =
    elim (Bool-cases (ltb node_prefix_max_size (suc (length bs)))) [
      | inl l ↦
          let j : Info = record i { ref_bytes_size = size } in
          let made = node (new_info j) no_fork in
          rw l (
            and_then-Adds e (b ∷ bs) (drop 30 (b ∷ bs)) (node i fs) made
              (rec made (drop 30 (b ∷ bs))) (attach_long j fs b (take 30 (b ∷ bs)))
              (h made (drop 30 (b ∷ bs)) (let d = length-drop 29 bs in omega arith) tt)
              (λ m k. long-Adds e i size fs b bs m w g k))
      | inr x ↦ rw x (leaf-Adds e md i size fs b bs w g)
    ]

into_fork-Adds :
    (rec : Node → Bytes → Outcome) (e : Bytes) (i : Info) (size : ℕ) (fs : Forks) (b : ℕ)
    (bs p : Bytes) (n : Node)
    → ((n : Node) (r : Bytes) → length r ≤ length bs → IsWellFormed n → Adds e r n (rec n r))
    → AreWellFormed fs
    → get_fork b fs ≡ some (p, n)
    → Starts b p
    → IsWellFormed n
    → Adds e
        (b ∷ bs)
        (node i fs)
        (into_fork rec (record i { ref_bytes_size = size }) fs b (b ∷ bs) (p, n))
into_fork-Adds rec e i size fs b bs p n h w g s v =
    let j : Info = record i { ref_bytes_size = size } in
    let path = b ∷ bs in
    let c = common p path in
    let nn = update_separator path (between j path c (drop (length c) p) n) in
    and_then-Adds e path (drop (length c) path) (node i fs) nn (rec nn (drop (length c) path))
      (attach j fs b c)
      (h nn (drop (length c) path)
        (let d = length-drop (length c) path in let l = common-positive b p bs s in omega arith)
        (into-IsWellFormed j path p n v))
      (λ m k. into-Adds e i size fs b bs p n m w g s k)

below-Adds :
    (rec : Node → Bytes → Outcome) (e : Bytes) (md : Metadata) (i : Info) (size : ℕ) (fs : Forks)
    (b : ℕ) (bs : Bytes) (f : Option (Bytes × Node))
    → ((n : Node) (r : Bytes) → length r ≤ length bs → IsWellFormed n → Adds e r n (rec n r))
    → AreWellFormed fs
    → get_fork b fs ≡ f
    → Fits b f
    → Adds e
        (b ∷ bs)
        (node i fs)
        (add_below rec e md (record i { ref_bytes_size = size }) fs b (b ∷ bs) f)
below-Adds rec e md i size fs b bs none h w g k = new_fork-Adds rec e md i size fs b bs h w g
below-Adds rec e md i size fs b bs (some (p, n)) h w g k =
    into_fork-Adds rec e i size fs b bs p n h w g k.0 k.1

here-Adds :
    (e : Bytes) (md : Metadata) (i : Info) (size : ℕ) (fs : Forks)
    → AreWellFormed fs
    → Adds e []
        (node i fs)
        (some (inr (node (with_entry e md (record i { ref_bytes_size = size })) fs)))
unfolding IsWellFormed lookup_node
here-Adds e md i size fs w =
    (w, with_entry-value e md (record i { ref_bytes_size = size }) fs, others)
  where
    others :
        (q : Bytes)
        → (q ≡ [] → ⊥)
        → value_of (node (with_entry e md (record i { ref_bytes_size = size })) fs) q
          ≡ value_of (node i fs) q
    others [] d = elim (d refl) [ ]
    others (x ∷ xs) d = refl

step-Adds :
    (rec : Node → Bytes → Outcome) (e : Bytes) (md : Metadata) (n : Node) (path : Bytes)
    → ((m : Node) (r : Bytes) → length r < length path → IsWellFormed m → Adds e r m (rec m r))
    → IsWellFormed n
    → Adds e path n (add_step rec e md n path)
unfolding IsWellFormed
step-Adds rec e md (node i fs) path h w = by_size (sized i.ref_bytes_size (length e))
  where
    by_path :
        (path : Bytes) (size : ℕ)
        → ((m : Node) (r : Bytes) → length r < length path → IsWellFormed m → Adds e r m (rec m r))
        → Adds e path (node i fs) (add_sized rec e md fs path (record i { ref_bytes_size = size }))
    by_path [] size h = here-Adds e md i size fs w
    by_path (b ∷ bs) size h =
        below-Adds rec e md i size fs b bs (get_fork b fs) (λ m r k v. h m r (omega arith) v) w refl
          (get_fork-Fits b fs w)

    by_size :
        (s : Error ⊎ ℕ)
        → Adds e path (node i fs) (elim s as (λ _. Outcome) [
          | inl error ↦ some (inl error)
          | inr size ↦ add_sized rec e md fs path (record i { ref_bytes_size = size })
        ])
    by_size (inl error) = tt
    by_size (inr size) = by_path path size h

-- Add ends, with as many rounds as the path is long and one more: with an error, or with a well-formed
-- trie in which the path has the entry and every other path has what it had.
pub add-Adds :
    (fuel : ℕ) (e : Bytes) (md : Metadata) (n : Node) (path : Bytes)
    → length path < fuel
    → IsWellFormed n
    → Adds e path n (add fuel e md n path)
unfolding add
add-Adds zero e md n path l w = elim (no_less (length path) l) [ ]
add-Adds (suc fuel) e md n path l w =
    step-Adds (λ m p. add fuel e md m p) e md n path
      (λ m r k v. add-Adds fuel e md m r (omega arith) v) w
