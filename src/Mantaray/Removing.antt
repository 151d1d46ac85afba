-- ===== src/Mantaray/Removing.antt =====
-- What Remove does to the entries (pkg/manifest/mantaray/node.go).
use sana.Common.{
  ℕ, ◌≡◌, refl, ap, sym, subst, ◌∙◌, Bool, true, false, Option, none, some, [], ◌∷◌, ◌++◌, ◌==◌,
  ◌⊎◌, Bool-cases, inl, inr,
}
use sana.Mantaray.Paths.{Bytes, strip, and_strip, strip_twice, strip-append, append-strip, eq→≡}
use sana.Mantaray.Node.{Info, Node, node, Forks, no_fork, fork, lookup_node, lookup_in}
use sana.Mantaray.Changes.{Error, not_found, map_right, remove, remove_in}
use sana.Mantaray.Entries.{value_of, value_rest, under, value_in, value_in-fork}
use sana.Mantaray.Adding.{Lacks, IsWellFormed, AreWellFormed}
use sana.Mantaray.NewForks.{append_nil}

pub append_assoc : (p q r : Bytes) → (p ++ q) ++ r ≡ p ++ (q ++ r)
append_assoc [] q r = refl
append_assoc (b ∷ p) q r = ap (λ s. b ∷ s) (append_assoc p q r)

-- The path and all that go on from it have no entry any more, and the others have what they had.
abbrev pub Removes : Bytes → Node → Error ⊎ Node → Type 0
Removes path n (inl e) = Unit {0}
Removes path n (inr m) =
    IsWellFormed m
    × ((r : Bytes) → value_of m (path ++ r) ≡ none)
    × ((q : Bytes) → strip path q ≡ none → value_of m q ≡ value_of n q)

abbrev pub RemovesIn : ℕ → Bytes → Forks → Error ⊎ Forks → Type 0
RemovesIn b path fs (inl e) = Unit {0}
RemovesIn b path fs (inr gs) =
    AreWellFormed gs
    × ((c : ℕ) → Lacks c fs → Lacks c gs)
    × ((r : Bytes) → value_in gs b (path ++ r) ≡ none)
    × ((x : ℕ) (q : Bytes) → (x ≡ b → strip path q ≡ none) → value_in gs x q ≡ value_in fs x q)

value_in-Lacks : (b : ℕ) (fs : Forks) (q : Bytes) → Lacks b fs → value_in fs b q ≡ none
unfolding lookup_in
value_in-Lacks b no_fork q l = refl
value_in-Lacks b (fork k p n fs) q l =
    rw (value_in-fork k p n fs b q, l.0) (value_in-Lacks b fs q l.1)

-- Of two tries with this fork in front, one the other after a change.
fork_others :
    (k : ℕ) (p : Bytes) (n m : Node) (fs gs : Forks) (x : ℕ) (q : Bytes)
    → (k == x ≡ true → under p m q ≡ under p n q)
    → (k == x ≡ false → value_in gs x q ≡ value_in fs x q)
    → value_in (fork k p m gs) x q ≡ value_in (fork k p n fs) x q
fork_others k p n m fs gs x q h g = elim (Bool-cases (k == x)) [
  | inl e ↦ rw (value_in-fork k p m gs x q, value_in-fork k p n fs x q, e) (h e)
  | inr d ↦ rw (value_in-fork k p m gs x q, value_in-fork k p n fs x q, d) (g d)
]

-- The fork itself goes.
gone :
    (k : ℕ) (p : Bytes) (n : Node) (fs : Forks) (b : ℕ) (path : Bytes)
    → k == b ≡ true
    → AreWellFormed fs
    → Lacks k fs
    → strip p path ≡ some []
    → RemovesIn b path (fork k p n fs) (inr fs)
gone k p n fs b path e w l s = (
  w,
  λ c m. m.1,
  λ r.
      subst (λ x. value_in fs x (path ++ r) ≡ none) (eq→≡ k b e)
        (value_in-Lacks k fs (path ++ r) l),
  others,
)
  where
    same : path ≡ p
    same = append-strip p path [] s ∙ append_nil p

    others :
        (x : ℕ) (q : Bytes)
        → (x ≡ b → strip path q ≡ none)
        → value_in fs x q ≡ value_in (fork k p n fs) x q
    others x q d = elim (Bool-cases (k == x)) [
      | inl h ↦
          let z : strip p q ≡ none =
            subst (λ y. strip y q ≡ none) same (d (sym (eq→≡ k x h) ∙ eq→≡ k b e)) in
          rw (value_in-fork k p n fs x q, h, z)
            (subst (λ y. value_in fs y q ≡ none) (eq→≡ k x h) (value_in-Lacks k fs q l))
      | inr h ↦ rw (value_in-fork k p n fs x q, h) refl
    ]

-- The path goes on below the fork.
deeper :
    (k : ℕ) (p : Bytes) (n : Node) (fs : Forks) (b : ℕ) (path rest : Bytes) (out : Error ⊎ Node)
    → k == b ≡ true
    → AreWellFormed (fork k p n fs)
    → strip p path ≡ some rest
    → Removes rest n out
    → RemovesIn b path (fork k p n fs) (map_right (λ m. fork k p m fs) out)
unfolding AreWellFormed
deeper k p n fs b path rest (inl error) e w s h = tt
deeper k p n fs b path rest (inr m) e w s h = ((w.0, h.0, w.2, w.3), λ c l. l, at_path, others)
  where
    whole : path ≡ p ++ rest
    whole = append-strip p path rest s

    at_path : (r : Bytes) → value_in (fork k p m fs) b (path ++ r) ≡ none
    at_path r =
        let z : strip p (path ++ r) ≡ some (rest ++ r) =
          ap (strip p) (ap (λ y. y ++ r) whole ∙ append_assoc p rest r)
          ∙ strip-append p (rest ++ r) in
        rw (value_in-fork k p m fs b (path ++ r), e, z) (h.1 r)

    below :
        (q : Bytes) (y : Option Bytes) → and_strip rest y ≡ none → value_rest m y ≡ value_rest n y
    below q none d = refl
    below q (some t) d = h.2 t d

    others :
        (x : ℕ) (q : Bytes)
        → (x ≡ b → strip path q ≡ none)
        → value_in (fork k p m fs) x q ≡ value_in (fork k p n fs) x q
    others x q d =
        fork_others k p n m fs fs x q
          (λ g. below q (strip p q) (
            sym (strip_twice p rest q)
            ∙ subst (λ y. strip y q ≡ none) whole (d (sym (eq→≡ k x g) ∙ eq→≡ k b e))))
          (λ _. refl)

-- The fork is another one.
passed :
    (k : ℕ) (p : Bytes) (n : Node) (fs : Forks) (b : ℕ) (path : Bytes) (out : Error ⊎ Forks)
    → k == b ≡ false
    → AreWellFormed (fork k p n fs)
    → RemovesIn b path fs out
    → RemovesIn b path (fork k p n fs) (map_right (fork k p n) out)
unfolding AreWellFormed
passed k p n fs b path (inl error) e w h = tt
passed k p n fs b path (inr gs) e w h = (
  (w.0, w.1, h.0, h.1 k w.3),
  λ c l. (l.0, h.1 c l.1),
  λ r. rw (value_in-fork k p n gs b (path ++ r), e) (h.2 r),
  λ x q d. fork_others k p n n fs gs x q (λ _. refl) (λ _. h.3 x q d),
)

-- The node above.
lifted :
    (i : Info) (fs : Forks) (b : ℕ) (bs : Bytes) (out : Error ⊎ Forks)
    → RemovesIn b (b ∷ bs) fs out
    → Removes (b ∷ bs) (node i fs) (map_right (node i) out)
unfolding lookup_node IsWellFormed
lifted i fs b bs (inl error) h = tt
lifted i fs b bs (inr gs) h = (h.0, h.2, others)
  where
    others : (q : Bytes) → strip (b ∷ bs) q ≡ none → value_of (node i gs) q ≡ value_of (node i fs) q
    others [] d = refl
    others (x ∷ xs) d = h.3 x (x ∷ xs) (λ _. d)

at_fork :
    (k : ℕ) (p : Bytes) (n : Node) (fs : Forks) (b : ℕ) (path : Bytes) (x : Bool)
    → k == b ≡ x
    → (y : Option Bytes) → strip p path ≡ y
    → AreWellFormed (fork k p n fs)
    → ((rest : Bytes) → Removes rest n (remove n rest))
    → RemovesIn b path fs (remove_in fs b path)
    → RemovesIn b path (fork k p n fs) (elim x as (λ _. Error ⊎ Forks) [
      | true ↦ elim y as (λ _. Error ⊎ Forks) [
        | none ↦ inl not_found
        | some [] ↦ inr fs
        | some (r ∷ rest) ↦ map_right (λ m. fork k p m fs) (remove n (r ∷ rest))
      ]
      | false ↦ map_right (fork k p n) (remove_in fs b path)
    ])
unfolding AreWellFormed
at_fork k p n fs b path true e none s d h g = tt
at_fork k p n fs b path true e (some []) s d h g = gone k p n fs b path e d.2 d.3 s
at_fork k p n fs b path true e (some (r ∷ rest)) s d h g =
    deeper k p n fs b path (r ∷ rest) (remove n (r ∷ rest)) e d s (h (r ∷ rest))
at_fork k p n fs b path false e y s d h g = passed k p n fs b path (remove_in fs b path) e d g

mutual
  unfolding remove remove_in IsWellFormed

  below_node : (n : Node) (path : Bytes) → IsWellFormed n → Removes path n (remove n path)
  below_node (node i fs) [] d = tt
  below_node (node i fs) (b ∷ bs) d =
      lifted i fs b bs (remove_in fs b (b ∷ bs)) (below_forks fs b (b ∷ bs) d)

  below_forks :
      (fs : Forks) (b : ℕ) (path : Bytes)
      → AreWellFormed fs
      → RemovesIn b path fs (remove_in fs b path)
  below_forks no_fork b path d = tt
  below_forks (fork k p n fs) b path d =
      at_fork k p n fs b path (k == b) refl (strip p path) refl d (λ rest. below_node n rest d.1)
        (below_forks fs b path d.2)

-- Remove fails, or leaves a well-formed trie in which the path and all that go on from it have no entry,
-- and every other path has what it had.
pub remove-Removes : (n : Node) (path : Bytes) → IsWellFormed n → Removes path n (remove n path)
remove-Removes = below_node
