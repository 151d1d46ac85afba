-- ===== src/Mantaray/Splitting.antt =====
-- What Add puts where a fork begins with the first byte (pkg/manifest/mantaray/node.go).
use sana.Common.{
  ℕ, ◌<◌, ◌≡◌, refl, ap, sym, subst, ◌∙◌, Bool, true, false, Option, none, some, [], ◌∷◌, ◌++◌,
  ◌==◌, if◌then◌else◌, length, drop, length-append, arith, Bool-cases, inl, inr,
}
use sana.Mantaray.Paths.{
  Bytes, common, strip, and_strip, strip_twice, append-strip, common-drop, common-drop_path,
  eq_refl,
}
use sana.Mantaray.Node.{Info, Node, node, Forks, no_fork, lookup_node, get_fork}
use sana.Mantaray.Changes.{update_separator, attach, between}
use sana.Mantaray.Entries.{
  value_of, value_rest, under, value_in, value_in-fork, under_fork, value_in-get_fork,
}
use sana.Mantaray.Adding.{
  Starts, IsWellFormed, AreWellFormed, update_separator-IsWellFormed, Adds, under-Adds, under_here,
  attach-Adds,
}
use sana.Mantaray.NewForks.{under-update_separator}

between-IsWellFormed :
    (i : Info) (path c rest : Bytes) (n : Node)
    → IsWellFormed n
    → IsWellFormed (between i path c rest n)
unfolding IsWellFormed
between-IsWellFormed i path c [] n w = w
between-IsWellFormed i path c (r ∷ rest) n w =
    (refl, update_separator-IsWellFormed (r ∷ rest) n w, tt, tt)

length_zero : (c rest : Bytes) → length (c ++ rest) == length c ≡ true → rest ≡ []
length_zero c [] h = refl
length_zero c (r ∷ rest) h = let l = length-append c (r ∷ rest) in ground arith

pub if_true : {A : Type 0} (x y : A) {b : Bool} → b ≡ true → (if b then x else y) ≡ x
if_true x y e = rw e refl

pub if_false : {A : Type 0} (x y : A) {b : Bool} → b ≡ false → (if b then x else y) ≡ y
if_false x y e = rw e refl

-- The node in between has the entries of the one below it, except that it may be one itself, at the end
-- of the path.
between-value :
    (i : Info) (c tail : Bytes) (r : ℕ) (rest : Bytes) (n : Node) (q : Bytes)
    → (q ≡ tail → ⊥)
    → value_of (between i (c ++ tail) c (r ∷ rest) n) q ≡ under (r ∷ rest) n q
unfolding lookup_node
between-value i c tail r rest n [] d = elim (Bool-cases (length (c ++ tail) == length c)) [
  | inl e ↦ elim (d (sym (length_zero c tail e))) [ ]
  | inr m ↦ rw m refl
]
between-value i c tail r rest n (x ∷ xs) d =
    value_in-fork r (r ∷ rest) (update_separator (r ∷ rest) n) no_fork x (x ∷ xs)
    ∙ (elim (Bool-cases (r == x)) [
      | inl e ↦ if_true _ _ e ∙ under-update_separator (r ∷ rest) (r ∷ rest) n (x ∷ xs)
      | inr m ↦ if_false _ _ m ∙ at_none x xs m
    ])
  where
    at_none :
        (x : ℕ) (xs : Bytes)
        → r == x ≡ false
        → value_in no_fork x (x ∷ xs) ≡ under (r ∷ rest) n (x ∷ xs)
    at_none x xs m = rw m refl

between-under :
    (i : Info) (c tail rest : Bytes) (n : Node) (q : Bytes)
    → (q ≡ c ++ tail → ⊥)
    → under c (between i (c ++ tail) c rest n) q ≡ under (c ++ rest) n q
between-under i c tail rest n q d =
    go (strip c q) refl ∙ ap (value_rest n) (sym (strip_twice c rest q))
  where
    below :
        (rest r : Bytes)
        → (r ≡ tail → ⊥)
        → value_of (between i (c ++ tail) c rest n) r ≡ value_rest n (strip rest r)
    below [] r k = refl
    below (x ∷ xs) r k = between-value i c tail x xs n r k

    go :
        (x : Option Bytes)
        → strip c q ≡ x
        → value_rest (between i (c ++ tail) c rest n) x ≡ value_rest n (and_strip rest x)
    go none e = refl
    go (some r) e = below rest r (λ k. d (append-strip c q r e ∙ ap (λ s. c ++ s) k))

common-Starts : (b : ℕ) (p bs : Bytes) → Starts b p → Starts b (common p (b ∷ bs))
common-Starts b [] bs s = s
common-Starts b (a ∷ p) bs s = let e : a == b ≡ true = rw s (eq_refl b) in rw e s

pub common-positive : (b : ℕ) (p bs : Bytes) → Starts b p → 0 < length (common p (b ∷ bs))
common-positive b p bs s = positive (common p (b ∷ bs)) (common-Starts b p bs s)
  where
    positive : (c : Bytes) → Starts b c → 0 < length c
    positive [] h = elim h [ ]
    positive (x ∷ xs) h = omega arith

-- The fork is split at the end of the common part, and the rest is added there.
pub into-Adds :
    (e : Bytes) (i : Info) (size : ℕ) (fs : Forks) (b : ℕ) (bs p : Bytes) (n m : Node)
    → AreWellFormed fs
    → get_fork b fs ≡ some (p, n)
    → Starts b p
    → Adds e
        (drop (length (common p (b ∷ bs))) (b ∷ bs))
        (update_separator (b ∷ bs) (
          between
            (record i { ref_bytes_size = size })
            (b ∷ bs)
            (common p (b ∷ bs))
            (drop (length (common p (b ∷ bs))) p)
            n))
        (some (inr m))
    → Adds e
        (b ∷ bs)
        (node i fs)
        (some (inr (attach (record i { ref_bytes_size = size }) fs b (common p (b ∷ bs)) m)))
into-Adds e i size fs b bs p n m w g s h =
    let j : Info = record i { ref_bytes_size = size } in
    let path = b ∷ bs in
    let c = common p path in
    let rest = drop (length c) p in
    let tail = drop (length c) path in
    let whole : c ++ tail ≡ path = common-drop_path p path in
    let nn = between j path c rest n in
    attach-Adds e i size fs b bs c m w (common-Starts b p bs s) h.0
      (subst (λ q. under c m q ≡ some e) whole (under_here c tail e m h.1))
      (λ q d.
        under-Adds c tail q m (update_separator path nn) h.2 (λ k. d (k ∙ whole))
        ∙ under-update_separator c path nn q
        ∙ subst (λ z. under c (between j z c rest n) q ≡ under (c ++ rest) n q) whole
            (between-under j c tail rest n q (λ k. d (k ∙ whole)))
        ∙ ap (λ z. under z n q) (common-drop p path)
        ∙ sym (value_in-get_fork fs b q ∙ ap (under_fork q) g))

pub into-IsWellFormed :
    (i : Info) (path p : Bytes) (n : Node)
    → IsWellFormed n
    → IsWellFormed
        (update_separator path (between i path (common p path) (drop (length (common p path)) p) n))
into-IsWellFormed i path p n w =
    let c = common p path in
    update_separator-IsWellFormed path (between i path c (drop (length c) p) n)
      (between-IsWellFormed i path c (drop (length c) p) n w)
