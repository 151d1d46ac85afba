-- ===== src/Lightnode/Slice.antt =====
-- A slice of one bin with no address twice, and how Add and Remove act on it
-- (pkg/topology/pslice/pslice.go, for pkg/topology/lightnode/container.go).
use mathlib.Core.List.{append-nil}
use sana.Common.{
  ℕ, ◌+◌, ◌≤◌, ◌<◌, ◌≡◌, refl, sym, subst, ◌∙◌, true, false, not, ◌&&◌, ◌||◌, none, some, List, [],
  ◌∷◌, length, arith, Bool-cases, inl, inr,
}
use sana.Common.Word.{u64_mod}
use sana.PeerSlice.Distance.{Address, equal, equal→≡, equal_refl}
use sana.PeerSlice.State.{PSlice, new_pslice, po, find, exists, add, remove}
use sana.PeerSlice.Bins.{Represents, erase, cons_at, erase_at}
use sana.PeerSlice.Erasing.{found, length-erase}
use sana.PeerSlice.Adding.{po-Represents, po_below, add_one-Represents, new_pslice-Represents}
use sana.PeerSlice.Removing.{find-found, remove-Represents}

abbrev pub Distinct : List Address → Type 0
Distinct [] = Unit {0}
Distinct (a ∷ l) = (found a l ≡ false) × Distinct l

find-not_found : (addr : Address) (xs : List Address) → found addr xs ≡ false → find addr xs ≡ none
unfolding find
find-not_found addr [] h = refl
find-not_found addr (a ∷ rest) h = elim (Bool-cases (equal a addr)) [
  | inl e ↦ ground arith
  | inr n ↦ rw (n, find-not_found addr rest (ground (arith, n, h))) refl
]

pub exists-found : (addr : Address) (s : PSlice) → exists addr s ≡ found addr s.peers
exists-found addr s = elim (Bool-cases (found addr s.peers)) [
  | inl e ↦ let (i, at) = find-found addr s.peers e in rw (exists, at, e) refl
  | inr n ↦ rw (exists, find-not_found addr s.peers n, n) refl
]

-- Whether `x` is there after `a` is taken out.
found-erase :
    (a x : Address) (l : List Address)
    → Distinct l
    → found x (erase a l) ≡ (not (equal a x) && found x l)
found-erase a x [] d = ground arith
found-erase a x (b ∷ l) d = elim (Bool-cases (equal b a)) [
  | inl e ↦
      let same = equal→≡ b a e in
      let gone : found a l ≡ false = subst (λ z. found z l ≡ false) same d.0 in
      elim (Bool-cases (equal a x)) [
        | inl f ↦ let here = equal→≡ a x f in rw (e, f) (subst (λ z. found z l ≡ false) here gone)
        | inr n ↦
            let other : equal b x ≡ false = subst (λ z. equal z x ≡ false) (sym same) n in
            rw (e, n, other) refl
      ]
  | inr n ↦ elim (Bool-cases (equal b x)) [
    | inl f ↦
        let here = equal→≡ b x f in
        elim (Bool-cases (equal a x)) [
          | inl g ↦
              let twin = equal→≡ a x g in
              let back : equal b a ≡ true =
                subst (λ z. equal b z ≡ true) (here ∙ sym twin) (equal_refl b) in
              ground (arith, n, back)
          | inr m ↦ rw (n, f, m) refl
        ]
    | inr m ↦ rw (n, m) (found-erase a x l d.1)
  ]
]

erase-Distinct : (a : Address) (l : List Address) → Distinct l → Distinct (erase a l)
erase-Distinct a [] d = tt
erase-Distinct a (b ∷ l) d = elim (Bool-cases (equal b a)) [
  | inl e ↦ rw e d.1
  | inr n ↦ rw n (ground (arith, found-erase a b l d.1, d.0), erase-Distinct a l d.1)
]

-- A slice of one bin, with no address twice and at most `n` of them.
pub record Single (s : PSlice) (n : ℕ) : Type 0 where
  pub bin : List Address
  pub laid_out : Represents s (bin ∷ [])
  pub distinct : Distinct bin
  pub small : length bin ≤ n

pub peers-bin : (s : PSlice) (l : List Address) → Represents s (l ∷ []) → s.peers ≡ l
peers-bin s l r = r.peers_of ∙ append-nil l

po-first : (s : PSlice) (l : List Address) (a : Address) → Represents s (l ∷ []) → po s a ≡ 0
po-first s l a r =
    let h = po_below 1 s.base_bytes a (omega arith) (omega arith) in
    po-Represents s (l ∷ []) a r ∙ omega arith

pub new-Single : (base : Address) → Single (new_pslice 1 base) 0
new-Single base = record {
  bin = [];
  laid_out = new_pslice-Represents 1 base;
  distinct = tt;
  small = omega arith;
}

pub add-Single :
    (s : PSlice) (n : ℕ) (a : Address)
    → Single s n
    → n + 1 < u64_mod
    → (t : PSlice) × (add (a ∷ []) s ≡ some t)
      × Single t (n + 1)
      × ((x : Address) → found x t.peers ≡ (equal a x || found x s.peers))
unfolding add
add-Single s n a k few = elim (Bool-cases (found a s.peers)) [
  | inl e ↦ (s, rw (exists-found a s, e) refl, wider, λ x. known x e)
  | inr m ↦
      let flat = append-nil k.bin in
      let tiny = k.small in
      let (t, made, r) =
        add_one-Represents s (k.bin ∷ []) a k.laid_out (omega arith) (omega arith)
          (rw flat (omega arith)) in
      let z = po-first s k.bin a k.laid_out in
      let first : Represents t ((a ∷ k.bin) ∷ []) =
        subst (λ p. Represents t (cons_at p a (k.bin ∷ []))) z r in
      let same = peers-bin s k.bin k.laid_out in
      let new : found a k.bin ≡ false = subst (λ l. found a l ≡ false) same m in
      (
        t,
        rw (exists-found a s, m, made) refl,
        record {
          bin = a ∷ k.bin;
          laid_out = first;
          distinct = (new, k.distinct);
          small = omega arith;
        },
        λ x. rw (peers-bin t (a ∷ k.bin) first, same) refl,
      )
]
  where
    wider : Single s (n + 1)
    wider =
        let tiny = k.small in
        record { bin = k.bin; laid_out = k.laid_out; distinct = k.distinct; small = omega arith }

    known :
        (x : Address) → found a s.peers ≡ true → found x s.peers ≡ (equal a x || found x s.peers)
    known x e = elim (Bool-cases (equal a x)) [
      | inl f ↦ rw f (subst (λ z. found z s.peers ≡ true) (equal→≡ a x f) e)
      | inr m ↦ rw m refl
    ]

pub remove-Single :
    (s : PSlice) (n : ℕ) (a : Address)
    → Single s n
    → n + 1 < u64_mod
    → (t : PSlice) × (remove a s ≡ some t)
      × Single t n
      × ((x : Address) → found x t.peers ≡ (not (equal a x) && found x s.peers))
unfolding remove
remove-Single s n a k few = elim (Bool-cases (found a s.peers)) [
  | inl e ↦
      let flat = append-nil k.bin in
      let tiny = k.small in
      let (t, made, r) =
        remove-Represents s (k.bin ∷ []) a k.laid_out (omega arith) (omega arith)
          (rw flat (omega arith)) e in
      let z = po-first s k.bin a k.laid_out in
      let first : Represents t (erase a k.bin ∷ []) =
        subst (λ p. Represents t (erase_at p a (k.bin ∷ []))) z r in
      let same = peers-bin s k.bin k.laid_out in
      let there : found a k.bin ≡ true = subst (λ l. found a l ≡ true) same e in
      let fewer = length-erase a k.bin there in
      (
        t,
        made,
        record {
          bin = erase a k.bin;
          laid_out = first;
          distinct = erase-Distinct a k.bin k.distinct;
          small = omega arith;
        },
        λ x. rw (peers-bin t (erase a k.bin) first, same) (found-erase a x k.bin k.distinct),
      )
  | inr m ↦ (s, absent m, k, λ x. other x m)
]
  where
    absent : found a s.peers ≡ false → remove a s ≡ some s
    absent m = rw (remove, find-not_found a s.peers m) refl

    other :
        (x : Address)
        → found a s.peers ≡ false
        → found x s.peers ≡ (not (equal a x) && found x s.peers)
    other x m = elim (Bool-cases (equal a x)) [
      | inl f ↦ rw f (subst (λ z. found z s.peers ≡ false) (equal→≡ a x f) m)
      | inr o ↦ rw o refl
    ]
