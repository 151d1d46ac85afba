-- ===== src/PeerSlice/Removing.antt =====
-- What Remove does to the bins (pkg/topology/pslice/pslice.go).
use sana.Common.{
  ℕ, zero, suc, ◌+◌, ◌-◌, ◌%◌, ◌≤◌, ◌<◌, ◌≡◌, refl, ap, sym, ◌∙◌, subst, true, false, ◌&&◌, some,
  List, [], ◌∷◌, ◌++◌, ltb, leb, length, length-append, get_or, take, drop, arith, Bool-cases, inl,
  inr,
}
use sana.Common.Word.{u8_mod, u64_mod}
use sana.PeerSlice.Distance.{Address, equal}
use sana.PeerSlice.State.{PSlice, po, po_in, find, dec_from, dec_deeper, remove}
use sana.PeerSlice.Bins.{
  Bins, concat, offsets, erase, erase_at, Placed, Represents, length-offsets, length-erase_at,
}
use sana.PeerSlice.Adding.{po_below, po-Represents}
use sana.PeerSlice.Erasing.{
  found, without, without-find, AllAt-found, Placed-found, erase-append_found,
  erase-append_not_found, found-append, length-erase, erase_at-Placed,
}

-- An address that is found is in the bin of its proximity.
located :
    (f : Address → ℕ) (k p : ℕ) (addr : Address) (ls : Bins)
    → Placed f k ls
    → f addr ≡ k + p
    → found addr (concat ls) ≡ true
    → found addr (get_or ls p []) ≡ true
located f k p addr [] h e t = t
located f k zero addr (l ∷ ls) h e t = elim (Bool-cases (found addr l)) [
  | inl at ↦ at
  | inr n ↦
      let g =
        Placed-found f (k + 1) addr ls h.1
          (ground (arith, n, t, found-append addr l (concat ls))) in
      absurd (omega arith)
]
located f k (suc p) addr (l ∷ ls) h e t = elim (Bool-cases (found addr l)) [
  | inl at ↦ let g = AllAt-found f k addr l h.0 at in absurd (omega arith)
  | inr n ↦
      located f (k + 1) p addr ls h.1 (omega arith)
        (ground (arith, n, t, found-append addr l (concat ls)))
]

erase-concat :
    (f : Address → ℕ) (k p : ℕ) (addr : Address) (ls : Bins)
    → Placed f k ls
    → f addr ≡ k + p
    → found addr (get_or ls p []) ≡ true
    → erase addr (concat ls) ≡ concat (erase_at p addr ls)
erase-concat f k p addr [] h e t = refl
erase-concat f k zero addr (l ∷ ls) h e t = erase-append_found addr l (concat ls) t
erase-concat f k (suc p) addr (l ∷ ls) h e t = elim (Bool-cases (found addr l)) [
  | inl at ↦ let g = AllAt-found f k addr l h.0 at in absurd (omega arith)
  | inr n ↦
      erase-append_not_found addr l (concat ls) n
      ∙ ap (λ m. l ++ m) (erase-concat f (k + 1) p addr ls h.1 (omega arith) t)
]

dec_all :
    (lo hi i n : ℕ) (ls : Bins)
    → lo ≤ i
    → i + length ls ≤ hi
    → n + length (concat ls) + 1 < u64_mod
    → dec_from lo hi i (offsets (n + 1) ls) ≡ offsets n ls
unfolding dec_from
dec_all lo hi i n [] h k m = refl
dec_all lo hi i n (l ∷ ls) h k m =
    let s = length-append l (concat ls) in
    let e : n + 1 + length l ≡ n + length l + 1 = omega arith in
    let rest = dec_all lo hi (i + 1) (n + length l) ls (omega arith) (omega arith) (omega arith) in
    let below : (leb lo i && ltb i hi) ≡ true = ground arith in
    let one : (n + 1 + (u64_mod - 1)) % u64_mod ≡ n = omega arith in rw (below, one, e, rest) refl

dec-offsets :
    (lo hi i n p : ℕ) (addr : Address) (ls : Bins)
    → lo ≡ i + p + 1
    → i + length ls ≤ hi
    → n + length (concat ls) < u64_mod
    → found addr (get_or ls p []) ≡ true
    → dec_from lo hi i (offsets n ls) ≡ offsets n (erase_at p addr ls)
unfolding dec_from
dec-offsets lo hi i n p addr [] d k m t = refl
dec-offsets lo hi i n zero addr (l ∷ ls) d k m t =
    let s = length-append l (concat ls) in
    let above : leb lo i ≡ false = ground arith in
    let fewer = length-erase addr l t in
    let e : n + length l ≡ n + length (erase addr l) + 1 = omega arith in
    rw
      (
        above,
        e,
        dec_all lo hi (i + 1) (n + length (erase addr l)) ls (omega arith) (omega arith)
            (omega arith),
      )
      refl
dec-offsets lo hi i n (suc p) addr (l ∷ ls) d k m t =
    let s = length-append l (concat ls) in
    let above : leb lo i ≡ false = ground arith in
    rw
      (
        above,
        dec-offsets lo hi (i + 1) (n + length l) p addr ls (omega arith) (omega arith) (omega arith)
            t,
      )
      refl

dec_deeper-offsets :
    (p : ℕ) (addr : Address) (ls : Bins)
    → p < length ls
    → length ls < u8_mod
    → length (concat ls) < u64_mod
    → found addr (get_or ls p []) ≡ true
    → dec_deeper (offsets 0 ls) p ≡ some (offsets 0 (erase_at p addr ls))
unfolding dec_deeper
dec_deeper-offsets p addr ls h few small t =
    let e : length (offsets 0 ls) % u8_mod ≡ length ls = rw (length-offsets 0 ls) (omega arith) in
    let kept : ltb (length ls) p ≡ false = ground arith in
    rw (e, kept)
      (ap some (
        dec-offsets ((p + 1) % u8_mod) (length ls) 0 0 p addr ls (omega arith) (omega arith)
          (omega arith) t))

pub find-found :
    (addr : Address) (xs : List Address) → found addr xs ≡ true → (i : ℕ) × (find addr xs ≡ some i)
unfolding find
find-found addr [] h = ground arith
find-found addr (a ∷ rest) h = elim (Bool-cases (equal a addr)) [
  | inl e ↦ rw e (0, refl)
  | inr n ↦ let (i, e) = find-found addr rest (ground (arith, n, h)) in rw (n, e) (suc i, refl)
]

-- Remove of an address that is there, from at most 255 bins, takes it out of the bin of its
-- proximity, leaves all else in place, and keeps each peer in its bin.
pub remove-Represents :
    (s : PSlice) (ls : Bins) (addr : Address)
    → Represents s ls
    → 0 < length ls
    → length ls < u8_mod
    → length (concat ls) < u64_mod
    → found addr s.peers ≡ true
    → (t : PSlice) × (remove addr s ≡ some t) × Represents t (erase_at (po s addr) addr ls)
unfolding remove
remove-Represents s ls addr r pos few small at =
    let p = po_in (length ls) s.base_bytes addr in
    let h = po_below (length ls) s.base_bytes addr pos few in
    let new = erase_at p addr ls in
    let there : found addr (concat ls) ≡ true = subst (λ l. found addr l ≡ true) r.peers_of at in
    let inside =
      located (po_in (length ls) s.base_bytes) 0 p addr ls r.placed (omega arith) there in
    let (i, e) = find-found addr s.peers at in
    let gone : take i s.peers ++ drop (i + 1) s.peers ≡ concat new =
      ap (without s.peers) (sym e)
      ∙ without-find addr s.peers
      ∙ ap (erase addr) r.peers_of
      ∙ erase-concat (po_in (length ls) s.base_bytes) 0 p addr ls r.placed (omega arith) inside in
    let fewer : dec_deeper s.bins p ≡ some (offsets 0 new) =
      ap (λ b. dec_deeper b p) r.bins_of ∙ dec_deeper-offsets p addr ls h few small inside in
    rw (remove, e, po-Represents s ls addr r, fewer, gone)
      (
        record s { peers = concat new; bins = offsets 0 new },
        refl,
        record {
          peers_of = refl;
          bins_of = refl;
          placed =
              rw (length-erase_at p addr ls)
                (erase_at-Placed (po_in (length ls) s.base_bytes) 0 p addr ls r.placed);
        },
      )
