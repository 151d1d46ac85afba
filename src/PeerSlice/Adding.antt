-- ===== src/PeerSlice/Adding.antt =====
-- What Add does to the bins (pkg/topology/pslice/pslice.go).
use sana.Common.{
  ℕ, zero, suc, ◌+◌, ◌%◌, ◌≤◌, ◌<◌, ◌≡◌, refl, ap, sym, ◌∙◌, true, false, ◌&&◌, some, List, [], ◌∷◌,
  ◌++◌, ltb, leb, length, length-append, get_elem?, take, drop, replicate, arith,
}
use mathlib.Core.List.{append_assoc}
use sana.Common.Word.{u8_mod, u64_mod}
use sana.PeerSlice.Distance.{Address}
use sana.PeerSlice.State.{
  PSlice, po, po_in, exists, inc_from, inc_deeper, insert_address, add_one, add, new_pslice,
}
use sana.PeerSlice.Bins.{
  Bins, concat, offsets, start_of, cons_at, Placed, Represents, length-offsets, length-cons_at,
  get-offsets, take-add_append, drop-add_append,
}

insert-concat :
    (p : ℕ) (addr : Address) (ls : Bins)
    → p < length ls
    → insert_address (concat ls) (start_of ls p) addr ≡ concat (cons_at p addr ls)
insert-concat p addr [] h = absurd (omega arith)
insert-concat zero addr (l ∷ ls) h = refl
insert-concat (suc p) addr (l ∷ ls) h =
    let rest = insert-concat p addr ls (omega arith) in
    rw
      (take-add_append l (concat ls) (start_of ls p), drop-add_append l (concat ls) (start_of ls p))
      (append_assoc l (take (start_of ls p) (concat ls)) (addr ∷ drop (start_of ls p) (concat ls))
        ∙ ap (λ m. l ++ m) rest)

-- All the bins from `lo` on move by one.
inc_all :
    (lo hi i n : ℕ) (ls : Bins)
    → lo ≤ i
    → i + length ls ≤ hi
    → n + length (concat ls) + 1 < u64_mod
    → inc_from lo hi i (offsets n ls) ≡ offsets (n + 1) ls
unfolding inc_from
inc_all lo hi i n [] h k m = refl
inc_all lo hi i n (l ∷ ls) h k m =
    let s = length-append l (concat ls) in
    let e : n + length l + 1 ≡ n + 1 + length l = omega arith in
    let rest = inc_all lo hi (i + 1) (n + length l) ls (omega arith) (omega arith) (omega arith) in
    let below : (leb lo i && ltb i hi) ≡ true = ground arith in
    let small : (n + 1) % u64_mod ≡ n + 1 = omega arith in rw (below, small, rest, e) refl

inc-offsets :
    (lo hi i n p : ℕ) (addr : Address) (ls : Bins)
    → lo ≡ i + p + 1
    → i + length ls ≤ hi
    → n + length (concat ls) + 1 < u64_mod
    → inc_from lo hi i (offsets n ls) ≡ offsets n (cons_at p addr ls)
unfolding inc_from
inc-offsets lo hi i n p addr [] d k m = refl
inc-offsets lo hi i n zero addr (l ∷ ls) d k m =
    let s = length-append l (concat ls) in
    let above : leb lo i ≡ false = ground arith in
    let e : n + length l + 1 ≡ n + suc (length l) = omega arith in
    rw (above, inc_all lo hi (i + 1) (n + length l) ls (omega arith) (omega arith) (omega arith), e)
      refl
inc-offsets lo hi i n (suc p) addr (l ∷ ls) d k m =
    let s = length-append l (concat ls) in
    let above : leb lo i ≡ false = ground arith in
    rw
      (
        above,
        inc-offsets lo hi (i + 1) (n + length l) p addr ls (omega arith) (omega arith)
            (omega arith),
      )
      refl

cons_at-Placed :
    (f : Address → ℕ) (k p : ℕ) (addr : Address) (ls : Bins)
    → f addr ≡ k + p
    → Placed f k ls
    → Placed f k (cons_at p addr ls)
cons_at-Placed f k p addr [] e h = tt
cons_at-Placed f k zero addr (l ∷ ls) e h = ((omega arith, h.0), h.1)
cons_at-Placed f k (suc p) addr (l ∷ ls) e h =
    (h.0, cons_at-Placed f (k + 1) p addr ls (omega arith) h.1)

-- The bin of an address is one of the bins.
pub po_below : (n : ℕ) (base addr : Address) → 0 < n → n < u8_mod → po_in n base addr < n
po_below n base addr h k = ground arith

pub po-Represents :
    (s : PSlice) (ls : Bins) (addr : Address)
    → Represents s ls
    → po s addr ≡ po_in (length ls) s.base_bytes addr
unfolding po
po-Represents s ls addr r = rw (r.bins_of, length-offsets 0 ls) refl

inc_deeper-offsets :
    (p : ℕ) (addr : Address) (ls : Bins)
    → p < length ls
    → length ls < u8_mod
    → length (concat ls) + 1 < u64_mod
    → inc_deeper (offsets 0 ls) p ≡ some (offsets 0 (cons_at p addr ls))
unfolding inc_deeper
inc_deeper-offsets p addr ls h few small =
    let e : length (offsets 0 ls) % u8_mod ≡ length ls = rw (length-offsets 0 ls) (omega arith) in
    let kept : ltb (length ls) p ≡ false = ground arith in
    rw (e, kept)
      (ap some (
        inc-offsets ((p + 1) % u8_mod) (length ls) 0 0 p addr ls (omega arith) (omega arith)
          (omega arith)))

-- Add of an address that is not there, to at most 255 bins, makes it the first peer of the bin of
-- its proximity, leaves all else in place, and keeps each peer in its bin.
pub add_one-Represents :
    (s : PSlice) (ls : Bins) (addr : Address)
    → Represents s ls
    → 0 < length ls
    → length ls < u8_mod
    → length (concat ls) + 1 < u64_mod
    → (t : PSlice) × (add_one addr s ≡ some t) × Represents t (cons_at (po s addr) addr ls)
unfolding add_one
add_one-Represents s ls addr r pos few small =
    let p = po_in (length ls) s.base_bytes addr in
    let h = po_below (length ls) s.base_bytes addr pos few in
    let new = cons_at p addr ls in
    let at : get_elem? (offsets 0 ls) p ≡ some (start_of ls p) =
      get-offsets 0 p ls h ∙ ap some (omega arith) in
    rw (po-Represents s ls addr r) (
      record s { peers = concat new; bins = offsets 0 new },
      rw
          (
            r.bins_of,
            inc_deeper-offsets p addr ls h few small,
            at,
            r.peers_of,
            insert-concat p addr ls h,
          )
          refl,
      record {
        peers_of = refl;
        bins_of = refl;
        placed =
            rw (length-cons_at p addr ls)
              (cons_at-Placed (po_in (length ls) s.base_bytes) 0 p addr ls (omega arith) r.placed);
      },
    )

concat-replicate : (n : ℕ) → concat (replicate n []) ≡ []
concat-replicate zero = refl
concat-replicate (suc n) = concat-replicate n

offsets-replicate : (n : ℕ) → replicate n 0 ≡ offsets 0 (replicate n [])
offsets-replicate zero = refl
offsets-replicate (suc n) = ap (λ l. 0 ∷ l) (offsets-replicate n)

Placed-replicate : (f : Address → ℕ) (k n : ℕ) → Placed f k (replicate n [])
Placed-replicate f k zero = tt
Placed-replicate f k (suc n) = (tt, Placed-replicate f (k + 1) n)

-- A new slice has empty bins.
pub new_pslice-Represents :
    (n : ℕ) (base : Address) → Represents (new_pslice n base) (replicate n [])
unfolding new_pslice
new_pslice-Represents n base = record {
  peers_of = sym (concat-replicate n);
  bins_of = offsets-replicate n;
  placed = Placed-replicate (po_in (length (replicate n [])) base) 0 n;
}

-- Add returns at the first address that is there already: those after it in the call are not added.
pub add_stops :
    (s t : PSlice) (new known : Address) (rest : List Address)
    → exists new s ≡ false
    → add_one new s ≡ some t
    → exists known t ≡ true
    → (add (known ∷ rest) t ≡ some t) × (add (new ∷ known ∷ rest) s ≡ some t)
unfolding add
add_stops s t new known rest n a k = (rw k refl, rw (n, a, k) refl)
