-- ===== src/PeerSlice/State.antt =====
-- `PSlice` and its methods (pkg/topology/pslice/pslice.go). A panic is `none`. The peers are in one
-- list, and `bins` has for each bin the index of its first peer.
use sana.Common.{
  ℕ, zero, suc, ◌+◌, ◌-◌, ◌%◌, Bool, true, false, ◌&&◌, Option, none, some, List, [], ◌∷◌, ◌++◌,
  ltb, leb, ◌==◌, if◌then◌else◌, length, get_elem?, get_or, take, drop, replicate,
}
use mathlib.Core.Option
use sana.Common.Word.{u8_mod, u64_mod}
use sana.PeerSlice.Distance.{Address, equal, proximity}

pub record PSlice : Type 0 where
  pub peers : List Address
  pub bins : List ℕ
  pub base_bytes : Address

unfoldable pub new_pslice : ℕ → Address → PSlice
new_pslice max_bins base = record { peers = []; bins = replicate max_bins 0; base_bytes = base }

-- The loop of exists, for the index of the address.
unfoldable pub find : Address → List Address → Option ℕ
find addr [] = none
find addr (a ∷ rest) = if equal a addr then some 0 else Option.map suc (find addr rest)

abbrev pub exists : Address → PSlice → Bool
exists addr s = elim (find addr s.peers) [ none ↦ false | some _ ↦ true ]

abbrev pub po_in : ℕ → Address → Address → ℕ
po_in bins base peer =
    let po = proximity base peer in
    if leb bins po then (bins % u8_mod + (u8_mod - 1)) % u8_mod else po

unfoldable pub po : PSlice → Address → ℕ
po s peer = po_in (length s.bins) s.base_bytes peer

-- The loops of incDeeper and decDeeper over the bins, of which `i` is the first: those from `lo` to
-- below `hi` change.
unfoldable pub inc_from : ℕ → ℕ → ℕ → List ℕ → List ℕ
inc_from lo hi i [] = []
inc_from lo hi i (b ∷ bs) =
    (if leb lo i && ltb i hi then (b + 1) % u64_mod else b) ∷ inc_from lo hi (i + 1) bs

unfoldable pub dec_from : ℕ → ℕ → ℕ → List ℕ → List ℕ
dec_from lo hi i [] = []
dec_from lo hi i (b ∷ bs) =
    (if leb lo i && ltb i hi then (b + (u64_mod - 1)) % u64_mod else b) ∷ dec_from lo hi (i + 1) bs

unfoldable pub inc_deeper : List ℕ → ℕ → Option (List ℕ)
inc_deeper bins po =
    let n = length bins % u8_mod in
    if ltb n po then none else some (inc_from ((po + 1) % u8_mod) n 0 bins)

unfoldable pub dec_deeper : List ℕ → ℕ → Option (List ℕ)
dec_deeper bins po =
    let n = length bins % u8_mod in
    if ltb n po then none else some (dec_from ((po + 1) % u8_mod) n 0 bins)

abbrev pub insert_address : List Address → ℕ → Address → List Address
insert_address peers pos addr = take pos peers ++ addr ∷ drop pos peers

infixl 5 ◌>>=◌
abbrev ◌>>=◌ : Option PSlice → (PSlice → Option PSlice) → Option PSlice
none >>= k = none
some s >>= k = k s

abbrev insert_at : Address → PSlice → Option (List ℕ) → Option ℕ → Option PSlice
insert_at addr s (some bins) (some pos) =
    some (record s { peers = insert_address s.peers pos addr; bins = bins })
insert_at addr s none _ = none
insert_at addr s (some _) none = none

-- One round of the loop of Add, for an address that is not there.
unfoldable pub add_one : Address → PSlice → Option PSlice
add_one addr s = let p = po s addr in insert_at addr s (inc_deeper s.bins p) (get_elem? s.bins p)

-- Add returns at the first address that is there.
unfoldable pub add : List Address → PSlice → Option PSlice
add [] s = some s
add (addr ∷ rest) s = if exists addr s then some s else do t ← add_one addr s; add rest t

abbrev remove_at : ℕ → PSlice → Option (List ℕ) → Option PSlice
remove_at i s none = none
remove_at i s (some bins) =
    some (record s { peers = take i s.peers ++ drop (i + 1) s.peers; bins = bins })

unfoldable pub remove : Address → PSlice → Option PSlice
remove addr s = elim (find addr s.peers) [
  | none ↦ some s
  | some i ↦ remove_at i s (dec_deeper s.bins (po s addr))
]

-- peers[lo:hi], for lo ≤ hi
abbrev pub slice : ℕ → ℕ → List Address → List Address
slice lo hi xs = take (hi - lo) (drop lo xs)

unfoldable pub bin_peers : ℕ → PSlice → List Address
bin_peers bin s =
    let end = if bin == length s.bins - 1 then length s.peers else get_or s.bins (bin + 1) 0 in
    if leb (length s.bins) bin then [] else slice (get_or s.bins bin 0) end s.peers

abbrev pub size : PSlice → ℕ
size s = length s.peers

-- The loop of ShallowestEmpty from bin `i` on, with the rounds that are left; `none` for its second
-- result.
unfoldable pub empty_from : ℕ → ℕ → List ℕ → ℕ → Option ℕ
empty_from zero i bins total = none
empty_from (suc n) i [] total = none
empty_from (suc n) i (b ∷ []) total = if total == b then some i else none
empty_from (suc n) i (b ∷ c ∷ bs) total =
    let rest = empty_from n (i + 1) (c ∷ bs) total in if c == b then some i else rest

unfoldable pub shallowest_empty : PSlice → Option ℕ
shallowest_empty s = empty_from (length s.bins % u8_mod) 0 s.bins (length s.peers)

-- What the function that EachBin calls answers.
pub data Answer : Type 0 where
  go_on : Answer
  stop : Answer
  next : Answer
  fail : Answer

module _ {S : Type 0} (pf : Address → ℕ → S → Answer × S) where
  -- The loop over the peers of one bin; the Boolean tells whether the next bin follows.
  abbrev pub visit : ℕ → List Address → S → Bool × Answer × S
  visit i [] s = (true, go_on, s)
  visit i (a ∷ rest) s =
      let (answer, t) = pf a i s in
      elim answer [
        | go_on ↦ visit i rest t
        | next ↦ (true, go_on, t)
        | stop ↦ (false, stop, t)
        | fail ↦ (false, fail, t)
      ]

  abbrev pub and_then : Bool × Answer × S → (S → Answer × S) → Answer × S
  and_then (true, _, s) k = k s
  and_then (false, a, s) k = (a, s)

  -- The loop of EachBin over the bins `i - 1` to 0.
  abbrev pub each_from : ℕ → List Address → List ℕ → ℕ → S → Answer × S
  each_from zero peers bins end s = (go_on, s)
  each_from (suc i) peers bins end s =
      and_then (visit (i % u8_mod) (slice (get_or bins i 0) end peers) s)
        (each_from i peers bins (get_or bins i 0))

  -- EachBin; an answer `fail` is the error of the function.
  abbrev pub each_bin : PSlice → S → Answer × S
  each_bin p s =
      if length p.peers == 0
      then (go_on, s)
      else each_from (length p.bins) p.peers p.bins (length p.peers) s

  -- The loop of EachBinRev over the bins from `i` on, with the rounds that are left.
  abbrev pub each_up : ℕ → ℕ → List Address → List ℕ → S → Answer × S
  each_up zero i peers bins s = (go_on, s)
  each_up (suc n) i peers bins s =
      let end = if i == length bins - 1 then length peers else get_or bins (i + 1) 0 in
      and_then (visit (i % u8_mod) (slice (get_or bins i 0) end peers) s)
        (each_up n (suc i) peers bins)

  -- EachBinRev
  abbrev pub each_bin_rev : PSlice → S → Answer × S
  each_bin_rev p s =
      if length p.peers == 0 then (go_on, s) else each_up (length p.bins) 0 p.peers p.bins s
