-- ===== src/Batchstore/Putting.antt =====
-- change on a reserve with limits above 0 (pkg/postage/batchstore/reserve.go).
use sana.Common.{
  ℕ, suc, ◌+◌, ◌-◌, ◌*◌, ◌^◌, ◌≤◌, ◌<◌, ◌≡◌, refl, ap, ◌∙◌, false, ◌&&◌, ltb, ◌==◌, if◌then◌else◌,
  inl, inr, Bool-cases, arith,
}
use sana.Common.Int.{one_part, ℤ, pos, pos_part, neg_part, ◌+ℤ◌, ◌-ℤ◌, +ℤ_parts, -ℤ_parts}
use sana.Common.Word.{u8_mod, wrap64, pow2_suc, pow2_mono}
use sana.Reserve.State.{ReserveState, unreserved, inner, outer, tier_of, set_limits, size, change}
use sana.Reserve.Sizes.{size_lem}
use sana.Reserve.Tiers.{IsOrdered, change-tier_of}
use sana.Batchstore.Outer.{half, room, wrap64_lem}

-- The limits after a batch of this value has come.
abbrev pub next_inner : ℕ → ℕ → ℕ
next_inner i v = if ltb v i then v else i

abbrev pub next_outer : ℕ → ℕ → ℕ → ℕ
next_outer i o v = if ltb v i && o == i then v else o

-- What a batch of any value takes up.
abbrev pub place : ℕ → ℕ → ℕ → ℕ → ℕ → ℕ
place i r o v d = if ltb v i then 0 else room r o v d

outer_size : (r d : ℕ) → r < d → 2 ^ (d - r) ≡ 2 * half r d
outer_size r d h =
    let e : d - r ≡ suc (d - r - 1) = omega arith in ap (λ k. 2 ^ k) e ∙ pow2_suc (d - r - 1)

tier_of_limits :
    (rs : ReserveState) (i o v : ℕ)
    → rs.inner_limit ≡ pos i
    → rs.outer_limit ≡ pos o
    → 0 < i
    → tier_of rs (pos v) ≡ (if ltb v i then unreserved else if ltb v o then inner else outer)
unfolding tier_of
tier_of_limits rs i o v e f p = ground arith

-- The conditions on a depth at the radius of the reserve.
abbrev pub Suits : ReserveState → ℕ → Type 0
Suits rs d = (rs.radius < d) × (d ≤ rs.radius + 62) × (d < u8_mod) × (rs.radius < 192)

size-unreserved : (rs : ReserveState) (d : ℕ) → size rs d unreserved ≡ pos 0
unfolding size
size-unreserved rs d = refl

size-place :
    (rs : ReserveState) (i o v d : ℕ)
    → rs.inner_limit ≡ pos i
    → rs.outer_limit ≡ pos o
    → 0 < i
    → Suits rs d
    → size rs d (tier_of rs (pos v)) ≡ pos (place i rs.radius o v d)
size-place rs i o v d e f p (h, k, l, r) =
    let (small, large) = (size_lem rs d r l).0 h k in
    let two = outer_size rs.radius d h in
    let t = tier_of_limits rs i o v e f p in
    elim (Bool-cases (ltb v i)) [
      | inl y ↦ rw (t, y) (size-unreserved rs d)
      | inr n ↦ elim (Bool-cases (ltb v o)) [
        | inl y ↦ rw (t, n, y) small
        | inr m ↦ rw (t, n, m) (large ∙ ap pos two)
      ]
    ]

limits-IsOrdered :
    (rs : ReserveState) (i o : ℕ)
    → rs.inner_limit ≡ pos i
    → rs.outer_limit ≡ pos o
    → 0 < i
    → i ≤ o
    → IsOrdered rs
limits-IsOrdered rs i o e f p h = record {
  not_negative = ground arith;
  ordered = ground arith;
  both_zero = λ z. ground arith;
}

-- The limits after change.
change-limits :
    (rs : ReserveState) (i o ov v od d : ℕ)
    → rs.inner_limit ≡ pos i
    → rs.outer_limit ≡ pos o
    → 0 < i
    → let limits = (change rs (pos ov) (pos v) od d).1 in
      (limits.inner_limit ≡ pos (next_inner i v))
      × (limits.outer_limit ≡ pos (next_outer i o v))
      × (limits.radius ≡ rs.radius)
      × (limits.available ≡ rs.available)
unfolding change set_limits tier_of
change-limits rs i o ov v od d e f p = (ground arith, ground arith, ground arith, ground arith)

-- What change gives, when there is an inner limit: the room of the batch before, less its room after.
pub change-place :
    (rs : ReserveState) (i o ov v od d : ℕ)
    → rs.inner_limit ≡ pos i
    → rs.outer_limit ≡ pos o
    → 0 < i
    → i ≤ o
    → 0 < v
    → Suits rs od
    → Suits rs d
    → let ((more, radius), limits) = change rs (pos ov) (pos v) od d in
      (more
        ≡ wrap64 (pos (place i rs.radius o ov od) -ℤ pos (room rs.radius (next_outer i o v) v d)))
      × (limits.inner_limit ≡ pos (next_inner i v))
      × (limits.outer_limit ≡ pos (next_outer i o v))
      × (limits.radius ≡ rs.radius)
      × (limits.available ≡ rs.available)
change-place rs i o ov v od d e f p h pv so sd =
    let limits = (change rs (pos ov) (pos v) od d).1 in
    let (ei, eo, er, ea) = change-limits rs i o ov v od d e f p in
    let c =
      change-tier_of rs (pos ov) (pos v) od d (limits-IsOrdered rs i o e f p h) (omega arith) in
    let suits : Suits limits d = rw er sd in
    let old = size-place rs i o ov od e f p so in
    let new =
      size-place limits (next_inner i v) (next_outer i o v) v d ei eo (ground arith) suits in
    let inside : ltb v (next_inner i v) ≡ false = ground arith in
    (c.3 ∙ rw (old, new, inside, er) refl, ei, eo, er, ea)

-- The capacity after a change, on int64.
pub changed_capacity :
    (z : ℤ) (a b : ℕ)
    → neg_part z ≤ pos_part z
    → pos_part z ≤ 2 ^ 61
    → a ≤ 2 ^ 62
    → b ≤ 2 ^ 62
    → let y = wrap64 (z +ℤ wrap64 (pos a -ℤ pos b)) in
      (neg_part y ≤ 2 ^ 62) × (pos_part y + neg_part z + b ≡ neg_part y + pos_part z + a)
changed_capacity z a b h k l m =
    let d = pos a -ℤ pos b in
    let p = -ℤ_parts (pos a) (pos b) in
    let s = z +ℤ d in
    let q = +ℤ_parts z d in
    let same : wrap64 d ≡ d = elim (one_part d) [
      | inl e ↦ wrap64_lem d (omega arith) (omega arith)
      | inr e ↦ wrap64_lem d (omega arith) (omega arith)
    ] in
    let small : (pos_part s < 2 ^ 63) × (neg_part s ≤ 2 ^ 62) = elim (one_part z) [
      | inl e ↦ elim (one_part s) [ inl u ↦ omega arith | inr u ↦ omega arith ]
      | inr e ↦ elim (one_part s) [ inl u ↦ omega arith | inr u ↦ omega arith ]
    ] in
    rw (same, wrap64_lem s small.0 (let w = small.1 in omega arith)) (small.1, omega arith)

-- A batch that suits the radius takes up at most 2^62.
pub room-le : (rs : ReserveState) (o v d : ℕ) → Suits rs d → room rs.radius o v d ≤ 2 ^ 62
room-le rs o v d s =
    let small = pow2_mono (d - rs.radius - 1) 61 (omega arith) in
    elim (Bool-cases (ltb v o)) [ inl y ↦ rw y (omega arith) | inr n ↦ rw n (omega arith) ]

pub place-le : (rs : ReserveState) (i o v d : ℕ) → Suits rs d → place i rs.radius o v d ≤ 2 ^ 62
place-le rs i o v d s = elim (Bool-cases (ltb v i)) [
  | inl y ↦ rw y (omega arith)
  | inr n ↦ rw n (room-le rs o v d s)
]
