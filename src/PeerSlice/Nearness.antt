-- ===== src/PeerSlice/Nearness.antt =====
-- DistanceCmp and the distances as numbers (pkg/swarm/distance.go).
use native.Mathlib.Nat.{mul-le-mul_right, pow-suc, add-mul}
use sana.Common.{
  ℕ, suc, ◌+◌, ◌*◌, ◌^◌, ◌<◌, ◌≡◌, refl, ap, sym, true, none, some, [], ◌∷◌, ltb, ◌==◌, length,
  if◌then◌else◌, arith, Bool-cases, inl, inr, ◌⊎◌, subst,
}
use sana.PeerSlice.Distance.{
  Address, xor, raw, set_bytes, distance, distance_raw, Closer, first, equally, second,
  compare_bytes, distance_cmp,
}

abbrev pub nearer : ℕ → ℕ → Closer
nearer d e = if d == e then equally else if ltb d e then first else second

xor_below : (x y : ℕ) → xor x y < 256
unfolding xor
xor_below x y = omega arith

length-raw : (x y : Address) → length x ≡ length y → length (raw x y) ≡ length x
length-raw [] y h = refl
length-raw (a ∷ x) [] h = absurd (omega arith)
length-raw (a ∷ x) (b ∷ y) h = ap suc (length-raw x y (omega arith))

raw_below : (x y : Address) → length x ≡ length y → set_bytes (raw x y) < 256 ^ length x
raw_below [] y h = omega arith
raw_below (a ∷ x) [] h = absurd (omega arith)
raw_below (a ∷ x) (b ∷ y) h =
    let rest = raw_below x y (omega arith) in
    let top = xor_below a b in
    let m = mul-le-mul_right {m = xor a b + 1} {n = 256} (256 ^ length x) (omega arith) in
    rw (length-raw x y (omega arith), pow-suc 256 (length x))
      (let e = add-mul (xor a b) 1 (256 ^ length x) in omega arith)

apart : (p q v w n : ℕ) → v < n → p < q → p * n + v < q * n + w
apart p q v w n h k =
    let e = add-mul p 1 n in
    let m = mul-le-mul_right {m = p + 1} {n = q} n (omega arith) in omega arith

-- The leading byte decides, and where it is the same the rest does.
nearer_lem :
    (p q v w n : ℕ)
    → v < n
    → w < n
    → nearer (p * n + v) (q * n + w)
      ≡ (if p == q then nearer v w else if ltb p q then first else second)
nearer_lem p q v w n h k = elim (Bool-cases (p == q)) [
  | inl e ↦ let at : p ≡ q = ground arith in rw (e, at) (ground arith)
  | inr d ↦ elim (Bool-cases (ltb p q)) [
    | inl l ↦ let far = apart p q v w n h (ground arith) in rw (d, l) (ground arith)
    | inr g ↦ let far = apart q p w v n k (ground arith) in rw (d, g) (ground arith)
  ]
]

compare-nearer :
    (a x y : Address)
    → length a ≡ length x
    → length a ≡ length y
    → compare_bytes a x y ≡ nearer (set_bytes (raw x a)) (set_bytes (raw y a))
compare-nearer [] [] [] h k = refl
compare-nearer [] [] (c ∷ y) h k = absurd (omega arith)
compare-nearer [] (b ∷ x) y h k = absurd (omega arith)
compare-nearer (a ∷ bs) [] y h k = absurd (omega arith)
compare-nearer (a ∷ bs) (b ∷ x) [] h k = absurd (omega arith)
compare-nearer (a ∷ bs) (b ∷ x) (c ∷ y) h k =
    let rest = compare-nearer bs x y (omega arith) (omega arith) in
    let lx : length x ≡ length bs = omega arith in
    let ly : length y ≡ length bs = omega arith in
    let bx : set_bytes (raw x bs) < 256 ^ length bs =
      subst (λ n. set_bytes (raw x bs) < 256 ^ n) lx (raw_below x bs lx) in
    let by : set_bytes (raw y bs) < 256 ^ length bs =
      subst (λ n. set_bytes (raw y bs) < 256 ^ n) ly (raw_below y bs ly) in
    let l =
      nearer_lem (xor b a) (xor c a) (set_bytes (raw x bs)) (set_bytes (raw y bs)) (256 ^ length bs)
        bx by in
    rw (rest, length-raw x bs lx, length-raw y bs ly, lx, ly) (sym l)

-- For addresses of one length, DistanceCmp says which of two has the smaller distance to the first,
-- as numbers; for addresses of different lengths it fails, as Distance does for one of the two.
pub distance_cmp-distance :
    (a x y : Address)
    → (length a ≡ length x
        → length a ≡ length y
        → (dx : ℕ) × (dy : ℕ) × (distance x a ≡ some dx)
          × (distance y a ≡ some dy)
          × (distance_cmp a x y ≡ some (nearer dx dy)))
      × (distance_cmp a x y ≡ none → (distance x a ≡ none) ⊎ (distance y a ≡ none))
unfolding distance distance_raw distance_cmp
distance_cmp-distance a x y = (
  (λ h k.
      let ax : (length a == length x) ≡ true = ground arith in
      let ay : (length a == length y) ≡ true = ground arith in
      let xa : (length x == length a) ≡ true = ground arith in
      let ya : (length y == length a) ≡ true = ground arith in
      (
        set_bytes (raw x a),
        set_bytes (raw y a),
        rw xa refl,
        rw ya refl,
        rw (ax, ay) (ap some (compare-nearer a x y h k)),
      )),
  λ e. ground arith,
)
