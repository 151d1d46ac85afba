-- ===== src/Kademlia/Filled.antt =====
-- The first unsaturated bin of the search over the peers, and the bins before it
-- (pkg/topology/kademlia/kademlia.go).
use sana.Common.{
  ℕ, zero, suc, ◌+◌, ◌%◌, ◌≤◌, ◌<◌, ◌≡◌, refl, sym, ap, subst, ◌∙◌, true, false, ◌&&◌, List, [],
  ◌∷◌, length, get_or, ltb, ◌==◌, ◌⊎◌, inl, inr, arith, Bool-cases, ltb→lt, not_ltb→le,
}
use sana.Common.Word.{u8_mod}
use sana.PeerSlice.Distance.{Address}
use sana.PeerSlice.State.{Answer, go_on, stop, visit, and_then}
use sana.PeerSlice.Bins.{Bins}
use sana.PeerSlice.Ascending.{visit_up}
use sana.Kademlia.State.{count_bin}
use sana.PeerSlice.Steps.{visit_go, visit_end}

-- The bins before this one are empty or have four peers.
abbrev pub Filled : Bins → ℕ → Type 0
Filled ls n = (b : ℕ) → b < n → (get_or ls b [] ≡ []) ⊎ (4 ≤ length (get_or ls b []))

-- What the first loop knows before bin `i`.
abbrev pub Knows : Bins → ℕ → ℕ × ℕ → Type 0
Knows ls i (shallowest, count) =
    Filled ls shallowest
    × ((b : ℕ) → shallowest < b → b < i → get_or ls b [] ≡ [])
    × (shallowest < i → count ≡ length (get_or ls shallowest []))
    × (shallowest ≤ i)
    × (i ≤ shallowest → count ≡ 0)

-- The peers of the bin that is counted.
visit_same :
    (i n : ℕ) (l : List Address) → visit count_bin i l (i, n) ≡ (true, go_on, (i, n + length l))
visit_same i n [] = let e : n + 0 ≡ n = omega arith in rw e refl
visit_same i n (a ∷ l) =
    let e : i == i ≡ true = ground arith in
    let f : n + 1 + length l ≡ n + suc (length l) = omega arith in
    let here : count_bin a i (i, n) ≡ (go_on, (i, n + 1)) = rw e refl in
    visit_go count_bin i a l (i, n) (i, n + 1) here
    ∙ visit_same i (n + 1) l
    ∙ ap (λ k. (true, go_on, (i, k))) f

-- The first peer of a deeper bin, when the one before has too few.
visit_stop :
    (i s n : ℕ) (a : Address) (l : List Address)
    → s < i
    → n < 4
    → visit count_bin i (a ∷ l) (s, n) ≡ (false, stop, (s, n))
visit_stop i s n a l h k =
    let e : i == s ≡ false = ground arith in
    let f : (ltb s i && ltb n 4) ≡ true = ground arith in
    let here : count_bin a i (s, n) ≡ (stop, (s, n)) = rw (e, f) refl in
    visit_end count_bin i a l (s, n) (s, n) here

visit_next :
    (i s n : ℕ) (a : Address) (l : List Address)
    → s < i
    → 4 ≤ n
    → visit count_bin i (a ∷ l) (s, n) ≡ (true, go_on, (i, 1 + length l))
visit_next i s n a l h k =
    let e : i == s ≡ false = ground arith in
    let f : (ltb s i && ltb n 4) ≡ false = ground arith in
    let here : count_bin a i (s, n) ≡ (go_on, (i, 1)) = rw (e, f) refl in
    visit_go count_bin i a l (s, n) (i, 1) here ∙ visit_same i 1 l

-- The loop ends with the bins before its result filled.
abbrev pub Ends : Bins → Answer × (ℕ × ℕ) → Type 0
Ends ls (answer, (shallowest, count)) = Filled ls shallowest × (shallowest ≤ length ls)

-- An empty bin.
Knows-empty :
    (ls : Bins) (i s c : ℕ) → get_or ls i [] ≡ [] → Knows ls i (s, c) → Knows ls (suc i) (s, c)
Knows-empty ls i s c e k = (k.0, gap, counted, omega arith, λ h. absurd (omega arith))
  where
    gap : (b : ℕ) → s < b → b < suc i → get_or ls b [] ≡ []
    gap b h g = elim (Bool-cases (ltb b i)) [
      | inl x ↦ k.1 b h (ltb→lt b i x)
      | inr x ↦ let y : i ≡ b = ground arith in subst (λ z. get_or ls z [] ≡ []) y e
    ]

    counted : s < suc i → c ≡ length (get_or ls s [])
    counted h = elim (Bool-cases (ltb s i)) [
      | inl x ↦ k.2 (ltb→lt s i x)
      | inr x ↦
          let l = k.3 in
          let m = not_ltb→le s i x in
          let y : i ≡ s = omega arith in
          k.4 m ∙ sym (ap length (subst (λ z. get_or ls z [] ≡ []) y e))
    ]

-- The bin that is counted from its first peer on.
Knows-Filled :
    (ls : Bins) (i c : ℕ) → Filled ls i → c ≡ length (get_or ls i []) → Knows ls (suc i) (i, c)
Knows-Filled ls i c f e =
    (f, λ b h g. absurd (omega arith), λ _. e, omega arith, λ h. absurd (omega arith))

Filled-next : (ls : Bins) (i s c : ℕ) → s < i → 4 ≤ c → Knows ls i (s, c) → Filled ls i
Filled-next ls i s c h g k b l = elim (Bool-cases (ltb b s)) [
  | inl x ↦ k.0 b (ltb→lt b s x)
  | inr x ↦ elim (Bool-cases (ltb s b)) [
    | inl y ↦ inl (k.1 b (ltb→lt s b y) l)
    | inr y ↦
        let z : s ≡ b = ground arith in
        let n = k.2 h in inr (subst (λ z. 4 ≤ length (get_or ls z [])) z (omega arith))
  ]
]

by_bin :
    (ls : Bins) (n i s c : ℕ) (l : List Address)
    → i ≤ length ls
    → get_or ls i [] ≡ l
    → Knows ls i (s, c)
    → ((t d : ℕ) → Knows ls (suc i) (t, d) → Ends ls (visit_up count_bin ls n (suc i) (t, d)))
    → Ends ls (and_then count_bin (visit count_bin i l (s, c)) (visit_up count_bin ls n (suc i)))
by_bin ls n i s c [] v e k h = h s c (Knows-empty ls i s c e k)
by_bin ls n i s c (a ∷ l) v e k h = elim (Bool-cases (ltb s i)) [
  | inl x ↦
      let below = ltb→lt s i x in
      elim (Bool-cases (ltb c 4)) [
        | inl y ↦
            subst (λ z. Ends ls (and_then count_bin z (visit_up count_bin ls n (suc i))))
              (sym (visit_stop i s c a l below (ltb→lt c 4 y))) (k.0, omega arith)
        | inr y ↦
            let enough = not_ltb→le c 4 y in
            subst (λ z. Ends ls (and_then count_bin z (visit_up count_bin ls n (suc i))))
              (sym (visit_next i s c a l below enough))
              (h i (1 + length l) (
                Knows-Filled ls i (1 + length l) (Filled-next ls i s c below enough k)
                  (let z : 1 + length l ≡ suc (length l) = omega arith in z ∙ sym (ap length e))))
      ]
  | inr x ↦
      let m = not_ltb→le s i x in
      let b = k.3 in
      let y : s ≡ i = omega arith in
      let z : c ≡ 0 = k.4 m in
      subst
        (λ t.
          Ends ls
            (and_then count_bin (visit count_bin i (a ∷ l) t) (visit_up count_bin ls n (suc i))))
        (sym (ap (λ p. (p, c)) y ∙ ap (λ p. (i, p)) z))
        (subst (λ t. Ends ls (and_then count_bin t (visit_up count_bin ls n (suc i))))
          (sym (visit_same i 0 (a ∷ l)))
          (h i (0 + length (a ∷ l)) (
            Knows-Filled ls i (0 + length (a ∷ l)) (subst (Filled ls) y k.0) (
              let w : 0 + suc (length l) ≡ suc (length l) = omega arith in w ∙ sym (ap length e)))))
]

pub loop-Ends :
    (ls : Bins) (n i s c : ℕ)
    → n + i ≤ 256
    → n + i ≡ length ls
    → Knows ls i (s, c)
    → Ends ls (visit_up count_bin ls n i (s, c))
loop-Ends ls zero i s c u v k = (k.0, let l = k.3 in omega arith)
loop-Ends ls (suc n) i s c u v k =
    let e : i % u8_mod ≡ i = omega arith in
    rw e (
      by_bin ls n i s c (get_or ls i []) (omega arith) refl k
        (λ t d m. loop-Ends ls n (suc i) t d (omega arith) (omega arith) m))
