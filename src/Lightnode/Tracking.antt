-- ===== src/Lightnode/Tracking.antt =====
-- Where a light node is after a sequence of reports (pkg/topology/lightnode/container.go).
use sana.Common.{
  ℕ, suc, ◌+◌, ◌<◌, ◌≡◌, refl, sym, subst, ◌∙◌, true, false, some, List, [], ◌∷◌, length, arith,
  Bool-cases, inl, inr,
}
use sana.Common.Word.{u64_mod}
use sana.PeerSlice.Distance.{Address, equal, equal→≡}
use sana.PeerSlice.State.{new_pslice}
use sana.PeerSlice.Erasing.{found}
use sana.Lightnode.State.{
  Container, new_container, connected, disconnected, Report, joins, leaves, notify, notify_all,
}
use sana.Lightnode.Slice.{new-Single, add-Single, remove-Single, exists-found}
use sana.Lightnode.Places.{
  unknown, joined, left, Known, Place, is_joined, gone, move, place_after, Tracks,
}

gone-joined : (p : Place) → is_joined p ≡ true → gone p ≡ left
gone-joined unknown h = ground arith
gone-joined joined h = refl
gone-joined left h = refl

gone-other : (p : Place) → is_joined p ≡ false → gone p ≡ p
gone-other unknown h = refl
gone-other joined h = ground arith
gone-other left h = refl

wider : (c : Container) (n : ℕ) (place : Address → Place) → Known c n place → Known c (n + 1) place
wider c n place k =
    let a = k.joined_bin.small in
    let b = k.left_bin.small in
    record {
      joined_bin = record {
        bin = k.joined_bin.bin;
        laid_out = k.joined_bin.laid_out;
        distinct = k.joined_bin.distinct;
        small = omega arith;
      };
      left_bin = record {
        bin = k.left_bin.bin;
        laid_out = k.left_bin.laid_out;
        distinct = k.left_bin.distinct;
        small = omega arith;
      };
      tracked = k.tracked;
    }

connected-Known :
    (b : Address) (c : Container) (n : ℕ) (place : Address → Place)
    → Known c n place
    → n + 1 < u64_mod
    → (t : Container) × (connected b c ≡ some t) × Known t (n + 1) (λ a. move a (joins b) (place a))
unfolding connected
connected-Known b c n place k few =
    let (s, e, u, f) = add-Single c.connected_peers n b k.joined_bin few in
    let w = wider c n place k in
    let (r, d, v, g) = remove-Single c.disconnected_peers n b k.left_bin few in
    let x = v.small in
    (
      record { connected_peers = s; disconnected_peers = r },
      rw (e, d) refl,
      record {
        joined_bin = u;
        left_bin = record {
          bin = v.bin;
          laid_out = v.laid_out;
          distinct = v.distinct;
          small = omega arith;
        };
        tracked = λ a.
            let (p, q) = k.tracked a in
            elim (Bool-cases (equal b a)) [
              | inl y ↦ rw (f a, g a, y) (refl, refl)
              | inr z ↦ rw (f a, g a, z) (p, q)
            ];
      },
    )

disconnected-Known :
    (b : Address) (c : Container) (n : ℕ) (place : Address → Place)
    → Known c n place
    → n + 1 < u64_mod
    → (t : Container) × (disconnected b c ≡ some t)
      × Known t (n + 1) (λ a. move a (leaves b) (place a))
unfolding disconnected
disconnected-Known b c n place k few = elim (Bool-cases (found b c.connected_peers.peers)) [
  | inl here ↦
      let (s, e, u, f) = remove-Single c.connected_peers n b k.joined_bin few in
      let (r, d, v, g) = add-Single c.disconnected_peers n b k.left_bin few in
      let x = u.small in
      (
        record { connected_peers = s; disconnected_peers = r },
        rw (exists-found b c.connected_peers, here, e, d) refl,
        record {
          joined_bin = record {
            bin = u.bin;
            laid_out = u.laid_out;
            distinct = u.distinct;
            small = omega arith;
          };
          left_bin = v;
          tracked = λ a.
              let (p, q) = k.tracked a in
              elim (Bool-cases (equal b a)) [
                | inl y ↦
                    let at : found a c.connected_peers.peers ≡ true =
                      subst (λ z. found z c.connected_peers.peers ≡ true) (equal→≡ b a y) here in
                    rw (f a, g a, y, gone-joined (place a) (sym p ∙ at)) (refl, refl)
                | inr z ↦ rw (f a, g a, z) (p, q)
              ];
        },
      )
  | inr away ↦
      let w = wider c n place k in
      (
        c,
        rw (exists-found b c.connected_peers, away) refl,
        record {
          joined_bin = w.joined_bin;
          left_bin = w.left_bin;
          tracked = λ a.
              let (p, q) = k.tracked a in
              elim (Bool-cases (equal b a)) [
                | inl y ↦
                    let at : found a c.connected_peers.peers ≡ false =
                      subst (λ z. found z c.connected_peers.peers ≡ false) (equal→≡ b a y) away in
                    rw (y, gone-other (place a) (sym p ∙ at)) (p, q)
                | inr z ↦ rw z (p, q)
              ];
        },
      )
]

notify-Known :
    (e : Report) (c : Container) (n : ℕ) (place : Address → Place)
    → Known c n place
    → n + 1 < u64_mod
    → (t : Container) × (notify e c ≡ some t) × Known t (n + 1) (λ a. move a e (place a))
notify-Known (joins b) c n place k few = connected-Known b c n place k few
notify-Known (leaves b) c n place k few = disconnected-Known b c n place k few

all-Known :
    (es : List Report) (c : Container) (n : ℕ) (place : Address → Place)
    → Known c n place
    → n + length es < u64_mod
    → (t : Container) × (notify_all es c ≡ some t)
      × Known t (n + length es) (λ a. place_after a es (place a))
all-Known [] c n place k few = (c, refl, let z : n + 0 ≡ n = omega arith in rw z k)
all-Known (e ∷ es) c n place k few =
    let (t, made, l) = notify-Known e c n place k (omega arith) in
    let (u, rest, m) = all-Known es t (n + 1) (λ a. move a e (place a)) l (omega arith) in
    let z : n + suc (length es) ≡ n + 1 + length es = omega arith in
    (u, rw (made, rest) refl, rw z m)

start-Known : (base : Address) → Known (new_container base) 0 (λ _. unknown)
unfolding new_container new_pslice
start-Known base = record {
  joined_bin = new-Single base;
  left_bin = new-Single base;
  tracked = λ a. (refl, refl);
}

-- After any sequence of fewer than 2^64 reports from an empty container no call has panicked, and each
-- address is among the connected peers if it joined last, among the disconnected ones if it left after
-- it had joined, and in neither otherwise.
pub notify_all-Tracks :
    (base : Address) (es : List Report)
    → length es < u64_mod
    → (t : Container) × (notify_all es (new_container base) ≡ some t)
      × Tracks t (λ a. place_after a es unknown)
notify_all-Tracks base es few =
    let (t, made, k) =
      all-Known es (new_container base) 0 (λ _. unknown) (start-Known base) (omega arith) in
    (t, made, k.tracked)
