-- ===== src/Blocklist/Tests.antt =====
-- The theorem on the blocklist at a concrete entry (pkg/p2p/libp2p/internal/blocklist/blocklist.go).
use sana.Common.{◌≡◌, refl, true, false, ◌||◌, some, arith}
use sana.Common.Int.{pos}
use sana.Common.Time.{since}
use sana.Blocklist.State.{exists, add, longest}
use sana.Blocklist.Lasting.{lasts, lasts_before, earlier, exists-add}

exists-add_example :
    let (error, after) = add 100 false false (pos 5) (earlier 10 (some (pos 60))) in
    (error ≡ false)
    × ((exists 150 false false after).0
        ≡ some (lasts (pos 5) (since 150 100) || lasts_before (some (pos 60)) (since 150 100)))
exists-add_example = exists-add 150 100 10 (pos 5) (some (pos 60)) (omega arith) (omega arith)

-- The old entry was over at 100, and its duration counts again from then on.
still_blocked :
    (exists 150 false false (add 100 false false (pos 5) (earlier 10 (some (pos 60)))).1).0
    ≡ some true
unfolding exists add longest since
still_blocked = refl
