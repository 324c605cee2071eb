-- ===== src/Firmware/Slots/Sound/Links.antt =====
-- firmware/slots.rs. The writes that point a link at a version, as `activate` and `rollback` use them.

use minimalrouter.Firmware.Disk.{Disk, missing, points, reading, wrap}
use minimalrouter.Firmware.Disk.Triple.{Triple, bind_rule, read_rule, wrap_rule, write_rule}
use minimalrouter.Firmware.Slots.{LinkName, remove_link, set_link, swap_link}
use minimalrouter.Firmware.Slots.Sound.{link_of}
use minimalrouter.Firmware.State.{require_slot}
use minimalrouter.Prelude.{Bytes, String, [], arith, false, if◌then◌else◌, is_empty, refl, ◌∷◌, ◌≡◌}

swap_rule :
    (name : LinkName) (v : Bytes) (P C Q : Disk → Type 0)
    → is_empty v ≡ false
    → ((d : Disk) → P d → C d)
    → ((d : Disk) → P d → C (set_link name (link_of v) d))
    → ((d : Disk) → P d → Q (set_link name (link_of v) d))
    → Triple P (swap_link name v) (λ _. Q) C
unfolding swap_link
swap_rule name [] P C Q e kept changed success = absurd (ground (arith, e))
swap_rule name (x ∷ xs) P C Q e kept changed success =
    bind_rule (λ _. P) (λ _. Q) C (reading (λ (d : Disk). require_slot d (x ∷ xs))) _
      (read_rule P (λ _. P) C (λ (d : Disk). require_slot d (x ∷ xs)) kept (λ d a p e. p))
      (λ a. write_rule P C Q (set_link name (points (x ∷ xs))) kept changed success)

-- A pointer is set to a version.
pub point_rule :
    (t : String) (name : LinkName) (v : Bytes) (P C Q : Disk → Type 0)
    → is_empty v ≡ false
    → ((d : Disk) → P d → C d)
    → ((d : Disk) → P d → C (set_link name (link_of v) d))
    → ((d : Disk) → P d → Q (set_link name (link_of v) d))
    → Triple P (wrap t (swap_link name v)) (λ _. Q) C
point_rule t name v P C Q e kept changed success =
    wrap_rule P (λ _. Q) C t (swap_link name v) (swap_rule name v P C Q e kept changed success)

-- A pointer is set to a version, or removed where there is none.
pub replace_rule :
    (t : String) (name : LinkName) (v : Bytes) (P C Q : Disk → Type 0)
    → ((d : Disk) → P d → C d)
    → ((d : Disk) → P d → C (set_link name (link_of v) d))
    → ((d : Disk) → P d → Q (set_link name (link_of v) d))
    → Triple P (if is_empty v then remove_link name else wrap t (swap_link name v)) (λ _. Q) C
unfolding remove_link
replace_rule t name [] P C Q kept changed success =
    write_rule P C Q (set_link name missing) kept changed success
replace_rule t name (x ∷ xs) P C Q kept changed success =
    point_rule t name (x ∷ xs) P C Q refl kept changed success
