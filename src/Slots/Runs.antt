-- ===== src/Slots/Runs.antt =====
-- Three threads that race for two slots.
use asrcpp_gigam.Base.{◌≤◌, ◌≡◌, true, false, List, [], ◌∷◌, arith}
use asrcpp_gigam.Slots.Bounds.{Access, accesses, slots_bounded, start, round, leave}

-- The second fails for no reason, the third holds a stale value, a fourth is refused.
abbrev race : List Access
race =
    start
    ∷ round 0 false
    ∷ round 1 true
    ∷ round 0 false
    ∷ round 1 false
    ∷ round 2 false
    ∷ leave
    ∷ []

slots_bounded_example :
    ((accesses 2 race (record { active = 0; held = 0 })).active
      ≡ (accesses 2 race (record { active = 0; held = 0 })).held)
    × ((accesses 2 race (record { active = 0; held = 0 })).held ≤ 2)
slots_bounded_example = slots_bounded 2 race (omega arith) (omega arith)
