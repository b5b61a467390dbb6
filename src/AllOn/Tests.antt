-- ===== src/AllOn/Tests.antt =====
-- The watcher at group broadcasts to group 0, one of them cut short before its command.
use insteonrf.Common.{
  ℕ, ◌≡◌, ◌≤◌, ◌↔◌, Option, none, some, List, [], ◌∷◌, true, length, raise, type_error, list_eq,
}
use insteonrf.Common.Dict.{get}
use insteonrf.Packet.Fields.{Packet, of_data, is_group_broadcast, group}
use insteonrf.AllOn.{watcher, default_cooldown}
use insteonrf.AllOn.Watch.{observe}
use insteonrf.AllOn.Cooldown.{Spaced, fire_times, fire_times-Spaced}
use insteonrf.AllOn.Raises.{observe_raises}

abbrev zeroth : Packet
zeroth = of_data (207 ∷ 102 ∷ 85 ∷ 68 ∷ 0 ∷ 0 ∷ 0 ∷ 17 ∷ 0 ∷ 188 ∷ 0 ∷ 0 ∷ 170 ∷ [])

abbrev cut_short : Packet
cut_short = of_data (207 ∷ 102 ∷ 85 ∷ 68 ∷ 0 ∷ [])

abbrev steps : List (Option Packet × Option ℕ × ℕ)
steps =
    (some zeroth, some 1_000, 0)
    ∷ (some zeroth, some 2_000, 0)
    ∷ (none, some 3_000, 0)
    ∷ (some zeroth, some 400_000_000, 0)
    ∷ []

fire_times-Spaced_example :
    Spaced default_cooldown none (fire_times (0 ∷ 1 ∷ 4478310 ∷ []) (watcher none) steps)
unfolding get
fire_times-Spaced_example = fire_times-Spaced (watcher none) (0 ∷ 1 ∷ 4478310 ∷ []) steps

observe_raises_example :
    ((observe (watcher none) (some cut_short) none 1_000).1 ≡ raise type_error) ↔ (
      (is_group_broadcast cut_short ≡ true)
      × (group cut_short ≡ some 0)
      × (length cut_short.bytes ≤ 7))
observe_raises_example = observe_raises (watcher none) cut_short none 1_000
