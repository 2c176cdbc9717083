-- ===== src/SafetyIo/Node/Tables.antt =====
-- The signal tables that `loadSignals` builds
-- (catkin_ws/src/safety_io_driver/src/safety_io_node.cpp).
use ku_polishing_robot_drive.Base.{
  Bool-cases, List, [], arith, false, inl, inr, pos_part, refl, true, ℕ, ◌++◌, ◌<◌, ◌||◌, ◌∷◌, ◌≡◌,
}
use ku_polishing_robot_drive.SafetyIo.Node.{
  Signal, named, Entry, entry_valid, load_entries, load_signals,
}
use Prim.Native.String.{String}
use text.Mathlib.Text.{◌==◌ as str_eq}
use text.Mathlib.TextEquality.{eq_iff}

-- Every bit lies below a bound, and no name stands twice.
abbrev pub IsTable : ℕ → List Signal → Type 0
IsTable bits [] = Unit {0}
IsTable bits (s ∷ rest) = (s.bit < bits) × (named s.name rest ≡ false) × IsTable bits rest

named-append :
    (name : String) (xs : List Signal) (s : Signal)
    → named name (xs ++ s ∷ []) ≡ named name xs || str_eq s.name name
named-append name [] s = ground arith
named-append name (x ∷ xs) s = ground (arith, named-append name xs s)

IsTable-append :
    (bits : ℕ) (xs : List Signal) (s : Signal)
    → IsTable bits xs
    → s.bit < bits
    → named s.name xs ≡ false
    → IsTable bits (xs ++ s ∷ [])
IsTable-append bits [] s h b new = (b, refl, tt)
IsTable-append bits (x ∷ xs) s h b new = (
  h.0,
  ground (arith, named-append x.name xs s, h.1, new, eq_iff x.name s.name, eq_iff s.name x.name),
  IsTable-append bits xs s h.2 b (ground (arith, new)),
)

entry_valid_facts :
    (bits : ℕ) (loaded : List Signal) (e : Entry)
    → entry_valid bits loaded e ≡ true
    → (pos_part e.bit < bits) × (named e.name loaded ≡ false)
unfolding entry_valid
entry_valid_facts bits loaded e h = ground arith

load_entries-IsTable :
    (bits : ℕ) (loaded : List Signal) (es : List Entry)
    → IsTable bits loaded
    → IsTable bits (load_entries bits loaded es)
unfolding load_entries
load_entries-IsTable bits loaded [] h = h
load_entries-IsTable bits loaded (e ∷ es) h = elim (Bool-cases (entry_valid bits loaded e)) [
  | inl good ↦
      let (in_range, new) = entry_valid_facts bits loaded e good in
      rw good (
        load_entries-IsTable bits _ es (
          IsTable-append bits loaded (record { name = e.name; bit = pos_part e.bit }) h in_range
            new))
  | inr bad ↦ rw bad (load_entries-IsTable bits loaded es h)
]

-- Every signal table that is loaded from parameters has bits inside the range that is read and no
-- name twice, as long as the default table has.
pub load_signals-IsTable :
    (defaults : List Signal) (bits : ℕ) (es : List Entry)
    → IsTable bits defaults
    → IsTable bits (load_signals defaults bits es)
unfolding load_signals
load_signals-IsTable defaults bits es h =
    by_loaded (load_entries bits [] es) (load_entries-IsTable bits [] es tt)
  where
    by_loaded :
        (t : List Signal)
        → IsTable bits t
        → IsTable bits (elim t [ [] ↦ defaults | s ∷ rest ↦ s ∷ rest ])
    by_loaded [] p = h
    by_loaded (s ∷ rest) p = p
