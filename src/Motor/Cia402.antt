-- ===== src/Motor/Cia402.antt =====
-- The CiA 402 state of a drive, read from its statusword by `MotorController::get_cia402_state`
-- (catkin_ws/src/motor_driver/src/motor_controller.cpp).
use ku_polishing_robot_drive.Base.{
  Bool, arith, false, has_bit, if◌then◌else◌, not, true, ℕ, ◌&&◌, ◌↔◌, ◌≡◌, ◌≢◌,
}

pub data Cia402State : Type 0 where
  not_ready_to_switch_on switch_on_disabled ready_to_switch_on switched_on : Cia402State
  operation_enabled quick_stop_active fault_reaction_active fault : Cia402State

-- the tests, in the source's order, on the six bits
unfoldable pub decide_state : Bool → Bool → Bool → Bool → Bool → Bool → Cia402State
decide_state ready switched operation is_fault quick_stop disabled =
    if is_fault
    then fault
    else if disabled
    then switch_on_disabled
    else if not ready && not switched && not operation
    then not_ready_to_switch_on
    else if ready && not switched && not operation
    then ready_to_switch_on
    else if ready && switched && not operation
    then switched_on
    else if ready && switched && operation
    then operation_enabled
    else if not quick_stop && operation
    then quick_stop_active
    else not_ready_to_switch_on

unfoldable pub get_cia402_state : ℕ → Cia402State
unfolding decide_state
get_cia402_state statusword =
    decide_state (has_bit statusword 0) (has_bit statusword 1) (has_bit statusword 2)
      (has_bit statusword 3) (has_bit statusword 5) (has_bit statusword 6)

decide_enabled :
    (a b c d q e : Bool)
    → (decide_state a b c d q e ≡ operation_enabled)
      ↔ ((a ≡ true) × (b ≡ true) × (c ≡ true) × (d ≡ false) × (e ≡ false))
unfolding decide_state
decide_enabled a b c d q e = (λ h. ground arith, λ h. ground arith)

-- A statusword is read as OPERATION_ENABLED exactly when the bits ready, switched on and operation
-- enabled are set and the bits fault and switch-on-disabled are clear.
pub operation_enabled_iff :
    (statusword : ℕ)
    → (get_cia402_state statusword ≡ operation_enabled) ↔ (
        (has_bit statusword 0 ≡ true)
        × (has_bit statusword 1 ≡ true)
        × (has_bit statusword 2 ≡ true)
        × (has_bit statusword 3 ≡ false)
        × (has_bit statusword 6 ≡ false))
unfolding get_cia402_state
operation_enabled_iff w =
    decide_enabled (has_bit w 0) (has_bit w 1) (has_bit w 2) (has_bit w 3) (has_bit w 5)
      (has_bit w 6)

-- The pattern of CiA 402 for QUICK STOP ACTIVE: xxxx xxxx x00x 0111.
abbrev pub IsQuickStopPattern : ℕ → Type 0
IsQuickStopPattern w =
    (has_bit w 0 ≡ true)
    × (has_bit w 1 ≡ true)
    × (has_bit w 2 ≡ true)
    × (has_bit w 3 ≡ false)
    × (has_bit w 5 ≡ false)
    × (has_bit w 6 ≡ false)

-- Every statusword with the CiA 402 pattern of QUICK STOP ACTIVE (bits 0 to 2 set, bits 3, 5 and 6
-- clear) is read as OPERATION_ENABLED, and so never as QUICK_STOP_ACTIVE.
pub quick_stop_read_as_enabled :
    (statusword : ℕ)
    → IsQuickStopPattern statusword
    → (get_cia402_state statusword ≡ operation_enabled)
      × (get_cia402_state statusword ≢ quick_stop_active)
quick_stop_read_as_enabled w h =
    let e = (operation_enabled_iff w).1 (h.0, h.1, h.2, h.3, h.5) in (e, λ q. cc)
