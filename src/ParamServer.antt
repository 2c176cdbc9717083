-- ===== src/ParamServer.antt =====
-- The parameter server as the constructors under catkin_ws/src read it, and the `double` values that
-- they take from it. Both are arguments of the models.
use ku_polishing_robot_drive.Base.{Bool, List, Option, if◌then◌else◌, none, some, to_u32, u8, ℕ, ℤ}
use Prim.Native.String.{String}

-- What is set under a name of the node, with the type that is asked for (`getParam`).
pub record Server (R : Type 0) : Type 0 where
  pub integer : String → Option ℤ
  pub double : String → Option R
  pub truth : String → Option Bool
  pub text : String → Option String
  pub integers : String → Option (List ℤ)

-- `NodeHandle::param`: what is set, or else the default
abbrev pub param {ℓ} : {A : Type ℓ} → Option A → A → A
param none default = default
param (some value) default = value

-- The literal m / 10^e, comparison, `std::lround(z * r)`, and a time limit of r seconds in
-- nanoseconds; times do not run backwards, so a limit below 0 acts as 0.
pub record Doubles (R : Type 0) : Type 0 where
  pub decimal : ℕ → ℕ → R
  pub less : R → R → Bool
  pub times : ℤ → R → ℤ
  pub nanoseconds : R → ℕ

-- `if (v < limit) v = limit;`
abbrev pub raised : {R : Type 0} → Doubles R → R → R → R
raised doubles limit v = if doubles.less v limit then limit else v

-- `static_cast<uint8_t>` of an `int`
abbrev pub byte_of : ℤ → ℕ
byte_of z = u8 (to_u32 z)
