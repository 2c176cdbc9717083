-- ===== src/SafetyIo/Lock.antt =====
-- `deviceLockPath` and `DeviceLock` of catkin_ws/src/safety_io_driver/src/safety_io_node.cpp, and the
-- nodes of one machine that share its lock files. Texts are lists of bytes; `std::to_string` and the
-- kernel's calls are arguments.
pub mod Exclusion
use ku_polishing_robot_drive.Base.{
  Bool, List, Option, [], false, if◌then◌else◌, leb, map, none, some, true, ℕ, ◌&&◌, ◌++◌, ◌==◌,
  ◌||◌, ◌∷◌,
}

-- `std::isalnum` in the C locale
unfoldable pub is_alnum : ℕ → Bool
is_alnum b = (leb 48 b && leb b 57) || (leb 65 b && leb b 90) || (leb 97 b && leb b 122)

abbrev pub plain : ℕ → ℕ
plain b = if is_alnum b then b else 95

abbrev pub lock_prefix : List ℕ
lock_prefix =
    47 ∷ 116 ∷ 109 ∷ 112 ∷ 47 ∷ 115 ∷ 97 ∷ 102 ∷ 101 ∷ 116 ∷ 121 ∷ 95 ∷ 105 ∷ 111 ∷ 95 ∷ 100 ∷ 114
    ∷ 105 ∷ 118 ∷ 101 ∷ 114 ∷ 95 ∷ []

abbrev pub lock_suffix : List ℕ
lock_suffix = 46 ∷ 108 ∷ 111 ∷ 99 ∷ 107 ∷ []

-- `deviceLockPath`, from the digits of the port
unfoldable pub device_lock_path : (ℕ → List ℕ) → List ℕ → ℕ → List ℕ
device_lock_path to_string host port =
    lock_prefix ++ (map plain (host ++ 95 ∷ to_string port) ++ lock_suffix)

-- What the kernel does for one machine's processes: `open` gives a descriptor or fails, `flock` with
-- `LOCK_EX | LOCK_NB` takes the lock or fails, `close` gives it back, as the end of a process does.
-- A descriptor stands for the open file behind it, so those of different processes differ.
pub record Kernel (K : Type 0) : Type 0 where
  pub open_file : List ℕ → K → K × Option ℕ
  pub flock : ℕ → K → K × Bool
  pub close_file : ℕ → K → K

-- `path_` and `fd_` of a `DeviceLock`, with the endpoint that it stands for
pub record DeviceLock : Type 0 where
  pub host : List ℕ
  pub port : ℕ
  pub path : List ℕ
  pub fd : ℕ

-- A node of the machine is started; or the process that has this descriptor ends.
pub data Event : Type 0 where
  starting : List ℕ → ℕ → Event
  ending : ℕ → Event

abbrev pub without : ℕ → List DeviceLock → List DeviceLock
without fd [] = []
without fd (l ∷ ls) = if l.fd == fd then without fd ls else l ∷ without fd ls

abbrev pub started : {K : Type 0} → K × Option DeviceLock → List DeviceLock → K × List DeviceLock
started (k, none) running = (k, running)
started (k, some l) running = (k, l ∷ running)

module _ {K : Type 0} (kernel : Kernel K) (to_string : ℕ → List ℕ) where
  abbrev pub after_flock : DeviceLock → K × Bool → K × Option DeviceLock
  after_flock l (k, true) = (k, some l)
  after_flock l (k, false) = (kernel.close_file l.fd k, none)

  abbrev pub after_open : List ℕ → ℕ → K × Option ℕ → K × Option DeviceLock
  after_open host port (k, none) = (k, none)
  after_open host port (k, some fd) =
      after_flock
        (record { host = host; port = port; path = device_lock_path to_string host port; fd = fd })
        (kernel.flock fd k)

  -- the constructor of `DeviceLock`; an exception gives `none`
  unfoldable pub lock_device : List ℕ → ℕ → K → K × Option DeviceLock
  lock_device host port k =
      after_open host port (kernel.open_file (device_lock_path to_string host port) k)

  -- its destructor
  abbrev pub unlock_device : DeviceLock → K → K
  unlock_device l k = kernel.close_file l.fd k

  -- the kernel, and the locks of the nodes that run
  unfoldable pub happen : List Event → K × List DeviceLock → K × List DeviceLock
  happen [] s = s
  happen (starting host port ∷ events) (k, running) =
      happen events (started (lock_device host port k) running)
  happen (ending fd ∷ events) (k, running) =
      happen events (kernel.close_file fd k, without fd running)
