-- ===== src/SafetyIo/Lock/Exclusion.antt =====
-- No two nodes of one machine poll the same device
-- (catkin_ws/src/safety_io_driver/src/safety_io_node.cpp).
use ku_polishing_robot_drive.Base.{
  All, Bool-cases, List, Option, Option-cases, [], ap, arith, false, inl, inr, none, refl, same,
  some, sym, true, ℕ, ◌==◌, ◌∙◌, ◌∷◌, ◌≡◌, ◌≢◌,
}
use ku_polishing_robot_drive.SafetyIo.Lock.{
  DeviceLock, Kernel, device_lock_path, without, Event, happen, lock_device, started, starting,
  ending,
}

-- What the manual of flock(2) says of the descriptor that has the lock of a file, if there is one.
pub record Flock {K : Type 0} (kernel : Kernel K) : Type 0 where
  pub holder : K → List ℕ → Option ℕ
  pub file_of : K → ℕ → Option (List ℕ)
  -- `open` takes no lock, and its descriptor is a new one.
  pub open_holder : (k : K) (p q : List ℕ) → holder (kernel.open_file p k).0 q ≡ holder k q
  pub open_new :
      (k : K) (p q : List ℕ) (fd : ℕ)
      → (kernel.open_file p k).1 ≡ some fd
      → (file_of (kernel.open_file p k).0 fd ≡ some p) × (holder k q ≢ some fd)
  -- A lock that is taken was free, and the others are as they were.
  pub flock_taken :
      (k : K) (p : List ℕ) (fd : ℕ)
      → file_of k fd ≡ some p
      → (kernel.flock fd k).1 ≡ true
      → (holder k p ≡ none) × (holder (kernel.flock fd k).0 p ≡ some fd)
  pub flock_others :
      (k : K) (p q : List ℕ) (fd : ℕ)
      → file_of k fd ≡ some p
      → q ≢ p
      → holder (kernel.flock fd k).0 q ≡ holder k q
  pub flock_refused :
      (k : K) (q : List ℕ) (fd : ℕ)
      → (kernel.flock fd k).1 ≡ false
      → holder (kernel.flock fd k).0 q ≡ holder k q
  -- `close` gives back no other descriptor's lock.
  pub close_others :
      (k : K) (q : List ℕ) (fd other : ℕ)
      → holder k q ≡ some other
      → other ≢ fd
      → holder (kernel.close_file fd k) q ≡ some other

-- No two of these nodes have the same host and port.
abbrev pub OneEach : List DeviceLock → Type 0
OneEach [] = Unit
OneEach (l ∷ ls) = All (λ m. ¬ ((m.host ≡ l.host) × (m.port ≡ l.port))) ls × OneEach ls

module _ {K : Type 0} (kernel : Kernel K) (to_string : ℕ → List ℕ) (laws : Flock kernel) where
  -- A node that runs has the lock of its endpoint's file.
  record Holds (k : K) (l : DeviceLock) : Type 0 where
    has : laws.holder k l.path ≡ some l.fd
    named : l.path ≡ device_lock_path to_string l.host l.port

  record Inv (k : K) (running : List DeviceLock) : Type 0 where
    held : All (Holds k) running
    one_each : OneEach running

  -- What keeps the locks keeps the invariant.
  Holds-moved :
      (k k' : K) (running : List DeviceLock)
      → ((q : List ℕ) (fd : ℕ) → laws.holder k q ≡ some fd → laws.holder k' q ≡ some fd)
      → All (Holds k) running
      → All (Holds k') running
  Holds-moved k k' [] keeps h = tt
  Holds-moved k k' (l ∷ ls) keeps h =
      (record { has = keeps l.path l.fd h.0.has; named = h.0.named }, Holds-moved k k' ls keeps h.1)

  Holds-without :
      (k : K) (fd : ℕ) (running : List DeviceLock)
      → All (Holds k) running
      → All (Holds (kernel.close_file fd k)) (without fd running)
  Holds-without k fd [] h = tt
  Holds-without k fd (l ∷ ls) h = elim (Bool-cases (l.fd == fd)) [
    | inl same ↦ rw same (Holds-without k fd ls h.1)
    | inr other ↦
        let apart : l.fd ≢ fd = ground arith in
        rw other (
          record { has = laws.close_others k l.path fd l.fd h.0.has apart; named = h.0.named },
          Holds-without k fd ls h.1,
        )
  ]

  -- The new node's file has been free, so no node that runs has its host and port.
  apart_from :
      (k : K) (host : List ℕ) (port : ℕ) (running : List DeviceLock)
      → laws.holder k (device_lock_path to_string host port) ≡ none
      → All (Holds k) running
      → All (λ m. ¬ ((m.host ≡ host) × (m.port ≡ port))) running
  apart_from k host port [] free h = tt
  apart_from k host port (m ∷ ms) free h = (
    λ same.
        let path : m.path ≡ device_lock_path to_string host port =
          h.0.named
          ∙ ap (λ l. device_lock_path to_string l m.port) same.0
          ∙ ap (device_lock_path to_string host) same.1 in
        cc (free, h.0.has, path),
    apart_from k host port ms free h.1,
  )

  taken-Inv :
      (k : K) (l : DeviceLock) (running : List DeviceLock)
      → l.path ≡ device_lock_path to_string l.host l.port
      → laws.file_of k l.fd ≡ some l.path
      → (kernel.flock l.fd k).1 ≡ true
      → Inv k running
      → Inv (kernel.flock l.fd k).0 (l ∷ running)
  taken-Inv k l running named file taken h =
      let t = laws.flock_taken k l.path l.fd file taken in
      record {
        held = (
          record { has = t.1; named = named },
          Holds-moved k (kernel.flock l.fd k).0 running
              (λ q fd has.
                laws.flock_others k l.path q l.fd file (λ same. cc (t.0, has, same)) ∙ has)
              h.held,
        );
        one_each = (
          apart_from k l.host l.port running (ap (laws.holder k) (sym named) ∙ t.0) h.held,
          h.one_each,
        );
      }

  refused-Inv :
      (k k' : K) (fd : ℕ) (running : List DeviceLock)
      → ((q : List ℕ) → laws.holder k' q ≡ laws.holder k q)
      → ((q : List ℕ) → laws.holder k q ≢ some fd)
      → Inv k running
      → Inv (kernel.close_file fd k') running
  refused-Inv k k' fd running same fresh h = record {
    held =
        Holds-moved k (kernel.close_file fd k') running
          (λ q other has.
            laws.close_others k' q fd other (same q ∙ has) (λ e. fresh q (has ∙ ap some e)))
          h.held;
    one_each = h.one_each;
  }

  started-Inv :
      (host : List ℕ) (port : ℕ) (k : K) (running : List DeviceLock)
      → Inv k running
      → Inv
          (started (lock_device kernel to_string host port k) running).0
          (started (lock_device kernel to_string host port k) running).1
  unfolding lock_device
  started-Inv host port k running h =
      let p = device_lock_path to_string host port in
      let k' = (kernel.open_file p k).0 in
      let opened : Inv k' running = record {
        held = Holds-moved k k' running (λ q fd has. laws.open_holder k p q ∙ has) h.held;
        one_each = h.one_each;
      } in
      elim (Option-cases (kernel.open_file p k).1) [
        | inl fails ↦ rw fails opened
        | inr (fd, e) ↦
            let l : DeviceLock = record { host = host; port = port; path = p; fd = fd } in
            elim (Bool-cases (kernel.flock fd k').1) [
              | inl taken ↦
                  rw (e, taken)
                    (taken-Inv k' l running refl (laws.open_new k p p fd e).0 taken opened)
              | inr refused ↦
                  rw (e, refused)
                    (refused-Inv k' (kernel.flock fd k').0 fd running
                      (λ q. laws.flock_refused k' q fd refused)
                      (λ q has. (laws.open_new k p q fd e).1 (sym (laws.open_holder k p q) ∙ has))
                      opened)
            ]
      ]

  All-without :
      (P : DeviceLock → Type 0) (fd : ℕ) (ls : List DeviceLock) → All P ls → All P (without fd ls)
  All-without P fd [] h = tt
  All-without P fd (l ∷ ls) h = elim (Bool-cases (l.fd == fd)) [
    | inl same ↦ rw same (All-without P fd ls h.1)
    | inr other ↦ rw other (h.0, All-without P fd ls h.1)
  ]

  OneEach-without :
      (fd : ℕ) (running : List DeviceLock) → OneEach running → OneEach (without fd running)
  OneEach-without fd [] h = tt
  OneEach-without fd (l ∷ ls) h = elim (Bool-cases (l.fd == fd)) [
    | inl same ↦ rw same (OneEach-without fd ls h.1)
    | inr other ↦ rw other (All-without _ fd ls h.0, OneEach-without fd ls h.1)
  ]

  happen-Inv :
      (events : List Event) (s : K × List DeviceLock)
      → Inv s.0 s.1
      → Inv (happen kernel to_string events s).0 (happen kernel to_string events s).1
  unfolding happen
  happen-Inv [] s h = h
  happen-Inv (starting host port ∷ events) (k, running) h =
      happen-Inv events (started (lock_device kernel to_string host port k) running)
        (started-Inv host port k running h)
  happen-Inv (ending fd ∷ events) (k, running) h =
      happen-Inv events (kernel.close_file fd k, without fd running)
        (record {
          held = Holds-without k fd running h.held;
          one_each = OneEach-without fd running h.one_each;
        })

  -- On one machine, whatever nodes are started and end, in whatever order, and whatever `open` and
  -- `flock` answer, no two nodes that run have the same host and port.
  pub happen-OneEach :
      (events : List Event) (k : K) → OneEach (happen kernel to_string events (k, [])).1
  happen-OneEach events k =
      (happen-Inv events (k, []) (record { held = tt; one_each = tt })).one_each
