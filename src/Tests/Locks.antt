-- ===== src/Tests/Locks.antt =====
-- Two safety nodes on one machine (catkin_ws/src/safety_io_driver), over a small kernel.
use ku_polishing_robot_drive.Base.{
  Bool, Bool-cases, List, Option, [], ap, arith, false, if◌then◌else◌, inl, inr, none, refl, same,
  some, sym, true, ℕ, ◌%◌, ◌&&◌, ◌+◌, ◌<◌, ◌==◌, ◌∙◌, ◌∷◌, ◌≡◌, ◌≢◌,
}
use Prim.Native.Nat.{max}
use ku_polishing_robot_drive.SafetyIo.Lock.{Event, Kernel, ending, happen, starting}
use ku_polishing_robot_drive.SafetyIo.Lock.Exclusion.{Flock, OneEach, happen-OneEach}

same_path : List ℕ → List ℕ → Bool
same_path [] [] = true
same_path [] (b ∷ q) = false
same_path (a ∷ p) [] = false
same_path (a ∷ p) (b ∷ q) = a == b && same_path p q

same_path-eq : (p q : List ℕ) → same_path p q ≡ true → p ≡ q
unfolding same_path
same_path-eq [] [] h = refl
same_path-eq [] (b ∷ q) h = absurd (cc)
same_path-eq (a ∷ p) [] h = absurd (cc)
same_path-eq (a ∷ p) (b ∷ q) h =
    let head : a ≡ b = ground arith in let tail : p ≡ q = same_path-eq p q (ground arith) in cc

same_path_refl : (p : List ℕ) → same_path p p ≡ true
unfolding same_path
same_path_refl [] = refl
same_path_refl (a ∷ p) = ground (arith, same_path_refl p)

-- the open files by descriptor, and the locks by file
record Table : Type 0 where
  files : List (ℕ × List ℕ)
  locks : List (List ℕ × ℕ)

file_at : ℕ → List (ℕ × List ℕ) → Option (List ℕ)
file_at fd [] = none
file_at fd ((n, p) ∷ files) = if n == fd then some p else file_at fd files

lock_at : List ℕ → List (List ℕ × ℕ) → Option ℕ
lock_at q [] = none
lock_at q ((p, fd) ∷ locks) = if same_path p q then some fd else lock_at q locks

next_fd : List (List ℕ × ℕ) → ℕ
next_fd [] = 3
next_fd ((p, fd) ∷ locks) = max (fd + 1) (next_fd locks)

unlocked : ℕ → List (List ℕ × ℕ) → List (List ℕ × ℕ)
unlocked fd [] = []
unlocked fd ((p, n) ∷ locks) = if n == fd then unlocked fd locks else (p, n) ∷ unlocked fd locks

flock_at : ℕ → List ℕ → Table → Option ℕ → Table × Bool
flock_at fd p k none = (record k { locks = (p, fd) ∷ k.locks }, true)
flock_at fd p k (some other) = (k, false)

flock_of : ℕ → Option (List ℕ) → Table → Table × Bool
flock_of fd none k = (k, false)
flock_of fd (some p) k = flock_at fd p k (lock_at p k.locks)

abbrev kernel : Kernel Table
kernel = record {
  open_file = λ p k. (record k { files = (next_fd k.locks, p) ∷ k.files }, some (next_fd k.locks));
  flock = λ fd k. flock_of fd (file_at fd k.files) k;
  close_file = λ fd k. record k { locks = unlocked fd k.locks };
}

lock_at-next_fd :
    (q : List ℕ) (locks : List (List ℕ × ℕ)) (fd : ℕ)
    → lock_at q locks ≡ some fd
    → fd < next_fd locks
unfolding lock_at next_fd
lock_at-next_fd q [] fd h = absurd (cc)
lock_at-next_fd q ((p, n) ∷ locks) fd h = ground (arith, lock_at-next_fd q locks fd)

lock_at-unlocked :
    (q : List ℕ) (fd other : ℕ) (locks : List (List ℕ × ℕ))
    → lock_at q locks ≡ some other
    → other ≢ fd
    → lock_at q (unlocked fd locks) ≡ some other
unfolding lock_at unlocked
lock_at-unlocked q fd other [] h apart = absurd (cc)
lock_at-unlocked q fd other ((p, n) ∷ locks) h apart =
    ground (arith, lock_at-unlocked q fd other locks)

flock_at-taken :
    (fd : ℕ) (p : List ℕ) (k : Table) (o : Option ℕ)
    → lock_at p k.locks ≡ o
    → (flock_at fd p k o).1 ≡ true
    → (lock_at p k.locks ≡ none) × (lock_at p (flock_at fd p k o).0.locks ≡ some fd)
unfolding flock_at lock_at
flock_at-taken fd p k none e h = (e, rw (same_path_refl p) refl)
flock_at-taken fd p k (some other) e h = cc

flock_at-others :
    (fd : ℕ) (p q : List ℕ) (k : Table) (o : Option ℕ)
    → q ≢ p
    → lock_at q (flock_at fd p k o).0.locks ≡ lock_at q k.locks
unfolding flock_at lock_at
flock_at-others fd p q k (some other) apart = refl
flock_at-others fd p q k none apart = elim (Bool-cases (same_path p q)) [
  | inl same ↦ absurd (apart (sym (same_path-eq p q same)))
  | inr other ↦ rw other refl
]

flock_at-refused :
    (fd : ℕ) (p : List ℕ) (k : Table) (o : Option ℕ)
    → (flock_at fd p k o).1 ≡ false
    → (flock_at fd p k o).0 ≡ k
unfolding flock_at
flock_at-refused fd p k none h = absurd (cc)
flock_at-refused fd p k (some other) h = refl

flock_of-refused :
    (fd : ℕ) (o : Option (List ℕ)) (k : Table)
    → (flock_of fd o k).1 ≡ false
    → (flock_of fd o k).0 ≡ k
unfolding flock_of
flock_of-refused fd none k h = refl
flock_of-refused fd (some p) k h = flock_at-refused fd p k (lock_at p k.locks) h

kernel-Flock : Flock kernel
unfolding flock_of file_at
kernel-Flock = record {
  holder = λ k q. lock_at q k.locks;
  file_of = λ k fd. file_at fd k.files;
  open_holder = λ k p q. refl;
  open_new = λ k p q fd e.
      let this : next_fd k.locks ≡ fd = cc in
      let hit : (next_fd k.locks == fd) ≡ true = ground arith in
      (rw hit refl, λ has. absurd (omega (arith, lock_at-next_fd q k.locks fd has)));
  flock_taken = λ k p fd file taken.
      let step : flock_of fd (file_at fd k.files) k ≡ flock_at fd p k (lock_at p k.locks) =
        ap (λ o. flock_of fd o k) file in
      let t = flock_at-taken fd p k (lock_at p k.locks) refl (sym (ap (λ r. r.1) step) ∙ taken) in
      (t.0, ap (λ r. lock_at p r.0.locks) step ∙ t.1);
  flock_others = λ k p q fd file apart.
      ap (λ o. lock_at q (flock_of fd o k).0.locks) file
      ∙ flock_at-others fd p q k (lock_at p k.locks) apart;
  flock_refused = λ k q fd refused.
      ap (λ t. lock_at q t.locks) (flock_of-refused fd (file_at fd k.files) k refused);
  close_others = λ k q fd other has apart. lock_at-unlocked q fd other k.locks has apart;
}

abbrev host : List ℕ
host = 49 ∷ 46 ∷ 50 ∷ []

-- the second node of the same host and port is refused, and a third one with another port is not
abbrev events : List Event
events =
    starting host 502 ∷ starting host 502 ∷ starting host 503 ∷ ending 3 ∷ starting host 502 ∷ []

-- one digit for each port of the example
abbrev digit : ℕ → List ℕ
digit n = (48 + n % 10) ∷ []

happen-OneEach_example :
    OneEach (happen kernel digit events (record { files = []; locks = [] }, [])).1
happen-OneEach_example =
    happen-OneEach kernel digit kernel-Flock events (record { files = []; locks = [] })
