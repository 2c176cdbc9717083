-- ===== src/Motor/Mapping/Dictionary.antt =====
-- One process data object of a drive, as CiA 301 describes it: its parameters are set by SDO
-- downloads, and its mapping can be changed only while it is disabled (bit 31 of its identifier)
-- and holds no objects. It stands for the drive, which is not part of the repository.
use ku_polishing_robot_drive.Base.{
  Bool, List, [], get_or, if◌then◌else◌, leb, length, not, ℕ, ◌&&◌, ◌*◌, ◌++◌, ◌+◌, ◌==◌, ◌∷◌,
}
use ku_polishing_robot_drive.Can.{Frame}

pub record Pdo : Type 0 where
  pub cob_id : ℕ
  pub transmission : ℕ
  pub count : ℕ
  pub objects : List ℕ

abbrev pub disabled : Pdo → Bool
disabled p = leb 0x80000000 p.cob_id

-- a write of the communication parameters
abbrev pub write_comm : ℕ → ℕ → Pdo → Pdo
write_comm sub value p =
    if sub == 1
    then record p { cob_id = value }
    else if sub == 2
    then record p { transmission = value }
    else p

-- a write of the mapping: the count, or the next object
abbrev pub write_map : ℕ → ℕ → Pdo → Pdo
write_map sub value p =
    if not (disabled p)
    then p
    else if sub == 0
    then (if value == 0
        then record p { count = 0; objects = [] }
        else if value == length p.objects
        then record p { count = value }
        else p)
    else if p.count == 0 && sub == length p.objects + 1
    then record p { objects = p.objects ++ value ∷ [] }
    else p

abbrev pub index_of : Frame → ℕ
index_of frame = get_or frame.payload 1 0 + get_or frame.payload 2 0 * 256

abbrev pub value_of : Frame → ℕ
value_of frame =
    if get_or frame.payload 0 0 == 0x23
    then get_or frame.payload 4 0
      + get_or frame.payload 5 0 * 256
      + get_or frame.payload 6 0 * 65536
      + get_or frame.payload 7 0 * 16777216
    else get_or frame.payload 4 0

-- A frame that reaches the drive of a node, for the object with these two indices.
unfoldable pub download : ℕ → ℕ → ℕ → Pdo → Frame → Pdo
download node comm_index map_index p frame =
    if not (frame.can_id == 0x600 + node)
    then p
    else if index_of frame == comm_index
    then write_comm (get_or frame.payload 3 0) (value_of frame) p
    else if index_of frame == map_index
    then write_map (get_or frame.payload 3 0) (value_of frame) p
    else p

unfoldable pub download_all : ℕ → ℕ → ℕ → Pdo → List Frame → Pdo
download_all node comm_index map_index p [] = p
download_all node comm_index map_index p (frame ∷ frames) =
    download_all node comm_index map_index (download node comm_index map_index p frame) frames
