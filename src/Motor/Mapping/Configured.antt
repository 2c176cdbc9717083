-- ===== src/Motor/Mapping/Configured.antt =====
-- What a drive holds after `configure_node` (catkin_ws/src/motor_driver/src/motor_controller.cpp).
use ku_polishing_robot_drive.Base.{
  All, List, [], ap, arith, length, refl, ℕ, ◌++◌, ◌+◌, ◌<◌, ◌∙◌, ◌∷◌, ◌≡◌, ◌≢◌,
}
use ku_polishing_robot_drive.Motor.Node.Threads.{after}
use ku_polishing_robot_drive.Motor.Mapping.Dictionary.{Pdo, download, download_all}
use ku_polishing_robot_drive.Motor.Mapping.Downloads.{
  download_all-append, setup_pdo_mapping-download, setup_pdo_mapping-other,
}
use ku_polishing_robot_drive.Motor.Mapping.{
  Mapping, mapping_frames, nmt, rpdo1, rpdo2, setup_pdo_mapping, tpdo1, tpdo2, tpdo3,
  nmt_start_remote_node,
}
use ku_polishing_robot_drive.Can.{Frame}

-- A mapping that CiA 301 allows: indices of 16 bits, an identifier of 11, 1 to 254 objects.
abbrev pub IsMapping : ℕ → Mapping → Type 0
IsMapping node m =
    (m.comm_index ≢ m.map_index)
    × (m.comm_index < 65536)
    × (m.map_index < 65536)
    × (m.cob_base + node < 2048)
    × (0 < length m.objects)
    × (length m.objects < 255)
    × All (λ o. o < 4294967296) m.objects

-- Two mappings share no index.
abbrev pub IsApart : Mapping → Mapping → Type 0
IsApart m n =
    (n.comm_index ≢ m.comm_index)
    × (n.comm_index ≢ m.map_index)
    × (n.map_index ≢ m.comm_index)
    × (n.map_index ≢ m.map_index)

-- The object of a mapping, enabled and filled.
abbrev pub configured : ℕ → Mapping → Pdo
configured node m = record {
  cob_id = m.cob_base + node;
  transmission = 1;
  count = length m.objects;
  objects = m.objects;
}

abbrev pub receive : ℕ → Mapping → Pdo → List Frame → Pdo
receive node m p frames = download_all node m.comm_index m.map_index p frames

mapping_frames-others :
    (node : ℕ) (m : Mapping) (p : Pdo) (ms : List Mapping)
    → All (λ n. IsMapping node n × IsApart m n) ms
    → receive node m p (mapping_frames node ms) ≡ p
unfolding mapping_frames download_all
mapping_frames-others node m p [] others = refl
mapping_frames-others node m p (n ∷ ms) others =
    let (h, a) = others.0 in
    download_all-append node m.comm_index m.map_index p
      (setup_pdo_mapping node n.comm_index n.map_index n.cob_base n.objects)
      (mapping_frames node ms)
    ∙ ap (λ (q : Pdo). receive node m q (mapping_frames node ms))
        (setup_pdo_mapping-other node m.comm_index m.map_index p n.comm_index n.map_index n.cob_base
          n.objects h.1 h.2 h.3 a.0 a.1 a.2 a.3 h.6)
    ∙ mapping_frames-others node m p ms others.1

mapping_frames-configured :
    (node : ℕ) (m : Mapping) (p : Pdo) (front back : List Mapping)
    → IsMapping node m
    → All (λ n. IsMapping node n × IsApart m n) front
    → All (λ n. IsMapping node n × IsApart m n) back
    → receive node m p (mapping_frames node (front ++ m ∷ back)) ≡ configured node m
unfolding mapping_frames
mapping_frames-configured node m p [] back h before after =
    download_all-append node m.comm_index m.map_index p
      (setup_pdo_mapping node m.comm_index m.map_index m.cob_base m.objects)
      (mapping_frames node back)
    ∙ ap (λ (q : Pdo). receive node m q (mapping_frames node back))
        (setup_pdo_mapping-download node m.comm_index m.map_index p m.cob_base m.objects h.0 h.1 h.2
          h.3 h.4 h.5 h.6)
    ∙ mapping_frames-others node m (configured node m) back after
mapping_frames-configured node m p (n ∷ front) back h before after =
    let (g, a) = before.0 in
    download_all-append node m.comm_index m.map_index p
      (setup_pdo_mapping node n.comm_index n.map_index n.cob_base n.objects)
      (mapping_frames node (front ++ m ∷ back))
    ∙ ap (λ (q : Pdo). receive node m q (mapping_frames node (front ++ m ∷ back)))
        (setup_pdo_mapping-other node m.comm_index m.map_index p n.comm_index n.map_index n.cob_base
          n.objects g.1 g.2 g.3 a.0 a.1 a.2 a.3 g.6)
    ∙ mapping_frames-configured node m p front back h before.1 after

-- The frames that `configure_node` sends after the reset.
abbrev pub write_frames : ℕ → List Frame
write_frames node =
    mapping_frames node (rpdo1 ∷ rpdo2 ∷ tpdo1 ∷ tpdo2 ∷ tpdo3 ∷ [])
    ++ nmt nmt_start_remote_node node ∷ []

start-download :
    (node : ℕ) (m : Mapping) (p : Pdo) → receive node m p (nmt nmt_start_remote_node node ∷ []) ≡ p
unfolding download_all download
start-download node m p = ground arith

write_frames-around :
    (node : ℕ) (m : Mapping) (p : Pdo)
    → receive node m p (mapping_frames node (rpdo1 ∷ rpdo2 ∷ tpdo1 ∷ tpdo2 ∷ tpdo3 ∷ []))
      ≡ configured node m
    → receive node m p (write_frames node) ≡ configured node m
write_frames-around node m p h =
    let all : List Frame = mapping_frames node (rpdo1 ∷ rpdo2 ∷ tpdo1 ∷ tpdo2 ∷ tpdo3 ∷ []) in
    download_all-append node m.comm_index m.map_index p all (nmt 0x01 node ∷ [])
    ∙ ap (λ (q : Pdo). receive node m q (nmt 0x01 node ∷ [])) h
    ∙ start-download node m (configured node m)

-- All five objects, for the node of a drive, of 1 to 127.
pub write_frames-configured :
    (node : ℕ) (p : Mapping → Pdo)
    → node < 128
    → (receive node rpdo1 (p rpdo1) (write_frames node) ≡ configured node rpdo1)
      × (receive node rpdo2 (p rpdo2) (write_frames node) ≡ configured node rpdo2)
      × (receive node tpdo1 (p tpdo1) (write_frames node) ≡ configured node tpdo1)
      × (receive node tpdo2 (p tpdo2) (write_frames node) ≡ configured node tpdo2)
      × (receive node tpdo3 (p tpdo3) (write_frames node) ≡ configured node tpdo3)
write_frames-configured node p id = (
  write_frames-around node rpdo1 (p rpdo1) (
      mapping_frames-configured node rpdo1 (p rpdo1) [] (rpdo2 ∷ tpdo1 ∷ tpdo2 ∷ tpdo3 ∷ [])
        (omega arith) tt (omega arith)),
  write_frames-around node rpdo2 (p rpdo2) (
      mapping_frames-configured node rpdo2 (p rpdo2) (rpdo1 ∷ []) (tpdo1 ∷ tpdo2 ∷ tpdo3 ∷ [])
        (omega arith) (omega arith) (omega arith)),
  write_frames-around node tpdo1 (p tpdo1) (
      mapping_frames-configured node tpdo1 (p tpdo1) (rpdo1 ∷ rpdo2 ∷ []) (tpdo2 ∷ tpdo3 ∷ [])
        (omega arith) (omega arith) (omega arith)),
  write_frames-around node tpdo2 (p tpdo2) (
      mapping_frames-configured node tpdo2 (p tpdo2) (rpdo1 ∷ rpdo2 ∷ tpdo1 ∷ []) (tpdo3 ∷ [])
        (omega arith) (omega arith) (omega arith)),
  write_frames-around node tpdo3 (p tpdo3) (
      mapping_frames-configured node tpdo3 (p tpdo3) (rpdo1 ∷ rpdo2 ∷ tpdo1 ∷ tpdo2 ∷ []) []
        (omega arith) (omega arith) tt),
)
