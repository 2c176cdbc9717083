-- ===== src/Motor/Mapping/Downloads.antt =====
-- What one mapping leaves in a drive, and that it leaves the other objects alone
-- (catkin_ws/src/motor_driver/src/motor_controller.cpp).
use ku_polishing_robot_drive.Base.{
  ==_iff, All, List, [], ap, append-nil, append_assoc, arith, if◌then◌else◌, le32_word, length,
  length-append, refl, sym, true, u8, ℕ, ◌%◌, ◌*◌, ◌++◌, ◌+◌, ◌/◌, ◌<◌, ◌==◌, ◌∙◌, ◌∷◌, ◌≡◌, ◌≢◌,
}
use ku_polishing_robot_drive.Motor.Mapping.Dictionary.{
  Pdo, download, download_all, write_comm, write_map, disabled,
}
use ku_polishing_robot_drive.Motor.Mapping.{sdo1, sdo4, map_objects, setup_pdo_mapping}
use ku_polishing_robot_drive.Can.{Frame}

module _ (node comm_index map_index : ℕ) where
  pub download_all-append :
      (p : Pdo) (xs ys : List Frame)
      → download_all node comm_index map_index p (xs ++ ys)
        ≡ download_all node comm_index map_index (download_all node comm_index map_index p xs) ys
  unfolding download_all
  download_all-append p [] ys = refl
  download_all-append p (x ∷ xs) ys =
      download_all-append (download node comm_index map_index p x) xs ys

  -- What a download does, by its index.
  written : ℕ → ℕ → ℕ → Pdo → Pdo
  written index sub value p =
      if index == comm_index
      then write_comm sub value p
      else if index == map_index
      then write_map sub value p
      else p

  download-sdo4 :
      (p : Pdo) (index sub value : ℕ)
      → index < 65536
      → value < 4294967296
      → download node comm_index map_index p (sdo4 node index sub value) ≡ written index sub value p
  unfolding download sdo4 written
  download-sdo4 p index sub value small word =
      let i : index % 256 + index / 256 % 256 * 256 ≡ index = omega arith in
      rw (i, le32_word value word, (==_iff (0x600 + node) (0x600 + node)).1 refl) refl

  download-sdo1 :
      (p : Pdo) (index sub value : ℕ)
      → index < 65536
      → download node comm_index map_index p (sdo1 node index sub value) ≡ written index sub value p
  unfolding download sdo1 written
  download-sdo1 p index sub value small =
      let i : index % 256 + index / 256 % 256 * 256 ≡ index = omega arith in
      rw (i, (==_iff (0x600 + node) (0x600 + node)).1 refl) refl

  -- The objects are appended in order, as long as the count is 0 and the sub-index does not wrap.
  map_objects-download :
      (p : Pdo) (sub : ℕ) (os : List ℕ)
      → comm_index ≢ map_index
      → map_index < 65536
      → disabled p ≡ true
      → p.count ≡ 0
      → sub ≡ length p.objects + 1
      → sub + length os < 256
      → All (λ o. o < 4294967296) os
      → download_all node comm_index map_index p (map_objects node map_index sub os)
        ≡ record p { objects = p.objects ++ os }
  unfolding download_all map_objects
  map_objects-download p sub [] apart small off none_yet next few words =
      ap (λ (l : List ℕ). record p { objects = l }) (sym (append-nil p.objects))
  map_objects-download p sub (o ∷ os) apart small off none_yet next few words =
      let q = record p { objects = p.objects ++ o ∷ [] } in
      let step : written map_index sub o p ≡ q = unfold written in ground arith in
      let size : length q.objects ≡ length p.objects + 1 =
        omega (arith, length-append p.objects (o ∷ [])) in
      ap
        (λ (r : Pdo).
          download_all node comm_index map_index r (map_objects node map_index (u8 (sub + 1)) os))
        (download-sdo4 p map_index sub o small words.0 ∙ step)
      ∙ map_objects-download q (u8 (sub + 1)) os apart small off none_yet (omega arith)
          (omega arith) words.1
      ∙ ap (λ (l : List ℕ). record p { objects = l }) (append_assoc p.objects (o ∷ []) os)

  -- The first three frames disable the object, choose SYNC and clear the mapping.
  disable-download :
      (p : Pdo) (cob : ℕ)
      → comm_index ≢ map_index
      → comm_index < 65536
      → map_index < 65536
      → cob < 2048
      → download_all node comm_index map_index p (
          sdo4 node comm_index 1 (0x80000000 + cob)
          ∷ sdo1 node comm_index 2 1
          ∷ sdo1 node map_index 0 0
          ∷ [])
        ≡ record { cob_id = 0x80000000 + cob; transmission = 1; count = 0; objects = [] }
  unfolding download_all written
  disable-download p cob apart comm_small map_small id = ground (
    arith,
    download-sdo4 p comm_index 1 (0x80000000 + cob) comm_small (omega arith),
    download-sdo1 (record p { cob_id = 0x80000000 + cob }) comm_index 2 1 comm_small,
    download-sdo1 (record p { cob_id = 0x80000000 + cob; transmission = 1 }) map_index 0 0
        map_small,
  )

  -- The last two set the count and enable it.
  enable-download :
      (cob : ℕ) (os : List ℕ)
      → comm_index ≢ map_index
      → comm_index < 65536
      → map_index < 65536
      → cob < 2048
      → 0 < length os
      → length os < 255
      → download_all node comm_index map_index
          (record { cob_id = 0x80000000 + cob; transmission = 1; count = 0; objects = os })
          (sdo1 node map_index 0 (u8 (length os)) ∷ sdo4 node comm_index 1 cob ∷ [])
        ≡ record { cob_id = cob; transmission = 1; count = length os; objects = os }
  unfolding download_all written
  enable-download cob os apart comm_small map_small id some_object few = ground (
    arith,
    download-sdo1 (record { cob_id = 0x80000000 + cob; transmission = 1; count = 0; objects = os })
        map_index 0 (u8 (length os)) map_small,
    download-sdo4
        (record { cob_id = 0x80000000 + cob; transmission = 1; count = length os; objects = os })
        comm_index 1 cob comm_small (omega arith),
  )

  -- The frames of one mapping, received by a drive in any state.
  pub setup_pdo_mapping-download :
      (p : Pdo) (cob_base : ℕ) (os : List ℕ)
      → comm_index ≢ map_index
      → comm_index < 65536
      → map_index < 65536
      → cob_base + node < 2048
      → 0 < length os
      → length os < 255
      → All (λ o. o < 4294967296) os
      → download_all node comm_index map_index p
          (setup_pdo_mapping node comm_index map_index cob_base os)
        ≡ record { cob_id = cob_base + node; transmission = 1; count = length os; objects = os }
  unfolding setup_pdo_mapping download_all
  setup_pdo_mapping-download p cob_base os apart comm_small map_small id some_object few words =
      let cob : ℕ = cob_base + node in
      let q : Pdo = record {
        cob_id = 0x80000000 + cob;
        transmission = 1;
        count = 0;
        objects = [];
      } in
      let last : List Frame =
        sdo1 node map_index 0 (u8 (length os)) ∷ sdo4 node comm_index 1 cob ∷ [] in
      ap
        (λ (r : Pdo).
          download_all node comm_index map_index r (map_objects node map_index 1 os ++ last))
        (disable-download p cob apart comm_small map_small id)
      ∙ download_all-append q (map_objects node map_index 1 os) last
      ∙ ap (λ (r : Pdo). download_all node comm_index map_index r last)
          (map_objects-download q 1 os apart map_small (ground arith) refl (omega arith)
            (omega arith) words)
      ∙ enable-download cob os apart comm_small map_small id some_object few

  -- Frames for other indices change nothing.
  map_objects-other :
      (p : Pdo) (other sub : ℕ) (os : List ℕ)
      → other < 65536
      → other ≢ comm_index
      → other ≢ map_index
      → All (λ o. o < 4294967296) os
      → download_all node comm_index map_index p (map_objects node other sub os) ≡ p
  unfolding download_all map_objects written
  map_objects-other p other sub [] small c m words = refl
  map_objects-other p other sub (o ∷ os) small c m words =
      ap
        (λ (r : Pdo).
          download_all node comm_index map_index r (map_objects node other (u8 (sub + 1)) os))
        (ground (arith, download-sdo4 p other sub o small))
      ∙ map_objects-other p other (u8 (sub + 1)) os small c m words.1

  pub setup_pdo_mapping-other :
      (p : Pdo) (other_comm other_map cob_base : ℕ) (os : List ℕ)
      → other_comm < 65536
      → other_map < 65536
      → cob_base + node < 2048
      → other_comm ≢ comm_index
      → other_comm ≢ map_index
      → other_map ≢ comm_index
      → other_map ≢ map_index
      → All (λ o. o < 4294967296) os
      → download_all node comm_index map_index p
          (setup_pdo_mapping node other_comm other_map cob_base os)
        ≡ p
  unfolding setup_pdo_mapping download_all written
  setup_pdo_mapping-other p oc om cob_base os oc_small om_small id cc' cm mc mm words =
      let cob : ℕ = cob_base + node in
      let last : List Frame = sdo1 node om 0 (u8 (length os)) ∷ sdo4 node oc 1 cob ∷ [] in
      ap (λ (r : Pdo). download_all node comm_index map_index r (map_objects node om 1 os ++ last))
        (ground (
          arith,
          download-sdo4 p oc 1 (0x80000000 + cob) oc_small (omega arith),
          download-sdo1 p oc 2 1 oc_small,
          download-sdo1 p om 0 0 om_small,
        ))
      ∙ download_all-append p (map_objects node om 1 os) last
      ∙ ap (λ (r : Pdo). download_all node comm_index map_index r last)
          (map_objects-other p om 1 os om_small mc mm words)
      ∙ ground (
        arith,
        download-sdo1 p om 0 (u8 (length os)) om_small,
        download-sdo4 p oc 1 cob oc_small (omega arith),
      )
