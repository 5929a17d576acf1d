-- ===== src/EfsNs/VolumeId/RoundTrip.antt =====
-- Printing and parsing of the efs-ns volume IDs of pkg/driver/efs-ns/types.go.
use aws_efs_csi_driver.Prelude.{
  ◌≡◌, refl, ap, ◌∙◌, true, false, List, [], ◌∷◌, ◌++◌, arith, GoString, codes, eq_of_str_eq,
  str_eq_refl, is_empty, split, join, join-split, split_part, split_whole, contains_str, Lacks, ok,
}
use aws_efs_csi_driver.EfsNs.VolumeId.{
  VolumeId, volume_id_separator, volume_id_prefix, volume_id_string, parse_parts,
  parse_efsns_volume_id, is_efsns_volume_id,
}

-- No part of the volume ID is empty.
pub record HasParts (v : VolumeId) : Type 0 where
  pub namespace_there : is_empty v.namespace ≡ false
  pub file_system_there : is_empty v.file_system_id ≡ false
  pub cluster_there : is_empty v.cluster_id ≡ false

-- A volume ID whose parts can be told apart in its text.
pub record IsPrintable (v : VolumeId) : Type 0 where
  pub namespace_there : is_empty v.namespace ≡ false
  pub file_system_there : is_empty v.file_system_id ≡ false
  pub cluster_there : is_empty v.cluster_id ≡ false
  pub namespace_plain : Lacks b':' v.namespace
  pub file_system_plain : Lacks b':' v.file_system_id
  pub cluster_plain : contains_str v.cluster_id volume_id_separator ≡ false

next :
    (part rest : GoString) (parts : List GoString)
    → Lacks b':' part
    → split rest volume_id_separator ≡ parts
    → split (part ++ (volume_id_separator ++ rest)) volume_id_separator ≡ part ∷ parts
next part rest parts h e = split_part b':' (codes ":") part rest h ∙ ap (λ ps. part ∷ ps) e

split-volume_id_string :
    (v : VolumeId)
    → IsPrintable v
    → split (volume_id_string v) volume_id_separator
      ≡ volume_id_prefix ∷ v.namespace ∷ v.file_system_id ∷ v.cluster_id ∷ []
unfolding volume_id_string
split-volume_id_string v h = next volume_id_prefix _ _ (omega arith) (
    next v.namespace _ _ h.namespace_plain (
      next v.file_system_id _ _ h.file_system_plain
        (split_whole b':' (codes ":") v.cluster_id h.cluster_plain)))

-- Parsing the text of a volume ID gives the volume ID back, if no part is empty, namespace and
-- file system hold no colon, and the cluster holds no "::".
pub parse-volume_id_string :
    (v : VolumeId) → IsPrintable v → parse_efsns_volume_id (volume_id_string v) ≡ ok v
unfolding parse_efsns_volume_id volume_id_string
parse-volume_id_string v h =
    ground (arith, split-volume_id_string v h, str_eq_refl volume_id_prefix)

parse_parts-join :
    (ps : List GoString) (v : VolumeId)
    → parse_parts ps ≡ ok v
    → (volume_id_string v ≡ join ps volume_id_separator) × HasParts v
unfolding parse_parts volume_id_string join
parse_parts-join (p ∷ n ∷ f ∷ c ∷ []) v h = ground (arith, eq_of_str_eq p volume_id_prefix)
parse_parts-join _ v h = cc

string_is_efsns : (v : VolumeId) → is_efsns_volume_id (volume_id_string v) ≡ true
unfolding is_efsns_volume_id volume_id_string
string_is_efsns v = refl

-- A text that parses is the text of the volume ID that it parses to, no part of that is empty,
-- and the driver takes the text for an efs-ns volume.
pub volume_id_string-parse :
    (s : GoString) (v : VolumeId)
    → parse_efsns_volume_id s ≡ ok v
    → (volume_id_string v ≡ s) × HasParts v × (is_efsns_volume_id s ≡ true)
unfolding parse_efsns_volume_id
volume_id_string-parse s v h =
    let (e, parts) = parse_parts-join (split s volume_id_separator) v (ground arith) in
    let whole = e ∙ join-split b':' s (codes ":") in (whole, parts, rw whole at (string_is_efsns v))
