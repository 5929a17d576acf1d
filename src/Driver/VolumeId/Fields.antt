-- ===== src/Driver/VolumeId/Fields.antt =====
-- What `parseVolumeId` of pkg/driver/node.go makes of a volume ID.
use aws_efs_csi_driver.Prelude.{
  ◌≡◌, refl, ap, ◌∙◌, true, List, [], ◌∷◌, ◌++◌, arith, GoString, codes, has_prefix, split,
  split_part, split_whole, Lacks-contains_str, Lacks, ok, err,
}
use aws_efs_csi_driver.Driver.Status.{status, invalid_argument}
use aws_efs_csi_driver.EfsNs.VolumeId.{is_efsns_volume_id}
use aws_efs_csi_driver.Driver.VolumeId.{
  ParsedVolume, is_valid_file_system_id, is_valid_access_point_id, parse_volume_id,
}

abbrev colon : GoString
colon = codes ":"

next :
    (part rest : GoString) (parts : List GoString)
    → Lacks b':' part
    → split rest colon ≡ parts
    → split (part ++ (colon ++ rest)) colon ≡ part ∷ parts
next part rest parts h e = split_part b':' [] part rest h ∙ ap (λ ps. part ∷ ps) e

last : (part : GoString) → Lacks b':' part → split part colon ≡ part ∷ []
last part h = split_whole b':' [] part (Lacks-contains_str b':' [] part h)

prefix-append : (p s t : GoString) → has_prefix s p ≡ true → has_prefix (s ++ t) p ≡ true
prefix-append [] s t h = refl
prefix-append (c ∷ p) [] t h = cc
prefix-append (c ∷ p) (x ∷ s) t h = ground (arith, prefix-append p s t)

-- The three spellings of a volume without path and access point mean the same: `fs-…`, `fs-…:`
-- and `fs-…::` all parse to the file system alone.
parse-bare :
    (f : GoString)
    → is_valid_file_system_id f ≡ true
    → Lacks b':' f
    → let v : ParsedVolume = record { fsid = f; subpath = []; apid = [] } in
      (parse_volume_id f ≡ ok v)
      × (parse_volume_id (f ++ codes ":") ≡ ok v)
      × (parse_volume_id (f ++ codes "::") ≡ ok v)
unfolding parse_volume_id
parse-bare f h l = (
  ground (arith, last f l),
  ground (arith, next f [] ([] ∷ []) l (last [] tt), prefix-append (codes "fs-") f (codes ":") h),
  ground (
    arith,
    next f (codes ":") ([] ∷ [] ∷ []) l (next [] [] ([] ∷ []) tt (last [] tt)),
    prefix-append (codes "fs-") f (codes "::") h,
  ),
)

-- The form that the controller gives to the ID of an access point volume: with valid IDs of the
-- file system and the access point, which hold no colon, it parses to the two, with no path.
pub parse-access_point_volume :
    (f a : GoString)
    → is_valid_file_system_id f ≡ true
    → is_valid_access_point_id a ≡ true
    → Lacks b':' f
    → Lacks b':' a
    → parse_volume_id (f ++ (codes "::" ++ a)) ≡ ok (record { fsid = f; subpath = []; apid = a })
unfolding parse_volume_id
parse-access_point_volume f [] hf ha lf la = cc
parse-access_point_volume f (x ∷ a) hf ha lf la = ground (
  arith,
  next f (colon ++ (x ∷ a)) ([] ∷ (x ∷ a) ∷ []) lf
      (next [] (x ∷ a) ((x ∷ a) ∷ []) tt (last (x ∷ a) la)),
  prefix-append (codes "fs-") f (codes "::" ++ (x ∷ a)) hf,
)

-- No volume ID is of both kinds: an efs-ns volume ID is refused by `parseVolumeId`.
pub parse_volume_id-efsns :
    (s : GoString) → is_efsns_volume_id s ≡ true → parse_volume_id s ≡ err (status invalid_argument)
unfolding parse_volume_id is_efsns_volume_id
parse_volume_id-efsns [] h = cc
parse_volume_id-efsns (a ∷ []) h = ground arith
parse_volume_id-efsns (a ∷ b ∷ s) h = ground arith
