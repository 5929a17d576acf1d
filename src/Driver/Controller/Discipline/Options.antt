-- ===== src/Driver/Controller/Discipline/Options.antt =====
-- `CreateVolume` and the options that it makes access points with.
use aws_efs_csi_driver.Prelude.{◌≡◌, Option, none, GoString, ok}
use aws_efs_csi_driver.Cloud.Types.{AccessPointOptions, CloudClient}
use aws_efs_csi_driver.Driver.Controller.{Driver, CreateRequest}
use aws_efs_csi_driver.Driver.Controller.Parameters.{Owner, file_system_parameter, parse_owner}
use aws_efs_csi_driver.Driver.Controller.Parameters.Bounds.{parse_owner-HasRange}
use aws_efs_csi_driver.Driver.Controller.Create.Options.{
  IsAcceptable, EndsBelow, creation_options-IsAcceptable,
}
use aws_efs_csi_driver.Driver.Controller.Service.{create_volume}
use aws_efs_csi_driver.Driver.Controller.Discipline.{CloudRules, DriverRules}
use aws_efs_csi_driver.Driver.Controller.Discipline.Creation.{Computed}
use aws_efs_csi_driver.Driver.Controller.Discipline.Service.{create_volume-KeepsRules}

-- Options that fit the parameters of a request.
abbrev pub FitsRequest : CreateRequest → AccessPointOptions → Type 0
FitsRequest req options =
    (fs : GoString) × (o : Owner) × (file_system_parameter req.parameters ≡ ok fs)
    × (parse_owner req.parameters ≡ ok o)
    × IsAcceptable fs o options

module _ {W : Type 0} (P : Option GoString → W → Type 0) (A C : AccessPointOptions → Type 0)
    (fewer : (o : AccessPointOptions) → C o → A o) where
  CloudRules-fewer : (c : CloudClient W) → CloudRules P A c → CloudRules P C c
  CloudRules-fewer c h = record {
    creates = λ token o w m. h.creates token o w (fewer o m);
    deletes = h.deletes;
    describes = h.describes;
    finds = h.finds;
    lists = h.lists;
    describes_fs = h.describes_fs;
    describes_targets = h.describes_targets;
  }

  DriverRules-fewer : (d : Driver W) → DriverRules P A d → DriverRules P C d
  DriverRules-fewer d h = record {
    cloud_rules = CloudRules-fewer d.cloud h.cloud_rules;
    role_rules = λ role w v c e. CloudRules-fewer c (h.role_rules role w v c e);
    takes_role = h.takes_role;
    host_rules = h.host_rules;
    locks = h.locks;
    times_out = h.times_out;
    unlocks = h.unlocks;
    makes_uuid = h.makes_uuid;
    manager_creates = h.manager_creates;
    manager_deletes = h.manager_deletes;
    tracker_adds = h.tracker_adds;
    tracker_removes = h.tracker_removes;
  }

Computed-FitsRequest :
    {W : Type 0} (d : Driver W) (req : CreateRequest)
    → ((o : Owner) → parse_owner req.parameters ≡ ok o → EndsBelow o)
    → (options : AccessPointOptions) → Computed d req options
    → FitsRequest req options
Computed-FitsRequest d req below options (c, fs, o, v, w, ef, eo, ec) =
    let (u, g, range) = parse_owner-HasRange req.parameters o eo in
    (
      fs,
      o,
      ef,
      eo,
      creation_options-IsAcceptable d c req fs o options v w u g range (below o eo) ec,
    )

-- `CreateVolume`, where the range of groups ends below the largest int64, holds no lock when it
-- returns, errors included, and whatever the rules keep holds of the state it leaves. So it asks
-- for an access point only with no lock held, on the file system of the parameters, with a path of
-- at most 100 bytes and 5 slashes, with the user and the group that the parameters name or one of
-- their range, and with a tag under the key of the tag of the driver.
pub create_volume-FitsRequest :
    {W : Type 0} (P : Option GoString → W → Type 0) (d : Driver W) (req : CreateRequest) (w : W)
    → DriverRules P (FitsRequest req) d
    → ((o : Owner) → parse_owner req.parameters ≡ ok o → EndsBelow o)
    → P none w
    → P none (create_volume d req w).1
create_volume-FitsRequest P d req w h below p =
    create_volume-KeepsRules P d req
      (DriverRules-fewer P (FitsRequest req) (Computed d req) (Computed-FitsRequest d req below) d
        h)
      w p
