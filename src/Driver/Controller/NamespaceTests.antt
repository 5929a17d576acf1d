-- ===== src/Driver/Controller/NamespaceTests.antt =====
-- A volume of a namespace, created by a concrete driver.
use aws_efs_csi_driver.Prelude.{
  true, ◌≡◌, refl, [], ◌∷◌, Option, none, some, codes, pos, Result, ok, ap, ok-injective, subst,
  arith, to_lower, sym,
}
use aws_efs_csi_driver.Driver.Action.{continue}
use aws_efs_csi_driver.EfsNs.Errors.{GoError}
use aws_efs_csi_driver.EfsNs.FileSystem.{FileSystemInfo, available, validate_options}
use aws_efs_csi_driver.EfsNs.VolumeId.{VolumeId, volume_id_string, parse_efsns_volume_id}
use aws_efs_csi_driver.Driver.Controller.{
  NamespaceManager, Driver, CreateRequest, Volume, get_cloud, cross_account_dns, parameter,
}
use aws_efs_csi_driver.Driver.Controller.Parameters.Namespaces.{
  validate_namespace_name, parse_storage_class,
}
use aws_efs_csi_driver.Driver.Controller.Parameters.Names.{IsNamespaceName}
use aws_efs_csi_driver.Driver.Controller.Namespaces.{
  namespace_parameter, checked_namespace_request, create_efsns_volume,
}
use aws_efs_csi_driver.Driver.Controller.Namespaces.Ids.{
  AnswersIds, IsAnswered, IsFileSystemId, create_efsns_volume-parses,
}
use aws_efs_csi_driver.Driver.Controller.Tests.{World, driver}

abbrev info : FileSystemInfo
info = record {
  file_system_id = codes "fs-1";
  namespace = codes "web";
  cluster_id = codes "main";
  created_at = 3;
  mount_targets = [];
  security_group_id = [];
  state = available;
  pvc_count = 0;
  tags = [];
  performance_mode = [];
  throughput_mode = [];
  encrypted = true;
}

abbrev manager : NamespaceManager World
manager = record {
  create_or_get_file_system = λ namespace o w. (ok info, w);
  delete_for_namespace = λ namespace id w. (none, w);
  file_system_info = λ namespace w. (ok info, w);
}

abbrev managed : Driver World
managed = record driver { namespace_manager = some manager }

abbrev request : CreateRequest
request = record {
  name = codes "pv-1";
  required_bytes = pos 1;
  capabilities = [];
  parameters = (codes "namespace", codes "web") ∷ (codes "clusterId", codes "main") ∷ [];
  secrets = [];
}

abbrev volume : Volume
volume = record {
  capacity_bytes = pos 1;
  volume_id = codes "efs-ns::web::fs-1::main";
  volume_context = (codes "encryptInTransit", codes "true") ∷ [];
}

created : create_efsns_volume managed request (none, [], []) ≡ (ok volume, (none, [], []))
unfolding create_efsns_volume continue checked_namespace_request namespace_parameter
    validate_namespace_name to_lower parse_storage_class validate_options get_cloud
    cross_account_dns volume_id_string
created = refl

abbrev or_manager : Option (NamespaceManager World) → NamespaceManager World
or_manager none = manager
or_manager (some m) = m

managed-AnswersIds : AnswersIds managed
managed-AnswersIds m namespace o i w v em e = of_manager m em e
  where
    info_Id : (i : FileSystemInfo) → info ≡ i → IsFileSystemId i.file_system_id
    info_Id i e =
        subst (λ (j : FileSystemInfo). IsFileSystemId j.file_system_id) e
          (record { there = refl; no_colon = omega arith })

    of_manager :
        (m : NamespaceManager World)
        → ◌≡◌ {A = Option (NamespaceManager World)} (some manager) (some m)
        → m.create_or_get_file_system namespace o w ≡ (ok i, v)
        → IsFileSystemId i.file_system_id
    of_manager m em e = info_Id i (
        ok-injective (
          ap (λ (x : Result GoError FileSystemInfo × World). x.0)
            (subst
              (λ (n : NamespaceManager World).
                n.create_or_get_file_system namespace o w ≡ (ok i, v))
              (sym (ap or_manager em)) e)))

create_efsns_volume-parses_example :
    (id : VolumeId) × (parse_efsns_volume_id volume.volume_id ≡ ok id)
    × (namespace_parameter request.parameters ≡ ok id.namespace)
    × IsNamespaceName id.namespace
    × IsAnswered managed request.parameters id
    × (id.cluster_id ≡ parameter (codes "clusterId") request.parameters)
create_efsns_volume-parses_example =
    create_efsns_volume-parses managed request (none, [], []) (none, [], []) volume
      managed-AnswersIds refl created
