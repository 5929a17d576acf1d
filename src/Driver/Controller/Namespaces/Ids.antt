-- ===== src/Driver/Controller/Namespaces/Ids.antt =====
-- The IDs of the volumes of namespaces, from `createEFSNSVolume` to `deleteEFSNSVolume`.
use aws_efs_csi_driver.Prelude.{
  false, ◌≡◌, refl, inl, inr, Option, none, some, GoString, codes, is_empty, Map, Lacks,
  contains_str, Result, ok, err, Bool-cases, ok-injective, sym, ◌∙◌, ap, subst, arith,
}
use aws_efs_csi_driver.Driver.Action.{continue-eq-ok, pure_step}
use aws_efs_csi_driver.Driver.Status.{DriverError}
use aws_efs_csi_driver.EfsNs.Errors.{GoError, plain}
use aws_efs_csi_driver.EfsNs.FileSystem.{FileSystemInfo, FileSystemOptions, validate_options}
use aws_efs_csi_driver.EfsNs.VolumeId.{
  VolumeId, volume_id_string, volume_id_separator, parse_efsns_volume_id,
}
use aws_efs_csi_driver.EfsNs.VolumeId.RoundTrip.{IsPrintable, parse-volume_id_string}
use aws_efs_csi_driver.Driver.Controller.{
  NamespaceManager, Driver, CreateRequest, Volume, get_cloud, parameter,
}
use aws_efs_csi_driver.Driver.Controller.Parameters.Namespaces.{
  validate_namespace_name, parse_storage_class,
}
use aws_efs_csi_driver.Driver.Controller.Parameters.Names.{
  IsNamespaceName, validate_namespace_name-IsNamespaceName,
}
use aws_efs_csi_driver.Driver.Controller.Namespaces
use aws_efs_csi_driver.Driver.Controller.Namespaces.{
  NamespaceRequest, namespace_parameter, checked_namespace_request, create_efsns_volume,
}

-- What has been found of a request for a namespace.
pub record IsCheckedRequest (params : Map GoString) (r : NamespaceRequest) : Type 0 where
  pub of_parameters : namespace_parameter params ≡ ok r.wanted_namespace
  pub namespace_good : IsNamespaceName r.wanted_namespace
  pub cluster_of_parameters : r.wanted_cluster ≡ parameter (codes "clusterId") params
  pub cluster_there : is_empty r.wanted_cluster ≡ false
  pub options_of_parameters : parse_storage_class params ≡ ok r.wanted_options

non_empty-there :
    (k : GoString) (params : Map GoString) (value : GoString)
    → Namespaces.non_empty_parameter k params ≡ ok value
    → (value ≡ parameter k params) × (is_empty value ≡ false)
non_empty-there k params value e = elim (Bool-cases (is_empty (parameter k params))) [
  | inl f ↦ absurd (ground (arith, f, e))
  | inr f ↦
      let same = ok-injective (rw f at e) in (sym same, subst (λ v. is_empty v ≡ false) same f)
]

abbrev first : {A W : Type 0} {r s : Result DriverError A × W} → r ≡ s → r.0 ≡ s.0
first e = ap (λ x. x.0) e

checked_namespace_request-IsCheckedRequest :
    {W : Type 0} (d : Driver W) (params : Map GoString) (w v : W) (r : NamespaceRequest)
    → checked_namespace_request d params w ≡ (ok r, v)
    → IsCheckedRequest params r
unfolding checked_namespace_request
checked_namespace_request-IsCheckedRequest d params w v r e =
    let (namespace, w1, en, s) = continue-eq-ok (pure_step (namespace_parameter params) w) _ e in
    let (cluster, w2, ec, t) =
      continue-eq-ok (pure_step (Namespaces.non_empty_parameter (codes "clusterId") params) w1) _
        s in
    let (_, w3, ev, u) = continue-eq-ok (pure_step (validate_namespace_name namespace) w2) _ t in
    let (options, w4, eo, x) = continue-eq-ok (pure_step (parse_storage_class params) w3) _ u in
    let (_, w5, ea, y) =
      continue-eq-ok (pure_step (Namespaces.or_invalid (validate_options options)) w4) _ x in
    let there = non_empty-there (codes "clusterId") params cluster (first ec) in
    subst (IsCheckedRequest params) (ok-injective (first y)) (record {
      of_parameters = first en;
      namespace_good = validate_namespace_name-IsNamespaceName namespace (first ev);
      cluster_of_parameters = there.0;
      cluster_there = there.1;
      options_of_parameters = first eo;
    })

-- The IDs that AWS gives to file systems.
pub record IsFileSystemId (id : GoString) : Type 0 where
  pub there : is_empty id ≡ false
  pub no_colon : Lacks b':' id

-- The manager has answered the file system of the volume, for its namespace and the options of the
-- parameters.
pub record IsAnswered {W : Type 0} (d : Driver W) (params : Map GoString) (id : VolumeId)
    : Type 0 where
  pub manager : NamespaceManager W
  pub is_manager : d.namespace_manager ≡ some manager
  pub asked_options : FileSystemOptions
  pub of_class : parse_storage_class params ≡ ok asked_options
  pub info : FileSystemInfo
  pub before : W
  pub after : W
  pub answers :
      manager.create_or_get_file_system id.namespace asked_options before ≡ (ok info, after)
  pub same_id : id.file_system_id ≡ info.file_system_id

-- What the manager promises of the file systems that it answers.
abbrev pub AnswersIds : {W : Type 0} → Driver W → Type 0
AnswersIds {W} d =
    (m : NamespaceManager W) (namespace : GoString) (o : FileSystemOptions) (i : FileSystemInfo)
    (w v : W)
    → d.namespace_manager ≡ some m
    → m.create_or_get_file_system namespace o w ≡ (ok i, v)
    → IsFileSystemId i.file_system_id

abbrev again : Result DriverError FileSystemInfo → Result GoError FileSystemInfo
again (ok i) = ok i
again (err e) = err plain

answer-Id :
    {W : Type 0} (d : Driver W) (r : Result GoError FileSystemInfo × W) (i : FileSystemInfo) (v : W)
    → Namespaces.answer_of d r ≡ (ok i, v)
    → r ≡ (ok i, v)
answer-Id d (ok j, w) i v e = ap (λ (x : Result DriverError FileSystemInfo × _). (again x.0, x.1)) e
answer-Id d (err x, w) i v e = absurd (cc)

ask-Answered :
    {W : Type 0} (d : Driver W) (params : Map GoString) (m : Option (NamespaceManager W))
    (r : NamespaceRequest) (i : FileSystemInfo) (w v : W)
    → parse_storage_class params ≡ ok r.wanted_options
    → d.namespace_manager ≡ m
    → Namespaces.ask_manager d m r w ≡ (ok i, v)
    → IsAnswered d params (record {
      namespace = r.wanted_namespace;
      file_system_id = i.file_system_id;
      cluster_id = r.wanted_cluster;
    })
ask-Answered d params none r i w v o em e = absurd (cc)
ask-Answered d params (some m) r i w v o em e = record {
  manager = m;
  is_manager = em;
  asked_options = r.wanted_options;
  of_class = o;
  info = i;
  before = w;
  after = v;
  answers = answer-Id d (m.create_or_get_file_system r.wanted_namespace r.wanted_options w) i v e;
  same_id = refl;
}

answered-Id :
    {W : Type 0} (d : Driver W) (params : Map GoString) (id : VolumeId)
    → AnswersIds d
    → IsAnswered d params id
    → IsFileSystemId id.file_system_id
answered-Id d params id h a =
    subst IsFileSystemId (sym a.same_id)
      (h a.manager id.namespace a.asked_options a.info a.before a.after a.is_manager a.answers)

-- The volume that `CreateVolume` answers for a namespace, whose cluster ID holds no "::", where
-- the manager answers file systems with IDs that are not empty and hold no colon: its ID parses
-- to the namespace of the parameters, which is a valid name, to the ID of the file system that the
-- manager answered when it was asked for that namespace with the options of the parameters, and to
-- the cluster ID of the parameters.
pub create_efsns_volume-parses :
    {W : Type 0} (d : Driver W) (req : CreateRequest) (w u : W) (v : Volume)
    → AnswersIds d
    → contains_str (parameter (codes "clusterId") req.parameters) volume_id_separator ≡ false
    → create_efsns_volume d req w ≡ (ok v, u)
    → (id : VolumeId) × (parse_efsns_volume_id v.volume_id ≡ ok id)
      × (namespace_parameter req.parameters ≡ ok id.namespace)
      × IsNamespaceName id.namespace
      × IsAnswered d req.parameters id
      × (id.cluster_id ≡ parameter (codes "clusterId") req.parameters)
unfolding create_efsns_volume
create_efsns_volume-parses d req w u v h sep e =
    let (r, w1, er, s) = continue-eq-ok (checked_namespace_request d req.parameters w) _ e in
    let (access, w2, ea, t) = continue-eq-ok (get_cloud d req.secrets w1) _ s in
    let (i, w3, ei, x) = continue-eq-ok (Namespaces.ask_manager d d.namespace_manager r w2) _ t in
    let checked = checked_namespace_request-IsCheckedRequest d req.parameters w w1 r er in
    let asked =
      ask-Answered d req.parameters d.namespace_manager r i w2 w3 checked.options_of_parameters refl
        ei in
    let id : VolumeId = record {
      namespace = r.wanted_namespace;
      file_system_id = i.file_system_id;
      cluster_id = r.wanted_cluster;
    } in
    let good = answered-Id d req.parameters id h asked in
    let text : volume_id_string id ≡ v.volume_id =
      ap (λ (a : Volume). a.volume_id) (ok-injective (first x)) in
    (
      id,
      ap parse_efsns_volume_id (sym text)
          ∙ parse-volume_id_string id (printable r i checked good sep),
      checked.of_parameters,
      checked.namespace_good,
      asked,
      checked.cluster_of_parameters,
    )
  where
    printable :
        (r : NamespaceRequest) (i : FileSystemInfo)
        → IsCheckedRequest req.parameters r
        → IsFileSystemId i.file_system_id
        → contains_str (parameter (codes "clusterId") req.parameters) volume_id_separator ≡ false
        → IsPrintable (record {
          namespace = r.wanted_namespace;
          file_system_id = i.file_system_id;
          cluster_id = r.wanted_cluster;
        })
    printable r i checked good sep = record {
      namespace_there = checked.namespace_good.there;
      file_system_there = good.there;
      cluster_there = checked.cluster_there;
      namespace_plain = checked.namespace_good.plain;
      file_system_plain = good.no_colon;
      cluster_plain =
          subst (λ c. contains_str c volume_id_separator ≡ false)
            (sym checked.cluster_of_parameters) sep;
    }
