-- ===== src/Driver/Node/Options.antt =====
-- Which mount options `NodePublishVolume` of pkg/driver/node.go arrives at.
use aws_efs_csi_driver.Prelude.{
  ◌≡◌, refl, Bool, true, false, not, ◌&&◌, ◌||◌, List, [], ◌∷◌, ◌++◌, arith, GoString, codes,
  str_eq, str_eq_refl, has_prefix, is_empty, contains, contains-append_if, append_if, Bool-cases,
  inl, inr, reject-ok, drop, to_lower, Map, ok, >>=-eq-ok, ok-injective, subst, sym, ap,
  if◌then◌else◌, All, All-append,
}
use aws_efs_csi_driver.Driver.VolumeId.{ParsedVolume}
use aws_efs_csi_driver.EfsNs.VolumeId.{is_efsns_volume_id}
use aws_efs_csi_driver.Driver.Node.{
  ContextOptions, default_context, mount_target_option, context_entry, scan_context, resolve_volume,
  access_point_option, tls, base_options, with_access_point, with_tls, accesspoint_is,
  add_lower_flag, add_flag, add_flags, PublishRequest, MountCall, checked_mount, mount_call,
}

-- Rules for invariants of the two loops.
module _ (P : List GoString → Type 0) (efsns : Bool) (apid : GoString) (encrypt : Bool)
    (step : (f : GoString) (o o' : List GoString)
      → add_flag efsns apid encrypt f o ≡ ok o'
      → P o
      → P o') where
  add_flags_induction :
      (fs o o' : List GoString) → add_flags efsns apid encrypt fs o ≡ ok o' → P o → P o'
  unfolding add_flags
  add_flags_induction [] o o' h p = subst P (ok-injective h) p
  add_flags_induction (f ∷ fs) o o' h p =
      let (t, e, r) = >>=-eq-ok (add_flag efsns apid encrypt f o) _ h in
      add_flags_induction fs t o' r (step f o t e p)

module _ (P : ContextOptions → Type 0) (context : Map GoString)
    (step : (k v : GoString) (s s' : ContextOptions)
      → context_entry context k v s ≡ ok s'
      → P s
      → P s') where
  scan_context_induction :
      (rest : Map GoString) (s s' : ContextOptions)
      → scan_context context rest s ≡ ok s'
      → P s
      → P s'
  unfolding scan_context
  scan_context_induction [] s s' h p = subst P (ok-injective h) p
  scan_context_induction ((k, v) ∷ rest) s s' h p =
      let (t, e, r) = >>=-eq-ok (context_entry context k v s) _ h in
      scan_context_induction rest t s' r (step k v s t e p)

-- The context adds options for mount targets alone.
abbrev IsForMountTarget : GoString → Type 0
IsForMountTarget o = has_prefix o (codes "mounttargetip=") ≡ true

abbrev HasMountTargets : ContextOptions → Type 0
HasMountTargets s = All IsForMountTarget s.mount_options

context_entry-HasMountTargets :
    (context : Map GoString) (k v : GoString) (s s' : ContextOptions)
    → context_entry context k v s ≡ ok s'
    → HasMountTargets s
    → HasMountTargets s'
unfolding context_entry mount_target_option
context_entry-HasMountTargets context k v s s' h p =
    ground (arith, All-append IsForMountTarget s.mount_options (mount_target_option context ∷ []) p)

pub scan_context-HasMountTargets :
    (context : Map GoString) (s : ContextOptions)
    → scan_context context context default_context ≡ ok s
    → HasMountTargets s
scan_context-HasMountTargets context s h =
    scan_context_induction HasMountTargets context (context_entry-HasMountTargets context) context
      default_context s h tt

mount_targets_no_tls : (os : List GoString) → All IsForMountTarget os → contains os tls ≡ false
mount_targets_no_tls [] h = refl
mount_targets_no_tls ([] ∷ os) h = cc
mount_targets_no_tls ((c ∷ o) ∷ os) h = ground (arith, mount_targets_no_tls os h.1)

with_access_point-tls :
    (apid : GoString) (os : List GoString)
    → contains (with_access_point apid os) tls ≡ (contains os tls || not (is_empty apid))
unfolding with_access_point
with_access_point-tls apid os = rw contains-append_if (rw contains-append_if (ground arith))

with_tls-tls :
    (encrypt : Bool) (os : List GoString)
    → contains (with_tls encrypt os) tls ≡ (encrypt || contains os tls)
unfolding with_tls
with_tls-tls encrypt os = rw contains-append_if (ground arith)

base_options-tls :
    (s : ContextOptions) (apid : GoString) (readonly : Bool)
    → HasMountTargets s
    → contains (base_options s apid readonly) tls ≡ (s.encrypt_in_transit || not (is_empty apid))
unfolding base_options
base_options-tls s apid readonly h = rw contains-append_if (
    rw contains-append_if (
      rw (with_tls-tls, with_access_point-tls, mount_targets_no_tls s.mount_options h)
        (ground arith)))

-- What a flag that is accepted has passed, and what it adds.
record IsAccepted (efsns : Bool) (apid : GoString) (encrypt : Bool) (f : GoString)
    (o o' : List GoString) : Type 0 where
  not_for_efsns : (has_prefix f accesspoint_is && efsns) ≡ false
  same_point :
      (has_prefix f accesspoint_is && (not (is_empty apid) && not (str_eq (drop 12 f) apid)))
      ≡ false
  same_tls : (str_eq f tls && not encrypt) ≡ false
  result :
      (if has_prefix f (codes "awscredsuri") then o else append_if (not (contains o f)) f o) ≡ o'

accepted :
    (efsns : Bool) (apid : GoString) (encrypt : Bool) (f : GoString) (o o' : List GoString)
    → add_lower_flag efsns apid encrypt f o ≡ ok o'
    → IsAccepted efsns apid encrypt f o o'
unfolding add_lower_flag
accepted efsns apid encrypt f o o' h =
    let (a, i) = reject-ok _ _ _ h in
    let (b, j) = reject-ok _ _ _ i in
    let (c, k) = reject-ok _ _ _ j in
    record { not_for_efsns = a; same_point = b; same_tls = c; result = ok-injective k }

tls_stays :
    (encrypt point : Bool) (f : GoString) (o : List GoString)
    → (str_eq f tls && not encrypt) ≡ false
    → contains o tls ≡ (encrypt || point)
    → contains (append_if (not (contains o f)) f o) tls ≡ (encrypt || point)
tls_stays encrypt point f o h p = rw contains-append_if (rw p (ground arith))

add_flag-tls :
    (efsns : Bool) (apid : GoString) (encrypt : Bool) (f : GoString) (o o' : List GoString)
    → add_flag efsns apid encrypt f o ≡ ok o'
    → contains o tls ≡ (encrypt || not (is_empty apid))
    → contains o' tls ≡ (encrypt || not (is_empty apid))
unfolding add_flag
add_flag-tls efsns apid encrypt f o o' h p =
    let a = accepted efsns apid encrypt (to_lower f) o o' h in
    subst (λ os. contains os tls ≡ (encrypt || not (is_empty apid))) a.result
      (elim (Bool-cases (has_prefix (to_lower f) (codes "awscredsuri"))) [
        | inl skip ↦ rw skip p
        | inr take ↦ rw take (tls_stays encrypt (not (is_empty apid)) (to_lower f) o a.same_tls p)
      ])

-- A flag takes no option away.
add_flag_keeps :
    (x : GoString) (efsns : Bool) (apid : GoString) (encrypt : Bool) (f : GoString)
    (o o' : List GoString)
    → add_flag efsns apid encrypt f o ≡ ok o'
    → contains o x ≡ true
    → contains o' x ≡ true
unfolding add_flag
add_flag_keeps x efsns apid encrypt f o o' h p =
    let a = accepted efsns apid encrypt (to_lower f) o o' h in
    subst (λ os. contains os x ≡ true) a.result
      (elim (Bool-cases (has_prefix (to_lower f) (codes "awscredsuri"))) [
        | inl skip ↦ rw skip p
        | inr take ↦ rw take (rw contains-append_if (rw p refl))
      ])

base_options_point :
    (s : ContextOptions) (apid : GoString) (readonly : Bool)
    → is_empty apid ≡ false
    → contains (base_options s apid readonly) (access_point_option apid) ≡ true
unfolding base_options with_tls with_access_point
base_options_point s apid readonly h = simp (contains-append_if, h, str_eq_refl) (ground arith)

base_options_flags :
    (s : ContextOptions) (apid : GoString)
    → (contains (base_options s apid true) (codes "ro") ≡ true)
      × ((readonly : Bool)
          → s.cross_account_dns_enabled ≡ true
          → contains (base_options s apid readonly) (codes "crossaccount") ≡ true)
unfolding base_options
base_options_flags s apid = (
  rw contains-append_if (ground arith),
  λ readonly h. rw contains-append_if (rw contains-append_if (ground arith)),
)

-- What the options of a mount say of the request: `s` are the settings of its volume context, `p`
-- is what its volume ID names.
pub record MeetsRequest (req : PublishRequest) (s : ContextOptions) (p : ParsedVolume)
    (options : List GoString) : Type 0 where
  pub tls_exactly : contains options tls ≡ (s.encrypt_in_transit || not (is_empty p.apid))
  pub access_point : (is_empty p.apid || contains options (access_point_option p.apid)) ≡ true
  pub read_only : (not req.readonly || contains options (codes "ro")) ≡ true
  pub cross_account :
      (not s.cross_account_dns_enabled || contains options (codes "crossaccount")) ≡ true

-- The settings and the volume of a request.
pub record Reads (req : PublishRequest) (s : ContextOptions) (p : ParsedVolume) : Type 0 where
  pub settings : scan_context req.volume_context req.volume_context default_context ≡ ok s
  pub volume : resolve_volume req.volume_id s.subpath ≡ ok p

needed : (b c : Bool) → (b ≡ false → c ≡ true) → (b || c) ≡ true
needed true c h = refl
needed false c h = h refl

not-false : {b : Bool} → not b ≡ false → b ≡ true
not-false {b} h = ground arith

meets :
    (req : PublishRequest) (s : ContextOptions) (p : ParsedVolume) (flags options : List GoString)
    → Reads req s p
    → add_flags
        (is_efsns_volume_id req.volume_id)
        p.apid
        s.encrypt_in_transit
        flags
        (base_options s p.apid req.readonly)
      ≡ ok options
    → MeetsRequest req s p options
meets req s p flags options r h = record {
  tls_exactly =
      add_flags_induction _ efsns p.apid s.encrypt_in_transit
        (add_flag-tls efsns p.apid s.encrypt_in_transit) flags base options h
        (base_options-tls s p.apid req.readonly
          (scan_context-HasMountTargets req.volume_context s r.settings));
  access_point =
      needed (is_empty p.apid) _
        (λ e. keeps (access_point_option p.apid) (base_options_point s p.apid req.readonly e));
  read_only =
      needed (not req.readonly) _
        (λ e. keeps (codes "ro") (rw (not-false e) ((base_options_flags s p.apid).0)));
  cross_account = needed (not s.cross_account_dns_enabled) _ (λ e.
      keeps (codes "crossaccount") ((base_options_flags s p.apid).1 req.readonly (not-false e)));
}
  where
    efsns : Bool
    efsns = is_efsns_volume_id req.volume_id

    base : List GoString
    base = base_options s p.apid req.readonly

    keeps : (x : GoString) → contains base x ≡ true → contains options x ≡ true
    keeps x =
        add_flags_induction (λ os. contains os x ≡ true) efsns p.apid s.encrypt_in_transit
          (add_flag_keeps x efsns p.apid s.encrypt_in_transit) flags base options h

-- If a volume is to be mounted, TLS is among the options exactly when encryption in transit is on
-- or the volume ID names an access point (one that only a mount flag names does not count); the
-- access point of the volume ID, the read-only flag and the cross-account setting of the request
-- are among them too; and the source is the file system with the path.
pub mount_call-MeetsRequest :
    (req : PublishRequest) (call : MountCall)
    → mount_call req ≡ ok call
    → (s : ContextOptions) × (p : ParsedVolume) × Reads req s p
      × MeetsRequest req s p call.options
      × (call.source ≡ p.fsid ++ (codes ":" ++ p.subpath))
unfolding mount_call
mount_call-MeetsRequest req call h =
    let (m, e, h1) = >>=-eq-ok (checked_mount req) _ h in
    let (s, settings, h2) =
      >>=-eq-ok (scan_context req.volume_context req.volume_context default_context) _ h1 in
    let (p, volume, h3) = >>=-eq-ok (resolve_volume req.volume_id s.subpath) _ h2 in
    let (options, o, h4) = >>=-eq-ok (add_flags _ _ _ m.mount_flags _) _ h3 in
    let c = ok-injective h4 in
    let r : Reads req s p = record { settings = settings; volume = volume } in
    (
      s,
      p,
      r,
      subst (λ c. MeetsRequest req s p c.options) c (meets req s p m.mount_flags options r o),
      sym (ap (λ (c : MountCall). c.source) c),
    )
