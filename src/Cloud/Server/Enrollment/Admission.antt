-- ===== src/Cloud/Server/Enrollment/Admission.antt =====
-- What an enrollment of cloud-infra/internal/enrollment/enrollment.go leaves in the store.
use soul_room_edge_platform.Base.{
  suc, String, ◌≡◌, ◌⊎◌, inl, inr, refl, sym, ap, subst, ◌∙◌, false, Option, none, some, List, [],
  ◌∷◌, ◌==◌, ◌!=◌, arith, Bool-cases, Option-cases,
}
use soul_room_edge_platform.Base.Int.{ℤ}
use soul_room_edge_platform.Base.Dict.{Dict, lookup, insert, lookup-insert}
use soul_room_edge_platform.Cloud.Model.{TenantContext, Time, Json, Device, EnrollmentToken}
use soul_room_edge_platform.Cloud.Store.{Store, Env, save_locked, save_locked-contents, or_default}
use soul_room_edge_platform.Cloud.Store.Tokens.{
  find_token, is_spent, is_mismatch, consume_enrollment_token, with_tokens,
}
use soul_room_edge_platform.Cloud.Store.Devices.{create_device, update_device, save_inventory}
use soul_room_edge_platform.Cloud.Server.{success, Library, Calls}
use soul_room_edge_platform.Cloud.Server.Pilot.Queueing.{Outcome-cases}
use soul_room_edge_platform.Cloud.Server.Protocol.{EnrollmentRequest, EnrollmentResponse}
use soul_room_edge_platform.Cloud.Server.Enrollment.{
  Authority, Certificate, Enrolled, context_of, enrolled_device, certify, admit, enroll,
}

save_inventory-devices :
    (env : Env) (tc : TenantContext) (id : String) (payload : Json) (s : Store)
    → ((save_inventory env tc id payload s).1.contents.devices ≡ s.contents.devices)
      × ((save_inventory env tc id payload s).1.contents.enrollment_tokens
          ≡ s.contents.enrollment_tokens)
unfolding save_inventory save_locked
save_inventory-devices env tc id payload s = (ground arith, ground arith)

update_device_stores :
    (env : Env) (d : Device) (s : Store)
    → (update_device env d s).0 ≡ none
    → (lookup d.id (update_device env d s).1.contents.devices ≡ some d)
      × ((update_device env d s).1.contents.enrollment_tokens ≡ s.contents.enrollment_tokens)
unfolding update_device save_locked
update_device_stores env d s ok =
    (ground (arith, lookup-insert d.id d.id d s.contents.devices), ground arith)

-- A token that was stored under its id and could be used, and is stored with one more use.
pub record IsConsumed (now : Time) (hash sn product_name : String) (s s' : Store) (id : String)
    (t : EnrollmentToken) : Type 0 where
  pub stored : lookup id s.contents.enrollment_tokens ≡ some t
  pub hashed : t.token_hash ≡ hash
  pub live : is_spent now t ≡ false
  pub serial : is_mismatch t.expected_serial sn ≡ false
  pub product : is_mismatch t.expected_product product_name ≡ false
  pub counted :
      lookup id s'.contents.enrollment_tokens ≡ some (record t { used_count = suc t.used_count })

find_token_sound :
    (hash : String) (ids : List String) (ts : Dict EnrollmentToken) (id : String)
    (t : EnrollmentToken)
    → find_token hash ids ts ≡ some (id, t)
    → (lookup id ts ≡ some t) × (t.token_hash ≡ hash)
unfolding find_token
find_token_sound hash [] ts id t e = absurd (ground arith)
find_token_sound hash (i ∷ ids) ts id t e = elim (Option-cases (lookup i ts)) [
  | inl missing ↦ find_token_sound hash ids ts id t (rw (find_token, missing) at e)
  | inr (u, found) ↦ elim (Bool-cases (u.token_hash != hash)) [
    | inl other ↦ find_token_sound hash ids ts id t (rw (find_token, found, other) at e)
    | inr same ↦
        let here : Path (Option (String × EnrollmentToken)) (some (i, u)) (some (id, t)) =
          rw (find_token, found, same) at e in
        let key : i ≡ id = ground arith in
        let value : u ≡ t = ground arith in (rw⁻¹ (key, value) found, rw⁻¹ value (ground arith))
  ]
]

IsConsumed-cases :
    (env : Env) (hash serial product : String) (s : Store)
    → let reply = consume_enrollment_token env hash serial product s in
      (reply.value ≡ none)
      ⊎ ((id : String) × (t : EnrollmentToken) × (reply.value
            ≡ some (record t { used_count = suc t.used_count }))
          × IsConsumed (env.now 0) hash serial product s reply.store id t)
unfolding consume_enrollment_token
IsConsumed-cases env hash serial product s =
    elim (Option-cases (find_token hash env.order s.contents.enrollment_tokens)) [
      | inl missing ↦ inl (rw (consume_enrollment_token, missing) refl)
      | inr ((id, t), found) ↦
          let t' = record t { used_count = suc t.used_count } in
          let ts = insert id t' s.contents.enrollment_tokens in
          let (stored, hashed) =
            find_token_sound hash env.order s.contents.enrollment_tokens id t found in
          elim (Bool-cases (is_spent (env.now 0) t)) [
            | inl spent ↦ inl (ground (arith, found, spent))
            | inr live ↦ elim (Bool-cases (is_mismatch t.expected_serial serial)) [
              | inl other ↦ inl (ground (arith, found, live, other))
              | inr sn ↦ elim (Bool-cases (is_mismatch t.expected_product product)) [
                | inl other ↦ inl (ground (arith, found, live, sn, other))
                | inr pn ↦ inr (
                  id,
                  t,
                  ground (arith, found, live, sn, pn),
                  record {
                    stored = stored;
                    hashed = hashed;
                    live = live;
                    serial = sn;
                    product = pn;
                    counted = ground (
                      arith,
                      found,
                      live,
                      sn,
                      pn,
                      save_locked-contents env.disk (with_tokens s ts),
                      lookup-insert id id t' s.contents.enrollment_tokens,
                    );
                  },
                )
              ]
            ]
          ]
    ]

module _ (lib : Library) (ca : Authority) (ttl : ℤ) (endpoint : String) (calls : Calls) where
  -- The device of a response: stored for the tenant of the token, with a certificate that the
  -- authority issued for its id.
  pub record IsAdmitted (req : EnrollmentRequest) (owner : String) (res : EnrollmentResponse)
      (devices : Dict Device) (d : Device) (certificate : Certificate) : Type 0 where
    pub stored : lookup res.device_id devices ≡ some d
    pub tenant : (d.tenant_id ≡ owner) × (res.tenant_id ≡ owner)
    pub subject : d.certificate_subject ≡ res.device_id
    pub issued :
        ca.issue_device_certificate req.public_key_pem res.device_id ttl ≡ success certificate
    pub certified :
        (d.certificate_serial ≡ certificate.serial) × (res.client_certificate_pem ≡ certificate.pem)

  abbrev Admits : EnrollmentRequest → String → EnrollmentResponse → Store → Store → Type 0
  Admits req owner res s s' =
      ((d : Device) × (certificate : Certificate) × IsAdmitted req owner res s'.contents.devices d
          certificate)
      × (s'.contents.enrollment_tokens ≡ s.contents.enrollment_tokens)

  certify-Admits :
      (req : EnrollmentRequest) (owner : String) (device : Device) (certificate : Certificate)
      (s : Store) (res : EnrollmentResponse)
      → device.tenant_id ≡ owner
      → ca.issue_device_certificate req.public_key_pem device.id ttl ≡ success certificate
      → (certify lib ca ttl endpoint calls req owner device certificate s).0 ≡ success res
      → Admits req owner res s (certify lib ca ttl endpoint calls req owner device certificate s).1
  unfolding certify
  certify-Admits req owner device certificate s res own issued ok =
      let certified = record device {
        certificate_serial = certificate.serial;
        certificate_subject = device.id;
        certificate_expires_at = certificate.expires_at;
      } in
      elim (Option-cases (update_device (calls 2) certified s).0) [
        | inr (x, failed) ↦ absurd (ground arith)
        | inl updated ↦
            let (stored, tokens) = update_device_stores (calls 2) certified s updated in
            let (devices, tokens') =
              save_inventory-devices (calls 3) (context_of owner) device.id req.inventory
                (update_device (calls 2) certified s).1 in
            (
              (
                certified,
                certificate,
                record {
                  stored = ground (arith, stored, devices);
                  tenant = (own, ground arith);
                  subject = ground arith;
                  issued = ground (arith, issued);
                  certified = (refl, ground arith);
                },
              ),
              ground (arith, tokens, tokens'),
            )
      ]

  created_tokens :
      (env : Env) (d : Device) (s : Store)
      → (create_device env d s).store.contents.enrollment_tokens ≡ s.contents.enrollment_tokens
  unfolding create_device save_locked
  created_tokens env d s = ground arith

  created_device :
      (env : Env) (d : Device) (s : Store)
      → (e : Device) × ((create_device env d s).value ≡ some e) × (e.tenant_id ≡ d.tenant_id)
  unfolding create_device
  created_device env d s = (_, refl, refl)

  admit-Admits :
      (req : EnrollmentRequest) (token : EnrollmentToken) (s : Store) (res : EnrollmentResponse)
      → (admit lib ca ttl endpoint calls req token s).0 ≡ success res
      → Admits req token.tenant_id res s (admit lib ca ttl endpoint calls req token s).1
  unfolding admit enrolled_device
  admit-Admits req token s res ok =
      let draft = enrolled_device ((calls 0).now 1) token req in
      let reply = create_device (calls 1) draft s in
      elim (Option-cases reply.error) [
        | inr (x, failed) ↦ absurd (ground arith)
        | inl saved ↦
            let (device, value, own) = created_device (calls 1) draft s in
            elim (Outcome-cases Certificate
              (ca.issue_device_certificate req.public_key_pem device.id ttl)) [
                | inl (message, refused) ↦ absurd (ground arith)
                | inr (certificate, issued) ↦
                    let same : admit lib ca ttl endpoint calls req token s
                        ≡ certify lib ca ttl endpoint calls req token.tenant_id device certificate
                            reply.store =
                      rw (admit, saved, value, issued) refl in
                    let done : Admits req token.tenant_id res reply.store
                        (certify lib ca ttl endpoint calls req token.tenant_id device certificate
                          reply.store).1 =
                      certify-Admits req token.tenant_id device certificate reply.store res own
                        issued (ap (λ (r : Enrolled). r.0) (sym same) ∙ ok) in
                    subst (λ (r : Enrolled). Admits req token.tenant_id res s r.1) (sym same)
                      (done.0, done.1 ∙ created_tokens (calls 1) draft s)
              ]
      ]

  -- A successful enrollment has used a stored token with the hash of the one in the request, which
  -- was neither revoked nor expired nor used up and is meant for the serial number and product of
  -- the device; the token has one more use afterwards, and the device of the response is stored for
  -- the tenant of the token, with a certificate that the authority issued for its id.
  pub enroll_lem :
      (req : EnrollmentRequest) (s : Store) (res : EnrollmentResponse)
      → (enroll lib ca ttl endpoint calls req s).0 ≡ success res
      → let s' = (enroll lib ca ttl endpoint calls req s).1 in
        let hash = lib.sha256_hex (or_default req.token req.enrollment_token) in
        (id : String) × (t : EnrollmentToken) × (d : Device) × (certificate : Certificate)
        × IsConsumed ((calls 0).now 0) hash req.fingerprint.serial req.fingerprint.product s s' id t
        × IsAdmitted req t.tenant_id res s'.contents.devices d certificate
  unfolding enroll
  enroll_lem req s res ok =
      let hash = lib.sha256_hex (or_default req.token req.enrollment_token) in
      let serial = req.fingerprint.serial in
      let product = req.fingerprint.product in
      let reply = consume_enrollment_token (calls 0) hash serial product s in
      elim (Bool-cases (or_default req.token req.enrollment_token == "")) [
        | inl empty ↦ absurd (ground arith)
        | inr given ↦ elim (Option-cases reply.error) [
          | inr (x, failed) ↦ absurd (ground arith)
          | inl fine ↦ elim (IsConsumed-cases (calls 0) hash serial product s) [
            | inl missing ↦ absurd (ground arith)
            | inr (id, t, value, used) ↦
                let t' = record t { used_count = suc t.used_count } in
                let same : enroll lib ca ttl endpoint calls req s
                    ≡ admit lib ca ttl endpoint calls req t' reply.store =
                  ground arith in
                let ((d, certificate, admitted), tokens) : Admits req t'.tenant_id res reply.store
                    (enroll lib ca ttl endpoint calls req s).1 =
                  subst (λ (r : Enrolled). Admits req t'.tenant_id res reply.store r.1) (sym same)
                    (admit-Admits req t' reply.store res
                      (ap (λ (r : Enrolled). r.0) (sym same) ∙ ok)) in
                (
                  id,
                  t,
                  d,
                  certificate,
                  record {
                    stored = used.stored;
                    hashed = used.hashed;
                    live = used.live;
                    serial = used.serial;
                    product = used.product;
                    counted = ap (lookup id) tokens ∙ used.counted;
                  },
                  admitted,
                )
          ]
        ]
      ]
