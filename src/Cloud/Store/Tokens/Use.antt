-- ===== src/Cloud/Store/Tokens/Use.antt =====
-- How often, and for whom, `ConsumeEnrollmentToken` accepts a token.
use soul_room_edge_platform.Base.{
  ℕ, suc, ◌+◌, ◌&&◌, String, ◌≡◌, ◌≢◌, ◌⊎◌, inl, inr, Bool, true, false, none, some, List, [], ◌∷◌,
  ◌==◌, if◌then◌else◌, arith, Option-cases, Bool-cases,
}
use soul_room_edge_platform.Base.Int.{pos, ◌≤ℤ◌}
use soul_room_edge_platform.Base.Lists.{All, any}
use soul_room_edge_platform.Base.Dict.{Dict, lookup, insert, lookup-insert}
use soul_room_edge_platform.Cloud.Model.{EnrollmentToken}
use soul_room_edge_platform.Cloud.Store.{Store, Env, Reply, save_locked, save_locked-contents}
use soul_room_edge_platform.Cloud.Store.Tokens.{
  with_tokens, find_token, is_spent, is_mismatch, consume_enrollment_token,
}

abbrev pub used : EnrollmentToken → EnrollmentToken
used t = record t { used_count = suc t.used_count }

-- Whether a token can be used now, by a device with this serial number and product.
abbrev pub is_usable : ℕ → String → String → EnrollmentToken → Bool
is_usable now serial product t =
    if is_spent now t
    then false
    else if is_mismatch t.expected_serial serial
    then false
    else if is_mismatch t.expected_product product
    then false
    else true

-- The only stored token with the hash.
pub record IsOnly (hash id : String) (t : EnrollmentToken) (ts : Dict EnrollmentToken)
    : Type 0 where
  pub stored : lookup id ts ≡ some t
  pub hashed : t.token_hash ≡ hash
  pub unique :
      (k : String) (x : EnrollmentToken) → lookup k ts ≡ some x → x.token_hash ≡ hash → k ≡ id

-- A visit that reaches the token finds it.
find_token-IsOnly :
    (hash id : String) (t : EnrollmentToken) (ids : List String) (ts : Dict EnrollmentToken)
    → IsOnly hash id t ts
    → any (λ i. i == id) ids ≡ true
    → find_token hash ids ts ≡ some (id, t)
unfolding find_token
find_token-IsOnly hash id t [] ts only listed = cc
find_token-IsOnly hash id t (i ∷ ids) ts only listed = elim (Option-cases (lookup i ts)) [
  | inl e ↦ ground (arith, find_token-IsOnly hash id t ids ts only, only.stored)
  | inr (x, e) ↦
      ground
        (arith, find_token-IsOnly hash id t ids ts only, only.stored, only.hashed, only.unique i x)
]

-- Whether a save fails does not depend on the contents.
save_error :
    (s : Store) (ts : Dict EnrollmentToken) (env : Env)
    → (save_locked env.disk (with_tokens s ts)).0 ≡ (save_locked env.disk s).0
unfolding save_locked
save_error s ts env = ground arith

module _ (env : Env) (hash serial product : String) (s : Store) where
  abbrev pub consumed : Reply EnrollmentToken
  consumed = consume_enrollment_token env hash serial product s

  -- Of the only token with the hash, reached by the visit: it is accepted exactly if it is not
  -- revoked, expired or used up and is meant for this serial number and product. Then it is
  -- stored with one more use, every other token as it was, and the call reports what the save of
  -- the store reports, so no error where the disk works; else there is an error and nothing
  -- changes.
  pub consume_enrollment_token_lem :
      (id k : String) (t : EnrollmentToken)
      → IsOnly hash id t s.contents.enrollment_tokens
      → any (λ i. i == id) env.order ≡ true
      → let usable = is_usable (env.now 0) serial product t in
        (consumed.value ≡ (if usable then some (used t) else none))
        × (lookup k consumed.store.contents.enrollment_tokens
            ≡ (if usable && id == k then some (used t) else lookup k s.contents.enrollment_tokens))
        × (((usable ≡ true) × (consumed.error ≡ (save_locked env.disk s).0))
            ⊎ ((usable ≡ false) × (consumed.error ≢ none) × (consumed.store ≡ s)))
  unfolding consume_enrollment_token
  consume_enrollment_token_lem id k t only listed =
      let found = find_token-IsOnly hash id t env.order s.contents.enrollment_tokens only listed in
      let ts = insert id (used t) s.contents.enrollment_tokens in
      let same = save_locked-contents env.disk (with_tokens s ts) in
      (
        ground (arith, found),
        ground (arith, found, same, lookup-insert id k (used t) s.contents.enrollment_tokens),
        ground (arith, found, save_error s ts env),
      )

  consumed-IsOnly :
      (id : String) (t : EnrollmentToken)
      → IsOnly hash id t s.contents.enrollment_tokens
      → any (λ i. i == id) env.order ≡ true
      → IsOnly hash id
          (if is_usable (env.now 0) serial product t then used t else t)
          consumed.store.contents.enrollment_tokens
  consumed-IsOnly id t only listed = record {
    stored = ground (arith, only.stored, (consume_enrollment_token_lem id id t only listed).1);
    hashed = ground (arith, only.hashed);
    unique = λ k x found same. ground (
      arith,
      only.unique k x,
      only.unique k t,
      only.hashed,
      only.stored,
      (consume_enrollment_token_lem id k t only listed).1,
    );
  }

-- A request to enroll: what the environment supplies, the serial number and the product.
pub record Attempt : Type 0 where
  pub env : Env
  pub serial : String
  pub product : String

-- How many of the requests with one token are accepted, one after another.
unfoldable pub accepted : String → List Attempt → Store → ℕ
accepted hash [] s = 0
accepted hash (a ∷ rest) s =
    let r = consumed a.env hash a.serial a.product s in
    let n = accepted hash rest r.store in elim r.value [ some _ ↦ suc n | none ↦ n ]

is_usable_room :
    (now : ℕ) (serial product : String) (t : EnrollmentToken)
    → is_usable now serial product t ≡ true
    → pos (suc t.used_count) ≤ℤ t.max_devices
is_usable_room now serial product t h = ground arith

-- Through any sequence of requests, at any times and for any devices, a token is accepted no
-- more often than its limit allows beyond the uses it already has.
pub accepted-le-max_devices :
    (hash id : String) (t : EnrollmentToken) (attempts : List Attempt) (s : Store)
    → IsOnly hash id t s.contents.enrollment_tokens
    → All (λ a. any (λ i. i == id) a.env.order ≡ true) attempts
    → pos t.used_count ≤ℤ t.max_devices
    → pos (accepted hash attempts s + t.used_count) ≤ℤ t.max_devices
unfolding accepted
accepted-le-max_devices hash id t [] s only listed within = omega arith
accepted-le-max_devices hash id t (a ∷ rest) s only listed within =
    let step = consumed-IsOnly a.env hash a.serial a.product s id t only listed.0 in
    let law =
      (consume_enrollment_token_lem a.env hash a.serial a.product s id id t only listed.0).0 in
    elim (Bool-cases (is_usable (a.env.now 0) a.serial a.product t)) [
      | inl ok ↦
          let ih =
            accepted-le-max_devices hash id (used t) rest
              (consumed a.env hash a.serial a.product s).store (rw ok at step) listed.1
              (is_usable_room (a.env.now 0) a.serial a.product t ok) in
          ground (arith, ih, law, ok)
      | inr bad ↦
          let ih =
            accepted-le-max_devices hash id t rest (consumed a.env hash a.serial a.product s).store
              (rw bad at step) listed.1 within in
          ground (arith, ih, law, bad)
    ]
