-- ===== src/Requests/Posting.antt =====
-- The envelopes that reach the node, as a verifier sees them (src/rest/exchange_typed.rs,
-- `post_signed_typed_raw`, `post_signed_typed_at_nonce` and `validate_referral_code`).
use mathlib.Core.Path.{subst}
use metaflux_client_rust.Base.{
  ℕ, String, [], ◌∷◌, true, Result, ok, err, ◌>>=◌, Result-cases, inl, inr, ◌≡◌, refl, ◌↔◌, ◌⊎◌,
  ◌≤◌, unwrap_or, map_err, length, All, arith, ◌∙◌, ◌==◌, not, reject_if, is_empty,
}
use metaflux_client_rust.Signing.{Bytes, as_bytes}
use metaflux_client_rust.Signing.Actions.{TypedAction}
use metaflux_client_rust.Signing.Digest.{new_with_expiry, digest, metaflux_chain_tag}
use metaflux_client_rust.Requests.{
  RequestError, no_holders, lengths_differ, Build, Request, at_fresh_nonce, at_nonce,
  TypedSignedEnvelope, post_signed_typed_at_nonce, post_signed_typed_raw, mtf_chain_id,
  expires_after_wire, all_lower_or_digit, is_referral_code, validate_referral_code,
}
use metaflux_client_rust.Requests.Calls.{
  Call, request, multi_sig_call, register_referral_code_call, set_referrer_by_code_call,
  spot_seed_holders_call,
}
use metaflux_client_rust.Requests.Carried.{build_of, Carries, IsFaithful}
use metaflux_client_rust.Requests.Agreement.{IsTagged, request-IsFaithful}

-- Why a call fails: its own checks, or what signs and posts.
pub data CallError (E : Type 0) : Type 0 where
  refused : RequestError → CallError E
  failed : E → CallError E

expires_after_wire_lem : (e : ℕ) → unwrap_or (expires_after_wire e) 0 ≡ e
expires_after_wire_lem e = ground arith

-- The nonce of a posted call: the fresh one, but for a multisig bundle, which has the nonce that its
-- roster signed.
abbrev pub posted_nonce : ℕ → Call → ℕ
posted_nonce fresh (multi_sig_call user inner_action_blob signatures inner_nonce) = inner_nonce
posted_nonce fresh _ = fresh

abbrev nonce_at : ℕ → Request → ℕ
nonce_at fresh (at_fresh_nonce build) = fresh
nonce_at fresh (at_nonce nonce build) = nonce

abbrev IsAt : ℕ → ℕ → Result RequestError Request → Type 0
IsAt fresh n (err e) = Unit
IsAt fresh n (ok req) = nonce_at fresh req ≡ n

request-IsAt :
    (hex_encode : Bytes → String) (fresh : ℕ) (c : Call)
    → IsAt fresh (posted_nonce fresh c) (request hex_encode c)
unfolding request
request-IsAt hex_encode fresh (register_referral_code_call code) =
    elim (Result-cases (validate_referral_code code)) [
      | inl (u, e) ↦ rw e refl
      | inr (x, e) ↦ rw e tt
    ]
request-IsAt hex_encode fresh (set_referrer_by_code_call code) =
    elim (Result-cases (validate_referral_code code)) [
      | inl (u, e) ↦ rw e refl
      | inr (x, e) ↦ rw e tt
    ]
request-IsAt hex_encode fresh (spot_seed_holders_call asset holders amounts) =
    elim (Result-cases (reject_if (is_empty holders) no_holders)) [
      | inl (u, e) ↦
          rw e
            (elim (Result-cases
              (reject_if (not (length holders == length amounts)) lengths_differ)) [
                | inl (v, f) ↦ rw f refl
                | inr (x, f) ↦ rw f tt
              ])
      | inr (x, e) ↦ rw e tt
    ]
request-IsAt hex_encode fresh _ = refl

module _ {E : Type 0} (keccak : Bytes → Bytes) (hex_encode : Bytes → String)
    (sign : Bytes → Result E String) (expires_after_ms : ℕ) where
  -- The envelope of a request, for the fresh nonce that is at hand.
  abbrev pub post_at : ℕ → Request → Result E TypedSignedEnvelope
  post_at fresh (at_fresh_nonce build) =
      post_signed_typed_raw keccak sign ok expires_after_ms fresh build
  post_at fresh (at_nonce nonce build) =
      post_signed_typed_at_nonce keccak sign ok expires_after_ms nonce build

  -- The envelope that a call posts.
  unfoldable pub envelope_of : ℕ → Call → Result (CallError E) TypedSignedEnvelope
  unfolding request
  envelope_of fresh c =
      map_err refused (request hex_encode c) >>= λ req. map_err failed (post_at fresh req)

  -- An envelope verifies as a signature of an action: the signature is of the digest of that action for
  -- the chain and for the expiry that the envelope shows, and the body carries the action under the
  -- chain's tag and the nonce that the envelope shows.
  abbrev pub Verifies : TypedSignedEnvelope → TypedAction → Type 0
  Verifies env typed =
      (sign (digest keccak (new_with_expiry typed mtf_chain_id (unwrap_or env.expires_after 0)))
        ≡ ok env.signature)
      × Carries hex_encode (metaflux_chain_tag mtf_chain_id) env.nonce typed env.action

  -- the envelope of a build whose signature is at hand
  enveloped : ℕ → Build → String → TypedSignedEnvelope
  enveloped nonce build signature = record {
    action = (build (metaflux_chain_tag mtf_chain_id) nonce).1;
    nonce = nonce;
    signature = signature;
    expires_after = expires_after_wire expires_after_ms;
  }

  enveloped-Verifies :
      (nonce : ℕ) (build : Build) (signature : String) (env : TypedSignedEnvelope)
      → IsFaithful hex_encode (ok (at_nonce nonce build))
      → sign (
          digest keccak (
            new_with_expiry
              (build (metaflux_chain_tag mtf_chain_id) nonce).0
              mtf_chain_id
              expires_after_ms))
        ≡ ok signature
      → enveloped nonce build signature ≡ env
      → (env.nonce ≡ nonce) × Verifies env (build (metaflux_chain_tag mtf_chain_id) env.nonce).0
  unfolding enveloped
  enveloped-Verifies nonce build signature env faithful e same =
      subst
        (λ env.
          (env.nonce ≡ nonce) × Verifies env (build (metaflux_chain_tag mtf_chain_id) env.nonce).0)
        same
        (
          refl,
          (
            rw (expires_after_wire_lem expires_after_ms) e,
            faithful (metaflux_chain_tag mtf_chain_id) nonce,
          ),
        )

  at_nonce-Verifies :
      (nonce : ℕ) (build : Build) (env : TypedSignedEnvelope)
      → IsFaithful hex_encode (ok (at_nonce nonce build))
      → post_signed_typed_at_nonce keccak sign ok expires_after_ms nonce build ≡ ok env
      → (env.nonce ≡ nonce) × Verifies env (build (metaflux_chain_tag mtf_chain_id) env.nonce).0
  unfolding post_signed_typed_at_nonce enveloped
  at_nonce-Verifies nonce build env faithful h =
      elim (Result-cases (
        sign (
          digest keccak (
            new_with_expiry (build (metaflux_chain_tag mtf_chain_id) nonce).0 mtf_chain_id
              expires_after_ms)))) [
                | inl (signature, e) ↦
                    enveloped-Verifies nonce build signature env faithful e (cc (rw e at h))
                | inr (x, e) ↦ absurd (cc (rw e at h))
              ]

  unfailed :
      (r : Result E TypedSignedEnvelope) (env : TypedSignedEnvelope)
      → map_err failed r ≡ ok env
      → r ≡ ok env
  unfailed (ok x) env h = cc h
  unfailed (err x) env h = absurd (cc h)

  -- What was posted is the action that a request builds for the nonce of the envelope, and verifies.
  abbrev pub IsSigned : TypedSignedEnvelope → Result RequestError Request → Type 0
  IsSigned env r =
      (req : Request) × (r ≡ ok req)
      × Verifies env (build_of req (metaflux_chain_tag mtf_chain_id) env.nonce).0

  posted-Verifies :
      (fresh n : ℕ) (r : Result RequestError Request) (env : TypedSignedEnvelope)
      → IsFaithful hex_encode r
      → IsAt fresh n r
      → (map_err refused r >>= λ req. map_err failed (post_at fresh req)) ≡ ok env
      → (env.nonce ≡ n) × IsSigned env r
  unfolding post_signed_typed_raw
  posted-Verifies fresh n (err e) env faithful at_n h = absurd (cc h)
  posted-Verifies fresh n (ok (at_fresh_nonce build)) env faithful at_n h =
      let (same, verifies) = at_nonce-Verifies fresh build env faithful (unfailed _ env h) in
      (same ∙ at_n, (at_fresh_nonce build, refl, verifies))
  posted-Verifies fresh n (ok (at_nonce nonce build)) env faithful at_n h =
      let (same, verifies) = at_nonce-Verifies nonce build env faithful (unfailed _ env h) in
      (same ∙ at_n, (at_nonce nonce build, refl, verifies))

-- Whatever a call posts verifies: the nonce of its envelope is the fresh one, or the given one of a
-- multisig bundle, and the signature signs the digest, for the chain of the client and for the expiry
-- that the envelope shows, of the action that the call builds for that nonce, which the tag of the body
-- names, and each of whose members the body tells, with the chain tag and the nonce of the envelope. A
-- vault is taken to be of kind 0 or 1.
pub envelope_of-Verifies :
    {E : Type 0} (keccak : Bytes → Bytes) (hex_encode : Bytes → String)
    (sign : Bytes → Result E String) (expires_after_ms fresh : ℕ) (c : Call)
    (env : TypedSignedEnvelope)
    → IsTagged c
    → envelope_of keccak hex_encode sign expires_after_ms fresh c ≡ ok env
    → (env.nonce ≡ posted_nonce fresh c)
      × IsSigned keccak hex_encode sign expires_after_ms env (request hex_encode c)
unfolding envelope_of
envelope_of-Verifies keccak hex_encode sign expires_after_ms fresh c env h e =
    posted-Verifies keccak hex_encode sign expires_after_ms fresh (posted_nonce fresh c)
      (request hex_encode c) env (request-IsFaithful hex_encode c h)
      (request-IsAt hex_encode fresh c) e

-- what the referral checks ask of the bytes of a code
abbrev pub IsCodeByte : ℕ → Type 0
IsCodeByte b = ((b'a' ≤ b) × (b ≤ b'z')) ⊎ ((b'0' ≤ b) × (b ≤ b'9'))

all_lower_or_digit_iff : (bs : Bytes) → (all_lower_or_digit bs ≡ true) ↔ All IsCodeByte bs
all_lower_or_digit_iff [] = (λ _. tt, λ _. refl)
all_lower_or_digit_iff (b ∷ bs) = ground (arith, all_lower_or_digit_iff bs)

-- A referral code passes the check exactly when it has 3 to 16 bytes, each a lower-case letter or a digit.
pub validate_referral_code_iff :
    (code : String)
    → (validate_referral_code code ≡ ok tt) ↔ (
        (3 ≤ length (as_bytes code))
        × (length (as_bytes code) ≤ 16)
        × All IsCodeByte (as_bytes code))
unfolding validate_referral_code is_referral_code
validate_referral_code_iff code = ground (arith, all_lower_or_digit_iff (as_bytes code))
