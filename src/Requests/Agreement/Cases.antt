-- ===== src/Requests/Agreement/Cases.antt =====
-- The calls whose parameters depend on a test.
use metaflux_client_rust.Base.{
  ℕ, String, [], ◌∷◌, Bool, true, false, Option, none, some, ◌≡◌, refl, sym, ap, ◌≤◌, ◌==◌, ==_iff,
  if◌then◌else◌, arith,
}
use metaflux_client_rust.Json.{bool, number, string}
use metaflux_client_rust.Signing.{Bytes, Address, zeros}
use metaflux_client_rust.Signing.Actions.{
  type_string, encode_data, claim_rewards, approve_agent, create_vault,
  register_metaliquidity_operator,
}
use metaflux_client_rust.Requests.{
  bytes_equal, is_zero_address, wire_action, json_object, set_field, posted_hex,
}
use metaflux_client_rust.Requests.Vaults.{VaultModify}
use metaflux_client_rust.Requests.Calls.{
  request, claim_rewards_call, approve_agent_call, create_vault_call, vault_modify_call,
  register_metaliquidity_operator_call,
}
use metaflux_client_rust.Requests.Carried.{IsFaithful, Carries}

pub bytes_equal_sound : (a b : Bytes) → bytes_equal a b ≡ true → a ≡ b
bytes_equal_sound [] [] h = refl
bytes_equal_sound [] (c ∷ cs) h = absurd (cc h)
bytes_equal_sound (b ∷ bs) [] h = absurd (cc h)
bytes_equal_sound (b ∷ bs) (c ∷ cs) h = grind (arith, bytes_equal_sound bs cs)

zero_of : (k : ℕ) → (k == 1) ≡ false → k ≤ 1 → 0 ≡ k
zero_of k e h = ground arith

module _ (hex_encode : Bytes → String) (chain : String) (nonce : ℕ) where
  claim_by :
      (v : Address) (b : Bool)
      → is_zero_address v ≡ b
      → Carries hex_encode chain nonce
          (claim_rewards (record { metaflux_chain = chain; validator = v; nonce = nonce }))
          (wire_action "claim_rewards" (
            if b
            then json_object []
            else json_object (("validator", posted_hex hex_encode v) ∷ [])))
  unfolding type_string encode_data
  claim_by v true e = (refl, (refl, (bytes_equal_sound v (zeros 20) e, (refl, tt))))
  claim_by v false e = (refl, (refl, (refl, (refl, tt))))

  agent_by :
      (a : Address) (n : String) (t : ℕ) (b : Bool)
      → (b ≡ true → t ≡ 0)
      → Carries hex_encode chain nonce
          (approve_agent (record {
            metaflux_chain = chain;
            agent_address = a;
            agent_name = n;
            expires_at_ms = t;
            nonce = nonce;
          }))
          (wire_action "approve_agent" (
            if b
            then json_object (("agent", posted_hex hex_encode a) ∷ ("name", string n) ∷ [])
            else set_field "expires_at_ms"
                (number t)
                (json_object (("agent", posted_hex hex_encode a) ∷ ("name", string n) ∷ []))))
  unfolding type_string encode_data
  agent_by a n t true e = (refl, (refl, (refl, (refl, (e refl, (refl, tt))))))
  agent_by a n t false e = (refl, (refl, (refl, (refl, (refl, (refl, tt))))))

  operator_by :
      (v : ℕ) (a : Address) (d : Bool) (t : ℕ) (b : Bool)
      → (b ≡ true → t ≡ 0)
      → Carries hex_encode chain nonce
          (register_metaliquidity_operator (record {
            metaflux_chain = chain;
            vault_id = v;
            operator = a;
            allowed = d;
            expires_at_ms = t;
            nonce = nonce;
          }))
          (wire_action "register_metaliquidity_operator" (
            if b
            then json_object (
                ("vault_id", number v)
                ∷ ("operator", posted_hex hex_encode a)
                ∷ ("allowed", bool d)
                ∷ [])
            else set_field "expires_at_ms" (number t) (
                json_object (
                  ("vault_id", number v)
                  ∷ ("operator", posted_hex hex_encode a)
                  ∷ ("allowed", bool d)
                  ∷ []))))
  unfolding type_string encode_data
  operator_by v a d t true e = (refl, (refl, (refl, (refl, (refl, (e refl, (refl, tt)))))))
  operator_by v a d t false e = (refl, (refl, (refl, (refl, (refl, (refl, (refl, tt)))))))

  vault_by :
      (n : String) (l k : ℕ) (b : Bool)
      → (k == 1) ≡ b
      → k ≤ 1
      → Carries hex_encode chain nonce
          (create_vault (record {
            metaflux_chain = chain;
            name = n;
            lock_period_secs = l;
            kind = k;
            nonce = nonce;
          }))
          (wire_action "create_vault" (
            json_object (
              ("name", string n)
              ∷ ("lock_period_secs", number l)
              ∷ ("kind", string (if b then "Metaliquidity" else "User"))
              ∷ [])))
  unfolding type_string encode_data
  vault_by n l k true e h =
      (refl, (refl, (refl, (refl, (ap some (sym ((==_iff k 1).0 e)), (refl, tt))))))
  vault_by n l k false e h = (refl, (refl, (refl, (refl, (ap some (zero_of k e h), (refl, tt))))))

module _ (hex_encode : Bytes → String) where
  pub claim_rewards_carried :
      (v : Address) → IsFaithful hex_encode (request hex_encode (claim_rewards_call v))
  unfolding request
  claim_rewards_carried v =
      λ chain nonce. claim_by hex_encode chain nonce v (is_zero_address v) refl

  pub approve_agent_carried :
      (a : Address) (n : String) (t : ℕ)
      → IsFaithful hex_encode (request hex_encode (approve_agent_call a n t))
  unfolding request
  approve_agent_carried a n t =
      λ chain nonce. agent_by hex_encode chain nonce a n t (t == 0) (==_iff t 0).0

  pub register_metaliquidity_operator_carried :
      (v : ℕ) (a : Address) (d : Bool) (t : ℕ)
      → IsFaithful hex_encode (request hex_encode (register_metaliquidity_operator_call v a d t))
  unfolding request
  register_metaliquidity_operator_carried v a d t =
      λ chain nonce. operator_by hex_encode chain nonce v a d t (t == 0) (==_iff t 0).0

  pub create_vault_carried :
      (n : String) (l k : ℕ)
      → k ≤ 1
      → IsFaithful hex_encode (request hex_encode (create_vault_call n l k))
  unfolding request
  create_vault_carried n l k h =
      λ chain nonce. vault_by hex_encode chain nonce n l k (k == 1) refl h

  modify_by :
      (v : ℕ) (n : Option String) (l m : Option ℕ) (p : Option Bool)
      → IsFaithful hex_encode (
          request hex_encode (
            vault_modify_call (record {
              vault_id = v;
              new_name = n;
              new_lock_period_secs = l;
              new_management_fee_bps = m;
              new_paused = p;
            })))
  unfolding request type_string encode_data
  modify_by v none none none none = λ chain nonce.
      (refl, (refl, (refl, (refl, (refl, (refl, (refl, (refl, (refl, (refl, (refl, tt)))))))))))
  modify_by v none none none (some p) = λ chain nonce.
      (refl, (refl, (refl, (refl, (refl, (refl, (refl, (refl, (refl, (refl, (refl, tt)))))))))))
  modify_by v none none (some m) none = λ chain nonce.
      (refl, (refl, (refl, (refl, (refl, (refl, (refl, (refl, (refl, (refl, (refl, tt)))))))))))
  modify_by v none none (some m) (some p) = λ chain nonce.
      (refl, (refl, (refl, (refl, (refl, (refl, (refl, (refl, (refl, (refl, (refl, tt)))))))))))
  modify_by v none (some l) none none = λ chain nonce.
      (refl, (refl, (refl, (refl, (refl, (refl, (refl, (refl, (refl, (refl, (refl, tt)))))))))))
  modify_by v none (some l) none (some p) = λ chain nonce.
      (refl, (refl, (refl, (refl, (refl, (refl, (refl, (refl, (refl, (refl, (refl, tt)))))))))))
  modify_by v none (some l) (some m) none = λ chain nonce.
      (refl, (refl, (refl, (refl, (refl, (refl, (refl, (refl, (refl, (refl, (refl, tt)))))))))))
  modify_by v none (some l) (some m) (some p) = λ chain nonce.
      (refl, (refl, (refl, (refl, (refl, (refl, (refl, (refl, (refl, (refl, (refl, tt)))))))))))
  modify_by v (some n) none none none = λ chain nonce.
      (refl, (refl, (refl, (refl, (refl, (refl, (refl, (refl, (refl, (refl, (refl, tt)))))))))))
  modify_by v (some n) none none (some p) = λ chain nonce.
      (refl, (refl, (refl, (refl, (refl, (refl, (refl, (refl, (refl, (refl, (refl, tt)))))))))))
  modify_by v (some n) none (some m) none = λ chain nonce.
      (refl, (refl, (refl, (refl, (refl, (refl, (refl, (refl, (refl, (refl, (refl, tt)))))))))))
  modify_by v (some n) none (some m) (some p) = λ chain nonce.
      (refl, (refl, (refl, (refl, (refl, (refl, (refl, (refl, (refl, (refl, (refl, tt)))))))))))
  modify_by v (some n) (some l) none none = λ chain nonce.
      (refl, (refl, (refl, (refl, (refl, (refl, (refl, (refl, (refl, (refl, (refl, tt)))))))))))
  modify_by v (some n) (some l) none (some p) = λ chain nonce.
      (refl, (refl, (refl, (refl, (refl, (refl, (refl, (refl, (refl, (refl, (refl, tt)))))))))))
  modify_by v (some n) (some l) (some m) none = λ chain nonce.
      (refl, (refl, (refl, (refl, (refl, (refl, (refl, (refl, (refl, (refl, (refl, tt)))))))))))
  modify_by v (some n) (some l) (some m) (some p) = λ chain nonce.
      (refl, (refl, (refl, (refl, (refl, (refl, (refl, (refl, (refl, (refl, (refl, tt)))))))))))

  pub vault_modify_carried :
      (p : VaultModify) → IsFaithful hex_encode (request hex_encode (vault_modify_call p))
  vault_modify_carried p =
      modify_by p.vault_id p.new_name p.new_lock_period_secs p.new_management_fee_bps p.new_paused
