-- ===== src/Signer/Rrset/Keys.antt =====
-- signer/src/signer/keys.c: the keys that the signer configuration lists. Memory is always found.
use opendnssec_workflow_test.Common.{
  ℕ, ◌≡◌, inl, inr, Bool, Bool-cases, List, [], ◌∷◌, ◌++◌, Option, none, some, suc, get_elem?,
  if◌then◌else◌,
}
use opendnssec_workflow_test.Common.Result.{Result, ok, err, assertion}
use opendnssec_workflow_test.Shared.File.{ods_strcmp, is_zero, ods_strcmp-zero}

-- `key_type`, of a key with a locator. The numbers `publish`, `ksk` and `zsk` are tests.
pub record Key : Type 0 where
  pub locator : List ℕ
  pub algorithm : ℕ
  pub flags : ℕ
  pub publish : Bool
  pub ksk : Bool
  pub zsk : Bool

-- `keylist_push`, which stops the process without a locator.
pub keylist_push : List Key → Option (List ℕ) → ℕ → ℕ → Bool → Bool → Bool → Result (List Key)
keylist_push keys none algorithm flags publish ksk zsk = err assertion
keylist_push keys (some locator) algorithm flags publish ksk zsk = ok (
    keys
    ++ record {
      locator = locator;
      algorithm = algorithm;
      flags = flags;
      publish = publish;
      ksk = ksk;
      zsk = zsk;
    }
      ∷ [])

-- The loop of `keylist_lookup_by_locator`.
unfoldable pub lookup_loop : List Key → List ℕ → Option Key
lookup_loop [] locator = none
lookup_loop (key ∷ keys) locator =
    let rest = lookup_loop keys locator in
    if is_zero (ods_strcmp (some key.locator) (some locator)) then some key else rest

unfoldable pub keylist_lookup_by_locator : List Key → Option (List ℕ) → Option Key
keylist_lookup_by_locator keys none = none
keylist_lookup_by_locator keys (some locator) = lookup_loop keys locator

-- A key that is found stands in the list, under the locator.
pub lookup_loop-some :
    (keys : List Key) (locator : List ℕ) (key : Key)
    → lookup_loop keys locator ≡ some key
    → (j : ℕ) × ((get_elem? keys j ≡ some key) × (key.locator ≡ locator))
unfolding lookup_loop
lookup_loop-some [] locator key h = absurd cc
lookup_loop-some (k ∷ keys) locator key h =
    elim (Bool-cases (is_zero (ods_strcmp (some k.locator) (some locator)))) [
      | inl q ↦
          let same : k ≡ key = cc in
          let e : k.locator ≡ locator = ods_strcmp-zero k.locator locator q in (0, (cc, cc))
      | inr q ↦
          let rest = lookup_loop-some keys locator key cc in (suc rest.0, (rest.1.0, rest.1.1))
    ]
