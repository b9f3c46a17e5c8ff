-- ===== src/Signer/Rrset/Sign/Period.antt =====
-- The validity period of a signature: `rrset_sigvalid_period` of signer/src/signer/rrset.c.
use opendnssec_workflow_test.Common.{
  ℕ, ◌+◌, ◌*◌, ◌%◌, ◌^◌, ◌≤◌, ◌<◌, ◌≡◌, ◌≢◌, refl, false, ◌||◌, arith, ◌==◌, if◌then◌else◌,
}
use opendnssec_workflow_test.Common.Int.{pos, sub_ℕ, ◌≤ℤ◌}
use opendnssec_workflow_test.Signer.Rrset.{type_nsec, type_nsec3}
use opendnssec_workflow_test.Signer.Rrset.Sign.{Durations, ods_rand, rrset_sigvalid_period}

-- The validity of a set's signatures, without the jitter.
abbrev pub validity_of : Durations → ℕ → ℕ
validity_of sc rrtype =
    if rrtype == type_nsec || rrtype == type_nsec3
    then sc.sig_validity_denial
    else sc.sig_validity_default

abbrev random_jitter : (ℕ → ℕ) → ℕ → ℕ
random_jitter uniform jitter = if jitter == 0 then 0 else ods_rand uniform (jitter * 2)

jitter_bound :
    (uniform : ℕ → ℕ) (jitter : ℕ)
    → ((n : ℕ) → 0 < n → uniform n < n)
    → jitter * 2 + 1 < 2 ^ 32
    → random_jitter uniform jitter ≤ jitter * 2
jitter_bound uniform jitter u j =
    ground (arith, u ((jitter * 2 % 2 ^ 32 + 1) % 2 ^ 32) (omega arith))

jittered_above : (middle rnd jitter : ℕ) → sub_ℕ middle jitter ≤ℤ sub_ℕ (middle + rnd) jitter
jittered_above middle rnd jitter = ground arith

jittered_below :
    (middle rnd jitter : ℕ)
    → rnd ≤ jitter * 2
    → sub_ℕ (middle + rnd) jitter ≤ℤ pos (middle + jitter)
jittered_below middle rnd jitter h = ground arith

-- When arc4random_uniform() answers below its bound and twice the jitter is below 2 ^ 32 - 1, the
-- expiration that `rrset_sigvalid_period` calculates, of a type and a time other than 0, is the time
-- of signing plus the validity, give or take at most the jitter, and the inception is the time of
-- signing less the offset.
pub rrset_sigvalid_period-within :
    (uniform : ℕ → ℕ) (sc : Durations) (rrtype signtime : ℕ)
    → ((n : ℕ) → 0 < n → uniform n < n)
    → sc.sig_jitter * 2 + 1 < 2 ^ 32
    → rrtype ≢ 0
    → signtime ≢ 0
    → let period = rrset_sigvalid_period uniform sc rrtype signtime in
      let middle = signtime + validity_of sc rrtype in
      (sub_ℕ middle sc.sig_jitter ≤ℤ period.1)
      × ((period.1 ≤ℤ pos (middle + sc.sig_jitter))
          × (period.0 ≡ sub_ℕ signtime sc.sig_inception_offset))
unfolding rrset_sigvalid_period
rrset_sigvalid_period-within uniform sc rrtype signtime u j t s =
    let middle = signtime + validity_of sc rrtype in
    let h : (rrtype == 0 || signtime == 0) ≡ false = ground arith in
    let d = jitter_bound uniform sc.sig_jitter u j in
    rw h (
      jittered_above middle (random_jitter uniform sc.sig_jitter) sc.sig_jitter,
      (jittered_below middle (random_jitter uniform sc.sig_jitter) sc.sig_jitter d, refl),
    )
